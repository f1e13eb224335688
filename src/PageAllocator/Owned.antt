-- ===== src/PageAllocator/Owned.antt =====
-- `OwnsPointer` on the blocks that were handed out.
use native.Mathlib.Nat.{mul_comm}
use native_crash2java.Base.{ℕ, ◌*◌, ◌≤◌, ◌<◌, ◌≡◌, inl, inr, true, List, [], ◌∷◌, arith}
use native_crash2java.PageAllocator.{PageHeader, PageAllocator, owns, owns_pointer}
use native_crash2java.PageAllocator.Blocks.{IsInside, Owns}

owns-inside :
    (header page_size : ℕ) (last : List PageHeader) (p e q : ℕ)
    → IsInside header page_size last p e
    → p ≤ q
    → q < e
    → owns page_size last q ≡ true
unfolding owns
owns-inside header page_size [] p e q i l h = absurd i
owns-inside header page_size (x ∷ last) p e q (inl (a, b)) l h =
    let c : page_size * x.num_pages ≡ x.num_pages * page_size = mul_comm page_size x.num_pages in
    ground arith
owns-inside header page_size (x ∷ last) p e q (inr i) l h =
    let later : owns page_size last q ≡ true = owns-inside header page_size last p e q i l h in
    ground arith

-- The allocator owns every byte of the block that it handed out last.
pub owns_pointer-Owns :
    (word header : ℕ) (a : PageAllocator) (blocks : List (ℕ × ℕ)) (p e q : ℕ)
    → Owns word header a ((p, e) ∷ blocks)
    → p ≤ q
    → q < e
    → owns_pointer a q ≡ true
unfolding owns_pointer
owns_pointer-Owns word header a blocks p e q o l h =
    let ((_, i, _), _) = o.inside in owns-inside header a.page_size a.last p e q i l h
