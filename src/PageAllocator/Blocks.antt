-- ===== src/PageAllocator/Blocks.antt =====
-- The blocks that `Alloc` hands out lie in mapped pages and do not overlap.
use native.Mathlib.Nat.{mod-eq_of_lt, add-mod_right, mod_self, div-add-mod, mod-lt}
use native_crash2java.Base.{
  ℕ, ◌+◌, ◌-◌, ◌*◌, ◌/◌, ◌%◌, ◌^◌, ◌≤◌, ◌<◌, ◌≡◌, refl, ◌⊎◌, inl, inr, List, [], ◌∷◌, Option, none,
  some, arith, All, ◌∙◌, ap, ℕ_discrete,
}
use native_crash2java.PageAllocator.{
  PageHeader, PageAllocator, page_allocator, size_sub, pages_for, offset_behind,
}

pub size_sub-exact : (word header a b : ℕ) → b ≤ a → a < 2 ^ word → size_sub word header a b ≡ a - b
size_sub-exact word header a b h fits =
    ap (λ m. m % 2 ^ word) (let e : a + 2 ^ word - b ≡ (a - b) + 2 ^ word = omega arith in e)
    ∙ add-mod_right (a - b) (2 ^ word)
    ∙ mod-eq_of_lt (omega arith)

module _ (word header page_size bytes : ℕ) (positive : 0 < page_size) (some_bytes : 0 < bytes)
    (fits : bytes + header + page_size ≤ 2 ^ word) where
  abbrev pub pages : ℕ
  pages = pages_for word header page_size bytes

  abbrev pub offset : ℕ
  offset = offset_behind word header page_size pages bytes

  -- The pages hold the block and its header, and less than a page more.
  pub pages-bounds :
      (bytes + header ≤ page_size * pages) × (page_size * pages < bytes + header + page_size)
  unfolding pages_for
  pages-bounds =
      let n : ℕ = bytes + header + page_size - 1 in
      let exact : n % 2 ^ word ≡ n = mod-eq_of_lt (omega arith) in
      let split : page_size * (n / page_size) + n % page_size ≡ n = div-add-mod n page_size in
      let small : n % page_size < page_size = mod-lt n positive in
      let whole : page_size * ((n % 2 ^ word) / page_size) ≡ page_size * (n / page_size) =
        ap (λ m. page_size * (m / page_size)) exact in
      (omega (arith, whole, split, small), omega (arith, whole, split, small))

  pub offset-cases :
      ((offset ≡ 0) × (page_size * pages ≡ bytes + header))
      ⊎ ((0 < offset)
          × (offset < page_size)
          × (offset + page_size * pages ≡ bytes + header + page_size))
  unfolding offset_behind
  offset-cases =
      let t : ℕ = page_size * pages in
      let (low, high) = pages-bounds in
      let e1 : t % 2 ^ word ≡ t = mod-eq_of_lt (omega arith) in
      let e2 : (bytes + header) % 2 ^ word ≡ bytes + header = mod-eq_of_lt (omega arith) in
      let e3 : size_sub word header t (bytes + header) ≡ t - (bytes + header) =
        size_sub-exact word header t (bytes + header) low (omega arith) in
      let e4 : size_sub word header page_size (t - (bytes + header))
          ≡ page_size - (t - (bytes + header)) =
        size_sub-exact word header page_size (t - (bytes + header)) (omega arith) (omega arith) in
      let total : offset ≡ (page_size - (t - (bytes + header))) % page_size =
        rw (e1, e2, e3, e4) refl in
      elim (ℕ_discrete t (bytes + header)) [
        | yes e ↦
            let zero_gap : page_size - (t - (bytes + header)) ≡ page_size = omega arith in
            inl (total ∙ ap (λ m. m % page_size) zero_gap ∙ mod_self page_size, e)
        | no ne ↦
            let same : (page_size - (t - (bytes + header))) % page_size
                ≡ page_size - (t - (bytes + header)) =
              mod-eq_of_lt (omega arith) in
            inr (omega (arith, total, same), omega (arith, total, same), omega (arith, total, same))
      ]

-- The bytes from `p` up to `e` lie behind the header of a set of mapped pages.
abbrev pub IsInside : ℕ → ℕ → List PageHeader → ℕ → ℕ → Type 0
IsInside header page_size [] p e = ⊥
IsInside header page_size (h ∷ last) p e =
    ((h.address + header ≤ p) × (e ≤ h.address + page_size * h.num_pages))
    ⊎ IsInside header page_size last p e

-- Two stretches of memory that share no byte.
abbrev pub AreApart : ℕ → ℕ → ℕ → ℕ → Type 0
AreApart p e p' e' = (e ≤ p') ⊎ (e' ≤ p)

-- The rest of the current page is the end of a set of pages, and not empty.
abbrev pub IsRest : ℕ → PageAllocator → Option ℕ → Type 0
IsRest header a none = Unit
IsRest header a (some current) =
    (a.page_offset < a.page_size)
    × IsInside header a.page_size a.last (current + a.page_offset) (current + a.page_size)

-- A block that was handed out: its address and its end. It is apart from the rest of the current page.
abbrev pub IsApartFromRest : PageAllocator → Option ℕ → ℕ → ℕ → Type 0
IsApartFromRest a none p e = Unit
IsApartFromRest a (some current) p e =
    AreApart p e (current + a.page_offset) (current + a.page_size)

abbrev pub IsBlock : ℕ → PageAllocator → ℕ × ℕ → Type 0
IsBlock header a (p, e) =
    (p < e) × IsInside header a.page_size a.last p e × IsApartFromRest a a.current_page p e

abbrev pub IsApartFrom : ℕ × ℕ → ℕ × ℕ → Type 0
IsApartFrom (p, e) (p', e') = AreApart p e p' e'

abbrev pub ArePairwiseApart : List (ℕ × ℕ) → Type 0
ArePairwiseApart [] = Unit
ArePairwiseApart (b ∷ bs) = All (IsApartFrom b) bs × ArePairwiseApart bs

-- `blocks` were handed out, newest first.
pub record Owns (word header : ℕ) (a : PageAllocator) (blocks : List (ℕ × ℕ)) : Type 0 where
  pub positive : 0 < a.page_size
  pub fits : a.page_size < 2 ^ word
  pub rest : IsRest header a a.current_page
  pub inside : All (IsBlock header a) blocks
  pub apart : ArePairwiseApart blocks

pub start-Owns :
    (word header page_size : ℕ)
    → 0 < page_size
    → page_size < 2 ^ word
    → Owns word header (page_allocator page_size) []
unfolding page_allocator
start-Owns word header page_size h f = record {
  positive = h;
  fits = f;
  rest = tt;
  inside = tt;
  apart = tt;
}

pub All-map :
    (P Q : ℕ × ℕ → Type 0) → ((b : ℕ × ℕ) → P b → Q b) → (bs : List (ℕ × ℕ)) → All P bs → All Q bs
All-map P Q f [] h = tt
All-map P Q f (b ∷ bs) h = (f b h.0, All-map P Q f bs h.1)

-- The rest of the current page after `serve`.
pub IsInside-narrow :
    (header page_size : ℕ) (last : List PageHeader) (p e p' e' : ℕ)
    → p ≤ p'
    → e' ≤ e
    → IsInside header page_size last p e
    → IsInside header page_size last p' e'
IsInside-narrow header page_size [] p e p' e' h h' i = i
IsInside-narrow header page_size (x ∷ last) p e p' e' h h' (inl (l, r)) =
    inl (omega arith, omega arith)
IsInside-narrow header page_size (x ∷ last) p e p' e' h h' (inr i) =
    inr (IsInside-narrow header page_size last p e p' e' h h' i)
