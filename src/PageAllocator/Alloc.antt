-- ===== src/PageAllocator/Alloc.antt =====
-- The whole of `Alloc`.
use native_crash2java.Base.{
  ℕ, ◌+◌, ◌-◌, ◌*◌, ◌^◌, ◌≤◌, ◌<◌, ◌≡◌, refl, ◌⊎◌, inl, inr, false, ◌==◌, leb, List, ◌∷◌, Option,
  none, some, arith, All, subst, Option-cases, Bool-cases,
}
use native_crash2java.PageAllocator.{PageAllocator, pages_for, fetch, alloc, alloc_on, size_sub}
use native_crash2java.PageAllocator.Blocks.{IsRest, Owns, size_sub-exact}
use native_crash2java.PageAllocator.Serve.{serve-Owns}
use native_crash2java.PageAllocator.Fetch.{IsFresh, fetch-Owns, fetch-none}

module _ (word header : ℕ) (mmap : ℕ → Option ℕ) (bytes : ℕ) (a : PageAllocator)
    (blocks : List (ℕ × ℕ)) (o : Owns word header a blocks) (some_bytes : 0 < bytes)
    (fits : bytes + header + a.page_size ≤ 2 ^ word)
    (fresh : (r : ℕ)
      → mmap (a.page_size * pages_for word header a.page_size bytes) ≡ some r
      → All
          (IsFresh a.page_size r (r + a.page_size * pages_for word header a.page_size bytes))
          a.last) where
  -- The kernel refused, the result is the null pointer and nothing has changed, or it is the newest block.
  abbrev IsAllocated : Option ℕ × PageAllocator → Type 0
  IsAllocated result =
      ((result ≡ (none, a)) × (mmap (a.page_size * pages_for word header a.page_size bytes) ≡ none))
      ⊎ ((p : ℕ) × (a' : PageAllocator) × (result ≡ (some p, a'))
          × Owns word header a' ((p, p + bytes) ∷ blocks))

  fetch-IsAllocated : IsAllocated (fetch word header mmap bytes a)
  fetch-IsAllocated =
      elim (Option-cases (mmap (a.page_size * pages_for word header a.page_size bytes))) [
        | inl e ↦ inl (fetch-none word header mmap bytes a some_bytes o.positive fits e, e)
        | inr (r, e) ↦
            let (a', run, o') =
              fetch-Owns word header bytes r a blocks o some_bytes fits (fresh r e) mmap e in
            inr (r + header, a', run, o')
      ]

  alloc_on-IsAllocated :
      (current : Option ℕ)
      → a.current_page ≡ current
      → IsAllocated (alloc_on word header mmap bytes a current)
  alloc_on-IsAllocated none e = fetch-IsAllocated
  alloc_on-IsAllocated (some current) e =
      let (inside, _) = subst (IsRest header a) e o.rest in
      let left : size_sub word header a.page_size a.page_offset ≡ a.page_size - a.page_offset =
        size_sub-exact word header a.page_size a.page_offset (omega arith) o.fits in
      elim (Bool-cases (leb bytes (size_sub word header a.page_size a.page_offset))) [
        | inl yes_room ↦
            let room : a.page_offset + bytes ≤ a.page_size = ground arith in
            let (a', run, o', _) =
              serve-Owns word header mmap bytes current a blocks o e some_bytes room in
            inr (current + a.page_offset, a', rw yes_room run, o')
        | inr no_room ↦ rw no_room fetch-IsAllocated
      ]

-- `Alloc` of some bytes, where their number does not wrap and the kernel maps only memory that is
-- apart from the pages it mapped before: either the kernel refused to map the pages for the block, the answer is the
-- null pointer and nothing has changed, or the answer is a block of that size in mapped pages, behind their header,
-- and apart from every block that was handed out before.
pub alloc-Owns :
    (word header : ℕ) (mmap : ℕ → Option ℕ) (bytes : ℕ) (a : PageAllocator) (blocks : List (ℕ × ℕ))
    → Owns word header a blocks
    → 0 < bytes
    → bytes + header + a.page_size ≤ 2 ^ word
    → ((r : ℕ)
        → mmap (a.page_size * pages_for word header a.page_size bytes) ≡ some r
        → All
            (IsFresh a.page_size r (r + a.page_size * pages_for word header a.page_size bytes))
            a.last)
    → ((alloc word header mmap bytes a ≡ (none, a))
        × (mmap (a.page_size * pages_for word header a.page_size bytes) ≡ none))
      ⊎ ((p : ℕ) × (a' : PageAllocator) × (alloc word header mmap bytes a ≡ (some p, a'))
          × Owns word header a' ((p, p + bytes) ∷ blocks))
unfolding alloc
alloc-Owns word header mmap bytes a blocks o some_bytes fits fresh =
    let asked : (bytes == 0) ≡ false = ground arith in
    rw asked (
      alloc_on-IsAllocated word header mmap bytes a blocks o some_bytes fits fresh a.current_page
        refl)
