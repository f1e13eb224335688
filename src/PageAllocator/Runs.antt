-- ===== src/PageAllocator/Runs.antt =====
-- Tests and examples of the page allocator.
use native_crash2java.Base.{
  ◌*◌, ℕ, ◌+◌, ◌≡◌, refl, ◌⊎◌, inl, true, false, [], ◌∷◌, Option, none, some, arith, if◌then◌else◌,
  ◌==◌,
}
use native_crash2java.PageAllocator.{
  PageAllocator, pages_for, offset_behind, get_n_pages, serve, fetch, alloc, owns_pointer, free_all,
}
use native_crash2java.PageAllocator.Blocks.{Owns}
use native_crash2java.PageAllocator.Alloc.{alloc-Owns}

abbrev fresh : PageAllocator
fresh = record {
  page_size = 4096;
  last = [];
  current_page = none;
  page_offset = 0;
  pages_allocated = 0;
}

abbrev kernel : ℕ → Option ℕ
kernel size = if size == 0 then none else some 65536

-- The block of 100 bytes behind the header, one of 50 bytes behind that, and both of a full page.
abbrev once : PageAllocator
once = record {
  page_size = 4096;
  last = record { address = 65536; num_pages = 1 } ∷ [];
  current_page = some 65536;
  page_offset = 116;
  pages_allocated = 1;
}

alloc_runs :
    (alloc 32 16 kernel 100 fresh ≡ (some 65552, once))
    × (alloc 32 16 kernel 50 once ≡ (some 65652, record once { page_offset = 166 }))
    × (alloc 32 16 kernel 3980 once
        ≡ (some 65652, record once { page_offset = 0; current_page = none }))
    × (alloc 32 16 kernel 0 once ≡ (none, once))
unfolding alloc fetch serve get_n_pages pages_for offset_behind
alloc_runs = (refl, refl, refl, refl)

-- The number of bytes wraps: the answer to a request for 4 GB less one byte is one page.
alloc_wraps : (alloc 32 16 kernel 4294967295 fresh).0 ≡ some 65552
unfolding alloc fetch get_n_pages pages_for offset_behind
alloc_wraps = refl

owns_runs :
    (owns_pointer once 65536 ≡ true)
    × (owns_pointer once 69632 ≡ false)
    × (free_all once ≡ (65536, 4096) ∷ [])
unfolding owns_pointer free_all
owns_runs = (refl, refl, refl)

once-Owns : Owns 32 16 once ((65552, 65652) ∷ [])
once-Owns = record {
  positive = omega arith;
  fits = omega arith;
  rest = (omega arith, inl (omega arith, omega arith));
  inside = ((omega arith, inl (omega arith, omega arith), inl (omega arith)), tt);
  apart = (tt, tt);
}

-- The second block comes from new pages, which the kernel maps elsewhere.
abbrev elsewhere : ℕ → Option ℕ
elsewhere size = some 131072

alloc-Owns_example :
    ((alloc 32 16 elsewhere 5000 once ≡ (none, once))
      × (elsewhere (4096 * pages_for 32 16 4096 5000) ≡ none))
    ⊎ ((p : ℕ) × (a' : PageAllocator) × (alloc 32 16 elsewhere 5000 once ≡ (some p, a'))
        × Owns 32 16 a' ((p, p + 5000) ∷ (65552, 65652) ∷ []))
alloc-Owns_example =
    alloc-Owns 32 16 elsewhere 5000 once ((65552, 65652) ∷ []) once-Owns (omega arith) (omega arith)
      (λ r e. ground arith)
