-- ===== src/PageAllocator/Fetch.antt =====
-- `Alloc` on new pages.
use native.Mathlib.Nat.{mod-eq_of_lt}
use native_crash2java.Base.{
  ℕ, zero, suc, ◌+◌, ◌-◌, ◌*◌, ◌%◌, ◌^◌, ◌≤◌, ◌<◌, ◌≡◌, inl, inr, List, [], ◌∷◌, Option, none, some,
  arith, All, ◌∙◌, ap,
}
use native_crash2java.PageAllocator.{
  PageHeader, PageAllocator, pages_for, offset_behind, get_n_pages, fetch, placed, add_pages,
}
use native_crash2java.PageAllocator.Blocks.{
  IsInside, AreApart, IsBlock, IsApartFrom, Owns, All-map, pages-bounds, offset-cases,
}

-- What the kernel maps from `r` up to `e` is apart from the pages that are mapped.
abbrev pub IsFresh : ℕ → ℕ → ℕ → PageHeader → Type 0
IsFresh page_size r e h = AreApart h.address (h.address + page_size * h.num_pages) r e

inside-fresh :
    (header page_size r e : ℕ) (last : List PageHeader) (p q : ℕ)
    → All (IsFresh page_size r e) last
    → IsInside header page_size last p q
    → AreApart p q r e
inside-fresh header page_size r e [] p q f i = absurd i
inside-fresh header page_size r e (h ∷ last) p q f (inl (l, k)) = elim f.0 [
  | inl x ↦ inl (omega arith)
  | inr x ↦ inr (omega arith)
]
inside-fresh header page_size r e (h ∷ last) p q f (inr i) =
    inside-fresh header page_size r e last p q f.1 i

get_n_pages-mapped :
    (word header : ℕ) (mmap : ℕ → Option ℕ) (n r : ℕ) (a : PageAllocator)
    → (a.page_size * n) % 2 ^ word ≡ a.page_size * n
    → mmap (a.page_size * n) ≡ some r
    → get_n_pages word header mmap n a ≡ (
      some r,
      record a {
        last = record { address = r; num_pages = n } ∷ a.last;
        pages_allocated = (a.pages_allocated + n) % 2 ^ word;
      },
    )
unfolding get_n_pages
get_n_pages-mapped word header mmap n r a exact answer =
    ap (add_pages word header n a) (ap mmap exact ∙ answer)

get_n_pages-failed :
    (word header : ℕ) (mmap : ℕ → Option ℕ) (n : ℕ) (a : PageAllocator)
    → (a.page_size * n) % 2 ^ word ≡ a.page_size * n
    → mmap (a.page_size * n) ≡ none
    → get_n_pages word header mmap n a ≡ (none, a)
unfolding get_n_pages
get_n_pages-failed word header mmap n a exact answer =
    ap (add_pages word header n a) (ap mmap exact ∙ answer)

last_page : (page_size n : ℕ) → 0 < page_size * n → page_size * (n - 1) + page_size ≡ page_size * n
last_page page_size zero h = absurd (omega arith)
last_page page_size (suc n) h =
    let e : suc n - 1 ≡ n = omega arith in
    let less : page_size * (suc n - 1) ≡ page_size * n = ap (λ m. page_size * m) e in
    grind (arith, less)

module _ (word header bytes ret : ℕ) (a : PageAllocator) (blocks : List (ℕ × ℕ))
    (o : Owns word header a blocks) (some_bytes : 0 < bytes)
    (fits : bytes + header + a.page_size ≤ 2 ^ word)
    (fresh : All
      (IsFresh a.page_size ret (ret + a.page_size * pages_for word header a.page_size bytes))
      a.last) where
  abbrev n : ℕ
  n = pages_for word header a.page_size bytes

  abbrev behind : ℕ
  behind = offset_behind word header a.page_size n bytes

  abbrev mapped : PageAllocator
  mapped = record a {
    last = record { address = ret; num_pages = n } ∷ a.last;
    pages_allocated = (a.pages_allocated + n) % 2 ^ word;
  }

  abbrev full : PageAllocator
  full = record mapped { page_offset = behind; current_page = none }

  abbrev partly : PageAllocator
  partly = record mapped { page_offset = behind; current_page = some (ret + a.page_size * (n - 1)) }

  old-apart : (p e : ℕ) → IsBlock header a (p, e) → AreApart p e ret (ret + a.page_size * n)
  old-apart p e (_, i, _) =
      inside-fresh header a.page_size ret (ret + a.page_size * n) a.last p e fresh i

  new-ends : ret + header + bytes ≤ ret + a.page_size * n
  new-ends =
      let (low, high) = pages-bounds word header a.page_size bytes o.positive some_bytes fits in
      omega arith

  apart : All (IsApartFrom (ret + header, ret + header + bytes)) blocks
  apart =
      All-map (IsBlock header a) (IsApartFrom (ret + header, ret + header + bytes)) flip blocks
        o.inside
    where
      flip : (b : ℕ × ℕ) → IsBlock header a b → IsApartFrom (ret + header, ret + header + bytes) b
      flip (p, e) h = elim (old-apart p e h) [
        | inl l ↦ inr (omega arith)
        | inr r ↦ inl (omega (arith, new-ends))
      ]

  full-Owns : Owns word header full ((ret + header, ret + header + bytes) ∷ blocks)
  full-Owns = record {
    positive = o.positive;
    fits = o.fits;
    rest = tt;
    inside = (
      (omega arith, inl (omega arith, new-ends), tt),
      All-map (IsBlock header a) (IsBlock header full) (λ (p, e) (l, i, _). (l, inr i, tt)) blocks
          o.inside,
    );
    apart = (apart, o.apart);
  }

  partly-Owns :
      behind < a.page_size
      → behind + a.page_size * n ≡ bytes + header + a.page_size
      → Owns word header partly ((ret + header, ret + header + bytes) ∷ blocks)
  partly-Owns small e =
      let last : a.page_size * (n - 1) + a.page_size ≡ a.page_size * n =
        last_page a.page_size n (omega (arith, new-ends)) in
      record {
        positive = o.positive;
        fits = o.fits;
        rest = (small, inl (omega arith, omega arith));
        inside = (
          (omega arith, inl (omega arith, new-ends), inl (omega arith)),
          All-map (IsBlock header a) (IsBlock header partly)
              (λ (p, q) (l, i, k). (
                l,
                inr i,
                elim (old-apart p q (l, i, k)) [
                  | inl x ↦ inl (omega arith)
                  | inr x ↦ inr (omega arith)
                ],
              ))
              blocks o.inside,
        );
        apart = (apart, o.apart);
      }

  pub fetch-Owns :
      (mmap : ℕ → Option ℕ)
      → mmap (a.page_size * n) ≡ some ret
      → (a' : PageAllocator) × (fetch word header mmap bytes a ≡ (some (ret + header), a'))
        × Owns word header a' ((ret + header, ret + header + bytes) ∷ blocks)
  unfolding fetch
  fetch-Owns mmap answer =
      let (low, high) = pages-bounds word header a.page_size bytes o.positive some_bytes fits in
      let exact : (a.page_size * n) % 2 ^ word ≡ a.page_size * n = mod-eq_of_lt (omega arith) in
      let got : get_n_pages word header mmap n a ≡ (some ret, mapped) =
        get_n_pages-mapped word header mmap n ret a exact answer in
      let put : fetch word header mmap bytes a
          ≡ placed word header mmap n behind (some ret, mapped) =
        ap (placed word header mmap n behind) got in
      elim (offset-cases word header a.page_size bytes o.positive some_bytes fits) [
        | inl (none_left, _) ↦ (full, put ∙ page_end none_left, full-Owns)
        | inr (left, small, e) ↦ (partly, put ∙ page_left left, partly-Owns small e)
      ]
    where
      page_end :
          behind ≡ 0
          → placed word header mmap n behind (some ret, mapped) ≡ (some (ret + header), full)
      page_end e = ground arith

      page_left :
          0 < behind
          → placed word header mmap n behind (some ret, mapped) ≡ (some (ret + header), partly)
      page_left h = ground arith

pub fetch-none :
    (word header : ℕ) (mmap : ℕ → Option ℕ) (bytes : ℕ) (a : PageAllocator)
    → 0 < bytes
    → 0 < a.page_size
    → bytes + header + a.page_size ≤ 2 ^ word
    → mmap (a.page_size * pages_for word header a.page_size bytes) ≡ none
    → fetch word header mmap bytes a ≡ (none, a)
unfolding fetch
fetch-none word header mmap bytes a some_bytes positive fits answer =
    let k : ℕ = pages_for word header a.page_size bytes in
    let (low, high) = pages-bounds word header a.page_size bytes positive some_bytes fits in
    let exact : (a.page_size * k) % 2 ^ word ≡ a.page_size * k = mod-eq_of_lt (omega arith) in
    ap (placed word header mmap k (offset_behind word header a.page_size k bytes))
      (get_n_pages-failed word header mmap k a exact answer)
