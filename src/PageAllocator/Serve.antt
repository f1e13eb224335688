-- ===== src/PageAllocator/Serve.antt =====
-- `Alloc` on the rest of the current page.
use native_crash2java.Base.{
  ℕ, ◌+◌, ◌≤◌, ◌<◌, ◌≡◌, refl, ◌≢◌, inl, inr, List, ◌∷◌, Option, none, some, arith, All, sym, subst,
  ℕ_discrete,
}
use native_crash2java.PageAllocator.{PageAllocator, serve}
use native_crash2java.PageAllocator.Blocks.{
  IsInside, IsRest, IsApartFromRest, IsBlock, IsApartFrom, Owns, All-map, IsInside-narrow,
}

module _ (word header : ℕ) (mmap : ℕ → Option ℕ) (bytes current : ℕ) (a : PageAllocator)
    (blocks : List (ℕ × ℕ)) (o : Owns word header a blocks) (there : a.current_page ≡ some current)
    (some_bytes : 0 < bytes) (room : a.page_offset + bytes ≤ a.page_size) where
  abbrev start : ℕ
  start = current + a.page_offset

  abbrev full : PageAllocator
  full = record a { page_offset = 0; current_page = none }

  abbrev partly : PageAllocator
  partly = record a { page_offset = a.page_offset + bytes }

  rest-IsInside : IsInside header a.page_size a.last start (current + a.page_size)
  rest-IsInside = (subst (IsRest header a) there o.rest).1

  new-IsInside : IsInside header a.page_size a.last start (start + bytes)
  new-IsInside =
      IsInside-narrow header a.page_size a.last start (current + a.page_size) start (start + bytes)
        (omega arith) (omega arith) rest-IsInside

  old-AreApart : (b : ℕ × ℕ) → IsBlock header a b → IsApartFrom b (start, current + a.page_size)
  old-AreApart (p, e) (_, _, h) = subst (λ c. IsApartFromRest a c p e) there h

  apart : All (IsApartFrom (start, start + bytes)) blocks
  apart = All-map (IsBlock header a) (IsApartFrom (start, start + bytes)) flip blocks o.inside
    where
      flip : (b : ℕ × ℕ) → IsBlock header a b → IsApartFrom (start, start + bytes) b
      flip (p, e) h = elim (old-AreApart (p, e) h) [ inl l ↦ inr l | inr r ↦ inl (omega arith) ]

  full-Owns : Owns word header full ((start, start + bytes) ∷ blocks)
  full-Owns = record {
    positive = o.positive;
    fits = o.fits;
    rest = tt;
    inside = (
      (omega arith, new-IsInside, tt),
      All-map (IsBlock header a) (IsBlock header full) (λ (p, e) (l, i, _). (l, i, tt)) blocks
          o.inside,
    );
    apart = (apart, o.apart);
  }

  partly-IsBlock : (b : ℕ × ℕ) → IsBlock header a b → IsBlock header partly b
  partly-IsBlock (p, e) (l, i, h) = (
    l,
    i,
    subst (λ c. IsApartFromRest partly c p e) (sym there)
        (elim (old-AreApart (p, e) (l, i, h)) [ inl k ↦ inl (omega arith) | inr k ↦ inr k ]),
  )

  partly-Owns :
      a.page_offset + bytes ≢ a.page_size
      → Owns word header partly ((start, start + bytes) ∷ blocks)
  partly-Owns more = record {
    positive = o.positive;
    fits = o.fits;
    rest = subst (IsRest header partly) (sym there) (
      omega arith,
      IsInside-narrow header a.page_size a.last start (current + a.page_size)
          (current + (a.page_offset + bytes)) (current + a.page_size) (omega arith) (omega arith)
          rest-IsInside,
    );
    inside = (
      (
        omega arith,
        new-IsInside,
        subst (λ c. IsApartFromRest partly c start (start + bytes)) (sym there) (inl (omega arith)),
      ),
      All-map (IsBlock header a) (IsBlock header partly) partly-IsBlock blocks o.inside,
    );
    apart = (apart, o.apart);
  }

  -- The block that is served is the newest one that was handed out.
  pub serve-Owns :
      (a' : PageAllocator) × (serve word header mmap bytes current a ≡ (some start, a'))
      × Owns word header a' ((start, start + bytes) ∷ blocks)
      × (a'.page_size ≡ a.page_size)
  unfolding serve
  serve-Owns = elim (ℕ_discrete (a.page_offset + bytes) a.page_size) [
    | yes e ↦ (full, ground arith, full-Owns, refl)
    | no ne ↦ (partly, ground arith, partly-Owns ne, refl)
  ]
