-- ===== src/FileWriter/Allocation.antt =====
-- `Allocate`: what it reserves, and the invariant of the writer.
use native.Mathlib.Nat.{mod-eq_of_lt, pow-le-pow_right}
use native_crash2java.Base.{
  ℕ, ◌+◌, ◌-◌, ◌%◌, ◌^◌, ◌≤◌, ◌<◌, ◌≡◌, refl, inl, inr, true, false, List, ◌++◌, ltb, arith,
  if◌then◌else◌, replicate, length, ap, sym, ◌∙◌, Bool-cases, take-of_le, length-append,
  length-replicate, append-nil, subst⁻¹,
}
use native_crash2java.FileWriter.{FileWriter, FileKernel, truncated, aligned_size, allocate}

-- The file is as long as the writer thinks, and what is reserved lies in it, in units of 8 bytes.
pub record IsSound (f : FileWriter) : Type 0 where
  pub cuts : f.workaround ≡ false
  pub inside : f.position ≤ f.size
  pub aligned : f.position % 8 ≡ 0
  pub long : length f.contents ≡ f.size

-- `ftruncate` succeeds, and the file stays below 4 GB where it grows for these bytes.
pub record HasRoom (w : ℕ) (k : FileKernel) (size : ℕ) (f : FileWriter) : Type 0 where
  pub wide : 32 ≤ w
  pub cuts : (n : ℕ) → k.ftruncate_fails n ≡ false
  pub below : f.size + size + k.page_size + 7 < 4294967295

-- What a reservation changes: the position moves behind it, and the file gets zeros at its end.
pub record IsReserved (page_size size : ℕ) (f f' : FileWriter) : Type 0 where
  pub sound : IsSound f'
  pub behind : f.position + size ≤ f'.position
  pub small : f'.position ≤ f.position + size + 7
  pub grows : f'.size ≤ f.size + size + page_size + 7
  pub same_file : f'.file ≡ f.file
  pub zeros : ℕ
  pub grown : f'.contents ≡ f.contents ++ replicate zeros 0

pub fits_word : (w x : ℕ) → 32 ≤ w → x < 4294967296 → x % 2 ^ w ≡ x
fits_word w x wide small =
    let bound : 2 ^ 32 ≤ 2 ^ w = pow-le-pow_right (omega arith) wide in mod-eq_of_lt (omega arith)

aligned_size-cases :
    (w size : ℕ)
    → 32 ≤ w
    → size + 7 < 4294967296
    → (size ≤ aligned_size w size)
      × (aligned_size w size ≤ size + 7)
      × (aligned_size w size % 8 ≡ 0)
aligned_size-cases w size wide small =
    let e : (size + 7) % 2 ^ w ≡ size + 7 = fits_word w (size + 7) wide small in
    simp e (omega arith, omega arith, omega arith)

take_all :
    (n : ℕ) (bytes : List ℕ)
    → length bytes ≤ n
    → truncated n bytes ≡ bytes ++ replicate (n - length bytes) 0
take_all n bytes h = ap (λ b. b ++ replicate (n - length bytes) 0) (take-of_le n bytes h)

-- The steps of `Allocate` without the wrap-around, where the file is large enough and where it is not.
module _ (w : ℕ) (k : FileKernel) (size : ℕ) (f : FileWriter) (s : IsSound f)
    (r : HasRoom w k size f) where
  step : ℕ
  step = aligned_size w size

  step-cases : (size ≤ step) × (step ≤ size + 7) × (step % 8 ≡ 0)
  unfolding step
  step-cases =
      aligned_size-cases w size r.wide
        (let b : f.size + size + k.page_size + 7 < 4294967295 = r.below in omega arith)

  next-eq : (f.position + step % 2 ^ 32) % 2 ^ 32 ≡ f.position + step
  next-eq =
      let b : f.size + size + k.page_size + 7 < 4294967295 = r.below in
      let i : f.position ≤ f.size = s.inside in
      let (l, u, a) = step-cases in
      let small : step % 2 ^ 32 ≡ step = mod-eq_of_lt (omega arith) in
      ap (λ n. (f.position + n) % 2 ^ 32) small ∙ mod-eq_of_lt (omega arith)

  need-eq : (f.position + step) % 2 ^ w ≡ f.position + step
  need-eq =
      let b : f.size + size + k.page_size + 7 < 4294967295 = r.below in
      let i : f.position ≤ f.size = s.inside in
      let (l, u, a) = step-cases in fits_word w (f.position + step) r.wide (omega arith)

  growth : ℕ
  growth = if ltb step k.page_size then k.page_size else step

  growth-cases : (step ≤ growth) × (growth ≤ size + 7 + k.page_size)
  unfolding growth
  growth-cases = let (l, u, a) = step-cases in (ground arith, ground arith)

  grown-eq : (f.size + growth) % 2 ^ w ≡ f.size + growth
  grown-eq =
      let b : f.size + size + k.page_size + 7 < 4294967295 = r.below in
      let (l, u) = growth-cases in fits_word w (f.size + growth) r.wide (omega arith)

  -- The file is large enough.
  allocate-fits :
      ltb f.size (f.position + step) ≡ false
      → allocate w k size f ≡ (f.position, record f { position = f.position + step })
  unfolding allocate step
  allocate-fits large = simp (s.cuts, need-eq, next-eq, large) refl

  allocate-grows :
      ltb f.size (f.position + step) ≡ true
      → allocate w k size f ≡ (
        f.position,
        record f {
          size = f.size + growth;
          position = f.position + step;
          contents = truncated (f.size + growth) f.contents;
        },
      )
  unfolding allocate step growth
  allocate-grows small =
      simp (s.cuts, need-eq, next-eq, small, grown-eq, r.cuts (f.size + growth)) refl

  moved : FileWriter
  moved = record f { position = f.position + step }

  extended : FileWriter
  extended = record f {
    size = f.size + growth;
    position = f.position + step;
    contents = truncated (f.size + growth) f.contents;
  }

  moved-IsReserved : ltb f.size (f.position + step) ≡ false → IsReserved k.page_size size f moved
  unfolding moved
  moved-IsReserved large =
      let (l, u, a) = step-cases in
      let at_8 : f.position % 8 ≡ 0 = s.aligned in
      record {
        sound = record {
          cuts = s.cuts;
          inside = (let t : f.position + step ≤ f.size = ground arith in t);
          aligned = (let t : (f.position + step) % 8 ≡ 0 = omega arith in t);
          long = s.long;
        };
        behind = (let t : f.position + size ≤ f.position + step = omega arith in t);
        small = (let t : f.position + step ≤ f.position + size + 7 = omega arith in t);
        grows = (let t : f.size ≤ f.size + size + k.page_size + 7 = omega arith in t);
        same_file = refl;
        zeros = 0;
        grown = sym (append-nil f.contents);
      }

  extended-IsReserved : IsReserved k.page_size size f extended
  unfolding extended
  extended-IsReserved =
      let (l, u, a) = step-cases in
      let (lower, upper) = growth-cases in
      let at_8 : f.position % 8 ≡ 0 = s.aligned in
      let long : length f.contents ≡ f.size = s.long in
      let inside : f.position ≤ f.size = s.inside in
      let same : truncated (f.size + growth) f.contents
          ≡ f.contents ++ replicate (f.size + growth - length f.contents) 0 =
        take_all (f.size + growth) f.contents (omega arith) in
      record {
        sound = record {
          cuts = s.cuts;
          inside = (let t : f.position + step ≤ f.size + growth = omega arith in t);
          aligned = (let t : (f.position + step) % 8 ≡ 0 = omega arith in t);
          long =
              ap length same
              ∙ length-append f.contents (replicate (f.size + growth - length f.contents) 0)
              ∙ ap (λ n. length f.contents + n)
                  (length-replicate (f.size + growth - length f.contents) 0)
              ∙ omega arith;
        };
        behind = (let t : f.position + size ≤ f.position + step = omega arith in t);
        small = (let t : f.position + step ≤ f.position + size + 7 = omega arith in t);
        grows = (let t : f.size + growth ≤ f.size + size + k.page_size + 7 = omega arith in t);
        same_file = refl;
        zeros = f.size + growth - length f.contents;
        grown = same;
      }

  -- `Allocate` where there is room returns the position of the writer, and reserves at least so many
  -- bytes behind it and at most 7 more; the position stays a multiple of 8 and inside of the file, and
  -- the bytes that the file had are kept.
  pub allocate-IsReserved :
      ((allocate w k size f).0 ≡ f.position) × IsReserved k.page_size size f (allocate w k size f).1
  allocate-IsReserved = elim (Bool-cases (ltb f.size (f.position + step))) [
    | inr large ↦ (
      ap (λ r'. r'.0) (allocate-fits large),
      subst⁻¹ (λ r'. IsReserved k.page_size size f r'.1) (allocate-fits large)
          (unfold moved in moved-IsReserved large),
    )
    | inl small ↦ (
      ap (λ r'. r'.0) (allocate-grows small),
      subst⁻¹ (λ r'. IsReserved k.page_size size f r'.1) (allocate-grows small)
          (unfold extended in extended-IsReserved),
    )
  ]
