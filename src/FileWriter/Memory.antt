-- ===== src/FileWriter/Memory.antt =====
-- `Copy` and `WriteMemory`: the bytes that are read back from the file.
use native.Mathlib.Nat.{mod-eq_of_lt}
use native_crash2java.Base.{
  ℕ, zero, suc, ◌+◌, ◌-◌, ◌%◌, ◌^◌, ◌≤◌, ◌<◌, ◌≡◌, refl, true, false, List, [], ◌∷◌, ◌++◌, Option,
  some, ◌==◌, ltb, arith, take, drop, replicate, length, ap, sym, ◌∙◌, subst⁻¹, take-of_le,
  take-append, drop-append, length-append, length-take, length-drop, append-nil, ==_iff,
}
use native_crash2java.FileWriter.{
  FileWriter, FileKernel, invalid_mdrva, overwritten, allocate, copy, mdrva_allocate,
  MemoryDescriptor, write_memory,
}
use native_crash2java.FileWriter.Allocation.{
  IsSound, HasRoom, IsReserved, fits_word, allocate-IsReserved,
}

-- `size` bytes of the file from a position on.
abbrev pub part : ℕ → ℕ → List ℕ → List ℕ
part position size contents = take size (drop position contents)

module _ (p : ℕ) (bytes contents : List ℕ) (within : p + length bytes ≤ length contents) where
  length-start : length (take p contents) ≡ p
  length-start = length-take p contents ∙ omega arith

  overwritten-split :
      overwritten p bytes contents ≡ take p contents ++ (bytes ++ drop (p + length bytes) contents)
  overwritten-split =
      let none_missing : p - length contents ≡ 0 = omega arith in
      ap (λ n. (take p contents ++ replicate n 0) ++ (bytes ++ drop (p + length bytes) contents))
        none_missing
      ∙ ap (λ start. start ++ (bytes ++ drop (p + length bytes) contents))
          (append-nil (take p contents))

  length-overwritten : length (overwritten p bytes contents) ≡ length contents
  length-overwritten =
      let a : length (take p contents) ≡ p = length-start in
      let b : length (take p contents ++ (bytes ++ drop (p + length bytes) contents))
          ≡ length (take p contents) + length (bytes ++ drop (p + length bytes) contents) =
        length-append (take p contents) (bytes ++ drop (p + length bytes) contents) in
      let c : length (bytes ++ drop (p + length bytes) contents)
          ≡ length bytes + length (drop (p + length bytes) contents) =
        length-append bytes (drop (p + length bytes) contents) in
      let d : length (drop (p + length bytes) contents) ≡ length contents - (p + length bytes) =
        length-drop (p + length bytes) contents in
      ap length overwritten-split ∙ omega arith

  -- The bytes are at their position, and nothing in front of them has changed.
  part-overwritten : part p (length bytes) (overwritten p bytes contents) ≡ bytes
  part-overwritten =
      ap (part p (length bytes)) overwritten-split
      ∙ ap (take (length bytes)) (
          drop-append (take p contents) (bytes ++ drop (p + length bytes) contents) p 0
            (let a : length (take p contents) ≡ p = length-start in omega arith))
      ∙ take-append bytes (drop (p + length bytes) contents)

  start-overwritten : take p (overwritten p bytes contents) ≡ take p contents
  start-overwritten =
      ap (take p) overwritten-split
      ∙ ap (λ n. take n (take p contents ++ (bytes ++ drop (p + length bytes) contents)))
          (sym length-start)
      ∙ take-append (take p contents) (bytes ++ drop (p + length bytes) contents)

-- `lseek` succeeds, and `write` writes everything.
pub record IsWriting (k : FileKernel) : Type 0 where
  pub seeks : (n : ℕ) → k.seek_fails n ≡ false
  pub whole : (n : ℕ) → k.writes n ≡ some n

copy_lem :
    (w : ℕ) (k : FileKernel) (p : ℕ) (src : List ℕ) (f : FileWriter)
    → 32 ≤ w
    → IsWriting k
    → p + length src ≤ f.size
    → f.size < 4294967296
    → copy w k p src f ≡ (true, record f { contents = overwritten p src f.contents })
unfolding copy
copy_lem w k p src f wide writing within small =
    let need : (length src + p) % 2 ^ w ≡ length src + p =
      fits_word w (length src + p) wide (omega arith) in
    let fine : ltb f.size (length src + p) ≡ false = ground arith in
    simp
      (
        need,
        fine,
        writing.seeks p,
        writing.whole (length src),
        (==_iff (length src) (length src)).1 refl,
        take-of_le (length src) src (omega arith),
      )
      refl

-- The result of `WriteMemory` for these bytes, and the writer behind it.
pub record IsWritten (k : FileKernel) (address : ℕ) (src : List ℕ) (f : FileWriter)
    (d : Option MemoryDescriptor) (f' : FileWriter) : Type 0 where
  pub described :
      d
      ≡ some (record {
        start_of_memory_range = address;
        memory = record { data_size = length src; rva = f.position };
      })
  pub sound : IsSound f'
  pub behind : f.position + length src ≤ f'.position
  pub grows : f'.size ≤ f.size + length src + k.page_size + 7
  pub same_file : f'.file ≡ f.file
  pub reads : part f.position (length src) f'.contents ≡ src
  pub keeps : take f.position f'.contents ≡ take f.position f.contents

take-longer : (n : ℕ) (xs ys : List ℕ) → n ≤ length xs → take n (xs ++ ys) ≡ take n xs
take-longer zero xs ys h = refl
take-longer (suc n) [] ys h = absurd (omega arith)
take-longer (suc n) (x ∷ xs) ys h = ap (◌∷◌ x) (take-longer n xs ys (omega arith))

module _ (w : ℕ) (k : FileKernel) (address : ℕ) (src : List ℕ) (f : FileWriter) (s : IsSound f)
    (r : HasRoom w k (length src) f) (writing : IsWriting k) where
  reserved : FileWriter
  reserved = (allocate w k (length src) f).1

  reserved-IsReserved : IsReserved k.page_size (length src) f reserved
  unfolding reserved
  reserved-IsReserved = (allocate-IsReserved w k (length src) f s r).1

  fits : f.position + length src ≤ reserved.size
  fits =
      let i : reserved.position ≤ reserved.size = reserved-IsReserved.sound.inside in
      let b : f.position + length src ≤ reserved.position = reserved-IsReserved.behind in
      omega arith

  small : reserved.size < 4294967296
  small =
      let g : reserved.size ≤ f.size + length src + k.page_size + 7 = reserved-IsReserved.grows in
      let b : f.size + length src + k.page_size + 7 < 4294967295 = r.below in omega arith

  final : FileWriter
  final = record reserved { contents = overwritten f.position src reserved.contents }

  write_memory-eq : write_memory w k address src f ≡ (
    some (record {
      start_of_memory_range = address;
      memory = record { data_size = length src; rva = f.position };
    }),
    final,
  )
  unfolding write_memory mdrva_allocate reserved final
  write_memory-eq =
      let at : (allocate w k (length src) f).0 ≡ f.position =
        (allocate-IsReserved w k (length src) f s r).0 in
      let b : f.size + length src + k.page_size + 7 < 4294967295 = r.below in
      let i : f.position ≤ f.size = s.inside in
      let valid : (f.position == invalid_mdrva) ≡ false = ground arith in
      let short : length src % 2 ^ 32 ≡ length src = mod-eq_of_lt (omega arith) in
      simp (at, valid, copy_lem w k f.position src reserved r.wide writing fits small, short) refl

  pub write_memory-IsWritten :
      IsWritten k address src f
        (write_memory w k address src f).0
        (write_memory w k address src f).1
  unfolding final
  write_memory-IsWritten =
      let x : IsReserved k.page_size (length src) f reserved = reserved-IsReserved in
      let long : length reserved.contents ≡ reserved.size = x.sound.long in
      let within : f.position + length src ≤ length reserved.contents =
        (let e : f.position + length src ≤ reserved.size = fits in omega arith) in
      let old : length f.contents ≡ f.size = s.long in
      let i : f.position ≤ f.size = s.inside in
      subst⁻¹ (λ r'. IsWritten k address src f r'.0 r'.1) write_memory-eq
        (record {
          described = refl;
          sound = record {
            cuts = x.sound.cuts;
            inside = x.sound.inside;
            aligned = x.sound.aligned;
            long = length-overwritten f.position src reserved.contents within ∙ long;
          };
          behind = x.behind;
          grows = x.grows;
          same_file = x.same_file;
          reads = part-overwritten f.position src reserved.contents within;
          keeps =
              start-overwritten f.position src reserved.contents within
              ∙ ap (take f.position) x.grown
              ∙ take-longer f.position f.contents (replicate x.zeros 0) (omega arith);
        })
