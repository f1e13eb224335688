-- ===== src/FileWriter/Blocks.antt =====
-- Several blocks of memory in one file, and the file behind `Close`.
use native_crash2java.Base.{
  ℕ, zero, suc, ◌+◌, ◌-◌, ◌≤◌, ◌<◌, ◌≡◌, refl, false, not, List, [], ◌∷◌, Option, none, some, arith,
  take, drop, replicate, length, ap, ap₂, sym, ◌∙◌, subst⁻¹, take-append, length-take,
}
use native_crash2java.FileWriter.{
  FileWriter, FileKernel, truncated, MemoryDescriptor, write_memory, close,
}
use native_crash2java.FileWriter.Allocation.{IsSound, HasRoom}
use native_crash2java.FileWriter.Memory.{part, IsWriting, IsWritten, write_memory-IsWritten}

-- Blocks of memory, each with its address, written one after the other.
unfoldable pub write_all :
    ℕ → FileKernel → List (ℕ × List ℕ) → FileWriter → List (Option MemoryDescriptor) × FileWriter
write_all w k [] f = ([], f)
write_all w k (b ∷ blocks) f =
    let (d, f') = write_memory w k b.0 b.1 f in
    let (ds, f'') = write_all w k blocks f' in (d ∷ ds, f'')

-- The bytes that the blocks take at most.
abbrev pub room_for : ℕ → List (ℕ × List ℕ) → ℕ
room_for page_size [] = 0
room_for page_size (b ∷ blocks) = length b.1 + page_size + 7 + room_for page_size blocks

-- The descriptors say where the blocks are in these bytes.
abbrev pub IsDescribed : List ℕ → List (ℕ × List ℕ) → List (Option MemoryDescriptor) → Type 0
IsDescribed contents [] [] = Unit
IsDescribed contents (b ∷ blocks) (some d ∷ ds) =
    (d.start_of_memory_range ≡ b.0)
    × (d.memory.data_size ≡ length b.1)
    × (part d.memory.rva d.memory.data_size contents ≡ b.1)
    × IsDescribed contents blocks ds
IsDescribed contents [] (d ∷ ds) = ⊥
IsDescribed contents (b ∷ blocks) [] = ⊥
IsDescribed contents (b ∷ blocks) (none ∷ ds) = ⊥

part-take :
    (p n m : ℕ) (xs ys : List ℕ) → p + n ≤ m → take m xs ≡ take m ys → part p n xs ≡ part p n ys
part-take zero zero m xs ys h e = refl
part-take zero (suc n) zero xs ys h e = absurd (omega arith)
part-take zero (suc n) (suc m) [] [] h e = refl
part-take zero (suc n) (suc m) [] (y ∷ ys) h e = absurd (cc)
part-take zero (suc n) (suc m) (x ∷ xs) [] h e = absurd (cc)
part-take zero (suc n) (suc m) (x ∷ xs) (y ∷ ys) h e =
    let same : x ≡ y = cc in ap₂ ◌∷◌ same (part-take zero n m xs ys (omega arith) (ap (drop 1) e))
part-take (suc p) n zero xs ys h e = absurd (omega arith)
part-take (suc p) n (suc m) [] [] h e = refl
part-take (suc p) n (suc m) [] (y ∷ ys) h e = absurd (cc)
part-take (suc p) n (suc m) (x ∷ xs) [] h e = absurd (cc)
part-take (suc p) n (suc m) (x ∷ xs) (y ∷ ys) h e =
    part-take p n m xs ys (omega arith) (ap (drop 1) e)

-- All the blocks are in the file, and what lies in front of the position has not changed.
record IsAllWritten (blocks : List (ℕ × List ℕ)) (f : FileWriter)
    (ds : List (Option MemoryDescriptor)) (f' : FileWriter) : Type 0 where
  sound : IsSound f'
  further : f.position ≤ f'.position
  described :
      (c : List ℕ) → take f'.position c ≡ take f'.position f'.contents → IsDescribed c blocks ds
  same_file : f'.file ≡ f.file
  keeps : take f.position f'.contents ≡ take f.position f.contents

take-shorter : (n m : ℕ) (xs ys : List ℕ) → n ≤ m → take m xs ≡ take m ys → take n xs ≡ take n ys
take-shorter n m xs ys h e = part-take 0 n m xs ys (omega arith) e

write_all-IsAllWritten :
    (w : ℕ) (k : FileKernel) (blocks : List (ℕ × List ℕ)) (f : FileWriter)
    → 32 ≤ w
    → ((n : ℕ) → k.ftruncate_fails n ≡ false)
    → IsWriting k
    → IsSound f
    → f.size + room_for k.page_size blocks < 4294967295
    → IsAllWritten blocks f (write_all w k blocks f).0 (write_all w k blocks f).1
unfolding write_all
write_all-IsAllWritten w k [] f wide cuts writing s room = record {
  sound = s;
  further = (let t : f.position ≤ f.position = omega arith in t);
  described = λ c e. tt;
  same_file = refl;
  keeps = refl;
}
write_all-IsAllWritten w k (b ∷ blocks) f wide cuts writing s room =
    let r : HasRoom w k (length b.1) f = record {
      wide = wide;
      cuts = cuts;
      below = (let t : f.size + length b.1 + k.page_size + 7 < 4294967295 = omega arith in t);
    } in
    let one : IsWritten k b.0 b.1 f (write_memory w k b.0 b.1 f).0 (write_memory w k b.0 b.1 f).1 =
      write_memory-IsWritten w k b.0 b.1 f s r writing in
    let f' : FileWriter = (write_memory w k b.0 b.1 f).1 in
    let grows : f'.size ≤ f.size + length b.1 + k.page_size + 7 = one.grows in
    let behind : f.position + length b.1 ≤ f'.position = one.behind in
    let rest : IsAllWritten blocks f' (write_all w k blocks f').0 (write_all w k blocks f').1 =
      write_all-IsAllWritten w k blocks f' wide cuts writing one.sound (omega arith) in
    let f'' : FileWriter = (write_all w k blocks f').1 in
    let further : f'.position ≤ f''.position = rest.further in
    record {
      sound = rest.sound;
      same_file = rest.same_file ∙ one.same_file;
      further = (let t : f.position ≤ f''.position = omega arith in t);
      described = λ c same.
          subst⁻¹ (λ d. IsDescribed c (b ∷ blocks) (d ∷ (write_all w k blocks f').0)) one.described
            (
              refl,
              refl,
              part-take f.position (length b.1) f'.position c f'.contents behind
                    (take-shorter f'.position f''.position c f''.contents further same ∙ rest.keeps)
                  ∙ one.reads,
              rest.described c same,
            );
      keeps =
          take-shorter f.position f'.position f''.contents f'.contents (omega arith) rest.keeps
          ∙ one.keeps;
    }

take-truncated :
    (n : ℕ) (bytes : List ℕ) → n ≤ length bytes → take n (truncated n bytes) ≡ take n bytes
take-truncated n bytes h =
    let long : length (take n bytes) ≡ n = length-take n bytes ∙ omega arith in
    ap (λ m. take m (truncated n bytes)) (sym long)
    ∙ take-append (take n bytes) (replicate (n - length bytes) 0)

close-contents :
    (k : FileKernel) (fd : ℕ) (f : FileWriter)
    → f.workaround ≡ false
    → k.ftruncate_fails f.position ≡ false
    → f.file ≡ some fd
    → close k f ≡ (
      not (k.close_fails fd),
      record f { file = none; contents = truncated f.position f.contents },
    )
unfolding close
close-contents k fd f direct cut opened = simp (opened, direct, cut) refl

-- Blocks of memory that are written one after the other, where the kernel does what it is asked to and
-- the file stays below 4 GB, are all in the file when it was closed: each `MDMemoryDescriptor` has the
-- address and the size of its block, and the bytes that it points to are those of the block.
pub close-write_all :
    (w : ℕ) (k : FileKernel) (fd : ℕ) (blocks : List (ℕ × List ℕ)) (f : FileWriter)
    → 32 ≤ w
    → ((n : ℕ) → k.ftruncate_fails n ≡ false)
    → IsWriting k
    → IsSound f
    → f.file ≡ some fd
    → f.size + room_for k.page_size blocks < 4294967295
    → ((close k (write_all w k blocks f).1).0 ≡ not (k.close_fails fd))
      × IsDescribed
          (close k (write_all w k blocks f).1).1.contents
          blocks
          (write_all w k blocks f).0
close-write_all w k fd blocks f wide cuts writing s opened room =
    let x : IsAllWritten blocks f (write_all w k blocks f).0 (write_all w k blocks f).1 =
      write_all-IsAllWritten w k blocks f wide cuts writing s room in
    let f' : FileWriter = (write_all w k blocks f).1 in
    let e = close-contents k fd f' x.sound.cuts (cuts f'.position) (x.same_file ∙ opened) in
    let i : f'.position ≤ f'.size = x.sound.inside in
    let long : length f'.contents ≡ f'.size = x.sound.long in
    (
      ap (λ r. r.0) e,
      x.described (close k f').1.contents (
          ap (λ r. take f'.position r.1.contents) e
          ∙ take-truncated f'.position f'.contents (omega arith)),
    )
