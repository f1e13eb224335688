-- ===== src/FileWriter/Runs.antt =====
-- Tests and examples of the file that a minidump is written to.
use native_crash2java.Base.{ℕ, ◌≡◌, refl, true, false, List, [], ◌∷◌, none, some, arith}
use native_crash2java.FileWriter.{
  FileWriter, FileKernel, file_writer, open_path, set_file, close, destroy, allocate, copy,
  mdrva_allocate, write_memory,
}
use native_crash2java.FileWriter.Allocation.{IsSound, IsReserved, allocate-IsReserved}
use native_crash2java.FileWriter.Memory.{IsWriting}
use native_crash2java.FileWriter.Blocks.{write_all, IsDescribed, close-write_all}

abbrev kernel : FileKernel
kernel = record {
  page_size = 16;
  open_file = λ path. some 5;
  ftruncate_fails = λ n. false;
  close_fails = λ fd. false;
  seek_fails = λ n. false;
  writes = λ n. some n;
}

abbrev opened : FileWriter
opened = record (file_writer false []) { file = some 5 }

abbrev blocks : List (ℕ × List ℕ)
blocks = (4096, 1 ∷ 2 ∷ 3 ∷ []) ∷ (8192, 4 ∷ 5 ∷ []) ∷ []

-- The second block is 8 bytes behind the first one, and `Close` cuts the file off behind it.
file_writer_runs :
    ((open_path kernel [] (file_writer false [])).1 ≡ opened)
    × ((allocate 64 kernel 3 opened).0 ≡ 0)
    × ((allocate 64 kernel 3 opened).1.position ≡ 8)
    × ((allocate 64 kernel 3 opened).1.size ≡ 16)
    × ((close kernel (write_all 64 kernel blocks opened).1).1.contents
        ≡ 1 ∷ 2 ∷ 3 ∷ 0 ∷ 0 ∷ 0 ∷ 0 ∷ 0 ∷ 4 ∷ 5 ∷ 0 ∷ 0 ∷ 0 ∷ 0 ∷ 0 ∷ 0 ∷ [])
    × ((copy 64 kernel 15 (1 ∷ 2 ∷ []) (allocate 64 kernel 3 opened).1).0 ≡ false)
    × ((destroy kernel (set_file 7 false opened)).file ≡ some 7)
    × ((destroy kernel opened).file ≡ none)
unfolding open_path allocate close write_all write_memory mdrva_allocate copy set_file destroy
file_writer_runs = (refl, refl, refl, refl, refl, refl, refl, refl)

-- Without `ftruncate`, a block is not aligned.
unaligned :
    ((allocate 64 kernel 3 (record opened { workaround = true })).1.position ≡ 3)
    × ((mdrva_allocate 64 (record kernel { ftruncate_fails = λ n. true }) 3 opened).0 ≡ false)
unfolding allocate mdrva_allocate
unaligned = (refl, refl)

opened-IsSound : IsSound opened
opened-IsSound = record { cuts = refl; inside = omega arith; aligned = refl; long = refl }

kernel-IsWriting : IsWriting kernel
kernel-IsWriting = record { seeks = λ n. refl; whole = λ n. refl }

allocate-IsReserved_example :
    ((allocate 64 kernel 3 opened).0 ≡ 0) × IsReserved 16 3 opened (allocate 64 kernel 3 opened).1
allocate-IsReserved_example =
    allocate-IsReserved 64 kernel 3 opened opened-IsSound
      (record { wide = omega arith; cuts = λ n. refl; below = omega arith })

close-write_all_example :
    ((close kernel (write_all 64 kernel blocks opened).1).0 ≡ true)
    × IsDescribed
        (close kernel (write_all 64 kernel blocks opened).1).1.contents
        blocks
        (write_all 64 kernel blocks opened).0
close-write_all_example =
    close-write_all 64 kernel 5 blocks opened (omega arith) (λ n. refl) kernel-IsWriting
      opened-IsSound refl (omega arith)
