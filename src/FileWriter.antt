-- ===== src/FileWriter.antt =====
-- client/minidump_file_writer.cc: the file that a minidump is written to. A writer stands together with
-- the bytes of its file; the answers of the kernel are an argument. `w` is the width of `size_t`.
pub mod Allocation
pub mod Memory
pub mod Blocks
pub mod Strings
mod Runs
use native_crash2java.Base.{
  ℕ, zero, suc, ◌+◌, ◌-◌, ◌*◌, ◌/◌, ◌%◌, ◌^◌, Bool, true, false, not, List, [], ◌∷◌, ◌++◌, Option,
  none, some, ◌==◌, ltb, if◌then◌else◌, take, drop, replicate, length,
}

-- `MinidumpFileWriter`: `none` is a file of -1. `workaround` is `g_need_ftruncate_workaround`.
pub record FileWriter : Type 0 where
  pub file : Option ℕ
  pub close_file_when_destroyed : Bool
  pub position : ℕ
  pub size : ℕ
  pub workaround : Bool
  pub contents : List ℕ

-- The answers of the kernel, by the arguments of the call. `writes` is the number of bytes that are
-- written, `none` for -1.
pub record FileKernel : Type 0 where
  pub page_size : ℕ
  pub open_file : List ℕ → Option ℕ
  pub ftruncate_fails : ℕ → Bool
  pub close_fails : ℕ → Bool
  pub seek_fails : ℕ → Bool
  pub writes : ℕ → Option ℕ

-- `kInvalidMDRVA`
abbrev pub invalid_mdrva : ℕ
invalid_mdrva = 4294967295

-- The constructor, with the global flag and the bytes of the file that will be opened.
abbrev pub file_writer : Bool → List ℕ → FileWriter
file_writer workaround contents = record {
  file = none;
  close_file_when_destroyed = true;
  position = 0;
  size = 0;
  workaround = workaround;
  contents = contents;
}

abbrev is_some : Option ℕ → Bool
is_some none = false
is_some (some fd) = true

-- `Open`: a new file is empty.
unfoldable pub open_path : FileKernel → List ℕ → FileWriter → Bool × FileWriter
open_path k path f =
    let fd : Option ℕ = k.open_file path in
    (is_some fd, record f { file = fd; contents = if is_some fd then [] else f.contents })

-- `SetFile` behind the check of the flag: `needs_workaround` is what `CheckNeedsFTruncateWorkAround`
-- leaves in it.
unfoldable pub set_file : ℕ → Bool → FileWriter → FileWriter
set_file fd needs_workaround f = record f {
  file = some fd;
  close_file_when_destroyed = false;
  workaround = needs_workaround;
}

-- `ftruncate`
abbrev pub truncated : ℕ → List ℕ → List ℕ
truncated n contents = take n contents ++ replicate (n - length contents) 0

-- `Close`
abbrev close_open : FileKernel → Option ℕ → FileWriter → Bool × FileWriter
close_open k none f = (true, f)
close_open k (some fd) f =
    if f.workaround
    then (not (k.close_fails fd), record f { file = none })
    else if k.ftruncate_fails f.position
    then (false, f)
    else (
      not (k.close_fails fd),
      record f { file = none; contents = truncated f.position f.contents },
    )

unfoldable pub close : FileKernel → FileWriter → Bool × FileWriter
close k f = close_open k f.file f

-- The destructor.
unfoldable pub destroy : FileKernel → FileWriter → FileWriter
unfolding close
destroy k f = if f.close_file_when_destroyed then (close k f).1 else f

-- `(size + 7) & ~7`
abbrev pub aligned_size : ℕ → ℕ → ℕ
aligned_size w size = (size + 7) % 2 ^ w / 8 * 8

-- `Allocate`
unfoldable pub allocate : ℕ → FileKernel → ℕ → FileWriter → ℕ × FileWriter
allocate w k size f =
    if f.workaround
    then (
      f.position,
      record f { size = (f.size + size) % 2 ^ w; position = (f.position + size % 2 ^ 32) % 2 ^ 32 },
    )
    else (let aligned : ℕ = aligned_size w size in
        let next : ℕ = (f.position + aligned % 2 ^ 32) % 2 ^ 32 in
        let growth : ℕ = if ltb aligned k.page_size then k.page_size else aligned in
        let new_size : ℕ = (f.size + growth) % 2 ^ w in
        if ltb f.size ((f.position + aligned) % 2 ^ w)
        then (if k.ftruncate_fails new_size then (invalid_mdrva, f) else (
          f.position,
          record f { size = new_size; position = next; contents = truncated new_size f.contents },
        ))
        else (f.position, record f { position = next }))

-- The bytes of the file after these bytes were written at a position.
abbrev pub overwritten : ℕ → List ℕ → List ℕ → List ℕ
overwritten position bytes contents =
    truncated position contents ++ (bytes ++ drop (position + length bytes) contents)

abbrev write_at : ℕ → List ℕ → Option ℕ → FileWriter → Bool × FileWriter
write_at position src none f = (false, f)
write_at position src (some n) f =
    (n == length src, record f { contents = overwritten position (take n src) f.contents })

-- `MinidumpFileWriter::Copy`
unfoldable pub copy : ℕ → FileKernel → ℕ → List ℕ → FileWriter → Bool × FileWriter
copy w k position src f =
    if ltb f.size ((length src + position) % 2 ^ w)
    then (false, f)
    else if k.seek_fails position
    then (false, f)
    else write_at position src (k.writes (length src)) f

-- `UntypedMDRVA`
pub record Mdrva : Type 0 where
  pub position : ℕ
  pub size : ℕ

-- `UntypedMDRVA::Allocate`
unfoldable pub mdrva_allocate : ℕ → FileKernel → ℕ → FileWriter → Bool × Mdrva × FileWriter
mdrva_allocate w k size f =
    let (position, f') = allocate w k size f in
    (not (position == invalid_mdrva), record { position = position; size = size }, f')

-- `MDLocationDescriptor` and `MDMemoryDescriptor`
pub record Location : Type 0 where
  pub data_size : ℕ
  pub rva : ℕ

pub record MemoryDescriptor : Type 0 where
  pub start_of_memory_range : ℕ
  pub memory : Location

-- `UntypedMDRVA::location`
abbrev pub location : Mdrva → Location
location m = record { data_size = m.size % 2 ^ 32; rva = m.position }

abbrev write_block :
    ℕ → FileKernel → ℕ → List ℕ → Bool × Mdrva × FileWriter → Option MemoryDescriptor × FileWriter
write_block w k address src (false, mem, f) = (none, f)
write_block w k address src (true, mem, f) =
    let (copied, f') = copy w k mem.position src f in
    if copied
    then (some (record { start_of_memory_range = address; memory = location mem }), f')
    else (none, f')

-- `WriteMemory`: `src` are the bytes at the address, and `none` is a result of false.
unfoldable pub write_memory :
    ℕ → FileKernel → ℕ → List ℕ → FileWriter → Option MemoryDescriptor × FileWriter
unfolding mdrva_allocate
write_memory w k address src f = write_block w k address src (mdrva_allocate w k (length src) f)
