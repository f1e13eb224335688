-- ===== src/AppMemory.antt =====
-- The lists of client/linux/handler/exception_handler.cc that a program fills before a crash: the
-- memory to be dumped with it, and the mappings that it declares itself.
pub mod View
mod Runs
use native_crash2java.Base.{
  ℕ, ◌-◌, List, [], ◌∷◌, ◌++◌, Option, none, some, Bool, true, false, ◌==◌, if◌then◌else◌, take,
}

-- `AppMemory`
pub record AppMemory : Type 0 where
  pub ptr : ℕ
  pub size : ℕ

-- `std::find` with the `operator==` that compares the pointer.
unfoldable pub is_registered : ℕ → List AppMemory → Bool
is_registered ptr [] = false
is_registered ptr (m ∷ memory) =
    let rest = is_registered ptr memory in if m.ptr == ptr then true else rest

unfoldable pub register_app_memory : ℕ → ℕ → List AppMemory → List AppMemory
register_app_memory ptr size memory =
    if is_registered ptr memory then memory else memory ++ record { ptr = ptr; size = size } ∷ []

-- The first element with this pointer is erased.
unfoldable pub unregister_app_memory : ℕ → List AppMemory → List AppMemory
unregister_app_memory ptr [] = []
unregister_app_memory ptr (m ∷ memory) =
    let rest = unregister_app_memory ptr memory in if m.ptr == ptr then memory else m ∷ rest

-- `MappingEntry`: `MappingInfo` and the identifier.
pub record MappingEntry : Type 0 where
  pub start_addr : ℕ
  pub map_size : ℕ
  pub offset : ℕ
  pub name : List ℕ
  pub identifier : List ℕ

-- `AddMappingInfo`: `name_size` is `sizeof(info.name)`, and a `MDGUID` has 16 bytes.
unfoldable pub add_mapping_info :
    ℕ → List ℕ → List ℕ → ℕ → ℕ → ℕ → List MappingEntry → List MappingEntry
add_mapping_info name_size name identifier start_address mapping_size file_offset mappings =
    mappings
    ++ record {
      start_addr = start_address;
      map_size = mapping_size;
      offset = file_offset;
      name = take (name_size - 1) name;
      identifier = take 16 identifier;
    }
      ∷ []
