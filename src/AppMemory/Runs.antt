-- ===== src/AppMemory/Runs.antt =====
-- Tests and examples of the lists that are filled before a crash.
use native_crash2java.Base.{ℕ, ◌≡◌, refl, List, [], ◌∷◌, none}
use native_crash2java.Base.Codes.{codes}
use native_crash2java.AppMemory.{
  is_registered, register_app_memory, unregister_app_memory, add_mapping_info,
}
use native_crash2java.AppMemory.View.{
  Call, register, unregister, run, size_of, view, IsUnique, run-view,
}

abbrev calls : List Call
calls = register 16 4 ∷ register 32 8 ∷ register 16 9 ∷ unregister 48 ∷ unregister 32 ∷ []

-- The second registration of 16 is ignored, and a name is cut off.
app_memory_runs :
    (run calls [] ≡ record { ptr = 16; size = 4 } ∷ [])
    × (add_mapping_info 4 (codes "libc.so") (1 ∷ 2 ∷ []) 4096 8192 0 []
        ≡ record {
          start_addr = 4096;
          map_size = 8192;
          offset = 0;
          name = codes "lib";
          identifier = 1 ∷ 2 ∷ [];
        }
          ∷ [])
unfolding run register_app_memory unregister_app_memory is_registered add_mapping_info
app_memory_runs = (refl, refl)

run-view_example :
    IsUnique (run calls []) × ((ptr : ℕ) → size_of ptr (run calls []) ≡ view calls (λ p. none) ptr)
run-view_example = run-view calls
