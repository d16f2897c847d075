-- ===== src/Capability/Tests.antt =====
-- Runs of the registry on small tables, and the theorems at inputs that meet their hypotheses.
use gen_os.Common.{◌≡◌, refl, true, false, some, none, arith, [], ◌∷◌}
use gen_os.Capability.{
  HandleTable, file, console, lifecycle, new, register, unregister, len, is_empty, clear, kind_eq,
  discriminant,
}
use gen_os.Capability.Invariant.{IsValid, registers, unregisters, run, run-new-IsValid}
use gen_os.Capability.Authority.{Registers, Unregisters, register_refines, unregister_refines}

abbrev one_file : HandleTable
one_file = record { entries = some (record { handle = 0x41; kind = file; rights = 3 }) ∷ none ∷ [] }

one_file-IsValid : IsValid 2 one_file
one_file-IsValid = record { size = refl; distinct = (λ e. absurd (omega arith), refl, tt) }

-- The unit test `duplicate_full_revoke_and_clear_are_explicit`.
full_table :
    ((register one_file 0x41 lifecycle 1).0 ≡ false)
    × ((register one_file 2 lifecycle 1).0 ≡ true)
    × ((register (register one_file 2 lifecycle 1).1 3 file 1).0 ≡ false)
    × ((unregister one_file 0x41 lifecycle).0 ≡ false)
    × (is_empty (unregister one_file 0x41 file).1 ≡ true)
    × (len (clear one_file) ≡ 0)
unfolding register unregister is_empty len clear kind_eq discriminant
full_table = (refl, refl, refl, refl, refl, refl)

run-new-IsValid_example : IsValid 2 (run (new 2) (registers 5 file 1 ∷ unregisters 5 file ∷ []))
run-new-IsValid_example = run-new-IsValid 2 (registers 5 file 1 ∷ unregisters 5 file ∷ [])

register_refines_example : Registers 2 one_file 7 console one_file-IsValid 1
register_refines_example = register_refines 2 one_file 7 console one_file-IsValid 1

unregister_refines_example : Unregisters 2 one_file 0x41 file one_file-IsValid
unregister_refines_example = unregister_refines 2 one_file 0x41 file one_file-IsValid
