-- ===== src/RxQueue/Tests.antt =====
-- Concrete batches of kernel/src/rx_queue.rs, with four buffers and a wrapping index.
use gen_os.Common.{◌≡◌, ◌≤◌, ◌↔◌, refl, none, some, List, [], ◌∷◌, length, get_or, arith}
use gen_os.RxQueue.{
  RxCompletion, empty, new, admit, admit_validated, validate, validate_entries, take, quarantine,
  wrapping_sub,
}
use gen_os.RxQueue.Validate.{AllSound, validate_iff}
use gen_os.RxQueue.Drain.{after_takes, admit-take, admit-refused}

abbrev arrived : List RxCompletion
arrived = record { descriptor = 3; length = 72 } ∷ record { descriptor = 0; length = 12 } ∷ []

abbrev repeated : List RxCompletion
repeated = record { descriptor = 1; length = 72 } ∷ record { descriptor = 1; length = 72 } ∷ []

validate_iff_example : (validate 4 (new 4 65535) 1 arrived ≡ none) ↔ (
    (length arrived ≡ wrapping_sub 1 (new 4 65535).used)
    × (length arrived ≤ 4)
    × AllSound 4 arrived)
validate_iff_example = validate_iff 4 (new 4 65535) 1 arrived

admitted : (admit 4 (new 4 65535) 1 arrived).0 ≡ none
unfolding admit admit_validated validate validate_entries new
admitted = refl

admit-take_example :
    ((take (after_takes 1 (admit 4 (new 4 65535) 1 arrived).1)).0 ≡ some (get_or arrived 1 empty))
    × ((after_takes 2 (admit 4 (new 4 65535) 1 arrived).1).used ≡ 1)
    × ((take (after_takes 2 (admit 4 (new 4 65535) 1 arrived).1)).0 ≡ none)
unfolding new
admit-take_example =
    admit-take 4 (new 4 65535) 1 arrived 1 refl (omega arith) (omega arith) admitted (omega arith)

repeated_bad :
    (length repeated ≡ wrapping_sub 2 (new 4 0).used) × (length repeated ≤ 4) × AllSound 4 repeated
    → ⊥
repeated_bad (size, small, a) = absurd (cc)

admit-refused_example :
    ((admit 4 (new 4 0) 2 repeated).1 ≡ quarantine (new 4 0))
    × ((take (admit 4 (new 4 0) 2 repeated).1).0 ≡ none)
unfolding new
admit-refused_example = admit-refused 4 (new 4 0) 2 repeated refl refl repeated_bad
