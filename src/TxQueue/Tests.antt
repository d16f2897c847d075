-- ===== src/TxQueue/Tests.antt =====
-- Concrete runs of kernel/src/tx_queue.rs.
use gen_os.Common.{◌+◌, ◌%◌, ◌^◌, ◌≡◌, refl, true, List, [], ◌∷◌}
use gen_os.TxQueue.{TxQueue, quarantined, ok, new, begin, complete, tx_ring_size, is_quarantined}
use gen_os.TxQueue.History.{
  Call, begins, completes, start, run, step, IsValid, run-start-IsValid, begin-run,
}

abbrev two_rounds : List Call
two_rounds = begins ∷ completes 1 0 ∷ begins ∷ completes 2 0 ∷ []

run-start-IsValid_example : IsValid (run start two_rounds)
run-start-IsValid_example = run-start-IsValid two_rounds

third : (begin (run start two_rounds).queue).0 ≡ ok (record { available_index = 3; ring_slot = 2 })
unfolding run step begin complete new
third = refl

begin-run_example :
    ((run start two_rounds).begun ≡ (run start two_rounds).completed)
    × (2 ≡ (run start two_rounds).begun % tx_ring_size)
    × (3 ≡ ((run start two_rounds).begun + 1) % 2 ^ 16)
begin-run_example = begin-run two_rounds (record { available_index = 3; ring_slot = 2 }) third

abbrev lost_queue : TxQueue
lost_queue = record { phase = quarantined; available = 1; used = 0 }

lost : is_quarantined lost_queue ≡ true
unfolding is_quarantined
lost = refl
