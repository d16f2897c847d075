-- ===== src/Scheduler/Tests.antt =====
-- Concrete scans of kernel/src/scheduler.rs, with four slots.
use gen_os.Common.{ℕ, ◌<◌, ◌≡◌, refl, Bool, some, [], ◌∷◌, ◌==◌, ◌||◌, not, if◌then◌else◌, arith}
use gen_os.Scheduler.{new, scan, next, collect, serve}
use gen_os.Scheduler.Service.{rounds, bounded_service}

-- The first slot is always ready, the last one in the first round, and the others later.
abbrev two_ready : ℕ → ℕ → Bool
two_ready round i = i == 0 || (if round == 0 then i == 3 else not (i == 3))

bounded_service_example :
    (k : ℕ) × (k < 4) × ((serve 4 (two_ready k) (rounds 4 two_ready k new)).0 ≡ some 0)
unfolding new
bounded_service_example =
    bounded_service 4 two_ready new 0 (omega arith) (omega arith) (λ t h. refl)

scan_test : collect 4 4 (scan 4 new) ≡ 1 ∷ 2 ∷ 3 ∷ 0 ∷ []
unfolding collect scan next new
scan_test = refl
