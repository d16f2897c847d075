-- ===== src/TickClock/Tests.antt =====
-- Concrete runs of kernel/src/tick_clock.rs.
use gen_os.Common.{◌≡◌, [], ◌∷◌}
use gen_os.TickClock.{new}
use gen_os.TickClock.History.{poll, irq, early_polls, irqs, run, run-ticks}

run-ticks_example : (run new (poll ∷ irq ∷ poll ∷ irq ∷ [])).ticks ≡ 2
unfolding early_polls irqs
run-ticks_example = run-ticks (poll ∷ irq ∷ poll ∷ irq ∷ [])
