-- ===== src/TickClock/History.antt =====
-- The ticks that a sequence of polls and interrupts counts.
use gen_os.Common.{
  ℕ, suc, ◌+◌, ◌/◌, ◌<◌, min, ◌≡◌, refl, true, false, List, [], ◌∷◌, arith, Bool-cases, inl, inr,
  ◌==◌, u64_max,
}
use gen_os.TickClock.{Clock, new, advance, poll_fallback, hardware_tick, fallback_poll_period}

pub data Event : Type 0 where
  poll irq : Event

unfoldable pub step : Clock → Event → Clock
step c poll = (poll_fallback c).1
step c irq = (hardware_tick c).1

unfoldable pub run : Clock → List Event → Clock
run c [] = c
run c (e ∷ es) = run (step c e) es

-- The polls before the first interrupt, and all interrupts.
unfoldable pub early_polls : List Event → ℕ
early_polls [] = 0
early_polls (poll ∷ es) = suc (early_polls es)
early_polls (irq ∷ es) = 0

unfoldable pub irqs : List Event → ℕ
irqs [] = 0
irqs (poll ∷ es) = irqs es
irqs (irq ∷ es) = suc (irqs es)

-- Once the hardware ticks, only the hardware counts.
seen_ticks :
    (c : Clock) (es : List Event)
    → c.hardware_seen ≡ true
    → c.ticks < u64_max + 1
    → (run c es).ticks ≡ min (c.ticks + irqs es) u64_max
unfolding run step irqs poll_fallback hardware_tick advance
seen_ticks c [] s h = omega arith
seen_ticks c (poll ∷ es) s h =
    let same : (poll_fallback c).1.ticks ≡ c.ticks = rw (s, poll_fallback) refl in
    let seen : (poll_fallback c).1.hardware_seen ≡ true = rw (s, poll_fallback) refl in
    omega (arith, same, seen_ticks (poll_fallback c).1 es seen (omega (arith, same)))
seen_ticks c (irq ∷ es) s h =
    omega (arith, seen_ticks (hardware_tick c).1 es refl (ground arith), ticked)
  where
    ticked : (hardware_tick c).1.ticks ≡ min (c.ticks + 1) u64_max
    ticked = ground arith

polled_ticks :
    (c : Clock) (es : List Event)
    → c.hardware_seen ≡ false
    → c.ticks < u64_max + 1
    → c.fallback_phase < fallback_poll_period
    → (run c es).ticks
      ≡ min (c.ticks + (c.fallback_phase + early_polls es) / fallback_poll_period + irqs es) u64_max
unfolding run step irqs early_polls poll_fallback hardware_tick advance
polled_ticks c [] s h p = omega arith
polled_ticks c (poll ∷ es) s h p =
    elim (Bool-cases (c.fallback_phase + 1 == fallback_poll_period)) [
      | inl wraps ↦
          rw (s, wraps, run, step, poll_fallback, irqs, early_polls)
            (let c' = advance (record c { fallback_phase = 0 }) in
              let rest = polled_ticks c' es s (ground arith) (omega arith) in ground (arith, rest))
      | inr stays ↦
          rw (s, stays, run, step, poll_fallback, irqs, early_polls)
            (let c' = record c { fallback_phase = c.fallback_phase + 1 } in
              let rest = polled_ticks c' es s h (ground arith) in ground (arith, rest))
    ]
polled_ticks c (irq ∷ es) s h p =
    omega (arith, seen_ticks (hardware_tick c).1 es refl (ground arith), ticked)
  where
    ticked : (hardware_tick c).1.ticks ≡ min (c.ticks + 1) u64_max
    ticked = ground arith

-- The clock counts one tick for every full period of polls before the first interrupt and one for
-- every interrupt, in whatever order they come, up to the largest word.
pub run-ticks :
    (es : List Event)
    → (run new es).ticks ≡ min (early_polls es / fallback_poll_period + irqs es) u64_max
unfolding new
run-ticks es = omega (arith, polled_ticks new es refl (omega arith) (omega arith))
