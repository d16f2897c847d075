-- ===== src/TickClock.antt =====
-- kernel/src/tick_clock.rs: logical ticks from polling, then from the hardware timer.
pub mod History
mod Tests
use gen_os.Common.{ℕ, ◌+◌, Bool, true, false, ◌==◌, if◌then◌else◌, saturating_add}

abbrev pub fallback_poll_period : ℕ
fallback_poll_period = 4096

pub record Clock : Type 0 where
  pub ticks : ℕ
  pub fallback_phase : ℕ
  pub hardware_seen : Bool

unfoldable pub new : Clock
new = record { ticks = 0; fallback_phase = 0; hardware_seen = false }

unfoldable pub advance : Clock → Clock
advance c = record c { ticks = saturating_add c.ticks 1 }

unfoldable pub poll_fallback : Clock → ℕ × Clock
poll_fallback c = let c' = polled in (c'.ticks, c')
  where
    polled : Clock
    polled =
        if c.hardware_seen
        then c
        else if c.fallback_phase + 1 == fallback_poll_period
        then advance (record c { fallback_phase = 0 })
        else record c { fallback_phase = c.fallback_phase + 1 }

unfoldable pub hardware_tick : Clock → ℕ × Clock
hardware_tick c =
    let c' = advance (record c { hardware_seen = true; fallback_phase = 0 }) in (c'.ticks, c')
