-- ===== src/Scheduler.antt =====
-- kernel/src/scheduler.rs: the round-robin order of process slots. The const parameter `N` is the
-- argument `n`. The iterator adaptors of the scan are loops on fuel; a scan gives `remaining` slots.
pub mod Order
pub mod Service
mod Tests
use gen_os.Common.{
  ℕ, zero, suc, ◌+◌, ◌-◌, Bool, true, false, Option, none, some, List, [], ◌∷◌, ◌==◌, leb,
  if◌then◌else◌,
}

pub record RoundRobin : Type 0 where
  pub last : ℕ

pub record Scan : Type 0 where
  pub last : ℕ
  pub remaining : ℕ

unfoldable pub new : RoundRobin
new = record { last = 0 }

unfoldable pub scan : ℕ → RoundRobin → Scan
scan n r = record { last = r.last; remaining = n }

unfoldable pub selected : ℕ → RoundRobin → ℕ → Bool × RoundRobin
selected n r index = if leb n index then (false, r) else (true, record r { last = index })

-- `Iterator::next`
unfoldable pub next : ℕ → Scan → Option ℕ × Scan
next n s =
    if s.remaining == 0
    then (none, s)
    else let last = (if s.last == n - 1 then 0 else s.last + 1) in
      (some last, record { last = last; remaining = s.remaining - 1 })

unfoldable pub size_hint : Scan → ℕ × Option ℕ
size_hint s = (s.remaining, some s.remaining)

-- `scan.collect()`: the answers of `next` up to the first `none`.
unfoldable pub collect : ℕ → ℕ → Scan → List ℕ
collect n zero s = []
collect n (suc fuel) s =
    let rest = collect n fuel (next n s).1 in
    elim (next n s).0 [ none ↦ [] | some index ↦ index ∷ rest ]

-- `scan.find(ready)`
unfoldable pub find : ℕ → (ℕ → Bool) → ℕ → Scan → Option ℕ
find n ready zero s = none
find n ready (suc fuel) s =
    let rest = find n ready fuel (next n s).1 in
    elim (next n s).0 [ none ↦ none | some index ↦ if ready index then some index else rest ]

-- One round of the coordinator: the first ready slot of a scan is selected.
unfoldable pub serve : ℕ → (ℕ → Bool) → RoundRobin → Option ℕ × RoundRobin
serve n ready r = elim (find n ready (scan n r).remaining (scan n r)) [
  | none ↦ (none, r)
  | some index ↦ (some index, (selected n r index).1)
]
