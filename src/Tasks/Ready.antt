-- ===== src/Tasks/Ready.antt =====
-- The scheduler's choice among the workers of kernel/src/tasks.rs.
use gen_os.Common.{
  ℕ, zero, suc, ◌+◌, ◌-◌, ◌%◌, ◌<◌, ◌≡◌, ap, sym, ◌∙◌, subst, true, false, none, some, ◌==◌, ltb,
  arith, Bool-cases, Option-cases, inl, inr, ◌⊎◌,
}
use native.Mathlib.Nat.{mod-lt, mod-eq_of_lt, mod-eq-sub-mod}
use gen_os.Tasks.{TaskRegistry, is_ready_worker, search_ready, next_ready_worker, task_at}

-- The slot at an offset from the cursor, in cyclic order.
abbrev pub slot_at : TaskRegistry → ℕ → ℕ
slot_at r offset = (r.scheduler_cursor + offset) % r.len

-- A search that gives a slot gives the first one from the offset on whose task is a ready worker.
search_ready-some :
    (r : TaskRegistry) (offset left index : ℕ)
    → search_ready r offset left ≡ some index
    → (k : ℕ) × (k < left)
      × (slot_at r (offset + k) ≡ index)
      × (is_ready_worker (task_at r (slot_at r (offset + k))) ≡ true)
      × ((d : ℕ) → d < k → is_ready_worker (task_at r (slot_at r (offset + d))) ≡ false)
unfolding search_ready
search_ready-some r offset zero index e = absurd (cc)
search_ready-some r offset (suc left) index e =
    elim (Bool-cases (is_ready_worker (task_at r (slot_at r offset)))) [
      | inl found ↦
          let here : offset ≡ offset + 0 = omega arith in
          let same : slot_at r offset ≡ index = ground (arith, rw (found, search_ready) at e) in
          (
            0,
            omega arith,
            ap (slot_at r) (sym here) ∙ same,
            subst (λ o. is_ready_worker (task_at r (slot_at r o)) ≡ true) here found,
            λ d less. absurd (omega (arith, less)),
          )
      | inr busy ↦
          let later = search_ready-some r (offset + 1) left index (rw (busy, search_ready) at e) in
          let next : offset + 1 + later.0 ≡ offset + suc later.0 = omega arith in
          (
            suc later.0,
            omega (arith, later.1),
            ap (slot_at r) (sym next) ∙ later.2,
            subst (λ o. is_ready_worker (task_at r (slot_at r o)) ≡ true) next later.3,
            λ d less. skipped r offset later.0 busy later.4 d less,
          )
    ]
  where
    skipped :
        (r : TaskRegistry) (offset k : ℕ)
        → is_ready_worker (task_at r (slot_at r offset)) ≡ false
        → ((d : ℕ) → d < k → is_ready_worker (task_at r (slot_at r (offset + 1 + d))) ≡ false)
        → (d : ℕ) → d < suc k
        → is_ready_worker (task_at r (slot_at r (offset + d))) ≡ false
    skipped r offset k busy rest zero less =
        let here : offset ≡ offset + 0 = omega arith in
        subst (λ o. is_ready_worker (task_at r (slot_at r o)) ≡ false) here busy
    skipped r offset k busy rest (suc d) less =
        let next : offset + 1 + d ≡ offset + suc d = omega arith in
        subst (λ o. is_ready_worker (task_at r (slot_at r o)) ≡ false) next (rest d (omega arith))

-- The slot that the scheduler chooses is the first in cyclic order after its cursor, which itself
-- comes last, whose task is a ready worker.
pub next_ready_worker-first :
    (r : TaskRegistry) (index : ℕ)
    → next_ready_worker r ≡ some index
    → (k : ℕ) × (k < r.len)
      × (slot_at r (1 + k) ≡ index)
      × (is_ready_worker (task_at r (slot_at r (1 + k))) ≡ true)
      × ((d : ℕ) → d < k → is_ready_worker (task_at r (slot_at r (1 + d))) ≡ false)
unfolding next_ready_worker
next_ready_worker-first r index e = elim (Bool-cases (r.len == 0)) [
  | inl bare ↦ absurd (cc (rw (bare, next_ready_worker) at e))
  | inr any ↦ search_ready-some r 1 r.len index (rw (any, next_ready_worker) at e)
]

pub next_ready_worker-some :
    (r : TaskRegistry) (index : ℕ)
    → next_ready_worker r ≡ some index
    → (index < r.len) × (is_ready_worker (task_at r index) ≡ true)
next_ready_worker-some r index e =
    let first = next_ready_worker-first r index e in
    let pos : 0 < r.len = omega (arith, first.1) in
    subst (λ i. (i < r.len) × (is_ready_worker (task_at r i) ≡ true)) first.2
      (mod-lt (r.scheduler_cursor + (1 + first.0)) pos, first.3)

search_ready-none :
    (r : TaskRegistry) (offset left k : ℕ)
    → search_ready r offset left ≡ none
    → k < left
    → is_ready_worker (task_at r ((r.scheduler_cursor + (offset + k)) % r.len)) ≡ false
unfolding search_ready
search_ready-none r offset zero k e h = absurd (omega arith)
search_ready-none r offset (suc left) k e h =
    elim (Bool-cases (is_ready_worker (task_at r ((r.scheduler_cursor + offset) % r.len)))) [
      | inl found ↦ absurd (cc (rw (found, search_ready) at e))
      | inr busy ↦ elim (Bool-cases (k == 0)) [
        | inl first ↦
            let here : offset ≡ offset + k = ground arith in
            subst (λ o. is_ready_worker (task_at r ((r.scheduler_cursor + o) % r.len)) ≡ false) here
              busy
        | inr later ↦
            let here : offset + 1 + (k - 1) ≡ offset + k = ground arith in
            subst (λ o. is_ready_worker (task_at r ((r.scheduler_cursor + o) % r.len)) ≡ false) here
              (search_ready-none r (offset + 1) left (k - 1) (rw (busy, search_ready) at e)
                (ground arith))
      ]
    ]

-- Every slot is reached by an offset from the cursor.
offset_of :
    (cursor len i : ℕ)
    → cursor < len
    → i < len
    → (k : ℕ) × (k < len) × ((cursor + (1 + k)) % len ≡ i)
offset_of cursor len i h less = elim (Bool-cases (ltb cursor i)) [
  | inl after ↦
      let sum : cursor + (1 + (i - cursor - 1)) ≡ i = ground arith in
      (i - cursor - 1, ground arith, ap (λ x. x % len) sum ∙ mod-eq_of_lt less)
  | inr before ↦
      let sum : cursor + (1 + (i + len - cursor - 1)) ≡ i + len = ground arith in
      let back : i + len - len ≡ i = omega arith in
      (
        i + len - cursor - 1,
        ground arith,
        ap (λ x. x % len) sum
            ∙ mod-eq-sub-mod {n = i + len} {m = len} (omega arith)
            ∙ ap (λ x. x % len) back
            ∙ mod-eq_of_lt less,
      )
]

-- The scheduler's search looks at the slots in cyclic order after the cursor, the cursor's own
-- slot last. It gives the first of them whose task is a ready worker, and gives none only when no
-- task in range is a ready worker.
pub next_ready_worker_cases :
    (r : TaskRegistry)
    → r.scheduler_cursor < r.len
    → ((k : ℕ) × (k < r.len)
        × (next_ready_worker r ≡ some ((r.scheduler_cursor + (1 + k)) % r.len))
        × (is_ready_worker (task_at r ((r.scheduler_cursor + (1 + k)) % r.len)) ≡ true)
        × ((d : ℕ)
            → d < k
            → is_ready_worker (task_at r ((r.scheduler_cursor + (1 + d)) % r.len)) ≡ false))
      ⊎ ((next_ready_worker r ≡ none)
          × ((i : ℕ) → i < r.len → is_ready_worker (task_at r i) ≡ false))
unfolding next_ready_worker
next_ready_worker_cases r h = elim (Option-cases (next_ready_worker r)) [
  | inr (index, e) ↦
      let first = next_ready_worker-first r index e in
      inl (first.0, first.1, e ∙ ap some (sym first.2), first.3, first.4)
  | inl e ↦
      let used : (r.len == 0) ≡ false = ground arith in
      inr (
        e,
        λ i less.
            let at = offset_of r.scheduler_cursor r.len i h less in
            subst (λ j. is_ready_worker (task_at r j) ≡ false) at.2
              (search_ready-none r 1 r.len at.0 (rw (used, next_ready_worker) at e) at.1),
      )
]
