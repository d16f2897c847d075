-- ===== src/Tasks/Protected.antt =====
-- The worker controls of kernel/src/tasks.rs cannot touch a system task.
use gen_os.Common.{
  ℕ, ◌≡◌, refl, ap, sym, ◌∙◌, true, false, arith, Option-cases, Bool-cases, inl, inr, get_or,
  get_or-set, ◌==◌,
}
use gen_os.Tasks.{
  TaskRegistry, TaskRecord, is_system, terminate, sleep, wake, index_of, control_error, wake_error,
  task_at, put, yield_slot, empty,
}

yield_slot-tasks : (r : TaskRegistry) (index : ℕ) → (yield_slot r index).tasks ≡ r.tasks
yield_slot-tasks r index = elim (Option-cases r.current_worker) [
  | inl e ↦ rw (e, yield_slot) refl
  | inr (current, e) ↦ elim (Bool-cases (current == index)) [
    | inl same ↦ rw (e, same, yield_slot) refl
    | inr other ↦ rw (e, other, yield_slot) refl
  ]
]

-- Writing the record of another task leaves a system task as it is.
put-system :
    (r : TaskRegistry) (slot index : ℕ) (task : TaskRecord)
    → is_system (task_at r slot).class ≡ true
    → is_system (task_at r index).class ≡ false
    → task_at (put r index task) slot ≡ task_at r slot
put-system r slot index task h other = elim (get_or-set r.tasks index slot task empty) [
  | inl (same, e) ↦ absurd (cc (sym h ∙ ap (λ i. is_system (task_at r i).class) (sym same) ∙ other))
  | inr e ↦ e
]

module _ (r : TaskRegistry) (slot : ℕ) (h : is_system (task_at r slot).class ≡ true) where
  terminate-system :
      (id exit_code tick : ℕ) → task_at (terminate r id exit_code tick).1 slot ≡ task_at r slot
  unfolding terminate
  terminate-system id exit_code tick = elim (Option-cases (index_of r id)) [
    | inl e ↦ rw (e, terminate) refl
    | inr (index, e) ↦ elim (Option-cases (control_error (task_at r index))) [
      | inr (error, refused) ↦ rw (e, refused, terminate) refl
      | inl allowed ↦
          rw (e, allowed, terminate)
            (ap (λ ts. get_or ts slot empty) (yield_slot-tasks _ index)
              ∙ put-system r slot index _ h (ground (arith, allowed)))
    ]
  ]

  sleep-system : (id duration tick : ℕ) → task_at (sleep r id duration tick).1 slot ≡ task_at r slot
  unfolding sleep
  sleep-system id duration tick = elim (Option-cases (index_of r id)) [
    | inl e ↦ rw (e, sleep) refl
    | inr (index, e) ↦ elim (Option-cases (control_error (task_at r index))) [
      | inr (error, refused) ↦ rw (e, refused, sleep) refl
      | inl allowed ↦ elim (Bool-cases (duration == 0)) [
        | inl none_left ↦ rw (e, allowed, none_left, sleep) refl
        | inr long ↦
            rw (e, allowed, long, sleep)
              (ap (λ ts. get_or ts slot empty) (yield_slot-tasks _ index)
                ∙ put-system r slot index _ h (ground (arith, allowed)))
      ]
    ]
  ]

  wake-system : (id tick : ℕ) → task_at (wake r id tick).1 slot ≡ task_at r slot
  unfolding wake
  wake-system id tick = elim (Option-cases (index_of r id)) [
    | inl e ↦ rw (e, wake) refl
    | inr (index, e) ↦ elim (Option-cases (wake_error (task_at r index))) [
      | inr (error, refused) ↦ rw (e, refused, wake) refl
      | inl allowed ↦ rw (e, allowed, wake) (put-system r slot index _ h (ground (arith, allowed)))
    ]
  ]

-- The record of a system task is the same after any worker control, whatever id it is given.
pub controls-system :
    (r : TaskRegistry) (slot : ℕ) (id amount tick : ℕ)
    → is_system (task_at r slot).class ≡ true
    → (task_at (terminate r id amount tick).1 slot ≡ task_at r slot)
      × (task_at (sleep r id amount tick).1 slot ≡ task_at r slot)
      × (task_at (wake r id tick).1 slot ≡ task_at r slot)
controls-system r slot id amount tick h = (
  terminate-system r slot h id amount tick,
  sleep-system r slot h id amount tick,
  wake-system r slot h id tick,
)
