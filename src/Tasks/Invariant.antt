-- ===== src/Tasks/Invariant.antt =====
-- The slots that the registry of kernel/src/tasks.rs indexes are in range.
use gen_os.Common.{
  ℕ, zero, suc, ◌+◌, ◌<◌, ◌≤◌, ◌≡◌, refl, ap, sym, ◌∙◌, subst, Bool, true, false, Option, none,
  some, ◌==◌, ltb, if◌then◌else◌, arith, Bool-cases, Option-cases, inl, inr, ◌⊎◌, List, [], ◌∷◌,
  ◌++◌, map, take, drop, position, length, length-set, position-lt-length,
}
use gen_os.Tasks.{
  TaskRegistry, TaskRecord, TaskClass, TaskState, max_tasks, insert, chosen_slot, reusable_slot,
  terminal, index_of, mark_running, set_state, terminate, sleep, wake, control_error, wake_error,
  yield_slot, wake_if_due, wake_due, next_ready_worker, task_at, put, dispatch, schedule,
  scheduler_tick, running_worker, sliced, preempted, tick_idle, is_idle, run_worker_slice,
}
use gen_os.Tasks.Ready.{next_ready_worker-some}

abbrev pub InRange : ℕ → Option ℕ → Type 0
InRange len none = Unit {0}
InRange len (some index) = index < len

pub record IsValid (r : TaskRegistry) : Type 0 where
  pub size : length r.tasks ≡ max_tasks
  pub used : r.len ≤ max_tasks
  pub cursor : (r.scheduler_cursor ≡ 0) ⊎ (r.scheduler_cursor < r.len)
  pub current : InRange r.len r.current_worker
  pub named : 0 < r.next_id

length-take_le : (n : ℕ) (xs : List TaskRecord) → length (take n xs) ≤ n
length-take_le zero xs = omega arith
length-take_le (suc n) [] = omega arith
length-take_le (suc n) (x ∷ xs) = omega (arith, length-take_le n xs)

length-map-take :
    (f : TaskRecord → TaskRecord) (n : ℕ) (xs : List TaskRecord)
    → length (map f (take n xs) ++ drop n xs) ≡ length xs
length-map-take f zero xs = refl
length-map-take f (suc n) [] = refl
length-map-take f (suc n) (x ∷ xs) = ap suc (length-map-take f n xs)

-- Writing one record keeps the invariant.
put-IsValid :
    (r : TaskRegistry) (index : ℕ) (task : TaskRecord) → IsValid r → IsValid (put r index task)
put-IsValid r index task v = record {
  size = length-set r.tasks index task ∙ v.size;
  used = v.used;
  cursor = v.cursor;
  current = v.current;
  named = v.named;
}

yield_slot-IsValid : (r : TaskRegistry) (index : ℕ) → IsValid r → IsValid (yield_slot r index)
yield_slot-IsValid r index v = elim (Option-cases r.current_worker) [
  | inl e ↦ rw (e, yield_slot) v
  | inr (current, e) ↦ elim (Bool-cases (current == index)) [
    | inl same ↦
        rw (e, same, yield_slot)
          (record {
            size = v.size;
            used = v.used;
            cursor = v.cursor;
            current = tt;
            named = v.named;
          })
    | inr other ↦ rw (e, other, yield_slot) v
  ]
]

chosen_slot-le :
    (r : TaskRegistry) (reuse : Bool) (slot : ℕ)
    → IsValid r
    → chosen_slot r (reusable_slot r reuse) ≡ some slot
    → (slot ≤ r.len) × (slot < max_tasks)
chosen_slot-le r reuse slot v e = elim (Option-cases (reusable_slot r reuse)) [
  | inl free ↦ let at = rw (free) at e in (ground arith, ground arith)
  | inr (old, found) ↦
      let same : old ≡ slot = ground (arith, rw (found) at e) in
      let within : old < length (take r.len r.tasks) = reused old reuse found in
      (
        omega (arith, within, length-take_le r.len r.tasks, same),
        omega (arith, within, length-take_le r.len r.tasks, same, v.used),
      )
]
  where
    reused : (old : ℕ) (b : Bool) → reusable_slot r b ≡ some old → old < length (take r.len r.tasks)
    reused old false found = absurd (cc)
    reused old true found = position-lt-length terminal (take r.len r.tasks) old found

InRange-le : (m n : ℕ) (o : Option ℕ) → m ≤ n → InRange m o → InRange n o
InRange-le m n none h i = tt
InRange-le m n (some index) h i = omega (arith, i)

pub insert-IsValid :
    (r : TaskRegistry) (name : List ℕ) (class : TaskClass) (state : TaskState) (memory_kib tick : ℕ)
    (reuse : Bool)
    → IsValid r
    → IsValid (insert r name class state memory_kib tick reuse).1
unfolding insert
insert-IsValid r name class state memory_kib tick reuse v =
    elim (Option-cases (chosen_slot r (reusable_slot r reuse))) [
      | inl full ↦ rw (full, insert) v
      | inr (slot, e) ↦
          let at = chosen_slot-le r reuse slot v e in
          let grows : r.len ≤ (if slot == r.len then r.len + 1 else r.len) = ground arith in
          rw (e, insert)
            (record {
              size = length-set r.tasks slot _ ∙ v.size;
              used = ground (arith, at, v.used);
              cursor = ground (arith, v.cursor);
              current = InRange-le r.len _ r.current_worker grows v.current;
              named = omega arith;
            })
    ]

pub terminate-IsValid :
    (r : TaskRegistry) (id exit_code tick : ℕ)
    → IsValid r
    → IsValid (terminate r id exit_code tick).1
unfolding terminate
terminate-IsValid r id exit_code tick v = elim (Option-cases (index_of r id)) [
  | inl e ↦ rw (e, terminate) v
  | inr (index, e) ↦ elim (Option-cases (control_error (task_at r index))) [
    | inr (error, refused) ↦ rw (e, refused, terminate) v
    | inl allowed ↦
        rw (e, allowed, terminate) (yield_slot-IsValid _ index (put-IsValid r index _ v))
  ]
]

pub sleep-IsValid :
    (r : TaskRegistry) (id duration tick : ℕ) → IsValid r → IsValid (sleep r id duration tick).1
unfolding sleep
sleep-IsValid r id duration tick v = elim (Option-cases (index_of r id)) [
  | inl e ↦ rw (e, sleep) v
  | inr (index, e) ↦ elim (Option-cases (control_error (task_at r index))) [
    | inr (error, refused) ↦ rw (e, refused, sleep) v
    | inl allowed ↦ elim (Bool-cases (duration == 0)) [
      | inl none_left ↦ rw (e, allowed, none_left, sleep) v
      | inr long ↦
          rw (e, allowed, long, sleep) (yield_slot-IsValid _ index (put-IsValid r index _ v))
    ]
  ]
]

pub wake-IsValid : (r : TaskRegistry) (id tick : ℕ) → IsValid r → IsValid (wake r id tick).1
unfolding wake
wake-IsValid r id tick v = elim (Option-cases (index_of r id)) [
  | inl e ↦ rw (e, wake) v
  | inr (index, e) ↦ elim (Option-cases (wake_error (task_at r index))) [
    | inr (error, refused) ↦ rw (e, refused, wake) v
    | inl allowed ↦ rw (e, allowed, wake) (put-IsValid r index _ v)
  ]
]

pub mark_running-IsValid :
    (r : TaskRegistry) (id tick : ℕ) → IsValid r → IsValid (mark_running r id tick)
unfolding mark_running
mark_running-IsValid r id tick v = elim (Option-cases (index_of r id)) [
  | inl e ↦ rw (e, mark_running) v
  | inr (index, e) ↦ rw (e, mark_running) (put-IsValid r index _ v)
]

pub set_state-IsValid :
    (r : TaskRegistry) (id : ℕ) (state : TaskState) (tick : ℕ)
    → IsValid r
    → IsValid (set_state r id state tick)
unfolding set_state
set_state-IsValid r id state tick v = elim (Option-cases (index_of r id)) [
  | inl e ↦ rw (e, set_state) v
  | inr (index, e) ↦ rw (e, set_state) (put-IsValid r index _ v)
]

pub tick_idle-IsValid : (r : TaskRegistry) (tick : ℕ) → IsValid r → IsValid (tick_idle r tick)
unfolding tick_idle
tick_idle-IsValid r tick v = elim (Option-cases (position is_idle (take r.len r.tasks))) [
  | inl e ↦ rw (e, tick_idle) v
  | inr (index, e) ↦ rw (e, tick_idle) (put-IsValid r index _ v)
]

dispatch-IsValid :
    (r : TaskRegistry) (tick : ℕ) (chosen : Option ℕ)
    → IsValid r
    → InRange r.len chosen
    → IsValid (dispatch r tick chosen)
unfolding dispatch
dispatch-IsValid r tick none v i = record {
  size = v.size;
  used = v.used;
  cursor = v.cursor;
  current = v.current;
  named = v.named;
}
dispatch-IsValid r tick (some index) v i = record {
  size = length-set r.tasks index _ ∙ v.size;
  used = v.used;
  cursor = inr i;
  current = i;
  named = v.named;
}

next_ready_worker-InRange : (r : TaskRegistry) → InRange r.len (next_ready_worker r)
next_ready_worker-InRange r = elim (Option-cases (next_ready_worker r)) [
  | inl e ↦ subst (InRange r.len) (sym e) tt
  | inr (index, e) ↦ subst (InRange r.len) (sym e) (next_ready_worker-some r index e).0
]

running_worker-InRange :
    (r : TaskRegistry) (index : ℕ) → IsValid r → running_worker r ≡ some index → index < r.len
running_worker-InRange r index v e = elim (Option-cases r.current_worker) [
  | inl gone ↦ absurd (cc (rw (gone, running_worker) at e))
  | inr (current, at) ↦
      let same : current ≡ index = ground (arith, rw (at, running_worker) at e) in
      omega (arith, same, subst (InRange r.len) at v.current)
]

schedule-IsValid : (r : TaskRegistry) (tick : ℕ) → IsValid r → IsValid (schedule r tick)
unfolding schedule
schedule-IsValid r tick v = elim (Option-cases (running_worker r)) [
  | inl e ↦
      rw (e, schedule)
        (dispatch-IsValid (record r { current_worker = none }) tick _
          (record {
            size = v.size;
            used = v.used;
            cursor = v.cursor;
            current = tt;
            named = v.named;
          })
          (next_ready_worker-InRange (record r { current_worker = none })))
  | inr (index, e) ↦
      let worked = sliced r index tick in
      let given_up = preempted worked index tick in
      let small = running_worker-InRange r index v e in
      let size = length-set r.tasks index (run_worker_slice (task_at r index) tick) ∙ v.size in
      elim (Bool-cases (ltb worked.quantum_used worked.quantum_ticks)) [
        | inl goes_on ↦
            rw (e, goes_on, schedule)
              (record {
                size = size;
                used = v.used;
                cursor = v.cursor;
                current = v.current;
                named = v.named;
              })
        | inr over ↦
            rw (e, over, schedule)
              (dispatch-IsValid given_up tick _
                (record {
                  size = length-set worked.tasks index _ ∙ size;
                  used = v.used;
                  cursor = inr small;
                  current = tt;
                  named = v.named;
                })
                (next_ready_worker-InRange given_up))
      ]
]

pub scheduler_tick-IsValid :
    (r : TaskRegistry) (tick : ℕ) → IsValid r → IsValid (scheduler_tick r tick)
unfolding scheduler_tick wake_due
scheduler_tick-IsValid r tick v = schedule-IsValid (wake_due r tick) tick (record {
  size = length-map-take (wake_if_due tick) r.len r.tasks ∙ v.size;
  used = v.used;
  cursor = v.cursor;
  current = v.current;
  named = v.named;
})
