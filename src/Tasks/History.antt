-- ===== src/Tasks/History.antt =====
-- Histories of the task registry of kernel/src/tasks.rs.
use gen_os.Common.{ℕ, refl, inl, List, [], ◌∷◌, arith, length-replicate, true, false}
use gen_os.Tasks.{
  TaskRegistry, TaskState, system, worker, ready, new, empty, max_tasks, register, spawn_worker,
  mark_running, set_state, tick_idle, terminate, sleep, wake, scheduler_tick, name_byte,
}
use gen_os.Common.{ltb, not, all, ◌||◌, length, ◌==◌, Bool-cases, inr}
use gen_os.Tasks.Invariant.{
  IsValid, insert-IsValid, mark_running-IsValid, set_state-IsValid, tick_idle-IsValid,
  terminate-IsValid, sleep-IsValid, wake-IsValid, scheduler_tick-IsValid,
}

pub data Call : Type 0 where
  registers : (name : List ℕ) → TaskState → (memory_kib : ℕ) → Call
  spawns : (name : List ℕ) → (memory_kib tick : ℕ) → Call
  marks_running idles wakes : (id tick : ℕ) → Call
  sets_state : (id : ℕ) → TaskState → (tick : ℕ) → Call
  terminates sleeps : (id amount tick : ℕ) → Call
  ticks : (tick : ℕ) → Call

unfoldable pub step : TaskRegistry → Call → TaskRegistry
step r (registers name state memory_kib) = (register r name state memory_kib).1
step r (spawns name memory_kib tick) = (spawn_worker r name memory_kib tick).1
step r (marks_running id tick) = mark_running r id tick
step r (idles id tick) = tick_idle r tick
step r (wakes id tick) = (wake r id tick).1
step r (sets_state id state tick) = set_state r id state tick
step r (terminates id exit_code tick) = (terminate r id exit_code tick).1
step r (sleeps id duration tick) = (sleep r id duration tick).1
step r (ticks tick) = scheduler_tick r tick

unfoldable pub run : TaskRegistry → List Call → TaskRegistry
run r [] = r
run r (c ∷ cs) = run (step r c) cs

spawn_worker-IsValid :
    (r : TaskRegistry) (name : List ℕ) (memory_kib tick : ℕ)
    → IsValid r
    → IsValid (spawn_worker r name memory_kib tick).1
unfolding spawn_worker
spawn_worker-IsValid r name memory_kib tick v =
    elim (Bool-cases (length name == 0 || (ltb 12 (length name) || not (all name_byte name)))) [
      | inl refused ↦ rw (refused, spawn_worker) v
      | inr spawned ↦
          rw (spawned, spawn_worker) (insert-IsValid r name worker ready memory_kib tick true v)
    ]

step-IsValid : (r : TaskRegistry) (c : Call) → IsValid r → IsValid (step r c)
unfolding step register
step-IsValid r (registers name state memory_kib) v =
    insert-IsValid r name system state memory_kib 0 false v
step-IsValid r (spawns name memory_kib tick) v = spawn_worker-IsValid r name memory_kib tick v
step-IsValid r (marks_running id tick) v = mark_running-IsValid r id tick v
step-IsValid r (idles id tick) v = tick_idle-IsValid r tick v
step-IsValid r (wakes id tick) v = wake-IsValid r id tick v
step-IsValid r (sets_state id state tick) v = set_state-IsValid r id state tick v
step-IsValid r (terminates id exit_code tick) v = terminate-IsValid r id exit_code tick v
step-IsValid r (sleeps id duration tick) v = sleep-IsValid r id duration tick v
step-IsValid r (ticks tick) v = scheduler_tick-IsValid r tick v

run-IsValid : (r : TaskRegistry) (cs : List Call) → IsValid r → IsValid (run r cs)
unfolding run
run-IsValid r [] v = v
run-IsValid r (c ∷ cs) v = run-IsValid (step r c) cs (step-IsValid r c v)

-- After any sequence of calls on a new registry its table has its size, and every slot that the
-- code indexes without a check is in range: the current worker's and, unless it is 0, the cursor's.
pub run-registry-IsValid : (cs : List Call) → IsValid (run new cs)
unfolding new
run-registry-IsValid cs = run-IsValid new cs (record {
  size = length-replicate max_tasks empty;
  used = omega arith;
  cursor = inl refl;
  current = tt;
  named = omega arith;
})
