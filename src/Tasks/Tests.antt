-- ===== src/Tasks/Tests.antt =====
-- Concrete runs of the task registry of kernel/src/tasks.rs.
use gen_os.Common.{◌+◌, ◌%◌, ℕ, ◌<◌, ◌≡◌, ◌⊎◌, refl, true, false, none, some, List, [], ◌∷◌, arith}
use gen_os.Tasks.{
  TaskRegistry, new, system, worker, ready, running, is_ready_worker, next_ready_worker,
  search_ready, task_at, terminate, sleep, wake,
}
use gen_os.Tasks.Invariant.{IsValid}
use gen_os.Tasks.History.{Call, registers, spawns, ticks, sleeps, run, run-registry-IsValid}
use gen_os.Tasks.Ready.{next_ready_worker_cases}
use gen_os.Common.{if◌then◌else◌, ltb, get_or}
use gen_os.Tasks.{empty}
use gen_os.Tasks.Snapshot.{view, task, snapshot, task-snapshot}
use gen_os.Tasks.Protected.{controls-system}

abbrev two_workers : List Call
two_workers =
    registers (107 ∷ []) running 8
    ∷ spawns (97 ∷ []) 8 0
    ∷ spawns (98 ∷ []) 8 0
    ∷ ticks 1
    ∷ sleeps 2 5 1
    ∷ ticks 2
    ∷ []

run-registry-IsValid_example : IsValid (run new two_workers)
run-registry-IsValid_example = run-registry-IsValid two_workers

-- A system task and a ready worker.
abbrev small : TaskRegistry
small = record {
  tasks =
      record {
        id = 1;
        name = 107 ∷ [];
        class = system;
        state = running;
        ticks = 0;
        wake_count = 0;
        memory_kib = 8;
        last_activity = 0;
        wake_at = 0;
        context_switches = 0;
        work_units = 0;
        checksum = 0;
        exit_code = 0;
        ready_since = 0;
      }
      ∷ record {
        id = 2;
        name = 97 ∷ [];
        class = worker;
        state = ready;
        ticks = 0;
        wake_count = 0;
        memory_kib = 8;
        last_activity = 0;
        wake_at = 0;
        context_switches = 0;
        work_units = 0;
        checksum = 0;
        exit_code = 0;
        ready_since = 0;
      }
      ∷ [];
  len = 2;
  next_id = 3;
  scheduler_cursor = 1;
  current_worker = none;
  quantum_ticks = 5;
  quantum_used = 0;
  total_switches = 0;
  total_dispatch_latency_ticks = 0;
  max_dispatch_latency_ticks = 0;
}

next_ready_worker_cases_example :
    ((k : ℕ) × (k < 2)
      × (next_ready_worker small ≡ some ((1 + (1 + k)) % 2))
      × (is_ready_worker (task_at small ((1 + (1 + k)) % 2)) ≡ true)
      × ((d : ℕ) → d < k → is_ready_worker (task_at small ((1 + (1 + d)) % 2)) ≡ false))
    ⊎ ((next_ready_worker small ≡ none)
        × ((i : ℕ) → i < 2 → is_ready_worker (task_at small i) ≡ false))
next_ready_worker_cases_example = next_ready_worker_cases small (omega arith)

controls-system_example :
    (task_at (terminate small 1 3 9).1 0 ≡ task_at small 0)
    × (task_at (sleep small 1 3 9).1 0 ≡ task_at small 0)
    × (task_at (wake small 1 9).1 0 ≡ task_at small 0)
controls-system_example = controls-system small 0 1 3 9 refl

chosen_test : next_ready_worker small ≡ some 1
unfolding next_ready_worker search_ready
chosen_test = refl

task-snapshot_example : task (snapshot (run new two_workers)) 1 ≡ (
    if ltb 1 (run new two_workers).len
    then some (view (get_or (run new two_workers).tasks 1 empty))
    else none)
task-snapshot_example = task-snapshot (run new two_workers) 1 (run-registry-IsValid two_workers)
