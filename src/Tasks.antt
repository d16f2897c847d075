-- ===== src/Tasks.antt =====
-- kernel/src/tasks.rs: the registry of tasks and its scheduler of workers, with the bounded text of
-- kernel/src/console_text.rs. The array of `MAX_TASKS` records is a list. Text is a list of bytes,
-- an exit code its 32 bits, the monotonic counters are numbers without a bound.
pub mod Invariant
pub mod Ready
pub mod History
pub mod Protected
pub mod Snapshot
mod Tests
use gen_os.Common.{
  ℕ, zero, suc, ◌+◌, ◌-◌, ◌*◌, ◌/◌, ◌%◌, ◌^◌, max, Bool, true, false, not, ◌&&◌, ◌||◌, Option, none,
  some, List, [], ◌∷◌, ◌==◌, leb, ltb, if◌then◌else◌, get_or, set, take, drop, position, map, all,
  any, count, replicate, length, saturating_add, u64_max, ◌*◌, ◌/◌, bit_xor, ◌++◌,
}
use gen_os.FixedText.{from_str}

abbrev pub max_tasks : ℕ
max_tasks = 16

abbrev pub default_quantum_ticks : ℕ
default_quantum_ticks = 5

abbrev pub work_units_per_slice : ℕ
work_units_per_slice = 64

pub data TaskClass : Type 0 where
  system worker user : TaskClass

pub data TaskState : Type 0 where
  ready running sleeping waiting exited faulted killed : TaskState

pub data TaskError : Type 0 where
  table_full not_found protected invalid_state : TaskError

abbrev pub is_system : TaskClass → Bool
is_system system = true
is_system worker = false
is_system user = false

abbrev pub is_worker : TaskClass → Bool
is_worker system = false
is_worker worker = true
is_worker user = false

abbrev pub is_terminal : TaskState → Bool
is_terminal exited = true
is_terminal faulted = true
is_terminal killed = true
is_terminal _ = false

abbrev pub is_ready : TaskState → Bool
is_ready ready = true
is_ready _ = false

abbrev pub is_running : TaskState → Bool
is_running running = true
is_running _ = false

abbrev pub is_sleeping : TaskState → Bool
is_sleeping sleeping = true
is_sleeping _ = false

pub record TaskRecord : Type 0 where
  pub id : ℕ
  pub name : List ℕ
  pub class : TaskClass
  pub state : TaskState
  pub ticks : ℕ
  pub wake_count : ℕ
  pub memory_kib : ℕ
  pub last_activity : ℕ
  pub wake_at : ℕ
  pub context_switches : ℕ
  pub work_units : ℕ
  pub checksum : ℕ
  pub exit_code : ℕ
  pub ready_since : ℕ

unfoldable pub empty : TaskRecord
empty = record {
  id = 0;
  name = [];
  class = system;
  state = exited;
  ticks = 0;
  wake_count = 0;
  memory_kib = 0;
  last_activity = 0;
  wake_at = 0;
  context_switches = 0;
  work_units = 0;
  checksum = 0;
  exit_code = 0;
  ready_since = 0;
}

pub record TaskRegistry : Type 0 where
  pub tasks : List TaskRecord
  pub len : ℕ
  pub next_id : ℕ
  pub scheduler_cursor : ℕ
  pub current_worker : Option ℕ
  pub quantum_ticks : ℕ
  pub quantum_used : ℕ
  pub total_switches : ℕ
  pub total_dispatch_latency_ticks : ℕ
  pub max_dispatch_latency_ticks : ℕ

unfoldable pub new : TaskRegistry
new = record {
  tasks = replicate max_tasks empty;
  len = 0;
  next_id = 1;
  scheduler_cursor = 0;
  current_worker = none;
  quantum_ticks = default_quantum_ticks;
  quantum_used = 0;
  total_switches = 0;
  total_dispatch_latency_ticks = 0;
  max_dispatch_latency_ticks = 0;
}

pub data Result {ℓ} (A : Type ℓ) : Type ℓ where
  ok : A → Result A
  err : TaskError → Result A

abbrev pub name_byte : ℕ → Bool
name_byte byte =
    (leb 48 byte && leb byte 57)
    || (leb 65 byte && leb byte 90)
    || (leb 97 byte && leb byte 122)
    || (byte == 45 || (byte == 95))

abbrev pub terminal : TaskRecord → Bool
terminal task = is_terminal task.state

-- The record at a slot that the callers have found.
abbrev pub task_at : TaskRegistry → ℕ → TaskRecord
task_at r index = get_or r.tasks index empty

abbrev pub put : TaskRegistry → ℕ → TaskRecord → TaskRegistry
put r index task = record r { tasks = set r.tasks index task }

-- The slot of an exited task where one may be reused, or the first unused one.
abbrev pub reusable_slot : TaskRegistry → Bool → Option ℕ
reusable_slot r reuse_exited = if reuse_exited then position terminal (take r.len r.tasks) else none

abbrev pub chosen_slot : TaskRegistry → Option ℕ → Option ℕ
chosen_slot r (some slot) = some slot
chosen_slot r none = if ltb r.len max_tasks then some r.len else none

unfoldable pub insert :
    TaskRegistry → List ℕ → TaskClass → TaskState → ℕ → ℕ → Bool → Result ℕ × TaskRegistry
insert r name class state memory_kib tick reuse_exited =
    elim (chosen_slot r (reusable_slot r reuse_exited)) [
      | none ↦ (err table_full, r)
      | some slot ↦ (
        ok r.next_id,
        record r {
          next_id = max ((r.next_id + 1) % 2 ^ 32) 1;
          tasks = set r.tasks slot (record {
            id = r.next_id;
            name = from_str name;
            class = class;
            state = state;
            ticks = 0;
            wake_count = 0;
            memory_kib = memory_kib;
            last_activity = tick;
            wake_at = 0;
            context_switches = 0;
            work_units = 0;
            checksum = bit_xor r.next_id 0x4745_4e4f_5357_4f52;
            exit_code = 0;
            ready_since = tick;
          });
          len = if slot == r.len then r.len + 1 else r.len;
        },
      )
    ]

abbrev pub id_or_zero : Result ℕ → ℕ
id_or_zero (ok id) = id
id_or_zero (err e) = 0

unfoldable pub register : TaskRegistry → List ℕ → TaskState → ℕ → ℕ × TaskRegistry
register r name state memory_kib =
    let inserted = insert r name system state memory_kib 0 false in
    (id_or_zero inserted.0, inserted.1)

unfoldable pub spawn_worker : TaskRegistry → List ℕ → ℕ → ℕ → Result ℕ × TaskRegistry
spawn_worker r name memory_kib tick =
    if length name == 0 || (ltb 12 (length name) || not (all name_byte name))
    then (err invalid_state, r)
    else insert r name worker ready memory_kib tick true

abbrev pub has_id : ℕ → TaskRecord → Bool
has_id id task = task.id == id

unfoldable pub index_of : TaskRegistry → ℕ → Option ℕ
index_of r id = position (has_id id) (take r.len r.tasks)

unfoldable pub mark_running : TaskRegistry → ℕ → ℕ → TaskRegistry
mark_running r id tick = elim (index_of r id) [
  | none ↦ r
  | some index ↦ put r index (record (task_at r index) {
    state = running;
    ticks = (task_at r index).ticks + 1;
    wake_count = (task_at r index).wake_count + 1;
    last_activity = tick;
  })
]

unfoldable pub set_state : TaskRegistry → ℕ → TaskState → ℕ → TaskRegistry
set_state r id state tick = elim (index_of r id) [
  | none ↦ r
  | some index ↦
      let task = task_at r index in
      put r index (record task {
        ready_since = if is_worker task.class && is_ready state then tick else task.ready_since;
        state = state;
        last_activity = tick;
      })
]

-- A worker that is stopped gives up the processor.
abbrev pub yield_slot : TaskRegistry → ℕ → TaskRegistry
yield_slot r index = elim r.current_worker [
  | none ↦ r
  | some current ↦
      if current == index then record r { current_worker = none; quantum_used = 0 } else r
]

-- The refusals of `terminate` and `sleep` for a task: protected, not a worker, already at an end.
abbrev pub control_error : TaskRecord → Option TaskError
control_error task =
    if is_system task.class
    then some protected
    else if not (is_worker task.class) || is_terminal task.state
    then some invalid_state
    else none

unfoldable pub terminate : TaskRegistry → ℕ → ℕ → ℕ → Result (Unit {0}) × TaskRegistry
terminate r id exit_code tick = elim (index_of r id) [
  | none ↦ (err not_found, r)
  | some index ↦ elim (control_error (task_at r index)) [
    | some e ↦ (err e, r)
    | none ↦ (
      ok tt,
      yield_slot
          (put r index (record (task_at r index) {
            state = exited;
            exit_code = exit_code;
            wake_at = 0;
            last_activity = tick;
          }))
          index,
    )
  ]
]

unfoldable pub sleep : TaskRegistry → ℕ → ℕ → ℕ → Result (Unit {0}) × TaskRegistry
sleep r id duration tick = elim (index_of r id) [
  | none ↦ (err not_found, r)
  | some index ↦ elim (control_error (task_at r index)) [
    | some e ↦ (err e, r)
    | none ↦ if duration == 0 then (err invalid_state, r) else (
      ok tt,
      yield_slot
          (put r index (record (task_at r index) {
            state = sleeping;
            wake_at = saturating_add tick duration;
            last_activity = tick;
          }))
          index,
    )
  ]
]

abbrev pub woken : ℕ → TaskRecord → TaskRecord
woken tick task = record task {
  state = ready;
  ready_since = tick;
  wake_at = 0;
  wake_count = task.wake_count + 1;
  last_activity = tick;
}

abbrev pub wake_error : TaskRecord → Option TaskError
wake_error task =
    if is_system task.class
    then some protected
    else if not (is_worker task.class) || not (is_sleeping task.state)
    then some invalid_state
    else none

unfoldable pub wake : TaskRegistry → ℕ → ℕ → Result (Unit {0}) × TaskRegistry
wake r id tick = elim (index_of r id) [
  | none ↦ (err not_found, r)
  | some index ↦ elim (wake_error (task_at r index)) [
    | some e ↦ (err e, r)
    | none ↦ (ok tt, put r index (woken tick (task_at r index)))
  ]
]

abbrev pub is_due : ℕ → TaskRecord → Bool
is_due tick task =
    is_worker task.class
    && (is_sleeping task.state && (not (task.wake_at == 0) && leb task.wake_at tick))

abbrev pub wake_if_due : ℕ → TaskRecord → TaskRecord
wake_if_due tick task = if is_due tick task then woken tick task else task

unfoldable pub wake_due : TaskRegistry → ℕ → TaskRegistry
wake_due r tick = record r {
  tasks = map (wake_if_due tick) (take r.len r.tasks) ++ drop r.len r.tasks;
}

abbrev pub is_ready_worker : TaskRecord → Bool
is_ready_worker task = is_worker task.class && is_ready task.state

-- `for offset in 1..=self.len`, the offset and how many are left.
unfoldable pub search_ready : TaskRegistry → ℕ → ℕ → Option ℕ
search_ready r offset zero = none
search_ready r offset (suc left) =
    let rest = search_ready r (offset + 1) left in
    let index = (r.scheduler_cursor + offset) % r.len in
    if is_ready_worker (task_at r index) then some index else rest

unfoldable pub next_ready_worker : TaskRegistry → Option ℕ
next_ready_worker r = if r.len == 0 then none else search_ready r 1 r.len

-- Words of 64 bits.
abbrev pub shift_left : ℕ → ℕ → ℕ
shift_left value bits = value * 2 ^ bits % 2 ^ 64

abbrev pub rotate_left : ℕ → ℕ → ℕ
rotate_left value bits = shift_left value bits + value / 2 ^ (64 - bits)

unfoldable pub mix : ℕ → ℕ → ℕ
mix value zero = value
mix value (suc left) =
    let a = bit_xor value (shift_left value 13) in
    let b = bit_xor a (a / 2 ^ 7) in mix (bit_xor b (shift_left b 17)) left

unfoldable pub run_worker_slice : TaskRecord → ℕ → TaskRecord
run_worker_slice task tick = record task {
  checksum = mix (bit_xor task.checksum (rotate_left tick (task.id % 31 + 1))) work_units_per_slice;
  work_units = saturating_add task.work_units work_units_per_slice;
  ticks = saturating_add task.ticks 1;
  last_activity = tick;
}

-- Whether the current worker is still running, and with it its slot.
abbrev pub running_worker : TaskRegistry → Option ℕ
running_worker r = elim r.current_worker [
  | none ↦ none
  | some index ↦
      if is_worker (task_at r index).class && is_running (task_at r index).state
      then some index
      else none
]

-- The end of `scheduler_tick`: the next ready worker gets the processor.
unfoldable pub dispatch : TaskRegistry → ℕ → Option ℕ → TaskRegistry
dispatch r tick none = record r { quantum_used = 0 }
dispatch r tick (some index) =
    let task = task_at r index in
    let latency = tick - task.ready_since in
    record r {
      tasks = set r.tasks index (record task {
        state = running;
        context_switches = task.context_switches + 1;
        last_activity = tick;
      });
      current_worker = some index;
      scheduler_cursor = index;
      quantum_used = 0;
      total_switches = r.total_switches + 1;
      total_dispatch_latency_ticks = saturating_add r.total_dispatch_latency_ticks latency;
      max_dispatch_latency_ticks = max r.max_dispatch_latency_ticks latency;
    }

-- A slice of the running worker; `saturating_add` on a byte.
abbrev pub sliced : TaskRegistry → ℕ → ℕ → TaskRegistry
sliced r index tick = record r {
  tasks = set r.tasks index (run_worker_slice (task_at r index) tick);
  quantum_used = if leb (r.quantum_used + 1) 255 then r.quantum_used + 1 else 255;
}

-- The worker whose quantum is used up becomes ready again.
abbrev pub preempted : TaskRegistry → ℕ → ℕ → TaskRegistry
preempted r index tick = record r {
  tasks =
      set r.tasks index
        (record (task_at r index) { state = ready; last_activity = tick; ready_since = tick });
  scheduler_cursor = index;
  current_worker = none;
}

-- `scheduler_tick` after `wake_due`.
unfoldable pub schedule : TaskRegistry → ℕ → TaskRegistry
schedule r tick = elim (running_worker r) [
  | none ↦
      let idle = record r { current_worker = none } in dispatch idle tick (next_ready_worker idle)
  | some index ↦
      let worked = sliced r index tick in
      let given_up = preempted worked index tick in
      if ltb worked.quantum_used worked.quantum_ticks
      then worked
      else dispatch given_up tick (next_ready_worker given_up)
]

unfoldable pub scheduler_tick : TaskRegistry → ℕ → TaskRegistry
scheduler_tick r tick = schedule (wake_due r tick) tick

-- The name of the task that `tick_idle` looks for.
abbrev pub idle_name : List ℕ
idle_name = 105 ∷ 100 ∷ 108 ∷ 101 ∷ []

unfoldable pub same_bytes : List ℕ → List ℕ → Bool
same_bytes [] [] = true
same_bytes [] (y ∷ ys) = false
same_bytes (x ∷ xs) [] = false
same_bytes (x ∷ xs) (y ∷ ys) = x == y && same_bytes xs ys

abbrev pub is_idle : TaskRecord → Bool
is_idle task = same_bytes task.name idle_name

unfoldable pub tick_idle : TaskRegistry → ℕ → TaskRegistry
tick_idle r tick = elim (position is_idle (take r.len r.tasks)) [
  | none ↦ r
  | some index ↦
      put r index
        (record (task_at r index) { ticks = (task_at r index).ticks + 1; last_activity = tick })
]

abbrev pub is_live : TaskRecord → Bool
is_live task = not (task.id == 0) && not (is_terminal task.state)

unfoldable pub live_len : TaskRegistry → ℕ
live_len r = count is_live (take r.len r.tasks)

abbrev pub is_live_worker : TaskRecord → Bool
is_live_worker task = is_worker task.class && is_live task

unfoldable pub worker_len : TaskRegistry → ℕ
worker_len r = count is_live_worker (take r.len r.tasks)

-- The id of a slot that holds the processor; the slot is in range.
unfoldable pub current_worker_id : TaskRegistry → Option ℕ
current_worker_id r = elim r.current_worker [ none ↦ none | some index ↦ some (task_at r index).id ]

unfoldable pub find : TaskRegistry → ℕ → Option TaskRecord
find r id = elim (index_of r id) [ none ↦ none | some index ↦ some (task_at r index) ]

pub record SchedulerMetrics : Type 0 where
  pub dispatches : ℕ
  pub total_latency_ticks : ℕ
  pub max_latency_ticks : ℕ

unfoldable pub scheduler_metrics : TaskRegistry → SchedulerMetrics
scheduler_metrics r = record {
  dispatches = r.total_switches;
  total_latency_ticks = r.total_dispatch_latency_ticks;
  max_latency_ticks = r.max_dispatch_latency_ticks;
}

-- `saturating_mul(1_000)`, then `checked_div`.
unfoldable pub average_latency_milliticks : SchedulerMetrics → ℕ
average_latency_milliticks m =
    if m.dispatches == 0
    then 0
    else (if leb (m.total_latency_ticks * 1000) u64_max
        then m.total_latency_ticks * 1000
        else u64_max)
      / m.dispatches
