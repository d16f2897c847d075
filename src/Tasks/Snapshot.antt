-- ===== src/Tasks/Snapshot.antt =====
-- The snapshots that kernel/src/tasks.rs hands out: a copy of what a viewer of the tasks may see.
use gen_os.Common.{
  ℕ, zero, suc, ◌+◌, ◌<◌, ◌≤◌, ◌≡◌, ◌≢◌, refl, ap, sym, ◌∙◌, Bool, true, false, Option, none, some,
  List, [], ◌∷◌, ◌==◌, ltb, leb, if◌then◌else◌, arith, Bool-cases, inl, inr, get_or, get_elem?, set,
  take, length, replicate, count, position, get_elem?-lt, get_or-set_self, get_or-set_ne,
  length-set,
}
use gen_os.Tasks.{
  TaskRegistry, TaskRecord, TaskClass, TaskState, system, worker, user, exited, empty, worker_len,
  current_worker_id,
}
use gen_os.Tasks.Invariant.{IsValid}

abbrev pub max_task_snapshots : ℕ
max_task_snapshots = 20

pub record TaskSnapshot : Type 0 where
  pub id : ℕ
  pub name : List ℕ
  pub class : TaskClass
  pub state : TaskState
  pub memory_kib : ℕ

-- `TaskSnapshot::empty`
abbrev pub blank : TaskSnapshot
blank = record { id = 0; name = []; class = system; state = exited; memory_kib = 0 }

pub record TaskSnapshotSet : Type 0 where
  pub tasks : List TaskSnapshot
  pub len : ℕ
  pub worker_len : ℕ
  pub current_worker_id : Option ℕ
  pub total_switches : ℕ

unfoldable pub new : TaskSnapshotSet
new = record {
  tasks = replicate max_task_snapshots blank;
  len = 0;
  worker_len = 0;
  current_worker_id = none;
  total_switches = 0;
}

unfoldable pub push : TaskSnapshotSet → TaskSnapshot → Bool × TaskSnapshotSet
push s task =
    if leb (length s.tasks) s.len
    then (false, s)
    else (true, record s { tasks = set s.tasks s.len task; len = s.len + 1 })

unfoldable pub task : TaskSnapshotSet → ℕ → Option TaskSnapshot
task s index = if ltb index s.len then get_elem? s.tasks index else none

-- What `snapshot` copies of a task.
abbrev pub view : TaskRecord → TaskSnapshot
view t = record {
  id = t.id;
  name = t.name;
  class = t.class;
  state = t.state;
  memory_kib = t.memory_kib;
}

-- The loop of `snapshot`.
unfoldable pub push_all : TaskSnapshotSet → List TaskRecord → TaskSnapshotSet
push_all s [] = s
push_all s (t ∷ ts) = push_all (push s (view t)).1 ts

unfoldable pub snapshot : TaskRegistry → TaskSnapshotSet
snapshot r =
    push_all
      (record new {
        worker_len = worker_len r;
        current_worker_id = current_worker_id r;
        total_switches = r.total_switches;
      })
      (take r.len r.tasks)

pushed :
    (s : TaskSnapshotSet) (t : TaskSnapshot)
    → s.len < length s.tasks
    → (push s t).1 ≡ record s { tasks = set s.tasks s.len t; len = s.len + 1 }
unfolding push
pushed s t h = let room : leb (length s.tasks) s.len ≡ false = ground arith in rw (room, push) refl

push_all-kept :
    (ts : List TaskRecord) (s : TaskSnapshotSet) (i : ℕ)
    → s.len + length ts ≤ length s.tasks
    → i < s.len
    → get_or (push_all s ts).tasks i blank ≡ get_or s.tasks i blank
unfolding push_all
push_all-kept [] s i room h = refl
push_all-kept (t ∷ ts) s i room h =
    let next = record s { tasks = set s.tasks s.len (view t); len = s.len + 1 } in
    let other : s.len ≢ i = omega arith in
    ap (λ x. get_or (push_all x ts).tasks i blank) (pushed s (view t) (omega arith))
    ∙ push_all-kept ts next i (omega (arith, length-set s.tasks s.len (view t))) (omega arith)
    ∙ get_or-set_ne s.tasks s.len i (view t) blank other

push_all-size :
    (ts : List TaskRecord) (s : TaskSnapshotSet)
    → s.len + length ts ≤ length s.tasks
    → ((push_all s ts).len ≡ s.len + length ts) × (length (push_all s ts).tasks ≡ length s.tasks)
unfolding push_all
push_all-size [] s room = (omega arith, refl)
push_all-size (t ∷ ts) s room =
    let next = record s { tasks = set s.tasks s.len (view t); len = s.len + 1 } in
    let one = pushed s (view t) (omega arith) in
    let rest = push_all-size ts next (omega (arith, length-set s.tasks s.len (view t))) in
    (
      ap (λ x. (push_all x ts).len) one ∙ rest.0 ∙ omega arith,
      ap (λ x. length (push_all x ts).tasks) one ∙ rest.1 ∙ length-set s.tasks s.len (view t),
    )

push_all-copied :
    (ts : List TaskRecord) (s : TaskSnapshotSet) (k : ℕ)
    → s.len + length ts ≤ length s.tasks
    → k < length ts
    → get_or (push_all s ts).tasks (s.len + k) blank ≡ view (get_or ts k empty)
unfolding push_all
push_all-copied [] s k room h = absurd (omega arith)
push_all-copied (t ∷ ts) s zero room h =
    let next = record s { tasks = set s.tasks s.len (view t); len = s.len + 1 } in
    let here : s.len + 0 ≡ s.len = omega arith in
    ap (λ x. get_or (push_all x ts).tasks (s.len + 0) blank) (pushed s (view t) (omega arith))
    ∙ push_all-kept ts next (s.len + 0) (omega (arith, length-set s.tasks s.len (view t)))
        (omega arith)
    ∙ ap (λ i. get_or next.tasks i blank) here
    ∙ get_or-set_self s.tasks s.len (view t) blank (omega arith)
push_all-copied (t ∷ ts) s (suc k) room h =
    let next = record s { tasks = set s.tasks s.len (view t); len = s.len + 1 } in
    let shift : s.len + suc k ≡ s.len + 1 + k = omega arith in
    ap (λ x. get_or (push_all x ts).tasks (s.len + suc k) blank) (pushed s (view t) (omega arith))
    ∙ ap (λ i. get_or (push_all next ts).tasks i blank) shift
    ∙ push_all-copied ts next k (omega (arith, length-set s.tasks s.len (view t))) (omega arith)

length-take : (n : ℕ) (xs : List TaskRecord) → n ≤ length xs → length (take n xs) ≡ n
length-take zero xs h = refl
length-take (suc n) [] h = absurd (omega arith)
length-take (suc n) (x ∷ xs) h = ap suc (length-take n xs (omega arith))

get_or-take :
    (n : ℕ) (xs : List TaskRecord) (k : ℕ) → k < n → get_or (take n xs) k empty ≡ get_or xs k empty
get_or-take zero xs k h = absurd (omega arith)
get_or-take (suc n) [] k h = refl
get_or-take (suc n) (x ∷ xs) zero h = refl
get_or-take (suc n) (x ∷ xs) (suc k) h = get_or-take n xs k (omega arith)

-- A snapshot of a valid registry has the registry's tasks in order, each as it is seen from
-- outside, and no other: no task is dropped for want of room.
pub task-snapshot :
    (r : TaskRegistry) (i : ℕ)
    → IsValid r
    → task (snapshot r) i ≡ (if ltb i r.len then some (view (get_or r.tasks i empty)) else none)
unfolding task snapshot new
task-snapshot r i v =
    let ts = take r.len r.tasks in
    let s = record new {
      worker_len = worker_len r;
      current_worker_id = current_worker_id r;
      total_switches = r.total_switches;
    } in
    let many = length-take r.len r.tasks (omega (arith, v.size, v.used)) in
    let room : s.len + length ts ≤ length s.tasks = omega (arith, many, v.used) in
    let size = push_all-size ts s room in
    elim (Bool-cases (ltb i r.len)) [
      | inl inside ↦
          let within : ltb i (push_all s ts).len ≡ true = ground (arith, size.0, many) in
          let small : i < length ts = ground (arith, many) in
          let same : 0 + i ≡ i = omega arith in
          rw (within, inside)
            (get_elem?-lt (push_all s ts).tasks i blank (omega (arith, size.1, room, small))
              ∙ ap some (
                  ap (λ j. get_or (push_all s ts).tasks j blank) (sym same)
                  ∙ push_all-copied ts s i room small
                  ∙ ap view (get_or-take r.len r.tasks i (ground arith))))
      | inr outside ↦
          let beyond : ltb i (push_all s ts).len ≡ false = ground (arith, size.0, many) in
          rw (beyond, outside) refl
    ]

abbrev pub same_class : TaskClass → TaskClass → Bool
same_class system system = true
same_class worker worker = true
same_class user user = true
same_class _ _ = false

abbrev pub of_class : TaskClass → TaskSnapshot → Bool
of_class class t = same_class t.class class

unfoldable pub class_len : TaskSnapshotSet → TaskClass → ℕ
class_len s class = count (of_class class) (take s.len s.tasks)

abbrev pub identified : ℕ → TaskSnapshot → Bool
identified id t = t.id == id

unfoldable pub find : TaskSnapshotSet → ℕ → Option TaskSnapshot
find s id = elim (position (identified id) (take s.len s.tasks)) [
  | none ↦ none
  | some index ↦ get_elem? s.tasks index
]
