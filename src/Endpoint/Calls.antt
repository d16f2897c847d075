-- ===== src/Endpoint/Calls.antt =====
-- The other methods of `EndpointState`: resolving, publishing, closing, revoking, clearing, and
-- the published queue.
use gen_os.Common.{
  ℕ, ◌+◌, Bool, true, false, ◌&&◌, ◌||◌, not, Option, none, some, List, [], ◌∷◌, ◌==◌,
  if◌then◌else◌, is_none, is_some, set, any, all, position, count, replicate, get_elem?,
}
use gen_os.Capability
use gen_os.Capability.{HandleKind, HandleTable, endpoint_receive, endpoint_send, file}
use gen_os.Ipc
use gen_os.Ipc.{ChannelQueue, UserChannelMessage}
use gen_os.Endpoint.{
  EndpointState, EndpointCapability, EndpointRole, receives, sends, PublishedEndpoint,
  PendingReceive, QueueResult, queued, duplicate_producer, full, unpublished, endpoint_handle,
  endpoint_handle_slot, next_generation, published_generation, is_generation, role_kind, right_use,
  install, queue_capacity, handle_capacity, message_size, Outcome,
}

-- The checks that `capability` makes of the slot that a handle names.
abbrev pub resolves : EndpointState → HandleTable → ℕ → ℕ → EndpointCapability → Bool
resolves s t handle slot c =
    (c.handle == handle)
    && ((c.owner_pid == s.owner_pid)
        && ((c.slot == slot)
            && ((endpoint_handle c.owner_pid c.generation slot == handle)
                && Capability.allows t handle (role_kind c.role) right_use)))

-- `self.handles[slot]?`, after `endpoint_handle_slot(handle)?`.
abbrev pub slot_entry : List (Option EndpointCapability) → ℕ → Option EndpointCapability
slot_entry handles slot = elim (get_elem? handles slot) [ none ↦ none | some entry ↦ entry ]

abbrev pub capability_at :
    EndpointState → HandleTable → ℕ → ℕ → Option EndpointCapability → Option EndpointCapability
capability_at s t handle slot none = none
capability_at s t handle slot (some c) = if resolves s t handle slot c then some c else none

unfoldable pub capability : EndpointState → HandleTable → ℕ → Option EndpointCapability
capability s t handle = elim (endpoint_handle_slot handle) [
  | none ↦ none
  | some slot ↦ capability_at s t handle slot (slot_entry s.handles slot)
]

abbrev send_target : EndpointRole → Option (ℕ × ℕ)
send_target (sends pid generation) = some (pid, generation)
send_target (receives generation) = none

unfoldable pub send_capability : EndpointState → HandleTable → ℕ → Option (ℕ × ℕ)
send_capability s t handle = elim (capability s t handle) [
  | none ↦ none
  | some c ↦ send_target c.role
]

abbrev receive_target : EndpointState → EndpointRole → Option ℕ
receive_target s (sends pid generation) = none
receive_target s (receives generation) =
    if is_generation (published_generation s) generation then some generation else none

unfoldable pub receive_generation : EndpointState → HandleTable → ℕ → Option ℕ
receive_generation s t handle = elim (capability s t handle) [
  | none ↦ none
  | some c ↦ receive_target s c.role
]

-- `create` after its checks: as `install`, and the endpoint is published with an empty queue.
unfoldable pub publish : EndpointState → HandleTable → ℕ → ℕ → Outcome
publish s t generation slot =
    let (handle, s', t') = install s t generation slot (receives generation) in
    elim handle [
      | none ↦ (none, s', t')
      | some h ↦ (
        some h,
        record s' {
          published = some (record { generation = generation; queue = Ipc.new queue_capacity });
        },
        t',
      )
    ]

unfoldable pub create_at : EndpointState → HandleTable → ℕ → Outcome
create_at s t slot =
    let (generation, s') = next_generation s in
    elim generation [ none ↦ (none, s', t) | some g ↦ publish s' t g slot ]

unfoldable pub create : EndpointState → HandleTable → Outcome
create s t =
    if is_some s.published || not (any is_none s.handles)
    then (none, s, t)
    else elim (position is_none s.handles) [ none ↦ (none, s, t) | some slot ↦ create_at s t slot ]

abbrev pub Closing : Type 0
Closing = Option EndpointRole × EndpointState × HandleTable

-- `close` once the role's own teardown is done.
unfoldable pub release : EndpointState → HandleTable → ℕ → EndpointCapability → Closing
release s t handle c =
    let (done, t') = Capability.unregister t handle (role_kind c.role) in
    if done
    then (some c.role, record s { handles = set s.handles c.slot none }, t')
    else (none, s, t')

unfoldable pub close_role :
    EndpointState → HandleTable → ℕ → EndpointCapability → EndpointRole → Closing
close_role s t handle c (sends pid generation) = release s t handle c
close_role s t handle c (receives generation) =
    if is_generation (published_generation s) generation
    then release (record s { published = none; pending_receive = none }) t handle c
    else (none, s, t)

unfoldable pub close : EndpointState → HandleTable → ℕ → Closing
close s t handle = elim (capability s t handle) [
  | none ↦ (none, s, t)
  | some c ↦ close_role s t handle c c.role
]

abbrev pub targets : ℕ → ℕ → EndpointRole → Bool
targets target_pid target_generation (receives generation) = false
targets target_pid target_generation (sends pid generation) =
    (pid == target_pid) && (generation == target_generation)

abbrev pub names_target : ℕ → ℕ → Option EndpointCapability → Bool
names_target target_pid target_generation none = false
names_target target_pid target_generation (some c) = targets target_pid target_generation c.role

abbrev pub unregister_entry : Option EndpointCapability → HandleKind → HandleTable → HandleTable
unregister_entry none kind t = t
unregister_entry (some c) kind t = (Capability.unregister t c.handle kind).1

-- The loop of `revoke_send_handles` over the slots, with the count and the registry.
unfoldable pub revoke_loop :
    ℕ
    → ℕ
    → List (Option EndpointCapability)
    → HandleTable
    → ℕ
    → ℕ × List (Option EndpointCapability) × HandleTable
revoke_loop target_pid target_generation [] t revoked = (revoked, [], t)
revoke_loop target_pid target_generation (entry ∷ entries) t revoked =
    let hit = names_target target_pid target_generation entry in
    let t' = if hit then unregister_entry entry endpoint_send t else t in
    let (total, rest, last) =
      revoke_loop target_pid target_generation entries t' (if hit then revoked + 1 else revoked) in
    (total, (if hit then none else entry) ∷ rest, last)

unfoldable pub revoke_send_handles :
    EndpointState → HandleTable → ℕ → ℕ → ℕ × EndpointState × HandleTable
revoke_send_handles s t target_pid target_generation =
    let (revoked, handles, t') = revoke_loop target_pid target_generation s.handles t 0 in
    (revoked, record s { handles = handles }, t')

-- The loop of `clear` over the slots.
unfoldable pub clear_loop : List (Option EndpointCapability) → HandleTable → HandleTable
clear_loop [] t = t
clear_loop (none ∷ entries) t = clear_loop entries t
clear_loop (some c ∷ entries) t =
    clear_loop entries (Capability.unregister t c.handle (role_kind c.role)).1

unfoldable pub clear_payload : EndpointState → EndpointState
clear_payload s = record s {
  handles = replicate handle_capacity none;
  published = none;
  pending_receive = none;
}

unfoldable pub clear : EndpointState → HandleTable → EndpointState × HandleTable
clear s t = (clear_payload s, clear_loop s.handles t)

unfoldable pub len : EndpointState → ℕ
len s = count is_some s.handles

unfoldable pub is_empty : EndpointState → Bool
is_empty s = len s == 0

unfoldable pub resources_are_revoked : EndpointState → Bool
resources_are_revoked s = is_empty s && (is_none s.published && is_none s.pending_receive)

unfoldable pub park_receive : EndpointState → HandleTable → PendingReceive → Bool × EndpointState
park_receive s t pending =
    if not (is_generation (receive_generation s t pending.handle) pending.generation)
      || not (pending.size == message_size)
    then (false, s)
    else (true, record s { pending_receive = some pending })

unfoldable pub clear_pending_receive : EndpointState → EndpointState
clear_pending_receive s = record s { pending_receive = none }

unfoldable pub enqueue_at :
    EndpointState → PublishedEndpoint → UserChannelMessage → QueueResult × EndpointState
enqueue_at s endpoint message =
    if Ipc.contains_sender queue_capacity endpoint.queue message.sender_pid
    then (duplicate_producer, s)
    else let (pushed, queue) = Ipc.push queue_capacity endpoint.queue message in
      if pushed
      then (queued queue.len, record s { published = some (record endpoint { queue = queue }) })
      else (full, record s { published = some (record endpoint { queue = queue }) })

unfoldable pub enqueue : EndpointState → UserChannelMessage → QueueResult × EndpointState
enqueue s message = elim s.published [
  | none ↦ (unpublished, s)
  | some endpoint ↦ enqueue_at s endpoint message
]

unfoldable pub pop_message : EndpointState → Option UserChannelMessage × EndpointState
pop_message s = elim s.published [
  | none ↦ (none, s)
  | some endpoint ↦
      let (message, queue) = Ipc.pop queue_capacity endpoint.queue in
      (message, record s { published = some (record endpoint { queue = queue }) })
]

-- The derived equality of roles and capabilities.
abbrev pub role_eq : EndpointRole → EndpointRole → Bool
role_eq (receives g) (receives g') = g == g'
role_eq (receives g) (sends p' g') = false
role_eq (sends p g) (receives g') = false
role_eq (sends p g) (sends p' g') = (p == p') && (g == g')

abbrev pub capability_eq : Option EndpointCapability → EndpointCapability → Bool
capability_eq none b = false
capability_eq (some a) b =
    (a.handle == b.handle)
    && ((a.owner_pid == b.owner_pid)
        && ((a.generation == b.generation) && ((a.slot == b.slot) && role_eq a.role b.role)))

abbrev pub consistent_entry : EndpointState → HandleTable → Option EndpointCapability → Bool
consistent_entry s t none = true
consistent_entry s t (some c) =
    capability_eq (capability s t c.handle) c && not (Capability.allows t c.handle file 0)

unfoldable pub registry_is_consistent : EndpointState → HandleTable → Bool
registry_is_consistent s t = all (consistent_entry s t) s.handles
