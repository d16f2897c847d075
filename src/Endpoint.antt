-- ===== src/Endpoint.antt =====
-- kernel/src/endpoint.rs: the endpoint authority of one process. The methods take the state and
-- the process's registry, and return their answer, the new state and the new registry. The
-- capacities are those of crates/abi/src/lib.rs.
pub mod Calls
pub mod Handles
pub mod Stale
pub mod Evolution
pub mod Consistent
pub mod Placement
pub mod Preserve
pub mod Closing
pub mod Authority
pub mod Issue
mod Tests
use gen_os.Common.{
  ℕ, ◌+◌, ◌-◌, ◌*◌, ◌%◌, ◌^◌, ◌≡◌, Bool, true, false, ◌&&◌, ◌||◌, not, Option, none, some, List, [],
  ◌∷◌, ◌==◌, ltb, leb, if◌then◌else◌, is_none, is_some, set, any, all, position, count, replicate,
  length, get_elem?, bit_and, bit_or, u32_max,
}
use gen_os.Capability
use gen_os.Capability.{HandleKind, HandleTable, endpoint_receive, endpoint_send, file}
use gen_os.Ipc
use gen_os.Ipc.{ChannelQueue, UserChannelMessage}

abbrev pub handle_capacity : ℕ
handle_capacity = 4

abbrev pub queue_capacity : ℕ
queue_capacity = 4

abbrev pub right_use : ℕ
right_use = 1

abbrev pub tag : ℕ
tag = 0xe9 * 2 ^ 56

abbrev pub tag_mask : ℕ
tag_mask = 0xff * 2 ^ 56

abbrev pub generation_max : ℕ
generation_max = u32_max

-- `size_of::<UserChannelMessage>()`: two `u64` fields.
abbrev pub message_size : ℕ
message_size = 16

pub data QueueResult : Type 0 where
  queued : ℕ → QueueResult
  duplicate_producer full unpublished : QueueResult

pub record PendingReceive : Type 0 where
  pub handle : ℕ
  pub generation : ℕ
  pub address : ℕ
  pub size : ℕ

pub data EndpointRole : Type 0 where
  receives : ℕ → EndpointRole
  sends : ℕ → ℕ → EndpointRole

pub record EndpointCapability : Type 0 where
  pub handle : ℕ
  pub owner_pid : ℕ
  pub generation : ℕ
  pub slot : ℕ
  pub role : EndpointRole

pub record PublishedEndpoint : Type 0 where
  pub generation : ℕ
  pub queue : ChannelQueue

pub record EndpointState : Type 0 where
  pub owner_pid : ℕ
  pub handles : List (Option EndpointCapability)
  pub next_generation : ℕ
  pub published : Option PublishedEndpoint
  pub pending_receive : Option PendingReceive

unfoldable pub endpoint_handle : ℕ → ℕ → ℕ → ℕ
endpoint_handle owner_pid generation slot =
    bit_or (bit_or (bit_or tag (owner_pid * 2 ^ 40 % 2 ^ 64)) (generation * 2 ^ 8 % 2 ^ 64))
      (slot + 1)

unfoldable pub endpoint_handle_slot : ℕ → Option ℕ
endpoint_handle_slot handle =
    if not (bit_and handle tag_mask == tag)
    then none
    else if leb 1 (bit_and handle 0xff) && leb (bit_and handle 0xff) handle_capacity
    then some (bit_and handle 0xff - 1)
    else none

-- The kind under which a role is registered.
abbrev pub role_kind : EndpointRole → HandleKind
role_kind (receives generation) = endpoint_receive
role_kind (sends pid generation) = endpoint_send

unfoldable pub new : ℕ → EndpointState
new owner_pid = record {
  owner_pid = owner_pid;
  handles = replicate handle_capacity none;
  next_generation = 1;
  published = none;
  pending_receive = none;
}

abbrev pub generation_of : Option PublishedEndpoint → Option ℕ
generation_of none = none
generation_of (some endpoint) = some endpoint.generation

unfoldable pub published_generation : EndpointState → Option ℕ
published_generation s = generation_of s.published

-- `Some(a) == Some(b)`
abbrev pub is_generation : Option ℕ → ℕ → Bool
is_generation none b = false
is_generation (some a) b = a == b

unfoldable pub queue_depth : EndpointState → ℕ
queue_depth s = elim s.published [ none ↦ 0 | some endpoint ↦ endpoint.queue.len ]

unfoldable pub next_generation : EndpointState → Option ℕ × EndpointState
next_generation s =
    if ltb generation_max s.next_generation
    then (none, s)
    else (some s.next_generation, record s { next_generation = s.next_generation + 1 })

-- The capability that `allocate` and `create` write into their slot.
abbrev pub issued : EndpointState → ℕ → ℕ → EndpointRole → EndpointCapability
issued s generation slot role = record {
  handle = endpoint_handle s.owner_pid generation slot;
  owner_pid = s.owner_pid;
  generation = generation;
  slot = slot;
  role = role;
}

abbrev pub Outcome : Type 0
Outcome = Option ℕ × EndpointState × HandleTable

-- `allocate` once its slot and generation are chosen: register, then write the slot.
unfoldable pub install : EndpointState → HandleTable → ℕ → ℕ → EndpointRole → Outcome
install s t generation slot role =
    let handle = endpoint_handle s.owner_pid generation slot in
    let (done, t') = Capability.register t handle (role_kind role) right_use in
    if done
    then (
      some handle,
      record s { handles = set s.handles slot (some (issued s generation slot role)) },
      t',
    )
    else (none, s, t')

unfoldable pub allocate_at : EndpointState → HandleTable → EndpointRole → ℕ → Outcome
allocate_at s t role slot =
    let (generation, s') = next_generation s in
    elim generation [ none ↦ (none, s', t) | some g ↦ install s' t g slot role ]

unfoldable pub allocate : EndpointState → HandleTable → EndpointRole → Outcome
allocate s t role = elim (position is_none s.handles) [
  | none ↦ (none, s, t)
  | some slot ↦ allocate_at s t role slot
]
