-- ===== src/Ipc.antt =====
-- kernel/src/ipc.rs: the bounded message queue of an endpoint, with the message type of
-- crates/abi/src/lib.rs. The array `messages` of `CAPACITY` slots is a list, `head` and `len` are
-- numbers; an operation returns its answer and the new queue.
pub mod FairQueue
pub mod Refine
mod Tests
use gen_os.Common.{
  ℕ, zero, suc, ◌+◌, ◌-◌, ◌%◌, ◌≡◌, Bool, true, false, ◌&&◌, ◌||◌, Option, none, some, List, ◌==◌,
  if◌then◌else◌, get_or, set, replicate,
}

pub record UserChannelMessage : Type 0 where
  pub sender_pid : ℕ
  pub value : ℕ

unfoldable pub empty_message : UserChannelMessage
empty_message = record { sender_pid = 0; value = 0 }

pub record ChannelQueue : Type 0 where
  pub messages : List UserChannelMessage
  pub head : ℕ
  pub len : ℕ

-- The const parameter `CAPACITY` is the argument `capacity`.
unfoldable pub new : ℕ → ChannelQueue
new capacity = record { messages = replicate capacity empty_message; head = 0; len = 0 }

-- `self.messages[(self.head + offset) % CAPACITY]`
abbrev pub message_at : ℕ → ChannelQueue → ℕ → UserChannelMessage
message_at capacity q offset = get_or q.messages ((q.head + offset) % capacity) empty_message

-- `(offset..offset + left).any(..)`
unfoldable pub any_sender : ℕ → ChannelQueue → ℕ → ℕ → ℕ → Bool
any_sender capacity q sender_pid offset zero = false
any_sender capacity q sender_pid offset (suc left) =
    (message_at capacity q offset).sender_pid == sender_pid
    || any_sender capacity q sender_pid (offset + 1) left

unfoldable pub contains_sender : ℕ → ChannelQueue → ℕ → Bool
contains_sender capacity q sender_pid = any_sender capacity q sender_pid 0 q.len

unfoldable pub push : ℕ → ChannelQueue → UserChannelMessage → Bool × ChannelQueue
push capacity q message =
    if capacity == 0 || (q.len == capacity || contains_sender capacity q message.sender_pid)
    then (false, q)
    else (
      true,
      record q { messages = set q.messages ((q.head + q.len) % capacity) message; len = q.len + 1 },
    )

unfoldable pub pop : ℕ → ChannelQueue → Option UserChannelMessage × ChannelQueue
pop capacity q = if q.len == 0 then (none, q) else (
  some (get_or q.messages q.head empty_message),
  record q { head = (q.head + 1) % capacity; len = q.len - 1 },
)

unfoldable pub is_empty : ChannelQueue → Bool
is_empty q = q.len == 0
