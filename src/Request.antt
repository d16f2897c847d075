-- ===== src/Request.antt =====
-- kernel/src/request.rs: the request ids of one process incarnation.
pub mod Ids
mod Tests
use gen_os.Common.{ℕ, ◌+◌, Option, none, some, checked_add}

pub record RequestSequence : Type 0 where
  pub next : ℕ

unfoldable pub new : RequestSequence
new = record { next = 1 }

unfoldable pub allocate : RequestSequence → Option ℕ × RequestSequence
allocate s = elim (checked_add s.next 1) [
  | none ↦ (none, s)
  | some n ↦ (some s.next, record s { next = n })
]
