-- ===== src/TxQueue.antt =====
-- kernel/src/tx_queue.rs: who owns the one descriptor of the transmit queue. The `u16` counters wrap.
pub mod History
mod Tests
use gen_os.Common.{
  ℕ, ◌+◌, ◌-◌, ◌%◌, ◌^◌, Bool, true, false, not, Option, none, some, ◌==◌, if◌then◌else◌,
}

abbrev pub tx_ring_size : ℕ
tx_ring_size = 8

pub data Phase : Type 0 where
  idle device quarantined : Phase

pub data TxError : Type 0 where
  busy is_quarantined_error unexpected_completion invalid_advance invalid_descriptor : TxError

pub record Publication : Type 0 where
  pub available_index : ℕ
  pub ring_slot : ℕ

pub record TxQueue : Type 0 where
  pub phase : Phase
  pub available : ℕ
  pub used : ℕ

pub data Result {ℓ} (A : Type ℓ) : Type ℓ where
  ok : A → Result A
  err : TxError → Result A

unfoldable pub new : TxQueue
new = record { phase = idle; available = 0; used = 0 }

abbrev pub wrapping_add : ℕ → ℕ → ℕ
wrapping_add a b = (a + b) % 2 ^ 16

abbrev pub wrapping_sub : ℕ → ℕ → ℕ
wrapping_sub a b = (a + (2 ^ 16 - b)) % 2 ^ 16

unfoldable pub quarantine : TxQueue → TxQueue
quarantine q = record q { phase = quarantined }

unfoldable pub is_quarantined : TxQueue → Bool
is_quarantined q = elim q.phase [ quarantined ↦ true | _ ↦ false ]

unfoldable pub begin : TxQueue → Result Publication × TxQueue
begin q = elim q.phase [
  | device ↦ (err busy, q)
  | quarantined ↦ (err is_quarantined_error, q)
  | idle ↦
      let available = wrapping_add q.available 1 in
      (
        ok (record { available_index = available; ring_slot = q.available % tx_ring_size }),
        record q { available = available; phase = device },
      )
]

-- The `match` of `complete` on the phase and on what the device reports.
abbrev pub completion_error : TxQueue → ℕ → ℕ → Option TxError
completion_error q used descriptor = elim q.phase [
  | quarantined ↦ some is_quarantined_error
  | idle ↦ some unexpected_completion
  | device ↦
      if not (wrapping_sub used q.used == 1)
      then some invalid_advance
      else if not (descriptor == 0)
      then some invalid_descriptor
      else none
]

unfoldable pub complete : TxQueue → ℕ → ℕ → Result (Unit {0}) × TxQueue
complete q used descriptor = elim (completion_error q used descriptor) [
  | some error ↦ (err error, quarantine q)
  | none ↦ (ok tt, record q { used = used; phase = idle })
]
