-- ===== src/RxQueue.antt =====
-- kernel/src/rx_queue.rs: the completed receive buffers that the driver has admitted. The const
-- parameter `N` is the argument `n`; an `Ok(())` is `none`, an error `some`.
pub mod Validate
pub mod Drain
mod Tests
use gen_os.Common.{
  ℕ, zero, suc, ◌+◌, ◌-◌, ◌%◌, ◌^◌, Bool, true, false, not, ◌&&◌, ◌||◌, Option, none, some, List,
  [], ◌∷◌, ◌==◌, ltb, leb, if◌then◌else◌, is_some, get_elem?, get_or, set, replicate, length,
}

abbrev pub rx_header_bytes : ℕ
rx_header_bytes = 12

abbrev pub rx_buffer_bytes : ℕ
rx_buffer_bytes = 2048

pub record RxCompletion : Type 0 where
  pub descriptor : ℕ
  pub length : ℕ

abbrev pub empty : RxCompletion
empty = record { descriptor = 0; length = 0 }

pub data RxError : Type 0 where
  busy in_quarantine invalid_advance invalid_descriptor duplicate_descriptor invalid_length :
      RxError

pub record RxBatch : Type 0 where
  pub used : ℕ
  pub entries : List RxCompletion
  pub cursor : ℕ
  pub count : ℕ
  pub quarantined : Bool

unfoldable pub new : ℕ → ℕ → RxBatch
new n used = record {
  used = used;
  entries = replicate n empty;
  cursor = 0;
  count = 0;
  quarantined = false;
}

abbrev pub pending : RxBatch → Bool
pending b = ltb b.cursor b.count

unfoldable pub quarantine : RxBatch → RxBatch
quarantine b = record b { quarantined = true }

-- `(RX_HEADER_BYTES..=RX_BUFFER_BYTES).contains(&length)`
abbrev pub fits_buffer : ℕ → Bool
fits_buffer length = leb rx_header_bytes length && leb length rx_buffer_bytes

-- The test of one entry against the flags of the descriptors that were seen. The conversions of
-- a `u32` to the 64-bit `usize` never fail.
abbrev pub entry_error : List Bool → RxCompletion → Option RxError
entry_error seen entry = elim (get_elem? seen entry.descriptor) [
  | none ↦ some invalid_descriptor
  | some already ↦
      if already
      then some duplicate_descriptor
      else if fits_buffer entry.length
      then none
      else some invalid_length
]

-- The loop of `validate`.
unfoldable pub validate_entries : List Bool → List RxCompletion → Option RxError
validate_entries seen [] = none
validate_entries seen (entry ∷ rest) =
    let next = validate_entries (set seen entry.descriptor true) rest in
    elim (entry_error seen entry) [ some error ↦ some error | none ↦ next ]

abbrev pub wrapping_sub : ℕ → ℕ → ℕ
wrapping_sub a b = (a + (2 ^ 16 - b)) % 2 ^ 16

unfoldable pub validate : ℕ → RxBatch → ℕ → List RxCompletion → Option RxError
validate n b end entries =
    let count = wrapping_sub end b.used in
    if not (leb count n) || not (length entries == count)
    then some invalid_advance
    else validate_entries (replicate n false) entries

-- `self.entries[..entries.len()].copy_from_slice(entries)`
unfoldable pub copy_from_slice : List RxCompletion → List RxCompletion → List RxCompletion
copy_from_slice old [] = old
copy_from_slice [] (x ∷ xs) = []
copy_from_slice (o ∷ old) (x ∷ xs) = x ∷ copy_from_slice old xs

-- The end of `admit`, after the validation.
unfoldable pub admit_validated :
    RxBatch → List RxCompletion → Option RxError → Option RxError × RxBatch
admit_validated b entries (some error) = (some error, quarantine b)
admit_validated b entries none = (
  none,
  record b { entries = copy_from_slice b.entries entries; cursor = 0; count = length entries },
)

unfoldable pub admit : ℕ → RxBatch → ℕ → List RxCompletion → Option RxError × RxBatch
admit n b end entries =
    if b.quarantined
    then (some in_quarantine, b)
    else if pending b
    then (some busy, b)
    else admit_validated b entries (validate n b end entries)

unfoldable pub take : RxBatch → Option RxCompletion × RxBatch
take b = if b.quarantined || not (pending b) then (none, b) else (
  some (get_or b.entries b.cursor empty),
  record b { cursor = b.cursor + 1; used = (b.used + 1) % 2 ^ 16 },
)
