-- ===== src/FrameGrant.antt =====
-- kernel/src/frame_grant.rs: the ledger of managed physical frames. The array of `N` records is a
-- list, `N` an argument. The closures that allocate and prepare memory act on a state `S` of the
-- physical allocator, which the model hands through; a failed `assert!` is the outcome `panicked`.
pub mod Stale
pub mod Invariant
pub mod Pins
pub mod Retire
pub mod History
mod Tests
use gen_os.Common.{
  ℕ, zero, suc, ◌+◌, ◌-◌, ◌/◌, ◌%◌, min, ◌≡◌, Bool, true, false, ◌&&◌, ◌||◌, not, Option, none,
  some, List, [], ◌∷◌, ◌==◌, leb, ltb, if◌then◌else◌, is_none, is_some, get_elem?, get_or, set, any,
  all, count, position, replicate, checked_add, saturating_add,
}

abbrev pub page_size : ℕ
page_size = 4096

abbrev pub user_frame_limit : ℕ
user_frame_limit = 64

abbrev pub kernel_frame_reserve : ℕ
kernel_frame_reserve = 256

-- `Owner(u64)`, and `Owner::KERNEL`.
abbrev pub kernel : ℕ
kernel = 0

pub data Kind : Type 0 where
  table user : Kind

abbrev pub kind_eq : Kind → Kind → Bool
kind_eq table table = true
kind_eq table user = false
kind_eq user table = false
kind_eq user user = true

pub record Grant : Type 0 where
  pub address : ℕ
  pub generation : ℕ
  pub owner : ℕ
  pub slot : ℕ
  pub kind : Kind

-- `Record` of the source.
pub record FrameRecord : Type 0 where
  pub address : ℕ
  pub generation : ℕ
  pub owner : ℕ
  pub mapped_at : ℕ
  pub kind : Kind

abbrev pub empty : FrameRecord
empty = record { address = 0; generation = 0; owner = kernel; mapped_at = 0; kind = table }

abbrev pub grant : FrameRecord → ℕ → Grant
grant r slot = record {
  address = r.address;
  generation = r.generation;
  owner = r.owner;
  slot = slot;
  kind = r.kind;
}

pub record Ledger : Type 0 where
  pub records : List FrameRecord
  pub next_generation : ℕ
  pub next_owner : ℕ
  pub live : ℕ
  pub denied : ℕ
  pub exhausted : ℕ
  pub quota_denials : ℕ

unfoldable pub new : ℕ → Ledger
new n = record {
  records = replicate n empty;
  next_generation = 1;
  next_owner = 1;
  live = 0;
  denied = 0;
  exhausted = 0;
  quota_denials = 0;
}

unfoldable pub new_owner : Ledger → Option ℕ × Ledger
new_owner l = elim (checked_add l.next_owner 1) [
  | none ↦ (none, l)
  | some next ↦ (some l.next_owner, record l { next_owner = next })
]

abbrev pub occupied : FrameRecord → Bool
occupied r = not (r.address == 0)

abbrev pub owned_by : ℕ → FrameRecord → Bool
owned_by owner r = occupied r && (r.owner == owner)

abbrev pub at_address : ℕ → FrameRecord → Bool
at_address address r = r.address == address

unfoldable pub owner_frames : Ledger → ℕ → ℕ
owner_frames l owner = count (owned_by owner) l.records

abbrev pub exhausts : Ledger → Ledger
exhausts l = record l { exhausted = saturating_add l.exhausted 1 }

-- The quota of a process and the reserve of the kernel.
abbrev pub over_quota : ℕ → Ledger → ℕ → Bool
over_quota n l owner =
    not (owner == kernel)
    && (leb user_frame_limit (owner_frames l owner)
        || leb (n - min kernel_frame_reserve (n / 4)) l.live)

pub data Outcome {ℓ} (A : Type ℓ) : Type ℓ where
  panicked : Outcome A
  done : A → Outcome A

-- The assertions of `allocate` on the address that the allocator gave.
abbrev pub breaks_contract : Ledger → ℕ → Bool
breaks_contract l address =
    (address == 0 || not (address % page_size == 0)) || any (at_address address) l.records

module _ {ℓ} {S : Type ℓ} where
  -- The end of `allocate`: the assertions on the address that the allocator gave, and the record.
  unfoldable pub admit : Ledger → ℕ → Kind → ℕ → ℕ → ℕ → S → Outcome (Option Grant × Ledger × S)
  admit l owner kind slot next address st =
      if breaks_contract l address
      then panicked
      else done (
        some (grant r slot),
        record l { records = set l.records slot r; next_generation = next; live = l.live + 1 },
        st,
      )
    where
      r : FrameRecord
      r = record {
        address = address;
        generation = l.next_generation;
        owner = owner;
        mapped_at = 0;
        kind = kind;
      }

  unfoldable pub obtain :
      Ledger → ℕ → Kind → ℕ → ℕ → Option ℕ × S → Outcome (Option Grant × Ledger × S)
  obtain l owner kind slot next (none, st) = done (none, l, st)
  obtain l owner kind slot next (some address, st) = admit l owner kind slot next address st

  -- `let (Some(slot), Some(next)) = (slot, next) else { .. }`, then the call of the closure.
  unfoldable pub choose :
      Ledger
      → ℕ
      → Kind
      → Option ℕ
      → Option ℕ
      → (S → Option ℕ × S)
      → S
      → Outcome (Option Grant × Ledger × S)
  choose l owner kind none next allocator st = done (none, exhausts l, st)
  choose l owner kind (some slot) none allocator st = done (none, exhausts l, st)
  choose l owner kind (some slot) (some next) allocator st =
      obtain l owner kind slot next (allocator st)

  unfoldable pub allocate :
      ℕ → Ledger → ℕ → Kind → (S → Option ℕ × S) → S → Outcome (Option Grant × Ledger × S)
  allocate n l owner kind allocator st =
      if over_quota n l owner
      then done (none, record l { quota_denials = saturating_add l.quota_denials 1 }, st)
      else choose l owner kind (position (at_address 0) l.records) (checked_add l.next_generation 1)
          allocator st

abbrev pub grant_eq : Grant → Grant → Bool
grant_eq a b =
    (a.address == b.address)
    && ((a.generation == b.generation)
        && ((a.owner == b.owner) && ((a.slot == b.slot) && kind_eq a.kind b.kind)))

-- The test that `is_live` makes of the record in the grant's slot.
abbrev pub vouches : Grant → Option FrameRecord → Bool
vouches g none = false
vouches g (some r) = occupied r && grant_eq (grant r g.slot) g

unfoldable pub is_live : Ledger → Grant → Bool
is_live l g = vouches g (get_elem? l.records g.slot)

-- The record in a grant's slot; the callers have checked that the slot is in range.
abbrev pub record_at : Ledger → ℕ → FrameRecord
record_at l slot = get_or l.records slot empty

abbrev pub found_by : ℕ → ℕ → Kind → FrameRecord → Bool
found_by owner address kind r =
    (r.address == address) && (not (address == 0) && ((r.owner == owner) && kind_eq r.kind kind))

unfoldable pub find : Ledger → ℕ → ℕ → Kind → Option Grant
find l owner address kind = elim (position (found_by owner address kind) l.records) [
  | none ↦ none
  | some slot ↦ some (grant (record_at l slot) slot)
]

abbrev pub denies : Ledger → Ledger
denies l = record l { denied = saturating_add l.denied 1 }

-- The guard of `bind`.
abbrev pub refuses_bind : Ledger → Grant → ℕ → ℕ → Bool
refuses_bind l g owner virtual_address =
    not (is_live l g)
    || (not (g.owner == owner)
        || (not (kind_eq g.kind user)
            || (virtual_address == 0
                || (not (virtual_address % page_size == 0)
                    || not ((record_at l g.slot).mapped_at == 0)))))

unfoldable pub bind : Ledger → Grant → ℕ → ℕ → Bool × Ledger
bind l g owner virtual_address =
    if refuses_bind l g owner virtual_address then (false, denies l) else (
      true,
      record l {
        records =
            set l.records g.slot (record (record_at l g.slot) { mapped_at = virtual_address });
      },
    )

unfoldable pub can_bind : Ledger → Grant → ℕ → Bool
can_bind l g owner =
    is_live l g
    && ((g.owner == owner) && (kind_eq g.kind user && ((record_at l g.slot).mapped_at == 0)))

unfoldable pub mapping_matches : Ledger → ℕ → ℕ → ℕ → Bool
mapping_matches l owner address virtual_address = elim (find l owner address user) [
  | none ↦ false
  | some g ↦ not (virtual_address == 0) && ((record_at l g.slot).mapped_at == virtual_address)
]

unfoldable pub retire_at : Ledger → ℕ → Grant → Option Grant × Ledger
retire_at l virtual_address g =
    if virtual_address == 0 || not ((record_at l g.slot).mapped_at == virtual_address)
    then (none, l)
    else (
      some g,
      record l { records = set l.records g.slot (record (record_at l g.slot) { mapped_at = 0 }) },
    )

unfoldable pub retire : Ledger → ℕ → ℕ → ℕ → Option Grant × Ledger
retire l owner address virtual_address = elim (find l owner address user) [
  | none ↦ (none, l)
  | some g ↦ retire_at l virtual_address g
]

-- The guard of `release`.
abbrev pub refuses_release : Ledger → Grant → Bool
refuses_release l g = not (is_live l g) || not ((record_at l g.slot).mapped_at == 0)

module _ {ℓ} {S : Type ℓ} where
  unfoldable pub free : Ledger → Grant → Bool × S → Bool × Ledger × S
  free l g (false, st) = (false, l, st)
  free l g (true, st) =
      (true, record l { records = set l.records g.slot empty; live = l.live - 1 }, st)

  unfoldable pub release : Ledger → Grant → (ℕ → S → Bool × S) → S → Bool × Ledger × S
  release l g prepare_and_free st =
      if refuses_release l g
      then (false, denies l, st)
      else free l g (prepare_and_free g.address st)

unfoldable pub is_consistent : Ledger → ℕ → (ℕ → Bool) → Bool
is_consistent l bitmap_live contains =
    (l.live == bitmap_live)
    && ((count occupied l.records == l.live)
        && all (λ r. not (occupied r) || contains r.address) l.records)
