-- ===== src/Capability.antt =====
-- kernel/src/capability.rs: the handle registry of one process. The array `entries` is a list of
-- `N` options; an operation that takes `&mut self` returns its answer and the new table.
pub mod Invariant
pub mod Authority
mod Tests
use gen_os.Common.{
  ℕ, ◌+◌, ◌≡◌, Bool, true, false, ◌&&◌, ◌||◌, Option, none, some, List, ◌==◌, if◌then◌else◌,
  is_none, is_some, set, any, position, count, replicate, bit_and, length,
}

pub data HandleKind : Type 0 where
  file endpoint_receive endpoint_send console lifecycle process socket : HandleKind

-- The discriminants, by which the derived equality compares.
unfoldable pub discriminant : HandleKind → ℕ
discriminant file = 0
discriminant endpoint_receive = 1
discriminant endpoint_send = 2
discriminant console = 3
discriminant lifecycle = 4
discriminant process = 5
discriminant socket = 6

unfoldable pub kind_eq : HandleKind → HandleKind → Bool
kind_eq a b = discriminant a == discriminant b

pub record HandleEntry : Type 0 where
  pub handle : ℕ
  pub kind : HandleKind
  pub rights : ℕ

pub record HandleTable : Type 0 where
  pub entries : List (Option HandleEntry)

unfoldable pub new : ℕ → HandleTable
new n = record { entries = replicate n none }

-- The tests that `register`, `allows` and `unregister` make of a slot.
abbrev pub names : ℕ → Option HandleEntry → Bool
names handle none = false
names handle (some e) = e.handle == handle

abbrev pub grants : ℕ → HandleKind → ℕ → Option HandleEntry → Bool
grants handle kind required none = false
grants handle kind required (some e) =
    (e.handle == handle) && (kind_eq e.kind kind && (bit_and e.rights required == required))

abbrev pub holds : ℕ → HandleKind → Option HandleEntry → Bool
holds handle kind none = false
holds handle kind (some e) = (e.handle == handle) && kind_eq e.kind kind

unfoldable pub register : HandleTable → ℕ → HandleKind → ℕ → Bool × HandleTable
register t handle kind rights =
    if handle == 0 || any (names handle) t.entries
    then (false, t)
    else elim (position is_none t.entries) [
      | none ↦ (false, t)
      | some slot ↦ (
        true,
        record {
          entries =
              set t.entries slot (some (record { handle = handle; kind = kind; rights = rights }));
        },
      )
    ]

unfoldable pub allows : HandleTable → ℕ → HandleKind → ℕ → Bool
allows t handle kind required = any (grants handle kind required) t.entries

unfoldable pub unregister : HandleTable → ℕ → HandleKind → Bool × HandleTable
unregister t handle kind = elim (position (holds handle kind) t.entries) [
  | none ↦ (false, t)
  | some slot ↦ (true, record { entries = set t.entries slot none })
]

unfoldable pub len : HandleTable → ℕ
len t = count is_some t.entries

unfoldable pub is_empty : HandleTable → Bool
is_empty t = len t == 0

unfoldable pub clear : HandleTable → HandleTable
clear t = record { entries = replicate (length t.entries) none }
