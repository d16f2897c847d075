-- ===== src/Editor/Zipper.antt =====
-- The line editor as its user sees it: the bytes before the cursor, the last of them first, and
-- those after it.
use gen_os.Common.{ℕ, ◌+◌, not, ◌||◌, List, [], ◌∷◌, ◌++◌, ◌==◌, ltb, if◌then◌else◌, length, any}
use gen_os.Editor.{printable, unprintable}

pub record Buffer : Type 0 where
  pub before : List ℕ
  pub after : List ℕ

unfoldable pub reverse : List ℕ → List ℕ
reverse [] = []
reverse (x ∷ xs) = reverse xs ++ (x ∷ [])

-- The whole line.
abbrev pub contents : Buffer → List ℕ
contents b = reverse b.before ++ b.after

pub data Key : Type 0 where
  types : (byte : ℕ) → Key
  backspaces deletes moves_left moves_right goes_home goes_end clears : Key
  loads : List ℕ → Key

-- What a key does to a line of at most `n` bytes.
unfoldable pub press : ℕ → Buffer → Key → Buffer
press n b (types byte) =
    if not (printable byte) || (length b.before + length b.after == n)
    then b
    else record b { before = byte ∷ b.before }
press n b backspaces = elim b.before [ [] ↦ b | x ∷ xs ↦ record b { before = xs } ]
press n b deletes = elim b.after [ [] ↦ b | x ∷ xs ↦ record b { after = xs } ]
press n b moves_left = elim b.before [
  | [] ↦ b
  | x ∷ xs ↦ record { before = xs; after = x ∷ b.after }
]
press n b moves_right = elim b.after [
  | [] ↦ b
  | x ∷ xs ↦ record { before = x ∷ b.before; after = xs }
]
press n b goes_home = record { before = []; after = contents b }
press n b goes_end = record { before = reverse (contents b); after = [] }
press n b clears = record { before = []; after = [] }
press n b (loads bytes) =
    if ltb n (length bytes) || any unprintable bytes
    then b
    else record { before = reverse bytes; after = [] }
