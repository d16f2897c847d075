-- ===== src/PathPolicy.antt =====
-- kernel/src/path_policy.rs: which byte strings are paths. A string is the list of its bytes.
pub mod Join
pub mod Case
pub mod Ascii
mod Tests
use gen_os.Common.{
  ℕ, zero, suc, ◌+◌, ◌-◌, Bool, true, false, ◌&&◌, ◌||◌, not, Option, none, some, List, [], ◌∷◌,
  ◌++◌, ◌==◌, leb, ltb, if◌then◌else◌, all, take, drop, length,
}
use gen_os.FixedText.{push_str}

-- `USER_PATH_MAX`.
abbrev pub user_path_max : ℕ
user_path_max = 64

-- `/`.
abbrev pub slash : ℕ
slash = 47

abbrev pub root : List ℕ
root = slash ∷ []

-- `USER_WRITABLE_PREFIX`, `/USER/`.
abbrev pub user_writable_prefix : List ℕ
user_writable_prefix = 47 ∷ 85 ∷ 83 ∷ 69 ∷ 82 ∷ 47 ∷ []

-- `==` on strings.
abbrev pub bytes_eq : List ℕ → List ℕ → Bool
bytes_eq [] [] = true
bytes_eq [] (b ∷ bs) = false
bytes_eq (a ∷ rest) [] = false
bytes_eq (a ∷ rest) (b ∷ bs) = (a == b) && bytes_eq rest bs

-- `is_ascii_alphanumeric` and the three others.
abbrev pub is_name_byte : ℕ → Bool
is_name_byte byte =
    (leb 48 byte && leb byte 57)
    || ((leb 65 byte && leb byte 90)
        || ((leb 97 byte && leb byte 122) || (byte == 46 || (byte == 95 || byte == 45))))

unfoldable pub valid_name : List ℕ → Bool
valid_name name =
    not (bytes_eq name [])
    && (leb (length name) user_path_max
        && (not (bytes_eq name (46 ∷ []))
            && (not (bytes_eq name (46 ∷ 46 ∷ [])) && all is_name_byte name)))

-- `split('/')`: the pieces between the slashes, one at least.
abbrev pub before_pieces : ℕ → List (List ℕ) → List (List ℕ)
before_pieces byte [] = (byte ∷ []) ∷ []
before_pieces byte (piece ∷ pieces) = (byte ∷ piece) ∷ pieces

unfoldable pub split : List ℕ → List (List ℕ)
split [] = [] ∷ []
split (byte ∷ bytes) =
    let pieces = split bytes in if byte == slash then [] ∷ pieces else before_pieces byte pieces

-- `strip_prefix('/')`.
abbrev pub strip_slash : List ℕ → Option (List ℕ)
strip_slash [] = none
strip_slash (byte ∷ rest) = if byte == slash then some rest else none

unfoldable pub valid_absolute_path : List ℕ → Bool
valid_absolute_path path =
    leb (length path) user_path_max
    && (bytes_eq path root
        || (elim (strip_slash path) [ none ↦ false | some rest ↦ all valid_name (split rest) ]))

abbrev pub to_ascii_lowercase : ℕ → ℕ
to_ascii_lowercase byte = if leb 65 byte && leb byte 90 then byte + 32 else byte

-- Equal lengths, and bytes that are equal but for the case of ASCII letters.
unfoldable pub paths_equal : List ℕ → List ℕ → Bool
paths_equal [] [] = true
paths_equal [] (b ∷ bs) = false
paths_equal (a ∷ rest) [] = false
paths_equal (a ∷ rest) (b ∷ bs) =
    (to_ascii_lowercase a == to_ascii_lowercase b) && paths_equal rest bs

unfoldable pub is_user_writable_path : List ℕ → Bool
is_user_writable_path path =
    valid_absolute_path path
    && (ltb (length user_writable_prefix) (length path)
        && paths_equal (take (length user_writable_prefix) path) user_writable_prefix)

-- `USER_WRITABLE_PREFIX.trim_end_matches('/')` is `/USER`.
unfoldable pub is_user_writable_directory : List ℕ → Bool
is_user_writable_directory path =
    paths_equal path (47 ∷ 85 ∷ 83 ∷ 69 ∷ 82 ∷ []) || is_user_writable_path path

abbrev pub separator : List ℕ → List ℕ
separator parent = if bytes_eq parent root then [] else root

-- The lengths of texts add without overflow.
unfoldable pub join_child_path : List ℕ → List ℕ → Option (List ℕ)
join_child_path parent name =
    if not (valid_absolute_path parent) || not (valid_name name)
    then none
    else let joined = length parent + length (separator parent) + length name in
      if ltb user_path_max joined
      then none
      else let target = push_str (push_str parent (separator parent)) name in
        if length target == joined then some target else none
