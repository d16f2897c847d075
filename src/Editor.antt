-- ===== src/Editor.antt =====
-- userspace/shell/src/editor.rs: the shell's line editor. The const parameters `N` and `H` are the
-- arguments `n` and `h`, the arrays are lists of these lengths.
pub mod Arrays
pub mod Zipper
pub mod Refine
pub mod Recall
pub mod Complete
mod Tests
use gen_os.Common.{
  ℕ, zero, suc, ◌+◌, ◌-◌, min, Bool, true, false, not, ◌&&◌, ◌||◌, List, [], ◌∷◌, ◌==◌, leb, ltb,
  if◌then◌else◌, get_or, set, replicate, length, take, drop, any,
}

pub record Editor : Type 0 where
  pub line : List ℕ
  pub len : ℕ
  pub cursor : ℕ
  pub history : List (List ℕ)
  pub history_lens : List ℕ
  pub history_len : ℕ
  pub history_cursor : ℕ
  pub draft : List ℕ
  pub draft_len : ℕ
  pub draft_cursor : ℕ

unfoldable pub new : ℕ → ℕ → Editor
new n h = record {
  line = replicate n 0;
  len = 0;
  cursor = 0;
  history = replicate h (replicate n 0);
  history_lens = replicate h 0;
  history_len = 0;
  history_cursor = 0;
  draft = replicate n 0;
  draft_len = 0;
  draft_cursor = 0;
}

-- `Editor::line`
abbrev pub text : Editor → List ℕ
text e = take e.len e.line

-- A list written over another from a position on.
unfoldable pub overwrite : List ℕ → ℕ → List ℕ → List ℕ
overwrite [] position ys = []
overwrite (x ∷ xs) zero [] = x ∷ xs
overwrite (x ∷ xs) zero (y ∷ ys) = y ∷ overwrite xs zero ys
overwrite (x ∷ xs) (suc position) ys = x ∷ overwrite xs position ys

-- `self.line.copy_within(first..last, position)`
unfoldable pub copy_within : List ℕ → ℕ → ℕ → ℕ → List ℕ
copy_within xs first last position = overwrite xs position (take (last - first) (drop first xs))

-- `(0x20..=0x7e).contains(&byte)`
abbrev pub printable : ℕ → Bool
printable byte = leb 32 byte && leb byte 126

unfoldable pub insert : ℕ → Editor → ℕ → Bool × Editor
insert n e byte = if not (printable byte) || (e.len == n) then (false, e) else (
  true,
  record e {
    line = set (copy_within e.line e.cursor e.len (e.cursor + 1)) e.cursor byte;
    cursor = e.cursor + 1;
    len = e.len + 1;
    history_cursor = e.history_len;
  },
)

unfoldable pub backspace : Editor → Bool × Editor
backspace e = if e.cursor == 0 then (false, e) else (
  true,
  record e {
    line = set (copy_within e.line (e.cursor - 1 + 1) e.len (e.cursor - 1)) (e.len - 1) 0;
    cursor = e.cursor - 1;
    len = e.len - 1;
    history_cursor = e.history_len;
  },
)

unfoldable pub delete : Editor → Bool × Editor
delete e = if e.cursor == e.len then (false, e) else (
  true,
  record e {
    line = set (copy_within e.line (e.cursor + 1) e.len e.cursor) (e.len - 1) 0;
    len = e.len - 1;
    history_cursor = e.history_len;
  },
)

unfoldable pub left : Editor → Editor
left e = record e { cursor = e.cursor - 1 }

unfoldable pub right : Editor → Editor
right e = record e { cursor = min (e.cursor + 1) e.len }

unfoldable pub home : Editor → Editor
home e = record e { cursor = 0 }

unfoldable pub end : Editor → Editor
end e = record e { cursor = e.len }

unfoldable pub clear_line : ℕ → Editor → Editor
clear_line n e = record e {
  line = replicate n 0;
  len = 0;
  cursor = 0;
  history_cursor = e.history_len;
  draft_len = 0;
  draft_cursor = 0;
}

abbrev pub unprintable : ℕ → Bool
unprintable byte = not (printable byte)

unfoldable pub load : ℕ → Editor → List ℕ → Bool × Editor
load n e bytes = if ltb n (length bytes) || any unprintable bytes then (false, e) else (
  true,
  record e { line = overwrite (replicate n 0) 0 bytes; len = length bytes; cursor = length bytes },
)

-- The loop of `remember`: every entry but the first moves one place down, `left` of them.
unfoldable pub shift {ℓ} : {A : Type ℓ} → A → List A → ℕ → ℕ → List A
shift d xs index zero = xs
shift d xs index (suc left) = shift d (set xs (index - 1) (get_or xs index d)) (index + 1) left

unfoldable pub remember : ℕ → Editor → Editor
remember h e =
    if e.len == 0 || (h == 0)
    then e
    else if ltb e.history_len h
    then record e {
      history = set e.history e.history_len e.line;
      history_lens = set e.history_lens e.history_len e.len;
      history_len = e.history_len + 1;
      history_cursor = e.history_len + 1;
    }
    else record e {
      history = set (shift [] e.history 1 (h - 1)) (h - 1) e.line;
      history_lens = set (shift 0 e.history_lens 1 (h - 1)) (h - 1) e.len;
      history_cursor = e.history_len;
    }

-- The line, its length and the cursor that a history entry sets.
abbrev pub recall : Editor → ℕ → Editor
recall e index = record e {
  line = get_or e.history index [];
  len = get_or e.history_lens index 0;
  cursor = get_or e.history_lens index 0;
  history_cursor = index;
}

-- The draft is kept when the walk through the history starts.
abbrev pub keep_draft : Editor → Editor
keep_draft e =
    if e.history_cursor == e.history_len
    then record e { draft = e.line; draft_len = e.len; draft_cursor = e.cursor }
    else e

unfoldable pub history_up : Editor → Bool × Editor
history_up e =
    if e.history_len == 0 || (e.history_cursor == 0)
    then (false, e)
    else (true, recall (keep_draft e) (e.history_cursor - 1))

unfoldable pub history_down : Editor → Bool × Editor
history_down e =
    if e.history_cursor == e.history_len
    then (false, e)
    else if e.history_cursor + 1 == e.history_len
    then (
      true,
      record e {
        line = e.draft;
        len = e.draft_len;
        cursor = e.draft_cursor;
        history_cursor = e.history_cursor + 1;
      },
    )
    else (true, recall e (e.history_cursor + 1))
