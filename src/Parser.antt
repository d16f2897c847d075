-- ===== src/Parser.antt =====
-- userspace/shell/src/parser.rs: the classification of a command line. A line is the list of its bytes.
pub mod Word
pub mod Print
mod Tests
use gen_os.Parser.Word
use gen_os.Common.{
  ℕ, ◌+◌, Bool, true, false, Option, none, some, List, [], ◌∷◌, ◌==◌, if◌then◌else◌, take, drop,
  position,
}
use gen_os.PathPolicy.{bytes_eq}

pub data Command : Type 0 where
  empty help uname net mem clear ps unknown : Command
  echo ls cat stat touch mkdir remove kill wait : (argument : List ℕ) → Command
  write : (path text : List ℕ) (append : Bool) → Command
  run_init : (hold : Bool) → Command

abbrev pub is_space : ℕ → Bool
is_space byte = byte == 32

-- The loop that skips the spaces before the text.
unfoldable pub skip_spaces : List ℕ → List ℕ
skip_spaces [] = []
skip_spaces (byte ∷ bytes) =
    let rest = skip_spaces bytes in if is_space byte then rest else byte ∷ bytes

unfoldable pub split_argument : List ℕ → List ℕ × List ℕ
split_argument input = elim (position is_space input) [
  | none ↦ (input, [])
  | some space ↦ (take space input, skip_spaces (drop space input))
]

-- The arms of `parse` for a line without a space.
unfoldable pub parse_verb : List ℕ → Command
parse_verb verb =
    if bytes_eq verb []
    then empty
    else if bytes_eq verb Word.help
    then help
    else if bytes_eq verb Word.uname
    then uname
    else if bytes_eq verb Word.net
    then net
    else if bytes_eq verb Word.mem
    then mem
    else if bytes_eq verb Word.clear
    then clear
    else if bytes_eq verb Word.ls
    then ls (47 ∷ [])
    else if bytes_eq verb Word.ps
    then ps
    else unknown

abbrev pub parse_run : List ℕ → Command
parse_run argument =
    if bytes_eq argument Word.init
    then run_init false
    else if bytes_eq argument Word.init_hold
    then run_init true
    else unknown

abbrev pub write_of : List ℕ × List ℕ → Bool → Command
write_of parts append = write parts.0 parts.1 append

-- The arms of `parse` for a verb and what follows the first space.
unfoldable pub parse_argument : List ℕ → List ℕ → Command
parse_argument verb argument =
    if bytes_eq verb Word.echo
    then echo argument
    else if bytes_eq verb Word.ls
    then ls argument
    else if bytes_eq verb Word.cat
    then cat argument
    else if bytes_eq verb Word.stat
    then stat argument
    else if bytes_eq verb Word.touch
    then touch argument
    else if bytes_eq verb Word.write
    then write_of (split_argument argument) false
    else if bytes_eq verb Word.append
    then write_of (split_argument argument) true
    else if bytes_eq verb Word.mkdir
    then mkdir argument
    else if bytes_eq verb Word.rm
    then remove argument
    else if bytes_eq verb Word.run
    then parse_run argument
    else if bytes_eq verb Word.kill
    then kill argument
    else if bytes_eq verb Word.wait
    then wait argument
    else unknown

unfoldable pub parse : List ℕ → Command
parse line = elim (position is_space line) [
  | none ↦ parse_verb line
  | some space ↦ parse_argument (take space line) (drop (space + 1) line)
]
