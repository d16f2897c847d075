-- ===== src/Parser/Print.antt =====
-- A line that is written for a command is read as this command.
use gen_os.Common.{
  ℕ, ◌≡◌, refl, ap, ap₂, ◌∙◌, Bool, true, false, not, some, List, [], ◌∷◌, ◌++◌, any, take, drop,
  length, position, next_position, arith,
}
use gen_os.Parser.Word
use gen_os.Parser.{
  Command, empty, help, uname, net, mem, clear, ps, unknown, echo, ls, cat, stat, touch, mkdir,
  remove, kill, wait, write, run_init, is_space, skip_spaces, split_argument, parse_verb,
  parse_argument, parse,
}

-- The line of a command.
unfoldable pub print : Command → List ℕ
print empty = []
print help = Word.help
print uname = Word.uname
print net = Word.net
print mem = Word.mem
print clear = Word.clear
print ps = Word.ps
print unknown = []
print (echo argument) = Word.echo ++ (32 ∷ argument)
print (ls argument) = Word.ls ++ (32 ∷ argument)
print (cat argument) = Word.cat ++ (32 ∷ argument)
print (stat argument) = Word.stat ++ (32 ∷ argument)
print (touch argument) = Word.touch ++ (32 ∷ argument)
print (mkdir argument) = Word.mkdir ++ (32 ∷ argument)
print (remove argument) = Word.rm ++ (32 ∷ argument)
print (kill argument) = Word.kill ++ (32 ∷ argument)
print (wait argument) = Word.wait ++ (32 ∷ argument)
print (write path text false) = Word.write ++ (32 ∷ (path ++ (32 ∷ text)))
print (write path text true) = Word.append ++ (32 ∷ (path ++ (32 ∷ text)))
print (run_init false) = Word.run ++ (32 ∷ Word.init)
print (run_init true) = Word.run ++ (32 ∷ Word.init_hold)

-- The text does not begin with a space.
abbrev pub starts_plain : List ℕ → Bool
starts_plain [] = true
starts_plain (byte ∷ bytes) = not (is_space byte)

-- What the syntax of a line can express.
abbrev pub IsPrintable : Command → Type 0
IsPrintable unknown = ⊥
IsPrintable (write path text append) = (any is_space path ≡ false) × (starts_plain text ≡ true)
IsPrintable other = Unit {0}

position-space :
    (path text : List ℕ)
    → any is_space path ≡ false
    → position is_space (path ++ (32 ∷ text)) ≡ some (length path)
position-space [] text e = refl
position-space (byte ∷ path) text e =
    let other : is_space byte ≡ false = ground arith in
    rw other (ap next_position (position-space path text (ground arith)))

take-length : (path more : List ℕ) → take (length path) (path ++ more) ≡ path
take-length [] more = refl
take-length (byte ∷ path) more = ap (λ bytes. byte ∷ bytes) (take-length path more)

drop-length : (path more : List ℕ) → drop (length path) (path ++ more) ≡ more
drop-length [] more = refl
drop-length (byte ∷ path) more = drop-length path more

skip_spaces-plain : (text : List ℕ) → starts_plain text ≡ true → skip_spaces (32 ∷ text) ≡ text
unfolding skip_spaces
skip_spaces-plain [] e = refl
skip_spaces-plain (byte ∷ text) e =
    let other : is_space byte ≡ false = ground arith in rw (other, skip_spaces) refl

split_argument-joined :
    (path text : List ℕ)
    → any is_space path ≡ false
    → starts_plain text ≡ true
    → split_argument (path ++ (32 ∷ text)) ≡ (path, text)
unfolding split_argument
split_argument-joined path text e f =
    rw (position-space path text e, split_argument)
      (ap₂ (λ p t. (p, t)) (take-length path (32 ∷ text))
        (ap skip_spaces (drop-length path (32 ∷ text)) ∙ skip_spaces-plain text f))

-- The line of a command that a line can express, a path without a space and a text that does not begin
-- with one in a write, is read as this command.
pub parse-print : (c : Command) → IsPrintable c → parse (print c) ≡ c
unfolding parse print parse_verb parse_argument
parse-print unknown p = absurd p
parse-print empty p = refl
parse-print help p = refl
parse-print uname p = refl
parse-print net p = refl
parse-print mem p = refl
parse-print clear p = refl
parse-print ps p = refl
parse-print (echo argument) p = refl
parse-print (ls argument) p = refl
parse-print (cat argument) p = refl
parse-print (stat argument) p = refl
parse-print (touch argument) p = refl
parse-print (mkdir argument) p = refl
parse-print (remove argument) p = refl
parse-print (kill argument) p = refl
parse-print (wait argument) p = refl
parse-print (write path text false) p =
    ap (λ parts. write parts.0 parts.1 false) (split_argument-joined path text p.0 p.1)
parse-print (write path text true) p =
    ap (λ parts. write parts.0 parts.1 true) (split_argument-joined path text p.0 p.1)
parse-print (run_init false) p = refl
parse-print (run_init true) p = refl
