-- ===== src/PathPolicy/Ascii.antt =====
-- A valid path is ASCII and short: a text keeps it as it is.
use gen_os.Common.{
  ℕ, zero, suc, ◌≤◌, ◌≡◌, refl, ap₂, subst, sym, inl, inr, Bool, true, List, [], ◌∷◌, ◌==◌, ltb,
  all, map, take, length, arith, Bool-cases,
}
use gen_os.FixedText.{ascii_byte, from_str, push_str}
use gen_os.PathPolicy.{
  root, slash, is_name_byte, valid_name, before_pieces, split, valid_absolute_path, user_path_max,
}
use gen_os.PathPolicy.Case.{bytes_eq-true}

abbrev pub is_ascii : ℕ → Bool
is_ascii byte = ltb byte 128

-- The pieces are made of name bytes.
abbrev plain : List ℕ → Bool
plain piece = all is_name_byte piece

valid-plain : (pieces : List (List ℕ)) → all valid_name pieces ≡ true → all plain pieces ≡ true
unfolding valid_name
valid-plain [] e = refl
valid-plain (piece ∷ pieces) e = let rest = valid-plain pieces in ground (arith, rest)

before_pieces-plain :
    (byte : ℕ) (pieces : List (List ℕ))
    → all plain (before_pieces byte pieces) ≡ true
    → (is_name_byte byte ≡ true) × (all plain pieces ≡ true)
before_pieces-plain byte [] e = (ground arith, refl)
before_pieces-plain byte (piece ∷ pieces) e = elim (Bool-cases (is_name_byte byte)) [
  | inl h ↦ (h, rw h at e)
  | inr h ↦ absurd (cc (rw h at e))
]

split-ascii : (bytes : List ℕ) → all plain (split bytes) ≡ true → all is_ascii bytes ≡ true
unfolding split
split-ascii [] e = refl
split-ascii (byte ∷ bytes) e = elim (Bool-cases (byte == slash)) [
  | inl h ↦
      let rest = split-ascii bytes (rw (h, split) at e) in
      let small : is_ascii byte ≡ true = ground arith in rw small rest
  | inr h ↦
      let parts = before_pieces-plain byte (split bytes) (rw (h, split) at e) in
      let rest = split-ascii bytes parts.1 in
      let small : is_ascii byte ≡ true = ground (arith, parts.0) in rw small rest
]

pub valid_absolute_path-ascii :
    (path : List ℕ)
    → valid_absolute_path path ≡ true
    → (length path ≤ user_path_max) × (all is_ascii path ≡ true)
unfolding valid_absolute_path
valid_absolute_path-ascii [] e = absurd (ground arith)
valid_absolute_path-ascii (byte ∷ rest) e = elim (Bool-cases (byte == slash)) [
  | inl h ↦ elim (Bool-cases (all valid_name (split rest))) [
    | inl k ↦
        let ascii = split-ascii rest (valid-plain (split rest) k) in
        (ground arith, ground (arith, ascii))
    | inr k ↦
        let e' = rw k at rw (h, valid_absolute_path) at e in
        let same : byte ∷ rest ≡ root = bytes_eq-true (byte ∷ rest) root (ground (arith, h, e')) in
        subst (λ p. (length p ≤ user_path_max) × (all is_ascii p ≡ true)) (sym same)
          (omega arith, refl)
  ]
  | inr h ↦ let e' = rw (h, valid_absolute_path) at e in absurd (ground (arith, e'))
]

pub keeps-ascii :
    (room : ℕ) (text : List ℕ)
    → length text ≤ room
    → all is_ascii text ≡ true
    → map ascii_byte (take room text) ≡ text
keeps-ascii zero [] fits e = refl
keeps-ascii (suc room) [] fits e = refl
keeps-ascii zero (byte ∷ text) fits e = absurd (omega arith)
keeps-ascii (suc room) (byte ∷ text) fits e =
    ap₂ (λ x xs. x ∷ xs) (ground arith) (keeps-ascii room text (omega arith) (ground arith))

pub from_str-valid : (path : List ℕ) → valid_absolute_path path ≡ true → from_str path ≡ path
unfolding from_str push_str
from_str-valid path e =
    let ascii = valid_absolute_path-ascii path e in
    keeps-ascii 160 path (omega (arith, ascii.0)) ascii.1
