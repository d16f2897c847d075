-- ===== src/PathPolicy/Join.antt =====
-- The path of a child.
use gen_os.Common.{
  ℕ, ◌+◌, ◌-◌, ◌<◌, ◌≤◌, ◌≡◌, refl, ap, ap₂, subst, sym, ◌∙◌, ◌⊎◌, inl, inr, Bool, true, false,
  ◌||◌, not, Option, none, some, List, [], ◌∷◌, ◌++◌, ◌==◌, ltb, if◌then◌else◌, all, length,
  length-append, append_assoc, arith, Bool-cases,
}
use gen_os.FixedText.{push_str}
use gen_os.PathPolicy.{
  bytes_eq, root, slash, is_name_byte, valid_name, before_pieces, split, valid_absolute_path,
  user_path_max, separator, join_child_path,
}
use gen_os.PathPolicy.Case.{bytes_eq-true}
use gen_os.PathPolicy.Ascii.{is_ascii, keeps-ascii}

split-cons :
    (bytes : List ℕ) → (piece : List ℕ) × (pieces : List (List ℕ)) × (split bytes ≡ piece ∷ pieces)
unfolding split
split-cons [] = ([], [], refl)
split-cons (byte ∷ bytes) = elim (Bool-cases (byte == slash)) [
  | inl h ↦ ([], split bytes, rw (h, split) refl)
  | inr h ↦
      let rest = split-cons bytes in
      (byte ∷ rest.0, rest.1, rw (h, split) (ap (before_pieces byte) rest.2))
]

split-append : (bytes more : List ℕ) → split (bytes ++ (slash ∷ more)) ≡ split bytes ++ split more
unfolding split
split-append [] more = refl
split-append (byte ∷ bytes) more = elim (Bool-cases (byte == slash)) [
  | inl h ↦ rw (h, split) (ap (λ pieces. [] ∷ pieces) (split-append bytes more))
  | inr h ↦
      let first = split-cons bytes in
      rw (h, split)
        (ap (before_pieces byte)
            (split-append bytes more ∙ ap (λ pieces. pieces ++ split more) first.2)
          ∙ sym (ap (λ pieces. before_pieces byte pieces ++ split more) first.2))
]

-- A name has no slash: it is one piece.
split-name : (name : List ℕ) → all is_name_byte name ≡ true → split name ≡ name ∷ []
unfolding split
split-name [] e = refl
split-name (byte ∷ name) e =
    let other : byte == slash ≡ false = ground arith in
    rw (other, split) (ap (before_pieces byte) (split-name name (ground arith)))

name-ascii : (name : List ℕ) → all is_name_byte name ≡ true → all is_ascii name ≡ true
name-ascii [] e = refl
name-ascii (byte ∷ name) e =
    let small : is_ascii byte ≡ true = ground arith in rw small (name-ascii name (ground arith))

valid_name-parts :
    (name : List ℕ)
    → valid_name name ≡ true
    → (length name ≤ user_path_max) × (all is_name_byte name ≡ true)
unfolding valid_name
valid_name-parts name e = (ground arith, ground arith)

all-append :
    (p : List ℕ → Bool) (xs ys : List (List ℕ))
    → all p xs ≡ true
    → all p ys ≡ true
    → all p (xs ++ ys) ≡ true
all-append p [] ys e f = f
all-append p (x ∷ xs) ys e f = let rest = all-append p xs ys in ground (arith, rest, f)

-- A valid path is the root, or a slash before valid names.
valid_absolute_path-cases :
    (path : List ℕ)
    → valid_absolute_path path ≡ true
    → (path ≡ root)
      ⊎ ((rest : List ℕ) × (path ≡ slash ∷ rest)
          × (all valid_name (split rest) ≡ true)
          × (bytes_eq path root ≡ false))
unfolding valid_absolute_path
valid_absolute_path-cases path e = elim (Bool-cases (bytes_eq path root)) [
  | inl h ↦ inl (bytes_eq-true path root h)
  | inr h ↦ inr (below path h e)
]
  where
    below :
        (path : List ℕ)
        → bytes_eq path root ≡ false
        → valid_absolute_path path ≡ true
        → (rest : List ℕ) × (path ≡ slash ∷ rest)
          × (all valid_name (split rest) ≡ true)
          × (bytes_eq path root ≡ false)
    below [] h e = absurd (ground (arith, e))
    below (byte ∷ rest) h e = elim (Bool-cases (byte == slash)) [
      | inl k ↦
          let same : byte ≡ slash = ground arith in
          let e' = rw (k, valid_absolute_path) at e in
          (rest, ap (λ b. b ∷ rest) same, ground (arith, h, e'), h)
      | inr k ↦ let e' = rw (k, valid_absolute_path) at e in absurd (ground (arith, h, e'))
    ]

push_str-whole :
    (text more : List ℕ)
    → length more ≤ 160 - length text
    → all is_ascii more ≡ true
    → push_str text more ≡ text ++ more
unfolding push_str
push_str-whole text more fits e =
    ap (λ xs. text ++ xs) (keeps-ascii (160 - length text) more fits e)

below-valid :
    (rest : List ℕ)
    → length rest < user_path_max
    → all valid_name (split rest) ≡ true
    → valid_absolute_path (slash ∷ rest) ≡ true
unfolding valid_absolute_path
below-valid rest fits e = rw (e, valid_absolute_path) (ground arith)

-- The path of the child, as it stands.
joined-valid :
    (parent name : List ℕ)
    → valid_absolute_path parent ≡ true
    → valid_name name ≡ true
    → length parent + length (separator parent) + length name ≤ user_path_max
    → valid_absolute_path (parent ++ separator parent ++ name) ≡ true
joined-valid parent name p n fits =
    let plain = (valid_name-parts name n).1 in
    let single : all valid_name (split name) ≡ true =
      ap (all valid_name) (split-name name plain) ∙ ground (arith, n) in
    elim (valid_absolute_path-cases parent p) [
      | inl same ↦
          subst (λ q. valid_absolute_path (q ++ separator q ++ name) ≡ true) (sym same)
            (below-valid name
              (omega (
                arith,
                subst (λ q. length q + length (separator q) + length name ≤ user_path_max) same
                    fits,
              ))
              single)
      | inr (rest, same, names, below) ↦
          let sep : separator parent ≡ root = rw below refl in
          let shape : parent ++ separator parent ++ name ≡ slash ∷ (rest ++ (slash ∷ name)) =
            ap₂ (λ q s. q ++ s ++ name) same sep ∙ append_assoc (slash ∷ rest) root name in
          let size = length-append rest (slash ∷ name) in
          let bound =
            subst (λ s. length parent + length s + length name ≤ user_path_max) sep fits in
          let long = ap length same in
          ap valid_absolute_path shape
          ∙ below-valid (rest ++ (slash ∷ name)) (omega (arith, size, bound, long)) (
              ap (all valid_name) (split-append rest name)
              ∙ all-append valid_name (split rest) (split name) names single)
    ]

-- A path that is joined is the parent's, a slash unless the parent is the root, and the name, with
-- nothing cut off; and it is valid again.
pub join_child_path-valid :
    (parent name target : List ℕ)
    → join_child_path parent name ≡ some target
    → (target ≡ parent ++ separator parent ++ name) × (valid_absolute_path target ≡ true)
unfolding join_child_path
join_child_path-valid parent name target e =
    let first = if-some (not (valid_absolute_path parent) || not (valid_name name)) _ target e in
    let second =
      if-some (ltb user_path_max (length parent + length (separator parent) + length name)) _ target
        first.1 in
    let p : valid_absolute_path parent ≡ true = ground (arith, first.0) in
    let n : valid_name name ≡ true = ground (arith, first.0) in
    let fits : length parent + length (separator parent) + length name ≤ user_path_max =
      ground (arith, second.0) in
    let plain = (valid_name-parts name n).1 in
    let sep_ascii : all is_ascii (separator parent) ≡ true =
      elim (bytes_eq parent root) as (λ b. all is_ascii (if b then [] else root) ≡ true) [
        | true ↦ refl
        | false ↦ refl
      ] in
    let with_separator = push_str-whole parent (separator parent) (omega (arith, fits)) sep_ascii in
    let size = length-append parent (separator parent) in
    let whole : push_str (push_str parent (separator parent)) name
        ≡ parent ++ separator parent ++ name =
      ap (λ t. push_str t name) with_separator
      ∙ push_str-whole (parent ++ separator parent) name (omega (arith, size, fits))
          (name-ascii name plain) in
    let same : push_str (push_str parent (separator parent)) name ≡ target =
      only
        (length (push_str (push_str parent (separator parent)) name)
          == length parent + length (separator parent) + length name)
        _ second.1 in
    let shape = sym same ∙ whole in
    (shape, ap valid_absolute_path shape ∙ joined-valid parent name p n fits)
  where
    if-some :
        (b : Bool) (x : Option (List ℕ)) (t : List ℕ)
        → (if b then none else x) ≡ some t
        → (b ≡ false) × (x ≡ some t)
    if-some true x t h = absurd (cc)
    if-some false x t h = (refl, h)

    only : (b : Bool) (x : List ℕ) → (if b then some x else none) ≡ some target → x ≡ target
    only true x h = cc
    only false x h = absurd (cc)
