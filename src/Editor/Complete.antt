-- ===== src/Editor/Complete.antt =====
-- userspace/shell/src/editor.rs: the completion of the command word.
use gen_os.Common.{
  ℕ, ◌+◌, ◌≡◌, refl, ap, sym, subst, inl, inr, Bool, true, false, ◌&&◌, ◌||◌, not, List, [], ◌∷◌,
  ◌==◌, leb, ltb, if◌then◌else◌, any, length, arith, Bool-cases,
}
use gen_os.Editor.{Editor, text, load}

abbrev pub before_words : ℕ → List (List ℕ) → List (List ℕ)
before_words byte [] = (byte ∷ []) ∷ []
before_words byte (word ∷ words) = (byte ∷ word) ∷ words

-- `split(|byte| *byte == 0)`.
unfoldable pub split_words : List ℕ → List (List ℕ)
split_words [] = [] ∷ []
split_words (byte ∷ bytes) =
    let words = split_words bytes in if byte == 0 then [] ∷ words else before_words byte words

abbrev pub is_nonempty : List ℕ → Bool
is_nonempty [] = false
is_nonempty (byte ∷ bytes) = true

unfoldable pub starts_with : List ℕ → List ℕ → Bool
starts_with word [] = true
starts_with [] (byte ∷ bytes) = false
starts_with (x ∷ word) (byte ∷ bytes) = (x == byte) && starts_with word bytes

-- The loop that counts the bytes that two words share at their start.
unfoldable pub shared : List ℕ → List ℕ → List ℕ
shared [] word = []
shared (x ∷ common) [] = []
shared (x ∷ common) (y ∷ word) = let rest = shared common word in if x == y then x ∷ rest else []

-- The loop over the words: how many match, and what they share at their start.
unfoldable pub scan : List ℕ → ℕ → List ℕ → List (List ℕ) → ℕ × List ℕ
scan line matched common [] = (matched, common)
scan line matched common (word ∷ words) =
    if is_nonempty word && starts_with word line
    then scan line (matched + 1) (if matched == 0 then word else shared common word) words
    else scan line matched common words

abbrev pub found : Editor → List ℕ → ℕ × List ℕ
found e words = scan (text e) 0 [] (split_words words)

unfoldable pub complete_command : ℕ → Editor → List ℕ → Bool × Editor
complete_command n e words =
    if any (λ byte. byte == 32) (text e) || not (e.cursor == e.len)
    then (false, e)
    else if (found e words).0 == 0
        || (leb (length (found e words).1) e.len || ltb n (length (found e words).1))
    then (false, e)
    else load n e (found e words).1

-- A start of a start is a start.
starts_with_trans :
    (a b c : List ℕ) → starts_with a b ≡ true → starts_with b c ≡ true → starts_with a c ≡ true
unfolding starts_with
starts_with_trans a b [] e f = refl
starts_with_trans a [] (z ∷ c) e f = absurd (cc)
starts_with_trans [] (y ∷ b) (z ∷ c) e f = absurd (cc)
starts_with_trans (x ∷ a) (y ∷ b) (z ∷ c) e f =
    let rest = starts_with_trans a b c in ground (arith, rest)

starts_with_refl : (a : List ℕ) → starts_with a a ≡ true
unfolding starts_with
starts_with_refl [] = refl
starts_with_refl (x ∷ a) = let rest = starts_with_refl a in ground (arith, rest)

-- Both words start with what they share, which starts with every common start.
shared-starts :
    (a b : List ℕ) → (starts_with a (shared a b) ≡ true) × (starts_with b (shared a b) ≡ true)
unfolding shared starts_with
shared-starts [] b = (refl, refl)
shared-starts (x ∷ a) [] = (refl, refl)
shared-starts (x ∷ a) (y ∷ b) = elim (Bool-cases (x == y)) [
  | inl e ↦
      let rest = shared-starts a b in
      rw (e, shared) (ground (arith, rest.0), ground (arith, rest.1))
  | inr e ↦ rw (e, shared) (refl, refl)
]

shared-longest :
    (a b c : List ℕ)
    → starts_with a c ≡ true
    → starts_with b c ≡ true
    → starts_with (shared a b) c ≡ true
unfolding shared starts_with
shared-longest a b [] e f = refl
shared-longest [] b (z ∷ c) e f = absurd (cc)
shared-longest (x ∷ a) [] (z ∷ c) e f = absurd (cc)
shared-longest (x ∷ a) (y ∷ b) (z ∷ c) e f =
    let same : x == y ≡ true = ground arith in
    let rest = shared-longest a b c in rw (same, shared) (ground (arith, rest))

-- The words that match the line start with the completion.
abbrev pub AllStart : List ℕ → List ℕ → List (List ℕ) → Type 0
AllStart line common [] = Unit {0}
AllStart line common (word ∷ words) =
    (is_nonempty word ≡ true → starts_with word line ≡ true → starts_with word common ≡ true)
    × AllStart line common words

-- What the loop finds starts with the line, once it found a word, and starts every word that matches.
abbrev Good : List ℕ → ℕ → List ℕ → List (List ℕ) → ℕ × List ℕ → Type 0
Good line matched common words r =
    (r.0 == 0 ≡ false → starts_with r.1 line ≡ true)
    × AllStart line r.1 words
    × (matched == 0 ≡ false → starts_with common r.1 ≡ true)

scan-Good :
    (line : List ℕ) (matched : ℕ) (common : List ℕ) (words : List (List ℕ))
    → (matched == 0 ≡ false → starts_with common line ≡ true)
    → Good line matched common words (scan line matched common words)
unfolding scan
scan-Good line matched common [] keep = (keep, tt, λ h. starts_with_refl common)
scan-Good line matched common (word ∷ words) keep =
    elim (Bool-cases (is_nonempty word && starts_with word line)) [
      | inr skip ↦
          let rest = scan-Good line matched common words keep in
          let step : scan line matched common (word ∷ words) ≡ scan line matched common words =
            rw (skip, scan) refl in
          subst (Good line matched common (word ∷ words)) (sym step)
            (rest.0, (λ h k. absurd (ground (arith, skip)), rest.1), rest.2)
      | inl match ↦
          let more : matched + 1 == 0 ≡ false = ground arith in
          elim (Bool-cases (matched == 0)) [
            | inl first ↦
                let rest = scan-Good line (matched + 1) word words (λ h. ground (arith, match)) in
                let step : scan line matched common (word ∷ words)
                    ≡ scan line (matched + 1) word words =
                  rw (match, scan)
                    (ap
                      (λ b. scan line (matched + 1) (if b then word else shared common word) words)
                      first) in
                subst (Good line matched common (word ∷ words)) (sym step)
                  (rest.0, (λ h k. rest.2 more, rest.1), λ h. absurd (cc))
            | inr later ↦
                let starts = shared-starts common word in
                let rest =
                  scan-Good line (matched + 1) (shared common word) words
                    (λ h. shared-longest common word line (keep later) (ground (arith, match))) in
                let onward = rest.2 more in
                let step : scan line matched common (word ∷ words)
                    ≡ scan line (matched + 1) (shared common word) words =
                  rw (match, scan)
                    (ap
                      (λ b. scan line (matched + 1) (if b then word else shared common word) words)
                      later) in
                subst (Good line matched common (word ∷ words)) (sym step) (
                  rest.0,
                  (λ h k. starts_with_trans word _ _ starts.1 onward, rest.1),
                  λ h. starts_with_trans common _ _ starts.0 onward,
                )
          ]
    ]

-- What a scan of the words finds for a line starts every word that the line starts, and starts with the
-- line itself where it found a word.
pub found-AllStart :
    (e : Editor) (words : List ℕ)
    → AllStart (text e) (found e words).1 (split_words words)
      × ((found e words).0 == 0 ≡ false → starts_with (found e words).1 (text e) ≡ true)
found-AllStart e words =
    let good = scan-Good (text e) 0 [] (split_words words) (λ h. absurd (cc)) in (good.1, good.0)
