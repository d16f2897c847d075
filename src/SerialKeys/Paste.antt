-- ===== src/SerialKeys/Paste.antt =====
-- What a paste can do.
use gen_os.Common.{
  ℕ, ◌+◌, ◌-◌, ◌≤◌, ◌≡◌, refl, ap, sym, subst, inl, inr, Bool, true, false, ◌&&◌, ◌||◌, Option,
  none, some, List, [], ◌∷◌, ◌==◌, ltb, if◌then◌else◌, if_keeps, count, length, arith, Bool-cases,
}
use gen_os.SerialKeys.{
  KeyEvent, char, cancel, Mode, idle, escape, csi, ss3, paste, paste_escape, paste_csi, SerialKeys,
  printable, is_parameter, given, pasted_key, paste_limit, paste_byte, feed_paste,
  feed_paste_escape, paste_parameter, feed_paste_csi, feed_mode, feed,
}
use gen_os.PathPolicy.{bytes_eq}

abbrev pub is_paste : Mode → Bool
is_paste idle = false
is_paste escape = false
is_paste csi = false
is_paste ss3 = false
is_paste paste = true
is_paste paste_escape = true
is_paste paste_csi = true

-- Nothing, a printable character, or the cancellation.
abbrev pub IsData : Option KeyEvent → Type 0
IsData none = Unit {0}
IsData (some (char byte)) = printable byte ≡ true
IsData (some cancel) = Unit {0}
IsData (some other) = ⊥

abbrev pub is_char : KeyEvent → Bool
is_char (char byte) = true
is_char other = false

abbrev pub is_cancel : KeyEvent → Bool
is_cancel cancel = true
is_cancel other = false

-- The characters that a paste may still give.
abbrev pub room : SerialKeys → ℕ
room k = if k.drop_paste then 0 else paste_limit - k.paste_bytes

-- The cancellation at the limit, unless it was given.
abbrev pub spare : SerialKeys → ℕ
spare k = if k.drop_paste then 0 else 1

abbrev keys_of : Option KeyEvent → List KeyEvent → List KeyEvent
keys_of none rest = rest
keys_of (some key) rest = key ∷ rest

-- How many keys of a kind an answer holds.
abbrev holds : (KeyEvent → Bool) → Option KeyEvent → ℕ
holds p o = count p (keys_of o [])

-- One byte of a paste: its answer is data, and it is paid for while the paste goes on.
abbrev Paid : SerialKeys → Option KeyEvent × SerialKeys → Type 0
Paid k p =
    IsData p.0
    × (holds is_char p.0 ≤ room k)
    × (is_paste p.1.mode ≡ true
        → (holds is_char p.0 + room p.1 ≤ room k) × (holds is_cancel p.0 + spare p.1 ≤ spare k))

pasted_key-IsData : (byte : ℕ) → IsData (pasted_key byte)
pasted_key-IsData byte =
    if_keeps IsData (byte == 13 || (byte == 10 || byte == 9)) (some (char 32)) _ (λ h. refl)
      (λ h. if_keeps IsData (printable byte) (some (char byte)) none (λ k. k) (λ k. tt))

abbrev Single : Option KeyEvent → Type 0
Single o = (holds is_char o ≤ 1) × (holds is_cancel o ≡ 0)

holds-pasted_key :
    (byte : ℕ) → (holds is_char (pasted_key byte) ≤ 1) × (holds is_cancel (pasted_key byte) ≡ 0)
holds-pasted_key byte =
    if_keeps Single (byte == 13 || (byte == 10 || byte == 9)) (some (char 32)) _
      (λ h. (omega arith, refl))
      (λ h.
        if_keeps Single (printable byte) (some (char byte)) none (λ k. (omega arith, refl))
          (λ k. (omega arith, refl)))

paste_byte-Paid : (k : SerialKeys) (byte : ℕ) → Paid k (paste_byte k byte)
unfolding paste_byte
paste_byte-Paid k byte =
    if_keeps (Paid k) k.drop_paste (none, k) _
      (λ h. (tt, omega arith, λ n. (omega arith, omega arith)))
      (λ h.
        let open_room : room k ≡ paste_limit - k.paste_bytes =
          ap (λ b. if b then 0 else paste_limit - k.paste_bytes) h in
        let one : spare k ≡ 1 = ap (λ b. if b then 0 else 1) h in
        if_keeps (Paid k) (ltb paste_limit (k.paste_bytes + 1)) _ _
          (λ over. (tt, omega arith, λ m. (omega arith, omega (arith, one))))
          (λ within.
            let next : room (record k { paste_bytes = k.paste_bytes + 1 })
                ≡ paste_limit - (k.paste_bytes + 1) =
              ap (λ b. if b then 0 else paste_limit - (k.paste_bytes + 1)) h in
            let key = holds-pasted_key byte in
            let left : k.paste_bytes + 1 ≤ paste_limit = ground (arith, within) in
            (
              pasted_key-IsData byte,
              omega (arith, key.0, left, open_room),
              λ m. (omega (arith, key.0, left, open_room, next), omega (arith, key.1)),
            )))

-- The modes of an escape inside a paste answer nothing and keep its room.
feed_mode-Paid :
    (k : SerialKeys) (byte : ℕ) → is_paste k.mode ≡ true → Paid k (feed_mode k.mode k byte)
unfolding feed_mode feed_paste feed_paste_escape feed_paste_csi paste_parameter
feed_mode-Paid k byte pasting = by_mode k.mode pasting
  where
    by_mode : (mode : Mode) → is_paste mode ≡ true → Paid k (feed_mode mode k byte)
    by_mode idle m = absurd (cc)
    by_mode escape m = absurd (cc)
    by_mode csi m = absurd (cc)
    by_mode ss3 m = absurd (cc)
    by_mode paste m =
        if_keeps (Paid k) (byte == 27) _ (paste_byte k byte)
          (λ h. (tt, omega arith, λ n. (omega arith, omega arith))) (λ h. paste_byte-Paid k byte)
    by_mode paste_escape m =
        if_keeps (Paid k) (byte == 91) _ _ (λ h. (tt, omega arith, λ n. (omega arith, omega arith)))
          (λ h. (tt, omega arith, λ n. (omega arith, omega arith)))
    by_mode paste_csi m =
        if_keeps (Paid k) (is_parameter byte) (none, paste_parameter k byte) _
          (λ h.
            if_keeps (λ s. Paid k (none, s)) (ltb k.len (length k.parameters)) _ _
              (λ j. (tt, omega arith, λ n. (omega arith, omega arith)))
              (λ j. (tt, omega arith, λ n. (omega arith, omega arith))))
          (λ h.
            if_keeps (Paid k) (bytes_eq (given k) (50 ∷ 48 ∷ 49 ∷ []) && byte == 126) _ _
              (λ j. (tt, omega arith, λ n. absurd (cc)))
              (λ j. (tt, omega arith, λ n. (omega arith, omega arith))))

feed-Paid : (k : SerialKeys) (byte tick : ℕ) → is_paste k.mode ≡ true → Paid k (feed k byte tick)
unfolding feed
feed-Paid k byte tick pasting =
    if_keeps (Paid k) (byte == 3) _ _ (λ h. (tt, omega arith, λ n. absurd (cc)))
      (λ h. feed_mode-Paid (record k { last_tick = tick }) byte pasting)

-- The keys that the bytes of a paste give, each byte with its tick, until the paste ends.
unfoldable pub pasted : SerialKeys → List (ℕ × ℕ) → List KeyEvent
pasted k [] = []
pasted k (input ∷ more) =
    if is_paste k.mode
    then keys_of (feed k input.0 input.1).0 (pasted (feed k input.0 input.1).1 more)
    else []

abbrev pub AllData : List KeyEvent → Type 0
AllData [] = Unit {0}
AllData (key ∷ keys) = IsData (some key) × AllData keys

keys_of-AllData :
    (o : Option KeyEvent) (rest : List KeyEvent)
    → IsData o
    → AllData rest
    → AllData (keys_of o rest)
keys_of-AllData none rest d a = a
keys_of-AllData (some key) rest d a = (d, a)

count-keys_of :
    (p : KeyEvent → Bool) (o : Option KeyEvent) (rest : List KeyEvent)
    → count p (keys_of o rest) ≡ holds p o + count p rest
count-keys_of p none rest = omega arith
count-keys_of p (some key) rest = ground arith

holds-le : (p : KeyEvent → Bool) (o : Option KeyEvent) → holds p o ≤ 1
holds-le p none = omega arith
holds-le p (some key) = ground arith

-- In a paste no byte acts as a command: every key that it gives is a printable character or the
-- cancellation. There are at most as many characters as the limit leaves room for, none when the
-- paste is dropped, and at most two cancellations: one at the limit, unless the paste is dropped,
-- and one that ends the paste.
pub pasted-AllData :
    (k : SerialKeys) (inputs : List (ℕ × ℕ))
    → AllData (pasted k inputs)
      × (count is_char (pasted k inputs) ≤ room k)
      × (count is_cancel (pasted k inputs) ≤ spare k + 1)
unfolding pasted
pasted-AllData k [] = (tt, omega arith, omega arith)
pasted-AllData k (input ∷ more) = elim (Bool-cases (is_paste k.mode)) [
  | inr over ↦ rw (over, pasted) (tt, omega arith, omega arith)
  | inl pasting ↦
      let paid = feed-Paid k input.0 input.1 pasting in
      let p = feed k input.0 input.1 in
      let chars = count-keys_of is_char p.0 (pasted p.1 more) in
      let cancels = count-keys_of is_cancel p.0 (pasted p.1 more) in
      rw (pasting, pasted)
        (elim (Bool-cases (is_paste p.1.mode)) [
          | inl on ↦
              let rest = pasted-AllData p.1 more in
              (
                keys_of-AllData p.0 (pasted p.1 more) paid.0 rest.0,
                omega (arith, chars, rest.1, (paid.2 on).0),
                omega (arith, cancels, rest.2, (paid.2 on).1),
              )
          | inr off ↦
              let nothing : pasted p.1 more ≡ [] = stops p.1 more off in
              let no_chars = ap (count is_char) nothing in
              let no_cancels = ap (count is_cancel) nothing in
              (
                keys_of-AllData p.0 (pasted p.1 more) paid.0 (subst AllData (sym nothing) tt),
                omega (arith, chars, no_chars, paid.1),
                omega (arith, cancels, no_cancels, holds-le is_cancel p.0),
              )
        ])
]
  where
    stops : (s : SerialKeys) (more : List (ℕ × ℕ)) → is_paste s.mode ≡ false → pasted s more ≡ []
    stops s [] e = refl
    stops s (x ∷ xs) e = rw (e, pasted) refl
