-- ===== src/Physmem/Bitmap.antt =====
-- The bitmap of the allocator, read bit by bit and by windows.
use gen_os.Common.{
  ℕ, zero, suc, ◌+◌, ◌-◌, ◌<◌, ◌≤◌, ◌≡◌, refl, ap, sym, ◌∙◌, Bool, true, false, not, ◌++◌, min,
  none, some, List, [], ◌∷◌, any, count, position, take, drop, get_or, length, arith,
  get_or-position, position-none, position-lt-length, count-append, count-zero,
}
use gen_os.Physmem.{is_set}

-- The bit `i` of the bitmap.
abbrev pub bit_at : List Bool → ℕ → Bool
bit_at bits i = get_or bits i false

pub any-clear : (bits : List Bool) → ((i : ℕ) → bit_at bits i ≡ false) → any is_set bits ≡ false
any-clear [] h = refl
any-clear (b ∷ bits) h = ground (arith, h 0, any-clear bits (λ i. h (suc i)))

-- A bitmap with no bit set from `high` on has at most `high` bits set.
pub count-le_high :
    (bits : List Bool) (high : ℕ)
    → ((i : ℕ) → high ≤ i → bit_at bits i ≡ false)
    → count is_set bits ≤ high
count-le_high [] high h = omega arith
count-le_high (b ∷ bits) zero h =
    ground (arith, h 0 (omega arith), count-le_high bits 0 (λ i k. h (suc i) (omega arith)))
count-le_high (b ∷ bits) (suc high) h =
    ground (arith, count-le_high bits high (λ i k. h (suc i) (omega arith)))

pub get_or-drop {ℓ} :
    {A : Type ℓ} (n : ℕ) (xs : List A) (i : ℕ) (d : A)
    → get_or (drop n xs) i d ≡ get_or xs (n + i) d
get_or-drop zero xs i d = ap (λ k. get_or xs k d) (omega arith)
get_or-drop (suc n) [] i d = refl
get_or-drop (suc n) (x ∷ xs) i d =
    let e : suc n + i ≡ suc (n + i) = omega arith in
    get_or-drop n xs i d ∙ ap (λ k. get_or (x ∷ xs) k d) (sym e)

pub get_or-take_lt {ℓ} :
    {A : Type ℓ} (n : ℕ) (xs : List A) (i : ℕ) (d : A)
    → i < n
    → get_or (take n xs) i d ≡ get_or xs i d
get_or-take_lt zero xs i d h = absurd (omega arith)
get_or-take_lt (suc n) [] i d h = refl
get_or-take_lt (suc n) (x ∷ xs) zero d h = refl
get_or-take_lt (suc n) (x ∷ xs) (suc i) d h = get_or-take_lt n xs i d (omega arith)

length-take-min {ℓ} : {A : Type ℓ} (n : ℕ) (xs : List A) → length (take n xs) ≡ min n (length xs)
length-take-min zero xs = omega arith
length-take-min (suc n) [] = omega arith
length-take-min (suc n) (x ∷ xs) = omega (arith, length-take-min n xs)

length-drop {ℓ} : {A : Type ℓ} (n : ℕ) (xs : List A) → length (drop n xs) ≡ length xs - n
length-drop zero xs = omega arith
length-drop (suc n) [] = omega arith
length-drop (suc n) (x ∷ xs) = omega (arith, length-drop n xs)

take-append-drop {ℓ} : {A : Type ℓ} (n : ℕ) (xs : List A) → take n xs ++ drop n xs ≡ xs
take-append-drop zero xs = refl
take-append-drop (suc n) [] = refl
take-append-drop (suc n) (x ∷ xs) = ap (λ ys. x ∷ ys) (take-append-drop n xs)

take-clear :
    (n : ℕ) (bits : List Bool)
    → ((i : ℕ) → bit_at bits i ≡ false)
    → ((i : ℕ) → bit_at (take n bits) i ≡ false)
take-clear zero bits h i = refl
take-clear (suc n) [] h i = refl
take-clear (suc n) (b ∷ bits) h zero = h 0
take-clear (suc n) (b ∷ bits) h (suc i) = take-clear n bits (λ j. h (suc j)) i

-- No bit is set behind a position from which all are clear.
pub any-drop_clear :
    (bits : List Bool) (n high : ℕ)
    → ((i : ℕ) → high ≤ i → bit_at bits i ≡ false)
    → high ≤ n
    → any is_set (drop n bits) ≡ false
any-drop_clear bits n high h le =
    any-clear (drop n bits) (λ i. get_or-drop n bits i false ∙ h (n + i) (omega arith))

pub any-take-drop_clear :
    (bits : List Bool) (m n high : ℕ)
    → ((i : ℕ) → high ≤ i → bit_at bits i ≡ false)
    → high ≤ n
    → any is_set (take m (drop n bits)) ≡ false
any-take-drop_clear bits m n high h le =
    any-clear (take m (drop n bits))
      (take-clear m (drop n bits) (λ i. get_or-drop n bits i false ∙ h (n + i) (omega arith)))

-- The bits behind such a position do not count.
pub count-take_clear :
    (bits : List Bool) (n high : ℕ)
    → ((i : ℕ) → high ≤ i → bit_at bits i ≡ false)
    → high ≤ n
    → count is_set (take n bits) ≡ count is_set bits
count-take_clear bits n high h le =
    let none_behind = count-zero is_set (drop n bits) (any-drop_clear bits n high h le) in
    let parts = count-append is_set (take n bits) (drop n bits) in
    let whole = ap (count is_set) (take-append-drop n bits) in
    omega (arith, none_behind, parts, whole)

any-not-false :
    (bits : List Bool) (i : ℕ) → any not bits ≡ false → i < length bits → bit_at bits i ≡ true
any-not-false [] i h less = absurd (omega arith)
any-not-false (b ∷ bits) zero h less = ground arith
any-not-false (b ∷ bits) (suc i) h less = any-not-false bits i (ground arith) (omega arith)

not-true : (b : Bool) → not b ≡ true → b ≡ false
not-true true h = absurd (cc)
not-true false h = refl

-- The search for a clear bit in the window of `m` bits from `n` on.
pub window-some :
    (bits : List Bool) (m n bit : ℕ)
    → position not (take m (drop n bits)) ≡ some bit
    → (bit < m) × (n + bit < length bits) × (bit_at bits (n + bit) ≡ false)
window-some bits m n bit e =
    let inside = position-lt-length not (take m (drop n bits)) bit e in
    let sizes : length (take m (drop n bits)) ≡ min m (length bits - n) =
      length-take-min m (drop n bits) ∙ ap (min m) (length-drop n bits) in
    let less : bit < m = omega (arith, inside, sizes) in
    let clear = not-true _ (get_or-position not (take m (drop n bits)) bit false e) in
    (
      less,
      omega (arith, inside, sizes),
      sym (get_or-take_lt m (drop n bits) bit false less ∙ get_or-drop n bits bit false) ∙ clear,
    )

pub window-none :
    (bits : List Bool) (m n i : ℕ)
    → position not (take m (drop n bits)) ≡ none
    → n ≤ i
    → i < n + m
    → i < length bits
    → bit_at bits i ≡ true
window-none bits m n i e low high less =
    let sizes : length (take m (drop n bits)) ≡ min m (length bits - n) =
      length-take-min m (drop n bits) ∙ ap (min m) (length-drop n bits) in
    let there : n + (i - n) ≡ i = omega arith in
    let set =
      any-not-false (take m (drop n bits)) (i - n) (position-none not (take m (drop n bits)) e)
        (omega (arith, sizes)) in
    ap (bit_at bits) (sym there)
    ∙ sym (
        get_or-take_lt m (drop n bits) (i - n) false (omega arith)
        ∙ get_or-drop n bits (i - n) false)
    ∙ set

position-before :
    (bits : List Bool) (i j : ℕ) → position not bits ≡ some i → j < i → bit_at bits j ≡ true
position-before [] i j e h = absurd (cc)
position-before (true ∷ bits) zero j e h = absurd (omega arith)
position-before (true ∷ bits) (suc i) zero e h = refl
position-before (true ∷ bits) (suc i) (suc j) e h =
    position-before bits i j (ground arith) (omega arith)
position-before (false ∷ bits) i j e h = absurd (ground arith)

-- The bits of the window before the one found are set.
pub window-before :
    (bits : List Bool) (m n bit i : ℕ)
    → position not (take m (drop n bits)) ≡ some bit
    → n ≤ i
    → i < n + bit
    → bit_at bits i ≡ true
window-before bits m n bit i e low high =
    let there : n + (i - n) ≡ i = omega arith in
    let less = (window-some bits m n bit e).0 in
    let set = position-before (take m (drop n bits)) bit (i - n) e (omega arith) in
    ap (bit_at bits) (sym there)
    ∙ sym (
        get_or-take_lt m (drop n bits) (i - n) false (omega arith)
        ∙ get_or-drop n bits (i - n) false)
    ∙ set
