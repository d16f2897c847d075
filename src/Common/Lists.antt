-- ===== src/Common/Lists.antt =====
-- Lists measured, indexed and searched by native numbers, under the libraries' names.
use Prim.Native.Nat.{ℕ, zero, suc, ◌+◌, ◌≤◌, ◌<◌}
use mathlib.Core.Path.{sym, ◌≡◌, refl, ap}
use mathlib.Core.Logic.{◌≢◌, ◌⊎◌, inl, inr}
use mathlib.Core.List.{List, [], ◌∷◌, ◌++◌}
use mathlib.Core.Bool.{Bool, true, false, ◌&&◌, ◌||◌}
use mathlib.Core.Option.{Option, none, some}
use native.Mathlib.Omega.{arith}
use gen_os.Common.Tests.{if◌then◌else◌, Bool-cases, Option-cases}

-- The position in a list, from that in its tail.
abbrev pub next_position : Option ℕ → Option ℕ
next_position none = none
next_position (some i) = some (suc i)

module _ {ℓ} {A : Type ℓ} where
  abbrev pub length : List A → ℕ
  length [] = 0
  length (x ∷ xs) = suc (length xs)

  abbrev pub get_elem? : List A → ℕ → Option A
  get_elem? [] i = none
  get_elem? (x ∷ xs) zero = some x
  get_elem? (x ∷ xs) (suc i) = get_elem? xs i

  abbrev pub get_or : List A → ℕ → A → A
  get_or [] i d = d
  get_or (x ∷ xs) zero d = x
  get_or (x ∷ xs) (suc i) d = get_or xs i d

  -- A write out of bounds changes nothing.
  abbrev pub set : List A → ℕ → A → List A
  set [] i v = []
  set (x ∷ xs) zero v = v ∷ xs
  set (x ∷ xs) (suc i) v = x ∷ set xs i v

  abbrev pub take : ℕ → List A → List A
  take zero xs = []
  take (suc n) [] = []
  take (suc n) (x ∷ xs) = x ∷ take n xs

  abbrev pub drop : ℕ → List A → List A
  drop zero xs = xs
  drop (suc n) [] = []
  drop (suc n) (x ∷ xs) = drop n xs

  abbrev pub replicate : ℕ → A → List A
  replicate zero a = []
  replicate (suc n) a = a ∷ replicate n a

  -- `iter().any`, `iter().all`, `iter().position` and `iter().filter(..).count()`.
  abbrev pub any : (A → Bool) → List A → Bool
  any p [] = false
  any p (x ∷ xs) = p x || any p xs

  abbrev pub all : (A → Bool) → List A → Bool
  all p [] = true
  all p (x ∷ xs) = p x && all p xs

  abbrev pub position : (A → Bool) → List A → Option ℕ
  position p [] = none
  position p (x ∷ xs) = if p x then some 0 else next_position (position p xs)

  abbrev pub count : (A → Bool) → List A → ℕ
  count p [] = 0
  count p (x ∷ xs) = (if p x then 1 else 0) + count p xs

module _ {ℓ} {A : Type ℓ} where
  pub length-append : (xs ys : List A) → length (xs ++ ys) ≡ length xs + length ys
  length-append [] ys = omega arith
  length-append (x ∷ xs) ys = omega (arith, length-append xs ys)

  pub length-set : (xs : List A) (i : ℕ) (v : A) → length (set xs i v) ≡ length xs
  length-set [] i v = refl
  length-set (x ∷ xs) zero v = refl
  length-set (x ∷ xs) (suc i) v = ap suc (length-set xs i v)

  pub length-replicate : (n : ℕ) (a : A) → length (replicate n a) ≡ n
  length-replicate zero a = refl
  length-replicate (suc n) a = ap suc (length-replicate n a)

  pub get_or-set_self :
      (xs : List A) (i : ℕ) (v d : A) → i < length xs → get_or (set xs i v) i d ≡ v
  get_or-set_self [] i v d h = absurd (omega arith)
  get_or-set_self (x ∷ xs) zero v d h = refl
  get_or-set_self (x ∷ xs) (suc i) v d h = get_or-set_self xs i v d (omega arith)

  pub get_or-set_ne :
      (xs : List A) (i j : ℕ) (v d : A) → i ≢ j → get_or (set xs i v) j d ≡ get_or xs j d
  get_or-set_ne [] i j v d h = refl
  get_or-set_ne (x ∷ xs) zero zero v d h = absurd (h refl)
  get_or-set_ne (x ∷ xs) zero (suc j) v d h = refl
  get_or-set_ne (x ∷ xs) (suc i) zero v d h = refl
  get_or-set_ne (x ∷ xs) (suc i) (suc j) v d h = get_or-set_ne xs i j v d (λ e. h (ap suc e))

  pub any-append : (p : A → Bool) (xs ys : List A) → any p (xs ++ ys) ≡ (any p xs || any p ys)
  any-append p [] ys = refl
  any-append p (x ∷ xs) ys = ground (arith, any-append p xs ys)

  pub count-append : (p : A → Bool) (xs ys : List A) → count p (xs ++ ys) ≡ count p xs + count p ys
  count-append p [] ys = omega arith
  count-append p (x ∷ xs) ys = omega (arith, count-append p xs ys)

  pub count-le-length : (p : A → Bool) (xs : List A) → count p xs ≤ length xs
  count-le-length p [] = omega arith
  count-le-length p (x ∷ xs) = ground (arith, count-le-length p xs)

  pub count-zero : (p : A → Bool) (xs : List A) → any p xs ≡ false → count p xs ≡ 0
  count-zero p [] h = refl
  count-zero p (x ∷ xs) h = ground (arith, count-zero p xs)

  pub any-replicate : (p : A → Bool) (n : ℕ) (a : A) → p a ≡ false → any p (replicate n a) ≡ false
  any-replicate p zero a h = refl
  any-replicate p (suc n) a h = ground (arith, any-replicate p n a h)

  -- A search fails exactly when no element passes its test.
  pub position-none : (p : A → Bool) (xs : List A) → position p xs ≡ none → any p xs ≡ false
  position-none p [] h = refl
  position-none p (x ∷ xs) h = ground (arith, position-none p xs)

  pub position_of_not_any : (p : A → Bool) (xs : List A) → any p xs ≡ false → position p xs ≡ none
  position_of_not_any p [] h = refl
  position_of_not_any p (x ∷ xs) h = ground (arith, position_of_not_any p xs)

  pub position-lt-length :
      (p : A → Bool) (xs : List A) (i : ℕ) → position p xs ≡ some i → i < length xs
  position-lt-length p [] i h = absurd (cc)
  position-lt-length p (x ∷ xs) zero h = omega arith
  position-lt-length p (x ∷ xs) (suc i) h = ground (arith, position-lt-length p xs i)

  -- A write adds no element but the one written.
  pub any-set-false :
      (p : A → Bool) (xs : List A) (i : ℕ) (v : A)
      → any p xs ≡ false
      → p v ≡ false
      → any p (set xs i v) ≡ false
  any-set-false p [] i v h hv = refl
  any-set-false p (x ∷ xs) zero v h hv = ground arith
  any-set-false p (x ∷ xs) (suc i) v h hv = ground (arith, any-set-false p xs i v)

  -- A property of every element, by recursion.
  abbrev pub All {κ} : (A → Type κ) → List A → Type κ
  All P [] = Unit
  All P (x ∷ xs) = P x × All P xs

  pub All-set {κ} :
      (P : A → Type κ) (xs : List A) (i : ℕ) (v : A) → P v → All P xs → All P (set xs i v)
  All-set P [] i v h a = a
  All-set P (x ∷ xs) zero v h a = (h, a.1)
  All-set P (x ∷ xs) (suc i) v h a = (a.0, All-set P xs i v h a.1)

  pub All-get_or {κ} :
      (P : A → Type κ) (xs : List A) (i : ℕ) (d : A) → P d → All P xs → P (get_or xs i d)
  All-get_or P [] i d h a = h
  All-get_or P (x ∷ xs) zero d h a = a.0
  All-get_or P (x ∷ xs) (suc i) d h a = All-get_or P xs i d h a.1

  pub All-map {κ μ} :
      (P : A → Type κ) (Q : A → Type μ) (xs : List A) → ((x : A) → P x → Q x) → All P xs → All Q xs
  All-map P Q [] f a = tt
  All-map P Q (x ∷ xs) f a = (f x a.0, All-map P Q xs f a.1)

  pub All-replicate {κ} : (P : A → Type κ) (n : ℕ) (x : A) → P x → All P (replicate n x)
  All-replicate P zero x h = tt
  All-replicate P (suc n) x h = (h, All-replicate P n x h)

  -- The element that a search finds passes its test.
  pub get_or-position :
      (p : A → Bool) (xs : List A) (i : ℕ) (d : A)
      → position p xs ≡ some i
      → p (get_or xs i d) ≡ true
  get_or-position p [] i d h = absurd (cc)
  get_or-position p (x ∷ xs) zero d h = elim (Bool-cases (p x)) [
    | inl e ↦ e
    | inr e ↦ ground (arith, Option-cases (position p xs))
  ]
  get_or-position p (x ∷ xs) (suc i) d h = ground (arith, get_or-position p xs i d)

  -- A write in range exchanges one element's count.
  pub count-set :
      (p : A → Bool) (xs : List A) (i : ℕ) (v d : A)
      → i < length xs
      → count p (set xs i v) + (if p (get_or xs i d) then 1 else 0)
        ≡ count p xs + (if p v then 1 else 0)
  count-set p [] i v d h = absurd (omega arith)
  count-set p (x ∷ xs) zero v d h = omega arith
  count-set p (x ∷ xs) (suc i) v d h = omega (arith, count-set p xs i v d (omega arith))

  pub get_elem?-lt :
      (xs : List A) (i : ℕ) (d : A) → i < length xs → get_elem? xs i ≡ some (get_or xs i d)
  get_elem?-lt [] i d h = absurd (omega arith)
  get_elem?-lt (x ∷ xs) zero d h = refl
  get_elem?-lt (x ∷ xs) (suc i) d h = get_elem?-lt xs i d (omega arith)

  pub any-get_or :
      (p : A → Bool) (xs : List A) (i : ℕ) (d : A)
      → i < length xs
      → p (get_or xs i d) ≡ true
      → any p xs ≡ true
  any-get_or p [] i d h e = absurd (omega arith)
  any-get_or p (x ∷ xs) zero d h e = ground arith
  any-get_or p (x ∷ xs) (suc i) d h e = ground (arith, any-get_or p xs i d (omega arith) e)

  -- Restoring the element that a write replaced restores the list.
  pub set-set_back :
      (xs : List A) (i : ℕ) (w v d : A)
      → i < length xs
      → get_or xs i d ≡ v
      → set (set xs i w) i v ≡ xs
  set-set_back [] i w v d h e = refl
  set-set_back (x ∷ xs) zero w v d h e = ap (λ y. y ∷ xs) (sym e)
  set-set_back (x ∷ xs) (suc i) w v d h e =
      ap (λ ys. x ∷ ys) (set-set_back xs i w v d (omega arith) e)

  pub get_elem?-cases :
      (xs : List A) (i : ℕ) (d : A)
      → (get_elem? xs i ≡ none) ⊎ ((get_elem? xs i ≡ some (get_or xs i d)) × (i < length xs))
  get_elem?-cases [] i d = inl refl
  get_elem?-cases (x ∷ xs) zero d = inr (refl, omega arith)
  get_elem?-cases (x ∷ xs) (suc i) d = elim (get_elem?-cases xs i d) [
    | inl e ↦ inl e
    | inr (e, h) ↦ inr (e, omega arith)
  ]

  -- What a write leaves to be read: the written value, or what stood there.
  pub get_or-set :
      (xs : List A) (i j : ℕ) (v d : A)
      → ((i ≡ j) × (get_or (set xs i v) j d ≡ v)) ⊎ (get_or (set xs i v) j d ≡ get_or xs j d)
  get_or-set [] i j v d = inr refl
  get_or-set (x ∷ xs) zero zero v d = inl (refl, refl)
  get_or-set (x ∷ xs) zero (suc j) v d = inr refl
  get_or-set (x ∷ xs) (suc i) zero v d = inr refl
  get_or-set (x ∷ xs) (suc i) (suc j) v d = elim (get_or-set xs i j v d) [
    | inl (e, h) ↦ inl (ap suc e, h)
    | inr h ↦ inr h
  ]
