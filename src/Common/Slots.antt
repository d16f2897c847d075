-- ===== src/Common/Slots.antt =====
-- A fixed array of slots that is searched for its first fitting slot, which is then written: the
-- shape of every table of the kernel.
use gen_os.Common.Lists.{
  length, get_elem?, set, any, count, position, any-append, count-append, count-le-length,
}
use gen_os.Common.Tests.{Option-cases, is_none, is_some, ltb}
use Prim.Native.Nat.{ℕ, zero, suc, ◌+◌}
use mathlib.Core.Path.{◌≡◌, refl, ap, ◌∙◌}
use mathlib.Core.List.{List, [], ◌∷◌, ◌++◌}
use mathlib.Core.Bool.{Bool, true, false, ◌||◌}
use mathlib.Core.Option.{Option, none, some}
use native.Mathlib.Omega.{arith}

module _ {ℓ} {A : Type ℓ} where
  -- The slot at `i` is the first that passes `p`; around it stand `before` and `after`.
  pub record Splits (p : A → Bool) (xs : List A) (i : ℕ) : Type ℓ where
    pub before : List A
    pub slot : A
    pub after : List A
    pub whole : xs ≡ before ++ (slot ∷ after)
    pub passes : p slot ≡ true
    pub first : any p before ≡ false
    pub write : (v : A) → set xs i v ≡ before ++ (v ∷ after)
    pub read : get_elem? xs i ≡ some slot

  Splits-here : (p : A → Bool) (x : A) (xs : List A) → p x ≡ true → Splits p (x ∷ xs) 0
  Splits-here p x xs h = record {
    before = [];
    slot = x;
    after = xs;
    whole = refl;
    passes = h;
    first = refl;
    write = λ v. refl;
    read = refl;
  }

  Splits-later :
      (p : A → Bool) (x : A) (xs : List A) (i : ℕ)
      → p x ≡ false
      → Splits p xs i
      → Splits p (x ∷ xs) (suc i)
  Splits-later p x xs i h s = record {
    before = x ∷ s.before;
    slot = s.slot;
    after = s.after;
    whole = ap (◌∷◌ x) s.whole;
    passes = s.passes;
    first = ground (arith, s.first);
    write = λ v. ap (◌∷◌ x) (s.write v);
    read = s.read;
  }

  -- What a successful search tells of the array.
  pub position-Splits :
      (p : A → Bool) (xs : List A) (i : ℕ) → position p xs ≡ some i → Splits p xs i
  position-Splits p [] i h = absurd (cc)
  position-Splits p (x ∷ xs) zero h =
      Splits-here p x xs (ground (arith, Option-cases (position p xs)))
  position-Splits p (x ∷ xs) (suc i) h =
      Splits-later p x xs i (ground arith) (position-Splits p xs i (ground arith))

  -- How `any` and `count` change when the slot that a search found is written.
  pub any-set :
      (p q : A → Bool) (xs : List A) (i : ℕ) (s : Splits p xs i) (v : A)
      → any q (set xs i v) ≡ (any q s.before || (q v || any q s.after))
  any-set p q xs i s v = rw (s.write v) (any-append q s.before (v ∷ s.after))

  pub any-whole :
      (p q : A → Bool) (xs : List A) (i : ℕ) (s : Splits p xs i)
      → any q xs ≡ (any q s.before || (q s.slot || any q s.after))
  any-whole p q xs i s = ap (any q) s.whole ∙ any-append q s.before (s.slot ∷ s.after)

  pub count-set :
      (p q : A → Bool) (xs : List A) (i : ℕ) (s : Splits p xs i) (v : A)
      → count q (set xs i v) ≡ count q s.before + count q (v ∷ s.after)
  count-set p q xs i s v = rw (s.write v) (count-append q s.before (v ∷ s.after))

  pub count-whole :
      (p q : A → Bool) (xs : List A) (i : ℕ) (s : Splits p xs i)
      → count q xs ≡ count q s.before + count q (s.slot ∷ s.after)
  count-whole p q xs i s = ap (count q) s.whole ∙ count-append q s.before (s.slot ∷ s.after)

module _ {ℓ} {A : Type ℓ} where
  is_none-eq : (o : Option A) → is_none o ≡ true → o ≡ none
  is_none-eq none h = refl
  is_none-eq (some a) h = absurd (cc)

  -- A search for a free slot splits the array around a free slot.
  pub whole_free :
      (xs : List (Option A)) (i : ℕ) (s : Splits is_none xs i) → xs ≡ s.before ++ (none ∷ s.after)
  whole_free xs i s = s.whole ∙ ap (λ o. s.before ++ (o ∷ s.after)) (is_none-eq s.slot s.passes)

  -- There is a free slot exactly where not all slots are used.
  pub any-is_none : (xs : List (Option A)) → any is_none xs ≡ ltb (count is_some xs) (length xs)
  any-is_none [] = refl
  any-is_none (none ∷ xs) = ground (arith, count-le-length is_some xs)
  any-is_none (some a ∷ xs) = ground (arith, any-is_none xs)
