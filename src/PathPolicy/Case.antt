-- ===== src/PathPolicy/Case.antt =====
-- Equality of paths but for case is an equivalence.
use gen_os.Common.{ℕ, ◌≡◌, refl, true, List, [], ◌∷◌, arith, ==_refl}
use gen_os.PathPolicy.{bytes_eq, to_ascii_lowercase, paths_equal}

pub paths_equal_refl : (a : List ℕ) → paths_equal a a ≡ true
unfolding paths_equal
paths_equal_refl [] = refl
paths_equal_refl (x ∷ a) =
    let rest = paths_equal_refl a in ground (arith, rest, ==_refl (to_ascii_lowercase x))

pub paths_equal_sym : (a b : List ℕ) → paths_equal a b ≡ true → paths_equal b a ≡ true
unfolding paths_equal
paths_equal_sym [] [] e = refl
paths_equal_sym [] (y ∷ b) e = absurd (cc)
paths_equal_sym (x ∷ a) [] e = absurd (cc)
paths_equal_sym (x ∷ a) (y ∷ b) e = let rest = paths_equal_sym a b in ground (arith, rest)

pub paths_equal_trans :
    (a b c : List ℕ) → paths_equal a b ≡ true → paths_equal b c ≡ true → paths_equal a c ≡ true
unfolding paths_equal
paths_equal_trans [] [] c e f = f
paths_equal_trans [] (y ∷ b) c e f = absurd (cc)
paths_equal_trans (x ∷ a) [] c e f = absurd (cc)
paths_equal_trans (x ∷ a) (y ∷ b) [] e f = absurd (cc)
paths_equal_trans (x ∷ a) (y ∷ b) (z ∷ c) e f =
    let rest = paths_equal_trans a b c in ground (arith, rest)

pub bytes_eq-true : (a b : List ℕ) → bytes_eq a b ≡ true → a ≡ b
bytes_eq-true [] [] e = refl
bytes_eq-true [] (y ∷ b) e = absurd (cc)
bytes_eq-true (x ∷ a) [] e = absurd (cc)
bytes_eq-true (x ∷ a) (y ∷ b) e = let rest = bytes_eq-true a b in ground (arith, rest)
