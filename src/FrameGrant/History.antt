-- ===== src/FrameGrant/History.antt =====
-- Sequences of ledger calls. The answers of the closures are given with the call.
use gen_os.Common.{ℕ, ◌≡◌, refl, subst, Bool, Option, List, [], ◌∷◌, arith}
use gen_os.FrameGrant.{
  Ledger, Grant, Kind, Outcome, panicked, done, new_owner, allocate, bind, retire, release,
}

-- `supplied` is what the allocator returns, `prepared` whether the preparation succeeds.
pub data Call : Type 0 where
  owners : Call
  allocates : (owner : ℕ) → Kind → (supplied : Option ℕ) → Call
  binds : Grant → (owner virtual_address : ℕ) → Call
  retires : (owner address virtual_address : ℕ) → Call
  releases : Grant → (prepared : Bool) → Call

abbrev pub ledger_of : Outcome (Option Grant × Ledger × Unit {0}) → Outcome Ledger
ledger_of panicked = panicked
ledger_of (done (g, l, st)) = done l

unfoldable pub step : ℕ → Ledger → Call → Outcome Ledger
step n l owners = done (new_owner l).1
step n l (allocates owner kind supplied) =
    ledger_of (allocate {S = Unit {0}} n l owner kind (λ st. (supplied, st)) tt)
step n l (binds g owner virtual_address) = done (bind l g owner virtual_address).1
step n l (retires owner address virtual_address) = done (retire l owner address virtual_address).1
step n l (releases g prepared) =
    done (release {S = Unit {0}} l g (λ address st. (prepared, st)) tt).1

unfoldable pub run : ℕ → Ledger → List Call → Outcome Ledger
run n l [] = done l
run n l (c ∷ cs) = elim (step n l c) [ panicked ↦ panicked | done l' ↦ run n l' cs ]

-- Induction over a history: what every call keeps, every history keeps.
pub run_keeps {ℓ} :
    (P : Ledger → Type ℓ) (n : ℕ)
    → ((l : Ledger) (c : Call) (l' : Ledger) → step n l c ≡ done l' → P l → P l')
    → (cs : List Call) (l l' : Ledger) → run n l cs ≡ done l'
    → P l
    → P l'
unfolding run
run_keeps P n keep [] l l' e p = subst P (done-injective e) p
  where
    done-injective : done l ≡ done l' → l ≡ l'
    done-injective e = cc
run_keeps P n keep (c ∷ cs) l l' e p =
    next (step n l c) refl e (λ m at e. run_keeps P n keep cs m l' e (keep l c m at p))
  where
    next :
        (o : Outcome Ledger)
        → step n l c ≡ o
        → elim o [ panicked ↦ panicked | done m ↦ run n m cs ] ≡ done l'
        → ((m : Ledger) → step n l c ≡ done m → run n m cs ≡ done l' → P l')
        → P l'
    next panicked at e rest = absurd (cc)
    next (done m) at e rest = rest m at e

-- What holds of the ledger when no assertion failed.
abbrev pub Ensures {ℓ} : (Ledger → Type ℓ) → Outcome Ledger → Type ℓ
Ensures P panicked = Unit
Ensures P (done l) = P l

pub Ensures-done {ℓ} :
    (P : Ledger → Type ℓ) (o : Outcome Ledger) (l : Ledger) → Ensures P o → o ≡ done l → P l
Ensures-done P panicked l p e = absurd (cc)
Ensures-done P (done m) l p e = let same : m ≡ l = ground arith in subst P same p
