-- ===== src/Memory/Ledger.antt =====
-- What the ledger records does not depend on the allocator's state but on the address it supplies.
use gen_os.Common.{
  ℕ, ◌≡◌, refl, inl, inr, Bool, true, false, Option, none, some, checked_add, position, Bool-cases,
}
use gen_os.FrameGrant.{
  Ledger, Grant, Kind, Outcome, panicked, done, admit, obtain, choose, allocate, release, free,
  over_quota, breaks_contract, at_address, refuses_release,
}
use gen_os.FrameGrant.History.{allocates, releases, ledger_of, step}

abbrev pub forget {ℓ} : {S : Type ℓ} → Outcome (Option Grant × Ledger × S) → Outcome Ledger
forget panicked = panicked
forget (done (g, l, st)) = done l

module _ {ℓ} {S : Type ℓ} (l : Ledger) (owner : ℕ) (kind : Kind) where
  obtain-forget :
      (slot next : ℕ) (o : Option ℕ) (st : S)
      → forget (obtain l owner kind slot next (o, st))
        ≡ ledger_of (obtain {S = Unit {0}} l owner kind slot next (o, tt))
  unfolding obtain admit
  obtain-forget slot next none st = refl
  obtain-forget slot next (some address) st = elim (Bool-cases (breaks_contract l address)) [
    | inl bad ↦ rw (bad, obtain, admit) refl
    | inr good ↦ rw (good, obtain, admit) refl
  ]

  choose-forget :
      (slot next : Option ℕ) (f : S → Option ℕ × S) (st : S)
      → forget (choose l owner kind slot next f st)
        ≡ ledger_of (choose {S = Unit {0}} l owner kind slot next (λ u. ((f st).0, u)) tt)
  unfolding choose
  choose-forget none next f st = refl
  choose-forget (some slot) none f st = refl
  choose-forget (some slot) (some next) f st = obtain-forget slot next (f st).0 (f st).1

  pub allocate-forget :
      (n : ℕ) (f : S → Option ℕ × S) (st : S)
      → forget (allocate n l owner kind f st) ≡ step n l (allocates owner kind (f st).0)
  unfolding allocate step
  allocate-forget n f st = elim (Bool-cases (over_quota n l owner)) [
    | inl over ↦ rw (over, allocate, step) refl
    | inr fits ↦
        rw (fits, allocate, step)
          (choose-forget (position (at_address 0) l.records) (checked_add l.next_generation 1) f st)
  ]

pub release-forget {ℓ} :
    {S : Type ℓ} (n : ℕ) (l : Ledger) (g : Grant) (f : ℕ → S → Bool × S) (st : S)
    → done ((release l g f st).1) ≡ step n l (releases g (f g.address st).0)
unfolding release free step
release-forget n l g f st = elim (Bool-cases (refuses_release l g)) [
  | inl refused ↦ rw (refused, release, step) refl
  | inr allowed ↦ rw (allowed, release, step) (freed (f g.address st).0)
]
  where
    freed :
        (b : Bool)
        → done ((free l g (b, (f g.address st).1)).1) ≡ done ((free {S = Unit {0}} l g (b, tt)).1)
    freed true = refl
    freed false = refl
