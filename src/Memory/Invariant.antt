-- ===== src/Memory/Invariant.antt =====
-- The ledger and the bitmap tell of the same frames.
use gen_os.Common.{
  ℕ, zero, suc, ◌<◌, ◌≡◌, ◌≢◌, refl, ap, sym, subst, ◌∙◌, ◌⊎◌, inl, inr, true, false, Option, none,
  some, List, [], ◌∷◌, checked_add, position, get_or, set, any, arith, Bool-cases, All, All-set,
  All-map, any-get_or, ℕ_discrete, length,
}
use gen_os.FrameGrant.{
  Ledger, FrameRecord, Grant, Kind, Outcome, done, empty, occupied, at_address, admit, obtain,
  choose, allocate, release, over_quota, breaks_contract,
}
use gen_os.FrameGrant.Invariant.{AllApart}
use gen_os.Physmem.{FrameAllocator, contains_live, live_index, free_frame_with, always}
use gen_os.Physmem
use gen_os.Physmem.Invariant
use gen_os.Physmem.Grants.{Answers, IsGrant}
use gen_os.Physmem.Alloc.{alloc_frame-Served}
use gen_os.Physmem.Free.{IsRelease}
use gen_os.Memory.{take_frame, returned}

-- A record names a live frame.
abbrev pub Backed : FrameAllocator → FrameRecord → Type 0
Backed a r = occupied r ≡ true → contains_live a r.address ≡ true

pub record Agree (words : ℕ) (l : Ledger) (a : FrameAllocator) : Type 0 where
  pub valid : Physmem.Invariant.IsValid words a
  pub live : l.live ≡ a.allocated_frames
  pub backed : All (Backed a) l.records

unrecorded :
    (a : FrameAllocator) (frame : ℕ) (rs : List FrameRecord)
    → All (Backed a) rs
    → frame ≢ 0
    → contains_live a frame ≡ false
    → any (at_address frame) rs ≡ false
unrecorded a frame [] all nz dead = refl
unrecorded a frame (r ∷ rs) all nz dead = elim (ℕ_discrete r.address frame) [
  | yes same ↦ absurd (cc (sym dead ∙ ap (contains_live a) (sym same) ∙ all.0 (ground arith)))
  | no apart ↦ ground (arith, unrecorded a frame rs all.1 nz dead)
]

Backed-granted :
    (a b : FrameAllocator) (frame : ℕ) (rs : List FrameRecord)
    → IsGrant a frame b
    → All (Backed a) rs
    → All (Backed b) rs
Backed-granted a b frame rs g all =
    All-map (Backed a) (Backed b) rs
      (λ r h used.
        g.others r.address (λ e. absurd (cc (sym g.fresh ∙ ap (contains_live a) (sym e) ∙ h used)))
        ∙ h used)
      all

Backed-apart :
    (a b : FrameAllocator) (frame : ℕ) (rs : List FrameRecord)
    → IsRelease a frame b
    → any (at_address frame) rs ≡ false
    → All (Backed a) rs
    → All (Backed b) rs
Backed-apart a b frame [] release alone all = tt
Backed-apart a b frame (r ∷ rs) release alone all = (
  λ used. release.others r.address (ground arith) ∙ all.0 used,
  Backed-apart a b frame rs release (ground arith) all.1,
)

zero_dead : (a : FrameAllocator) → contains_live a 0 ≡ false
unfolding contains_live live_index
zero_dead a = refl

-- The record of the released frame is emptied.
pub Backed-released :
    (a b : FrameAllocator) (frame slot : ℕ) (rs : List FrameRecord)
    → IsRelease a frame b
    → AllApart rs
    → slot < length rs
    → (get_or rs slot empty).address ≡ frame
    → All (Backed a) rs
    → All (Backed b) (set rs slot empty)
Backed-released a b frame slot [] release apart less here all = tt
Backed-released a b frame zero (r ∷ rs) release apart less here all =
    (λ used. absurd (cc), Backed-apart a b frame rs release (alone apart.0) all.1)
  where
    alone :
        (r.address ≡ 0) ⊎ (any (at_address r.address) rs ≡ false)
        → any (at_address frame) rs ≡ false
    alone (inr h) = subst (λ k. any (at_address k) rs ≡ false) here h
    alone (inl z) =
        absurd (cc (sym release.was_live ∙ ap (contains_live a) (sym here ∙ z) ∙ zero_dead a))
Backed-released a b frame (suc slot) (r ∷ rs) release apart less here all = (
  λ used. release.others r.address (other used) ∙ all.0 used,
  Backed-released a b frame slot rs release apart.1 (omega arith) here all.1,
)
  where
    other : occupied r ≡ true → r.address ≢ frame
    other used e = elim apart.0 [
      | inl z ↦ absurd (ground arith)
      | inr h ↦ absurd (
          cc (sym h ∙ any-get_or (at_address r.address) rs slot empty (omega arith) (ground arith)))
    ]

-- The end of an allocation: no assertion fails.
abbrev Fine : ℕ → Outcome (Option Grant × Ledger × FrameAllocator) → Type 0
Fine words o = (x : Option Grant × Ledger × FrameAllocator) × (o ≡ done x) × Agree words x.1 x.2

obtain-Fine :
    (words : ℕ) (l : Ledger) (owner : ℕ) (kind : Kind) (slot next : ℕ) (answer : Option ℕ)
    (a b : FrameAllocator)
    → Agree words l a
    → Physmem.Invariant.IsValid words b
    → Answers a answer b
    → Fine words (obtain l owner kind slot next (answer, b))
unfolding obtain admit
obtain-Fine words l owner kind slot next none a b g v full = (
  (none, l, b),
  refl,
  record {
    valid = v;
    live = g.live ∙ sym full.as_many;
    backed =
        All-map (Backed a) (Backed b) l.records (λ r h used. full.same r.address ∙ h used) g.backed;
  },
)
obtain-Fine words l owner kind slot next (some frame) a b g v grant =
    let alone = unrecorded a frame l.records g.backed (omega (arith, grant.low)) grant.fresh in
    let kept : breaks_contract l frame ≡ false = ground (arith, alone, grant.aligned, grant.low) in
    rw (kept, obtain, admit)
      (
        _,
        refl,
        record {
          valid = v;
          live = omega (arith, g.live, grant.one_more);
          backed =
              All-set (Backed b) l.records slot _ (λ used. grant.live)
                (Backed-granted a b frame l.records grant g.backed);
        },
      )

choose-Fine :
    (words : ℕ) (l : Ledger) (owner : ℕ) (kind : Kind) (slot next : Option ℕ) (a : FrameAllocator)
    → Agree words l a
    → Fine words (choose l owner kind slot next take_frame a)
unfolding choose take_frame
choose-Fine words l owner kind none next a g =
    (_, refl, record { valid = g.valid; live = g.live; backed = g.backed })
choose-Fine words l owner kind (some slot) none a g =
    (_, refl, record { valid = g.valid; live = g.live; backed = g.backed })
choose-Fine words l owner kind (some slot) (some next) a g =
    let served = alloc_frame-Served words a g.valid in
    subst (λ p. Fine words (obtain l owner kind slot next p)) (sym (ap (returned a) served.2))
      (obtain-Fine words l owner kind slot next served.0 a served.1 g served.3 served.4)

pub allocate-Fine :
    (words n : ℕ) (l : Ledger) (owner : ℕ) (kind : Kind) (a : FrameAllocator)
    → Agree words l a
    → Fine words (allocate n l owner kind take_frame a)
unfolding allocate
allocate-Fine words n l owner kind a g = elim (Bool-cases (over_quota n l owner)) [
  | inl over ↦
      rw (over, allocate) (_, refl, record { valid = g.valid; live = g.live; backed = g.backed })
  | inr fits ↦
      rw (fits, allocate)
        (choose-Fine words l owner kind (position (at_address 0) l.records)
          (checked_add l.next_generation 1) a g)
]
