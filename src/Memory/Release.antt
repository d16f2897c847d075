-- ===== src/Memory/Release.antt =====
-- A release keeps the ledger and the bitmap together, and succeeds exactly for a live grant that is
-- not mapped.
use gen_os.Common.{
  ℕ, ◌≡◌, refl, ap, sym, ◌∙◌, inl, inr, Bool, true, false, not, set, arith, Bool-cases, All,
  All-get_or,
}
use gen_os.FrameGrant.{Ledger, Grant, empty, release, free, refuses_release, is_live, record_at}
use gen_os.FrameGrant.Invariant.{IsValid, is_live-occupied}
use gen_os.Physmem.{FrameAllocator, contains_live, free_frame_with, always}
use gen_os.Physmem.Free.{Released, free_frame_with-Released}
use gen_os.Memory.{give_frame}
use gen_os.Memory.Invariant.{Agree, Backed, Backed-released}

-- The answer and the states of a release that the bitmap accepted.
freed-Agree :
    (words : ℕ) (l : Ledger) (g : Grant) (a b : FrameAllocator) (freed : Bool)
    → freed ≡ true
    → Agree words l a
    → All (Backed b) (set l.records g.slot empty)
    → Released words a g.address always (freed, b)
    → ((free l g (freed, b)).0 ≡ true) × Agree words (free l g (freed, b)).1 (free l g (freed, b)).2
unfolding free
freed-Agree words l g a b false yes_freed agree backed r = absurd (cc)
freed-Agree words l g a b true yes_freed agree backed r = (
  refl,
  record { valid = r.1; live = omega (arith, agree.live, (r.2 refl).one_less); backed = backed },
)

pub release-Agree :
    (words n : ℕ) (l : Ledger) (g : Grant) (a : FrameAllocator)
    → IsValid n l
    → Agree words l a
    → ((release l g give_frame a).0 ≡ not (refuses_release l g))
      × Agree words (release l g give_frame a).1 (release l g give_frame a).2
unfolding release give_frame
release-Agree words n l g a v agree = elim (Bool-cases (refuses_release l g)) [
  | inl refused ↦
      rw (refused, release)
        (refl, record { valid = agree.valid; live = agree.live; backed = agree.backed })
  | inr allowed ↦
      let live : is_live l g ≡ true = ground arith in
      let there = is_live-occupied n l v g live in
      let same : (record_at l g.slot).address ≡ g.address = ground (arith, there.2) in
      let backed =
        All-get_or (Backed a) l.records g.slot empty (λ used. absurd (cc)) agree.backed there.1 in
      let r = free_frame_with-Released words a g.address always agree.valid in
      let accepted : (free_frame_with a g.address always).0 ≡ true =
        ground (arith, r.0, ap (contains_live a) (sym same) ∙ backed) in
      rw (allowed, release)
        (freed-Agree words l g a _ _ accepted agree
          (Backed-released a _ g.address g.slot l.records (r.2 accepted) v.apart there.0 same
            agree.backed)
          r)
]
