-- ===== src/Memory/History.antt =====
-- Histories of the physical memory, from its initialisation on.
use gen_os.Common.{
  ℕ, ◌≡◌, refl, ap, sym, ◌∙◌, subst, inl, inr, true, ◌&&◌, ◌||◌, not, List, [], ◌∷◌, all, arith,
  Bool-cases, All, All-replicate,
}
use gen_os.BootMemory.{MemoryRegion, MemoryMapInfo, Result, ok, err, is_usable, validate_map}
use gen_os.FrameGrant.{Ledger, FrameRecord, Grant, Kind, Outcome, panicked, done, empty, occupied}
use gen_os.FrameGrant
use gen_os.FrameGrant.Invariant.{new-IsValid}
use gen_os.FrameGrant.Invariant
use gen_os.Physmem.{FrameAllocator, contains_live, add_region}
use gen_os.Physmem
use gen_os.Physmem.Invariant.{IsValid, new-IsValid as new-IsValid', IsValid-is_consistent}
use gen_os.Physmem.Preserve.{add_region-IsValid, add_region-keeps}
use gen_os.Memory.{
  MemoryState, start, add_regions, finish_init, init_regions, init, alloc_frame, free_frame,
  new_owner, pin_mapping, retire_mapping, is_consistent,
}
use gen_os.Memory.Invariant.{Agree, Backed}
use gen_os.Memory.Calls.{
  IsJoined, Returns, alloc_frame-Returns, free_frame-Returns, new_owner-Returns,
  pin_mapping-Returns, retire_mapping-Returns,
}

pub data Call : Type 0 where
  owns : Call
  allocates : (owner : ℕ) → Kind → Call
  frees : Grant → Call
  pins : Grant → (owner address : ℕ) → Call
  retires : (owner frame address : ℕ) → Call

abbrev pub state_of {ℓ} : {R : Type ℓ} → Outcome (R × MemoryState) → Outcome MemoryState
state_of panicked = panicked
state_of (done x) = done x.1

abbrev pub step : ℕ → MemoryState → Call → Outcome MemoryState
step n s owns = state_of (new_owner s)
step n s (allocates owner kind) = state_of (alloc_frame n s owner kind)
step n s (frees g) = state_of (free_frame s g)
step n s (pins g owner address) = state_of (pin_mapping s g owner address)
step n s (retires owner frame address) = state_of (retire_mapping s owner frame address)

unfoldable pub run : ℕ → List Call → MemoryState → Outcome MemoryState
run n [] s = done s
run n (c ∷ calls) s = elim (step n s c) [ panicked ↦ panicked | done s' ↦ run n calls s' ]

-- The sequence of calls returned.
abbrev pub Joins : ℕ → ℕ → Outcome MemoryState → Type 0
Joins words n o = (s : MemoryState) × (o ≡ done s) × IsJoined words n s

Returns-Joins {ℓ} :
    {R : Type ℓ} (words n : ℕ) (o : Outcome (R × MemoryState))
    → Returns words n o
    → Joins words n (state_of o)
Returns-Joins words n o r = (r.0.1, ap state_of r.1, r.2)

step-Joins :
    (words n : ℕ) (s : MemoryState) (c : Call) → IsJoined words n s → Joins words n (step n s c)
step-Joins words n s owns j = Returns-Joins words n _ (new_owner-Returns words n s j)
step-Joins words n s (allocates owner kind) j =
    Returns-Joins words n _ (alloc_frame-Returns words n s j owner kind)
step-Joins words n s (frees g) j = Returns-Joins words n _ (free_frame-Returns words n s j g)
step-Joins words n s (pins g owner address) j =
    Returns-Joins words n _ (pin_mapping-Returns words n s j g owner address)
step-Joins words n s (retires owner frame address) j =
    Returns-Joins words n _ (retire_mapping-Returns words n s j owner frame address)

run-Joins :
    (words n : ℕ) (calls : List Call) (s : MemoryState)
    → IsJoined words n s
    → Joins words n (run n calls s)
unfolding run
run-Joins words n [] s j = (s, refl, j)
run-Joins words n (c ∷ calls) s j =
    let first = step-Joins words n s c j in
    let rest = run-Joins words n calls first.0 first.2 in
    (
      rest.0,
      ap (λ o. elim o [ panicked ↦ panicked | done s' ↦ run n calls s' ]) first.1 ∙ rest.1,
      rest.2,
    )

all-Backed :
    (a : FrameAllocator) (rs : List FrameRecord)
    → All (Backed a) rs
    → all (λ r. not (occupied r) || contains_live a r.address) rs ≡ true
all-Backed a [] h = refl
all-Backed a (r ∷ rs) h = elim (Bool-cases (occupied r)) [
  | inl used ↦ let live = h.0 used in ground (arith, live, all-Backed a rs h.1)
  | inr free ↦ ground (arith, all-Backed a rs h.1)
]

IsJoined-is_consistent :
    (words n : ℕ) (s : MemoryState) → IsJoined words n s → is_consistent words s ≡ true
unfolding is_consistent FrameGrant.is_consistent
IsJoined-is_consistent words n s j =
    let bitmap = IsValid-is_consistent words s.allocator j.agree.valid in
    ground (
      arith,
      bitmap,
      j.agree.live,
      j.ledger.counted,
      all-Backed s.allocator s.grants.records j.agree.backed,
    )

add_regions-keeps :
    (words : ℕ) (regions : List MemoryRegion) (a b : FrameAllocator)
    → IsValid words a
    → a.allocated_frames ≡ 0
    → add_regions words a regions ≡ done b
    → IsValid words b × (b.allocated_frames ≡ 0)
unfolding add_regions
add_regions-keeps words [] a b v idle e =
    let same : a ≡ b = ground arith in
    subst (λ y. IsValid words y × (y.allocated_frames ≡ 0)) same (v, idle)
add_regions-keeps words (region ∷ regions) a b v idle e =
    elim (Bool-cases (is_usable region.kind && not (add_region words a region).0)) [
      | inl refused ↦ absurd (cc (rw (refused, add_regions) at e))
      | inr added ↦
          add_regions-keeps words regions (add_region words a region).1 b
            (add_region-IsValid words a region v)
            (add_region-keeps (λ y. y.allocated_frames ≡ 0) words a region idle
              (λ start end total. idle))
            (rw (added, add_regions) at e)
    ]

finish_init-IsJoined :
    (words n : ℕ) (s s' : MemoryState) (o : Outcome FrameAllocator)
    → s.grants ≡ FrameGrant.new n
    → ((a : FrameAllocator) → o ≡ done a → IsValid words a × (a.allocated_frames ≡ 0))
    → finish_init words s o ≡ done s'
    → IsJoined words n s'
unfolding finish_init FrameGrant.new
finish_init-IsJoined words n s s' panicked fresh known e = absurd (cc)
finish_init-IsJoined words n s s' (done a) fresh known e =
    elim (Bool-cases (Physmem.is_consistent words a)) [
      | inr bad ↦ absurd (cc (rw (bad, finish_init) at e))
      | inl good ↦
          let same : record s { allocator = a; boot_started = true; ready = true } ≡ s' =
            ground (arith, rw (good, finish_init) at e) in
          subst (IsJoined words n) same (record {
            is_ready = refl;
            ledger = subst (FrameGrant.Invariant.IsValid n) (sym fresh) (new-IsValid n);
            agree =
                subst (λ l. Agree words l a) (sym fresh)
                  (record {
                    valid = (known a refl).0;
                    live = sym (known a refl).1;
                    backed = All-replicate (Backed a) n empty (λ used. absurd (cc));
                  });
          })
    ]

init_regions-IsJoined :
    (words n : ℕ) (regions : Result (List MemoryRegion)) (s : MemoryState)
    → init_regions words (start words n) regions ≡ done s
    → IsJoined words n s
unfolding init_regions start Physmem.new
init_regions-IsJoined words n (err refusal) s e = absurd (cc)
init_regions-IsJoined words n (ok regions) s e =
    finish_init-IsJoined words n (start words n) s (add_regions words (Physmem.new words) regions)
      refl
      (λ a h. add_regions-keeps words regions (Physmem.new words) a (new-IsValid' words) refl h) e

pub init-IsJoined :
    (words n : ℕ) (map : MemoryMapInfo) (s : MemoryState)
    → init words (start words n) map ≡ done s
    → IsJoined words n s
unfolding init start
init-IsJoined words n map s e = init_regions-IsJoined words n (validate_map map) s e

-- Once the memory is initialised, every sequence of calls returns: no assertion on what the bitmap
-- gives ever fails. After it the ledger and the bitmap are consistent, each and with one another.
pub run-consistent :
    (words n : ℕ) (map : MemoryMapInfo) (s : MemoryState) (calls : List Call)
    → init words (start words n) map ≡ done s
    → (s' : MemoryState) × (run n calls s ≡ done s') × (is_consistent words s' ≡ true)
run-consistent words n map s calls e =
    let joined = run-Joins words n calls s (init-IsJoined words n map s e) in
    (joined.0, joined.1, IsJoined-is_consistent words n joined.0 joined.2)
