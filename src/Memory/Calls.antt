-- ===== src/Memory/Calls.antt =====
-- The calls of the physical memory keep its ledger and its bitmap together, and return.
use gen_os.Common.{
  ℕ, ◌≡◌, ap, sym, ◌∙◌, inl, inr, true, ◌||◌, not, ◌==◌, if◌then◌else◌, set, checked_add,
  Bool-cases, Option-cases, All-set, All-get_or,
}
use gen_os.FrameGrant.{
  Ledger, FrameRecord, Grant, Kind, Outcome, panicked, done, empty, occupied, user, bind, retire,
  retire_at, find, refuses_bind, record_at, allocate, release,
}
use gen_os.FrameGrant
use gen_os.FrameGrant.History.{owners, allocates, binds, retires, releases, ledger_of, Ensures-done}
use gen_os.FrameGrant.History
use gen_os.FrameGrant.Invariant.{IsValid, step-IsValid}
use gen_os.Memory.{
  MemoryState, with_ready_state, take_frame, give_frame, alloc_frame, free_frame, new_owner,
  pin_mapping, retire_mapping, rebuilt,
}
use gen_os.Memory.Ledger.{forget, allocate-forget, release-forget}
use gen_os.Memory.Invariant.{Agree, Backed, allocate-Fine}
use gen_os.Memory.Release.{release-Agree}

pub record IsJoined (words n : ℕ) (s : MemoryState) : Type 0 where
  pub is_ready : s.ready ≡ true
  pub ledger : IsValid n s.grants
  pub agree : Agree words s.grants s.allocator

-- The call returned, in a state in which the ledger and the bitmap agree.
abbrev pub Returns {ℓ} : {R : Type ℓ} → ℕ → ℕ → Outcome (R × MemoryState) → Type ℓ
Returns {R = R} words n o = (x : R × MemoryState) × (o ≡ done x) × IsJoined words n x.1

with_ready_state-ready {ℓ} :
    {R : Type ℓ} (s : MemoryState) (o : Outcome R) → s.ready ≡ true → with_ready_state s o ≡ o
unfolding with_ready_state
with_ready_state-ready s o e = ap (λ b. if b then o else panicked) e

module _ (words n : ℕ) (s : MemoryState) (j : IsJoined words n s) where
  pub alloc_frame-Returns : (owner : ℕ) (kind : Kind) → Returns words n (alloc_frame n s owner kind)
  unfolding alloc_frame
  alloc_frame-Returns owner kind =
      let fine = allocate-Fine words n s.grants owner kind s.allocator j.agree in
      let supplied = (take_frame s.allocator).0 in
      let stepped : FrameGrant.History.step n s.grants (allocates owner kind supplied)
          ≡ done fine.0.1 =
        sym (allocate-forget s.grants owner kind n take_frame s.allocator) ∙ ap forget fine.1 in
      (
        (fine.0.0, record s { grants = fine.0.1; allocator = fine.0.2 }),
        with_ready_state-ready s _ j.is_ready ∙ ap (rebuilt s) fine.1,
        record {
          is_ready = j.is_ready;
          ledger =
              Ensures-done (IsValid n) _ fine.0.1
                (step-IsValid n s.grants (allocates owner kind supplied) j.ledger) stepped;
          agree = fine.2;
        },
      )

  pub free_frame-Returns : (g : Grant) → Returns words n (free_frame s g)
  unfolding free_frame
  free_frame-Returns g =
      let out = release s.grants g give_frame s.allocator in
      let prepared = (give_frame g.address s.allocator).0 in
      let stepped = sym (release-forget n s.grants g give_frame s.allocator) in
      (
        (out.0, record s { grants = out.1; allocator = out.2 }),
        with_ready_state-ready s _ j.is_ready,
        record {
          is_ready = j.is_ready;
          ledger =
              Ensures-done (IsValid n) _ out.1
                (step-IsValid n s.grants (releases g prepared) j.ledger) stepped;
          agree = (release-Agree words n s.grants g s.allocator j.ledger j.agree).1;
        },
      )

  -- A change of what a record maps.
  mapped-Agree :
      (slot mapped : ℕ)
      → Agree words
          (record s.grants {
            records =
                set s.grants.records slot (record (record_at s.grants slot) { mapped_at = mapped });
          })
          s.allocator
  mapped-Agree slot mapped = record {
    valid = j.agree.valid;
    live = j.agree.live;
    backed =
        All-set (Backed s.allocator) s.grants.records slot _
          (All-get_or (Backed s.allocator) s.grants.records slot empty (λ used. absurd (cc))
            j.agree.backed)
          j.agree.backed;
  }

  counters-Agree : (denied : ℕ) → Agree words (record s.grants { denied = denied }) s.allocator
  counters-Agree denied = record {
    valid = j.agree.valid;
    live = j.agree.live;
    backed = j.agree.backed;
  }

  bind-Agree :
      (g : Grant) (owner address : ℕ) → Agree words (bind s.grants g owner address).1 s.allocator
  unfolding bind
  bind-Agree g owner address = elim (Bool-cases (refuses_bind s.grants g owner address)) [
    | inl refused ↦ rw (refused, bind) (counters-Agree _)
    | inr bound ↦ rw (bound, bind) (mapped-Agree g.slot address)
  ]

  retire-Agree :
      (owner frame address : ℕ) → Agree words (retire s.grants owner frame address).1 s.allocator
  unfolding retire retire_at
  retire-Agree owner frame address = elim (Option-cases (find s.grants owner frame user)) [
    | inl e ↦ rw (e, retire) j.agree
    | inr (g, e) ↦
        rw (e, retire)
          (elim (Bool-cases
            (address == 0 || not ((record_at s.grants g.slot).mapped_at == address))) [
              | inl refused ↦ rw (refused, retire_at) j.agree
              | inr mapped ↦ rw (mapped, retire_at) (mapped-Agree g.slot 0)
            ])
  ]

  new_owner-Agree : Agree words (FrameGrant.new_owner s.grants).1 s.allocator
  unfolding FrameGrant.new_owner
  new_owner-Agree = elim (Option-cases (checked_add s.grants.next_owner 1)) [
    | inl e ↦ rw (e, FrameGrant.new_owner) j.agree
    | inr (next, e) ↦
        rw (e, FrameGrant.new_owner)
          (record { valid = j.agree.valid; live = j.agree.live; backed = j.agree.backed })
  ]

  pub new_owner-Returns : Returns words n (new_owner s)
  unfolding new_owner FrameGrant.History.step
  new_owner-Returns = (
    ((FrameGrant.new_owner s.grants).0, record s { grants = (FrameGrant.new_owner s.grants).1 }),
    with_ready_state-ready s _ j.is_ready,
    record {
      is_ready = j.is_ready;
      ledger = step-IsValid n s.grants owners j.ledger;
      agree = new_owner-Agree;
    },
  )

  pub pin_mapping-Returns :
      (g : Grant) (owner address : ℕ) → Returns words n (pin_mapping s g owner address)
  unfolding pin_mapping FrameGrant.History.step
  pin_mapping-Returns g owner address = (
    ((bind s.grants g owner address).0, record s { grants = (bind s.grants g owner address).1 }),
    with_ready_state-ready s _ j.is_ready,
    record {
      is_ready = j.is_ready;
      ledger = step-IsValid n s.grants (binds g owner address) j.ledger;
      agree = bind-Agree g owner address;
    },
  )

  pub retire_mapping-Returns :
      (owner frame address : ℕ) → Returns words n (retire_mapping s owner frame address)
  unfolding retire_mapping FrameGrant.History.step
  retire_mapping-Returns owner frame address = (
    (
      (retire s.grants owner frame address).0,
      record s { grants = (retire s.grants owner frame address).1 },
    ),
    with_ready_state-ready s _ j.is_ready,
    record {
      is_ready = j.is_ready;
      ledger = step-IsValid n s.grants (retires owner frame address) j.ledger;
      agree = retire-Agree owner frame address;
    },
  )
