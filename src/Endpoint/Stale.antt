-- ===== src/Endpoint/Stale.antt =====
-- A handle that is gone stays gone: every method either drops entries or issues one of a fresh
-- generation.
use gen_os.Common.{
  ℕ, zero, suc, ◌+◌, ◌<◌, ◌≤◌, ◌≡◌, refl, ap, sym, ◌∙◌, Bool, false, some, Option, none, arith,
  u32_max, ◌==◌, List, [], ◌∷◌, any, length, inl, inr, ◌⊎◌, Option-cases, subst,
}
use gen_os.Capability.{HandleTable}
use gen_os.Endpoint.{
  EndpointState, EndpointCapability, endpoint_handle, endpoint_handle_slot, handle_capacity,
}
use gen_os.Endpoint.Calls.{capability, slot_entry, capability_at}
use gen_os.Endpoint.Handles.{endpoint_handle-injective}

abbrev pub carries : ℕ → Option EndpointCapability → Bool
carries handle none = false
carries handle (some c) = c.handle == handle

pub record IsBounded (s : EndpointState) : Type 0 where
  pub owner : s.owner_pid < 256
  pub generations : s.next_generation ≤ u32_max + 1
  pub size : length s.handles ≡ handle_capacity

-- What one call does to the capabilities: only a handle of the next generation can appear.
pub record Evolves (s s' : EndpointState) : Type 0 where
  pub same_owner : s'.owner_pid ≡ s.owner_pid
  pub later : s.next_generation ≤ s'.next_generation
  pub bounded : s'.next_generation ≤ u32_max + 1
  pub same_size : length s'.handles ≡ handle_capacity
  pub fresh_only :
      (handle : ℕ)
      → any (carries handle) s.handles ≡ false
      → (any (carries handle) s'.handles ≡ false)
        ⊎ ((slot : ℕ) × (slot < handle_capacity)
            × (handle ≡ endpoint_handle s.owner_pid s.next_generation slot)
            × (s.next_generation < s'.next_generation))

pub Evolves-refl : (s : EndpointState) → IsBounded s → Evolves s s
Evolves-refl s b = record {
  same_owner = refl;
  later = omega arith;
  bounded = b.generations;
  same_size = b.size;
  fresh_only = λ handle h. inl h;
}

-- A call that leaves the owner, the counter and the slots alone, or only drops entries.
pub drops-Evolves :
    (s s' : EndpointState)
    → IsBounded s
    → s'.owner_pid ≡ s.owner_pid
    → s'.next_generation ≡ s.next_generation
    → length s'.handles ≡ length s.handles
    → ((handle : ℕ)
        → any (carries handle) s.handles ≡ false
        → any (carries handle) s'.handles ≡ false)
    → Evolves s s'
drops-Evolves s s' b o g l k = record {
  same_owner = o;
  later = omega arith;
  bounded = omega (arith, b.generations);
  same_size = l ∙ b.size;
  fresh_only = λ handle h. inl (k handle h);
}

-- Fields other than the owner, the counter and the slots do not matter.
pub Evolves-same :
    {s s' : EndpointState} (s'' : EndpointState)
    → s''.owner_pid ≡ s'.owner_pid
    → s''.next_generation ≡ s'.next_generation
    → s''.handles ≡ s'.handles
    → Evolves s s'
    → Evolves s s''
Evolves-same {s} s'' o g k e = record {
  same_owner = o ∙ e.same_owner;
  later = omega (arith, e.later);
  bounded = omega (arith, e.bounded);
  same_size = ap length k ∙ e.same_size;
  fresh_only = λ handle h. elim (e.fresh_only handle h) [
    | inl gone ↦ inl (subst (λ xs. any (carries handle) xs ≡ false) (sym k) gone)
    | inr (slot, small, same, rises) ↦ inr (slot, small, same, omega arith)
  ];
}

-- A handle that was issued before and stands in no slot.
pub record Stale (s : EndpointState) (handle : ℕ) : Type 0 where
  pub generation : ℕ
  pub slot : ℕ
  pub in_table : slot < handle_capacity
  pub past : generation < s.next_generation
  pub numbered : handle ≡ endpoint_handle s.owner_pid generation slot
  pub absent : any (carries handle) s.handles ≡ false

pub Evolves-IsBounded : {s s' : EndpointState} → IsBounded s → Evolves s s' → IsBounded s'
Evolves-IsBounded b e = record {
  owner = omega (arith, e.same_owner, b.owner);
  generations = e.bounded;
  size = e.same_size;
}

pub Evolves-Stale :
    {s s' : EndpointState} (handle : ℕ)
    → IsBounded s
    → Evolves s s'
    → Stale s handle
    → Stale s' handle
Evolves-Stale {s} {s'} handle b e z = record {
  generation = z.generation;
  slot = z.slot;
  in_table = z.in_table;
  past = omega (arith, z.past, e.later);
  numbered = z.numbered ∙ ap (λ p. endpoint_handle p z.generation z.slot) (sym e.same_owner);
  absent = elim (e.fresh_only handle z.absent) [
    | inl gone ↦ gone
    | inr (slot, small, same, rises) ↦
        let same_generation =
          endpoint_handle-injective s.owner_pid z.generation s.next_generation z.slot slot b.owner
            (omega (arith, z.past, b.generations)) (omega (arith, rises, e.bounded)) z.in_table
            small (sym z.numbered ∙ same) in
        absurd (omega (arith, same_generation.0, z.past))
  ];
}

-- The number that a state would resolve stands in one of its slots.
capability_slot :
    (s : EndpointState) (t : HandleTable) (handle slot : ℕ) (xs : List (Option EndpointCapability))
    (i : ℕ)
    → any (carries handle) xs ≡ false
    → capability_at s t handle slot (slot_entry xs i) ≡ none
capability_slot s t handle slot [] i h = refl
capability_slot s t handle slot (none ∷ xs) zero h = refl
capability_slot s t handle slot (some c ∷ xs) zero h = ground arith
capability_slot s t handle slot (x ∷ xs) (suc i) h =
    capability_slot s t handle slot xs i (ground arith)

pub capability_absent :
    (s : EndpointState) (t : HandleTable) (handle : ℕ)
    → any (carries handle) s.handles ≡ false
    → capability s t handle ≡ none
unfolding capability
capability_absent s t handle h = elim (Option-cases (endpoint_handle_slot handle)) [
  | inl e ↦ rw (e, capability)
  | inr (slot, e) ↦ rw (e, capability) (capability_slot s t handle slot s.handles slot h)
]
