-- ===== src/Endpoint/Closing.antt =====
-- Closing, revoking and clearing keep the endpoint table and the registry in agreement, so every
-- sequence of calls does.
use gen_os.Common.{
  ℕ, zero, suc, ◌+◌, ◌<◌, ◌≤◌, ◌≡◌, refl, ap, ap₂, sym, ◌∙◌, ◌≢◌, true, false, some, Option, none,
  arith, u32_max, if◌then◌else◌, List, [], ◌∷◌, any, set, length, length-set, inl, inr, Bool-cases,
  Option-cases, subst,
}
use gen_os.Capability
use gen_os.Capability.{
  HandleTable, HandleEntry, HandleKind, kind_eq, discriminant, file, endpoint_receive,
  endpoint_send, names,
}
use gen_os.Capability.Authority.{authority, unregister_refines}
use gen_os.Capability.Invariant.{IsValid, unregister-IsValid}
use gen_os.Endpoint.{
  EndpointState, EndpointCapability, EndpointRole, receives, sends, endpoint_handle_slot,
  handle_capacity, published_generation, is_generation, new, role_kind,
}
use gen_os.Endpoint.Calls.{capability, names_target, slot_entry, resolves, registry_is_consistent}
use gen_os.Endpoint.Stale.{carries}
use gen_os.Endpoint.Consistent.{Placed, AllPlaced, Consistent, registry_is_consistent_lem}
use gen_os.Endpoint.Placement.{Placed-apart, Placed-absent, AllPlaced-keep, AllPlaced-drop}
use gen_os.Endpoint.Calls.{
  close, close_role, release, revoke_send_handles, revoke_loop, clear, clear_payload, clear_loop,
  enqueue, enqueue_at, pop_message, park_receive, clear_pending_receive,
}
use gen_os.Endpoint.Evolution.{
  Call, creates, clears, pops, unparks, allocates, closes, revokes, parks, enqueues, World, step,
  run, length-revoke_loop,
}
use gen_os.Endpoint.Preserve.{Consistent-same, allocate-Consistent, create-Consistent}

module _ (n : ℕ) (s : EndpointState) (t : HandleTable) (k : Consistent n s t) where
  -- The registry after `unregister` of a capability.
  abbrev without : EndpointCapability → HandleTable
  without c = (Capability.unregister t c.handle (role_kind c.role)).1

  unregister_same :
      (r : ℕ) (c d : EndpointCapability) (i : ℕ)
      → r < handle_capacity
      → Placed s.owner_pid s.next_generation t r c
      → i ≢ r
      → i < handle_capacity
      → Placed s.owner_pid s.next_generation t i d
      → authority (without c) d.handle ≡ authority t d.handle
  unregister_same r c d i hr p ne hi q =
      let apart : c.handle ≢ d.handle =
        Placed-apart s.owner_pid k.owner s.next_generation k.generations t t s.next_generation r i c
          d k.generations hr hi (λ e. ne (sym e)) p q in
      (unregister_refines n t c.handle (role_kind c.role) k.valid).1 d.handle ∙ ground arith

  pub removed-Consistent :
      (r : ℕ) (c : EndpointCapability)
      → r < handle_capacity
      → Placed s.owner_pid s.next_generation t r c
      → Consistent n (record s { handles = set s.handles r none }) (without c)
  removed-Consistent r c hr p = record {
    valid = unregister-IsValid n t c.handle (role_kind c.role) k.valid;
    owner = k.owner;
    generations = k.generations;
    size = length-set s.handles r none ∙ k.size;
    placed =
        AllPlaced-drop s.owner_pid k.owner s.next_generation k.generations t (without c) r 0 r
          s.handles (omega arith) (omega (arith, k.size))
          (λ i d ne hi q. unregister_same r c d i hr p ne hi q) k.placed;
  }

  pub kept-Consistent :
      (c : EndpointCapability)
      → (Capability.unregister t c.handle (role_kind c.role)).0 ≡ false
      → Consistent n s (without c)
  kept-Consistent c refused = record {
    valid = unregister-IsValid n t c.handle (role_kind c.role) k.valid;
    owner = k.owner;
    generations = k.generations;
    size = k.size;
    placed =
        AllPlaced-keep s.owner_pid k.owner s.next_generation k.generations t s.next_generation
          (without c) 0 s.handles (omega arith) (omega (arith, k.size))
          (λ i d low hi q.
            (unregister_refines n t c.handle (role_kind c.role) k.valid).1 d.handle ∙ rw refused)
          k.placed;
  }

  -- What `capability` returns stands in the slot of its own field, and is placed there.
  pub slot_entry-Placed :
      (i slot : ℕ) (xs : List (Option EndpointCapability)) (c : EndpointCapability)
      → AllPlaced s.owner_pid s.next_generation t i xs
      → slot_entry xs slot ≡ some c
      → (i + slot < i + length xs) × Placed s.owner_pid s.next_generation t (i + slot) c
  slot_entry-Placed i slot [] c p e = absurd (cc)
  slot_entry-Placed i zero (none ∷ xs) c p e = absurd (cc)
  slot_entry-Placed i zero (some d ∷ xs) c p e =
      let at : i ≡ i + 0 = omega arith in
      let same : d ≡ c = ground arith in
      (
        omega arith,
        subst (λ x. Placed s.owner_pid s.next_generation t (i + 0) x) same
            (subst (λ j. Placed s.owner_pid s.next_generation t j d) at p.0),
      )
  slot_entry-Placed i (suc slot) (none ∷ xs) c p e =
      let at : suc i + slot ≡ i + suc slot = omega arith in
      let r = slot_entry-Placed (suc i) slot xs c p e in
      (omega (arith, r.0), subst (λ j. Placed s.owner_pid s.next_generation t j c) at r.1)
  slot_entry-Placed i (suc slot) (some d ∷ xs) c p e =
      let at : suc i + slot ≡ i + suc slot = omega arith in
      let r = slot_entry-Placed (suc i) slot xs c p.1 e in
      (omega (arith, r.0), subst (λ j. Placed s.owner_pid s.next_generation t j c) at r.1)

-- What a resolved handle tells: its capability stands in the slot that the handle names.
pub capability_found :
    (s : EndpointState) (t : HandleTable) (handle : ℕ) (c : EndpointCapability)
    → capability s t handle ≡ some c
    → (slot : ℕ) × (slot_entry s.handles slot ≡ some c) × (c.handle ≡ handle)
unfolding capability
capability_found s t handle c e = elim (Option-cases (endpoint_handle_slot handle)) [
  | inl none_named ↦ absurd (cc (rw (none_named, capability) at e))
  | inr (slot, named) ↦ elim (Option-cases (slot_entry s.handles slot)) [
    | inl none_there ↦ absurd (cc (rw (none_there) at (rw (named, capability) at e)))
    | inr (d, there) ↦
        let checked : (if resolves s t handle slot d then some d else none) ≡ some c =
          rw there at (rw (named, capability) at e) in
        let same : d ≡ c = ground arith in
        let numbered : d.handle ≡ handle = ground arith in
        (slot, there ∙ ap some same, subst (λ x. x.handle ≡ handle) same numbered)
  ]
]

module _ (n : ℕ) (s : EndpointState) (t : HandleTable) (k : Consistent n s t) where
  release-Placed :
      (s' : EndpointState) (slot : ℕ) (c : EndpointCapability)
      → s'.owner_pid ≡ s.owner_pid
      → s'.next_generation ≡ s.next_generation
      → s'.handles ≡ s.handles
      → slot < handle_capacity
      → Placed s.owner_pid s.next_generation t slot c
      → Consistent n (release s' t c.handle c).1 (release s' t c.handle c).2
  unfolding release
  release-Placed s' slot c o g h small p =
      elim (Bool-cases (Capability.unregister t c.handle (role_kind c.role)).0) [
        | inl e ↦
            rw (e, release)
              (Consistent-same n (record s { handles = set s.handles slot none }) _ _ o g
                (ap₂ (λ xs r. set xs r none) h p.at_slot)
                (removed-Consistent n s t k slot c small p))
        | inr e ↦ rw (e, release) (Consistent-same n s s' _ o g h (kept-Consistent n s t k c e))
      ]

  close_role-Consistent :
      (slot : ℕ) (c : EndpointCapability) (role : EndpointRole)
      → slot < handle_capacity
      → Placed s.owner_pid s.next_generation t slot c
      → Consistent n (close_role s t c.handle c role).1 (close_role s t c.handle c role).2
  unfolding close_role
  close_role-Consistent slot c (sends pid generation) small p =
      release-Placed s slot c refl refl refl small p
  close_role-Consistent slot c (receives generation) small p =
      elim (Bool-cases (is_generation (published_generation s) generation)) [
        | inl e ↦
            rw (e, close_role)
              (release-Placed (record s { published = none; pending_receive = none }) slot c refl
                refl refl small p)
        | inr e ↦ rw (e, close_role) k
      ]

  pub close-Consistent : (handle : ℕ) → Consistent n (close s t handle).1 (close s t handle).2
  unfolding close
  close-Consistent handle = elim (Option-cases (capability s t handle)) [
    | inl e ↦ rw (e, close) k
    | inr (c, e) ↦
        let found = capability_found s t handle c e in
        let placed = slot_entry-Placed n s t k 0 found.0 s.handles c k.placed found.1 in
        rw (e, close)
          (subst (λ h. Consistent n (close_role s t h c c.role).1 (close_role s t h c c.role).2)
            found.2
            (close_role-Consistent (0 + found.0) c c.role (omega (arith, placed.0, k.size))
              placed.1))
  ]

module _ (n pid generation : ℕ) where
  revoke_loop-valid :
      (xs : List (Option EndpointCapability)) (t : HandleTable) (m : ℕ)
      → IsValid n t
      → IsValid n (revoke_loop pid generation xs t m).2
  unfolding revoke_loop
  revoke_loop-valid [] t m v = v
  revoke_loop-valid (none ∷ xs) t m v = revoke_loop-valid xs t m v
  revoke_loop-valid (some c ∷ xs) t m v = elim (Bool-cases (names_target pid generation (some c))) [
    | inl e ↦
        rw e (revoke_loop-valid xs _ (m + 1) (unregister-IsValid n t c.handle endpoint_send v))
    | inr e ↦ rw e (revoke_loop-valid xs t m v)
  ]

  -- Revocation touches no other number's authority.
  pub revoke_loop-authority :
      (xs : List (Option EndpointCapability)) (t : HandleTable) (m j : ℕ)
      → IsValid n t
      → any (carries j) xs ≡ false
      → authority (revoke_loop pid generation xs t m).2 j ≡ authority t j
  unfolding revoke_loop
  revoke_loop-authority [] t m j v h = refl
  revoke_loop-authority (none ∷ xs) t m j v h = revoke_loop-authority xs t m j v h
  revoke_loop-authority (some c ∷ xs) t m j v h =
      elim (Bool-cases (names_target pid generation (some c))) [
        | inl e ↦ rw e (
            revoke_loop-authority xs _ (m + 1) j (unregister-IsValid n t c.handle endpoint_send v)
              (ground arith)
            ∙ (unregister_refines n t c.handle endpoint_send v).1 j
            ∙ ground arith)
        | inr e ↦ rw e (revoke_loop-authority xs t m j v (ground arith))
      ]

  module _ (owner_pid : ℕ) (owned : owner_pid < 256) (next : ℕ) (bounded : next ≤ u32_max + 1) where
    revoke_loop-AllPlaced :
        (i : ℕ) (xs : List (Option EndpointCapability)) (t : HandleTable) (m : ℕ)
        → IsValid n t
        → i + length xs ≤ handle_capacity
        → AllPlaced owner_pid next t i xs
        → AllPlaced owner_pid next
            (revoke_loop pid generation xs t m).2
            i
            (revoke_loop pid generation xs t m).1
    unfolding revoke_loop
    revoke_loop-AllPlaced i [] t m v fits p = tt
    revoke_loop-AllPlaced i (none ∷ xs) t m v fits p =
        revoke_loop-AllPlaced (suc i) xs t m v (omega arith) p
    revoke_loop-AllPlaced i (some c ∷ xs) t m v fits p =
        elim (Bool-cases (names_target pid generation (some c))) [
          | inl e ↦ rw e (
              revoke_loop-AllPlaced (suc i) xs (Capability.unregister t c.handle endpoint_send).1
                (m + 1) (unregister-IsValid n t c.handle endpoint_send v) (omega arith)
                (AllPlaced-keep owner_pid owned next bounded t next
                  (Capability.unregister t c.handle endpoint_send).1 (suc i) xs (omega arith)
                  (omega arith)
                  (λ j d low hj q.
                    let apart =
                      Placed-apart owner_pid owned next bounded t t next i j c d bounded
                        (omega arith) hj (omega arith) p.0 q in
                    (unregister_refines n t c.handle endpoint_send v).1 d.handle ∙ ground arith)
                  p.1))
          | inr e ↦ rw e (
            record {
              at_slot = p.0.at_slot;
              owned = p.0.owned;
              numbered = p.0.numbered;
              past = p.0.past;
              authorised =
                  revoke_loop-authority xs t m c.handle v (
                    Placed-absent owner_pid owned next bounded t i (suc i) c xs (omega arith)
                      (omega arith) p.0 p.1)
                  ∙ p.0.authorised;
            },
            revoke_loop-AllPlaced (suc i) xs t m v (omega arith) p.1,
          )
        ]

pub clear_loop-valid :
    (n : ℕ) (xs : List (Option EndpointCapability)) (t : HandleTable)
    → IsValid n t
    → IsValid n (clear_loop xs t)
unfolding clear_loop
clear_loop-valid n [] t v = v
clear_loop-valid n (none ∷ xs) t v = clear_loop-valid n xs t v
clear_loop-valid n (some c ∷ xs) t v =
    clear_loop-valid n xs _ (unregister-IsValid n t c.handle (role_kind c.role) v)

module _ (n : ℕ) (s : EndpointState) (t : HandleTable) (k : Consistent n s t) where
  pub revoke-Consistent :
      (pid generation : ℕ)
      → Consistent n
          (revoke_send_handles s t pid generation).1
          (revoke_send_handles s t pid generation).2
  unfolding revoke_send_handles
  revoke-Consistent pid generation = record {
    valid = revoke_loop-valid n pid generation s.handles t 0 k.valid;
    owner = k.owner;
    generations = k.generations;
    size = length-revoke_loop pid generation s.handles t 0 ∙ k.size;
    placed =
        revoke_loop-AllPlaced n pid generation s.owner_pid k.owner s.next_generation k.generations 0
          s.handles t 0 k.valid (omega (arith, k.size)) k.placed;
  }

  pub clear-Consistent : Consistent n (clear s t).0 (clear s t).1
  unfolding clear clear_payload
  clear-Consistent = record {
    valid = clear_loop-valid n s.handles t k.valid;
    owner = k.owner;
    generations = k.generations;
    size = refl;
    placed = tt;
  }

pub step-Consistent :
    (n : ℕ) (w : World) (c : Call) → Consistent n w.0 w.1 → Consistent n (step w c).0 (step w c).1
unfolding step clear_pending_receive park_receive enqueue enqueue_at pop_message
step-Consistent n (s, t) creates k = create-Consistent n s t k
step-Consistent n (s, t) clears k = clear-Consistent n s t k
step-Consistent n (s, t) pops k =
    Consistent-same n s (pop_message s).1 t (ground arith) (ground arith) (ground arith) k
step-Consistent n (s, t) unparks k =
    Consistent-same n s (clear_pending_receive s) t refl refl refl k
step-Consistent n (s, t) (allocates role) k = allocate-Consistent n s t k role
step-Consistent n (s, t) (closes handle) k = close-Consistent n s t k handle
step-Consistent n (s, t) (revokes pid generation) k = revoke-Consistent n s t k pid generation
step-Consistent n (s, t) (parks pending) k =
    Consistent-same n s (park_receive s t pending).1 t (ground arith) (ground arith) (ground arith)
      k
step-Consistent n (s, t) (enqueues m) k =
    Consistent-same n s (enqueue s m).1 t (ground arith) (ground arith) (ground arith) k

pub run-Consistent :
    (n : ℕ) (w : World) (cs : List Call)
    → Consistent n w.0 w.1
    → Consistent n (run w cs).0 (run w cs).1
unfolding run
run-Consistent n (s, t) [] k = k
run-Consistent n w (c ∷ cs) k = run-Consistent n (step w c) cs (step-Consistent n w c k)

pub new-Consistent :
    (n owner_pid : ℕ) (t : HandleTable)
    → owner_pid < 256
    → IsValid n t
    → Consistent n (new owner_pid) t
unfolding new
new-Consistent n owner_pid t h v = record {
  valid = v;
  owner = h;
  generations = omega arith;
  size = refl;
  placed = tt;
}

-- A process that starts with a new endpoint state and any valid registry passes the code's own
-- consistency check after any sequence of endpoint calls, successful or refused: every capability
-- resolves from its own handle to itself, and no endpoint handle is usable as a file.
pub run-registry_is_consistent :
    (n owner_pid : ℕ) (t : HandleTable) (cs : List Call)
    → owner_pid < 256
    → IsValid n t
    → registry_is_consistent (run (new owner_pid, t) cs).0 (run (new owner_pid, t) cs).1 ≡ true
run-registry_is_consistent n owner_pid t cs h v =
    registry_is_consistent_lem n (run (new owner_pid, t) cs).0 (run (new owner_pid, t) cs).1
      (run-Consistent n (new owner_pid, t) cs (new-Consistent n owner_pid t h v))
