-- ===== src/Endpoint/Authority.antt =====
-- What a single call on the endpoint grants or takes away.
use gen_os.Common.{
  ℕ, zero, suc, ◌+◌, ◌<◌, ◌≤◌, ◌≡◌, refl, ap, ap₂, sym, ◌∙◌, ◌≢◌, false, some, Option, none, arith,
  if◌then◌else◌, List, [], ◌∷◌, any, set, length, inl, inr, Bool-cases, Option-cases, subst,
}
use gen_os.Capability
use gen_os.Capability.{
  HandleTable, HandleEntry, HandleKind, kind_eq, discriminant, file, endpoint_receive,
  endpoint_send, names,
}
use gen_os.Endpoint.{
  EndpointState, EndpointCapability, EndpointRole, receives, sends, endpoint_handle,
  handle_capacity, published_generation, is_generation, role_kind,
}
use gen_os.Endpoint.Calls.{capability, names_target, unregister_entry, slot_entry}
use gen_os.Endpoint.Stale.{carries}
use gen_os.Endpoint.Consistent.{Placed, AllPlaced, Consistent}
use gen_os.Endpoint.Placement.{Placed-apart, Placed-absent}
use gen_os.Endpoint.Calls.{close, close_role, release, revoke_send_handles, revoke_loop}
use gen_os.Endpoint.Evolution.{Call, closes, step, run, Stale-forever}
use gen_os.Endpoint.Stale.{Stale}
use gen_os.Endpoint.Closing.{capability_found, slot_entry-Placed, close-Consistent}
use gen_os.Common.{map, count}

-- The slots after a revocation: those that name the target are free, the others untouched.
abbrev pub revoked : ℕ → ℕ → Option EndpointCapability → Option EndpointCapability
revoked pid generation entry = if names_target pid generation entry then none else entry

revoke_loop_lem :
    (pid generation : ℕ) (xs : List (Option EndpointCapability)) (t : HandleTable) (m : ℕ)
    → ((revoke_loop pid generation xs t m).0 ≡ m + count (names_target pid generation) xs)
      × ((revoke_loop pid generation xs t m).1 ≡ map (revoked pid generation) xs)
unfolding revoke_loop
revoke_loop_lem pid generation [] t m = (omega arith, refl)
revoke_loop_lem pid generation (x ∷ xs) t m =
    let hit = names_target pid generation x in
    let rest =
      revoke_loop_lem pid generation xs (if hit then unregister_entry x endpoint_send t else t)
        (if hit then m + 1 else m) in
    (rest.0 ∙ ground arith, ap (◌∷◌ (revoked pid generation x)) rest.1)

-- `revoke_send_handles` frees exactly the slots of send capabilities that name the target pid and
-- generation, returns how many those were, and changes no other field of the state.
pub revoke_send_handles_lem :
    (s : EndpointState) (t : HandleTable) (pid generation : ℕ)
    → ((revoke_send_handles s t pid generation).0 ≡ count (names_target pid generation) s.handles)
      × ((revoke_send_handles s t pid generation).1
          ≡ record s { handles = map (revoked pid generation) s.handles })
unfolding revoke_send_handles
revoke_send_handles_lem s t pid generation =
    let r = revoke_loop_lem pid generation s.handles t 0 in
    (r.0 ∙ omega arith, ap (λ xs. record s { handles = xs }) r.1)

module _ (n : ℕ) (s : EndpointState) (t : HandleTable) (k : Consistent n s t) where
  -- Clearing the slot of a capability leaves its number in no slot.
  cleared-absent :
      (i slot : ℕ) (xs : List (Option EndpointCapability)) (c : EndpointCapability)
      → i + length xs ≤ handle_capacity
      → AllPlaced s.owner_pid s.next_generation t i xs
      → slot_entry xs slot ≡ some c
      → any (carries c.handle) (set xs slot none) ≡ false
  cleared-absent i slot [] c fits p e = refl
  cleared-absent i zero (none ∷ xs) c fits p e = absurd (cc)
  cleared-absent i zero (some d ∷ xs) c fits p e =
      let same : d ≡ c = ground arith in
      subst (λ x. any (carries x.handle) xs ≡ false) same
        (Placed-absent s.owner_pid k.owner s.next_generation k.generations t i (suc i) d xs
          (omega arith) (omega arith) p.0 p.1)
  cleared-absent i (suc slot) (none ∷ xs) c fits p e =
      cleared-absent (suc i) slot xs c (omega arith) p e
  cleared-absent i (suc slot) (some d ∷ xs) c fits p e =
      let there = slot_entry-Placed n s t k (suc i) slot xs c p.1 e in
      let apart : d.handle ≢ c.handle =
        Placed-apart s.owner_pid k.owner s.next_generation k.generations t t s.next_generation i
          (suc i + slot) d c k.generations (omega arith) (omega (arith, there.0)) (omega arith) p.0
          there.1 in
      ground (arith, cleared-absent (suc i) slot xs c (omega arith) p.1 e)

  release-Stale :
      (s' : EndpointState) (slot : ℕ) (c : EndpointCapability) (role : EndpointRole)
      → s'.owner_pid ≡ s.owner_pid
      → s'.next_generation ≡ s.next_generation
      → s'.handles ≡ s.handles
      → slot < handle_capacity
      → slot_entry s.handles slot ≡ some c
      → Placed s.owner_pid s.next_generation t slot c
      → (release s' t c.handle c).0 ≡ some role
      → Stale (release s' t c.handle c).1 c.handle
  unfolding release
  release-Stale s' slot c role o g h small there p e =
      elim (Bool-cases (Capability.unregister t c.handle (role_kind c.role)).0) [
        | inl done ↦
            rw (done, release)
              (record {
                generation = c.generation;
                slot = slot;
                in_table = small;
                past = omega (arith, p.past);
                numbered = p.numbered ∙ ap (λ a. endpoint_handle a c.generation slot) (sym o);
                absent =
                    subst (λ xs. any (carries c.handle) xs ≡ false)
                      (ap₂ (λ xs r. set xs r none) (sym h) (sym p.at_slot))
                      (cleared-absent 0 slot s.handles c (omega (arith, k.size)) k.placed there);
              })
        | inr kept ↦ absurd (cc (rw (kept, release) at e))
      ]

  close_role-Stale :
      (slot : ℕ) (c : EndpointCapability) (role role' : EndpointRole)
      → slot < handle_capacity
      → slot_entry s.handles slot ≡ some c
      → Placed s.owner_pid s.next_generation t slot c
      → (close_role s t c.handle c role).0 ≡ some role'
      → Stale (close_role s t c.handle c role).1 c.handle
  unfolding close_role
  close_role-Stale slot c (sends pid generation) role' small there p e =
      release-Stale s slot c role' refl refl refl small there p e
  close_role-Stale slot c (receives generation) role' small there p e =
      elim (Bool-cases (is_generation (published_generation s) generation)) [
        | inl now ↦
            rw (now, close_role)
              (release-Stale (record s { published = none; pending_receive = none }) slot c role'
                refl refl refl small there p (rw (now, close_role) at e))
        | inr other ↦ absurd (cc (rw (other, close_role) at e))
      ]

  close-Stale :
      (handle : ℕ) (role : EndpointRole)
      → (close s t handle).0 ≡ some role
      → Stale (close s t handle).1 handle
  unfolding close
  close-Stale handle role e = elim (Option-cases (capability s t handle)) [
    | inl gone ↦ absurd (cc (rw (gone, close) at e))
    | inr (c, there) ↦
        let found = capability_found s t handle c there in
        let placed = slot_entry-Placed n s t k 0 found.0 s.handles c k.placed found.1 in
        let here : slot_entry s.handles (0 + found.0) ≡ some c =
          ap (slot_entry s.handles) (omega arith) ∙ found.1 in
        let closed : (close_role s t handle c c.role).0 ≡ some role = rw (there, close) at e in
        rw (there, close)
          (subst (λ h. Stale (close_role s t h c c.role).1 h) found.2
            (close_role-Stale (0 + found.0) c c.role role (omega (arith, placed.0, k.size)) here
              placed.1
              (subst (λ h. (close_role s t h c c.role).0 ≡ some role) (sym found.2) closed)))
  ]

  -- A handle that `close` accepted never resolves again, whatever calls follow: the slot may be
  -- reused, the endpoint published anew and the registry filled, but the number stays dead.
  pub closed_never_resolves :
      (handle : ℕ) (role : EndpointRole) (cs : List Call)
      → (close s t handle).0 ≡ some role
      → capability
          (run (step (s, t) (closes handle)) cs).0
          (run (step (s, t) (closes handle)) cs).1
          handle
        ≡ none
  unfolding step
  closed_never_resolves handle role cs e =
      let c = close-Consistent n s t k handle in
      Stale-forever ((close s t handle).1, (close s t handle).2) cs handle
        (record { owner = c.owner; generations = c.generations; size = c.size })
        (close-Stale handle role e)
