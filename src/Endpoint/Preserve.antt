-- ===== src/Endpoint/Preserve.antt =====
-- Every call keeps the endpoint table and the registry in agreement.
use gen_os.Common.{
  ℕ, ◌+◌, ◌<◌, ◌≤◌, ◌≡◌, refl, ap, sym, ◌∙◌, ◌≢◌, true, false, some, Option, arith, ltb, not, ◌||◌,
  any, set, length, length-set, position, is_none, is_some, inl, inr, Bool-cases, Option-cases,
  position-lt-length, subst,
}
use gen_os.Capability
use gen_os.Capability.{
  HandleTable, HandleEntry, HandleKind, kind_eq, discriminant, file, endpoint_receive,
  endpoint_send, names,
}
use gen_os.Capability.Authority.{authority, register_refines}
use gen_os.Capability.Invariant.{register-IsValid}
use gen_os.Endpoint.{
  EndpointState, EndpointCapability, EndpointRole, receives, PublishedEndpoint, endpoint_handle,
  handle_capacity, install, allocate_at, allocate, generation_max, issued, role_kind, right_use,
}
use gen_os.Endpoint.Handles.{endpoint_handle-injective}
use gen_os.Endpoint.Consistent.{entry_of, Placed, AllPlaced, Consistent}
use gen_os.Endpoint.Placement.{AllPlaced-keep, AllPlaced-put}
use gen_os.Endpoint.Calls.{create, create_at, publish}
use gen_os.Endpoint.Evolution.{next_generation_over, next_generation_fits, counted}

-- Only the slots, the counter and the owner matter.
pub Consistent-same :
    (n : ℕ) (s s' : EndpointState) (t : HandleTable)
    → s'.owner_pid ≡ s.owner_pid
    → s'.next_generation ≡ s.next_generation
    → s'.handles ≡ s.handles
    → Consistent n s t
    → Consistent n s' t
Consistent-same n s s' t o g h k = record {
  valid = k.valid;
  owner = omega (arith, k.owner);
  generations = omega (arith, k.generations);
  size = ap length h ∙ k.size;
  placed =
      subst (λ a. AllPlaced a s'.next_generation t 0 s'.handles) (sym o)
        (subst (λ a. AllPlaced s.owner_pid a t 0 s'.handles) (sym g)
          (subst (λ a. AllPlaced s.owner_pid s.next_generation t 0 a) (sym h) k.placed));
}

module _ (n : ℕ) (s : EndpointState) (t : HandleTable) (k : Consistent n s t) where
  -- The registry after `register` or `unregister` of a number.
  abbrev pub with_handle : ℕ → EndpointRole → HandleTable
  with_handle handle role = (Capability.register t handle (role_kind role) right_use).1

  register_same :
      (slot : ℕ) (role : EndpointRole)
      → slot < handle_capacity
      → s.next_generation ≤ generation_max
      → (i : ℕ) (c : EndpointCapability) → i < handle_capacity
      → Placed s.owner_pid s.next_generation t i c
      → authority (with_handle (endpoint_handle s.owner_pid s.next_generation slot) role) c.handle
        ≡ authority t c.handle
  register_same slot role small fits i c hi p =
      let apart : endpoint_handle s.owner_pid s.next_generation slot ≢ c.handle = λ e. omega (
        arith,
        p.past,
        (endpoint_handle-injective s.owner_pid s.next_generation c.generation slot i k.owner fits
            (omega (arith, p.past)) small hi (e ∙ p.numbered)).0,
      ) in
      (register_refines n t (endpoint_handle s.owner_pid s.next_generation slot) (role_kind role)
          k.valid right_use).1
        c.handle
      ∙ ground arith

  pub issue-Consistent :
      (slot : ℕ) (role : EndpointRole) (published : Option PublishedEndpoint)
      → slot < handle_capacity
      → s.next_generation ≤ generation_max
      → (Capability.register t
          (endpoint_handle s.owner_pid s.next_generation slot)
          (role_kind role)
          right_use).0
        ≡ true
      → Consistent n
          (record (counted s) {
            handles = set s.handles slot (some (issued s s.next_generation slot role));
            published = published;
          })
          (with_handle (endpoint_handle s.owner_pid s.next_generation slot) role)
  issue-Consistent slot role published small fits done = record {
    valid = register-IsValid n t handle (role_kind role) right_use k.valid;
    owner = k.owner;
    generations = omega arith;
    size = length-set s.handles slot (some (issued s s.next_generation slot role)) ∙ k.size;
    placed =
        AllPlaced-put s.owner_pid k.owner (s.next_generation + 1) (omega arith)
          (with_handle handle role) 0 slot s.handles (issued s s.next_generation slot role) here
          kept;
  }
    where
      handle : ℕ
      handle = endpoint_handle s.owner_pid s.next_generation slot

      granted :
          authority
            (with_handle (endpoint_handle s.owner_pid s.next_generation slot) role)
            (endpoint_handle s.owner_pid s.next_generation slot)
          ≡ some (entry_of (issued s s.next_generation slot role))
      granted =
          (register_refines n t (endpoint_handle s.owner_pid s.next_generation slot)
              (role_kind role) k.valid right_use).1
            (endpoint_handle s.owner_pid s.next_generation slot)
          ∙ ground arith

      zero_slot : slot ≡ 0 + slot
      zero_slot = omega arith

      here :
          Placed s.owner_pid
            (s.next_generation + 1)
            (with_handle handle role)
            (0 + slot)
            (issued s s.next_generation slot role)
      here = record {
        at_slot = zero_slot;
        owned = refl;
        numbered = ap (endpoint_handle s.owner_pid s.next_generation) zero_slot;
        past = omega arith;
        authorised = granted;
      }

      kept : AllPlaced s.owner_pid (s.next_generation + 1) (with_handle handle role) 0 s.handles
      kept =
          AllPlaced-keep s.owner_pid k.owner s.next_generation k.generations t
            (s.next_generation + 1) (with_handle handle role) 0 s.handles (omega arith)
            (omega (arith, k.size)) (λ i c low hi p. register_same slot role small fits i c hi p)
            k.placed

  -- A registration that is refused leaves every authority as it was.
  refused-Consistent :
      (slot : ℕ) (role : EndpointRole)
      → s.next_generation ≤ generation_max
      → (Capability.register t
          (endpoint_handle s.owner_pid s.next_generation slot)
          (role_kind role)
          right_use).0
        ≡ false
      → Consistent n
          (counted s)
          (with_handle (endpoint_handle s.owner_pid s.next_generation slot) role)
  refused-Consistent slot role fits refused = record {
    valid =
        register-IsValid n t (endpoint_handle s.owner_pid s.next_generation slot) (role_kind role)
          right_use k.valid;
    owner = k.owner;
    generations = omega arith;
    size = k.size;
    placed =
        AllPlaced-keep s.owner_pid k.owner s.next_generation k.generations t (s.next_generation + 1)
          (with_handle (endpoint_handle s.owner_pid s.next_generation slot) role) 0 s.handles
          (omega arith) (omega (arith, k.size))
          (λ i c low hi p.
            (register_refines n t (endpoint_handle s.owner_pid s.next_generation slot)
                (role_kind role) k.valid right_use).1
              c.handle
            ∙ rw refused)
          k.placed;
  }

  install-Consistent :
      (slot : ℕ) (role : EndpointRole)
      → slot < handle_capacity
      → s.next_generation ≤ generation_max
      → Consistent n
          (install (counted s) t s.next_generation slot role).1
          (install (counted s) t s.next_generation slot role).2
  unfolding install
  install-Consistent slot role small fits =
      elim (Bool-cases
        (Capability.register t (endpoint_handle s.owner_pid s.next_generation slot) (role_kind role)
          right_use).0) [
            | inl e ↦ rw (e, install) (issue-Consistent slot role s.published small fits e)
            | inr e ↦ rw (e, install) (refused-Consistent slot role fits e)
          ]

  publish-Consistent :
      (slot : ℕ)
      → slot < handle_capacity
      → s.next_generation ≤ generation_max
      → Consistent n
          (publish (counted s) t s.next_generation slot).1
          (publish (counted s) t s.next_generation slot).2
  unfolding publish
  publish-Consistent slot small fits =
      elim (Option-cases
        (install (counted s) t s.next_generation slot (receives s.next_generation)).0) [
          | inl e ↦
              rw (e, publish) (install-Consistent slot (receives s.next_generation) small fits)
          | inr (handle, e) ↦
              rw (e, publish)
                (Consistent-same n _ _ _ refl refl refl
                  (install-Consistent slot (receives s.next_generation) small fits))
        ]

  pub allocate-Consistent :
      (role : EndpointRole) → Consistent n (allocate s t role).1 (allocate s t role).2
  unfolding allocate allocate_at
  allocate-Consistent role = elim (Option-cases (position is_none s.handles)) [
    | inl e ↦ rw (e, allocate) k
    | inr (slot, e) ↦
        let small : slot < handle_capacity =
          omega (arith, position-lt-length is_none s.handles slot e, k.size) in
        elim (Bool-cases (ltb generation_max s.next_generation)) [
          | inl over ↦
              rw (e, allocate, next_generation_over s over, allocate_at)
                (rw (next_generation_over s over) k)
          | inr fits ↦
              rw (e, allocate, next_generation_fits s fits, allocate_at)
                (rw (next_generation_fits s fits)
                  (install-Consistent slot role small (ground arith)))
        ]
  ]

  pub create-Consistent : Consistent n (create s t).1 (create s t).2
  unfolding create create_at
  create-Consistent = elim (Bool-cases (is_some s.published || not (any is_none s.handles))) [
    | inl taken ↦ rw (taken, create) k
    | inr free ↦ elim (Option-cases (position is_none s.handles)) [
      | inl e ↦ rw (free, e, create) k
      | inr (slot, e) ↦
          let small : slot < handle_capacity =
            omega (arith, position-lt-length is_none s.handles slot e, k.size) in
          elim (Bool-cases (ltb generation_max s.next_generation)) [
            | inl over ↦
                rw (free, e, create, next_generation_over s over, create_at)
                  (rw (next_generation_over s over) k)
            | inr fits ↦
                rw (free, e, create, next_generation_fits s fits, create_at)
                  (rw (next_generation_fits s fits) (publish-Consistent slot small (ground arith)))
          ]
    ]
  ]
