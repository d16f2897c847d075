-- ===== src/Endpoint/Issue.antt =====
-- A granted handle resolves to what was asked for; at the end of the generations nothing is granted.
use gen_os.Common.{
  ℕ, zero, suc, ◌+◌, ◌<◌, ◌≤◌, ◌≡◌, refl, ap, ◌∙◌, true, some, Option, none, arith, ltb, List, [],
  ◌∷◌, set, length, position, is_none, inl, inr, Bool-cases, Option-cases, position-lt-length,
  subst,
}
use gen_os.Capability
use gen_os.Capability.{
  HandleTable, HandleEntry, HandleKind, kind_eq, discriminant, file, endpoint_receive,
  endpoint_send, names,
}
use gen_os.Endpoint.{
  EndpointState, EndpointCapability, EndpointRole, endpoint_handle, handle_capacity,
  next_generation, install, allocate_at, allocate, generation_max, issued, role_kind, right_use,
}
use gen_os.Endpoint.Calls.{capability, slot_entry}
use gen_os.Endpoint.Consistent.{Consistent}
use gen_os.Endpoint.Calls.{create, create_at}
use gen_os.Endpoint.Evolution.{next_generation_over, next_generation_fits, counted}
use gen_os.Endpoint.Closing.{slot_entry-Placed}
use gen_os.Endpoint.Preserve.{issue-Consistent, with_handle}
use gen_os.Endpoint.Consistent.{capability-Placed}

slot_entry-set :
    (xs : List (Option EndpointCapability)) (slot : ℕ) (c : EndpointCapability)
    → slot < length xs
    → slot_entry (set xs slot (some c)) slot ≡ some c
slot_entry-set [] slot c h = absurd (omega arith)
slot_entry-set (x ∷ xs) zero c h = refl
slot_entry-set (x ∷ xs) (suc slot) c h = slot_entry-set xs slot c (omega arith)

module _ (n : ℕ) (s : EndpointState) (t : HandleTable) (k : Consistent n s t) where
  issued_resolves :
      (slot : ℕ) (role : EndpointRole)
      → slot < handle_capacity
      → s.next_generation ≤ generation_max
      → (Capability.register t
          (endpoint_handle s.owner_pid s.next_generation slot)
          (role_kind role)
          right_use).0
        ≡ true
      → capability
          (record (counted s) {
            handles = set s.handles slot (some (issued s s.next_generation slot role));
          })
          (with_handle n s t k (endpoint_handle s.owner_pid s.next_generation slot) role)
          (endpoint_handle s.owner_pid s.next_generation slot)
        ≡ some (issued s s.next_generation slot role)
  issued_resolves slot role small fits done =
      let c = issued s s.next_generation slot role in
      let s' : EndpointState = record (counted s) { handles = set s.handles slot (some c) } in
      let t' = with_handle n s t k (endpoint_handle s.owner_pid s.next_generation slot) role in
      let k' = issue-Consistent n s t k slot role s.published small fits done in
      let there = slot_entry-set s.handles slot c (omega (arith, k.size)) in
      capability-Placed n s' t' k' (0 + slot) c (omega arith)
        (ap (slot_entry s'.handles) (omega arith) ∙ there)
        (slot_entry-Placed n s' t' k' 0 slot s'.handles c k'.placed there).1

  install_resolves :
      (slot : ℕ) (role : EndpointRole) (handle : ℕ)
      → slot < handle_capacity
      → s.next_generation ≤ generation_max
      → (install (counted s) t s.next_generation slot role).0 ≡ some handle
      → capability
          (install (counted s) t s.next_generation slot role).1
          (install (counted s) t s.next_generation slot role).2
          handle
        ≡ some (issued s s.next_generation slot role)
  unfolding install
  install_resolves slot role handle small fits e =
      elim (Bool-cases
        (Capability.register t (endpoint_handle s.owner_pid s.next_generation slot) (role_kind role)
          right_use).0) [
            | inl done ↦
                let given : some (endpoint_handle s.owner_pid s.next_generation slot)
                    ≡ some handle =
                  rw (done, install) at e in
                let same : endpoint_handle s.owner_pid s.next_generation slot ≡ handle =
                  ground arith in
                rw (done, install)
                  (subst
                    (λ h.
                      capability
                        (record (counted s) {
                          handles =
                              set s.handles slot (some (issued s s.next_generation slot role));
                        })
                        (with_handle n s t k (endpoint_handle s.owner_pid s.next_generation slot)
                          role)
                        h
                      ≡ some (issued s s.next_generation slot role))
                    same (issued_resolves slot role small fits done))
            | inr refused ↦ absurd (cc (rw (refused, install) at e))
          ]

  -- A handle that `allocate` returns resolves at once to a capability of the requested role, in
  -- a slot of the table and under the generation that the state had reserved for it.
  pub allocate_resolves :
      (role : EndpointRole) (handle : ℕ)
      → (allocate s t role).0 ≡ some handle
      → (slot : ℕ) × (slot < handle_capacity)
        × (capability (allocate s t role).1 (allocate s t role).2 handle
            ≡ some (issued s s.next_generation slot role))
  unfolding allocate allocate_at
  allocate_resolves role handle e = elim (Option-cases (position is_none s.handles)) [
    | inl no_slot ↦ absurd (cc (rw (no_slot, allocate) at e))
    | inr (slot, free) ↦
        let small : slot < handle_capacity =
          omega (arith, position-lt-length is_none s.handles slot free, k.size) in
        elim (Bool-cases (ltb generation_max s.next_generation)) [
          | inl over ↦
              absurd (cc (rw (free, allocate, next_generation_over s over, allocate_at) at e))
          | inr fits ↦
              let granted : (install (counted s) t s.next_generation slot role).0 ≡ some handle =
                rw (next_generation_fits s fits) at
                  (rw (free, allocate, next_generation_fits s fits, allocate_at) at e) in
              (
                slot,
                small,
                rw (free, allocate, next_generation_fits s fits, allocate_at)
                    (rw (next_generation_fits s fits)
                      (install_resolves slot role handle small (ground arith) granted)),
              )
        ]
  ]

-- Once the last generation is used, `allocate` and `create` refuse and change nothing: no
-- generation wraps into an earlier one.
pub exhausted_refuses :
    (s : EndpointState) (t : HandleTable) (role : EndpointRole)
    → generation_max < s.next_generation
    → (allocate s t role ≡ (none, s, t)) × (create s t ≡ (none, s, t))
unfolding allocate allocate_at create create_at next_generation
exhausted_refuses s t role h = (ground arith, ground arith)
