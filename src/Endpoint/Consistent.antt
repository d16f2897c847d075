-- ===== src/Endpoint/Consistent.antt =====
-- The endpoint table and the registry agree: each capability stands in the slot that its handle
-- names, was issued before, and is registered under its role's kind.
use gen_os.Common.{
  ℕ, suc, ◌+◌, ◌<◌, ◌≤◌, ◌≡◌, refl, ap, sym, ◌∙◌, true, false, some, Option, none, arith, u32_max,
  List, [], ◌∷◌, all, length,
}
use gen_os.Capability
use gen_os.Capability.{
  HandleTable, HandleEntry, HandleKind, kind_eq, discriminant, file, endpoint_receive,
  endpoint_send, names,
}
use gen_os.Capability.Authority.{authority, allows-permits}
use gen_os.Capability.Invariant.{IsValid}
use gen_os.Endpoint.{
  EndpointState, EndpointCapability, EndpointRole, receives, sends, endpoint_handle,
  endpoint_handle_slot, handle_capacity, role_kind, right_use,
}
use gen_os.Endpoint.Calls.{
  capability, slot_entry, registry_is_consistent, consistent_entry, capability_eq, role_eq,
}
use gen_os.Endpoint.Handles.{endpoint_handle_slot-handle}

-- The registry entry of a capability.
abbrev pub entry_of : EndpointCapability → HandleEntry
entry_of c = record { handle = c.handle; kind = role_kind c.role; rights = right_use }

-- A capability in its slot, for an owner and the next generation to be issued.
pub record Placed (owner_pid next : ℕ) (t : HandleTable) (slot : ℕ) (c : EndpointCapability)
    : Type 0 where
  pub at_slot : c.slot ≡ slot
  pub owned : c.owner_pid ≡ owner_pid
  pub numbered : c.handle ≡ endpoint_handle owner_pid c.generation slot
  pub past : c.generation < next
  pub authorised : authority t c.handle ≡ some (entry_of c)

-- Every capability of the list, whose head is slot `slot`, is placed.
abbrev pub AllPlaced : ℕ → ℕ → HandleTable → ℕ → List (Option EndpointCapability) → Type 0
AllPlaced owner_pid next t slot [] = Unit {0}
AllPlaced owner_pid next t slot (none ∷ xs) = AllPlaced owner_pid next t (suc slot) xs
AllPlaced owner_pid next t slot (some c ∷ xs) =
    Placed owner_pid next t slot c × AllPlaced owner_pid next t (suc slot) xs

pub record Consistent (n : ℕ) (s : EndpointState) (t : HandleTable) : Type 0 where
  pub valid : IsValid n t
  pub owner : s.owner_pid < 256
  pub generations : s.next_generation ≤ u32_max + 1
  pub size : length s.handles ≡ handle_capacity
  pub placed : AllPlaced s.owner_pid s.next_generation t 0 s.handles

kind_eq_refl : (k : HandleKind) → kind_eq k k ≡ true
unfolding kind_eq
kind_eq_refl k = ground arith

role_kind-ne_file : (role : EndpointRole) → kind_eq (role_kind role) file ≡ false
unfolding kind_eq discriminant
role_kind-ne_file (receives g) = refl
role_kind-ne_file (sends p g) = refl

role_eq_refl : (role : EndpointRole) → role_eq role role ≡ true
role_eq_refl (receives g) = ground arith
role_eq_refl (sends p g) = ground arith

capability_eq_refl : (c : EndpointCapability) → capability_eq (some c) c ≡ true
capability_eq_refl c = ground (arith, role_eq_refl c.role)

module _ (n : ℕ) (s : EndpointState) (t : HandleTable) (k : Consistent n s t) where
  allows-Placed :
      (slot : ℕ) (c : EndpointCapability)
      → Placed s.owner_pid s.next_generation t slot c
      → (Capability.allows t c.handle (role_kind c.role) right_use ≡ true)
        × (Capability.allows t c.handle file 0 ≡ false)
  allows-Placed slot c p = (
    allows-permits n t c.handle (role_kind c.role) right_use k.valid
        ∙ rw p.authorised (rw (kind_eq_refl (role_kind c.role))),
    allows-permits n t c.handle file 0 k.valid ∙ rw p.authorised (rw (role_kind-ne_file c.role)),
  )

  -- A placed capability resolves from its own handle.
  pub capability-Placed :
      (slot : ℕ) (c : EndpointCapability)
      → slot < handle_capacity
      → slot_entry s.handles slot ≡ some c
      → Placed s.owner_pid s.next_generation t slot c
      → capability s t c.handle ≡ some c
  unfolding capability
  capability-Placed slot c small e p =
      let named : endpoint_handle_slot c.handle ≡ some slot =
        ap endpoint_handle_slot p.numbered
        ∙ endpoint_handle_slot-handle s.owner_pid c.generation slot k.owner
            (omega (arith, p.past, k.generations)) small in
      let whole : endpoint_handle c.owner_pid c.generation slot ≡ c.handle =
        ap (λ o. endpoint_handle o c.generation slot) p.owned ∙ sym p.numbered in
      rw (named, capability)
        (rw e (ground (arith, p.at_slot, p.owned, whole, (allows-Placed slot c p).0)))

  consistent_from :
      (slot : ℕ) (xs : List (Option EndpointCapability))
      → slot + length xs ≤ handle_capacity
      → ((i : ℕ) → slot_entry s.handles (slot + i) ≡ slot_entry xs i)
      → AllPlaced s.owner_pid s.next_generation t slot xs
      → all (consistent_entry s t) xs ≡ true
  consistent_from slot [] fits at p = refl
  consistent_from slot (none ∷ xs) fits at p =
      consistent_from (suc slot) xs (omega arith)
        (λ i. ap (slot_entry s.handles) (omega arith) ∙ at (suc i)) p
  consistent_from slot (some c ∷ xs) fits at p =
      let here : slot_entry s.handles slot ≡ some c =
        ap (slot_entry s.handles) (omega arith) ∙ at 0 in
      rw
        (
          capability-Placed slot c (omega arith) here p.0,
          capability_eq_refl c,
          (allows-Placed slot c p.0).1,
        )
        (consistent_from (suc slot) xs (omega arith)
          (λ i. ap (slot_entry s.handles) (omega arith) ∙ at (suc i)) p.1)

  -- The agreement is what the code's own check tests.
  pub registry_is_consistent_lem : registry_is_consistent s t ≡ true
  unfolding registry_is_consistent
  registry_is_consistent_lem =
      consistent_from 0 s.handles (omega (arith, k.size))
        (λ i. ap (slot_entry s.handles) (omega arith)) k.placed
