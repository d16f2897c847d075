-- ===== src/Endpoint/Tests.antt =====
-- An endpoint that publishes, grants, closes and publishes again, and the theorems there.
use gen_os.Common.{ℕ, ◌≡◌, refl, true, some, none, [], ◌∷◌, arith, ◌<◌, u32_max, ◌+◌}
use gen_os.Capability
use gen_os.Capability.{HandleTable, discriminant, kind_eq}
use gen_os.Capability.Invariant.{new-IsValid}
use gen_os.Endpoint.{
  EndpointState, receives, sends, new, allocate, allocate_at, install, next_generation,
  endpoint_handle, endpoint_handle_slot, published_generation, handle_capacity, issued,
}
use gen_os.Endpoint.Calls.{
  capability, create, create_at, publish, close, close_role, release, registry_is_consistent,
}
use gen_os.Endpoint.Evolution.{creates, clears, allocates, closes, run, step}
use gen_os.Endpoint.Consistent.{Consistent}
use gen_os.Endpoint.Closing.{run-registry_is_consistent, new-Consistent, run-Consistent}
use gen_os.Endpoint.Authority.{closed_never_resolves, revoked, revoke_send_handles_lem}
use gen_os.Common.{map}
use gen_os.Endpoint.Calls.{revoke_send_handles}
use gen_os.Endpoint.Issue.{allocate_resolves}

abbrev registry : HandleTable
registry = Capability.new 20

abbrev first_handle : ℕ
first_handle = 0xe900_0700_0000_0101

-- The published receive handle of process 7.
create_first : (create (new 7) registry).0 ≡ some first_handle
unfolding create create_at publish install next_generation endpoint_handle new Capability.new
    Capability.register
create_first = refl

start-Consistent : Consistent 20 (new 7) registry
start-Consistent = new-Consistent 20 7 registry (omega arith) (new-IsValid 20)

published_state : EndpointState
published_state = (step (new 7, registry) creates).0

published_registry : HandleTable
published_registry = (step (new 7, registry) creates).1

published-Consistent : Consistent 20 published_state published_registry
unfolding published_state published_registry run step
published-Consistent = run-Consistent 20 (new 7, registry) (creates ∷ []) start-Consistent

run-registry_is_consistent_example :
    registry_is_consistent
      (run (new 7, registry) (creates ∷ allocates (sends 9 3) ∷ clears ∷ [])).0
      (run (new 7, registry) (creates ∷ allocates (sends 9 3) ∷ clears ∷ [])).1
    ≡ true
run-registry_is_consistent_example =
    run-registry_is_consistent 20 7 registry (creates ∷ allocates (sends 9 3) ∷ clears ∷ [])
      (omega arith) (new-IsValid 20)

closed_never_resolves_example :
    capability
      (run (step (published_state, published_registry) (closes first_handle)) (creates ∷ [])).0
      (run (step (published_state, published_registry) (closes first_handle)) (creates ∷ [])).1
      first_handle
    ≡ none
unfolding published_state published_registry step create create_at publish install next_generation
    endpoint_handle new Capability.new Capability.register close close_role release capability
    endpoint_handle_slot published_generation Capability.allows kind_eq discriminant
    Capability.unregister
closed_never_resolves_example =
    closed_never_resolves 20 published_state published_registry published-Consistent first_handle
      (receives 1) (creates ∷ []) refl

allocate_resolves_example :
    (slot : ℕ) × (slot < handle_capacity)
    × (capability
          (allocate published_state published_registry (sends 9 3)).1
          (allocate published_state published_registry (sends 9 3)).2
          0xe900_0700_0000_0202
        ≡ some (issued published_state published_state.next_generation slot (sends 9 3)))
unfolding published_state published_registry step create create_at publish install next_generation
    endpoint_handle new Capability.new Capability.register allocate allocate_at
allocate_resolves_example =
    allocate_resolves 20 published_state published_registry published-Consistent (sends 9 3)
      0xe900_0700_0000_0202 refl

-- All generations are used.
abbrev worn_out : EndpointState
worn_out = record {
  owner_pid = 7;
  handles = none ∷ none ∷ none ∷ none ∷ [];
  next_generation = u32_max + 1;
  published = none;
  pending_receive = none;
}

-- One of two send capabilities names the target.
abbrev two_targets : EndpointState
two_targets = record worn_out {
  handles =
      some (record { handle = 1; owner_pid = 7; generation = 1; slot = 0; role = sends 9 3 })
      ∷ some (record { handle = 2; owner_pid = 7; generation = 2; slot = 1; role = sends 9 4 })
      ∷ none
      ∷ none
      ∷ [];
}

revoke_send_handles_lem_example :
    ((revoke_send_handles two_targets registry 9 3).0 ≡ 1)
    × ((revoke_send_handles two_targets registry 9 3).1
        ≡ record two_targets { handles = map (revoked 9 3) two_targets.handles })
revoke_send_handles_lem_example = revoke_send_handles_lem two_targets registry 9 3
