-- ===== src/Endpoint/Placement.antt =====
-- How placed capabilities stay placed when a slot is written or the registry changes.
use gen_os.Common.{
  ℕ, zero, suc, ◌+◌, ◌<◌, ◌≤◌, ◌≡◌, refl, sym, ◌∙◌, ◌≢◌, false, some, Option, none, arith, u32_max,
  List, [], ◌∷◌, any, set, length, subst,
}
use gen_os.Capability.{HandleTable}
use gen_os.Capability.Authority.{authority}
use gen_os.Endpoint.{EndpointCapability, handle_capacity}
use gen_os.Endpoint.Handles.{endpoint_handle-injective}
use gen_os.Endpoint.Stale.{carries}
use gen_os.Endpoint.Consistent.{Placed, AllPlaced}

module _ (owner_pid : ℕ) (owned : owner_pid < 256) (next : ℕ) (bounded : next ≤ u32_max + 1)
    (t : HandleTable) where
  -- Capabilities in different slots have different handles.
  pub Placed-apart :
      (t' : HandleTable) (next' i j : ℕ) (c d : EndpointCapability)
      → next' ≤ u32_max + 1
      → i < handle_capacity
      → j < handle_capacity
      → i ≢ j
      → Placed owner_pid next t i c
      → Placed owner_pid next' t' j d
      → c.handle ≢ d.handle
  Placed-apart t' next' i j c d hn hi hj ne p q e =
      ne
        (endpoint_handle-injective owner_pid c.generation d.generation i j owned
          (omega (arith, p.past)) (omega (arith, q.past)) hi hj (sym p.numbered ∙ e ∙ q.numbered)).1

  pub Placed-absent :
      (i j : ℕ) (c : EndpointCapability) (xs : List (Option EndpointCapability))
      → i < j
      → j + length xs ≤ handle_capacity
      → Placed owner_pid next t i c
      → AllPlaced owner_pid next t j xs
      → any (carries c.handle) xs ≡ false
  Placed-absent i j c [] lt fits p ps = refl
  Placed-absent i j c (none ∷ xs) lt fits p ps =
      Placed-absent i (suc j) c xs (omega arith) (omega arith) p ps
  Placed-absent i j c (some d ∷ xs) lt fits p ps =
      let apart : d.handle ≢ c.handle = λ e.
        Placed-apart t next i j c d bounded (omega arith) (omega arith) (omega arith) p ps.0
          (sym e) in
      ground (arith, Placed-absent i (suc j) c xs (omega arith) (omega arith) p ps.1)

  -- Later generations and a registry that keeps the authorities keep the capabilities placed.
  pub AllPlaced-keep :
      (next' : ℕ) (t' : HandleTable) (i : ℕ) (xs : List (Option EndpointCapability))
      → next ≤ next'
      → i + length xs ≤ handle_capacity
      → ((slot : ℕ) (c : EndpointCapability)
          → i ≤ slot
          → slot < handle_capacity
          → Placed owner_pid next t slot c
          → authority t' c.handle ≡ authority t c.handle)
      → AllPlaced owner_pid next t i xs
      → AllPlaced owner_pid next' t' i xs
  AllPlaced-keep next' t' i [] le fits same p = tt
  AllPlaced-keep next' t' i (none ∷ xs) le fits same p =
      AllPlaced-keep next' t' (suc i) xs le (omega arith) (λ slot c low. same slot c (omega arith))
        p
  AllPlaced-keep next' t' i (some c ∷ xs) le fits same p = (
    record {
      at_slot = p.0.at_slot;
      owned = p.0.owned;
      numbered = p.0.numbered;
      past = omega (arith, p.0.past);
      authorised = same i c (omega arith) (omega arith) p.0 ∙ p.0.authorised;
    },
    AllPlaced-keep next' t' (suc i) xs le (omega arith) (λ slot c low. same slot c (omega arith))
        p.1,
  )

  pub AllPlaced-put :
      (i k : ℕ) (xs : List (Option EndpointCapability)) (c : EndpointCapability)
      → Placed owner_pid next t (i + k) c
      → AllPlaced owner_pid next t i xs
      → AllPlaced owner_pid next t i (set xs k (some c))
  AllPlaced-put i k [] c p ps = tt
  AllPlaced-put i zero (none ∷ xs) c p ps =
      let e : i + 0 ≡ i = omega arith in (subst (λ j. Placed owner_pid next t j c) e p, ps)
  AllPlaced-put i zero (some d ∷ xs) c p ps =
      let e : i + 0 ≡ i = omega arith in (subst (λ j. Placed owner_pid next t j c) e p, ps.1)
  AllPlaced-put i (suc k) (none ∷ xs) c p ps =
      let e : i + suc k ≡ suc i + k = omega arith in
      AllPlaced-put (suc i) k xs c (subst (λ j. Placed owner_pid next t j c) e p) ps
  AllPlaced-put i (suc k) (some d ∷ xs) c p ps =
      let e : i + suc k ≡ suc i + k = omega arith in
      (ps.0, AllPlaced-put (suc i) k xs c (subst (λ j. Placed owner_pid next t j c) e p) ps.1)

  -- Clearing slot `r`, where the registry keeps the authorities of the other slots.
  pub AllPlaced-drop :
      (t' : HandleTable) (r i k : ℕ) (xs : List (Option EndpointCapability))
      → i + k ≡ r
      → i + length xs ≤ handle_capacity
      → ((slot : ℕ) (c : EndpointCapability)
          → slot ≢ r
          → slot < handle_capacity
          → Placed owner_pid next t slot c
          → authority t' c.handle ≡ authority t c.handle)
      → AllPlaced owner_pid next t i xs
      → AllPlaced owner_pid next t' i (set xs k none)
  AllPlaced-drop t' r i k [] e fits same p = tt
  AllPlaced-drop t' r i zero (none ∷ xs) e fits same p =
      AllPlaced-keep next t' (suc i) xs (omega arith) (omega arith)
        (λ slot c low. same slot c (omega arith)) p
  AllPlaced-drop t' r i zero (some c ∷ xs) e fits same p =
      AllPlaced-keep next t' (suc i) xs (omega arith) (omega arith)
        (λ slot c low. same slot c (omega arith)) p.1
  AllPlaced-drop t' r i (suc k) (none ∷ xs) e fits same p =
      AllPlaced-drop t' r (suc i) k xs (omega arith) (omega arith) same p
  AllPlaced-drop t' r i (suc k) (some c ∷ xs) e fits same p = (
    record {
      at_slot = p.0.at_slot;
      owned = p.0.owned;
      numbered = p.0.numbered;
      past = p.0.past;
      authorised = same i c (omega arith) (omega arith) p.0 ∙ p.0.authorised;
    },
    AllPlaced-drop t' r (suc i) k xs (omega arith) (omega arith) same p.1,
  )
