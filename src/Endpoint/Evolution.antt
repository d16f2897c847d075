-- ===== src/Endpoint/Evolution.antt =====
-- Every method of the endpoint state evolves it, so a stale handle never resolves again.
use gen_os.Common.{
  ℕ, suc, ◌+◌, ◌<◌, ◌≤◌, ◌≡◌, refl, ap, sym, ◌∙◌, true, false, some, Option, none, arith, ◌==◌, ltb,
  not, ◌||◌, if◌then◌else◌, List, [], ◌∷◌, any, set, length, length-set, position, is_none, is_some,
  any-set-false, inl, inr, Bool-cases, Option-cases, position-lt-length, subst,
}
use gen_os.Capability
use gen_os.Capability.{HandleTable, endpoint_send}
use gen_os.Ipc.{UserChannelMessage}
use gen_os.Endpoint.{
  EndpointState, EndpointCapability, EndpointRole, receives, sends, PublishedEndpoint,
  PendingReceive, endpoint_handle, handle_capacity, next_generation, published_generation,
  is_generation, install, allocate_at, allocate, generation_max, issued, role_kind, right_use,
}
use gen_os.Endpoint.Calls.{
  capability, create, create_at, publish, close, close_role, release, revoke_send_handles,
  revoke_loop, clear, clear_payload, enqueue, enqueue_at, pop_message, park_receive,
  clear_pending_receive, names_target, unregister_entry,
}
use gen_os.Endpoint.Stale.{
  carries, IsBounded, Evolves, Evolves-refl, Evolves-same, drops-Evolves, Stale, Evolves-IsBounded,
  Evolves-Stale, capability_absent,
}

abbrev pub counted : EndpointState → EndpointState
counted s = record s { next_generation = s.next_generation + 1 }

pub next_generation_over :
    (s : EndpointState)
    → ltb generation_max s.next_generation ≡ true
    → next_generation s ≡ (none, s)
unfolding next_generation
next_generation_over s h = rw h

pub next_generation_fits :
    (s : EndpointState)
    → ltb generation_max s.next_generation ≡ false
    → next_generation s ≡ (some s.next_generation, counted s)
unfolding next_generation
next_generation_fits s h = rw h

module _ (s : EndpointState) (t : HandleTable) (b : IsBounded s) where
  counted-Evolves : s.next_generation ≤ generation_max → Evolves s (counted s)
  counted-Evolves h = record {
    same_owner = refl;
    later = omega arith;
    bounded = omega arith;
    same_size = b.size;
    fresh_only = λ handle k. inl k;
  }

  issue-Evolves :
      (slot : ℕ) (role : EndpointRole) (published : Option PublishedEndpoint)
      → s.next_generation ≤ generation_max
      → slot < handle_capacity
      → Evolves s (record (counted s) {
        handles = set s.handles slot (some (issued s s.next_generation slot role));
        published = published;
      })
  issue-Evolves slot role published h small = record {
    same_owner = refl;
    later = omega arith;
    bounded = omega arith;
    same_size = length-set s.handles slot (some (issued s s.next_generation slot role)) ∙ b.size;
    fresh_only = λ handle k.
        elim (Bool-cases (endpoint_handle s.owner_pid s.next_generation slot == handle)) [
          | inl e ↦ inr (slot, small, ground arith, omega arith)
          | inr e ↦ inl (
              any-set-false (carries handle) s.handles slot
                (some (issued s s.next_generation slot role)) k e)
        ];
  }

  install-Evolves :
      (slot : ℕ) (role : EndpointRole)
      → s.next_generation ≤ generation_max
      → slot < handle_capacity
      → Evolves s (install (counted s) t s.next_generation slot role).1
  unfolding install
  install-Evolves slot role h small =
      elim (Bool-cases
        (Capability.register t (endpoint_handle s.owner_pid s.next_generation slot) (role_kind role)
          right_use).0) [
            | inl e ↦ rw (e, install) (issue-Evolves slot role s.published h small)
            | inr e ↦ rw (e, install) (counted-Evolves h)
          ]

  publish-Evolves :
      (slot : ℕ)
      → s.next_generation ≤ generation_max
      → slot < handle_capacity
      → Evolves s (publish (counted s) t s.next_generation slot).1
  unfolding publish
  publish-Evolves slot h small =
      elim (Option-cases
        (install (counted s) t s.next_generation slot (receives s.next_generation)).0) [
          | inl e ↦ rw (e, publish) installed
          | inr (handle, e) ↦ rw (e, publish) (Evolves-same _ refl refl refl installed)
        ]
    where
      installed :
          Evolves s (install (counted s) t s.next_generation slot (receives s.next_generation)).1
      installed = install-Evolves slot (receives s.next_generation) h small

  pub allocate-Evolves : (role : EndpointRole) → Evolves s (allocate s t role).1
  unfolding allocate allocate_at
  allocate-Evolves role = elim (Option-cases (position is_none s.handles)) [
    | inl e ↦ rw (e, allocate) (Evolves-refl s b)
    | inr (slot, e) ↦
        let small : slot < handle_capacity =
          omega (arith, position-lt-length is_none s.handles slot e, b.size) in
        elim (Bool-cases (ltb generation_max s.next_generation)) [
          | inl over ↦
              rw (e, allocate, next_generation_over s over, allocate_at)
                (rw (next_generation_over s over) (Evolves-refl s b))
          | inr fits ↦
              rw (e, allocate, next_generation_fits s fits, allocate_at)
                (rw (next_generation_fits s fits) (install-Evolves slot role (ground arith) small))
        ]
  ]

  pub create-Evolves : Evolves s (create s t).1
  unfolding create create_at
  create-Evolves = elim (Bool-cases (is_some s.published || not (any is_none s.handles))) [
    | inl taken ↦ rw (taken, create) (Evolves-refl s b)
    | inr free ↦ elim (Option-cases (position is_none s.handles)) [
      | inl e ↦ rw (free, e, create) (Evolves-refl s b)
      | inr (slot, e) ↦
          let small : slot < handle_capacity =
            omega (arith, position-lt-length is_none s.handles slot e, b.size) in
          elim (Bool-cases (ltb generation_max s.next_generation)) [
            | inl over ↦
                rw (free, e, create, next_generation_over s over, create_at)
                  (rw (next_generation_over s over) (Evolves-refl s b))
            | inr fits ↦
                rw (free, e, create, next_generation_fits s fits, create_at)
                  (rw (next_generation_fits s fits) (publish-Evolves slot (ground arith) small))
          ]
    ]
  ]

  release-Evolves :
      (handle : ℕ) (c : EndpointCapability) (s' : EndpointState)
      → s'.owner_pid ≡ s.owner_pid
      → s'.next_generation ≡ s.next_generation
      → s'.handles ≡ s.handles
      → Evolves s (release s' t handle c).1
  unfolding release
  release-Evolves handle c s' o g k =
      elim (Bool-cases (Capability.unregister t handle (role_kind c.role)).0) [
        | inl e ↦
            rw (e, release)
              (drops-Evolves s (record s' { handles = set s'.handles c.slot none }) b o g
                (length-set s'.handles c.slot none ∙ ap length k)
                (λ h absent.
                  any-set-false (carries h) s'.handles c.slot none
                    (subst (λ xs. any (carries h) xs ≡ false) (sym k) absent) refl))
        | inr e ↦
            rw (e, release)
              (drops-Evolves s s' b o g (ap length k)
                (λ h absent. subst (λ xs. any (carries h) xs ≡ false) (sym k) absent))
      ]

  close_role-Evolves :
      (handle : ℕ) (c : EndpointCapability) (role : EndpointRole)
      → Evolves s (close_role s t handle c role).1
  unfolding close_role
  close_role-Evolves handle c (sends pid generation) = release-Evolves handle c s refl refl refl
  close_role-Evolves handle c (receives generation) =
      elim (Bool-cases (is_generation (published_generation s) generation)) [
        | inl e ↦
            rw (e, close_role)
              (release-Evolves handle c (record s { published = none; pending_receive = none }) refl
                refl refl)
        | inr e ↦ rw (e, close_role) (Evolves-refl s b)
      ]

  pub close-Evolves : (handle : ℕ) → Evolves s (close s t handle).1
  unfolding close
  close-Evolves handle = elim (Option-cases (capability s t handle)) [
    | inl e ↦ rw (e, close) (Evolves-refl s b)
    | inr (c, e) ↦ rw (e, close) (close_role-Evolves handle c c.role)
  ]

pub length-revoke_loop :
    (pid generation : ℕ) (xs : List (Option EndpointCapability)) (t : HandleTable) (n : ℕ)
    → length (revoke_loop pid generation xs t n).1 ≡ length xs
unfolding revoke_loop
length-revoke_loop pid generation [] t n = refl
length-revoke_loop pid generation (x ∷ xs) t n = ap suc (length-revoke_loop pid generation xs _ _)

revoke_loop-absent :
    (pid generation handle : ℕ) (xs : List (Option EndpointCapability)) (t : HandleTable) (n : ℕ)
    → any (carries handle) xs ≡ false
    → any (carries handle) (revoke_loop pid generation xs t n).1 ≡ false
unfolding revoke_loop
revoke_loop-absent pid generation handle [] t n h = refl
revoke_loop-absent pid generation handle (x ∷ xs) t n h =
    let rest =
      revoke_loop-absent pid generation handle xs
        (if names_target pid generation x then unregister_entry x endpoint_send t else t)
        (if names_target pid generation x then n + 1 else n) (ground arith) in
    elim (Bool-cases (names_target pid generation x)) [
      | inl e ↦ rw e (rw e at rest)
      | inr e ↦ rw e (ground (arith, rw e at rest))
    ]

module _ (s : EndpointState) (t : HandleTable) (b : IsBounded s) where
  pub revoke-Evolves : (pid generation : ℕ) → Evolves s (revoke_send_handles s t pid generation).1
  unfolding revoke_send_handles
  revoke-Evolves pid generation =
      drops-Evolves s _ b refl refl (length-revoke_loop pid generation s.handles t 0)
        (λ handle h. revoke_loop-absent pid generation handle s.handles t 0 h)

  pub clear-Evolves : Evolves s (clear s t).0
  unfolding clear clear_payload
  clear-Evolves = drops-Evolves s (clear_payload s) b refl refl (sym b.size) (λ handle h. refl)

  pub park-Evolves : (pending : PendingReceive) → Evolves s (park_receive s t pending).1
  unfolding park_receive
  park-Evolves pending =
      Evolves-same (park_receive s t pending).1 (ground arith) (ground arith) (ground arith)
        (Evolves-refl s b)

  pub enqueue-Evolves : (m : UserChannelMessage) → Evolves s (enqueue s m).1
  unfolding enqueue enqueue_at
  enqueue-Evolves m =
      Evolves-same (enqueue s m).1 (ground arith) (ground arith) (ground arith) (Evolves-refl s b)

  pub pop-Evolves : Evolves s (pop_message s).1
  unfolding pop_message
  pop-Evolves =
      Evolves-same (pop_message s).1 (ground arith) (ground arith) (ground arith) (Evolves-refl s b)

-- A process's calls on its endpoint, and messages that other processes send to it.
pub data Call : Type 0 where
  creates clears pops unparks : Call
  allocates : EndpointRole → Call
  closes : ℕ → Call
  revokes : ℕ → ℕ → Call
  parks : PendingReceive → Call
  enqueues : UserChannelMessage → Call

abbrev pub World : Type 0
World = EndpointState × HandleTable

unfoldable pub step : World → Call → World
step (s, t) creates = ((create s t).1, (create s t).2)
step (s, t) clears = clear s t
step (s, t) pops = ((pop_message s).1, t)
step (s, t) unparks = (clear_pending_receive s, t)
step (s, t) (allocates role) = ((allocate s t role).1, (allocate s t role).2)
step (s, t) (closes handle) = ((close s t handle).1, (close s t handle).2)
step (s, t) (revokes pid generation) =
    ((revoke_send_handles s t pid generation).1, (revoke_send_handles s t pid generation).2)
step (s, t) (parks pending) = ((park_receive s t pending).1, t)
step (s, t) (enqueues m) = ((enqueue s m).1, t)

unfoldable pub run : World → List Call → World
run w [] = w
run w (c ∷ cs) = run (step w c) cs

pub step-Evolves : (w : World) (c : Call) → IsBounded w.0 → Evolves w.0 (step w c).0
unfolding step clear_pending_receive
step-Evolves (s, t) creates b = create-Evolves s t b
step-Evolves (s, t) clears b = clear-Evolves s t b
step-Evolves (s, t) pops b = pop-Evolves s t b
step-Evolves (s, t) unparks b =
    Evolves-same (clear_pending_receive s) refl refl refl (Evolves-refl s b)
step-Evolves (s, t) (allocates role) b = allocate-Evolves s t b role
step-Evolves (s, t) (closes handle) b = close-Evolves s t b handle
step-Evolves (s, t) (revokes pid generation) b = revoke-Evolves s t b pid generation
step-Evolves (s, t) (parks pending) b = park-Evolves s t b pending
step-Evolves (s, t) (enqueues m) b = enqueue-Evolves s t b m

-- A handle that was once issued and stands in no slot resolves under no later state of the
-- endpoint, whatever calls the process makes, and whatever the registry holds.
pub Stale-forever :
    (w : World) (cs : List Call) (handle : ℕ)
    → IsBounded w.0
    → Stale w.0 handle
    → capability (run w cs).0 (run w cs).1 handle ≡ none
unfolding run
Stale-forever (s, t) [] handle b z = capability_absent s t handle z.absent
Stale-forever w (c ∷ cs) handle b z =
    let e = step-Evolves w c b in
    Stale-forever (step w c) cs handle (Evolves-IsBounded b e) (Evolves-Stale handle b e z)
