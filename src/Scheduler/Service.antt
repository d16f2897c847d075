-- ===== src/Scheduler/Service.antt =====
-- Bounded service of the slots that stay ready.
use gen_os.Common.{
  ℕ, zero, suc, ◌+◌, ◌-◌, ◌<◌, ◌≤◌, ◌≡◌, ◌≢◌, ◌∙◌, ap, sym, refl, ℕ_discrete, Bool, true, false,
  some, leb, if◌then◌else◌, arith, Bool-cases, inl, inr,
}
use gen_os.Scheduler.{RoundRobin, scan, find, serve, selected}
use gen_os.Scheduler.Order.{wrap, next-suc}

-- A scan finds a ready slot no later than any other slot that is ready.
find-first :
    (n : ℕ) (ready : ℕ → Bool) (k last d : ℕ)
    → last < n
    → k ≤ n
    → d < k
    → ready (wrap n (last + 1 + d)) ≡ true
    → (e : ℕ) × (e ≤ d)
      × (find n ready k (record { last = last; remaining = k }) ≡ some (wrap n (last + 1 + e)))
unfolding find
find-first n ready zero last d h small less r = absurd (omega arith)
find-first n ready (suc k) last d h small less r = elim (Bool-cases (ready (wrap n (last + 1)))) [
  | inl e ↦ (0, omega arith, rw (next-suc n k last h, find) (rw e (ap some (ground arith))))
  | inr e ↦
      let away : d ≢ 0 =
        λ z. absurd (cc (sym r ∙ ap (λ x. ready (wrap n x)) (omega (arith, z)) ∙ e)) in
      let same : wrap n (wrap n (last + 1) + 1 + (d - 1)) ≡ wrap n (last + 1 + d) = ground arith in
      let later =
        find-first n ready k (wrap n (last + 1)) (d - 1) (ground arith) (omega arith) (omega arith)
          (ap ready same ∙ r) in
      (
        later.0 + 1,
        omega (arith, later.1),
        rw (next-suc n k last h, find)
            (rw (e, next-suc n k last h) (later.2 ∙ ap some (ground (arith, later.1)))),
      )
]

-- The readiness of the slots from the next round on.
abbrev pub later_rounds : (ℕ → ℕ → Bool) → ℕ → ℕ → Bool
later_rounds ready round = ready (suc round)

-- The state after a number of rounds, where `ready` gives the slots that are ready in each round.
unfoldable pub rounds : ℕ → (ℕ → ℕ → Bool) → ℕ → RoundRobin → RoundRobin
rounds n ready zero r = r
rounds n ready (suc k) r = rounds n (later_rounds ready) k (serve n (ready 0) r).1

serve-first :
    (n : ℕ) (ready : ℕ → Bool) (r : RoundRobin) (d : ℕ)
    → r.last < n
    → d < n
    → ready (wrap n (r.last + 1 + d)) ≡ true
    → (e : ℕ) × (e ≤ d)
      × (serve n ready r
          ≡ (some (wrap n (r.last + 1 + e)), record { last = wrap n (r.last + 1 + e) }))
unfolding serve scan selected
serve-first n ready r d h less k =
    let found = find-first n ready n r.last d h (omega arith) less k in
    let inside : leb n (wrap n (r.last + 1 + found.0)) ≡ false = ground (arith, found.1) in
    (found.0, found.1, rw (found.2, serve) (rw (inside, selected) refl))

served_within :
    (fuel n : ℕ) (ready : ℕ → ℕ → Bool) (r : RoundRobin) (d : ℕ)
    → r.last < n
    → d < n
    → d < fuel
    → ((t : ℕ) → t ≤ d → ready t (wrap n (r.last + 1 + d)) ≡ true)
    → (k : ℕ) × (k ≤ d)
      × ((serve n (ready k) (rounds n ready k r)).0 ≡ some (wrap n (r.last + 1 + d)))
unfolding rounds
served_within zero n ready r d h less enough is_ready = absurd (omega arith)
served_within (suc fuel) n ready r d h less enough is_ready =
    let first = serve-first n (ready 0) r d h less (is_ready 0 (omega arith)) in
    elim (ℕ_discrete first.0 d) [
      | yes here ↦
          (0, omega arith, ap (λ p. p.0) first.2 ∙ ap (λ e. some (wrap n (r.last + 1 + e))) here)
      | no before ↦
          let last = wrap n (r.last + 1 + first.0) in
          let same : wrap n (last + 1 + (d - first.0 - 1)) ≡ wrap n (r.last + 1 + d) =
            ground (arith, first.1) in
          let later =
            served_within fuel n (later_rounds ready) (record { last = last }) (d - first.0 - 1)
              (ground (arith, first.1)) (omega arith) (omega (arith, first.1))
              (λ t small.
                ap (ready (suc t)) same
                ∙ is_ready (suc t) (omega (arith, first.1, before, small))) in
          (
            suc later.0,
            omega (arith, first.1, later.1),
            ap (λ p. (serve n (ready (suc later.0)) (rounds n (later_rounds ready) later.0 p.1)).0)
                  first.2
                ∙ later.2
                ∙ ap some same,
          )
    ]

-- A slot that is ready in each of the next `n` rounds is selected in one of them, whichever other
-- slots are ready in each of these rounds.
pub bounded_service :
    (n : ℕ) (ready : ℕ → ℕ → Bool) (r : RoundRobin) (j : ℕ)
    → r.last < n
    → j < n
    → ((t : ℕ) → t < n → ready t j ≡ true)
    → (k : ℕ) × (k < n) × ((serve n (ready k) (rounds n ready k r)).0 ≡ some j)
bounded_service n ready r j h less is_ready =
    let d = if leb (r.last + 1) j then j - (r.last + 1) else j + n - (r.last + 1) in
    let at : wrap n (r.last + 1 + d) ≡ j = ground arith in
    let small : d < n = ground arith in
    let within =
      served_within n n ready r d h small small
        (λ t early. ap (ready t) at ∙ is_ready t (omega (arith, early, small))) in
    (within.0, ground (arith, within.1), within.2 ∙ ap some at)
