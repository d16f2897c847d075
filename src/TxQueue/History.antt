-- ===== src/TxQueue/History.antt =====
-- Histories of the transmit queue.
use gen_os.Common.{
  ℕ, ◌+◌, ◌%◌, ◌^◌, ◌≡◌, refl, ◌∙◌, ap, sym, subst, ◌⊎◌, inl, inr, true, List, [], ◌∷◌, ◌==◌, arith,
  Bool-cases,
}
use gen_os.TxQueue.{
  Publication, tx_ring_size, Phase, idle, device, quarantined, TxQueue, Result, ok, err, new, begin,
  complete, quarantine, is_quarantined, wrapping_add, wrapping_sub,
}

-- A call, with the used index and the descriptor as the device reports them (a `u16` and a `u32`),
-- or the driver's timeout.
pub data Call : Type 0 where
  begins : Call
  completes : (used descriptor : ℕ) → Call
  times_out : Call

-- The queue with the numbers of publications and of completions that it answered with `Ok`.
pub record Trace : Type 0 where
  pub queue : TxQueue
  pub begun : ℕ
  pub completed : ℕ

abbrev pub counts {ℓ} : {A : Type ℓ} → Result A → ℕ
counts (ok a) = 1
counts (err e) = 0

unfoldable pub step : Trace → Call → Trace
step t begins = record {
  queue = (begin t.queue).1;
  begun = t.begun + counts (begin t.queue).0;
  completed = t.completed;
}
step t (completes used descriptor) = record {
  queue = (complete t.queue (used % 2 ^ 16) descriptor).1;
  begun = t.begun;
  completed = t.completed + counts (complete t.queue (used % 2 ^ 16) descriptor).0;
}
step t times_out = record t { queue = quarantine t.queue }

unfoldable pub run : Trace → List Call → Trace
run t [] = t
run t (c ∷ cs) = run (step t c) cs

abbrev pub start : Trace
start = record { queue = new; begun = 0; completed = 0 }

-- The buffer is with the driver, with the device, or lost to both.
abbrev pub Owned : Phase → ℕ → ℕ → Type 0
Owned idle begun completed = begun ≡ completed
Owned device begun completed = begun ≡ completed + 1
Owned quarantined begun completed = (begun ≡ completed) ⊎ (begun ≡ completed + 1)

pub record IsValid (t : Trace) : Type 0 where
  pub available : t.queue.available ≡ t.begun % 2 ^ 16
  pub used : t.queue.used ≡ t.completed % 2 ^ 16
  pub owned : Owned t.queue.phase t.begun t.completed

abbrev traced : Phase → ℕ → ℕ → ℕ → ℕ → Trace
traced phase available used begun completed = record {
  queue = record { phase = phase; available = available; used = used };
  begun = begun;
  completed = completed;
}

-- A lost buffer was with the driver or with the device.
Owned-quarantined : (phase : Phase) (b c : ℕ) → Owned phase b c → (b ≡ c) ⊎ (b ≡ c + 1)
Owned-quarantined idle b c o = inl o
Owned-quarantined device b c o = inr o
Owned-quarantined quarantined b c o = o

begins-IsValid :
    (phase : Phase) (a u b c : ℕ)
    → IsValid (traced phase a u b c)
    → IsValid (step (traced phase a u b c) begins)
unfolding step begin
begins-IsValid idle a u b c v = record {
  available = omega (arith, v.available);
  used = v.used;
  owned = omega (arith, v.owned);
}
begins-IsValid device a u b c v = record {
  available = omega (arith, v.available);
  used = v.used;
  owned = omega (arith, v.owned);
}
begins-IsValid quarantined a u b c v = record {
  available = omega (arith, v.available);
  used = v.used;
  owned = ground (arith, v.owned);
}

completes-IsValid :
    (phase : Phase) (a u b c used descriptor : ℕ)
    → IsValid (traced phase a u b c)
    → IsValid (step (traced phase a u b c) (completes used descriptor))
unfolding step complete quarantine
completes-IsValid idle a u b c used descriptor v = record {
  available = v.available;
  used = omega (arith, v.used);
  owned = inl (omega (arith, v.owned));
}
completes-IsValid quarantined a u b c used descriptor v = record {
  available = v.available;
  used = omega (arith, v.used);
  owned = ground (arith, v.owned);
}
completes-IsValid device a u b c used descriptor v =
    elim (Bool-cases (wrapping_sub (used % 2 ^ 16) u == 1)) [
      | inr skips ↦
          rw (skips, step, complete)
            (record {
              available = v.available;
              used = omega (arith, v.used);
              owned = inr (omega (arith, v.owned));
            })
      | inl advances ↦ elim (Bool-cases (descriptor == 0)) [
        | inr other ↦
            rw (advances, other, step, complete)
              (record {
                available = v.available;
                used = omega (arith, v.used);
                owned = inr (omega (arith, v.owned));
              })
        | inl same ↦
            let one : wrapping_sub (used % 2 ^ 16) u ≡ 1 = ground arith in
            rw (advances, same, step, complete)
              (record {
                available = v.available;
                used = omega (arith, v.used, one);
                owned = omega (arith, v.owned);
              })
      ]
    ]

step-IsValid : (t : Trace) (c : Call) → IsValid t → IsValid (step t c)
unfolding step quarantine
step-IsValid t begins v = begins-IsValid t.queue.phase _ _ _ _ v
step-IsValid t (completes used descriptor) v =
    completes-IsValid t.queue.phase _ _ _ _ used descriptor v
step-IsValid t times_out v = record {
  available = v.available;
  used = v.used;
  owned = Owned-quarantined t.queue.phase t.begun t.completed v.owned;
}

run-IsValid : (t : Trace) (cs : List Call) → IsValid t → IsValid (run t cs)
unfolding run
run-IsValid t [] v = v
run-IsValid t (c ∷ cs) v = run-IsValid (step t c) cs (step-IsValid t c v)

-- After any history of publications, device reports and timeouts the two counters are the numbers
-- of publications and completions, modulo 2 ^ 16, and at most the one publication that the phase
-- tells of is without its completion.
pub run-start-IsValid : (cs : List Call) → IsValid (run start cs)
unfolding new
run-start-IsValid cs = run-IsValid start cs (record { available = refl; used = refl; owned = refl })

begin-ok :
    (q : TxQueue) (p : Publication)
    → (begin q).0 ≡ ok p
    → (q.phase ≡ idle)
      × (p.ring_slot ≡ q.available % tx_ring_size)
      × (p.available_index ≡ wrapping_add q.available 1)
unfolding begin
begin-ok q p e =
    elim q.phase
        as (λ phase.
          (begin (record q { phase = phase })).0 ≡ ok p
          → (phase ≡ idle)
            × (p.ring_slot ≡ q.available % tx_ring_size)
            × (p.available_index ≡ wrapping_add q.available 1)) [
              | idle ↦ λ e.
                  let same : record {
                    available_index = wrapping_add q.available 1;
                    ring_slot = q.available % tx_ring_size;
                  }
                      ≡ p =
                    cc in
                  (refl, ap (λ x. x.ring_slot) (sym same), ap (λ x. x.available_index) (sym same))
              | device ↦ λ e. absurd (cc)
              | quarantined ↦ λ e. absurd (cc)
            ]
      e

-- Whatever happened before, a publication is made only when every earlier one was completed, and
-- the successive publications take the slots of the ring in turn, also when the index wraps.
pub begin-run :
    (cs : List Call) (p : Publication)
    → (begin (run start cs).queue).0 ≡ ok p
    → ((run start cs).begun ≡ (run start cs).completed)
      × (p.ring_slot ≡ (run start cs).begun % tx_ring_size)
      × (p.available_index ≡ ((run start cs).begun + 1) % 2 ^ 16)
begin-run cs p e =
    let v = run-start-IsValid cs in
    let made = begin-ok (run start cs).queue p e in
    (
      subst (λ phase. Owned phase (run start cs).begun (run start cs).completed) made.0 v.owned,
      omega (arith, made.1, v.available),
      omega (arith, made.2, v.available),
    )

lost_step :
    (a u b c : ℕ) (call : Call)
    → step (traced quarantined a u b c) call ≡ traced quarantined a u b c
unfolding step begin complete quarantine
lost_step a u b c begins =
    let same : b + 0 ≡ b = omega arith in λ i. traced quarantined a u (same i) c
lost_step a u b c (completes used descriptor) =
    let same : c + 0 ≡ c = omega arith in λ i. traced quarantined a u b (same i)
lost_step a u b c times_out = refl

lost_run :
    (a u b c : ℕ) (cs : List Call)
    → run (traced quarantined a u b c) cs ≡ traced quarantined a u b c
unfolding run
lost_run a u b c [] = refl
lost_run a u b c (call ∷ cs) = ap (λ t. run t cs) (lost_step a u b c call) ∙ lost_run a u b c cs

is_quarantined-phase : (q : TxQueue) → is_quarantined q ≡ true → q.phase ≡ quarantined
unfolding is_quarantined
is_quarantined-phase q e =
    elim q.phase
        as (λ phase. is_quarantined (record q { phase = phase }) ≡ true → phase ≡ quarantined) [
          | idle ↦ λ e. absurd (cc)
          | device ↦ λ e. absurd (cc)
          | quarantined ↦ λ e. refl
        ]
      e

-- Quarantine is final: from then on every call leaves the queue as it is and answers no `Ok`.
pub run-quarantined :
    (q : TxQueue) (begun completed : ℕ) (cs : List Call)
    → is_quarantined q ≡ true
    → run (record { queue = q; begun = begun; completed = completed }) cs
      ≡ record { queue = q; begun = begun; completed = completed }
run-quarantined q begun completed cs e =
    let gone = is_quarantined-phase q e in
    let same : ◌≡◌ {A = Trace} (record { queue = q; begun = begun; completed = completed })
        (traced quarantined q.available q.used begun completed) =
      λ i. traced (gone i) q.available q.used begun completed in
    ap (λ t. run t cs) same ∙ lost_run q.available q.used begun completed cs ∙ sym same
