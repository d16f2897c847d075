-- ===== src/FrameGrant/Stale.antt =====
-- A grant that was released is refused for ever.
use gen_os.Common.{
  ℕ, ◌+◌, ◌<◌, ◌≤◌, ◌≡◌, refl, ap, ◌∙◌, ◌⊎◌, inl, inr, Bool, true, false, ◌&&◌, ◌||◌, not, Option,
  none, some, List, ◌==◌, leb, set, position, checked_add, arith, Bool-cases, Option-cases, u64_max,
  All-get_or, get_elem?-cases, get_or-set, get_or-set_self,
}
use gen_os.FrameGrant.{
  Ledger, FrameRecord, Grant, Kind, user, empty, occupied, at_address, done, new_owner, admit,
  obtain, choose, allocate, over_quota, is_live, record_at, find, bind, retire, retire_at, free,
  release, refuses_bind, refuses_release, breaks_contract,
}
use gen_os.FrameGrant.History.{
  Call, owners, allocates, binds, retires, releases, ledger_of, step, run, run_keeps, Ensures,
  Ensures-done,
}
use gen_os.FrameGrant.Invariant.{IsValid, is_live-occupied, Good, empty-Good}

-- The slot of the grant does not hold a frame of the grant's generation.
abbrev pub holds_generation : ℕ → FrameRecord → Bool
holds_generation generation r = occupied r && (r.generation == generation)

pub record Stale (l : Ledger) (g : Grant) : Type 0 where
  pub past : g.generation < l.next_generation
  pub gone : holds_generation g.generation (record_at l g.slot) ≡ false

pub is_live-Stale : (l : Ledger) (g : Grant) → Stale l g → is_live l g ≡ false
unfolding is_live
is_live-Stale l g z = elim (get_elem?-cases l.records g.slot empty) [
  | inl e ↦ rw (e, is_live)
  | inr (e, small) ↦ rw (e, is_live) (ground (arith, z.gone))
]

module _ (l : Ledger) (g : Grant) (z : Stale l g) where
  written-Stale :
      (l' : Ledger) (slot : ℕ) (r : FrameRecord)
      → l'.records ≡ set l.records slot r
      → l.next_generation ≤ l'.next_generation
      → (occupied r ≡ false)
        ⊎ (r.generation ≡ l.next_generation)
        ⊎ (holds_generation g.generation r ≡ holds_generation g.generation (record_at l slot))
      → Stale l' g
  written-Stale l' slot r e later c = record {
    past = omega (arith, z.past);
    gone = rw e (elim (get_or-set l.records slot g.slot r empty) [
      | inl (here, now) ↦ rw now (elim c [
        | inl free ↦ ground arith
        | inr (inl newer) ↦ ground (arith, z.past)
        | inr (inr same) ↦
            same ∙ ap (λ i. holds_generation g.generation (record_at l i)) here ∙ z.gone
      ])
      | inr kept ↦ rw kept z.gone
    ]);
  }

  counters-Stale :
      (o d e q : ℕ)
      → Stale (record l { next_owner = o; denied = d; exhausted = e; quota_denials = q }) g
  counters-Stale o d e q = record { past = z.past; gone = z.gone }

  obtain-Stale :
      (owner : ℕ) (kind : Kind) (slot next : ℕ) (supplied : Option ℕ)
      → l.next_generation ≤ next
      → Ensures
          (λ m. Stale m g)
          (ledger_of (obtain {S = Unit {0}} l owner kind slot next (supplied, tt)))
  unfolding obtain admit
  obtain-Stale owner kind slot next none later = z
  obtain-Stale owner kind slot next (some address) later =
      elim (Bool-cases (breaks_contract l address)) [
        | inl bad ↦ rw (bad, obtain, admit) tt
        | inr good ↦ rw (good, obtain, admit) (written-Stale _ slot _ refl later (inr (inl refl)))
      ]

  choose-Stale :
      (owner : ℕ) (kind : Kind) (supplied : Option ℕ)
      → Ensures
          (λ m. Stale m g)
          (ledger_of (
            choose {S = Unit {0}} l owner kind
              (position (at_address 0) l.records)
              (checked_add l.next_generation 1)
              (λ st. (supplied, st))
              tt))
  unfolding choose
  choose-Stale owner kind supplied = elim (Option-cases (position (at_address 0) l.records)) [
    | inl e ↦ rw (e, choose) (counters-Stale _ _ _ _)
    | inr (slot, e) ↦ elim (Bool-cases (leb (l.next_generation + 1) u64_max)) [
      | inl fits ↦
          rw (e, fits, choose)
            (obtain-Stale owner kind slot (l.next_generation + 1) supplied (omega arith))
      | inr over ↦ rw (e, over, choose) (counters-Stale _ _ _ _)
    ]
  ]

  pub step-Stale : (n : ℕ) (c : Call) → Ensures (λ m. Stale m g) (step n l c)
  unfolding step new_owner allocate bind retire retire_at release free
  step-Stale n owners = elim (Bool-cases (leb (l.next_owner + 1) u64_max)) [
    | inl fits ↦ rw (fits, new_owner) (counters-Stale _ _ _ _)
    | inr over ↦ rw (over, new_owner) z
  ]
  step-Stale n (allocates owner kind supplied) = elim (Bool-cases (over_quota n l owner)) [
    | inl over ↦ rw (over, allocate) (counters-Stale _ _ _ _)
    | inr fits ↦ rw (fits, allocate) (choose-Stale owner kind supplied)
  ]
  step-Stale n (binds h owner virtual_address) =
      elim (Bool-cases (refuses_bind l h owner virtual_address)) [
        | inl refused ↦ rw (refused, bind) (counters-Stale _ _ _ _)
        | inr bound ↦
            rw (bound, bind) (written-Stale _ h.slot _ refl (omega arith) (inr (inr refl)))
      ]
  step-Stale n (retires owner address virtual_address) =
      elim (Option-cases (find l owner address user)) [
        | inl e ↦ rw (e, retire) z
        | inr (h, e) ↦
            rw (e, retire)
              (elim (Bool-cases
                (virtual_address == 0 || not ((record_at l h.slot).mapped_at == virtual_address))) [
                  | inl refused ↦ rw (refused, retire_at) z
                  | inr mapped ↦
                      rw (mapped, retire_at)
                        (written-Stale _ h.slot _ refl (omega arith) (inr (inr refl)))
                ])
      ]
  step-Stale n (releases h prepared) = elim (Bool-cases (refuses_release l h)) [
    | inl refused ↦ rw (refused, release) (counters-Stale _ _ _ _)
    | inr allowed ↦
        rw (allowed, release)
          (elim prepared as (λ b. Stale (free {S = Unit {0}} l h (b, tt)).1 g) [
            | false ↦ z
            | true ↦ written-Stale _ h.slot empty refl (omega arith) (inl refl)
          ])
  ]

released-Stale :
    (n : ℕ) (l : Ledger) (g : Grant)
    → IsValid n l
    → (release {S = Unit {0}} l g (λ address st. (true, st)) tt).0 ≡ true
    → Stale (release {S = Unit {0}} l g (λ address st. (true, st)) tt).1 g
unfolding release free
released-Stale n l g v ok = elim (Bool-cases (refuses_release l g)) [
  | inl refused ↦ absurd (cc (rw (refused, release) at ok))
  | inr allowed ↦
      let live : is_live l g ≡ true = ground arith in
      let there = is_live-occupied n l v g live in
      let good =
        All-get_or (Good l.next_generation) l.records g.slot empty
          (empty-Good l.next_generation v.started) v.good in
      rw (allowed, release)
        (record {
          past = ground (arith, there.2, good.1);
          gone = rw (get_or-set_self l.records g.slot empty empty there.0);
        })
]

-- A released grant authorises nothing again: in no later history without a failed assertion does
-- the ledger take it for live, though its slot and its frame may have been granted anew.
pub released_never_live :
    (n : ℕ) (l : Ledger) (g : Grant) (cs : List Call) (l' : Ledger)
    → IsValid n l
    → (release {S = Unit {0}} l g (λ address st. (true, st)) tt).0 ≡ true
    → run n (release {S = Unit {0}} l g (λ address st. (true, st)) tt).1 cs ≡ done l'
    → is_live l' g ≡ false
released_never_live n l g cs l' v ok e = is_live-Stale l' g (
    run_keeps (λ m. Stale m g) n
      (λ m c m' at z. Ensures-done (λ x. Stale x g) (step n m c) m' (step-Stale m g z n c) at) cs _
      l' e (released-Stale n l g v ok))
