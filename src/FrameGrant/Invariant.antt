-- ===== src/FrameGrant/Invariant.antt =====
-- The invariant of the ledger.
use gen_os.Common.{
  ℕ, zero, suc, ◌+◌, ◌-◌, ◌%◌, ◌<◌, ◌≤◌, ◌≡◌, refl, sym, ◌∙◌, ◌≢◌, ◌⊎◌, inl, inr, Bool, true, false,
  ◌||◌, not, Option, none, some, List, [], ◌∷◌, ◌==◌, leb, if◌then◌else◌, get_or, set, any, count,
  position, replicate, checked_add, arith, length, Bool-cases, Option-cases, u64_max, All, All-set,
  All-get_or, All-map, All-replicate, get_or-position, count-set, get_elem?-cases,
  position-lt-length, length-set, length-replicate, any-replicate, count-zero,
}
use gen_os.FrameGrant.{
  Ledger, FrameRecord, Grant, Kind, user, empty, grant, occupied, owned_by, at_address,
  owner_frames, done, new, new_owner, admit, obtain, choose, allocate, over_quota, grant_eq,
  is_live, record_at, find, bind, retire, retire_at, free, release, page_size, user_frame_limit,
  refuses_bind, refuses_release, breaks_contract,
}
use gen_os.FrameGrant.History.{
  Call, owners, allocates, binds, retires, releases, ledger_of, step, run, run_keeps, Ensures,
  Ensures-done,
}

-- A record is empty or names an aligned frame under a past generation; only a user frame is pinned.
abbrev pub Good : ℕ → FrameRecord → Type 0
Good next r =
    (r.address % page_size ≡ 0)
    × (r.generation < next)
    × ((r.mapped_at ≡ 0) ⊎ ((occupied r ≡ true) × (r.kind ≡ user)))

-- No frame is recorded twice.
abbrev pub AllApart : List FrameRecord → Type 0
AllApart [] = Unit {0}
AllApart (r ∷ rs) = ((r.address ≡ 0) ⊎ (any (at_address r.address) rs ≡ false)) × AllApart rs

pub record IsValid (n : ℕ) (l : Ledger) : Type 0 where
  pub size : length l.records ≡ n
  pub counted : l.live ≡ count occupied l.records
  pub good : All (Good l.next_generation) l.records
  pub apart : AllApart l.records
  pub started : 0 < l.next_generation
  pub generations : l.next_generation ≤ u64_max
  pub owners : l.next_owner ≤ u64_max
  pub quota : (owner : ℕ) → count (owned_by (suc owner)) l.records ≤ user_frame_limit

pub empty-Good : (next : ℕ) → 0 < next → Good next empty
empty-Good next h = (refl, omega arith, inl refl)

any-at_set :
    (a : ℕ) (xs : List FrameRecord) (i : ℕ) (v : FrameRecord)
    → any (at_address a) xs ≡ false
    → (v.address ≢ a) ⊎ (v.address ≡ (get_or xs i empty).address)
    → any (at_address a) (set xs i v) ≡ false
any-at_set a [] i v h ne = refl
any-at_set a (x ∷ xs) zero v h ne = ground arith
any-at_set a (x ∷ xs) (suc i) v h ne = ground (arith, any-at_set a xs i v)

-- Writing a record that keeps its slot's address, is empty, or names a frame that is not recorded.
AllApart-set :
    (xs : List FrameRecord) (i : ℕ) (v : FrameRecord)
    → (v.address ≡ 0)
      ⊎ (any (at_address v.address) xs ≡ false)
      ⊎ (v.address ≡ (get_or xs i empty).address)
    → AllApart xs
    → AllApart (set xs i v)
AllApart-set [] i v c a = tt
AllApart-set (x ∷ xs) zero v c a = (ground arith, a.1)
AllApart-set (x ∷ xs) (suc i) v c a = (
  elim a.0 [
    | inl free ↦ inl free
    | inr alone ↦ elim (Bool-cases (x.address == 0)) [
      | inl e ↦ inl (ground arith)
      | inr e ↦ inr (any-at_set x.address xs i v alone (ground arith))
    ]
  ],
  AllApart-set xs i v (ground arith) a.1,
)

count-swap :
    (p : FrameRecord → Bool) (xs : List FrameRecord) (i : ℕ) (v : FrameRecord)
    → p v ≡ p (get_or xs i empty)
    → count p (set xs i v) ≡ count p xs
count-swap p [] i v e = refl
count-swap p (x ∷ xs) zero v e = ground arith
count-swap p (x ∷ xs) (suc i) v e = omega (arith, count-swap p xs i v e)

module _ (n : ℕ) (l : Ledger) (v : IsValid n l) where
  -- The record of a successful allocation.
  abbrev fresh : ℕ → ℕ → Kind → FrameRecord
  fresh address owner kind = record {
    address = address;
    generation = l.next_generation;
    owner = owner;
    mapped_at = 0;
    kind = kind;
  }

  admitted-IsValid :
      (owner : ℕ) (kind : Kind) (slot next address : ℕ)
      → position (at_address 0) l.records ≡ some slot
      → next ≡ l.next_generation + 1
      → next ≤ u64_max
      → (owner ≡ 0) ⊎ (count (owned_by owner) l.records < user_frame_limit)
      → address ≢ 0
      → address % page_size ≡ 0
      → any (at_address address) l.records ≡ false
      → IsValid n (record l {
        records = set l.records slot (fresh address owner kind);
        next_generation = next;
        live = l.live + 1;
      })
  admitted-IsValid owner kind slot next address found e small room nz al alone = record {
    size = length-set l.records slot r ∙ v.size;
    counted =
        omega (
          arith,
          v.counted,
          count-set occupied l.records slot r empty in_range,
          was_free,
          now_used,
        );
    good =
        All-set (Good next) l.records slot r (al, omega arith, inl refl)
          (All-map (Good l.next_generation) (Good next) l.records
            (λ x g. (g.0, omega (arith, g.1), g.2)) v.good);
    apart = AllApart-set l.records slot r (inr (inl alone)) v.apart;
    started = omega arith;
    generations = small;
    owners = v.owners;
    quota = λ o.
        ground (
          arith,
          v.quota o,
          count-set (owned_by (suc o)) l.records slot r empty in_range,
          was_empty,
        );
  }
    where
      r : FrameRecord
      r = fresh address owner kind

      in_range : slot < length l.records
      in_range = position-lt-length (at_address 0) l.records slot found

      was_empty : (get_or l.records slot empty).address ≡ 0
      was_empty = ground (arith, get_or-position (at_address 0) l.records slot empty found)

      was_free : ◌≡◌ {A = ℕ} (if occupied (get_or l.records slot empty) then 1 else 0) 0
      was_free = rw was_empty

      now_used : ◌≡◌ {A = ℕ} (if occupied r then 1 else 0) 1
      now_used = ground arith

  -- Writing a record that differs from the slot's only in what it maps.
  mapped-IsValid :
      (slot mapped : ℕ)
      → (mapped ≡ 0) ⊎ ((occupied (record_at l slot) ≡ true) × ((record_at l slot).kind ≡ user))
      → IsValid n (record l {
        records = set l.records slot (record (record_at l slot) { mapped_at = mapped });
      })
  mapped-IsValid slot mapped pin = record {
    size = length-set l.records slot r ∙ v.size;
    counted = v.counted ∙ sym (count-swap occupied l.records slot r refl);
    good = All-set (Good l.next_generation) l.records slot r (g.0, g.1, pin) v.good;
    apart = AllApart-set l.records slot r (inr (inr refl)) v.apart;
    started = v.started;
    generations = v.generations;
    owners = v.owners;
    quota = λ o. omega (arith, v.quota o, count-swap (owned_by (suc o)) l.records slot r refl);
  }
    where
      r : FrameRecord
      r = record (record_at l slot) { mapped_at = mapped }

      g : Good l.next_generation (record_at l slot)
      g =
          All-get_or (Good l.next_generation) l.records slot empty
            (empty-Good l.next_generation v.started) v.good

  -- Emptying an occupied slot.
  freed-IsValid :
      (slot : ℕ)
      → slot < length l.records
      → occupied (record_at l slot) ≡ true
      → IsValid n (record l { records = set l.records slot empty; live = l.live - 1 })
  freed-IsValid slot in_range used = record {
    size = length-set l.records slot empty ∙ v.size;
    counted =
        ground (arith, v.counted, count-set occupied l.records slot empty empty in_range, used);
    good =
        All-set (Good l.next_generation) l.records slot empty
          (empty-Good l.next_generation v.started) v.good;
    apart = AllApart-set l.records slot empty (inl refl) v.apart;
    started = v.started;
    generations = v.generations;
    owners = v.owners;
    quota = λ o.
        ground (arith, v.quota o, count-set (owned_by (suc o)) l.records slot empty empty in_range);
  }

  -- Counters of refused calls do not matter.
  counters-IsValid :
      (d e q : ℕ) → IsValid n (record l { denied = d; exhausted = e; quota_denials = q })
  counters-IsValid d e q = record {
    size = v.size;
    counted = v.counted;
    good = v.good;
    apart = v.apart;
    started = v.started;
    generations = v.generations;
    owners = v.owners;
    quota = v.quota;
  }

  -- What `is_live` tells of the slot that the grant names.
  pub is_live-occupied :
      (g : Grant)
      → is_live l g ≡ true
      → (g.slot < length l.records)
        × (occupied (record_at l g.slot) ≡ true)
        × (grant_eq (grant (record_at l g.slot) g.slot) g ≡ true)
  unfolding is_live
  is_live-occupied g h = elim (get_elem?-cases l.records g.slot empty) [
    | inl e ↦ absurd (cc (rw (e, is_live) at h))
    | inr (e, small) ↦ let h' = rw (e, is_live) at h in (small, ground arith, ground arith)
  ]

  obtain-IsValid :
      (owner : ℕ) (kind : Kind) (slot next : ℕ) (supplied : Option ℕ)
      → position (at_address 0) l.records ≡ some slot
      → next ≡ l.next_generation + 1
      → next ≤ u64_max
      → (owner ≡ 0) ⊎ (count (owned_by owner) l.records < user_frame_limit)
      → Ensures
          (IsValid n)
          (ledger_of (obtain {S = Unit {0}} l owner kind slot next (supplied, tt)))
  unfolding obtain admit
  obtain-IsValid owner kind slot next none found e small room = v
  obtain-IsValid owner kind slot next (some address) found e small room =
      elim (Bool-cases (breaks_contract l address)) [
        | inl bad ↦ rw (bad, obtain, admit) tt
        | inr good ↦
            rw (good, obtain, admit)
              (admitted-IsValid owner kind slot next address found e small room (ground arith)
                (ground arith) (ground arith))
      ]

  choose-IsValid :
      (owner : ℕ) (kind : Kind) (supplied : Option ℕ)
      → (owner ≡ 0) ⊎ (count (owned_by owner) l.records < user_frame_limit)
      → Ensures (IsValid n) (
          ledger_of (
            choose {S = Unit {0}} l owner kind
              (position (at_address 0) l.records)
              (checked_add l.next_generation 1)
              (λ st. (supplied, st))
              tt))
  unfolding choose
  choose-IsValid owner kind supplied room =
      elim (Option-cases (position (at_address 0) l.records)) [
        | inl e ↦ rw (e, choose) (counters-IsValid _ _ _)
        | inr (slot, e) ↦ elim (Bool-cases (leb (l.next_generation + 1) u64_max)) [
          | inl fits ↦
              rw (e, fits, choose)
                (obtain-IsValid owner kind slot (l.next_generation + 1) supplied e refl
                  (ground arith) room)
          | inr over ↦ rw (e, over, choose) (counters-IsValid _ _ _)
        ]
      ]

  allocate-IsValid :
      (owner : ℕ) (kind : Kind) (supplied : Option ℕ)
      → Ensures
          (IsValid n)
          (ledger_of (allocate {S = Unit {0}} n l owner kind (λ st. (supplied, st)) tt))
  unfolding allocate owner_frames
  allocate-IsValid owner kind supplied = elim (Bool-cases (over_quota n l owner)) [
    | inl over ↦ rw (over, allocate) (counters-IsValid _ _ _)
    | inr fits ↦ rw (fits, allocate) (choose-IsValid owner kind supplied (ground arith))
  ]

  bind-IsValid :
      (g : Grant) (owner virtual_address : ℕ) → IsValid n (bind l g owner virtual_address).1
  unfolding bind
  bind-IsValid g owner virtual_address =
      elim (Bool-cases (refuses_bind l g owner virtual_address)) [
        | inl refused ↦ rw (refused, bind) (counters-IsValid _ _ _)
        | inr bound ↦
            let live : is_live l g ≡ true = ground arith in
            let there = is_live-occupied g live in
            rw (bound, bind)
              (mapped-IsValid g.slot virtual_address (inr (there.1, ground (arith, there.2))))
      ]

  release-IsValid :
      (g : Grant) (prepared : Bool)
      → IsValid n (release {S = Unit {0}} l g (λ address st. (prepared, st)) tt).1
  unfolding release free
  release-IsValid g prepared = elim (Bool-cases (refuses_release l g)) [
    | inl refused ↦ rw (refused, release) (counters-IsValid _ _ _)
    | inr allowed ↦
        let live : is_live l g ≡ true = ground arith in
        let there = is_live-occupied g live in
        rw (allowed, release)
          ((elim prepared as (λ b. IsValid n (free {S = Unit {0}} l g (b, tt)).1) [
            | false ↦ v
            | true ↦ freed-IsValid g.slot there.0 there.1
          ]))
  ]

  retire_at-IsValid :
      (virtual_address : ℕ) (g : Grant) → IsValid n (retire_at l virtual_address g).1
  unfolding retire_at
  retire_at-IsValid virtual_address g =
      elim (Bool-cases
        (virtual_address == 0 || not ((record_at l g.slot).mapped_at == virtual_address))) [
          | inl refused ↦ rw (refused, retire_at) v
          | inr mapped ↦ rw (mapped, retire_at) (mapped-IsValid g.slot 0 (inl refl))
        ]

  retire-IsValid :
      (owner address virtual_address : ℕ) → IsValid n (retire l owner address virtual_address).1
  unfolding retire
  retire-IsValid owner address virtual_address = elim (Option-cases (find l owner address user)) [
    | inl e ↦ rw (e, retire) v
    | inr (g, e) ↦ rw (e, retire) (retire_at-IsValid virtual_address g)
  ]

pub step-IsValid : (n : ℕ) (l : Ledger) (c : Call) → IsValid n l → Ensures (IsValid n) (step n l c)
unfolding step new_owner
step-IsValid n l owners v = elim (Bool-cases (leb (l.next_owner + 1) u64_max)) [
  | inl fits ↦
      rw (fits, new_owner)
        (record {
          size = v.size;
          counted = v.counted;
          good = v.good;
          apart = v.apart;
          started = v.started;
          generations = v.generations;
          owners = ground arith;
          quota = v.quota;
        })
  | inr over ↦ rw (over, new_owner) v
]
step-IsValid n l (allocates owner kind supplied) v = allocate-IsValid n l v owner kind supplied
step-IsValid n l (binds g owner virtual_address) v = bind-IsValid n l v g owner virtual_address
step-IsValid n l (retires owner address virtual_address) v =
    retire-IsValid n l v owner address virtual_address
step-IsValid n l (releases g prepared) v = release-IsValid n l v g prepared

AllApart-replicate : (n : ℕ) → AllApart (replicate n empty)
AllApart-replicate zero = tt
AllApart-replicate (suc n) = (inl refl, AllApart-replicate n)

count-replicate :
    (p : FrameRecord → Bool) (n : ℕ) → p empty ≡ false → count p (replicate n empty) ≡ 0
count-replicate p n h = count-zero p (replicate n empty) (any-replicate p n empty h)

pub new-IsValid : (n : ℕ) → IsValid n (new n)
unfolding new
new-IsValid n = record {
  size = length-replicate n empty;
  counted = sym (count-replicate occupied n refl);
  good = All-replicate (Good 1) n empty (empty-Good 1 (omega arith));
  apart = AllApart-replicate n;
  started = omega arith;
  generations = omega arith;
  owners = omega arith;
  quota = λ o. omega (arith, count-replicate (owned_by (suc o)) n refl);
}

-- After any history that met no failed assertion the ledger has its size, counts its live records,
-- records no frame twice, knows only past generations, maps only user frames, and no process owns
-- more frames than its limit.
pub history-IsValid :
    (n : ℕ) (cs : List Call) (l : Ledger) → run n (new n) cs ≡ done l → IsValid n l
history-IsValid n cs l e =
    run_keeps (IsValid n) n
      (λ m c m' at v. Ensures-done (IsValid n) (step n m c) m' (step-IsValid n m c v) at) cs (new n)
      l e (new-IsValid n)
