-- ===== src/Request/Ids.antt =====
-- The ids that a sequence hands out, call by call.
use gen_os.Common.{
  ℕ, zero, suc, ◌+◌, ◌≤◌, ◌≡◌, none, some, arith, min, if◌then◌else◌, ltb, leb, Bool-cases, inl,
  inr, u64_max,
}
use gen_os.Request.{RequestSequence, new, allocate}

-- The sequence after a number of calls.
unfoldable pub after : ℕ → RequestSequence → RequestSequence
after zero s = s
after (suc k) s = after k (allocate s).1

allocate-next :
    (s : RequestSequence) → s.next ≤ u64_max → (allocate s).1.next ≡ min (s.next + 1) u64_max
unfolding allocate
allocate-next s h = elim (Bool-cases (leb (s.next + 1) u64_max)) [
  | inl fits ↦ rw (fits, allocate) (ground arith)
  | inr over ↦ rw (over, allocate) (ground arith)
]

after-next :
    (k : ℕ) (s : RequestSequence) → s.next ≤ u64_max → (after k s).next ≡ min (s.next + k) u64_max
unfolding after
after-next zero s h = omega arith
after-next (suc k) s h =
    omega (arith, allocate-next s h, after-next k (allocate s).1 (omega (arith, allocate-next s h)))

-- The call after `k` calls gives the id `k + 1`, as long as that is below the largest word, and
-- nothing from there on: ids are not zero, strictly increase, and none is given twice.
pub allocate-after :
    (k : ℕ) → (allocate (after k new)).0 ≡ (if ltb (k + 1) u64_max then some (k + 1) else none)
unfolding allocate new
allocate-after k =
    let here = after-next k new (omega arith) in
    elim (Bool-cases (leb ((after k new).next + 1) u64_max)) [
      | inl fits ↦ rw (fits, allocate) (ground (arith, here))
      | inr over ↦ rw (over, allocate) (ground (arith, here))
    ]
