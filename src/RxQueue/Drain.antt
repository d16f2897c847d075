-- ===== src/RxQueue/Drain.antt =====
-- Draining an admitted batch, and what a refused one gives.
use gen_os.Common.{
  ℕ, zero, suc, ◌+◌, ◌%◌, ◌^◌, ◌<◌, ◌≤◌, ◌≡◌, inl, inr, refl, ap, sym, ◌∙◌, true, false, not, ◌||◌,
  Option, none, some, List, [], ◌∷◌, if◌then◌else◌, get_or, length, arith, Bool-cases, Option-cases,
}
use gen_os.RxQueue.{
  RxCompletion, RxBatch, RxError, in_quarantine, busy, pending, validate, copy_from_slice, admit,
  admit_validated, take, empty, quarantine, wrapping_sub,
}
use gen_os.RxQueue.Validate.{AllSound, validate_iff}

-- The answers of a number of calls of `take`, and the batch after them.
unfoldable pub takes : ℕ → RxBatch → List (Option RxCompletion)
takes zero b = []
takes (suc k) b = (take b).0 ∷ takes k (take b).1

unfoldable pub after_takes : ℕ → RxBatch → RxBatch
after_takes zero b = b
after_takes (suc k) b = after_takes k (take b).1

get_or-copy_from_slice :
    (old xs : List RxCompletion) (i : ℕ)
    → i < length xs
    → length xs ≤ length old
    → get_or (copy_from_slice old xs) i empty ≡ get_or xs i empty
unfolding copy_from_slice
get_or-copy_from_slice old [] i h size = absurd (omega arith)
get_or-copy_from_slice [] (x ∷ xs) i h size = absurd (omega arith)
get_or-copy_from_slice (o ∷ old) (x ∷ xs) zero h size = refl
get_or-copy_from_slice (o ∷ old) (x ∷ xs) (suc i) h size =
    get_or-copy_from_slice old xs i (omega arith) (omega arith)

take-pending :
    (b : RxBatch)
    → b.quarantined ≡ false
    → b.cursor < b.count
    → take b ≡ (
      some (get_or b.entries b.cursor empty),
      record b { cursor = b.cursor + 1; used = (b.used + 1) % 2 ^ 16 },
    )
unfolding take
take-pending b free more =
    let may : (b.quarantined || not (pending b)) ≡ false = ground arith in rw (may, take) refl

take-idle : (b : RxBatch) → b.count ≤ b.cursor → (take b).0 ≡ none
unfolding take
take-idle b h =
    let shut : (b.quarantined || not (pending b)) ≡ true = ground arith in rw (shut, take) refl

after_takes-pending :
    (k : ℕ) (b : RxBatch)
    → b.quarantined ≡ false
    → b.cursor + k ≤ b.count
    → b.used < 2 ^ 16
    → after_takes k b ≡ record b { cursor = b.cursor + k; used = (b.used + k) % 2 ^ 16 }
unfolding after_takes
after_takes-pending zero b free room small =
    let cursor : b.cursor ≡ b.cursor + 0 = omega arith in
    let used : b.used ≡ (b.used + 0) % 2 ^ 16 = omega arith in
    λ i. record b { cursor = cursor i; used = used i }
after_takes-pending (suc k) b free room small =
    let b' = record b { cursor = b.cursor + 1; used = (b.used + 1) % 2 ^ 16 } in
    let cursor : b.cursor + 1 + k ≡ b.cursor + suc k = omega arith in
    let used : ((b.used + 1) % 2 ^ 16 + k) % 2 ^ 16 ≡ (b.used + suc k) % 2 ^ 16 = omega arith in
    ap (λ p. after_takes k p.1) (take-pending b free (omega arith))
    ∙ after_takes-pending k b' free (omega arith) (omega arith)
    ∙ (λ i. record b { cursor = cursor i; used = used i })

admit-open :
    (n : ℕ) (b : RxBatch) (end : ℕ) (entries : List RxCompletion)
    → b.quarantined ≡ false
    → pending b ≡ false
    → admit n b end entries ≡ admit_validated b entries (validate n b end entries)
unfolding admit
admit-open n b end entries free idle =
    ap (λ q. if q then (some in_quarantine, b) else if pending b then (some busy, b) else v) free
    ∙ ap (λ q. if q then (some busy, b) else v) idle
  where
    v : Option RxError × RxBatch
    v = admit_validated b entries (validate n b end entries)

admit-ok :
    (n : ℕ) (b : RxBatch) (end : ℕ) (entries : List RxCompletion)
    → (admit n b end entries).0 ≡ none
    → (b.quarantined ≡ false)
      × (validate n b end entries ≡ none)
      × ((admit n b end entries).1 ≡ record b {
        entries = copy_from_slice b.entries entries;
        cursor = 0;
        count = length entries;
      })
unfolding admit admit_validated
admit-ok n b end entries h = elim (Bool-cases b.quarantined) [
  | inl e ↦ absurd (cc (rw (e, admit) at h))
  | inr free ↦ elim (Bool-cases (pending b)) [
    | inl e ↦ absurd (cc (rw (free, e, admit) at h))
    | inr idle ↦
        let here = admit-open n b end entries free idle in
        elim (Option-cases (validate n b end entries)) [
          | inr (error, e) ↦
              absurd (cc (sym (ap (λ p. p.0) (here ∙ ap (admit_validated b entries) e)) ∙ h))
          | inl e ↦ (free, e, ap (λ p. p.1) (here ∙ ap (admit_validated b entries) e))
        ]
  ]
]

-- After a successful `admit` the calls of `take` return the entries in the order of the used ring,
-- one each, and when all are taken the batch is empty and its used index is the device's.
pub admit-take :
    (n : ℕ) (b : RxBatch) (end : ℕ) (entries : List RxCompletion) (i : ℕ)
    → length b.entries ≡ n
    → b.used < 2 ^ 16
    → end < 2 ^ 16
    → (admit n b end entries).0 ≡ none
    → i < length entries
    → ((take (after_takes i (admit n b end entries).1)).0 ≡ some (get_or entries i empty))
      × ((after_takes (length entries) (admit n b end entries).1).used ≡ end)
      × ((take (after_takes (length entries) (admit n b end entries).1)).0 ≡ none)
unfolding take
admit-take n b end entries i size small small_end h more =
    let done = admit-ok n b end entries h in
    let valid = (validate_iff n b end entries).0 done.1 in
    let m = record b {
      entries = copy_from_slice b.entries entries;
      cursor = 0;
      count = length entries;
    } in
    let mid = after_takes-pending i m done.0 (omega arith) small in
    let all = after_takes-pending (length entries) m done.0 (omega arith) small in
    let here = get_or-copy_from_slice b.entries entries i more (omega (arith, valid.1, size)) in
    let first : (take (after_takes i m)).0 ≡ some (get_or entries i empty) =
      ap (λ x. (take x).0) mid
      ∙ ap (λ p. p.0)
          (take-pending (record m { cursor = 0 + i; used = (b.used + i) % 2 ^ 16 }) done.0
            (omega (arith, more)))
      ∙ ap (λ c. some (get_or m.entries c empty)) (omega arith)
      ∙ ap some here in
    let last : (after_takes (length entries) m).used ≡ end = rw all (omega (arith, valid.0)) in
    let over : (take (after_takes (length entries) m)).0 ≡ none =
      ap (λ x. (take x).0) all
      ∙ take-idle
          (record m { cursor = 0 + length entries; used = (b.used + length entries) % 2 ^ 16 })
          (omega arith) in
    rw done.2 (first, last, over)

-- A batch in quarantine admits nothing and gives no buffer, whatever the device reports.
pub quarantine_lem :
    (n : ℕ) (b : RxBatch) (end : ℕ) (entries : List RxCompletion)
    → (admit n (quarantine b) end entries ≡ (some in_quarantine, quarantine b))
      × (take (quarantine b) ≡ (none, quarantine b))
unfolding admit take quarantine
quarantine_lem n b end entries = (refl, refl)

-- A report that `validate` refuses puts an idle batch into quarantine with its entries unchanged:
-- none of its buffers, not even those of a valid prefix, is given out.
pub admit-refused :
    (n : ℕ) (b : RxBatch) (end : ℕ) (entries : List RxCompletion)
    → b.quarantined ≡ false
    → pending b ≡ false
    → ((length entries ≡ wrapping_sub end b.used) × (length entries ≤ n) × AllSound n entries → ⊥)
    → ((admit n b end entries).1 ≡ quarantine b) × ((take (admit n b end entries).1).0 ≡ none)
unfolding admit_validated
admit-refused n b end entries free idle bad =
    let here = admit-open n b end entries free idle in
    elim (Option-cases (validate n b end entries)) [
      | inl e ↦ absurd (bad ((validate_iff n b end entries).0 e))
      | inr (error, e) ↦
          let state = ap (λ p. p.1) (here ∙ ap (admit_validated b entries) e) in
          (state, ap (λ x. (take x).0) state ∙ ap (λ p. p.0) (quarantine_lem n b end entries).1)
    ]
