-- ===== src/BootMemory/Retained.antt =====
-- The check that a range is covered by memory that the loader and the kernel keep.
use gen_os.Common.{
  ℕ, zero, suc, ◌+◌, ◌<◌, ◌≤◌, ◌≡◌, ◌≢◌, ◌↔◌, refl, sym, ◌∙◌, subst, ◌⊎◌, inl, inr, Bool, true,
  false, min, none, some, List, [], ◌∷◌, ◌==◌, leb, ltb, any, checked_add, u64_max, arith,
  Bool-cases, Option-cases,
}
use gen_os.BootMemory.{
  MemoryRegion, BootMemoryError, Check, accepted, refused, unfinished, unreserved, bad_range, ok,
  err, range_end, retains, find, retained_loop, require_retained,
}

find-none : (p : MemoryRegion → Bool) (rs : List MemoryRegion) → find p rs ≡ none → any p rs ≡ false
unfolding find
find-none p [] e = refl
find-none p (r ∷ rs) e = elim (Bool-cases (p r)) [
  | inl h ↦ absurd (cc (rw (h, find) at e))
  | inr h ↦ rw h (find-none p rs (rw (h, find) at e))
]

find-some :
    (p : MemoryRegion → Bool) (rs : List MemoryRegion) (r : MemoryRegion)
    → find p rs ≡ some r
    → (p r ≡ true) × ((q : MemoryRegion → Bool) → q r ≡ true → any q rs ≡ true)
unfolding find
find-some p [] r e = absurd (cc)
find-some p (x ∷ rs) r e = elim (Bool-cases (p x)) [
  | inl h ↦
      let same : x ≡ r = ground (arith, rw (h, find) at e) in
      subst (λ y. (p y ≡ true) × ((q : MemoryRegion → Bool) → q y ≡ true → any q (x ∷ rs) ≡ true))
        same (h, λ q k. ground (arith, k))
  | inr h ↦
      let rest = find-some p rs r (rw (h, find) at e) in
      (rest.0, λ q k. let found = rest.1 q k in ground (arith, found))
]

-- A byte of the region from the cursor on.
retains-from :
    (cursor x : ℕ) (r : MemoryRegion)
    → retains cursor r ≡ true
    → cursor ≤ x
    → x < r.start + r.size
    → retains x r ≡ true
retains-from cursor x r e low high = elim (Option-cases (checked_add r.start r.size)) [
  | inl none_there ↦ absurd (ground (arith, rw none_there at e))
  | inr (end, there) ↦ rw there (ground (arith, rw there at e))
]

retains-end : (cursor : ℕ) (r : MemoryRegion) → retains cursor r ≡ true → cursor < r.start + r.size
retains-end cursor r e = elim (Option-cases (checked_add r.start r.size)) [
  | inl none_there ↦ absurd (ground (arith, rw none_there at e))
  | inr (end, there) ↦ ground (arith, rw there at e)
]

-- Every byte from `low` to `high` lies in a kept region.
abbrev pub Covered : List MemoryRegion → ℕ → ℕ → Type 0
Covered regions low high = (x : ℕ) → low ≤ x → x < high → any (retains x) regions ≡ true

-- The answer of the loop is right, and there is one.
abbrev Verdict : List MemoryRegion → ℕ → ℕ → Check → Type 0
Verdict regions low high accepted = Covered regions low high
Verdict regions low high (refused e) =
    (x : ℕ) × (low ≤ x) × (x < high) × (any (retains x) regions ≡ false) × (e ≡ unreserved)
Verdict regions low high unfinished = ⊥

-- What holds behind the cursor's step holds of the whole.
Verdict-step :
    (regions : List MemoryRegion) (cursor end : ℕ) (r : MemoryRegion) (answer : Check)
    → find (retains cursor) regions ≡ some r
    → Verdict regions (min (r.start + r.size) end) end answer
    → Verdict regions cursor end answer
Verdict-step regions cursor end r accepted e h = λ x low high.
    elim (Bool-cases (ltb x (r.start + r.size))) [
      | inl inside ↦
          let found = find-some (retains cursor) regions r e in
          found.1 (retains x) (retains-from cursor x r found.0 low (ground arith))
      | inr beyond ↦ h x (ground arith) high
    ]
Verdict-step regions cursor end r (refused w) e h =
    let moved = retains-end cursor r (find-some (retains cursor) regions r e).0 in
    (h.0, omega (arith, h.1, h.2, moved), h.2, h.3, h.4)
Verdict-step regions cursor end r unfinished e h = h

retained_loop-Verdict :
    (fuel : ℕ) (regions : List MemoryRegion) (cursor end : ℕ)
    → end ≤ cursor + fuel
    → Verdict regions cursor end (retained_loop fuel regions cursor end)
unfolding retained_loop
retained_loop-Verdict zero regions cursor end enough =
    let stop : ltb cursor end ≡ false = ground arith in
    rw (stop, retained_loop) (λ x low high. absurd (omega arith))
retained_loop-Verdict (suc fuel) regions cursor end enough = elim (Bool-cases (ltb cursor end)) [
  | inr stop ↦ rw (stop, retained_loop) (λ x low high. absurd (ground arith))
  | inl more ↦ elim (Option-cases (find (retains cursor) regions)) [
    | inl e ↦
        rw (more, retained_loop)
          (rw e (cursor, omega arith, ground arith, find-none (retains cursor) regions e, refl))
    | inr (r, e) ↦
        let moved = retains-end cursor r (find-some (retains cursor) regions r e).0 in
        rw (more, retained_loop)
          (rw e (
            Verdict-step regions cursor end r _ e (
              retained_loop-Verdict fuel regions (min (r.start + r.size) end) end
                (ground (arith, moved)))))
  ]
]

-- The range can be covered: it is not empty, ends in the address space, and every byte of it lies in a
-- kept region.
abbrev pub Retains : List MemoryRegion → ℕ → ℕ → Type 0
Retains regions start size =
    (size ≢ 0) × (start + size ≤ u64_max) × Covered regions start (start + size)

pub range_end-cases :
    (start size : ℕ)
    → ((range_end start size ≡ ok (start + size)) × (size ≢ 0) × (start + size ≤ u64_max))
      ⊎ ((e : BootMemoryError) × (range_end start size ≡ err e)
          × ((size ≡ 0) ⊎ (u64_max < start + size)))
range_end-cases start size = elim (Bool-cases (size == 0)) [
  | inl e ↦ inr (bad_range, rw e refl, inl (ground arith))
  | inr e ↦ elim (Bool-cases (leb (start + size) u64_max)) [
    | inl fits ↦ inl (rw (e, fits) refl, ground arith, ground arith)
    | inr over ↦ inr (bad_range, rw (e, over) refl, inr (ground arith))
  ]
]

Verdict-accepted :
    (regions : List MemoryRegion) (low high : ℕ) (answer : Check)
    → Verdict regions low high answer
    → (answer ≡ accepted) ↔ Covered regions low high
Verdict-accepted regions low high accepted v = (λ e. v, λ c. refl)
Verdict-accepted regions low high (refused w) v =
    (λ e. absurd (cc), λ c. absurd (cc (sym v.3 ∙ c v.0 v.1 v.2)))
Verdict-accepted regions low high unfinished v = absurd v

Verdict-finished :
    (regions : List MemoryRegion) (low high : ℕ) (answer : Check)
    → Verdict regions low high answer
    → answer ≢ unfinished
Verdict-finished regions low high accepted v e = cc
Verdict-finished regions low high (refused w) v e = cc
Verdict-finished regions low high unfinished v e = v

-- The check accepts exactly a range that is not empty, ends in the address space, and has every byte
-- in a region of the loader or the kernel.
pub require_retained_iff :
    (regions : List MemoryRegion) (start size : ℕ)
    → (require_retained regions start size ≡ accepted) ↔ Retains regions start size
unfolding require_retained
require_retained_iff regions start size = elim (range_end-cases start size) [
  | inl (e, nz, fits) ↦
      let loop =
        Verdict-accepted regions start (start + size)
          (retained_loop size regions start (start + size))
          (retained_loop-Verdict size regions start (start + size) (omega arith)) in
      rw (e, require_retained) (λ h. (nz, fits, loop.0 h), λ c. loop.1 c.2)
  | inr (w, e, bad) ↦ rw (e, require_retained) (λ h. absurd (cc), λ c. absurd (ground arith))
]

-- Its loop ends within `size` rounds.
pub require_retained_ends :
    (regions : List MemoryRegion) (start size : ℕ)
    → require_retained regions start size ≢ unfinished
unfolding require_retained
require_retained_ends regions start size = elim (range_end-cases start size) [
  | inl (e, nz, fits) ↦
      rw (e, require_retained)
        (Verdict-finished regions start (start + size)
          (retained_loop size regions start (start + size))
          (retained_loop-Verdict size regions start (start + size) (omega arith)))
  | inr (w, e, bad) ↦ rw (e, require_retained) (λ h. cc)
]
