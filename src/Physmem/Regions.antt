-- ===== src/Physmem/Regions.antt =====
-- Adding a region keeps the table of regions sorted, apart and numbered.
use gen_os.Common.{
  ℕ, suc, ◌+◌, ◌%◌, ◌<◌, ◌≤◌, ◌≡◌, refl, ap, subst, inl, inr, true, false, List, [], ◌∷◌, any, all,
  arith, Bool-cases, length,
}
use gen_os.Physmem.{FrameRegion, page_size, frames, insert_region, renumber, overlaps, starts_after}
use gen_os.Physmem.Geometry.{Laid}

-- Aligned regions from `end` on that do not meet, whatever their numbers.
abbrev Apart : ℕ → List FrameRegion → Type 0
Apart end [] = Unit {0}
Apart end (r ∷ rs) =
    (end ≤ r.start)
    × (r.start < r.end)
    × (r.start % page_size ≡ 0)
    × (r.end % page_size ≡ 0)
    × Apart r.end rs

unfoldable pub sum_frames : List FrameRegion → ℕ
sum_frames [] = 0
sum_frames (r ∷ rs) = frames r + sum_frames rs

pub Laid-sum_frames :
    (first end : ℕ) (rs : List FrameRegion) (total : ℕ)
    → Laid first end rs total
    → first + sum_frames rs ≡ total
unfolding sum_frames
Laid-sum_frames first end [] total l = omega (arith, l)
Laid-sum_frames first end (r ∷ rs) total l =
    omega (arith, Laid-sum_frames (first + frames r) r.end rs total l.5)

Laid-Apart :
    (first end : ℕ) (rs : List FrameRegion) (total : ℕ) → Laid first end rs total → Apart end rs
Laid-Apart first end [] total l = tt
Laid-Apart first end (r ∷ rs) total l =
    (l.0, l.1, l.3, l.4, Laid-Apart (first + frames r) r.end rs total l.5)

renumber-Laid :
    (first end : ℕ) (rs : List FrameRegion)
    → Apart end rs
    → Laid first end (renumber first rs) (first + sum_frames rs)
unfolding renumber sum_frames
renumber-Laid first end [] a = omega arith
renumber-Laid first end (r ∷ rs) a =
    let sum : first + frames r + sum_frames rs ≡ first + (frames r + sum_frames rs) = omega arith in
    (
      a.0,
      a.1,
      refl,
      a.2,
      a.3,
      subst (Laid (first + frames r) r.end (renumber (first + frames r) rs)) sum
          (renumber-Laid (first + frames r) r.end rs a.4),
    )

all-starts_after :
    (start end : ℕ) (rs : List FrameRegion)
    → Apart end rs
    → start < end
    → all (starts_after start) rs ≡ true
all-starts_after start end [] a h = refl
all-starts_after start end (r ∷ rs) a h =
    ground (arith, a.0, a.1, all-starts_after start r.end rs a.4)

insert_region-Apart :
    (new : FrameRegion) (end : ℕ) (rs : List FrameRegion)
    → Apart end rs
    → end ≤ new.start
    → new.start < new.end
    → new.start % page_size ≡ 0
    → new.end % page_size ≡ 0
    → any (overlaps new.start new.end) rs ≡ false
    → Apart end (insert_region new rs)
unfolding insert_region
insert_region-Apart new end [] a low wide al al' free = (low, wide, al, al', tt)
insert_region-Apart new end (r ∷ rs) a low wide al al' free =
    elim (Bool-cases (all (starts_after new.start) (r ∷ rs))) [
      | inl before ↦
          rw (before, insert_region) (low, wide, al, al', (ground (arith, a.1), a.1, a.2, a.3, a.4))
      | inr after ↦
          let left : r.end ≤ new.start =
            ground (arith, a.1, all-starts_after new.start r.end rs a.4) in
          rw (after, insert_region)
            (
              a.0,
              a.1,
              a.2,
              a.3,
              insert_region-Apart new r.end rs a.4 left wide al al' (ground arith),
            )
    ]

sum_frames-insert_region :
    (new : FrameRegion) (rs : List FrameRegion)
    → sum_frames (insert_region new rs) ≡ frames new + sum_frames rs
unfolding sum_frames insert_region
sum_frames-insert_region new [] = refl
sum_frames-insert_region new (r ∷ rs) = elim (Bool-cases (all (starts_after new.start) (r ∷ rs))) [
  | inl before ↦ rw (before, insert_region) refl
  | inr after ↦ rw (after, insert_region) (omega (arith, sum_frames-insert_region new rs))
]

pub length-renumber : (first : ℕ) (rs : List FrameRegion) → length (renumber first rs) ≡ length rs
unfolding renumber
length-renumber first [] = refl
length-renumber first (r ∷ rs) = ap suc (length-renumber (first + frames r) rs)

pub length-insert_region :
    (new : FrameRegion) (rs : List FrameRegion) → length (insert_region new rs) ≡ length rs + 1
unfolding insert_region
length-insert_region new [] = omega arith
length-insert_region new (r ∷ rs) = elim (Bool-cases (all (starts_after new.start) (r ∷ rs))) [
  | inl before ↦ rw (before, insert_region) (omega arith)
  | inr after ↦ rw (after, insert_region) (omega (arith, length-insert_region new rs))
]

-- The table after an insertion, numbered anew.
pub insert_region-Laid :
    (new : FrameRegion) (end : ℕ) (rs : List FrameRegion) (total : ℕ)
    → Laid 0 end rs total
    → end ≤ new.start
    → new.start < new.end
    → new.start % page_size ≡ 0
    → new.end % page_size ≡ 0
    → any (overlaps new.start new.end) rs ≡ false
    → Laid 0 end (renumber 0 (insert_region new rs)) (total + frames new)
insert_region-Laid new end rs total l low wide al al' free =
    let sum : 0 + sum_frames (insert_region new rs) ≡ total + frames new =
      omega (arith, sum_frames-insert_region new rs, Laid-sum_frames 0 end rs total l) in
    subst (Laid 0 end (renumber 0 (insert_region new rs))) sum (
      renumber-Laid 0 end (insert_region new rs)
        (insert_region-Apart new end rs (Laid-Apart 0 end rs total l) low wide al al' free))
