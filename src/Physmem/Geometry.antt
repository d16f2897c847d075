-- ===== src/Physmem/Geometry.antt =====
-- The regions in use as a numbering of the managed frames.
use gen_os.Common.{
  ℕ, ◌+◌, ◌-◌, ◌*◌, ◌/◌, ◌%◌, ◌<◌, ◌≤◌, ◌≡◌, subst, inl, inr, true, false, some, List, [], ◌∷◌,
  arith, Bool-cases,
}
use gen_os.Physmem.{FrameRegion, page_size, frames, holds_index, holds_frame, find, geometry_holds}

-- From `end` on, aligned regions that do not meet; they number the frames from `first` to `total`.
abbrev pub Laid : ℕ → ℕ → List FrameRegion → ℕ → Type 0
Laid first end [] total = first ≡ total
Laid first end (r ∷ rs) total =
    (end ≤ r.start)
    × (r.start < r.end)
    × (r.first ≡ first)
    × (r.start % page_size ≡ 0)
    × (r.end % page_size ≡ 0)
    × Laid (first + frames r) r.end rs total

pub Laid-le :
    (first end : ℕ) (rs : List FrameRegion) (total : ℕ) → Laid first end rs total → first ≤ total
Laid-le first end [] total l = omega (arith, l)
Laid-le first end (r ∷ rs) total l = omega (arith, Laid-le (first + frames r) r.end rs total l.5)

pub geometry_holds-Laid :
    (first end : ℕ) (rs : List FrameRegion) (total : ℕ)
    → Laid first end rs total
    → geometry_holds first end rs total ≡ true
unfolding geometry_holds
geometry_holds-Laid first end [] total l = ground arith
geometry_holds-Laid first end (r ∷ rs) total l =
    let rest = geometry_holds-Laid (first + frames r) r.end rs total l.5 in
    ground (arith, l.0, l.1, l.2, l.3, l.4)

-- The frame of an index, and the index of a frame.
abbrev pub frame_in : ℕ → FrameRegion → ℕ
frame_in index r = r.start + (index - r.first) * page_size

abbrev pub index_in : ℕ → FrameRegion → ℕ
index_in frame r = r.first + (frame - r.start) / page_size

-- An index finds its region and a frame of it, which finds the index back.
pub find-index :
    (first end : ℕ) (rs : List FrameRegion) (total index : ℕ)
    → Laid first end rs total
    → first ≤ index
    → index < total
    → (r : FrameRegion) × (find (holds_index index) rs ≡ some r)
      × (find (holds_frame (frame_in index r)) rs ≡ some r)
      × (index_in (frame_in index r) r ≡ index)
      × (frame_in index r % page_size ≡ 0)
      × (end ≤ frame_in index r)
unfolding find
find-index first end [] total index l low high = absurd (omega (arith, l))
find-index first end (r ∷ rs) total index l low high = elim (Bool-cases (holds_index index r)) [
  | inl here ↦
      let inside : holds_frame (frame_in index r) r ≡ true =
        ground (arith, l.0, l.1, l.2, l.3, l.4) in
      (
        r,
        rw (here, find),
        rw (inside, find),
        omega (arith, l.2, l.3),
        omega (arith, l.3),
        omega (arith, l.0),
      )
  | inr away ↦
      let rest =
        find-index (first + frames r) r.end rs total index l.5 (ground (arith, l.2)) high in
      let other : holds_frame (frame_in index rest.0) r ≡ false = ground (arith, rest.5) in
      (
        rest.0,
        rw (away, find) rest.1,
        rw (other, find) rest.2,
        rest.3,
        rest.4,
        omega (arith, l.0, l.1, rest.5),
      )
]

-- An aligned frame that lies in a region is the frame of its index.
pub find-frame :
    (first end : ℕ) (rs : List FrameRegion) (total frame : ℕ) (r : FrameRegion)
    → Laid first end rs total
    → frame % page_size ≡ 0
    → find (holds_frame frame) rs ≡ some r
    → (find (holds_index (index_in frame r)) rs ≡ some r)
      × (frame_in (index_in frame r) r ≡ frame)
      × (first ≤ index_in frame r)
      × (index_in frame r < total)
unfolding find
find-frame first end [] total frame r l al e = absurd (cc)
find-frame first end (x ∷ rs) total frame r l al e = elim (Bool-cases (holds_frame frame x)) [
  | inl here ↦
      let same : x ≡ r = ground (arith, rw (here, find) at e) in
      subst
        (λ y.
          (find (holds_index (index_in frame y)) (x ∷ rs) ≡ some y)
          × (frame_in (index_in frame y) y ≡ frame)
          × (first ≤ index_in frame y)
          × (index_in frame y < total))
        same
        (let inside : holds_index (index_in frame x) x ≡ true =
            ground (arith, l.1, l.2, l.3, l.4) in
          (
            rw (inside, find),
            ground (arith, l.2, l.3),
            omega (arith, l.2),
            ground (arith, l.1, l.2, l.3, l.4, Laid-le (first + frames x) x.end rs total l.5),
          ))
  | inr away ↦
      let rest =
        find-frame (first + frames x) x.end rs total frame r l.5 al (rw (away, find) at e) in
      let other : holds_index (index_in frame r) x ≡ false = ground (arith, rest.2, l.2) in
      (rw (other, find) rest.0, rest.1, omega (arith, rest.2), rest.3)
]
