-- ===== src/Physmem/Live.antt =====
-- Which frames are live, read off the regions and the bitmap.
use gen_os.Common.{
  ℕ, ◌+◌, ◌%◌, ◌<◌, ◌≤◌, ◌≡◌, ◌≢◌, refl, ap, ap₂, sym, ◌∙◌, subst, inl, inr, Bool, true, false,
  ◌||◌, not, none, some, List, [], ◌∷◌, ◌==◌, if◌then◌else◌, set, arith, Bool-cases, Option-cases,
  get_or-set_ne, ℕ_discrete,
}
use gen_os.Physmem.{
  FrameRegion, FrameAllocator, page_size, frames, holds_index, holds_frame, find, live_index,
  contains_live,
}
use gen_os.Physmem.Geometry.{Laid, frame_in, index_in, find-index, find-frame}
use gen_os.Physmem.Bitmap.{bit_at}

abbrev pub misplaced : ℕ → Bool
misplaced frame = frame == 0 || not (frame % page_size == 0)

-- The frame's bit, where the frame has one.
abbrev pub live_at : List FrameRegion → List Bool → ℕ → Bool
live_at rs bits frame = if misplaced frame then false else elim (find (holds_frame frame) rs) [
  | none ↦ false
  | some r ↦ bit_at bits (index_in frame r)
]

pub contains_live-live_at :
    (a : FrameAllocator) (frame : ℕ) → contains_live a frame ≡ live_at a.regions a.allocated frame
unfolding contains_live live_index
contains_live-live_at a frame = elim (Bool-cases (misplaced frame)) [
  | inl e ↦ rw (e, contains_live, live_index) refl
  | inr e ↦ elim (Option-cases (find (holds_frame frame) a.regions)) [
    | inl f ↦ rw (e, contains_live, live_index) (rw f refl)
    | inr (r, f) ↦ elim (Bool-cases (bit_at a.allocated (index_in frame r))) [
      | inl b ↦ rw (e, contains_live, live_index) (rw f (rw b refl))
      | inr b ↦ rw (e, contains_live, live_index) (rw f (rw b refl))
    ]
  ]
]

-- What the code's look-up of a live frame answers.
pub live_index-some :
    (a : FrameAllocator) (frame index : ℕ)
    → live_index a frame ≡ some index
    → (frame % page_size ≡ 0)
      × (page_size ≤ frame)
      × (r : FrameRegion) × (find (holds_frame frame) a.regions ≡ some r)
      × (index_in frame r ≡ index)
      × (bit_at a.allocated index ≡ true)
unfolding live_index
live_index-some a frame index h = elim (Bool-cases (misplaced frame)) [
  | inl e ↦ absurd (cc (rw (e, live_index) at h))
  | inr e ↦ elim (Option-cases (find (holds_frame frame) a.regions)) [
    | inl f ↦ absurd (cc (rw f at rw (e, live_index) at h))
    | inr (r, f) ↦ elim (Bool-cases (bit_at a.allocated (index_in frame r))) [
      | inl b ↦
          let same : index_in frame r ≡ index =
            ground (arith, rw b at rw f at rw (e, live_index) at h) in
          (ground arith, ground arith, r, f, same, ap (bit_at a.allocated) (sym same) ∙ b)
      | inr b ↦ absurd (cc (rw b at rw f at rw (e, live_index) at h))
    ]
  ]
]

pub live_at-here :
    (rs : List FrameRegion) (bits : List Bool) (frame : ℕ) (r : FrameRegion)
    → find (holds_frame frame) rs ≡ some r
    → frame % page_size ≡ 0
    → page_size ≤ frame
    → live_at rs bits frame ≡ bit_at bits (index_in frame r)
live_at-here rs bits frame r f al low =
    let placed : misplaced frame ≡ false = ground arith in rw placed (rw f refl)

-- A change of one bit shows at its frame only.
pub live_at-elsewhere :
    (rs : List FrameRegion) (bits : List Bool) (total index other : ℕ) (r : FrameRegion) (b : Bool)
    → Laid 0 page_size rs total
    → find (holds_index index) rs ≡ some r
    → other ≢ frame_in index r
    → live_at rs (set bits index b) other ≡ live_at rs bits other
live_at-elsewhere rs bits total index other r b l here ne = elim (Bool-cases (misplaced other)) [
  | inl e ↦ rw e refl
  | inr e ↦ elim (Option-cases (find (holds_frame other) rs)) [
    | inl f ↦ rw e (rw f refl)
    | inr (q, f) ↦
        let at = find-frame 0 page_size rs total other q l (ground arith) f in
        elim (ℕ_discrete index (index_in other q)) [
          | yes same ↦
              let one : r ≡ q =
                ground (arith, sym here ∙ ap (λ i. find (holds_index i) rs) same ∙ at.0) in
              absurd (ne (sym at.1 ∙ ap₂ frame_in (sym same) (sym one)))
          | no apart ↦ rw e (rw f (get_or-set_ne bits index (index_in other q) b false apart))
        ]
  ]
]

-- The frames stand in the order of their indices.
pub frame_in_mono :
    (first end : ℕ) (rs : List FrameRegion) (total i j : ℕ) (r q : FrameRegion)
    → Laid first end rs total
    → first ≤ i
    → i ≤ j
    → j < total
    → find (holds_index i) rs ≡ some r
    → find (holds_index j) rs ≡ some q
    → frame_in i r ≤ frame_in j q
unfolding find
frame_in_mono first end [] total i j r q l low le less f g = absurd (cc)
frame_in_mono first end (x ∷ rs) total i j r q l low le less f g =
    elim (Bool-cases (holds_index i x)) [
      | inr away ↦
          let far : holds_index j x ≡ false = ground (arith, l.2) in
          frame_in_mono (first + frames x) x.end rs total i j r q l.5 (ground (arith, l.2)) le less
            (rw (away, find) at f) (rw (far, find) at g)
      | inl here ↦
          let same : x ≡ r = ground (arith, rw (here, find) at f) in
          elim (Bool-cases (holds_index j x)) [
            | inl also ↦
                let same' : x ≡ q = ground (arith, rw (also, find) at g) in
                subst (λ y. frame_in i y ≤ frame_in j q) same
                  (subst (λ y. frame_in i x ≤ frame_in j y) same' (omega arith))
            | inr far ↦
                let rest =
                  find-index (first + frames x) x.end rs total j l.5 (ground (arith, l.2)) less in
                let one : rest.0 ≡ q = ground (arith, sym rest.1 ∙ rw (far, find) at g) in
                subst (λ y. frame_in i y ≤ frame_in j q) same
                  (subst (λ y. frame_in i x ≤ frame_in j y) one
                    (ground (arith, l.1, l.2, l.3, l.4, rest.5)))
          ]
    ]
