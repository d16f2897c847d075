-- ===== src/Physmem/Free.antt =====
-- What a call of free_frame_with answers and does.
use gen_os.Common.{
  ℕ, ◌+◌, ◌≡◌, ◌≢◌, refl, ap, sym, ◌∙◌, subst, inl, inr, Bool, true, false, ◌&&◌, some, arith,
  Bool-cases, Option-cases, set, get_or-set_self,
}
use gen_os.Physmem.{
  FrameAllocator, page_size, holds_index, find, live_index, contains_live, freed, free_frame_with,
}
use gen_os.Physmem.Geometry.{frame_in, find-frame}
use gen_os.Physmem.Bitmap.{bit_at}
use gen_os.Physmem.Invariant.{IsValid}
use gen_os.Physmem.Preserve.{refused-IsValid, freed-IsValid, bit_at-lt, count-set_clear}
use gen_os.Physmem.Live.{live_at-here, live_at-elsewhere, live_index-some, contains_live-live_at}

-- Between the states no frame changed its state, and none came or went.
pub record IsSame (a b : FrameAllocator) : Type 0 where
  pub same : (frame : ℕ) → contains_live b frame ≡ contains_live a frame
  pub as_many : b.allocated_frames ≡ a.allocated_frames

-- Between the states a live frame became free and none else changed.
pub record IsRelease (a : FrameAllocator) (frame : ℕ) (b : FrameAllocator) : Type 0 where
  pub was_live : contains_live a frame ≡ true
  pub dead : contains_live b frame ≡ false
  pub others : (other : ℕ) → other ≢ frame → contains_live b other ≡ contains_live a other
  pub one_less : b.allocated_frames + 1 ≡ a.allocated_frames

-- The call accepts exactly a live frame that was prepared.
abbrev pub Released : ℕ → FrameAllocator → ℕ → (ℕ → Bool) → Bool × FrameAllocator → Type 0
Released words a frame prepare result =
    (result.0 ≡ contains_live a frame && prepare frame)
    × IsValid words result.1
    × (result.0 ≡ true → IsRelease a frame result.1)
    × (result.0 ≡ false → IsSame a result.1)

freed-IsRelease :
    (words : ℕ) (a : FrameAllocator) (frame index : ℕ)
    → IsValid words a
    → live_index a frame ≡ some index
    → IsRelease a frame (freed a index)
unfolding contains_live
freed-IsRelease words a frame index v e =
    let look = live_index-some a frame index e in
    let r = look.2 in
    let at = find-frame 0 page_size a.regions a.frame_count frame r v.laid look.0 look.3 in
    let here : find (holds_index index) a.regions ≡ some r =
      subst (λ i. find (holds_index i) a.regions ≡ some r) look.4 at.0 in
    let back : frame_in index r ≡ frame = subst (λ i. frame_in i r ≡ frame) look.4 at.1 in
    let live : contains_live a frame ≡ true = rw (e, contains_live) refl in
    record {
      was_live = live;
      dead =
          contains_live-live_at (freed a index) frame
          ∙ live_at-here a.regions (set a.allocated index false) frame r look.3 look.0 look.1
          ∙ ap (bit_at (set a.allocated index false)) look.4
          ∙ get_or-set_self a.allocated index false false (bit_at-lt a.allocated index look.5);
      others = λ other ne.
          contains_live-live_at (freed a index) other
          ∙ live_at-elsewhere a.regions a.allocated a.frame_count index other r false v.laid here
              (λ q. ne (q ∙ back))
          ∙ sym (contains_live-live_at a other);
      one_less =
          omega (arith, (count-set_clear a.allocated index a.allocated_frames look.5 v.counted).1);
    }

refused-IsSame :
    (a : FrameAllocator) (invalid unprepared : ℕ)
    → IsSame a (record a { invalid_releases = invalid; preparation_failures = unprepared })
unfolding contains_live live_index
refused-IsSame a invalid unprepared = record { same = λ frame. refl; as_many = refl }

-- The call accepts exactly a live frame that could be prepared; it then frees this frame only, and
-- otherwise leaves every frame as it was.
pub free_frame_with-Released :
    (words : ℕ) (a : FrameAllocator) (frame : ℕ) (prepare : ℕ → Bool)
    → IsValid words a
    → Released words a frame prepare (free_frame_with a frame prepare)
unfolding free_frame_with contains_live
free_frame_with-Released words a frame prepare v = elim (Option-cases (live_index a frame)) [
  | inl e ↦
      rw (e, free_frame_with, contains_live)
        (
          refl,
          refused-IsValid words a.allocation_failures _ a.preparation_failures a v,
          λ h. absurd (cc),
          λ h. refused-IsSame a _ a.preparation_failures,
        )
  | inr (index, e) ↦ elim (Bool-cases (prepare frame)) [
    | inl ready ↦
        rw (e, free_frame_with, contains_live)
          (rw ready (
            refl,
            freed-IsValid words a index v (live_index-some a frame index e).5,
            λ h. freed-IsRelease words a frame index v e,
            λ h. absurd (cc),
          ))
    | inr failed ↦
        rw (e, free_frame_with, contains_live)
          (rw failed (
            refl,
            refused-IsValid words a.allocation_failures a.invalid_releases _ a v,
            λ h. absurd (cc),
            λ h. refused-IsSame a a.invalid_releases _,
          ))
  ]
]
