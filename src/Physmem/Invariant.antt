-- ===== src/Physmem/Invariant.antt =====
-- The invariant of the allocator: the regions number the managed frames, only managed frames have
-- a bit, the counters count the bits, and every frame below the cursor is taken.
use gen_os.Common.{
  ℕ, zero, suc, ◌+◌, ◌-◌, ◌*◌, ◌%◌, ◌<◌, ◌≤◌, ◌≡◌, refl, ◌∙◌, inl, inr, true, false, ◌==◌, count,
  get_or, length, replicate, arith, Bool-cases, length-replicate, count-zero, any-replicate,
}
use gen_os.Physmem.{
  FrameAllocator, page_size, max_usable_regions, is_set, used_words, saturating_mul, new,
  stray_bits, counters_hold, is_consistent,
}
use gen_os.Physmem.Geometry.{Laid, geometry_holds-Laid}
use gen_os.Physmem.Bitmap.{
  bit_at, count-le_high, any-drop_clear, any-take-drop_clear, count-take_clear,
}

pub record IsValid (words : ℕ) (a : FrameAllocator) : Type 0 where
  pub laid : Laid 0 page_size a.regions a.frame_count
  pub few : length a.regions ≤ max_usable_regions
  pub size : length a.allocated ≡ words * 64
  pub fits : a.frame_count ≤ saturating_mul words 64
  pub high : a.high_water ≤ a.frame_count
  pub clear : (i : ℕ) → a.high_water ≤ i → bit_at a.allocated i ≡ false
  pub counted : count is_set a.allocated ≡ a.allocated_frames
  pub cursor : a.next_word ≤ used_words a
  pub full : (i : ℕ) → i < a.next_word * 64 → i < a.frame_count → bit_at a.allocated i ≡ true
  pub peak : a.allocated_frames ≤ a.peak_live
  pub peak_fits : a.peak_live ≤ a.frame_count
  pub begun : a.started ≡ false → a.high_water ≡ 0

pub fits-size : (words total : ℕ) → total ≤ saturating_mul words 64 → total ≤ words * 64
fits-size words total h = ground arith

get_or-replicate : (n i : ℕ) → get_or (replicate n false) i false ≡ false
get_or-replicate zero i = refl
get_or-replicate (suc n) zero = refl
get_or-replicate (suc n) (suc i) = get_or-replicate n i

pub new-IsValid : (words : ℕ) → IsValid words (new words)
unfolding new
new-IsValid words = record {
  laid = refl;
  few = omega arith;
  size = length-replicate (words * 64) false;
  fits = omega arith;
  high = omega arith;
  clear = λ i h. get_or-replicate (words * 64) i;
  counted =
      count-zero is_set (replicate (words * 64) false)
        (any-replicate is_set (words * 64) false refl);
  cursor = omega arith;
  full = λ i h less. absurd (omega arith);
  peak = omega arith;
  peak_fits = omega arith;
  begun = λ e. refl;
}

pub allocated_frames-le :
    (words : ℕ) (a : FrameAllocator) → IsValid words a → a.allocated_frames ≤ a.high_water
allocated_frames-le words a v =
    omega (arith, count-le_high a.allocated a.high_water v.clear, v.counted)

counters : (words : ℕ) (a : FrameAllocator) → IsValid words a → counters_hold words a ≡ true
counters words a v =
    let below = allocated_frames-le words a v in
    elim (Bool-cases a.started) [
      | inl s ↦ ground (arith, v.few, v.fits, v.high, v.peak, v.peak_fits)
      | inr s ↦ let idle = v.begun s in ground (arith, v.few, v.fits, v.high, v.peak, v.peak_fits)
    ]

none_stray : (words : ℕ) (a : FrameAllocator) → IsValid words a → stray_bits a ≡ false
none_stray words a v =
    let behind =
      any-drop_clear a.allocated (used_words a * 64) a.high_water v.clear (omega (arith, v.high)) in
    elim (Bool-cases (a.frame_count % 64 == 0)) [
      | inl e ↦ rw behind (rw e refl)
      | inr e ↦
          let tail =
            any-take-drop_clear a.allocated (64 - a.frame_count % 64)
              ((used_words a - 1) * 64 + a.frame_count % 64) a.high_water v.clear
              (ground (arith, v.high)) in
          rw behind (rw tail (rw e refl))
    ]

-- The code's own check accepts what satisfies the invariant.
pub IsValid-is_consistent :
    (words : ℕ) (a : FrameAllocator) → IsValid words a → is_consistent words a ≡ true
unfolding is_consistent
IsValid-is_consistent words a v =
    let sum =
      count-take_clear a.allocated (used_words a * 64) a.high_water v.clear (omega (arith, v.high))
      ∙ v.counted in
    let first = counters words a v in
    let stray = none_stray words a v in
    let shape = geometry_holds-Laid 0 page_size a.regions a.frame_count v.laid in
    rw (first, stray, shape, sum) (ground (arith, v.cursor))
