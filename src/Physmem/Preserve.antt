-- ===== src/Physmem/Preserve.antt =====
-- The operations of the allocator keep its invariant.
use gen_os.Common.{
  ℕ, zero, suc, ◌+◌, ◌-◌, ◌/◌, ◌%◌, ◌<◌, ◌≤◌, ◌≡◌, ◌≢◌, ◌∙◌, subst, inl, inr, Bool, true, false,
  ◌||◌, not, max, some, List, [], ◌∷◌, ◌==◌, leb, ltb, any, count, set, length, arith, Option-cases,
  length-set, count-set, get_or-set, checked_add, if_keeps,
}
use gen_os.BootMemory.{MemoryRegion, is_usable}
use gen_os.Physmem.{
  FrameRegion, FrameAllocator, page_size, max_usable_regions, is_set, saturating_mul, laid_out,
  add_range, add_region, overlaps, align_up, align_down, granted, freed, insert_region,
}
use gen_os.Physmem.Regions.{insert_region-Laid, length-renumber, length-insert_region}
use gen_os.Physmem.Bitmap.{bit_at, count-le_high}
use gen_os.Physmem.Invariant.{IsValid}

-- The counters of refusals are free.
pub refused-IsValid :
    (words failures invalid unprepared : ℕ) (a : FrameAllocator)
    → IsValid words a
    → IsValid words (record a {
      allocation_failures = failures;
      invalid_releases = invalid;
      preparation_failures = unprepared;
    })
refused-IsValid words failures invalid unprepared a v = record {
  laid = v.laid;
  few = v.few;
  size = v.size;
  fits = v.fits;
  high = v.high;
  clear = v.clear;
  counted = v.counted;
  cursor = v.cursor;
  full = v.full;
  peak = v.peak;
  peak_fits = v.peak_fits;
  begun = v.begun;
}

-- What holds of the state that a call returns.
abbrev Result : (FrameAllocator → Type 0) → Bool × FrameAllocator → Type 0
Result P p = P p.1

checked_add-some : (m n k : ℕ) → checked_add m n ≡ some k → m + n ≡ k
checked_add-some m n k e = ground arith

laid_out-IsValid :
    (words : ℕ) (a : FrameAllocator) (start end : ℕ)
    → IsValid words a
    → a.started ≡ false
    → page_size ≤ start
    → start < end
    → start % page_size ≡ 0
    → end % page_size ≡ 0
    → length a.regions ≢ max_usable_regions
    → a.frame_count + (end - start) / page_size ≤ saturating_mul words 64
    → any (overlaps start end) a.regions ≡ false
    → IsValid words (laid_out a start end (a.frame_count + (end - start) / page_size))
laid_out-IsValid words a start end v idle low wide al al' room fits free =
    let fresh : FrameRegion = record { start = start; end = end; first = 0 } in
    let sizes =
      length-renumber 0 (insert_region fresh a.regions) ∙ length-insert_region fresh a.regions in
    record {
      laid = insert_region-Laid fresh page_size a.regions a.frame_count v.laid low wide al al' free;
      few = omega (arith, sizes, v.few, room);
      size = v.size;
      fits = fits;
      high = omega (arith, v.high);
      clear = v.clear;
      counted = v.counted;
      cursor = omega arith;
      full = λ i h less. absurd (omega arith);
      peak = v.peak;
      peak_fits = omega (arith, v.peak_fits);
      begun = v.begun;
    }

add_range-IsValid :
    (words : ℕ) (a : FrameAllocator) (start end : ℕ)
    → IsValid words a
    → a.started ≡ false
    → page_size ≤ start
    → start < end
    → start % page_size ≡ 0
    → end % page_size ≡ 0
    → IsValid words (add_range words a start end).1
unfolding add_range
add_range-IsValid words a start end v idle low wide al al' =
    elim (Option-cases (checked_add a.frame_count ((end - start) / page_size))) [
      | inl e ↦ rw (e, add_range) v
      | inr (total, e) ↦
          let sum = checked_add-some a.frame_count ((end - start) / page_size) total e in
          rw (e, add_range)
            (if_keeps (Result (IsValid words))
              (length a.regions == max_usable_regions
                || (ltb (saturating_mul words 64) total || any (overlaps start end) a.regions))
              (false, a) (true, laid_out a start end total) (λ refused. v)
              (λ accepted.
                subst (λ t. IsValid words (laid_out a start end t)) sum
                  (laid_out-IsValid words a start end v idle low wide al al' (ground arith)
                    (ground arith) (ground arith))))
    ]

pub add_region-IsValid :
    (words : ℕ) (a : FrameAllocator) (region : MemoryRegion)
    → IsValid words a
    → IsValid words (add_region words a region).1
unfolding add_region
add_region-IsValid words a region v =
    if_keeps (Result (IsValid words)) (not (is_usable region.kind)) (true, a) _ (λ unusable. v)
      (λ usable.
        if_keeps (Result (IsValid words)) a.started (false, a) _ (λ frozen. v)
          (λ idle. elim (Option-cases (checked_add region.start region.size)) [
            | inl e ↦ rw e v
            | inr (raw_end, e) ↦
                let start = align_up (max region.start page_size) page_size in
                let end = align_down raw_end page_size in
                rw e (
                  if_keeps (Result (IsValid words)) (leb end start) (true, a) _ (λ empty. v)
                    (λ wide.
                      add_range-IsValid words a start end v idle (ground arith) (ground arith)
                        (omega arith) (omega arith)))
          ]))

add_range-keeps :
    (P : FrameAllocator → Type 0) (words : ℕ) (a : FrameAllocator) (start end : ℕ)
    → P a
    → ((total : ℕ) → P (laid_out a start end total))
    → Result P (add_range words a start end)
unfolding add_range
add_range-keeps P words a start end p q =
    elim (Option-cases (checked_add a.frame_count ((end - start) / page_size))) [
      | inl e ↦ rw (e, add_range) p
      | inr (total, e) ↦
          rw (e, add_range)
            (if_keeps (Result P)
              (length a.regions == max_usable_regions
                || (ltb (saturating_mul words 64) total || any (overlaps start end) a.regions))
              (false, a) (true, laid_out a start end total) (λ h. p) (λ h. q total))
    ]

-- What any new layout keeps, a call keeps.
pub add_region-keeps :
    (P : FrameAllocator → Type 0) (words : ℕ) (a : FrameAllocator) (region : MemoryRegion)
    → P a
    → ((start end total : ℕ) → P (laid_out a start end total))
    → Result P (add_region words a region)
unfolding add_region
add_region-keeps P words a region p q =
    if_keeps (Result P) (not (is_usable region.kind)) (true, a) _ (λ h. p)
      (λ h.
        if_keeps (Result P) a.started (false, a) _ (λ h. p)
          (λ h. elim (Option-cases (checked_add region.start region.size)) [
            | inl e ↦ rw e p
            | inr (raw_end, e) ↦
                let start = align_up (max region.start page_size) page_size in
                let end = align_down raw_end page_size in
                rw e (
                  if_keeps (Result P) (leb end start) (true, a) (add_range words a start end)
                    (λ h. p) (λ h. add_range-keeps P words a start end p (q start end)))
          ]))

-- A clear bit of a managed frame is set.
pub granted-IsValid :
    (words : ℕ) (a : FrameAllocator) (index : ℕ)
    → IsValid words a
    → index < a.frame_count
    → index < length a.allocated
    → bit_at a.allocated index ≡ false
    → IsValid words (granted a index)
granted-IsValid words a index v managed inside was =
    let counted = count-set is_set a.allocated index true false inside in
    let more : count is_set (set a.allocated index true) ≡ a.allocated_frames + 1 =
      ground (arith, counted, v.counted, was) in
    let clear : (i : ℕ)
        → max a.high_water (index + 1) ≤ i
        → bit_at (set a.allocated index true) i ≡ false =
      λ i h. elim (get_or-set a.allocated index i true false) [
        | inl (e, b) ↦ absurd (omega arith)
        | inr b ↦ b ∙ v.clear i (omega arith)
      ] in
    let below : a.allocated_frames + 1 ≤ a.frame_count = omega (
      arith,
      more,
      v.high,
      count-le_high (set a.allocated index true) (max a.high_water (index + 1)) clear,
    ) in
    record {
      laid = v.laid;
      few = v.few;
      size = length-set a.allocated index true ∙ v.size;
      fits = v.fits;
      high = omega (arith, v.high);
      clear = clear;
      counted = more;
      cursor = v.cursor;
      full = λ i h less. elim (get_or-set a.allocated index i true false) [
        | inl (e, b) ↦ b
        | inr b ↦ b ∙ v.full i h less
      ];
      peak = omega arith;
      peak_fits = omega (arith, v.peak_fits, below);
      begun = λ e. absurd (cc);
    }

pub bit_at-lt : (bits : List Bool) (i : ℕ) → bit_at bits i ≡ true → i < length bits
bit_at-lt [] i h = absurd (cc)
bit_at-lt (b ∷ bits) zero h = omega arith
bit_at-lt (b ∷ bits) (suc i) h = omega (arith, bit_at-lt bits i h)

pub count-set_clear :
    (bits : List Bool) (i live : ℕ)
    → bit_at bits i ≡ true
    → count is_set bits ≡ live
    → (count is_set (set bits i false) ≡ live - 1) × (1 ≤ live)
count-set_clear bits i live was sum =
    let counted = count-set is_set bits i false false (bit_at-lt bits i was) in
    (ground (arith, counted), ground (arith, counted))

-- A set bit of a managed frame is cleared.
pub freed-IsValid :
    (words : ℕ) (a : FrameAllocator) (index : ℕ)
    → IsValid words a
    → bit_at a.allocated index ≡ true
    → IsValid words (freed a index)
freed-IsValid words a index v was = record {
  laid = v.laid;
  few = v.few;
  size = length-set a.allocated index false ∙ v.size;
  fits = v.fits;
  high = v.high;
  clear = λ i h. elim (get_or-set a.allocated index i false false) [
    | inl (e, b) ↦ b
    | inr b ↦ b ∙ v.clear i h
  ];
  counted = (count-set_clear a.allocated index a.allocated_frames was v.counted).0;
  cursor = omega (arith, v.cursor);
  full = λ i h less. elim (get_or-set a.allocated index i false false) [
    | inl (e, b) ↦ absurd (omega arith)
    | inr b ↦ b ∙ v.full i (omega arith) less
  ];
  peak = omega (arith, v.peak);
  peak_fits = v.peak_fits;
  begun = v.begun;
}
