-- ===== src/Physmem/Alloc.antt =====
-- The loop of alloc_frame ends within its fuel, with a grant or with every frame live.
use gen_os.Common.{
  ℕ, zero, suc, ◌+◌, ◌-◌, ◌*◌, ◌<◌, ◌≡◌, refl, ap, inl, inr, true, Option, none, some, ltb,
  saturating_add, arith, Bool-cases, Option-cases, min,
}
use gen_os.Physmem.{
  FrameRegion, FrameAllocator, page_size, holds_index, find, live_index, contains_live, used_words,
  free_bit, granted, grant_index, alloc_loop, alloc_frame,
}
use gen_os.Physmem.Geometry.{frame_in, find-index}
use gen_os.Physmem.Bitmap.{bit_at, window-some, window-none, window-before}
use gen_os.Physmem.Invariant.{IsValid, fits-size}
use gen_os.Physmem.Preserve.{granted-IsValid, refused-IsValid}
use gen_os.Physmem.Grants.{Answers, granted-IsGrant, exhausted-IsFull}

-- The answer that a call gives, and all that is known of it.
abbrev pub Served : ℕ → FrameAllocator → Option (Option ℕ × FrameAllocator) → Type 0
Served words a result =
    (answer : Option ℕ) × (b : FrameAllocator) × (result ≡ some (answer, b))
    × IsValid words b
    × Answers a answer b

-- The next word, when this one has no free bit.
abbrev skip : FrameAllocator → FrameAllocator
skip a = record a { next_word = a.next_word + 1 }

skip-IsValid :
    (words : ℕ) (a : FrameAllocator)
    → IsValid words a
    → a.next_word < used_words a
    → free_bit a ≡ none
    → IsValid words (skip a)
skip-IsValid words a v more e = record {
  laid = v.laid;
  few = v.few;
  size = v.size;
  fits = v.fits;
  high = v.high;
  clear = v.clear;
  counted = v.counted;
  cursor = omega (arith, more);
  full = λ i h less. elim (Bool-cases (ltb i (a.next_word * 64))) [
    | inl below ↦ v.full i (ground arith) less
    | inr there ↦
        window-none a.allocated (min (a.frame_count - a.next_word * 64) 64) (a.next_word * 64) i e
          (ground arith) (omega arith) (omega (arith, fits-size words a.frame_count v.fits, v.size))
  ];
  peak = v.peak;
  peak_fits = v.peak_fits;
  begun = v.begun;
}

-- What holds of the state behind the word holds of the state before it.
skip-Answers :
    (a : FrameAllocator) (answer : Option ℕ) (b : FrameAllocator)
    → Answers (skip a) answer b
    → Answers a answer b
unfolding contains_live live_index
skip-Answers a none b h = record { all_live = h.all_live; same = h.same; as_many = h.as_many }
skip-Answers a (some frame) b h = record {
  aligned = h.aligned;
  low = h.low;
  fresh = h.fresh;
  live = h.live;
  others = h.others;
  lowest = h.lowest;
  one_more = h.one_more;
}

grant_index-found :
    (a : FrameAllocator) (index : ℕ) (r : FrameRegion)
    → find (holds_index index) a.regions ≡ some r
    → grant_index a index ≡ (some (frame_in index r), granted a index)
grant_index-found a index r e = rw (e, grant_index) refl

-- The round in which the word has a free bit.
found-Served :
    (words bit : ℕ) (a : FrameAllocator)
    → IsValid words a
    → a.next_word < used_words a
    → free_bit a ≡ some bit
    → Served words a (some (grant_index a (a.next_word * 64 + bit)))
found-Served words bit a v more e =
    let index = a.next_word * 64 + bit in
    let window = min (a.frame_count - a.next_word * 64) 64 in
    let bits = window-some a.allocated window (a.next_word * 64) bit e in
    let managed : index < a.frame_count = omega (arith, bits.0, more) in
    let at = find-index 0 page_size a.regions a.frame_count index v.laid (omega arith) managed in
    let before : (i : ℕ) → i < index → bit_at a.allocated i ≡ true = λ i less.
      elim (Bool-cases (ltb i (a.next_word * 64))) [
        | inl below ↦ v.full i (ground arith) (omega arith)
        | inr there ↦
            window-before a.allocated window (a.next_word * 64) bit i e (ground arith) less
      ] in
    (
      some (frame_in index at.0),
      granted a index,
      ap some (grant_index-found a index at.0 at.1),
      granted-IsValid words a index v managed bits.1 bits.2,
      granted-IsGrant words a index at.0 v managed bits.1 bits.2 before at.1,
    )

pub alloc_loop-Served :
    (words fuel : ℕ) (a : FrameAllocator)
    → IsValid words a
    → used_words a < fuel + a.next_word
    → Served words a (alloc_loop fuel a)
unfolding alloc_loop
alloc_loop-Served words zero a v enough = absurd (omega (arith, v.cursor))
alloc_loop-Served words (suc fuel) a v enough = elim (Bool-cases (ltb a.next_word (used_words a))) [
  | inr done ↦
      let failed = record a { allocation_failures = saturating_add a.allocation_failures 1 } in
      let valid : IsValid words failed =
        refused-IsValid words failed.allocation_failures a.invalid_releases a.preparation_failures a
          v in
      (
        none,
        failed,
        rw (done, alloc_loop) refl,
        valid,
        exhausted-IsFull words failed.allocation_failures a v (ground arith),
      )
  | inl more ↦ elim (Option-cases (free_bit a)) [
    | inl e ↦
        let rest =
          alloc_loop-Served words fuel (skip a) (skip-IsValid words a v (ground arith) e)
            (omega (arith, enough)) in
        (
          rest.0,
          rest.1,
          rw (more, alloc_loop) (rw e rest.2),
          rest.3,
          skip-Answers a rest.0 rest.1 rest.4,
        )
    | inr (bit, e) ↦
        let served = found-Served words bit a v (ground arith) e in
        (served.0, served.1, rw (more, alloc_loop) (rw e served.2), served.3, served.4)
  ]
]

-- The call always returns: with the lowest frame that was free, or with nothing when every managed
-- frame is live; in either case the allocator stays valid.
pub alloc_frame-Served :
    (words : ℕ) (a : FrameAllocator) → IsValid words a → Served words a (alloc_frame a)
unfolding alloc_frame
alloc_frame-Served words a v = alloc_loop-Served words (used_words a + 1) a v (omega arith)
