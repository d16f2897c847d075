-- ===== src/Physmem/Grants.antt =====
-- What a call of alloc_frame answers and does.
use gen_os.Common.{
  ℕ, ◌+◌, ◌%◌, ◌<◌, ◌≤◌, ◌≡◌, ◌≢◌, refl, ap, sym, ◌∙◌, subst, inl, inr, Bool, true, false, Option,
  none, some, List, ltb, get_or-set_self, set, arith, Bool-cases, length,
}
use gen_os.Physmem.{
  FrameRegion, FrameAllocator, page_size, holds_index, holds_frame, find, live_index, contains_live,
  used_words, granted,
}
use gen_os.Physmem.Geometry.{frame_in, index_in, find-index, find-frame}
use gen_os.Physmem.Bitmap.{bit_at}
use gen_os.Physmem.Invariant.{IsValid}
use gen_os.Physmem.Live.{
  live_at, live_at-here, live_at-elsewhere, frame_in_mono, contains_live-live_at,
}

-- The frames that the allocator may grant.
abbrev pub Manages : FrameAllocator → ℕ → Type 0
Manages a frame =
    (frame % page_size ≡ 0) × (r : FrameRegion) × (find (holds_frame frame) a.regions ≡ some r)

-- Between the states a frame became live and none else changed; it is the lowest that was free.
pub record IsGrant (a : FrameAllocator) (frame : ℕ) (b : FrameAllocator) : Type 0 where
  pub aligned : frame % page_size ≡ 0
  pub low : page_size ≤ frame
  pub fresh : contains_live a frame ≡ false
  pub live : contains_live b frame ≡ true
  pub others : (other : ℕ) → other ≢ frame → contains_live b other ≡ contains_live a other
  pub lowest : (other : ℕ) → Manages a other → contains_live a other ≡ false → frame ≤ other
  pub one_more : b.allocated_frames ≡ a.allocated_frames + 1

-- Every managed frame is live, and stays as it is.
pub record IsFull (a b : FrameAllocator) : Type 0 where
  pub all_live : (frame : ℕ) → Manages a frame → contains_live a frame ≡ true
  pub same : (frame : ℕ) → contains_live b frame ≡ contains_live a frame
  pub as_many : b.allocated_frames ≡ a.allocated_frames

abbrev pub Answers : FrameAllocator → Option ℕ → FrameAllocator → Type 0
Answers a none b = IsFull a b
Answers a (some frame) b = IsGrant a frame b

-- The bit of a frame that the allocator manages.
Manages-bit :
    (words : ℕ) (a : FrameAllocator) (frame : ℕ)
    → IsValid words a
    → (m : Manages a frame)
    → (index_in frame m.1 < a.frame_count)
      × (contains_live a frame ≡ bit_at a.allocated (index_in frame m.1))
Manages-bit words a frame v m =
    let at = find-frame 0 page_size a.regions a.frame_count frame m.1 v.laid m.0 m.2 in
    let back =
      find-index 0 page_size a.regions a.frame_count (index_in frame m.1) v.laid (omega arith)
        at.3 in
    let one : back.0 ≡ m.1 = ground (arith, sym back.1 ∙ at.0) in
    let low : page_size ≤ frame =
      subst (λ y. page_size ≤ y) (ap (frame_in (index_in frame m.1)) one ∙ at.1) back.5 in
    (at.3, contains_live-live_at a frame ∙ live_at-here a.regions a.allocated frame m.1 m.2 m.0 low)

-- The bit of an index is granted where the bits before it are set.
pub granted-IsGrant :
    (words : ℕ) (a : FrameAllocator) (index : ℕ) (r : FrameRegion)
    → IsValid words a
    → index < a.frame_count
    → index < length a.allocated
    → bit_at a.allocated index ≡ false
    → ((i : ℕ) → i < index → bit_at a.allocated i ≡ true)
    → find (holds_index index) a.regions ≡ some r
    → IsGrant a (frame_in index r) (granted a index)
granted-IsGrant words a index r v managed inside clear before f =
    let at = find-index 0 page_size a.regions a.frame_count index v.laid (omega arith) managed in
    let one : at.0 ≡ r = ground (arith, sym at.1 ∙ f) in
    let found : find (holds_frame (frame_in index r)) a.regions ≡ some r =
      subst (λ y. find (holds_frame (frame_in index y)) a.regions ≡ some y) one at.2 in
    let index_back : index_in (frame_in index r) r ≡ index =
      subst (λ y. index_in (frame_in index y) y ≡ index) one at.3 in
    let aligned : frame_in index r % page_size ≡ 0 =
      subst (λ y. frame_in index y % page_size ≡ 0) one at.4 in
    let low : page_size ≤ frame_in index r = subst (λ y. page_size ≤ frame_in index y) one at.5 in
    let here : (bits : List Bool) → live_at a.regions bits (frame_in index r) ≡ bit_at bits index =
      λ bits.
        live_at-here a.regions bits (frame_in index r) r found aligned low
        ∙ ap (bit_at bits) index_back in
    record {
      aligned = aligned;
      low = low;
      fresh = contains_live-live_at a (frame_in index r) ∙ here a.allocated ∙ clear;
      live =
          contains_live-live_at (granted a index) (frame_in index r)
          ∙ here (set a.allocated index true)
          ∙ get_or-set_self a.allocated index true false inside;
      others = λ other ne.
          contains_live-live_at (granted a index) other
          ∙ live_at-elsewhere a.regions a.allocated a.frame_count index other r true v.laid f ne
          ∙ sym (contains_live-live_at a other);
      lowest = λ other m dead.
          let bit = Manages-bit words a other v m in
          let there = find-frame 0 page_size a.regions a.frame_count other m.1 v.laid m.0 m.2 in
          elim (Bool-cases (ltb (index_in other m.1) index)) [
            | inl less ↦ absurd (cc (sym dead ∙ bit.1 ∙ before (index_in other m.1) (ground arith)))
            | inr after ↦
                subst (λ y. frame_in index r ≤ y) there.1
                  (frame_in_mono 0 page_size a.regions a.frame_count index (index_in other m.1) r
                    m.1 v.laid (omega arith) (ground arith) bit.0 f there.0)
          ];
      one_more = refl;
    }

pub exhausted-IsFull :
    (words k : ℕ) (a : FrameAllocator)
    → IsValid words a
    → used_words a ≤ a.next_word
    → IsFull a (record a { allocation_failures = k })
unfolding contains_live live_index
exhausted-IsFull words k a v done = record {
  all_live = λ frame m.
      let bit = Manages-bit words a frame v m in
      bit.1 ∙ v.full (index_in frame m.1) (omega (arith, bit.0)) bit.0;
  same = λ frame. refl;
  as_many = refl;
}
