-- ===== src/Physmem.antt =====
-- kernel/src/physmem.rs: the bitmap allocator of physical frames. The array of `WORDS` words is the
-- list of its bits, word `w` from bit `64 * w` on, and `WORDS` an argument. Of the array `regions`
-- the model keeps the `region_count` entries in use.
pub mod Geometry
pub mod Regions
pub mod Bitmap
pub mod Invariant
pub mod Preserve
pub mod Live
pub mod Grants
pub mod Alloc
pub mod Free
pub mod History
mod Tests
use gen_os.Common.{
  ℕ, zero, suc, ◌+◌, ◌-◌, ◌*◌, ◌/◌, ◌%◌, min, max, Bool, true, false, ◌&&◌, ◌||◌, not, Option, none,
  some, List, [], ◌∷◌, ◌==◌, leb, ltb, if◌then◌else◌, is_some, get_or, set, any, all, count,
  position, replicate, take, drop, length, checked_add, saturating_add, u64_max,
}
use gen_os.BootMemory.{MemoryRegion, is_usable}

abbrev pub page_size : ℕ
page_size = 4096

abbrev pub max_usable_regions : ℕ
max_usable_regions = 64

pub record FrameRegion : Type 0 where
  pub start : ℕ
  pub end : ℕ
  pub first : ℕ

abbrev pub frames : FrameRegion → ℕ
frames r = (r.end - r.start) / page_size

pub record FrameAllocator : Type 0 where
  pub regions : List FrameRegion
  pub allocated : List Bool
  pub frame_count : ℕ
  pub next_word : ℕ
  pub high_water : ℕ
  pub allocated_frames : ℕ
  pub started : Bool
  pub peak_live : ℕ
  pub allocations : ℕ
  pub releases : ℕ
  pub allocation_failures : ℕ
  pub invalid_releases : ℕ
  pub preparation_failures : ℕ

unfoldable pub new : ℕ → FrameAllocator
new words = record {
  regions = [];
  allocated = replicate (words * 64) false;
  frame_count = 0;
  next_word = 0;
  high_water = 0;
  allocated_frames = 0;
  started = false;
  peak_live = 0;
  allocations = 0;
  releases = 0;
  allocation_failures = 0;
  invalid_releases = 0;
  preparation_failures = 0;
}

-- With `align` a power of two, `& !(align - 1)` clears the remainder.
abbrev pub align_down : ℕ → ℕ → ℕ
align_down value align = value - value % align

abbrev pub align_up : ℕ → ℕ → ℕ
align_up value align = align_down (saturating_add value (align - 1)) align

abbrev pub saturating_mul : ℕ → ℕ → ℕ
saturating_mul a b = if leb (a * b) u64_max then a * b else u64_max

abbrev pub overlaps : ℕ → ℕ → FrameRegion → Bool
overlaps start end r = ltb start r.end && ltb r.start end

abbrev pub starts_after : ℕ → FrameRegion → Bool
starts_after start r = ltb start r.start

-- `while slot > 0 && self.regions[slot - 1].start > start`: the new region stands before the longest
-- tail of the table that starts after it.
unfoldable pub insert_region : FrameRegion → List FrameRegion → List FrameRegion
insert_region new [] = new ∷ []
insert_region new (r ∷ rs) =
    let rest = r ∷ insert_region new rs in
    if all (starts_after new.start) (r ∷ rs) then new ∷ r ∷ rs else rest

-- `region.first = first; first += region.frames()`
unfoldable pub renumber : ℕ → List FrameRegion → List FrameRegion
renumber first [] = []
renumber first (r ∷ rs) = record r { first = first } ∷ renumber (first + frames r) rs

abbrev pub laid_out : FrameAllocator → ℕ → ℕ → ℕ → FrameAllocator
laid_out a start end total = record a {
  regions = renumber 0 (insert_region (record { start = start; end = end; first = 0 }) a.regions);
  frame_count = total;
  next_word = 0;
}

-- The guards on a nonempty range of whole pages.
unfoldable pub add_range : ℕ → FrameAllocator → ℕ → ℕ → Bool × FrameAllocator
add_range words a start end = elim (checked_add a.frame_count ((end - start) / page_size)) [
  | none ↦ (false, a)
  | some total ↦
      if length a.regions == max_usable_regions
        || (ltb (saturating_mul words 64) total || any (overlaps start end) a.regions)
      then (false, a)
      else (true, laid_out a start end total)
]

unfoldable pub add_region : ℕ → FrameAllocator → MemoryRegion → Bool × FrameAllocator
add_region words a region =
    if not (is_usable region.kind)
    then (true, a)
    else if a.started
    then (false, a)
    else elim (checked_add region.start region.size) [
      | none ↦ (false, a)
      | some raw_end ↦
          let start = align_up (max region.start page_size) page_size in
          let end = align_down raw_end page_size in
          if leb end start then (true, a) else add_range words a start end
    ]

abbrev pub holds_index : ℕ → FrameRegion → Bool
holds_index index r = leb r.first index && ltb (index - r.first) (frames r)

abbrev pub holds_frame : ℕ → FrameRegion → Bool
holds_frame frame r = leb r.start frame && ltb frame r.end

-- `self.regions[..].iter().find(..)`
unfoldable pub find : (FrameRegion → Bool) → List FrameRegion → Option FrameRegion
find p [] = none
find p (r ∷ rs) = let rest = find p rs in if p r then some r else rest

-- The number of words with managed frames, `self.frame_count.div_ceil(64)`.
abbrev pub used_words : FrameAllocator → ℕ
used_words a = (a.frame_count + 63) / 64

-- The first free bit of a word among those of managed frames: `trailing_zeros` of the free bits.
abbrev pub free_bit : FrameAllocator → Option ℕ
free_bit a =
    position not
      (take (min (a.frame_count - a.next_word * 64) 64) (drop (a.next_word * 64) a.allocated))

abbrev pub granted : FrameAllocator → ℕ → FrameAllocator
granted a index = record a {
  allocated = set a.allocated index true;
  high_water = max a.high_water (index + 1);
  allocated_frames = a.allocated_frames + 1;
  peak_live = max a.peak_live (a.allocated_frames + 1);
  allocations = saturating_add a.allocations 1;
  started = true;
}

-- The body of the loop of `alloc_frame` where the word has a free bit.
abbrev pub grant_index : FrameAllocator → ℕ → Option ℕ × FrameAllocator
grant_index a index = elim (find (holds_index index) a.regions) [
  | none ↦ (none, a)
  | some r ↦ (some (r.start + (index - r.first) * page_size), granted a index)
]

-- The loop of `alloc_frame` on fuel; `none` when the fuel runs out.
unfoldable pub alloc_loop : ℕ → FrameAllocator → Option (Option ℕ × FrameAllocator)
alloc_loop zero a = none
alloc_loop (suc fuel) a =
    let next = alloc_loop fuel (record a { next_word = a.next_word + 1 }) in
    if ltb a.next_word (used_words a)
    then elim (free_bit a) [
      | none ↦ next
      | some bit ↦ some (grant_index a (a.next_word * 64 + bit))
    ]
    else some (none, record a { allocation_failures = saturating_add a.allocation_failures 1 })

-- Each round of the loop leaves a word behind.
unfoldable pub alloc_frame : FrameAllocator → Option (Option ℕ × FrameAllocator)
alloc_frame a = alloc_loop (used_words a + 1) a

unfoldable pub live_index : FrameAllocator → ℕ → Option ℕ
live_index a frame =
    if frame == 0 || not (frame % page_size == 0)
    then none
    else elim (find (holds_frame frame) a.regions) [
      | none ↦ none
      | some r ↦
          let index = r.first + (frame - r.start) / page_size in
          if get_or a.allocated index false then some index else none
    ]

unfoldable pub contains_live : FrameAllocator → ℕ → Bool
contains_live a frame = is_some (live_index a frame)

abbrev pub freed : FrameAllocator → ℕ → FrameAllocator
freed a index = record a {
  allocated = set a.allocated index false;
  allocated_frames = a.allocated_frames - 1;
  releases = saturating_add a.releases 1;
  next_word = min a.next_word (index / 64);
}

-- `prepare` acts on the memory; here it answers whether it succeeded.
unfoldable pub free_frame_with : FrameAllocator → ℕ → (ℕ → Bool) → Bool × FrameAllocator
free_frame_with a frame prepare = elim (live_index a frame) [
  | none ↦ (false, record a { invalid_releases = saturating_add a.invalid_releases 1 })
  | some index ↦
      if prepare frame
      then (true, freed a index)
      else (false, record a { preparation_failures = saturating_add a.preparation_failures 1 })
]

abbrev pub always : ℕ → Bool
always frame = true

unfoldable pub free_frame : FrameAllocator → ℕ → Bool × FrameAllocator
free_frame a frame = free_frame_with a frame always

pub record AllocatorStats : Type 0 where
  pub total : ℕ
  pub live : ℕ
  pub free : ℕ
  pub peak_live : ℕ
  pub allocations : ℕ
  pub releases : ℕ
  pub allocation_failures : ℕ
  pub invalid_releases : ℕ
  pub preparation_failures : ℕ
  pub regions : ℕ

unfoldable pub stats : FrameAllocator → AllocatorStats
stats a = record {
  total = a.frame_count;
  live = a.allocated_frames;
  free = a.frame_count - a.allocated_frames;
  peak_live = a.peak_live;
  allocations = a.allocations;
  releases = a.releases;
  allocation_failures = a.allocation_failures;
  invalid_releases = a.invalid_releases;
  preparation_failures = a.preparation_failures;
  regions = length a.regions;
}

unfoldable pub usable_bytes : FrameAllocator → ℕ
usable_bytes a = a.frame_count * page_size

unfoldable pub recycled_frames : FrameAllocator → ℕ
recycled_frames a = a.high_water - a.allocated_frames

-- A bit that is set.
abbrev pub is_set : Bool → Bool
is_set bit = bit

-- The loop of `is_consistent` over the regions, with the sum it must reach.
unfoldable pub geometry_holds : ℕ → ℕ → List FrameRegion → ℕ → Bool
geometry_holds first end [] total = first == total
geometry_holds first end (r ∷ rs) total =
    let rest = geometry_holds (first + frames r) r.end rs total in
    if ltb r.start end
      || (leb r.end r.start
          || (not (r.first == first)
              || (not (r.start % page_size == 0) || not (r.end % page_size == 0))))
    then false
    else rest

-- `self.allocated[used..]`, and the bits above `tail` in the last used word.
abbrev pub stray_bits : FrameAllocator → Bool
stray_bits a =
    any is_set (drop (used_words a * 64) a.allocated)
    || (not (a.frame_count % 64 == 0)
        && any is_set (
            take (64 - a.frame_count % 64)
              (drop ((used_words a - 1) * 64 + a.frame_count % 64) a.allocated)))

abbrev pub counters_hold : ℕ → FrameAllocator → Bool
counters_hold words a =
    leb (length a.regions) max_usable_regions
    && (leb a.frame_count (saturating_mul words 64)
        && (leb a.high_water a.frame_count
            && (leb a.allocated_frames a.high_water
                && (leb a.allocated_frames a.peak_live
                    && (leb a.peak_live a.frame_count && (a.allocated_frames == 0 || a.started))))))

unfoldable pub is_consistent : ℕ → FrameAllocator → Bool
is_consistent words a =
    counters_hold words a
    && (leb a.next_word (used_words a)
        && (not (stray_bits a)
            && (geometry_holds 0 page_size a.regions a.frame_count
                && (count is_set (take (used_words a * 64) a.allocated) == a.allocated_frames))))
