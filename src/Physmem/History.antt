-- ===== src/Physmem/History.antt =====
-- Histories of the allocator.
use gen_os.Common.{ℕ, ◌≡◌, Bool, true, Option, none, some, List, [], ◌∷◌}
use gen_os.BootMemory.{MemoryRegion}
use gen_os.Physmem.{FrameAllocator, new, add_region, alloc_frame, free_frame_with, is_consistent}
use gen_os.Physmem.Invariant.{IsValid, new-IsValid, IsValid-is_consistent}
use gen_os.Physmem.Preserve.{add_region-IsValid}
use gen_os.Physmem.Alloc.{alloc_frame-Served}
use gen_os.Physmem.Free.{free_frame_with-Released}

-- The calls; a release says whether the frame could be prepared.
pub data Call : Type 0 where
  add : MemoryRegion → Call
  alloc : Call
  free : ℕ → Bool → Call

abbrev pub after : Option (Option ℕ × FrameAllocator) → FrameAllocator → FrameAllocator
after none a = a
after (some p) a = p.1

abbrev pub step : ℕ → Call → FrameAllocator → FrameAllocator
step words (add region) a = (add_region words a region).1
step words alloc a = after (alloc_frame a) a
step words (free frame prepared) a = (free_frame_with a frame (λ f. prepared)).1

unfoldable pub run : ℕ → List Call → FrameAllocator → FrameAllocator
run words [] a = a
run words (c ∷ calls) a = run words calls (step words c a)

pub step-IsValid :
    (words : ℕ) (c : Call) (a : FrameAllocator) → IsValid words a → IsValid words (step words c a)
step-IsValid words (add region) a v = add_region-IsValid words a region v
step-IsValid words alloc a v = let served = alloc_frame-Served words a v in rw served.2 served.3
step-IsValid words (free frame prepared) a v =
    (free_frame_with-Released words a frame (λ f. prepared) v).1

pub run-IsValid :
    (words : ℕ) (calls : List Call) (a : FrameAllocator)
    → IsValid words a
    → IsValid words (run words calls a)
unfolding run
run-IsValid words [] a v = v
run-IsValid words (c ∷ calls) a v =
    run-IsValid words calls (step words c a) (step-IsValid words c a v)

-- A new allocator passes the code's own consistency check after any sequence of calls: regions added,
-- frames granted, and releases of any address, prepared or not.
pub run-is_consistent :
    (words : ℕ) (calls : List Call) → is_consistent words (run words calls (new words)) ≡ true
run-is_consistent words calls =
    IsValid-is_consistent words (run words calls (new words))
      (run-IsValid words calls (new words) (new-IsValid words))
