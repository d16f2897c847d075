-- ===== src/Physmem/Tests.antt =====
-- Runs of the allocator, and the theorems at concrete states.
use gen_os.Common.{◌≡◌, refl, true, false, List, [], ◌∷◌}
use gen_os.BootMemory.{MemoryRegion, usable}
use gen_os.Physmem.{
  FrameAllocator, new, add_region, alloc_frame, free_frame_with, is_consistent, find, contains_live,
  live_index, alloc_loop, insert_region, renumber, add_range,
}
use gen_os.Physmem.Invariant.{IsValid, new-IsValid}
use gen_os.Physmem.Alloc.{Served, alloc_frame-Served}
use gen_os.Physmem.Free.{Released, free_frame_with-Released}
use gen_os.Physmem.History.{Call, add, alloc, free, run, run-IsValid, run-is_consistent}

abbrev two_pages : MemoryRegion
two_pages = record { start = 20480; size = 8192; kind = usable }

abbrev low_page : MemoryRegion
low_page = record { start = 0; size = 8192; kind = usable }

-- The lower page comes first, though it was added last; the page at 0 is left out.
abbrev calls : List Call
calls = add two_pages ∷ add low_page ∷ alloc ∷ alloc ∷ free 4096 true ∷ free 4096 true ∷ []

abbrev state : FrameAllocator
state = run 1 calls (new 1)

state-IsValid : IsValid 1 state
state-IsValid = run-IsValid 1 calls (new 1) (new-IsValid 1)

run-is_consistent_example : is_consistent 1 (run 1 calls (new 1)) ≡ true
run-is_consistent_example = run-is_consistent 1 calls

alloc_frame-Served_example : Served 1 state (alloc_frame state)
alloc_frame-Served_example = alloc_frame-Served 1 state state-IsValid

free_frame_with-Released_example :
    Released 1 state 20480 (λ f. true) (free_frame_with state 20480 (λ f. true))
free_frame_with-Released_example = free_frame_with-Released 1 state 20480 (λ f. true) state-IsValid

live_after : (contains_live state 20480 ≡ true) × (contains_live state 4096 ≡ false)
unfolding run new add_region add_range insert_region renumber find alloc_frame alloc_loop
    free_frame_with contains_live live_index
live_after = (refl, refl)
