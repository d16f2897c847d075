-- ===== src/Memory/Tests.antt =====
-- Runs of the physical memory, and the theorems at concrete states.
use gen_os.Common.{◌≡◌, refl, true, not, some, [], ◌∷◌}
use gen_os.BootMemory.{MemoryRegion, MemoryMapInfo, validate_map, validate_regions, usable}
use gen_os.FrameGrant.{Grant, user, table, done, release, refuses_release}
use gen_os.FrameGrant
use gen_os.Physmem.{FrameAllocator}
use gen_os.Physmem
use gen_os.Memory.{
  MemoryState, start, init, add_regions, finish_init, init_regions, is_consistent, give_frame,
  alloc_frame, take_frame, with_ready_state,
}
use gen_os.Memory.History.{
  owns, allocates, frees, pins, retires, run, init-IsJoined, run-consistent,
}
use gen_os.Memory.Invariant.{Agree}
use gen_os.Memory.Calls.{IsJoined, alloc_frame-Returns}
use gen_os.Memory.Release.{release-Agree}

abbrev region : MemoryRegion
region = record { start = 0; size = 16384; kind = usable }

abbrev map : MemoryMapInfo
map = record { region_count = 1; regions = region ∷ [] }

abbrev booted : MemoryState
booted = record (start 1 4) {
  allocator = (Physmem.add_region 1 (Physmem.new 1) region).1;
  boot_started = true;
  ready = true;
}

booted_lem : init 1 (start 1 4) map ≡ done booted
unfolding init init_regions validate_map validate_regions start add_regions finish_init Physmem.new
    Physmem.add_region Physmem.add_range Physmem.insert_region Physmem.renumber
    Physmem.is_consistent Physmem.geometry_holds
booted_lem = refl

abbrev page : Grant
page = record { address = 4096; generation = 1; owner = 1; slot = 0; kind = user }

run-consistent_example :
    (s : MemoryState) × (run 4
        (owns
          ∷ allocates 1 user
          ∷ pins page 1 8192
          ∷ frees page
          ∷ retires 1 4096 8192
          ∷ frees page
          ∷ [])
        booted
      ≡ done s)
    × (is_consistent 1 s ≡ true)
run-consistent_example =
    run-consistent 1 4 map booted
      (owns
        ∷ allocates 1 user
        ∷ pins page 1 8192
        ∷ frees page
        ∷ retires 1 4096 8192
        ∷ frees page
        ∷ [])
      booted_lem

booted-IsJoined : IsJoined 1 4 booted
booted-IsJoined = init-IsJoined 1 4 map booted booted_lem

-- After the grant of the first frame.
abbrev held : MemoryState
held = (alloc_frame-Returns 1 4 booted booted-IsJoined 1 user).0.1

held-IsJoined : IsJoined 1 4 held
held-IsJoined = (alloc_frame-Returns 1 4 booted booted-IsJoined 1 user).2

release_held :
    ((release held.grants page give_frame held.allocator).0
      ≡ not (refuses_release held.grants page))
    × Agree 1
        (release held.grants page give_frame held.allocator).1
        (release held.grants page give_frame held.allocator).2
release_held =
    release-Agree 1 4 held.grants page held.allocator held-IsJoined.ledger held-IsJoined.agree

-- The first frame, the one at 4096, is granted.
granted : (s : MemoryState) × (alloc_frame 4 booted 1 user ≡ done (some page, s))
unfolding alloc_frame with_ready_state take_frame start FrameGrant.new FrameGrant.allocate
    FrameGrant.choose FrameGrant.obtain FrameGrant.admit FrameGrant.owner_frames Physmem.new
    Physmem.add_region Physmem.add_range Physmem.insert_region Physmem.renumber Physmem.alloc_frame
    Physmem.alloc_loop Physmem.find
granted = (_, refl)
