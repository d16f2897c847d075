-- ===== src/Memory.antt =====
-- kernel/src/memory.rs: the physical memory of the kernel, the bitmap allocator under the ledger of
-- grants. `words` and `n` are the sizes of the bitmap and of the ledger. Where the code halts the
-- machine (`reject`, a failed assertion) the outcome is `panicked`. The fault injection of the test
-- builds is off, and the contents of the frames are not kept.
pub mod Ledger
pub mod Invariant
pub mod Release
pub mod Calls
pub mod History
mod Tests
use gen_os.Common.{
  ℕ, Bool, true, false, ◌&&◌, not, Option, none, some, List, [], ◌∷◌, if◌then◌else◌,
}
use gen_os.BootMemory.{MemoryRegion, MemoryMapInfo, Result, ok, err, is_usable, validate_map}
use gen_os.FrameGrant.{Grant, Kind, Outcome, panicked, done}
use gen_os.FrameGrant
use gen_os.Physmem.{FrameAllocator, contains_live, free_frame_with, add_region, always}
use gen_os.Physmem

pub record MemoryState : Type 0 where
  pub allocator : FrameAllocator
  pub grants : FrameGrant.Ledger
  pub boot_started : Bool
  pub ready : Bool

-- The static `STATE`.
unfoldable pub start : ℕ → ℕ → MemoryState
start words n = record {
  allocator = Physmem.new words;
  grants = FrameGrant.new n;
  boot_started = false;
  ready = false;
}

-- The loop of `init` over the regions of the map.
unfoldable pub add_regions : ℕ → FrameAllocator → List MemoryRegion → Outcome FrameAllocator
add_regions words a [] = done a
add_regions words a (region ∷ regions) =
    let added = add_region words a region in
    let rest = add_regions words added.1 regions in
    if is_usable region.kind && not added.0 then panicked else rest

unfoldable pub finish_init : ℕ → MemoryState → Outcome FrameAllocator → Outcome MemoryState
finish_init words s panicked = panicked
finish_init words s (done a) =
    if Physmem.is_consistent words a
    then done (record s { allocator = a; boot_started = true; ready = true })
    else panicked

unfoldable pub init_regions : ℕ → MemoryState → Result (List MemoryRegion) → Outcome MemoryState
init_regions words s (err e) = panicked
init_regions words s (ok regions) = finish_init words s (add_regions words s.allocator regions)

unfoldable pub init : ℕ → MemoryState → MemoryMapInfo → Outcome MemoryState
init words s map = if s.boot_started then panicked else init_regions words s (validate_map map)

unfoldable pub with_ready_state {ℓ} : {R : Type ℓ} → MemoryState → Outcome R → Outcome R
with_ready_state s result = if s.ready then result else panicked

-- The closure over the bitmap. The call of the allocator always returns.
abbrev pub returned :
    FrameAllocator → Option (Option ℕ × FrameAllocator) → Option ℕ × FrameAllocator
returned a none = (none, a)
returned a (some result) = result

unfoldable pub take_frame : FrameAllocator → Option ℕ × FrameAllocator
take_frame a = returned a (Physmem.alloc_frame a)

abbrev pub rebuilt :
    MemoryState
    → Outcome (Option Grant × FrameGrant.Ledger × FrameAllocator)
    → Outcome (Option Grant × MemoryState)
rebuilt s panicked = panicked
rebuilt s (done (g, l, a)) = done (g, record s { grants = l; allocator = a })

unfoldable pub alloc_frame : ℕ → MemoryState → ℕ → Kind → Outcome (Option Grant × MemoryState)
alloc_frame n s owner kind =
    with_ready_state s
      (rebuilt s (FrameGrant.allocate n s.grants owner kind take_frame s.allocator))

unfoldable pub give_frame : ℕ → FrameAllocator → Bool × FrameAllocator
give_frame frame a = free_frame_with a frame always

abbrev pub resumed : MemoryState → Bool × FrameGrant.Ledger × FrameAllocator → Bool × MemoryState
resumed s (freed, l, a) = (freed, record s { grants = l; allocator = a })

unfoldable pub free_frame : MemoryState → Grant → Outcome (Bool × MemoryState)
free_frame s g =
    with_ready_state s (done (resumed s (FrameGrant.release s.grants g give_frame s.allocator)))

unfoldable pub new_owner : MemoryState → Outcome (Option ℕ × MemoryState)
new_owner s =
    let result = FrameGrant.new_owner s.grants in
    with_ready_state s (done (result.0, record s { grants = result.1 }))

unfoldable pub pin_mapping : MemoryState → Grant → ℕ → ℕ → Outcome (Bool × MemoryState)
pin_mapping s g owner address =
    let result = FrameGrant.bind s.grants g owner address in
    with_ready_state s (done (result.0, record s { grants = result.1 }))

unfoldable pub retire_mapping : MemoryState → ℕ → ℕ → ℕ → Outcome (Option Grant × MemoryState)
retire_mapping s owner frame address =
    let result = FrameGrant.retire s.grants owner frame address in
    with_ready_state s (done (result.0, record s { grants = result.1 }))

-- The reports that change nothing.
unfoldable pub is_live : MemoryState → Grant → Outcome Bool
is_live s g = with_ready_state s (done (FrameGrant.is_live s.grants g))

unfoldable pub find_grant : MemoryState → ℕ → ℕ → Kind → Outcome (Option Grant)
find_grant s owner frame kind =
    with_ready_state s (done (FrameGrant.find s.grants owner frame kind))

unfoldable pub can_map : MemoryState → Grant → ℕ → Outcome Bool
can_map s g owner = with_ready_state s (done (FrameGrant.can_bind s.grants g owner))

unfoldable pub mapping_matches : MemoryState → ℕ → ℕ → ℕ → Outcome Bool
mapping_matches s owner frame address =
    with_ready_state s (done (FrameGrant.mapping_matches s.grants owner frame address))

unfoldable pub owner_frames : MemoryState → ℕ → Outcome ℕ
owner_frames s owner = with_ready_state s (done (FrameGrant.owner_frames s.grants owner))

unfoldable pub allocated_frames : MemoryState → Outcome ℕ
allocated_frames s = with_ready_state s (done s.allocator.allocated_frames)

-- The consistency that `report` tells.
unfoldable pub is_consistent : ℕ → MemoryState → Bool
is_consistent words s =
    Physmem.is_consistent words s.allocator
    && FrameGrant.is_consistent s.grants s.allocator.allocated_frames (contains_live s.allocator)
