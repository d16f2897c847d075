-- ===== src/BootMemory/Tests.antt =====
-- Runs of the checks of the hand-over, and the theorems at concrete maps.
use gen_os.Common.{ℕ, ◌≡◌, ◌≢◌, ◌↔◌, ◌≤◌, refl, true, List, [], ◌∷◌, take}
use gen_os.BootMemory.{
  MemoryRegion, MemoryMapInfo, bootloader, kernel, usable, accepted, refused, unfinished,
  unreserved, ok, require_retained, retained_loop, find, validate_map, validate_regions,
  max_memory_regions, BootInfo, boot_info_magic, validate_boot_info, decode_uefi_map, checked_map,
  decode_chunks, decode_descriptor, memory_kind, filled_map, check_regions, check_initrd,
  check_framebuffer, check_picture,
}
use gen_os.BootMemory.Map.{AllSound, validate_map_iff}
use gen_os.BootMemory.Retained.{Retains, require_retained_iff}
use gen_os.BootMemory.Decode.{IsTrusted, decode_uefi_map-IsTrusted}
use gen_os.BootMemory.Info.{IsSafe, validate_boot_info-IsSafe}

-- Neighbours that the map does not list in order.
abbrev regions : List MemoryRegion
regions =
    record { start = 8192; size = 4096; kind = bootloader }
    ∷ record { start = 4096; size = 4096; kind = kernel }
    ∷ record { start = 12288; size = 8192; kind = usable }
    ∷ []

abbrev map : MemoryMapInfo
map = record { region_count = 3; regions = regions }

abbrev info : BootInfo
info = record {
  magic = boot_info_magic;
  version = 1;
  framebuffer = record { base = 0; size = 0; width = 0; height = 0; stride = 0 };
  memory_map = map;
  initrd = record { base = 0; size = 0 };
  cmdline_len = 0;
  cmdline = [];
}

require_retained_iff_example :
    (require_retained regions 6144 6144 ≡ accepted) ↔ Retains regions 6144 6144
require_retained_iff_example = require_retained_iff regions 6144 6144

spans_neighbours : require_retained regions 6144 6144 ≡ accepted
unfolding require_retained retained_loop find
spans_neighbours = refl

leaves_kept : require_retained regions 6144 6145 ≡ refused unreserved
unfolding require_retained retained_loop find
leaves_kept = refl

validate_map_iff_example : (validate_map map ≡ ok regions) ↔ (
    (1 ≤ map.region_count)
    × (map.region_count ≤ max_memory_regions)
    × (regions ≡ take map.region_count map.regions)
    × AllSound [] regions)
validate_map_iff_example = validate_map_iff map regions

map_accepted : validate_map map ≡ ok regions
unfolding validate_map validate_regions
map_accepted = refl

validate_boot_info-IsSafe_example :
    (validate_boot_info (λ bytes. true) 3072 info 8192 4096 4096 ≢ unfinished)
    × (validate_boot_info (λ bytes. true) 3072 info 8192 4096 4096 ≡ accepted
        → IsSafe 3072 info 8192 4096 4096)
validate_boot_info-IsSafe_example =
    validate_boot_info-IsSafe (λ bytes. true) 3072 info 8192 4096 4096

accepts_info : validate_boot_info (λ bytes. true) 3072 info 8192 4096 4096 ≡ accepted
unfolding validate_boot_info check_regions validate_map validate_regions require_retained
    retained_loop find check_initrd check_framebuffer check_picture
accepts_info = refl

-- One descriptor of 40 bytes: type 7, two pages from 4096 on.
abbrev firmware : List ℕ
firmware =
    7 ∷ 0 ∷ 0 ∷ 0 ∷ 0 ∷ 0 ∷ 0 ∷ 0 ∷ 0 ∷ 16 ∷ 0 ∷ 0 ∷ 0 ∷ 0 ∷ 0 ∷ 0 ∷ 0 ∷ 0 ∷ 0 ∷ 0 ∷ 0 ∷ 0 ∷ 0 ∷ 0
    ∷ 2 ∷ 0 ∷ 0 ∷ 0 ∷ 0 ∷ 0 ∷ 0 ∷ 0 ∷ 0 ∷ 0 ∷ 0 ∷ 0 ∷ 0 ∷ 0 ∷ 0 ∷ 0 ∷ []

abbrev decoded : MemoryMapInfo
decoded = filled_map 1 (record { start = 4096; size = 8192; kind = usable } ∷ [])

decoded_lem : decode_uefi_map firmware 40 1 ≡ ok decoded
unfolding decode_uefi_map checked_map decode_chunks decode_descriptor memory_kind validate_map
    validate_regions
decoded_lem = refl

decode_uefi_map-IsTrusted_example : IsTrusted firmware 40 decoded
decode_uefi_map-IsTrusted_example = decode_uefi_map-IsTrusted firmware 40 1 decoded decoded_lem
