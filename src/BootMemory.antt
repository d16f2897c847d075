-- ===== src/BootMemory.antt =====
-- crates/abi/src/boot_memory.rs: the checks of what the boot loader hands over. Bytes are numbers
-- below 256; `str::from_utf8` is the argument `is_utf8`. A check answers `accepted` or the error, and
-- `unfinished` where a loop would run out of its fuel. The fields of the boot information that no check
-- reads (the loader's version, the pixel format) are left out.
pub mod Map
pub mod Retained
pub mod Info
pub mod Decode
mod Tests
use gen_os.Common.{
  ℕ, zero, suc, ◌+◌, ◌-◌, ◌*◌, ◌/◌, ◌%◌, ◌^◌, min, bit_and, Bool, true, false, ◌&&◌, ◌||◌, not,
  Option, none, some, List, [], ◌∷◌, ◌++◌, ◌==◌, leb, ltb, if◌then◌else◌, any, take, drop, length,
  replicate, checked_add, u64_max,
}

abbrev pub page_size : ℕ
page_size = 4096

abbrev pub max_memory_regions : ℕ
max_memory_regions = 256

abbrev pub max_cmdline_len : ℕ
max_cmdline_len = 128

abbrev pub boot_info_magic : ℕ
boot_info_magic = 5135597052694053449

abbrev pub boot_info_version : ℕ
boot_info_version = 1

abbrev pub efi_memory_runtime : ℕ
efi_memory_runtime = 2 ^ 63

pub data MemoryRegionKind : Type 0 where
  usable bootloader kernel framebuffer acpi mmio reserved : MemoryRegionKind

abbrev pub is_usable : MemoryRegionKind → Bool
is_usable usable = true
is_usable bootloader = false
is_usable kernel = false
is_usable framebuffer = false
is_usable acpi = false
is_usable mmio = false
is_usable reserved = false

-- `matches!(kind, Bootloader | Kernel)`.
abbrev pub is_retained : MemoryRegionKind → Bool
is_retained usable = false
is_retained bootloader = true
is_retained kernel = true
is_retained framebuffer = false
is_retained acpi = false
is_retained mmio = false
is_retained reserved = false

pub record MemoryRegion : Type 0 where
  pub start : ℕ
  pub size : ℕ
  pub kind : MemoryRegionKind

abbrev pub empty_region : MemoryRegion
empty_region = record { start = 0; size = 0; kind = reserved }

pub record MemoryMapInfo : Type 0 where
  pub region_count : ℕ
  pub regions : List MemoryRegion

pub data BootMemoryError : Type 0 where
  bad_header bad_command_line bad_version bad_stride bad_length over_capacity no_regions :
      BootMemoryError
  bad_range misaligned overlapping unreserved bad_framebuffer : BootMemoryError

pub data Result {ℓ} (A : Type ℓ) : Type ℓ where
  ok : A → Result A
  err : BootMemoryError → Result A

-- The answer of a check that returns nothing.
pub data Check : Type 0 where
  accepted : Check
  refused : BootMemoryError → Check
  unfinished : Check

-- `check?; next`.
abbrev pub then_check : Check → Check → Check
then_check accepted next = next
then_check (refused e) next = refused e
then_check unfinished next = unfinished

abbrev pub range_end : ℕ → ℕ → Result ℕ
range_end start size =
    if size == 0
    then err bad_range
    else elim (checked_add start size) [ none ↦ err bad_range | some end ↦ ok end ]

abbrev pub meets : ℕ → ℕ → MemoryRegion → Bool
meets start end previous = ltb start (previous.start + previous.size) && ltb previous.start end

-- The loop of `validate_map`, with the regions before; it answers the first error.
unfoldable pub validate_regions : List MemoryRegion → List MemoryRegion → Option BootMemoryError
validate_regions before [] = none
validate_regions before (region ∷ regions) =
    let rest = validate_regions (before ++ (region ∷ [])) regions in
    elim (range_end region.start region.size) [
      | err e ↦ some e
      | ok end ↦
          if not (region.start % page_size == 0) || not (region.size % page_size == 0)
          then some misaligned
          else if any (meets region.start end) before
          then some overlapping
          else rest
    ]

unfoldable pub validate_map : MemoryMapInfo → Result (List MemoryRegion)
validate_map map =
    if ltb max_memory_regions map.region_count
    then err over_capacity
    else if map.region_count == 0
    then err no_regions
    else let regions = take map.region_count map.regions in
      elim (validate_regions [] regions) [ none ↦ ok regions | some e ↦ err e ]

-- `u64::checked_mul`.
abbrev pub checked_mul : ℕ → ℕ → Option ℕ
checked_mul a b = if leb (a * b) u64_max then some (a * b) else none

-- `from_le_bytes`.
abbrev pub from_le_bytes : List ℕ → ℕ
from_le_bytes [] = 0
from_le_bytes (byte ∷ bytes) = byte + 256 * from_le_bytes bytes

-- `desc[low..high]`.
abbrev pub field : ℕ → ℕ → List ℕ → ℕ
field low high desc = from_le_bytes (take (high - low) (drop low desc))

unfoldable pub memory_kind : ℕ → MemoryRegionKind
memory_kind kind =
    if kind == 7
    then usable
    else if kind == 1 || kind == 2
    then bootloader
    else if kind == 9 || kind == 10
    then acpi
    else if leb 11 kind && leb kind 13
    then mmio
    else reserved

abbrev pub is_runtime : List ℕ → Bool
is_runtime desc = not (bit_and (field 32 40 desc) efi_memory_runtime == 0)

unfoldable pub decode_descriptor : List ℕ → Result MemoryRegion
decode_descriptor desc = elim (checked_mul (field 24 32 desc) page_size) [
  | none ↦ err bad_range
  | some size ↦ ok (record {
    start = field 8 16 desc;
    size = size;
    kind = if is_runtime desc then reserved else memory_kind (field 0 4 desc);
  })
]

abbrev pub prepend {ℓ} : {A : Type ℓ} → Result A → Result (List A) → Result (List A)
prepend (err e) rest = err e
prepend (ok x) (err e) = err e
prepend (ok x) (ok xs) = ok (x ∷ xs)

-- The loop over `count` chunks of `stride` bytes.
unfoldable pub decode_chunks : ℕ → ℕ → List ℕ → Result (List MemoryRegion)
decode_chunks zero stride bytes = ok []
decode_chunks (suc count) stride bytes =
    prepend (decode_descriptor (take stride bytes)) (decode_chunks count stride (drop stride bytes))

abbrev pub filled_map : ℕ → List MemoryRegion → MemoryMapInfo
filled_map count regions = record {
  region_count = count;
  regions = regions ++ replicate (max_memory_regions - count) empty_region;
}

-- `validate_map(&map)?; Ok(map)`.
unfoldable pub checked_map : ℕ → Result (List MemoryRegion) → Result MemoryMapInfo
checked_map count (err e) = err e
checked_map count (ok regions) = elim (validate_map (filled_map count regions)) [
  | err e ↦ err e
  | ok valid ↦ ok (filled_map count regions)
]

unfoldable pub decode_uefi_map : List ℕ → ℕ → ℕ → Result MemoryMapInfo
decode_uefi_map bytes stride version =
    if not (version == 1)
    then err bad_version
    else if ltb stride 40
    then err bad_stride
    else if not (length bytes % stride == 0)
    then err bad_length
    else if length bytes / stride == 0
    then err no_regions
    else if ltb max_memory_regions (length bytes / stride)
    then err over_capacity
    else checked_map (length bytes / stride) (decode_chunks (length bytes / stride) stride bytes)

-- The test of the search of `require_retained`.
abbrev pub retains : ℕ → MemoryRegion → Bool
retains cursor r =
    is_retained r.kind
    && (leb r.start cursor
        && (elim (checked_add r.start r.size) [ none ↦ false | some end ↦ ltb cursor end ]))

unfoldable pub find : (MemoryRegion → Bool) → List MemoryRegion → Option MemoryRegion
find p [] = none
find p (r ∷ rs) = let rest = find p rs in if p r then some r else rest

-- The loop of `require_retained`, on fuel.
unfoldable pub retained_loop : ℕ → List MemoryRegion → ℕ → ℕ → Check
retained_loop zero regions cursor end = if ltb cursor end then unfinished else accepted
retained_loop (suc fuel) regions cursor end =
    if ltb cursor end
    then elim (find (retains cursor) regions) [
      | none ↦ refused unreserved
      | some r ↦ retained_loop fuel regions (min (r.start + r.size) end) end
    ]
    else accepted

-- Each round moves the cursor by a byte at least.
unfoldable pub require_retained : List MemoryRegion → ℕ → ℕ → Check
require_retained regions start size = elim (range_end start size) [
  | err e ↦ refused e
  | ok end ↦ retained_loop size regions start end
]

pub record InitrdInfo : Type 0 where
  pub base : ℕ
  pub size : ℕ

pub record FramebufferInfo : Type 0 where
  pub base : ℕ
  pub size : ℕ
  pub width : ℕ
  pub height : ℕ
  pub stride : ℕ

pub record BootInfo : Type 0 where
  pub magic : ℕ
  pub version : ℕ
  pub framebuffer : FramebufferInfo
  pub memory_map : MemoryMapInfo
  pub initrd : InitrdInfo
  pub cmdline_len : ℕ
  pub cmdline : List ℕ

unfoldable pub check_initrd : List MemoryRegion → InitrdInfo → Check
check_initrd regions initrd =
    if initrd.size == 0
    then (if initrd.base == 0 then accepted else refused bad_range)
    else require_retained regions initrd.base initrd.size

-- `stride * height * 4`, in the order of the code.
abbrev pub framebuffer_bytes : FramebufferInfo → Option ℕ
framebuffer_bytes fb = elim (checked_mul fb.stride fb.height) [
  | none ↦ none
  | some pixels ↦ checked_mul pixels 4
]

abbrev pub uses : ℕ → ℕ → MemoryRegion → Bool
uses base end r = is_usable r.kind && (ltb r.start end && ltb base (r.start + r.size))

-- The checks of a framebuffer that ends at `end`.
unfoldable pub check_picture : List MemoryRegion → FramebufferInfo → Result ℕ → Check
check_picture regions fb (err e) = refused e
check_picture regions fb (ok end) = elim (framebuffer_bytes fb) [
  | none ↦ refused bad_framebuffer
  | some needed ↦
      if fb.width == 0
        || (fb.height == 0
            || (ltb fb.stride fb.width || (ltb fb.size needed || any (uses fb.base end) regions)))
      then refused bad_framebuffer
      else accepted
]

unfoldable pub check_framebuffer : List MemoryRegion → FramebufferInfo → Check
check_framebuffer regions fb =
    if fb.size == 0
    then (if not (fb.base == 0)
          || (not (fb.width == 0) || (not (fb.height == 0) || not (fb.stride == 0)))
        then refused bad_framebuffer
        else accepted)
    else check_picture regions fb (range_end fb.base fb.size)

-- The checks of the regions that the map has.
unfoldable pub check_regions : ℕ → BootInfo → ℕ → ℕ → ℕ → Result (List MemoryRegion) → Check
check_regions info_size info address kernel_start kernel_size (err e) = refused e
check_regions info_size info address kernel_start kernel_size (ok regions) =
    then_check (require_retained regions address info_size) (
      then_check (require_retained regions kernel_start kernel_size) (
        then_check (check_initrd regions info.initrd) (check_framebuffer regions info.framebuffer)))

-- `info_size` is `size_of::<BootInfo>()`.
unfoldable pub validate_boot_info : (List ℕ → Bool) → ℕ → BootInfo → ℕ → ℕ → ℕ → Check
validate_boot_info is_utf8 info_size info address kernel_start kernel_size =
    if not (info.magic == boot_info_magic) || not (info.version == boot_info_version)
    then refused bad_header
    else if ltb max_cmdline_len info.cmdline_len
        || not (is_utf8 (take info.cmdline_len info.cmdline))
    then refused bad_command_line
    else check_regions info_size info address kernel_start kernel_size
        (validate_map info.memory_map)
