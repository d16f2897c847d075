-- ===== src/BootMemory/Info.antt =====
-- The check of the boot information.
use gen_os.Common.{
  ℕ, ◌+◌, ◌*◌, ◌≤◌, ◌≡◌, ◌≢◌, refl, ap, sym, ◌∙◌, ◌⊎◌, inl, inr, Bool, true, false, ◌||◌, not, some,
  List, ◌==◌, leb, ltb, if◌then◌else◌, if_keeps, any, take, u64_max, arith, Bool-cases,
  Option-cases,
}
use gen_os.BootMemory.{
  MemoryRegion, Result, ok, err, Check, accepted, refused, unfinished, then_check, range_end,
  require_retained, InitrdInfo, FramebufferInfo, BootInfo, check_initrd, check_framebuffer,
  check_picture, framebuffer_bytes, uses, check_regions, validate_boot_info, validate_map,
  boot_info_magic, boot_info_version, max_cmdline_len, bad_header, bad_command_line,
  bad_framebuffer, bad_range,
}
use gen_os.BootMemory.Retained.{
  Retains, require_retained_iff, require_retained_ends, range_end-cases,
}

then_check-accepted : (a b : Check) → then_check a b ≡ accepted → (a ≡ accepted) × (b ≡ accepted)
then_check-accepted accepted b e = (refl, e)
then_check-accepted (refused w) b e = absurd (cc)
then_check-accepted unfinished b e = absurd (cc)

then_check-ends : (a b : Check) → a ≢ unfinished → b ≢ unfinished → then_check a b ≢ unfinished
then_check-ends accepted b h k = k
then_check-ends (refused w) b h k = λ e. cc
then_check-ends unfinished b h k = λ e. h refl

-- The picture is absent, or its rows fit the buffer and the buffer is no usable memory.
abbrev pub IsShown : List MemoryRegion → FramebufferInfo → Type 0
IsShown regions fb =
    (fb.size ≡ 0)
    ⊎ ((fb.base + fb.size ≤ u64_max)
        × (fb.width ≤ fb.stride)
        × (fb.stride * fb.height * 4 ≤ fb.size)
        × (any (uses fb.base (fb.base + fb.size)) regions ≡ false))

framebuffer_bytes-some :
    (fb : FramebufferInfo) (needed : ℕ)
    → framebuffer_bytes fb ≡ some needed
    → fb.stride * fb.height * 4 ≡ needed
framebuffer_bytes-some fb needed e = elim (Bool-cases (leb (fb.stride * fb.height) u64_max)) [
  | inl fits ↦ let e' = rw (fits, framebuffer_bytes) at e in ground (arith, e')
  | inr over ↦ absurd (cc (rw (over, framebuffer_bytes) at e))
]

check_picture-IsShown :
    (regions : List MemoryRegion) (fb : FramebufferInfo)
    → fb.base + fb.size ≤ u64_max
    → check_picture regions fb (ok (fb.base + fb.size)) ≡ accepted
    → IsShown regions fb
unfolding check_picture
check_picture-IsShown regions fb fits e = elim (Option-cases (framebuffer_bytes fb)) [
  | inl g ↦ absurd (cc (rw (g, check_picture) at e))
  | inr (needed, g) ↦
      let e' = rw (g, check_picture) at e in
      let sum = framebuffer_bytes-some fb needed g in
      let bad =
        fb.width == 0
        || (fb.height == 0
            || (ltb fb.stride fb.width
                || (ltb fb.size needed || any (uses fb.base (fb.base + fb.size)) regions))) in
      elim (Bool-cases bad) [
        | inl h ↦ absurd (cc (rw h at e'))
        | inr h ↦ inr (fits, ground arith, ground (arith, sum), ground arith)
      ]
]

if-accepted :
    (b : Bool) (x y : Check)
    → (if b then x else y) ≡ accepted
    → ((b ≡ true) × (x ≡ accepted)) ⊎ ((b ≡ false) × (y ≡ accepted))
if-accepted true x y e = inl (refl, e)
if-accepted false x y e = inr (refl, e)

check_framebuffer-IsShown :
    (regions : List MemoryRegion) (fb : FramebufferInfo)
    → check_framebuffer regions fb ≡ accepted
    → IsShown regions fb
unfolding check_framebuffer check_picture
check_framebuffer-IsShown regions fb e = elim (if-accepted (fb.size == 0) _ _ e) [
  | inl absent ↦ inl (ground (arith, absent.0))
  | inr there ↦ elim (range_end-cases fb.base fb.size) [
    | inr (w, f, bad) ↦ absurd (cc (sym (ap (check_picture regions fb) f) ∙ there.1))
    | inl (f, nz, fits) ↦
        check_picture-IsShown regions fb fits (sym (ap (check_picture regions fb) f) ∙ there.1)
  ]
]

check_picture_ends :
    (regions : List MemoryRegion) (fb : FramebufferInfo) (end : Result ℕ)
    → check_picture regions fb end ≢ unfinished
unfolding check_picture
check_picture_ends regions fb (err w) = λ e. cc
check_picture_ends regions fb (ok end) = elim (Option-cases (framebuffer_bytes fb)) [
  | inl g ↦ rw (g, check_picture) (λ e. cc)
  | inr (needed, g) ↦
      rw (g, check_picture)
        (if_keeps (λ c. c ≢ unfinished) _ (refused bad_framebuffer) accepted (λ h. λ e. cc)
          (λ h. λ e. cc))
]

check_framebuffer_ends :
    (regions : List MemoryRegion) (fb : FramebufferInfo) → check_framebuffer regions fb ≢ unfinished
unfolding check_framebuffer
check_framebuffer_ends regions fb =
    if_keeps (λ c. c ≢ unfinished) (fb.size == 0) _ _
      (λ absent.
        if_keeps (λ c. c ≢ unfinished) _ (refused bad_framebuffer) accepted (λ h. λ e. cc)
          (λ h. λ e. cc))
      (λ there. check_picture_ends regions fb (range_end fb.base fb.size))

check_initrd-Retains :
    (regions : List MemoryRegion) (initrd : InitrdInfo)
    → check_initrd regions initrd ≡ accepted
    → (initrd.size ≡ 0) ⊎ Retains regions initrd.base initrd.size
unfolding check_initrd
check_initrd-Retains regions initrd e = elim (Bool-cases (initrd.size == 0)) [
  | inl absent ↦ inl (ground arith)
  | inr there ↦
      inr ((require_retained_iff regions initrd.base initrd.size).0 (rw (there, check_initrd) at e))
]

check_initrd_ends :
    (regions : List MemoryRegion) (initrd : InitrdInfo) → check_initrd regions initrd ≢ unfinished
unfolding check_initrd
check_initrd_ends regions initrd =
    if_keeps (λ c. c ≢ unfinished) (initrd.size == 0) _ _
      (λ absent.
        if_keeps (λ c. c ≢ unfinished) (initrd.base == 0) accepted (refused bad_range)
          (λ h. λ e. cc) (λ h. λ e. cc))
      (λ there. require_retained_ends regions initrd.base initrd.size)

-- What the kernel relies on: the map is well formed, and the boot information, the kernel and the
-- initial file system, if there is one, lie in kept memory.
pub record IsSafe (info_size : ℕ) (info : BootInfo) (address kernel_start kernel_size : ℕ)
    : Type 0 where
  pub regions : List MemoryRegion
  pub mapped : validate_map info.memory_map ≡ ok regions
  pub handed_over : Retains regions address info_size
  pub kernel_kept : Retains regions kernel_start kernel_size
  pub initrd_kept : (info.initrd.size ≡ 0) ⊎ Retains regions info.initrd.base info.initrd.size
  pub shown : IsShown regions info.framebuffer

check_regions-IsSafe :
    (info_size : ℕ) (info : BootInfo) (address kernel_start kernel_size : ℕ)
    (found : Result (List MemoryRegion))
    → validate_map info.memory_map ≡ found
    → check_regions info_size info address kernel_start kernel_size found ≡ accepted
    → IsSafe info_size info address kernel_start kernel_size
unfolding check_regions
check_regions-IsSafe info_size info address kernel_start kernel_size (err w) found e = absurd (cc)
check_regions-IsSafe info_size info address kernel_start kernel_size (ok regions) found e =
    let first = then_check-accepted (require_retained regions address info_size) _ e in
    let second =
      then_check-accepted (require_retained regions kernel_start kernel_size) _ first.1 in
    let third = then_check-accepted (check_initrd regions info.initrd) _ second.1 in
    record {
      regions = regions;
      mapped = found;
      handed_over = (require_retained_iff regions address info_size).0 first.0;
      kernel_kept = (require_retained_iff regions kernel_start kernel_size).0 second.0;
      initrd_kept = check_initrd-Retains regions info.initrd third.0;
      shown = check_framebuffer-IsShown regions info.framebuffer third.1;
    }

check_regions_ends :
    (info_size : ℕ) (info : BootInfo) (address kernel_start kernel_size : ℕ)
    (found : Result (List MemoryRegion))
    → check_regions info_size info address kernel_start kernel_size found ≢ unfinished
unfolding check_regions
check_regions_ends info_size info address kernel_start kernel_size (err w) = λ e. cc
check_regions_ends info_size info address kernel_start kernel_size (ok regions) =
    then_check-ends _ _ (require_retained_ends regions address info_size) (
      then_check-ends _ _ (require_retained_ends regions kernel_start kernel_size) (
        then_check-ends _ _ (check_initrd_ends regions info.initrd)
          (check_framebuffer_ends regions info.framebuffer)))

-- The check ends, whatever the boot information says, and accepts only one on which the kernel can
-- rely: the map is well formed; the boot information, the kernel and the initial file system, if there
-- is one, lie in kept memory; and the framebuffer is absent, or its rows fit it and it meets no usable
-- memory.
pub validate_boot_info-IsSafe :
    (is_utf8 : List ℕ → Bool) (info_size : ℕ) (info : BootInfo)
    (address kernel_start kernel_size : ℕ)
    → (validate_boot_info is_utf8 info_size info address kernel_start kernel_size ≢ unfinished)
      × (validate_boot_info is_utf8 info_size info address kernel_start kernel_size ≡ accepted
          → IsSafe info_size info address kernel_start kernel_size)
unfolding validate_boot_info
validate_boot_info-IsSafe is_utf8 info_size info address kernel_start kernel_size =
    if_keeps Fine (not (info.magic == boot_info_magic) || not (info.version == boot_info_version))
      (refused bad_header) _ (λ h. (λ e. cc, λ e. absurd (cc)))
      (λ h.
        if_keeps Fine
          (ltb max_cmdline_len info.cmdline_len
            || not (is_utf8 (take info.cmdline_len info.cmdline)))
          (refused bad_command_line) _ (λ k. (λ e. cc, λ e. absurd (cc)))
          (λ k. (
            check_regions_ends info_size info address kernel_start kernel_size
                (validate_map info.memory_map),
            check_regions-IsSafe info_size info address kernel_start kernel_size
                (validate_map info.memory_map) refl,
          )))
  where
    Fine : Check → Type 0
    Fine c =
        (c ≢ unfinished) × (c ≡ accepted → IsSafe info_size info address kernel_start kernel_size)
