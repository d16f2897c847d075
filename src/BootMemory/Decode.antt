-- ===== src/BootMemory/Decode.antt =====
-- The decoding of the firmware's memory map.
use gen_os.Common.{
  ◌↔◌, bit_and, leb, some, none, u64_max, ℕ, zero, suc, ◌-◌, ◌*◌, ◌/◌, ◌%◌, ◌<◌, ◌≡◌, refl, ap, sym,
  subst, inl, inr, Bool, true, false, not, List, [], ◌∷◌, ◌++◌, ◌==◌, ltb, if◌then◌else◌, take,
  drop, length, get_or, replicate, arith, Bool-cases, Option-cases,
}
use native.Mathlib.Omega.{div_any}
use gen_os.BootMemory.{
  efi_memory_runtime, from_le_bytes, MemoryRegion, MemoryMapInfo, BootMemoryError, Result, ok, err,
  empty_region, field, memory_kind, is_runtime, is_usable, decode_descriptor, decode_chunks,
  prepend, filled_map, checked_map, decode_uefi_map, validate_map, max_memory_regions, checked_mul,
  page_size, reserved,
}
use gen_os.BootMemory.Map.{AllSound, validate_map_iff}

-- The descriptor of the region `i`.
abbrev pub descriptor : ℕ → ℕ → List ℕ → List ℕ
descriptor zero stride bytes = take stride bytes
descriptor (suc i) stride bytes = descriptor i stride (drop stride bytes)

memory_kind-usable : (kind : ℕ) → is_usable (memory_kind kind) ≡ true → kind ≡ 7
unfolding memory_kind
memory_kind-usable kind e = ground arith

-- What a region says of its descriptor: the physical start of bytes 8 to 16, the page count of bytes
-- 24 to 32 in bytes, and the kind of the type of bytes 0 to 4, or reserved for the runtime.
pub record Describes (desc : List ℕ) (r : MemoryRegion) : Type 0 where
  pub start : r.start ≡ from_le_bytes (take 8 (drop 8 desc))
  pub size : r.size ≡ from_le_bytes (take 8 (drop 24 desc)) * page_size
  pub kind :
      r.kind ≡ (if is_runtime desc then reserved else memory_kind (from_le_bytes (take 4 desc)))
  pub usable_iff : (is_usable r.kind ≡ true) ↔ (
      (from_le_bytes (take 4 desc) ≡ 7)
      × (bit_and (from_le_bytes (take 8 (drop 32 desc))) efi_memory_runtime ≡ 0))

checked_mul-some : (a b size : ℕ) → checked_mul a b ≡ some size → size ≡ a * b
checked_mul-some a b size e = elim (Bool-cases (leb (a * b) u64_max)) [
  | inl fits ↦ ap (λ o. elim o [ none ↦ size | some x ↦ x ]) (sym (rw fits at e))
  | inr over ↦ absurd (cc (rw over at e))
]

-- The kind is usable exactly for conventional memory outside the runtime.
usable_kind :
    (desc : List ℕ)
    → (is_usable (if is_runtime desc then reserved else memory_kind (field 0 4 desc)) ≡ true)
      ↔ ((field 0 4 desc ≡ 7) × (bit_and (field 32 40 desc) efi_memory_runtime ≡ 0))
unfolding memory_kind
usable_kind desc = elim (Bool-cases (is_runtime desc)) [
  | inl on ↦ (λ h. absurd (cc (rw on at h)), λ h. absurd (ground (arith, on, h)))
  | inr off ↦ (
    λ h. (memory_kind-usable (field 0 4 desc) (rw off at h), ground (arith, off)),
    λ h. rw off (rw h.0 refl),
  )
]

decode_descriptor-Describes :
    (desc : List ℕ) (r : MemoryRegion) → decode_descriptor desc ≡ ok r → Describes desc r
unfolding decode_descriptor
decode_descriptor-Describes desc r e =
    elim (Option-cases (checked_mul (field 24 32 desc) page_size)) [
      | inl f ↦ absurd (cc (rw (f, decode_descriptor) at e))
      | inr (size, f) ↦
          let same = ap (region_or r) (rw (f, decode_descriptor) at e) in
          subst (Describes desc) same (record {
            start = refl;
            size = checked_mul-some (field 24 32 desc) page_size size f;
            kind = refl;
            usable_iff = usable_kind desc;
          })
    ]
  where
    region_or : MemoryRegion → Result MemoryRegion → MemoryRegion
    region_or d (ok x) = x
    region_or d (err w) = d

prepend-ok :
    (x : Result MemoryRegion) (xs : Result (List MemoryRegion)) (rs : List MemoryRegion)
    → prepend x xs ≡ ok rs
    → (r : MemoryRegion) × (rest : List MemoryRegion) × (x ≡ ok r)
      × (xs ≡ ok rest)
      × (r ∷ rest ≡ rs)
prepend-ok (err w) xs rs e = absurd (cc)
prepend-ok (ok x) (err w) rs e = absurd (cc)
prepend-ok (ok x) (ok xs) rs e = (x, xs, refl, refl, ground arith)

-- Each region is the one that its descriptor describes.
abbrev pub Given : ℕ → ℕ → List ℕ → List MemoryRegion → Type 0
Given count stride bytes regions =
    (i : ℕ) → i < count → Describes (descriptor i stride bytes) (get_or regions i empty_region)

decode_chunks-Given :
    (count stride : ℕ) (bytes : List ℕ) (rs tail : List MemoryRegion)
    → decode_chunks count stride bytes ≡ ok rs
    → Given count stride bytes (rs ++ tail)
unfolding decode_chunks
decode_chunks-Given zero stride bytes rs tail e i less = absurd (omega arith)
decode_chunks-Given (suc count) stride bytes rs tail e zero less =
    let parts = prepend-ok _ _ rs e in
    subst (λ y. Describes (take stride bytes) (get_or (y ++ tail) 0 empty_region)) parts.4
      (decode_descriptor-Describes (take stride bytes) parts.0 parts.2)
decode_chunks-Given (suc count) stride bytes rs tail e (suc i) less =
    let parts = prepend-ok _ _ rs e in
    subst
      (λ y.
        Describes (descriptor i stride (drop stride bytes))
          (get_or (y ++ tail) (suc i) empty_region))
      parts.4
      (decode_chunks-Given count stride (drop stride bytes) parts.1 tail parts.3 i (omega arith))

-- What the decoded map is known to be.
pub record IsTrusted (bytes : List ℕ) (stride : ℕ) (map : MemoryMapInfo) : Type 0 where
  pub whole : stride * map.region_count ≡ length bytes
  pub sound : AllSound [] (take map.region_count map.regions)
  pub given : Given map.region_count stride bytes map.regions

checked_map-IsTrusted :
    (bytes : List ℕ) (count stride : ℕ) (map : MemoryMapInfo) (rs : Result (List MemoryRegion))
    → stride * count ≡ length bytes
    → decode_chunks count stride bytes ≡ rs
    → checked_map count rs ≡ ok map
    → IsTrusted bytes stride map
unfolding checked_map
checked_map-IsTrusted bytes count stride map (err w) sizes d e = absurd (cc)
checked_map-IsTrusted bytes count stride map (ok rs) sizes d e =
    next (validate_map (filled_map count rs)) refl e
  where
    next :
        (v : Result (List MemoryRegion))
        → validate_map (filled_map count rs) ≡ v
        → elim v [ err w ↦ err w | ok valid ↦ ok (filled_map count rs) ] ≡ ok map
        → IsTrusted bytes stride map
    next (err w) at e = absurd (cc)
    next (ok valid) at e =
        let same : filled_map count rs ≡ map = ground arith in
        let checks = (validate_map_iff (filled_map count rs) valid).0 at in
        subst (IsTrusted bytes stride) same (record {
          whole = sizes;
          sound = subst (AllSound []) checks.2 checks.3;
          given =
              decode_chunks-Given count stride bytes rs
                (replicate (max_memory_regions - count) empty_region) d;
        })

-- A check that did not refuse.
if-ok :
    (b : Bool) (w : BootMemoryError) (x : Result MemoryMapInfo) (map : MemoryMapInfo)
    → (if b then err w else x) ≡ ok map
    → (b ≡ false) × (x ≡ ok map)
if-ok true w x map e = absurd (cc)
if-ok false w x map e = (refl, e)

-- A map that was decoded covers the bytes with its descriptors and is well formed; each region has
-- the physical start (bytes 8 to 16) of its descriptor, 4096 times the page count (bytes 24 to 32)
-- as its size, and the kind that memory_kind gives for the type (bytes 0 to 4), or reserved with
-- the runtime attribute; it is usable exactly for conventional memory (type 7) without this
-- attribute.
pub decode_uefi_map-IsTrusted :
    (bytes : List ℕ) (stride version : ℕ) (map : MemoryMapInfo)
    → decode_uefi_map bytes stride version ≡ ok map
    → IsTrusted bytes stride map
unfolding decode_uefi_map
decode_uefi_map-IsTrusted bytes stride version map e =
    let first = if-ok (not (version == 1)) _ _ _ e in
    let second = if-ok (ltb stride 40) _ _ _ first.1 in
    let third = if-ok (not (length bytes % stride == 0)) _ _ _ second.1 in
    let fourth = if-ok (length bytes / stride == 0) _ _ _ third.1 in
    let fifth = if-ok (ltb max_memory_regions (length bytes / stride)) _ _ _ fourth.1 in
    let rest : length bytes % stride ≡ 0 = ground (arith, third.0) in
    let sizes : stride * (length bytes / stride) ≡ length bytes =
      omega (arith, rest, div_any (length bytes) stride) in
    checked_map-IsTrusted bytes (length bytes / stride) stride map _ sizes refl fifth.1
