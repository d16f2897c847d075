-- ===== src/BootMemory/Map.antt =====
-- The check of the memory map.
use gen_os.Common.{
  ◌+◌, ◌%◌, ◌≤◌, ◌≡◌, ◌≢◌, ◌↔◌, refl, ap, sym, ◌∙◌, subst, inl, inr, false, ◌||◌, not, none, List,
  [], ◌∷◌, ◌++◌, ◌==◌, ltb, any, take, u64_max, arith, Bool-cases, Option-cases,
}
use gen_os.BootMemory.{
  MemoryRegion, MemoryMapInfo, ok, meets, page_size, max_memory_regions, validate_regions,
  validate_map,
}
use gen_os.BootMemory.Retained.{range_end-cases}

-- A nonempty run of whole pages in the address space.
abbrev pub Sound : MemoryRegion → Type 0
Sound r =
    (r.size ≢ 0)
    × (r.start + r.size ≤ u64_max)
    × (r.start % page_size ≡ 0)
    × (r.size % page_size ≡ 0)

-- A region meets none of those before.
abbrev pub ApartFrom : List MemoryRegion → MemoryRegion → Type 0
ApartFrom before r = any (meets r.start (r.start + r.size)) before ≡ false

-- Sound regions, each apart from those before.
abbrev pub AllSound : List MemoryRegion → List MemoryRegion → Type 0
AllSound before [] = Unit {0}
AllSound before (r ∷ rs) = Sound r × ApartFrom before r × AllSound (before ++ (r ∷ [])) rs

validate_regions_iff :
    (before rs : List MemoryRegion) → (validate_regions before rs ≡ none) ↔ AllSound before rs
unfolding validate_regions
validate_regions_iff before [] = (λ e. tt, λ a. refl)
validate_regions_iff before (r ∷ rs) =
    let rest = validate_regions_iff (before ++ (r ∷ [])) rs in
    elim (range_end-cases r.start r.size) [
      | inr (w, e, bad) ↦ rw (e, validate_regions) (λ h. absurd (cc), λ a. absurd (ground arith))
      | inl (e, nz, fits) ↦
          elim (Bool-cases (not (r.start % page_size == 0) || not (r.size % page_size == 0))) [
            | inl odd ↦
                rw (e, validate_regions) (rw odd (λ h. absurd (cc), λ a. absurd (ground arith)))
            | inr even ↦ elim (Bool-cases (any (meets r.start (r.start + r.size)) before)) [
              | inl met ↦
                  rw (e, validate_regions) (rw (even, met) (λ h. absurd (cc), λ a. absurd (cc)))
              | inr apart ↦
                  rw (e, validate_regions)
                    (rw (even, apart)
                      (
                        λ h. ((nz, fits, ground arith, ground arith), refl, rest.0 h),
                        λ a. rest.1 a.2,
                      ))
            ]
          ]
    ]

-- The check accepts exactly a map of 1 to 256 regions, each a nonempty run of whole pages that ends in
-- the address space, no two of which meet; it answers these regions.
pub validate_map_iff :
    (map : MemoryMapInfo) (regions : List MemoryRegion)
    → (validate_map map ≡ ok regions) ↔ (
        (1 ≤ map.region_count)
        × (map.region_count ≤ max_memory_regions)
        × (regions ≡ take map.region_count map.regions)
        × AllSound [] regions)
unfolding validate_map
validate_map_iff map regions = elim (Bool-cases (ltb max_memory_regions map.region_count)) [
  | inl over ↦ rw (over, validate_map) (λ h. absurd (cc), λ a. absurd (ground arith))
  | inr fits ↦ elim (Bool-cases (map.region_count == 0)) [
    | inl zero_of ↦
        rw (fits, validate_map) (rw zero_of (λ h. absurd (cc), λ a. absurd (ground arith)))
    | inr nz ↦
        let taken = take map.region_count map.regions in
        let checked = validate_regions_iff [] taken in
        rw (fits, validate_map)
          (rw nz (elim (Option-cases (validate_regions [] taken)) [
            | inl e ↦ rw e (
              λ h.
                  let same : taken ≡ regions = ground arith in
                  (ground arith, ground arith, sym same, subst (AllSound []) same (checked.0 e)),
              λ a. ap ok (sym a.2),
            )
            | inr (w, e) ↦ rw e (
              λ h. absurd (cc),
              λ a. absurd (cc (sym e ∙ checked.1 (subst (AllSound []) a.2 a.3))),
            )
          ]))
  ]
]
