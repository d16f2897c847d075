-- ===== src/Endpoint/Handles.antt =====
-- The numbers of `endpoint_handle`: tag, owner, generation and slot stand in disjoint bits.
use gen_os.Common.{
  ℕ, ◌+◌, ◌*◌, ◌/◌, ◌%◌, ◌^◌, ◌<◌, ◌≤◌, ◌≡◌, ap, ap₂, ◌∙◌, some, arith, bit_or, bit_and, u32_max,
}
use gen_os.Common.Bits.{bit_or_disjoint, bit_and_byte, bit_and_shifted}
use gen_os.Endpoint.{endpoint_handle, endpoint_handle_slot, handle_capacity, tag, tag_mask}

module _ (owner_pid generation slot : ℕ) (hp : owner_pid < 256) (hg : generation ≤ u32_max)
    (hs : slot < handle_capacity) where
  -- The four fields do not meet, so `|` adds them.
  pub endpoint_handle_sum :
      endpoint_handle owner_pid generation slot
      ≡ 0xe9 * 2 ^ 56 + owner_pid * 2 ^ 40 + generation * 2 ^ 8 + (slot + 1)
  unfolding endpoint_handle
  endpoint_handle_sum =
      ap₂ (λ p g. bit_or (bit_or (bit_or tag p) g) (slot + 1)) owner_fits generation_fits
      ∙ ap (λ h. bit_or (bit_or h (generation * 2 ^ 8)) (slot + 1)) with_owner
      ∙ ap (λ h. bit_or h (slot + 1)) with_generation
      ∙ with_slot
    where
      owner_fits : owner_pid * 2 ^ 40 % 2 ^ 64 ≡ owner_pid * 2 ^ 40
      owner_fits = omega arith

      generation_fits : generation * 2 ^ 8 % 2 ^ 64 ≡ generation * 2 ^ 8
      generation_fits = omega arith

      with_owner : bit_or tag (owner_pid * 2 ^ 40) ≡ (0xe90000 + owner_pid) * 2 ^ 40
      with_owner = bit_or_disjoint 56 0xe9 (owner_pid * 2 ^ 40) (omega arith) ∙ omega arith

      with_generation :
          bit_or ((0xe90000 + owner_pid) * 2 ^ 40) (generation * 2 ^ 8)
          ≡ ((0xe90000 + owner_pid) * 2 ^ 32 + generation) * 2 ^ 8
      with_generation =
          bit_or_disjoint 40 (0xe90000 + owner_pid) (generation * 2 ^ 8) (omega arith) ∙ omega arith

      with_slot :
          bit_or (((0xe90000 + owner_pid) * 2 ^ 32 + generation) * 2 ^ 8) (slot + 1)
          ≡ 0xe9 * 2 ^ 56 + owner_pid * 2 ^ 40 + generation * 2 ^ 8 + (slot + 1)
      with_slot =
          bit_or_disjoint 8 ((0xe90000 + owner_pid) * 2 ^ 32 + generation) (slot + 1) (omega arith)
          ∙ omega arith

  pub endpoint_handle_pos : 0 < endpoint_handle owner_pid generation slot
  endpoint_handle_pos = omega (arith, endpoint_handle_sum)

  -- The slot is read back out of a handle.
  pub endpoint_handle_slot-handle :
      endpoint_handle_slot (endpoint_handle owner_pid generation slot) ≡ some slot
  unfolding endpoint_handle_slot
  endpoint_handle_slot-handle = ground (arith, tagged, slotted)
    where
      h : ℕ
      h = endpoint_handle owner_pid generation slot

      tagged : bit_and (endpoint_handle owner_pid generation slot) tag_mask ≡ tag
      tagged =
          bit_and_shifted 56 (endpoint_handle owner_pid generation slot) 0xff
          ∙ ap (λ (t : ℕ). t * 2 ^ 56)
              (bit_and_byte (endpoint_handle owner_pid generation slot / 2 ^ 56))
          ∙ omega (arith, endpoint_handle_sum)

      slotted : bit_and (endpoint_handle owner_pid generation slot) 0xff ≡ slot + 1
      slotted =
          bit_and_byte (endpoint_handle owner_pid generation slot)
          ∙ omega (arith, endpoint_handle_sum)

-- Two handles of one owner are one number only for one generation and one slot.
pub endpoint_handle-injective :
    (owner_pid g g' slot slot' : ℕ)
    → owner_pid < 256
    → g ≤ u32_max
    → g' ≤ u32_max
    → slot < handle_capacity
    → slot' < handle_capacity
    → endpoint_handle owner_pid g slot ≡ endpoint_handle owner_pid g' slot'
    → (g ≡ g') × (slot ≡ slot')
endpoint_handle-injective owner_pid g g' slot slot' hp hg hg' hs hs' e =
    (omega (arith, a, b), omega (arith, a, b))
  where
    a :
        endpoint_handle owner_pid g slot
        ≡ 0xe9 * 2 ^ 56 + owner_pid * 2 ^ 40 + g * 2 ^ 8 + (slot + 1)
    a = endpoint_handle_sum owner_pid g slot hp hg hs

    b :
        endpoint_handle owner_pid g' slot'
        ≡ 0xe9 * 2 ^ 56 + owner_pid * 2 ^ 40 + g' * 2 ^ 8 + (slot' + 1)
    b = endpoint_handle_sum owner_pid g' slot' hp hg' hs'
