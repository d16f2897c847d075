-- ===== src/RxQueue/Validate.antt =====
-- What `validate` accepts.
use gen_os.Common.{
  ℕ, zero, suc, ◌<◌, ◌≤◌, ◌≡◌, inl, inr, refl, ap, sym, ◌∙◌, ◌↔◌, Bool, true, false, not, ◌||◌,
  none, List, [], ◌∷◌, ◌==◌, leb, get_or, set, any, replicate, length, arith, Bool-cases,
  ℕ_discrete, Option-cases, get_elem?-cases, get_elem?-lt, get_or-set_self, get_or-set_ne,
  length-set, length-replicate,
}
use gen_os.RxQueue.{
  RxCompletion, RxBatch, entry_error, validate_entries, validate, wrapping_sub, rx_header_bytes,
  rx_buffer_bytes,
}

-- A batch as the driver wants it: descriptors in range, none twice, lengths that fit a buffer.
abbrev pub same_descriptor : ℕ → RxCompletion → Bool
same_descriptor descriptor entry = entry.descriptor == descriptor

abbrev pub AllSound : ℕ → List RxCompletion → Type 0
AllSound n [] = Unit {0}
AllSound n (entry ∷ rest) =
    (entry.descriptor < n)
    × (rx_header_bytes ≤ entry.length)
    × (entry.length ≤ rx_buffer_bytes)
    × (any (same_descriptor entry.descriptor) rest ≡ false)
    × AllSound n rest

-- No entry of the rest is flagged as seen.
abbrev AllUnseen : List Bool → List RxCompletion → Type 0
AllUnseen seen [] = Unit {0}
AllUnseen seen (entry ∷ rest) = (get_or seen entry.descriptor false ≡ false) × AllUnseen seen rest

entry_error_sound :
    (seen : List Bool) (entry : RxCompletion)
    → entry_error seen entry ≡ none
    → (entry.descriptor < length seen)
      × (get_or seen entry.descriptor false ≡ false)
      × (rx_header_bytes ≤ entry.length)
      × (entry.length ≤ rx_buffer_bytes)
entry_error_sound seen entry h = elim (get_elem?-cases seen entry.descriptor false) [
  | inl e ↦ absurd (cc (rw (e, entry_error) at h))
  | inr (e, small) ↦
      let k = rw (e, entry_error) at h in (small, ground arith, ground arith, ground arith)
]

entry_error_complete :
    (seen : List Bool) (entry : RxCompletion)
    → entry.descriptor < length seen
    → get_or seen entry.descriptor false ≡ false
    → rx_header_bytes ≤ entry.length
    → entry.length ≤ rx_buffer_bytes
    → entry_error seen entry ≡ none
entry_error_complete seen entry small unseen low high =
    rw (get_elem?-lt seen entry.descriptor false small, entry_error) (rw unseen (ground arith))

AllUnseen-set :
    (seen : List Bool) (d : ℕ) (entries : List RxCompletion)
    → d < length seen
    → AllUnseen (set seen d true) entries
    → (any (same_descriptor d) entries ≡ false) × AllUnseen seen entries
AllUnseen-set seen d [] small a = (refl, tt)
AllUnseen-set seen d (entry ∷ rest) small a =
    let later = AllUnseen-set seen d rest small a.1 in
    elim (ℕ_discrete d entry.descriptor) [
      | yes same ↦ absurd (
          cc (
            sym (get_or-set_self seen d true false small)
            ∙ ap (λ x. get_or (set seen d true) x false) same
            ∙ a.0))
      | no other ↦ (
        ground (arith, later.0),
        (sym (get_or-set_ne seen d entry.descriptor true false other) ∙ a.0, later.1),
      )
    ]

set-AllUnseen :
    (seen : List Bool) (d : ℕ) (entries : List RxCompletion)
    → any (same_descriptor d) entries ≡ false
    → AllUnseen seen entries
    → AllUnseen (set seen d true) entries
set-AllUnseen seen d [] apart a = tt
set-AllUnseen seen d (entry ∷ rest) apart a = (
  get_or-set_ne seen d entry.descriptor true false (ground arith) ∙ a.0,
  set-AllUnseen seen d rest (ground arith) a.1,
)

validate_entries_sound :
    (n : ℕ) (seen : List Bool) (entries : List RxCompletion)
    → length seen ≡ n
    → validate_entries seen entries ≡ none
    → AllSound n entries × AllUnseen seen entries
unfolding validate_entries
validate_entries_sound n seen [] size h = (tt, tt)
validate_entries_sound n seen (entry ∷ rest) size h = elim (Option-cases (entry_error seen entry)) [
  | inr (error, e) ↦ absurd (cc (rw (e, validate_entries) at h))
  | inl e ↦
      let one = entry_error_sound seen entry e in
      let all =
        validate_entries_sound n (set seen entry.descriptor true) rest
          (length-set seen entry.descriptor true ∙ size) (rw (e, validate_entries) at h) in
      let apart = AllUnseen-set seen entry.descriptor rest one.0 all.1 in
      ((omega (arith, one.0, size), one.2, one.3, apart.0, all.0), (one.1, apart.1))
]

validate_entries_complete :
    (n : ℕ) (seen : List Bool) (entries : List RxCompletion)
    → length seen ≡ n
    → AllSound n entries
    → AllUnseen seen entries
    → validate_entries seen entries ≡ none
unfolding validate_entries
validate_entries_complete n seen [] size a u = refl
validate_entries_complete n seen (entry ∷ rest) size a u =
    rw (entry_error_complete seen entry (omega (arith, a.0, size)) u.0 a.1 a.2, validate_entries)
      (validate_entries_complete n (set seen entry.descriptor true) rest
        (length-set seen entry.descriptor true ∙ size) a.4
        (set-AllUnseen seen entry.descriptor rest a.3 u.1))

AllUnseen-replicate : (n : ℕ) (entries : List RxCompletion) → AllUnseen (replicate n false) entries
AllUnseen-replicate n [] = tt
AllUnseen-replicate n (entry ∷ rest) = (unseen n entry.descriptor, AllUnseen-replicate n rest)
  where
    unseen : (n d : ℕ) → get_or (replicate n false) d false ≡ false
    unseen zero d = refl
    unseen (suc n) zero = refl
    unseen (suc n) (suc d) = unseen n d

-- A captured batch is accepted exactly when its length is the advance of the used index, at most
-- the number of buffers, and its entries name buffers in range, none twice, with lengths that fit.
pub validate_iff :
    (n : ℕ) (b : RxBatch) (end : ℕ) (entries : List RxCompletion)
    → (validate n b end entries ≡ none)
      ↔ ((length entries ≡ wrapping_sub end b.used) × (length entries ≤ n) × AllSound n entries)
unfolding validate
validate_iff n b end entries =
    let size = length-replicate n false in
    elim (Bool-cases
      (not (leb (wrapping_sub end b.used) n) || not (length entries == wrapping_sub end b.used))) [
        | inl bad ↦
            rw (bad, validate) ((λ h. absurd (cc)), (λ (e, small, a). absurd (ground arith)))
        | inr good ↦
            rw (good, validate)
              (
                (λ h. (
                  ground arith,
                  ground arith,
                  (validate_entries_sound n (replicate n false) entries size h).0,
                )),
                (λ (e, small, a).
                    validate_entries_complete n (replicate n false) entries size a
                      (AllUnseen-replicate n entries)),
              )
      ]
