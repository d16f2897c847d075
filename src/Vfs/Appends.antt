-- ===== src/Vfs/Appends.antt =====
-- Writes at an offset and at the end of a file.
use gen_os.Common.{
  ℕ, ◌+◌, ◌≤◌, ◌≡◌, refl, ap, ap₂, ◌∙◌, subst, inl, inr, false, none, some, List, ◌++◌, ltb,
  if_keeps, length, max, arith, Bool-cases, Option-cases, checked_add,
}
use gen_os.PathPolicy.{paths_equal}
use gen_os.Vfs.{
  RamVfs, NodeKind, Result, err, file, is_directory, node_at, with_node, max_file_bytes, find_index,
  find, write_bytes, append_at, append, write_at, is_a_directory, no_space, invalid_offset,
}
use gen_os.Vfs.Bytes.{take-write_bytes}
use gen_os.Vfs.Lookup.{entry, lookup, lookup-with_node}
use gen_os.Vfs.Invariant.{IsValid}
use gen_os.Vfs.Preserve.{node-Sound, rewritten-IsValid}

abbrev Stays : Result ℕ × RamVfs → Type 0
Stays p = IsValid p.1

pub write_at-IsValid :
    (v : RamVfs) (path : List ℕ) (offset : ℕ) (bytes : List ℕ)
    → IsValid v
    → Stays (write_at v path offset bytes)
unfolding write_at
write_at-IsValid v path offset bytes valid = elim (Option-cases (find_index v path)) [
  | inl e ↦ rw (e, write_at) valid
  | inr (index, e) ↦
      let sound = node-Sound v path index valid e in
      rw (e, write_at)
        (if_keeps Stays (is_directory (node_at v index).kind) (err is_a_directory, v) _ (λ h. valid)
          (λ h.
            if_keeps Stays (ltb (node_at v index).len offset) (err invalid_offset, v) _ (λ h. valid)
              (λ h. elim (Option-cases (checked_add offset (length bytes))) [
                | inl f ↦ rw f valid
                | inr (end, f) ↦ rw f (
                    if_keeps Stays (ltb max_file_bytes end) (err no_space, v) _ (λ k. valid)
                      (λ k.
                        rewritten-IsValid v path index offset (max (node_at v index).len end) bytes
                          valid e (ground (arith, sound.1))))
              ])))
]

abbrev appended : RamVfs → ℕ → List ℕ → RamVfs
appended v index bytes = with_node v index (record (node_at v index) {
  data_bytes = write_bytes (node_at v index).data_bytes (node_at v index).len bytes;
  len = (node_at v index).len + length bytes;
})

append_at-done :
    (v w : RamVfs) (index : ℕ) (bytes : List ℕ)
    → append_at v index bytes ≡ (none, w)
    → ((node_at v index).len + length bytes ≤ max_file_bytes) × (appended v index bytes ≡ w)
unfolding append_at
append_at-done v w index bytes e = elim (Bool-cases (is_directory (node_at v index).kind)) [
  | inl h ↦ absurd (cc (ap (λ p. p.0) (rw (h, append_at) at e)))
  | inr h ↦ elim (Option-cases (checked_add (node_at v index).len (length bytes))) [
    | inl f ↦ absurd (cc (ap (λ p. p.0) (rw f at rw (h, append_at) at e)))
    | inr (end, f) ↦ elim (Bool-cases (ltb max_file_bytes end)) [
      | inl over ↦ absurd (cc (ap (λ p. p.0) (rw over at rw f at rw (h, append_at) at e)))
      | inr fits ↦
          let sum : (node_at v index).len + length bytes ≡ end = ground arith in
          (ground (arith, sum), ap (λ p. p.1) (rw fits at rw f at rw (h, append_at) at e))
    ]
  ]
]

-- Appending to a file that is there: what it held is followed by the bytes, and no path that differs
-- from it by more than case sees it.
pub append-lookup :
    (v w : RamVfs) (path old bytes : List ℕ)
    → IsValid v
    → lookup v path ≡ some (file, old)
    → append v path bytes ≡ (none, w)
    → (lookup w path ≡ some (file, old ++ bytes))
      × ((other : List ℕ) → paths_equal path other ≡ false → lookup w other ≡ lookup v other)
unfolding append find
append-lookup v w path old bytes valid here e =
    elim (Bool-cases (ltb max_file_bytes (length bytes))) [
      | inl long ↦ absurd (cc (ap (λ p. p.0) (rw (long, append) at e)))
      | inr fits ↦ elim (Option-cases (find_index v path)) [
        | inl f ↦ absurd (cc (rw (f, find) at here))
        | inr (index, f) ↦
            let held : entry (node_at v index) ≡ (file, old) = held_of (rw (f, find) at here) in
            let done = append_at-done v w index bytes (rw f at rw (fits, append) at e) in
            let sound = node-Sound v path index valid f in
            let shown = lookup-with_node v path index _ f refl in
            subst
              (λ u.
                (lookup u path ≡ some (file, old ++ bytes))
                × ((other : List ℕ)
                    → paths_equal path other ≡ false
                    → lookup u other ≡ lookup v other))
              done.1
              (
                shown.0
                    ∙ ap₂ (λ kind xs. some (kind, xs)) (ap (λ p. p.0) held)
                        (take-write_bytes (node_at v index).data_bytes (node_at v index).len bytes
                            (omega (arith, done.0, sound.0))
                          ∙ ap (λ p. p.1 ++ bytes) held),
                shown.1,
              )
      ]
    ]
  where
    held_of : {x y : NodeKind × List ℕ} → some x ≡ some y → x ≡ y
    held_of h = cc
