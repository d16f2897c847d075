-- ===== src/Vfs/Writes.antt =====
-- What a write leaves to be read.
use gen_os.Common.{
  ℕ, zero, suc, ◌≤◌, ◌≡◌, refl, ap, ap₂, sym, ◌∙◌, subst, ◌⊎◌, inl, inr, true, false, none, some,
  List, [], ◌∷◌, ◌++◌, ltb, length, get_or-set_self, set, replicate, position, arith, Bool-cases,
  Option-cases, length-replicate, position-lt-length, position_of_not_any,
}
use gen_os.FixedText.{from_str}
use gen_os.PathPolicy.{paths_equal}
use gen_os.PathPolicy.Case.{paths_equal_refl}
use gen_os.Vfs.{
  VfsNode, RamVfs, NodeKind, VfsError, file, directory, is_directory, empty_node, has_path, node_at,
  with_node, pushed, max_file_bytes, find, find_index, write_bytes, write_data, write,
  is_a_directory, no_space,
}
use gen_os.Vfs.Bytes.{take-write_bytes_start}
use gen_os.PathPolicy.Ascii.{from_str-valid}
use gen_os.Vfs.Lookup.{entry, lookup, lookup-with_node, lookup-pushed, position-pushed_none}
use gen_os.Vfs.Invariant.{IsValid}
use gen_os.Vfs.Preserve.{
  IsOpen, Kept, file_node, file_node-Sound, pushed_open-IsValid, insert-file, get_or-pushed,
  node-Sound, rewritten-IsValid,
}

set-set_same :
    (nodes : List VfsNode) (i : ℕ) (a b : VfsNode) → set (set nodes i a) i b ≡ set nodes i b
set-set_same [] i a b = refl
set-set_same (x ∷ nodes) zero a b = refl
set-set_same (x ∷ nodes) (suc i) a b = ap (λ xs. x ∷ xs) (set-set_same nodes i a b)

abbrev rewritten : RamVfs → ℕ → List ℕ → RamVfs
rewritten v index bytes = with_node v index (record (node_at v index) {
  data_bytes = write_bytes (node_at v index).data_bytes 0 bytes;
  len = length bytes;
})

-- Emptying the file first makes no difference.
write_data-emptied :
    (v : RamVfs) (path : List ℕ) (index : ℕ) (bytes : List ℕ)
    → find_index v path ≡ some index
    → length bytes ≤ max_file_bytes
    → write_data (with_node v index (record (node_at v index) { len = 0 })) index bytes
      ≡ (none, rewritten v index bytes)
unfolding write_data find_index
write_data-emptied v path index bytes e fits =
    let small : ltb max_file_bytes (length bytes) ≡ false = ground arith in
    let emptied = record (node_at v index) { len = 0 } in
    let here =
      get_or-set_self v.nodes index emptied empty_node
        (position-lt-length (has_path path) v.nodes index e) in
    rw (small, write_data)
      (ap (λ nodes. (none, record v { nodes = nodes }))
        (ap
            (λ n.
              set (set v.nodes index emptied) index
                (record n { data_bytes = write_bytes n.data_bytes 0 bytes; len = length bytes }))
            here
          ∙ set-set_same v.nodes index emptied _))

-- The cases of a write.
write-cases :
    (v : RamVfs) (path bytes : List ℕ)
    → ((e : VfsError) × (write v path bytes ≡ (some e, v)))
      ⊎ ((length bytes ≤ max_file_bytes)
          × IsOpen v path
          × (write v path bytes ≡ (none, pushed v (file_node path bytes))))
      ⊎ ((length bytes ≤ max_file_bytes)
          × (index : ℕ) × (find_index v path ≡ some index)
          × ((node_at v index).kind ≡ file)
          × (write v path bytes ≡ (none, rewritten v index bytes)))
unfolding write
write-cases v path bytes = elim (Bool-cases (ltb max_file_bytes (length bytes))) [
  | inl long ↦ inl (no_space, rw (long, write) refl)
  | inr fits ↦
      let small : length bytes ≤ max_file_bytes = ground arith in
      elim (Option-cases (find_index v path)) [
        | inl e ↦ elim (insert-file v path bytes small) [
          | inl (w, f) ↦ inl (w, rw (fits, write) (rw e f))
          | inr (o, f) ↦ inr (inl (small, o, rw (fits, write) (rw e f)))
        ]
        | inr (index, e) ↦ elim (Bool-cases (is_directory (node_at v index).kind)) [
          | inl d ↦ inl (is_a_directory, rw (fits, write) (rw e (rw d refl)))
          | inr d ↦ inr (
              inr (
                small,
                index,
                e,
                only_file (node_at v index).kind d,
                rw (fits, write) (rw e (rw d (write_data-emptied v path index bytes e small))),
              ))
        ]
      ]
]
  where
    only_file : (kind : NodeKind) → is_directory kind ≡ false → kind ≡ file
    only_file file d = refl
    only_file directory d = absurd (cc)

pub write-IsValid : (v : RamVfs) (path bytes : List ℕ) → IsValid v → IsValid (write v path bytes).1
write-IsValid v path bytes valid = elim (write-cases v path bytes) [
  | inl (e, f) ↦ subst Kept (sym f) valid
  | inr (inl (fits, o, f)) ↦ subst Kept (sym f) (
      pushed_open-IsValid v path (file_node path bytes) valid o refl
        (file_node-Sound path bytes o.valid_path fits))
  | inr (inr (fits, index, e, k, f)) ↦
      subst Kept (sym f) (rewritten-IsValid v path index 0 (length bytes) bytes valid e fits)
]

-- The file that was added.
lookup-added :
    (v : RamVfs) (path bytes : List ℕ)
    → IsOpen v path
    → length bytes ≤ max_file_bytes
    → lookup (pushed v (file_node path bytes)) path ≡ some (file, bytes)
unfolding find find_index
lookup-added v path bytes o fits =
    let own : paths_equal (from_str path) path ≡ true =
      ap (λ p. paths_equal p path) (from_str-valid path o.valid_path) ∙ paths_equal_refl path in
    let before = position_of_not_any (has_path path) v.nodes o.free in
    let after : position (has_path path) (v.nodes ++ (file_node path bytes ∷ []))
        ≡ some (length v.nodes) =
      position-pushed_none (has_path path) v.nodes (file_node path bytes) before ∙ rw own refl in
    rw (after, find, find_index)
      (ap (λ n. some (entry n)) (get_or-pushed v.nodes (file_node path bytes))
        ∙ ap (λ xs. some (file, xs))
            (take-write_bytes_start (replicate max_file_bytes 0) bytes
              (omega (arith, length-replicate {A = ℕ} max_file_bytes 0))))

-- After a write that was accepted the path names the bytes that were written, and every path that
-- differs from it by more than case names what it named before.
pub write-lookup :
    (v w : RamVfs) (path bytes : List ℕ)
    → IsValid v
    → write v path bytes ≡ (none, w)
    → (lookup w path ≡ some (file, bytes))
      × ((other : List ℕ) → paths_equal path other ≡ false → lookup w other ≡ lookup v other)
write-lookup v w path bytes valid e = elim (write-cases v path bytes) [
  | inl (err_of, f) ↦ absurd (cc (sym (ap (λ p. p.0) f) ∙ ap (λ p. p.0) e))
  | inr (inl (fits, o, f)) ↦
      let same : pushed v (file_node path bytes) ≡ w = ap (λ p. p.1) (sym f ∙ e) in
      subst (Reads v path bytes) same (
        lookup-added v path bytes o fits,
        λ other apart.
            lookup-pushed v (file_node path bytes) other
              (ap (λ p. paths_equal p other) (from_str-valid path o.valid_path) ∙ apart),
      )
  | inr (inr (fits, index, g, k, f)) ↦
      let same : rewritten v index bytes ≡ w = ap (λ p. p.1) (sym f ∙ e) in
      let sound = node-Sound v path index valid g in
      let shown = lookup-with_node v path index _ g refl in
      subst (Reads v path bytes) same (
        shown.0
            ∙ ap₂ (λ kind xs. some (kind, xs)) k
                (take-write_bytes_start (node_at v index).data_bytes bytes
                  (omega (arith, sound.0, fits))),
        shown.1,
      )
]
  where
    Reads : RamVfs → List ℕ → List ℕ → RamVfs → Type 0
    Reads v path bytes w =
        (lookup w path ≡ some (file, bytes))
        × ((other : List ℕ) → paths_equal path other ≡ false → lookup w other ≡ lookup v other)
