-- ===== src/Vfs/Preserve.antt =====
-- What an insertion does, and that the operations keep the invariant.
use gen_os.Common.{
  ℕ, zero, suc, ◌+◌, ◌<◌, ◌≤◌, ◌≡◌, refl, ap, sym, ◌∙◌, subst, ◌⊎◌, inl, inr, Bool, true, false,
  ◌&&◌, not, Option, none, some, List, [], ◌∷◌, ◌++◌, leb, ltb, if◌then◌else◌, if_keeps, length,
  any, get_or, set, replicate, arith, Option-cases, All, length-replicate, position-none,
  position-lt-length, is_some, checked_add,
}
use gen_os.FixedText.{from_str}
use gen_os.PathPolicy.{root, bytes_eq, valid_absolute_path}
use gen_os.Vfs.{
  VfsNode, RamVfs, NodeKind, VfsError, file, directory, is_directory, empty_node, has_path, node_at,
  with_node, pushed, max_nodes, max_file_bytes, find, find_index, write_bytes, write_data,
  check_parent, insert_error, fresh_node, insert, mkdir, touch, append_at, append_new, append,
  truncate, remove, direct_child, no_space, invalid_path, exists, is_a_directory, not_empty,
}
use gen_os.Vfs.Bytes.{length-write_bytes}
use gen_os.PathPolicy.Ascii.{from_str-valid}
use gen_os.Vfs.Invariant.{Sound, IsValid, with_node-IsValid, pushed-IsValid, without-IsValid}

-- What an insertion without an error knows.
pub record IsOpen (v : RamVfs) (path : List ℕ) : Type 0 where
  pub valid_path : valid_absolute_path path ≡ true
  pub free : any (has_path path) v.nodes ≡ false
  pub room : length v.nodes < max_nodes

if-none :
    (b : Bool) (w : VfsError) (x : Option VfsError)
    → (if b then some w else x) ≡ none
    → (b ≡ false) × (x ≡ none)
if-none true w x e = absurd (cc)
if-none false w x e = (refl, e)

find-free :
    (v : RamVfs) (path : List ℕ)
    → is_some (find v path) ≡ false
    → any (has_path path) v.nodes ≡ false
unfolding find find_index
find-free v path e = elim (Option-cases (find_index v path)) [
  | inl f ↦ position-none (has_path path) v.nodes f
  | inr (i, f) ↦ absurd (cc (rw (f, find) at e))
]

pub insert_error-IsOpen :
    (v : RamVfs) (path : List ℕ) (kind : NodeKind) (bytes : List ℕ)
    → insert_error v path kind bytes ≡ none
    → IsOpen v path
unfolding insert_error
insert_error-IsOpen v path kind bytes e =
    let first =
      if-none (not (is_directory kind) && ltb max_file_bytes (length bytes)) no_space _ e in
    let second = if-none (not (valid_absolute_path path)) invalid_path _ first.1 in
    let third = if-none (is_some (find v path)) exists _ second.1 in
    let last = parent third.1 in
    record {
      valid_path = ground arith;
      free = find-free v path third.0;
      room = ground (arith, (if-none (leb max_nodes (length v.nodes)) no_space none last).0);
    }
  where
    parent :
        elim (check_parent v path) [
          | some w ↦ some w
          | none ↦ if leb max_nodes (length v.nodes) then some no_space else none
        ]
          ≡ none
        → (if leb max_nodes (length v.nodes) then some no_space else none) ≡ none
    parent h = elim (Option-cases (check_parent v path)) [
      | inl f ↦ rw f at h
      | inr (w, f) ↦ absurd (cc (rw f at h))
    ]

-- The node of a new file.
abbrev pub file_node : List ℕ → List ℕ → VfsNode
file_node path bytes = record {
  path = from_str path;
  kind = file;
  data_bytes = write_bytes (replicate max_file_bytes 0) 0 bytes;
  len = length bytes;
}

pub get_or-pushed :
    (nodes : List VfsNode) (node : VfsNode)
    → get_or (nodes ++ (node ∷ [])) (length nodes) empty_node ≡ node
get_or-pushed [] node = refl
get_or-pushed (x ∷ nodes) node = get_or-pushed nodes node

set-pushed :
    (nodes : List VfsNode) (node m : VfsNode)
    → set (nodes ++ (node ∷ [])) (length nodes) m ≡ nodes ++ (m ∷ [])
set-pushed [] node m = refl
set-pushed (x ∷ nodes) node m = ap (λ xs. x ∷ xs) (set-pushed nodes node m)

write_data-pushed :
    (v : RamVfs) (path bytes : List ℕ)
    → length bytes ≤ max_file_bytes
    → write_data (pushed v (fresh_node path file)) (length v.nodes) bytes
      ≡ (none, pushed v (file_node path bytes))
unfolding write_data
write_data-pushed v path bytes fits =
    let small : ltb max_file_bytes (length bytes) ≡ false = ground arith in
    let here = get_or-pushed v.nodes (fresh_node path file) in
    rw (small, write_data)
      (ap (λ nodes. (none, record v { nodes = nodes }))
        (ap
            (λ n.
              set (v.nodes ++ (fresh_node path file ∷ [])) (length v.nodes)
                (record n { data_bytes = write_bytes n.data_bytes 0 bytes; len = length bytes }))
            here
          ∙ set-pushed v.nodes (fresh_node path file) (file_node path bytes)))

-- An insertion either refuses and changes nothing, or adds the node.
pub insert-file :
    (v : RamVfs) (path bytes : List ℕ)
    → length bytes ≤ max_file_bytes
    → ((e : VfsError) × (insert v path file bytes ≡ (some e, v)))
      ⊎ (IsOpen v path × (insert v path file bytes ≡ (none, pushed v (file_node path bytes))))
unfolding insert
insert-file v path bytes fits = elim (Option-cases (insert_error v path file bytes)) [
  | inr (e, f) ↦ inl (e, rw (f, insert) refl)
  | inl f ↦ inr (
    insert_error-IsOpen v path file bytes f,
    rw (f, insert) (write_data-pushed v path bytes fits),
  )
]

pub file_node-Sound :
    (path bytes : List ℕ)
    → valid_absolute_path path ≡ true
    → length bytes ≤ max_file_bytes
    → Sound (file_node path bytes)
file_node-Sound path bytes e fits = (
  length-write_bytes (replicate max_file_bytes 0) 0 bytes
      ∙ length-replicate {A = ℕ} max_file_bytes 0,
  fits,
  ap valid_absolute_path (from_str-valid path e) ∙ e,
)

pub pushed_open-IsValid :
    (v : RamVfs) (path : List ℕ) (node : VfsNode)
    → IsValid v
    → IsOpen v path
    → node.path ≡ from_str path
    → Sound node
    → IsValid (pushed v node)
pushed_open-IsValid v path node valid o same sound =
    pushed-IsValid v node valid o.room sound
      (ap (λ p. any (has_path p) v.nodes) (same ∙ from_str-valid path o.valid_path) ∙ o.free)

abbrev pub Kept : Option VfsError × RamVfs → Type 0
Kept p = IsValid p.1

pub insert_file-IsValid :
    (v : RamVfs) (path bytes : List ℕ)
    → IsValid v
    → length bytes ≤ max_file_bytes
    → Kept (insert v path file bytes)
insert_file-IsValid v path bytes valid fits = elim (insert-file v path bytes fits) [
  | inl (e, f) ↦ subst Kept (sym f) valid
  | inr (o, f) ↦ subst Kept (sym f) (
      pushed_open-IsValid v path (file_node path bytes) valid o refl
        (file_node-Sound path bytes o.valid_path fits))
]

pub mkdir-IsValid : (v : RamVfs) (path : List ℕ) → IsValid v → Kept (mkdir v path)
unfolding mkdir insert
mkdir-IsValid v path valid = elim (Option-cases (insert_error v path directory [])) [
  | inr (e, f) ↦ rw (f, mkdir, insert) valid
  | inl f ↦
      let o = insert_error-IsOpen v path directory [] f in
      rw (f, mkdir, insert)
        (pushed_open-IsValid v path (fresh_node path directory) valid o refl (
          length-replicate {A = ℕ} max_file_bytes 0,
          omega arith,
          ap valid_absolute_path (from_str-valid path o.valid_path) ∙ o.valid_path,
        ))
]

-- The last steps of the operations that write into a node of the table.
pub node-Sound :
    (v : RamVfs) (path : List ℕ) (index : ℕ)
    → IsValid v
    → find_index v path ≡ some index
    → Sound (node_at v index)
unfolding find_index
node-Sound v path index valid e =
    All-at v.nodes index valid.sound (position-lt-length (has_path path) v.nodes index e)
  where
    All-at :
        (nodes : List VfsNode) (i : ℕ)
        → All Sound nodes
        → i < length nodes
        → Sound (get_or nodes i empty_node)
    All-at [] i a less = absurd (omega arith)
    All-at (x ∷ nodes) zero a less = a.0
    All-at (x ∷ nodes) (suc i) a less = All-at nodes i a.1 (omega arith)

-- A node rewritten in place, with a length within its array.
pub rewritten-IsValid :
    (v : RamVfs) (path : List ℕ) (index start len : ℕ) (bytes : List ℕ)
    → IsValid v
    → find_index v path ≡ some index
    → len ≤ max_file_bytes
    → IsValid (
        with_node v index (record (node_at v index) {
          data_bytes = write_bytes (node_at v index).data_bytes start bytes;
          len = len;
        }))
rewritten-IsValid v path index start len bytes valid e fits =
    let sound = node-Sound v path index valid e in
    with_node-IsValid v index _ valid refl
      (length-write_bytes (node_at v index).data_bytes start bytes ∙ sound.0, fits, sound.2)

truncated-IsValid :
    (v : RamVfs) (path : List ℕ) (index : ℕ)
    → IsValid v
    → find_index v path ≡ some index
    → IsValid (with_node v index (record (node_at v index) { len = 0 }))
truncated-IsValid v path index valid e =
    let sound = node-Sound v path index valid e in
    with_node-IsValid v index _ valid refl (sound.0, omega arith, sound.2)

append_at-IsValid :
    (v : RamVfs) (path : List ℕ) (index : ℕ) (bytes : List ℕ)
    → IsValid v
    → find_index v path ≡ some index
    → Kept (append_at v index bytes)
unfolding append_at
append_at-IsValid v path index bytes valid e =
    if_keeps Kept (is_directory (node_at v index).kind) (some is_a_directory, v) _ (λ h. valid)
      (λ h. elim (Option-cases (checked_add (node_at v index).len (length bytes))) [
        | inl f ↦ rw f valid
        | inr (end, f) ↦
            let sum : (node_at v index).len + length bytes ≡ end = ground arith in
            rw f (
              if_keeps Kept (ltb max_file_bytes end) (some no_space, v) _ (λ k. valid)
                (λ k.
                  rewritten-IsValid v path index (node_at v index).len
                    ((node_at v index).len + length bytes) bytes valid e (ground (arith, sum))))
      ])

append_new-IsValid :
    (path bytes : List ℕ) (p : Option VfsError × RamVfs) → Kept p → Kept (append_new path bytes p)
unfolding append_new
append_new-IsValid path bytes (some e, v) valid = valid
append_new-IsValid path bytes (none, v) valid = elim (Option-cases (find_index v path)) [
  | inl e ↦ rw (e, append_new) valid
  | inr (index, e) ↦ rw (e, append_new) (append_at-IsValid v path index bytes valid e)
]

pub append-IsValid : (v : RamVfs) (path bytes : List ℕ) → IsValid v → Kept (append v path bytes)
unfolding append
append-IsValid v path bytes valid =
    if_keeps Kept (ltb max_file_bytes (length bytes)) (some no_space, v) _ (λ h. valid)
      (λ h. elim (Option-cases (find_index v path)) [
        | inl e ↦ rw e (
            append_new-IsValid path bytes (insert v path file [])
              (insert_file-IsValid v path [] valid (omega arith)))
        | inr (index, e) ↦ rw e (append_at-IsValid v path index bytes valid e)
      ])

pub touch-IsValid : (v : RamVfs) (path : List ℕ) → IsValid v → Kept (touch v path)
unfolding touch
touch-IsValid v path valid =
    if_keeps Kept (is_some (find v path)) (none, v) (insert v path file []) (λ h. valid)
      (λ h. insert_file-IsValid v path [] valid (omega arith))

pub truncate-IsValid : (v : RamVfs) (path : List ℕ) → IsValid v → Kept (truncate v path)
unfolding truncate
truncate-IsValid v path valid = elim (Option-cases (find_index v path)) [
  | inl e ↦ rw (e, truncate) valid
  | inr (index, e) ↦
      rw (e, truncate)
        (if_keeps Kept (is_directory (node_at v index).kind) (some is_a_directory, v) _ (λ h. valid)
          (λ h. truncated-IsValid v path index valid e))
]

pub remove-IsValid : (v : RamVfs) (path : List ℕ) → IsValid v → Kept (remove v path)
unfolding remove
remove-IsValid v path valid = elim (Option-cases (find_index v path)) [
  | inl e ↦ rw (e, remove) valid
  | inr (index, e) ↦
      rw (e, remove)
        (if_keeps Kept (bytes_eq path root) (some invalid_path, v) _ (λ h. valid)
          (λ h.
            if_keeps Kept
              (is_directory (node_at v index).kind
                && any (λ node. direct_child (node_at v index).path node.path) v.nodes)
              (some not_empty, v) _ (λ k. valid) (λ k. without-IsValid v index valid)))
]
