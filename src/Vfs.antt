-- ===== src/Vfs.antt =====
-- kernel/src/vfs.rs: the file system in memory. Of the array of nodes the model keeps the `len` in use;
-- a node's array of bytes is a list of its full size. Strings are lists of bytes. An operation answers
-- the error, if any, and the file system after it.
pub mod Bytes
pub mod Lookup
pub mod Invariant
pub mod Preserve
pub mod Writes
pub mod Appends
pub mod History
mod Tests
use gen_os.Common.{
  ℕ, zero, suc, ◌+◌, ◌-◌, max, Bool, true, false, ◌&&◌, ◌||◌, not, Option, none, some, List, [],
  ◌∷◌, ◌++◌, ◌==◌, leb, ltb, if◌then◌else◌, is_some, any, take, drop, length, replicate, get_or,
  set, position, checked_add,
}
use gen_os.FixedText.{from_str, push_str, push_u64}
use gen_os.PathPolicy.{bytes_eq, root, slash, strip_slash, paths_equal, valid_absolute_path}

abbrev pub max_nodes : ℕ
max_nodes = 32

abbrev pub max_file_bytes : ℕ
max_file_bytes = 512

pub data NodeKind : Type 0 where
  file directory : NodeKind

abbrev pub is_directory : NodeKind → Bool
is_directory file = false
is_directory directory = true

pub data VfsError : Type 0 where
  exists not_found no_space is_a_directory not_directory not_empty invalid_path invalid_offset :
      VfsError

pub record VfsNode : Type 0 where
  pub path : List ℕ
  pub kind : NodeKind
  pub data_bytes : List ℕ
  pub len : ℕ

unfoldable pub empty_node : VfsNode
empty_node = record { path = []; kind = file; data_bytes = replicate max_file_bytes 0; len = 0 }

-- `VfsNode::data`.
abbrev pub contents : VfsNode → List ℕ
contents node = take node.len node.data_bytes

pub record RamVfs : Type 0 where
  pub nodes : List VfsNode

unfoldable pub new : RamVfs
new = record { nodes = [] }

-- The body is that of `paths_equal`.
abbrev pub eq_ignore_ascii_case : List ℕ → List ℕ → Bool
eq_ignore_ascii_case a b = paths_equal a b

abbrev pub has_path : List ℕ → VfsNode → Bool
has_path path node = eq_ignore_ascii_case node.path path

unfoldable pub find_index : RamVfs → List ℕ → Option ℕ
find_index v path = position (has_path path) v.nodes

abbrev pub node_at : RamVfs → ℕ → VfsNode
node_at v index = get_or v.nodes index empty_node

unfoldable pub find : RamVfs → List ℕ → Option VfsNode
find v path = elim (find_index v path) [ none ↦ none | some index ↦ some (node_at v index) ]

unfoldable pub write_bytes : List ℕ → ℕ → List ℕ → List ℕ
write_bytes bytes start [] = bytes
write_bytes bytes start (byte ∷ more) = write_bytes (set bytes start byte) (start + 1) more

abbrev pub with_node : RamVfs → ℕ → VfsNode → RamVfs
with_node v index node = record v { nodes = set v.nodes index node }

unfoldable pub write_data : RamVfs → ℕ → List ℕ → Option VfsError × RamVfs
write_data v index bytes = if ltb max_file_bytes (length bytes) then (some no_space, v) else (
  none,
  with_node v index (record (node_at v index) {
    data_bytes = write_bytes (node_at v index).data_bytes 0 bytes;
    len = length bytes;
  }),
)

-- `rfind('/')`.
unfoldable pub rfind_slash : List ℕ → Option ℕ
rfind_slash [] = none
rfind_slash (byte ∷ rest) = elim (rfind_slash rest) [
  | some i ↦ some (suc i)
  | none ↦ if byte == slash then some 0 else none
]

abbrev pub parent_path : List ℕ → ℕ → List ℕ
parent_path path last = if last == 0 then root else take last path

abbrev pub parent_error : Option VfsNode → Option VfsError
parent_error none = some not_found
parent_error (some parent) = if is_directory parent.kind then none else some not_directory

-- The checks of `insert` on the parent.
unfoldable pub check_parent : RamVfs → List ℕ → Option VfsError
check_parent v path = if bytes_eq path root then none else elim (rfind_slash path) [
  | none ↦ some invalid_path
  | some last ↦ parent_error (find v (parent_path path last))
]

-- The checks of `insert` before it changes anything.
unfoldable pub insert_error : RamVfs → List ℕ → NodeKind → List ℕ → Option VfsError
insert_error v path kind bytes =
    if not (is_directory kind) && ltb max_file_bytes (length bytes)
    then some no_space
    else if not (valid_absolute_path path)
    then some invalid_path
    else if is_some (find v path)
    then some exists
    else elim (check_parent v path) [
      | some e ↦ some e
      | none ↦ if leb max_nodes (length v.nodes) then some no_space else none
    ]

abbrev pub fresh_node : List ℕ → NodeKind → VfsNode
fresh_node path kind = record {
  path = from_str path;
  kind = kind;
  data_bytes = replicate max_file_bytes 0;
  len = 0;
}

abbrev pub pushed : RamVfs → VfsNode → RamVfs
pushed v node = record v { nodes = v.nodes ++ (node ∷ []) }

unfoldable pub insert : RamVfs → List ℕ → NodeKind → List ℕ → Option VfsError × RamVfs
insert v path kind bytes = elim (insert_error v path kind bytes) [
  | some e ↦ (some e, v)
  | none ↦
      if is_directory kind
      then (none, pushed v (fresh_node path kind))
      else write_data (pushed v (fresh_node path kind)) (length v.nodes) bytes
]

unfoldable pub mkdir : RamVfs → List ℕ → Option VfsError × RamVfs
mkdir v path = insert v path directory []

unfoldable pub touch : RamVfs → List ℕ → Option VfsError × RamVfs
touch v path = if is_some (find v path) then (none, v) else insert v path file []

unfoldable pub write : RamVfs → List ℕ → List ℕ → Option VfsError × RamVfs
write v path bytes =
    if ltb max_file_bytes (length bytes) then (some no_space, v) else elim (find_index v path) [
      | none ↦ insert v path file bytes
      | some index ↦
          if is_directory (node_at v index).kind
          then (some is_a_directory, v)
          else write_data (with_node v index (record (node_at v index) { len = 0 })) index bytes
    ]

-- The end of `append`, at the node's index.
unfoldable pub append_at : RamVfs → ℕ → List ℕ → Option VfsError × RamVfs
append_at v index bytes =
    let node = node_at v index in
    if is_directory node.kind
    then (some is_a_directory, v)
    else elim (checked_add node.len (length bytes)) [
      | none ↦ (some no_space, v)
      | some end ↦ if ltb max_file_bytes end then (some no_space, v) else (
        none,
        with_node v index (record node {
          data_bytes = write_bytes node.data_bytes node.len bytes;
          len = node.len + length bytes;
        }),
      )
    ]

unfoldable pub append_new : List ℕ → List ℕ → Option VfsError × RamVfs → Option VfsError × RamVfs
append_new path bytes (some e, v) = (some e, v)
append_new path bytes (none, v) = elim (find_index v path) [
  | none ↦ (some not_found, v)
  | some index ↦ append_at v index bytes
]

unfoldable pub append : RamVfs → List ℕ → List ℕ → Option VfsError × RamVfs
append v path bytes =
    if ltb max_file_bytes (length bytes) then (some no_space, v) else elim (find_index v path) [
      | none ↦ append_new path bytes (insert v path file [])
      | some index ↦ append_at v index bytes
    ]

-- The answer is the number of bytes written, or the error.
pub data Result {ℓ} (A : Type ℓ) : Type ℓ where
  ok : A → Result A
  err : VfsError → Result A

unfoldable pub write_at : RamVfs → List ℕ → ℕ → List ℕ → Result ℕ × RamVfs
write_at v path offset bytes = elim (find_index v path) [
  | none ↦ (err not_found, v)
  | some index ↦
      let node = node_at v index in
      if is_directory node.kind
      then (err is_a_directory, v)
      else if ltb node.len offset
      then (err invalid_offset, v)
      else elim (checked_add offset (length bytes)) [
        | none ↦ (err no_space, v)
        | some end ↦ if ltb max_file_bytes end then (err no_space, v) else (
          ok (length bytes),
          with_node v index (record node {
            data_bytes = write_bytes node.data_bytes offset bytes;
            len = max node.len end;
          }),
        )
      ]
]

unfoldable pub truncate : RamVfs → List ℕ → Option VfsError × RamVfs
truncate v path = elim (find_index v path) [
  | none ↦ (some not_found, v)
  | some index ↦
      if is_directory (node_at v index).kind
      then (some is_a_directory, v)
      else (none, with_node v index (record (node_at v index) { len = 0 }))
]

unfoldable pub read : RamVfs → List ℕ → Result (List ℕ)
read v path = elim (find v path) [
  | none ↦ err not_found
  | some node ↦ if is_directory node.kind then err is_a_directory else ok (contents node)
]

-- What follows the directory in a path below it.
abbrev pub remainder : List ℕ → List ℕ → Option (List ℕ)
remainder parent candidate =
    if bytes_eq parent root
    then strip_slash candidate
    else if leb (length parent) (length candidate)
        && eq_ignore_ascii_case (take (length parent) candidate) parent
    then strip_slash (drop (length parent) candidate)
    else none

unfoldable pub direct_child : List ℕ → List ℕ → Bool
direct_child parent candidate = elim (remainder parent candidate) [
  | none ↦ false
  | some name ↦ not (bytes_eq name []) && not (any (λ byte. byte == slash) name)
]

-- The loop that moves the nodes behind `index` one place down.
unfoldable pub without : List VfsNode → ℕ → List VfsNode
without [] index = []
without (node ∷ nodes) zero = nodes
without (node ∷ nodes) (suc index) = node ∷ without nodes index

unfoldable pub remove : RamVfs → List ℕ → Option VfsError × RamVfs
remove v path = elim (find_index v path) [
  | none ↦ (some not_found, v)
  | some index ↦
      if bytes_eq path root
      then (some invalid_path, v)
      else if is_directory (node_at v index).kind
          && any (λ node. direct_child (node_at v index).path node.path) v.nodes
      then (some not_empty, v)
      else (none, record v { nodes = without v.nodes index })
]

-- `copy_from`, and `expect` on the answer: `none` where the code panics.
unfoldable pub copy_from : RamVfs → RamVfs → RamVfs
copy_from v source = record v { nodes = source.nodes }

abbrev pub expect : Option VfsError × RamVfs → Option RamVfs
expect (some e, v) = none
expect (none, v) = some v

unfoldable pub init_root : RamVfs → Option RamVfs
init_root v = expect (mkdir v root)

unfoldable pub seed_file : RamVfs → List ℕ → List ℕ → Option RamVfs
seed_file v name bytes = expect (write v (push_str (from_str root) name) bytes)

abbrev pub kind_text : NodeKind → List ℕ
kind_text file = 102 ∷ 105 ∷ 108 ∷ 101 ∷ []
kind_text directory = 100 ∷ 105 ∷ 114 ∷ []

-- The line ` bytes=` and the length; `none` where the decimal buffer would overflow.
unfoldable pub stat_line : VfsNode → Option (List ℕ)
stat_line node =
    push_u64
      (push_str (push_str (push_str (from_str node.path) (32 ∷ [])) (kind_text node.kind))
        (32 ∷ 98 ∷ 121 ∷ 116 ∷ 101 ∷ 115 ∷ 61 ∷ []))
      node.len

unfoldable pub stat : RamVfs → List ℕ → Result (Option (List ℕ))
stat v path = elim (find v path) [ none ↦ err not_found | some node ↦ ok (stat_line node) ]

abbrev pub is_entry : List ℕ → VfsNode → Bool
is_entry parent node = not (bytes_eq node.path root) && direct_child parent node.path

-- The loop of `read_dir_at`: the entry of number `cursor`.
unfoldable pub entry_at : List ℕ → ℕ → List VfsNode → Option VfsNode
entry_at parent cursor [] = none
entry_at parent cursor (node ∷ nodes) =
    if not (is_entry parent node)
    then entry_at parent cursor nodes
    else elim cursor as (λ n. Option VfsNode) [ zero ↦ some node | suc n ↦ entry_at parent n nodes ]

unfoldable pub read_dir_at : RamVfs → List ℕ → ℕ → Result (Option VfsNode)
read_dir_at v parent cursor = elim (find v parent) [
  | none ↦ err not_found
  | some node ↦
      if not (is_directory node.kind)
      then err not_directory
      else ok (entry_at parent cursor v.nodes)
]

-- `VfsIter`: the nodes from an index on, and its `next`, which skips the root.
unfoldable pub next_node : List VfsNode → Option (VfsNode × List VfsNode)
next_node [] = none
next_node (node ∷ nodes) =
    let rest = next_node nodes in if bytes_eq node.path root then rest else some (node, nodes)

unfoldable pub node_count : RamVfs → ℕ
node_count v = length v.nodes
