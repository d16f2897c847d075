-- ===== src/Vfs/Lookup.antt =====
-- What a path names in a file system, and how a change of one node shows there.
use gen_os.Common.{
  ℕ, zero, suc, ◌≡◌, refl, ap, sym, ◌∙◌, subst, inl, inr, Bool, true, false, Option, none, some,
  List, [], ◌∷◌, ◌++◌, get_or, set, position, next_position, length, arith, Bool-cases,
  Option-cases, ℕ_discrete, get_or-set_self, get_or-set_ne, position-lt-length, get_or-position,
  if◌then◌else◌,
}
use gen_os.PathPolicy.{paths_equal}
use gen_os.PathPolicy.Case.{paths_equal_sym, paths_equal_trans}
use gen_os.Vfs.{
  VfsNode, RamVfs, NodeKind, empty_node, has_path, find_index, find, node_at, with_node, pushed,
  contents,
}

-- The kind and the bytes of what a path names.
abbrev pub entry : VfsNode → NodeKind × List ℕ
entry node = (node.kind, contents node)

abbrev pub entry_of : Option VfsNode → Option (NodeKind × List ℕ)
entry_of none = none
entry_of (some node) = some (entry node)

abbrev pub lookup : RamVfs → List ℕ → Option (NodeKind × List ℕ)
lookup v path = entry_of (find v path)

-- A search by the path does not see a change that keeps the path.
position-set :
    (path : List ℕ) (nodes : List VfsNode) (index : ℕ) (node : VfsNode)
    → node.path ≡ (get_or nodes index empty_node).path
    → position (has_path path) (set nodes index node) ≡ position (has_path path) nodes
position-set path [] index node same = refl
position-set path (x ∷ nodes) zero node same =
    ap (λ p. if paths_equal p path then some 0 else next_position (position (has_path path) nodes))
      same
position-set path (x ∷ nodes) (suc index) node same =
    ap (λ o. if paths_equal x.path path then some 0 else next_position o)
      (position-set path nodes index node same)

pub lookup-with_node :
    (v : RamVfs) (path : List ℕ) (index : ℕ) (node : VfsNode)
    → find_index v path ≡ some index
    → node.path ≡ (node_at v index).path
    → (lookup (with_node v index node) path ≡ some (entry node))
      × ((other : List ℕ)
          → paths_equal path other ≡ false
          → lookup (with_node v index node) other ≡ lookup v other)
unfolding find_index find
lookup-with_node v path index node e same =
    let kept = λ (q : List ℕ). position-set q v.nodes index node same in
    let inside = position-lt-length (has_path path) v.nodes index e in
    let mine : paths_equal (node_at v index).path path ≡ true =
      get_or-position (has_path path) v.nodes index empty_node e in
    (
      rw (kept path ∙ e, find_index, find)
          (ap (λ n. some (entry n)) (get_or-set_self v.nodes index node empty_node inside)),
      λ other apart. elim (Option-cases (position (has_path other) v.nodes)) [
        | inl f ↦ rw (kept other ∙ f, find_index, find) (rw (f, find_index, find) refl)
        | inr (j, f) ↦ elim (ℕ_discrete index j) [
          | yes here ↦
              let theirs : paths_equal (node_at v index).path other ≡ true =
                subst (λ i. paths_equal (node_at v i).path other ≡ true) (sym here)
                  (get_or-position (has_path other) v.nodes j empty_node f) in
              absurd (
                cc
                  (sym apart ∙ paths_equal_trans path _ other (paths_equal_sym _ path mine) theirs))
          | no away ↦
              rw (kept other ∙ f, find_index, find)
                (rw (f, find_index, find)
                  (ap (λ n. some (entry n)) (get_or-set_ne v.nodes index j node empty_node away)))
        ]
      ],
    )

position-pushed_some :
    (p : VfsNode → Bool) (nodes : List VfsNode) (node : VfsNode) (i : ℕ)
    → position p nodes ≡ some i
    → (position p (nodes ++ (node ∷ [])) ≡ some i)
      × (get_or (nodes ++ (node ∷ [])) i empty_node ≡ get_or nodes i empty_node)
position-pushed_some p [] node i e = absurd (cc)
position-pushed_some p (x ∷ nodes) node i e = elim (Bool-cases (p x)) [
  | inl h ↦
      let first : 0 ≡ i = ground (arith, rw h at e) in
      subst
        (λ k.
          (position p (x ∷ nodes ++ (node ∷ [])) ≡ some k)
          × (get_or (x ∷ nodes ++ (node ∷ [])) k empty_node ≡ get_or (x ∷ nodes) k empty_node))
        first (rw h refl, refl)
  | inr h ↦ elim (Option-cases (position p nodes)) [
    | inl f ↦ absurd (cc (rw f at rw h at e))
    | inr (k, f) ↦
        let next : suc k ≡ i = ground (arith, rw f at rw h at e) in
        let rest = position-pushed_some p nodes node k f in
        subst
          (λ m.
            (position p (x ∷ nodes ++ (node ∷ [])) ≡ some m)
            × (get_or (x ∷ nodes ++ (node ∷ [])) m empty_node ≡ get_or (x ∷ nodes) m empty_node))
          next (rw h (ap next_position rest.0), rest.1)
  ]
]

pub position-pushed_none :
    (p : VfsNode → Bool) (nodes : List VfsNode) (node : VfsNode)
    → position p nodes ≡ none
    → position p (nodes ++ (node ∷ [])) ≡ (if p node then some (length nodes) else none)
position-pushed_none p [] node e = elim (Bool-cases (p node)) [
  | inl h ↦ rw h refl
  | inr h ↦ rw h refl
]
position-pushed_none p (x ∷ nodes) node e = elim (Bool-cases (p x)) [
  | inl h ↦ absurd (cc (rw h at e))
  | inr h ↦
      let rest =
        position-pushed_none p nodes node
          (ground (arith, rw h at e, Option-cases (position p nodes))) in
      rw h (
        ap next_position rest
        ∙ (elim (p node)
            as (λ b.
              next_position (if b then some (length nodes) else none)
              ≡ (if b then some (suc (length nodes)) else none)) [ true ↦ refl | false ↦ refl ]))
]

-- A node that is added shows under its path, and only there, where no node had it.
pub lookup-pushed :
    (v : RamVfs) (node : VfsNode) (other : List ℕ)
    → paths_equal node.path other ≡ false
    → lookup (pushed v node) other ≡ lookup v other
unfolding find_index find
lookup-pushed v node other apart = elim (Option-cases (position (has_path other) v.nodes)) [
  | inl e ↦
      let after : position (has_path other) (v.nodes ++ (node ∷ [])) ≡ none =
        position-pushed_none (has_path other) v.nodes node e ∙ rw apart refl in
      rw (after, find_index, find) (rw (e, find_index, find) refl)
  | inr (i, e) ↦
      let after = position-pushed_some (has_path other) v.nodes node i e in
      rw (after.0, find_index, find) (rw (e, find_index, find) (ap (λ n. some (entry n)) after.1))
]
