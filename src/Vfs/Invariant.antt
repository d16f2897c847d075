-- ===== src/Vfs/Invariant.antt =====
-- The invariant of the file system: at most 32 nodes, under valid paths that no two of them share, each
-- with the full array of bytes and a length within it.
use gen_os.Common.{
  ℕ, zero, suc, ◌<◌, ◌≤◌, ◌≡◌, refl, ap, sym, ◌∙◌, subst, inl, inr, true, false, ◌||◌, List, [],
  ◌∷◌, ◌++◌, length, any, get_or, set, arith, Bool-cases, All, All-set, length-set, length-append,
}
use gen_os.PathPolicy.{paths_equal, valid_absolute_path}
use gen_os.PathPolicy.Case.{paths_equal_sym}
use gen_os.Vfs.{
  VfsNode, RamVfs, empty_node, has_path, node_at, with_node, pushed, without, max_nodes,
  max_file_bytes, new,
}

abbrev pub Sound : VfsNode → Type 0
Sound node =
    (length node.data_bytes ≡ max_file_bytes)
    × (node.len ≤ max_file_bytes)
    × (valid_absolute_path node.path ≡ true)

abbrev pub AllApart : List VfsNode → Type 0
AllApart [] = Unit {0}
AllApart (node ∷ nodes) = (any (has_path node.path) nodes ≡ false) × AllApart nodes

pub record IsValid (v : RamVfs) : Type 0 where
  pub few : length v.nodes ≤ max_nodes
  pub sound : All Sound v.nodes
  pub unique : AllApart v.nodes

pub new-IsValid : IsValid new
unfolding new
new-IsValid = record { few = omega arith; sound = tt; unique = tt }

any-set_same :
    (path : List ℕ) (nodes : List VfsNode) (index : ℕ) (node : VfsNode)
    → node.path ≡ (get_or nodes index empty_node).path
    → any (has_path path) (set nodes index node) ≡ any (has_path path) nodes
any-set_same path [] index node same = refl
any-set_same path (x ∷ nodes) zero node same =
    ap (λ p. paths_equal p path || any (has_path path) nodes) same
any-set_same path (x ∷ nodes) (suc index) node same =
    ap (λ b. paths_equal x.path path || b) (any-set_same path nodes index node same)

AllApart-set :
    (nodes : List VfsNode) (index : ℕ) (node : VfsNode)
    → node.path ≡ (get_or nodes index empty_node).path
    → AllApart nodes
    → AllApart (set nodes index node)
AllApart-set [] index node same a = tt
AllApart-set (x ∷ nodes) zero node same a = (ap (λ p. any (has_path p) nodes) same ∙ a.0, a.1)
AllApart-set (x ∷ nodes) (suc index) node same a =
    (any-set_same x.path nodes index node same ∙ a.0, AllApart-set nodes index node same a.1)

pub with_node-IsValid :
    (v : RamVfs) (index : ℕ) (node : VfsNode)
    → IsValid v
    → node.path ≡ (node_at v index).path
    → Sound node
    → IsValid (with_node v index node)
with_node-IsValid v index node valid same sound = record {
  few = subst (λ k. k ≤ max_nodes) (sym (length-set v.nodes index node)) valid.few;
  sound = All-set Sound v.nodes index node sound valid.sound;
  unique = AllApart-set v.nodes index node same valid.unique;
}

All-pushed :
    (nodes : List VfsNode) (node : VfsNode)
    → All Sound nodes
    → Sound node
    → All Sound (nodes ++ (node ∷ []))
All-pushed [] node a sound = (sound, tt)
All-pushed (x ∷ nodes) node a sound = (a.0, All-pushed nodes node a.1 sound)

any-pushed :
    (path : List ℕ) (nodes : List VfsNode) (node : VfsNode)
    → any (has_path path) nodes ≡ false
    → paths_equal node.path path ≡ false
    → any (has_path path) (nodes ++ (node ∷ [])) ≡ false
any-pushed path [] node e apart = rw apart refl
any-pushed path (x ∷ nodes) node e apart =
    let rest = any-pushed path nodes node in ground (arith, rest, apart)

not_equal_sym : (a b : List ℕ) → paths_equal a b ≡ false → paths_equal b a ≡ false
not_equal_sym a b e = elim (Bool-cases (paths_equal b a)) [
  | inl h ↦ absurd (cc (sym e ∙ paths_equal_sym b a h))
  | inr h ↦ h
]

AllApart-pushed :
    (nodes : List VfsNode) (node : VfsNode)
    → AllApart nodes
    → any (has_path node.path) nodes ≡ false
    → AllApart (nodes ++ (node ∷ []))
AllApart-pushed [] node a free = (refl, tt)
AllApart-pushed (x ∷ nodes) node a free = (
  any-pushed x.path nodes node a.0 (not_equal_sym x.path node.path (ground (arith, free))),
  AllApart-pushed nodes node a.1 (ground (arith, free)),
)

pub pushed-IsValid :
    (v : RamVfs) (node : VfsNode)
    → IsValid v
    → length v.nodes < max_nodes
    → Sound node
    → any (has_path node.path) v.nodes ≡ false
    → IsValid (pushed v node)
pushed-IsValid v node valid room sound free = record {
  few = omega (arith, room, length-append v.nodes (node ∷ []));
  sound = All-pushed v.nodes node valid.sound sound;
  unique = AllApart-pushed v.nodes node valid.unique free;
}

All-without : (nodes : List VfsNode) (index : ℕ) → All Sound nodes → All Sound (without nodes index)
unfolding without
All-without [] index a = a
All-without (x ∷ nodes) zero a = a.1
All-without (x ∷ nodes) (suc index) a = (a.0, All-without nodes index a.1)

any-without :
    (path : List ℕ) (nodes : List VfsNode) (index : ℕ)
    → any (has_path path) nodes ≡ false
    → any (has_path path) (without nodes index) ≡ false
unfolding without
any-without path [] index e = e
any-without path (x ∷ nodes) zero e = ground (arith, e)
any-without path (x ∷ nodes) (suc index) e =
    let rest = any-without path nodes index in ground (arith, rest, e)

AllApart-without :
    (nodes : List VfsNode) (index : ℕ) → AllApart nodes → AllApart (without nodes index)
unfolding without
AllApart-without [] index a = a
AllApart-without (x ∷ nodes) zero a = a.1
AllApart-without (x ∷ nodes) (suc index) a =
    (any-without x.path nodes index a.0, AllApart-without nodes index a.1)

length-without : (nodes : List VfsNode) (index : ℕ) → length (without nodes index) ≤ length nodes
unfolding without
length-without [] index = omega arith
length-without (x ∷ nodes) zero = omega arith
length-without (x ∷ nodes) (suc index) = omega (arith, length-without nodes index)

pub without-IsValid :
    (v : RamVfs) (index : ℕ) → IsValid v → IsValid (record v { nodes = without v.nodes index })
without-IsValid v index valid = record {
  few = omega (arith, length-without v.nodes index, valid.few);
  sound = All-without v.nodes index valid.sound;
  unique = AllApart-without v.nodes index valid.unique;
}
