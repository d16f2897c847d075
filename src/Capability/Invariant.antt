-- ===== src/Capability/Invariant.antt =====
-- The invariant of the registry: every handle is nonzero and stands in one slot.
use gen_os.Common.{
  ℕ, zero, suc, ◌≡◌, refl, ◌≢◌, ◌∙◌, subst, sym, false, ◌||◌, Option, none, some, List, [], ◌∷◌,
  ◌++◌, ◌==◌, is_none, inl, inr, ◌⊎◌, Option-cases, Bool-cases, set, any, position, replicate,
  length, arith, any-append, length-set, length-replicate,
}
use gen_os.Common.Slots.{Splits, position-Splits, whole_free}
use gen_os.Capability.{
  HandleTable, HandleEntry, HandleKind, names, holds, register, unregister, new, clear,
}

-- No entry of the list carries the number 0, and no number is carried twice.
abbrev pub AllDistinct : List (Option HandleEntry) → Type 0
AllDistinct [] = Unit {0}
AllDistinct (none ∷ es) = AllDistinct es
AllDistinct (some e ∷ es) = (e.handle ≢ 0) × (any (names e.handle) es ≡ false) × AllDistinct es

pub record IsValid (n : ℕ) (t : HandleTable) : Type 0 where
  pub size : length t.entries ≡ n
  pub distinct : AllDistinct t.entries

-- Two searches for one number through lists that are joined.
AllDistinct-append_left :
    (xs ys : List (Option HandleEntry)) → AllDistinct (xs ++ ys) → AllDistinct xs
AllDistinct-append_left [] ys d = tt
AllDistinct-append_left (none ∷ xs) ys d = AllDistinct-append_left xs ys d
AllDistinct-append_left (some e ∷ xs) ys d =
    (d.0, ground (arith, any-append (names e.handle) xs ys, d.1), AllDistinct-append_left xs ys d.2)

pub AllDistinct-put :
    (xs ys : List (Option HandleEntry)) (e : HandleEntry)
    → e.handle ≢ 0
    → any (names e.handle) (xs ++ (none ∷ ys)) ≡ false
    → AllDistinct (xs ++ (none ∷ ys))
    → AllDistinct (xs ++ (some e ∷ ys))
AllDistinct-put [] ys e nz h d = (nz, h, d)
AllDistinct-put (none ∷ xs) ys e nz h d = AllDistinct-put xs ys e nz h d
AllDistinct-put (some x ∷ xs) ys e nz h d = (
  d.0,
  ground (
    arith,
    any-append (names x.handle) xs (none ∷ ys),
    any-append (names x.handle) xs (some e ∷ ys),
    d.1,
    h,
  ),
  AllDistinct-put xs ys e nz (ground arith) d.2,
)

pub AllDistinct-remove :
    (xs ys : List (Option HandleEntry)) (e : Option HandleEntry)
    → AllDistinct (xs ++ (e ∷ ys))
    → AllDistinct (xs ++ (none ∷ ys))
AllDistinct-remove [] ys none d = d
AllDistinct-remove [] ys (some e) d = d.2
AllDistinct-remove (none ∷ xs) ys e d = AllDistinct-remove xs ys e d
AllDistinct-remove (some x ∷ xs) ys e d = (
  d.0,
  ground (
    arith,
    any-append (names x.handle) xs (none ∷ ys),
    any-append (names x.handle) xs (e ∷ ys),
    d.1,
  ),
  AllDistinct-remove xs ys e d.2,
)

-- An entry's number stands neither before nor behind it.
pub AllDistinct-before :
    (xs ys : List (Option HandleEntry)) (e : HandleEntry)
    → AllDistinct (xs ++ (some e ∷ ys))
    → any (names e.handle) xs ≡ false
AllDistinct-before [] ys e d = refl
AllDistinct-before (none ∷ xs) ys e d = AllDistinct-before xs ys e d
AllDistinct-before (some x ∷ xs) ys e d =
    ground
      (arith, AllDistinct-before xs ys e d.2, any-append (names x.handle) xs (some e ∷ ys), d.1)

pub AllDistinct-after :
    (xs ys : List (Option HandleEntry)) (e : HandleEntry)
    → AllDistinct (xs ++ (some e ∷ ys))
    → any (names e.handle) ys ≡ false
AllDistinct-after [] ys e d = d.1
AllDistinct-after (none ∷ xs) ys e d = AllDistinct-after xs ys e d
AllDistinct-after (some x ∷ xs) ys e d = AllDistinct-after xs ys e d.2

AllDistinct-replicate : (n : ℕ) → AllDistinct (replicate n none)
AllDistinct-replicate zero = tt
AllDistinct-replicate (suc n) = AllDistinct-replicate n

pub new-IsValid : (n : ℕ) → IsValid n (new n)
unfolding new
new-IsValid n = record { size = length-replicate n none; distinct = AllDistinct-replicate n }

-- `register` and the slot that it takes.
module _ (n : ℕ) (t : HandleTable) (handle : ℕ) (kind : HandleKind) (rights : ℕ)
    (v : IsValid n t) where
  abbrev entry : HandleEntry
  entry = record { handle = handle; kind = kind; rights = rights }

  put-AllDistinct :
      (i : ℕ)
      → (handle == 0 || any (names handle) t.entries) ≡ false
      → Splits is_none t.entries i
      → AllDistinct (set t.entries i (some entry))
  put-AllDistinct i h s = subst AllDistinct (sym (s.write (some entry))) (
      AllDistinct-put s.before s.after entry (ground arith)
        (subst (λ es. any (names handle) es ≡ false) (whole_free t.entries i s) (ground arith))
        (subst AllDistinct (whole_free t.entries i s) v.distinct))

  register_cases :
      (position is_none t.entries ≡ none) ⊎ ((i : ℕ) × (position is_none t.entries ≡ some i))
      → IsValid n (register t handle kind rights).1
  unfolding register
  register_cases (inl e) = rw (e, register) (ground arith)
  register_cases (inr (i, e)) = elim (Bool-cases (handle == 0 || any (names handle) t.entries)) [
    | inl h ↦ rw (h, register) v
    | inr h ↦
        rw (h, e, register)
          (record {
            size = length-set t.entries i (some entry) ∙ v.size;
            distinct = put-AllDistinct i h (position-Splits is_none t.entries i e);
          })
  ]

  pub register-IsValid : IsValid n (register t handle kind rights).1
  register-IsValid = register_cases (Option-cases (position is_none t.entries))

module _ (n : ℕ) (t : HandleTable) (handle : ℕ) (kind : HandleKind) (v : IsValid n t) where
  unregister_cases :
      (position (holds handle kind) t.entries ≡ none)
        ⊎ ((i : ℕ) × (position (holds handle kind) t.entries ≡ some i))
      → IsValid n (unregister t handle kind).1
  unfolding unregister
  unregister_cases (inl e) = rw (e, unregister) v
  unregister_cases (inr (i, e)) =
      let s = position-Splits (holds handle kind) t.entries i e in
      rw (e, unregister)
        (record {
          size = length-set t.entries i none ∙ v.size;
          distinct =
              subst AllDistinct (sym (s.write none))
                (AllDistinct-remove s.before s.after s.slot (subst AllDistinct s.whole v.distinct));
        })

  pub unregister-IsValid : IsValid n (unregister t handle kind).1
  unregister-IsValid = unregister_cases (Option-cases (position (holds handle kind) t.entries))

pub clear-IsValid : (n : ℕ) (t : HandleTable) → IsValid n t → IsValid n (clear t)
unfolding clear
clear-IsValid n t v = record {
  size = length-replicate (length t.entries) none ∙ v.size;
  distinct = AllDistinct-replicate (length t.entries);
}

-- A process's requests to its registry, in any order.
pub data Op : Type 0 where
  registers : ℕ → HandleKind → ℕ → Op
  unregisters : ℕ → HandleKind → Op
  clears : Op

pub apply : HandleTable → Op → HandleTable
apply t (registers handle kind rights) = (register t handle kind rights).1
apply t (unregisters handle kind) = (unregister t handle kind).1
apply t clears = clear t

pub run : HandleTable → List Op → HandleTable
run t [] = t
run t (op ∷ ops) = run (apply t op) ops

apply-IsValid : (n : ℕ) (t : HandleTable) (op : Op) → IsValid n t → IsValid n (apply t op)
unfolding apply
apply-IsValid n t (registers handle kind rights) v = register-IsValid n t handle kind rights v
apply-IsValid n t (unregisters handle kind) v = unregister-IsValid n t handle kind v
apply-IsValid n t clears v = clear-IsValid n t v

run-IsValid : (n : ℕ) (t : HandleTable) (ops : List Op) → IsValid n t → IsValid n (run t ops)
unfolding run
run-IsValid n t [] v = v
run-IsValid n t (op ∷ ops) v = run-IsValid n (apply t op) ops (apply-IsValid n t op v)

-- After any sequence of calls on a new table of `n` slots it still has `n` slots, and every
-- registered handle is nonzero and stands in one slot only.
pub run-new-IsValid : (n : ℕ) (ops : List Op) → IsValid n (run (new n) ops)
run-new-IsValid n ops = run-IsValid n (new n) ops (new-IsValid n)
