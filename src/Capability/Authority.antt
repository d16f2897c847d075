-- ===== src/Capability/Authority.antt =====
-- The registry as a partial function from handles to a kind and rights, and the refinement of
-- that view by `register`, `unregister` and `allows`.
use gen_os.Common.{
  ℕ, ◌≡◌, refl, ◌∙◌, subst, sym, Bool, true, false, ◌&&◌, ◌||◌, Option, none, some, List, [], ◌∷◌,
  ◌++◌, ◌==◌, if◌then◌else◌, is_none, is_some, inl, inr, ◌⊎◌, Option-cases, Bool-cases, ltb, not,
  ap, set, any, position, arith, any-append, position-none, bit_and, position_of_not_any,
}
use gen_os.Common.Slots.{position-Splits, whole_free, any-is_none}
use gen_os.Capability.{
  HandleTable, HandleEntry, HandleKind, names, grants, holds, register, allows, unregister, len,
  kind_eq,
}
use gen_os.Capability.Invariant.{IsValid, AllDistinct}

-- The authority that a table gives to a number.
abbrev pub find : ℕ → List (Option HandleEntry) → Option HandleEntry
find handle [] = none
find handle (none ∷ es) = find handle es
find handle (some e ∷ es) = if e.handle == handle then some e else find handle es

abbrev pub authority : HandleTable → ℕ → Option HandleEntry
authority t handle = find handle t.entries

-- What an authority permits: the exact kind, and all of the required rights.
abbrev pub permits : HandleKind → ℕ → Option HandleEntry → Bool
permits kind required none = false
permits kind required (some e) = kind_eq e.kind kind && (bit_and e.rights required == required)

abbrev pub has_kind : HandleKind → Option HandleEntry → Bool
has_kind kind none = false
has_kind kind (some e) = kind_eq e.kind kind

abbrev or_else : Option HandleEntry → Option HandleEntry → Option HandleEntry
or_else none b = b
or_else (some a) b = some a

find-append :
    (handle : ℕ) (xs ys : List (Option HandleEntry))
    → find handle (xs ++ ys) ≡ or_else (find handle xs) (find handle ys)
find-append handle [] ys = refl
find-append handle (none ∷ xs) ys = find-append handle xs ys
find-append handle (some e ∷ xs) ys = ground (arith, find-append handle xs ys)

find-none :
    (handle : ℕ) (xs : List (Option HandleEntry))
    → any (names handle) xs ≡ false
    → find handle xs ≡ none
find-none handle [] h = refl
find-none handle (none ∷ xs) h = find-none handle xs h
find-none handle (some e ∷ xs) h = ground (arith, find-none handle xs)

pub any-names :
    (handle : ℕ) (xs : List (Option HandleEntry)) → any (names handle) xs ≡ is_some (find handle xs)
any-names handle [] = refl
any-names handle (none ∷ xs) = any-names handle xs
any-names handle (some e ∷ xs) = ground (arith, any-names handle xs)

any-grants_absent :
    (handle : ℕ) (kind : HandleKind) (required : ℕ) (xs : List (Option HandleEntry))
    → any (names handle) xs ≡ false
    → any (grants handle kind required) xs ≡ false
any-grants_absent handle kind required [] h = refl
any-grants_absent handle kind required (none ∷ xs) h = any-grants_absent handle kind required xs h
any-grants_absent handle kind required (some e ∷ xs) h =
    ground (arith, any-grants_absent handle kind required xs)

any-grants :
    (handle : ℕ) (kind : HandleKind) (required : ℕ) (xs : List (Option HandleEntry))
    → AllDistinct xs
    → any (grants handle kind required) xs ≡ permits kind required (find handle xs)
any-grants handle kind required [] d = refl
any-grants handle kind required (none ∷ xs) d = any-grants handle kind required xs d
any-grants handle kind required (some e ∷ xs) d = elim (Bool-cases (e.handle == handle)) [
  | inl same ↦
      let at : e.handle ≡ handle = ground arith in
      rw
        (
          same,
          any-grants_absent handle kind required xs (subst (λ h. any (names h) xs ≡ false) at d.1),
        )
        (ground arith)
  | inr other ↦ rw (other) (any-grants handle kind required xs d.2)
]

-- `allows` answers by the table's authority for the number alone: an unregistered number, another
-- kind, or a missing right is refused, and nothing else is.
pub allows-permits :
    (n : ℕ) (t : HandleTable) (handle : ℕ) (kind : HandleKind) (required : ℕ)
    → IsValid n t
    → allows t handle kind required ≡ permits kind required (authority t handle)
unfolding allows
allows-permits n t handle kind required v = any-grants handle kind required t.entries v.distinct

-- Writing a fresh entry into a free slot adds it.
find-put :
    (xs ys : List (Option HandleEntry)) (e : HandleEntry) (j : ℕ)
    → any (names e.handle) (xs ++ (none ∷ ys)) ≡ false
    → find j (xs ++ (some e ∷ ys)) ≡ (if e.handle == j then some e else find j (xs ++ (none ∷ ys)))
find-put [] ys e j h = refl
find-put (none ∷ xs) ys e j h = find-put xs ys e j h
find-put (some x ∷ xs) ys e j h = ground (arith, find-put xs ys e j)

-- Clearing the slot of an entry removes it, and nothing else.
find-remove :
    (xs ys : List (Option HandleEntry)) (e : HandleEntry) (j : ℕ)
    → AllDistinct (xs ++ (some e ∷ ys))
    → find j (xs ++ (none ∷ ys)) ≡ (if e.handle == j then none else find j (xs ++ (some e ∷ ys)))
find-remove [] ys e j d = elim (Bool-cases (e.handle == j)) [
  | inl same ↦
      let at : e.handle ≡ j = ground arith in
      rw same (subst (λ h. find h ys ≡ none) at (find-none e.handle ys d.1))
  | inr other ↦ rw other
]
find-remove (none ∷ xs) ys e j d = find-remove xs ys e j d
find-remove (some x ∷ xs) ys e j d =
    ground (arith, find-remove xs ys e j d.2, any-append (names x.handle) xs (some e ∷ ys), d.1)

module _ (n : ℕ) (t : HandleTable) (handle : ℕ) (kind : HandleKind) (v : IsValid n t) where
  module _ (rights : ℕ) where
    abbrev pub registered : HandleEntry
    registered = record { handle = handle; kind = kind; rights = rights }

    abbrev pub Registers : Type 0
    Registers =
        ((register t handle kind rights).0
          ≡ (not (handle == 0) && (is_none (authority t handle) && ltb (len t) n)))
        × ((j : ℕ)
            → authority (register t handle kind rights).1 j ≡ (
                if (register t handle kind rights).0 && (handle == j)
                then some registered
                else authority t j))

    register_free :
        (i : ℕ)
        → position is_none t.entries ≡ some i
        → (handle == 0 || any (names handle) t.entries) ≡ false
        → (j : ℕ)
        → find j (set t.entries i (some registered))
          ≡ (if handle == j then some registered else find j t.entries)
    register_free i e h j =
        let s = position-Splits is_none t.entries i e in
        let fresh : any (names handle) t.entries ≡ false = ground arith in
        rw (s.write (some registered)) (
          find-put s.before s.after registered j
            (subst (λ es. any (names handle) es ≡ false) (whole_free t.entries i s) fresh)
          ∙ ap (λ es. if handle == j then some registered else find j es)
              (sym (whole_free t.entries i s)))

    register_cases :
        (position is_none t.entries ≡ none) ⊎ ((i : ℕ) × (position is_none t.entries ≡ some i))
        → ((handle == 0 || any (names handle) t.entries) ≡ true)
          ⊎ ((handle == 0 || any (names handle) t.entries) ≡ false)
        → Registers
    unfolding register len
    register_cases c (inl h) =
        rw (h, register) (ground (arith, any-names handle t.entries), λ j. refl)
    register_cases (inl e) (inr h) =
        rw (h, e, register)
          (ground (arith, position-none is_none t.entries e, any-is_none t.entries), λ j. refl)
    register_cases (inr (i, e)) (inr h) =
        rw (h, e, register)
          (
            ground (
              arith,
              any-names handle t.entries,
              any-is_none t.entries,
              position_of_not_any is_none t.entries,
            ),
            register_free i e h,
          )

    -- `register` succeeds exactly for a nonzero, unregistered number while a slot is free. It then
    -- adds exactly that authority; otherwise every authority stays as it was.
    pub register_refines : Registers
    register_refines =
        register_cases (Option-cases (position is_none t.entries))
          (Bool-cases (handle == 0 || any (names handle) t.entries))

  any-holds_absent :
      (es : List (Option HandleEntry))
      → any (names handle) es ≡ false
      → any (holds handle kind) es ≡ false
  any-holds_absent [] h = refl
  any-holds_absent (none ∷ es) h = any-holds_absent es h
  any-holds_absent (some e ∷ es) h = ground (arith, any-holds_absent es)

  any-holds :
      (es : List (Option HandleEntry))
      → AllDistinct es
      → any (holds handle kind) es ≡ has_kind kind (find handle es)
  any-holds [] d = refl
  any-holds (none ∷ es) d = any-holds es d
  any-holds (some e ∷ es) d = elim (Bool-cases (e.handle == handle)) [
    | inl same ↦
        let at : e.handle ≡ handle = ground arith in
        rw (same, any-holds_absent es (subst (λ h. any (names h) es ≡ false) at d.1)) (ground arith)
    | inr other ↦ rw other (any-holds es d.2)
  ]

  abbrev pub Unregisters : Type 0
  Unregisters =
      ((unregister t handle kind).0 ≡ has_kind kind (authority t handle))
      × ((j : ℕ)
          → authority (unregister t handle kind).1 j
            ≡ (if (unregister t handle kind).0 && (handle == j) then none else authority t j))

  unregister_slot :
      (before after : List (Option HandleEntry)) (slot : Option HandleEntry) (j : ℕ)
      → holds handle kind slot ≡ true
      → AllDistinct (before ++ (slot ∷ after))
      → find j (before ++ (none ∷ after))
        ≡ (if handle == j then none else find j (before ++ (slot ∷ after)))
  unregister_slot before after none j h d = absurd (cc)
  unregister_slot before after (some e) j h d =
      let at : e.handle ≡ handle = ground arith in
      subst
        (λ k.
          find j (before ++ (none ∷ after))
          ≡ (if k == j then none else find j (before ++ (some e ∷ after))))
        at (find-remove before after e j d)

  unregister_cases :
      (position (holds handle kind) t.entries ≡ none)
        ⊎ ((i : ℕ) × (position (holds handle kind) t.entries ≡ some i))
      → Unregisters
  unfolding unregister
  unregister_cases (inl e) =
      rw (e, unregister)
        (
          ground
              (arith, any-holds t.entries v.distinct, position-none (holds handle kind) t.entries),
          λ j. refl,
        )
  unregister_cases (inr (i, e)) =
      let s = position-Splits (holds handle kind) t.entries i e in
      rw (e, unregister)
        (
          ground (
            arith,
            any-holds t.entries v.distinct,
            position_of_not_any (holds handle kind) t.entries,
          ),
          λ j. rw (s.write none) (
              unregister_slot s.before s.after s.slot j s.passes
                (subst AllDistinct s.whole v.distinct)
              ∙ ap (λ es. if handle == j then none else find j es) (sym s.whole)),
        )

  -- `unregister` succeeds exactly when the number is registered with the given kind. It then
  -- removes exactly that authority; otherwise every authority stays as it was.
  pub unregister_refines : Unregisters
  unregister_refines = unregister_cases (Option-cases (position (holds handle kind) t.entries))
