-- ===== src/FrameGrant/Pins.antt =====
-- A frame that a page table maps stays granted until exactly that mapping is retired.
use gen_os.Common.{
  ℕ, zero, suc, ◌∙◌, sym, List, [], ◌∷◌, some, ◌==◌, ◌&&◌, not, get_or, any, position, any-get_or,
  ◌<◌, ◌≡◌, refl, ap, ◌≢◌, inl, inr, Bool, true, false, set, arith, length, Bool-cases, length-set,
}
use gen_os.FrameGrant.{
  Ledger, Grant, FrameRecord, user, at_address, found_by, find, mapping_matches, empty, grant,
  occupied, grant_eq, is_live, record_at, bind, release, refuses_bind, refuses_release,
}
use gen_os.FrameGrant.History.{binds, step}
use gen_os.FrameGrant.Invariant.{IsValid, is_live-occupied, AllApart, step-IsValid}
use gen_os.Common.{get_or-set_self, get_elem?-lt}

-- A record in the slot of a grant that is the grant's own keeps the grant live.
vouches-is_live :
    (l : Ledger) (g : Grant)
    → g.slot < length l.records
    → occupied (record_at l g.slot) ≡ true
    → grant_eq (grant (record_at l g.slot) g.slot) g ≡ true
    → is_live l g ≡ true
unfolding is_live
vouches-is_live l g small used same =
    rw (get_elem?-lt l.records g.slot empty small, is_live) (ground arith)

-- A mapped record is neither released nor bound.
mapped_refuses {ℓ} :
    {S : Type ℓ} (l : Ledger) (g : Grant) (owner virtual_address : ℕ)
    (prepare_and_free : ℕ → S → Bool × S) (st : S)
    → (record_at l g.slot).mapped_at ≢ 0
    → ((release l g prepare_and_free st).0 ≡ false)
      × ((release l g prepare_and_free st).2 ≡ st)
      × ((bind l g owner virtual_address).0 ≡ false)
unfolding release bind
mapped_refuses l g owner virtual_address prepare_and_free st h =
    let no_release : refuses_release l g ≡ true = ground arith in
    let no_bind : refuses_bind l g owner virtual_address ≡ true = ground arith in
    (rw (no_release, release) refl, rw (no_release, release) refl, rw (no_bind, bind) refl)

-- What a successful `bind` leaves in the slot of the grant.
pub bind-bound :
    (n : ℕ) (l : Ledger) (g : Grant) (owner virtual_address : ℕ)
    → IsValid n l
    → (bind l g owner virtual_address).0 ≡ true
    → (refuses_bind l g owner virtual_address ≡ false)
      × (record_at (bind l g owner virtual_address).1 g.slot
          ≡ record (record_at l g.slot) { mapped_at = virtual_address })
      × (is_live (bind l g owner virtual_address).1 g ≡ true)
unfolding bind
bind-bound n l g owner virtual_address v ok =
    elim (Bool-cases (refuses_bind l g owner virtual_address)) [
      | inl refused ↦ absurd (cc (rw (refused, bind) at ok))
      | inr bound ↦
          let live : is_live l g ≡ true = ground arith in
          let there = is_live-occupied n l v g live in
          let r = record (record_at l g.slot) { mapped_at = virtual_address } in
          let now = get_or-set_self l.records g.slot r empty there.0 in
          rw (bound, bind)
            (
              refl,
              now,
              vouches-is_live (record l { records = set l.records g.slot r }) g
                  (omega (arith, there.0, length-set l.records g.slot r)) (rw now there.1)
                  (rw now there.2),
            )
    ]

-- No frame is recorded twice, so a search by address finds the slot that records it.
pub position-AllApart :
    (xs : List FrameRecord) (i owner address : ℕ)
    → AllApart xs
    → i < length xs
    → found_by owner address user (get_or xs i empty) ≡ true
    → position (found_by owner address user) xs ≡ some i
position-AllApart [] i owner address a h e = absurd (omega arith)
position-AllApart (x ∷ xs) zero owner address a h e = rw e
position-AllApart (x ∷ xs) (suc i) owner address a h e =
    let later = any-get_or (at_address address) xs i empty (omega arith) (ground arith) in
    let first : found_by owner address user x ≡ false = elim a.0 [
      | inl free ↦ ground arith
      | inr alone ↦ elim (Bool-cases (x.address == address)) [
        | inl same ↦
            let k : x.address ≡ address = ground arith in
            absurd (cc (sym later ∙ ap (λ y. any (at_address y) xs) (sym k) ∙ alone))
        | inr other ↦ ground arith
      ]
    ] in
    rw (first, position-AllApart xs i owner address a.1 (omega arith) e)

pub bind-AllApart :
    (n : ℕ) (l : Ledger) (g : Grant) (owner virtual_address : ℕ)
    → IsValid n l
    → AllApart (bind l g owner virtual_address).1.records
unfolding step
bind-AllApart n l g owner virtual_address v =
    (step-IsValid n l (binds g owner virtual_address) v).apart

-- The kernel reports a mapping of the bound frame at the bound address and at no other.
mapping_matches-bind :
    (n : ℕ) (l : Ledger) (g : Grant) (owner virtual_address asked : ℕ)
    → IsValid n l
    → (bind l g owner virtual_address).0 ≡ true
    → mapping_matches (bind l g owner virtual_address).1 owner g.address asked
      ≡ (asked == virtual_address)
unfolding bind mapping_matches find
mapping_matches-bind n l g owner virtual_address asked v ok =
    let bound = bind-bound n l g owner virtual_address v ok in
    let apart = bind-AllApart n l g owner virtual_address v in
    let live : is_live l g ≡ true = ground (arith, bound.0) in
    let there = is_live-occupied n l v g live in
    let r = record (record_at l g.slot) { mapped_at = virtual_address } in
    let m = record l { records = set l.records g.slot r } in
    let eq : bind l g owner virtual_address ≡ (true, m) = rw (bound.0, bind) refl in
    let now : record_at m g.slot ≡ r = get_or-set_self l.records g.slot r empty there.0 in
    let nonzero : (virtual_address == 0) ≡ false = ground (arith, bound.0) in
    let at =
      position-AllApart m.records g.slot owner g.address (rw eq at apart)
        (omega (arith, there.0, length-set l.records g.slot r))
        (rw now (ground (arith, there, bound.0))) in
    let test : (not (asked == 0) && (virtual_address == asked)) ≡ (asked == virtual_address) =
      ground (arith, nonzero) in
    let done : mapping_matches m owner g.address asked ≡ (asked == virtual_address) =
      rw (at, mapping_matches, find) (rw now test) in
    rw eq done

module _ {ℓ} {S : Type ℓ} (n : ℕ) (l : Ledger) (g : Grant) (owner virtual_address : ℕ)
    (v : IsValid n l) where
  -- After a successful `bind` the ledger refuses to release the frame, without reaching the
  -- memory, and to bind it again, while its grant stays live; asked for a mapping of the frame in
  -- its owner's space, it confirms the address that was bound and no other.
  pub bind_pins :
      (other mapped asked : ℕ) (prepare_and_free : ℕ → S → Bool × S) (st : S)
      → (bind l g owner virtual_address).0 ≡ true
      → ((release (bind l g owner virtual_address).1 g prepare_and_free st).0 ≡ false)
        × ((release (bind l g owner virtual_address).1 g prepare_and_free st).2 ≡ st)
        × (is_live (bind l g owner virtual_address).1 g ≡ true)
        × ((bind (bind l g owner virtual_address).1 g other mapped).0 ≡ false)
        × (mapping_matches (bind l g owner virtual_address).1 owner g.address asked
            ≡ (asked == virtual_address))
  bind_pins other mapped asked prepare_and_free st ok =
      let bound = bind-bound n l g owner virtual_address v ok in
      let pinned =
        mapped_refuses (bind l g owner virtual_address).1 g other mapped prepare_and_free st
          (ground (arith, ap (λ r. r.mapped_at) bound.1, bound.0)) in
      (
        pinned.0,
        pinned.1,
        bound.2,
        pinned.2,
        mapping_matches-bind n l g owner virtual_address asked v ok,
      )
