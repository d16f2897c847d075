-- ===== src/FrameGrant/Retire.antt =====
-- Retiring a mapping undoes the binding.
use gen_os.Common.{
  ℕ, ◌<◌, ◌≡◌, refl, ap, ◌∙◌, ◌≢◌, true, false, ◌||◌, not, some, ◌==◌, set, arith, length,
  get_or-set_self, length-set,
}
use gen_os.FrameGrant.{
  Ledger, Grant, Kind, table, user, kind_eq, empty, grant, grant_eq, is_live, record_at, found_by,
  find, bind, retire, retire_at,
}
use gen_os.FrameGrant.Invariant.{IsValid, is_live-occupied, AllApart}
use gen_os.FrameGrant.Pins.{bind-bound, position-AllApart, bind-AllApart}
use gen_os.Common.{set-set_back}

kind_eq_sound : (j k : Kind) → kind_eq j k ≡ true → j ≡ k
kind_eq_sound table table h = refl
kind_eq_sound table user h = absurd (cc)
kind_eq_sound user table h = absurd (cc)
kind_eq_sound user user h = refl

grant_eq_sound : (a b : Grant) → grant_eq a b ≡ true → a ≡ b
grant_eq_sound a b h =
    let address : a.address ≡ b.address = ground arith in
    let generation : a.generation ≡ b.generation = ground arith in
    let owner : a.owner ≡ b.owner = ground arith in
    let slot : a.slot ≡ b.slot = ground arith in
    let kind : a.kind ≡ b.kind = kind_eq_sound a.kind b.kind (ground arith) in
    λ i. record {
      address = address i;
      generation = generation i;
      owner = owner i;
      slot = slot i;
      kind = kind i;
    }

-- The retirement of a mapping that a live user grant records.
retire-mapped :
    (l : Ledger) (g : Grant) (owner virtual_address : ℕ)
    → AllApart l.records
    → g.slot < length l.records
    → found_by owner g.address user (record_at l g.slot) ≡ true
    → grant (record_at l g.slot) g.slot ≡ g
    → virtual_address ≢ 0
    → (record_at l g.slot).mapped_at ≡ virtual_address
    → retire l owner g.address virtual_address ≡ (
      some g,
      record l { records = set l.records g.slot (record (record_at l g.slot) { mapped_at = 0 }) },
    )
unfolding retire retire_at find
retire-mapped l g owner virtual_address apart small found own nz mapped =
    let at = position-AllApart l.records g.slot owner g.address apart small found in
    let keeps : (virtual_address == 0 || not ((record_at l g.slot).mapped_at == virtual_address))
        ≡ false =
      ground arith in
    rw (at, retire, find) (rw (own, keeps, retire_at) refl)

-- Retiring the mapping that a successful `bind` recorded returns the grant that was bound, and
-- leaves the ledger as it was before the `bind`.
pub retire-bind :
    (n : ℕ) (l : Ledger) (g : Grant) (owner virtual_address : ℕ)
    → IsValid n l
    → (bind l g owner virtual_address).0 ≡ true
    → retire (bind l g owner virtual_address).1 owner g.address virtual_address ≡ (some g, l)
unfolding bind
retire-bind n l g owner virtual_address v ok =
    let bound = bind-bound n l g owner virtual_address v ok in
    let apart = bind-AllApart n l g owner virtual_address v in
    let live : is_live l g ≡ true = ground (arith, bound.0) in
    let there = is_live-occupied n l v g live in
    let r = record (record_at l g.slot) { mapped_at = virtual_address } in
    let m = record l { records = set l.records g.slot r } in
    let eq : bind l g owner virtual_address ≡ (true, m) = rw (bound.0, bind) refl in
    let now : record_at m g.slot ≡ r = get_or-set_self l.records g.slot r empty there.0 in
    let free : (record_at l g.slot).mapped_at ≡ 0 = ground (arith, bound.0) in
    let same = grant_eq_sound _ g there.2 in
    let done : retire m owner g.address virtual_address ≡ (some g, l) =
      retire-mapped m g owner virtual_address (rw eq at apart)
        (omega (arith, there.0, length-set l.records g.slot r))
        (rw now (ground (arith, there, bound.0))) (rw now same) (ground (arith, bound.0))
        (rw now refl)
      ∙ rw now (
          ap (λ rs. (some g, record l { records = rs }))
            (set-set_back l.records g.slot r (record r { mapped_at = 0 }) empty there.0
              (λ i. record (record_at l g.slot) { mapped_at = free i }))) in
    rw eq done
