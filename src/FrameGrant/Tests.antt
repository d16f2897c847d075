-- ===== src/FrameGrant/Tests.antt =====
-- Concrete histories of the frame ledger of kernel/src/frame_grant.rs.
use gen_os.Common.{ℕ, ◌≡◌, refl, Bool, true, false, some, List, [], ◌∷◌}
use gen_os.FrameGrant.{
  Ledger, Grant, user, done, new, new_owner, admit, obtain, choose, allocate, is_live,
  mapping_matches, bind, retire, free, release, owner_frames,
}
use gen_os.FrameGrant.History.{Call, owners, allocates, binds, step, run}
use gen_os.FrameGrant.Invariant.{IsValid, history-IsValid}
use gen_os.FrameGrant.Stale.{released_never_live}
use gen_os.FrameGrant.Pins.{bind_pins}
use gen_os.FrameGrant.Retire.{retire-bind}

-- A process gets an identity and a frame.
abbrev first_calls : List Call
first_calls = owners ∷ allocates 1 user (some 8192) ∷ []

abbrev first_grant : Grant
first_grant = record { address = 8192; generation = 1; owner = 1; slot = 0; kind = user }

abbrev first_ledger : Ledger
first_ledger = record {
  records =
      record { address = 8192; generation = 1; owner = 1; mapped_at = 0; kind = user }
      ∷ (new 3).records;
  next_generation = 2;
  next_owner = 2;
  live = 1;
  denied = 0;
  exhausted = 0;
  quota_denials = 0;
}

first_run : run 4 (new 4) first_calls ≡ done first_ledger
unfolding run step new new_owner allocate choose obtain admit owner_frames
first_run = refl

first_ledger-IsValid : IsValid 4 first_ledger
first_ledger-IsValid = history-IsValid 4 first_calls first_ledger first_run

history-IsValid_example : IsValid 4 first_ledger
history-IsValid_example = history-IsValid 4 first_calls first_ledger first_run

-- The frame is freed and granted again, to another process and in the same slot.
abbrev reuse : List Call
reuse = owners ∷ allocates 2 user (some 8192) ∷ binds first_grant 1 4096 ∷ []

abbrev prepared : ℕ → Unit {0} → Bool × Unit {0}
prepared address st = (true, st)

abbrev reused_ledger : Ledger
reused_ledger = record {
  records =
      record { address = 8192; generation = 2; owner = 2; mapped_at = 0; kind = user }
      ∷ (new 3).records;
  next_generation = 3;
  next_owner = 3;
  live = 1;
  denied = 1;
  exhausted = 0;
  quota_denials = 0;
}

reuse-run :
    run 4 (release {S = Unit {0}} first_ledger first_grant prepared tt).1 reuse ≡ done reused_ledger
unfolding run step new new_owner allocate choose obtain admit owner_frames release free is_live bind
reuse-run = refl

first_release : (release {S = Unit {0}} first_ledger first_grant prepared tt).0 ≡ true
unfolding release free is_live new
first_release = refl

released_never_live_example : is_live reused_ledger first_grant ≡ false
released_never_live_example =
    released_never_live 4 first_ledger first_grant reuse reused_ledger first_ledger-IsValid
      first_release reuse-run

first_bind : (bind first_ledger first_grant 1 4096).0 ≡ true
unfolding bind is_live new
first_bind = refl

bind_pins_example :
    ((release {S = Unit {0}} (bind first_ledger first_grant 1 4096).1 first_grant prepared tt).0
      ≡ false)
    × ((release {S = Unit {0}} (bind first_ledger first_grant 1 4096).1 first_grant prepared tt).2
        ≡ tt)
    × (is_live (bind first_ledger first_grant 1 4096).1 first_grant ≡ true)
    × ((bind (bind first_ledger first_grant 1 4096).1 first_grant 1 8192).0 ≡ false)
    × (mapping_matches (bind first_ledger first_grant 1 4096).1 1 8192 12288 ≡ false)
bind_pins_example =
    bind_pins 4 first_ledger first_grant 1 4096 first_ledger-IsValid 1 8192 12288 prepared tt
      first_bind

retire-bind_example :
    retire (bind first_ledger first_grant 1 4096).1 1 8192 4096 ≡ (some first_grant, first_ledger)
retire-bind_example = retire-bind 4 first_ledger first_grant 1 4096 first_ledger-IsValid first_bind

-- The quota of frames of a process: with 4 records the kernel keeps one in reserve.
reserve_test :
    run 4 (new 4) (
      allocates 1 user (some 4096)
      ∷ allocates 1 user (some 8192)
      ∷ allocates 1 user (some 12288)
      ∷ allocates 1 user (some 16384)
      ∷ [])
    ≡ done (record {
      records =
          record { address = 4096; generation = 1; owner = 1; mapped_at = 0; kind = user }
          ∷ record { address = 8192; generation = 2; owner = 1; mapped_at = 0; kind = user }
          ∷ record { address = 12288; generation = 3; owner = 1; mapped_at = 0; kind = user }
          ∷ (new 1).records;
      next_generation = 4;
      next_owner = 1;
      live = 3;
      denied = 0;
      exhausted = 0;
      quota_denials = 1;
    })
unfolding run step new new_owner allocate choose obtain admit owner_frames
reserve_test = refl
