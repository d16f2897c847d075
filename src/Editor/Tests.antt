-- ===== src/Editor/Tests.antt =====
-- Concrete editing sessions of userspace/shell/src/editor.rs.
use gen_os.Common.{◌≡◌, refl, List, [], ◌∷◌, length, arith}
use gen_os.Editor.{Editor, new, text}
use gen_os.Editor.Zipper.{contents, reverse, Key, types, backspaces, moves_left, press}
use gen_os.Editor.Refine.{zip, handle_all, press_all, handle_all-press_all}
use gen_os.Editor.Recall.{ups, downs, downs-ups}

-- `ac`, then `b` between them.
abbrev keys : List Key
keys = types 97 ∷ types 99 ∷ types 100 ∷ backspaces ∷ moves_left ∷ types 98 ∷ []

handle_all-press_all_example :
    (text (handle_all 8 (new 8 2) keys) ≡ contents (press_all 8 (zip [] []) keys))
    × ((handle_all 8 (new 8 2) keys).cursor ≡ length (press_all 8 (zip [] []) keys).before)
handle_all-press_all_example = handle_all-press_all 8 2 keys

typed_test : contents (press_all 8 (zip [] []) keys) ≡ 97 ∷ 98 ∷ 99 ∷ []
unfolding press_all press reverse
typed_test = refl

abbrev drafting : Editor
drafting = record {
  line = 120 ∷ 121 ∷ [];
  len = 2;
  cursor = 1;
  history = (97 ∷ 0 ∷ []) ∷ (98 ∷ 99 ∷ []) ∷ [];
  history_lens = 1 ∷ 2 ∷ [];
  history_len = 2;
  history_cursor = 2;
  draft = 0 ∷ 0 ∷ [];
  draft_len = 0;
  draft_cursor = 0;
}

downs-ups_example :
    ((ups 2 drafting).line ≡ 97 ∷ 0 ∷ [])
    × ((ups 2 drafting).len ≡ 1)
    × (text (downs 2 (ups 2 drafting)) ≡ 120 ∷ 121 ∷ [])
    × ((downs 2 (ups 2 drafting)).cursor ≡ 1)
downs-ups_example = downs-ups 1 drafting refl (omega arith)
