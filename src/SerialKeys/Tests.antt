-- ===== src/SerialKeys/Tests.antt =====
-- Runs of the decoder, and the theorem at a concrete paste.
use gen_os.Common.{ℕ, ◌+◌, ◌≤◌, ◌≡◌, refl, some, List, [], ◌∷◌, count}
use gen_os.SerialKeys.{
  SerialKeys, char, arrow_up, cancel, paste, new, feed, feed_mode, feed_idle, feed_escape, feed_csi,
  csi_key, feed_paste, paste_byte, feed_paste_escape, feed_paste_csi, paste_parameter, expire,
}
use gen_os.SerialKeys.Paste.{AllData, is_char, is_cancel, room, spare, pasted, pasted-AllData}

-- A paste has begun.
abbrev pasting : SerialKeys
pasting = record new { mode = paste }

-- A line feed, an escape, a letter, the end of the paste, and a letter behind it.
abbrev input : List (ℕ × ℕ)
input =
    (10, 1)
    ∷ (27, 1)
    ∷ (65, 1)
    ∷ (97, 1)
    ∷ (27, 1)
    ∷ (91, 1)
    ∷ (50, 1)
    ∷ (48, 1)
    ∷ (49, 1)
    ∷ (126, 1)
    ∷ (98, 1)
    ∷ []

pasted-AllData_example :
    AllData (pasted pasting input)
    × (count is_char (pasted pasting input) ≤ room pasting)
    × (count is_cancel (pasted pasting input) ≤ spare pasting + 1)
unfolding new
pasted-AllData_example = pasted-AllData pasting input

-- Line feeds become spaces; an escape takes the byte after it along.
becomes_text : pasted pasting input ≡ char 32 ∷ char 97 ∷ []
unfolding pasted new feed feed_mode feed_paste paste_byte feed_paste_escape feed_paste_csi
    paste_parameter
becomes_text = refl

-- Escape, bracket, A.
abbrev after_escape : SerialKeys
after_escape = (feed (feed new 27 1).1 91 1).1

moves_up : ((feed after_escape 65 1).0 ≡ some arrow_up) × ((expire after_escape 11).0 ≡ some cancel)
unfolding feed feed_mode feed_idle feed_escape feed_csi csi_key expire new
moves_up = (refl, refl)
