-- ===== src/FixedText/Tests.antt =====
-- Runs of the text operations, and the theorem at a concrete number.
use gen_os.Common.{◌≡◌, refl, some, [], ◌∷◌}
use gen_os.FixedText.{push_u64, decimal_loop}

prints : push_u64 (98 ∷ []) 512 ≡ some (98 ∷ 53 ∷ 49 ∷ 50 ∷ [])
unfolding push_u64 decimal_loop
prints = refl
