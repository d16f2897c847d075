-- ===== src/FixedText/Decimal.antt =====
-- Numbers in decimal.
use gen_os.Common.{ℕ, ◌+◌, ◌-◌, ◌*◌, List, [], ◌∷◌}

-- The number that digits write, behind those read so far.
abbrev pub number : ℕ → List ℕ → ℕ
number before [] = before
number before (digit ∷ digits) = number (before * 10 + (digit - 48)) digits
