-- ===== src/FixedText.antt =====
-- kernel/src/console_text.rs: copyable text of at most 160 bytes, as the list of the bytes in use.
mod Decimal
mod Tests
use gen_os.Common.{
  ℕ, zero, suc, ◌+◌, ◌-◌, ◌/◌, ◌%◌, Bool, ◌&&◌, Option, none, some, List, [], ◌∷◌, ◌++◌, ◌==◌, leb,
  ltb, if◌then◌else◌, map, take, length,
}

abbrev pub max_line_bytes : ℕ
max_line_bytes = 160

abbrev pub terminal_data_byte : ℕ → ℕ
terminal_data_byte byte = if leb 32 byte && leb byte 126 then byte else 63

abbrev pub ascii_byte : ℕ → ℕ
ascii_byte byte = if ltb byte 128 then byte else 63

-- The loop stops where the text is full.
unfoldable pub push_str : List ℕ → List ℕ → List ℕ
push_str text more = text ++ map ascii_byte (take (max_line_bytes - length text) more)

unfoldable pub from_str : List ℕ → List ℕ
from_str text = push_str [] text

-- The loop of `push_u64`, which fills a buffer from its end; `none` where the index would fall below 0.
unfoldable pub decimal_loop : ℕ → ℕ → List ℕ → Option (List ℕ)
decimal_loop room zero filled = some filled
decimal_loop zero (suc value) filled = none
decimal_loop (suc room) (suc value) filled =
    decimal_loop room (suc value / 10) ((48 + suc value % 10) ∷ filled)

-- `push_byte` for each byte of the buffer in use.
abbrev pub push_bytes : List ℕ → List ℕ → List ℕ
push_bytes text bytes = text ++ take (max_line_bytes - length text) bytes

-- The buffer has 20 bytes.
unfoldable pub push_u64 : List ℕ → ℕ → Option (List ℕ)
push_u64 text value =
    if value == 0
    then some (push_str text (48 ∷ []))
    else elim (decimal_loop 20 value []) [ none ↦ none | some bytes ↦ some (push_bytes text bytes) ]
