-- ===== src/SerialKeys.antt =====
-- kernel/src/serial_keys.rs: the decoder from the bytes of the serial terminal to keys.
pub mod Paste
mod Tests
use gen_os.Common.{
  ℕ, zero, suc, ◌+◌, ◌-◌, Bool, true, false, ◌&&◌, ◌||◌, not, Option, none, some, List, [], ◌∷◌,
  ◌==◌, leb, ltb, if◌then◌else◌, take, length, replicate, set,
}
use gen_os.PathPolicy.{bytes_eq}

abbrev pub prefix_timeout_ticks : ℕ
prefix_timeout_ticks = 10

abbrev pub paste_limit : ℕ
paste_limit = 512

-- kernel/src/input.rs.
pub data KeyEvent : Type 0 where
  char : ℕ → KeyEvent
  enter backspace escape_key tab arrow_up arrow_down arrow_left arrow_right home end delete cancel :
      KeyEvent

pub data Mode : Type 0 where
  idle escape csi ss3 paste paste_escape paste_csi : Mode

pub record SerialKeys : Type 0 where
  pub mode : Mode
  pub parameters : List ℕ
  pub len : ℕ
  pub last_tick : ℕ
  pub paste_bytes : ℕ
  pub drop_paste : Bool

unfoldable pub new : SerialKeys
new = record {
  mode = idle;
  parameters = replicate 8 0;
  len = 0;
  last_tick = 0;
  paste_bytes = 0;
  drop_paste = false;
}

-- The modes of an unfinished prefix.
abbrev pub is_prefix : Mode → Bool
is_prefix idle = false
is_prefix escape = true
is_prefix csi = true
is_prefix ss3 = true
is_prefix paste = false
is_prefix paste_escape = false
is_prefix paste_csi = false

unfoldable pub expire : SerialKeys → ℕ → Option KeyEvent × SerialKeys
expire k tick =
    if is_prefix k.mode && leb prefix_timeout_ticks (tick - k.last_tick)
    then (some cancel, record k { mode = idle; len = 0 })
    else (none, k)

abbrev pub printable : ℕ → Bool
printable byte = leb 32 byte && leb byte 126

abbrev pub idle_key : ℕ → Option KeyEvent
idle_key byte =
    if byte == 13 || byte == 10
    then some enter
    else if byte == 8 || byte == 127
    then some backspace
    else if byte == 9
    then some tab
    else if byte == 1
    then some home
    else if byte == 5
    then some end
    else if byte == 4
    then some delete
    else if printable byte
    then some (char byte)
    else none

unfoldable pub feed_idle : SerialKeys → ℕ → Option KeyEvent × SerialKeys
feed_idle k byte = if byte == 27 then (none, record k { mode = escape }) else (idle_key byte, k)

unfoldable pub feed_escape : SerialKeys → ℕ → Option KeyEvent × SerialKeys
feed_escape k byte = (
  none,
  record k { len = 0; mode = if byte == 91 then csi else if byte == 79 then ss3 else idle },
)

unfoldable pub feed_ss3 : SerialKeys → ℕ → Option KeyEvent × SerialKeys
feed_ss3 k byte = (
  if byte == 72 then some home else if byte == 70 then some end else none,
  record k { mode = idle },
)

abbrev pub is_parameter : ℕ → Bool
is_parameter byte = leb 48 byte && leb byte 63

-- `self.parameters[..self.len]`.
abbrev pub given : SerialKeys → List ℕ
given k = take k.len k.parameters

abbrev pub one_of : List ℕ → ℕ → ℕ → Bool
one_of parameters a b = bytes_eq parameters (a ∷ []) || bytes_eq parameters (b ∷ [])

-- The key of a control sequence, the start of a paste aside.
unfoldable pub csi_key : List ℕ → ℕ → Option KeyEvent
csi_key parameters byte =
    if bytes_eq parameters [] && byte == 65
    then some arrow_up
    else if bytes_eq parameters [] && byte == 66
    then some arrow_down
    else if bytes_eq parameters [] && byte == 67
    then some arrow_right
    else if bytes_eq parameters [] && byte == 68
    then some arrow_left
    else if (bytes_eq parameters [] || one_of parameters 49 55) && byte == 72
        || one_of parameters 49 55 && byte == 126
    then some home
    else if (bytes_eq parameters [] || one_of parameters 52 56) && byte == 70
        || one_of parameters 52 56 && byte == 126
    then some end
    else if bytes_eq parameters (51 ∷ []) && byte == 126
    then some delete
    else none

-- A parameter byte of a control sequence; too many of them leave a sequence that names no key.
unfoldable pub csi_parameter : SerialKeys → ℕ → SerialKeys
csi_parameter k byte =
    if ltb k.len (length k.parameters)
    then record k { parameters = set k.parameters k.len byte; len = k.len + 1 }
    else record k { parameters = replicate 8 0; len = 8 }

unfoldable pub feed_csi : SerialKeys → ℕ → Option KeyEvent × SerialKeys
feed_csi k byte =
    if is_parameter byte
    then (none, csi_parameter k byte)
    else if bytes_eq (given k) (50 ∷ 48 ∷ 48 ∷ []) && byte == 126
    then (none, record k { mode = paste; paste_bytes = 0; drop_paste = false; len = 0 })
    else (csi_key (given k) byte, record k { mode = idle; len = 0 })

abbrev pub pasted_key : ℕ → Option KeyEvent
pasted_key byte =
    if byte == 13 || (byte == 10 || byte == 9)
    then some (char 32)
    else if printable byte
    then some (char byte)
    else none

unfoldable pub paste_byte : SerialKeys → ℕ → Option KeyEvent × SerialKeys
paste_byte k byte =
    if k.drop_paste
    then (none, k)
    else if ltb paste_limit (k.paste_bytes + 1)
    then (some cancel, record k { paste_bytes = k.paste_bytes + 1; drop_paste = true })
    else (pasted_key byte, record k { paste_bytes = k.paste_bytes + 1 })

unfoldable pub feed_paste : SerialKeys → ℕ → Option KeyEvent × SerialKeys
feed_paste k byte =
    if byte == 27 then (none, record k { mode = paste_escape }) else paste_byte k byte

unfoldable pub feed_paste_escape : SerialKeys → ℕ → Option KeyEvent × SerialKeys
feed_paste_escape k byte =
    if byte == 91
    then (none, record k { mode = paste_csi; len = 0 })
    else (none, record k { mode = paste })

unfoldable pub paste_parameter : SerialKeys → ℕ → SerialKeys
paste_parameter k byte =
    if ltb k.len (length k.parameters)
    then record k { parameters = set k.parameters k.len byte; len = k.len + 1 }
    else record k { len = length k.parameters }

unfoldable pub feed_paste_csi : SerialKeys → ℕ → Option KeyEvent × SerialKeys
feed_paste_csi k byte =
    if is_parameter byte
    then (none, paste_parameter k byte)
    else if bytes_eq (given k) (50 ∷ 48 ∷ 49 ∷ []) && byte == 126
    then (none, record k { mode = idle; drop_paste = false; len = 0 })
    else (none, record k { mode = paste; len = 0 })

unfoldable pub feed_mode : Mode → SerialKeys → ℕ → Option KeyEvent × SerialKeys
feed_mode idle k byte = feed_idle k byte
feed_mode escape k byte = feed_escape k byte
feed_mode csi k byte = feed_csi k byte
feed_mode ss3 k byte = feed_ss3 k byte
feed_mode paste k byte = feed_paste k byte
feed_mode paste_escape k byte = feed_paste_escape k byte
feed_mode paste_csi k byte = feed_paste_csi k byte

unfoldable pub feed : SerialKeys → ℕ → ℕ → Option KeyEvent × SerialKeys
feed k byte tick =
    if byte == 3
    then (some cancel, record k { last_tick = tick; mode = idle; len = 0; drop_paste = false })
    else feed_mode k.mode (record k { last_tick = tick }) byte
