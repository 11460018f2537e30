-- ===== src/S5Max/Decoder/Core.antt =====
-- packet.rs: `Frame` and `FrameDecoder::push`. `none` in the `Option` chains is a panic of an index.
use mathlib.Core.Option
use vacuum_tiger.Prelude.{
  ℕ, zero, suc, ◌+◌, Bool, not, ◌&&◌, Option, none, some, List, [], ◌∷◌, ◌++◌, length, get_elem?,
  take, drop, position, ltb, leb, ◌==◌, if◌then◌else◌,
}
use vacuum_tiger.S5Max.Crc.{crc8}
use vacuum_tiger.S5Max.Frame.{sync}

abbrev pub log_escape_overhead : ℕ
log_escape_overhead = 0x00

abbrev pub log_message : ℕ
log_message = 0xf9

abbrev pub log_subtype_debug : ℕ
log_subtype_debug = 0x80

pub record Frame : Type 0 where
  pub raw : List ℕ
  pub payload : List ℕ
  pub escape_overhead : ℕ
  pub message : ℕ
  pub command : ℕ
  pub crc : ℕ
  pub crc_valid : Bool
  pub is_log : Bool

-- How the inner `while` ends: with all bytes decoded, at the cursor behind them; at the end of the
-- buffer, or before an escape code whose second byte is still missing; or at an escape code that
-- does not exist.
pub data Unescaped : Type 0 where
  complete : ℕ → List ℕ → Unescaped
  incomplete : Unescaped
  invalid : Unescaped

-- The inner `while`, with `missing` bytes still to decode and `bytes` the buffer from `cursor` on.
unfoldable pub unescape : ℕ → List ℕ → ℕ → List ℕ → Unescaped
unescape zero bytes cursor decoded = complete cursor decoded
unescape (suc missing) [] cursor decoded = incomplete
unescape (suc missing) (byte ∷ []) cursor decoded =
    let plain = unescape missing [] (cursor + 1) (decoded ++ (byte ∷ [])) in
    if byte == 0xa9 then incomplete else plain
unescape (suc missing) (byte ∷ escaped ∷ bytes) cursor decoded =
    let plain = unescape missing (escaped ∷ bytes) (cursor + 1) (decoded ++ (byte ∷ [])) in
    let a9 = unescape missing bytes (cursor + 2) (decoded ++ (0xa9 ∷ [])) in
    let aa = unescape missing bytes (cursor + 2) (decoded ++ (0xaa ∷ [])) in
    if byte == 0xa9
    then (if escaped == 0x00 then a9 else if escaped == 0x01 then aa else invalid)
    else plain

-- `decoded.pop()`: the bytes before the last, and the last.
unfoldable pub pop : List ℕ → Option (List ℕ × ℕ)
pop [] = none
pop (a ∷ []) = some ([], a)
pop (a ∷ b ∷ rest) = Option.map (λ p. (a ∷ p.0, p.1)) (pop (b ∷ rest))

infixl 5 ◌>>=◌
abbrev pub ◌>>=◌ {ℓ κ} : {A : Type ℓ} {B : Type κ} → Option A → (A → Option B) → Option B
none >>= f = none
some a >>= f = f a

abbrev pub frame_of : List ℕ → List ℕ → ℕ → ℕ → ℕ → ℕ → Frame
frame_of raw payload crc escape_overhead message command = record {
  raw = raw;
  payload = payload;
  escape_overhead = escape_overhead;
  message = message;
  command = command;
  crc = crc;
  crc_valid = crc8 payload 0 == crc;
  is_log =
      escape_overhead == log_escape_overhead
      && message == log_message
      && (leb log_subtype_debug command && leb command 0x87);
}

unfoldable pub build_frame : List ℕ → List ℕ → Option Frame
build_frame raw decoded = do
  (payload, crc) ← pop decoded
  escape_overhead ← get_elem? raw 2
  message ← get_elem? payload 0
  command ← get_elem? payload 1
  some (frame_of raw payload crc escape_overhead message command)

-- What one round of the outer `loop` does to the buffer: stop with it, go on with it, or push a
-- frame and go on with it.
pub data Round : Type 0 where
  stop : List ℕ → Round
  resync : List ℕ → Round
  push_frame : Frame → List ℕ → Round

unfoldable pub after_unescape : List ℕ → Unescaped → Option Round
after_unescape buffer incomplete = some (stop buffer)
after_unescape buffer invalid = some (resync (drop 1 buffer))
after_unescape buffer (complete cursor decoded) = do
  frame ← build_frame (take cursor buffer) decoded
  some (push_frame frame (drop cursor buffer))

-- A round on a buffer that starts with the sync byte and `length_byte`.
unfoldable pub with_length : ℕ → List ℕ → Option Round
with_length length_byte buffer =
    let decoded_len = length_byte + 1 in
    if not (leb 4 decoded_len && leb decoded_len 1024)
    then some (resync (drop 1 buffer))
    else after_unescape buffer (unescape decoded_len (drop 3 buffer) 3 [])

-- A round on a buffer that starts with the sync byte.
unfoldable pub at_sync : List ℕ → Option Round
at_sync buffer =
    if ltb (length buffer) 2
    then some (stop buffer)
    else get_elem? buffer 1 >>= λ length_byte. with_length length_byte buffer

unfoldable pub round : List ℕ → Option Round
round buffer = elim (position (λ byte. byte == sync) buffer) [
  | none ↦ some (stop [])
  | some start ↦ at_sync (drop start buffer)
]

-- The frames that a call returns and the buffer that it leaves. `panic` is a failed index, and
-- `stuck` is no result of the code: the fuel ran out.
pub data Pushed : Type 0 where
  pushed : List Frame → List ℕ → Pushed
  panic : Pushed
  stuck : Pushed

abbrev pub prepend : List Frame → Pushed → Pushed
prepend frames (pushed more buffer) = pushed (frames ++ more) buffer
prepend frames panic = panic
prepend frames stuck = stuck

unfoldable pub push_loop : ℕ → List ℕ → Pushed
push_loop zero buffer = stuck
push_loop (suc fuel) buffer = elim (round buffer) [
  | none ↦ panic
  | some (stop rest) ↦ pushed [] rest
  | some (resync rest) ↦ push_loop fuel rest
  | some (push_frame frame rest) ↦ prepend (frame ∷ []) (push_loop fuel rest)
]

-- Each round that goes on takes a byte off the buffer.
unfoldable pub push : List ℕ → List ℕ → Pushed
push buffer bytes = push_loop (suc (length (buffer ++ bytes))) (buffer ++ bytes)
