-- ===== src/Gd32/Reader/Core.antt =====
-- protocol.rs: the definitions. `none` in the `Option` chains is a panic of an index or a slice.
use mathlib.Core.Option
use vacuum_tiger.Prelude.{
  ℕ, suc, zero, ◌+◌, ◌-◌, ◌*◌, min, Bool, true, false, ◌&&◌, Option, none, some, List, [], ◌∷◌,
  ◌++◌, length, get_elem?, take, drop, write, slice?, replicate, ltb, leb, ◌==◌, if◌then◌else◌,
}
use vacuum_tiger.Gd32.Constants.{sync_byte_1, sync_byte_2, cmd_initialize}
use vacuum_tiger.Gd32.Checksum.{checksum}

abbrev pub max_payload_size : ℕ
max_payload_size = 128

-- `buf` is the array `payload`, of `max_payload_size` bytes.
pub record RxPacket : Type 0 where
  pub cmd : ℕ
  pub buf : List ℕ
  pub payload_len : ℕ

abbrev pub empty_packet : RxPacket
empty_packet = record { cmd = 0; buf = replicate max_payload_size 0; payload_len = 0 }

unfoldable pub payload : RxPacket → List ℕ
payload p = take p.payload_len p.buf

unfoldable pub set_packet : ℕ → List ℕ → RxPacket → RxPacket
set_packet cmd bytes p =
    let len = min (length bytes) max_payload_size in
    record { cmd = cmd; buf = write 0 (take len bytes) p.buf; payload_len = len }

pub record PacketReader : Type 0 where
  pub buffer : List ℕ
  pub packet : RxPacket

abbrev pub new : PacketReader
new = record { buffer = []; packet = empty_packet }

-- `windows(2).position(..)`.
unfoldable pub find_sync : List ℕ → Option ℕ
find_sync [] = none
find_sync (a ∷ []) = none
find_sync (a ∷ b ∷ rest) =
    let later = Option.map suc (find_sync (b ∷ rest)) in
    if a == sync_byte_1 && b == sync_byte_2 then some 0 else later

unfoldable pub last : List ℕ → Option ℕ
last [] = none
last (a ∷ []) = some a
last (a ∷ b ∷ rest) = last (b ∷ rest)

infixl 5 ◌>>=◌
abbrev pub ◌>>=◌ {ℓ κ} : {A : Type ℓ} {B : Type κ} → Option A → (A → Option B) → Option B
none >>= f = none
some a >>= f = f a

unfoldable pub verify_checksum : ℕ → List ℕ → Option Bool
verify_checksum total_len buffer = do
  crc_high ← get_elem? buffer (total_len - 2)
  crc_low ← get_elem? buffer (total_len - 1)
  bytes ← slice? 3 (total_len - 2) buffer
  some (checksum bytes == crc_high * 256 + crc_low)

-- What one round of the `loop` does: return `Ok(None)` or `Ok(Some(&self.packet))`, or go on.
pub data Round : Type 0 where
  wait : PacketReader → Round
  packet : PacketReader → Round
  again : PacketReader → Round

-- Steps 4 and 5, for a buffer that starts with a sync pattern and holds `3 + len` bytes.
unfoldable pub extract : ℕ → PacketReader → Option Round
extract len r = do
  cmd ← get_elem? r.buffer 3
  crc_valid ← (if cmd == cmd_initialize then some true else verify_checksum (3 + len) r.buffer)
  let payload_len = len - 3
  bytes ←
      (if ltb 0 payload_len && leb payload_len max_payload_size
        then slice? 4 (4 + payload_len) r.buffer
        else some [])
  some (
      if crc_valid
      then packet
          (record { buffer = drop (3 + len) r.buffer; packet = set_packet cmd bytes r.packet })
      else again (record r { buffer = drop 1 r.buffer }))

-- Step 3, for a buffer that starts with a sync pattern.
unfoldable pub at_sync : PacketReader → Option Round
at_sync r = if ltb (length r.buffer) 3 then some (wait r) else do
  len ← get_elem? r.buffer 2
  if ltb (length r.buffer) (3 + len) then some (wait r) else extract len r

-- `self.buffer.last() == Some(&SYNC_BYTE_1)`.
unfoldable pub is_sync : Option ℕ → Bool
is_sync none = false
is_sync (some b) = b == sync_byte_1

-- Step 2 has found no sync pattern: keep only a last byte that may begin one.
unfoldable pub no_sync : PacketReader → PacketReader
no_sync r =
    let keep = (if is_sync (last r.buffer) then 1 else 0) in
    record r { buffer = drop (length r.buffer - keep) r.buffer }

-- One round of the loop of `try_parse_packet`.
unfoldable pub round : PacketReader → Option Round
round r = if ltb (length r.buffer) 3 then some (wait r) else elim (find_sync r.buffer) [
  | some sync_idx ↦ at_sync (record r { buffer = drop sync_idx r.buffer })
  | none ↦ some (wait (no_sync r))
]

-- How a call returns: `Ok(None)`, `Ok(Some(&self.packet))`, `Err(Error::Io(_))`, or by a panic.
-- `stuck` is none of these: the fuel ran out.
pub data Outcome : Type 0 where
  nothing : PacketReader → Outcome
  found : PacketReader → Outcome
  failed : PacketReader → Outcome
  panic : Outcome
  stuck : Outcome

unfoldable pub parse_loop : ℕ → PacketReader → Outcome
parse_loop zero r = stuck
parse_loop (suc fuel) r = elim (round r) [
  | none ↦ panic
  | some (wait r') ↦ nothing r'
  | some (packet r') ↦ found r'
  | some (again r') ↦ parse_loop fuel r'
]

-- Each round that goes on takes a byte off the buffer.
unfoldable pub try_parse_packet : PacketReader → Outcome
try_parse_packet r = parse_loop (suc (length r.buffer)) r

-- What `port.read(&mut temp_buf)` may answer: the bytes it put into the 256 of `temp_buf`, or an
-- error, of one of the two kinds that are tested for, or of another.
pub data ReadResult : Type 0 where
  bytes : List ℕ → ReadResult
  timed_out : ReadResult
  would_block : ReadResult
  other_error : ReadResult

unfoldable pub read_packet : ReadResult → PacketReader → Outcome
read_packet (bytes []) r = nothing r
read_packet (bytes (b ∷ bs)) r = try_parse_packet (record r { buffer = r.buffer ++ (b ∷ bs) })
read_packet timed_out r = nothing r
read_packet would_block r = nothing r
read_packet other_error r = failed r
