-- ===== src/RevoLds/Core.antt =====
-- revo_lds/protocol.rs: `RevoLdsPacketReader`. The arithmetic on f32 is a parameter.
use vacuum_tiger.Prelude.{
  ℕ, zero, suc, ◌+◌, ◌-◌, ◌*◌, ◌/◌, ◌%◌, ◌^◌, not, ◌&&◌, ◌||◌, none, some, List, [], ◌∷◌, ◌++◌,
  length, take, drop, get_or, position, ltb, leb, ◌==◌, if◌then◌else◌,
}

abbrev pub packet_size : ℕ
packet_size = 22

abbrev pub max_buffer_size : ℕ
max_buffer_size = 4096

abbrev pub sync_byte : ℕ
sync_byte = 0xfa

abbrev pub index_min : ℕ
index_min = 0xa0

abbrev pub index_max : ℕ
index_max = 0xf9

-- The conversions to f32: the speed in units of 1/64 rpm to rpm, and an angle in degrees, a distance
-- in millimetres and a signal strength to a `LidarPoint`, through the angle
-- transform and the pair of loops that bring the angle between 0 and 2π.
pub record Optics : Type 1 where
  pub Point : Type 0
  pub Rpm : Type 0
  pub rpm : ℕ → Rpm
  pub point : ℕ → ℕ → ℕ → Point

pub record RevoLdsPacketReader : Type 0 where
  pub buffer : List ℕ
  pub bytes_discarded : ℕ
  pub checksum_failures : ℕ

-- `with_transform`.
abbrev pub new : RevoLdsPacketReader
new = record { buffer = []; bytes_discarded = 0; checksum_failures = 0 }

unfoldable pub clear : RevoLdsPacketReader → RevoLdsPacketReader
clear r = record r { buffer = [] }

unfoldable pub feed_bytes : List ℕ → RevoLdsPacketReader → RevoLdsPacketReader
feed_bytes bytes r = record r { buffer = r.buffer ++ bytes }

unfoldable pub diagnostics : RevoLdsPacketReader → ℕ × ℕ × ℕ
diagnostics r = (r.bytes_discarded, r.checksum_failures, length r.buffer)

abbrev pub byte : List ℕ → ℕ → ℕ
byte xs i = get_or xs i 0

-- The rounds of `for i in (0..20).step_by(2)`, on a u32.
unfoldable pub add_words : ℕ → ℕ → ℕ → List ℕ → ℕ
add_words zero i checksum bytes = checksum
add_words (suc rounds) i checksum bytes =
    add_words rounds (i + 2)
      ((checksum * 2 % 2 ^ 32 + (byte bytes i + byte bytes (i + 1) * 256)) % 2 ^ 32) bytes

unfoldable pub calculate_checksum : List ℕ → ℕ
unfolding add_words
calculate_checksum bytes =
    let checksum = add_words 10 0 0 bytes in (checksum + checksum / 2 ^ 15) % 2 ^ 32 % 2 ^ 15

module _ (o : Optics) where
  open o use {Point, Rpm, rpm, point}

  pub data ParseResult : Type 0 where
    points : List Point → Rpm → ParseResult
    nothing : ParseResult

  -- The loop over the four samples, with `samples` of them to go from `sample_idx` on.
  unfoldable pub sample_points : ℕ → ℕ → ℕ → List ℕ → List Point
  sample_points zero sample_idx base_angle_deg buffer = []
  sample_points (suc samples) sample_idx base_angle_deg buffer =
      let offset = 4 + sample_idx * 4 in
      let byte1 = byte buffer (offset + 1) in
      let invalid = not (byte1 / 2 ^ 7 % 2 == 0) in
      let distance_mm = byte buffer offset + byte1 % 2 ^ 6 * 256 in
      let strength = byte buffer (offset + 2) + byte buffer (offset + 3) * 256 in
      let rest = sample_points samples (sample_idx + 1) base_angle_deg buffer in
      if invalid || distance_mm == 0
      then rest
      else point (base_angle_deg + sample_idx) distance_mm strength ∷ rest

  unfoldable pub parse_measurement_packet : List ℕ → ParseResult
  parse_measurement_packet buffer =
      let speed_raw = byte buffer 2 + byte buffer 3 * 256 in
      let packet_number = (byte buffer 1 + 256 - index_min) % 256 in
      points (sample_points 4 0 (packet_number * 4) buffer) (rpm speed_raw)

  -- What one round of the loop does: return, or go on.
  pub data Round : Type 0 where
    result : ParseResult → RevoLdsPacketReader → Round
    continue : RevoLdsPacketReader → Round

  -- `self.bytes_discarded += n; self.buffer.drain(0..n)`.
  abbrev pub discard : ℕ → RevoLdsPacketReader → RevoLdsPacketReader
  discard n r = record r {
    buffer = drop n r.buffer;
    bytes_discarded = (r.bytes_discarded + n) % 2 ^ 64;
  }

  -- A round on a buffer that starts with the sync byte.
  unfoldable pub at_sync : RevoLdsPacketReader → Round
  at_sync r =
      let calculated = calculate_checksum (take 20 r.buffer) in
      let received = byte r.buffer 20 + byte r.buffer 21 * 256 in
      if ltb (length r.buffer) packet_size
      then result nothing r
      else if not (leb index_min (byte r.buffer 1) && leb (byte r.buffer 1) index_max)
      then continue (discard 1 r)
      else if not (calculated == received)
      then continue
          (record (discard 1 r) { checksum_failures = (r.checksum_failures + 1) % 2 ^ 64 })
      else result (parse_measurement_packet r.buffer)
          (record r { buffer = drop packet_size r.buffer })

  unfoldable pub round : RevoLdsPacketReader → Round
  round r =
      if ltb (length r.buffer) packet_size
      then result nothing r
      else elim (position (λ b. b == sync_byte) r.buffer) [
        | none ↦ result nothing (discard (length r.buffer - 1) r)
        | some sync_idx ↦ at_sync (discard sync_idx r)
      ]

  -- The result and the reader after a call; `stuck` means that the fuel ran out.
  pub data Parsed : Type 0 where
    parsed : ParseResult → RevoLdsPacketReader → Parsed
    stuck : Parsed

  unfoldable pub resync_loop : ℕ → RevoLdsPacketReader → Parsed
  resync_loop zero r = stuck
  resync_loop (suc fuel) r = elim (round r) [
    | result p r' ↦ parsed p r'
    | continue r' ↦ resync_loop fuel r'
  ]

  -- Each round that goes on takes a byte off the buffer.
  unfoldable pub try_parse_packet_with_resync : RevoLdsPacketReader → Parsed
  try_parse_packet_with_resync r = resync_loop (suc (length r.buffer)) r

  unfoldable pub parse_next : RevoLdsPacketReader → Parsed
  parse_next r =
      if ltb max_buffer_size (length r.buffer)
      then parsed nothing (record r {
        buffer = [];
        bytes_discarded = (r.bytes_discarded + length r.buffer) % 2 ^ 64;
      })
      else try_parse_packet_with_resync r
