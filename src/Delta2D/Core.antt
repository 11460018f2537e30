-- ===== src/Delta2D/Core.antt =====
-- delta2d/protocol.rs: `Delta2DPacketReader`. The arithmetic on f32 is a parameter.
use vacuum_tiger.Prelude.{
  ℕ, zero, suc, ◌+◌, ◌-◌, ◌*◌, ◌/◌, ◌%◌, ◌^◌, Bool, not, ◌&&◌, ◌||◌, none, some, List, [], ◌∷◌,
  ◌++◌, length, take, drop, get_or, position, ltb, ◌==◌, if◌then◌else◌,
}

abbrev pub max_buffer_size : ℕ
max_buffer_size = 8192

abbrev pub sync_byte : ℕ
sync_byte = 0xaa

-- The operations on f32 that the code uses, the constants by their names, the transform of an angle
-- and the offset of the mounting from the configuration, and the pairs of loops that bring an angle
-- between 0 and 2π by adding and taking away 2π: in the parser, and in the driver.
pub record Floats : Type 1 where
  pub F32 : Type 0
  pub from_unsigned : ℕ → F32
  pub add : F32 → F32 → F32
  pub mul : F32 → F32 → F32
  pub div : F32 → F32 → F32
  pub less : F32 → F32 → Bool
  pub at_most : F32 → F32 → Bool
  pub hundredth : F32
  pub metres_per_unit : F32
  pub to_radians : F32 → F32
  pub apply : F32 → F32
  pub normalized : F32 → F32
  pub sub : F32 → F32 → F32
  pub zero_angle : F32
  pub pi : F32
  pub angle_offset : F32
  pub mounted : F32 → F32

pub data CommandType : Type 0 where
  health_command : CommandType
  measurement : CommandType
  unknown : CommandType

-- `From<u8>`.
unfoldable pub command_type : ℕ → CommandType
command_type value =
    if value == 0xae then health_command else if value == 0xad then measurement else unknown

pub record Delta2DPacketReader : Type 0 where
  pub buffer : List ℕ
  pub bytes_discarded : ℕ
  pub crc_failures : ℕ

-- `with_transform`.
abbrev pub new : Delta2DPacketReader
new = record { buffer = []; bytes_discarded = 0; crc_failures = 0 }

unfoldable pub clear : Delta2DPacketReader → Delta2DPacketReader
clear r = record r { buffer = [] }

unfoldable pub diagnostics : Delta2DPacketReader → ℕ × ℕ × ℕ
diagnostics r = (r.bytes_discarded, r.crc_failures, length r.buffer)

-- What a call of `read` on the port returns: at most 2048 bytes, none at the end of the stream, or
-- an error.
pub data ReadOutcome : Type 0 where
  bytes_read : List ℕ → ReadOutcome
  timed_out : ReadOutcome
  would_block : ReadOutcome
  failed : ReadOutcome

-- The result of `read_bytes`: the count, or the port's error; and the reader after the call. `unread`
-- means that the fuel ran out.
pub data ReadResult : Type 0 where
  total : ℕ → Delta2DPacketReader → ReadResult
  io_error : Delta2DPacketReader → ReadResult
  unread : ReadResult

-- What follows a read; `more` is the rest of the loop, behind a read that filled the buffer.
abbrev pub on_outcome :
    ReadOutcome → ℕ → Delta2DPacketReader → (ℕ → Delta2DPacketReader → ReadResult) → ReadResult
on_outcome timed_out total_read r more = total total_read r
on_outcome would_block total_read r more = total total_read r
on_outcome failed total_read r more = io_error r
on_outcome (bytes_read bytes) total_read r more =
    let n = length bytes in
    let r' = record r { buffer = r.buffer ++ bytes } in
    let rest = more (total_read + n) r' in
    if n == 0 then total total_read r else if ltb n 2048 then total (total_read + n) r' else rest

-- The loop of `read_bytes`, on what the port returns call by call, from the `k`-th on. It goes on as
-- long as each read fills the buffer of 2048 bytes.
unfoldable pub read_loop : ℕ → (ℕ → ReadOutcome) → ℕ → ℕ → Delta2DPacketReader → ReadResult
read_loop zero port k total_read r = unread
read_loop (suc fuel) port k total_read r =
    on_outcome (port k) total_read r (λ n r'. read_loop fuel port (k + 1) n r')

unfoldable pub read_bytes : ℕ → (ℕ → ReadOutcome) → Delta2DPacketReader → ReadResult
unfolding read_loop
read_bytes fuel port r = read_loop fuel port 0 0 r

abbrev pub byte : List ℕ → ℕ → ℕ
byte xs i = get_or xs i 0

-- A version of at most 15. The type of the command is only logged.
unfoldable pub validate_header : List ℕ → Bool
validate_header buffer = not (ltb 15 (byte buffer 3))

-- The length of the payload that a header announces, and of the whole packet.
abbrev pub payload_len : List ℕ → ℕ
payload_len buffer = byte buffer 6 * 256 + byte buffer 7

abbrev pub total_len : List ℕ → ℕ
total_len buffer = 8 + payload_len buffer + 2

module _ (fl : Floats) where
  open fl use {
    F32, from_unsigned, add, mul, div, less, at_most, hundredth, metres_per_unit, to_radians, apply,
    normalized,
  }

  pub record LidarPoint : Type 0 where
    pub angle : F32
    pub distance : F32
    pub quality : ℕ

  pub data ParseResult : Type 0 where
    scan : List LidarPoint → ParseResult
    health : ParseResult
    nothing : ParseResult

  -- The step between two points, in degrees.
  unfoldable pub angle_increment_deg : ℕ → ℕ → F32
  angle_increment_deg offset_angle_raw sample_count =
      let offset_deg = mul (from_unsigned offset_angle_raw) hundredth in
      if ltb 0 sample_count && (less (from_unsigned 10) offset_deg || less offset_deg hundredth)
      then div (from_unsigned 360) (mul (from_unsigned 16) (from_unsigned sample_count))
      else offset_deg

  -- The `while` loop over the samples, on the bytes from `i` on.
  unfoldable pub sample_points : ℕ → F32 → ℕ → List ℕ → List LidarPoint
  sample_points start_angle_raw increment point_index [] = []
  sample_points start_angle_raw increment point_index (quality ∷ []) = []
  sample_points start_angle_raw increment point_index (quality ∷ high ∷ []) = []
  sample_points start_angle_raw increment point_index (quality ∷ high ∷ low ∷ payload) =
      let distance_raw = high * 256 + low in
      let angle_deg =
        add (mul (from_unsigned start_angle_raw) hundredth)
          (mul (from_unsigned point_index) increment) in
      let point : LidarPoint = record {
        angle = normalized (apply (to_radians angle_deg));
        distance = mul (from_unsigned distance_raw) metres_per_unit;
        quality = quality;
      } in
      let rest = sample_points start_angle_raw increment (point_index + 1) payload in
      if ltb 0 distance_raw
        && ltb 0 quality
        && (at_most (from_unsigned 0) angle_deg && at_most angle_deg (from_unsigned 360))
      then point ∷ rest
      else rest

  unfoldable pub parse_measurement : List ℕ → List LidarPoint
  unfolding sample_points angle_increment_deg
  parse_measurement payload =
      let offset_angle_raw = byte payload 1 * 256 + byte payload 2 in
      let start_angle_raw = byte payload 3 * 256 + byte payload 4 in
      let sample_count = (length payload - 5) / 3 in
      if ltb (length payload) 5
      then []
      else sample_points start_angle_raw (angle_increment_deg offset_angle_raw sample_count) 0
          (drop 5 payload)

  -- What is made of a whole packet at the start of the buffer.
  abbrev pub of_type : CommandType → ℕ → List ℕ → ParseResult
  of_type measurement n payload = if ltb 5 n then scan (parse_measurement payload) else nothing
  of_type health_command n payload = health
  of_type unknown n payload = nothing

  unfoldable pub packet_result : List ℕ → ParseResult
  unfolding command_type
  packet_result buffer =
      of_type (command_type (byte buffer 5)) (payload_len buffer)
        (take (payload_len buffer) (drop 8 buffer))

  -- What one round of the loop does: return, or go on.
  pub data Round : Type 0 where
    result : ParseResult → Delta2DPacketReader → Round
    continue : Delta2DPacketReader → Round

  -- `self.bytes_discarded += n; self.buffer.drain(0..n)`.
  abbrev pub discard : ℕ → Delta2DPacketReader → Delta2DPacketReader
  discard n r = record r {
    buffer = drop n r.buffer;
    bytes_discarded = (r.bytes_discarded + n) % 2 ^ 64;
  }

  -- A round on a buffer that starts with the sync byte.
  unfoldable pub at_sync : Delta2DPacketReader → Round
  unfolding validate_header packet_result
  at_sync r =
      if ltb (length r.buffer) 8
      then result nothing r
      else if not (validate_header r.buffer)
      then continue (discard 1 r)
      else if ltb 1024 (payload_len r.buffer)
      then continue (discard 1 r)
      else if ltb (length r.buffer) (total_len r.buffer)
      then result nothing r
      else result (packet_result r.buffer)
          (record r { buffer = drop (total_len r.buffer) r.buffer })

  unfoldable pub round : Delta2DPacketReader → Round
  unfolding at_sync
  round r =
      if ltb (length r.buffer) 8
      then result nothing r
      else elim (position (λ b. b == sync_byte) r.buffer) [
        | none ↦ result nothing (discard (length r.buffer - 1) r)
        | some sync_idx ↦ at_sync (discard sync_idx r)
      ]

  -- The result and the reader after a call; `stuck` means that the fuel ran out.
  pub data Parsed : Type 0 where
    parsed : ParseResult → Delta2DPacketReader → Parsed
    stuck : Parsed

  unfoldable pub resync_loop : ℕ → Delta2DPacketReader → Parsed
  resync_loop zero r = stuck
  resync_loop (suc fuel) r = elim (round r) [
    | result p r' ↦ parsed p r'
    | continue r' ↦ resync_loop fuel r'
  ]

  -- Each round that goes on takes a byte off the buffer.
  unfoldable pub try_parse_scan_with_resync : Delta2DPacketReader → Parsed
  unfolding resync_loop
  try_parse_scan_with_resync r = resync_loop (suc (length r.buffer)) r

  unfoldable pub parse_next : Delta2DPacketReader → Parsed
  unfolding try_parse_scan_with_resync
  parse_next r =
      if ltb max_buffer_size (length r.buffer)
      then parsed nothing (record r {
        buffer = [];
        bytes_discarded = (r.bytes_discarded + length r.buffer) % 2 ^ 64;
      })
      else try_parse_scan_with_resync r
