-- ===== src/S5Max/Lds/Packet.antt =====
-- lds.rs: `LdsSample`, `LdsPacket` and the checksum. An array `[u8; 22]` is a list of that length.
use vacuum_tiger.Prelude.{
  ℕ, ◌+◌, ◌-◌, ◌*◌, ◌/◌, ◌%◌, ◌^◌, Bool, not, ◌&&◌, ◌||◌, Option, none, some, List, [], ◌∷◌, get_or,
  take, leb, ◌==◌, if◌then◌else◌,
}

abbrev pub sync : ℕ
sync = 0xfa

abbrev pub packet_length : ℕ
packet_length = 22

abbrev pub index_min : ℕ
index_min = 0xa0

abbrev pub index_max : ℕ
index_max = 0xf9

abbrev pub packets_per_revolution : ℕ
packets_per_revolution = 90

abbrev pub samples_per_revolution : ℕ
samples_per_revolution = 360

-- Both are u16.
pub record LdsSample : Type 0 where
  pub distance_raw : ℕ
  pub signal_strength : ℕ

-- Bit 15, bit 14, and the bits below.
unfoldable pub invalid : LdsSample → Bool
invalid s = not (s.distance_raw / 2 ^ 15 % 2 == 0)

unfoldable pub strength_warning : LdsSample → Bool
strength_warning s = not (s.distance_raw / 2 ^ 14 % 2 == 0)

unfoldable pub distance_mm : LdsSample → ℕ
distance_mm s = s.distance_raw % 2 ^ 14

pub record LdsPacket : Type 0 where
  pub index : ℕ
  pub speed_raw : ℕ
  pub samples : List LdsSample
  pub checksum : ℕ

-- `u16::from_le_bytes([bytes[i], bytes[i + 1]])`.
abbrev pub u16_at : List ℕ → ℕ → ℕ
u16_at bytes i = get_or bytes i 0 + get_or bytes (i + 1) 0 * 256

abbrev pub sample_at : List ℕ → ℕ → LdsSample
sample_at bytes offset = record {
  distance_raw = u16_at bytes offset;
  signal_strength = u16_at bytes (offset + 2);
}

unfoldable pub parse : List ℕ → Option LdsPacket
parse bytes =
    let index = get_or bytes 1 0 in
    if not (get_or bytes 0 0 == sync) || not (leb index_min index && leb index index_max)
    then none
    else some (record {
      index = index;
      speed_raw = u16_at bytes 2;
      samples =
          sample_at bytes 4 ∷ sample_at bytes 8 ∷ sample_at bytes 12 ∷ sample_at bytes 16 ∷ [];
      checksum = u16_at bytes 20;
    })

-- The u8 difference does not wrap for a packet that was parsed.
unfoldable pub start_angle_degrees : LdsPacket → ℕ
start_angle_degrees p = (p.index + 256 - index_min) % 256 * 4

-- The loop over `bytes[..20].chunks(2)`, on a u32: `<<` drops what leaves the 32 bits.
unfoldable pub accumulate : ℕ → List ℕ → ℕ
accumulate acc [] = acc
accumulate acc (a ∷ []) = acc
accumulate acc (a ∷ b ∷ rest) = accumulate ((acc * 2 % 2 ^ 32 + (a + b * 256)) % 2 ^ 32) rest

unfoldable pub packet_checksum : List ℕ → ℕ
unfolding accumulate
packet_checksum bytes =
    let accumulator = accumulate 0 (take 20 bytes) in
    (accumulator % 2 ^ 15 + accumulator / 2 ^ 15) % 2 ^ 15

unfoldable pub checksum_valid : LdsPacket → List ℕ → Bool
checksum_valid p bytes = p.checksum == packet_checksum bytes
