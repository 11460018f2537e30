-- ===== src/RevoLds/Agreement.antt =====
-- revo_lds/protocol.rs against roborock_s5max/lds.rs: two parsers of one packet format.
use vacuum_tiger.Prelude.{
  ℕ, zero, suc, ◌+◌, ◌-◌, ◌*◌, ◌/◌, ◌%◌, ◌^◌, ◌≤◌, ◌<◌, ◌≡◌, refl, ap, not, ◌&&◌, ◌||◌, Option,
  none, some, List, [], ◌∷◌, length, take, get_or, leb, ◌==◌, if◌then◌else◌, arith, All, Bool-cases,
  inl, inr,
}
use vacuum_tiger.RevoLds.Core.{
  Optics, ParseResult, add_words, calculate_checksum, sample_points, parse_measurement_packet,
}
use vacuum_tiger.S5Max.Lds.Packet.{
  LdsSample, LdsPacket, accumulate, packet_checksum, parse, sample_at, u16_at, invalid, distance_mm,
  start_angle_degrees, sync, index_min, index_max,
}

same_words :
    (bytes : List ℕ) → 20 ≤ length bytes → add_words 10 0 0 bytes ≡ accumulate 0 (take 20 bytes)
unfolding add_words accumulate
same_words
      (b0 ∷ b1 ∷ b2 ∷ b3 ∷ b4 ∷ b5 ∷ b6 ∷ b7 ∷ b8 ∷ b9 ∷ b10 ∷ b11 ∷ b12 ∷ b13 ∷ b14 ∷ b15 ∷ b16
        ∷ b17 ∷ b18 ∷ b19 ∷ rest)
      h =
    refl
same_words _ h = absurd (omega arith)

fold_carry : (a : ℕ) → (a + a / 2 ^ 15) % 2 ^ 32 % 2 ^ 15 ≡ (a % 2 ^ 15 + a / 2 ^ 15) % 2 ^ 15
fold_carry a = omega arith

-- The two checksum routines agree on every packet: adding the carry before or after masking the sum
-- gives the same fifteen bits.
pub calculate_checksum-packet_checksum :
    (bytes : List ℕ) → 20 ≤ length bytes → calculate_checksum bytes ≡ packet_checksum bytes
unfolding calculate_checksum packet_checksum
calculate_checksum-packet_checksum bytes h =
    rw (same_words bytes h) (fold_carry (accumulate 0 (take 20 bytes)))

get_or-lt : (bytes : List ℕ) (i : ℕ) → All (λ b. b < 256) bytes → get_or bytes i 0 < 256
get_or-lt [] i h = omega arith
get_or-lt (b ∷ bytes) zero h = h.0
get_or-lt (b ∷ bytes) (suc i) h = get_or-lt bytes i h.1

invalid_bit : (low high : ℕ) → low < 256 → (low + high * 256) / 2 ^ 15 % 2 ≡ high / 2 ^ 7 % 2
invalid_bit low high h = omega arith

distance_bits : (low high : ℕ) → low < 256 → (low + high * 256) % 2 ^ 14 ≡ low + high % 2 ^ 6 * 256
distance_bits low high h = omega arith

-- The four samples that `parse` reads.
abbrev four : List ℕ → List LdsSample
four bytes = sample_at bytes 4 ∷ sample_at bytes 8 ∷ sample_at bytes 12 ∷ sample_at bytes 16 ∷ []

module _ (o : Optics) where
  open o use {Point, Rpm, rpm, point}

  -- The points that the samples of a packet stand for, from the sample `i` on: those that are
  -- neither flagged invalid nor at distance 0.
  unfoldable pub readings : ℕ → ℕ → List LdsSample → List Point
  readings start i [] = []
  readings start i (s ∷ rest) =
      let others = readings start (i + 1) rest in
      if invalid s || distance_mm s == 0
      then others
      else point (start + i) (distance_mm s) s.signal_strength ∷ others

  sample_points-suc :
      (n i start : ℕ) (bytes : List ℕ) (samples : List LdsSample)
      → All (λ b. b < 256) bytes
      → sample_points o n (i + 1) start bytes ≡ readings start (i + 1) samples
      → sample_points o (suc n) i start bytes
        ≡ readings start i (sample_at bytes (4 + i * 4) ∷ samples)
  unfolding sample_points readings invalid distance_mm
  sample_points-suc n i start bytes samples small e =
      let low = get_or bytes (4 + i * 4) 0 in
      let high = get_or bytes (4 + i * 4 + 1) 0 in
      let small' = get_or-lt bytes (4 + i * 4) small in
      let next : 4 + i * 4 + 2 + 1 ≡ 4 + i * 4 + 3 = omega arith in
      let signal : (sample_at bytes (4 + i * 4)).signal_strength
          ≡ get_or bytes (4 + i * 4 + 2) 0 + get_or bytes (4 + i * 4 + 3) 0 * 256 =
        rw next refl in
      rw (e, invalid_bit low high small', distance_bits low high small', signal) refl

  four_samples :
      (start : ℕ) (bytes : List ℕ)
      → All (λ b. b < 256) bytes
      → sample_points o 4 0 start bytes ≡ readings start 0 (four bytes)
  unfolding sample_points readings
  four_samples start bytes small =
      let last = sample_points-suc 0 3 start bytes [] small refl in
      let third = sample_points-suc 1 2 start bytes (sample_at bytes 16 ∷ []) small last in
      let second =
        sample_points-suc 2 1 start bytes (sample_at bytes 12 ∷ sample_at bytes 16 ∷ []) small
          third in
      sample_points-suc 3 0 start bytes
        (sample_at bytes 8 ∷ sample_at bytes 12 ∷ sample_at bytes 16 ∷ []) small second

  -- On a packet that the other parser accepts, this parser yields the points of the samples that the
  -- other one reads, at its start angle, and the same speed.
  pub parse_measurement_packet-parse :
      (bytes : List ℕ) (p : LdsPacket)
      → All (λ b. b < 256) bytes
      → parse bytes ≡ some p
      → parse_measurement_packet o bytes
        ≡ ParseResult.points (readings (start_angle_degrees p) 0 p.samples) (rpm p.speed_raw)
  unfolding parse_measurement_packet parse start_angle_degrees
  parse_measurement_packet-parse bytes p small e =
      let index = get_or bytes 1 0 in
      elim (Bool-cases
        (not (get_or bytes 0 0 == sync) || not (leb index_min index && leb index index_max))) [
          | inl y ↦ let z : ◌≡◌ {A = Option LdsPacket} none (some p) = rw y at e in cc
          | inr n ↦
              let z = rw n at e in
              let z' : record {
                index = index;
                speed_raw = u16_at bytes 2;
                samples = four bytes;
                checksum = u16_at bytes 20;
              }
                  ≡ p =
                cc in
              let found = four_samples ((index + 256 - index_min) % 256 * 4) bytes small in
              rw (← z') (ap (λ ps. ParseResult.points ps (rpm (u16_at bytes 2))) found)
        ]
