-- ===== src/S5Max/Lds/Revolution.antt =====
-- lds.rs: `LdsRevolution`, `RevolutionBuilder` and `LdsRevolutionAssembler`. The speeds in rpm, which are
-- f32, are left out.
use vacuum_tiger.Prelude.{
  ℕ, ◌+◌, ◌-◌, ◌%◌, ◌^◌, min, max, Bool, true, false, not, Option, none, some, List, [], ◌∷◌,
  length, get_elem?, set, replicate, ltb, ◌==◌, if◌then◌else◌,
}
use mathlib.Core.Option
use vacuum_tiger.S5Max.Lds.Packet.{
  LdsSample, LdsPacket, invalid, strength_warning, start_angle_degrees, index_min,
  packets_per_revolution, samples_per_revolution,
}

pub record LdsRevolution : Type 0 where
  pub samples : List (Option LdsSample)
  pub packet_count : ℕ
  pub duplicate_packets : ℕ
  pub min_speed_raw : ℕ
  pub max_speed_raw : ℕ
  pub speed_raw_sum : ℕ

unfoldable pub missing_packets : LdsRevolution → ℕ
missing_packets r = packets_per_revolution - r.packet_count

unfoldable pub complete : LdsRevolution → Bool
complete r = r.packet_count == packets_per_revolution

-- `samples.iter().flatten().filter(test).count()`.
unfoldable pub count_samples : (LdsSample → Bool) → List (Option LdsSample) → ℕ
count_samples test [] = 0
count_samples test (none ∷ slots) = count_samples test slots
count_samples test (some s ∷ slots) =
    let rest = count_samples test slots in if test s then rest + 1 else rest

unfoldable pub valid_sample_count : LdsRevolution → ℕ
unfolding count_samples
valid_sample_count r = count_samples (λ s. not (invalid s)) r.samples

unfoldable pub invalid_sample_count : LdsRevolution → ℕ
unfolding count_samples
invalid_sample_count r = count_samples invalid r.samples

unfoldable pub strength_warning_count : LdsRevolution → ℕ
unfolding count_samples
strength_warning_count r = count_samples strength_warning r.samples

unfoldable pub observed_sample_count : LdsRevolution → ℕ
unfolding count_samples
observed_sample_count r = count_samples (λ s. true) r.samples

pub record RevolutionBuilder : Type 0 where
  pub revolution : LdsRevolution
  pub seen_packets : List Bool
  pub last_index : Option ℕ

abbrev pub new : RevolutionBuilder
new = record {
  revolution = record {
    samples = replicate samples_per_revolution none;
    packet_count = 0;
    duplicate_packets = 0;
    min_speed_raw = 65535;
    max_speed_raw = 0;
    speed_raw_sum = 0;
  };
  seen_packets = replicate packets_per_revolution false;
  last_index = none;
}

-- The loop over the samples from the slot `i` on; `none` is the panic on a slot out of range.
unfoldable pub place :
    ℕ → List LdsSample → List (Option LdsSample) → Option (List (Option LdsSample))
place i [] slots = some slots
place i (s ∷ rest) slots =
    let placed = place (i + 1) rest (set slots i (some s)) in
    if ltb i (length slots) then placed else none

-- The rest of `insert` for a packet that was not seen, behind the loop over its samples.
abbrev pub inserted :
    LdsPacket → ℕ → RevolutionBuilder → List (Option LdsSample) → RevolutionBuilder
inserted p packet_index b samples =
    let r = b.revolution in
    record {
      revolution = record {
        samples = samples;
        packet_count = (r.packet_count + 1) % 2 ^ 64;
        duplicate_packets = r.duplicate_packets;
        min_speed_raw = min r.min_speed_raw p.speed_raw;
        max_speed_raw = max r.max_speed_raw p.speed_raw;
        speed_raw_sum = (r.speed_raw_sum + p.speed_raw) % 2 ^ 64;
      };
      seen_packets = set b.seen_packets packet_index true;
      last_index = some p.index;
    }

-- A packet that was seen already.
abbrev pub repeated : LdsPacket → RevolutionBuilder → RevolutionBuilder
repeated p b = record b {
  revolution = record b.revolution {
    duplicate_packets = (b.revolution.duplicate_packets + 1) % 2 ^ 64;
  };
  last_index = some p.index;
}

-- `none` is a panic.
unfoldable pub insert : LdsPacket → RevolutionBuilder → Option RevolutionBuilder
insert p b =
    let packet_index = (p.index + 256 - index_min) % 256 in
    elim (get_elem? b.seen_packets packet_index) [
      | none ↦ none
      | some seen ↦
          if seen
          then some (repeated p b)
          else Option.map (inserted p packet_index b)
              (place (start_angle_degrees p) p.samples b.revolution.samples)
    ]

unfoldable pub finish : RevolutionBuilder → LdsRevolution
finish b =
    if b.revolution.packet_count == 0
    then record b.revolution { min_speed_raw = 0 }
    else b.revolution

-- The assembler is its field `current`.
abbrev pub wraps : LdsPacket → Option RevolutionBuilder → Bool
wraps p none = false
wraps p (some b) = elim b.last_index [ none ↦ false | some last_index ↦ ltb p.index last_index ]

abbrev pub get_or_new : Option RevolutionBuilder → RevolutionBuilder
get_or_new none = new
get_or_new (some b) = b

unfoldable pub push :
    LdsPacket → Option RevolutionBuilder → Option (Option LdsRevolution × Option RevolutionBuilder)
push p current =
    let wrapped = wraps p current in
    let completed = if wrapped then Option.map finish current else none in
    let kept = if wrapped then none else current in
    Option.map (λ b. (completed, some b)) (insert p (get_or_new kept))

-- `LdsRevolutionAssembler::finish`.
unfoldable pub finish_current : Option RevolutionBuilder → Option LdsRevolution
finish_current current = Option.map finish current
