-- ===== src/S5Max/Reports/Tests.antt =====
-- Concrete reports and log lines, and the theorems at concrete inputs.
use vacuum_tiger.Prelude.{
  ◌⊎◌, ◌<◌, ℕ, ◌≡◌, refl, sym, ap, ◌∙◌, append-nil, true, false, none, some, List, [], ◌∷◌, ◌++◌,
  length, replicate, arith,
}
use vacuum_tiger.Prelude.Text.{
  codes, strip_prefix, strip_suffix, split_on, find_bytes, parse_i32, parse_unsigned,
}
use vacuum_tiger.S5Max.Crc.{crc8}
use vacuum_tiger.S5Max.Frame.{ok}
use vacuum_tiger.S5Max.Frame.Laws.{expansions, encode_binary_frame-eq_ok}
use vacuum_tiger.S5Max.Decoder.{Frame, pushed}
use vacuum_tiger.S5Max.Decoder.RoundTrip.{wire}
use vacuum_tiger.S5Max.Decoder.Chunks.{push_all}
use vacuum_tiger.S5Max.Reports.{
  EmbeddedReport, reports, dock_state, charge, WarningCounters, warning_counters, battery_status,
  mode_transition, bms_diagnostic, sensor_summary, wheel_pid_diagnostic,
}
use vacuum_tiger.S5Max.Reports.RoundTrip.{encode, start, TooShort, reports-Lossless}
use vacuum_tiger.S5Max.Reports.EndToEnd.{state_payload, push_all-reports}

abbrev log_of : List ℕ → Frame
log_of text = record {
  raw = [];
  payload = 0xf9 ∷ 0x80 ∷ text;
  escape_overhead = 0;
  message = 0xf9;
  command = 0x80;
  crc = 0;
  crc_valid = false;
  is_log = true;
}

abbrev event_of : List ℕ → Frame
event_of payload = record {
  raw = [];
  payload = payload;
  escape_overhead = 1;
  message = 0x0b;
  command = 0x08;
  crc = 0;
  crc_valid = true;
  is_log = false;
}

abbrev docked : Frame
docked = log_of (codes "DockSta:3,CHARGE" ++ (13 ∷ 10 ∷ 0x5e ∷ []))

dock_state_of_docked : dock_state docked ≡ some charge
unfolding dock_state strip_suffix
dock_state_of_docked = refl

abbrev wheels : Frame
wheels = log_of (codes "WheelWarnSum:1,2,30,4,+5" ++ (10 ∷ 0x5e ∷ []))

abbrev wheel_counters : WarningCounters
wheel_counters = record { wheel = some (1 ∷ 2 ∷ 30 ∷ 4 ∷ 5 ∷ []); brush = none }

warning_counters_of_wheels : warning_counters wheels ≡ some wheel_counters
unfolding warning_counters strip_prefix strip_suffix split_on parse_unsigned
warning_counters_of_wheels = refl

pid_diagnostic :
    wheel_pid_diagnostic (log_of (codes "[PID_wheeloc,L,12,R,-1,cnt,7," ++ (13 ∷ 10 ∷ [])))
    ≡ some (record { left = 12; right = 4294967295; count = 7 })
unfolding wheel_pid_diagnostic strip_prefix strip_suffix find_bytes parse_i32
pid_diagnostic = refl

summary :
    sensor_summary (log_of (codes "Force:1 Drop:2 Bmpr:3 Dock:4 Clf:5"))
    ≡ some (record { force = 1; drop_count = 2; bumper = 3; dock = 4; cliff = 5 })
unfolding sensor_summary strip_prefix strip_suffix find_bytes parse_unsigned
summary = refl

battery_line :
    bms_diagnostic (log_of (codes "bms:rept soc=99,V=16000,I=-2" ++ (13 ∷ 10 ∷ 0x5e ∷ [])))
    ≡ some (battery_status 99 16000 4294967294)
unfolding bms_diagnostic strip_prefix strip_suffix find_bytes parse_i32 parse_unsigned
battery_line = refl

mode_line : bms_diagnostic (log_of (codes "bms:stam mode[1->12]")) ≡ some (mode_transition 1 12)
unfolding bms_diagnostic strip_prefix strip_suffix find_bytes parse_i32 parse_unsigned
mode_line = refl

abbrev gyro : EmbeddedReport
gyro = record { message = 0x2e; bytes = 7 ∷ [] }

abbrev footer : EmbeddedReport
footer = record { message = 0xff; bytes = 1 ∷ 9 ∷ [] }

abbrev event : Frame
event = event_of (0x2e ∷ 1 ∷ 7 ∷ 0xff ∷ 2 ∷ 1 ∷ 9 ∷ 3 ∷ 4 ∷ 0 ∷ [])

reports-Lossless_example :
    (((event.is_log ≡ true) ⊎ (length event.payload < start event)) × (reports event ≡ []))
    ⊎ ((event.is_log ≡ false)
        × (fixed : List ℕ) × (tail : List ℕ) × (event.payload
            ≡ fixed ++ (encode (reports event) ++ tail))
        × (length fixed ≡ start event)
        × TooShort tail)
reports-Lossless_example = reports-Lossless event

abbrev zeros : List ℕ
zeros = replicate 64 0

abbrev sent : List ℕ
sent = state_payload zeros (gyro ∷ footer ∷ [])

push_all-reports_example :
    (f : Frame) × (push_all [] ([] ∷ wire sent ∷ []) ≡ pushed (f ∷ []) [])
    × (reports f ≡ gyro ∷ footer ∷ [])
push_all-reports_example = push_all-reports zeros (gyro ∷ footer ∷ []) [] (wire sent ∷ []) refl (
    unfold expansions crc8 in
    encode_binary_frame-eq_ok sent (omega arith) (omega arith)
    ∙ ap (λ w. ok w) (sym (append-nil (wire sent))))
