-- ===== src/S5Max/Reports/Log.antt =====
-- packet.rs: the text of the diagnostic packets, and what is read from it. The texts are ASCII
-- bytes, and a signed number is its bit pattern. That a text is UTF-8 needs no test of its own: a
-- text with other bytes than those of a number does not parse.
use vacuum_tiger.Prelude.{
  ℕ, ◌+◌, ◌-◌, ◌^◌, Bool, not, ◌&&◌, ◌||◌, Option, none, some, List, [], ◌∷◌, length, take, drop,
  leb, ltb, ◌==◌, if◌then◌else◌,
}
use mathlib.Core.Option
use Prim.Native.String.{String}
use vacuum_tiger.Prelude.Text.{
  codes, bytes_eq, strip_prefix, strip_suffix, or_kept, find_bytes, split_on, parse_unsigned,
  parse_i32,
}
use vacuum_tiger.S5Max.Decoder.{Frame}

pub data DockState : Type 0 where
  connect : DockState
  supply : DockState
  charge : DockState
  discharge : DockState

unfoldable pub as_str : DockState → String
as_str connect = "connect"
as_str supply = "supply"
as_str charge = "charge"
as_str discharge = "discharge"

abbrev crlf : List ℕ
crlf = 13 ∷ 10 ∷ []

abbrev pub without_crlf : List ℕ → List ℕ
without_crlf text = or_kept (strip_suffix crlf text) text

-- `DockState::from_log_text`.
unfoldable pub from_log_text : List ℕ → Option DockState
from_log_text line =
    let text = without_crlf line in
    if bytes_eq text (codes "DockSta:1,CONNECT")
    then some connect
    else if bytes_eq text (codes "DockSta:2,SUPPLY")
    then some supply
    else if bytes_eq text (codes "DockSta:3,CHARGE")
    then some charge
    else if bytes_eq text (codes "DockSta:4,DISCHARGE")
    then some discharge
    else none

unfoldable pub escape_overhead_valid : Frame → Bool
escape_overhead_valid f =
    f.is_log
    || leb (length f.payload + 3) (length f.raw)
      && length f.raw - (length f.payload + 3) == f.escape_overhead

unfoldable pub log_subtype : Frame → Option ℕ
log_subtype f = if f.is_log then some f.command else none

unfoldable pub log_text : Frame → Option (List ℕ)
log_text f =
    let text = drop 2 f.payload in
    if not f.is_log || ltb (length f.payload) 2
    then none
    else some (or_kept (strip_suffix (0x5e ∷ []) text) text)

-- `?`, on the line and on what the parsers read from it.
abbrev pub and_then : {A B : Type 0} → Option A → (A → Option B) → Option B
and_then none k = none
and_then (some a) k = k a

-- `or_else`, and the next of several attempts.
abbrev pub or_else : {A : Type 0} → Option A → Option A → Option A
or_else none b = b
or_else (some a) b = some a

unfoldable pub dock_state : Frame → Option DockState
unfolding from_log_text log_text
dock_state f = and_then (log_text f) from_log_text

-- `parse_number`, for a u32, and for a value of eight bits.
abbrev pub parse_u32 : List ℕ → Option ℕ
parse_u32 text = parse_unsigned (2 ^ 32 - 1) text

abbrev pub parse_u8 : List ℕ → Option ℕ
parse_u8 text = parse_unsigned (2 ^ 8 - 1) text

unfoldable pub parse_all : List (List ℕ) → Option (List ℕ)
parse_all [] = some []
parse_all (part ∷ parts) =
    let rest = parse_all parts in and_then (parse_u32 part) (λ v. Option.map (λ vs. v ∷ vs) rest)

-- The parameter `N` is the first argument.
unfoldable pub parse_csv : ℕ → List ℕ → List ℕ → Option (List ℕ)
unfolding parse_all
parse_csv n text prefix = and_then (strip_prefix prefix text) (λ body.
    and_then (parse_all (split_on 44 body))
      (λ values. if length values == n then some values else none))

-- The type of the number, by its parser, is the first argument.
unfoldable pub split_number : (List ℕ → Option ℕ) → List ℕ → List ℕ → Option (ℕ × List ℕ)
split_number parse text separator = and_then (find_bytes separator text) (λ position.
    Option.map (λ v. (v, drop (position + length separator) text)) (parse (take position text)))

unfoldable pub parse_decimal_suffix : (List ℕ → Option ℕ) → List ℕ → List ℕ → List ℕ → Option ℕ
parse_decimal_suffix parse text prefix suffix =
    and_then (strip_prefix prefix text) (λ rest. and_then (strip_suffix suffix rest) parse)

-- `split_once`.
unfoldable pub split_once : List ℕ → List ℕ → Option (List ℕ × List ℕ)
split_once separator text =
    Option.map (λ i. (take i text, drop (i + length separator) text)) (find_bytes separator text)

pub record WarningCounters : Type 0 where
  pub wheel : Option (List ℕ)
  pub brush : Option (List ℕ)

unfoldable pub without_newline : List ℕ → List ℕ
without_newline text = or_kept (or_else (strip_suffix crlf text) (strip_suffix (10 ∷ []) text)) text

unfoldable pub warning_counters : Frame → Option WarningCounters
unfolding log_text without_newline parse_csv
warning_counters f = and_then (log_text f) (λ line.
    let text = without_newline line in
    or_else
      (Option.map (λ values. record { wheel = some values; brush = none })
        (parse_csv 5 text (codes "WheelWarnSum:")))
      (Option.map (λ values. record { wheel = none; brush = some values })
        (parse_csv 3 text (codes "BrushWarnSum:"))))

pub record WheelPidDiagnostic : Type 0 where
  pub left : ℕ
  pub right : ℕ
  pub count : ℕ

unfoldable pub wheel_pid_diagnostic : Frame → Option WheelPidDiagnostic
unfolding log_text split_number
wheel_pid_diagnostic f = and_then (log_text f) (λ line.
    and_then (strip_prefix (codes "[PID_wheeloc,L,") (without_crlf line)) (λ text.
      and_then (split_number parse_i32 text (codes ",R,")) (λ at_left.
        and_then (split_number parse_i32 (at_left.1) (codes ",cnt,")) (λ at_right.
          and_then (strip_suffix (codes ",") (at_right.1)) (λ digits.
            Option.map (λ count. record { left = at_left.0; right = at_right.0; count = count })
              (parse_i32 digits))))))

pub record SensorSummary : Type 0 where
  pub force : ℕ
  pub drop_count : ℕ
  pub bumper : ℕ
  pub dock : ℕ
  pub cliff : ℕ

unfoldable pub sensor_summary : Frame → Option SensorSummary
unfolding log_text split_number
sensor_summary f = and_then (log_text f) (λ line.
    and_then (strip_prefix (codes "Force:") (without_crlf line)) (λ text.
      and_then (split_number parse_u32 text (codes " Drop:")) (λ force.
        and_then (split_number parse_u32 (force.1) (codes " Bmpr:")) (λ dropped.
          and_then (split_number parse_u32 (dropped.1) (codes " Dock:")) (λ bumper.
            and_then (split_number parse_u32 (bumper.1) (codes " Clf:")) (λ dock.
              Option.map
                (λ cliff. record {
                  force = force.0;
                  drop_count = dropped.0;
                  bumper = bumper.0;
                  dock = dock.0;
                  cliff = cliff;
                })
                (parse_u32 (dock.1))))))))

pub data BmsDiagnostic : Type 0 where
  battery_status : ℕ → ℕ → ℕ → BmsDiagnostic
  adapter_voltage_mv : ℕ → BmsDiagnostic
  battery_temperature_c : ℕ → BmsDiagnostic
  mode_transition : ℕ → ℕ → BmsDiagnostic

unfoldable pub parse_battery_status : List ℕ → Option BmsDiagnostic
unfolding split_once
parse_battery_status line = and_then (strip_prefix (codes "bms:rept soc=") line) (λ text.
    and_then (split_once (codes ",V=") text) (λ soc.
      and_then (split_once (codes ",I=") (soc.1)) (λ voltage.
        and_then (parse_i32 (soc.0)) (λ soc_percent. and_then (parse_i32 (voltage.0)) (λ voltage_mv.
          Option.map (battery_status soc_percent voltage_mv) (parse_i32 (voltage.1)))))))

unfoldable pub parse_mode_transition : List ℕ → Option BmsDiagnostic
unfolding split_once
parse_mode_transition text = and_then (strip_prefix (codes "bms:stam mode[") text) (λ rest.
    and_then (strip_suffix (codes "]") rest) (λ mode.
      and_then (split_once (codes "->") mode) (λ sides.
        and_then (parse_u8 (sides.0))
          (λ from. Option.map (mode_transition from) (parse_u8 (sides.1))))))

unfoldable pub bms_diagnostic : Frame → Option BmsDiagnostic
unfolding log_text without_newline parse_battery_status parse_mode_transition parse_decimal_suffix
bms_diagnostic f = and_then (log_text f) (λ line.
    let text = without_newline line in
    or_else (parse_battery_status text) (
      or_else
        (Option.map adapter_voltage_mv
          (parse_decimal_suffix parse_u32 text (codes "bms:rept RPT Vadpt(on) = ") (codes "mV!")))
        (or_else
          (Option.map battery_temperature_c
            (parse_decimal_suffix parse_i32 text (codes "bms:chkt, bat temp: ") (codes "c")))
          (parse_mode_transition text))))
