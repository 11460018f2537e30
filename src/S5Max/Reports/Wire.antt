-- ===== src/S5Max/Reports/Wire.antt =====
-- packet.rs: the stream of reports in a payload.
use vacuum_tiger.Prelude.{
  ℕ, zero, suc, ◌+◌, ◌-◌, ◌*◌, Bool, not, ◌&&◌, Option, none, some, List, [], ◌∷◌, length, take,
  drop, get_or, leb, ◌==◌, if◌then◌else◌,
}
use vacuum_tiger.S5Max.Decoder.{Frame}
use vacuum_tiger.S5Max.Reports.Ids.{
  report_state_message, report_state_command, report_event_message, report_event_command,
  state_base_length,
}

pub record EmbeddedReport : Type 0 where
  pub message : ℕ
  pub bytes : List ℕ

-- `EmbeddedReports::next`: the report and the bytes that remain. Without a report they stay.
unfoldable pub next_report : List ℕ → Option (EmbeddedReport × List ℕ)
next_report [] = none
next_report (message ∷ []) = none
next_report (message ∷ size ∷ rest) =
    if leb size (length rest)
    then some (record { message = message; bytes = take size rest }, drop size rest)
    else none

-- All that the iterator yields; the fuel is the length of the bytes and one more.
unfoldable pub collect : ℕ → List ℕ → List EmbeddedReport
collect zero remaining = []
collect (suc fuel) remaining = elim (next_report remaining) [
  | none ↦ []
  | some (report, rest) ↦ report ∷ collect fuel rest
]

unfoldable pub is_state_report : Frame → Bool
is_state_report f =
    not f.is_log && (f.message == report_state_message && f.command == report_state_command)

unfoldable pub is_event_report : Frame → Bool
is_event_report f =
    not f.is_log && (f.message == report_event_message && f.command == report_event_command)

-- The bytes that the iterator starts with.
unfoldable pub remaining : Frame → List ℕ
unfolding is_state_report
remaining f =
    let start = if is_state_report f then state_base_length else 0 in
    if not f.is_log && leb start (length f.payload) then drop start f.payload else []

unfoldable pub reports : Frame → List EmbeddedReport
unfolding remaining collect
reports f = let bytes = remaining f in collect (suc (length bytes)) bytes

-- `embedded_reports`.
unfoldable pub embedded_reports : Frame → List EmbeddedReport
unfolding is_state_report collect
embedded_reports f =
    let bytes =
      if is_state_report f && leb state_base_length (length f.payload)
      then drop state_base_length f.payload
      else [] in
    collect (suc (length bytes)) bytes

-- `find`.
abbrev pub find_report : (EmbeddedReport → Bool) → List EmbeddedReport → Option EmbeddedReport
find_report test [] = none
find_report test (r ∷ rs) = let later = find_report test rs in if test r then some r else later

abbrev pub bytes_of : Option EmbeddedReport → Option (List ℕ)
bytes_of none = none
bytes_of (some r) = some r.bytes

unfoldable pub embedded_report : ℕ → ℕ → Frame → Option (List ℕ)
unfolding reports
embedded_report message size f =
    bytes_of (find_report (λ r. r.message == message && length r.bytes == size) (reports f))

unfoldable pub report : ℕ → Frame → Option EmbeddedReport
unfolding reports
report message f = find_report (λ r. r.message == message) (reports f)

-- The number that little-endian bytes stand for.
abbrev pub le_value : List ℕ → ℕ
le_value [] = 0
le_value (b ∷ bytes) = b + 256 * le_value bytes

-- The bytes `bytes[i..j]`, and the unsigned number that they stand for.
abbrev pub cut : ℕ → ℕ → List ℕ → List ℕ
cut i j bytes = take (j - i) (drop i bytes)

abbrev pub number : ℕ → ℕ → List ℕ → ℕ
number i j bytes = le_value (cut i j bytes)

-- `bytes[i]`, of bytes whose length the search for the report has fixed.
abbrev pub at : ℕ → List ℕ → ℕ
at i bytes = get_or bytes i 0
