-- ===== src/S5Max/Reports/RoundTrip.antt =====
-- packet.rs: the stream of reports read back.
use vacuum_tiger.Prelude.{
  ℕ, zero, suc, ◌<◌, ◌≡◌, refl, sym, ap, ◌∙◌, true, false, ◌&&◌, Option, none, some, List, [], ◌∷◌,
  ◌++◌, append_assoc, length, take, leb, ◌==◌, if◌then◌else◌, Bool-cases, Option-cases, inl, inr,
  le→leb, leb→le, leb→lt, arith, length-append, take-length_append, drop-length_append, drop, ◌⊎◌,
  take-append-drop, length-drop, length-take,
}
use mathlib.Core.Path.{subst}
use vacuum_tiger.S5Max.Decoder.{Frame}
use vacuum_tiger.S5Max.Reports.Wire.{
  EmbeddedReport, next_report, collect, is_state_report, remaining, reports, embedded_reports,
}
use vacuum_tiger.S5Max.Reports.Decode.{
  SystemMode, normal, idle, factory, manual_built_in_test, automatic_built_in_test, mobility_test,
  shutdown, reserved_rejected, energy_efficiency, retreading_factory, start_key_only_boot,
  watchdog_reset_no_dock, pin_reset_no_dock, software_reset_no_dock, dock_only_boot,
  watchdog_reset_docked, pin_reset_docked, software_reset_docked,
  ap_power_on_after_communication_failure, unknown, from_wire,
}

-- The sender of a stream of reports: the message, the length and the bytes of each.
abbrev pub encode : List EmbeddedReport → List ℕ
encode [] = []
encode (r ∷ rs) = r.message ∷ length r.bytes ∷ (r.bytes ++ encode rs)

next_report-encode :
    (r : EmbeddedReport) (rest : List ℕ)
    → next_report (r.message ∷ length r.bytes ∷ (r.bytes ++ rest)) ≡ some (r, rest)
unfolding next_report
next_report-encode r rest =
    rw
      (
        le→leb (length r.bytes) (length (r.bytes ++ rest))
            (omega (arith, length-append r.bytes rest)),
        take-length_append r.bytes rest,
        drop-length_append r.bytes rest,
      )
      refl

nothing : next_report [] ≡ none
unfolding next_report
nothing = refl

collect-none :
    (fuel : ℕ) (bytes : List ℕ) → next_report bytes ≡ none → collect (suc fuel) bytes ≡ []
unfolding collect
collect-none fuel bytes e = rw (collect, e) refl

collect-some :
    (fuel : ℕ) (bytes rest : List ℕ) (r : EmbeddedReport)
    → next_report bytes ≡ some (r, rest)
    → collect (suc fuel) bytes ≡ r ∷ collect fuel rest
unfolding collect
collect-some fuel bytes rest r e = rw (collect, e) refl

pub collect-encode :
    (fuel : ℕ) (rs : List EmbeddedReport) (tail : List ℕ)
    → next_report tail ≡ none
    → length (encode rs ++ tail) < fuel
    → collect fuel (encode rs ++ tail) ≡ rs
collect-encode zero rs tail e h = absurd (omega arith)
collect-encode (suc fuel) [] tail e h = collect-none fuel tail e
collect-encode (suc fuel) (r ∷ rs) tail e h =
    let bytes = r.bytes ++ (encode rs ++ tail) in
    ap (λ b. collect (suc fuel) (r.message ∷ length r.bytes ∷ b))
      (append_assoc r.bytes (encode rs) tail)
    ∙ collect-some fuel (r.message ∷ length r.bytes ∷ bytes) (encode rs ++ tail) r
        (next_report-encode r (encode rs ++ tail))
    ∙ ap (λ t. r ∷ t)
        (collect-encode fuel rs tail e (
          omega (
            arith,
            length-append (r.bytes ++ encode rs) tail,
            length-append r.bytes (encode rs),
            length-append (encode rs) tail,
          )))

-- What a step reads is what the sender wrote, and less remains.
abbrev Reads : List ℕ → Option (EmbeddedReport × List ℕ) → Type 0
Reads bytes none = next_report bytes ≡ none
Reads bytes (some (r, rest)) =
    (bytes ≡ r.message ∷ length r.bytes ∷ (r.bytes ++ rest)) × (length rest < length bytes)

next_report-Reads : (bytes : List ℕ) → Reads bytes (next_report bytes)
unfolding next_report
next_report-Reads [] = refl
next_report-Reads (m ∷ []) = refl
next_report-Reads (m ∷ n ∷ bytes) = elim (Bool-cases (leb n (length bytes))) [
  | inr n' ↦ rw (n', n') refl
  | inl y ↦
      let l = leb→le n (length bytes) y in
      let cut : length (take n bytes) ≡ n = omega (arith, length-take n bytes) in
      rw y (rw (cut, take-append-drop n bytes) refl, omega (arith, length-drop n bytes))
]

-- Bytes that hold no whole report: fewer than the two of a report's head, or fewer behind the head
-- than it announces.
abbrev pub TooShort : List ℕ → Type 0
TooShort [] = Unit {0}
TooShort (m ∷ []) = Unit {0}
TooShort (m ∷ size ∷ rest) = length rest < size

next_report-TooShort : (bytes : List ℕ) → next_report bytes ≡ none → TooShort bytes
unfolding next_report
next_report-TooShort [] e = tt
next_report-TooShort (m ∷ []) e = tt
next_report-TooShort (m ∷ n ∷ bytes) e = elim (Bool-cases (leb n (length bytes))) [
  | inr few ↦ leb→lt n (length bytes) few
  | inl y ↦ let z : ◌≡◌ {A = Option (EmbeddedReport × List ℕ)} (some _) none = rw y at e in cc
]

-- A parse that leaves nothing out: the bytes are the reports as a sender writes them, and a rest
-- that holds no whole report.
abbrev Lossless : List ℕ → List EmbeddedReport → Type 0
Lossless bytes rs = (tail : List ℕ) × (bytes ≡ encode rs ++ tail) × TooShort tail

collect-Lossless :
    (fuel : ℕ) (bytes : List ℕ) → length bytes < fuel → Lossless bytes (collect fuel bytes)
collect-Lossless zero bytes h = absurd (omega arith)
collect-Lossless (suc fuel) bytes h = elim (Option-cases (next_report bytes)) [
  | inl n ↦ rw (collect-none fuel bytes n) (bytes, refl, next_report-TooShort bytes n)
  | inr ((r, rest), m) ↦
      let (e, l) = subst (λ o. Reads bytes o) m (next_report-Reads bytes) in
      let (tail, e', n) = collect-Lossless fuel rest (omega arith) in
      rw (collect-some fuel bytes rest r m) (
        tail,
        e
            ∙ ap (λ b. r.message ∷ length r.bytes ∷ (r.bytes ++ b)) e'
            ∙ ap (λ b. r.message ∷ length r.bytes ∷ b)
                (sym (append_assoc r.bytes (encode (collect fuel rest)) tail)),
        n,
      )
]

-- Where the reports of a frame start: behind the 66 bytes of the fixed part of a periodic state
-- frame (message 0x07, command 0x40), and at the first byte of any other frame.
abbrev pub start : Frame → ℕ
start f = if f.message == 0x07 && f.command == 0x40 then 66 else 0

remaining-start :
    (f : Frame)
    → f.is_log ≡ false
    → remaining f ≡ (if leb (start f) (length f.payload) then drop (start f) f.payload else [])
unfolding remaining is_state_report
remaining-start f l = rw l refl

reports-log : (f : Frame) → f.is_log ≡ true → reports f ≡ []
unfolding reports remaining is_state_report collect next_report
reports-log f l = rw l refl

-- A frame yields no reports if it is a log, or too short for the fixed part of a state frame.
-- Otherwise its reports lose nothing: the payload is the fixed part (66 bytes of a state frame, none
-- of another), the yielded reports as a sender writes them (message, length, bytes), in order, and a
-- tail that is shorter than the head of a report or than the report that its head announces.
pub reports-Lossless :
    (f : Frame)
    → (((f.is_log ≡ true) ⊎ (length f.payload < start f)) × (reports f ≡ []))
      ⊎ ((f.is_log ≡ false)
          × (fixed : List ℕ) × (tail : List ℕ) × (f.payload ≡ fixed ++ (encode (reports f) ++ tail))
          × (length fixed ≡ start f)
          × TooShort tail)
unfolding reports
reports-Lossless f = elim (Bool-cases f.is_log) [
  | inl l ↦ inl (inl l, reports-log f l)
  | inr l ↦ elim (Bool-cases (leb (start f) (length f.payload))) [
    | inr short ↦
        let e : remaining f ≡ [] = remaining-start f l ∙ rw short refl in
        inl (inr (leb→lt (start f) (length f.payload) short), rw e (collect-none 0 [] nothing))
    | inl y ↦
        let e : remaining f ≡ drop (start f) f.payload = remaining-start f l ∙ rw y refl in
        let (tail, split, h) =
          collect-Lossless (suc (length (remaining f))) (remaining f) (omega arith) in
        inr (
          l,
          take (start f) f.payload,
          tail,
          sym (take-append-drop (start f) f.payload)
              ∙ ap (λ b. take (start f) f.payload ++ b) (sym e ∙ split),
          omega (arith, length-take (start f) f.payload, leb→le (start f) (length f.payload) y),
          h,
        )
  ]
]

-- A frame whose report bytes are those of a sender, and a rest that starts with no whole report,
-- yields exactly the reports sent, in order.
pub reports-encode :
    (f : Frame) (rs : List EmbeddedReport) (tail : List ℕ)
    → remaining f ≡ encode rs ++ tail
    → next_report tail ≡ none
    → reports f ≡ rs
unfolding reports
reports-encode f rs tail e n =
    rw e (collect-encode (suc (length (encode rs ++ tail))) rs tail n (omega arith))

state_report-not_log : (f : Frame) → is_state_report f ≡ true → f.is_log ≡ false
unfolding is_state_report
state_report-not_log f y = elim (Bool-cases f.is_log) [
  | inr n ↦ n
  | inl l ↦ let z : false ≡ true = rw l at y in cc
]

-- The state-specific iterator yields the reports of a periodic state frame, and no report of any
-- other frame.
pub embedded_reports-reports :
    (f : Frame) → embedded_reports f ≡ (if is_state_report f then reports f else [])
unfolding embedded_reports reports remaining next_report
embedded_reports-reports f = elim (Bool-cases (is_state_report f)) [
  | inr n ↦ rw n refl
  | inl y ↦ rw (y, state_report-not_log f y) refl
]

-- The number that a mode stands for on the wire.
abbrev pub to_wire : SystemMode → ℕ
to_wire normal = 0x00
to_wire idle = 0x01
to_wire factory = 0x02
to_wire manual_built_in_test = 0x03
to_wire automatic_built_in_test = 0x04
to_wire mobility_test = 0x05
to_wire shutdown = 0x06
to_wire reserved_rejected = 0x07
to_wire energy_efficiency = 0x08
to_wire retreading_factory = 0x09
to_wire start_key_only_boot = 0x20
to_wire watchdog_reset_no_dock = 0x21
to_wire pin_reset_no_dock = 0x22
to_wire software_reset_no_dock = 0x23
to_wire dock_only_boot = 0x40
to_wire watchdog_reset_docked = 0x41
to_wire pin_reset_docked = 0x42
to_wire software_reset_docked = 0x43
to_wire ap_power_on_after_communication_failure = 0x44
to_wire (unknown v) = v

-- The mode decoded from a byte stands for that byte, of every one of the 19 known modes and of an
-- unknown byte, so that no two bytes are read as one mode.
pub to_wire-from_wire : (value : ℕ) → to_wire (from_wire value) ≡ value
unfolding from_wire
to_wire-from_wire value = ground arith
