-- ===== src/S5Max/Reports/EndToEnd.antt =====
-- frame.rs and packet.rs: the reports of a periodic state frame, from the sender to the reader.
use vacuum_tiger.Prelude.{
  ℕ, ◌+◌, ◌≤◌, ◌≡◌, refl, sym, ◌∙◌, Bool, true, false, ◌&&◌, List, [], ◌∷◌, ◌++◌, ◌==◌, length,
  append-nil, length-append, drop, drop-length_append, le→leb, arith,
}
use mathlib.Core.Path.{subst}
use vacuum_tiger.S5Max.Frame.{ok, encode_binary_frame}
use vacuum_tiger.S5Max.Frame.Laws.{body, expansions}
use vacuum_tiger.S5Max.Decoder.{Frame, pushed}
use vacuum_tiger.S5Max.Decoder.Chunks.{push_all, concat}
use vacuum_tiger.S5Max.Decoder.RoundTrip.{frame_for, encode_all-one, push_all-frame_for}
use vacuum_tiger.S5Max.Reports.Ids.{report_state_message, report_state_command, state_base_length}
use vacuum_tiger.S5Max.Reports.Wire.{
  EmbeddedReport, next_report, is_state_report, remaining, reports,
}
use vacuum_tiger.S5Max.Reports.RoundTrip.{encode, reports-encode}

-- The payload of a periodic state frame: its fixed part, whose first two bytes say what it is, and
-- the reports.
abbrev pub state_payload : List ℕ → List EmbeddedReport → List ℕ
state_payload fixed rs = report_state_message ∷ report_state_command ∷ (fixed ++ encode rs)

and-false : (a : Bool) → (a && false && false) ≡ false
and-false true = refl
and-false false = refl

remaining-state :
    (f : Frame)
    → f.is_log ≡ false
    → is_state_report f ≡ true
    → state_base_length ≤ length f.payload
    → remaining f ≡ drop state_base_length f.payload
unfolding remaining
remaining-state f l s h = rw (s, l, le→leb state_base_length (length f.payload) h) refl

remaining-frame_for :
    (fixed : List ℕ) (rs : List EmbeddedReport)
    → length fixed + 2 ≡ state_base_length
    → remaining (frame_for (state_payload fixed rs)) ≡ encode rs
unfolding remaining is_state_report
remaining-frame_for fixed rs h =
    let n : length fixed ≡ 64 = omega arith in
    let behind : drop 64 (fixed ++ encode rs) ≡ encode rs =
      subst (λ k. drop k (fixed ++ encode rs) ≡ encode rs) n
        (drop-length_append fixed (encode rs)) in
    let not_log = and-false (expansions (body (state_payload fixed rs)) + 1 == 0) in
    remaining-state (frame_for (state_payload fixed rs)) not_log (rw not_log refl)
      (omega (arith, length-append fixed (encode rs)))
    ∙ behind

-- A periodic state frame that is encoded with a fixed part of 66 bytes and any reports behind it,
-- and arrives in any chunks, comes out of an empty decoder as one frame, and the reports of that
-- frame are the reports sent, in order.
pub push_all-reports :
    (fixed : List ℕ) (rs : List EmbeddedReport) (c : List ℕ) (chunks : List (List ℕ))
    → length fixed + 2 ≡ state_base_length
    → encode_binary_frame (state_payload fixed rs) ≡ ok (c ++ concat chunks)
    → (f : Frame) × (push_all [] (c ∷ chunks) ≡ pushed (f ∷ []) []) × (reports f ≡ rs)
push_all-reports fixed rs c chunks h sent =
    let payload = state_payload fixed rs in
    (
      frame_for payload,
      push_all-frame_for (payload ∷ []) c chunks
          (omega (arith, length-append fixed (encode rs)), tt)
          (encode_all-one payload (c ++ concat chunks) sent),
      reports-encode (frame_for payload) rs []
          (remaining-frame_for fixed rs h ∙ sym (append-nil (encode rs)))
          (unfold next_report in refl),
    )
