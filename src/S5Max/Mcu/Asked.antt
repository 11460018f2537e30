-- ===== src/S5Max/Mcu/Asked.antt =====
-- mcu.rs: what each command of the actuators asks of the port, independent of the code that sends it.
use vacuum_tiger.Prelude.{
  ℕ, ◌+◌, ◌/◌, ◌%◌, ◌^◌, ◌≤◌, ◌≡◌, refl, sym, ap, ◌∙◌, Bool, true, false, not, ◌&&◌, List, [], ◌∷◌,
  ◌++◌, append-nil, append_assoc, map, length, length-append, All, ◌==◌, if◌then◌else◌, Bool-cases,
  inl, inr, arith,
}
use vacuum_tiger.S5Max.Frame.{ok, encode_binary_frame}
use vacuum_tiger.S5Max.Decoder.{Frame, pushed}
use vacuum_tiger.S5Max.Decoder.Chunks.{push_all}
use vacuum_tiger.S5Max.Decoder.RoundTrip.{wire, frame_for, encode_all-wires, push_all-frame_for}
use vacuum_tiger.S5Max.Commands.{WireVelocity, envelope, next_tx_sequence}
use vacuum_tiger.S5Max.Commands.Sent.{envelope_encoded}
use vacuum_tiger.S5Max.Mcu.Core.{
  ActuatorCommand, wake_mcu, enable_subsystem, drive, stop_drive, fan, main_brush, side_brush,
  water_pump, charger, emergency_stop, McuSafetyGuard,
}

-- A request to the MCU: the command's number, whether it asks for an acknowledgement, and its bytes.
pub record Request : Type 0 where
  pub command : ℕ
  pub request_ack : Bool
  pub bytes : List ℕ

abbrev pub request : ℕ → Bool → List ℕ → Request
request command request_ack bytes = record {
  command = command;
  request_ack = request_ack;
  bytes = bytes;
}

abbrev pub wake : Request
wake = request 0xb0 false (0x73 ∷ 0x79 ∷ 0x73 ∷ 0x5f ∷ 0x6d ∷ 0x64 ∷ 0 ∷ 0 ∷ [])

-- A subsystem by its bit, with bit 0 for on.
abbrev pub enable : ℕ → Request
enable n =
    let v = n + 1 in
    request 0xb1 true (v % 256 ∷ v / 256 % 256 ∷ v / 2 ^ 16 % 256 ∷ v / 2 ^ 24 % 256 ∷ [])

-- A motor with its subsystem: a target of zero needs no subsystem.
abbrev pub motor : ℕ → ℕ → ℕ → List Request
motor command subsystem target =
    let asked = request command true (target ∷ 0 ∷ []) in
    if target == 0 then asked ∷ [] else enable subsystem ∷ asked ∷ []

-- The requests as payloads, with the sequence numbers from `n` on.
abbrev pub payloads : ℕ → List Request → List (List ℕ)
payloads n [] = []
payloads n (r ∷ rs) = envelope n r.command r.request_ack r.bytes ∷ payloads (next_tx_sequence n) rs

abbrev pub sequence_after : ℕ → List Request → ℕ
sequence_after n [] = n
sequence_after n (r ∷ rs) = sequence_after (next_tx_sequence n) rs

payloads-append :
    (n : ℕ) (rs ss : List Request)
    → payloads n (rs ++ ss) ≡ payloads n rs ++ payloads (sequence_after n rs) ss
payloads-append n [] ss = refl
payloads-append n (r ∷ rs) ss =
    ap (λ ps. envelope n r.command r.request_ack r.bytes ∷ ps)
      (payloads-append (next_tx_sequence n) rs ss)

sequence_after-append :
    (n : ℕ) (rs ss : List Request)
    → sequence_after n (rs ++ ss) ≡ sequence_after (sequence_after n rs) ss
sequence_after-append n [] ss = refl
sequence_after-append n (r ∷ rs) ss = sequence_after-append (next_tx_sequence n) rs ss

map-append : (ps qs : List (List ℕ)) → map wire (ps ++ qs) ≡ map wire ps ++ map wire qs
map-append [] qs = refl
map-append (p ∷ ps) qs = ap (λ t. wire p ∷ t) (map-append ps qs)

module _ (w : WireVelocity) where
  open w use {velocity, to_le_bytes, four_bytes}
  open velocity use {Carrier, zero, is_zero}

  abbrev pub wheels : Carrier → Carrier → ℕ → Request
  wheels linear angular forced =
      request 0xc0 false (to_le_bytes linear ++ to_le_bytes angular ++ (forced ∷ 0 ∷ 0 ∷ 0 ∷ []))

  -- The requests of a command, and whether the drive was active before it: a drive at rest is woken
  -- and enabled before it gets a velocity other than zero.
  abbrev pub requests : ActuatorCommand w → Bool → List Request
  requests wake_mcu active = wake ∷ []
  requests (enable_subsystem n) active = enable n ∷ []
  requests (drive linear angular) active =
      if active
      then wheels linear angular 0 ∷ []
      else if is_zero linear && is_zero angular
      then wheels linear angular 0 ∷ []
      else wake ∷ enable 0x400 ∷ wheels linear angular 0 ∷ []
  requests stop_drive active = wheels zero zero 1 ∷ []
  requests (fan target) active = motor 0xc1 0x200 target
  requests (main_brush target) active = motor 0xc3 0x80 target
  requests (side_brush target) active = motor 0xc4 0x100 target
  requests (water_pump on off) active = request 0xbf false (on ∷ off ∷ []) ∷ []
  requests (charger enabled) active = request 0xb7 true ((if enabled then 1 else 0) ∷ []) ∷ []
  requests emergency_stop active =
      wheels zero zero 1
      ∷ request 0xc1 true (0 ∷ 0 ∷ [])
      ∷ request 0xc4 true (0 ∷ 0 ∷ [])
      ∷ request 0xc3 true (0 ∷ 0 ∷ [])
      ∷ request 0xbf false (0 ∷ 0 ∷ [])
      ∷ []

  -- Whether the drive is active behind a command.
  abbrev pub active_after : ActuatorCommand w → Bool → Bool
  active_after (drive linear angular) active = not (is_zero linear && is_zero angular)
  active_after stop_drive active = false
  active_after emergency_stop active = false
  active_after c active = active

  -- What a call has handed to the port, and the sequence number behind it.
  abbrev pub Puts : McuSafetyGuard w → List Request → McuSafetyGuard w → Type 0
  Puts g rs g' =
      (g'.tty.written ≡ g.tty.written ++ map wire (payloads g.next_sequence rs))
      × (g'.next_sequence ≡ sequence_after g.next_sequence rs)

  pub Puts-nil : (g : McuSafetyGuard w) → Puts g [] g
  Puts-nil g = (sym (append-nil g.tty.written), refl)

  pub Puts-append :
      (g g' g'' : McuSafetyGuard w) (rs ss : List Request)
      → Puts g rs g'
      → Puts g' ss g''
      → Puts g (rs ++ ss) g''
  Puts-append g g' g'' rs ss (a, n) (b, m) =
      let k = g.next_sequence in
      let front = map wire (payloads k rs) in
      (
        b
            ∙ ap (λ i. g'.tty.written ++ map wire (payloads i ss)) n
            ∙ ap (λ t. t ++ map wire (payloads (sequence_after k rs) ss)) a
            ∙ append_assoc g.tty.written front (map wire (payloads (sequence_after k rs) ss))
            ∙ ap (λ t. g.tty.written ++ t)
                (sym (
                  ap (λ ps. map wire ps) (payloads-append k rs ss)
                  ∙ map-append (payloads k rs) (payloads (sequence_after k rs) ss))),
        m ∙ ap (λ i. sequence_after i ss) n ∙ sym (sequence_after-append k rs ss),
      )

  abbrev IsShort : Request → Type 0
  IsShort r = length r.bytes ≤ 247

  wheels-IsShort : (linear angular : Carrier) (forced : ℕ) → IsShort (wheels linear angular forced)
  wheels-IsShort linear angular forced =
      let a = to_le_bytes linear in
      let b = to_le_bytes angular in
      let c = forced ∷ 0 ∷ 0 ∷ 0 ∷ [] in
      omega (
        arith,
        four_bytes linear,
        four_bytes angular,
        length-append (a ++ b) c,
        length-append a (b ++ c),
        length-append a b,
        length-append b c,
      )

  motor-IsShort : (command subsystem target : ℕ) → All IsShort (motor command subsystem target)
  motor-IsShort command subsystem target = elim (Bool-cases (target == 0)) [
    | inl y ↦ rw y (omega arith, tt)
    | inr n ↦ rw n (omega arith, (omega arith, tt))
  ]

  requests-IsShort : (c : ActuatorCommand w) (active : Bool) → All IsShort (requests c active)
  requests-IsShort wake_mcu active = (omega arith, tt)
  requests-IsShort (enable_subsystem n) active = (omega arith, tt)
  requests-IsShort (drive linear angular) true = (wheels-IsShort linear angular 0, tt)
  requests-IsShort (drive linear angular) false =
      elim (Bool-cases (is_zero linear && is_zero angular)) [
        | inl y ↦ rw y (wheels-IsShort linear angular 0, tt)
        | inr n ↦ rw n (omega arith, (omega arith, (wheels-IsShort linear angular 0, tt)))
      ]
  requests-IsShort stop_drive active = (wheels-IsShort zero zero 1, tt)
  requests-IsShort (fan target) active = motor-IsShort 0xc1 0x200 target
  requests-IsShort (main_brush target) active = motor-IsShort 0xc3 0x80 target
  requests-IsShort (side_brush target) active = motor-IsShort 0xc4 0x100 target
  requests-IsShort (water_pump on off) active = (omega arith, tt)
  requests-IsShort (charger enabled) active = (omega arith, tt)
  requests-IsShort emergency_stop active =
      (wheels-IsShort zero zero 1, (omega arith, (omega arith, (omega arith, (omega arith, tt)))))

  payloads-encoded :
      (n : ℕ) (rs : List Request)
      → All IsShort rs
      → All (λ p. 3 ≤ length p) (payloads n rs)
        × All (λ p. encode_binary_frame p ≡ ok (wire p)) (payloads n rs)
  payloads-encoded n [] h = (tt, tt)
  payloads-encoded n (r ∷ rs) (l, h) =
      let (a, b) = payloads-encoded (next_tx_sequence n) rs h in
      ((omega arith, a), (envelope_encoded n r.command r.request_ack r.bytes l, b))

  -- The port has been handed frames from which an empty decoder gets the payloads of the requests, in
  -- order, and the next sequence number is the one behind theirs.
  abbrev pub Hears : McuSafetyGuard w → List Request → McuSafetyGuard w → Type 0
  Hears g rs g' =
      (frames : List (List ℕ)) × (decoded : List Frame) × (g'.tty.written ≡ g.tty.written ++ frames)
      × (push_all [] ([] ∷ frames) ≡ pushed decoded [])
      × (map (λ f. f.payload) decoded ≡ payloads g.next_sequence rs)
      × (g'.next_sequence ≡ sequence_after g.next_sequence rs)

  same_payloads : (ps : List (List ℕ)) → map (λ f. f.payload) (map frame_for ps) ≡ ps
  same_payloads [] = refl
  same_payloads (p ∷ ps) = ap (λ t. p ∷ t) (same_payloads ps)

  pub Hears-Puts :
      (c : ActuatorCommand w) (g g' : McuSafetyGuard w)
      → Puts g (requests c g.drive_active) g'
      → Hears g (requests c g.drive_active) g'
  Hears-Puts c g g' (a, n) =
      let ps = payloads g.next_sequence (requests c g.drive_active) in
      let (long, sent) =
        payloads-encoded g.next_sequence (requests c g.drive_active)
          (requests-IsShort c g.drive_active) in
      (
        map wire ps,
        map frame_for ps,
        a,
        push_all-frame_for ps [] (map wire ps) long (encode_all-wires ps sent),
        same_payloads ps,
        n,
      )
