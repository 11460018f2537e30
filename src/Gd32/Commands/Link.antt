-- ===== src/Gd32/Commands/Link.antt =====
-- commands.rs: what the handlers share: the port, the component state, and the packet of a call.
use vacuum_tiger.Prelude.{ℕ, Bool, true, not, List, [], ◌∷◌, ◌++◌, if◌then◌else◌}
use vacuum_tiger.Gd32.Packet.{TxPacket, as_bytes}
use vacuum_tiger.Gd32.State.{ComponentState}

-- The variants of error.rs that the handlers return, without their messages.
pub data Error : Type 0 where
  mutex_poisoned : Error
  io : Error
  not_implemented : Error
  invalid_parameter : Error

-- The serial port behind its mutex. `fails` says of each coming write whether it fails; none does
-- behind its end. `written` has the packets handed to the port, in order.
pub record Port : Type 0 where
  pub poisoned : Bool
  pub fails : List Bool
  pub written : List (List ℕ)

-- `TxPacket::send_to`: whether the write went through, and the port.
unfoldable pub send_to : TxPacket → Port → Bool × Port
send_to pkt p = elim p.fails [
  | [] ↦ (true, record p { written = p.written ++ (as_bytes pkt ∷ []) })
  | failed ∷ rest ↦
      (not failed, record p { fails = rest; written = p.written ++ (as_bytes pkt ∷ []) })
]

module _ (F32 : Type 0) where
  pub record Link : Type 0 where
    pub port : Port
    pub state : ComponentState F32
    pub pkt : TxPacket
    pub shutdown : Bool

  pub data Result : Type 0 where
    ok : Link → Result
    err : Error → Link → Result

  -- The state and the link that a call leaves, whatever its result.
  abbrev pub link : Result → Link
  link (ok l) = l
  link (err e l) = l

  abbrev pub with_state : (ComponentState F32 → ComponentState F32) → Link → Link
  with_state change l = record l { state = change l.state }

  -- A setter on the packet of the call.
  abbrev pub with_pkt : (TxPacket → TxPacket) → Link → Link
  with_pkt set l = record l { pkt = set l.pkt }

  -- `send_packet(port, pkt)` for the packet of the call.
  unfoldable pub send_packet : Link → Result
  send_packet l =
      let (sent, port) = send_to l.pkt l.port in
      if l.port.poisoned
      then err mutex_poisoned l
      else (if sent then ok (record l { port = port }) else err io (record l { port = port }))

  -- `let _ = pkt.send_to(..)`, with the guard held.
  unfoldable pub send_anyway : Link → Link
  send_anyway l = record l { port = (send_to l.pkt l.port).1 }

module _ {F32 : Type 0} where
  -- The operator `?`, where the value is `()`.
  infixl 5 ◌>>◌
  abbrev pub ◌>>◌ : Result F32 → (Link F32 → Result F32) → Result F32
  ok l >> next = next l
  err e l >> next = err e l
