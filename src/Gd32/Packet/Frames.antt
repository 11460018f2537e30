-- ===== src/Gd32/Packet/Frames.antt =====
-- packet.rs: what every command of `TxPacket` puts on the wire.
use vacuum_tiger.Prelude.{
  ℕ, ◌+◌, ◌/◌, ◌%◌, ◌≤◌, ◌≡◌, refl, sym, List, [], ◌∷◌, ◌++◌, length, write_nil, arith,
}
use mathlib.Core.Path.{subst}
use vacuum_tiger.Gd32.Constants.{sync_byte_1, sync_byte_2}
use vacuum_tiger.Gd32.Checksum.{checksum}
use vacuum_tiger.Gd32.Packet.Core.{TxPacket, new, as_bytes, header, fill, finalize}

-- The wire format [FA FB] [LEN] [CMD] [PAYLOAD] [CRC_H] [CRC_L], as the module's header gives it.
abbrev pub frame : ℕ → List ℕ → List ℕ
frame cmd payload =
    let crc = checksum (cmd ∷ payload) in
    sync_byte_1
    ∷ sync_byte_2
    ∷ (length payload + 3)
    ∷ cmd
    ∷ (payload ++ (crc / 256 % 256 ∷ crc % 256 ∷ []))

-- The buffer has its size and starts with the sync bytes, whatever command stood in it before.
abbrev pub IsReady : TxPacket → Type 0
IsReady p = (t : List ℕ) × (p.buf ≡ sync_byte_1 ∷ sync_byte_2 ∷ t) × (length t ≡ 12)

-- The result of a command: a packet ready for the next one, whose bytes are the frame.
abbrev pub Sends : TxPacket → ℕ → List ℕ → Type 0
Sends p cmd payload = IsReady p × (as_bytes p ≡ frame cmd payload)

-- The bytes `t` are what earlier commands left behind the sync bytes.
build : ℕ → List ℕ → ℕ → List ℕ → TxPacket
unfolding header fill finalize
build cmd payload n t = finalize (length payload) (
    fill payload
      (header (length payload + 3) cmd (record { buf = sync_byte_1 ∷ sync_byte_2 ∷ t; len = n })))

at_buffer :
    (cmd : ℕ) (payload : List ℕ) (t0 t1 t2 t3 t4 t5 t6 t7 t8 t9 t10 t11 n : ℕ)
    → length payload ≤ 8
    → Sends
        (build cmd payload n (t0 ∷ t1 ∷ t2 ∷ t3 ∷ t4 ∷ t5 ∷ t6 ∷ t7 ∷ t8 ∷ t9 ∷ t10 ∷ t11 ∷ []))
        cmd
        payload
unfolding build as_bytes
at_buffer cmd [] t0 t1 t2 t3 t4 t5 t6 t7 t8 t9 t10 t11 n x = ((_, refl, refl), refl)
at_buffer cmd (a ∷ []) t0 t1 t2 t3 t4 t5 t6 t7 t8 t9 t10 t11 n x = ((_, refl, refl), refl)
at_buffer cmd (a ∷ b ∷ []) t0 t1 t2 t3 t4 t5 t6 t7 t8 t9 t10 t11 n x = ((_, refl, refl), refl)
at_buffer cmd (a ∷ b ∷ c ∷ []) t0 t1 t2 t3 t4 t5 t6 t7 t8 t9 t10 t11 n x = ((_, refl, refl), refl)
at_buffer cmd (a ∷ b ∷ c ∷ d ∷ []) t0 t1 t2 t3 t4 t5 t6 t7 t8 t9 t10 t11 n x =
    ((_, refl, refl), refl)
at_buffer cmd (a ∷ b ∷ c ∷ d ∷ e ∷ []) t0 t1 t2 t3 t4 t5 t6 t7 t8 t9 t10 t11 n x =
    ((_, refl, refl), refl)
at_buffer cmd (a ∷ b ∷ c ∷ d ∷ e ∷ f ∷ []) t0 t1 t2 t3 t4 t5 t6 t7 t8 t9 t10 t11 n x =
    ((_, refl, refl), refl)
at_buffer cmd (a ∷ b ∷ c ∷ d ∷ e ∷ f ∷ g ∷ []) t0 t1 t2 t3 t4 t5 t6 t7 t8 t9 t10 t11 n x =
    ((_, refl, refl), refl)
at_buffer cmd (a ∷ b ∷ c ∷ d ∷ e ∷ f ∷ g ∷ h ∷ []) t0 t1 t2 t3 t4 t5 t6 t7 t8 t9 t10 t11 n x =
    ((_, refl, refl), refl)
at_buffer cmd (a ∷ b ∷ c ∷ d ∷ e ∷ f ∷ g ∷ h ∷ i ∷ payload) t0 t1 t2 t3 t4 t5 t6 t7 t8 t9 t10 t11 n
      x =
    absurd (omega arith)

at_bytes :
    (cmd : ℕ) (payload t : List ℕ) (n : ℕ)
    → length payload ≤ 8
    → length t ≡ 12
    → Sends (build cmd payload n t) cmd payload
at_bytes cmd payload (t0 ∷ t1 ∷ t2 ∷ t3 ∷ t4 ∷ t5 ∷ t6 ∷ t7 ∷ t8 ∷ t9 ∷ t10 ∷ t11 ∷ []) n h e =
    at_buffer cmd payload t0 t1 t2 t3 t4 t5 t6 t7 t8 t9 t10 t11 n h
at_bytes cmd payload _ n h e = absurd (omega arith)

-- Every command of at most eight payload bytes, sent through a packet that is ready, is its frame.
pub finalize-Sends :
    (cmd : ℕ) (payload : List ℕ) (p : TxPacket)
    → length payload ≤ 8
    → IsReady p
    → Sends
        (finalize (length payload) (fill payload (header (length payload + 3) cmd p)))
        cmd
        payload
unfolding build
finalize-Sends cmd payload p h (t, e, k) =
    subst
      (λ b.
        Sends
          (finalize (length payload)
            (fill payload (header (length payload + 3) cmd (record { buf = b; len = p.len }))))
          cmd payload)
      (sym e) (at_bytes cmd payload t p.len h k)

fill-nil : (p : TxPacket) → fill [] p ≡ p
unfolding fill
fill-nil p = λ i. record { buf = write_nil 4 p.buf i; len = p.len }

-- The same of a command without payload, which writes nothing between its header and its checksum.
pub finalize-Sends_bare :
    (cmd : ℕ) (p : TxPacket) → IsReady p → Sends (finalize 0 (header 3 cmd p)) cmd []
unfolding header
finalize-Sends_bare cmd p h =
    subst (λ q. Sends (finalize 0 q) cmd []) (fill-nil (header 3 cmd p))
      (finalize-Sends cmd [] p (omega arith) h)

pub new-IsReady : IsReady new
new-IsReady = (_, refl, refl)
