-- ===== src/S5Max/Lds/Stream.antt =====
-- lds.rs: `LdsDecoder`.
use vacuum_tiger.Prelude.{
  ℕ, zero, suc, ◌+◌, ◌%◌, ◌^◌, Option, none, some, List, [], ◌∷◌, ◌++◌, length, take, drop,
  position, ltb, ◌==◌, if◌then◌else◌,
}
use vacuum_tiger.S5Max.Lds.Packet.{sync, packet_length, LdsPacket, parse, checksum_valid}

pub record LdsDecoder : Type 0 where
  pub buffer : List ℕ
  pub discarded : ℕ

abbrev pub new : LdsDecoder
new = record { buffer = []; discarded = 0 }

-- `self.discarded += n as u64; self.buffer.drain(..n)`.
abbrev pub discard : ℕ → LdsDecoder → LdsDecoder
discard n d = record { buffer = drop n d.buffer; discarded = (d.discarded + n) % 2 ^ 64 }

-- What one round of the loop does: leave it, go on, or push a packet and go on.
pub data Round : Type 0 where
  leave : LdsDecoder → Round
  go_on : LdsDecoder → Round
  push_packet : LdsPacket → LdsDecoder → Round

-- `filter(|packet| packet.checksum_valid(&raw))`.
unfoldable pub checked : List ℕ → Option LdsPacket → Option LdsPacket
checked raw none = none
checked raw (some p) = if checksum_valid p raw then some p else none

unfoldable pub accept : LdsDecoder → Option LdsPacket → Round
accept d (some p) = push_packet p (record d { buffer = drop packet_length d.buffer })
accept d none = go_on (discard 1 d)

unfoldable pub at_sync : LdsDecoder → Round
at_sync d =
    if ltb (length d.buffer) packet_length
    then leave d
    else (let raw = take packet_length d.buffer in accept d (checked raw (parse raw)))

unfoldable pub round : LdsDecoder → Round
round d = elim (position (λ byte. byte == sync) d.buffer) [
  | none ↦ leave (record { buffer = []; discarded = (d.discarded + length d.buffer) % 2 ^ 64 })
  | some start ↦ at_sync (discard start d)
]

-- The packets and the decoder after a call; `stuck` means that the fuel ran out.
pub data Pushed : Type 0 where
  pushed : List LdsPacket → LdsDecoder → Pushed
  stuck : Pushed

abbrev pub prepend : LdsPacket → Pushed → Pushed
prepend p (pushed ps d) = pushed (p ∷ ps) d
prepend p stuck = stuck

unfoldable pub push_loop : ℕ → LdsDecoder → Pushed
push_loop zero d = stuck
push_loop (suc fuel) d = elim (round d) [
  | leave d' ↦ pushed [] d'
  | go_on d' ↦ push_loop fuel d'
  | push_packet p d' ↦ prepend p (push_loop fuel d')
]

-- Each round that goes on takes a byte off the buffer.
unfoldable pub push : LdsDecoder → List ℕ → Pushed
push d bytes =
    let d' = record d { buffer = d.buffer ++ bytes } in push_loop (suc (length d'.buffer)) d'
