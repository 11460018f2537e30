-- ===== src/Gd32/Packet/Core.antt =====
-- packet.rs: the buffer of `TxPacket`, `new`, `as_bytes` and `finalize`.
use vacuum_tiger.Prelude.{ℕ, ◌+◌, ◌-◌, ◌/◌, ◌%◌, List, take, drop, set, write, replicate}
use vacuum_tiger.Gd32.Constants.{sync_byte_1, sync_byte_2}
use vacuum_tiger.Gd32.Checksum.{checksum}

abbrev pub max_packet_size : ℕ
max_packet_size = 14

-- `buf` is the array `data`, of `max_packet_size` bytes.
pub record TxPacket : Type 0 where
  pub buf : List ℕ
  pub len : ℕ

abbrev pub new : TxPacket
new = record { buf = set (set (replicate max_packet_size 0) 0 sync_byte_1) 1 sync_byte_2; len = 0 }

unfoldable pub as_bytes : TxPacket → List ℕ
as_bytes p = take p.len p.buf

-- `self.data[2] = length; self.data[3] = cmd;`, the first two lines of every command.
unfoldable pub header : ℕ → ℕ → TxPacket → TxPacket
header length cmd p = record p { buf = set (set p.buf 2 length) 3 cmd }

-- `self.data[4..4 + n].copy_from_slice(payload)`, or `self.data[4] = byte`.
unfoldable pub fill : List ℕ → TxPacket → TxPacket
fill payload p = record p { buf = write 4 payload p.buf }

unfoldable pub finalize : ℕ → TxPacket → TxPacket
finalize payload_len p =
    let crc_pos = 4 + payload_len in
    let crc = checksum (take (crc_pos - 3) (drop 3 p.buf)) in
    record {
      buf = set (set p.buf crc_pos (crc / 256 % 256)) (crc_pos + 1) (crc % 256);
      len = crc_pos + 2;
    }
