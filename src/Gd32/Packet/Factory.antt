-- ===== src/Gd32/Packet/Factory.antt =====
-- packet.rs: the pre-configured packets.
use vacuum_tiger.Gd32.Packet.Core.{TxPacket, new}
use vacuum_tiger.Gd32.Packet.Commands.{
  set_heartbeat, set_motor_mode_nav, set_request_stm32, set_protocol_sync, set_initialize,
  set_version_request,
}

unfoldable pub heartbeat_packet : TxPacket
unfolding set_heartbeat
heartbeat_packet = set_heartbeat new

unfoldable pub motor_mode_nav_packet : TxPacket
unfolding set_motor_mode_nav
motor_mode_nav_packet = set_motor_mode_nav new

unfoldable pub request_stm32_packet : TxPacket
unfolding set_request_stm32
request_stm32_packet = set_request_stm32 new

unfoldable pub protocol_sync_packet : TxPacket
unfolding set_protocol_sync
protocol_sync_packet = set_protocol_sync new

unfoldable pub initialize_packet : TxPacket
unfolding set_initialize
initialize_packet = set_initialize new

unfoldable pub version_request_packet : TxPacket
unfolding set_version_request
version_request_packet = set_version_request new
