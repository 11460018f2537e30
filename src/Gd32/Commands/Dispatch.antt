-- ===== src/Gd32/Commands/Dispatch.antt =====
-- commands.rs: `handle_component_control` and `send_command`.
use Prim.Native.String.{String}
use text.Mathlib.Text.{◌==◌}
use vacuum_tiger.Prelude.{ℕ, Bool, true, if◌then◌else◌}
use vacuum_tiger.Types.{
  Floats, ComponentAction, Command, component_control, protocol_sync, shutdown,
}
use vacuum_tiger.Gd32.Packet
use vacuum_tiger.Gd32.State.{ComponentState}
use vacuum_tiger.Gd32.Commands.Link.{not_implemented, Link, Result, ok, err, send_packet, Port}
use vacuum_tiger.Gd32.Commands.Handlers.{
  handle_speed_component, handle_drive, handle_led, handle_lidar, handle_imu, handle_compass,
  handle_cliff_ir, handle_main_board, handle_charger, handle_mcu,
}

module _ (fl : Floats) where
  open fl use {F32}

  abbrev pub store_vacuum : ℕ → ComponentState F32 → ComponentState F32
  store_vacuum speed s = record s { vacuum = speed }

  abbrev pub store_main_brush : ℕ → ComponentState F32 → ComponentState F32
  store_main_brush speed s = record s { main_brush = speed }

  abbrev pub store_side_brush : ℕ → ComponentState F32 → ComponentState F32
  store_side_brush speed s = record s { side_brush = speed }

  abbrev pub store_water_pump : ℕ → ComponentState F32 → ComponentState F32
  store_water_pump speed s = record s { water_pump = speed }

  unfoldable pub handle_component_control : String → ComponentAction fl → Link F32 → Result F32
  handle_component_control id action l =
      if id == "drive"
      then handle_drive fl action l
      else if id == "vacuum"
      then handle_speed_component fl store_vacuum Packet.set_air_pump action l
      else if id == "main_brush"
      then handle_speed_component fl store_main_brush Packet.set_main_brush action l
      else if id == "side_brush"
      then handle_speed_component fl store_side_brush Packet.set_side_brush action l
      else if id == "water_pump"
      then handle_speed_component fl store_water_pump Packet.set_water_pump action l
      else if id == "led"
      then handle_led fl action l
      else if id == "lidar"
      then handle_lidar fl action l
      else if id == "imu"
      then handle_imu fl action l
      else if id == "compass"
      then handle_compass fl action l
      else if id == "cliff_ir"
      then handle_cliff_ir fl action l
      else if id == "main_board"
      then handle_main_board fl action l
      else if id == "charger"
      then handle_charger fl action l
      else if id == "mcu"
      then handle_mcu fl action l
      else err not_implemented l

  -- The arguments of a call: the port, the component state and the shutdown flag. The packet is new.
  unfoldable pub send_command : Command fl → Port → ComponentState F32 → Bool → Result F32
  send_command cmd port state flag =
      let l : Link F32 = record { port = port; state = state; pkt = Packet.new; shutdown = flag } in
      elim cmd [
        | component_control id action ↦ handle_component_control id action l
        | protocol_sync ↦ send_packet F32 (record l { pkt = Packet.protocol_sync_packet })
        | shutdown ↦ ok (record l { shutdown = true })
      ]
