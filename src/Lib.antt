-- ===== src/Lib.antt =====
-- The drivers of SangamIO, the hardware daemon of VacuumTiger (sangamio/): the protocols that they speak
-- on serial lines, and the state machines that decide when motors may run.
--
-- The program. sangamio owns the robot's hardware and passes sensor values and commands to the
-- navigation programs (dhruva-nav, dhruva-slam, vastu-slam) over the network. It has two devices. The
-- CRL-200S (sangamio/src/devices/crl200s) has a GD32 motor controller and a laser sensor, each on a
-- serial line: a reader thread parses what the controller sends, and a heartbeat thread sends the
-- commands of the shared component state every 20 ms to feed the controller's watchdog. The Roborock
-- S5 Max (sangamio/src/devices/roborock_s5max) has an MCU that speaks an escaped binary protocol, and a
-- laser sensor; a lifecycle says how far the driver has come, and a safety controller lets nonzero
-- targets through only while it is operational and revokes a drive target that is not renewed.
--
-- The files, with the code that each models:
--   Types           the values and commands of core/types.rs
--   Gd32/Constants, Gd32/Checksum   crl200s/constants.rs and `checksum` of crl200s/gd32/packet.rs
--   Gd32/Packet     `TxPacket` of crl200s/gd32/packet.rs: Core (the buffer, `finalize`), Commands (the
--                   setters), Factory (the fixed packets); Frames and Wire have the wire format and
--                   the theorems
--   Gd32/Reader     `PacketReader` and `RxPacket` of crl200s/gd32/protocol.rs: Core, and the theorems
--                   in Steps, RoundTrip and Safety
--   Gd32/State      `ComponentState` of crl200s/gd32/state.rs
--   Gd32/Heartbeat  `heartbeat_loop` of crl200s/gd32/heartbeat.rs: Core has one round and the loop,
--                   Cycles and Watchdog what they send
--   Gd32/Commands   `send_command` and the handlers of crl200s/gd32/commands.rs: Link (the port and the
--                   errors), Handlers and Dispatch; State, Demand, Latest and Stop have the theorems
--   Gd32/Sensors    `handle_status_packet` of crl200s/gd32/reader.rs: Core; Reads has the theorem
--   RevoLds         `RevoLdsPacketReader` of crl200s/revo_lds/protocol.rs: Core, and the theorems in
--                   Outcome, Returns and Agreement
--   Delta2D         crl200s/delta2d: Core (`Delta2DPacketReader` of protocol.rs) and Driver (`reader_loop`
--                   of mod.rs); Outcome, Settles, Whole, Account and Drain have the theorems
--   S5Max/Crc, S5Max/Decoder  `crc8` and `FrameDecoder::push` of roborock_s5max/packet.rs; Unescape,
--                   Rounds, Extend, Chunks and RoundTrip have the theorems
--   S5Max/Reports   the rest of roborock_s5max/packet.rs: Ids, Wire (`EmbeddedReports`), Decode and Fields
--                   (the report decoders), Log (the log lines); RoundTrip and EndToEnd have the theorems
--   S5Max/Frame     `encode_binary_frame` of roborock_s5max/frame.rs
--   S5Max/Commands  roborock_s5max/commands.rs: Core, and Sent with the theorem
--   S5Max/Mcu       roborock_s5max/mcu.rs: Acks (what is awaited and sent again) and Core (the guard and
--                   the commands of the actuators); Asked says what each command asks of the port, and
--                   Retries, Frames, Stop, Sends, Sound, Drive and Obeys have the theorems
--   S5Max/Lifecycle `Lifecycle` of roborock_s5max/lifecycle.rs
--   S5Max/Safety    `SafetyController` of roborock_s5max/safety.rs
--   S5Max/Lds       roborock_s5max/lds.rs: Packet, Stream (`LdsDecoder`) and Revolution (the builder and
--                   the assembler); Reading says what a stream holds; Account and Seen have
--                   the theorems
--   Prelude         the libraries' names, Boolean tests, byte lists, searches and exclusive or
-- Each part has a module Tests with concrete inputs.
--
-- The correspondence. A struct is a record with the source's fields and an enum a data type; a method on
-- `&mut self` takes the value and returns the new one, beside its result. A byte or a wider integer is a
-- natural number, with `% 2 ^ w` where the source can wrap; an array is a list of its length, and a
-- signed argument is its bit pattern. An index or a slice that can be out of range is a result of its
-- own (`none` or `panic`) in Gd32, in the frame decoder and in the assembler of revolutions. The parsers of
-- the laser sensors and the decoders of reports test the length first; there an index is total, with 0
-- beyond the end. A mutex that can be poisoned is a Boolean field beside the value that it guards, and an
-- instant is a number of nanoseconds that the caller passes. A method of the lifecycle is one step, but
-- for `transition`, which has room for the calls of other threads between its two locks.
--
-- The loops. `while` loops run on fuel: one more than the length of the buffer, which every round that
-- goes on makes shorter. A run out of fuel is the result `stuck`, which the theorems rule out. The fuel of
-- the Delta-2D's reads is any number within which one of them does not fill the buffer of 2048 bytes; as
-- long as each does, the source's loop goes on.
--
-- What stands outside. The serial ports, the clock and the threads are not code of the repository: what
-- they deliver is an argument. The arithmetic on f32 is a parameter: `Optics` in RevoLds/Core, `Floats`
-- in Types and in Delta2D/Core, the type F32 in Gd32/State, and `Velocity` in S5Max/Safety, a type with a
-- zero and a test for it, which `WireVelocity` in S5Max/Commands extends by the bytes on the wire. The
-- conversions of the GD32's battery byte are parameters of Gd32/Sensors. The signed numbers and the f32
-- of a report are their bit patterns. The pairs of loops that bring an angle between 0 and 2π, in both
-- laser drivers, are in the parameters `point`, `normalized` and `mounted`, as total functions: that they
-- end is assumed, and fails for a configured offset so large that adding 2π does not change it. A round of
-- the heartbeat is modelled while no other thread writes the component state. The thread of the Delta-2D
-- reads the clock once per packet in the model.
--
-- Not modelled: the starting and stopping of threads and the reading of devices, which are system
-- calls, with the session loop of the Roborock's MCU and the packet loop of the GD32; the configuration
-- but for the axis transforms; the mapping of the Roborock's reports to sensor values; the streaming,
-- whose messages are a protobuf library's; and the navigation programs, which work on floating point.
pub mod Prelude
pub mod Types
pub mod Gd32
pub mod S5Max
pub mod RevoLds
pub mod Delta2D
