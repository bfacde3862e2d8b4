-- ===== src/Driver.antt =====
-- The device on the chip: what the calls that KSZ8851/devicedriver/device.c makes through `NetInterface`
-- do in KSZ8851/servicetool/ksz8851.c, by the table `driverInterface`.
pub mod Calm
pub mod Frames
pub mod Sending
pub mod Receiving
pub mod Link
mod Tests
use driver_amiga_os_ks.Device.Types.{LowLevelCall}
use driver_amiga_os_ks.Prelude.{[], ◌∷◌, List, Option, ℕ, get_or, length}
use driver_amiga_os_ks.Chip.Bus.{M, pure, ◌>>◌}
use driver_amiga_os_ks.Chip.Send.{send_packet, send_packet_cooked}
use driver_amiga_os_ks.Chip.Fifo.{Bytes}
use driver_amiga_os_ks.Chip.Init.{init, online, offline, set_network_address}
use driver_amiga_os_ks.Chip.Irq.{event_handler}
use driver_amiga_os_ks.Chip.Interface.{deinit}
use driver_amiga_os_ks.Chip.Wire.{prepend}

-- What the operating system gives to `init` and `online`: the receive buffer, the running task and a
-- signal. `stale` is what lies in memory behind the packet of a call, with so many calls before it: the
-- chip driver reads on there for a short payload and an odd byte.
pub record Platform : Type 0 where
  pub memory : Option (List ℕ)
  pub task : ℕ
  pub signal : ℕ
  pub stale : ℕ → Bytes

-- An address as the memory that a pointer leads to; no code reads behind its end.
abbrev pub memory_of : List ℕ → Bytes
memory_of bytes i = get_or bytes i 0

module _ (platform : Platform) where
  -- `lowLevelDriver->…`; the device drops what the functions return.
  unfoldable pub run_call : Bytes → LowLevelCall → M (Unit {0})
  run_call behind (LowLevelCall.send_packet bytes n) =
      send_packet (prepend bytes behind) n >> pure tt
  run_call behind (LowLevelCall.send_packet_cooked dst src packet_type bytes n) =
      send_packet_cooked (memory_of dst) (memory_of src) packet_type (prepend bytes behind) n
      >> pure tt
  run_call behind LowLevelCall.init = init platform.memory >> pure tt
  run_call behind LowLevelCall.online = online platform.task platform.signal
  run_call behind LowLevelCall.offline = offline
  run_call behind LowLevelCall.process_events = event_handler >> pure tt
  run_call behind LowLevelCall.deinit = deinit
  run_call behind (LowLevelCall.set_network_address address) =
      set_network_address (memory_of address)

  -- The calls that a unit has made, which stand newest first, in the order in which it made them.
  unfoldable pub run_calls : List LowLevelCall → M (Unit {0})
  run_calls [] = pure tt
  run_calls (call ∷ calls) = run_calls calls >> run_call (platform.stale (length calls)) call
