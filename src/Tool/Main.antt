-- ===== src/Tool/Main.antt =====
-- KSZ8851/servicetool/main.c: waiting for the link, sending, and `main`.
--
-- `Wait` and `Delay` are the operating system's: a wake-up is one element of a list. What is printed
-- does not count as an effect; the callback for a changed link only prints, too.
use driver_amiga_os_ks.Prelude.{
  ℕ, Bool, true, false, [], ◌∷◌, none, some, zero, suc, ◌&&◌, List, Option, if◌then◌else◌, ◌+◌, has,
  ltb, get_or, bit_or, ◌-◌, length,
}
use driver_amiga_os_ks.Chip.Bus.{◌>>=◌, ◌>>◌, pure, M, read_reg, disable, write_reg, enable}
use driver_amiga_os_ks.Chip.Fifo.{Bytes}
use driver_amiga_os_ks.Tool.{
  Options, Parsed, parse_args, ℤ, options, pos, default_options, negsuc, usage, null_argument,
}
use driver_amiga_os_ks.Chip.Interface.{deinit}
use driver_amiga_os_ks.Chip.Irq.{event_handler}
use driver_amiga_os_ks.Chip.Init.{init, soft_reset, is_zero, set_mode, default_station_address}
use driver_amiga_os_ks.Chip.Multicast.{set_multicast_filter}
use driver_amiga_os_ks.Config.{Text}
use driver_amiga_os_ks.Chip.Send.{send_packet}
use driver_amiga_os_ks.Tool.Output.{print_ccr, print_mac}
use driver_amiga_os_ks.Chip.Reg.{reg_ier, reg_rxfdpr, rxfdpr_ems}

abbrev pub pkt_len : ℕ
pkt_len = 1514

-- `TEST_PACKET` with the NUL behind it
abbrev pub test_packet : List ℕ
test_packet =
    0xff ∷ 0xff ∷ 0xff ∷ 0xff ∷ 0xff ∷ 0xff ∷ 0x38 ∷ 0xc9 ∷ 0x86 ∷ 0x58 ∷ 0x1b ∷ 0x4a ∷ 0x08 ∷ 0x06
    ∷ 0x00 ∷ 0x01 ∷ 0x08 ∷ 0x00 ∷ 0x06 ∷ 0x04 ∷ 0x00 ∷ 0x01 ∷ 0x38 ∷ 0xc9 ∷ 0x86 ∷ 0x58 ∷ 0x1b
    ∷ 0x4a ∷ 0xc0 ∷ 0xa8 ∷ 0x12 ∷ 0x04 ∷ 0x00 ∷ 0x00 ∷ 0x00 ∷ 0x00 ∷ 0x00 ∷ 0x00 ∷ 0xc0 ∷ 0xa8
    ∷ 0x12 ∷ 0x3b ∷ 0x00 ∷ []

-- The buffer of `sendPackets`: the test packet with the station address as its source, and behind it
-- what the stack held.
unfoldable pub packet_buffer : Bytes → Bytes
packet_buffer stack_memory i =
    if ltb i 6
    then get_or test_packet i 0
    else if ltb i 12
    then get_or default_station_address (i - 6) 0
    else if ltb i (length test_packet)
    then get_or test_packet i 0
    else stack_memory i

-- `pktCount < countOfPackets`
unfoldable pub is_below : ℕ → ℤ → Bool
is_below n (pos k) = ltb n k
is_below n (negsuc k) = false

-- `do { … } while (pktCount < countOfPackets)`. The result is `pktCount`, `none` without enough fuel.
unfoldable pub packet_loop : ℕ → Bytes → ℕ → ℤ → M (Option ℕ)
packet_loop zero buffer pkt_count count_of_packets = pure none
packet_loop (suc fuel) buffer pkt_count count_of_packets = do
  send_packet buffer pkt_len
  (if is_below (pkt_count + 1) count_of_packets
      then packet_loop fuel buffer (pkt_count + 1) count_of_packets
      else pure (some (pkt_count + 1)))

-- Rounds in which the loop ends.
abbrev pub enough : ℤ → ℕ
enough (pos k) = suc k
enough (negsuc k) = 1

-- The interrupts of the chip are off while it sends.
unfoldable pub send_packets : ℕ → Bytes → ℤ → M (Option ℕ)
unfolding read_reg write_reg packet_buffer packet_loop
send_packets fuel stack_memory count_of_packets = do
  old_ier ← read_reg reg_ier
  write_reg reg_ier 0
  sent ← packet_loop fuel (packet_buffer stack_memory) 0 count_of_packets
  write_reg reg_ier old_ier
  pure sent

-- `Disable(); …; Enable();` around the event handler
unfoldable pub guarded_events : M (Unit {0})
unfolding event_handler
guarded_events = do disable; event_handler; enable

unfoldable pub link_is_up : M Bool
link_is_up n = (n.link_state, n)

-- `do { … } while(! interface->linkState)`, over the number of wake-ups that come; the result tells
-- whether the link came up.
unfoldable pub wait_nic_is_up : ℕ → M Bool
unfolding guarded_events link_is_up
wait_nic_is_up zero = pure false
wait_nic_is_up (suc wakeups) = do
  guarded_events
  up ← link_is_up
  (if up then pure true else wait_nic_is_up wakeups)

-- The loop of `main`, over the signal masks that `Wait` gives; the result tells whether it was left.
unfoldable pub event_loop : ℕ → List ℕ → M Bool
unfolding guarded_events
event_loop sigbreakf_ctrl_c [] = pure false
event_loop sigbreakf_ctrl_c (mask ∷ masks) =
    if has mask sigbreakf_ctrl_c
    then pure true
    else (guarded_events >> event_loop sigbreakf_ctrl_c masks)

-- `switchEndianessMode`
unfoldable pub switch_chip_mode : Bool → M (Unit {0})
unfolding read_reg write_reg set_mode
switch_chip_mode big_endian = do
  value ← read_reg reg_rxfdpr
  write_reg reg_rxfdpr (if big_endian then bit_or value rxfdpr_ems else value)
  set_mode big_endian

-- What the operating system and the user give to a run of the tool.
pub record Run : Type 0 where
  pub memory : Option (List ℕ)  -- the receive buffer
  pub stack_memory : Bytes
  pub wakeups : ℕ  -- while the tool waits for the link
  pub masks : List ℕ  -- of the wake-ups after that
  pub sigbreakf_ctrl_c : ℕ

-- Where a run ends: the calls of `exit`, the end of `main`, or a wait that nothing has ended.
pub data Exit : Type 0 where
  usage_shown conflicting was_reset was_switched not_found interrupted : Exit
  waiting crashed : Exit

unfoldable pub run_loops : Run → Options → M Exit
unfolding event_loop wait_nic_is_up send_packets
run_loops run o = do
  up ← (if o.send then wait_nic_is_up run.wakeups else pure true)
  (if up
      then (do
        (if o.send
            then (send_packets (enough o.pkt_send_cnt) run.stack_memory o.pkt_send_cnt >> pure tt)
            else pure tt)
        left ← event_loop run.sigbreakf_ctrl_c run.masks
        pure (if left then interrupted else waiting))
      else pure waiting)

-- The part of `main` behind a successful `init`.
unfoldable pub run_found : Run → Options → M Exit
unfolding run_loops set_multicast_filter soft_reset switch_chip_mode print_ccr print_mac
run_found run o = do
  set_multicast_filter (o.multicasts_filter ∷ [])
  (if o.reset_cmd
      then (soft_reset 1 >> pure was_reset)
      else if o.switch_chip_to_big_endian
      then (switch_chip_mode true >> pure was_switched)
      else if o.switch_chip_to_little_endian
      then (switch_chip_mode false >> pure was_switched)
      else (do print_ccr; print_mac; run_loops run o))

unfoldable pub run_options : Run → Options → M Exit
unfolding run_found init
run_options run o =
    if o.switch_chip_to_big_endian && o.switch_chip_to_little_endian then pure conflicting else (do
      probing ← init run.memory
      (if is_zero probing then run_found run o else pure not_found))

unfoldable pub run_parsed : Run → Parsed → M Exit
unfolding run_options
run_parsed run usage = pure usage_shown
run_parsed run null_argument = pure crashed
run_parsed run (options o) = run_options run o

-- `interface->onPacketReceived = …; interface->linkChangeFunction = …;`
unfoldable pub set_callbacks : M (Unit {0})
set_callbacks n = (tt, record n { on_packet_received = true; link_change_function = true })

-- The exit handler.
unfoldable pub done : M (Unit {0})
unfolding deinit
done = deinit

-- Whether the program comes to its exit handler.
unfoldable pub has_ended : Exit → Bool
has_ended waiting = false
has_ended crashed = false
has_ended _ = true

unfoldable pub main : (Text → ℤ) → Run → List Text → M Exit
unfolding run_parsed set_callbacks done parse_args
main atoi run args = do
  set_callbacks
  exit ← run_parsed run (parse_args atoi args default_options)
  (if has_ended exit then done else pure tt)
  pure exit
