-- ===== src/Tool/Running.antt =====
-- A run of the tool: the depth of `Disable()`, and what conflicting options come to.
use driver_amiga_os_ks.Prelude.{
  ℕ, true, [], ◌∷◌, some, zero, suc, List, has, if◌then◌else◌, ◌+◌, arith, ◌&&◌, Bool, false,
  bit_and, not16,
}
use driver_amiga_os_ks.Chip.Bus.{
  Nic, read_reg, write_reg, disable, pure, ◌>>◌, Access, command_word, store, command, load,
}
use driver_amiga_os_ks.Tool.Main.{
  event_loop, guarded_events, run_loops, packet_loop, send_packets, wait_nic_is_up, Run, link_is_up,
  is_below, packet_buffer, waiting, enough, pkt_len, main, run_found, run_options, run_parsed,
  switch_chip_mode, set_callbacks, conflicting, done, has_ended, not_found, was_reset, was_switched,
}
use driver_amiga_os_ks.Chip.Fifo.{Bytes}
use driver_amiga_os_ks.Chip.Balance.{IsCalm, Leads, leads-if, disable-IsCalm, send_packet-IsCalm}
use driver_amiga_os_ks.Tool.{
  Options, ℤ, Parsed, options, usage, null_argument, parse_args, default_options,
}
use driver_amiga_os_ks.Chip.Balance.Events.{event_handler-IsCalm}
use driver_amiga_os_ks.Chip.Reg.{reg_ier, rxcr1_rxe, reg_rxcr1, txcr_txe, reg_txcr}
use driver_amiga_os_ks.Chip.Send.{send_packet}
use driver_amiga_os_ks.Chip.Init.{set_mode, init, is_zero, soft_reset}
use driver_amiga_os_ks.Chip.Multicast.{set_multicast_filter}
use driver_amiga_os_ks.Tool.Output.{print_ccr, print_mac}
use driver_amiga_os_ks.Chip.Interface.{deinit}
use driver_amiga_os_ks.Config.{Text}
use driver_amiga_os_ks.Driver.Calm.{init-Calm, soft_reset-Calm, offline-Calm}

-- Interrupts are enabled, and packets are handed over at depth 1.
abbrev AtOne : Nic → Type 0
AtOne = IsCalm 0 1

guarded_events-AtOne : Leads AtOne guarded_events AtOne
unfolding guarded_events
guarded_events-AtOne n h =
    let handled = event_handler-IsCalm 1 (disable n).1 (disable-IsCalm 0 1 n h) in
    (omega (arith, handled.0), handled.1)

wait_nic_is_up-AtOne : (wakeups : ℕ) → Leads AtOne (wait_nic_is_up wakeups) AtOne
unfolding wait_nic_is_up link_is_up
wait_nic_is_up-AtOne zero n h = h
wait_nic_is_up-AtOne (suc wakeups) n h =
    let handled = (guarded_events n).1 in
    leads-if AtOne AtOne handled.link_state (pure true) (wait_nic_is_up wakeups) (λ n h. h)
      (wait_nic_is_up-AtOne wakeups) handled (guarded_events-AtOne n h)

event_loop-AtOne : (ctrl_c : ℕ) (masks : List ℕ) → Leads AtOne (event_loop ctrl_c masks) AtOne
unfolding event_loop
event_loop-AtOne ctrl_c [] n h = h
event_loop-AtOne ctrl_c (mask ∷ masks) n h =
    leads-if AtOne AtOne (has mask ctrl_c) (pure true) (guarded_events >> event_loop ctrl_c masks)
      (λ n h. h)
      (λ n h. event_loop-AtOne ctrl_c masks (guarded_events n).1 (guarded_events-AtOne n h)) n h

packet_loop-AtOne :
    (fuel : ℕ) (buffer : Bytes) (k : ℕ) (count : ℤ)
    → Leads AtOne (packet_loop fuel buffer k count) AtOne
unfolding packet_loop
packet_loop-AtOne zero buffer k count n h = h
packet_loop-AtOne (suc fuel) buffer k count n h =
    leads-if AtOne AtOne (is_below (k + 1) count) (packet_loop fuel buffer (k + 1) count)
      (pure (some (k + 1))) (packet_loop-AtOne fuel buffer (k + 1) count) (λ n h. h)
      (send_packet buffer pkt_len n).1 (send_packet-IsCalm 0 1 buffer pkt_len n h)

send_packets-AtOne :
    (fuel : ℕ) (stack_memory : Bytes) (count : ℤ)
    → Leads AtOne (send_packets fuel stack_memory count) AtOne
unfolding send_packets read_reg write_reg
send_packets-AtOne fuel stack_memory count n h =
    let old_ier = read_reg reg_ier n in
    packet_loop-AtOne fuel (packet_buffer stack_memory) 0 count (write_reg reg_ier 0 old_ier.1).1 h

run_loops-AtOne : (run : Run) (o : Options) → Leads AtOne (run_loops run o) AtOne
unfolding run_loops
run_loops-AtOne run o n h =
    let wait = if o.send then wait_nic_is_up run.wakeups else pure true in
    let up = wait n in
    leads-if AtOne AtOne up.0 _ (pure waiting)
      (λ n h.
        let sending =
          if o.send
          then (send_packets (enough o.pkt_send_cnt) run.stack_memory o.pkt_send_cnt >> pure tt)
          else pure tt in
        event_loop-AtOne run.sigbreakf_ctrl_c run.masks (sending n).1 (
          leads-if AtOne AtOne o.send
            (send_packets (enough o.pkt_send_cnt) run.stack_memory o.pkt_send_cnt >> pure tt)
            (pure tt) (send_packets-AtOne (enough o.pkt_send_cnt) run.stack_memory o.pkt_send_cnt)
            (λ n h. h) n h))
      (λ n h. h) up.1
      (leads-if AtOne AtOne o.send (wait_nic_is_up run.wakeups) (pure true)
        (wait_nic_is_up-AtOne run.wakeups) (λ n h. h) n h)

switch_chip_mode-AtOne : (big_endian : Bool) → Leads AtOne (switch_chip_mode big_endian) AtOne
unfolding switch_chip_mode read_reg write_reg set_mode
switch_chip_mode-AtOne big_endian n h = h

run_found-AtOne : (run : Run) (o : Options) → Leads AtOne (run_found run o) AtOne
unfolding run_found set_multicast_filter print_ccr print_mac read_reg write_reg
run_found-AtOne run o n h =
    leads-if AtOne AtOne o.reset_cmd (soft_reset 1 >> pure was_reset) _ (soft_reset-Calm 0 1 1)
      (leads-if AtOne AtOne o.switch_chip_to_big_endian (switch_chip_mode true >> pure was_switched)
        _ (switch_chip_mode-AtOne true)
        (leads-if AtOne AtOne o.switch_chip_to_little_endian
          (switch_chip_mode false >> pure was_switched) _ (switch_chip_mode-AtOne false)
          (λ n h. run_loops-AtOne run o (print_mac (print_ccr n).1).1 h)))
      (set_multicast_filter (o.multicasts_filter ∷ []) n).1 h

run_options-AtOne : (run : Run) (o : Options) → Leads AtOne (run_options run o) AtOne
unfolding run_options
run_options-AtOne run o n h =
    leads-if AtOne AtOne (o.switch_chip_to_big_endian && o.switch_chip_to_little_endian)
      (pure conflicting) _ (λ n h. h)
      (λ n h.
        let probing = init run.memory n in
        leads-if AtOne AtOne (is_zero probing.0) (run_found run o) (pure not_found)
          (run_found-AtOne run o) (λ n h. h) probing.1 (init-Calm 0 1 run.memory n h))
      n h

run_parsed-AtOne : (run : Run) (parsed : Parsed) → Leads AtOne (run_parsed run parsed) AtOne
unfolding run_parsed
run_parsed-AtOne run usage n h = h
run_parsed-AtOne run null_argument n h = h
run_parsed-AtOne run (options o) n h = run_options-AtOne run o n h

-- A run of the tool from any arguments, on any chip and with any wake-ups: it leaves interrupts enabled,
-- but each packet is handed to the tool while they are disabled once, by the tool itself, if this was so
-- before.
pub main-IsCalm :
    (atoi : Text → ℤ) (run : Run) (args : List Text) (n : Nic)
    → IsCalm 0 1 n
    → IsCalm 0 1 (main atoi run args n).1
unfolding main set_callbacks done deinit
main-IsCalm atoi run args n h =
    let ended = run_parsed run (parse_args atoi args default_options) (set_callbacks n).1 in
    leads-if AtOne AtOne (has_ended ended.0) done (pure tt) (offline-Calm 0 1) (λ n h. h) ended.1
      (run_parsed-AtOne run (parse_args atoi args default_options) (set_callbacks n).1 h)

-- What taking the driver offline does to the chip, the newest access first: interrupts are disabled, and
-- the enable bits of the transmitter and the receiver are cleared in what their registers hold.
abbrev pub offline_trace : Nic → List Access
offline_trace n =
    let word = command_word n.is_in_big_endian_mode in
    let txcr = n.answers n.reads in
    let rxcr1 = n.answers (suc n.reads) in
    store (bit_and rxcr1 (not16 rxcr1_rxe))
    ∷ command (word reg_rxcr1)
    ∷ load rxcr1
    ∷ command (word reg_rxcr1)
    ∷ store (bit_and txcr (not16 txcr_txe))
    ∷ command (word reg_txcr)
    ∷ load txcr
    ∷ command (word reg_txcr)
    ∷ store 0
    ∷ command (word reg_ier)
    ∷ []
