-- ===== src/Driver/Calm.antt =====
-- `Disable()` and `Enable()` in all that the device has the chip driver do.
use driver_amiga_os_ks.Chip.Send.{no_error, wrong_identifier}
use driver_amiga_os_ks.Prelude.{
  ℕ, Option, arith, List, suc, ◌+◌, ◌==◌, some, none, zero, ◌∷◌, [], length,
}
use driver_amiga_os_ks.Chip.Bus.{Nic, clear_bit, read_reg, set_bit, write_reg, disable, pure, ◌>>◌}
use driver_amiga_os_ks.Chip.Init.{
  configure_found, detect_loop, detect_nic_endiness, init, install_interrupt_handler, offline,
  online, perform_reset, reset_in_both_modes, set_network_address, soft_reset,
  uninstall_interrupt_handler, set_mode, switch_endianess_mode, allocate_rx_buffer, toggle_mode,
  configure, is_zero, write_rxfdpr,
}
use driver_amiga_os_ks.Chip.Balance.{
  IsCalm, Leads, Calm, leads-if, disable-IsCalm, send_packet-IsCalm, send_packet_cooked-IsCalm,
}
use driver_amiga_os_ks.Chip.Fifo.{Bytes}
use driver_amiga_os_ks.Chip.Reg.{reg_cider, reg_isr, reg_grr, rev_a3_id, grr_qmu_module_soft_rst}
use driver_amiga_os_ks.Driver.{run_call, run_calls, Platform, memory_of}
use driver_amiga_os_ks.Chip.Interface.{deinit}
use driver_amiga_os_ks.Device.Types.{LowLevelCall}
use driver_amiga_os_ks.Chip.Balance.Events.{event_handler-IsCalm}
use driver_amiga_os_ks.Chip.Wire.{prepend}

module _ (depth outer : ℕ) where
  reset_in_both_modes-Calm : Leads (Calm depth outer) reset_in_both_modes (Calm depth outer)
  unfolding reset_in_both_modes set_mode write_reg
  reset_in_both_modes-Calm n h = h

  detect-Calm : Leads (Calm depth outer) detect_nic_endiness (Calm depth outer)
  unfolding detect_nic_endiness read_reg toggle_mode
  detect-Calm n h =
      let id = read_reg reg_cider n in
      leads-if (Calm depth outer) (Calm depth outer) (id.0 == rev_a3_id) (pure no_error) _
        (λ n h. h) (λ n h. h) id.1 h

  detect_loop-Calm : (rounds : ℕ) → Leads (Calm depth outer) (detect_loop rounds) (Calm depth outer)
  unfolding detect_loop
  detect_loop-Calm zero n h = h
  detect_loop-Calm (suc rounds) n h =
      let found = detect_nic_endiness n in
      leads-if (Calm depth outer) (Calm depth outer) (is_zero found.0) (pure tt)
        (reset_in_both_modes >> detect_loop rounds) (λ n h. h)
        (λ n h. detect_loop-Calm rounds (reset_in_both_modes n).1 (reset_in_both_modes-Calm n h))
        found.1 (detect-Calm n h)

  perform_reset-Calm :
      (operation : ℕ) → Leads (Calm depth outer) (perform_reset operation) (Calm depth outer)
  unfolding perform_reset read_reg write_reg
  perform_reset-Calm operation n h =
      let old = read_reg reg_isr n in
      let n₁ =
        (write_reg reg_grr 0 (write_reg reg_grr operation (write_reg reg_isr 0 old.1).1).1).1 in
      let found = detect_nic_endiness n₁ in
      leads-if (Calm depth outer) (Calm depth outer) (is_zero found.0) (pure tt)
        (write_reg reg_isr old.0) (λ n h. h) (λ n h. h) found.1 (detect-Calm n₁ h)

  pub soft_reset-Calm :
      (operation : ℕ) → Leads (Calm depth outer) (soft_reset operation) (Calm depth outer)
  unfolding soft_reset
  soft_reset-Calm operation n h =
      let found = detect_nic_endiness n in
      leads-if (Calm depth outer) (Calm depth outer) (is_zero found.0) (pure tt)
        (perform_reset operation) (λ n h. h) (perform_reset-Calm operation) found.1
        (detect-Calm n h)

  configure_found-Calm :
      (memory : Option (List ℕ))
      → Leads (Calm depth outer) (configure_found memory) (Calm depth outer)
  unfolding configure_found switch_endianess_mode set_mode allocate_rx_buffer configure write_rxfdpr
      write_reg read_reg set_bit clear_bit
  configure_found-Calm none n h = h
  configure_found-Calm (some bytes) n h = h

module _ (depth outer : ℕ) where
  pub init-Calm :
      (memory : Option (List ℕ)) → Leads (Calm depth outer) (init memory) (Calm depth outer)
  unfolding init read_reg
  init-Calm memory n h =
      let inside = IsCalm (depth + 1) outer in
      let n₁ = (detect_loop 3 (disable n).1).1 in
      let n₂ = (soft_reset grr_qmu_module_soft_rst n₁).1 in
      let id = read_reg reg_cider n₂ in
      let done =
        leads-if inside inside (id.0 == rev_a3_id) (configure_found memory) (pure wrong_identifier)
          (configure_found-Calm (depth + 1) outer memory) (λ n h. h) id.1
          (soft_reset-Calm (depth + 1) outer grr_qmu_module_soft_rst n₁ (
            detect_loop-Calm (depth + 1) outer 3 (disable n).1 (disable-IsCalm depth outer n h))) in
      (omega (arith, done.0), done.1)

  pub install-Calm :
      (task signal : ℕ)
      → Leads (Calm depth outer) (install_interrupt_handler task signal) (Calm depth outer)
  unfolding install_interrupt_handler
  install-Calm task signal n (d, a) = (ground arith, ground arith)

  pub uninstall-Calm : Leads (Calm depth outer) uninstall_interrupt_handler (Calm depth outer)
  unfolding uninstall_interrupt_handler
  uninstall-Calm n (d, a) = (ground arith, ground arith)

  pub online-Calm :
      (task signal : ℕ) → Leads (Calm depth outer) (online task signal) (Calm depth outer)
  unfolding online set_bit read_reg write_reg
  online-Calm task signal n h =
      let installed = install-Calm task signal n h in (omega (arith, installed.0), installed.1)

  pub offline-Calm : Leads (Calm depth outer) offline (Calm depth outer)
  unfolding offline clear_bit read_reg write_reg
  offline-Calm n (d, a) = uninstall-Calm _ (omega (arith, d), a)

  pub set_network_address-Calm :
      (addr : Bytes) → Leads (Calm depth outer) (set_network_address addr) (Calm depth outer)
  unfolding set_network_address write_reg
  set_network_address-Calm addr n (d, a) = (omega (arith, d), a)

module _ (outer : ℕ) where
  abbrev Quiet : Nic → Type 0
  Quiet = IsCalm outer outer

  run_call-Quiet :
      (platform : Platform) (behind : Bytes) (call : LowLevelCall)
      → Leads Quiet (run_call platform behind call) Quiet
  unfolding run_call deinit
  run_call-Quiet platform behind (LowLevelCall.send_packet bytes k) n h =
      send_packet-IsCalm outer outer (prepend bytes behind) k n h
  run_call-Quiet platform behind (LowLevelCall.send_packet_cooked dst src packet_type bytes k) n h =
      send_packet_cooked-IsCalm outer outer (memory_of dst) (memory_of src) packet_type
        (prepend bytes behind) k n h
  run_call-Quiet platform behind LowLevelCall.init n h = init-Calm outer outer platform.memory n h
  run_call-Quiet platform behind LowLevelCall.online n h =
      online-Calm outer outer platform.task platform.signal n h
  run_call-Quiet platform behind LowLevelCall.offline n h = offline-Calm outer outer n h
  run_call-Quiet platform behind LowLevelCall.process_events n h = event_handler-IsCalm outer n h
  run_call-Quiet platform behind LowLevelCall.deinit n h = offline-Calm outer outer n h
  run_call-Quiet platform behind (LowLevelCall.set_network_address address) n h =
      set_network_address-Calm outer outer (memory_of address) n h

  -- Whatever calls the device makes, in whatever order: the chip driver leaves the depth of `Disable()`
  -- as it found it, and hands over every packet at that depth, if it did so before.
  pub run_calls-IsCalm :
      (platform : Platform) (calls : List LowLevelCall) (n : Nic)
      → IsCalm outer outer n
      → IsCalm outer outer (run_calls platform calls n).1
  unfolding run_calls
  run_calls-IsCalm platform [] n h = h
  run_calls-IsCalm platform (call ∷ calls) n h =
      run_call-Quiet platform (platform.stale (length calls)) call (run_calls platform calls n).1
        (run_calls-IsCalm platform calls n h)
