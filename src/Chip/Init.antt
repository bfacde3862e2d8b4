-- ===== src/Chip/Init.antt =====
-- KSZ8851/servicetool/ksz8851.c: detection, reset, `ksz8851Init`, going online and offline, and the
-- station address. KSZ8851/servicetool/isr.c: the interrupt server.
--
-- `Delay` and the debug output change no state of the driver and are left out.
use driver_amiga_os_ks.Prelude.{
  ℕ, zero, suc, ◌+◌, ◌-◌, ◌*◌, ◌%◌, ◌^◌, Bool, true, false, not, List, [], ◌∷◌, Option, none, some,
  bit_or, ◌==◌, if◌then◌else◌,
}
use driver_amiga_os_ks.Chip.Reg.{
  rev_a3_id, reg_marl, reg_marm, reg_marh, reg_grr, reg_txcr, reg_rxcr1, reg_rxcr2, reg_rxqcr,
  reg_txfdpr, reg_rxfdpr, reg_ier, reg_isr, reg_rxfctr, reg_cider, reg_p1cr,
  grr_qmu_module_soft_rst, grr_global_soft_rst, txcr_txfce, txcr_txpe, txcr_txce, txcr_txe,
  rxcr1_rxpafma, rxcr1_rxfce, rxcr1_rxbe, rxcr1_rxme, rxcr1_rxue, rxcr1_rxe, rxcr2_srdbl2,
  rxcr2_iuffp, rxcr2_rxiufcez, rxqcr_rxiphtoe, rxqcr_rxfcte, rxqcr_adrfe, txfdpr_txfpai, ier_lcie,
  ier_rxie, ier_rxoie, isr_lcis, isr_txis, isr_rxis, isr_rxois, isr_txpsis, isr_rxpsis, isr_txsais,
  isr_rxwfdis, isr_rxmpdis, isr_ldis, isr_edis, isr_spibeis, p1cr_restart_an, p1cr_force_duplex,
  rxfdpr_ems,
}
use driver_amiga_os_ks.Chip.Bus.{
  M, pure, ◌>>=◌, ◌>>◌, disable, enable, read_reg, write_reg, set_bit, clear_bit,
}
use driver_amiga_os_ks.Chip.Fifo.{Bytes}
use driver_amiga_os_ks.Chip.Send.{Error, no_error, wrong_identifier, out_of_memory, no_chip_found}
use driver_amiga_os_ks.Chip.Receive.{rxfdpr_value}
use driver_amiga_os_ks.Chip.Irq.{irq_handler}

unfoldable pub set_mode : Bool → M (Unit {0})
set_mode big_endian n = (tt, record n { is_in_big_endian_mode = big_endian })

unfoldable pub toggle_mode : M (Unit {0})
toggle_mode n = (tt, record n { is_in_big_endian_mode = not n.is_in_big_endian_mode })

-- `ksz8851DetectNICEndiness`, also the `probe` of the interface
unfoldable pub detect_nic_endiness : M Error
unfolding read_reg toggle_mode
detect_nic_endiness = do
  id ← read_reg reg_cider
  (if id == rev_a3_id then pure no_error else do
    toggle_mode
    again ← read_reg reg_cider
    pure (if again == rev_a3_id then no_error else no_chip_found))

-- `!error`: NO_ERROR is 0
abbrev pub is_zero : Error → Bool
is_zero no_error = true
is_zero _ = false

unfoldable pub switch_endianess_mode : Bool → M (Unit {0})
unfolding read_reg write_reg set_mode
switch_endianess_mode big_endian = do
  value ← read_reg reg_rxfdpr
  write_reg reg_rxfdpr (if big_endian then bit_or value rxfdpr_ems else value)
  set_mode big_endian

unfoldable pub perform_reset : ℕ → M (Unit {0})
unfolding detect_nic_endiness read_reg write_reg
perform_reset operation = do
  old_isr ← read_reg reg_isr
  write_reg reg_isr 0
  write_reg reg_grr operation
  write_reg reg_grr 0
  found ← detect_nic_endiness
  (if is_zero found then pure tt else write_reg reg_isr old_isr)

unfoldable pub soft_reset : ℕ → M (Unit {0})
unfolding perform_reset detect_nic_endiness
soft_reset operation = do
  found ← detect_nic_endiness
  (if is_zero found then pure tt else perform_reset operation)

-- One failed round of the detection loop: a global reset in both modes, ending in big endian mode.
unfoldable pub reset_in_both_modes : M (Unit {0})
unfolding set_mode write_reg
reset_in_both_modes = do
  set_mode false
  write_reg reg_grr grr_global_soft_rst
  write_reg reg_grr 0
  set_mode true
  write_reg reg_grr grr_global_soft_rst
  write_reg reg_grr 0

-- `do { … } while(tries--)`, on the number of rounds left: three from `tries = 2`
unfoldable pub detect_loop : ℕ → M (Unit {0})
unfolding detect_nic_endiness reset_in_both_modes
detect_loop zero = pure tt
detect_loop (suc rounds) = do
  found ← detect_nic_endiness
  (if is_zero found then pure tt else (reset_in_both_modes >> detect_loop rounds))

unfoldable pub allocate_rx_buffer : Option (List ℕ) → M (Unit {0})
allocate_rx_buffer memory n = (tt, record n { frame_id = 0; rx_buffer = memory })

unfoldable pub write_rxfdpr : M (Unit {0})
unfolding write_reg
write_rxfdpr n = write_reg reg_rxfdpr (rxfdpr_value n.is_in_big_endian_mode) n

unfoldable pub configure : M (Unit {0})
unfolding write_rxfdpr write_reg set_bit clear_bit
configure = do
  write_reg reg_txcr (bit_or txcr_txfce (bit_or txcr_txpe txcr_txce))
  write_reg reg_txfdpr txfdpr_txfpai
  write_reg reg_rxcr1
      (bit_or rxcr1_rxpafma (bit_or rxcr1_rxfce (bit_or rxcr1_rxbe (bit_or rxcr1_rxme rxcr1_rxue))))
  write_reg reg_rxcr2 (bit_or rxcr2_srdbl2 (bit_or rxcr2_iuffp rxcr2_rxiufcez))
  write_reg reg_rxqcr (bit_or rxqcr_rxfcte (bit_or rxqcr_adrfe rxqcr_rxiphtoe))
  write_rxfdpr
  write_reg reg_rxfctr 1
  clear_bit reg_p1cr p1cr_force_duplex
  set_bit reg_p1cr p1cr_restart_an

unfoldable pub configure_found : Option (List ℕ) → M Error
unfolding switch_endianess_mode allocate_rx_buffer configure
configure_found memory = do
  switch_endianess_mode true
  allocate_rx_buffer memory
  elim memory [ none ↦ pure out_of_memory | some _ ↦ (configure >> pure no_error) ]

-- `memory` is what `AllocVec` gives for the receive buffer.
unfoldable pub init : Option (List ℕ) → M Error
unfolding detect_loop soft_reset configure_found read_reg
init memory = do
  disable
  detect_loop 3
  soft_reset grr_qmu_module_soft_rst
  id ← read_reg reg_cider
  result ← (if id == rev_a3_id then configure_found memory else pure wrong_identifier)
  enable
  pure result

-- `(ULONG)-1`
abbrev pub no_signal : ℕ
no_signal = 2 ^ 32 - 1

-- `task` is the running task, and `signal` what `AllocSignal(-1)` gives to it.
unfoldable pub install_interrupt_handler : ℕ → ℕ → M Bool
install_interrupt_handler task signal n = elim n.signal_task [
  | some _ ↦ (true, n)
  | none ↦
      if signal == no_signal
      then (false, record n { signal_task = none; sig_number = signal })
      else (true, record n { signal_task = some task; sig_number = signal; int_server = true })
]

unfoldable pub uninstall_interrupt_handler : M (Unit {0})
uninstall_interrupt_handler n = elim n.signal_task [
  | some _ ↦ (
    tt,
    record n {
      signal_task = none;
      int_server = false;
      freed_signals = n.sig_number ∷ n.freed_signals;
      sig_number = no_signal;
    },
  )
  | none ↦ (tt, n)
]

unfoldable pub count_signal : M (Unit {0})
count_signal n = (tt, record n { signal_counter = (n.signal_counter + 1) % 2 ^ 32 })

unfoldable pub run_isr : M ℕ
unfolding irq_handler count_signal
run_isr = do ours ← irq_handler; (if ours then (count_signal >> pure 1) else pure 0)

-- The interrupt server: 1 ends the chain, 0 passes the interrupt on. Each count of `signalCounter`
-- is one `Signal` to the task.
unfoldable pub isr : M ℕ
unfolding run_isr
isr n = if n.int_disabled_counter == 0 then run_isr n else (0, n)

unfoldable pub online : ℕ → ℕ → M (Unit {0})
unfolding install_interrupt_handler set_bit
online task signal = do
  install_interrupt_handler task signal
  disable
  set_bit reg_isr (
      bit_or isr_lcis (
        bit_or isr_txis (
          bit_or isr_rxis (
            bit_or isr_rxois (
              bit_or isr_txpsis (
                bit_or isr_rxpsis (
                  bit_or isr_txsais (
                    bit_or isr_rxwfdis
                      (bit_or isr_rxmpdis (bit_or isr_ldis (bit_or isr_edis isr_spibeis)))))))))))
  set_bit reg_ier (bit_or ier_lcie (bit_or ier_rxie ier_rxoie))
  set_bit reg_txcr txcr_txe
  set_bit reg_rxcr1 rxcr1_rxe
  enable

unfoldable pub offline : M (Unit {0})
unfolding uninstall_interrupt_handler write_reg clear_bit
offline = do
  disable
  write_reg reg_ier 0
  clear_bit reg_txcr txcr_txe
  clear_bit reg_rxcr1 rxcr1_rxe
  enable
  uninstall_interrupt_handler

-- The 16-bit words of the address in memory; `htons` changes nothing on a big-endian processor.
unfoldable pub set_network_address : Bytes → M (Unit {0})
unfolding write_reg
set_network_address addr = do
  disable
  write_reg reg_marh (addr 0 * 256 + addr 1)
  write_reg reg_marm (addr 2 * 256 + addr 3)
  write_reg reg_marl (addr 4 * 256 + addr 5)
  enable

abbrev pub default_station_address : List ℕ
default_station_address = 0x02 ∷ 0x34 ∷ 0x56 ∷ 0x78 ∷ 0x9a ∷ 0xbc ∷ []
