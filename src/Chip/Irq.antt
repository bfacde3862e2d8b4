-- ===== src/Chip/Irq.antt =====
-- KSZ8851/servicetool/ksz8851.c: `ksz8851IrqHandler`, which runs in the interrupt, and
-- `ksz8851EventHandler`, which the unit process runs afterwards.
use driver_amiga_os_ks.Prelude.{
  ℕ, ◌+◌, ◌/◌, ◌%◌, ◌^◌, Bool, true, false, has, not16, bit_and, bit_or, ◌==◌, if◌then◌else◌,
}
use driver_amiga_os_ks.Chip.Reg.{
  reg_isr, reg_ier, reg_pmecr, reg_p1sr, reg_rxfctr, isr_lcis, isr_txis, isr_rxis, isr_rxois,
  isr_ldis, ier_lcie, ier_txie, ier_rxie, ier_rxoie, ier_ldie, p1sr_link_good, p1sr_operation_speed,
  p1sr_operation_duplex,
}
use driver_amiga_os_ks.Chip.Bus.{
  M, pure, ◌>>=◌, ◌>>◌, disable, enable, read_reg, write_reg, set_bit,
}
use driver_amiga_os_ks.Chip.Receive.{receive_packets}

-- One `if(isr & source)` of the handler: the action on the chip, then `ier &= ~enable`. The result
-- is the new `ier` and the new `signaled`.
unfoldable pub handle : ℕ → ℕ → ℕ → M (Unit {0}) → ℕ × Bool → M (ℕ × Bool)
handle isr source enabled action (ier, signaled) =
    if has isr source
    then (action >> pure (bit_and ier (not16 enabled), true))
    else pure (ier, signaled)

unfoldable pub handle_sources : ℕ → ℕ → M Bool
unfolding handle write_reg set_bit
handle_sources isr ier = do
  write_reg reg_ier 0
  s₁ ← handle isr isr_lcis ier_lcie (pure tt) (ier, false)
  s₂ ← handle isr isr_txis ier_txie (write_reg reg_isr isr_txis) s₁
  s₃ ← handle isr isr_rxis ier_rxie (pure tt) s₂
  s₄ ← handle isr isr_rxois ier_rxoie (pure tt) s₃
  s₅ ← handle isr isr_ldis ier_ldie (set_bit reg_pmecr 8) s₄
  write_reg reg_ier s₅.0
  pure s₅.1

unfoldable pub irq_handler : M Bool
unfolding handle_sources read_reg
irq_handler = do
  isr ← read_reg reg_isr
  ier ← read_reg reg_ier
  (if bit_and isr ier == 0 then pure false else handle_sources isr ier)

abbrev pub speed_100mbps : ℕ
speed_100mbps = 100

abbrev pub speed_10mbps : ℕ
speed_10mbps = 10

abbrev pub full_duplex_mode : ℕ
full_duplex_mode = 1

abbrev pub half_duplex_mode : ℕ
half_duplex_mode = 2

-- The link state that the PHY status shows. Speed and mode stay when the link is down.
unfoldable pub update_link : ℕ → M (Unit {0})
update_link status n =
    if has status p1sr_link_good
    then (
      tt,
      record n {
        link_speed = if has status p1sr_operation_speed then speed_100mbps else speed_10mbps;
        duplex_mode =
            if has status p1sr_operation_duplex then full_duplex_mode else half_duplex_mode;
        link_state = true;
      },
    )
    else (tt, record n { link_state = false })

-- `if (interface->linkChangeFunction) interface->linkChangeFunction(interface)`
unfoldable pub notify_link_change : M (Unit {0})
notify_link_change n =
    if n.link_change_function then (tt, record n { link_changes = n.link_changes + 1 }) else (tt, n)

unfoldable pub count_overrun : M (Unit {0})
count_overrun n = (tt, record n { rx_overrun = (n.rx_overrun + 1) % 2 ^ 32 })

-- The branch for a changed link. The result is `status`, which the branch overwrites with the PHY
-- status, and `enableMask`.
unfoldable pub link_event : ℕ → M (ℕ × ℕ)
unfolding update_link notify_link_change read_reg write_reg
link_event status =
    if has status isr_lcis
    then (do
      write_reg reg_isr isr_lcis
      phy ← read_reg reg_p1sr
      update_link phy
      notify_link_change
      pure (phy, ier_lcie))
    else pure (status, 0)

unfoldable pub receive_event : ℕ × ℕ → M ℕ
unfolding read_reg write_reg receive_packets
receive_event (status, enable_mask) =
    if has status isr_rxis
    then (do
      write_reg reg_isr isr_rxis
      rxfctr ← read_reg reg_rxfctr
      receive_packets (bit_and (rxfctr / 256) 0xff)
      pure (bit_or enable_mask ier_rxie))
    else pure enable_mask

unfoldable pub overrun_event : ℕ → ℕ → M ℕ
unfolding set_bit count_overrun
overrun_event status enable_mask =
    if has status isr_rxois
    then (do count_overrun; set_bit reg_isr isr_rxois; pure (bit_or enable_mask ier_rxoie))
    else pure enable_mask

-- The two last branches, which test `status` with masks of the interrupt enable register.
unfoldable pub other_events : ℕ → ℕ → M ℕ
unfolding notify_link_change
other_events status enable_mask = do
  mask ←
      (if has status ier_ldie
        then (notify_link_change >> pure (bit_or enable_mask ier_ldie))
        else pure enable_mask)
  pure (if has status ier_txie then bit_or mask ier_txie else mask)

unfoldable pub event_handler : M Bool
unfolding link_event receive_event overrun_event other_events read_reg set_bit
event_handler = do
  disable
  isr ← read_reg reg_isr
  s ← link_event isr
  m₁ ← receive_event s
  m₂ ← overrun_event s.0 m₁
  m₃ ← other_events s.0 m₂
  set_bit reg_ier m₃
  enable
  pure false
