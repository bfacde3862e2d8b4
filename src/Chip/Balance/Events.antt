-- ===== src/Chip/Balance/Events.antt =====
-- The event handler: the depth of `Disable()` while the chip is served and while a packet is handed
-- over.
use driver_amiga_os_ks.Prelude.{
  ℕ, Bool, ◌+◌, arith, suc, bit_and, zero, has, ltb, ◌&&◌, if◌then◌else◌, leb, ◌/◌,
}
use driver_amiga_os_ks.Chip.Bus.{
  Nic, read_reg, set_bit, clear_bit, write_reg, get_data, disable, pure, enable,
}
use driver_amiga_os_ks.Chip.Receive.{
  deliver, fill_rx_buffer, receive_packet, receive_packets, receive_valid, release_frame,
  take_frame, rxfdpr_value, error_bits,
}
use driver_amiga_os_ks.Chip.Irq.{
  event_handler, link_event, other_events, overrun_event, receive_event, count_overrun,
  notify_link_change, update_link,
}
use driver_amiga_os_ks.Chip.Fifo.{read_words, read_fifo, dword_aligned}
use driver_amiga_os_ks.Chip.Balance.{IsCalm, Leads, leads-if, disable-IsCalm}
use driver_amiga_os_ks.Chip.Reg.{
  reg_rxfhbcr, reg_rxfhsr, reg_isr, reg_rxfctr, reg_rxfdpr, isr_rxis, rxfhbcr_rxbc_mask, reg_rxqcr,
  rxfhsr_rxfv, rxqcr_sda, eth_max_frame_size,
}
use driver_amiga_os_ks.Chip.Send.{invalid_packet}

module _ (outer : ℕ) where
  abbrev Inside : Nic → Type 0
  Inside = IsCalm (outer + 1) outer

  read_words-Inside : (big_endian : Bool) (k : ℕ) → Leads Inside (read_words big_endian k) Inside
  unfolding read_words
  read_words-Inside big_endian zero n h = h
  read_words-Inside big_endian (suc k) n h = read_words-Inside big_endian k (get_data n).1 h

  fill_rx_buffer-Inside : (length : ℕ) → Leads Inside (fill_rx_buffer length) Inside
  unfolding fill_rx_buffer read_fifo
  fill_rx_buffer-Inside length n h =
      read_words-Inside n.is_in_big_endian_mode (dword_aligned length) n h

  -- Outside, a packet is handed over at the caller's depth.
  deliver-IsCalm : (length : ℕ) → Leads (IsCalm outer outer) (deliver length) (IsCalm outer outer)
  unfolding deliver
  deliver-IsCalm length n (d, a) = (ground arith, ground arith)

  take_frame-Inside : (length : ℕ) → Leads Inside (take_frame length) Inside
  unfolding take_frame set_bit clear_bit read_reg write_reg
  take_frame-Inside length n h =
      let n₁ = (write_reg reg_rxfdpr (rxfdpr_value n.is_in_big_endian_mode) n).1 in
      let n₂ = (set_bit reg_rxqcr rxqcr_sda n₁).1 in
      let n₃ = (get_data (get_data (get_data n₂).1).1).1 in
      let filled = fill_rx_buffer-Inside length n₃ h in
      let n₄ = (clear_bit reg_rxqcr rxqcr_sda (fill_rx_buffer length n₃).1).1 in
      disable-IsCalm outer outer (deliver length (enable n₄).1).1
        (deliver-IsCalm length (enable n₄).1 (omega (arith, filled.0), filled.1))

  release_frame-Inside : Leads Inside release_frame Inside
  unfolding release_frame set_bit read_reg write_reg
  release_frame-Inside n h = h

  receive_valid-Inside : Leads Inside receive_valid Inside
  unfolding receive_valid read_reg
  receive_valid-Inside n h =
      let byte_count = read_reg reg_rxfhbcr n in
      let length = bit_and byte_count.0 rxfhbcr_rxbc_mask in
      leads-if Inside Inside (ltb 0 length && leb length (eth_max_frame_size + 4))
        (take_frame length) release_frame (take_frame-Inside length) release_frame-Inside
        byte_count.1 h

  receive_packet-Inside : Leads Inside receive_packet Inside
  unfolding receive_packet read_reg
  receive_packet-Inside n h =
      let frame_status = read_reg reg_rxfhsr n in
      leads-if Inside Inside (has frame_status.0 rxfhsr_rxfv) receive_valid
        (if has frame_status.0 error_bits then release_frame else pure invalid_packet)
        receive_valid-Inside
        (leads-if Inside Inside (has frame_status.0 error_bits) release_frame (pure invalid_packet)
          release_frame-Inside (λ n h. h))
        frame_status.1 h

  receive_packets-Inside : (count : ℕ) → Leads Inside (receive_packets count) Inside
  unfolding receive_packets
  receive_packets-Inside zero n h = h
  receive_packets-Inside (suc count) n h =
      receive_packets-Inside count (receive_packet n).1 (receive_packet-Inside n h)

  link_event-Inside : (status : ℕ) → Leads Inside (link_event status) Inside
  unfolding link_event update_link notify_link_change read_reg write_reg
  link_event-Inside status n (d, a) = (ground arith, ground arith)

  receive_event-Inside : (s : ℕ × ℕ) → Leads Inside (receive_event s) Inside
  unfolding receive_event read_reg write_reg
  receive_event-Inside (status, enable_mask) n h =
      leads-if Inside Inside (has status isr_rxis) _ (pure enable_mask)
        (λ n h.
          let rxfctr = read_reg reg_rxfctr (write_reg reg_isr isr_rxis n).1 in
          receive_packets-Inside (bit_and (rxfctr.0 / 256) 0xff) rxfctr.1 h)
        (λ n h. h) n h

  overrun_event-Inside : (status mask : ℕ) → Leads Inside (overrun_event status mask) Inside
  unfolding overrun_event count_overrun set_bit read_reg write_reg
  overrun_event-Inside status mask n (d, a) = (ground arith, ground arith)

  other_events-Inside : (status mask : ℕ) → Leads Inside (other_events status mask) Inside
  unfolding other_events notify_link_change
  other_events-Inside status mask n (d, a) = (ground arith, ground arith)

  -- The event handler leaves the depth of `Disable()` as it found it, and if every packet so far was
  -- handed over at that depth, so is every packet that it receives.
  pub event_handler-IsCalm :
      (n : Nic) → IsCalm outer outer n → IsCalm outer outer (event_handler n).1
  unfolding event_handler set_bit read_reg write_reg
  event_handler-IsCalm n h =
      let isr = read_reg reg_isr (disable n).1 in
      let s = link_event isr.0 isr.1 in
      let m₁ = receive_event s.0 s.1 in
      let m₂ = overrun_event s.0.0 m₁.0 m₁.1 in
      let done = other_events-Inside s.0.0 m₂.0 m₂.1 (
        overrun_event-Inside s.0.0 m₁.0 m₁.1 (
          receive_event-Inside s.0 s.1
            (link_event-Inside isr.0 isr.1 (disable-IsCalm outer outer n h)))) in
      (omega (arith, done.0), done.1)
