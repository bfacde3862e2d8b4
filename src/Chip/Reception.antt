-- ===== src/Chip/Reception.antt =====
-- The frames that the receive loop of `ksz8851EventHandler`, KSZ8851/servicetool/ksz8851.c, hands over.
use mathlib.Core.List.{append_assoc}
use driver_amiga_os_ks.Prelude.{
  sym, ℕ, zero, suc, ◌+◌, ◌-◌, ◌%◌, Bool, true, ◌&&◌, List, [], ◌∷◌, ◌++◌, ◌≡◌, refl, ap, ◌∙◌, drop,
  has, bit_and, if◌then◌else◌, arith, subst,
}
use driver_amiga_os_ks.Chip.Bus.{
  ◌>>◌, Nic, Delivery, read_reg, write_reg, set_bit, clear_bit, get_data, pure, enable, disable,
}
use driver_amiga_os_ks.Chip.Receive.{
  receive_packet, receive_packets, receive_valid, release_frame, take_frame, fill_rx_buffer,
  deliver, contents, overwrite, error_bits, rxfdpr_value,
}
use driver_amiga_os_ks.Chip.Outcomes.{frame_length, is_acceptable, of-if}
use driver_amiga_os_ks.Chip.Send.{Error}
use driver_amiga_os_ks.Chip.Fifo.{read_fifo, dword_aligned, read_words}
use driver_amiga_os_ks.Chip.Reg.{
  rxfhsr_rxfv, reg_rxfdpr, reg_rxfhsr, reg_rxqcr, reg_rxfhbcr, rxqcr_sda, rxfhbcr_rxbc_mask,
}
use driver_amiga_os_ks.Chip.Transfer.{read_words_keeps}

-- The frame that the chip offers is marked as valid and of a length that the driver takes.
abbrev pub is_offered : Nic → Bool
is_offered n = has (n.answers n.reads) rxfhsr_rxfv && is_acceptable (frame_length n)

-- A frame of the length in the receive buffer, without the two bytes in front and the checksum behind.
abbrev pub frame_in : List ℕ → ℕ → ℕ → Delivery
frame_in buffer length disabled = record {
  buffer = drop 2 buffer;
  size = (length + 65536 - 6) % 65536;
  nesting = disabled - 1;
}

-- What a round hands over.
abbrev pub handed_over : Nic → List Delivery
handed_over n =
    if is_offered n
    then frame_in (contents (receive_packet n).1.rx_buffer) (frame_length n) n.disabled ∷ []
    else []

-- What so many rounds hand over, the newest first.
abbrev pub all_handed_over : ℕ → Nic → List Delivery
all_handed_over zero n = []
all_handed_over (suc rounds) n = all_handed_over rounds (receive_packet n).1 ++ handed_over n

-- What the driver does behind the FIFO.
abbrev pub behind_fifo : ℕ → List ℕ × Nic → Error × Nic
behind_fifo length (bytes, n) =
    (do clear_bit reg_rxqcr rxqcr_sda; enable; deliver length; disable; pure Error.no_error)
      (record n { rx_buffer = overwrite bytes n.rx_buffer })

-- What the driver does before the FIFO.
abbrev pub before_fifo : Nic → Nic
before_fifo n =
    ((do
      write_reg reg_rxfdpr (rxfdpr_value n.is_in_big_endian_mode)
      set_bit reg_rxqcr rxqcr_sda
      get_data
      get_data
      get_data)
      n).1

-- The frame is in the list before the others, and the callback is still there.
abbrev HandsOver : ℕ → Nic → Nic → Type 0
HandsOver length n n' =
    (n'.on_packet_received ≡ true)
    × (n'.delivered ≡ frame_in (contents n'.rx_buffer) length n.disabled ∷ n.delivered)

take_frame-HandsOver :
    (length : ℕ) (n : Nic)
    → n.on_packet_received ≡ true
    → HandsOver length n (take_frame length n).1
unfolding take_frame fill_rx_buffer deliver read_fifo write_reg set_bit read_reg clear_bit
take_frame-HandsOver length n h =
    let m = before_fifo n in
    let k = dword_aligned length in
    let read = read_words n.is_in_big_endian_mode k m in
    let (reads, trace, kept) = read_words_keeps n.is_in_big_endian_mode k m in
    subst (λ n'. HandsOver length n (behind_fifo length (read.0, n')).1) (sym kept)
      (ground (arith, h))

receive_packet-HandsOver :
    (n : Nic)
    → n.on_packet_received ≡ true
    → ((receive_packet n).1.on_packet_received ≡ true)
      × ((receive_packet n).1.delivered ≡ handed_over n ++ n.delivered)
unfolding receive_packet receive_valid read_reg release_frame set_bit write_reg
receive_packet-HandsOver n h =
    let frame_status = read_reg reg_rxfhsr n in
    let valid = has frame_status.0 rxfhsr_rxfv in
    let byte_count = read_reg reg_rxfhbcr frame_status.1 in
    let length = bit_and byte_count.0 rxfhbcr_rxbc_mask in
    let p : Error × Nic → Type 0 = λ q.
      (q.1.on_packet_received ≡ true)
      × (q.1.delivered
          ≡ (if valid && is_acceptable length
              then frame_in (contents q.1.rx_buffer) length n.disabled ∷ []
              else [])
            ++ n.delivered) in
    of-if p valid receive_valid _ frame_status.1
      (λ e.
        of-if p (is_acceptable length) (take_frame length) release_frame byte_count.1
          (λ f.
            let over = take_frame-HandsOver length byte_count.1 h in
            (over.0, ground (arith, over.1, e, f)))
          (λ f. (h, ground (arith, f))))
      (λ e.
        of-if p (has frame_status.0 error_bits) release_frame (pure Error.invalid_packet)
          frame_status.1 (λ f. (h, ground (arith, e))) (λ f. (h, ground (arith, e))))

-- The receive loop hands over, in the order in which the chip offers them, exactly the frames that the
-- chip marks as valid and whose length is not 0 and at most 1522: each once, with what the receive
-- buffer holds after its round, and its length less 6, modulo 65536. What was handed over before stays.
pub receive_packets-all_handed_over :
    (rounds : ℕ) (n : Nic)
    → n.on_packet_received ≡ true
    → (receive_packets rounds n).1.delivered ≡ all_handed_over rounds n ++ n.delivered
unfolding receive_packets
receive_packets-all_handed_over zero n h = refl
receive_packets-all_handed_over (suc rounds) n h =
    let (still, one) = receive_packet-HandsOver n h in
    receive_packets-all_handed_over rounds (receive_packet n).1 still
    ∙ ap (λ ds. all_handed_over rounds (receive_packet n).1 ++ ds) one
    ∙ sym (append_assoc (all_handed_over rounds (receive_packet n).1) (handed_over n) n.delivered)
