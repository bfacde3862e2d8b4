-- ===== src/Chip/Outcomes.antt =====
-- What sending and receiving report, on every path, and what an error leaves behind.
use driver_amiga_os_ks.Chip.Bus.{◌>>=◌, ◌>>◌, disable, enable, M}
use driver_amiga_os_ks.Chip.Send.{
  invalid_packet, invalid_length, failure, no_error, Error, send_packet, send_packet_cooked,
  transmit, transmit_cooked, padded,
}
use driver_amiga_os_ks.Prelude.{
  Bool, ◌≡◌, true, false, refl, [], ◌∷◌, inl, inr, List, ℕ, bit_and, if◌then◌else◌, ltb, ◌&&◌, suc,
  leb, ◌||◌, ◌+◌, has, ◌⊎◌, arith, ap, sym, ◌∙◌,
}
use driver_amiga_os_ks.Chip.Bus.{Nic, Access, read_reg, store, set_bit, write_reg, pure}
use driver_amiga_os_ks.Chip.Receive.{
  receive_packet, receive_valid, take_frame, release_frame, error_bits,
}
use driver_amiga_os_ks.Chip.Fifo.{Bytes}
use driver_amiga_os_ks.Chip.Reg.{
  rxfhbcr_rxbc_mask, eth_max_frame_size, txmir_txma_mask, rxfhsr_rxfv, reg_rxfhsr, reg_rxfhbcr,
  reg_txmir,
}

-- The values that were stored to the data port, the newest first.
abbrev pub stored_values : List Access → List ℕ
stored_values [] = []
stored_values (store v ∷ accesses) = v ∷ stored_values accesses
stored_values (_ ∷ accesses) = stored_values accesses

-- The specification of the result of a send: the length, then the room for the frame and 8 bytes.
abbrev pub send_result : Bool → Bool → Error
send_result is_no_length is_full =
    if is_no_length then invalid_length else if is_full then failure else no_error

-- Nothing was stored on the chip, the frame number is the same, and interrupts are as they were.
abbrev pub LeavesChip : Nic → Nic → Type 0
LeavesChip n n' =
    (stored_values n'.trace ≡ stored_values n.trace)
    × (n'.frame_id ≡ n.frame_id)
    × (n'.disabled ≡ n.disabled)

-- What holds on both branches of a conditional, each with its condition.
pub of-if :
    {A : Type 0} (p : A × Nic → Type 0) (b : Bool) (m k : M A) (n : Nic)
    → (b ≡ true → p (m n))
    → (b ≡ false → p (k n))
    → p ((if b then m else k) n)
of-if p true m k n h l = h refl
of-if p false m k n h l = l refl

-- Sending a raw packet gives INVALID_LENGTH for a length that no frame has, else FAILURE if the
-- transmit memory has no room for the packet and 8 bytes, else NO_ERROR; unless it gives NO_ERROR,
-- it stores nothing on the chip, takes no frame number, and leaves interrupts as they were.
pub send_packet-send_result :
    (buffer : Bytes) (length : ℕ) (n : Nic)
    → ((send_packet buffer length n).0
        ≡ send_result
            (ltb length 46 || ltb eth_max_frame_size length)
            (ltb (bit_and (n.answers n.reads) txmir_txma_mask) (length + 8)))
      × (((send_packet buffer length n).0 ≡ no_error)
          ⊎ LeavesChip n (send_packet buffer length n).1)
unfolding send_packet read_reg transmit
send_packet-send_result buffer length n =
    let b = ltb length 46 || ltb eth_max_frame_size length in
    let room = read_reg reg_txmir (disable n).1 in
    let c = ltb (bit_and room.0 txmir_txma_mask) (length + 8) in
    let p : Error × Nic → Type 0 =
      λ q. (q.0 ≡ send_result b c) × ((q.0 ≡ no_error) ⊎ LeavesChip n q.1) in
    of-if p b (pure invalid_length) _ n
      (λ e. (ap (λ b. send_result b c) (sym e), inr (refl, refl, refl)))
      (λ e.
        of-if (λ q. p (q.0, (enable q.1).1)) c (pure failure) (transmit buffer length) room.1
          (λ f. (
            ap (λ b. send_result b true) (sym e) ∙ ap (send_result b) (sym f),
            inr (refl, refl, omega arith),
          ))
          (λ f. (ap (λ b. send_result b false) (sym e) ∙ ap (send_result b) (sym f), inl refl)))

-- Sending a cooked packet gives FAILURE if the transmit memory has no room for the padded payload and
-- 8 bytes, else NO_ERROR; if it fails, it stores nothing on the chip, takes no frame number, and leaves
-- interrupts as they were.
send_packet_cooked-send_result :
    (dst src : Bytes) (packet_type : ℕ) (payload : Bytes) (length : ℕ) (n : Nic)
    → ((send_packet_cooked dst src packet_type payload length n).0
        ≡ send_result false (ltb (bit_and (n.answers n.reads) txmir_txma_mask) (padded length + 8)))
      × (((send_packet_cooked dst src packet_type payload length n).0 ≡ no_error)
          ⊎ LeavesChip n (send_packet_cooked dst src packet_type payload length n).1)
unfolding send_packet_cooked read_reg transmit_cooked
send_packet_cooked-send_result dst src packet_type payload length n =
    either (ltb (bit_and (n.answers n.reads) txmir_txma_mask) (padded length + 8))
  where
    either :
        (c : Bool)
        → (let p =
              (do
                disable
                read_reg reg_txmir
                result ←
                    (if c
                      then pure failure
                      else transmit_cooked dst src packet_type payload (padded length))
                enable
                pure result)
                n in
            (p.0 ≡ send_result false c) × ((p.0 ≡ no_error) ⊎ LeavesChip n p.1))
    either true = (refl, inr (refl, refl, omega arith))
    either false = (refl, inl refl)

-- The length that the chip gives for the frame that it has, without what the register keeps besides.
abbrev pub frame_length : Nic → ℕ
frame_length n = bit_and (n.answers (suc n.reads)) rxfhbcr_rxbc_mask

abbrev pub is_acceptable : ℕ → Bool
is_acceptable length = ltb 0 length && leb length (eth_max_frame_size + 4)

-- Receiving a packet gives NO_ERROR exactly if the chip marks the frame as valid and its length is not 0
-- and at most 1522, and INVALID_PACKET else; with INVALID_PACKET nothing is handed over and the receive
-- buffer stays as it was.
pub receive_packet-result :
    (n : Nic)
    → ((receive_packet n).0 ≡ (
        if has (n.answers n.reads) rxfhsr_rxfv && is_acceptable (frame_length n)
        then no_error
        else invalid_packet))
      × (((receive_packet n).0 ≡ no_error)
          ⊎ (((receive_packet n).1.delivered ≡ n.delivered)
              × ((receive_packet n).1.rx_buffer ≡ n.rx_buffer)))
unfolding receive_packet receive_valid read_reg take_frame release_frame set_bit write_reg
receive_packet-result n =
    let frame_status = read_reg reg_rxfhsr n in
    let valid = has frame_status.0 rxfhsr_rxfv in
    let byte_count = read_reg reg_rxfhbcr frame_status.1 in
    let length = bit_and byte_count.0 rxfhbcr_rxbc_mask in
    let p : Error × Nic → Type 0 = λ q.
      (q.0 ≡ (if valid && is_acceptable length then no_error else invalid_packet))
      × ((q.0 ≡ no_error) ⊎ ((q.1.delivered ≡ n.delivered) × (q.1.rx_buffer ≡ n.rx_buffer))) in
    of-if p valid receive_valid _ frame_status.1
      (λ e.
        of-if p (is_acceptable length) (take_frame length) release_frame byte_count.1
          (λ f. (ground arith, inl refl)) (λ f. (ground arith, inr (refl, refl))))
      (λ e.
        of-if p (has frame_status.0 error_bits) release_frame (pure invalid_packet) frame_status.1
          (λ f. (ground arith, inr (refl, refl))) (λ f. (ground arith, inr (refl, refl))))
