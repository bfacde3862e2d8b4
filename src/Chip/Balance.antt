-- ===== src/Chip/Balance.antt =====
-- `Disable()` and `Enable()` in the operations of the chip driver, and the depth at which packets are
-- handed over.
use driver_amiga_os_ks.Chip.Bus.{
  Nic, M, clear_bit, read_reg, set_bit, write_reg, Delivery, disable, enable, pure, put_data,
}
use driver_amiga_os_ks.Prelude.{
  ℕ, Bool, List, ◌≡◌, if◌then◌else◌, true, ◌+◌, false, ◌∷◌, ◌/◌, ◌==◌, subst, ◌%◌, ◌&&◌, sym, [],
  ltb, ap, arith, ◌||◌, bit_and,
}
use driver_amiga_os_ks.Chip.Send.{
  next_control_word, transmit, transmit_cooked, tx_header, type_bytes, send_packet,
  send_packet_cooked, failure, padded, invalid_length,
}
use driver_amiga_os_ks.Chip.Fifo.{
  write_fifo, write_fifo_word_align, Bytes, dword_aligned, write_words, swap,
}
use driver_amiga_os_ks.Chip.Reg.{
  reg_rxqcr, rxqcr_sda, eth_header_size, eth_max_frame_size, reg_txmir, txmir_txma_mask,
}
use driver_amiga_os_ks.Chip.Transfer.{write_words_lem}
pub mod Events

abbrev pub all_at : ℕ → List Delivery → Bool
all_at depth [] = true
all_at depth (d ∷ ds) = d.nesting == depth && all_at depth ds

-- Interrupts are disabled to the given depth, and every packet so far was handed over at the depth of
-- the caller.
abbrev pub IsCalm : ℕ → ℕ → Nic → Type 0
IsCalm depth outer n = (n.disabled ≡ depth) × (all_at outer n.delivered ≡ true)

-- Code that leads from the one to the other.
abbrev pub Leads : {A : Type 0} → (Nic → Type 0) → M A → (Nic → Type 0) → Type 0
Leads p m q = (n : Nic) → p n → q (m n).1

pub leads-if :
    {A : Type 0} (p q : Nic → Type 0) (b : Bool) (m k : M A)
    → Leads p m q
    → Leads p k q
    → Leads p (if b then m else k) q
leads-if p q true m k a b n h = a n h
leads-if p q false m k a b n h = b n h

module _ (depth outer : ℕ) where
  abbrev pub Calm : Nic → Type 0
  Calm = IsCalm depth outer

  write_words-Calm :
      (big_endian : Bool) (bytes : Bytes) (k : ℕ) → Leads Calm (write_words big_endian bytes k) Calm
  write_words-Calm big_endian bytes k n h =
      subst (λ p. Calm p.1) (sym (write_words_lem big_endian bytes k n)) h

  write_fifo-Calm : (bytes : Bytes) (length : ℕ) → Leads Calm (write_fifo bytes length) Calm
  unfolding write_fifo
  write_fifo-Calm bytes length n h =
      write_words-Calm n.is_in_big_endian_mode bytes (dword_aligned length) n h

  write_fifo_word_align-Calm :
      (bytes : Bytes) (length : ℕ) → Leads Calm (write_fifo_word_align bytes length) Calm
  unfolding write_fifo_word_align
  write_fifo_word_align-Calm bytes length n h =
      write_words-Calm n.is_in_big_endian_mode bytes ((length + 1) / 2 % 65536) n h

  transmit-Calm : (buffer : Bytes) (length : ℕ) → Leads Calm (transmit buffer length) Calm
  unfolding transmit next_control_word set_bit clear_bit read_reg write_reg
  transmit-Calm buffer length n h = write_fifo-Calm buffer length _ (write_fifo-Calm _ 4 _ h)

  transmit_cooked-Calm :
      (dst src : Bytes) (packet_type : ℕ) (payload : Bytes) (length : ℕ)
      → Leads Calm (transmit_cooked dst src packet_type payload length) Calm
  unfolding transmit_cooked next_control_word set_bit clear_bit read_reg write_reg
  transmit_cooked-Calm dst src packet_type payload length n h =
      let control_word = next_control_word n in
      let header = tx_header control_word.0 (swap ((length + eth_header_size) % 65536)) in
      let n₀ = (set_bit reg_rxqcr rxqcr_sda control_word.1).1 in
      let n₁ = (write_fifo_word_align header 4 n₀).1 in
      let n₂ = (write_fifo_word_align dst 6 n₁).1 in
      let n₃ = (write_fifo_word_align src 6 n₂).1 in
      let n₄ = (write_fifo_word_align (type_bytes packet_type) 2 n₃).1 in
      let sent = write_fifo_word_align payload length n₄ in
      leads-if Calm Calm ((sent.0 + eth_header_size) % 4 == 0) (pure tt) (put_data 0) (λ n h. h)
        (λ n h. h) sent.1
        (write_fifo_word_align-Calm payload length n₄ (
          write_fifo_word_align-Calm (type_bytes packet_type) 2 n₃ (
            write_fifo_word_align-Calm src 6 n₂
              (write_fifo_word_align-Calm dst 6 n₁ (write_fifo_word_align-Calm header 4 n₀ h)))))

pub disable-IsCalm :
    (depth outer : ℕ) → Leads (IsCalm depth outer) disable (IsCalm (depth + 1) outer)
disable-IsCalm depth outer n (d, a) = (ap (λ k. k + 1) d, a)

-- Sending a raw packet leaves the depth of `Disable()` as it found it, whether it succeeds or fails, and
-- hands over no packet at another depth.
pub send_packet-IsCalm :
    (depth outer : ℕ) (buffer : Bytes) (length : ℕ) (n : Nic)
    → IsCalm depth outer n
    → IsCalm depth outer (send_packet buffer length n).1
unfolding send_packet read_reg
send_packet-IsCalm depth outer buffer length n h =
    let calm = IsCalm depth outer in
    let inside = IsCalm (depth + 1) outer in
    leads-if calm calm (ltb length 46 || ltb eth_max_frame_size length) (pure invalid_length) _
      (λ n h. h)
      (λ n h.
        let room = read_reg reg_txmir (disable n).1 in
        let done =
          leads-if inside inside (ltb (bit_and room.0 txmir_txma_mask) (length + 8)) (pure failure)
            (transmit buffer length) (λ n h. h) (transmit-Calm (depth + 1) outer buffer length)
            room.1 (disable-IsCalm depth outer n h) in
        (omega (arith, done.0), done.1))
      n h

-- Sending a cooked packet leaves the depth of `Disable()` as it found it, whether it succeeds or fails,
-- and hands over no packet at another depth.
pub send_packet_cooked-IsCalm :
    (depth outer : ℕ) (dst src : Bytes) (packet_type : ℕ) (payload : Bytes) (length : ℕ) (n : Nic)
    → IsCalm depth outer n
    → IsCalm depth outer (send_packet_cooked dst src packet_type payload length n).1
unfolding send_packet_cooked read_reg
send_packet_cooked-IsCalm depth outer dst src packet_type payload length n h =
    let inside = IsCalm (depth + 1) outer in
    let room = read_reg reg_txmir (disable n).1 in
    let done =
      leads-if inside inside (ltb (bit_and room.0 txmir_txma_mask) (padded length + 8))
        (pure failure) (transmit_cooked dst src packet_type payload (padded length)) (λ n h. h)
        (transmit_cooked-Calm (depth + 1) outer dst src packet_type payload (padded length)) room.1
        (disable-IsCalm depth outer n h) in
    (omega (arith, done.0), done.1)
