-- ===== src/Chip/Send.antt =====
-- KSZ8851/servicetool/ksz8851.c: `ksz8851SendPacket`, `ksz8851SendPacketCooked`,
-- `ksz8851SendPacketPossible`, and `error_t` of KSZ8851/include/hardware-interface.h.
use driver_amiga_os_ks.Prelude.{
  ℕ, ◌+◌, ◌/◌, ◌%◌, Bool, ◌||◌, bit_and, bit_or, ltb, leb, ◌==◌, if◌then◌else◌,
}
use driver_amiga_os_ks.Chip.Reg.{
  reg_txmir, reg_rxqcr, reg_txqcr, txmir_txma_mask, rxqcr_sda, txqcr_metfe, tx_ctrl_txic,
  tx_ctrl_txfid, eth_max_frame_size, eth_header_size,
}
use driver_amiga_os_ks.Chip.Bus.{
  M, pure, ◌>>=◌, ◌>>◌, disable, enable, put_data, read_reg, set_bit, clear_bit,
}
use driver_amiga_os_ks.Chip.Fifo.{Bytes, swap, write_fifo, write_fifo_word_align}

pub data Error : Type 0 where
  no_error wrong_identifier out_of_memory invalid_length failure invalid_packet no_chip_found :
      Error

-- `Ksz8851TxHeader` in memory.
unfoldable pub tx_header : ℕ → ℕ → Bytes
tx_header control_word byte_count i =
    if i == 0
    then control_word / 256
    else if i == 1
    then control_word % 256
    else if i == 2
    then byte_count / 256
    else if i == 3
    then byte_count % 256
    else 0

-- `swap(TX_CTRL_TXIC | (context->frameId++ & TX_CTRL_TXFID))`
unfoldable pub next_control_word : M ℕ
next_control_word n = (
  swap (bit_or tx_ctrl_txic (bit_and n.frame_id tx_ctrl_txfid)),
  record n { frame_id = (n.frame_id + 1) % 65536 },
)

unfoldable pub transmit : Bytes → ℕ → M Error
unfolding next_control_word set_bit clear_bit write_fifo tx_header
transmit buffer length = do
  control_word ← next_control_word
  set_bit reg_rxqcr rxqcr_sda
  write_fifo (tx_header control_word (swap (length % 65536))) 4
  write_fifo buffer length
  clear_bit reg_rxqcr rxqcr_sda
  set_bit reg_txqcr txqcr_metfe
  pure no_error

unfoldable pub send_packet : Bytes → ℕ → M Error
unfolding transmit read_reg
send_packet buffer length =
    if ltb length 46 || ltb eth_max_frame_size length then pure invalid_length else do
      disable
      room ← read_reg reg_txmir
      result ←
          (if ltb (bit_and room txmir_txma_mask) (length + 8)
            then pure failure
            else transmit buffer length)
      enable
      pure result

-- `packetType` in memory
unfoldable pub type_bytes : ℕ → Bytes
type_bytes packet_type i =
    if i == 0 then packet_type / 256 else if i == 1 then packet_type % 256 else 0

-- `int realSend` is at least the 14 that are added, so `& 0x03` is the remainder by 4.
unfoldable pub transmit_cooked : Bytes → Bytes → ℕ → Bytes → ℕ → M Error
unfolding next_control_word set_bit clear_bit write_fifo_word_align tx_header type_bytes
transmit_cooked dst src packet_type payload length = do
  control_word ← next_control_word
  set_bit reg_rxqcr rxqcr_sda
  write_fifo_word_align (tx_header control_word (swap ((length + eth_header_size) % 65536))) 4
  write_fifo_word_align dst 6
  write_fifo_word_align src 6
  write_fifo_word_align (type_bytes packet_type) 2
  real_send ← write_fifo_word_align payload length
  (if (real_send + eth_header_size) % 4 == 0 then pure tt else put_data 0)
  clear_bit reg_rxqcr rxqcr_sda
  set_bit reg_txqcr txqcr_metfe
  pure no_error

abbrev pub padded : ℕ → ℕ
padded length = if ltb length 46 then 46 else length

unfoldable pub send_packet_cooked : Bytes → Bytes → ℕ → Bytes → ℕ → M Error
unfolding transmit_cooked read_reg
send_packet_cooked dst src packet_type payload length = do
  disable
  room ← read_reg reg_txmir
  result ←
      (if ltb (bit_and room txmir_txma_mask) (padded length + 8)
        then pure failure
        else transmit_cooked dst src packet_type payload (padded length))
  enable
  pure result

unfoldable pub send_packet_possible : ℕ → M Bool
unfolding read_reg
send_packet_possible packet_size = do room ← read_reg reg_txmir; pure (leb (room + 8) packet_size)
