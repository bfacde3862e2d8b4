-- ===== src/Chip/Receive.antt =====
-- KSZ8851/servicetool/ksz8851.c: `ksz8851ReceivePacket` and the receive loop of
-- `ksz8851EventHandler`.
use driver_amiga_os_ks.Prelude.{
  ℕ, zero, suc, ◌+◌, ◌-◌, ◌%◌, Bool, ◌&&◌, List, [], ◌∷◌, ◌++◌, Option, none, some, length, drop,
  has, bit_and, bit_or, ltb, leb, if◌then◌else◌,
}
use driver_amiga_os_ks.Chip.Reg.{
  reg_rxfhsr, reg_rxfhbcr, reg_rxfdpr, reg_rxqcr, rxfhsr_rxfv, rxfhsr_rxmr, rxfhsr_rxftl,
  rxfhsr_rxrf, rxfhsr_rxce, rxfhsr_rxudpfcs, rxfhsr_rxtcpfcs, rxfhsr_rxipfcs, rxfhsr_rxicmpfcs,
  rxfhbcr_rxbc_mask, rxqcr_rrxef, rxqcr_sda, rxfdpr_rxfpai, rxfdpr_ems, eth_max_frame_size,
}
use driver_amiga_os_ks.Chip.Bus.{
  M, pure, ◌>>=◌, ◌>>◌, disable, enable, get_data, read_reg, write_reg, set_bit, clear_bit,
}
use driver_amiga_os_ks.Chip.Fifo.{read_fifo}
use driver_amiga_os_ks.Chip.Send.{Error, no_error, invalid_packet}

-- The status bits on which the frame is released.
abbrev pub error_bits : ℕ
error_bits = bit_or rxfhsr_rxmr (
    bit_or rxfhsr_rxftl (
      bit_or rxfhsr_rxrf (
        bit_or rxfhsr_rxce (
          bit_or rxfhsr_rxudpfcs
            (bit_or rxfhsr_rxtcpfcs (bit_or rxfhsr_rxipfcs rxfhsr_rxicmpfcs))))))

-- RXFDPR cannot be read back, so the endian bit is written anew.
abbrev pub rxfdpr_value : Bool → ℕ
rxfdpr_value big_endian = if big_endian then bit_or rxfdpr_rxfpai rxfdpr_ems else rxfdpr_rxfpai

-- The bytes of the buffer with the new ones over its start. A NULL buffer stays NULL.
unfoldable pub overwrite : List ℕ → Option (List ℕ) → Option (List ℕ)
overwrite bytes none = none
overwrite bytes (some old) = some (bytes ++ drop (length bytes) old)

unfoldable pub contents : Option (List ℕ) → List ℕ
contents none = []
contents (some bytes) = bytes

-- The payload of `ksz8851ReadFifo` goes to the receive buffer.
unfoldable pub fill_rx_buffer : ℕ → M (Unit {0})
unfolding read_fifo overwrite
fill_rx_buffer length n =
    let (bytes, n') = read_fifo length n in
    (tt, record n' { rx_buffer = overwrite bytes n'.rx_buffer })

-- `interface->onPacketReceived(context->rxBuffer+2, rxPktLength - 2 - 4)`, the size as a `uint16_t`
unfoldable pub deliver : ℕ → M (Unit {0})
unfolding contents
deliver length n =
    if n.on_packet_received
    then (
      tt,
      record n {
        delivered =
            record {
              buffer = drop 2 (contents n.rx_buffer);
              size = (length + 65536 - 6) % 65536;
              nesting = n.disabled;
            }
            ∷ n.delivered;
      },
    )
    else (tt, n)

unfoldable pub take_frame : ℕ → M Error
unfolding fill_rx_buffer deliver write_reg set_bit clear_bit
take_frame length n =
    (do
      write_reg reg_rxfdpr (rxfdpr_value n.is_in_big_endian_mode)
      set_bit reg_rxqcr rxqcr_sda
      get_data
      get_data
      get_data
      fill_rx_buffer length
      clear_bit reg_rxqcr rxqcr_sda
      enable
      deliver length
      disable
      pure no_error)
      n

-- Releases the error frame and reports it.
unfoldable pub release_frame : M Error
unfolding set_bit
release_frame = set_bit reg_rxqcr rxqcr_rrxef >> pure invalid_packet

unfoldable pub receive_valid : M Error
unfolding take_frame read_reg release_frame
receive_valid = do
  byte_count ← read_reg reg_rxfhbcr
  let length = bit_and byte_count rxfhbcr_rxbc_mask
  (if ltb 0 length && leb length (eth_max_frame_size + 4) then take_frame length else release_frame)

unfoldable pub receive_packet : M Error
unfolding receive_valid release_frame read_reg
receive_packet = do
  frame_status ← read_reg reg_rxfhsr
  (if has frame_status rxfhsr_rxfv
      then receive_valid
      else if has frame_status error_bits
      then release_frame
      else pure invalid_packet)

-- `while(frameCount > 0)`
unfoldable pub receive_packets : ℕ → M (Unit {0})
receive_packets zero = pure tt
receive_packets (suc frame_count) = receive_packet >> receive_packets frame_count
