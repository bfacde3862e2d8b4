-- ===== src/Driver/Sending.antt =====
-- A write request from the device down to the data port of the chip.
use driver_amiga_os_ks.Prelude.{
  ℕ, List, false, ◌++◌, ◌≤◌, ltb, bit_and, ◌+◌, ◌/◌, ◌≡◌, Bool, true, [], if◌then◌else◌, leb, some,
  ◌%◌, arith, ap, ◌∙◌, leb→le, length,
}
use driver_amiga_os_ks.Chip.Fifo.{Bytes}
use driver_amiga_os_ks.Chip.Bus.{Nic, read_reg, disable, enable, pure}
use driver_amiga_os_ks.Device.Types.{Request, nt_message, term_io, DeviceUnit, LowLevelCall}
use driver_amiga_os_ks.Device.Stack.{Stack}
use driver_amiga_os_ks.Chip.Send.{failure, send_packet_cooked, padded, Error, transmit_cooked}
use driver_amiga_os_ks.Device.Transmit.{
  dev_cmd_write_packet, send_all_packets, send_all, send_one, send_cooked, finish_write,
  low_level_call, cooked_payload,
}
use driver_amiga_os_ks.Chip.Wire.{
  ethernet_header, streamed, header_bytes, transmit_cooked-streamed, prepend,
}
use driver_amiga_os_ks.Chip.Reg.{reg_txmir, txmir_txma_mask, eth_header_size}
use driver_amiga_os_ks.Chip.Transfer.{first_bytes}
use driver_amiga_os_ks.Driver.{run_calls, run_call, Platform, memory_of}

-- The bytes of a cooked packet behind the chip's own header.
abbrev pub frame_bytes : Bytes → Bytes → ℕ → Bytes → ℕ → List ℕ
frame_bytes dst src packet_type payload length =
    ethernet_header dst src packet_type ++ first_bytes payload ((padded length + 1) / 2)

-- The request as it goes through the driver.
abbrev pub accepted : Request → Request
accepted r = record r { quick = false; node_type = nt_message }

-- The chip after a cooked packet: the free memory was read with interrupts disabled, and the frame
-- streamed.
abbrev pub after_frame : List ℕ → Nic → Nic
after_frame frame n =
    let ready = (read_reg reg_txmir (disable n).1).1 in (enable (streamed frame ready).1).1

send_packet_cooked-after_frame :
    (dst src : Bytes) (packet_type : ℕ) (payload : Bytes) (length : ℕ) (n : Nic)
    → length ≤ 1500
    → ltb (bit_and (n.answers n.reads) txmir_txma_mask) (padded length + 8) ≡ false
    → send_packet_cooked dst src packet_type payload length n ≡ (
      Error.no_error,
      after_frame
          (header_bytes n.frame_id (padded length + eth_header_size)
            ++ frame_bytes dst src packet_type payload length)
          n,
    )
unfolding send_packet_cooked read_reg
send_packet_cooked-after_frame dst src packet_type payload length n h room =
    let ready = (read_reg reg_txmir (disable n).1).1 in
    let test : Bool → Error × Nic = λ b.
      (if b then pure failure else transmit_cooked dst src packet_type payload (padded length))
        ready in
    let close : Error × Nic → Error × Nic = λ p. (p.0, (enable p.1).1) in
    ap (λ b. close (test b)) room
    ∙ ap close
        (transmit_cooked-streamed dst src packet_type payload (padded length) ready (ground arith))

module _ (stack : Stack) where
  dev_cmd_write_packet-send_packet_cooked :
      (r : Request) (u : DeviceUnit) (bytes : List ℕ)
      → u.is_online ≡ true
      → u.tx ≡ []
      → leb r.data_length u.mtu ≡ true
      → leb r.data_length 1500 ≡ true
      → r.raw ≡ false
      → r.wire_error ≡ 0
      → cooked_payload stack (accepted r) ≡ some bytes
      → dev_cmd_write_packet stack r u
        ≡ term_io (accepted r) (
            low_level_call
              (LowLevelCall.send_packet_cooked r.dst_addr u.st_addr
                (r.packet_type % 65536)
                bytes
                r.data_length)
              u)
  unfolding dev_cmd_write_packet send_all_packets send_all send_one send_cooked finish_write
      low_level_call term_io
  dev_cmd_write_packet-send_packet_cooked r u bytes o t m l w e p = ground arith

  -- A cooked write request from the device down to the chip's data port: if the unit is online and sends
  -- nothing else, the request has a wire error of 0 and no SANA2IOF_RAW, fits in the MTU and in 1500 bytes,
  -- its payload can be had, and the chip has room when it has performed
  -- the earlier calls, then the request is completed as it came, and what the calls of the unit come to on
  -- the chip is what the earlier ones came to and one run of bytes: the chip's header with the next frame
  -- number and the length, the request's destination, the unit's station address, the type, and the
  -- payload with, up to 46 bytes and a whole word, what lies behind it.
  pub dev_cmd_write_packet-after_frame :
      (platform : Platform) (nic : Nic) (r : Request) (u : DeviceUnit) (bytes : List ℕ)
      → u.is_online ≡ true
      → u.tx ≡ []
      → leb r.data_length u.mtu ≡ true
      → leb r.data_length 1500 ≡ true
      → r.raw ≡ false
      → r.wire_error ≡ 0
      → cooked_payload stack (accepted r) ≡ some bytes
      → (let n = (run_calls platform u.low_level nic).1 in
          ltb (bit_and (n.answers n.reads) txmir_txma_mask) (padded r.data_length + 8) ≡ false)
      → (let u' = dev_cmd_write_packet stack r u in
          let n = (run_calls platform u.low_level nic).1 in
          (u'.completed ≡ (term_io (accepted r) u).completed)
          × ((run_calls platform u'.low_level nic).1
              ≡ after_frame
                  (header_bytes n.frame_id (padded r.data_length + eth_header_size)
                    ++ frame_bytes
                        (memory_of r.dst_addr)
                        (memory_of u.st_addr)
                        (r.packet_type % 65536)
                        (prepend bytes (platform.stale (length u.low_level)))
                        r.data_length)
                  n))
  unfolding run_calls run_call low_level_call term_io
  dev_cmd_write_packet-after_frame platform nic r u bytes o t m l w e p room =
      let n = (run_calls platform u.low_level nic).1 in
      let performed = dev_cmd_write_packet-send_packet_cooked r u bytes o t m l w e p in
      let sent =
        send_packet_cooked-after_frame (memory_of r.dst_addr) (memory_of u.st_addr)
          (r.packet_type % 65536) (prepend bytes (platform.stale (length u.low_level)))
          r.data_length n (leb→le r.data_length 1500 l) room in
      (
        ap (λ v. v.completed) performed,
        ap (λ v. (run_calls platform v.low_level nic).1) performed ∙ ap (λ p. p.1) sent,
      )
