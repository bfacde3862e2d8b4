-- ===== src/Device/Transmit.antt =====
-- KSZ8851/devicedriver/device.c: `DevCmdWritePacket` and `sendAllPackets`.
use driver_amiga_os_ks.Prelude.{
  ℕ, ◌%◌, false, List, [], ◌∷◌, ◌++◌, Option, none, some, ltb, leb, ◌==◌, if◌then◌else◌,
}
use driver_amiga_os_ks.Device.Types.{
  DeviceUnit, LowLevelCall, Request, fail_io, mtu_exceeded, no_resources, nt_message, outofservice,
  s2event_buff, s2event_tx, s2werr_buff_error, s2werr_generic_error, s2werr_unit_offline,
  send_packet, send_packet_cooked, set_error_on_request, term_io,
}
use driver_amiga_os_ks.Device.Queues.{do_event}
use driver_amiga_os_ks.Device.Stack.{Stack}

abbrev pub ethernet_mtu : ℕ
ethernet_mtu = 1500

abbrev pub ether_packet_head_size : ℕ
ether_packet_head_size = 14

-- `lowLevelDriver->…`; the error that the call returns is dropped.
unfoldable pub low_level_call : LowLevelCall → DeviceUnit → DeviceUnit
low_level_call call u = record u { low_level = call ∷ u.low_level }

-- The part of `DevCmdWritePacket` behind its tests: `PutMsg(eu_Tx, …)`
abbrev pub put_packet : Request → DeviceUnit → DeviceUnit
put_packet r u = record u { tx = u.tx ++ record r { quick = false; node_type = nt_message } ∷ [] }

module _ (stack : Stack) where
  open stack use {copy_from_buffer, copy_from_buffer_dma}

  -- `dmaPacketBuffer`
  unfoldable pub dma_packet_buffer : Request → Option (List ℕ)
  dma_packet_buffer r = elim r.buffer_management.copy_from_buffer_dma [
    | none ↦ none
    | some function ↦ copy_from_buffer_dma function r
  ]

  unfoldable pub send_raw : Request → DeviceUnit → Request × DeviceUnit
  send_raw r u =
      if ltb ether_packet_head_size r.data_length
      then elim (copy_from_buffer r.buffer_management.copy_from_buffer r r.data_length) [
        | some bytes ↦ (r, low_level_call (send_packet bytes r.data_length) u)
        | none ↦ (set_error_on_request r no_resources s2werr_buff_error, u)
      ]
      else (set_error_on_request r mtu_exceeded s2werr_buff_error, u)

  -- The payload: the packet's own memory, or a copy.
  unfoldable pub cooked_payload : Request → Option (List ℕ)
  cooked_payload r = elim (dma_packet_buffer r) [
    | some bytes ↦ some bytes
    | none ↦ copy_from_buffer r.buffer_management.copy_from_buffer r r.data_length
  ]

  unfoldable pub send_cooked : Request → DeviceUnit → Request × DeviceUnit
  send_cooked r u =
      if leb r.data_length ethernet_mtu
      then elim (cooked_payload r) [
        | some bytes ↦ (
          r,
          low_level_call
              (send_packet_cooked r.dst_addr u.st_addr (r.packet_type % 65536) bytes r.data_length)
              u,
        )
        | none ↦ (set_error_on_request r no_resources s2werr_buff_error, u)
      ]
      else (set_error_on_request r mtu_exceeded s2werr_buff_error, u)

  -- The end of one round: an event for a request with a wire error, and `TermIO`.
  unfoldable pub finish_write : Request × DeviceUnit → DeviceUnit
  finish_write (r, u) = term_io r (if r.wire_error == 0 then u else do_event s2event_buff u)

  unfoldable pub send_one : Request → DeviceUnit → DeviceUnit
  send_one r u = finish_write (if r.raw then send_raw r u else send_cooked r u)

  -- `while ((ios2 = GetMsg(eu_Tx)) != NULL)` over the requests that are in the port at the start;
  -- nothing in the loop puts another one in.
  unfoldable pub send_all : List Request → DeviceUnit → DeviceUnit
  send_all [] u = u
  send_all (r ∷ rs) u = send_all rs (send_one r u)

  unfoldable pub send_all_packets : DeviceUnit → DeviceUnit
  send_all_packets u = send_all u.tx (record u { tx = [] })

  -- `GetMsg(eu_Tx)` and what the loop does with the packet
  unfoldable pub send_next : DeviceUnit → DeviceUnit
  send_next u = elim u.tx [ [] ↦ u | r ∷ rs ↦ send_one r (record u { tx = rs }) ]

  -- As it is without a step of another task in between.
  unfoldable pub dev_cmd_write_packet : Request → DeviceUnit → DeviceUnit
  dev_cmd_write_packet r u =
      if u.is_online
      then if leb r.data_length u.mtu
        then send_all_packets (put_packet r u)
        else do_event s2event_tx (fail_io r mtu_exceeded s2werr_generic_error u)
      else fail_io r outofservice s2werr_unit_offline u
