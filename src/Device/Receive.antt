-- ===== src/Device/Receive.antt =====
-- KSZ8851/devicedriver/device.c: `fulfillReadIORequest`, `onPktReceived`, and the read requests.
use driver_amiga_os_ks.Prelude.{
  ℕ, ◌+◌, ◌-◌, ◌*◌, ◌%◌, Bool, true, false, ◌&&◌, ◌||◌, List, [], ◌∷◌, ◌++◌, Option, none, some,
  get_or, take, drop, has, ltb, leb, ◌==◌, if◌then◌else◌,
}
use driver_amiga_os_ks.Device.Types.{
  BufferManagement, DeviceUnit, Request, bad_argument, fail_io, no_resources, nt_message,
  outofservice, s2event_buff, s2werr_buff_error, s2werr_generic_error, s2werr_unit_offline, term_io,
}
use driver_amiga_os_ks.Device.Queues.{do_event}
use driver_amiga_os_ks.Device.Stack.{Stack}

-- `memcmp` with BROADCAST_ADDRESS
abbrev pub broadcast_address : List ℕ
broadcast_address = 0xff ∷ 0xff ∷ 0xff ∷ 0xff ∷ 0xff ∷ 0xff ∷ []

unfoldable pub address_eq : List ℕ → List ℕ → Bool
address_eq [] [] = true
address_eq (x ∷ xs) (y ∷ ys) = x == y && address_eq xs ys
address_eq _ _ = false

unfoldable pub is_broadcast_ethernet_address : List ℕ → Bool
is_broadcast_ethernet_address address = address_eq address broadcast_address

-- `*(uint16_t*)(rawEtherPacket+12)`
abbrev pub packet_type_of : List ℕ → ℕ
packet_type_of packet = get_or packet 12 0 * 256 + get_or packet 13 0

-- The length that goes to the request: without the header if cooked, and at most the MTU.
unfoldable pub delivered_length : Bool → ℕ → ℕ
delivered_length raw size =
    if raw
    then if ltb 1514 size then 1514 else size
    else let payload = (size + 65536 - 14) % 65536 in if ltb 1500 payload then 1500 else payload

unfoldable pub payload_of : Bool → List ℕ → List ℕ
payload_of raw packet = if raw then packet else drop 14 packet

-- The request with the packet's addresses, type, length and flags.
unfoldable pub describe : List ℕ → ℕ → Request → Request
describe packet size r =
    let dst = take 6 packet in
    let multicast = has (get_or packet 0 0) 1 in
    let broadcast = is_broadcast_ethernet_address dst in
    record r {
      dst_addr = dst;
      src_addr = take 6 (drop 6 packet);
      packet_type = packet_type_of packet;
      data_length = delivered_length r.raw size;
      bcast = r.bcast || multicast && broadcast;
      mcast = if multicast then if broadcast then r.mcast else true else r.mcast;
    }

-- What one call of `fulfillReadIORequest` comes to for the list that the request stands in: it is
-- kept there, or removed and answered. Either way the packet's description is stored in it.
pub data Fulfilment : Type 0 where
  kept : Request → Fulfilment
  answered : Request → Bool → Fulfilment

unfoldable pub matches : ℕ → Request → Bool
matches packet_type r =
    r.packet_type == packet_type || leb r.packet_type 1500 && leb packet_type 1500

module _ (stack : Stack) (packet : List ℕ) (size : ℕ) where
  open stack use {copy_to_buffer, call_filter_hook}

  -- With a filter that wants the packet: copy it, or fail. The flag is `bStatus`.
  unfoldable pub copy_packet : Request → Fulfilment
  copy_packet r =
      if copy_to_buffer r.buffer_management.copy_to_buffer r (payload_of r.raw packet) r.data_length
      then answered r true
      else answered (record r { io_error = no_resources; wire_error = s2werr_buff_error }) false

  unfoldable pub filter_packet : Request → Fulfilment
  filter_packet r =
      if call_filter_hook r.buffer_management.packet_filter_hook r (payload_of r.raw packet)
      then copy_packet r
      else kept r

  unfoldable pub fulfil : Request → Fulfilment
  fulfil r = if r.has_buffer_management then filter_packet (describe packet size r) else kept r

  -- The effects of an answer on the unit: the event for a failed copy, and `TermIO`.
  unfoldable pub answer : Request → Bool → DeviceUnit → DeviceUnit
  answer r status u = term_io r (if status then u else do_event s2event_buff u)

  -- The queue, the answer if there is one, and whether a request was tried, when one was.
  unfoldable pub tried_on :
      List Request → Fulfilment → List Request × Option (Request × Bool) × Bool
  tried_on rs (kept r) = (r ∷ rs, none, true)
  tried_on rs (answered r status) = (rs, some (r, status), true)

  -- The inner loop of `onPktReceived`: the first request whose type fits is tried, and no other.
  -- The results are the queue, the answer if there is one, and whether a request was tried.
  unfoldable pub serve_queue : List Request → List Request × Option (Request × Bool) × Bool
  serve_queue [] = ([], none, false)
  serve_queue (r ∷ rs) =
      let (rest, found, tried) = serve_queue rs in
      if matches (packet_type_of packet) r then tried_on rs (fulfil r) else (r ∷ rest, found, tried)

  -- `TermIO` for the answer; the flag is what `fulfillReadIORequest` returns.
  unfoldable pub answer_found : Option (Request × Bool) → DeviceUnit → Bool × DeviceUnit
  answer_found none u = (false, u)
  answer_found (some (r, status)) u = (status, answer r status u)

  -- One round of the outer loop, on one entry. `delivered` is `resultIsPacketDelivered`, which a
  -- request that is tried overwrites.
  unfoldable pub serve_stack :
      BufferManagement → Bool → DeviceUnit → BufferManagement × Bool × DeviceUnit
  serve_stack bm delivered u =
      let (queue, found, tried) = serve_queue bm.rx_queue in
      let (status, u') = answer_found found u in
      (record bm { rx_queue = queue }, if tried then status else delivered, u')

  unfoldable pub serve_stacks :
      List BufferManagement → Bool → DeviceUnit → List BufferManagement × Bool × DeviceUnit
  serve_stacks [] delivered u = ([], delivered, u)
  serve_stacks (bm ∷ bms) delivered u =
      let (bm', delivered', u') = serve_stack bm delivered u in
      let (bms', delivered'', u'') = serve_stacks bms delivered' u' in
      (bm' ∷ bms', delivered'', u'')

  unfoldable pub orphan_outcome : Fulfilment → List Request → DeviceUnit → DeviceUnit
  orphan_outcome (kept r) rs u = record u { read_orphan = r ∷ rs }
  orphan_outcome (answered r status) rs u = answer r status (record u { read_orphan = rs })

  -- The first read orphan request gets the packet that nobody took.
  unfoldable pub serve_orphan : List Request → DeviceUnit → DeviceUnit
  serve_orphan [] u = u
  serve_orphan (r ∷ rs) u = orphan_outcome (fulfil r) rs u

  -- `if (!resultIsPacketDelivered)`
  unfoldable pub offer_to_orphans : Bool → DeviceUnit → DeviceUnit
  offer_to_orphans delivered u = if delivered then u else serve_orphan u.read_orphan u

  unfoldable pub on_pkt_received : DeviceUnit → DeviceUnit
  on_pkt_received u =
      let (bms, delivered, u') = serve_stacks u.buff_mgmt false (record u { buff_mgmt = [] }) in
      offer_to_orphans delivered (record u' { buff_mgmt = bms })

-- Whether the list of buffer management entries has the request's.
unfoldable pub has_entry : ℕ → List BufferManagement → Bool
has_entry id [] = false
has_entry id (bm ∷ bms) = bm.callbacks.id == id || has_entry id bms

-- `AddTail` to the receive queue of the first entry with this address.
unfoldable pub enqueue_read : Request → List BufferManagement → List BufferManagement
enqueue_read r [] = []
enqueue_read r (bm ∷ bms) =
    let rest = bm ∷ enqueue_read r bms in
    if bm.callbacks.id == r.buffer_management.id
    then record bm { rx_queue = bm.rx_queue ++ r ∷ [] } ∷ bms
    else rest

-- The part of `DevCmdReadPacket` behind its tests
abbrev pub queue_read : Request → DeviceUnit → DeviceUnit
queue_read r u = record u {
  buff_mgmt = enqueue_read (record r { node_type = nt_message }) u.buff_mgmt;
}

-- The part of `DevCmdReadOrphan` behind its test
abbrev pub queue_orphan : Request → DeviceUnit → DeviceUnit
queue_orphan r u = record u {
  read_orphan = u.read_orphan ++ record r { node_type = nt_message } ∷ [];
}

-- This and the next are as they are without a step of another task in between.
unfoldable pub dev_cmd_read_packet : Request → DeviceUnit → DeviceUnit
dev_cmd_read_packet r u =
    if u.is_online
    then if r.has_buffer_management && has_entry r.buffer_management.id u.buff_mgmt
      then queue_read r u
      else fail_io r bad_argument s2werr_generic_error u
    else fail_io r outofservice s2werr_unit_offline u

unfoldable pub dev_cmd_read_orphan : Request → DeviceUnit → DeviceUnit
dev_cmd_read_orphan r u =
    if u.is_online then queue_orphan r u else fail_io r outofservice s2werr_unit_offline u
