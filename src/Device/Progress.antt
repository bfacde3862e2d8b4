-- ===== src/Device/Progress.antt =====
-- Waiting requests come to an end: at S2_OFFLINE, and when a packet of their type arrives.
use driver_amiga_os_ks.Prelude.{
  ◌≡◌, true, false, refl, some, [], ◌∷◌, ℕ, List, ◌+◌, arith, ap, ◌∙◌, if◌then◌else◌,
}
use driver_amiga_os_ks.Device.Stack.{Stack}
use driver_amiga_os_ks.Device.Commands.{dev_cmd_offline, go_offline}
use driver_amiga_os_ks.Device.Receive.{
  dev_cmd_read_packet, enqueue_read, has_entry, on_pkt_received, serve_stacks, serve_stack,
  serve_queue, tried_on, fulfil, filter_packet, copy_packet, answer_found, answer, offer_to_orphans,
  describe, matches, packet_type_of, payload_of, delivered_length,
}
use driver_amiga_os_ks.Device.Transmit.{low_level_call}
use driver_amiga_os_ks.Device.Types.{
  term_io, BufferManagement, DeviceUnit, Request, s2event_offline, nt_message,
}
use driver_amiga_os_ks.Device.System.Sound.{no_reads, no_reads-emptied}
use driver_amiga_os_ks.Device.Queues.{do_event}
use driver_amiga_os_ks.Device.Conservation.{reads_held, total_completed, total}
use driver_amiga_os_ks.Device.Flushing.{flush_lem}
use driver_amiga_os_ks.Device.Events.{do_event_lem}
use driver_amiga_os_ks.Device.Conservation.Commands.{held-go_offline}

-- What going offline leaves of the unit's lists.
go_offline_lem :
    (u : DeviceUnit)
    → ((go_offline u).tx ≡ [])
      × ((go_offline u).events ≡ [])
      × (no_reads (go_offline u).buff_mgmt ≡ true)
      × ((go_offline u).msg_port ≡ u.msg_port)
      × ((go_offline u).read_orphan ≡ u.read_orphan)
unfolding go_offline low_level_call
go_offline_lem u =
    let down = record u { is_online = false } in
    let told = do_event s2event_offline down in
    let e = flush_lem told in
    let t = do_event_lem s2event_offline down in
    (
      ap (λ v. v.tx) e,
      ap (λ v. v.events) e,
      ap (λ v. no_reads v.buff_mgmt) e ∙ no_reads-emptied told.buff_mgmt,
      ap (λ v. v.msg_port) e ∙ ap (λ v. v.msg_port) t,
      ap (λ v. v.read_orphan) e ∙ ap (λ v. v.read_orphan) t,
    )

reads_held-no_reads :
    (w : ℕ → ℕ) (bms : List BufferManagement) → no_reads bms ≡ true → reads_held w bms ≡ 0
reads_held-no_reads w [] h = refl
reads_held-no_reads w (bm ∷ bms) h = ground (arith, reads_held-no_reads w bms)

total_completed-go_offline :
    (w : ℕ → ℕ) (u : DeviceUnit)
    → total_completed w (go_offline u).completed
      ≡ total_completed w u.completed + total w u.tx + total w u.events + reads_held w u.buff_mgmt
total_completed-go_offline w u =
    let l = go_offline_lem u in
    omega (
      arith,
      held-go_offline w u,
      ap (total w) l.0,
      ap (total w) l.1,
      reads_held-no_reads w (go_offline u).buff_mgmt l.2,
      ap (total w) l.3,
      ap (total w) l.4,
    )

-- S2_OFFLINE on an online unit completes every read, write and event request that waits, and itself:
-- none of those is left, and for every weight of addresses the completed requests weigh more by the
-- weight of those that waited and of the request.
pub dev_cmd_offline-completes :
    (w : ℕ → ℕ) (r : Request) (u : DeviceUnit)
    → u.is_online ≡ true
    → ((dev_cmd_offline (some r) u).tx ≡ [])
      × ((dev_cmd_offline (some r) u).events ≡ [])
      × (no_reads (dev_cmd_offline (some r) u).buff_mgmt ≡ true)
      × (total_completed w (dev_cmd_offline (some r) u).completed
          ≡ total_completed w u.completed
            + total w u.tx
            + total w u.events
            + reads_held w u.buff_mgmt
            + w r.address)
unfolding dev_cmd_offline term_io
dev_cmd_offline-completes w r u o =
    let l = go_offline_lem u in
    let e = ap (λ b. if b then go_offline u else u) o in
    (
      ap (λ v. v.tx) e ∙ l.0,
      ap (λ v. v.events) e ∙ l.1,
      ap (λ v. no_reads v.buff_mgmt) e ∙ l.2,
      ground (arith, ap (λ v. total_completed w v.completed) e, total_completed-go_offline w u),
    )

module _ (stack : Stack) where
  open stack use {copy_to_buffer, call_filter_hook}

  -- A read request to an online unit with one opener, whose queue is empty, is completed by the next
  -- packet of its type, with the packet's addresses, type and length, if the opener's filter wants the
  -- packet and its copy function takes it; nothing else changes.
  pub on_pkt_received-dev_cmd_read_packet :
      (packet : List ℕ) (size : ℕ) (r : Request) (u : DeviceUnit)
      → u.is_online ≡ true
      → r.has_buffer_management ≡ true
      → matches (packet_type_of packet) r ≡ true
      → call_filter_hook r.buffer_management.packet_filter_hook
          (describe packet size (record r { node_type = nt_message }))
          (payload_of r.raw packet)
        ≡ true
      → copy_to_buffer r.buffer_management.copy_to_buffer
          (describe packet size (record r { node_type = nt_message }))
          (payload_of r.raw packet)
          (delivered_length r.raw size)
        ≡ true
      → (let alone = record u {
        buff_mgmt = record { callbacks = r.buffer_management; rx_queue = [] } ∷ [];
      } in
          on_pkt_received stack packet size (dev_cmd_read_packet r alone)
          ≡ term_io (describe packet size (record r { node_type = nt_message })) alone)
  unfolding dev_cmd_read_packet enqueue_read has_entry on_pkt_received serve_stacks serve_stack
      serve_queue tried_on fulfil filter_packet copy_packet answer_found answer offer_to_orphans
      term_io describe matches
  on_pkt_received-dev_cmd_read_packet packet size r u o b m f c = ground arith
