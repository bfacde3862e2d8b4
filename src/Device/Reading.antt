-- ===== src/Device/Reading.antt =====
-- `DevCmdReadPacket`: where a read request waits.
use driver_amiga_os_ks.Device.Receive.{dev_cmd_read_packet, has_entry, enqueue_read}
use driver_amiga_os_ks.Device.Types.{
  Request, DeviceUnit, BufferManagement, nt_message, fail_io, outofservice, s2werr_unit_offline,
  bad_argument, s2werr_generic_error,
}
use driver_amiga_os_ks.Device.Queues.{rx_queue_of}
use driver_amiga_os_ks.Prelude.{List, ◌≡◌, true, ◌++◌, ◌∷◌, [], arith, ap, if◌then◌else◌, ◌&&◌, ◌∙◌}

rx_queue_of-enqueue_read :
    (r : Request) (bms : List BufferManagement)
    → has_entry r.buffer_management.id bms ≡ true
    → rx_queue_of r.buffer_management.id (enqueue_read r bms)
      ≡ rx_queue_of r.buffer_management.id bms ++ r ∷ []
unfolding has_entry enqueue_read rx_queue_of
rx_queue_of-enqueue_read r [] h = ground arith
rx_queue_of-enqueue_read r (bm ∷ bms) h = ground (arith, rx_queue_of-enqueue_read r bms)

-- A read request to an online unit that has the request's entry waits at the end of that entry's queue,
-- with its flags as they were, the flag for quick requests among them; nothing is completed.
dev_cmd_read_packet-queued :
    (r : Request) (u : DeviceUnit)
    → u.is_online ≡ true
    → r.has_buffer_management ≡ true
    → has_entry r.buffer_management.id u.buff_mgmt ≡ true
    → (rx_queue_of r.buffer_management.id (dev_cmd_read_packet r u).buff_mgmt
        ≡ rx_queue_of r.buffer_management.id u.buff_mgmt
          ++ record r { node_type = nt_message } ∷ [])
      × ((dev_cmd_read_packet r u).completed ≡ u.completed)
unfolding dev_cmd_read_packet
dev_cmd_read_packet-queued r u o h e =
    let queued = record u {
      buff_mgmt = enqueue_read (record r { node_type = nt_message }) u.buff_mgmt;
    } in
    let offline = fail_io r outofservice s2werr_unit_offline u in
    let bad = fail_io r bad_argument s2werr_generic_error u in
    let found = has_entry r.buffer_management.id u.buff_mgmt in
    let taken =
      ap (λ b. if b then (if r.has_buffer_management && found then queued else bad) else offline) o
      ∙ ap (λ b. if b && found then queued else bad) h
      ∙ ap (λ b. if b then queued else bad) e in
    (
      ap (λ v. rx_queue_of r.buffer_management.id v.buff_mgmt) taken
          ∙ rx_queue_of-enqueue_read (record r { node_type = nt_message }) u.buff_mgmt e,
      ap (λ v. v.completed) taken,
    )
