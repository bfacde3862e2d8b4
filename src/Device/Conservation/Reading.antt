-- ===== src/Device/Conservation/Reading.antt =====
-- The weight of the requests that a unit has, when a read request is queued.
use driver_amiga_os_ks.Device.Receive.{
  dev_cmd_read_orphan, dev_cmd_read_packet, has_entry, enqueue_read,
}
use driver_amiga_os_ks.Device.Types.{
  Request, DeviceUnit, BufferManagement, nt_message, bad_argument, outofservice,
  s2werr_generic_error, s2werr_unit_offline,
}
use driver_amiga_os_ks.Prelude.{List, ◌≡◌, ◌+◌, true, arith, ◌∷◌, [], ℕ}
use driver_amiga_os_ks.Device.Conservation.{held, reads_held, held-fail_io, total-append}

module _ (w : ℕ → ℕ) where
  reads_held-enqueue_read :
      (r : Request) (bms : List BufferManagement)
      → has_entry r.buffer_management.id bms ≡ true
      → reads_held w (enqueue_read r bms) ≡ reads_held w bms + w r.address
  unfolding has_entry enqueue_read
  reads_held-enqueue_read r [] h = cc
  reads_held-enqueue_read r (bm ∷ bms) h =
      ground (arith, reads_held-enqueue_read r bms, total-append w bm.rx_queue (r ∷ []))

  pub held-read_packet :
      (r : Request) (u : DeviceUnit) → held w (dev_cmd_read_packet r u) ≡ held w u + w r.address
  unfolding dev_cmd_read_packet
  held-read_packet r u = ground (
    arith,
    reads_held-enqueue_read (record r { node_type = nt_message }) u.buff_mgmt,
    held-fail_io w r bad_argument s2werr_generic_error u,
    held-fail_io w r outofservice s2werr_unit_offline u,
  )

  pub held-read_orphan :
      (r : Request) (u : DeviceUnit) → held w (dev_cmd_read_orphan r u) ≡ held w u + w r.address
  unfolding dev_cmd_read_orphan
  held-read_orphan r u = ground (
    arith,
    total-append w u.read_orphan (record r { node_type = nt_message } ∷ []),
    held-fail_io w r outofservice s2werr_unit_offline u,
  )
