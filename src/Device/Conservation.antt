-- ===== src/Device/Conservation.antt =====
-- The weight of the requests that a unit has, waiting or completed: aborting, flushing, events and
-- writing.
pub mod Reading
pub mod Commands
pub mod Packets
pub mod Service
use driver_amiga_os_ks.Prelude.{
  ℕ, suc, ◌+◌, ◌≡◌, refl, ◌∙◌, ap, Bool, true, false, List, [], ◌∷◌, ◌++◌, Option, none, some, map,
  arith, length, length-append, has, Bool-cases, inl, inr, if◌then◌else◌,
}
use driver_amiga_os_ks.Device.Types.{
  BufferManagement, DeviceUnit, IoError, Request, aborted, fail_io, s2event_buff, term_io,
  nt_message, mtu_exceeded, s2werr_generic_error, s2event_tx, outofservice, s2werr_unit_offline,
  Completion, replied, returned_quick, alerted,
}
use driver_amiga_os_ks.Device.Stack.{Stack}
use driver_amiga_os_ks.Device.Queues.{
  abort_reads, abort_req_list, do_event, emptied, fire, fire_all, flush,
}
use driver_amiga_os_ks.Device.Transmit.{
  finish_write, send_cooked, send_one, send_raw, low_level_call, dev_cmd_write_packet, send_all,
  send_all_packets,
}

-- A weight for the address of each request is a way to count: each request once, or only those at
-- one address. Requests are told apart by their addresses.
abbrev pub total : (ℕ → ℕ) → List Request → ℕ
total w [] = 0
total w (r ∷ rs) = w r.address + total w rs

abbrev pub completed_request : Completion → Request
completed_request (replied r) = r
completed_request (returned_quick r) = r
completed_request (alerted r) = r

abbrev pub total_completed : (ℕ → ℕ) → List Completion → ℕ
total_completed w [] = 0
total_completed w (c ∷ cs) = w (completed_request c).address + total_completed w cs

-- The read requests that wait in the queues of the entries.
abbrev pub reads_held : (ℕ → ℕ) → List BufferManagement → ℕ
reads_held w [] = 0
reads_held w (bm ∷ bms) = total w bm.rx_queue + reads_held w bms

-- The weight of the requests that the unit has: those that wait, and those that it has completed.
abbrev pub held : (ℕ → ℕ) → DeviceUnit → ℕ
held w u =
    total w u.msg_port
    + total w u.tx
    + total w u.events
    + total w u.read_orphan
    + reads_held w u.buff_mgmt
    + total_completed w u.completed

pub total-append : (w : ℕ → ℕ) (xs ys : List Request) → total w (xs ++ ys) ≡ total w xs + total w ys
total-append w [] ys = omega arith
total-append w (x ∷ xs) ys = omega (arith, total-append w xs ys)

module _ (w : ℕ → ℕ) where
  pub held-term_io : (r : Request) (u : DeviceUnit) → held w (term_io r u) ≡ held w u + w r.address
  unfolding term_io
  held-term_io r u = ground arith

  pub held-fail_io :
      (r : Request) (e : IoError) (wire : ℕ) (u : DeviceUnit)
      → held w (fail_io r e wire u) ≡ held w u + w r.address
  unfolding fail_io
  held-fail_io r e wire u = held-term_io (record r { io_error = e; wire_error = wire }) u

  pub held-abort_req_list :
      (rs : List Request) (u : DeviceUnit) → held w (abort_req_list rs u) ≡ held w u + total w rs
  unfolding abort_req_list
  held-abort_req_list [] u = omega arith
  held-abort_req_list (r ∷ rs) u = omega (
    arith,
    held-abort_req_list rs (term_io (record r { io_error = aborted }) u),
    held-term_io (record r { io_error = aborted }) u,
  )

  held-fire :
      (events : ℕ) (r : Request) (u : DeviceUnit)
      → held w (fire events r u) ≡ held w u + w r.address
  unfolding fire term_io
  held-fire events r u = ground (arith, total-append w u.events (r ∷ []))

  held-fire_all :
      (events : ℕ) (rs : List Request) (u : DeviceUnit)
      → held w (fire_all events rs u) ≡ held w u + total w rs
  unfolding fire_all
  held-fire_all events [] u = omega arith
  held-fire_all events (r ∷ rs) u =
      omega (arith, held-fire_all events rs (fire events r u), held-fire events r u)

  pub held-do_event : (events : ℕ) (u : DeviceUnit) → held w (do_event events u) ≡ held w u
  unfolding do_event
  held-do_event events u = omega (arith, held-fire_all events u.events (record u { events = [] }))

  reads_held-emptied : (bms : List BufferManagement) → reads_held w (map emptied bms) ≡ 0
  reads_held-emptied [] = refl
  reads_held-emptied (bm ∷ bms) = omega (arith, reads_held-emptied bms)

  held-abort_reads :
      (bms : List BufferManagement) (u : DeviceUnit)
      → held w (abort_reads bms u) ≡ held w u + reads_held w bms
  unfolding abort_reads
  held-abort_reads [] u = omega arith
  held-abort_reads (bm ∷ bms) u = omega (
    arith,
    held-abort_reads bms (abort_req_list bm.rx_queue u),
    held-abort_req_list bm.rx_queue u,
  )

  pub held-flush : (u : DeviceUnit) → held w (flush u) ≡ held w u
  unfolding flush
  held-flush u =
      let start = record u { buff_mgmt = map emptied u.buff_mgmt } in
      let reads = abort_reads u.buff_mgmt start in
      let writes = abort_req_list reads.tx (record reads { tx = [] }) in
      omega (
        arith,
        reads_held-emptied u.buff_mgmt,
        held-abort_reads u.buff_mgmt start,
        held-abort_req_list reads.tx (record reads { tx = [] }),
        held-abort_req_list writes.events (record writes { events = [] }),
      )

  module _ (stack : Stack) where
    held-send_raw : (r : Request) (u : DeviceUnit) → held w (send_raw stack r u).1 ≡ held w u
    unfolding send_raw low_level_call
    held-send_raw r u = ground arith

    held-send_cooked : (r : Request) (u : DeviceUnit) → held w (send_cooked stack r u).1 ≡ held w u
    unfolding send_cooked low_level_call
    held-send_cooked r u = ground arith

    held-finish_write :
        (p : Request × DeviceUnit) → held w (finish_write stack p) ≡ held w p.1 + w p.0.address
    unfolding finish_write
    held-finish_write (r, u) = ground (
      arith,
      held-do_event s2event_buff u,
      held-term_io r u,
      held-term_io r (do_event s2event_buff u),
    )

    held-send_either :
        (b : Bool) (r : Request) (u : DeviceUnit)
        → held w (if b then send_raw stack r u else send_cooked stack r u).1 ≡ held w u
    held-send_either true r u = held-send_raw r u
    held-send_either false r u = held-send_cooked r u

    address-send :
        (b : Bool) (r : Request) (u : DeviceUnit)
        → (if b then send_raw stack r u else send_cooked stack r u).0.address ≡ r.address
    unfolding send_raw send_cooked
    address-send true r u = ground arith
    address-send false r u = ground arith

    held-send_one :
        (r : Request) (u : DeviceUnit) → held w (send_one stack r u) ≡ held w u + w r.address
    unfolding send_one
    held-send_one r u = omega (
      arith,
      held-send_either r.raw r u,
      ap w (address-send r.raw r u),
      held-finish_write (if r.raw then send_raw stack r u else send_cooked stack r u),
    )

    held-send_all :
        (rs : List Request) (u : DeviceUnit) → held w (send_all stack rs u) ≡ held w u + total w rs
    unfolding send_all
    held-send_all [] u = omega arith
    held-send_all (r ∷ rs) u =
        omega (arith, held-send_all rs (send_one stack r u), held-send_one r u)

    held-send_all_packets : (u : DeviceUnit) → held w (send_all_packets stack u) ≡ held w u
    unfolding send_all_packets
    held-send_all_packets u = omega (arith, held-send_all u.tx (record u { tx = [] }))

    pub held-write_packet :
        (r : Request) (u : DeviceUnit)
        → held w (dev_cmd_write_packet stack r u) ≡ held w u + w r.address
    unfolding dev_cmd_write_packet
    held-write_packet r u =
        let queued = record r { quick = false; node_type = nt_message } in
        let failed = fail_io r mtu_exceeded s2werr_generic_error u in
        ground (
          arith,
          held-send_all_packets (record u { tx = u.tx ++ queued ∷ [] }),
          total-append w u.tx (queued ∷ []),
          held-do_event s2event_tx failed,
          held-fail_io r mtu_exceeded s2werr_generic_error u,
          held-fail_io r outofservice s2werr_unit_offline u,
        )
