-- ===== src/Device/Flushing.antt =====
-- `DevCmdFlush`: which requests are aborted, in which order, and what stays.
use driver_amiga_os_ks.Prelude.{List, if◌then◌else◌, ◌∷◌, ◌≡◌, [], ap, map, ◌∙◌, refl}
use driver_amiga_os_ks.Device.Types.{
  Request, BufferManagement, Completion, DeviceUnit, term_io, aborted, returned_quick, replied,
  alerted,
}
use driver_amiga_os_ks.Device.Queues.{abort_reads, abort_req_list, flush, emptied}

-- What `TermIO` does with a request, by its flags.
abbrev pub completion : Request → Completion
completion r = if r.quick then returned_quick r else if r.reply_port then replied r else alerted r

-- The completions after these requests are aborted, first to last.
abbrev pub after_aborting : List Request → List Completion → List Completion
after_aborting [] done = done
after_aborting (r ∷ rs) done =
    after_aborting rs (completion (record r { io_error = aborted }) ∷ done)

abbrev pub after_reads : List BufferManagement → List Completion → List Completion
after_reads [] done = done
after_reads (bm ∷ bms) done = after_reads bms (after_aborting bm.rx_queue done)

pub abort_req_list_lem :
    (rs : List Request) (u : DeviceUnit)
    → abort_req_list rs u ≡ record u { completed = after_aborting rs u.completed }
unfolding abort_req_list term_io
abort_req_list_lem [] u = refl
abort_req_list_lem (r ∷ rs) u = abort_req_list_lem rs (term_io (record r { io_error = aborted }) u)

abort_reads_lem :
    (bms : List BufferManagement) (u : DeviceUnit)
    → abort_reads bms u ≡ record u { completed = after_reads bms u.completed }
unfolding abort_reads
abort_reads_lem [] u = refl
abort_reads_lem (bm ∷ bms) u =
    ap (abort_reads bms) (abort_req_list_lem bm.rx_queue u)
    ∙ abort_reads_lem bms (record u { completed = after_aborting bm.rx_queue u.completed })

-- A flush aborts the waiting reads entry by entry, then the writes, then the event requests, each
-- list first to last; it empties those lists and changes nothing else: orphan reads wait on.
pub flush_lem :
    (u : DeviceUnit)
    → flush u ≡ record u {
      buff_mgmt = map emptied u.buff_mgmt;
      tx = [];
      events = [];
      completed =
          after_aborting u.events (after_aborting u.tx (after_reads u.buff_mgmt u.completed));
    }
unfolding flush
flush_lem u =
    let start = record u { buff_mgmt = map emptied u.buff_mgmt } in
    let reads = record start { completed = after_reads u.buff_mgmt u.completed } in
    let writes = record reads { tx = []; completed = after_aborting u.tx reads.completed } in
    ap
      (λ s.
        let w = abort_req_list s.tx (record s { tx = [] }) in
        abort_req_list w.events (record w { events = [] }))
      (abort_reads_lem u.buff_mgmt start)
    ∙ ap (λ w. abort_req_list w.events (record w { events = [] }))
        (abort_req_list_lem u.tx (record reads { tx = [] }))
    ∙ abort_req_list_lem u.events (record writes { events = [] })
