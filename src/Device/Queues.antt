-- ===== src/Device/Queues.antt =====
-- KSZ8851/devicedriver/device.c: aborting requests, flushing, and the events.
--
-- Each function runs under a semaphore or `Forbid()` and is one step.
use driver_amiga_os_ks.Prelude.{
  ℕ, Bool, true, false, List, [], ◌∷◌, ◌++◌, Option, none, some, map, has, ◌==◌, if◌then◌else◌,
}
use driver_amiga_os_ks.Device.Types.{
  BufferManagement, Command, DeviceUnit, IoError, NodeType, Request, aborted, bad_argument,
  cmd_read, cmd_write, no_error, nt_message, s2_broadcast, s2_onevent, s2_readorphan, software,
  term_io,
}

unfoldable pub keep : Request → Option (Request × List Request) → Option (Request × List Request)
keep r none = none
keep r (some (found, rest)) = some (found, r ∷ rest)

-- The request that a list loop meets first at this address, and the list without it.
unfoldable pub remove : ℕ → List Request → Option (Request × List Request)
remove address [] = none
remove address (r ∷ rs) = if r.address == address then some (r, rs) else keep r (remove address rs)

-- `AbortRequestAndRemove` on one list: the error code, the list and the unit after it.
unfoldable pub abort_request_and_remove :
    ℕ → List Request → DeviceUnit → IoError × List Request × DeviceUnit
abort_request_and_remove address list u = elim (remove address list) [
  | none ↦ (bad_argument, list, u)
  | some (r, rest) ↦ (aborted, rest, term_io (record r { io_error = aborted }) u)
]

-- `AbortReqList`: the completions; the list is empty afterwards.
unfoldable pub abort_req_list : List Request → DeviceUnit → DeviceUnit
abort_req_list [] u = u
abort_req_list (r ∷ rs) u = abort_req_list rs (term_io (record r { io_error = aborted }) u)

unfoldable pub abort_reads : List BufferManagement → DeviceUnit → DeviceUnit
abort_reads [] u = u
abort_reads (bm ∷ bms) u = abort_reads bms (abort_req_list bm.rx_queue u)

abbrev pub emptied : BufferManagement → BufferManagement
emptied bm = record bm { rx_queue = [] }

-- The part of `DevCmdFlush` before its last `if`.
unfoldable pub flush : DeviceUnit → DeviceUnit
flush u =
    let reads = abort_reads u.buff_mgmt (record u { buff_mgmt = map emptied u.buff_mgmt }) in
    let writes = abort_req_list reads.tx (record reads { tx = [] }) in
    abort_req_list writes.events (record writes { events = [] })

unfoldable pub dev_cmd_flush : Option Request → DeviceUnit → DeviceUnit
dev_cmd_flush none u = flush u
dev_cmd_flush (some r) u = term_io r (flush u)

-- One round of the loop of `DoEvent`: a request that waits for any of the events is answered with
-- them, the others stay in the list.
unfoldable pub fire : ℕ → Request → DeviceUnit → DeviceUnit
fire events r u =
    if has r.wire_error events
    then term_io (record r { io_error = no_error; wire_error = events }) u
    else record u { events = u.events ++ r ∷ [] }

unfoldable pub fire_all : ℕ → List Request → DeviceUnit → DeviceUnit
fire_all events [] u = u
fire_all events (r ∷ rs) u = fire_all events rs (fire events r u)

unfoldable pub do_event : ℕ → DeviceUnit → DeviceUnit
do_event events u = fire_all events u.events (record u { events = [] })

unfoldable pub rx_queue_of : ℕ → List BufferManagement → List Request
rx_queue_of id [] = []
rx_queue_of id (bm ∷ bms) = if bm.callbacks.id == id then bm.rx_queue else rx_queue_of id bms

unfoldable pub set_rx_queue : ℕ → List Request → List BufferManagement → List BufferManagement
set_rx_queue id queue [] = []
set_rx_queue id queue (bm ∷ bms) =
    let rest = bm ∷ set_rx_queue id queue bms in
    if bm.callbacks.id == id then record bm { rx_queue = queue } ∷ bms else rest

unfoldable pub abort_in_rx_queue : Request → DeviceUnit → IoError × DeviceUnit
abort_in_rx_queue r u =
    let id = r.buffer_management.id in
    let (result, queue, u') = abort_request_and_remove r.address (rx_queue_of id u.buff_mgmt) u in
    (result, record u' { buff_mgmt = set_rx_queue id queue u'.buff_mgmt })

unfoldable pub abort_in_tx : Request → DeviceUnit → IoError × DeviceUnit
abort_in_tx r u =
    let (result, queue, u') = abort_request_and_remove r.address u.tx u in
    (result, record u' { tx = queue })

unfoldable pub abort_in_events : Request → DeviceUnit → IoError × DeviceUnit
abort_in_events r u =
    let (result, queue, u') = abort_request_and_remove r.address u.events u in
    (result, record u' { events = queue })

unfoldable pub abort_in_read_orphan : Request → DeviceUnit → IoError × DeviceUnit
abort_in_read_orphan r u =
    let (result, queue, u') = abort_request_and_remove r.address u.read_orphan u in
    (result, record u' { read_orphan = queue })

-- The `switch` of `DeviceAbortIO`.
unfoldable pub abort_pending : Command → Request → DeviceUnit → IoError × DeviceUnit
abort_pending cmd_read r u = abort_in_rx_queue r u
abort_pending s2_broadcast r u = abort_in_tx r u
abort_pending cmd_write r u = abort_in_tx r u
abort_pending s2_onevent r u = abort_in_events r u
abort_pending s2_readorphan r u = abort_in_read_orphan r u
abort_pending _ r u = (software, u)

unfoldable pub is_pending : NodeType → Bool
is_pending nt_message = true
is_pending _ = false

unfoldable pub device_abort_io : Request → DeviceUnit → IoError × DeviceUnit
device_abort_io r u = if is_pending r.node_type then abort_pending r.command r u else (no_error, u)
