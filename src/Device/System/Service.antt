-- ===== src/Device/System/Service.antt =====
-- The openers of a unit, when a packet arrives, in a round of the service loop, and in an abort.
use driver_amiga_os_ks.Prelude.{
  Bool, ◌≡◌, true, false, refl, none, some, [], ◌∷◌, if-holds, ℕ, List, Option, ap, arith,
  if◌then◌else◌, ◌∙◌,
}
use driver_amiga_os_ks.Device.Stack.{Stack}
use driver_amiga_os_ks.Device.Queues.{
  abort_in_rx_queue, abort_pending, device_abort_io, set_rx_queue, abort_in_tx, abort_in_events,
  abort_in_read_orphan, abort_request_and_remove, is_pending, rx_queue_of,
}
use driver_amiga_os_ks.Device.Commands.{Environment}
use driver_amiga_os_ks.Device.Types.{
  Request, BufferManagement, DeviceUnit, term_io, Command, IoError, cmd_read, s2event_buff,
  no_error, s2_broadcast, cmd_write, s2_onevent, LowLevelCall, s2_readorphan,
}
use driver_amiga_os_ks.Device.Receive.{
  answer, answer_found, on_pkt_received, orphan_outcome, serve_orphan, serve_stacks, Fulfilment,
  offer_to_orphans, serve_stack, fulfil, kept, answered, serve_queue,
}
use driver_amiga_os_ks.Device.Dispatch.{
  receive_all, service_round, process_events, serve_port, reread_config, leave_service_loop, Wakeup,
}
use driver_amiga_os_ks.Device.System.Openers.{
  Keeps, callbacks_of_all, do_event-Keeps, openers, perform_all-Keeps,
}
use driver_amiga_os_ks.Device.System.Aborts.{abort_request_and_remove-unit}
use driver_amiga_os_ks.Device.Transmit.{low_level_call}

module _ (stack : Stack) (packet : List ℕ) (size : ℕ) where
  answer-Keeps :
      (r : Request) (status : Bool) (u : DeviceUnit) → Keeps u (answer stack packet size r status u)
  unfolding answer term_io
  answer-Keeps r true u = refl
  answer-Keeps r false u = do_event-Keeps s2event_buff u

  answer_found-Keeps :
      (found : Option (Request × Bool)) (u : DeviceUnit)
      → Keeps u (answer_found stack packet size found u).1
  unfolding answer_found
  answer_found-Keeps none u = refl
  answer_found-Keeps (some (r, status)) u = answer-Keeps r status u

  callbacks-serve_stacks :
      (bms : List BufferManagement) (delivered : Bool) (u : DeviceUnit)
      → callbacks_of_all (serve_stacks stack packet size bms delivered u).0 ≡ callbacks_of_all bms
  unfolding serve_stacks serve_stack
  callbacks-serve_stacks [] delivered u = refl
  callbacks-serve_stacks (bm ∷ bms) delivered u =
      let s = serve_stack stack packet size bm delivered u in
      ap (λ cs. bm.callbacks ∷ cs) (callbacks-serve_stacks bms s.1 s.2)

  serve_stacks-Keeps :
      (bms : List BufferManagement) (delivered : Bool) (u : DeviceUnit)
      → Keeps u (serve_stacks stack packet size bms delivered u).2
  unfolding serve_stacks serve_stack
  serve_stacks-Keeps [] delivered u = refl
  serve_stacks-Keeps (bm ∷ bms) delivered u =
      let s = serve_stack stack packet size bm delivered u in
      serve_stacks-Keeps bms s.1 s.2
      ∙ answer_found-Keeps (serve_queue stack packet size bm.rx_queue).1 u

  orphan_outcome-Keeps :
      (f : Fulfilment) (rs : List Request) (u : DeviceUnit)
      → Keeps u (orphan_outcome stack packet size f rs u)
  unfolding orphan_outcome
  orphan_outcome-Keeps (kept r) rs u = refl
  orphan_outcome-Keeps (answered r status) rs u =
      answer-Keeps r status (record u { read_orphan = rs })

  serve_orphan-Keeps :
      (rs : List Request) (u : DeviceUnit) → Keeps u (serve_orphan stack packet size rs u)
  unfolding serve_orphan
  serve_orphan-Keeps [] u = refl
  serve_orphan-Keeps (r ∷ rs) u = orphan_outcome-Keeps (fulfil stack packet size r) rs u

  on_pkt_received-Keeps : (u : DeviceUnit) → Keeps u (on_pkt_received stack packet size u)
  unfolding on_pkt_received offer_to_orphans
  on_pkt_received-Keeps u =
      let apart = record u { buff_mgmt = [] } in
      let s = serve_stacks stack packet size u.buff_mgmt false apart in
      let served = record (s.2) { buff_mgmt = s.0 } in
      if-holds (λ v. openers v ≡ openers served) s.1 served
        (serve_orphan stack packet size s.2.read_orphan served) refl
        (serve_orphan-Keeps s.2.read_orphan served)
      ∙ ap (λ o. (o.0, callbacks_of_all s.0)) (serve_stacks-Keeps u.buff_mgmt false apart)
      ∙ ap (λ cs. (u.open_cnt, cs)) (callbacks-serve_stacks u.buff_mgmt false apart)

module _ (stack : Stack) (env : Environment) (memory : Bool) where
  receive_all-Keeps :
      (frames : List (List ℕ × ℕ)) (u : DeviceUnit)
      → Keeps u (receive_all stack env memory frames u)
  unfolding receive_all
  receive_all-Keeps [] u = refl
  receive_all-Keeps ((packet, size) ∷ frames) u =
      receive_all-Keeps frames
        (if u.on_packet_received then on_pkt_received stack packet size u else u)
      ∙ if-holds (Keeps u) u.on_packet_received (on_pkt_received stack packet size u) u
          (on_pkt_received-Keeps stack packet size u) refl

  pub service_round-Keeps :
      (t : Wakeup) (u : DeviceUnit) → Keeps u (service_round stack env memory t u).1
  unfolding service_round process_events serve_port reread_config leave_service_loop low_level_call
  service_round-Keeps t u =
      let called = record u { low_level = LowLevelCall.process_events ∷ u.low_level } in
      let u₁ = if t.low_level_signal then process_events stack env memory t.frames u else u in
      let u₂ = if t.port_signal then serve_port stack env memory u₁ else u₁ in
      let last = if t.config_signal then reread_config t.mac_tokens u₂ else u₂ in
      let e₁ =
        if-holds (Keeps u) t.low_level_signal (process_events stack env memory t.frames u) u
          (receive_all-Keeps t.frames called) refl in
      let e₂ =
        if-holds (Keeps u₁) t.port_signal (serve_port stack env memory u₁) u₁
          (perform_all-Keeps stack env memory u₁.msg_port (record u₁ { msg_port = [] })) refl in
      let e₃ = if-holds (Keeps u₂) t.config_signal (reread_config t.mac_tokens u₂) u₂ refl refl in
      if-holds {A = Bool × DeviceUnit} (λ p. Keeps u p.1) t.break_f (false, leave_service_loop u)
        (true, last) refl (e₃ ∙ e₂ ∙ e₁)

callbacks-set_rx_queue :
    (id : ℕ) (queue : List Request) (bms : List BufferManagement)
    → callbacks_of_all (set_rx_queue id queue bms) ≡ callbacks_of_all bms
unfolding set_rx_queue
callbacks-set_rx_queue id queue [] = refl
callbacks-set_rx_queue id queue (bm ∷ bms) = ground (arith, callbacks-set_rx_queue id queue bms)

abort_request_and_remove-Keeps :
    (address : ℕ) (rs : List Request) (u : DeviceUnit)
    → Keeps u (abort_request_and_remove address rs u).2
abort_request_and_remove-Keeps address rs u =
    ap openers (abort_request_and_remove-unit address rs u)

abort_in_rx_queue-Keeps : (r : Request) (u : DeviceUnit) → Keeps u (abort_in_rx_queue r u).1
unfolding abort_in_rx_queue
abort_in_rx_queue-Keeps r u =
    let id = r.buffer_management.id in
    let a = abort_request_and_remove r.address (rx_queue_of id u.buff_mgmt) u in
    ap (λ cs. (a.2.open_cnt, cs)) (callbacks-set_rx_queue id a.1 a.2.buff_mgmt)
    ∙ abort_request_and_remove-Keeps r.address (rx_queue_of id u.buff_mgmt) u

abort_pending-Keeps : (c : Command) (r : Request) (u : DeviceUnit) → Keeps u (abort_pending c r u).1
unfolding abort_pending abort_in_tx abort_in_events abort_in_read_orphan
abort_pending-Keeps cmd_read r u = abort_in_rx_queue-Keeps r u
abort_pending-Keeps s2_broadcast r u = abort_request_and_remove-Keeps r.address u.tx u
abort_pending-Keeps cmd_write r u = abort_request_and_remove-Keeps r.address u.tx u
abort_pending-Keeps s2_onevent r u = abort_request_and_remove-Keeps r.address u.events u
abort_pending-Keeps s2_readorphan r u = abort_request_and_remove-Keeps r.address u.read_orphan u
abort_pending-Keeps _ r u = refl

pub device_abort_io-Keeps : (r : Request) (u : DeviceUnit) → Keeps u (device_abort_io r u).1
unfolding device_abort_io
device_abort_io-Keeps r u =
    if-holds {A = IoError × DeviceUnit} (λ p. Keeps u p.1) (is_pending r.node_type)
      (abort_pending r.command r u) (no_error, u) (abort_pending-Keeps r.command r u) refl
