-- ===== src/Device/Conservation/Packets.antt =====
-- The weight of the requests that a unit has, when a packet arrives.
use driver_amiga_os_ks.Prelude.{
  refl, Option, List, Bool, ℕ, some, none, ◌+◌, ◌≡◌, arith, ◌∷◌, [], false, true, ap, ◌∙◌,
}
use driver_amiga_os_ks.Device.Stack.{Stack}
use driver_amiga_os_ks.Device.Types.{Request, DeviceUnit, BufferManagement, s2event_buff, term_io}
use driver_amiga_os_ks.Device.Receive.{
  answer, answer_found, on_pkt_received, serve_orphan, serve_queue, serve_stacks, serve_stack,
  fulfil, offer_to_orphans, orphan_outcome, Fulfilment, kept, answered, tried_on, filter_packet,
  copy_packet, describe,
}
use driver_amiga_os_ks.Device.Conservation.{held, reads_held, held-term_io, held-do_event, total}
use driver_amiga_os_ks.Device.Queues.{do_event, fire_all, fire}

module _ (w : ℕ → ℕ) where
  -- Firing events touches no entry.
  buff_mgmt-fire_all :
      (events : ℕ) (rs : List Request) (u : DeviceUnit)
      → (fire_all events rs u).buff_mgmt ≡ u.buff_mgmt
  unfolding fire_all fire term_io
  buff_mgmt-fire_all events [] u = refl
  buff_mgmt-fire_all events (r ∷ rs) u =
      ground (arith, buff_mgmt-fire_all events rs (fire events r u))

  -- The weight of the request that an optional answer stands for.
  abbrev answered_weight : Option (Request × Bool) → ℕ
  answered_weight none = 0
  answered_weight (some (r, status)) = w r.address

  abbrev fulfilled : Fulfilment → Request
  fulfilled (kept r) = r
  fulfilled (answered r status) = r

  module _ (stack : Stack) (packet : List ℕ) (size : ℕ) where
    total-tried_on :
        (rs : List Request) (f : Fulfilment)
        → total w (tried_on stack packet size rs f).0
            + answered_weight (tried_on stack packet size rs f).1
          ≡ total w rs + w (fulfilled f).address
    unfolding tried_on
    total-tried_on rs (kept r) = omega arith
    total-tried_on rs (answered r status) = omega arith

    address-fulfil : (r : Request) → (fulfilled (fulfil stack packet size r)).address ≡ r.address
    unfolding fulfil filter_packet copy_packet describe
    address-fulfil r = ground arith

    total-serve_queue :
        (rs : List Request)
        → total w (serve_queue stack packet size rs).0
            + answered_weight (serve_queue stack packet size rs).1
          ≡ total w rs
    unfolding serve_queue
    total-serve_queue [] = omega arith
    total-serve_queue (r ∷ rs) = ground (
      arith,
      total-serve_queue rs,
      total-tried_on rs (fulfil stack packet size r),
      ap w (address-fulfil r),
    )

    held-answer :
        (r : Request) (status : Bool) (u : DeviceUnit)
        → held w (answer stack packet size r status u) ≡ held w u + w r.address
    unfolding answer
    held-answer r status u = ground (
      arith,
      held-term_io w r u,
      held-term_io w r (do_event s2event_buff u),
      held-do_event w s2event_buff u,
    )

    held-answer_found :
        (found : Option (Request × Bool)) (u : DeviceUnit)
        → held w (answer_found stack packet size found u).1 ≡ held w u + answered_weight found
    unfolding answer_found
    held-answer_found none u = omega arith
    held-answer_found (some (r, status)) u = held-answer r status u

    buff_mgmt-answer_found :
        (found : Option (Request × Bool)) (u : DeviceUnit)
        → (answer_found stack packet size found u).1.buff_mgmt ≡ u.buff_mgmt
    unfolding answer_found answer do_event term_io
    buff_mgmt-answer_found none u = refl
    buff_mgmt-answer_found (some (r, true)) u = refl
    buff_mgmt-answer_found (some (r, false)) u =
        buff_mgmt-fire_all s2event_buff u.events (record u { events = [] })

    buff_mgmt-serve_stacks :
        (bms : List BufferManagement) (delivered : Bool) (u : DeviceUnit)
        → (serve_stacks stack packet size bms delivered u).2.buff_mgmt ≡ u.buff_mgmt
    unfolding serve_stacks serve_stack
    buff_mgmt-serve_stacks [] delivered u = refl
    buff_mgmt-serve_stacks (bm ∷ bms) delivered u =
        let s = serve_stack stack packet size bm delivered u in
        buff_mgmt-serve_stacks bms s.1 s.2
        ∙ buff_mgmt-answer_found (serve_queue stack packet size bm.rx_queue).1 u

    held-serve_stacks :
        (bms : List BufferManagement) (delivered : Bool) (u : DeviceUnit)
        → held w (serve_stacks stack packet size bms delivered u).2
            + reads_held w (serve_stacks stack packet size bms delivered u).0
          ≡ held w u + reads_held w bms
    unfolding serve_stacks serve_stack
    held-serve_stacks [] delivered u = omega arith
    held-serve_stacks (bm ∷ bms) delivered u =
        let s = serve_stack stack packet size bm delivered u in
        omega (
          arith,
          held-serve_stacks bms s.1 s.2,
          total-serve_queue bm.rx_queue,
          held-answer_found (serve_queue stack packet size bm.rx_queue).1 u,
        )

    held-orphan_outcome :
        (f : Fulfilment) (rs : List Request) (u : DeviceUnit)
        → w (fulfilled f).address + total w rs ≡ total w u.read_orphan
        → held w (orphan_outcome stack packet size f rs u) ≡ held w u
    unfolding orphan_outcome
    held-orphan_outcome (kept r) rs u e = omega arith
    held-orphan_outcome (answered r status) rs u e =
        omega (arith, held-answer r status (record u { read_orphan = rs }))

    held-serve_orphan :
        (rs : List Request) (u : DeviceUnit)
        → total w rs ≡ total w u.read_orphan
        → held w (serve_orphan stack packet size rs u) ≡ held w u
    unfolding serve_orphan
    held-serve_orphan [] u e = refl
    held-serve_orphan (r ∷ rs) u e =
        held-orphan_outcome (fulfil stack packet size r) rs u
          (omega (arith, e, ap w (address-fulfil r)))

    held-offer_to_orphans :
        (delivered : Bool) (u : DeviceUnit)
        → held w (offer_to_orphans stack packet size delivered u) ≡ held w u
    unfolding offer_to_orphans
    held-offer_to_orphans true u = refl
    held-offer_to_orphans false u = held-serve_orphan u.read_orphan u refl

    -- For every weight of addresses, a received packet leaves the total weight of the requests that
    -- wait in a queue of the unit or have been completed as it was, whatever the stacks answer.
    pub held-on_pkt_received :
        (u : DeviceUnit) → held w (on_pkt_received stack packet size u) ≡ held w u
    unfolding on_pkt_received
    held-on_pkt_received u =
        let s = serve_stacks stack packet size u.buff_mgmt false (record u { buff_mgmt = [] }) in
        omega (
          arith,
          held-serve_stacks u.buff_mgmt false (record u { buff_mgmt = [] }),
          held-offer_to_orphans s.1 (record (s.2) { buff_mgmt = s.0 }),
          ap (reads_held w)
              (buff_mgmt-serve_stacks u.buff_mgmt false (record u { buff_mgmt = [] })),
        )
