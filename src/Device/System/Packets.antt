-- ===== src/Device/System/Packets.antt =====
-- A received packet, an abort and a round of the service loop keep a unit sound.
use driver_amiga_os_ks.Prelude.{
  Bool, ◌≡◌, true, false, refl, none, some, [], ◌∷◌, List, ℕ, Option, ap, ◌∙◌,
}
use driver_amiga_os_ks.Device.Stack.{Stack}
use driver_amiga_os_ks.Device.Types.{BufferManagement, DeviceUnit, Request, term_io, s2event_buff}
use driver_amiga_os_ks.Device.Receive.{
  answer, answer_found, serve_queue, serve_stacks, serve_stack, on_pkt_received, offer_to_orphans,
  orphan_outcome, serve_orphan, Fulfilment, fulfil, kept, answered,
}
use driver_amiga_os_ks.Device.System.Sound.{
  IsOrderly, do_event-IsOrderly, IsSound, do_event-IsSound,
}
use driver_amiga_os_ks.Device.Settings.{settings-do_event}

-- An orderly unit that is online or not.
abbrev IsOrderlyIn : Bool → DeviceUnit → Type 0
IsOrderlyIn is_online u = IsOrderly u × (u.is_online ≡ is_online)

module _ (stack : Stack) (packet : List ℕ) (size : ℕ) where
  answer-IsOrderlyIn :
      (b : Bool) (r : Request) (status : Bool) (u : DeviceUnit)
      → IsOrderlyIn b u
      → IsOrderlyIn b (answer stack packet size r status u)
  unfolding answer term_io
  answer-IsOrderlyIn b r true u s = s
  answer-IsOrderlyIn b r false u (s, n) = (
    do_event-IsOrderly s2event_buff u s,
    ap (λ o. o.is_online) (settings-do_event s2event_buff u) ∙ n,
  )

  answer_found-IsOrderlyIn :
      (b : Bool) (found : Option (Request × Bool)) (u : DeviceUnit)
      → IsOrderlyIn b u
      → IsOrderlyIn b (answer_found stack packet size found u).1
  unfolding answer_found
  answer_found-IsOrderlyIn b none u s = s
  answer_found-IsOrderlyIn b (some (r, status)) u s = answer-IsOrderlyIn b r status u s

  serve_stacks-IsOrderlyIn :
      (b : Bool) (bms : List BufferManagement) (delivered : Bool) (u : DeviceUnit)
      → IsOrderlyIn b u
      → IsOrderlyIn b (serve_stacks stack packet size bms delivered u).2
  unfolding serve_stacks serve_stack
  serve_stacks-IsOrderlyIn b [] delivered u s = s
  serve_stacks-IsOrderlyIn b (bm ∷ bms) delivered u s =
      let served = serve_stack stack packet size bm delivered u in
      serve_stacks-IsOrderlyIn b bms served.1 served.2
        (answer_found-IsOrderlyIn b (serve_queue stack packet size bm.rx_queue).1 u s)

  answer-IsSound :
      (r : Request) (status : Bool) (u : DeviceUnit)
      → IsSound u
      → IsSound (answer stack packet size r status u)
  unfolding answer term_io
  answer-IsSound r true u s = s
  answer-IsSound r false u s = do_event-IsSound s2event_buff u s

  orphan_outcome-IsSound :
      (f : Fulfilment) (rs : List Request) (u : DeviceUnit)
      → IsSound u
      → IsSound (orphan_outcome stack packet size f rs u)
  unfolding orphan_outcome
  orphan_outcome-IsSound (kept r) rs u s = s
  orphan_outcome-IsSound (answered r status) rs u s =
      answer-IsSound r status (record u { read_orphan = rs }) s

  serve_orphan-IsSound :
      (rs : List Request) (u : DeviceUnit)
      → IsSound u
      → IsSound (serve_orphan stack packet size rs u)
  unfolding serve_orphan
  serve_orphan-IsSound [] u s = s
  serve_orphan-IsSound (r ∷ rs) u s = orphan_outcome-IsSound (fulfil stack packet size r) rs u s

  offer_to_orphans-IsSound :
      (delivered : Bool) (u : DeviceUnit)
      → IsSound u
      → IsSound (offer_to_orphans stack packet size delivered u)
  unfolding offer_to_orphans
  offer_to_orphans-IsSound true u s = s
  offer_to_orphans-IsSound false u s = serve_orphan-IsSound u.read_orphan u s

  pub on_pkt_received-IsSound :
      (u : DeviceUnit) → IsSound u → IsSound (on_pkt_received stack packet size u)
  unfolding on_pkt_received
  on_pkt_received-IsSound u s =
      let apart = record u { buff_mgmt = [] } in
      let served = serve_stacks stack packet size u.buff_mgmt false apart in
      let after = serve_stacks-IsOrderlyIn u.is_online u.buff_mgmt false apart (s, refl) in
      offer_to_orphans-IsSound served.1 (record (served.2) { buff_mgmt = served.0 }) after.0
