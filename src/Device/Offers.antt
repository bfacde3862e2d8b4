-- ===== src/Device/Offers.antt =====
-- KSZ8851/devicedriver/device.c: what `onPktReceived` comes to for all the stacks together.
use driver_amiga_os_ks.Prelude.{
  ℕ, List, Bool, Option, false, none, some, ◌∷◌, [], if◌then◌else◌, ◌≡◌, refl, true, Bool-cases, ap,
  inl, ◌∙◌, sym, inr,
}
use driver_amiga_os_ks.Device.Types.{BufferManagement, Request, DeviceUnit}
use driver_amiga_os_ks.Device.Receive.{
  Fulfilment, kept, matches, packet_type_of, serve_queue, tried_on, answered, fulfil, answer,
  answer_found, on_pkt_received, serve_stack, serve_stacks, offer_to_orphans,
}
use driver_amiga_os_ks.Device.Stack.{Stack}

-- The first request of a queue that takes the type.
abbrev pub first_match : ℕ → List Request → Option Request
first_match packet_type [] = none
first_match packet_type (r ∷ rs) =
    let rest = first_match packet_type rs in if matches packet_type r then some r else rest

-- A queue whose first request that takes the type is replaced, or removed.
abbrev pub replace_match : ℕ → Option Request → List Request → List Request
replace_match packet_type new [] = []
replace_match packet_type new (r ∷ rs) =
    let rest = r ∷ replace_match packet_type new rs in
    if matches packet_type r then elim new [ none ↦ rs | some r' ↦ r' ∷ rs ] else rest

-- What stays in the queue of a request after an offer.
abbrev pub remaining : Fulfilment → Option Request
remaining (kept r) = some r
remaining (answered r status) = none

-- Whether an offer was taken.
abbrev pub is_taken : Fulfilment → Bool
is_taken (kept r) = false
is_taken (answered r status) = status

-- Whether the last offer was taken, if there was one.
abbrev pub last_taken : Bool → List Fulfilment → Bool
last_taken delivered [] = delivered
last_taken delivered (f ∷ fs) = last_taken (is_taken f) fs

-- What is answered after an offer.
abbrev pub to_answer : Fulfilment → Option (Request × Bool)
to_answer (kept r) = none
to_answer (answered r status) = some (r, status)

-- The offers that were made.
abbrev pub made : Option Fulfilment → List Fulfilment → List Fulfilment
made none fs = fs
made (some f) fs = f ∷ fs

-- An entry after its offer, if there was one.
abbrev pub with_outcome : ℕ → BufferManagement → Option Fulfilment → BufferManagement
with_outcome packet_type bm none = bm
with_outcome packet_type bm (some f) = record bm {
  rx_queue = replace_match packet_type (remaining f) bm.rx_queue;
}

module _ (stack : Stack) (packet : List ℕ) (size : ℕ) where
  abbrev pub fulfil_found : Option Request → Option Fulfilment
  fulfil_found none = none
  fulfil_found (some r) = some (fulfil stack packet size r)

  -- The offer to one entry: to its first request that takes the type, if there is one.
  abbrev pub offer : BufferManagement → Option Fulfilment
  offer bm = fulfil_found (first_match (packet_type_of packet) bm.rx_queue)

  abbrev pub offers : List BufferManagement → List Fulfilment
  offers [] = []
  offers (bm ∷ bms) = made (offer bm) (offers bms)

  abbrev pub after_offers : List BufferManagement → List BufferManagement
  after_offers [] = []
  after_offers (bm ∷ bms) = with_outcome (packet_type_of packet) bm (offer bm) ∷ after_offers bms

  abbrev pub settle : Fulfilment → DeviceUnit → DeviceUnit
  settle (kept r) u = u
  settle (answered r status) u = answer stack packet size r status u

  abbrev pub settle_all : List Fulfilment → DeviceUnit → DeviceUnit
  settle_all [] u = u
  settle_all (f ∷ fs) u = settle_all fs (settle f u)

  abbrev outcome : List Request → Option Request → List Request × Option (Request × Bool) × Bool
  outcome rs none = (rs, none, false)
  outcome rs (some r) = (
    replace_match (packet_type_of packet) (remaining (fulfil stack packet size r)) rs,
    to_answer (fulfil stack packet size r),
    true,
  )

  -- The first request of a queue that does not take the type is passed over.
  outcome-cons :
      (r : Request) (rs : List Request) (found : Option Request)
      → matches (packet_type_of packet) r ≡ false
      → outcome (r ∷ rs) found
        ≡ (r ∷ (outcome rs found).0, (outcome rs found).1, (outcome rs found).2)
  outcome-cons r rs none h = refl
  outcome-cons r rs (some x) h = rw h

  tried_on_lem :
      (r : Request) (rs : List Request) (f : Fulfilment)
      → matches (packet_type_of packet) r ≡ true
      → tried_on stack packet size rs f
        ≡ (replace_match (packet_type_of packet) (remaining f) (r ∷ rs), to_answer f, true)
  unfolding tried_on
  tried_on_lem r rs (kept r') h = rw h
  tried_on_lem r rs (answered r' status) h = rw h

  serve_queue_lem :
      (rs : List Request)
      → serve_queue stack packet size rs ≡ outcome rs (first_match (packet_type_of packet) rs)
  unfolding serve_queue
  serve_queue_lem [] = refl
  serve_queue_lem (r ∷ rs) =
      let rest = serve_queue stack packet size rs in
      let packet_type = packet_type_of packet in
      let test : Bool → List Request × Option (Request × Bool) × Bool = λ b.
        if b
        then tried_on stack packet size rs (fulfil stack packet size r)
        else (r ∷ rest.0, rest.1, rest.2) in
      let first : Bool → Option Request = λ b. if b then some r else first_match packet_type rs in
      elim (Bool-cases (matches packet_type r)) [
        | inl h ↦
            ap test h
            ∙ tried_on_lem r rs (fulfil stack packet size r) h
            ∙ sym (ap (λ b. outcome (r ∷ rs) (first b)) h)
        | inr h ↦
            ap test h
            ∙ ap (λ p. (r ∷ p.0, p.1, p.2)) (serve_queue_lem rs)
            ∙ sym (outcome-cons r rs (first_match packet_type rs) h)
            ∙ sym (ap (λ b. outcome (r ∷ rs) (first b)) h)
      ]

  -- What one round of the outer loop makes of an entry, the flag and the unit, given the offer.
  abbrev settled :
      BufferManagement
      → Bool
      → DeviceUnit
      → Option Fulfilment
      → BufferManagement × Bool × DeviceUnit
  settled bm delivered u none = (bm, delivered, u)
  settled bm delivered u (some f) =
      (with_outcome (packet_type_of packet) bm (some f), is_taken f, settle f u)

  abbrev finished :
      BufferManagement
      → Bool
      → DeviceUnit
      → List Request × Option (Request × Bool) × Bool
      → BufferManagement × Bool × DeviceUnit
  finished bm delivered u (queue, found, tried) =
      let (status, u') = answer_found stack packet size found u in
      (record bm { rx_queue = queue }, if tried then status else delivered, u')

  finished-outcome :
      (bm : BufferManagement) (delivered : Bool) (u : DeviceUnit) (f : Fulfilment)
      → finished bm delivered u
          (replace_match (packet_type_of packet) (remaining f) bm.rx_queue, to_answer f, true)
        ≡ settled bm delivered u (some f)
  unfolding answer_found
  finished-outcome bm delivered u (kept r) = refl
  finished-outcome bm delivered u (answered r status) = refl

  finished-settled :
      (bm : BufferManagement) (delivered : Bool) (u : DeviceUnit) (found : Option Request)
      → finished bm delivered u (outcome bm.rx_queue found)
        ≡ settled bm delivered u (fulfil_found found)
  unfolding answer_found
  finished-settled bm delivered u none = refl
  finished-settled bm delivered u (some r) =
      finished-outcome bm delivered u (fulfil stack packet size r)

  serve_stack_lem :
      (bm : BufferManagement) (delivered : Bool) (u : DeviceUnit)
      → serve_stack stack packet size bm delivered u ≡ settled bm delivered u (offer bm)
  unfolding serve_stack
  serve_stack_lem bm delivered u =
      ap (finished bm delivered u) (serve_queue_lem bm.rx_queue)
      ∙ finished-settled bm delivered u (first_match (packet_type_of packet) bm.rx_queue)

  serve_stacks_lem :
      (bms : List BufferManagement) (delivered : Bool) (u : DeviceUnit)
      → serve_stacks stack packet size bms delivered u
        ≡ (after_offers bms, last_taken delivered (offers bms), settle_all (offers bms) u)
  unfolding serve_stacks
  serve_stacks_lem [] delivered u = refl
  serve_stacks_lem (bm ∷ bms) delivered u =
      let next : BufferManagement × Bool × DeviceUnit → List BufferManagement × Bool × DeviceUnit =
        λ p.
          let rest = serve_stacks stack packet size bms p.1 p.2 in (p.0 ∷ rest.0, rest.1, rest.2) in
      let s = settled bm delivered u (offer bm) in
      ap next (serve_stack_lem bm delivered u)
      ∙ ap (λ p. (s.0 ∷ p.0, p.1, p.2)) (serve_stacks_lem bms s.1 s.2)
      ∙ split (offer bm)
    where
      split :
          (o : Option Fulfilment)
          → (let s = settled bm delivered u o in
              ◌≡◌ {A = List BufferManagement × Bool × DeviceUnit}
                (s.0 ∷ after_offers bms, last_taken s.1 (offers bms), settle_all (offers bms) s.2)
                (
                  with_outcome (packet_type_of packet) bm o ∷ after_offers bms,
                  last_taken delivered (made o (offers bms)),
                  settle_all (made o (offers bms)) u,
                ))
      split none = refl
      split (some f) = refl

  -- A received packet is offered to each entry once, in their order: to the first request of its queue
  -- that takes the type, if there is one. A request that refuses stays in its place, the others are
  -- answered and leave the queue, and nothing else in the queues moves. Whether the packet goes to the
  -- orphan requests as well depends on the last of the offers alone: it does if that was refused or
  -- failed, or if none was made.
  pub on_pkt_received-offers :
      (u : DeviceUnit)
      → on_pkt_received stack packet size u
        ≡ offer_to_orphans stack packet size
            (last_taken false (offers u.buff_mgmt))
            (record (settle_all (offers u.buff_mgmt) (record u { buff_mgmt = [] })) {
              buff_mgmt = after_offers u.buff_mgmt;
            })
  unfolding on_pkt_received
  on_pkt_received-offers u =
      ap (λ p. offer_to_orphans stack packet size p.1 (record (p.2) { buff_mgmt = p.0 }))
        (serve_stacks_lem u.buff_mgmt false (record u { buff_mgmt = [] }))
