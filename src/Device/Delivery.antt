-- ===== src/Device/Delivery.antt =====
-- Received packets: how long they are for a request, which request of a queue they are tried on, and
-- when they go to the orphan requests.
use driver_amiga_os_ks.Device.Stack.{Stack}
use driver_amiga_os_ks.Device.Receive.{
  delivered_length, on_pkt_received, serve_queue, serve_stacks, offer_to_orphans, packet_type_of,
  serve_stack, answer_found, matches, serve_orphan, fulfil, tried_on, kept,
}
use driver_amiga_os_ks.Prelude.{
  ℕ, Bool, List, ◌≤◌, if◌then◌else◌, true, ◌∷◌, ◌≡◌, ◌&&◌, false, none, not, ◌++◌, [], ap, arith,
  ◌-◌, refl, ◌<◌, ◌∙◌, min,
}
use driver_amiga_os_ks.Device.Types.{BufferManagement, Request, DeviceUnit}

-- The length that a read request is told is that of the packet, cut to the MTU and the header, and
-- less the header for a cooked request, for every 16-bit length of at least a header.
delivered_length_lem :
    (raw : Bool) (size : ℕ)
    → 14 ≤ size
    → size < 65536
    → delivered_length raw size ≡ (if raw then min size 1514 else min size 1514 - 14)
unfolding delivered_length
delivered_length_lem true size a b = ground arith
delivered_length_lem false size a b = ground arith

-- Whether no request of a queue takes packets of the type.
abbrev pub none_match : ℕ → List Request → Bool
none_match packet_type [] = true
none_match packet_type (r ∷ rs) = not (matches packet_type r) && none_match packet_type rs

abbrev pub none_match_in : ℕ → List BufferManagement → Bool
none_match_in packet_type [] = true
none_match_in packet_type (bm ∷ bms) =
    none_match packet_type bm.rx_queue && none_match_in packet_type bms

module _ (stack : Stack) (packet : List ℕ) (size : ℕ) where
  serve_queue-none_match :
      (rs : List Request)
      → none_match (packet_type_of packet) rs ≡ true
      → serve_queue stack packet size rs ≡ (rs, none, false)
  unfolding serve_queue
  serve_queue-none_match [] h = refl
  serve_queue-none_match (r ∷ rs) h = ground (arith, serve_queue-none_match rs)

  serve_stacks-none_match :
      (bms : List BufferManagement) (u : DeviceUnit)
      → none_match_in (packet_type_of packet) bms ≡ true
      → serve_stacks stack packet size bms false u ≡ (bms, false, u)
  unfolding serve_stacks serve_stack answer_found
  serve_stacks-none_match [] u h = refl
  serve_stacks-none_match (bm ∷ bms) u h =
      let e = serve_queue-none_match bm.rx_queue (ground arith) in
      let rest = serve_stacks-none_match bms u (ground arith) in
      ap
        (λ s.
          let a = answer_found stack packet size s.1 u in
          let p = serve_stacks stack packet size bms (if s.2 then a.0 else false) a.1 in
          (record bm { rx_queue = s.0 } ∷ p.0, p.1, p.2))
        e
      ∙ ap (λ p. (bm ∷ p.0, p.1, p.2)) rest

  -- A packet whose type fits no waiting read request is only offered to the first orphan request.
  on_pkt_received-orphan :
      (u : DeviceUnit)
      → none_match_in (packet_type_of packet) u.buff_mgmt ≡ true
      → on_pkt_received stack packet size u ≡ serve_orphan stack packet size u.read_orphan u
  unfolding on_pkt_received offer_to_orphans
  on_pkt_received-orphan u h =
      ap (λ p. offer_to_orphans stack packet size p.1 (record (p.2) { buff_mgmt = p.0 }))
        (serve_stacks-none_match u.buff_mgmt (record u { buff_mgmt = [] }) h)

  matches-head :
      (x : Request) (xs : List Request)
      → none_match (packet_type_of packet) (x ∷ xs) ≡ true
      → matches (packet_type_of packet) x ≡ false
  matches-head x xs h = ground arith

  -- A queue tries the packet on its first request that takes the type, and on no other: the requests
  -- before it and behind it stay as they are, when none before it takes the type.
  serve_queue-first :
      (before after : List Request) (r : Request)
      → none_match (packet_type_of packet) before ≡ true
      → matches (packet_type_of packet) r ≡ true
      → serve_queue stack packet size (before ++ r ∷ after) ≡ (
          let (queue, found, tried) =
            tried_on stack packet size after (fulfil stack packet size r) in
          (before ++ queue, found, tried))
  unfolding serve_queue
  serve_queue-first [] after r h m =
      ap
        (λ b. if b then tried_on stack packet size after (fulfil stack packet size r) else (
          r ∷ (serve_queue stack packet size after).0,
          (serve_queue stack packet size after).1,
          (serve_queue stack packet size after).2,
        ))
        m
  serve_queue-first (x ∷ xs) after r h m =
      let rest = serve_queue stack packet size (xs ++ r ∷ after) in
      ap
        (λ b.
          if b
          then tried_on stack packet size (xs ++ r ∷ after) (fulfil stack packet size x)
          else (x ∷ rest.0, rest.1, rest.2))
        (matches-head x xs h)
      ∙ ap (λ p. (x ∷ p.0, p.1, p.2)) (serve_queue-first xs after r (ground arith) m)

  -- When the first request of an entry that takes the type refuses the packet, the flag that tells
  -- whether a stack took the packet is false afterwards, whether or not it was true before.
  serve_stack-refused :
      (before after : List Request) (r r' : Request) (bm : BufferManagement)
      → (delivered : Bool) (u : DeviceUnit) → bm.rx_queue ≡ before ++ r ∷ after
      → none_match (packet_type_of packet) before ≡ true
      → matches (packet_type_of packet) r ≡ true
      → fulfil stack packet size r ≡ kept r'
      → (serve_stack stack packet size bm delivered u).1 ≡ false
  unfolding serve_stack answer_found tried_on
  serve_stack-refused before after r r' bm delivered u q h m f =
      let served : serve_queue stack packet size bm.rx_queue ≡ (before ++ r' ∷ after, none, true) =
        ap (serve_queue stack packet size) q
        ∙ serve_queue-first before after r h m
        ∙ ap
            (λ outcome.
              let (queue, found, tried) = tried_on stack packet size after outcome in
              (before ++ queue, found, tried))
            f in
      ap (λ s. if s.2 then (answer_found stack packet size s.1 u).0 else delivered) served
