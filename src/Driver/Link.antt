-- ===== src/Driver/Link.antt =====
-- Two devices: what one of them is asked to write, and what the other one's reader gets.
use mathlib.Core.Path.{fun_ext}
use mathlib.Core.List.{append_assoc}
use driver_amiga_os_ks.Prelude.{
  ℕ, List, length, ◌≡◌, ◌≤◌, ◌*◌, has, get_or, take, ◌%◌, ◌++◌, arith, ◌∷◌, [], suc, ◌||◌, ◌&&◌,
  ◌+◌, refl, if◌then◌else◌, ap, true, ◌∙◌, zero, leb, false, ltb, bit_and, some, ◌<◌, leb→le, ◌/◌,
  drop, sym,
}
use driver_amiga_os_ks.Device.Types.{Request, DeviceUnit, Callbacks, nt_message, term_io}
use driver_amiga_os_ks.Chip.Transfer.{first_bytes, behind, Gives}
use driver_amiga_os_ks.Driver.Sending.{
  frame_bytes, accepted, after_frame, dev_cmd_write_packet-after_frame,
}
use driver_amiga_os_ks.Driver.Receiving.{
  received, arrived, counted_length, receiving, receive_packet-dev_cmd_read_packet, words_behind,
}
use driver_amiga_os_ks.Driver.{memory_of, Platform, run_calls}
use driver_amiga_os_ks.Device.Receive.{
  is_broadcast_ethernet_address, matches, on_pkt_received, dev_cmd_read_packet,
}
use driver_amiga_os_ks.Chip.Send.{padded}
use driver_amiga_os_ks.Chip.Fifo.{Bytes, dword_aligned}
use driver_amiga_os_ks.Device.Stack.{Stack}
use driver_amiga_os_ks.Chip.Wire.{prepend, header_bytes}
use driver_amiga_os_ks.Chip.Bus.{Nic, Delivery}
use driver_amiga_os_ks.Device.Transmit.{cooked_payload, dev_cmd_write_packet}
use driver_amiga_os_ks.Chip.Reg.{txmir_txma_mask, rxfhsr_rxfv, rxfhbcr_rxbc_mask, eth_header_size}
use driver_amiga_os_ks.Chip.Receive.{receive_packet}

-- The bytes that a written request puts on the network.
abbrev pub sent_frame : Request → DeviceUnit → Bytes → List ℕ
sent_frame r u payload =
    frame_bytes (memory_of r.dst_addr) (memory_of u.st_addr) (r.packet_type % 65536) payload
      r.data_length

-- The reader's request with what the writer's says.
abbrev pub received_from : Request → DeviceUnit → Request → Request
received_from written u r =
    let multicast = has (get_or written.dst_addr 0 0) 1 in
    let broadcast = is_broadcast_ethernet_address written.dst_addr in
    record r {
      dst_addr = written.dst_addr;
      src_addr = u.st_addr;
      packet_type = written.packet_type % 65536;
      data_length = padded written.data_length;
      bcast = r.bcast || multicast && broadcast;
      mcast = if multicast then if broadcast then r.mcast else true else r.mcast;
    }

first_bytes-memory_of : (xs : List ℕ) → length xs ≡ 6 → first_bytes (memory_of xs) 3 ≡ xs
first_bytes-memory_of [] h = absurd (omega (arith, h))
first_bytes-memory_of (a ∷ []) h = absurd (omega (arith, h))
first_bytes-memory_of (a ∷ b ∷ []) h = absurd (omega (arith, h))
first_bytes-memory_of (a ∷ b ∷ c ∷ []) h = absurd (omega (arith, h))
first_bytes-memory_of (a ∷ b ∷ c ∷ d ∷ []) h = absurd (omega (arith, h))
first_bytes-memory_of (a ∷ b ∷ c ∷ d ∷ e ∷ []) h = absurd (omega (arith, h))
first_bytes-memory_of (a ∷ b ∷ c ∷ d ∷ e ∷ f ∷ []) h = refl
first_bytes-memory_of (a ∷ b ∷ c ∷ d ∷ e ∷ f ∷ g ∷ xs) h = absurd (omega (arith, h))

received-memory_of :
    (written r : Request) (u : DeviceUnit)
    → length written.dst_addr ≡ 6
    → length u.st_addr ≡ 6
    → received
        (memory_of written.dst_addr)
        (memory_of u.st_addr)
        (written.packet_type % 65536)
        written.data_length
        r
      ≡ received_from written u r
received-memory_of written r u d s =
    let with_addresses : List ℕ → List ℕ → Request = λ dst src.
      let multicast = has (get_or written.dst_addr 0 0) 1 in
      let broadcast = is_broadcast_ethernet_address dst in
      record r {
        dst_addr = dst;
        src_addr = src;
        packet_type = written.packet_type % 65536;
        data_length = padded written.data_length;
        bcast = r.bcast || multicast && broadcast;
        mcast = if multicast then if broadcast then r.mcast else true else r.mcast;
      } in
    ap (λ dst. with_addresses dst (first_bytes (memory_of u.st_addr) 3))
      (first_bytes-memory_of written.dst_addr d)
    ∙ ap (with_addresses written.dst_addr) (first_bytes-memory_of u.st_addr s)

-- The payload comes first in what the words of its memory and anything behind them give.
take-first_bytes :
    (bytes : List ℕ) (stale : Bytes) (k : ℕ) (rest : List ℕ)
    → length bytes ≤ k * 2
    → take (length bytes) (first_bytes (prepend bytes stale) k ++ rest) ≡ bytes
take-first_bytes [] stale k rest h = refl
take-first_bytes (a ∷ bytes) stale zero rest h = absurd (omega arith)
take-first_bytes (a ∷ []) stale (suc k) rest h = refl
take-first_bytes (a ∷ b ∷ bytes) stale (suc k) rest h =
    let two_on : (i : ℕ) → i + 2 ≡ suc (suc i) = λ i. omega arith in
    let memory = prepend (a ∷ b ∷ bytes) stale in
    let shifted : behind memory ≡ prepend bytes stale = fun_ext (λ i. ap memory (two_on i)) in
    ap (λ f. a ∷ b ∷ take (length bytes) (first_bytes f k ++ rest)) shifted
    ∙ ap (λ l. a ∷ b ∷ l) (take-first_bytes bytes stale k rest (omega arith))

-- What the chip of the other device has of the frame: two bytes of its own, the frame, and what follows.
abbrev pub come_in : ℕ → ℕ → List ℕ → Bytes → Bytes
come_in x y frame trailer = prepend (x ∷ y ∷ frame) trailer

-- A unit that no other request waits at.
abbrev pub alone : Callbacks → DeviceUnit → DeviceUnit
alone opener u = record u { buff_mgmt = record { callbacks = opener; rx_queue = [] } ∷ [] }

module _ (written r : Request) (u other : DeviceUnit) (bytes : List ℕ)
    (stack other_stack : Stack) where
  -- The writer is online, sends nothing else, and gets a cooked packet that fits from its stack.
  abbrev pub CanWrite : Type 0
  CanWrite =
      (u.is_online ≡ true)
      × (u.tx ≡ [])
      × (leb written.data_length u.mtu ≡ true)
      × (leb written.data_length 1500 ≡ true)
      × (written.raw ≡ false)
      × (written.wire_error ≡ 0)
      × (cooked_payload stack (accepted written) ≡ some bytes)
      × (length written.dst_addr ≡ 6)
      × (length u.st_addr ≡ 6)
      × (length bytes ≡ written.data_length)

  -- The reader's unit is online, and its stack wants the packet and takes it.
  abbrev pub CanRead : Bytes → Bytes → List ℕ → Type 0
  CanRead payload trailer old =
      let r' = received_from written u (record r { node_type = nt_message }) in
      let packet = arrived payload written.data_length trailer old in
      (other.is_online ≡ true)
      × (r.has_buffer_management ≡ true)
      × (r.raw ≡ false)
      × (matches (written.packet_type % 65536) r ≡ true)
      × (other_stack.call_filter_hook r.buffer_management.packet_filter_hook r' packet ≡ true)
      × (other_stack.copy_to_buffer r.buffer_management.copy_to_buffer r' packet
            (padded written.data_length)
          ≡ true)

  -- A packet from one device to another. The writer's unit is online and has nothing else to send, the
  -- request is cooked, has a wire error of 0, fits in the MTU and in 1500 bytes, and its stack gives as many
  -- bytes as it says; both addresses have six bytes. Then the request makes the writer's chip, if it has
  -- room, send a run of bytes: the chip's header and the frame, whose payload is filled up with whatever
  -- lies behind it in memory. The reader's unit is online and has one opener and no other read; its cooked
  -- request is for the type, the opener's filter wants the packet, and its function takes it. If the
  -- other device's chip then gives a valid frame of that length whose words are two bytes, the same frame,
  -- and whatever follows, in either byte order, the packet that its driver hands over completes the read
  -- request, with the written request's destination, the writer's station address, the type, and the
  -- length, of at least 46; and the bytes that the reader's stack is given to copy begin with those that the
  -- writer's gave.
  pub dev_cmd_write_packet-dev_cmd_read_packet :
      (platform : Platform) (nic n : Nic) (x y : ℕ) (trailer : Bytes) (old : List ℕ)
      → CanWrite
      → (let m = (run_calls platform u.low_level nic).1 in
          ltb (bit_and (m.answers m.reads) txmir_txma_mask) (padded written.data_length + 8)
          ≡ false)
      → CanRead (prepend bytes (platform.stale (length u.low_level))) trailer old
      → has (n.answers n.reads) rxfhsr_rxfv ≡ true
      → bit_and (n.answers (suc n.reads)) rxfhbcr_rxbc_mask ≡ counted_length written.data_length
      → ((i : ℕ)
          → come_in x y
              (sent_frame written u (prepend bytes (platform.stale (length u.low_level))))
              trailer
              i
            < 256)
      → Gives n.is_in_big_endian_mode
          (come_in x y
            (sent_frame written u (prepend bytes (platform.stale (length u.low_level))))
            trailer)
          (dword_aligned (counted_length written.data_length))
          n.answers
          (suc (suc (suc (suc (suc (suc n.reads))))))
      → (let m = (run_calls platform u.low_level nic).1 in
          let u' = dev_cmd_write_packet stack written u in
          let payload = prepend bytes (platform.stale (length u.low_level)) in
          let reader = alone r.buffer_management other in
          ((run_calls platform u'.low_level nic).1
            ≡ after_frame
                (header_bytes m.frame_id (padded written.data_length + eth_header_size)
                  ++ sent_frame written u payload)
                m)
          × ((d : Delivery) × ((receive_packet (receiving old n)).1.delivered ≡ d ∷ n.delivered)
              × (on_pkt_received other_stack d.buffer d.size (dev_cmd_read_packet r reader)
                  ≡ term_io (received_from written u (record r { node_type = nt_message })) reader))
          × (take written.data_length (arrived payload written.data_length trailer old) ≡ bytes))
  dev_cmd_write_packet-dev_cmd_read_packet platform nic n x y trailer old
        (online, idle, fits, short, cooked, no_error, copied, dst, src, whole) room
        (other_online, managed, other_cooked, type, wanted, taken) valid counted below given =
      let payload = prepend bytes (platform.stale (length u.low_level)) in
      let length_short = leb→le written.data_length 1500 short in
      let waiting = record r { node_type = nt_message } in
      let words = (padded written.data_length + 1) / 2 in
      let behind_payload = first_bytes trailer (words_behind written.data_length) in
      let old_rest = drop ((counted_length written.data_length + 3) / 4 * 4) old in
      let packet = arrived payload written.data_length trailer old in
      let same = received-memory_of written waiting u dst src in
      let hook = other_stack.call_filter_hook r.buffer_management.packet_filter_hook in
      let copy = other_stack.copy_to_buffer r.buffer_management.copy_to_buffer in
      let sent =
        dev_cmd_write_packet-after_frame stack platform nic written u bytes online idle fits short
          cooked no_error copied room in
      let (d, delivered, completed) =
        receive_packet-dev_cmd_read_packet other_stack x y (memory_of written.dst_addr)
          (memory_of u.st_addr) (written.packet_type % 65536) payload written.data_length trailer
          old n r other length_short valid counted below given other_online managed other_cooked
          type
          (
            ap (λ q. hook q packet) same ∙ wanted,
            ap (λ q. copy q packet (padded written.data_length)) same ∙ taken,
          ) in
      (
        sent.1,
        (d, delivered, completed ∙ ap (λ q. term_io q (alone r.buffer_management other)) same),
        ap (λ n. take n packet) (sym whole)
            ∙ ap (take (length bytes))
                (append_assoc (first_bytes payload words) behind_payload old_rest)
            ∙ take-first_bytes bytes (platform.stale (length u.low_level)) words
                (behind_payload ++ old_rest) (ground arith),
      )
