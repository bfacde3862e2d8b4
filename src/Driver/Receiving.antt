-- ===== src/Driver/Receiving.antt =====
-- A frame from the data port of the chip up to the device.
use mathlib.Core.Path.{fun_ext}
use mathlib.Core.List.{append-nil}
use driver_amiga_os_ks.Prelude.{
  length as length_of, Bool, drop, some, ◌++◌, true, ◌+◌, ◌≡◌, ◌-◌, suc, ◌%◌, zero, refl, ◌<◌, ◌∷◌,
  ap, ◌∙◌, has, bit_and, if◌then◌else◌, ◌/◌, [], sym, ◌*◌, ◌≤◌, false, ◌||◌, ◌&&◌, arith,
}
use driver_amiga_os_ks.Prelude.{ℕ, List}
use driver_amiga_os_ks.Chip.Bus.{Delivery, Nic, write_reg, set_bit, read_reg, clear_bit, pure, M}
use driver_amiga_os_ks.Chip.Fifo.{read_words, read_fifo, Bytes, dword_aligned}
use driver_amiga_os_ks.Chip.Receive.{
  take_frame, fill_rx_buffer, deliver, overwrite, contents, receive_packet, receive_valid,
  release_frame, error_bits,
}
use driver_amiga_os_ks.Chip.Send.{Error, padded}
use driver_amiga_os_ks.Chip.Transfer.{
  Gives, first_bytes, read_words-Gives, behind, read_words_keeps,
}
use driver_amiga_os_ks.Chip.Reg.{rxfhsr_rxfv, rxfhbcr_rxbc_mask, reg_rxfhsr, reg_rxfhbcr}
use driver_amiga_os_ks.Chip.Outcomes.{is_acceptable}
use driver_amiga_os_ks.Chip.Wire.{prepend, ethernet_header, first_bytes-prepend, first_bytes-header}
use driver_amiga_os_ks.Driver.Sending.{frame_bytes}
use driver_amiga_os_ks.Device.Types.{Request, DeviceUnit, nt_message, term_io}
use driver_amiga_os_ks.Device.Receive.{
  describe, delivered_length, is_broadcast_ethernet_address, packet_type_of, matches,
  on_pkt_received, dev_cmd_read_packet, payload_of,
}
use driver_amiga_os_ks.Device.Stack.{Stack}
use driver_amiga_os_ks.Device.Progress.{on_pkt_received-dev_cmd_read_packet}
use driver_amiga_os_ks.Chip.Reception.{before_fifo, behind_fifo}

-- A chip driver that is ready to receive into a buffer.
abbrev pub receiving : List ℕ → Nic → Nic
receiving old n = record n { rx_buffer = some old; on_packet_received = true }

-- The delivery of a frame of the length, when the chip has filled the buffer with the bytes.
abbrev pub delivery_of : List ℕ → ℕ → List ℕ → ℕ → Delivery
delivery_of bytes length old disabled = record {
  buffer = drop 2 (bytes ++ drop (length_of bytes) old);
  size = (length + 65536 - 6) % 65536;
  nesting = disabled - 1;
}

take_frame-first_bytes :
    (length : ℕ) (bytes : Bytes) (old : List ℕ) (n : Nic)
    → ((i : ℕ) → bytes i < 256)
    → Gives n.is_in_big_endian_mode bytes
        (dword_aligned length)
        n.answers
        (suc (suc (suc (suc n.reads))))
    → (take_frame length (receiving old n)).1.delivered
      ≡ delivery_of (first_bytes bytes (dword_aligned length)) length old n.disabled ∷ n.delivered
unfolding take_frame fill_rx_buffer deliver read_fifo write_reg set_bit read_reg clear_bit overwrite
    contents
take_frame-first_bytes length bytes old n b g =
    let m = before_fifo (receiving old n) in
    let k = dword_aligned length in
    let read = read_words n.is_in_big_endian_mode k m in
    let words = read_words-Gives n.is_in_big_endian_mode bytes k m b g in
    let (reads, trace, kept) = read_words_keeps n.is_in_big_endian_mode k m in
    ap (λ bs. (behind_fifo length (bs, read.1)).1.delivered) words
    ∙ ap (λ n'. (behind_fifo length (first_bytes bytes k, n')).1.delivered) kept

receive_packet-first_bytes :
    (length : ℕ) (bytes : Bytes) (old : List ℕ) (n : Nic)
    → has (n.answers n.reads) rxfhsr_rxfv ≡ true
    → bit_and (n.answers (suc n.reads)) rxfhbcr_rxbc_mask ≡ length
    → is_acceptable length ≡ true
    → ((i : ℕ) → bytes i < 256)
    → Gives n.is_in_big_endian_mode bytes
        (dword_aligned length)
        n.answers
        (suc (suc (suc (suc (suc (suc n.reads))))))
    → (receive_packet (receiving old n)).1.delivered
      ≡ delivery_of (first_bytes bytes (dword_aligned length)) length old n.disabled ∷ n.delivered
unfolding receive_packet receive_valid read_reg release_frame
receive_packet-first_bytes length bytes old n valid counted accepted b g =
    let frame_status = read_reg reg_rxfhsr (receiving old n) in
    let invalid : M Error =
      if has frame_status.0 error_bits then release_frame else pure Error.invalid_packet in
    let byte_count = read_reg reg_rxfhbcr frame_status.1 in
    let taken : ℕ → Bool → Error × Nic =
      λ len b. (if b then take_frame len else release_frame) byte_count.1 in
    ap (λ b. ((if b then receive_valid else invalid) frame_status.1).1.delivered) valid
    ∙ ap (λ len. (taken len (is_acceptable len)).1.delivered) counted
    ∙ ap (λ b. (taken length b).1.delivered) accepted
    ∙ take_frame-first_bytes length bytes old
        (record (byte_count.1) {
          rx_buffer = n.rx_buffer;
          on_packet_received = n.on_packet_received;
        })
        b g

prepend-append :
    (xs ys : List ℕ) (bytes : Bytes) (i : ℕ)
    → prepend (xs ++ ys) bytes i ≡ prepend xs (prepend ys bytes) i
prepend-append [] ys bytes i = refl
prepend-append (x ∷ xs) ys bytes zero = refl
prepend-append (x ∷ xs) ys bytes (suc i) = prepend-append xs ys bytes i

-- What the chip's memory holds of a frame that has come in: two bytes of its own, the Ethernet header, the
-- payload in whole words, and what follows.
abbrev pub image : ℕ → ℕ → Bytes → Bytes → ℕ → Bytes → ℕ → Bytes → Bytes
image x y dst src packet_type payload length trailer =
    prepend (x ∷ y ∷ frame_bytes dst src packet_type payload length) trailer

-- The words of such a frame: one, seven for the header, and those of the payload.
first_bytes-image :
    (x y : ℕ) (dst src : Bytes) (packet_type : ℕ) (payload : Bytes) (length : ℕ) (trailer : Bytes)
    → (k : ℕ)
    → first_bytes
        (image x y dst src packet_type payload length trailer)
        (1 + (3 + (3 + (1 + ((padded length + 1) / 2 + k)))))
      ≡ x ∷ y ∷ ethernet_header dst src packet_type
        ++ (first_bytes payload ((padded length + 1) / 2) ++ first_bytes trailer k)
first_bytes-image x y dst src packet_type payload length trailer k =
    let words = (padded length + 1) / 2 in
    let sent = first_bytes payload words in
    let front = prepend (x ∷ y ∷ []) trailer in
    let header = ethernet_header dst src packet_type in
    let behind_header = prepend sent trailer in
    let split : image x y dst src packet_type payload length trailer
        ≡ prepend (first_bytes front 1 ++ []) (prepend header behind_header) =
      fun_ext (λ i.
        prepend-append (x ∷ y ∷ header) sent trailer i
        ∙ prepend-append (x ∷ y ∷ []) header behind_header i) in
    let payload_and_on : first_bytes behind_header (words + k) ≡ sent ++ first_bytes trailer k =
      ap (λ l. first_bytes (prepend l trailer) (words + k)) (sym (append-nil sent))
      ∙ first_bytes-prepend payload words [] trailer k in
    ap (λ f. first_bytes f (1 + (3 + (3 + (1 + (words + k)))))) split
    ∙ first_bytes-prepend front 1 [] (prepend header behind_header) (3 + (3 + (1 + (words + k))))
    ∙ ap (λ l. x ∷ y ∷ l)
        (first_bytes-header dst src packet_type behind_header (words + k)
          ∙ ap (λ l. header ++ l) payload_and_on)

-- The length that the chip gives for a frame: two bytes of its own, the frame and its checksum.
abbrev pub counted_length : ℕ → ℕ
counted_length length = padded length + 20

-- The words behind the payload that the driver reads, up to a multiple of four bytes.
abbrev pub words_behind : ℕ → ℕ
words_behind length = (counted_length length + 3) / 4 * 2 - (8 + (padded length + 1) / 2)

-- The receive buffer from the payload on: the payload, what follows it, and what was there before.
abbrev pub arrived : Bytes → ℕ → Bytes → List ℕ → List ℕ
arrived payload length trailer old =
    (first_bytes payload ((padded length + 1) / 2) ++ first_bytes trailer (words_behind length))
    ++ drop ((counted_length length + 3) / 4 * 4) old

-- The request with what the frame says, and as much payload as was sent, of at least 46 bytes.
abbrev pub received : Bytes → Bytes → ℕ → ℕ → Request → Request
received dst src packet_type length r =
    let multicast = has (dst 0) 1 in
    let broadcast = is_broadcast_ethernet_address (first_bytes dst 3) in
    record r {
      dst_addr = first_bytes dst 3;
      src_addr = first_bytes src 3;
      packet_type = packet_type;
      data_length = padded length;
      bcast = r.bcast || multicast && broadcast;
      mcast = if multicast then if broadcast then r.mcast else true else r.mcast;
    }

describe-received :
    (dst src : Bytes) (packet_type length : ℕ) (rest : List ℕ) (r : Request)
    → length ≤ 1500
    → r.raw ≡ false
    → describe
        (ethernet_header dst src packet_type ++ rest)
        ((counted_length length + 65536 - 6) % 65536)
        r
      ≡ received dst src packet_type length r
unfolding describe delivered_length
describe-received dst src packet_type length rest r h cooked =
    let frame = ethernet_header dst src packet_type ++ rest in
    let type_back : packet_type / 256 * 256 + packet_type % 256 ≡ packet_type = omega arith in
    let size = (counted_length length + 65536 - 6) % 65536 in
    let long : delivered_length false size ≡ padded length = ground arith in
    ap
      (λ raw. record (received dst src (packet_type_of frame) length r) {
        data_length = delivered_length raw size;
      })
      cooked
    ∙ ap (λ len. record (received dst src (packet_type_of frame) length r) { data_length = len })
        long
    ∙ ap (λ t. received dst src t length r) type_back

length-first_bytes : (bytes : Bytes) (k : ℕ) → length_of (first_bytes bytes k) ≡ k * 2
length-first_bytes bytes zero = refl
length-first_bytes bytes (suc k) = omega (arith, length-first_bytes (behind bytes) k)

arrived-image :
    (x y : ℕ) (dst src : Bytes) (packet_type : ℕ) (payload : Bytes) (length : ℕ) (trailer : Bytes)
    → (old : List ℕ) (disabled : ℕ) → length ≤ 1500
    → delivery_of
        (first_bytes
          (image x y dst src packet_type payload length trailer)
          (dword_aligned (counted_length length)))
        (counted_length length)
        old
        disabled
      ≡ record {
        buffer = ethernet_header dst src packet_type ++ arrived payload length trailer old;
        size = (counted_length length + 65536 - 6) % 65536;
        nesting = disabled - 1;
      }
unfolding dword_aligned
arrived-image x y dst src packet_type payload length trailer old disabled h =
    let memory = image x y dst src packet_type payload length trailer in
    let all = dword_aligned (counted_length length) in
    let delivery : List ℕ → ℕ → Delivery = λ bytes skipped. record {
      buffer = drop 2 (bytes ++ drop skipped old);
      size = (counted_length length + 65536 - 6) % 65536;
      nesting = disabled - 1;
    } in
    let words : all ≡ 1 + (3 + (3 + (1 + ((padded length + 1) / 2 + words_behind length)))) =
      ground arith in
    let skipped : all * 2 ≡ (counted_length length + 3) / 4 * 4 = ground arith in
    ap (delivery (first_bytes memory all)) (length-first_bytes memory all ∙ skipped)
    ∙ ap (λ bytes. delivery bytes ((counted_length length + 3) / 4 * 4))
        (ap (first_bytes memory) words
          ∙ first_bytes-image x y dst src packet_type payload length trailer (words_behind length))

module _ (stack : Stack) where
  open stack use {copy_to_buffer, call_filter_hook}

  -- A frame from the data port of the chip up to a waiting read request: if the chip marks a frame as
  -- valid and gives, in either byte order, two bytes, the Ethernet header and the payload of a cooked
  -- transmission and whatever follows, then the packet that the chip driver hands over completes a cooked
  -- read request of the type, which waits alone on an online unit, with the sender's destination, station
  -- address and type and as much payload as was sent, if the opener's filter wants the packet and its copy
  -- function takes it.
  pub receive_packet-dev_cmd_read_packet :
      (x y : ℕ) (dst src : Bytes) (packet_type : ℕ) (payload : Bytes) (length : ℕ) (trailer : Bytes)
      → (old : List ℕ) (n : Nic) (r : Request) (u : DeviceUnit) → length ≤ 1500
      → has (n.answers n.reads) rxfhsr_rxfv ≡ true
      → bit_and (n.answers (suc n.reads)) rxfhbcr_rxbc_mask ≡ counted_length length
      → ((i : ℕ) → image x y dst src packet_type payload length trailer i < 256)
      → Gives n.is_in_big_endian_mode
          (image x y dst src packet_type payload length trailer)
          (dword_aligned (counted_length length))
          n.answers
          (suc (suc (suc (suc (suc (suc n.reads))))))
      → u.is_online ≡ true
      → r.has_buffer_management ≡ true
      → r.raw ≡ false
      → matches packet_type r ≡ true
      → (let r' = received dst src packet_type length (record r { node_type = nt_message }) in
          let bytes = arrived payload length trailer old in
          (call_filter_hook r.buffer_management.packet_filter_hook r' bytes ≡ true)
          × (copy_to_buffer r.buffer_management.copy_to_buffer r' bytes (padded length) ≡ true))
      → (let alone = record u {
        buff_mgmt = record { callbacks = r.buffer_management; rx_queue = [] } ∷ [];
      } in
          (d : Delivery) × ((receive_packet (receiving old n)).1.delivered ≡ d ∷ n.delivered)
          × (on_pkt_received stack d.buffer d.size (dev_cmd_read_packet r alone)
              ≡ term_io
                  (received dst src packet_type length (record r { node_type = nt_message }))
                  alone))
  unfolding payload_of describe
  receive_packet-dev_cmd_read_packet x y dst src packet_type payload length trailer old n r u h
        valid counted b g o m raw t (f, c) =
      let rest = arrived payload length trailer old in
      let packet = ethernet_header dst src packet_type ++ rest in
      let size = (counted_length length + 65536 - 6) % 65536 in
      let waiting = record r { node_type = nt_message } in
      let r' = received dst src packet_type length waiting in
      let described = describe-received dst src packet_type length rest waiting h raw in
      let memory = image x y dst src packet_type payload length trailer in
      let type_back : packet_type / 256 * 256 + packet_type % 256 ≡ packet_type = omega arith in
      let hook = call_filter_hook r.buffer_management.packet_filter_hook in
      let copy = copy_to_buffer r.buffer_management.copy_to_buffer in
      (
        record { buffer = packet; size = size; nesting = n.disabled - 1 },
        receive_packet-first_bytes (counted_length length) memory old n valid counted (ground arith)
              b g
            ∙ ap (λ d. d ∷ n.delivered)
                (arrived-image x y dst src packet_type payload length trailer old n.disabled h),
        on_pkt_received-dev_cmd_read_packet stack packet size r u o m
              (ap (λ v. matches v r) type_back ∙ t)
              (ap (λ q. hook q (payload_of r.raw packet)) described
                ∙ ap (λ b. hook r' (payload_of b packet)) raw
                ∙ f)
              (ap (λ q. copy q (payload_of r.raw packet) q.data_length) described
                ∙ ap (λ b. copy r' (payload_of b packet) (padded length)) raw
                ∙ c)
            ∙ ap
                (λ q. term_io q (record u {
                  buff_mgmt = record { callbacks = r.buffer_management; rx_queue = [] } ∷ [];
                }))
                described,
      )
