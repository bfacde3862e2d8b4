-- ===== src/Chip/Wire.antt =====
-- KSZ8851/servicetool/ksz8851.c: what a sent packet is on the data port.
use mathlib.Core.Path.{fun_ext}
use driver_amiga_os_ks.Chip.Fifo.{
  Bytes, word, write_fifo_word_align, swap, write_words, write_fifo, dword_aligned,
}
use driver_amiga_os_ks.Prelude.{
  Bool, List, ℕ, if◌then◌else◌, ◌*◌, ◌+◌, ◌++◌, ◌∷◌, bit_or, ◌≡◌, suc, zero, refl, ◌%◌, ◌/◌, [],
  ◌==◌, ◌≤◌, ◌<◌, arith, ap, bit_and, ◌∙◌, sym, low_63, bit_or-shifted_left,
}
use driver_amiga_os_ks.Chip.Bus.{◌>>=◌, ◌>>◌, M, Nic, pure, put_data, store, set_bit, clear_bit}
use driver_amiga_os_ks.Chip.Send.{
  no_error, Error, transmit_cooked, next_control_word, tx_header, type_bytes, transmit,
}
use driver_amiga_os_ks.Chip.Transfer.{first_bytes, stores, behind, write_words_lem, swap_lem}
use driver_amiga_os_ks.Chip.Reg.{
  eth_header_size, reg_rxqcr, rxqcr_sda, reg_txqcr, txqcr_metfe, tx_ctrl_txic, tx_ctrl_txfid,
}
use driver_amiga_os_ks.Device.Types.{no_error}

-- The word that a pair of bytes is on the bus.
abbrev pair_word : Bool → ℕ → ℕ → ℕ
pair_word big_endian a b = if big_endian then a * 256 + b else bit_or a (b * 256)

-- One store after the other of consecutive bytes, two at a time.
abbrev pub put_bytes : Bool → List ℕ → M (Unit {0})
put_bytes big_endian [] = pure tt
put_bytes big_endian (a ∷ []) = put_data (pair_word big_endian a 0)
put_bytes big_endian (a ∷ b ∷ bytes) = do
  put_data (pair_word big_endian a b)
  put_bytes big_endian bytes

-- The specification of a transmission: with the queue access on, one run of bytes, then the frame is put
-- in the transmit queue; the frame number goes on.
abbrev pub streamed : List ℕ → M Error
streamed bytes n =
    (do
      set_bit reg_rxqcr rxqcr_sda
      put_bytes n.is_in_big_endian_mode bytes
      clear_bit reg_rxqcr rxqcr_sda
      set_bit reg_txqcr txqcr_metfe
      pure no_error)
      (record n { frame_id = (n.frame_id + 1) % 65536 })

-- `Ksz8851TxHeader` as it goes out: the frame number below bit 6 with the interrupt flag, then the number of
-- bytes, each the low byte first.
abbrev pub header_bytes : ℕ → ℕ → List ℕ
header_bytes frame_id length = frame_id % 64 ∷ 0x80 ∷ length % 256 ∷ length / 256 ∷ []

-- The Ethernet header: the two addresses and the type, the high byte first.
abbrev pub ethernet_header : Bytes → Bytes → ℕ → List ℕ
ethernet_header dst src packet_type =
    first_bytes dst 3 ++ first_bytes src 3 ++ (packet_type / 256 ∷ packet_type % 256 ∷ [])

put_bytes-first_bytes :
    (big_endian : Bool) (bytes : Bytes) (k : ℕ) (n : Nic)
    → put_bytes big_endian (first_bytes bytes k) n
      ≡ (tt, record n { trace = stores big_endian bytes k n.trace })
unfolding word
put_bytes-first_bytes big_endian bytes zero n = refl
put_bytes-first_bytes big_endian bytes (suc k) n =
    put_bytes-first_bytes big_endian (behind bytes) k
      (record n { trace = store (word big_endian bytes) ∷ n.trace })

-- What is left to do behind the payload.
abbrev behind_payload : ℕ × Nic → Error × Nic
behind_payload (size_in_word, n) =
    (do
      (if (size_in_word * 2 / 2 * 2 % 65536 + eth_header_size) % 4 == 0
          then pure tt
          else put_data 0)
      clear_bit reg_rxqcr rxqcr_sda
      set_bit reg_txqcr txqcr_metfe
      pure no_error)
      n

-- The header with the frame number and the length in it, byte by byte.
header-lem :
    (frame_id length : ℕ)
    → length < 65536
    → first_bytes
        (tx_header
          (swap (bit_or tx_ctrl_txic (bit_and frame_id tx_ctrl_txfid)))
          (swap (length % 65536)))
        2
      ≡ header_bytes frame_id length
unfolding tx_header
header-lem frame_id length h =
    let id = bit_and frame_id tx_ctrl_txfid in
    let low : id ≡ frame_id % 64 = low_63 frame_id in
    let flag : bit_or tx_ctrl_txic id ≡ 32768 + id =
      bit_or-shifted_left 15 id 1 (omega (arith, low)) in
    let control = swap_lem (bit_or tx_ctrl_txic id) (omega (arith, low, flag)) in
    let count = swap_lem (length % 65536) (omega arith) in
    let c = swap (bit_or tx_ctrl_txic id) in
    let b = swap (length % 65536) in
    ap (λ x. x ∷ c % 256 ∷ b / 256 ∷ b % 256 ∷ []) (omega (arith, low, flag, control))
    ∙ ap (λ x. frame_id % 64 ∷ x ∷ b / 256 ∷ b % 256 ∷ []) (omega (arith, low, flag, control))
    ∙ ap (λ x. frame_id % 64 ∷ 128 ∷ x ∷ b % 256 ∷ []) (omega (arith, count))
    ∙ ap (λ x. frame_id % 64 ∷ 128 ∷ length % 256 ∷ x ∷ []) (omega (arith, count))

before_payload : Bytes → Bytes → ℕ → ℕ → M (Unit {0})
before_payload dst src packet_type length n =
    (do
      control_word ← next_control_word
      set_bit reg_rxqcr rxqcr_sda
      write_fifo_word_align (tx_header control_word (swap ((length + eth_header_size) % 65536))) 4
      write_fifo_word_align dst 6
      write_fifo_word_align src 6
      write_fifo_word_align (type_bytes packet_type) 2
      pure tt)
      n

-- A cooked transmission of up to 65521 payload bytes is the specification's run of bytes: the chip's header
-- with the frame number and the length of the Ethernet frame, the Ethernet header, and the payload rounded
-- up to whole words, with no byte between or behind them.
pub transmit_cooked-streamed :
    (dst src : Bytes) (packet_type : ℕ) (payload : Bytes) (length : ℕ) (n : Nic)
    → length ≤ 65521
    → transmit_cooked dst src packet_type payload length n
      ≡ streamed
          (header_bytes n.frame_id (length + eth_header_size)
            ++ ethernet_header dst src packet_type
            ++ first_bytes payload ((length + 1) / 2))
          n
unfolding transmit_cooked word before_payload
transmit_cooked-streamed dst src packet_type payload length n h =
    let m = (before_payload dst src packet_type length n).1 in
    let big_endian = n.is_in_big_endian_mode in
    let k : (length + 1) / 2 % 65536 ≡ (length + 1) / 2 = omega arith in
    let words = write_words_lem big_endian payload ((length + 1) / 2) m in
    let bytes = put_bytes-first_bytes big_endian payload ((length + 1) / 2) m in
    ap (λ k. behind_payload (write_words big_endian payload k m)) k
    ∙ ap behind_payload words
    ∙ ap (λ r. behind_payload (65535, r.1)) (sym bytes)
    ∙ ap
        (λ l.
          streamed
            (l ++ ethernet_header dst src packet_type ++ first_bytes payload ((length + 1) / 2)) n)
        (header-lem n.frame_id (length + eth_header_size) (omega arith))

behind_packet : Nic → Error × Nic
behind_packet =
    λ n. (do clear_bit reg_rxqcr rxqcr_sda; set_bit reg_txqcr txqcr_metfe; pure no_error) n

before_packet : ℕ → M (Unit {0})
before_packet length n =
    (do
      control_word ← next_control_word
      set_bit reg_rxqcr rxqcr_sda
      write_fifo (tx_header control_word (swap (length % 65536))) 4)
      n

-- A raw transmission is the same run of bytes, with the packet rounded up to a multiple of four bytes.
transmit-streamed :
    (buffer : Bytes) (length : ℕ) (n : Nic)
    → length ≤ 65532
    → transmit buffer length n
      ≡ streamed (header_bytes n.frame_id length ++ first_bytes buffer ((length + 3) / 4 * 2)) n
unfolding transmit word before_packet behind_packet write_words
transmit-streamed buffer length n h =
    let m = (before_packet length n).1 in
    let big_endian = n.is_in_big_endian_mode in
    let whole = (length + 3) / 4 * 2 in
    let k : dword_aligned length ≡ whole = omega arith in
    ap (λ k. behind_packet (write_words big_endian buffer k m).1) k
    ∙ ap (λ r. behind_packet r.1) (write_words_lem big_endian buffer whole m)
    ∙ ap (λ r. behind_packet r.1) (sym (put_bytes-first_bytes big_endian buffer whole m))
    ∙ ap (λ l. streamed (l ++ first_bytes buffer whole) n)
        (header-lem n.frame_id length (omega arith))

-- The memory that starts with some bytes and goes on like another.
abbrev pub prepend : List ℕ → Bytes → Bytes
prepend [] bytes i = bytes i
prepend (x ∷ xs) bytes zero = x
prepend (x ∷ xs) bytes (suc i) = prepend xs bytes i

pub first_bytes-prepend :
    (header : Bytes) (j : ℕ) (xs : List ℕ) (bytes : Bytes) (k : ℕ)
    → first_bytes (prepend (first_bytes header j ++ xs) bytes) (j + k)
      ≡ first_bytes header j ++ first_bytes (prepend xs bytes) k
first_bytes-prepend header zero xs bytes k = ap (first_bytes (prepend xs bytes)) (omega arith)
first_bytes-prepend header (suc j) xs bytes k =
    let memory = prepend (first_bytes header (suc j) ++ xs) bytes in
    let rest = prepend (first_bytes (behind header) j ++ xs) bytes in
    let two_on : (i : ℕ) → i + 2 ≡ suc (suc i) = λ i. omega arith in
    let one_on : suc j + k ≡ suc (j + k) = omega arith in
    let shifted : behind memory ≡ rest = fun_ext (λ i. ap memory (two_on i)) in
    ap (first_bytes memory) one_on
    ∙ ap (λ f. header 0 ∷ header 1 ∷ first_bytes f (j + k)) shifted
    ∙ ap (λ l. header 0 ∷ header 1 ∷ l) (first_bytes-prepend (behind header) j xs bytes k)

-- The bytes of a frame that lies in one memory.
pub first_bytes-header :
    (dst src : Bytes) (packet_type : ℕ) (payload : Bytes) (k : ℕ)
    → first_bytes (prepend (ethernet_header dst src packet_type) payload) (3 + (3 + (1 + k)))
      ≡ ethernet_header dst src packet_type ++ first_bytes payload k
unfolding type_bytes
first_bytes-header dst src packet_type payload k =
    let type_and_on = first_bytes (type_bytes packet_type) 1 in
    first_bytes-prepend dst 3 (first_bytes src 3 ++ type_and_on) payload (3 + (1 + k))
    ∙ ap (λ l. first_bytes dst 3 ++ l) (first_bytes-prepend src 3 type_and_on payload (1 + k))
    ∙ ap (λ l. first_bytes dst 3 ++ first_bytes src 3 ++ l)
        (first_bytes-prepend (type_bytes packet_type) 1 [] payload k)

-- For a payload of up to 65518 bytes and an odd number of words, a cooked transmission from four pieces of
-- memory is exactly the raw transmission of the frame assembled in one memory.
pub transmit_cooked-transmit :
    (dst src : Bytes) (packet_type : ℕ) (payload : Bytes) (length : ℕ) (n : Nic)
    → length ≤ 65518
    → (length + 1) / 2 % 2 ≡ 1
    → transmit_cooked dst src packet_type payload length n
      ≡ transmit
          (prepend (ethernet_header dst src packet_type) payload)
          (length + eth_header_size)
          n
transmit_cooked-transmit dst src packet_type payload length n h odd =
    let header = ethernet_header dst src packet_type in
    let size = length + eth_header_size in
    let words : (size + 3) / 4 * 2 ≡ 3 + (3 + (1 + (length + 1) / 2)) = omega arith in
    let frame =
      ap (first_bytes (prepend header payload)) words
      ∙ first_bytes-header dst src packet_type payload ((length + 1) / 2) in
    transmit_cooked-streamed dst src packet_type payload length n (omega arith)
    ∙ sym (
        transmit-streamed (prepend header payload) size n (omega arith)
        ∙ ap (λ l. streamed (header_bytes n.frame_id size ++ l) n) frame)
