-- ===== src/Chip/Transfer.antt =====
-- What the FIFO routines put on the bus and take from it.
use driver_amiga_os_ks.Prelude.{
  Bool, ◌+◌, ℕ, List, ◌<◌, [], ◌≡◌, arith, suc, true, ◌∷◌, false, zero, refl, bit_or-shifted, ◌%◌,
  ap, ◌∙◌, ◌*◌, bit_and, ◌/◌, bit_and-byte, ◌^◌, bit_or, bit_or-shifted_left, length, ◌≤◌,
}
use driver_amiga_os_ks.Chip.Fifo.{
  Bytes, high_first, write_words, low_first, word, read_words, swap, read_fifo,
  write_fifo_word_align, dword_aligned,
}
use driver_amiga_os_ks.Chip.Bus.{Nic, Access, store, get_data}

-- `bytes` from byte 2 on, the pointer after one word.
abbrev pub behind : Bytes → Bytes
behind bytes i = bytes (i + 2)

-- The stores of so many words, the newest first, on top of a trace.
abbrev pub stores : Bool → Bytes → ℕ → List Access → List Access
stores big_endian bytes zero trace = trace
stores big_endian bytes (suc k) trace =
    stores big_endian (behind bytes) k (store (word big_endian bytes) ∷ trace)

-- A write loop stores exactly its words, in order, and does nothing else; it ends with 65535.
pub write_words_lem :
    (big_endian : Bool) (bytes : Bytes) (k : ℕ) (n : Nic)
    → write_words big_endian bytes k n
      ≡ (65535, record n { trace = stores big_endian bytes k n.trace })
unfolding write_words
write_words_lem big_endian bytes zero n = refl
write_words_lem big_endian bytes (suc k) n =
    write_words_lem big_endian (behind bytes) k
      (record n { trace = store (word big_endian bytes) ∷ n.trace })

-- The first bytes of a memory.
abbrev pub first_bytes : Bytes → ℕ → List ℕ
first_bytes bytes zero = []
first_bytes bytes (suc k) = bytes 0 ∷ bytes 1 ∷ first_bytes (behind bytes) k

-- Byte order: taking a word apart gives the bytes that it was made of.
bytes-word :
    (big_endian : Bool) (bytes : Bytes)
    → bytes 0 < 256
    → bytes 1 < 256
    → (high_first big_endian (word big_endian bytes) ≡ bytes 0)
      × (low_first big_endian (word big_endian bytes) ≡ bytes 1)
unfolding high_first low_first word
bytes-word true bytes h l = (omega (arith, h, l), omega (arith, h, l))
bytes-word false bytes h l =
    let sum = bit_or-shifted 8 (bytes 0) (bytes 1) h in
    (
      ap (λ v. bit_and v 0xff) sum ∙ bit_and-byte (bytes 0 + bytes 1 * 256) ∙ omega (arith, h, l),
      ap (λ v. bit_and (v / 256) 0xff) sum
          ∙ bit_and-byte ((bytes 0 + bytes 1 * 256) / 256)
          ∙ omega (arith, h, l),
    )

-- Whether the chip gives back the words of a memory, from this read on.
abbrev pub Gives : Bool → Bytes → ℕ → (ℕ → ℕ) → ℕ → Type 0
Gives big_endian bytes zero answers reads = Unit {0}
Gives big_endian bytes (suc k) answers reads =
    (answers reads ≡ word big_endian bytes) × Gives big_endian (behind bytes) k answers (suc reads)

-- Reading undoes writing, in either byte order: when the chip gives back the words that a write loop
-- makes of the bytes, all below 256, a read of as many words returns those bytes.
pub read_words-Gives :
    (big_endian : Bool) (bytes : Bytes) (k : ℕ) (n : Nic)
    → ((i : ℕ) → bytes i < 256)
    → Gives big_endian bytes k n.answers n.reads
    → (read_words big_endian k n).0 ≡ first_bytes bytes k
unfolding read_words
read_words-Gives big_endian bytes zero n h g = refl
read_words-Gives big_endian bytes (suc k) n h (e, g) =
    let both = bytes-word big_endian bytes (h 0) (h 1) in
    let n' = (get_data n).1 in
    let rest = read_words-Gives big_endian (behind bytes) k n' (λ i. h (i + 2)) g in
    ap (λ v. high_first big_endian v ∷ low_first big_endian v ∷ (read_words big_endian k n').0) e
    ∙ ap (λ x. x ∷ low_first big_endian (word big_endian bytes) ∷ (read_words big_endian k n').0)
        both.0
    ∙ ap (λ x. bytes 0 ∷ x ∷ (read_words big_endian k n').0) both.1
    ∙ ap (λ xs. bytes 0 ∷ bytes 1 ∷ xs) rest

-- The two bytes of a word change places.
pub swap_lem : (v : ℕ) → v < 65536 → swap v ≡ v % 256 * 256 + v / 256
unfolding swap
swap_lem v h =
    let low : bit_and v 0xff * 256 % 65536 ≡ v % 256 * 2 ^ 8 = omega (arith, bit_and-byte v) in
    let high : bit_and (v / 256) 0xff ≡ v / 256 = omega (arith, bit_and-byte (v / 256)) in
    ap (λ a. bit_or a (bit_and (v / 256) 0xff)) low
    ∙ ap (bit_or (v % 256 * 2 ^ 8)) high
    ∙ bit_or-shifted_left 8 (v / 256) (v % 256) (omega arith)

-- `swap` is its own inverse on 16-bit words.
swap-swap : (v : ℕ) → v < 65536 → swap (swap v) ≡ v
swap-swap v h = swap_lem (swap v) (omega (arith, swap_lem v h)) ∙ omega (arith, swap_lem v h)

length-read_words :
    (big_endian : Bool) (k : ℕ) (n : Nic) → length (read_words big_endian k n).0 ≡ k * 2
unfolding read_words
length-read_words big_endian zero n = refl
length-read_words big_endian (suc k) n =
    omega (arith, length-read_words big_endian k (get_data n).1)

-- `ksz8851ReadFifo` writes the requested number of bytes to memory, rounded up to a multiple of four,
-- for up to 65532 bytes.
length-read_fifo :
    (size : ℕ) (n : Nic) → size ≤ 65532 → length (read_fifo size n).0 ≡ (size + 3) / 4 * 4
unfolding read_fifo dword_aligned
length-read_fifo size n h =
    omega (arith, length-read_words n.is_in_big_endian_mode (dword_aligned size) n)

-- `ksz8851WriteFifoWordAlign` returns 65534 whatever the number of bytes is.
write_fifo_word_align_lem :
    (bytes : Bytes) (size : ℕ) (n : Nic) → (write_fifo_word_align bytes size n).0 ≡ 65534
unfolding write_fifo_word_align
write_fifo_word_align_lem bytes size n =
    ap (λ p. p.0 * 2 / 2 * 2 % 65536)
      (write_words_lem n.is_in_big_endian_mode bytes ((size + 1) / 2 % 65536) n)

-- Reading the FIFO changes the number of reads and the trace alone.
pub read_words_keeps :
    (big_endian : Bool) (k : ℕ) (n : Nic)
    → (reads : ℕ) × (trace : List Access) × ((read_words big_endian k n).1
        ≡ record n { reads = reads; trace = trace })
unfolding read_words
read_words_keeps big_endian zero n = (n.reads, n.trace, refl)
read_words_keeps big_endian (suc k) n =
    let (reads, trace, e) = read_words_keeps big_endian k (get_data n).1 in (reads, trace, e)
