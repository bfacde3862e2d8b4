-- ===== src/Chip/Fifo.antt =====
-- KSZ8851/servicetool/ksz8851.c: `ksz8851WriteFifo`, `ksz8851WriteFifoWordAlign`, `ksz8851ReadFifo`
-- and `swap`.
--
-- A pointer to data is a function: `data i` is the byte `i` places on, also past the end of the
-- array it points into, which the word-wise loops may read. The processor is big-endian, so a
-- 16-bit load takes the first byte as the high one.
use driver_amiga_os_ks.Prelude.{
  ℕ, zero, suc, ◌+◌, ◌*◌, ◌/◌, ◌%◌, Bool, List, [], ◌∷◌, bit_and, bit_or, if◌then◌else◌,
}
use driver_amiga_os_ks.Chip.Bus.{M, pure, ◌>>=◌, ◌>>◌, put_data, get_data}

abbrev pub Bytes : Type 0
Bytes = ℕ → ℕ

-- `swap`: 0x1234 to 0x3412
unfoldable pub swap : ℕ → ℕ
swap value = bit_or (bit_and value 0xff * 256 % 65536) (bit_and (value / 256) 0xff)

-- The word that one round of a write loop puts on the bus.
unfoldable pub word : Bool → Bytes → ℕ
word big_endian bytes =
    if big_endian then bytes 0 * 256 + bytes 1 else bit_or (bytes 0) (bytes 1 * 256)

-- `while (sizeInWord--)` over the words from a pointer on. The result is `sizeInWord` behind the
-- loop: the test that ends it has taken it from 0 to 65535.
unfoldable pub write_words : Bool → Bytes → ℕ → M ℕ
write_words big_endian bytes zero = pure 65535
write_words big_endian bytes (suc k) = do
  put_data (word big_endian bytes)
  write_words big_endian (λ i. bytes (i + 2)) k

-- The number of 16-bit words, a multiple of two, that hold `length` bytes.
unfoldable pub dword_aligned : ℕ → ℕ
dword_aligned length = (length + 3) / 4 * 4 / 2 % 65536

unfoldable pub write_fifo : Bytes → ℕ → M (Unit {0})
unfolding dword_aligned
write_fifo bytes length n =
    (do write_words n.is_in_big_endian_mode bytes (dword_aligned length); pure tt) n

-- `size_t` to `uint16_t` on the way in, and `(sizeInWord << 1) & ~0x01` to `uint16_t` on the way out
unfoldable pub write_fifo_word_align : Bytes → ℕ → M ℕ
unfolding write_words
write_fifo_word_align bytes length n =
    (do
      size_in_word ← write_words n.is_in_big_endian_mode bytes ((length + 1) / 2 % 65536)
      pure (size_in_word * 2 / 2 * 2 % 65536))
      n

-- The two bytes that a 16-bit store, or the two stores of the little-endian branch, leave in memory.
unfoldable pub high_first : Bool → ℕ → ℕ
high_first big_endian value = if big_endian then value / 256 else bit_and value 0xff

unfoldable pub low_first : Bool → ℕ → ℕ
low_first big_endian value = if big_endian then value % 256 else bit_and (value / 256) 0xff

unfoldable pub read_words : Bool → ℕ → M (List ℕ)
read_words big_endian zero = pure []
read_words big_endian (suc k) = do
  value ← get_data
  rest ← read_words big_endian k
  pure (high_first big_endian value ∷ low_first big_endian value ∷ rest)

-- The bytes that are written from `data` on.
unfoldable pub read_fifo : ℕ → M (List ℕ)
unfolding read_words dword_aligned
read_fifo length n = read_words n.is_in_big_endian_mode (dword_aligned length) n
