-- ===== src/Chip/Multicast.antt =====
-- KSZ8851/servicetool/ksz8851.c: `ksz8851CalcCrc` and `ksz8851SetMulticastFilter`.
use driver_amiga_os_ks.Prelude.{
  ℕ, zero, suc, ◌+◌, ◌*◌, ◌/◌, ◌%◌, ◌^◌, List, [], ◌∷◌, bit_and, bit_or, bit_xor, ltb, ◌==◌,
  if◌then◌else◌,
}
use driver_amiga_os_ks.Chip.Reg.{reg_mahtr0, reg_mahtr1, reg_mahtr2, reg_mahtr3}
use driver_amiga_os_ks.Chip.Bus.{M, pure, ◌>>◌, write_reg}
use driver_amiga_os_ks.Chip.Send.{Error, no_error}

-- `crc << 1` on 32 bits
abbrev pub shl32 : ℕ → ℕ
shl32 crc = crc * 2 % 2 ^ 32

-- The inner loop from bit j of the byte on, for the given number of rounds.
unfoldable pub crc_bits : ℕ → ℕ → ℕ → ℕ → ℕ
crc_bits zero j byte crc = crc
crc_bits (suc rounds) j byte crc = crc_bits rounds (j + 1) byte (
    if bit_and (bit_xor (crc / 2 ^ 31) (byte / 2 ^ j)) 1 == 0
    then shl32 crc
    else bit_xor (shl32 crc) 0x04c11db7)

unfoldable pub crc_bytes : List ℕ → ℕ → ℕ
unfolding crc_bits
crc_bytes [] crc = crc
crc_bytes (byte ∷ bytes) crc = crc_bytes bytes (crc_bits 8 0 byte crc)

unfoldable pub calc_crc : List ℕ → ℕ
unfolding crc_bytes
calc_crc bytes = crc_bytes bytes 0xffffffff

pub record MacFilterEntry : Type 0 where
  pub addr : List ℕ
  pub ref_count : ℕ

-- `hashTable`: word i of four
abbrev pub HashTable : Type 0
HashTable = ℕ → ℕ

-- `hashTable[k / 16] |= (1 << (k % 16))`, a store of 16 bits
unfoldable pub mark : ℕ → HashTable → HashTable
mark k table i = if k / 16 == i then bit_or (table i) (2 ^ (k % 16)) % 65536 else table i

-- `(crc >> 26) & 0x3F`
unfoldable pub filter_index : List ℕ → ℕ
unfolding calc_crc
filter_index addr = bit_and (calc_crc addr / 2 ^ 26) 0x3f

unfoldable pub fill_table : List MacFilterEntry → HashTable → HashTable
unfolding mark filter_index
fill_table [] table = table
fill_table (entry ∷ entries) table =
    fill_table entries
      (if ltb 0 entry.ref_count then mark (filter_index entry.addr) table else table)

unfoldable pub hash_table : List MacFilterEntry → HashTable
unfolding fill_table
hash_table entries = fill_table entries (λ _. 0)

unfoldable pub set_multicast_filter : List MacFilterEntry → M Error
unfolding hash_table write_reg
set_multicast_filter entries = do
  write_reg reg_mahtr0 (hash_table entries 0)
  write_reg reg_mahtr1 (hash_table entries 1)
  write_reg reg_mahtr2 (hash_table entries 2)
  write_reg reg_mahtr3 (hash_table entries 3)
  pure no_error
