-- ===== src/Tool/Output.antt =====
-- KSZ8851/servicetool/main.c: what the tool reads from the chip, or takes from a packet, to print it.
use driver_amiga_os_ks.Prelude.{
  ℕ, Bool, [], ◌∷◌, none, some, zero, suc, ◌+◌, List, ◌*◌, Option, ◌^◌, if◌then◌else◌, ◌%◌, ◌-◌,
  has, ◌==◌, ◌++◌, ◌/◌, bit_or,
}
use driver_amiga_os_ks.Chip.Bus.{◌>>=◌, ◌>>◌, pure, M, read_reg, write_reg}
use driver_amiga_os_ks.Chip.Fifo.{Bytes}
use driver_amiga_os_ks.Chip.Reg.{
  reg_ccr, reg_marh, reg_iacr, reg_marm, reg_p1sr, ccr_bus_endian_mode, p1sr_link_good, reg_iadhr,
  reg_marl, ccr_eeprom_presence, p1sr_operation_duplex, reg_iadlr, ccr_8_bit_data_bus,
  p1sr_operation_speed, ccr_16_bit_data_bus, ccr_48_pin_package,
}

-- The fields of `printCCR`, each as the test that picks its word.
pub record ChipConfig : Type 0 where
  pub is_little_endian : Bool
  pub eeprom_is_extern : Bool
  pub has_8_bit_bus : Bool
  pub has_16_bit_bus : Bool
  pub has_48_pins : Bool

unfoldable pub print_ccr : M ChipConfig
unfolding read_reg
print_ccr = do
  val ← read_reg reg_ccr
  pure (record {
    is_little_endian = has val ccr_bus_endian_mode;
    eeprom_is_extern = has val ccr_eeprom_presence;
    has_8_bit_bus = has val ccr_8_bit_data_bus;
    has_16_bit_bus = has val ccr_16_bit_data_bus;
    has_48_pins = has val ccr_48_pin_package;
  })

-- The bytes of `macaddr`; `ntohs` changes nothing on a big-endian processor.
unfoldable pub print_mac : M (List ℕ)
unfolding read_reg
print_mac = do
  high ← read_reg reg_marh
  middle ← read_reg reg_marm
  low ← read_reg reg_marl
  pure (high / 256 ∷ high % 256 ∷ middle / 256 ∷ middle % 256 ∷ low / 256 ∷ low % 256 ∷ [])

-- Whether the link is up, and if so, whether it is duplex and whether it has 100 Mbps.
unfoldable pub print_link_status : M (Option (Bool × Bool))
unfolding read_reg
print_link_status = do
  val ← read_reg reg_p1sr
  pure (
      if has val p1sr_link_good
      then some (has val p1sr_operation_duplex, has val p1sr_operation_speed)
      else none)

unfoldable pub nic_notify_link_change : M (Option (Bool × Bool))
unfolding print_link_status
nic_notify_link_change = print_link_status

-- The loop over `MIBRegister` has one round.
unfoldable pub print_mib : M ℕ
unfolding read_reg write_reg
print_mib = do
  write_reg reg_iacr 0
  h ← read_reg reg_iadhr
  l ← read_reg reg_iadlr
  pure (bit_or (h * 2 ^ 16 % 2 ^ 32) l)

-- A row of the dump: the offset of its first byte, and its bytes.
pub record Row : Type 0 where
  pub offset : ℕ
  pub bytes : List ℕ

-- A byte of the dump after the rows before it, of which the last is the newest.
unfoldable pub print_byte : ℕ → ℕ → List Row → List Row
print_byte i byte [] = record { offset = i; bytes = byte ∷ [] } ∷ []
print_byte i byte (row ∷ rows) =
    if i % 16 == 0
    then record { offset = i; bytes = byte ∷ [] } ∷ row ∷ rows
    else record row { bytes = row.bytes ++ byte ∷ [] } ∷ rows

-- The loop from byte i on, for the given number of rounds.
unfoldable pub print_bytes : ℕ → ℕ → Bytes → List Row → List Row
print_bytes zero i buffer rows = rows
print_bytes (suc rounds) i buffer rows =
    print_bytes rounds (i + 1) buffer (print_byte i (buffer i) rows)

pub record PacketReport : Type 0 where
  pub src : List ℕ
  pub dst : List ℕ
  pub packet_type : ℕ
  pub size : ℕ
  pub rows : List Row  -- the newest first

abbrev pub six_bytes : Bytes → ℕ → List ℕ
six_bytes buffer i =
    buffer i
    ∷ buffer (i + 1)
    ∷ buffer (i + 2)
    ∷ buffer (i + 3)
    ∷ buffer (i + 4)
    ∷ buffer (i + 5)
    ∷ []

unfoldable pub process_packet : Bytes → ℕ → PacketReport
process_packet buffer size = record {
  src = six_bytes buffer 6;
  dst = six_bytes buffer 0;
  packet_type = buffer 12 * 256 + buffer 13;
  size = size;
  rows = print_bytes size 0 buffer [];
}

-- `struct DateStamp` without the day, which the tool does not look at
pub record DateStamp : Type 0 where
  pub ds_minute : ℕ
  pub ds_tick : ℕ

-- A ULONG: the differences wrap around.
unfoldable pub ticks_diff : DateStamp → DateStamp → ℕ
ticks_diff d1 d2 =
    ((d2.ds_minute + 2 ^ 32 - d1.ds_minute) * 50 * 60 + (d2.ds_tick + 2 ^ 32 - d1.ds_tick)) % 2 ^ 32
