-- ===== src/Tool.antt =====
-- KSZ8851/servicetool/main.c: the service tool's options and its command line.
--
-- Texts are the bytes before the final NUL. `atoi` belongs to the C library; a number of type `int`
-- is one of `ℤ`.
pub mod Output
pub mod Main
pub mod Arguments
pub mod Sending
pub mod Running
mod Tests
use driver_amiga_os_ks.Prelude.{
  ℕ, Bool, true, false, ◌||◌, ◌&&◌, [], ◌∷◌, none, some, ◌==◌, List, if◌then◌else◌, Option,
}
use driver_amiga_os_ks.Chip.Multicast.{MacFilterEntry}
use driver_amiga_os_ks.Config.{Text}

pub data ℤ : Type 0 where
  pos negsuc : ℕ → ℤ

-- The flags that `main` and the globals keep.
pub record Options : Type 0 where
  pub switch_chip_to_big_endian : Bool
  pub switch_chip_to_little_endian : Bool
  pub swapping_data_reg_value : Bool
  pub swapping_cmd_reg_value : Bool
  pub reset_cmd : Bool
  pub send : Bool
  pub pkt_send_cnt : ℤ
  pub multicasts_filter : MacFilterEntry

-- `memset(multicastsFilter, 0, …)`
abbrev pub no_filter : MacFilterEntry
no_filter = record { addr = 0 ∷ 0 ∷ 0 ∷ 0 ∷ 0 ∷ 0 ∷ []; ref_count = 0 }

abbrev pub default_options : Options
default_options = record {
  switch_chip_to_big_endian = false;
  switch_chip_to_little_endian = false;
  swapping_data_reg_value = false;
  swapping_cmd_reg_value = false;
  reset_cmd = false;
  send = false;
  pkt_send_cnt = pos 1;
  multicasts_filter = no_filter;
}

-- 01:00:5e:0c:ff:fe
abbrev pub sma_energy_meter : MacFilterEntry
sma_energy_meter = record { addr = 0x01 ∷ 0x0 ∷ 0x5e ∷ 0x0c ∷ 0xff ∷ 0xfe ∷ []; ref_count = 1 }

-- `strcmp(a, b) == 0`
unfoldable pub is_word : Text → Text → Bool
is_word [] [] = true
is_word (x ∷ xs) (y ∷ ys) = x == y && is_word xs ys
is_word _ _ = false

abbrev pub word_be : Text
word_be = b'b' ∷ b'e' ∷ []

abbrev pub word_le : Text
word_le = b'l' ∷ b'e' ∷ []

abbrev pub word_swapdata : Text
word_swapdata = b's' ∷ b'w' ∷ b'a' ∷ b'p' ∷ b'd' ∷ b'a' ∷ b't' ∷ b'a' ∷ []

abbrev pub word_swapcmd : Text
word_swapcmd = b's' ∷ b'w' ∷ b'a' ∷ b'p' ∷ b'c' ∷ b'm' ∷ b'd' ∷ []

abbrev pub word_reset : Text
word_reset = b'r' ∷ b'e' ∷ b's' ∷ b'e' ∷ b't' ∷ []

abbrev pub word_send : Text
word_send = b's' ∷ b'e' ∷ b'n' ∷ b'd' ∷ []

abbrev pub word_setmulticast : Text
word_setmulticast =
    b's' ∷ b'e' ∷ b't' ∷ b'm' ∷ b'u' ∷ b'l' ∷ b't' ∷ b'i' ∷ b'c' ∷ b'a' ∷ b's' ∷ b't' ∷ []

abbrev pub word_help : Text
word_help = b'h' ∷ b'e' ∷ b'l' ∷ b'p' ∷ []

-- The tests of one argument that set flags only.
unfoldable pub set_flags : Text → Options → Options
set_flags arg o = record o {
  switch_chip_to_big_endian = is_word arg word_be || o.switch_chip_to_big_endian;
  switch_chip_to_little_endian = is_word arg word_le || o.switch_chip_to_little_endian;
  swapping_data_reg_value = is_word arg word_swapdata || o.swapping_data_reg_value;
  swapping_cmd_reg_value = is_word arg word_swapcmd || o.swapping_cmd_reg_value;
  reset_cmd = is_word arg word_reset || o.reset_cmd;
  multicasts_filter =
      if is_word arg word_setmulticast then sma_energy_meter else o.multicasts_filter;
}

-- What the loop over the arguments comes to. `null_argument` is `atoi(NULL)`: `send` stood last.
pub data Parsed : Type 0 where
  options : Options → Parsed
  usage : Parsed
  null_argument : Parsed

module _ (atoi : Text → ℤ) where
  -- `pktSendCnt = atoi(argv[i+1])`, with the arguments after this one; `none` is `atoi(NULL)`.
  unfoldable pub take_count : Text → List Text → Options → Option Options
  take_count arg [] o = if is_word arg word_send then none else some o
  take_count arg (next ∷ rest) o =
      some (if is_word arg word_send then record o { send = true; pkt_send_cnt = atoi next } else o)

  -- The number behind `send` is looked at as an argument, too.
  unfoldable pub parse_args : List Text → Options → Parsed
  parse_args [] o = options o
  parse_args (arg ∷ rest) o = elim (take_count arg rest (set_flags arg o)) [
    | none ↦ null_argument
    | some o' ↦ let later = parse_args rest o' in if is_word arg word_help then usage else later
  ]
