-- ===== src/Config.antt =====
-- KSZ8851/devicedriver/configfile.c: the configuration file.
--
-- `FGets`, `ReadArgs` and `strtok` belong to the operating system and the C library. A function
-- takes what they give: the lines of the file, the value that `ReadArgs` finds in a line for a key
-- (`none` if it fails or sets no argument), and the tokens of the address.
mod Tests
pub mod Address
pub mod Reading
pub mod Stored
pub mod Registry
use driver_amiga_os_ks.Prelude.{
  ℕ, ◌+◌, ◌-◌, ◌*◌, ◌%◌, ◌^◌, Bool, false, ◌&&◌, ◌||◌, List, [], ◌∷◌, Option, none, some, bit_or,
  leb, ◌==◌, if◌then◌else◌,
}

abbrev pub Text : Type 0
Text = List ℕ

-- The value of a digit; any other character leaves `val` as it is.
unfoldable pub add_digit : ℕ → ℕ → ℕ
add_digit c val =
    if leb b'0' c && leb c b'9'
    then bit_or val (c - b'0')
    else if leb b'a' c && leb c b'f'
    then bit_or val (c - b'a' + 10)
    else if leb b'A' c && leb c b'F'
    then bit_or val (c - b'A' + 10)
    else val

unfoldable pub hex_from : ℕ → Text → ℕ
unfolding add_digit
hex_from val [] = val
hex_from val (c ∷ cs) = hex_from (add_digit c (val * 16 % 2 ^ 32)) cs

unfoldable pub hex_string_to_u32 : Text → ℕ
unfolding hex_from
hex_string_to_u32 str = hex_from 0 str

-- The loop over at most six tokens: the bytes that have no token stay as they are.
unfoldable pub store_tokens : List Text → List ℕ → List ℕ
unfolding hex_string_to_u32
store_tokens [] bytes = bytes
store_tokens (token ∷ tokens) [] = []
store_tokens (token ∷ tokens) (byte ∷ bytes) =
    hex_string_to_u32 token % 256 ∷ store_tokens tokens bytes

-- `ReadKeyMacAddress`; both addresses have six bytes.
unfoldable pub read_key_mac_address : Option (List Text) → List ℕ → List ℕ → List ℕ
unfolding store_tokens
read_key_mac_address none dst default = default
read_key_mac_address (some tokens) dst default = store_tokens tokens dst

-- Comment lines, and lines that begin with a space or are empty.
unfoldable pub is_skipped : Text → Bool
is_skipped [] = false
is_skipped (c ∷ cs) = c == b'#' || c == b' ' || c == 10

-- `linebuff[strlen - 1] = '\n'`
unfoldable pub terminate : Text → Text
terminate [] = []
terminate (c ∷ []) = 10 ∷ []
terminate (c ∷ d ∷ cs) = c ∷ terminate (d ∷ cs)

module _ {ℓ} {A : Type ℓ} (read_args : Text → Option A) where
  -- The loop of `ReadKeyStr` and `ReadKeyInt`: the first line that has the key.
  unfoldable pub read_key : List Text → A → A
  unfolding is_skipped terminate
  read_key [] default = default
  read_key (line ∷ lines) default =
      let rest = read_key lines default in
      if is_skipped line
      then rest
      else elim (read_args (terminate line)) [ some value ↦ value | none ↦ rest ]

  -- The key of a file that is not open has its default.
  unfoldable pub read_key_of : Bool → List Text → A → A
  unfolding read_key
  read_key_of config_file_open lines default =
      if config_file_open then read_key lines default else default

abbrev pub fallback_mac_address : List ℕ
fallback_mac_address = 0x02 ∷ 0x34 ∷ 0x56 ∷ 0x78 ∷ 0x9a ∷ 0xab ∷ []
