-- ===== src/Config/Tests/Stored.antt =====
-- Concrete configuration files, and the theorems of `ReadConfig` at them.
use driver_amiga_os_ks.Prelude.{
  List, ℕ, Option, none, some, [], ◌∷◌, ◌++◌, ◌≡◌, arith, refl, ◌*◌, false, if◌then◌else◌, true,
  ◌+◌, ◌==◌, ◌-◌,
}
use driver_amiga_os_ks.Config.Reading.{Configured, Surroundings, debuglev, mac, read_config}
use driver_amiga_os_ks.Config.Stored.{
  IsSetTo, IsStrtok, address_text, is_delim, read_config-address_text, read_config-unopened,
}
use driver_amiga_os_ks.Config.{Text, fallback_mac_address, is_skipped, terminate}
use driver_amiga_os_ks.Config.Tests.{empty_registry}
use driver_amiga_os_ks.Debug.{initial_text}

abbrev put_word : Text → List Text → List Text
put_word [] ts = ts
put_word (c ∷ cs) ts = (c ∷ cs) ∷ ts

abbrev up_to : ℕ → Text → Text
up_to e [] = []
up_to e (c ∷ cs) = let rest = up_to e cs in if c == e then [] else c ∷ rest

-- The word that a text begins with, and the words behind its delimiter.
abbrev words_from : Text → Text × List Text
words_from [] = ([], [])
words_from (c ∷ cs) =
    let rest = words_from cs in
    if is_delim c then ([], put_word rest.0 rest.1) else (c ∷ rest.0, rest.1)

-- A concrete `strtok`.
abbrev cut : Text → List Text
cut text = let words = words_from text in put_word words.0 words.1

cut-IsStrtok : IsStrtok cut
cut-IsStrtok = record {
  at_end = refl;
  last_word = λ c d hc hd. ground (arith, hc, hd);
  word = λ c d e rest hc hd he. ground (arith, hc, hd, he);
}

-- What stands between the equals sign and the end of the line, if the line begins with the key.
abbrev value_of : Text → Text → Option Text
value_of (k ∷ ks) (c ∷ cs) = let rest = value_of ks cs in if k == c then rest else none
value_of [] (c ∷ cs) = if c == b'=' then some (up_to 10 cs) else none
value_of _ [] = none

abbrev decimal_from : ℕ → Text → ℕ
decimal_from n [] = n
decimal_from n (c ∷ cs) = decimal_from (n * 10 + (c - b'0')) cs

abbrev number_of : Option Text → Option ℕ
number_of none = none
number_of (some text) = some (decimal_from 0 text)

abbrev small_surroundings : Surroundings
small_surroundings = record {
  read_string = value_of;
  read_number = λ template line. number_of (value_of (up_to b'/' template) line);
  released = λ text. text;
  strtok = cut;
  banner = "ksz8851.device";
  dev_id_string = 0x2000;
  config_file = 0x3000;
}

abbrev station : List ℕ
station = 0x02 ∷ 0x34 ∷ 0x56 ∷ 0x78 ∷ 0x9a ∷ 0xcd ∷ []

abbrev comment_line : Text
comment_line = b'#' ∷ b' ' ∷ b'M' ∷ b'A' ∷ b'C' ∷ 10 ∷ []

abbrev level_line : Text
level_line = debuglev ++ b'=' ∷ b'1' ∷ b'2' ∷ 10 ∷ []

abbrev mac_line : Text
mac_line = mac ++ b'=' ∷ address_text station ++ 10 ∷ []

abbrev small_file : List Text
small_file = comment_line ∷ level_line ∷ mac_line ∷ []

abbrev unconfigured : Configured
unconfigured = record {
  registry = empty_registry;
  console = record { debug_level = 7; text = initial_text; disabled = 0; output = [] };
  st_addr = 0 ∷ 0 ∷ 0 ∷ 0 ∷ 0 ∷ 0 ∷ [];
}

station_is_set : IsSetTo (small_surroundings.read_string mac) small_file (address_text station)
unfolding is_skipped terminate
station_is_set = record {
  before = comment_line ∷ level_line ∷ [];
  line = mac_line;
  after = [];
  here = refl;
  unset_before = refl;
  unskipped = refl;
  sets = refl;
}

level_is_set : IsSetTo (small_surroundings.read_number (debuglev ++ b'/' ∷ b'N' ∷ [])) small_file 12
unfolding is_skipped terminate
level_is_set = record {
  before = comment_line ∷ [];
  line = level_line;
  after = mac_line ∷ [];
  here = refl;
  unset_before = refl;
  unskipped = refl;
  sets = refl;
}

abbrev configured : Configured
configured = read_config small_surroundings small_file (some 40) (some 50) unconfigured

read_config-address_text_example :
    (configured.st_addr ≡ station)
    × ((configured.console.debug_level ≡ 12)
        × (configured.registry ≡ record empty_registry { config_file_open = true }))
read_config-address_text_example =
    read_config-address_text small_surroundings small_file 40 50 unconfigured (address_text station)
      station 12 cut-IsStrtok refl refl refl refl station_is_set refl level_is_set

abbrev without_object : Configured
without_object = read_config small_surroundings small_file (some 40) none unconfigured

read_config-unopened_example :
    (without_object.st_addr ≡ fallback_mac_address)
    × ((without_object.console.debug_level ≡ 0)
        × (without_object.registry ≡ record empty_registry { config_file_open = false }))
read_config-unopened_example =
    read_config-unopened small_surroundings small_file (some 40) none unconfigured refl refl
