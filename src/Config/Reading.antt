-- ===== src/Config/Reading.antt =====
-- `ReadKeyStr` and `ReadKeyInt` of KSZ8851/devicedriver/configfile.c, and `ReadConfig` of device.c, in a
-- build with DEBUG.
--
-- `read_string` and `read_number` are `ReadArgs`: what it finds in a line for a template, `none` if it
-- fails or sets no argument. `ReadKeyStr` returns a string whose memory `FreeArgs` has released: `released`
-- is what that memory holds when `strtok` reads it, which nothing here says to be the string.
-- `strtok` gives the tokens of a text between the characters of `DELIM`. A level below 0 counts as 0,
-- as in Debug.
use driver_amiga_os_ks.Prelude.{List, ℕ, Option, none, some, [], ◌∷◌, ◌++◌}
use driver_amiga_os_ks.Config.{Text, read_key_of, read_key_mac_address, fallback_mac_address}
use driver_amiga_os_ks.Config.Registry.{Registry, registry_init, registry_destroy}
use driver_amiga_os_ks.Debug.{Console, printdebug}
use Prim.Native.String.{String}

-- The key "MAC".
abbrev pub mac : Text
mac = b'M' ∷ b'A' ∷ b'C' ∷ []

-- The key "DEBUGLEV".
abbrev pub debuglev : Text
debuglev = b'D' ∷ b'E' ∷ b'B' ∷ b'U' ∷ b'G' ∷ b'L' ∷ b'E' ∷ b'V' ∷ []

abbrev pub verbose_device : ℕ
verbose_device = 2

-- What `ReadConfig` changes: the static variables of configfile.c, `debugLevel` in the console of the
-- debug output, and `eu_StAddr`.
pub record Configured : Type 0 where
  pub registry : Registry
  pub console : Console
  pub st_addr : List ℕ

-- The operating system and the C library, the strings that the build makes of the device's name and
-- version, and the addresses that two messages print.
pub record Surroundings : Type 0 where
  pub read_string : Text → Text → Option Text
  pub read_number : Text → Text → Option ℕ
  pub released : Text → Text
  pub strtok : Text → List Text
  pub banner : String
  pub dev_id_string : ℕ
  pub config_file : ℕ

abbrev pub present : Option Text → Option (Option Text)
present none = none
present (some text) = some (some text)

module _ (s : Surroundings) (lines : List Text) where
  unfoldable pub after_free_args : Option Text → Option Text
  after_free_args none = none
  after_free_args (some text) = some (s.released text)

  -- A key without a line that sets it is NULL, `none`.
  unfoldable pub read_key_str : Text → Registry → Option Text
  unfolding read_key_of after_free_args
  read_key_str key g =
      after_free_args
        (read_key_of (λ line. present (s.read_string key line)) g.config_file_open lines none)

  unfoldable pub read_key_int : Text → Registry → ℕ → ℕ
  unfolding read_key_of
  read_key_int key g default =
      read_key_of (s.read_number (key ++ b'/' ∷ b'N' ∷ [])) g.config_file_open lines default

  -- `ReadKeyMacAddress(key, ...)`, with the text of the key cut at the delimiters
  unfoldable pub key_tokens : Option Text → Option (List Text)
  key_tokens none = none
  key_tokens (some text) = some (s.strtok text)

  -- `file` and `object` are what `Open` and `AllocDosObject` give.
  unfoldable pub read_config : Option ℕ → Option ℕ → Configured → Configured
  unfolding read_key_str read_key_int key_tokens registry_init registry_destroy printdebug
  read_config file object t =
      let announced =
        printdebug verbose_device "ReadConfigFile: %s\n" (s.config_file ∷ []) t.console in
      let opened = registry_init file object t.registry in
      let level = read_key_int debuglev opened 0 in
      let addr =
        read_key_mac_address (key_tokens (read_key_str mac opened)) t.st_addr
          fallback_mac_address in
      let c₁ = printdebug verbose_device s.banner [] (record announced { debug_level = level }) in
      let c₂ = printdebug verbose_device "%s\n" (s.dev_id_string ∷ []) c₁ in
      record {
        registry = registry_destroy opened;
        console = printdebug verbose_device "DebugLev= %ld\n" (level ∷ []) c₂;
        st_addr = addr;
      }
