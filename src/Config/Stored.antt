-- ===== src/Config/Stored.antt =====
-- What `ReadConfig` of KSZ8851/devicedriver/device.c leaves, for a file that sets the address and
-- without a file.
use Prim.Native.String.{String}
use driver_amiga_os_ks.Prelude.{
  List, ℕ, Option, none, some, [], ◌∷◌, ◌++◌, ◌≡◌, Bool, true, false, ◌||◌, ◌&&◌, ◌<◌, arith, refl,
  ap, ◌∙◌, map, length, ◌/◌, ◌==◌, not, ◌%◌, sym,
}
use driver_amiga_os_ks.Config.{
  Text, read_key_of, read_key, read_key_mac_address, fallback_mac_address, is_skipped, terminate,
}
use driver_amiga_os_ks.Config.Registry.{registry_init, is_some, registry_destroy-registry_init}
use driver_amiga_os_ks.Config.Reading.{
  Configured, Surroundings, read_config, read_key_str, read_key_int, key_tokens, present, mac,
  debuglev, verbose_device, after_free_args,
}
use driver_amiga_os_ks.Config.Address.{
  all_bytes, hex_digit, hex_byte, read_key_mac_address-hex_byte,
}
use driver_amiga_os_ks.Debug.{Console, printdebug, guarded}

-- The delimiters of an address.
abbrev pub is_delim : ℕ → Bool
is_delim c = c == b':' || c == b' '

-- What `strtok` does with words of two characters.
pub record IsStrtok (strtok : Text → List Text) : Type 0 where
  pub at_end : strtok [] ≡ []
  pub last_word :
      (c d : ℕ) → is_delim c ≡ false → is_delim d ≡ false → strtok (c ∷ d ∷ []) ≡ (c ∷ d ∷ []) ∷ []
  pub word :
      (c d e : ℕ) (rest : Text)
      → is_delim c ≡ false
      → is_delim d ≡ false
      → is_delim e ≡ true
      → strtok (c ∷ d ∷ e ∷ rest) ≡ (c ∷ d ∷ []) ∷ strtok rest

-- An address as it is written, its bytes in two digits with a colon between them.
abbrev pub address_text : List ℕ → Text
address_text [] = []
address_text (b ∷ []) = hex_byte b
address_text (b ∷ c ∷ bs) = hex_byte b ++ b':' ∷ address_text (c ∷ bs)

digit-is_delim : (d : ℕ) → d < 16 → is_delim (hex_digit d) ≡ false
digit-is_delim d h = ground arith

module _ (strtok : Text → List Text) (laws : IsStrtok strtok) where
  strtok-address_text :
      (bytes : List ℕ) → all_bytes bytes ≡ true → strtok (address_text bytes) ≡ map hex_byte bytes
  strtok-address_text [] h = laws.at_end
  strtok-address_text (b ∷ []) h =
      let lt : b < 256 = ground arith in
      laws.last_word (hex_digit (b / 16)) (hex_digit (b % 16))
        (digit-is_delim (b / 16) (omega arith)) (digit-is_delim (b % 16) (omega arith))
  strtok-address_text (b ∷ c ∷ bs) h =
      let lt : b < 256 = ground arith in
      laws.word (hex_digit (b / 16)) (hex_digit (b % 16)) b':' (address_text (c ∷ bs))
        (digit-is_delim (b / 16) (omega arith)) (digit-is_delim (b % 16) (omega arith)) refl
      ∙ ap (λ ts. hex_byte b ∷ ts) (strtok-address_text (c ∷ bs) (ground arith))

abbrev pub is_set {ℓ} : {A : Type ℓ} → Option A → Bool
is_set none = false
is_set (some _) = true

module _ {ℓ} {A : Type ℓ} (read_args : Text → Option A) where
  -- Lines in which the key is not set.
  abbrev pub sets_none : List Text → Bool
  sets_none [] = true
  sets_none (line ∷ lines) =
      (is_skipped line || not (is_set (read_args (terminate line)))) && sets_none lines

  -- A key is read from the first line that sets it.
  read_key-first :
      (before after : List Text) (line : Text) (value default : A)
      → sets_none before ≡ true
      → is_skipped line ≡ false
      → read_args (terminate line) ≡ some value
      → read_key read_args (before ++ line ∷ after) default ≡ value
  unfolding read_key
  read_key-first [] after line value default n s h = ground arith
  read_key-first (l ∷ ls) after line value default n s h =
      ground (arith, read_key-first ls after line value default)

-- A line of the file sets the key to the value, and no line before it sets the key.
pub record IsSetTo {ℓ} {A : Type ℓ} (read_args : Text → Option A) (lines : List Text) (value : A)
    : Type ℓ where
  pub before : List Text
  pub line : Text
  pub after : List Text
  pub here : lines ≡ before ++ line ∷ after
  pub unset_before : sets_none read_args before ≡ true
  pub unskipped : is_skipped line ≡ false
  pub sets : read_args (terminate line) ≡ some value

read_key-IsSetTo {ℓ} :
    {A : Type ℓ} (read_args : Text → Option A) (lines : List Text) (value default : A)
    → IsSetTo read_args lines value
    → read_key read_args lines default ≡ value
read_key-IsSetTo read_args lines value default i =
    ap (λ ls. read_key read_args ls default) i.here
    ∙ read_key-first read_args i.before i.after i.line value default i.unset_before i.unskipped
        i.sets

debug_level-printdebug :
    (level : ℕ) (format : String) (args : List ℕ) (c : Console)
    → (printdebug level format args c).debug_level ≡ c.debug_level
unfolding printdebug guarded
debug_level-printdebug level format args c = ground arith

sets_none-present :
    (read_args : Text → Option Text) (lines : List Text)
    → sets_none read_args lines ≡ true
    → sets_none (λ line. present (read_args line)) lines ≡ true
sets_none-present read_args [] h = refl
sets_none-present read_args (l ∷ ls) h = ground (arith, sets_none-present read_args ls)

present-IsSetTo :
    (read_args : Text → Option Text) (lines : List Text) (text : Text)
    → IsSetTo read_args lines text
    → IsSetTo (λ line. present (read_args line)) lines (some text)
present-IsSetTo read_args lines text i = record {
  before = i.before;
  line = i.line;
  after = i.after;
  here = i.here;
  unset_before = sets_none-present read_args i.before i.unset_before;
  unskipped = i.unskipped;
  sets = ap present i.sets;
}

module _ (s : Surroundings) (lines : List Text) where
  debug_level-read_config :
      (file object : Option ℕ) (t : Configured)
      → (read_config s lines file object t).console.debug_level
        ≡ read_key_int s lines debuglev (registry_init file object t.registry) 0
  unfolding read_config
  debug_level-read_config file object t =
      debug_level-printdebug verbose_device "DebugLev= %ld\n" _ _
      ∙ debug_level-printdebug verbose_device "%s\n" _ _
      ∙ debug_level-printdebug verbose_device s.banner [] _

  -- `ReadConfig`, if `Open` and `AllocDosObject` succeed and no file was open, `strtok` cuts texts as
  -- documented, a line sets DEBUGLEV and a line sets MAC, and the memory of the string that `ReadArgs` gave
  -- for the first line with MAC, which `FreeArgs` has released by then, still holds an address when `strtok`
  -- reads it: six bytes in two hexadecimal digits each with colons between. Then it leaves that address
  -- as the station address, whatever the six bytes there were, and the number of the first line with
  -- DEBUGLEV as the debug level, and has handed back the file and the object; `configFileOpen` stays set.
  pub read_config-address_text :
      (file object : ℕ) (t : Configured) (text : Text) (bytes : List ℕ)
      → (level : ℕ) → IsStrtok s.strtok
      → t.registry.fh ≡ none
      → all_bytes bytes ≡ true
      → length bytes ≡ 6
      → length t.st_addr ≡ 6
      → IsSetTo (s.read_string mac) lines text
      → s.released text ≡ address_text bytes
      → IsSetTo (s.read_number (debuglev ++ b'/' ∷ b'N' ∷ [])) lines level
      → ((read_config s lines (some file) (some object) t).st_addr ≡ bytes)
        × (((read_config s lines (some file) (some object) t).console.debug_level ≡ level)
            × ((read_config s lines (some file) (some object) t).registry
                ≡ record t.registry { fh = none; rdargs = none; config_file_open = true }))
  unfolding read_config read_key_str read_key_int key_tokens registry_init read_key_of
      after_free_args
  read_config-address_text file object t text bytes level laws shut all six six' addr held lev =
      let found =
        read_key-IsSetTo (λ line. present (s.read_string mac line)) lines (some text) none
          (present-IsSetTo (s.read_string mac) lines text addr) in
      (
        ap
              (λ t'.
                read_key_mac_address (key_tokens s lines (after_free_args s lines t')) t.st_addr
                  fallback_mac_address)
              found
            ∙ ap
                (λ t'.
                  read_key_mac_address (key_tokens s lines (some t')) t.st_addr
                    fallback_mac_address)
                held
            ∙ ap (λ ts. read_key_mac_address (some ts) t.st_addr fallback_mac_address)
                (strtok-address_text s.strtok laws bytes all)
            ∙ read_key_mac_address-hex_byte bytes t.st_addr fallback_mac_address all
                (six' ∙ sym six),
        (
          debug_level-read_config (some file) (some object) t
              ∙ read_key-IsSetTo (s.read_number (debuglev ++ b'/' ∷ b'N' ∷ [])) lines level 0 lev,
          registry_destroy-registry_init (some file) (some object) t.registry shut,
        ),
      )

  -- If `Open` or `AllocDosObject` fails and no file was open, `ReadConfig` leaves the fallback address and
  -- debug level 0, and hands back the one of the two that it got.
  pub read_config-unopened :
      (file object : Option ℕ) (t : Configured)
      → (is_some file && is_some object) ≡ false
      → t.registry.fh ≡ none
      → ((read_config s lines file object t).st_addr ≡ fallback_mac_address)
        × (((read_config s lines file object t).console.debug_level ≡ 0)
            × ((read_config s lines file object t).registry
                ≡ record t.registry { fh = none; rdargs = none; config_file_open = false }))
  unfolding read_config read_key_str read_key_int key_tokens registry_init read_key_of
      after_free_args read_key_mac_address
  read_config-unopened file object t missing shut = (
    ground (arith, missing),
    (
      debug_level-read_config file object t ∙ ground (arith, missing),
      registry_destroy-registry_init file object t.registry shut
          ∙ ap (λ b. record t.registry { fh = none; rdargs = none; config_file_open = b }) missing,
    ),
  )
