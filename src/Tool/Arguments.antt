-- ===== src/Tool/Arguments.antt =====
-- The tool's command line: which options an argument list has.
use driver_amiga_os_ks.Prelude.{
  Bool, true, false, [], ◌∷◌, none, some, ◌||◌, Option, List, ◌≡◌, subst, ap, arith, refl,
  if◌then◌else◌, ◌∙◌,
}
use driver_amiga_os_ks.Tool.{
  Options, ℤ, is_word, parse_args, take_count, word_be, set_flags, word_le, options, word_reset,
  word_send, word_help, Parsed, default_options, usage, null_argument,
}
use driver_amiga_os_ks.Config.{Text}

abbrev pub contains : Text → List Text → Bool
contains word [] = false
contains word (arg ∷ args) = is_word arg word || contains word args

-- The flags are those of the words in the list, on top of given ones; `help` is not among the words.
abbrev pub HasFlags : Options → List Text → Options → Type 0
HasFlags o args o' =
    (o'.switch_chip_to_big_endian ≡ (contains word_be args || o.switch_chip_to_big_endian))
    × (o'.switch_chip_to_little_endian ≡ (contains word_le args || o.switch_chip_to_little_endian))
    × (o'.reset_cmd ≡ (contains word_reset args || o.reset_cmd))
    × (o'.send ≡ (contains word_send args || o.send))
    × (contains word_help args ≡ false)

abbrev options_of : Parsed → Options
options_of (options o) = o
options_of _ = default_options

parsed-further :
    (is_help : Bool) (later : Parsed) (o' : Options)
    → (if is_help then usage else later) ≡ options o'
    → (is_help ≡ false) × (later ≡ options o')
parsed-further true later o' e = ground arith
parsed-further false later o' e = (refl, e)

or_move : (a b c : Bool) → (b || (a || c)) ≡ ((a || b) || c)
or_move a b c = ground arith

or_false : (a : Bool) → (a || false) ≡ a
or_false a = ground arith

-- One argument more.
HasFlags-cons :
    (arg : Text) (rest : List Text) (o o₁ o' : Options)
    → o₁.switch_chip_to_big_endian ≡ (is_word arg word_be || o.switch_chip_to_big_endian)
    → o₁.switch_chip_to_little_endian ≡ (is_word arg word_le || o.switch_chip_to_little_endian)
    → o₁.reset_cmd ≡ (is_word arg word_reset || o.reset_cmd)
    → o₁.send ≡ (is_word arg word_send || o.send)
    → is_word arg word_help ≡ false
    → HasFlags o₁ rest o'
    → HasFlags o (arg ∷ rest) o'
HasFlags-cons arg rest o o₁ o' b l r s h (b', l', r', s', h') = (
  b'
      ∙ ap (λ x. contains word_be rest || x) b
      ∙ or_move (is_word arg word_be) (contains word_be rest) o.switch_chip_to_big_endian,
  l'
      ∙ ap (λ x. contains word_le rest || x) l
      ∙ or_move (is_word arg word_le) (contains word_le rest) o.switch_chip_to_little_endian,
  r'
      ∙ ap (λ x. contains word_reset rest || x) r
      ∙ or_move (is_word arg word_reset) (contains word_reset rest) o.reset_cmd,
  s'
      ∙ ap (λ x. contains word_send rest || x) s
      ∙ or_move (is_word arg word_send) (contains word_send rest) o.send,
  ap (λ x. x || contains word_help rest) h ∙ h',
)

-- What an argument changes besides the flags that it sets at once.
abbrev Counts : Bool → Options → Options → Type 0
Counts is_send o o₁ =
    (o₁.switch_chip_to_big_endian ≡ o.switch_chip_to_big_endian)
    × (o₁.switch_chip_to_little_endian ≡ o.switch_chip_to_little_endian)
    × (o₁.reset_cmd ≡ o.reset_cmd)
    × (o₁.send ≡ (is_send || o.send))

abbrev chosen : Options → Option Options → Options
chosen o none = o
chosen o (some o₁) = o₁

last-Counts :
    (is_send : Bool) (o o₁ : Options)
    → (if is_send then none else some o) ≡ some o₁
    → Counts is_send o o₁
last-Counts true o o₁ e = ground arith
last-Counts false o o₁ e = subst (Counts false o) (ap (chosen o) e) (refl, refl, refl, refl)

more-Counts :
    (is_send : Bool) (count : ℤ) (o o₁ : Options)
    → some (if is_send then record o { send = true; pkt_send_cnt = count } else o) ≡ some o₁
    → Counts is_send o o₁
more-Counts true count o o₁ e = subst (Counts true o) (ap (chosen o) e) (refl, refl, refl, refl)
more-Counts false count o o₁ e = subst (Counts false o) (ap (chosen o) e) (refl, refl, refl, refl)

module _ (atoi : Text → ℤ) where
  take_count-Counts :
      (arg : Text) (rest : List Text) (o o₁ : Options)
      → take_count atoi arg rest o ≡ some o₁
      → Counts (is_word arg word_send) o o₁
  unfolding take_count
  take_count-Counts arg [] o o₁ e = last-Counts (is_word arg word_send) o o₁ e
  take_count-Counts arg (next ∷ rest) o o₁ e =
      more-Counts (is_word arg word_send) (atoi next) o o₁ e

  -- The loop goes on behind an argument that has its number and is not `help`.
  goes-on :
      (q : Option Options) (is_help : Bool) (rest : List Text) (o' : Options)
      → elim q [
        | none ↦ null_argument
        | some o₁ ↦ let later = parse_args atoi rest o₁ in if is_help then usage else later
      ]
        ≡ options o'
      → (o₁ : Options) × (q ≡ some o₁) × (is_help ≡ false) × (parse_args atoi rest o₁ ≡ options o')
  goes-on none is_help rest o' e = ground arith
  goes-on (some o₁) is_help rest o' e =
      let further = parsed-further is_help (parse_args atoi rest o₁) o' e in
      (o₁, refl, further.0, further.1)

  parse_args-HasFlags :
      (args : List Text) (o o' : Options) → parse_args atoi args o ≡ options o' → HasFlags o args o'
  unfolding parse_args set_flags
  parse_args-HasFlags [] o o' e =
      subst (HasFlags o []) (ap options_of e) (refl, refl, refl, refl, refl)
  parse_args-HasFlags (arg ∷ rest) o o' e =
      let (o₁, k, h, later) =
        goes-on (take_count atoi arg rest (set_flags arg o)) (is_word arg word_help) rest o' e in
      let (b, l, r, s) = take_count-Counts arg rest (set_flags arg o) o₁ k in
      HasFlags-cons arg rest o o₁ o' b l r s h (parse_args-HasFlags rest o₁ o' later)

  -- If the arguments are accepted, the options for the modes, the reset and sending are set exactly for
  -- the words that stand among them, and `help` is not one of these; this holds of the argument behind
  -- `send` as well, which is read both as a number and as a word.
  pub parse_args-contains :
      (args : List Text) (o : Options)
      → parse_args atoi args default_options ≡ options o
      → (o.switch_chip_to_big_endian ≡ contains word_be args)
        × (o.switch_chip_to_little_endian ≡ contains word_le args)
        × (o.reset_cmd ≡ contains word_reset args)
        × (o.send ≡ contains word_send args)
        × (contains word_help args ≡ false)
  parse_args-contains args o e =
      let (b, l, r, s, h) = parse_args-HasFlags args default_options o e in
      (
        b ∙ or_false (contains word_be args),
        l ∙ or_false (contains word_le args),
        r ∙ or_false (contains word_reset args),
        s ∙ or_false (contains word_send args),
        h,
      )
