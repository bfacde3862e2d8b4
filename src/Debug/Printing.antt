-- ===== src/Debug/Printing.antt =====
-- What the debug output prints.
use driver_amiga_os_ks.Prelude.{
  ℕ, List, Bool, ◌/◌, [], all_below, get_or, true, ◌≡◌, ◌++◌, map, refl, suc, ◌∷◌, ◌%◌, ◌==◌,
  bit_and, not, ◌&&◌, ap, zero, low_15, ◌∙◌, ==_iff, all_below_sound, arith, false, sym,
  if◌then◌else◌, leb, ◌+◌, ◌-◌, ◌<◌, ◌*◌, ◌^◌, bit_or, bit_or-shifted_left,
}
use mathlib.Core.Path.{fun_ext}
use mathlib.Core.List.{append-nil, append_assoc}
use native.Mathlib.Nat.{pow-suc}
use driver_amiga_os_ks.Debug.{
  Console, Output, fill_digits, put_chars, confstr, k_put_char, printi, print, print_text,
  initial_text,
}
use driver_amiga_os_ks.Config.Address.{hex_digit, add_digit-hex_digit}
use driver_amiga_os_ks.Config.{hex_from, hex_string_to_u32, add_digit}

-- The hexadecimal digits of a number, the highest first.
abbrev pub hex_digits : ℕ → ℕ → List ℕ
hex_digits zero w = []
hex_digits (suc k) w = hex_digits k (w / 16) ++ hex_digit (w % 16) ∷ []

-- The characters of one call, as the operating system gets them.
abbrev pub put_at : ℕ → List ℕ → List Output
put_at nesting text = map (λ ch. k_put_char ch nesting) text

abbrev pub printis : ℕ → List ℕ → Console → Console
printis db_level [] c = c
printis db_level (w ∷ ws) c = printis db_level ws (printi db_level w c)

-- The buffer with the digits that a function gives of a number and its shifts.
abbrev frame : (ℕ → ℕ) → ℕ → List ℕ
frame f w =
    let w1 = w / 16 in
    let w2 = w1 / 16 in
    let w3 = w2 / 16 in
    let w4 = w3 / 16 in
    let w5 = w4 / 16 in
    let w6 = w5 / 16 in
    let w7 = w6 / 16 in
    b'0' ∷ b'x' ∷ f w7 ∷ f w6 ∷ f w5 ∷ f w4 ∷ f w3 ∷ f w2 ∷ f w1 ∷ f w ∷ 10 ∷ 0 ∷ 0 ∷ []

abbrev conf_digit : ℕ → ℕ
conf_digit w = get_or confstr (bit_and w 0xf) 0

abbrev is_hex_at : ℕ → Bool
is_hex_at d = get_or confstr d 0 == hex_digit d

hex_table : all_below 16 is_hex_at ≡ true
hex_table = refl

conf_digit_lem : (w : ℕ) → conf_digit w ≡ hex_digit (w % 16)
conf_digit_lem w =
    ap (λ d. get_or confstr d 0) (low_15 w)
    ∙ (==_iff _ (hex_digit (w % 16))).0
        (all_below_sound 16 is_hex_at (w % 16) hex_table (omega arith))

fill_digits-frame :
    (f : ℕ → ℕ) (v w : ℕ) → fill_digits 8 w (frame f v) ≡ frame (λ d. hex_digit (d % 16)) w
unfolding fill_digits
fill_digits-frame f v w = ap (λ g. frame g w) (fun_ext conf_digit_lem)

abbrev has_no_zero : List ℕ → Bool
has_no_zero [] = true
has_no_zero (ch ∷ text) = not (ch == 0) && has_no_zero text

put_chars_lem :
    (text rest : List ℕ) (c : Console)
    → has_no_zero text ≡ true
    → put_chars (text ++ 0 ∷ rest) c ≡ record c { output = c.output ++ put_at c.disabled text }
unfolding put_chars
put_chars_lem [] rest c h = ap (λ out. record c { output = out }) (sym (append-nil c.output))
put_chars_lem (ch ∷ text) rest c h =
    let next = record c { output = c.output ++ k_put_char ch c.disabled ∷ [] } in
    let here : (ch == 0) ≡ false = ground arith in
    ap (λ b. if b then c else put_chars (text ++ 0 ∷ rest) next) here
    ∙ put_chars_lem text rest next (ground arith)
    ∙ ap (λ out. record c { output = out })
        (append_assoc c.output (k_put_char ch c.disabled ∷ []) (put_at c.disabled text))

hex_digit-ne-zero : (d : ℕ) → (hex_digit d == 0) ≡ false
hex_digit-ne-zero d = ground arith

has_no_zero-append :
    (xs ys : List ℕ) → has_no_zero xs ≡ true → has_no_zero ys ≡ true → has_no_zero (xs ++ ys) ≡ true
has_no_zero-append [] ys h k = k
has_no_zero-append (x ∷ xs) ys h k = ground (arith, has_no_zero-append xs ys)

hex_digits-has_no_zero : (k w : ℕ) → has_no_zero (hex_digits k w) ≡ true
hex_digits-has_no_zero zero w = refl
hex_digits-has_no_zero (suc k) w =
    has_no_zero-append (hex_digits k (w / 16)) (hex_digit (w % 16) ∷ [])
      (hex_digits-has_no_zero k (w / 16)) (ground arith)

-- What a number is printed as.
abbrev pub hex_text : ℕ → List ℕ
hex_text w = b'0' ∷ b'x' ∷ hex_digits 8 w ++ 10 ∷ []

hex_digits-has_no_zero_text : (w : ℕ) → has_no_zero (hex_text w) ≡ true
hex_digits-has_no_zero_text w =
    has_no_zero-append (hex_digits 8 w) (10 ∷ []) (hex_digits-has_no_zero 8 w) refl

print_text_lem :
    (text rest : List ℕ) (c : Console)
    → has_no_zero text ≡ true
    → print_text (text ++ 0 ∷ rest) c
      ≡ record c { output = c.output ++ put_at (c.disabled + 1) text }
unfolding print_text
print_text_lem text rest c h =
    let deeper = record c { disabled = c.disabled + 1 } in
    let again : c.disabled + 1 - 1 ≡ c.disabled = omega arith in
    let output = c.output ++ put_at (c.disabled + 1) text in
    ap {A = Console} (λ put. record put { disabled = put.disabled - 1 })
      (put_chars_lem text rest deeper h)
    ∙ ap (λ d. record c { disabled = d; output = output }) again

-- A text that no zero interrupts comes out whole, with interrupts disabled once more than outside, or
-- not at all.
print_lem :
    (db_level : ℕ) (text rest : List ℕ) (c : Console)
    → has_no_zero text ≡ true
    → print db_level (text ++ 0 ∷ rest) c ≡ record c {
      output =
          c.output ++ (if leb db_level c.debug_level then put_at (c.disabled + 1) text else []);
    }
unfolding print
print_lem db_level text rest c h = either (leb db_level c.debug_level)
  where
    either :
        (b : Bool)
        → (if b then print_text (text ++ 0 ∷ rest) c else c)
          ≡ record c { output = c.output ++ (if b then put_at (c.disabled + 1) text else []) }
    either true = print_text_lem text rest c h
    either false = ap (λ out. record c { output = out }) (sym (append-nil c.output))

-- One number, from a buffer that an earlier number may have been left in.
printi-frame :
    (f : ℕ → ℕ) (v db_level w : ℕ) (c : Console)
    → c.text ≡ frame f v
    → printi db_level w c ≡ record c {
      text = frame (λ d. hex_digit (d % 16)) w;
      output =
          c.output
          ++ (if leb db_level c.debug_level then put_at (c.disabled + 1) (hex_text w) else []);
    }
unfolding printi
printi-frame f v db_level w c e =
    let filled : fill_digits 8 w c.text ≡ frame (λ d. hex_digit (d % 16)) w =
      ap (fill_digits 8 w) e ∙ fill_digits-frame f v w in
    ap (λ t. print db_level t (record c { text = t })) filled
    ∙ print_lem db_level (hex_text w) (0 ∷ [])
        (record c { text = frame (λ d. hex_digit (d % 16)) w }) (hex_digits-has_no_zero_text w)

-- The digits are read back by the parser of the configuration file.
hex_string_to_u32-snoc :
    (digits : List ℕ) (val d : ℕ)
    → hex_from val (digits ++ d ∷ []) ≡ add_digit d (hex_from val digits * 16 % 2 ^ 32)
unfolding hex_from
hex_string_to_u32-snoc [] val d = refl
hex_string_to_u32-snoc (x ∷ xs) val d =
    hex_string_to_u32-snoc xs (add_digit x (val * 16 % 2 ^ 32)) d

hex_string_to_u32-hex_digits :
    (k w : ℕ) → w < 16 ^ k → w < 2 ^ 32 → hex_string_to_u32 (hex_digits k w) ≡ w
unfolding hex_string_to_u32
hex_string_to_u32-hex_digits zero w h l = omega arith
hex_string_to_u32-hex_digits (suc k) w h l =
    let high =
      hex_string_to_u32-hex_digits k (w / 16) (omega (arith, pow-suc 16 k)) (omega arith) in
    hex_string_to_u32-snoc (hex_digits k (w / 16)) 0 (hex_digit (w % 16))
    ∙ ap (λ v. add_digit (hex_digit (w % 16)) (v * 16 % 2 ^ 32)) high
    ∙ add_digit-hex_digit (w % 16) (w / 16 * 16 % 2 ^ 32) (omega arith)
    ∙ ap (λ v. bit_or v (w % 16)) (omega arith)
    ∙ bit_or-shifted_left 4 (w % 16) (w / 16) (omega arith)
    ∙ omega arith

-- The buffer after any numbers that were printed from its first contents on.
printis-frame :
    (ws : List ℕ) (f : ℕ → ℕ) (v db_level : ℕ) (c : Console)
    → c.text ≡ frame f v
    → (g : ℕ → ℕ) × (u : ℕ) × ((printis db_level ws c).text ≡ frame g u)
printis-frame [] f v db_level c e = (f, v, e)
printis-frame (w ∷ ws) f v db_level c e =
    printis-frame ws (λ d. hex_digit (d % 16)) w db_level (printi db_level w c)
      (ap (λ c. c.text) (printi-frame f v db_level w c e))

-- Whatever numbers were printed before through the same static buffer: a 32-bit number comes out as "0x",
-- eight digits and a newline, with interrupts disabled once more than outside, if the level of the
-- message is at most the debug level, and not at all else; and the number parser of the configuration
-- file reads the digits back as the number.
pub printi-hex_string_to_u32 :
    (ws : List ℕ) (db_level w : ℕ) (c : Console)
    → c.text ≡ initial_text
    → w < 2 ^ 32
    → (let before = printis db_level ws c in
        let printed =
          if leb db_level before.debug_level
          then put_at (before.disabled + 1) (hex_text w)
          else [] in
        ((printi db_level w before).output ≡ before.output ++ printed)
        × ((printi db_level w before).disabled ≡ before.disabled)
        × (hex_string_to_u32 (hex_digits 8 w) ≡ w))
printi-hex_string_to_u32 ws db_level w c e h =
    let (g, u, framed) = printis-frame ws (λ _. b'0') 0 db_level c e in
    let result = printi-frame g u db_level w (printis db_level ws c) framed in
    (
      ap (λ c. c.output) result,
      ap (λ c. c.disabled) result,
      hex_string_to_u32-hex_digits 8 w (omega arith) h,
    )
