-- ===== src/Config/Address.antt =====
-- Station addresses in the configuration file.
use driver_amiga_os_ks.Prelude.{
  List, ℕ, ◌<◌, Bool, if◌then◌else◌, ◌≡◌, ◌/◌, bit_or, ltb, true, ◌+◌, arith, length, ◌∷◌, ◌%◌,
  ◌&&◌, map, some, ◌∙◌, [], ap, ◌*◌, ◌^◌, bit_or-shifted_left, refl, zero-bit_or,
}
use driver_amiga_os_ks.Config.{
  add_digit, hex_string_to_u32, read_key_mac_address, store_tokens, Text, hex_from,
}

-- The digit of a number below 16.
abbrev pub hex_digit : ℕ → ℕ
hex_digit d = if ltb d 10 then 48 + d else 87 + d

-- A byte in two digits, as a token of an address.
abbrev pub hex_byte : ℕ → Text
hex_byte b = hex_digit (b / 16) ∷ hex_digit (b % 16) ∷ []

abbrev pub all_bytes : List ℕ → Bool
all_bytes [] = true
all_bytes (b ∷ bs) = ltb b 256 && all_bytes bs

pub add_digit-hex_digit : (d val : ℕ) → d < 16 → add_digit (hex_digit d) val ≡ bit_or val d
unfolding add_digit
add_digit-hex_digit d val h = ground arith

hex_string_to_u32-hex_byte : (b : ℕ) → b < 256 → hex_string_to_u32 (hex_byte b) ≡ b
unfolding hex_string_to_u32 hex_from
hex_string_to_u32-hex_byte b h =
    let high : add_digit (hex_digit (b / 16)) 0 ≡ b / 16 =
      add_digit-hex_digit (b / 16) 0 (omega arith) ∙ zero-bit_or (b / 16) in
    ap (λ v. add_digit (hex_digit (b % 16)) (v * 16 % 2 ^ 32)) high
    ∙ add_digit-hex_digit (b % 16) (b / 16 * 16 % 2 ^ 32) (omega arith)
    ∙ ap (λ v. bit_or v (b % 16)) (omega arith)
    ∙ bit_or-shifted_left 4 (b % 16) (b / 16) (omega arith)
    ∙ omega arith

store_tokens-hex_byte :
    (bytes dst : List ℕ)
    → all_bytes bytes ≡ true
    → length dst ≡ length bytes
    → store_tokens (map hex_byte bytes) dst ≡ bytes
unfolding store_tokens
store_tokens-hex_byte [] [] a l = refl
store_tokens-hex_byte [] (d ∷ ds) a l = absurd (omega (arith, l))
store_tokens-hex_byte (b ∷ bs) [] a l = absurd (omega (arith, l))
store_tokens-hex_byte (b ∷ bs) (d ∷ ds) a l =
    let byte = hex_string_to_u32-hex_byte b (ground arith) in
    ap (λ v. v % 256 ∷ store_tokens (map hex_byte bs) ds) byte
    ∙ ap (λ v. v ∷ store_tokens (map hex_byte bs) ds) (ground arith)
    ∙ ap (λ vs. b ∷ vs) (store_tokens-hex_byte bs ds (ground arith) (omega (arith, l)))

-- An address that the file has as one token of two hexadecimal digits for each byte is read back as
-- it was written, whatever address was there before, if both have as many bytes.
pub read_key_mac_address-hex_byte :
    (bytes dst default : List ℕ)
    → all_bytes bytes ≡ true
    → length dst ≡ length bytes
    → read_key_mac_address (some (map hex_byte bytes)) dst default ≡ bytes
unfolding read_key_mac_address
read_key_mac_address-hex_byte bytes dst default a l = store_tokens-hex_byte bytes dst a l
