-- ===== src/Device/Crc.antt =====
-- The CRC of the device's multicast filter and that of the chip driver.
use native.Mathlib.Nat.{div-div-eq-div-mul, pow-suc}
use driver_amiga_os_ks.Device.Multicast.{mcaf_bits, mcaf_bytes, mcaf_crc}
use driver_amiga_os_ks.Prelude.{
  ℕ, bit_xor, ◌/◌, List, if◌then◌else◌, ◌^◌, has, ◌≡◌, bit_and, suc, ◌∷◌, ◌==◌, ap, ◌%◌, arith, ◌+◌,
  has-pow, ◌∙◌, [], bit-div, zero, low_1, refl, xor-digits, sym, bit_xor-parity, ◌*◌,
}
use driver_amiga_os_ks.Chip.Multicast.{calc_crc, crc_bits, crc_bytes, shl32}

same_test :
    (crc c : ℕ)
    → (bit_xor (if has crc 0x80000000 then 1 else 0) (bit_and c 1) == 0)
      ≡ (bit_and (bit_xor (crc / 2 ^ 31) c) 1 == 0)
same_test crc c =
    let x = crc / 2 ^ 31 in
    let carry : has crc 0x80000000 ≡ (x % 2 == 1) = has-pow 31 crc ∙ bit-div 31 crc in
    ap (λ b. bit_xor (if b then 1 else 0) (bit_and c 1) == 0) carry
    ∙ ap (λ t. bit_xor (if x % 2 == 1 then 1 else 0) t == 0) (low_1 c)
    ∙ xor-digits (x % 2) (c % 2) (omega arith) (omega arith)
    ∙ sym (ap (λ t. t == 0) (low_1 (bit_xor x c) ∙ bit_xor-parity x c))

mcaf_bits-crc_bits :
    (rounds j byte crc : ℕ) → mcaf_bits rounds (byte / 2 ^ j) crc ≡ crc_bits rounds j byte crc
unfolding mcaf_bits crc_bits
mcaf_bits-crc_bits zero j byte crc = refl
mcaf_bits-crc_bits (suc rounds) j byte crc =
    let test = bit_and (bit_xor (crc / 2 ^ 31) (byte / 2 ^ j)) 1 == 0 in
    let next = if test then shl32 crc else bit_xor (shl32 crc) 0x04c11db7 in
    let next_j : suc j ≡ j + 1 = omega arith in
    let power : 2 ^ j * 2 ≡ 2 ^ (j + 1) = omega (arith, pow-suc 2 j) ∙ ap (λ t. 2 ^ t) next_j in
    let shifted : byte / 2 ^ j / 2 ≡ byte / 2 ^ (j + 1) =
      div-div-eq-div-mul byte (2 ^ j) 2 ∙ ap (λ t. byte / t) power in
    ap
      (λ b.
        mcaf_bits rounds (byte / 2 ^ j / 2)
          (if b then shl32 crc else bit_xor (shl32 crc) 0x04c11db7))
      (same_test crc (byte / 2 ^ j))
    ∙ ap (λ t. mcaf_bits rounds t next) shifted
    ∙ mcaf_bits-crc_bits rounds (j + 1) byte next

mcaf_bytes-crc_bytes : (bytes : List ℕ) (crc : ℕ) → mcaf_bytes bytes crc ≡ crc_bytes bytes crc
unfolding mcaf_bytes crc_bytes
mcaf_bytes-crc_bytes [] crc = refl
mcaf_bytes-crc_bytes (c ∷ cs) crc =
    ap (mcaf_bytes cs) (ap (λ t. mcaf_bits 8 t crc) (omega arith) ∙ mcaf_bits-crc_bits 8 0 c crc)
    ∙ mcaf_bytes-crc_bytes cs (crc_bits 8 0 c crc)

-- The device and the chip driver compute the same CRC of every address, though the one shifts the
-- byte and tests the carry before the shift and the other indexes the bits of the byte.
pub mcaf_crc-calc_crc : (address : List ℕ) → mcaf_crc address ≡ calc_crc address
unfolding mcaf_crc calc_crc
mcaf_crc-calc_crc address = mcaf_bytes-crc_bytes address 0xffffffff
