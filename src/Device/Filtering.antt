-- ===== src/Device/Filtering.antt =====
-- The device's multicast filter and the hash table that the chip driver makes of the same addresses.
use driver_amiga_os_ks.Prelude.{
  ℕ, List, Bool, ◌<◌, all_below, bit_xor, ◌%◌, ◌==◌, ◌^◌, ◌/◌, bit, suc, ◌∷◌, ◌≡◌, ◌*◌, ==_iff, [],
  arith, true, ◌||◌, all_below_sound, if-holds, refl, if◌then◌else◌, sym, has, ◌∙◌, ap, bit_and,
  bit_or, low_63, bit_xor-below, zero, Bool-cases, low_31, bit-bit_or, inl, bit-pow, inr, false,
  map, bit-zero,
}
use driver_amiga_os_ks.Chip.Multicast.{MacFilterEntry, filter_index, calc_crc, hash_table}
use driver_amiga_os_ks.Device.Multicast.{
  mark_filter, mcaf_bits, mcaf_bytes, Filter, mcaf_crc, fill_filter, getmcaf,
}
use driver_amiga_os_ks.Device.Crc.{mcaf_crc-calc_crc}
use driver_amiga_os_ks.Device.Lifecycle.{etheruf_promisc}
use driver_amiga_os_ks.Chip.Filter.{is_marked, hash_table_lem}

-- An address as an entry of the chip driver's filter.
abbrev pub in_use : List ℕ → MacFilterEntry
in_use address = record { addr = address; ref_count = 1 }

-- Where a word of the device's filter has the bit of an index.
abbrev pub turned : ℕ → ℕ
turned index = bit_xor (index % 32) 24

or_false : (b : Bool) → b ≡ (b || false)
or_false true = refl
or_false false = refl

or_assoc : (a b c : Bool) → ((a || b) || c) ≡ (a || (b || c))
or_assoc true b c = refl
or_assoc false b c = refl

mcaf_bits-below : (rounds c crc : ℕ) → crc < 2 ^ 32 → mcaf_bits rounds c crc < 2 ^ 32
unfolding mcaf_bits
mcaf_bits-below zero c crc h = h
mcaf_bits-below (suc rounds) c crc h =
    let shifted = crc * 2 % 2 ^ 32 in
    mcaf_bits-below rounds (c / 2) _ (
      if-holds (λ v. v < 2 ^ 32) (bit_xor (if has crc 0x80000000 then 1 else 0) (bit_and c 1) == 0)
        shifted (bit_xor shifted (bit_or 0x04c11db6 1)) (omega arith)
        (bit_xor-below 32 shifted (bit_or 0x04c11db6 1) (omega arith) (omega arith)))

mcaf_bytes-below : (address : List ℕ) (crc : ℕ) → crc < 2 ^ 32 → mcaf_bytes address crc < 2 ^ 32
unfolding mcaf_bytes
mcaf_bytes-below [] crc h = h
mcaf_bytes-below (c ∷ cs) crc h =
    mcaf_bytes-below cs (mcaf_bits 8 c crc) (mcaf_bits-below 8 c crc h)

-- The six highest bits of the CRC, which the device uses as they are and the chip driver masks.
mcaf_crc-filter_index : (address : List ℕ) → mcaf_crc address / 2 ^ 26 ≡ filter_index address
unfolding filter_index mcaf_crc
mcaf_crc-filter_index address =
    let crc = mcaf_crc address in
    let bound : crc < 2 ^ 32 = mcaf_bytes-below address 0xffffffff (omega arith) in
    let same : calc_crc address ≡ crc = sym (mcaf_crc-calc_crc address) in
    sym (ap (λ v. bit_and (v / 2 ^ 26) 0x3f) same ∙ low_63 (crc / 2 ^ 26) ∙ omega (arith, bound))

abbrev turns_back : ℕ → Bool
turns_back x = bit_xor (bit_xor x 24) 24 == x

turning_back : all_below 32 turns_back ≡ true
turning_back = refl

same_tests : (a b c d : ℕ) → (a ≡ b → c ≡ d) → (c ≡ d → a ≡ b) → (a == b) ≡ (c == d)
same_tests a b c d to from = elim (Bool-cases (a == b)) [
  | inl e ↦ let forth : c ≡ d = to ((==_iff a b).0 e) in ground arith
  | inr e ↦ elim (Bool-cases (c == d)) [
    | inl f ↦ let back : a ≡ b = from ((==_iff c d).0 f) in ground arith
    | inr f ↦ e ∙ sym f
  ]
]

turn_injective : (x y : ℕ) → x < 32 → y < 32 → (bit_xor x 24 == bit_xor y 24) ≡ (x == y)
turn_injective x y h l =
    let back_x = (==_iff _ x).0 (all_below_sound 32 turns_back x turning_back h) in
    let back_y = (==_iff _ y).0 (all_below_sound 32 turns_back y turning_back l) in
    same_tests (bit_xor x 24) (bit_xor y 24) x y
      (λ e. sym back_x ∙ ap (λ v. bit_xor v 24) e ∙ back_y) (ap (λ v. bit_xor v 24))

bit-mark_filter :
    (k crc : ℕ) (af : Filter)
    → bit (turned k) (mark_filter crc af (k / 32))
      ≡ (bit (turned k) (af (k / 32)) || crc / 2 ^ 26 == k)
unfolding mark_filter
bit-mark_filter k crc af =
    let index = crc / 2 ^ 26 in
    let word = af (k / 32) in
    let place = bit_xor (bit_and index 0x1f) 24 in
    let same : (turned k == place) ≡ (k % 32 == index % 32) =
      ap (λ v. turned k == bit_xor v 24) (low_31 index)
      ∙ turn_injective (k % 32) (index % 32) (omega arith) (omega arith) in
    let marked : bit (turned k) (bit_or word (2 ^ place))
        ≡ (bit (turned k) word || turned k == place) =
      bit-bit_or (turned k) word (2 ^ place)
      ∙ ap (λ b. bit (turned k) word || b) (bit-pow (turned k) place) in
    elim (Bool-cases (index / 32 == k / 32)) [
      | inl e ↦
          let eq : (k % 32 == index % 32) ≡ (index == k) =
            same_tests (k % 32) (index % 32) index k (λ p. omega (arith, (==_iff _ _).0 e, p))
              (λ p. omega (arith, p)) in
          ap (λ b. bit (turned k) (if b then bit_or word (2 ^ place) else word)) e
          ∙ marked
          ∙ ap (λ b. bit (turned k) word || b) (same ∙ eq)
      | inr e ↦
          let other : false ≡ (index == k) = ground arith in
          ap (λ b. bit (turned k) (if b then bit_or word (2 ^ place) else word)) e
          ∙ or_false (bit (turned k) word)
          ∙ ap (λ b. bit (turned k) word || b) other
    ]

bit-fill_filter :
    (k : ℕ) (addresses : List (List ℕ)) (af : Filter)
    → bit (turned k) (fill_filter addresses af (k / 32))
      ≡ (bit (turned k) (af (k / 32)) || is_marked k (map in_use addresses))
unfolding fill_filter
bit-fill_filter k [] af = or_false (bit (turned k) (af (k / 32)))
bit-fill_filter k (address ∷ addresses) af =
    let here = bit (turned k) (af (k / 32)) in
    let rest = is_marked k (map in_use addresses) in
    bit-fill_filter k addresses (mark_filter (mcaf_crc address) af)
    ∙ ap (λ b. b || rest) (bit-mark_filter k (mcaf_crc address) af)
    ∙ ap (λ index. (here || index == k) || rest) (mcaf_crc-filter_index address)
    ∙ or_assoc here (filter_index address == k) rest

abbrev is_all_ones_at : ℕ → Bool
is_all_ones_at x = bit (bit_xor x 24) 0xffffffff

all_ones : all_below 32 is_all_ones_at ≡ true
all_ones = refl

-- The device's filter accepts an index exactly if the unit is promiscuous or the hash table that the
-- chip driver makes of the same addresses accepts it, for each of the 64 indices: the device has bit
-- `k % 32` exclusive or 24 of word `k / 32` where the chip has bit `k % 16` of word `k / 16`.
pub getmcaf-hash_table :
    (lib_flags : ℕ) (addresses : List (List ℕ)) (k : ℕ)
    → k < 64
    → bit (turned k) (getmcaf lib_flags addresses (k / 32))
      ≡ (has lib_flags etheruf_promisc || bit (k % 16) (hash_table (map in_use addresses) (k / 16)))
unfolding getmcaf
getmcaf-hash_table lib_flags addresses k h =
    let table = bit (k % 16) (hash_table (map in_use addresses) (k / 16)) in
    let filled =
      bit-fill_filter k addresses (λ _. 0)
      ∙ ap (λ b. b || is_marked k (map in_use addresses)) (bit-zero (turned k))
      ∙ sym (hash_table_lem k (map in_use addresses)) in
    either (has lib_flags etheruf_promisc) filled
      (all_below_sound 32 is_all_ones_at (k % 32) all_ones (omega arith))
  where
    either :
        (b : Bool)
        → bit (turned k) (fill_filter addresses (λ _. 0) (k / 32))
          ≡ bit (k % 16) (hash_table (map in_use addresses) (k / 16))
        → bit (turned k) 0xffffffff ≡ true
        → bit
            (turned k)
            ((if b then (λ _. 0xffffffff) else fill_filter addresses (λ _. 0)) (k / 32))
          ≡ (b || bit (k % 16) (hash_table (map in_use addresses) (k / 16)))
    either true f o = o
    either false f o = f
