-- ===== src/Device/Multicast.antt =====
-- KSZ8851/devicedriver/device.c: `getmcaf`, `DevCmdAddMulti` and `DevCmdRemMulti`. `PerformIO` does
-- not call the commands yet.
use driver_amiga_os_ks.Prelude.{
  ℕ, zero, suc, ◌*◌, ◌/◌, ◌%◌, ◌^◌, Bool, false, ◌||◌, List, [], ◌∷◌, bit_and, bit_or, bit_xor, has,
  ◌==◌, if◌then◌else◌,
}
use driver_amiga_os_ks.Device.Types.{
  DeviceUnit, Request, bad_address, fail_io, s2werr_bad_multicast, s2werr_generic_error, software,
  term_io,
}
use driver_amiga_os_ks.Device.Receive.{address_eq}
use driver_amiga_os_ks.Device.Lifecycle.{etheruf_promisc}

-- `for (i = 8; --i >= 0;)`: `c` is what is left of the byte.
unfoldable pub mcaf_bits : ℕ → ℕ → ℕ → ℕ
mcaf_bits zero c crc = crc
mcaf_bits (suc rounds) c crc = mcaf_bits rounds (c / 2) (
    if bit_xor (if has crc 0x80000000 then 1 else 0) (bit_and c 1) == 0
    then crc * 2 % 2 ^ 32
    else bit_xor (crc * 2 % 2 ^ 32) (bit_or 0x04c11db6 1))

unfoldable pub mcaf_bytes : List ℕ → ℕ → ℕ
mcaf_bytes [] crc = crc
mcaf_bytes (c ∷ cs) crc = mcaf_bytes cs (mcaf_bits 8 c crc)

unfoldable pub mcaf_crc : List ℕ → ℕ
mcaf_crc address = mcaf_bytes address 0xffffffff

-- `af`: word i of two
abbrev pub Filter : Type 0
Filter = ℕ → ℕ

-- `crc >>= 26; af[crc >> 5] |= 1 << ((crc & 0x1f) ^ 24)`
unfoldable pub mark_filter : ℕ → Filter → Filter
mark_filter crc af i =
    let k = crc / 2 ^ 26 in
    if k / 32 == i then bit_or (af i) (2 ^ bit_xor (bit_and k 0x1f) 24) else af i

unfoldable pub fill_filter : List (List ℕ) → Filter → Filter
fill_filter [] af = af
fill_filter (address ∷ addresses) af = fill_filter addresses (mark_filter (mcaf_crc address) af)

unfoldable pub getmcaf : ℕ → List (List ℕ) → Filter
getmcaf lib_flags mcaf =
    if has lib_flags etheruf_promisc then (λ _. 0xffffffff) else fill_filter mcaf (λ _. 0)

unfoldable pub has_address : List ℕ → List (List ℕ) → Bool
has_address address [] = false
has_address address (a ∷ as') = address_eq a address || has_address address as'

-- `memory` tells whether `AllocMem` succeeds. The results are the list of addresses and the unit.
unfoldable pub dev_cmd_add_multi :
    Bool → Request → List (List ℕ) → DeviceUnit → List (List ℕ) × DeviceUnit
dev_cmd_add_multi memory r mcaf u =
    if has_address r.src_addr mcaf
    then (mcaf, term_io r u)
    else if memory
    then (r.src_addr ∷ mcaf, term_io r u)
    else (mcaf, fail_io r software s2werr_generic_error u)

unfoldable pub remove_address : List ℕ → List (List ℕ) → List (List ℕ)
remove_address address [] = []
remove_address address (a ∷ as') =
    let rest = a ∷ remove_address address as' in if address_eq a address then as' else rest

unfoldable pub dev_cmd_rem_multi : Request → List (List ℕ) → DeviceUnit → List (List ℕ) × DeviceUnit
dev_cmd_rem_multi r mcaf u =
    if has_address r.src_addr mcaf
    then (remove_address r.src_addr mcaf, term_io r u)
    else (mcaf, fail_io r bad_address s2werr_bad_multicast u)
