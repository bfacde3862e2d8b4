-- ===== src/Debug/Tests.antt =====
-- A console, and the theorems on the debug output at it.
use driver_amiga_os_ks.Debug.{Console, initial_text, printi}
use driver_amiga_os_ks.Debug.Printing.{
  printis, put_at, hex_text, hex_digits, printi-hex_string_to_u32,
}
use driver_amiga_os_ks.Prelude.{◌∷◌, [], if◌then◌else◌, leb, ◌+◌, ◌≡◌, ◌++◌, arith, refl}
use driver_amiga_os_ks.Config.{hex_string_to_u32}

abbrev talkative : Console
talkative = record { debug_level = 8; text = initial_text; disabled = 0; output = [] }

printi-hex_string_to_u32_example :
    (let before = printis 5 (0x12345678 ∷ []) talkative in
      let printed =
        if leb 5 before.debug_level then put_at (before.disabled + 1) (hex_text 0xc0ffee) else [] in
      ((printi 5 0xc0ffee before).output ≡ before.output ++ printed)
      × ((printi 5 0xc0ffee before).disabled ≡ before.disabled)
      × (hex_string_to_u32 (hex_digits 8 0xc0ffee) ≡ 0xc0ffee))
printi-hex_string_to_u32_example =
    printi-hex_string_to_u32 (0x12345678 ∷ []) 5 0xc0ffee talkative refl (omega arith)
