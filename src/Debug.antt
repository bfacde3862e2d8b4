-- ===== src/Debug.antt =====
-- KSZ8851/devicedriver/devdebug.c, and what device.c and KSZ8851/servicetool/ksz8851.c put out with it in
-- a build with DEBUG.
--
-- `KPutChar` and `KVPrintF` belong to the operating system: `output` keeps their calls, the oldest
-- first, each with the depth of `Disable()` at the call. A level below 0 acts as level 0 does, since
-- the level of every message is positive.
mod Tests
pub mod Printing
use driver_amiga_os_ks.Prelude.{
  ℕ, List, Bool, ◌+◌, ◌++◌, if◌then◌else◌, suc, ◌∷◌, ◌-◌, ◌/◌, ◌==◌, [], leb, ltb, ◌%◌, set, get_or,
  bit_and, zero,
}
use Prim.Native.String.{String}
use driver_amiga_os_ks.Chip.Bus.{Nic, read_reg}

pub data Output : Type 0 where
  k_put_char : ℕ → ℕ → Output
  kv_print_f : String → List ℕ → ℕ → Output

pub record Console : Type 0 where
  pub debug_level : ℕ
  pub text : List ℕ  -- the static buffer of `printi`
  pub disabled : ℕ
  pub output : List Output

-- "0x00000000\n\0", with the zero that ends it
abbrev pub initial_text : List ℕ
initial_text = b'0' ∷ b'x' ∷ b'0' ∷ b'0' ∷ b'0' ∷ b'0' ∷ b'0' ∷ b'0' ∷ b'0' ∷ b'0' ∷ 10 ∷ 0 ∷ 0 ∷ []

abbrev pub confstr : List ℕ
confstr =
    b'0' ∷ b'1' ∷ b'2' ∷ b'3' ∷ b'4' ∷ b'5' ∷ b'6' ∷ b'7' ∷ b'8' ∷ b'9' ∷ b'a' ∷ b'b' ∷ b'c' ∷ b'd'
    ∷ b'e' ∷ b'f' ∷ []

-- `Disable()`, a call, `Enable()`
unfoldable pub guarded : (ℕ → Output) → Console → Console
guarded call c = record c { output = c.output ++ call (c.disabled + 1) ∷ [] }

unfoldable pub printdebug : ℕ → String → List ℕ → Console → Console
printdebug db_level format args c =
    if leb db_level c.debug_level then guarded (kv_print_f format args) c else c

unfoldable pub traceout : String → List ℕ → Console → Console
traceout format args c = if ltb 0 c.debug_level then guarded (kv_print_f format args) c else c

-- `while(*text) KPutChar(*(text++))`; a buffer without a zero is read to its end here.
unfoldable pub put_chars : List ℕ → Console → Console
put_chars [] c = c
put_chars (ch ∷ text) c =
    if ch == 0
    then c
    else put_chars text (record c { output = c.output ++ k_put_char ch c.disabled ∷ [] })

unfoldable pub print_text : List ℕ → Console → Console
unfolding put_chars
print_text text c =
    let put = put_chars text (record c { disabled = c.disabled + 1 }) in
    record put { disabled = put.disabled - 1 }

unfoldable pub print : ℕ → List ℕ → Console → Console
print db_level text c = if leb db_level c.debug_level then print_text text c else c

-- `for(i=9;i>=2;i--)`: with so many rounds left, the index is one more.
unfoldable pub fill_digits : ℕ → ℕ → List ℕ → List ℕ
fill_digits zero wert2 text = text
fill_digits (suc rounds) wert2 text =
    fill_digits rounds (wert2 / 16) (set text (rounds + 2) (get_or confstr (bit_and wert2 0xf) 0))

unfoldable pub printi : ℕ → ℕ → Console → Console
printi db_level wert1 c =
    let text = fill_digits 8 wert1 c.text in print db_level text (record c { text = text })

-- `dumpMem`, from byte i on
unfoldable pub dump_from : ℕ → List ℕ → Console → Console
dump_from i [] c = traceout "\n" [] c
dump_from i (byte ∷ bytes) c =
    let ended = if i == 0 then c else traceout "\n" [] c in
    let started = if i % 16 == 0 then traceout "%03lx: " (i ∷ []) ended else c in
    dump_from (i + 1) bytes (traceout "%02lx " (byte ∷ []) started)

unfoldable pub dump_mem : List ℕ → Console → Console
dump_mem bytes c = dump_from 0 bytes c

-- VERBOSE_HW
abbrev pub verbose_hw : ℕ
verbose_hw = 4

unfoldable pub print_ethernet_address : List ℕ → Console → Console
print_ethernet_address addr c = printdebug verbose_hw "%02lx:%02lx:%02lx:%02lx:%02lx:%02lx" addr c

-- `ksz8851DumpReg` from register i on, for so many more registers
unfoldable pub dump_registers : ℕ → ℕ → Nic × Console → Nic × Console
dump_registers zero i (n, c) = (n, traceout "\n" [] c)
dump_registers (suc rounds) i (n, c) =
    let ended = if i == 0 then c else traceout "\n" [] c in
    let started = if i % 16 == 0 then traceout "%02lx: " (i ∷ []) ended else c in
    let value = read_reg i n in
    dump_registers rounds (i + 2) (value.1, traceout "%04lx " (value.0 ∷ []) started)

unfoldable pub dump_reg : Nic × Console → Nic × Console
dump_reg (n, c) = dump_registers 128 0 (n, traceout "\nRegister dump ( 128 x 16-bit ):\n" [] c)
