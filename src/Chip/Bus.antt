-- ===== src/Chip/Bus.antt =====
-- KSZ8851/servicetool/ksz8851.c, register access: the driver's side of the NIC's 16-bit bus.
--
-- The chip is not part of the repository. It is the parameter `answers`: the value that the data
-- register gives at each read, counted from the start, whatever the chip makes of the writes
-- before. `trace` keeps every access, the newest first. `Nic` holds besides it the driver's context
-- (`Ksz8851Context`) and the part of `NetInterface` that the driver writes.
use driver_amiga_os_ks.Prelude.{
  ℕ, suc, ◌+◌, ◌-◌, Bool, List, ◌∷◌, Option, has, not16, bit_and, bit_or, if◌then◌else◌,
}
use driver_amiga_os_ks.Chip.Reg.{cmd_b0, cmd_b1, cmd_b2, cmd_b3}

-- A 16-bit access to one of the two ports.
pub data Access : Type 0 where
  command : ℕ → Access  -- KSZ8851_CMD_REG = v
  store : ℕ → Access  -- KSZ8851_DATA_REG = v
  load : ℕ → Access  -- v = KSZ8851_DATA_REG

-- One call of `onPacketReceived`: the bytes from `buffer` on, the `size` that it is told, and how
-- deep interrupts were disabled at the call.
pub record Delivery : Type 0 where
  pub buffer : List ℕ
  pub size : ℕ
  pub nesting : ℕ

pub record Nic : Type 0 where
  pub is_in_big_endian_mode : Bool
  pub frame_id : ℕ
  pub rx_overrun : ℕ
  pub rx_buffer : Option (List ℕ)  -- `none` for NULL
  pub on_packet_received : Bool  -- whether the callback is set
  pub link_change_function : Bool  -- whether the callback is set
  pub link_speed : ℕ
  pub duplex_mode : ℕ
  pub link_state : Bool
  pub signal_task : Option ℕ  -- `none` for NULL
  pub sig_number : ℕ  -- ULONG, -1 if there is none
  pub signal_counter : ℕ
  pub int_disabled_counter : ℕ
  pub int_server : Bool  -- whether the interrupt server is in the chain of INT6
  pub freed_signals : List ℕ  -- calls of `FreeSignal`, newest first
  pub disabled : ℕ  -- depth of `Disable()`
  pub delivered : List Delivery  -- calls of `onPacketReceived`, newest first
  pub link_changes : ℕ  -- calls of `linkChangeFunction`
  pub answers : ℕ → ℕ
  pub reads : ℕ
  pub trace : List Access

-- Code that works on the NIC.
abbrev pub M : Type 0 → Type 0
M A = Nic → A × Nic

abbrev pub pure : {A : Type 0} → A → M A
pure a n = (a, n)

infixl 5 ◌>>=◌ ◌>>◌
abbrev pub ◌>>=◌ : {A B : Type 0} → M A → (A → M B) → M B
◌>>=◌ m f n = f (m n).0 (m n).1

abbrev pub ◌>>◌ : {A B : Type 0} → M A → M B → M B
m >> k = m >>= λ _. k

abbrev pub disable : M (Unit {0})
disable n = (tt, record n { disabled = n.disabled + 1 })

-- `Enable()` undoes one `Disable()`; the driver calls it only after one.
abbrev pub enable : M (Unit {0})
enable n = (tt, record n { disabled = n.disabled - 1 })

abbrev pub put_command : ℕ → M (Unit {0})
put_command v n = (tt, record n { trace = command v ∷ n.trace })

abbrev pub put_data : ℕ → M (Unit {0})
put_data v n = (tt, record n { trace = store v ∷ n.trace })

abbrev pub get_data : M ℕ
get_data n = (
  n.answers n.reads,
  record n { reads = suc n.reads; trace = load (n.answers n.reads) ∷ n.trace },
)

-- The word for the command port: the offset with the byte enables of its lane.
unfoldable pub command_word : Bool → ℕ → ℕ
command_word big_endian offset =
    if has offset 2
    then bit_or offset (if big_endian then bit_or cmd_b0 cmd_b1 else bit_or cmd_b2 cmd_b3)
    else bit_or offset (if big_endian then bit_or cmd_b2 cmd_b3 else bit_or cmd_b0 cmd_b1)

unfoldable pub read_reg : ℕ → M ℕ
read_reg offset n = (do put_command (command_word n.is_in_big_endian_mode offset); get_data) n

unfoldable pub write_reg : ℕ → ℕ → M (Unit {0})
write_reg offset value n =
    (do put_command (command_word n.is_in_big_endian_mode offset); put_data value) n

unfoldable pub set_bit : ℕ → ℕ → M (Unit {0})
unfolding read_reg write_reg
set_bit address mask = do value ← read_reg address; write_reg address (bit_or value mask)

-- `value & ~mask`, kept to 16 bits by the store
unfoldable pub clear_bit : ℕ → ℕ → M (Unit {0})
unfolding read_reg write_reg
clear_bit address mask = do value ← read_reg address; write_reg address (bit_and value (not16 mask))
