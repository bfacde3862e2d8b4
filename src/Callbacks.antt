-- ===== src/Callbacks.antt =====
-- KSZ8851/devicedriver/copybuffs.c: calls of the network stack's assembler functions, by register.
--
-- `Code` is what stands at each address; the functions of a stack are not part of the repository. A
-- function takes its arguments in registers and returns with `rts`, so it leaves the stack as it found
-- it. The loads of the register variables and the statements of the inline assembly are modelled; what
-- the compiler puts around them to keep its own registers is not.
mod Tests
pub mod Calls
use driver_amiga_os_ks.Prelude.{ℕ, List, ◌∷◌, drop, get_or}

pub data DataRegister : Type 0 where
  d0 d1 d2 d3 d4 d5 d6 d7 : DataRegister

-- `a7` is the stack pointer, which `stack` stands for.
pub data AddressRegister : Type 0 where
  a0 a1 a2 a3 a4 a5 a6 : AddressRegister

pub record Machine : Type 0 where
  pub d : DataRegister → ℕ
  pub a : AddressRegister → ℕ
  pub stack : List ℕ  -- long words, the top first

abbrev pub Code : Type 0
Code = ℕ → Machine → Machine

-- A register file with one register loaded.
abbrev pub with_d0 : ℕ → (DataRegister → ℕ) → DataRegister → ℕ
with_d0 v d d0 = v
with_d0 v d r = d r

abbrev pub with_a0 : ℕ → (AddressRegister → ℕ) → AddressRegister → ℕ
with_a0 v a a0 = v
with_a0 v a r = a r

abbrev pub with_a1 : ℕ → (AddressRegister → ℕ) → AddressRegister → ℕ
with_a1 v a a1 = v
with_a1 v a r = a r

abbrev pub with_a2 : ℕ → (AddressRegister → ℕ) → AddressRegister → ℕ
with_a2 v a a2 = v
with_a2 v a r = a r

abbrev pub with_a3 : ℕ → (AddressRegister → ℕ) → AddressRegister → ℕ
with_a3 v a a3 = v
with_a3 v a r = a r

-- `movem.l d1-d7/a0-a6,-(a7)`: d1 comes to the top.
unfoldable pub push_registers : Machine → Machine
push_registers m = record m {
  stack =
      m.d d1
      ∷ m.d d2
      ∷ m.d d3
      ∷ m.d d4
      ∷ m.d d5
      ∷ m.d d6
      ∷ m.d d7
      ∷ m.a a0
      ∷ m.a a1
      ∷ m.a a2
      ∷ m.a a3
      ∷ m.a a4
      ∷ m.a a5
      ∷ m.a a6
      ∷ m.stack;
}

abbrev pub popped_d : Machine → DataRegister → ℕ
popped_d m d0 = m.d d0
popped_d m d1 = get_or m.stack 0 0
popped_d m d2 = get_or m.stack 1 0
popped_d m d3 = get_or m.stack 2 0
popped_d m d4 = get_or m.stack 3 0
popped_d m d5 = get_or m.stack 4 0
popped_d m d6 = get_or m.stack 5 0
popped_d m d7 = get_or m.stack 6 0

abbrev pub popped_a : Machine → AddressRegister → ℕ
popped_a m a0 = get_or m.stack 7 0
popped_a m a1 = get_or m.stack 8 0
popped_a m a2 = get_or m.stack 9 0
popped_a m a3 = get_or m.stack 10 0
popped_a m a4 = get_or m.stack 11 0
popped_a m a5 = get_or m.stack 12 0
popped_a m a6 = get_or m.stack 13 0

-- `movem.l (a7)+,d1-d7/a0-a6`
unfoldable pub pop_registers : Machine → Machine
pop_registers m = record { d = popped_d m; a = popped_a m; stack = drop 14 m.stack }

module _ (code : Code) where
  -- The result is what d0 holds in the end.
  unfoldable pub copy_buf : ℕ → ℕ → ℕ → ℕ → Machine → ℕ × Machine
  unfolding push_registers pop_registers
  copy_buf func_ptr to from len m =
      let loaded = record m {
        a = with_a0 to (with_a1 from (with_a2 func_ptr m.a));
        d = with_d0 len m.d;
      } in
      let pushed = push_registers loaded in
      let returned = code (pushed.a a2) pushed in
      let popped = pop_registers returned in (popped.d d0, popped)

  -- `h_entry` is the entry of the hook that `hook` points at.
  unfoldable pub call_filter_hook : ℕ → ℕ → ℕ → ℕ → Machine → ℕ × Machine
  unfolding push_registers pop_registers
  call_filter_hook hook h_entry ioreq raw_pkt_data m =
      let loaded = record m {
        a = with_a1 raw_pkt_data (with_a2 ioreq (with_a0 hook (with_a3 h_entry m.a)));
      } in
      let pushed = push_registers loaded in
      let returned = code (pushed.a a3) pushed in
      let popped = pop_registers returned in (popped.d d0, popped)

  -- Both arguments come in registers, and none is saved.
  unfoldable pub copy_from_or_to_buffer_dma : ℕ → ℕ → Machine → ℕ × Machine
  copy_from_or_to_buffer_dma func_ptr io_data_buffer m =
      let loaded = record m { a = with_a1 func_ptr (with_a0 io_data_buffer m.a) } in
      let returned = code (loaded.a a1) loaded in (returned.d d0, returned)
