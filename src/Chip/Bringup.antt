-- ===== src/Chip/Bringup.antt =====
-- Bringing the chip up and down: detection, reset, initialisation, and the interrupt server.
use driver_amiga_os_ks.Chip.Send.{Error, no_error, out_of_memory, wrong_identifier, no_chip_found}
use driver_amiga_os_ks.Chip.Bus.{
  clear_bit, set_bit, Nic, read_reg, write_reg, pure, ◌>>◌, ◌>>=◌, enable, disable,
}
use driver_amiga_os_ks.Chip.Init.{
  configure_found, init, soft_reset, uninstall_interrupt_handler, detect_nic_endiness,
  install_interrupt_handler, switch_endianess_mode, set_mode, allocate_rx_buffer, configure,
  no_signal, write_rxfdpr, toggle_mode, detect_loop, is_zero, perform_reset,
}
use driver_amiga_os_ks.Prelude.{
  Option, ℕ, ◌<◌, ◌==◌, List, bit, ◌≡◌, Bool, none, true, ◌&&◌, if◌then◌else◌, ◌||◌, bit-bit_or,
  false, not, some, bit-bit_and, ◌∷◌, not16, refl, ◌∙◌, ap, bit-not16,
}
use driver_amiga_os_ks.Chip.Interrupt.{last_stored}
use driver_amiga_os_ks.Chip.Reg.{rev_a3_id, reg_cider, grr_qmu_module_soft_rst}

-- A soft reset of a chip that answers with its identifier is no reset: it reads the identifier once,
-- writes no register, and returns.
soft_reset-found :
    (operation : ℕ) (n : Nic)
    → (n.answers n.reads == rev_a3_id) ≡ true
    → soft_reset operation n ≡ (tt, (read_reg reg_cider n).1)
unfolding soft_reset detect_nic_endiness read_reg
soft_reset-found operation n h =
    let first = read_reg reg_cider n in
    let again =
      toggle_mode
      >> (read_reg reg_cider >>= λ id.
          pure (if id == rev_a3_id then Error.no_error else no_chip_found)) in
    ap
      (λ b.
        let found = (if b then pure Error.no_error else again) first.1 in
        (if is_zero found.0 then pure tt else perform_reset operation) found.1)
      h

-- What an error leaves open and what NO_ERROR promises of `ksz8851Init`.
abbrev pub IsReady : Error × Nic → Option (List ℕ) → Type 0
IsReady (no_error, n) memory =
    (n.is_in_big_endian_mode ≡ true) × (n.frame_id ≡ 0) × (n.rx_buffer ≡ memory)
IsReady (out_of_memory, n) memory = memory ≡ none
IsReady (wrong_identifier, n) memory = Unit {0}
IsReady (_, n) memory = ⊥

configure_found-IsReady :
    (memory : Option (List ℕ)) (n : Nic)
    → IsReady ((configure_found memory n).0, (enable (configure_found memory n).1).1) memory
unfolding configure_found switch_endianess_mode set_mode allocate_rx_buffer configure write_rxfdpr
    write_reg read_reg set_bit clear_bit
configure_found-IsReady none n = refl
configure_found-IsReady (some bytes) n = (refl, refl, refl)

-- `ksz8851Init` ends with one of three results: with NO_ERROR the driver is in big-endian mode, its
-- frame number is 0 and the receive buffer is the allocated one; OUT_OF_MEMORY means that the
-- allocation failed; otherwise it is WRONG_IDENTIFIER.
init-IsReady : (memory : Option (List ℕ)) (n : Nic) → IsReady (init memory n) memory
unfolding init read_reg
init-IsReady memory n =
    let n₁ = (soft_reset grr_qmu_module_soft_rst (detect_loop 3 (disable n).1).1).1 in
    let id = read_reg reg_cider n₁ in either (id.0 == rev_a3_id) memory id.1
  where
    either :
        (b : Bool) (memory : Option (List ℕ)) (n : Nic)
        → (let p = (if b then configure_found memory else pure wrong_identifier) n in
            IsReady (p.0, (enable p.1).1) memory)
    either true memory n = configure_found-IsReady memory n
    either false memory n = tt

-- Installing the interrupt handler and removing it again gives back the signal that was allocated and
-- leaves no task and no server behind, if no handler was installed and a signal could be allocated.
uninstall-install_interrupt_handler :
    (task signal : ℕ) (n : Nic)
    → n.signal_task ≡ none
    → (signal == no_signal) ≡ false
    → uninstall_interrupt_handler (install_interrupt_handler task signal n).1 ≡ (
      tt,
      record n {
        signal_task = none;
        sig_number = no_signal;
        int_server = false;
        freed_signals = signal ∷ n.freed_signals;
      },
    )
unfolding uninstall_interrupt_handler install_interrupt_handler
uninstall-install_interrupt_handler task signal n h s =
    let installed = record n { signal_task = some task; sig_number = signal; int_server = true } in
    let fresh : (if signal == no_signal
          then (false, record n { signal_task = none; sig_number = signal })
          else (true, installed))
        ≡ (true, installed) =
      ap
        (λ b.
          if b
          then (false, record n { signal_task = none; sig_number = signal })
          else (true, installed))
        s in
    let e : install_interrupt_handler task signal n ≡ (true, installed) =
      ap
        (λ (t : Option ℕ). elim t as (λ _. Bool × Nic) [
          | some _ ↦ (true, n)
          | none ↦
              if signal == no_signal
              then (false, record n { signal_task = none; sig_number = signal })
              else (true, installed)
        ])
        h
      ∙ fresh in
    ap (λ p. uninstall_interrupt_handler p.1) e

-- The value that `ksz8851SetBit` stores has the bits of the register and those of the mask.
set_bit-last_stored :
    (k address mask : ℕ) (n : Nic)
    → bit k (last_stored (set_bit address mask n).1.trace)
      ≡ (bit k (n.answers n.reads) || bit k mask)
unfolding set_bit read_reg write_reg
set_bit-last_stored k address mask n = bit-bit_or k (n.answers n.reads) mask

-- The value that `ksz8851ClearBit` stores has the 16 bits of the register but those of a 16-bit mask.
clear_bit-last_stored :
    (k address mask : ℕ) (n : Nic)
    → k < 16
    → mask < 65536
    → bit k (last_stored (clear_bit address mask n).1.trace)
      ≡ (bit k (n.answers n.reads) && not (bit k mask))
unfolding clear_bit read_reg write_reg
clear_bit-last_stored k address mask n h m =
    bit-bit_and k (n.answers n.reads) (not16 mask)
    ∙ ap (λ b. bit k (n.answers n.reads) && b) (bit-not16 k mask h m)
