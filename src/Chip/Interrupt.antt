-- ===== src/Chip/Interrupt.antt =====
-- `ksz8851IrqHandler`: which interrupts are left enabled.
use driver_amiga_os_ks.Prelude.{
  ◌⊎◌, inl, inr, List, ℕ, ◌<◌, Bool, if◌then◌else◌, bit, has, ◌∷◌, bit_and, ◌≡◌, ◌&&◌, not16, suc,
  ◌||◌, ◌==◌, arith, not, bit-bit_and, false, true, bit-not16, ◌∙◌, ap, ◌⊎◌, inl, inr, refl,
}
use driver_amiga_os_ks.Chip.Irq.{handle, handle_sources, irq_handler}
use driver_amiga_os_ks.Chip.Bus.{
  Access, M, read_reg, write_reg, Nic, set_bit, store, pure, command, command_word,
}
use driver_amiga_os_ks.Chip.Reg.{
  isr_lcis, isr_ldis, ier_lcie, ier_ldie, isr_txis, ier_txie, isr_rxis, isr_rxois, ier_rxie,
  ier_rxoie, reg_ier, reg_isr, reg_pmecr,
}

-- The enable register after one source.
abbrev masked : ℕ → ℕ → ℕ → ℕ → ℕ
masked isr source enabled ier = if has isr source then bit_and ier (not16 enabled) else ier

abbrev stepped : ℕ → ℕ → ℕ → ℕ × Bool → ℕ × Bool
stepped isr source enabled p = (masked isr source enabled p.0, p.1 || has isr source)

handle_lem :
    (isr source enabled : ℕ) (action : M (Unit {0})) (s : ℕ × Bool) (n : Nic)
    → (handle isr source enabled action s n).0 ≡ stepped isr source enabled s
unfolding handle
handle_lem isr source enabled action (ier, signaled) n = ground arith

-- Whether a pending source has bit k as its enable bit.
abbrev pub is_served : ℕ → ℕ → Bool
is_served k isr =
    has isr isr_lcis && bit k ier_lcie
    || has isr isr_txis && bit k ier_txie
    || has isr isr_rxis && bit k ier_rxie
    || has isr isr_rxois && bit k ier_rxoie
    || has isr isr_ldis && bit k ier_ldie

abbrev pub is_pending_source : ℕ → Bool
is_pending_source isr =
    has isr isr_lcis
    || has isr isr_txis
    || has isr isr_rxis
    || has isr isr_rxois
    || has isr isr_ldis

bit-masked :
    (k isr source enabled ier : ℕ)
    → k < 16
    → enabled < 65536
    → bit k (masked isr source enabled ier) ≡ (bit k ier && not (has isr source && bit k enabled))
bit-masked k isr source enabled ier h e =
    ground (arith, bit-bit_and k ier (not16 enabled), bit-not16 k enabled h e)

-- The value that the last access stores.
abbrev pub last_stored : List Access → ℕ
last_stored (store v ∷ rest) = v
last_stored _ = 0

-- The command word in front of the last value, which names its register.
abbrev pub last_addressed : List Access → ℕ
last_addressed (store v ∷ command c ∷ rest) = c
last_addressed _ = 0

handle-mode :
    (isr source enabled : ℕ) (action : M (Unit {0})) (s : ℕ × Bool) (n : Nic)
    → (action n).1.is_in_big_endian_mode ≡ n.is_in_big_endian_mode
    → (handle isr source enabled action s n).1.is_in_big_endian_mode ≡ n.is_in_big_endian_mode
unfolding handle
handle-mode isr source enabled action (ier, signaled) n h = ground (arith, h)

handle_sources_lem :
    (isr ier : ℕ) (n : Nic)
    → ((handle_sources isr ier n).0 ≡ is_pending_source isr)
      × (last_addressed (handle_sources isr ier n).1.trace
          ≡ command_word n.is_in_big_endian_mode reg_ier)
      × (last_stored (handle_sources isr ier n).1.trace
          ≡ masked isr isr_ldis ier_ldie (
              masked isr isr_rxois ier_rxoie (
                masked isr isr_rxis ier_rxie
                  (masked isr isr_txis ier_txie (masked isr isr_lcis ier_lcie ier)))))
unfolding handle_sources write_reg set_bit read_reg
handle_sources_lem isr ier n =
    let n₀ = (write_reg reg_ier 0 n).1 in
    let s₁ = handle isr isr_lcis ier_lcie (pure tt) (ier, false) n₀ in
    let s₂ = handle isr isr_txis ier_txie (write_reg reg_isr isr_txis) s₁.0 s₁.1 in
    let s₃ = handle isr isr_rxis ier_rxie (pure tt) s₂.0 s₂.1 in
    let s₄ = handle isr isr_rxois ier_rxoie (pure tt) s₃.0 s₃.1 in
    let e₁ = handle_lem isr isr_lcis ier_lcie (pure tt) (ier, false) n₀ in
    let e₂ = handle_lem isr isr_txis ier_txie (write_reg reg_isr isr_txis) s₁.0 s₁.1 in
    let e₃ = handle_lem isr isr_rxis ier_rxie (pure tt) s₂.0 s₂.1 in
    let e₄ = handle_lem isr isr_rxois ier_rxoie (pure tt) s₃.0 s₃.1 in
    let e₅ = handle_lem isr isr_ldis ier_ldie (set_bit reg_pmecr 8) s₄.0 s₄.1 in
    let all =
      e₅
      ∙ ap (stepped isr isr_ldis ier_ldie) (
          e₄
          ∙ ap (stepped isr isr_rxois ier_rxoie) (
              e₃
              ∙ ap (stepped isr isr_rxis ier_rxie) (e₂ ∙ ap (stepped isr isr_txis ier_txie) e₁))) in
    let mode =
      handle-mode isr isr_ldis ier_ldie (set_bit reg_pmecr 8) s₄.0 s₄.1 refl
      ∙ handle-mode isr isr_rxois ier_rxoie (pure tt) s₃.0 s₃.1 refl
      ∙ handle-mode isr isr_rxis ier_rxie (pure tt) s₂.0 s₂.1 refl
      ∙ handle-mode isr isr_txis ier_txie (write_reg reg_isr isr_txis) s₁.0 s₁.1 refl
      ∙ handle-mode isr isr_lcis ier_lcie (pure tt) (ier, false) n₀ refl in
    (ap (λ p. p.1) all, ap (λ b. command_word b reg_ier) mode, ap (λ p. p.0) all)

all_kept :
    (b c₁ c₂ c₃ c₄ c₅ : Bool)
    → (b && not c₁ && not c₂ && not c₃ && not c₄ && not c₅)
      ≡ (b && not (c₁ || c₂ || c₃ || c₄ || c₅))
all_kept b c₁ c₂ c₃ c₄ c₅ = ground arith

bit-all_masked :
    (k isr ier : ℕ)
    → k < 16
    → bit k (
        masked isr isr_ldis ier_ldie (
          masked isr isr_rxois ier_rxoie (
            masked isr isr_rxis ier_rxie
              (masked isr isr_txis ier_txie (masked isr isr_lcis ier_lcie ier)))))
      ≡ (bit k ier && not (is_served k isr))
bit-all_masked k isr ier h =
    let m₁ = masked isr isr_lcis ier_lcie ier in
    let m₂ = masked isr isr_txis ier_txie m₁ in
    let m₃ = masked isr isr_rxis ier_rxie m₂ in
    let m₄ = masked isr isr_rxois ier_rxoie m₃ in
    bit-masked k isr isr_ldis ier_ldie m₄ h (omega arith)
    ∙ ap (λ b. b && not (has isr isr_ldis && bit k ier_ldie))
        (bit-masked k isr isr_rxois ier_rxoie m₃ h (omega arith)
          ∙ ap (λ b. b && not (has isr isr_rxois && bit k ier_rxoie))
              (bit-masked k isr isr_rxis ier_rxie m₂ h (omega arith)
                ∙ ap (λ b. b && not (has isr isr_rxis && bit k ier_rxie))
                    (bit-masked k isr isr_txis ier_txie m₁ h (omega arith)
                      ∙ ap (λ b. b && not (has isr isr_txis && bit k ier_txie))
                          (bit-masked k isr isr_lcis ier_lcie ier h (omega arith)))))
    ∙ all_kept (bit k ier) (has isr isr_lcis && bit k ier_lcie) (has isr isr_txis && bit k ier_txie)
        (has isr isr_rxis && bit k ier_rxie) (has isr isr_rxois && bit k ier_rxoie)
        (has isr isr_ldis && bit k ier_ldie)

-- An interrupt that no enabled source of the chip has raised is left alone: the handler reads the two
-- registers, writes no register, and reports that it has nothing to signal.
irq_handler-not_ours :
    (n : Nic)
    → (bit_and (n.answers n.reads) (n.answers (suc n.reads)) == 0) ≡ true
    → ((irq_handler n).0 ≡ false)
      × ((irq_handler n).1 ≡ (read_reg reg_ier (read_reg reg_isr n).1).1)
unfolding irq_handler read_reg
irq_handler-not_ours n h =
    let after = (read_reg reg_ier (read_reg reg_isr n).1).1 in
    let sources = handle_sources (n.answers n.reads) (n.answers (suc n.reads)) in
    (
      ap (λ b. ((if b then pure false else sources) after).0) h,
      ap (λ b. ((if b then pure false else sources) after).1) h,
    )

-- When an enabled source is pending, the handler reports whether one of the five sources that it
-- serves is pending, and the last value that it stores, into IER, keeps every bit of the register
-- but the enable bits of the sources that are pending.
irq_handler-ours :
    (k : ℕ) (n : Nic)
    → k < 16
    → (bit_and (n.answers n.reads) (n.answers (suc n.reads)) == 0) ≡ false
    → ((irq_handler n).0 ≡ is_pending_source (n.answers n.reads))
      × (last_addressed (irq_handler n).1.trace ≡ command_word n.is_in_big_endian_mode reg_ier)
      × (bit k (last_stored (irq_handler n).1.trace)
          ≡ (bit k (n.answers (suc n.reads)) && not (is_served k (n.answers n.reads))))
unfolding irq_handler read_reg
irq_handler-ours k n b h =
    let isr = n.answers n.reads in
    let ier = n.answers (suc n.reads) in
    let after = (read_reg reg_ier (read_reg reg_isr n).1).1 in
    let sources = handle_sources isr ier in
    let served = handle_sources_lem isr ier after in
    (
      ap (λ b. ((if b then pure false else sources) after).0) h ∙ served.0,
      ap (λ b. last_addressed ((if b then pure false else sources) after).1.trace) h ∙ served.1,
      ap (λ b. bit k (last_stored ((if b then pure false else sources) after).1.trace)) h
          ∙ ap (bit k) served.2
          ∙ bit-all_masked k isr ier b,
    )

-- An interrupt of another device: the handler reads two registers, writes none, and signals nothing.
abbrev pub LeavesAlone : Nic → Type 0
LeavesAlone n =
    ((irq_handler n).0 ≡ false) × ((irq_handler n).1 ≡ (read_reg reg_ier (read_reg reg_isr n).1).1)

-- An interrupt of the chip: the register that the handler stores into at last is IER, and bit `k` of what
-- it stores.
abbrev pub Masks : ℕ → Nic → Type 0
Masks k n =
    ((irq_handler n).0 ≡ is_pending_source (n.answers n.reads))
    × (last_addressed (irq_handler n).1.trace ≡ command_word n.is_in_big_endian_mode reg_ier)
    × (bit k (last_stored (irq_handler n).1.trace)
        ≡ (bit k (n.answers (suc n.reads)) && not (is_served k (n.answers n.reads))))

-- When no enabled source is pending, the interrupt handler reads the two registers, writes no register,
-- and reports that it has nothing to signal. Otherwise it reports whether one of the five sources that it
-- serves is pending, and the last value that it stores, into IER, keeps every bit of the register but the
-- enable bits of the sources that are pending.
pub irq_handler_lem :
    (k : ℕ) (n : Nic)
    → k < 16
    → (((bit_and (n.answers n.reads) (n.answers (suc n.reads)) == 0) ≡ true) × LeavesAlone n)
      ⊎ (((bit_and (n.answers n.reads) (n.answers (suc n.reads)) == 0) ≡ false) × Masks k n)
irq_handler_lem k n h = either (bit_and (n.answers n.reads) (n.answers (suc n.reads)) == 0) refl
  where
    either :
        (b : Bool)
        → (bit_and (n.answers n.reads) (n.answers (suc n.reads)) == 0) ≡ b
        → (((bit_and (n.answers n.reads) (n.answers (suc n.reads)) == 0) ≡ true) × LeavesAlone n)
          ⊎ (((bit_and (n.answers n.reads) (n.answers (suc n.reads)) == 0) ≡ false) × Masks k n)
    either true e = inl (e, irq_handler-not_ours n e)
    either false e = inr (e, irq_handler-ours k n h e)
