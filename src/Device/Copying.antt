-- ===== src/Device/Copying.antt =====
-- KSZ8851/devicedriver/device.c: `copyEthernetAddress`.
--
-- Memory is a function from addresses to bytes; the processor is big-endian.
use driver_amiga_os_ks.Prelude.{
  ℕ, ◌*◌, ◌+◌, ◌<◌, if◌then◌else◌, ◌==◌, ◌^◌, ◌≤◌, ◌/◌, ◌⊎◌, ◌%◌, ◌≡◌, arith, get_or, inl, inr, ◌∷◌,
  [], ap, suc, ◌∙◌, zero, leb, ◌&&◌, ltb, ◌-◌, false, Bool-cases, sym,
}

abbrev pub Memory : Type 0
Memory = ℕ → ℕ

unfoldable pub load_long : ℕ → Memory → ℕ
load_long p mem = mem p * 2 ^ 24 + mem (p + 1) * 2 ^ 16 + mem (p + 2) * 2 ^ 8 + mem (p + 3)

unfoldable pub load_word : ℕ → Memory → ℕ
load_word p mem = mem p * 2 ^ 8 + mem (p + 1)

unfoldable pub store_long : ℕ → ℕ → Memory → Memory
store_long p v mem q =
    if q == p
    then v / 2 ^ 24 % 256
    else if q == p + 1
    then v / 2 ^ 16 % 256
    else if q == p + 2
    then v / 2 ^ 8 % 256
    else if q == p + 3
    then v % 256
    else mem q

unfoldable pub store_word : ℕ → ℕ → Memory → Memory
store_word p v mem q = if q == p then v / 2 ^ 8 % 256 else if q == p + 1 then v % 256 else mem q

unfoldable pub copy_ethernet_address : ℕ → ℕ → Memory → Memory
unfolding load_long load_word store_long store_word
copy_ethernet_address from to mem =
    let first = store_long to (load_long from mem) mem in
    store_word (to + 4) (load_word (from + 4) first) first

abbrev AreBytes : Memory → Type 0
AreBytes mem = (p : ℕ) → mem p < 256

store_long_elsewhere :
    (p v q : ℕ) (mem : Memory) → (q < p) ⊎ (p + 4 ≤ q) → store_long p v mem q ≡ mem q
unfolding store_long
store_long_elsewhere p v q mem (inl h) = ground arith
store_long_elsewhere p v q mem (inr h) = ground arith

-- The bytes of a long word and of a word.
long_bytes :
    (a b c d : ℕ)
    → a < 256
    → b < 256
    → c < 256
    → d < 256
    → (let v = a * 2 ^ 24 + b * 2 ^ 16 + c * 2 ^ 8 + d in
        (v / 2 ^ 24 % 256 ≡ a) × (v / 2 ^ 16 % 256 ≡ b) × (v / 2 ^ 8 % 256 ≡ c) × (v % 256 ≡ d))
long_bytes a b c d h k l m = omega arith

word_bytes :
    (a b : ℕ)
    → a < 256
    → b < 256
    → ((a * 2 ^ 8 + b) / 2 ^ 8 % 256 ≡ a) × ((a * 2 ^ 8 + b) % 256 ≡ b)
word_bytes a b h k = omega arith

-- What the destination holds once the long word and then the word are stored there.
stored_at :
    (to v w i : ℕ) (mem : Memory)
    → i < 6
    → store_word (to + 4) w (store_long to v mem) (to + i)
      ≡ get_or
          (v / 2 ^ 24 % 256
            ∷ v / 2 ^ 16 % 256
            ∷ v / 2 ^ 8 % 256
            ∷ v % 256
            ∷ w / 2 ^ 8 % 256
            ∷ w % 256
            ∷ [])
          i
          0
unfolding store_long store_word
stored_at to v w zero mem h = ground arith
stored_at to v w (suc zero) mem h = ground arith
stored_at to v w (suc (suc zero)) mem h = ground arith
stored_at to v w (suc (suc (suc zero))) mem h = ground arith
stored_at to v w (suc (suc (suc (suc zero)))) mem h = ground arith
stored_at to v w (suc (suc (suc (suc (suc zero))))) mem h = ground arith
stored_at to v w (suc (suc (suc (suc (suc (suc i)))))) mem h = absurd (omega arith)

-- The second load finds the bytes that the first store has left alone.
load_word_behind :
    (from to v : ℕ) (mem : Memory)
    → (from + 6 ≤ to) ⊎ (to ≤ from)
    → load_word (from + 4) (store_long to v mem) ≡ load_word (from + 4) mem
unfolding load_word
load_word_behind from to v mem h =
    let low =
      store_long_elsewhere to v (from + 4) mem (apart h (from + 4) (omega arith) (omega arith)) in
    let high =
      store_long_elsewhere to v (from + 4 + 1) mem
        (apart h (from + 4 + 1) (omega arith) (omega arith)) in
    ap (λ b. b * 2 ^ 8 + store_long to v mem (from + 4 + 1)) low
    ∙ ap (λ b. mem (from + 4) * 2 ^ 8 + b) high
  where
    apart :
        (from + 6 ≤ to) ⊎ (to ≤ from)
        → (q : ℕ) → from + 4 ≤ q
        → q < from + 6
        → (q < to) ⊎ (to + 4 ≤ q)
    apart (inl l) q a b = inl (omega arith)
    apart (inr l) q a b = inr (omega arith)

-- The bytes of the two loads are those of the source.
loaded_bytes :
    (from i : ℕ) (mem : Memory)
    → AreBytes mem
    → i < 6
    → (let v = load_long from mem in
        let w = load_word (from + 4) mem in
        get_or
          (v / 2 ^ 24 % 256
            ∷ v / 2 ^ 16 % 256
            ∷ v / 2 ^ 8 % 256
            ∷ v % 256
            ∷ w / 2 ^ 8 % 256
            ∷ w % 256
            ∷ [])
          i
          0)
      ≡ mem (from + i)
unfolding load_long load_word
loaded_bytes from zero mem b h =
    (long_bytes _ _ _ _ (b from) (b (from + 1)) (b (from + 2)) (b (from + 3))).0
    ∙ ap mem (omega arith)
loaded_bytes from (suc zero) mem b h =
    (long_bytes _ _ _ _ (b from) (b (from + 1)) (b (from + 2)) (b (from + 3))).1
loaded_bytes from (suc (suc zero)) mem b h =
    (long_bytes _ _ _ _ (b from) (b (from + 1)) (b (from + 2)) (b (from + 3))).2
loaded_bytes from (suc (suc (suc zero))) mem b h =
    (long_bytes _ _ _ _ (b from) (b (from + 1)) (b (from + 2)) (b (from + 3))).3
loaded_bytes from (suc (suc (suc (suc zero)))) mem b h =
    (word_bytes _ _ (b (from + 4)) (b (from + 4 + 1))).0
loaded_bytes from (suc (suc (suc (suc (suc zero))))) mem b h =
    (word_bytes _ _ (b (from + 4)) (b (from + 4 + 1))).1 ∙ ap mem (omega arith)
loaded_bytes from (suc (suc (suc (suc (suc (suc i)))))) mem b h = absurd (omega arith)

stored_elsewhere :
    (to v w q : ℕ) (mem : Memory)
    → (q < to) ⊎ (to + 6 ≤ q)
    → store_word (to + 4) w (store_long to v mem) q ≡ mem q
unfolding store_long store_word
stored_elsewhere to v w q mem (inl h) = ground arith
stored_elsewhere to v w q mem (inr h) = ground arith

-- If the last two bytes of the source do not lie in the first four of the destination, memory holds
-- after the copy the six bytes of the source at the destination, and is as before elsewhere.
copy_ethernet_address_lem :
    (from to q : ℕ) (mem : Memory)
    → AreBytes mem
    → (from + 6 ≤ to) ⊎ (to ≤ from)
    → copy_ethernet_address from to mem q
      ≡ (if leb to q && ltb q (to + 6) then mem (from + (q - to)) else mem q)
unfolding copy_ethernet_address
copy_ethernet_address_lem from to q mem b h = elim (Bool-cases (leb to q && ltb q (to + 6))) [
  | inl inside ↦
      let small : q - to < 6 = ground arith in
      let place : q ≡ to + (q - to) = ground arith in
      ap (λ w. store_word (to + 4) w first q) (load_word_behind from to v mem h)
      ∙ ap (store_word (to + 4) (load_word (from + 4) mem) first) place
      ∙ stored_at to v (load_word (from + 4) mem) (q - to) mem small
      ∙ loaded_bytes from (q - to) mem b small
      ∙ sym (ap (λ b. if b then mem (from + (q - to)) else mem q) inside)
  | inr outside ↦
      stored_elsewhere to v (load_word (from + 4) first) q mem (beside outside)
      ∙ sym (ap (λ b. if b then mem (from + (q - to)) else mem q) outside)
]
  where
    v : ℕ
    v = load_long from mem

    first : Memory
    first = store_long to v mem

    beside : (leb to q && ltb q (to + 6)) ≡ false → (q < to) ⊎ (to + 6 ≤ q)
    beside e = elim (Bool-cases (leb to q)) [
      | inl l ↦ inr (ground arith)
      | inr g ↦ inl (ground arith)
    ]
