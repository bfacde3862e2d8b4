-- ===== src/Chip/Filter.antt =====
-- The multicast hash table.
use driver_amiga_os_ks.Chip.Multicast.{
  mark, HashTable, MacFilterEntry, filter_index, fill_table, hash_table,
}
use driver_amiga_os_ks.Prelude.{
  ℕ, ◌<◌, List, bit, ◌%◌, Bool, ◌/◌, false, ◌≡◌, ◌==◌, ◌∷◌, ltb, ◌||◌, ◌&&◌, [], bit_or, ◌^◌, arith,
  ◌∙◌, ap, bit-word, bit-bit_or, bit-zero, bit-pow, if◌then◌else◌, true, refl,
}

-- Whether an entry in use has the index k.
abbrev pub is_marked : ℕ → List MacFilterEntry → Bool
is_marked k [] = false
is_marked k (entry ∷ entries) =
    ltb 0 entry.ref_count && filter_index entry.addr == k || is_marked k entries

bit-mark :
    (k index : ℕ) (table : HashTable)
    → bit (k % 16) (mark index table (k / 16)) ≡ (bit (k % 16) (table (k / 16)) || index == k)
unfolding mark
bit-mark k index table =
    let set = bit_or (table (k / 16)) (2 ^ (index % 16)) in
    let low : k % 16 < 16 = omega arith in
    ground (
      arith,
      bit-word (k % 16) set low
          ∙ bit-bit_or (k % 16) (table (k / 16)) (2 ^ (index % 16))
          ∙ ap (λ b. bit (k % 16) (table (k / 16)) || b) (bit-pow (k % 16) (index % 16)),
    )

bit-marked_if :
    (b m : Bool) (k index : ℕ) (table : HashTable)
    → (bit (k % 16) ((if b then mark index table else table) (k / 16)) || m)
      ≡ (bit (k % 16) (table (k / 16)) || (b && index == k || m))
bit-marked_if true m k index table = ap (λ b. b || m) (bit-mark k index table) ∙ ground arith
bit-marked_if false m k index table = refl

bit-fill_table :
    (k : ℕ) (entries : List MacFilterEntry) (table : HashTable)
    → bit (k % 16) (fill_table entries table (k / 16))
      ≡ (bit (k % 16) (table (k / 16)) || is_marked k entries)
unfolding fill_table
bit-fill_table k [] table = ground arith
bit-fill_table k (entry ∷ entries) table =
    let used = ltb 0 entry.ref_count in
    let index = filter_index entry.addr in
    bit-fill_table k entries (if used then mark index table else table)
    ∙ bit-marked_if used (is_marked k entries) k index table

-- The hash table that the chip is given has exactly the bits of the entries in use: bit k of its 64
-- is set if and only if an entry with a positive reference count has the index k.
pub hash_table_lem :
    (k : ℕ) (entries : List MacFilterEntry)
    → bit (k % 16) (hash_table entries (k / 16)) ≡ is_marked k entries
unfolding hash_table
hash_table_lem k entries =
    bit-fill_table k entries (λ _. 0) ∙ ap (λ b. b || is_marked k entries) (bit-zero (k % 16))
