-- ===== src/Tool/Tests.antt =====
-- The theorems of the service tool at concrete runs.
use driver_amiga_os_ks.Prelude.{refl, [], ◌∷◌, true, false, List, some, ◌-◌, ◌≡◌}
use driver_amiga_os_ks.Chip.Balance.{IsCalm}
use driver_amiga_os_ks.Chip.Bus.{Nic, read_reg, write_reg}
use driver_amiga_os_ks.Tool.{
  Options, parse_args, default_options, take_count, word_send, ℤ, pos, set_flags, is_word, word_be,
  word_le, word_reset, word_help,
}
use driver_amiga_os_ks.Tool.Main.{Run, send_packets, enough, main, packet_buffer}
use driver_amiga_os_ks.Config.{Text}
use driver_amiga_os_ks.Chip.Tests.{nic_answering}
use driver_amiga_os_ks.Tool.Running.{main-IsCalm}
use driver_amiga_os_ks.Tool.Arguments.{contains, parse_args-contains}
use driver_amiga_os_ks.Tool.Sending.{send_packets-ends, after_packets}
use driver_amiga_os_ks.Chip.Reg.{reg_ier}

abbrev one_digit : Text → ℤ
one_digit [] = pos 0
one_digit (c ∷ cs) = pos (c - b'0')

-- Three wake-ups, of which the second comes from the user.
abbrev a_run : Run
a_run = record {
  memory = some (0 ∷ []);
  stack_memory = λ _. 0;
  wakeups = 2;
  masks = 0x10 ∷ 0x1000 ∷ 0x10 ∷ [];
  sigbreakf_ctrl_c = 0x1000;
}

abbrev chip : Nic
chip = record (nic_answering 0x8872) { disabled = 0 }

abbrev sending_args : List Text
sending_args = word_send ∷ (b'3' ∷ []) ∷ []

main-IsCalm_example : IsCalm 0 1 (main one_digit a_run sending_args chip).1
main-IsCalm_example = main-IsCalm one_digit a_run sending_args chip (refl, refl)

abbrev both_modes : Options
both_modes = record default_options {
  switch_chip_to_big_endian = true;
  switch_chip_to_little_endian = true;
}

send_packets-ends_example :
    (let old_ier = read_reg reg_ier chip in
      let started = (write_reg reg_ier 0 old_ier.1).1 in
      let sent = after_packets 3 (packet_buffer (λ _. 0)) started in
      send_packets (enough (pos 3)) (λ _. 0) (pos 3) chip
      ≡ (some 3, (write_reg reg_ier old_ier.0 sent).1))
send_packets-ends_example = send_packets-ends (λ _. 0) (pos 3) chip

parse_args-contains_example :
    (true ≡ contains word_be (word_be ∷ word_le ∷ []))
    × (true ≡ contains word_le (word_be ∷ word_le ∷ []))
    × (false ≡ contains word_reset (word_be ∷ word_le ∷ []))
    × (false ≡ contains word_send (word_be ∷ word_le ∷ []))
    × (contains word_help (word_be ∷ word_le ∷ []) ≡ false)
unfolding parse_args take_count set_flags is_word
parse_args-contains_example = parse_args-contains one_digit (word_be ∷ word_le ∷ []) both_modes refl
