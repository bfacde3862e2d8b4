-- ===== src/Chip/Tests.antt =====
-- A concrete chip, and the theorems of the chip driver at it.
use driver_amiga_os_ks.Chip.Fifo.{Bytes}
use driver_amiga_os_ks.Chip.Bus.{Nic}
use driver_amiga_os_ks.Prelude.{
  bit, ℕ, ◌%◌, false, if◌then◌else◌, true, ◌≡◌, ◌==◌, none, [], arith, refl, ◌∷◌, ◌/◌, ◌⊎◌, bit_and,
  some, ◌++◌,
}
use driver_amiga_os_ks.Chip.Init.{no_signal}
use driver_amiga_os_ks.Chip.Interrupt.{LeavesAlone, Masks, irq_handler_lem}
use driver_amiga_os_ks.Chip.Send.{no_error, send_packet, transmit_cooked, transmit}
use driver_amiga_os_ks.Chip.Multicast.{hash_table}
use driver_amiga_os_ks.Chip.Filter.{is_marked, hash_table_lem}
use driver_amiga_os_ks.Chip.Receive.{receive_packet, receive_packets}
use driver_amiga_os_ks.Chip.Outcomes.{
  send_result, LeavesChip, receive_packet-result, send_packet-send_result,
}
use driver_amiga_os_ks.Chip.Wire.{prepend, ethernet_header, transmit_cooked-transmit}
use driver_amiga_os_ks.Chip.Reception.{all_handed_over, receive_packets-all_handed_over}

-- A chip that answers the same value at every read.
abbrev pub nic_answering : ℕ → Nic
nic_answering value = record {
  is_in_big_endian_mode = true;
  frame_id = 5;
  rx_overrun = 0;
  rx_buffer = none;
  on_packet_received = true;
  link_change_function = true;
  link_speed = 0;
  duplex_mode = 0;
  link_state = false;
  signal_task = none;
  sig_number = no_signal;
  signal_counter = 0;
  int_disabled_counter = 0;
  int_server = false;
  freed_signals = [];
  disabled = 2;
  delivered = [];
  link_changes = 0;
  answers = λ _. value;
  reads = 0;
  trace = [];
}

abbrev pub counting_bytes : Bytes
counting_bytes i = i % 256

-- A chip whose FIFO gives back two words of `counting_bytes`.
abbrev echoing_nic : Nic
echoing_nic = record (nic_answering 0) { answers = λ i. if i == 0 then 0x0001 else 0x0203 }

irq_handler_lem_example :
    (((bit_and 0x2000 0x2000 == 0) ≡ true) × LeavesAlone (nic_answering 0x2000))
    ⊎ (((bit_and 0x2000 0x2000 == 0) ≡ false) × Masks 13 (nic_answering 0x2000))
irq_handler_lem_example = irq_handler_lem 13 (nic_answering 0x2000) (omega arith)

hash_table_lem_example :
    bit
      (37 % 16)
      (hash_table (record { addr = 1 ∷ 0 ∷ 0x5e ∷ 0 ∷ 0 ∷ 1 ∷ []; ref_count = 1 } ∷ []) (37 / 16))
    ≡ is_marked 37 (record { addr = 1 ∷ 0 ∷ 0x5e ∷ 0 ∷ 0 ∷ 1 ∷ []; ref_count = 1 } ∷ [])
hash_table_lem_example =
    hash_table_lem 37 (record { addr = 1 ∷ 0 ∷ 0x5e ∷ 0 ∷ 0 ∷ 1 ∷ []; ref_count = 1 } ∷ [])

send_packet-send_result_example :
    ((send_packet counting_bytes 60 (nic_answering 0x0020)).0 ≡ send_result false true)
    × (((send_packet counting_bytes 60 (nic_answering 0x0020)).0 ≡ no_error)
        ⊎ LeavesChip
            (nic_answering 0x0020)
            (send_packet counting_bytes 60 (nic_answering 0x0020)).1)
send_packet-send_result_example = send_packet-send_result counting_bytes 60 (nic_answering 0x0020)

receive_packet-result_example :
    ((receive_packet (nic_answering 0x8040)).0 ≡ no_error)
    × (((receive_packet (nic_answering 0x8040)).0 ≡ no_error)
        ⊎ (((receive_packet (nic_answering 0x8040)).1.delivered ≡ [])
            × ((receive_packet (nic_answering 0x8040)).1.rx_buffer ≡ none)))
receive_packet-result_example = receive_packet-result (nic_answering 0x8040)

transmit_cooked-transmit_example :
    transmit_cooked counting_bytes counting_bytes 0x800 counting_bytes 46 (nic_answering 0)
    ≡ transmit
        (prepend (ethernet_header counting_bytes counting_bytes 0x800) counting_bytes)
        60
        (nic_answering 0)
transmit_cooked-transmit_example =
    transmit_cooked-transmit counting_bytes counting_bytes 0x800 counting_bytes 46 (nic_answering 0)
      (omega arith) refl

-- A chip that always offers a frame of 64 bytes, and a driver with a buffer of eight.
abbrev offering_nic : Nic
offering_nic = record (nic_answering 0x8040) {
  rx_buffer = some (0 ∷ 1 ∷ 2 ∷ 3 ∷ 4 ∷ 5 ∷ 6 ∷ 7 ∷ []);
}

receive_packets-all_handed_over_example :
    (receive_packets 2 offering_nic).1.delivered ≡ all_handed_over 2 offering_nic ++ []
receive_packets-all_handed_over_example = receive_packets-all_handed_over 2 offering_nic refl
