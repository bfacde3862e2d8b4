-- ===== src/Device/Tests/Packets.antt =====
-- The theorems on packets and events at a concrete unit.
use driver_amiga_os_ks.Device.Types.{DeviceUnit}
use driver_amiga_os_ks.Prelude.{
  false, true, ◌∷◌, ◌≡◌, [], refl, List, bit, ℕ, ◌/◌, has, ◌||◌, ◌%◌, map, arith,
}
use driver_amiga_os_ks.Device.Stack.{Stack}
use driver_amiga_os_ks.Device.Receive.{on_pkt_received, offer_to_orphans}
use driver_amiga_os_ks.Device.Queues.{do_event}
use driver_amiga_os_ks.Device.Multicast.{has_address, getmcaf}
use driver_amiga_os_ks.Device.Events.{unfired, after_firing, do_event_lem}
use driver_amiga_os_ks.Chip.Multicast.{hash_table}
use driver_amiga_os_ks.Device.Tests.Data.{busy_unit, full_stack, ip_frame, read_7, opener}
use driver_amiga_os_ks.Device.Membership.{
  MultiCommand, set_of, add, perform_multis, next_sets, remove, perform_multis-next_sets,
}
use driver_amiga_os_ks.Device.Offers.{
  last_taken, offers, settle_all, after_offers, on_pkt_received-offers,
}
use driver_amiga_os_ks.Device.Filtering.{turned, in_use, getmcaf-hash_table}
use driver_amiga_os_ks.Device.Lifecycle.{etheruf_promisc}

do_event_lem_example : do_event 8 busy_unit ≡ record busy_unit {
  events = unfired 8 busy_unit.events;
  completed = after_firing 8 busy_unit.events busy_unit.completed;
}
do_event_lem_example = do_event_lem 8 busy_unit

-- A stack that wants no packet.
abbrev deaf_stack : Stack
deaf_stack = record full_stack { call_filter_hook = λ hook r bytes. false }

-- Two openers: the first has a read request for the packet, the second one for another type and one for
-- the packet.
abbrev two_entries : DeviceUnit
two_entries = record busy_unit {
  buff_mgmt =
      record { callbacks = opener; rx_queue = read_7 ∷ [] }
      ∷ record {
        callbacks = record opener { id = 101 };
        rx_queue = record read_7 { packet_type = 2054 } ∷ read_7 ∷ [];
      }
      ∷ [];
}

on_pkt_received-offers_example :
    on_pkt_received deaf_stack ip_frame 60 two_entries
    ≡ offer_to_orphans deaf_stack ip_frame 60
        (last_taken false (offers deaf_stack ip_frame 60 two_entries.buff_mgmt))
        (record (settle_all deaf_stack ip_frame 60
          (offers deaf_stack ip_frame 60 two_entries.buff_mgmt)
          (record two_entries { buff_mgmt = [] })) {
            buff_mgmt = after_offers deaf_stack ip_frame 60 two_entries.buff_mgmt;
          })
on_pkt_received-offers_example = on_pkt_received-offers deaf_stack ip_frame 60 two_entries

-- A multicast address and one more.
abbrev group_1 : List ℕ
group_1 = 1 ∷ 0 ∷ 0x5e ∷ 0 ∷ 0 ∷ 1 ∷ []

abbrev group_2 : List ℕ
group_2 = 1 ∷ 0 ∷ 0x5e ∷ 0 ∷ 0 ∷ 2 ∷ []

getmcaf-hash_table_example : bit (turned 37) (getmcaf 0 (group_1 ∷ group_2 ∷ []) (37 / 32)) ≡ (
    has 0 etheruf_promisc
    || bit (37 % 16) (hash_table (map in_use (group_1 ∷ group_2 ∷ [])) (37 / 16)))
getmcaf-hash_table_example = getmcaf-hash_table 0 (group_1 ∷ group_2 ∷ []) 37 (omega arith)

abbrev multi_commands : List MultiCommand
multi_commands =
    add true (record read_7 { src_addr = group_2 })
    ∷ add false (record read_7 { src_addr = group_1 })
    ∷ remove (record read_7 { src_addr = group_2 })
    ∷ remove (record read_7 { src_addr = group_2 })
    ∷ []

perform_multis-next_sets_example :
    set_of (perform_multis multi_commands (group_1 ∷ [], busy_unit))
    ≡ next_sets multi_commands (set_of (group_1 ∷ [], busy_unit))
unfolding has_address
perform_multis-next_sets_example =
    perform_multis-next_sets multi_commands (group_1 ∷ []) busy_unit refl
