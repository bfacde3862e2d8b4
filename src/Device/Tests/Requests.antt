-- ===== src/Device/Tests/Requests.antt =====
-- The theorems on requests and settings at a concrete unit.
use driver_amiga_os_ks.Device.Lifecycle.{
  device_close, device_open, open_counted, check_stack_space, open_flagged, check_flags,
  open_checked, open_unit, init_unit_process, open_entry, open_with,
}
use driver_amiga_os_ks.Device.Types.{s2_configinterface, s2_tracktype, no_error, Request, cmd_read}
use driver_amiga_os_ks.Device.Opening.{IsCounted, device_open-IsCounted}
use driver_amiga_os_ks.Prelude.{◌+◌, false, true, ◌∷◌, ◌≡◌, [], map, refl, ◌++◌, ◌%◌, List}
use driver_amiga_os_ks.Device.Dispatch.{perform_all, perform_io, service_round, serve_port}
use driver_amiga_os_ks.Device.Receive.{has_entry, on_pkt_received}
use driver_amiga_os_ks.Device.Queues.{flush, emptied}
use driver_amiga_os_ks.Device.Conservation.{held}
use driver_amiga_os_ks.Device.Settings.{settings, next}
use driver_amiga_os_ks.Device.Settings.Invariants.{st_addr-perform_all}
use driver_amiga_os_ks.Device.Closing.{device_close-IsCounted, device_close-no_expunge}
use driver_amiga_os_ks.Device.Conservation.Packets.{held-on_pkt_received}
use driver_amiga_os_ks.Device.Conservation.Commands.{held-perform_io}
use driver_amiga_os_ks.Device.Conservation.Service.{held-service_round}
use driver_amiga_os_ks.Device.Flushing.{after_aborting, after_reads, flush_lem}
use driver_amiga_os_ks.Device.Settings.Refinement.{settings-perform_io}
use driver_amiga_os_ks.Device.Tests.Data.{
  busy_unit, full_stack, healthy, read_7, ip_frame, morning, no_tags, open_driver, write_10,
  all_at_once, request_for, at_seven,
}
use driver_amiga_os_ks.Device.Queueing.{begin_all, serve_port-begin_all, left_of, now_of}

held-perform_io_example :
    held at_seven (perform_io full_stack morning true write_10 busy_unit)
    ≡ held at_seven busy_unit + at_seven write_10.address
held-perform_io_example = held-perform_io at_seven full_stack morning true write_10 busy_unit

held-service_round_example :
    held at_seven (service_round full_stack morning true all_at_once busy_unit).1
    ≡ held at_seven busy_unit
held-service_round_example =
    held-service_round at_seven full_stack morning true all_at_once busy_unit

held-on_pkt_received_example :
    held at_seven (on_pkt_received full_stack ip_frame 60 busy_unit) ≡ held at_seven busy_unit
held-on_pkt_received_example = held-on_pkt_received at_seven full_stack ip_frame 60 busy_unit

settings-perform_io_example :
    settings (perform_io full_stack morning true (request_for s2_tracktype 11) busy_unit)
    ≡ next true s2_tracktype (request_for s2_tracktype 11) (settings busy_unit)
settings-perform_io_example =
    settings-perform_io full_stack morning true (request_for s2_tracktype 11) busy_unit

st_addr-perform_all_example :
    ((perform_all full_stack morning true
        (request_for s2_configinterface 12 ∷ write_10 ∷ [])
        busy_unit).st_addr
      ≡ busy_unit.st_addr)
    × ((perform_all full_stack morning true
          (request_for s2_configinterface 12 ∷ write_10 ∷ [])
          busy_unit).is_config
        ≡ true)
st_addr-perform_all_example =
    st_addr-perform_all full_stack morning true (request_for s2_configinterface 12 ∷ write_10 ∷ [])
      busy_unit refl

flush_lem_example : flush busy_unit ≡ record busy_unit {
  buff_mgmt = map emptied busy_unit.buff_mgmt;
  tx = [];
  events = [];
  completed =
      after_aborting busy_unit.events
        (after_aborting busy_unit.tx (after_reads busy_unit.buff_mgmt busy_unit.completed));
}
flush_lem_example = flush_lem busy_unit

device_open-IsCounted_example :
    IsCounted (device_open 8 healthy no_tags read_7 0 0 open_driver).1
    × ((device_open 8 healthy no_tags read_7 0 0 open_driver).1.lib_open_cnt ≡ 2)
    × ((device_open 8 healthy no_tags read_7 0 0 open_driver).0.io_error ≡ no_error)
unfolding device_open open_counted check_stack_space open_flagged check_flags open_checked open_unit
    init_unit_process open_entry open_with
device_open-IsCounted_example =
    device_open-IsCounted 8 healthy no_tags read_7 0 0 open_driver (refl, refl)

device_close-IsCounted_example :
    IsCounted (device_close 8 read_7 open_driver).2
    × ((device_close 8 read_7 open_driver).2.lib_open_cnt
        ≡ (open_driver.lib_open_cnt + 65535) % 65536)
unfolding has_entry
device_close-IsCounted_example =
    device_close-IsCounted 8 read_7 busy_unit open_driver refl refl refl refl (refl, refl)

device_close-no_expunge_example : (device_close 8 read_7 open_driver).1 ≡ false
device_close-no_expunge_example = device_close-no_expunge read_7 open_driver

abbrev begun : List Request
begun =
    request_for s2_configinterface 12 ∷ request_for cmd_read 14 ∷ request_for s2_tracktype 13 ∷ []

serve_port-begin_all_example :
    (serve_port full_stack morning true (begin_all full_stack morning true begun busy_unit)
      ≡ perform_all full_stack morning true
          (busy_unit.msg_port ++ left_of begun)
          (perform_all full_stack morning true (now_of begun) (record busy_unit { msg_port = [] })))
    × ((serve_port full_stack morning true
          (begin_all full_stack morning true begun busy_unit)).msg_port
        ≡ [])
serve_port-begin_all_example = serve_port-begin_all full_stack morning true begun busy_unit
