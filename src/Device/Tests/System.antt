-- ===== src/Device/Tests/System.antt =====
-- The theorems on loops and on a loaded device at concrete ones.
use driver_amiga_os_ks.Device.System.{
  put_write, put_read, send_write, open_device, loaded, next_step, asm_dev_init, asm_dev_open,
  device_init,
}
use driver_amiga_os_ks.Prelude.{some, true, ◌∷◌, ◌≡◌, [], arith, refl}
use driver_amiga_os_ks.Device.Dispatch.{serve_port}
use driver_amiga_os_ks.Device.Transmit.{send_all_packets, send_next, put_packet}
use driver_amiga_os_ks.Device.System.Invariant.{IsValid, Reach-IsValid}
use driver_amiga_os_ks.Device.Loops.{port_loop, send_loop}
use driver_amiga_os_ks.Device.Loops.Termination.{port_loop-serve_port, send_loop-send_all_packets}
use driver_amiga_os_ks.Device.Tests.Data.{
  full_stack, healthy, write_10, busy_unit, morning, no_tags, read_7, opened, at_seven, opened_unit,
}
use driver_amiga_os_ks.Device.Commands.{dev_cmd_offline}
use driver_amiga_os_ks.Device.System.Sound.{no_reads}
use driver_amiga_os_ks.Device.Conservation.{total_completed}
use driver_amiga_os_ks.Device.Progress.{dev_cmd_offline-completes}
use driver_amiga_os_ks.Device.Types.{DeviceUnit}
use driver_amiga_os_ks.Device.Lifecycle.{
  device_open, open_counted, open_flagged, open_checked, check_flags, check_stack_space,
  init_unit_process, open_unit, open_entry, open_with, new_unit,
}
use driver_amiga_os_ks.Device.Receive.{queue_read}

send_loop-send_all_packets_example :
    send_loop full_stack 3 (record busy_unit { tx = write_10 ∷ write_10 ∷ [] })
    ≡ some (send_all_packets full_stack (record busy_unit { tx = write_10 ∷ write_10 ∷ [] }))
send_loop-send_all_packets_example =
    send_loop-send_all_packets full_stack 2 (record busy_unit { tx = write_10 ∷ write_10 ∷ [] })
      (omega arith)

port_loop-serve_port_example :
    (port_loop full_stack morning true 2 busy_unit
      ≡ some (serve_port full_stack morning true busy_unit))
    × ((serve_port full_stack morning true busy_unit).msg_port ≡ [])
port_loop-serve_port_example =
    port_loop-serve_port full_stack morning true 1 busy_unit (omega arith)

-- A write and a read whose queueing is a step of its own, on a unit that is offline.
abbrev interleaved : DeviceUnit
interleaved = send_next full_stack (queue_read read_7 (put_packet write_10 opened_unit))

Reach-IsValid_example : IsValid (record opened { device_unit = some interleaved })
unfolding asm_dev_open asm_dev_init device_init device_open open_counted open_flagged open_checked
    check_flags check_stack_space init_unit_process open_unit open_entry open_with new_unit
Reach-IsValid_example =
    let putting = put_packet write_10 opened_unit in
    let reading = queue_read read_7 putting in
    Reach-IsValid 8 2 4 (
      next_step
        (next_step
          (next_step (next_step loaded (open_device healthy no_tags read_7 0 0 (asm_dev_init 2 4)))
            (put_write write_10 opened_unit opened refl refl refl))
          (put_read read_7 putting (record opened { device_unit = some putting }) refl refl))
        (send_write full_stack reading (record opened { device_unit = some reading }) refl))

dev_cmd_offline-completes_example :
    ((dev_cmd_offline (some write_10) busy_unit).tx ≡ [])
    × ((dev_cmd_offline (some write_10) busy_unit).events ≡ [])
    × (no_reads (dev_cmd_offline (some write_10) busy_unit).buff_mgmt ≡ true)
    × (total_completed at_seven (dev_cmd_offline (some write_10) busy_unit).completed ≡ 1)
dev_cmd_offline-completes_example = dev_cmd_offline-completes at_seven write_10 busy_unit refl
