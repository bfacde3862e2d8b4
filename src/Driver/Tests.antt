-- ===== src/Driver/Tests.antt =====
-- The theorems of the device on the chip at concrete ones.
mod Link
use driver_amiga_os_ks.Device.System.{begin_io, wake_up, open_device, next_step, loaded}
use driver_amiga_os_ks.Prelude.{refl, [], ◌∷◌, some, true}
use driver_amiga_os_ks.Device.Types.{DeviceUnit, LowLevelCall}
use driver_amiga_os_ks.Chip.Balance.{IsCalm}
use driver_amiga_os_ks.Driver.{Platform, run_calls}
use driver_amiga_os_ks.Device.Dispatch.{service_round}
use driver_amiga_os_ks.Device.Tests.Data.{
  full_stack, morning, write_10, all_at_once, configure_12, opened_unit, opened, healthy, no_tags,
  read_7,
}
use driver_amiga_os_ks.Chip.Tests.{nic_answering, counting_bytes}
use driver_amiga_os_ks.Driver.Calm.{run_calls-IsCalm}
use driver_amiga_os_ks.Device.Lifecycle.{
  DeviceDriver, device_open, open_counted, open_flagged, open_checked, check_flags,
  check_stack_space, init_unit_process, open_unit, open_entry, open_with, new_unit,
}
use driver_amiga_os_ks.Device.System.{asm_dev_begin_io, asm_dev_open, asm_dev_init, device_init}
use driver_amiga_os_ks.Driver.Frames.{HaveLegalFrames, Reach-HaveLegalFrames}

abbrev pub platform : Platform
platform = record { memory = some (0 ∷ []); task = 7; signal = 5; stale = λ calls. counting_bytes }

run_calls-IsCalm_example :
    IsCalm 2 2
      (run_calls platform
        (LowLevelCall.send_packet (1 ∷ []) 60
          ∷ LowLevelCall.process_events
          ∷ LowLevelCall.online
          ∷ LowLevelCall.init
          ∷ [])
        (nic_answering 0x8872)).1
run_calls-IsCalm_example =
    run_calls-IsCalm 2 platform
      (LowLevelCall.send_packet (1 ∷ []) 60
        ∷ LowLevelCall.process_events
        ∷ LowLevelCall.online
        ∷ LowLevelCall.init
        ∷ [])
      (nic_answering 0x8872) (refl, refl)

-- The unit after its opener has asked for its configuration, after the unit process has done that,
-- and after a packet has been written.
abbrev asked_unit : DeviceUnit
asked_unit = asm_dev_begin_io 8 full_stack morning true configure_12 opened_unit

abbrev configured_unit : DeviceUnit
configured_unit = (service_round full_stack morning true all_at_once asked_unit).1

abbrev written_unit : DeviceUnit
written_unit = asm_dev_begin_io 8 full_stack morning true write_10 configured_unit

abbrev with_unit : DeviceUnit → DeviceDriver
with_unit u = record opened { device_unit = some u }

Reach-HaveLegalFrames_example :
    HaveLegalFrames counting_bytes (nic_answering 0x1800) written_unit.low_level
unfolding asm_dev_open asm_dev_init device_init device_open open_counted open_flagged open_checked
    check_flags check_stack_space init_unit_process open_unit open_entry open_with new_unit
Reach-HaveLegalFrames_example =
    Reach-HaveLegalFrames 8 2 4 counting_bytes (nic_answering 0x1800) written_unit
      (next_step
        (next_step
          (next_step (next_step loaded (open_device healthy no_tags read_7 0 0 (asm_dev_init 2 4)))
            (begin_io full_stack morning true configure_12 opened_unit opened refl refl))
          (wake_up full_stack morning true all_at_once asked_unit (with_unit asked_unit) refl refl))
        (begin_io full_stack morning true write_10 configured_unit (with_unit configured_unit) refl
          refl))
      refl
