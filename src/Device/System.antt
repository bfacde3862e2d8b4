-- ===== src/Device/System.antt =====
-- KSZ8851/devicedriver/devinit.c: the entry points of the device, with `DeviceInit` of device.c, and
-- the steps that a loaded device takes.
pub mod Sound
pub mod Commands
pub mod Packets
pub mod Aborts
pub mod Openers
pub mod Service
pub mod Rounds
pub mod Openings
pub mod Invariant
use driver_amiga_os_ks.Prelude.{Bool, ◌≡◌, true, false, some, none, ℕ, [], bit_or, leb}
use driver_amiga_os_ks.Device.Lifecycle.{
  DeviceDriver, OpenEnvironment, BufferTags, device_close, device_expunge, device_open,
}
use driver_amiga_os_ks.Device.Types.{Request, DeviceUnit}
use driver_amiga_os_ks.Device.Stack.{Stack}
use driver_amiga_os_ks.Device.Commands.{Environment}
use driver_amiga_os_ks.Device.Queues.{device_abort_io}
use driver_amiga_os_ks.Device.Dispatch.{device_begin_io, Wakeup, service_round}
use driver_amiga_os_ks.Device.Receive.{has_entry, queue_read, queue_orphan}
use driver_amiga_os_ks.Device.Transmit.{put_packet, send_next}

-- The base that the operating system has made is cleared; `ed_Units[0]` is NULL.
unfoldable pub device_init : ℕ → ℕ → DeviceDriver
device_init libf_changed libf_sumused = record {
  lib_open_cnt = 0;
  lib_flags = bit_or libf_changed libf_sumused;
  device_unit = none;
  gone = [];
  libraries_open = true;
  is_expunged = false;
}

unfoldable pub asm_dev_init : ℕ → ℕ → DeviceDriver
asm_dev_init libf_changed libf_sumused = device_init libf_changed libf_sumused

-- The entry point of the table that has no task.
unfoldable pub asm_dev_null_function : ℕ
asm_dev_null_function = 0

-- The hook that `ed_DummyPFHook` calls: it wants every packet.
unfoldable pub fake_pf_hook_entry : ℕ
fake_pf_hook_entry = 1

module _ (libf_delexp : ℕ) where
  unfoldable pub asm_dev_open :
      OpenEnvironment → BufferTags → Request → ℕ → ℕ → DeviceDriver → Request × DeviceDriver
  asm_dev_open env tags r s2unit s2flags d = device_open libf_delexp env tags r s2unit s2flags d

  unfoldable pub asm_dev_close : Request → DeviceDriver → Request × Bool × DeviceDriver
  asm_dev_close r d = device_close libf_delexp r d

  unfoldable pub asm_dev_expunge : DeviceDriver → Bool × DeviceDriver
  asm_dev_expunge d = device_expunge libf_delexp d

  -- On the unit of the request.
  unfoldable pub asm_dev_begin_io : Stack → Environment → Bool → Request → DeviceUnit → DeviceUnit
  asm_dev_begin_io stack env memory r u = device_begin_io stack env memory r u

  -- The code that `DeviceAbortIO` returns is dropped.
  unfoldable pub asm_dev_abort_io : Request → DeviceUnit → DeviceUnit
  asm_dev_abort_io r u = (device_abort_io r u).1

  -- One step of a loaded device: a call of an entry point, or a round of the service loop. A request
  -- is begun, aborted or closed as the operating system demands: it is open, on the device's unit,
  -- and a closed one still has the buffer management entry that `DeviceOpen` has given to it. The
  -- unit process is told to end by `ExpungeUnit` only, which is a part of `DeviceClose`.
  pub data Step : DeviceDriver → DeviceDriver → Type 0 where
    open_device :
        (env : OpenEnvironment) (tags : BufferTags) (r : Request) (s2unit s2flags : ℕ)
        → (d : DeviceDriver) → Step d (asm_dev_open env tags r s2unit s2flags d).1
    close_device :
        (r : Request) (u : DeviceUnit) (d : DeviceDriver)
        → r.is_open ≡ true
        → r.has_buffer_management ≡ true
        → has_entry r.buffer_management.id u.buff_mgmt ≡ true
        → d.device_unit ≡ some u
        → Step d (asm_dev_close r d).2
    expunge_device : (d : DeviceDriver) → Step d (asm_dev_expunge d).1
    begin_io :
        (stack : Stack) (env : Environment) (memory : Bool) (r : Request) (u : DeviceUnit)
        → (d : DeviceDriver) → r.is_open ≡ true
        → d.device_unit ≡ some u
        → Step d (record d { device_unit = some (asm_dev_begin_io stack env memory r u) })
    abort_io :
        (r : Request) (u : DeviceUnit) (d : DeviceDriver)
        → r.is_open ≡ true
        → d.device_unit ≡ some u
        → Step d (record d { device_unit = some (asm_dev_abort_io r u) })
    wake_up :
        (stack : Stack) (env : Environment) (memory : Bool) (t : Wakeup) (u : DeviceUnit)
        → (d : DeviceDriver) → t.break_f ≡ false
        → d.device_unit ≡ some u
        → Step d (record d { device_unit = some (service_round stack env memory t u).1 })
    -- What a write, a read or a read of orphans does behind its tests, which another task's steps can
    -- separate from them and from the sending: the code holds no lock in between.
    put_write :
        (r : Request) (u : DeviceUnit) (d : DeviceDriver)
        → r.is_open ≡ true
        → leb r.data_length u.mtu ≡ true
        → d.device_unit ≡ some u
        → Step d (record d { device_unit = some (put_packet r u) })
    send_write :
        (stack : Stack) (u : DeviceUnit) (d : DeviceDriver)
        → d.device_unit ≡ some u
        → Step d (record d { device_unit = some (send_next stack u) })
    put_read :
        (r : Request) (u : DeviceUnit) (d : DeviceDriver)
        → r.is_open ≡ true
        → d.device_unit ≡ some u
        → Step d (record d { device_unit = some (queue_read r u) })
    put_orphan :
        (r : Request) (u : DeviceUnit) (d : DeviceDriver)
        → r.is_open ≡ true
        → d.device_unit ≡ some u
        → Step d (record d { device_unit = some (queue_orphan r u) })

  -- What can become of a device after `DeviceInit`.
  pub data Reach (start : DeviceDriver) : DeviceDriver → Type 0 where
    loaded : Reach start start
    next_step : {d d' : DeviceDriver} → Reach start d → Step d d' → Reach start d'
