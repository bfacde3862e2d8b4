-- ===== src/Device/Loops.antt =====
-- KSZ8851/devicedriver/device.c: the two `while` loops over a message port as they are written: each
-- round takes the head of the port as the rounds before have left it. `none` is a loop that has not
-- ended within its fuel.
pub mod Termination
use driver_amiga_os_ks.Prelude.{[], ◌∷◌, none, some, zero, suc, Bool, ℕ, Option, none, suc}
use driver_amiga_os_ks.Device.Stack.{Stack}
use driver_amiga_os_ks.Device.Commands.{Environment}
use driver_amiga_os_ks.Device.Types.{DeviceUnit}
use driver_amiga_os_ks.Device.Dispatch.{perform_io}
use driver_amiga_os_ks.Device.Transmit.{send_one}

module _ (stack : Stack) where
  -- `while ((ios2 = GetMsg(eu_Tx)) != NULL)` of `sendAllPackets`
  unfoldable pub send_loop : ℕ → DeviceUnit → Option DeviceUnit
  send_loop zero u = none
  send_loop (suc fuel) u = elim u.tx [
    | [] ↦ some u
    | r ∷ rs ↦ send_loop fuel (send_one stack r (record u { tx = rs }))
  ]

  module _ (env : Environment) (memory : Bool) where
    -- `while ((ios2 = GetMsg(etherUnit)) != NULL)` of `DevProcEntry`
    unfoldable pub port_loop : ℕ → DeviceUnit → Option DeviceUnit
    port_loop zero u = none
    port_loop (suc fuel) u = elim u.msg_port [
      | [] ↦ some u
      | r ∷ rs ↦ port_loop fuel (perform_io stack env memory r (record u { msg_port = rs }))
    ]
