-- ===== src/Device/System/Rounds.antt =====
-- `BeginIO` and a round of the service loop keep a unit sound.
use driver_amiga_os_ks.Prelude.{
  Bool, ◌≡◌, true, false, refl, [], ◌∷◌, if-holds, List, ℕ, if◌then◌else◌, subst, sym,
}
use driver_amiga_os_ks.Device.Stack.{Stack}
use driver_amiga_os_ks.Device.Types.{DeviceUnit, Request, LowLevelCall}
use driver_amiga_os_ks.Device.Commands.{Environment}
use driver_amiga_os_ks.Device.System.Sound.{IsSound, if-IsSound, low_level_call-IsSound}
use driver_amiga_os_ks.Device.Dispatch.{
  device_begin_io, receive_all, service_round, process_events, serve_port, is_performed_now,
  reread_config, Wakeup, leave_service_loop,
}
use driver_amiga_os_ks.Device.Receive.{on_pkt_received}
use driver_amiga_os_ks.Device.System.Commands.{perform_io-IsSound, perform_all-IsSound}
use driver_amiga_os_ks.Device.Transmit.{low_level_call}
use driver_amiga_os_ks.Device.System.Packets.{on_pkt_received-IsSound}

module _ (stack : Stack) (env : Environment) (memory : Bool) where
  pub begin_io-IsSound :
      (r : Request) (u : DeviceUnit) → IsSound u → IsSound (device_begin_io stack env memory r u)
  unfolding device_begin_io
  begin_io-IsSound r u s =
      if-IsSound (is_performed_now r.command) _ _ (λ e. perform_io-IsSound stack env memory r u s)
        (λ e. s)

  receive_all-IsSound :
      (frames : List (List ℕ × ℕ)) (u : DeviceUnit)
      → IsSound u
      → IsSound (receive_all stack env memory frames u)
  unfolding receive_all
  receive_all-IsSound [] u s = s
  receive_all-IsSound ((packet, size) ∷ frames) u s =
      receive_all-IsSound frames
        (if u.on_packet_received then on_pkt_received stack packet size u else u)
        (if-holds IsSound u.on_packet_received (on_pkt_received stack packet size u) u
          (on_pkt_received-IsSound stack packet size u s) s)

  pub service_round-IsSound :
      (t : Wakeup) (u : DeviceUnit)
      → t.break_f ≡ false
      → IsSound u
      → IsSound (service_round stack env memory t u).1
  unfolding service_round process_events serve_port reread_config
  service_round-IsSound t u b s =
      let u₁ = if t.low_level_signal then process_events stack env memory t.frames u else u in
      let u₂ = if t.port_signal then serve_port stack env memory u₁ else u₁ in
      let s₁ =
        if-holds IsSound t.low_level_signal (process_events stack env memory t.frames u) u
          (receive_all-IsSound t.frames (low_level_call LowLevelCall.process_events u)
            (low_level_call-IsSound LowLevelCall.process_events u refl s))
          s in
      let s₂ =
        if-holds IsSound t.port_signal (serve_port stack env memory u₁) u₁
          (perform_all-IsSound stack env memory u₁.msg_port (record u₁ { msg_port = [] }) s₁) s₁ in
      let last = if t.config_signal then reread_config t.mac_tokens u₂ else u₂ in
      subst
        (λ b.
          let p : Bool × DeviceUnit = if b then (false, leave_service_loop u) else (true, last) in
          IsSound p.1)
        (sym b) (if-holds IsSound t.config_signal (reread_config t.mac_tokens u₂) u₂ s₂ s₂)
