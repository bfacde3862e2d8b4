-- ===== src/Device/Conservation/Service.antt =====
-- The weight of the requests that a unit has, in the service loop of the unit process.
use driver_amiga_os_ks.Device.Stack.{Stack}
use driver_amiga_os_ks.Device.Commands.{Environment}
use driver_amiga_os_ks.Prelude.{
  Bool, List, ℕ, ◌≡◌, ◌+◌, arith, if◌then◌else◌, [], true, ◌∷◌, Bool-cases, false, inl, refl, ◌∙◌,
  ap, inr,
}
use driver_amiga_os_ks.Device.Types.{DeviceUnit, Request, LowLevelCall}
use driver_amiga_os_ks.Device.Dispatch.{
  perform_all, process_events, receive_all, serve_port, service_round, Wakeup, perform_io,
  leave_service_loop, reread_config,
}
use driver_amiga_os_ks.Device.Conservation.{held, total}
use driver_amiga_os_ks.Device.Transmit.{low_level_call}
use driver_amiga_os_ks.Device.Conservation.Commands.{held-perform_io}
use driver_amiga_os_ks.Device.Receive.{on_pkt_received}
use driver_amiga_os_ks.Device.Conservation.Packets.{held-on_pkt_received}

module _ (w : ℕ → ℕ) where
  module _ (stack : Stack) (env : Environment) (memory : Bool) where
    held-perform_all :
        (rs : List Request) (u : DeviceUnit)
        → held w (perform_all stack env memory rs u) ≡ held w u + total w rs
    unfolding perform_all
    held-perform_all [] u = omega arith
    held-perform_all (r ∷ rs) u = omega (
      arith,
      held-perform_all rs (perform_io stack env memory r u),
      held-perform_io w stack env memory r u,
    )

    held-serve_port : (u : DeviceUnit) → held w (serve_port stack env memory u) ≡ held w u
    unfolding serve_port
    held-serve_port u = omega (arith, held-perform_all u.msg_port (record u { msg_port = [] }))

    held-receive_all :
        (frames : List (List ℕ × ℕ)) (u : DeviceUnit)
        → held w (receive_all stack env memory frames u) ≡ held w u
    unfolding receive_all
    held-receive_all [] u = refl
    held-receive_all ((packet, size) ∷ frames) u = elim (Bool-cases u.on_packet_received) [
      | inl e ↦
          held-receive_all frames
            (if u.on_packet_received then on_pkt_received stack packet size u else u)
          ∙ ap (λ b. held w (if b then on_pkt_received stack packet size u else u)) e
          ∙ held-on_pkt_received w stack packet size u
      | inr e ↦
          held-receive_all frames
            (if u.on_packet_received then on_pkt_received stack packet size u else u)
          ∙ ap (λ b. held w (if b then on_pkt_received stack packet size u else u)) e
    ]

    held-process_events :
        (frames : List (List ℕ × ℕ)) (u : DeviceUnit)
        → held w (process_events stack env memory frames u) ≡ held w u
    unfolding process_events low_level_call
    held-process_events frames u =
        held-receive_all frames (record u { low_level = LowLevelCall.process_events ∷ u.low_level })

    held-reread_config :
        (t : Wakeup) (u : DeviceUnit) → held w (reread_config t.mac_tokens u) ≡ held w u
    unfolding reread_config
    held-reread_config t u = refl

    held-leave_service_loop : (u : DeviceUnit) → held w (leave_service_loop u) ≡ held w u
    unfolding leave_service_loop low_level_call
    held-leave_service_loop u = refl

    held-if :
        (b : Bool) (f : DeviceUnit → DeviceUnit) (u : DeviceUnit)
        → held w (f u) ≡ held w u
        → held w (if b then f u else u) ≡ held w u
    held-if true f u h = h
    held-if false f u h = refl

    held-either :
        (b : Bool) (x y : Bool × DeviceUnit) {n : ℕ}
        → held w x.1 ≡ n
        → held w y.1 ≡ n
        → held w (if b then x else y).1 ≡ n
    held-either true x y h k = h
    held-either false x y h k = k

    -- For every weight of addresses, one round of the service loop, whatever woke the process up,
    -- leaves the total weight of the requests that wait in a queue of the unit or have been
    -- completed as it was.
    pub held-service_round :
        (t : Wakeup) (u : DeviceUnit) → held w (service_round stack env memory t u).1 ≡ held w u
    unfolding service_round
    held-service_round t u =
        let u₁ = if t.low_level_signal then process_events stack env memory t.frames u else u in
        let u₂ = if t.port_signal then serve_port stack env memory u₁ else u₁ in
        let events =
          held-if t.low_level_signal (process_events stack env memory t.frames) u
            (held-process_events t.frames u) in
        let port = held-if t.port_signal (serve_port stack env memory) u₁ (held-serve_port u₁) in
        let config =
          held-if t.config_signal (reread_config t.mac_tokens) u₂ (held-reread_config t u₂) in
        let last = if t.config_signal then reread_config t.mac_tokens u₂ else u₂ in
        held-either t.break_f (false, leave_service_loop u) (true, last) (held-leave_service_loop u)
          (config ∙ port ∙ events)
