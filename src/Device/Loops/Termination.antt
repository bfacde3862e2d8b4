-- ===== src/Device/Loops/Termination.antt =====
-- The `while` loops of device.c end: no round puts a message into the port that the loop empties.
use driver_amiga_os_ks.Prelude.{
  Bool, List, ℕ, if◌then◌else◌, length, some, ◌≡◌, ◌++◌, ap, arith, false, true, ◌∙◌, ◌∷◌, ◌≤◌, [],
  suc, refl, sym, ◌*◌, ◌+◌, ◌%◌, ◌^◌, zero,
}
use driver_amiga_os_ks.Device.Stack.{Stack}
use driver_amiga_os_ks.Device.Commands.{
  dev_cmd_config_interface, dev_cmd_offline, dev_cmd_online, go_offline, go_online, Environment,
  dev_cmd_device_query, dev_cmd_get_station_address, dev_cmd_glob_stats, glob_stats,
  dev_cmd_track_type, dev_cmd_un_track_type, dev_cmd_get_special_stats, dev_cmd_ns_device_query,
  dev_cmd_on_event,
}
use driver_amiga_os_ks.Device.Types.{
  Request, fail_io, term_io, DeviceUnit, nt_message, offline, online, s2event_buff,
  set_network_address, init, no_error, s2event_offline, s2event_tx, mtu_exceeded,
  s2werr_generic_error, s2event_online, Command, cmd_write, s2_broadcast, s2_multicast, cmd_flush,
  s2_online, s2_offline, s2_configinterface,
}
use driver_amiga_os_ks.Device.Transmit.{
  dev_cmd_write_packet, finish_write, low_level_call, send_all, send_all_packets, send_one,
  send_raw, send_cooked,
}
use driver_amiga_os_ks.Device.Loops.{send_loop, port_loop}
use driver_amiga_os_ks.Device.Dispatch.{perform, serve_port, perform_all, perform_io}
use driver_amiga_os_ks.Device.Queues.{dev_cmd_flush, do_event, flush}
use driver_amiga_os_ks.Device.Events.{do_event_lem}
use driver_amiga_os_ks.Device.Flushing.{flush_lem}
use driver_amiga_os_ks.Device.Receive.{dev_cmd_read_packet, dev_cmd_read_orphan, broadcast_address}

-- The two ports, and a unit with another content of one of them.
data Port : Type 0 where
  msg_port tx : Port

abbrev set : Port → List Request → DeviceUnit → DeviceUnit
set msg_port rs u = record u { msg_port = rs }
set tx rs u = record u { tx = rs }

set-do_event :
    (p : Port) (rs : List Request) (events : ℕ) (u : DeviceUnit)
    → set p rs (do_event events u) ≡ do_event events (set p rs u)
set-do_event msg_port rs events u =
    ap (set msg_port rs) (do_event_lem events u) ∙ sym (do_event_lem events (set msg_port rs u))
set-do_event tx rs events u =
    ap (set tx rs) (do_event_lem events u) ∙ sym (do_event_lem events (set tx rs u))

module _ (stack : Stack) where
  set-finish_write :
      (p : Port) (rs : List Request) (r : Request) (u : DeviceUnit)
      → set p rs (finish_write stack (r, u)) ≡ finish_write stack (r, set p rs u)
  unfolding finish_write term_io
  set-finish_write msg_port rs r u = ground (arith, set-do_event msg_port rs s2event_buff u)
  set-finish_write tx rs r u = ground (arith, set-do_event tx rs s2event_buff u)

  abbrev sent : Request → DeviceUnit → Request × DeviceUnit
  sent r u = if r.raw then send_raw stack r u else send_cooked stack r u

  set-sent :
      (p : Port) (rs : List Request) (r : Request) (u : DeviceUnit)
      → ((sent r u).0, set p rs (sent r u).1) ≡ sent r (set p rs u)
  unfolding send_raw send_cooked low_level_call
  set-sent msg_port rs r u = ground arith
  set-sent tx rs r u = ground arith

  set-send_one :
      (p : Port) (rs : List Request) (r : Request) (u : DeviceUnit)
      → set p rs (send_one stack r u) ≡ send_one stack r (set p rs u)
  unfolding send_one
  set-send_one p rs r u =
      set-finish_write p rs (sent r u).0 (sent r u).1 ∙ ap (finish_write stack) (set-sent p rs r u)

  set-send_all :
      (p : Port) (qs rs : List Request) (u : DeviceUnit)
      → set p qs (send_all stack rs u) ≡ send_all stack rs (set p qs u)
  unfolding send_all
  set-send_all p qs [] u = refl
  set-send_all p qs (r ∷ rs) u =
      set-send_all p qs rs (send_one stack r u) ∙ ap (send_all stack rs) (set-send_one p qs r u)

  send_loop-send_all :
      (rs : List Request) (fuel : ℕ) (u : DeviceUnit)
      → length rs ≤ fuel
      → send_loop stack (suc fuel) (set tx rs u) ≡ some (send_all stack rs (set tx [] u))
  unfolding send_loop send_all
  send_loop-send_all [] fuel u h = refl
  send_loop-send_all (r ∷ rs) zero u h = ground arith
  send_loop-send_all (r ∷ rs) (suc fuel) u h =
      ap (send_loop stack (suc fuel)) (sym (set-send_one tx rs r u))
      ∙ send_loop-send_all rs fuel (send_one stack r u) (omega (arith, h))
      ∙ ap (λ v. some (send_all stack rs v)) (set-send_one tx [] r u)

  -- The loop of `sendAllPackets` ends after one round for each write request that waits at its
  -- start, and its result is that of the function that sends those requests in their order.
  pub send_loop-send_all_packets :
      (fuel : ℕ) (u : DeviceUnit)
      → length u.tx ≤ fuel
      → send_loop stack (suc fuel) u ≡ some (send_all_packets stack u)
  unfolding send_all_packets
  send_loop-send_all_packets fuel u h = send_loop-send_all u.tx fuel u h

  set-write_packet :
      (rs : List Request) (r : Request) (u : DeviceUnit)
      → set msg_port rs (dev_cmd_write_packet stack r u)
        ≡ dev_cmd_write_packet stack r (set msg_port rs u)
  unfolding dev_cmd_write_packet send_all_packets fail_io term_io
  set-write_packet rs r u =
      let queue = u.tx ++ record r { quick = false; node_type = nt_message } ∷ [] in
      ground (
        arith,
        set-send_all msg_port rs queue (set tx [] u),
        set-do_event msg_port rs s2event_tx (fail_io r mtu_exceeded s2werr_generic_error u),
      )

set-flush :
    (rs : List Request) (u : DeviceUnit) → set msg_port rs (flush u) ≡ flush (set msg_port rs u)
set-flush rs u = ap (set msg_port rs) (flush_lem u) ∙ sym (flush_lem (set msg_port rs u))

set-go_online :
    (rs : List Request) (env : Environment) (u : DeviceUnit)
    → set msg_port rs (go_online env u) ≡ go_online env (set msg_port rs u)
unfolding go_online low_level_call
set-go_online rs env u =
    let up = record u {
      on_packet_received = true;
      low_level = online ∷ init ∷ u.low_level;
      signal_number = env.used_signal_number;
      is_online = true;
    } in
    ap {A = DeviceUnit}
      (λ v. record v {
        last_start_secs = (env.ds_days * 24 * 60 * 60 + env.ds_minute * 60) % 2 ^ 32;
        last_start_micro = env.ds_tick;
      })
      (set-do_event msg_port rs s2event_online up)

set-go_offline :
    (rs : List Request) (u : DeviceUnit)
    → set msg_port rs (go_offline u) ≡ go_offline (set msg_port rs u)
unfolding go_offline low_level_call
set-go_offline rs u =
    let down = record u { is_online = false } in
    ap {A = DeviceUnit} (λ v. record v { low_level = offline ∷ v.low_level })
      (set-flush rs (do_event s2event_offline down)
        ∙ ap flush (set-do_event msg_port rs s2event_offline down))

set-online :
    (rs : List Request) (env : Environment) (r : Request) (u : DeviceUnit)
    → set msg_port rs (dev_cmd_online env r u) ≡ dev_cmd_online env r (set msg_port rs u)
unfolding dev_cmd_online fail_io term_io
set-online rs env r u = ground (arith, set-go_online rs env u)

set-offline :
    (rs : List Request) (r : Request) (u : DeviceUnit)
    → set msg_port rs (dev_cmd_offline (some r) u) ≡ dev_cmd_offline (some r) (set msg_port rs u)
unfolding dev_cmd_offline term_io
set-offline rs r u = ground (arith, set-go_offline rs u)

set-config_interface :
    (rs : List Request) (env : Environment) (r : Request) (u : DeviceUnit)
    → set msg_port rs (dev_cmd_config_interface env r u)
      ≡ dev_cmd_config_interface env r (set msg_port rs u)
unfolding dev_cmd_config_interface fail_io term_io low_level_call
set-config_interface rs env r u = ground (
  arith,
  set-online rs env r (record u {
    st_addr = r.src_addr;
    low_level = set_network_address r.src_addr ∷ u.low_level;
    is_config = true;
  }),
)

module _ (stack : Stack) (env : Environment) (memory : Bool) where
  set-perform :
      (c : Command) (rs : List Request) (r : Request) (u : DeviceUnit)
      → set msg_port rs (perform stack env memory c r u)
        ≡ perform stack env memory c r (set msg_port rs u)
  unfolding perform dev_cmd_flush dev_cmd_device_query dev_cmd_get_station_address
      dev_cmd_read_packet dev_cmd_read_orphan dev_cmd_glob_stats glob_stats dev_cmd_track_type
      dev_cmd_un_track_type dev_cmd_get_special_stats dev_cmd_ns_device_query dev_cmd_on_event
      fail_io term_io
  set-perform cmd_write rs r u = set-write_packet stack rs r u
  set-perform s2_broadcast rs r u =
      set-write_packet stack rs (record r { dst_addr = broadcast_address }) u
  set-perform s2_multicast rs r u = set-write_packet stack rs r u
  set-perform cmd_flush rs r u = ap (term_io r) (set-flush rs u)
  set-perform s2_online rs r u = set-online rs env r u
  set-perform s2_offline rs r u = set-offline rs r u
  set-perform s2_configinterface rs r u = set-config_interface rs env r u
  set-perform _ rs r u = ground arith

  set-perform_all :
      (qs rs : List Request) (u : DeviceUnit)
      → set msg_port qs (perform_all stack env memory rs u)
        ≡ perform_all stack env memory rs (set msg_port qs u)
  unfolding perform_all perform_io
  set-perform_all qs [] u = refl
  set-perform_all qs (r ∷ rs) u =
      set-perform_all qs rs (perform_io stack env memory r u)
      ∙ ap (perform_all stack env memory rs)
          (set-perform r.command qs (record r { io_error = no_error }) u)

  -- What the port holds does not matter to the commands.
  pub put_port-perform_all :
      (qs rs : List Request) (u : DeviceUnit)
      → record (perform_all stack env memory rs u) { msg_port = qs }
        ≡ perform_all stack env memory rs (record u { msg_port = qs })
  put_port-perform_all qs rs u = set-perform_all qs rs u

  port_loop-perform_all :
      (rs : List Request) (fuel : ℕ) (u : DeviceUnit)
      → length rs ≤ fuel
      → port_loop stack env memory (suc fuel) (set msg_port rs u)
        ≡ some (perform_all stack env memory rs (set msg_port [] u))
  unfolding port_loop perform_all perform_io
  port_loop-perform_all [] fuel u h = refl
  port_loop-perform_all (r ∷ rs) zero u h = ground arith
  port_loop-perform_all (r ∷ rs) (suc fuel) u h =
      let r' = record r { io_error = no_error } in
      ap (port_loop stack env memory (suc fuel)) (sym (set-perform r.command rs r' u))
      ∙ port_loop-perform_all rs fuel (perform_io stack env memory r u) (omega (arith, h))
      ∙ ap (λ v. some (perform_all stack env memory rs v)) (set-perform r.command [] r' u)

  -- The loop that empties the message port of the unit process ends after one round for each request
  -- that waits at its start, whatever the commands are, and its result is that of performing those
  -- requests in their order; the port is empty then.
  pub port_loop-serve_port :
      (fuel : ℕ) (u : DeviceUnit)
      → length u.msg_port ≤ fuel
      → (port_loop stack env memory (suc fuel) u ≡ some (serve_port stack env memory u))
        × ((serve_port stack env memory u).msg_port ≡ [])
  unfolding serve_port
  port_loop-serve_port fuel u h = (
    port_loop-perform_all u.msg_port fuel u h,
    ap (λ v. v.msg_port) (sym (set-perform_all [] u.msg_port (set msg_port [] u))),
  )
