-- ===== src/Device/Conservation/Commands.antt =====
-- The weight of the requests that a unit has, in `PerformIO`.
use driver_amiga_os_ks.Device.Stack.{Stack}
use driver_amiga_os_ks.Device.Commands.{
  dev_cmd_config_interface, dev_cmd_device_query, dev_cmd_get_special_stats,
  dev_cmd_get_station_address, dev_cmd_glob_stats, dev_cmd_ns_device_query, dev_cmd_offline,
  dev_cmd_on_event, dev_cmd_online, dev_cmd_track_type, dev_cmd_un_track_type, go_offline,
  go_online, Environment,
}
use driver_amiga_os_ks.Device.Types.{
  Request, fail_io, term_io, DeviceUnit, Command, no_error, bad_state, s2event_offline,
  s2werr_not_configured, not_supported, s2werr_generic_error, other, s2event_online,
  set_network_address, online, s2werr_is_configured, init, cmd_write, cmd_read, s2_broadcast,
  s2_multicast, cmd_flush, s2_onevent, s2_online, s2_offline, s2_devicequery, s2_getstationaddress,
  s2_configinterface, s2_readorphan, s2_getglobalstats, s2_tracktype, s2_untracktype,
  s2_getspecialstats, nscmd_devicequery, s2_gettypestats,
}
use driver_amiga_os_ks.Device.Transmit.{low_level_call}
use driver_amiga_os_ks.Prelude.{Bool, some, ◌≡◌, ◌+◌, false, arith, ◌∷◌, [], true, ℕ}
use driver_amiga_os_ks.Device.Conservation.{
  held, held-term_io, held-write_packet, held-do_event, held-fail_io, held-flush, total-append,
}
use driver_amiga_os_ks.Device.Dispatch.{perform, perform_io}
use driver_amiga_os_ks.Device.Queues.{dev_cmd_flush, flush, do_event}
use driver_amiga_os_ks.Device.Conservation.Reading.{held-read_packet, held-read_orphan}
use driver_amiga_os_ks.Device.Receive.{broadcast_address}

module _ (w : ℕ → ℕ) where
  held-go_online : (env : Environment) (u : DeviceUnit) → held w (go_online env u) ≡ held w u
  unfolding go_online low_level_call
  held-go_online env u = held-do_event w s2event_online (record u {
    on_packet_received = true;
    low_level = online ∷ init ∷ u.low_level;
    signal_number = env.used_signal_number;
    is_online = true;
  })

  held-online :
      (env : Environment) (r : Request) (u : DeviceUnit)
      → held w (dev_cmd_online env r u) ≡ held w u + w r.address
  unfolding dev_cmd_online
  held-online env r u = ground (
    arith,
    held-fail_io w r bad_state s2werr_not_configured u,
    held-term_io w r (go_online env u),
    held-go_online env u,
    held-term_io w r u,
  )

  pub held-go_offline : (u : DeviceUnit) → held w (go_offline u) ≡ held w u
  unfolding go_offline low_level_call
  held-go_offline u =
      let down = record u { is_online = false } in
      omega
        (arith, held-do_event w s2event_offline down, held-flush w (do_event s2event_offline down))

  held-offline :
      (r : Request) (u : DeviceUnit) → held w (dev_cmd_offline (some r) u) ≡ held w u + w r.address
  unfolding dev_cmd_offline
  held-offline r u =
      ground (arith, held-term_io w r (go_offline u), held-go_offline u, held-term_io w r u)

  held-config_interface :
      (env : Environment) (r : Request) (u : DeviceUnit)
      → held w (dev_cmd_config_interface env r u) ≡ held w u + w r.address
  unfolding dev_cmd_config_interface low_level_call
  held-config_interface env r u = ground (
    arith,
    held-online env r (record u {
      st_addr = r.src_addr;
      low_level = set_network_address r.src_addr ∷ u.low_level;
      is_config = true;
    }),
    held-fail_io w r bad_state s2werr_is_configured u,
  )

  held-device_query :
      (r : Request) (u : DeviceUnit) → held w (dev_cmd_device_query r u) ≡ held w u + w r.address
  unfolding dev_cmd_device_query fail_io term_io
  held-device_query r u = ground arith

  held-track :
      (m : Bool) (r : Request) (u : DeviceUnit)
      → held w (dev_cmd_track_type m r u) ≡ held w u + w r.address
  unfolding dev_cmd_track_type fail_io term_io
  held-track m r u = ground arith

  held-untrack :
      (r : Request) (u : DeviceUnit) → held w (dev_cmd_un_track_type r u) ≡ held w u + w r.address
  unfolding dev_cmd_un_track_type fail_io term_io
  held-untrack r u = ground arith

  held-glob_stats :
      (r : Request) (u : DeviceUnit) → held w (dev_cmd_glob_stats r u) ≡ held w u + w r.address
  unfolding dev_cmd_glob_stats fail_io term_io
  held-glob_stats r u = ground arith

  held-special_stats :
      (r : Request) (u : DeviceUnit)
      → held w (dev_cmd_get_special_stats r u) ≡ held w u + w r.address
  unfolding dev_cmd_get_special_stats fail_io term_io
  held-special_stats r u = ground arith

  held-ns_query :
      (env : Environment) (r : Request) (u : DeviceUnit)
      → held w (dev_cmd_ns_device_query env r u) ≡ held w u + w r.address
  unfolding dev_cmd_ns_device_query term_io
  held-ns_query env r u = ground arith

  held-on_event :
      (r : Request) (u : DeviceUnit) → held w (dev_cmd_on_event r u) ≡ held w u + w r.address
  unfolding dev_cmd_on_event term_io
  held-on_event r u = ground (arith, total-append w u.events (r ∷ []))

  held-station_address :
      (r : Request) (u : DeviceUnit)
      → held w (dev_cmd_get_station_address r u) ≡ held w u + w r.address
  unfolding dev_cmd_get_station_address
  held-station_address r u =
      held-term_io w (record r { src_addr = u.st_addr; dst_addr = u.st_addr }) u

  module _ (stack : Stack) (env : Environment) (memory : Bool) where
    held-perform :
        (c : Command) (r : Request) (u : DeviceUnit)
        → held w (perform stack env memory c r u) ≡ held w u + w r.address
    unfolding perform dev_cmd_flush
    held-perform cmd_write r u = held-write_packet w stack r u
    held-perform cmd_read r u = held-read_packet w r u
    held-perform s2_broadcast r u =
        held-write_packet w stack (record r { dst_addr = broadcast_address }) u
    held-perform s2_multicast r u = held-write_packet w stack r u
    held-perform cmd_flush r u = omega (arith, held-term_io w r (flush u), held-flush w u)
    held-perform s2_onevent r u = held-on_event r u
    held-perform s2_online r u = held-online env r u
    held-perform s2_offline r u = held-offline r u
    held-perform s2_devicequery r u = held-device_query r u
    held-perform s2_getstationaddress r u = held-station_address r u
    held-perform s2_configinterface r u = held-config_interface env r u
    held-perform s2_readorphan r u = held-read_orphan w r u
    held-perform s2_getglobalstats r u = held-glob_stats r u
    held-perform s2_tracktype r u = held-track memory r u
    held-perform s2_untracktype r u = held-untrack r u
    held-perform s2_getspecialstats r u = held-special_stats r u
    held-perform nscmd_devicequery r u = held-ns_query env r u
    held-perform s2_gettypestats r u = held-fail_io w r not_supported s2werr_generic_error u
    held-perform (other code) r u = held-fail_io w r not_supported s2werr_generic_error u

    -- For every weight of addresses, `PerformIO` of any command on any unit adds exactly the weight of
    -- its request to the total weight of the requests that wait in a queue of the unit or have been
    -- completed, whatever the stack, the environment and memory give.
    pub held-perform_io :
        (r : Request) (u : DeviceUnit)
        → held w (perform_io stack env memory r u) ≡ held w u + w r.address
    unfolding perform_io
    held-perform_io r u = held-perform r.command (record r { io_error = no_error }) u
