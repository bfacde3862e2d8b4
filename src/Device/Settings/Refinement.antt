-- ===== src/Device/Settings/Refinement.antt =====
-- The commands of device.c against the machine of the settings.
use driver_amiga_os_ks.Device.Stack.{Stack}
use driver_amiga_os_ks.Device.Commands.{
  dev_cmd_config_interface, dev_cmd_device_query, dev_cmd_offline, dev_cmd_online,
  dev_cmd_track_type, dev_cmd_un_track_type, Environment, dev_cmd_glob_stats,
  dev_cmd_get_special_stats, dev_cmd_ns_device_query, dev_cmd_get_station_address, dev_cmd_on_event,
}
use driver_amiga_os_ks.Device.Queues.{dev_cmd_flush}
use driver_amiga_os_ks.Device.Settings.{
  next, settings, settings-dev_cmd_write_packet, settings-flush, settings-fail_io,
  settings-go_offline, settings-go_online,
}
use driver_amiga_os_ks.Device.Types.{
  term_io, Request, fail_io, DeviceUnit, Command, no_error, s2_configinterface, s2_offline,
  s2_online, s2_tracktype, s2_untracktype, set_network_address, not_supported, s2werr_generic_error,
  other, cmd_write, s2_broadcast, s2_multicast, cmd_flush, s2_devicequery, s2_getglobalstats,
  s2_getspecialstats, nscmd_devicequery, s2_onevent, cmd_read, s2_readorphan, s2_getstationaddress,
  s2_gettypestats,
}
use driver_amiga_os_ks.Prelude.{Bool, some, ◌≡◌, arith, true, ◌∷◌, refl}
use driver_amiga_os_ks.Device.Transmit.{low_level_call}
use driver_amiga_os_ks.Device.Dispatch.{perform, perform_io}
use driver_amiga_os_ks.Device.Receive.{dev_cmd_read_packet, dev_cmd_read_orphan, broadcast_address}

settings-dev_cmd_online :
    (env : Environment) (memory : Bool) (r : Request) (u : DeviceUnit)
    → settings (dev_cmd_online env r u) ≡ next memory s2_online r (settings u)
unfolding dev_cmd_online next fail_io term_io
settings-dev_cmd_online env memory r u = ground (arith, settings-go_online env u)

settings-dev_cmd_offline :
    (memory : Bool) (r : Request) (u : DeviceUnit)
    → settings (dev_cmd_offline (some r) u) ≡ next memory s2_offline r (settings u)
unfolding dev_cmd_offline next term_io
settings-dev_cmd_offline memory r u = ground (arith, settings-go_offline u)

settings-dev_cmd_config_interface :
    (env : Environment) (memory : Bool) (r : Request) (u : DeviceUnit)
    → settings (dev_cmd_config_interface env r u) ≡ next memory s2_configinterface r (settings u)
unfolding dev_cmd_config_interface next fail_io term_io low_level_call
settings-dev_cmd_config_interface env memory r u =
    let configured = record u {
      st_addr = r.src_addr;
      is_config = true;
      low_level = set_network_address r.src_addr ∷ u.low_level;
    } in
    ground (arith, settings-dev_cmd_online env memory r configured)

settings-dev_cmd_track_type :
    (memory : Bool) (r : Request) (u : DeviceUnit)
    → settings (dev_cmd_track_type memory r u) ≡ next memory s2_tracktype r (settings u)
unfolding dev_cmd_track_type next fail_io term_io
settings-dev_cmd_track_type memory r u = ground arith

settings-dev_cmd_un_track_type :
    (memory : Bool) (r : Request) (u : DeviceUnit)
    → settings (dev_cmd_un_track_type r u) ≡ next memory s2_untracktype r (settings u)
unfolding dev_cmd_un_track_type next fail_io term_io
settings-dev_cmd_un_track_type memory r u = ground arith

settings-dev_cmd_flush :
    (r : Request) (u : DeviceUnit) → settings (dev_cmd_flush (some r) u) ≡ settings u
unfolding dev_cmd_flush term_io
settings-dev_cmd_flush r u = settings-flush u

-- The commands that only answer.
settings-answers :
    (env : Environment) (r : Request) (u : DeviceUnit)
    → (settings (dev_cmd_device_query r u) ≡ settings u)
      × (settings (dev_cmd_glob_stats r u) ≡ settings u)
      × (settings (dev_cmd_get_special_stats r u) ≡ settings u)
      × (settings (dev_cmd_ns_device_query env r u) ≡ settings u)
      × (settings (dev_cmd_on_event r u) ≡ settings u)
      × (settings (dev_cmd_read_packet r u) ≡ settings u)
      × (settings (dev_cmd_read_orphan r u) ≡ settings u)
unfolding dev_cmd_device_query dev_cmd_glob_stats dev_cmd_get_special_stats dev_cmd_ns_device_query
    dev_cmd_on_event dev_cmd_read_packet dev_cmd_read_orphan fail_io term_io
settings-answers env r u = (
  ground arith,
  ground arith,
  ground arith,
  ground arith,
  ground arith,
  ground arith,
  ground arith,
)

module _ (stack : Stack) (env : Environment) (memory : Bool) where
  pub settings-perform :
      (c : Command) (r : Request) (u : DeviceUnit)
      → settings (perform stack env memory c r u) ≡ next memory c r (settings u)
  unfolding perform next dev_cmd_get_station_address term_io
  settings-perform cmd_write r u = settings-dev_cmd_write_packet stack r u
  settings-perform s2_broadcast r u =
      settings-dev_cmd_write_packet stack (record r { dst_addr = broadcast_address }) u
  settings-perform s2_multicast r u = settings-dev_cmd_write_packet stack r u
  settings-perform cmd_flush r u = settings-dev_cmd_flush r u
  settings-perform s2_online r u = settings-dev_cmd_online env memory r u
  settings-perform s2_offline r u = settings-dev_cmd_offline memory r u
  settings-perform s2_configinterface r u = settings-dev_cmd_config_interface env memory r u
  settings-perform s2_tracktype r u = settings-dev_cmd_track_type memory r u
  settings-perform s2_untracktype r u = settings-dev_cmd_un_track_type memory r u
  settings-perform s2_devicequery r u = (settings-answers env r u).0
  settings-perform s2_getglobalstats r u = (settings-answers env r u).1
  settings-perform s2_getspecialstats r u = (settings-answers env r u).2
  settings-perform nscmd_devicequery r u = (settings-answers env r u).3
  settings-perform s2_onevent r u = (settings-answers env r u).4
  settings-perform cmd_read r u = (settings-answers env r u).5
  settings-perform s2_readorphan r u = (settings-answers env r u).6
  settings-perform s2_getstationaddress r u = refl
  settings-perform s2_gettypestats r u = settings-fail_io r not_supported s2werr_generic_error u
  settings-perform (other code) r u = settings-fail_io r not_supported s2werr_generic_error u

  -- `PerformIO` refines the machine of the settings: for every request and unit, the settings after
  -- the command are the next settings of the machine, whatever the queues hold and the stack's
  -- callbacks answer.
  pub settings-perform_io :
      (r : Request) (u : DeviceUnit)
      → settings (perform_io stack env memory r u)
        ≡ next memory r.command (record r { io_error = no_error }) (settings u)
  unfolding perform_io
  settings-perform_io r u = settings-perform r.command (record r { io_error = no_error }) u
