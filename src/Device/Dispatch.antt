-- ===== src/Device/Dispatch.antt =====
-- KSZ8851/devicedriver/device.c: `DeviceBeginIO`, `PerformIO` and the service loop of
-- `DevProcEntry`.
use driver_amiga_os_ks.Prelude.{
  ℕ, Bool, true, false, List, [], ◌∷◌, ◌++◌, some, leb, Option, if◌then◌else◌,
}
use driver_amiga_os_ks.Device.Types.{
  Command, DeviceUnit, Request, LowLevelCall, deinit, cmd_flush, cmd_read, cmd_write, fail_io,
  no_error, not_supported, nscmd_devicequery, nt_message, other, s2_broadcast, s2_configinterface,
  s2_devicequery, s2_getglobalstats, s2_getspecialstats, s2_getstationaddress, s2_gettypestats,
  s2_multicast, s2_offline, s2_onevent, s2_online, s2_readorphan, s2_tracktype, s2_untracktype,
  s2werr_generic_error,
}
use driver_amiga_os_ks.Config.{Text, read_key_mac_address, fallback_mac_address}
use driver_amiga_os_ks.Device.Stack.{Stack}
use driver_amiga_os_ks.Device.Queues.{dev_cmd_flush}
use driver_amiga_os_ks.Device.Transmit.{low_level_call, dev_cmd_write_packet}
use driver_amiga_os_ks.Device.Receive.{
  broadcast_address, dev_cmd_read_packet, dev_cmd_read_orphan, on_pkt_received,
}
use driver_amiga_os_ks.Device.Commands.{
  Environment, dev_cmd_config_interface, dev_cmd_device_query, dev_cmd_get_special_stats,
  dev_cmd_get_station_address, dev_cmd_glob_stats, dev_cmd_ns_device_query, dev_cmd_offline,
  dev_cmd_on_event, dev_cmd_online, dev_cmd_track_type, dev_cmd_un_track_type,
}

-- What wakes the unit process up, with the frames that the low level driver has for it and the
-- address that the configuration file then holds.
pub record Wakeup : Type 0 where
  pub break_f : Bool
  pub low_level_signal : Bool
  pub port_signal : Bool
  pub config_signal : Bool
  pub frames : List (List ℕ × ℕ)
  pub mac_tokens : Option (List Text)

-- The end of the service loop.
unfoldable pub leave_service_loop : DeviceUnit → DeviceUnit
leave_service_loop u = low_level_call deinit (record u { is_online = false })

-- What `ReadConfig` does to the unit after a change of the file; Config/Reading has the whole of it.
unfoldable pub reread_config : Option (List Text) → DeviceUnit → DeviceUnit
reread_config tokens u = record u {
  st_addr = read_key_mac_address tokens u.st_addr fallback_mac_address;
}

-- `((1L << Cmd) & PERFORM_NOW) || (Cmd >= NSCMD_DEVICEQUERY)`; a shift by 32 or more, which C leaves
-- undefined, gives 0 here.
unfoldable pub is_performed_now : Command → Bool
is_performed_now cmd_write = true
is_performed_now cmd_read = true
is_performed_now s2_broadcast = true
is_performed_now s2_readorphan = true
is_performed_now s2_multicast = true
is_performed_now nscmd_devicequery = true
is_performed_now (other code) = leb 0x4000 code
is_performed_now _ = false

module _ (stack : Stack) (env : Environment) (memory : Bool) where
  -- The `switch` of `PerformIO`.
  unfoldable pub perform : Command → Request → DeviceUnit → DeviceUnit
  perform cmd_write r u = dev_cmd_write_packet stack r u
  perform cmd_read r u = dev_cmd_read_packet r u
  perform s2_broadcast r u =
      dev_cmd_write_packet stack (record r { dst_addr = broadcast_address }) u
  perform s2_multicast r u = dev_cmd_write_packet stack r u
  perform cmd_flush r u = dev_cmd_flush (some r) u
  perform s2_onevent r u = dev_cmd_on_event r u
  perform s2_online r u = dev_cmd_online env r u
  perform s2_offline r u = dev_cmd_offline (some r) u
  perform s2_devicequery r u = dev_cmd_device_query r u
  perform s2_getstationaddress r u = dev_cmd_get_station_address r u
  perform s2_configinterface r u = dev_cmd_config_interface env r u
  perform s2_readorphan r u = dev_cmd_read_orphan r u
  perform s2_getglobalstats r u = dev_cmd_glob_stats r u
  perform s2_tracktype r u = dev_cmd_track_type memory r u
  perform s2_untracktype r u = dev_cmd_un_track_type r u
  perform s2_getspecialstats r u = dev_cmd_get_special_stats r u
  perform nscmd_devicequery r u = dev_cmd_ns_device_query env r u
  perform s2_gettypestats r u = fail_io r not_supported s2werr_generic_error u
  perform (other code) r u = fail_io r not_supported s2werr_generic_error u

  unfoldable pub perform_io : Request → DeviceUnit → DeviceUnit
  perform_io r u = perform r.command (record r { io_error = no_error }) u

  unfoldable pub device_begin_io : Request → DeviceUnit → DeviceUnit
  device_begin_io r u = if is_performed_now r.command then perform_io r u else record u {
    msg_port = u.msg_port ++ record r { node_type = nt_message; quick = false } ∷ [];
  }

  unfoldable pub perform_all : List Request → DeviceUnit → DeviceUnit
  perform_all [] u = u
  perform_all (r ∷ rs) u = perform_all rs (perform_io r u)

  -- `while ((ios2 = GetMsg(etherUnit)) != NULL) PerformIO(…)`
  unfoldable pub serve_port : DeviceUnit → DeviceUnit
  serve_port u = perform_all u.msg_port (record u { msg_port = [] })

  -- The frames that the low level driver hands over in one `processEvents`.
  unfoldable pub receive_all : List (List ℕ × ℕ) → DeviceUnit → DeviceUnit
  receive_all [] u = u
  receive_all ((packet, size) ∷ frames) u =
      receive_all frames (if u.on_packet_received then on_pkt_received stack packet size u else u)

  unfoldable pub process_events : List (List ℕ × ℕ) → DeviceUnit → DeviceUnit
  process_events frames u = receive_all frames (low_level_call LowLevelCall.process_events u)

  -- One round of the service loop. The flag tells whether the loop goes on.
  unfoldable pub service_round : Wakeup → DeviceUnit → Bool × DeviceUnit
  service_round w u =
      if w.break_f
      then (false, leave_service_loop u)
      else let u₁ = if w.low_level_signal then process_events w.frames u else u in
        let u₂ = if w.port_signal then serve_port u₁ else u₁ in
        (true, if w.config_signal then reread_config w.mac_tokens u₂ else u₂)
