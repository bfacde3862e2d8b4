-- ===== src/Device/Commands.antt =====
-- KSZ8851/devicedriver/device.c: the commands that neither send nor receive.
use driver_amiga_os_ks.Prelude.{
  ℕ, ◌+◌, ◌*◌, ◌%◌, ◌^◌, Bool, true, false, not, ◌&&◌, ◌||◌, List, [], ◌∷◌, ◌++◌, Option, none,
  some, has, bit_and, ltb, leb, ◌==◌, if◌then◌else◌,
}
use driver_amiga_os_ks.Device.Types.{
  Command, DeviceQuery, DeviceStats, DeviceUnit, NsDeviceQueryResult, Request, SpecialStats,
  bad_argument, bad_state, cmd_flush, cmd_read, cmd_write, fail_io, init, no_error,
  nscmd_devicequery, offline, online, s2_broadcast, s2_configinterface, s2_devicequery,
  s2_getglobalstats, s2_getstationaddress, s2_multicast, s2_offline, s2_onevent, s2_online,
  s2_readorphan, s2_tracktype, s2_untracktype, s2event_offline, s2event_online,
  s2werr_already_tracked, s2werr_generic_error, s2werr_is_configured, s2werr_not_configured,
  s2werr_not_tracked, s2werr_null_pointer, set_network_address, term_io,
}
use driver_amiga_os_ks.Device.Queues.{do_event, flush}
use driver_amiga_os_ks.Device.Transmit.{low_level_call}

-- What the operating system and the low level driver answer during a command.
pub record Environment : Type 0 where
  pub used_signal_number : ℕ  -- `getUsedSignalNumber`
  pub ds_days : ℕ  -- `DateStamp`
  pub ds_minute : ℕ
  pub ds_tick : ℕ
  pub long_at_4 : ℕ  -- the long word at address 4, which a NULL query structure has as its size

unfoldable pub go_online : Environment → DeviceUnit → DeviceUnit
go_online env u =
    let called =
      low_level_call online (low_level_call init (record u { on_packet_received = true })) in
    let up = record called { signal_number = env.used_signal_number; is_online = true } in
    let fired = do_event s2event_online up in
    record fired {
      last_start_secs = (env.ds_days * 24 * 60 * 60 + env.ds_minute * 60) % 2 ^ 32;
      last_start_micro = env.ds_tick;
    }

unfoldable pub dev_cmd_online : Environment → Request → DeviceUnit → DeviceUnit
dev_cmd_online env r u =
    if not u.is_config
    then fail_io r bad_state s2werr_not_configured u
    else if not u.is_online
    then term_io r (go_online env u)
    else term_io r u

unfoldable pub go_offline : DeviceUnit → DeviceUnit
go_offline u =
    low_level_call offline (flush (do_event s2event_offline (record u { is_online = false })))

-- A NULL request is possible here.
unfoldable pub dev_cmd_offline : Option Request → DeviceUnit → DeviceUnit
dev_cmd_offline none u = if u.is_online then go_offline u else u
dev_cmd_offline (some r) u = term_io r (if u.is_online then go_offline u else u)

-- `sizeof(struct Sana2DeviceQuery)` with the 2-byte alignment of the 68000
abbrev pub device_query_size : ℕ
device_query_size = 30

unfoldable pub fill_device_query : ℕ → DeviceQuery → DeviceQuery
fill_device_query mtu q = record q {
  addr_field_size = 48;
  mtu = mtu;
  bps = 10000000;
  hardware_type = 1;
  size_supplied = 30;
}

unfoldable pub dev_cmd_device_query : Request → DeviceUnit → DeviceUnit
dev_cmd_device_query r u = elim r.device_query [
  | some q ↦
      if leb device_query_size q.size_available
      then term_io (record r { device_query = some (fill_device_query u.mtu q) }) u
      else fail_io r bad_argument s2werr_generic_error u
  | none ↦ fail_io r bad_argument s2werr_null_pointer u
]

unfoldable pub dev_cmd_get_station_address : Request → DeviceUnit → DeviceUnit
dev_cmd_get_station_address r u =
    term_io (record r { src_addr = u.st_addr; dst_addr = u.st_addr }) u

unfoldable pub dev_cmd_config_interface : Environment → Request → DeviceUnit → DeviceUnit
dev_cmd_config_interface env r u =
    if not u.is_config
    then dev_cmd_online env r
        (record (low_level_call (set_network_address r.src_addr)
          (record u { st_addr = r.src_addr })) { is_config = true })
    else fail_io r bad_state s2werr_is_configured u

unfoldable pub is_tracked : ℕ → List ℕ → Bool
is_tracked packet_type [] = false
is_tracked packet_type (t ∷ ts) = packet_type == t || is_tracked packet_type ts

-- `memory` tells whether `AllocMem` succeeds.
unfoldable pub dev_cmd_track_type : Bool → Request → DeviceUnit → DeviceUnit
dev_cmd_track_type memory r u =
    if is_tracked r.packet_type u.track
    then fail_io r bad_state s2werr_already_tracked u
    else if memory
    then term_io r (record u {
      ip_track = u.ip_track || r.packet_type == 2048;
      track = u.track ++ r.packet_type ∷ [];
    })
    else term_io r u

unfoldable pub untrack : ℕ → List ℕ → List ℕ
untrack packet_type [] = []
untrack packet_type (t ∷ ts) =
    let rest = t ∷ untrack packet_type ts in if packet_type == t then ts else rest

unfoldable pub dev_cmd_un_track_type : Request → DeviceUnit → DeviceUnit
dev_cmd_un_track_type r u =
    if is_tracked r.packet_type u.track
    then term_io r (record u {
      ip_track = u.ip_track && not (r.packet_type == 2048);
      track = untrack r.packet_type u.track;
    })
    else fail_io r bad_state s2werr_not_tracked u

-- The counters of `GlobStat` are never written and stay 0.
unfoldable pub glob_stats : DeviceUnit → DeviceStats
glob_stats u = record {
  packets_received = 0;
  packets_sent = 0;
  bad_data = 0;
  overruns = 0;
  unknown_types_received = 0;
  reconfigurations = 0;
  last_start_secs = u.last_start_secs;
  last_start_micro = u.last_start_micro;
}

unfoldable pub dev_cmd_glob_stats : Request → DeviceUnit → DeviceUnit
dev_cmd_glob_stats r u = elim r.device_stats [
  | some _ ↦ term_io (record r { device_stats = some (glob_stats u) }) u
  | none ↦ fail_io r bad_argument s2werr_null_pointer u
]

-- Whether the unit is already in a state that the request waits for.
unfoldable pub already_happened : ℕ → Bool → Bool
already_happened mask is_online =
    has mask s2event_online && is_online || has mask s2event_offline && not is_online

unfoldable pub dev_cmd_on_event : Request → DeviceUnit → DeviceUnit
dev_cmd_on_event r u =
    if already_happened r.wire_error u.is_online
    then term_io (record r { io_error = no_error; wire_error = bit_and r.wire_error 24 }) u
    else record u { events = u.events ++ r ∷ [] }

-- The flag is the result of `DevAddSpecialStat`.
unfoldable pub dev_add_special_stat : SpecialStats → ℕ → ℕ → SpecialStats × Bool
dev_add_special_stat s kind count =
    if ltb s.record_count_supplied s.record_count_max
    then (
      record s {
        record_count_supplied = s.record_count_supplied + 1;
        records = s.records ++ record { kind = kind; count = count } ∷ [];
      },
      true,
    )
    else (s, false)

unfoldable pub dev_cmd_get_special_stats : Request → DeviceUnit → DeviceUnit
dev_cmd_get_special_stats r u = elim r.special_stats [
  | some s ↦
      let cleared = record s { record_count_supplied = 0; records = [] } in
      term_io (record r { special_stats = some (dev_add_special_stat cleared 1 0).0 }) u
  | none ↦ fail_io r bad_argument s2werr_null_pointer u
]

-- `auwSupportCmds`
abbrev pub supported_cmds : List Command
supported_cmds =
    cmd_read ∷ cmd_write ∷ cmd_flush ∷ s2_devicequery ∷ s2_getstationaddress ∷ s2_configinterface
    ∷ s2_multicast ∷ s2_broadcast ∷ s2_tracktype ∷ s2_untracktype ∷ s2_getglobalstats ∷ s2_onevent
    ∷ s2_readorphan ∷ s2_online ∷ s2_offline ∷ nscmd_devicequery ∷ []

-- `sizeof(struct NSDeviceQueryResult)` and NSDEVTYPE_SANA2
abbrev pub ns_query_size : ℕ
ns_query_size = 16

unfoldable pub fill_ns_query : NsDeviceQueryResult
fill_ns_query = record {
  dev_query_format = 0;
  ns_size_available = ns_query_size;
  device_type = 7;
  device_sub_type = 0;
  supported_commands = supported_cmds;
}

unfoldable pub dev_cmd_ns_device_query : Environment → Request → DeviceUnit → DeviceUnit
dev_cmd_ns_device_query env r u = elim r.ns_query [
  | some q ↦
      if leb ns_query_size r.io_length
      then term_io (record r { ns_query = some fill_ns_query; io_actual = ns_query_size }) u
      else term_io (record r { io_actual = q.ns_size_available }) u
  | none ↦ term_io (record r { io_actual = env.long_at_4 }) u
]
