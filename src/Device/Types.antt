-- ===== src/Device/Types.antt =====
-- KSZ8851/devicedriver/device.h and the part of os_includes/sana/devices/sana2.h that it uses: the
-- I/O request, the buffer management entry, the device unit, and `TermIO` of device.c.
--
-- A request stands in at most one list of the driver at a time and the driver reaches it only from
-- there, so the lists hold the requests themselves; `address` is the pointer by which the code
-- compares them. Exec's lists are lists, head first.
use driver_amiga_os_ks.Prelude.{ℕ, Bool, List, ◌∷◌, Option, if◌then◌else◌}

-- `io_Command`, by name; `other` is a code that no `case` names.
pub data Command : Type 0 where
  cmd_read cmd_write cmd_flush s2_devicequery s2_getstationaddress s2_configinterface : Command
  s2_multicast s2_broadcast s2_tracktype s2_untracktype s2_gettypestats : Command
  s2_getspecialstats s2_getglobalstats s2_onevent s2_readorphan s2_online s2_offline : Command
  nscmd_devicequery : Command
  other : ℕ → Command

-- `io_Error`: the S2ERR and IOERR codes that the driver stores or returns.
pub data IoError : Type 0 where
  no_error no_resources bad_argument bad_state bad_address mtu_exceeded not_supported : IoError
  software outofservice aborted openfail nocmd : IoError

-- `ln_Type` of the message node.
pub data NodeType : Type 0 where
  nt_message nt_replymsg nt_other : NodeType

-- `ios2_WireError` is a number: S2_ONEVENT keeps its event mask there.
abbrev pub s2werr_generic_error : ℕ
s2werr_generic_error = 0

abbrev pub s2werr_not_configured : ℕ
s2werr_not_configured = 1

abbrev pub s2werr_unit_offline : ℕ
s2werr_unit_offline = 3

abbrev pub s2werr_already_tracked : ℕ
s2werr_already_tracked = 4

abbrev pub s2werr_not_tracked : ℕ
s2werr_not_tracked = 5

abbrev pub s2werr_buff_error : ℕ
s2werr_buff_error = 6

abbrev pub s2werr_bad_multicast : ℕ
s2werr_bad_multicast = 10

abbrev pub s2werr_is_configured : ℕ
s2werr_is_configured = 15

abbrev pub s2werr_null_pointer : ℕ
s2werr_null_pointer = 16

abbrev pub s2event_tx : ℕ
s2event_tx = 2

abbrev pub s2event_online : ℕ
s2event_online = 8

abbrev pub s2event_offline : ℕ
s2event_offline = 16

abbrev pub s2event_buff : ℕ
s2event_buff = 32

-- The buffer management functions of a `BufferManagement`, which never change after `DeviceOpen`,
-- as the pointers that they are; `id` is the address of the entry.
pub record Callbacks : Type 0 where
  pub id : ℕ
  pub copy_from_buffer : ℕ
  pub copy_to_buffer : ℕ
  pub copy_from_buffer_dma : Option ℕ
  pub copy_to_buffer_dma : Option ℕ
  pub packet_filter_hook : ℕ

-- `struct Sana2DeviceQuery`
pub record DeviceQuery : Type 0 where
  pub size_available : ℕ
  pub size_supplied : ℕ
  pub addr_field_size : ℕ
  pub mtu : ℕ
  pub bps : ℕ
  pub hardware_type : ℕ

-- `struct Sana2DeviceStats`
pub record DeviceStats : Type 0 where
  pub packets_received : ℕ
  pub packets_sent : ℕ
  pub bad_data : ℕ
  pub overruns : ℕ
  pub unknown_types_received : ℕ
  pub reconfigurations : ℕ
  pub last_start_secs : ℕ
  pub last_start_micro : ℕ

-- `struct Sana2SpecialStatRecord` without the name
pub record SpecialStat : Type 0 where
  pub kind : ℕ
  pub count : ℕ

-- `struct Sana2SpecialStatHeader` and the records supplied behind it
pub record SpecialStats : Type 0 where
  pub record_count_max : ℕ
  pub record_count_supplied : ℕ
  pub records : List SpecialStat

-- `struct NSDeviceQueryResult`
pub record NsDeviceQueryResult : Type 0 where
  pub dev_query_format : ℕ
  pub ns_size_available : ℕ
  pub device_type : ℕ
  pub device_sub_type : ℕ
  pub supported_commands : List Command

-- `struct IOSana2Req`. Of `io_Flags` the bits that the driver reads or writes are fields. The memory
-- at `ios2_StatData` (or `io_Data`) stands in one field for each type that a command takes it for,
-- `none` for NULL.
pub record Request : Type 0 where
  pub address : ℕ
  pub is_open : Bool  -- whether `io_Device` and `io_Unit` are not -1
  pub command : Command
  pub node_type : NodeType
  pub reply_port : Bool
  pub quick : Bool
  pub raw : Bool
  pub bcast : Bool
  pub mcast : Bool
  pub io_error : IoError
  pub wire_error : ℕ
  pub packet_type : ℕ
  pub data_length : ℕ
  pub dst_addr : List ℕ
  pub src_addr : List ℕ
  pub has_buffer_management : Bool  -- whether `ios2_BufferManagement` is not NULL
  pub buffer_management : Callbacks  -- what it points at
  pub device_query : Option DeviceQuery
  pub device_stats : Option DeviceStats
  pub special_stats : Option SpecialStats
  pub ns_query : Option NsDeviceQueryResult
  pub io_length : ℕ
  pub io_actual : ℕ

pub record BufferManagement : Type 0 where
  pub callbacks : Callbacks
  pub rx_queue : List Request

-- What `TermIO` did with a request: `ReplyMsg`, nothing for a quick request, or `Alert(1)`.
pub data Completion : Type 0 where
  replied : Request → Completion
  returned_quick : Request → Completion
  alerted : Request → Completion

-- A call of the low level driver through `NetInterface`.
pub data LowLevelCall : Type 0 where
  send_packet : List ℕ → ℕ → LowLevelCall
  send_packet_cooked : List ℕ → List ℕ → ℕ → List ℕ → ℕ → LowLevelCall
  init online offline process_events deinit : LowLevelCall
  set_network_address : List ℕ → LowLevelCall

-- `struct DeviceDriverUnit`. `eu_State` is its two bits that are ever set. `completed` and
-- `low_level` are the completions and the calls so far, the newest first.
pub record DeviceUnit : Type 0 where
  pub open_cnt : ℕ
  pub is_config : Bool
  pub is_online : Bool
  pub mtu : ℕ
  pub st_addr : List ℕ
  pub msg_port : List Request
  pub tx : List Request
  pub events : List Request
  pub track : List ℕ
  pub ip_track : Bool
  pub buff_mgmt : List BufferManagement
  pub read_orphan : List Request
  pub on_packet_received : Bool
  pub signal_number : ℕ
  pub last_start_secs : ℕ
  pub last_start_micro : ℕ
  pub completed : List Completion
  pub low_level : List LowLevelCall

unfoldable pub term_io : Request → DeviceUnit → DeviceUnit
term_io r u = record u {
  completed =
      (if r.quick then returned_quick r else if r.reply_port then replied r else alerted r)
      ∷ u.completed;
}

-- `setErrorOnRequest`
abbrev pub set_error_on_request : Request → IoError → ℕ → Request
set_error_on_request r e w = record r { io_error = e; wire_error = w }

-- `TermIO` of a request with its two error fields set.
unfoldable pub fail_io : Request → IoError → ℕ → DeviceUnit → DeviceUnit
unfolding term_io
fail_io r e w u = term_io (set_error_on_request r e w) u
