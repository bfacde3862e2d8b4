-- ===== src/Device/Tests/Data.antt =====
-- A concrete network stack, unit and device.
use driver_amiga_os_ks.Device.Lifecycle.{
  BufferTags, DeviceDriver, OpenEnvironment, new_unit, callbacks_of,
}
use driver_amiga_os_ks.Device.Types.{
  Callbacks, Command, DeviceUnit, Request, cmd_read, cmd_write, s2_onevent, s2_readorphan,
  nt_message, s2_tracktype, IoError, s2_configinterface,
}
use driver_amiga_os_ks.Device.Commands.{Environment}
use driver_amiga_os_ks.Prelude.{List, false, none, some, true, ℕ, ◌∷◌, [], if◌then◌else◌, ◌==◌}
use driver_amiga_os_ks.Device.Stack.{Stack}
use driver_amiga_os_ks.Device.Dispatch.{Wakeup}
use driver_amiga_os_ks.Device.System.{asm_dev_open, asm_dev_init}

abbrev pub full_stack : Stack
full_stack = record {
  copy_from_buffer = λ function r n. some (1 ∷ 2 ∷ 3 ∷ []);
  copy_to_buffer = λ function r bytes n. true;
  call_filter_hook = λ hook r bytes. true;
  copy_from_buffer_dma = λ function r. none;
}

abbrev pub morning : Environment
morning = record { used_signal_number = 5; ds_days = 1; ds_minute = 2; ds_tick = 3; long_at_4 = 0 }

abbrev pub opener : Callbacks
opener = record {
  id = 100;
  copy_from_buffer = 1;
  copy_to_buffer = 2;
  copy_from_buffer_dma = none;
  copy_to_buffer_dma = none;
  packet_filter_hook = 3;
}

abbrev pub request_for : Command → ℕ → Request
request_for command address = record {
  address = address;
  is_open = true;
  command = command;
  node_type = nt_message;
  reply_port = true;
  quick = false;
  raw = false;
  bcast = false;
  mcast = false;
  io_error = IoError.no_error;
  wire_error = 0;
  packet_type = 2048;
  data_length = 64;
  dst_addr = 1 ∷ 2 ∷ 3 ∷ 4 ∷ 5 ∷ 6 ∷ [];
  src_addr = 2 ∷ 0 ∷ 0 ∷ 0 ∷ 0 ∷ 9 ∷ [];
  has_buffer_management = true;
  buffer_management = opener;
  device_query = none;
  device_stats = none;
  special_stats = none;
  ns_query = none;
  io_length = 0;
  io_actual = 0;
}

abbrev pub read_7 : Request
read_7 = request_for cmd_read 7

abbrev pub orphan_8 : Request
orphan_8 = request_for s2_readorphan 8

abbrev pub event_9 : Request
event_9 = record (request_for s2_onevent 9) { wire_error = 8 }

abbrev pub write_10 : Request
write_10 = request_for cmd_write 10

-- An online unit of one opener, with a read, an orphan read and an event request.
abbrev pub busy_unit : DeviceUnit
busy_unit = record {
  open_cnt = 1;
  is_config = true;
  is_online = true;
  mtu = 1500;
  st_addr = 2 ∷ 0x34 ∷ 0x56 ∷ 0x78 ∷ 0x9a ∷ 0xbc ∷ [];
  msg_port = request_for s2_tracktype 11 ∷ [];
  tx = [];
  events = event_9 ∷ [];
  track = 2054 ∷ [];
  ip_track = false;
  buff_mgmt = record { callbacks = opener; rx_queue = read_7 ∷ [] } ∷ [];
  read_orphan = orphan_8 ∷ [];
  on_packet_received = true;
  signal_number = 5;
  last_start_secs = 0;
  last_start_micro = 0;
  completed = [];
  low_level = [];
}

-- A frame with the type of ARP, 2054, which the read request of `busy_unit` does not take.
abbrev pub arp_frame : List ℕ
arp_frame = 2 ∷ 0x34 ∷ 0x56 ∷ 0x78 ∷ 0x9a ∷ 0xbc ∷ 2 ∷ 0 ∷ 0 ∷ 0 ∷ 0 ∷ 1 ∷ 8 ∷ 6 ∷ 1 ∷ 2 ∷ []

abbrev pub ip_frame : List ℕ
ip_frame = 2 ∷ 0x34 ∷ 0x56 ∷ 0x78 ∷ 0x9a ∷ 0xbc ∷ 2 ∷ 0 ∷ 0 ∷ 0 ∷ 0 ∷ 1 ∷ 8 ∷ 0 ∷ 1 ∷ 2 ∷ []

abbrev pub all_at_once : Wakeup
all_at_once = record {
  break_f = false;
  low_level_signal = true;
  port_signal = true;
  config_signal = true;
  frames = (ip_frame, 60) ∷ (arp_frame, 60) ∷ [];
  mac_tokens = none;
}

abbrev pub open_driver : DeviceDriver
open_driver = record {
  lib_open_cnt = 1;
  lib_flags = 8;
  device_unit = some busy_unit;
  gone = [];
  libraries_open = true;
  is_expunged = false;
}

abbrev pub no_tags : BufferTags
no_tags = record {
  tag_copy_to_buff = some 2;
  tag_copy_to_buff16 = none;
  tag_copy_from_buff = some 1;
  tag_copy_from_buff16 = none;
  tag_packet_filter = none;
  tag_dma_copy_from_buff32 = none;
  tag_dma_copy_to_buff32 = none;
}

abbrev pub healthy : OpenEnvironment
healthy = record {
  stack_size = 8192;
  probe_ok = true;
  unit_started = true;
  mac_tokens = none;
  memory = some 200;
  dummy_hook = 300;
  dummy_entry = 308;
}

-- The first opening after the device has been loaded.
abbrev pub opened : DeviceDriver
opened = (asm_dev_open 8 healthy no_tags read_7 0 0 (asm_dev_init 2 4)).1

abbrev pub opened_unit : DeviceUnit
opened_unit = record (new_unit none) {
  open_cnt = 1;
  buff_mgmt = record { callbacks = callbacks_of healthy 200 no_tags; rx_queue = [] } ∷ [];
}

abbrev pub configure_12 : Request
configure_12 = request_for s2_configinterface 12

-- Counts the requests at one address.
abbrev pub at_seven : ℕ → ℕ
at_seven a = if a == 7 then 1 else 0

-- A unit of one opener, which waits for nothing.
abbrev pub waiting_unit : DeviceUnit
waiting_unit = record busy_unit { buff_mgmt = record { callbacks = opener; rx_queue = [] } ∷ [] }
