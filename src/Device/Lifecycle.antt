-- ===== src/Device/Lifecycle.antt =====
-- KSZ8851/devicedriver/device.c: `DeviceOpen`, `DeviceClose`, `DeviceExpunge`, `InitUnitProcess`,
-- `ExpungeUnit`, and the start of `DevProcEntry`.
use driver_amiga_os_ks.Prelude.{
  ℕ, ◌+◌, ◌-◌, Bool, true, false, not, ◌&&◌, List, [], ◌∷◌, ◌++◌, Option, none, some, has, bit_and,
  bit_or, ltb, ◌==◌, if◌then◌else◌, ◌%◌,
}
use driver_amiga_os_ks.Config.{Text, read_key_mac_address, fallback_mac_address}
use driver_amiga_os_ks.Chip.Init.{default_station_address}
use driver_amiga_os_ks.Device.Types.{
  BufferManagement, Callbacks, Completion, DeviceUnit, Request, no_error, nt_replymsg, openfail,
}
use driver_amiga_os_ks.Device.Receive.{has_entry}
use driver_amiga_os_ks.Device.Queues.{abort_req_list, rx_queue_of}

-- Bits that the driver keeps in `lib_Flags`, beside exec's own.
abbrev pub etheruf_exclusive : ℕ
etheruf_exclusive = 4

abbrev pub etheruf_loopback : ℕ
etheruf_loopback = 8

abbrev pub etheruf_promisc : ℕ
etheruf_promisc = 16

abbrev pub sana2opf_mine : ℕ
sana2opf_mine = 1

abbrev pub sana2opf_prom : ℕ
sana2opf_prom = 2

abbrev pub stack_size_minimum : ℕ
stack_size_minimum = 5000

abbrev pub ed_maxunits : ℕ
ed_maxunits = 1

-- `struct DeviceDriver`; `lib_OpenCnt` is a UWORD, as `unit_OpenCnt` is, and wraps. `gone` keeps the completions of units that have been freed.
pub record DeviceDriver : Type 0 where
  pub lib_open_cnt : ℕ
  pub lib_flags : ℕ
  pub device_unit : Option DeviceUnit
  pub gone : List Completion
  pub libraries_open : Bool
  pub is_expunged : Bool

-- The tags of the opener, `none` where a tag is missing.
pub record BufferTags : Type 0 where
  pub tag_copy_to_buff : Option ℕ
  pub tag_copy_to_buff16 : Option ℕ
  pub tag_copy_from_buff : Option ℕ
  pub tag_copy_from_buff16 : Option ℕ
  pub tag_packet_filter : Option ℕ
  pub tag_dma_copy_from_buff32 : Option ℕ
  pub tag_dma_copy_to_buff32 : Option ℕ

-- What the operating system and the hardware answer while a device is opened.
pub record OpenEnvironment : Type 0 where
  pub stack_size : ℕ  -- of the calling task
  pub probe_ok : Bool  -- `probe` gave NO_ERROR
  pub unit_started : Bool  -- the unit's memory, reply port and process could be made
  pub mac_tokens : Option (List Text)  -- the address in the configuration file
  pub memory : Option ℕ  -- the address of the new `BufferManagement`, `none` for NULL
  pub dummy_hook : ℕ  -- the address of `ed_DummyPFHook`
  pub dummy_entry : ℕ  -- the address of its field `h_Entry`

unfoldable pub check_stack_space : ℕ → ℕ → Bool
check_stack_space total min_stack_size = not (ltb total min_stack_size)

-- The unit as `InitUnitProcess` and the start of its process leave it.
unfoldable pub new_unit : Option (List Text) → DeviceUnit
new_unit mac_tokens = record {
  open_cnt = 0;
  is_config = false;
  is_online = false;
  mtu = 1500;
  st_addr = read_key_mac_address mac_tokens default_station_address fallback_mac_address;
  msg_port = [];
  tx = [];
  events = [];
  track = [];
  ip_track = false;
  buff_mgmt = [];
  read_orphan = [];
  on_packet_received = false;
  signal_number = 0;
  last_start_secs = 0;
  last_start_micro = 0;
  completed = [];
  low_level = [];
}

unfoldable pub init_unit_process : OpenEnvironment → Option DeviceUnit → Option DeviceUnit
init_unit_process env (some u) = some u
init_unit_process env none = if env.unit_started then some (new_unit env.mac_tokens) else none

-- A tag that is there replaces what the field holds.
abbrev pub tagged : Option ℕ → ℕ → ℕ
tagged none field = field
tagged (some a) field = a

-- The dummy function for a field that is NULL.
abbrev pub or_dummy : ℕ → ℕ → ℕ
or_dummy field dummy = if field == 0 then dummy else field

-- The entry's functions: those of the tags, the 16-bit one before the plain one, and the dummies where that
-- leaves NULL. The plain tags are looked at while the field is still NULL.
unfoldable pub callbacks_of : OpenEnvironment → ℕ → BufferTags → Callbacks
callbacks_of env id tags = record {
  id = id;
  copy_from_buffer =
      or_dummy (tagged tags.tag_copy_from_buff16 (tagged tags.tag_copy_from_buff 0))
        env.dummy_entry;
  copy_to_buffer =
      or_dummy (tagged tags.tag_copy_to_buff16 (tagged tags.tag_copy_to_buff 0)) env.dummy_entry;
  copy_from_buffer_dma = tags.tag_dma_copy_from_buff32;
  copy_to_buffer_dma = tags.tag_dma_copy_to_buff32;
  packet_filter_hook = or_dummy (tagged tags.tag_packet_filter 0) env.dummy_hook;
}

unfoldable pub open_failed : Request → Request
open_failed r = record r { io_error = openfail; is_open = false }

-- Whether the `s2flags` pass their checks (if not, `goto end`), and the flags after them. `open_cnt`
-- counts this call.
unfoldable pub check_flags : ℕ → ℕ → ℕ → Bool × ℕ
check_flags s2flags open_cnt flags =
    let mine = has s2flags sana2opf_mine in
    let flags' = if mine then bit_or flags etheruf_exclusive else flags in
    if mine && ltb 1 open_cnt
    then (false, flags)
    else if has s2flags sana2opf_prom
    then if mine then (true, bit_or flags' etheruf_promisc) else (false, flags')
    else (true, flags')

-- The names of the operating system's header that the code uses: LIBF_DELEXP.
module _ (libf_delexp : ℕ) where
  unfoldable pub open_with :
      Callbacks → Request → DeviceUnit → DeviceDriver → Request × DeviceDriver
  open_with callbacks r u d = (
    record r {
      has_buffer_management = true;
      buffer_management = callbacks;
      io_error = no_error;
      node_type = nt_replymsg;
      is_open = true;
    },
    record d {
      lib_open_cnt = (d.lib_open_cnt + 1) % 65536;
      lib_flags = bit_and d.lib_flags (255 - libf_delexp);
      device_unit = some (record u {
        buff_mgmt = u.buff_mgmt ++ record { callbacks = callbacks; rx_queue = [] } ∷ [];
        open_cnt = (u.open_cnt + 1) % 65536;
      });
    },
  )

  -- With the memory for the buffer management entry.
  unfoldable pub open_entry :
      Option ℕ
      → OpenEnvironment
      → BufferTags
      → Request
      → DeviceUnit
      → DeviceDriver
      → Request × DeviceDriver
  open_entry none env tags r u d = (open_failed r, record d { device_unit = some u })
  open_entry (some address) env tags r u d = open_with (callbacks_of env address tags) r u d

  -- With the unit that `InitUnitProcess` leaves.
  unfoldable pub open_unit :
      Option DeviceUnit
      → OpenEnvironment
      → BufferTags
      → Request
      → DeviceDriver
      → Request × DeviceDriver
  open_unit none env tags r d = (open_failed r, d)
  open_unit (some u) env tags r d = open_entry env.memory env tags r u d

  -- The part behind the flags: probing, the unit process, and the buffer management entry.
  unfoldable pub open_checked :
      OpenEnvironment → BufferTags → Request → DeviceDriver → Request × DeviceDriver
  open_checked env tags r d =
      if env.probe_ok
      then open_unit (init_unit_process env d.device_unit) env tags r d
      else (open_failed r, d)

  unfoldable pub open_flagged :
      OpenEnvironment → BufferTags → Request → Bool × ℕ → DeviceDriver → Request × DeviceDriver
  open_flagged env tags r (pass, flags) d =
      if pass
      then open_checked env tags r (record d { lib_flags = flags })
      else (open_failed r, record d { lib_flags = flags })

  -- `lib_OpenCnt` is one higher from the start of the call to its end.
  unfoldable pub open_counted :
      OpenEnvironment → BufferTags → Request → ℕ → ℕ → DeviceDriver → Request × DeviceDriver
  open_counted env tags r s2unit s2flags d =
      if check_stack_space env.stack_size stack_size_minimum && ltb s2unit ed_maxunits
      then open_flagged env tags r (check_flags s2flags d.lib_open_cnt d.lib_flags) d
      else (open_failed r, d)

  unfoldable pub device_open :
      OpenEnvironment → BufferTags → Request → ℕ → ℕ → DeviceDriver → Request × DeviceDriver
  device_open env tags r s2unit s2flags d =
      let (r', d') =
        open_counted env tags r s2unit s2flags
          (record d { lib_open_cnt = (d.lib_open_cnt + 1) % 65536 }) in
      (r', record d' { lib_open_cnt = (d'.lib_open_cnt + 65535) % 65536 })

  -- The flag tells whether a segment list is returned.
  unfoldable pub device_expunge : DeviceDriver → Bool × DeviceDriver
  device_expunge d =
      if d.lib_open_cnt == 0
      then (true, record d { is_expunged = true; libraries_open = false })
      else (false, record d { lib_flags = bit_or d.lib_flags libf_delexp; libraries_open = false })

  -- The unit's process ends and its memory is freed.
  unfoldable pub expunge_unit : DeviceUnit → DeviceDriver → DeviceDriver
  expunge_unit u d = record d { device_unit = none; gone = u.completed ++ d.gone }

  unfoldable pub remove_entry : ℕ → List BufferManagement → List BufferManagement
  remove_entry id [] = []
  remove_entry id (bm ∷ bms) =
      let rest = bm ∷ remove_entry id bms in if bm.callbacks.id == id then bms else rest

  -- The reads of the closing request's entry are aborted, and the entry is removed.
  unfoldable pub close_entry : Request → DeviceUnit → DeviceUnit
  close_entry r u =
      let id = r.buffer_management.id in
      if r.has_buffer_management
      then abort_req_list (rx_queue_of id u.buff_mgmt)
          (record u { buff_mgmt = remove_entry id u.buff_mgmt })
      else u

  -- The pointer is set to NULL when its entry is found.
  unfoldable pub closed_request : Request → DeviceUnit → Request
  closed_request r u = record r {
    has_buffer_management =
        r.has_buffer_management && not (has_entry r.buffer_management.id u.buff_mgmt);
    is_open = false;
  }

  unfoldable pub cleared_flags : ℕ → ℕ
  cleared_flags flags =
      bit_and (bit_and (bit_and flags (255 - etheruf_exclusive)) (255 - etheruf_loopback))
        (255 - etheruf_promisc)

  unfoldable pub close_unit : DeviceUnit → DeviceDriver → DeviceDriver
  close_unit u d =
      let d' = record d {
        lib_flags = cleared_flags d.lib_flags;
        lib_open_cnt = (d.lib_open_cnt + 65535) % 65536;
      } in
      let u' = record u { open_cnt = (u.open_cnt + 65535) % 65536 } in
      if u'.open_cnt == 0 then expunge_unit u' d' else record d' { device_unit = some u' }

  unfoldable pub finish_close : DeviceDriver → Bool × DeviceDriver
  finish_close d = if has d.lib_flags libf_delexp then device_expunge d else (false, d)

  -- An open request has a unit.
  unfoldable pub close_opened :
      Option DeviceUnit → Request → DeviceDriver → Request × Bool × DeviceDriver
  close_opened none r d = (r, false, d)
  close_opened (some u) r d =
      let (expunged, d') = finish_close (close_unit (close_entry r u) d) in
      (closed_request r u, expunged, d')

  -- The request, the flag of the segment list, and the device.
  unfoldable pub device_close : Request → DeviceDriver → Request × Bool × DeviceDriver
  device_close r d = if r.is_open then close_opened d.device_unit r d else (r, false, d)
