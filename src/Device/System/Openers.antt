-- ===== src/Device/System/Openers.antt =====
-- Who has opened the unit: only `DeviceOpen` and `DeviceClose` change it.
use driver_amiga_os_ks.Prelude.{
  Bool, ◌≡◌, true, false, refl, some, [], ◌∷◌, if-holds, List, ℕ, ◌==◌, ap, arith, map, ◌++◌,
  if◌then◌else◌, ◌∙◌,
}
use driver_amiga_os_ks.Device.Types.{
  DeviceUnit, BufferManagement, Callbacks, Request, fail_io, term_io, s2event_offline,
  s2event_online, nt_message, online, s2event_buff, set_network_address, init, no_error, s2event_tx,
  mtu_exceeded, s2werr_generic_error, Command, cmd_write, s2_broadcast, s2_multicast, cmd_flush,
  s2_online, s2_offline, s2_configinterface, cmd_read,
}
use driver_amiga_os_ks.Device.Stack.{Stack}
use driver_amiga_os_ks.Device.Commands.{
  dev_cmd_config_interface, dev_cmd_offline, dev_cmd_online, go_offline, go_online, Environment,
  dev_cmd_device_query, dev_cmd_get_station_address, dev_cmd_glob_stats, dev_cmd_track_type,
  dev_cmd_un_track_type, dev_cmd_get_special_stats, dev_cmd_ns_device_query, dev_cmd_on_event,
}
use driver_amiga_os_ks.Device.Receive.{
  dev_cmd_read_packet, enqueue_read, dev_cmd_read_orphan, broadcast_address,
}
use driver_amiga_os_ks.Device.Transmit.{
  dev_cmd_write_packet, finish_write, low_level_call, send_all, send_raw, send_all_packets,
  send_cooked, send_one, send_next,
}
use driver_amiga_os_ks.Device.Queues.{do_event, flush, dev_cmd_flush, emptied}
use driver_amiga_os_ks.Device.Dispatch.{
  device_begin_io, perform, perform_all, perform_io, is_performed_now,
}
use driver_amiga_os_ks.Device.Events.{do_event_lem}
use driver_amiga_os_ks.Device.Flushing.{flush_lem}

abbrev pub callbacks_of_all : List BufferManagement → List Callbacks
callbacks_of_all bms = map (λ bm. bm.callbacks) bms

-- The count of the openings, and the functions of each entry.
abbrev pub openers : DeviceUnit → ℕ × List Callbacks
openers u = (u.open_cnt, callbacks_of_all u.buff_mgmt)

-- `v` has the openers of `u`.
abbrev pub Keeps : DeviceUnit → DeviceUnit → Type 0
Keeps u v = openers v ≡ openers u

pub do_event-Keeps : (events : ℕ) (u : DeviceUnit) → Keeps u (do_event events u)
do_event-Keeps events u = ap openers (do_event_lem events u)

callbacks-emptied :
    (bms : List BufferManagement) → callbacks_of_all (map emptied bms) ≡ callbacks_of_all bms
callbacks-emptied [] = refl
callbacks-emptied (bm ∷ bms) = ap (λ cs. bm.callbacks ∷ cs) (callbacks-emptied bms)

flush-Keeps : (u : DeviceUnit) → Keeps u (flush u)
flush-Keeps u =
    ap openers (flush_lem u) ∙ ap (λ cs. (u.open_cnt, cs)) (callbacks-emptied u.buff_mgmt)

module _ (stack : Stack) where
  sent-Keeps :
      (raw : Bool) (r : Request) (u : DeviceUnit)
      → Keeps u (if raw then send_raw stack r u else send_cooked stack r u).1
  unfolding send_raw send_cooked low_level_call
  sent-Keeps true r u =
      let v = (send_raw stack r u).1 in
      let e : v ≡ record u { low_level = v.low_level } = ground arith in ap openers e
  sent-Keeps false r u =
      let v = (send_cooked stack r u).1 in
      let e : v ≡ record u { low_level = v.low_level } = ground arith in ap openers e

  finish_write-Keeps : (p : Request × DeviceUnit) → Keeps (p.1) (finish_write stack p)
  unfolding finish_write term_io
  finish_write-Keeps (r, u) =
      if-holds (Keeps u) (r.wire_error == 0) u (do_event s2event_buff u) refl
        (do_event-Keeps s2event_buff u)

  send_all-Keeps : (rs : List Request) (u : DeviceUnit) → Keeps u (send_all stack rs u)
  unfolding send_all send_one
  send_all-Keeps [] u = refl
  send_all-Keeps (r ∷ rs) u =
      let sent = if r.raw then send_raw stack r u else send_cooked stack r u in
      send_all-Keeps rs (finish_write stack sent) ∙ finish_write-Keeps sent ∙ sent-Keeps r.raw r u

  pub send_next-Keeps : (u : DeviceUnit) → Keeps u (send_next stack u)
  unfolding send_next send_all
  send_next-Keeps u = next u.tx
    where
      next :
          (rs : List Request)
          → Keeps u (elim rs [ [] ↦ u | r ∷ rs ↦ send_one stack r (record u { tx = rs }) ])
      next [] = refl
      next (r ∷ rs) = send_all-Keeps (r ∷ []) (record u { tx = rs })

  write_packet-Keeps : (r : Request) (u : DeviceUnit) → Keeps u (dev_cmd_write_packet stack r u)
  unfolding dev_cmd_write_packet send_all_packets fail_io term_io
  write_packet-Keeps r u =
      let queue = u.tx ++ record r { quick = false; node_type = nt_message } ∷ [] in
      ground (
        arith,
        send_all-Keeps queue (record u { tx = [] }),
        do_event-Keeps s2event_tx (fail_io r mtu_exceeded s2werr_generic_error u),
      )

go_online-Keeps : (env : Environment) (u : DeviceUnit) → Keeps u (go_online env u)
unfolding go_online low_level_call
go_online-Keeps env u = do_event-Keeps s2event_online (record u {
  on_packet_received = true;
  low_level = online ∷ init ∷ u.low_level;
  signal_number = env.used_signal_number;
  is_online = true;
})

go_offline-Keeps : (u : DeviceUnit) → Keeps u (go_offline u)
unfolding go_offline low_level_call
go_offline-Keeps u =
    let down = record u { is_online = false } in
    flush-Keeps (do_event s2event_offline down) ∙ do_event-Keeps s2event_offline down

online-Keeps : (env : Environment) (r : Request) (u : DeviceUnit) → Keeps u (dev_cmd_online env r u)
unfolding dev_cmd_online fail_io term_io
online-Keeps env r u = ground (arith, go_online-Keeps env u)

offline-Keeps : (r : Request) (u : DeviceUnit) → Keeps u (dev_cmd_offline (some r) u)
unfolding dev_cmd_offline term_io
offline-Keeps r u = ground (arith, go_offline-Keeps u)

config_interface-Keeps :
    (env : Environment) (r : Request) (u : DeviceUnit) → Keeps u (dev_cmd_config_interface env r u)
unfolding dev_cmd_config_interface fail_io term_io low_level_call
config_interface-Keeps env r u = ground (
  arith,
  online-Keeps env r (record u {
    st_addr = r.src_addr;
    low_level = set_network_address r.src_addr ∷ u.low_level;
    is_config = true;
  }),
)

pub callbacks-enqueue_read :
    (r : Request) (bms : List BufferManagement)
    → callbacks_of_all (enqueue_read r bms) ≡ callbacks_of_all bms
unfolding enqueue_read
callbacks-enqueue_read r [] = refl
callbacks-enqueue_read r (bm ∷ bms) = ground (arith, callbacks-enqueue_read r bms)

read_packet-Keeps : (r : Request) (u : DeviceUnit) → Keeps u (dev_cmd_read_packet r u)
unfolding dev_cmd_read_packet fail_io term_io
read_packet-Keeps r u =
    ground (arith, callbacks-enqueue_read (record r { node_type = nt_message }) u.buff_mgmt)

module _ (stack : Stack) (env : Environment) (memory : Bool) where
  perform-Keeps :
      (c : Command) (r : Request) (u : DeviceUnit) → Keeps u (perform stack env memory c r u)
  unfolding perform dev_cmd_flush dev_cmd_device_query dev_cmd_get_station_address
      dev_cmd_glob_stats dev_cmd_track_type dev_cmd_un_track_type dev_cmd_get_special_stats
      dev_cmd_ns_device_query dev_cmd_on_event dev_cmd_read_orphan fail_io term_io
  perform-Keeps cmd_write r u = write_packet-Keeps stack r u
  perform-Keeps s2_broadcast r u =
      write_packet-Keeps stack (record r { dst_addr = broadcast_address }) u
  perform-Keeps s2_multicast r u = write_packet-Keeps stack r u
  perform-Keeps cmd_flush r u = flush-Keeps u
  perform-Keeps s2_online r u = online-Keeps env r u
  perform-Keeps s2_offline r u = offline-Keeps r u
  perform-Keeps s2_configinterface r u = config_interface-Keeps env r u
  perform-Keeps cmd_read r u = read_packet-Keeps r u
  perform-Keeps _ r u = ground arith

  pub perform_all-Keeps :
      (rs : List Request) (u : DeviceUnit) → Keeps u (perform_all stack env memory rs u)
  unfolding perform_all perform_io
  perform_all-Keeps [] u = refl
  perform_all-Keeps (r ∷ rs) u =
      perform_all-Keeps rs (perform_io stack env memory r u)
      ∙ perform-Keeps r.command (record r { io_error = no_error }) u

  pub begin_io-Keeps :
      (r : Request) (u : DeviceUnit) → Keeps u (device_begin_io stack env memory r u)
  unfolding device_begin_io perform_io
  begin_io-Keeps r u =
      if-holds (Keeps u) (is_performed_now r.command) (perform_io stack env memory r u)
        (record u {
          msg_port = u.msg_port ++ record r { node_type = nt_message; quick = false } ∷ [];
        })
        (perform-Keeps r.command (record r { io_error = no_error }) u) refl
