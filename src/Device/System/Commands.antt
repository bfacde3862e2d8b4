-- ===== src/Device/System/Commands.antt =====
-- `PerformIO` keeps a unit sound.
use driver_amiga_os_ks.Prelude.{
  Bool, ◌≡◌, true, refl, ℕ, leb, if◌then◌else◌, false, arith, ◌==◌, subst, sym, [], ◌++◌, ◌∷◌, ◌&&◌,
  not, some, List,
}
use driver_amiga_os_ks.Device.Stack.{Stack}
use driver_amiga_os_ks.Device.Types.{
  fail_io, term_io, Request, DeviceUnit, IoError, s2event_buff, nt_message, s2event_tx,
  mtu_exceeded, s2werr_generic_error, outofservice, s2werr_unit_offline, set_network_address,
  bad_state, Command, bad_argument, s2werr_is_configured, s2werr_not_configured, cmd_write,
  s2_broadcast, s2_multicast, cmd_flush, s2_online, s2_offline, s2_configinterface, s2_onevent,
  cmd_read, s2_readorphan, no_error,
}
use driver_amiga_os_ks.Device.Transmit.{
  send_raw, send_cooked, low_level_call, dev_cmd_write_packet, finish_write, send_all_packets,
  send_all, send_one, put_packet, send_next,
}
use driver_amiga_os_ks.Device.System.Sound.{
  IsSound, do_event-IsSound, if-IsSound, all_waiting-append, go_offline-IsSound, go_online-IsSound,
  flush-IsSound,
}
use driver_amiga_os_ks.Device.Writing.{all_fit, all_fit-send_raw, all_fit-send_cooked, all_short}
use driver_amiga_os_ks.Device.Queues.{do_event, dev_cmd_flush, flush}
use driver_amiga_os_ks.Device.Settings.Invariants.{Consistent, next-Consistent}
use driver_amiga_os_ks.Device.Commands.{
  Environment, dev_cmd_config_interface, dev_cmd_offline, dev_cmd_on_event, dev_cmd_online,
  already_happened, go_offline, go_online, dev_cmd_device_query, dev_cmd_get_station_address,
  dev_cmd_glob_stats, dev_cmd_track_type, dev_cmd_un_track_type, dev_cmd_get_special_stats,
  dev_cmd_ns_device_query,
}
use driver_amiga_os_ks.Device.Receive.{
  dev_cmd_read_orphan, dev_cmd_read_packet, has_entry, broadcast_address,
}
use driver_amiga_os_ks.Device.Dispatch.{perform, perform_all, perform_io}
use driver_amiga_os_ks.Device.Settings.{settings}
use driver_amiga_os_ks.Device.Settings.Refinement.{settings-perform}

term_io-IsSound : (r : Request) (u : DeviceUnit) → IsSound u → IsSound (term_io r u)
unfolding term_io
term_io-IsSound r u s = s

fail_io-IsSound :
    (r : Request) (e : IoError) (wire : ℕ) (u : DeviceUnit)
    → IsSound u
    → IsSound (fail_io r e wire u)
unfolding fail_io term_io
fail_io-IsSound r e wire u s = s

-- A change of the low level calls alone.
calls-IsSound :
    (v u : DeviceUnit)
    → v ≡ record u { low_level = v.low_level }
    → all_fit v.low_level ≡ true
    → IsSound u
    → IsSound v
calls-IsSound v u e f (m, t, g, c, w) = subst IsSound (sym e) (m, t, f, c, w)

pub all_short-append :
    (limit : ℕ) (rs : List Request) (r : Request)
    → all_short limit rs ≡ true
    → leb r.data_length limit ≡ true
    → all_short limit (rs ++ r ∷ []) ≡ true
all_short-append limit [] r h k = ground arith
all_short-append limit (x ∷ xs) r h k = ground (arith, all_short-append limit xs r)

pub put_packet-IsSound :
    (r : Request) (u : DeviceUnit)
    → leb r.data_length u.mtu ≡ true
    → IsSound u
    → IsSound (put_packet r u)
put_packet-IsSound r u l (m, t, f, c, w) = (
  m,
  all_short-append 1500 u.tx (record r { quick = false; node_type = nt_message }) t (ground arith),
  f,
  c,
  w,
)

module _ (stack : Stack) where
  sent-IsSound :
      (raw : Bool) (r : Request) (u : DeviceUnit)
      → leb r.data_length 2000 ≡ true
      → IsSound u
      → IsSound (if raw then send_raw stack r u else send_cooked stack r u).1
  unfolding send_raw send_cooked low_level_call
  sent-IsSound true r u h s =
      calls-IsSound (send_raw stack r u).1 u (ground arith) (all_fit-send_raw stack r u h s.2) s
  sent-IsSound false r u h s =
      calls-IsSound (send_cooked stack r u).1 u (ground arith) (all_fit-send_cooked stack r u s.2) s

  finish_write-IsSound : (p : Request × DeviceUnit) → IsSound p.1 → IsSound (finish_write stack p)
  unfolding finish_write
  finish_write-IsSound (r, u) s =
      term_io-IsSound r (if r.wire_error == 0 then u else do_event s2event_buff u)
        (if-IsSound (r.wire_error == 0) _ _ (λ e. s) (λ e. do_event-IsSound s2event_buff u s))

  -- Whoever takes a packet out of the queue.
  pub send_one-IsSound :
      (r : Request) (u : DeviceUnit)
      → leb r.data_length 1500 ≡ true
      → IsSound u
      → IsSound (send_one stack r u)
  unfolding send_one
  send_one-IsSound r u h s =
      finish_write-IsSound (if r.raw then send_raw stack r u else send_cooked stack r u)
        (sent-IsSound r.raw r u (ground arith) s)

  send_all-IsSound :
      (rs : List Request) (u : DeviceUnit)
      → all_short 1500 rs ≡ true
      → IsSound u
      → IsSound (send_all stack rs u)
  unfolding send_all
  send_all-IsSound [] u h s = s
  send_all-IsSound (r ∷ rs) u h s =
      send_all-IsSound rs (send_one stack r u) (ground arith)
        (send_one-IsSound r u (ground arith) s)

  pub send_next-IsSound : (u : DeviceUnit) → IsSound u → IsSound (send_next stack u)
  unfolding send_next
  send_next-IsSound u (m, t, f, c, w) = next u.tx t
    where
      next :
          (rs : List Request)
          → all_short 1500 rs ≡ true
          → IsSound (elim rs [ [] ↦ u | r ∷ rs ↦ send_one stack r (record u { tx = rs }) ])
      next [] h = (m, t, f, c, w)
      next (r ∷ rs) h =
          send_one-IsSound r (record u { tx = rs }) (ground arith) (m, ground arith, f, c, w)

  write_packet-IsSound :
      (r : Request) (u : DeviceUnit) → IsSound u → IsSound (dev_cmd_write_packet stack r u)
  unfolding dev_cmd_write_packet send_all_packets
  write_packet-IsSound r u s =
      let queued = record r { quick = false; node_type = nt_message } in
      let empty = record u { tx = [] } in
      if-IsSound u.is_online _ _
        (λ online.
          if-IsSound (leb r.data_length u.mtu) _ _
            (λ short.
              send_all-IsSound (u.tx ++ queued ∷ []) empty
                (all_short-append 1500 u.tx queued s.1 (ground (arith, s.0)))
                (s.0, refl, s.2, s.3, s.4))
            (λ long.
              do_event-IsSound s2event_tx (fail_io r mtu_exceeded s2werr_generic_error u)
                (fail_io-IsSound r mtu_exceeded s2werr_generic_error u s)))
        (λ offline. fail_io-IsSound r outofservice s2werr_unit_offline u s)

online-IsSound :
    (env : Environment) (r : Request) (u : DeviceUnit)
    → IsSound u
    → IsSound (dev_cmd_online env r u)
unfolding dev_cmd_online
online-IsSound env r u s =
    if-IsSound (not u.is_config) _ _ (λ e. fail_io-IsSound r bad_state s2werr_not_configured u s)
      (λ e.
        if-IsSound (not u.is_online) _ _
          (λ k. term_io-IsSound r (go_online env u) (go_online-IsSound env u (ground arith) s))
          (λ k. term_io-IsSound r u s))

offline-IsSound : (r : Request) (u : DeviceUnit) → IsSound u → IsSound (dev_cmd_offline (some r) u)
unfolding dev_cmd_offline
offline-IsSound r u s =
    term_io-IsSound r (if u.is_online then go_offline u else u)
      (if-IsSound u.is_online _ _ (λ e. go_offline-IsSound u s) (λ e. s))

config_interface-IsSound :
    (env : Environment) (r : Request) (u : DeviceUnit)
    → IsSound u
    → IsSound (dev_cmd_config_interface env r u)
unfolding dev_cmd_config_interface low_level_call
config_interface-IsSound env r u (m, t, f, (o, d, i), w) =
    let configured = record u {
      st_addr = r.src_addr;
      is_config = true;
      low_level = set_network_address r.src_addr ∷ u.low_level;
    } in
    if-IsSound (not u.is_config) _ _
      (λ e. online-IsSound env r configured (m, t, ground arith, (ground arith, d, i), w))
      (λ e. fail_io-IsSound r bad_state s2werr_is_configured u (m, t, f, (o, d, i), w))

-- A change of the tracked types and the completions alone.
answered-IsSound :
    (v u : DeviceUnit)
    → v ≡ record u { track = v.track; ip_track = v.ip_track; completed = v.completed }
    → Consistent (settings v)
    → IsSound u
    → IsSound v
answered-IsSound v u e k (m, t, f, c, w) =
    subst IsSound (sym e) (m, t, f, subst (λ x. Consistent (settings x)) e k, w)

on_event-IsSound : (r : Request) (u : DeviceUnit) → IsSound u → IsSound (dev_cmd_on_event r u)
unfolding dev_cmd_on_event term_io
on_event-IsSound r u (m, t, f, c, w) =
    if-IsSound (already_happened r.wire_error u.is_online) _ _ (λ e. (m, t, f, c, w))
      (λ e. (m, t, f, c, all_waiting-append u.is_online u.events r w e))

read_packet-IsSound : (r : Request) (u : DeviceUnit) → IsSound u → IsSound (dev_cmd_read_packet r u)
unfolding dev_cmd_read_packet
read_packet-IsSound r u s =
    if-IsSound u.is_online _ _
      (λ online.
        if-IsSound (r.has_buffer_management && has_entry r.buffer_management.id u.buff_mgmt) _ _
          (λ e. s) (λ e. fail_io-IsSound r bad_argument s2werr_generic_error u s))
      (λ e. fail_io-IsSound r outofservice s2werr_unit_offline u s)

read_orphan-IsSound : (r : Request) (u : DeviceUnit) → IsSound u → IsSound (dev_cmd_read_orphan r u)
unfolding dev_cmd_read_orphan
read_orphan-IsSound r u s =
    if-IsSound u.is_online _ _ (λ e. s)
      (λ e. fail_io-IsSound r outofservice s2werr_unit_offline u s)

module _ (stack : Stack) (env : Environment) (memory : Bool) where
  perform-IsSound :
      (c : Command) (r : Request) (u : DeviceUnit)
      → IsSound u
      → IsSound (perform stack env memory c r u)
  unfolding perform dev_cmd_flush dev_cmd_device_query dev_cmd_get_station_address
      dev_cmd_glob_stats dev_cmd_track_type dev_cmd_un_track_type dev_cmd_get_special_stats
      dev_cmd_ns_device_query fail_io term_io
  perform-IsSound cmd_write r u s = write_packet-IsSound stack r u s
  perform-IsSound s2_broadcast r u s =
      write_packet-IsSound stack (record r { dst_addr = broadcast_address }) u s
  perform-IsSound s2_multicast r u s = write_packet-IsSound stack r u s
  perform-IsSound cmd_flush r u s = term_io-IsSound r (flush u) (flush-IsSound u s)
  perform-IsSound s2_online r u s = online-IsSound env r u s
  perform-IsSound s2_offline r u s = offline-IsSound r u s
  perform-IsSound s2_configinterface r u s = config_interface-IsSound env r u s
  perform-IsSound s2_onevent r u s = on_event-IsSound r u s
  perform-IsSound cmd_read r u s = read_packet-IsSound r u s
  perform-IsSound s2_readorphan r u s = read_orphan-IsSound r u s
  perform-IsSound c r u s =
      answered-IsSound (perform stack env memory c r u) u (ground arith)
        (subst Consistent (sym (settings-perform stack env memory c r u))
          (next-Consistent memory c r (settings u) s.3))
        s

  pub perform_io-IsSound :
      (r : Request) (u : DeviceUnit) → IsSound u → IsSound (perform_io stack env memory r u)
  unfolding perform_io
  perform_io-IsSound r u s = perform-IsSound r.command (record r { io_error = no_error }) u s

  pub perform_all-IsSound :
      (rs : List Request) (u : DeviceUnit) → IsSound u → IsSound (perform_all stack env memory rs u)
  unfolding perform_all
  perform_all-IsSound [] u s = s
  perform_all-IsSound (r ∷ rs) u s =
      perform_all-IsSound rs (perform_io stack env memory r u) (perform_io-IsSound r u s)
