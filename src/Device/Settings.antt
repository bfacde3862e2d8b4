-- ===== src/Device/Settings.antt =====
-- The settings of a unit as a machine of their own, and what the parts of device.c do to them.
pub mod Refinement
pub mod Invariants
use driver_amiga_os_ks.Prelude.{
  Bool, ℕ, List, if◌then◌else◌, ◌≡◌, ◌++◌, Bool-cases, [], ap, arith, false, refl, true, ◌∷◌, ◌==◌,
  not, ◌∙◌, inl, ◌&&◌, inr, ◌||◌,
}
use driver_amiga_os_ks.Device.Types.{
  DeviceUnit, fail_io, Command, Request, IoError, term_io, nt_message, s2event_offline,
  s2event_online, online, s2event_tx, init, mtu_exceeded, s2event_buff, s2werr_generic_error,
  s2_online, s2_offline, s2_configinterface, s2_tracktype, s2_untracktype,
}
use driver_amiga_os_ks.Device.Stack.{Stack}
use driver_amiga_os_ks.Device.Queues.{do_event, fire_all, fire, flush}
use driver_amiga_os_ks.Device.Commands.{go_offline, go_online, Environment, is_tracked, untrack}
use driver_amiga_os_ks.Device.Transmit.{
  dev_cmd_write_packet, finish_write, low_level_call, send_all, send_raw, send_all_packets,
  send_cooked, send_one,
}
use driver_amiga_os_ks.Device.Flushing.{flush_lem}

pub record Settings : Type 0 where
  pub is_config : Bool
  pub is_online : Bool
  pub mtu : ℕ
  pub st_addr : List ℕ
  pub track : List ℕ
  pub ip_track : Bool
  pub open_cnt : ℕ

abbrev pub settings : DeviceUnit → Settings
settings u = record {
  is_config = u.is_config;
  is_online = u.is_online;
  mtu = u.mtu;
  st_addr = u.st_addr;
  track = u.track;
  ip_track = u.ip_track;
  open_cnt = u.open_cnt;
}

-- The specification: the settings after a command. `memory` is whether an allocation succeeds.
unfoldable pub next : Bool → Command → Request → Settings → Settings
next memory s2_online r s = if s.is_config then record s { is_online = true } else s
next memory s2_offline r s = record s { is_online = false }
next memory s2_configinterface r s =
    if s.is_config then s else record s { is_config = true; is_online = true; st_addr = r.src_addr }
next memory s2_tracktype r s =
    if not (is_tracked r.packet_type s.track) && memory
    then record s {
      track = s.track ++ r.packet_type ∷ [];
      ip_track = s.ip_track || r.packet_type == 2048;
    }
    else s
next memory s2_untracktype r s =
    if is_tracked r.packet_type s.track
    then record s {
      track = untrack r.packet_type s.track;
      ip_track = s.ip_track && not (r.packet_type == 2048);
    }
    else s
next memory _ r s = s

settings-fire_all :
    (events : ℕ) (rs : List Request) (u : DeviceUnit) → settings (fire_all events rs u) ≡ settings u
unfolding fire_all fire term_io
settings-fire_all events [] u = refl
settings-fire_all events (r ∷ rs) u = settings-fire_all events rs (fire events r u) ∙ ground arith

pub settings-do_event : (events : ℕ) (u : DeviceUnit) → settings (do_event events u) ≡ settings u
unfolding do_event
settings-do_event events u = settings-fire_all events u.events (record u { events = [] })

pub settings-fail_io :
    (r : Request) (e : IoError) (w : ℕ) (u : DeviceUnit) → settings (fail_io r e w u) ≡ settings u
unfolding fail_io
settings-fail_io r e w u = refl

pub settings-flush : (u : DeviceUnit) → settings (flush u) ≡ settings u
settings-flush u = ap settings (flush_lem u)

module _ (stack : Stack) where
  settings-send :
      (raw : Bool) (r : Request) (u : DeviceUnit)
      → settings (if raw then send_raw stack r u else send_cooked stack r u).1 ≡ settings u
  unfolding send_raw send_cooked low_level_call
  settings-send true r u = ground arith
  settings-send false r u = ground arith

  settings-finish_write :
      (p : Request × DeviceUnit) → settings (finish_write stack p) ≡ settings p.1
  unfolding finish_write term_io
  settings-finish_write (r, u) = elim (Bool-cases (r.wire_error == 0)) [
    | inl e ↦ ap (λ b. settings (if b then u else do_event s2event_buff u)) e
    | inr e ↦
        ap (λ b. settings (if b then u else do_event s2event_buff u)) e
        ∙ settings-do_event s2event_buff u
  ]

  settings-send_all :
      (rs : List Request) (u : DeviceUnit) → settings (send_all stack rs u) ≡ settings u
  unfolding send_all send_one
  settings-send_all [] u = refl
  settings-send_all (r ∷ rs) u =
      let sent = if r.raw then send_raw stack r u else send_cooked stack r u in
      settings-send_all rs (finish_write stack sent)
      ∙ settings-finish_write sent
      ∙ settings-send r.raw r u

  pub settings-dev_cmd_write_packet :
      (r : Request) (u : DeviceUnit) → settings (dev_cmd_write_packet stack r u) ≡ settings u
  unfolding dev_cmd_write_packet send_all_packets fail_io term_io
  settings-dev_cmd_write_packet r u =
      let tx = u.tx ++ record r { quick = false; node_type = nt_message } ∷ [] in
      ground (
        arith,
        settings-send_all tx (record u { tx = [] }),
        settings-do_event s2event_tx (fail_io r mtu_exceeded s2werr_generic_error u),
      )

pub settings-go_online :
    (env : Environment) (u : DeviceUnit)
    → settings (go_online env u) ≡ record (settings u) { is_online = true }
unfolding go_online low_level_call
settings-go_online env u =
    ap (λ s. s)
      (settings-do_event s2event_online (record u {
        on_packet_received = true;
        low_level = online ∷ init ∷ u.low_level;
        signal_number = env.used_signal_number;
        is_online = true;
      }))

pub settings-go_offline :
    (u : DeviceUnit) → settings (go_offline u) ≡ record (settings u) { is_online = false }
unfolding go_offline low_level_call
settings-go_offline u =
    settings-flush (do_event s2event_offline (record u { is_online = false }))
    ∙ settings-do_event s2event_offline (record u { is_online = false })
