-- ===== src/Device/System/Sound.antt =====
-- What holds of every unit, and the parts of device.c that the commands share.
use driver_amiga_os_ks.Prelude.{
  Bool, List, ℕ, ◌≡◌, [], map, subst, true, false, if◌then◌else◌, sym, ◌∷◌, ◌++◌, arith, not, refl,
  ◌&&◌, ◌*◌, ◌+◌, ◌%◌, ◌^◌, Option, some, none,
}
use driver_amiga_os_ks.Device.Types.{
  DeviceUnit, BufferManagement, Request, s2event_online, s2event_offline, offline, online, init,
  LowLevelCall,
}
use driver_amiga_os_ks.Device.Commands.{already_happened, go_offline, go_online, Environment}
use driver_amiga_os_ks.Device.Queues.{do_event, flush, emptied}
use driver_amiga_os_ks.Device.Events.{unfired, do_event_lem}
use driver_amiga_os_ks.Device.Writing.{all_fit, fits, all_short}
use driver_amiga_os_ks.Device.Settings.Invariants.{Consistent}
use driver_amiga_os_ks.Device.Flushing.{flush_lem}
use driver_amiga_os_ks.Device.Settings.{settings}
use driver_amiga_os_ks.Device.Transmit.{low_level_call}

-- No request waits for a state that the unit is in already.
abbrev pub all_waiting : Bool → List Request → Bool
all_waiting is_online [] = true
all_waiting is_online (r ∷ rs) =
    not (already_happened r.wire_error is_online) && all_waiting is_online rs

abbrev pub no_reads : List BufferManagement → Bool
no_reads [] = true
no_reads (bm ∷ bms) = elim bm.rx_queue [ [] ↦ no_reads bms | _ ↦ false ]

-- Every packet that waits to be sent and every low level call has a size that fits, the settings are
-- consistent with an MTU of 1500, and no event request waits in vain.
abbrev pub IsOrderly : DeviceUnit → Type 0
IsOrderly u =
    (u.mtu ≡ 1500)
    × (all_short 1500 u.tx ≡ true)
    × (all_fit u.low_level ≡ true)
    × Consistent (settings u)
    × (all_waiting u.is_online u.events ≡ true)

abbrev pub IsSound : DeviceUnit → Type 0
IsSound u = IsOrderly u

pub if-IsSound :
    (b : Bool) (v u : DeviceUnit)
    → (b ≡ true → IsSound v)
    → (b ≡ false → IsSound u)
    → IsSound (if b then v else u)
if-IsSound true v u h k = h refl
if-IsSound false v u h k = k refl

all_waiting-unfired :
    (is_online : Bool) (events : ℕ) (rs : List Request)
    → all_waiting is_online rs ≡ true
    → all_waiting is_online (unfired events rs) ≡ true
all_waiting-unfired is_online events [] h = refl
all_waiting-unfired is_online events (r ∷ rs) h =
    ground (arith, all_waiting-unfired is_online events rs)

pub all_waiting-append :
    (is_online : Bool) (rs : List Request) (r : Request)
    → all_waiting is_online rs ≡ true
    → already_happened r.wire_error is_online ≡ false
    → all_waiting is_online (rs ++ r ∷ []) ≡ true
all_waiting-append is_online [] r h k = ground arith
all_waiting-append is_online (x ∷ xs) r h k = ground (arith, all_waiting-append is_online xs r)

pub no_reads-emptied : (bms : List BufferManagement) → no_reads (map emptied bms) ≡ true
no_reads-emptied [] = refl
no_reads-emptied (bm ∷ bms) = no_reads-emptied bms

-- After the event of the state that the unit enters, nobody waits for that state.
all_waiting-entered :
    (is_online : Bool) (rs : List Request)
    → all_waiting is_online (unfired (if is_online then s2event_online else s2event_offline) rs)
      ≡ true
unfolding already_happened
all_waiting-entered true [] = refl
all_waiting-entered false [] = refl
all_waiting-entered true (r ∷ rs) = ground (arith, all_waiting-entered true rs)
all_waiting-entered false (r ∷ rs) = ground (arith, all_waiting-entered false rs)

pub do_event-IsSound : (events : ℕ) (u : DeviceUnit) → IsSound u → IsSound (do_event events u)
do_event-IsSound events u (m, t, f, c, w) =
    subst IsSound (sym (do_event_lem events u))
      (m, t, f, c, all_waiting-unfired u.is_online events u.events w)

pub do_event-IsOrderly : (events : ℕ) (u : DeviceUnit) → IsOrderly u → IsOrderly (do_event events u)
do_event-IsOrderly events u (m, t, f, c, w) =
    subst IsOrderly (sym (do_event_lem events u))
      (m, t, f, c, all_waiting-unfired u.is_online events u.events w)

pub flush-IsSound : (u : DeviceUnit) → IsOrderly u → IsSound (flush u)
flush-IsSound u (m, t, f, c, w) = subst IsSound (sym (flush_lem u)) (m, refl, f, c, refl)

pub go_online-IsSound :
    (env : Environment) (u : DeviceUnit)
    → u.is_config ≡ true
    → IsSound u
    → IsSound (go_online env u)
unfolding go_online low_level_call
go_online-IsSound env u k (m, t, f, (o, d, i), w) =
    let up = record u {
      on_packet_received = true;
      low_level = online ∷ init ∷ u.low_level;
      signal_number = env.used_signal_number;
      is_online = true;
    } in
    subst
      (λ v. IsSound (record v {
        last_start_secs = (env.ds_days * 24 * 60 * 60 + env.ds_minute * 60) % 2 ^ 32;
        last_start_micro = env.ds_tick;
      }))
      (sym (do_event_lem s2event_online up))
      (m, t, ground arith, (ground arith, d, i), all_waiting-entered true u.events)

pub low_level_call-IsSound :
    (call : LowLevelCall) (u : DeviceUnit)
    → fits call ≡ true
    → IsSound u
    → IsSound (low_level_call call u)
unfolding low_level_call
low_level_call-IsSound call u k (m, t, f, c, w) = (m, t, ground arith, c, w)

pub go_offline-IsSound : (u : DeviceUnit) → IsOrderly u → IsSound (go_offline u)
unfolding go_offline
go_offline-IsSound u (m, t, f, (o, d, i), w) =
    let down = record u { is_online = false } in
    let told = do_event s2event_offline down in
    low_level_call-IsSound offline (flush told) refl (
      flush-IsSound told (
        subst IsOrderly (sym (do_event_lem s2event_offline down))
          (m, t, f, (refl, d, i), all_waiting-entered false u.events)))

abbrev pub HasSoundUnit : Option DeviceUnit → Type 0
HasSoundUnit none = Unit
HasSoundUnit (some u) = IsSound u
