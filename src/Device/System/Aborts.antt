-- ===== src/Device/System/Aborts.antt =====
-- `DeviceAbortIO` keeps a unit sound.
use driver_amiga_os_ks.Prelude.{
  Bool, ◌≡◌, true, some, [], ◌∷◌, inl, inr, ℕ, List, Option-cases, arith, Bool-cases, subst, sym,
  if◌then◌else◌,
}
use driver_amiga_os_ks.Device.Queues.{
  abort_request_and_remove, remove, rx_queue_of, set_rx_queue, keep, abort_in_events,
  abort_in_read_orphan, abort_in_rx_queue, abort_in_tx, abort_pending, device_abort_io, is_pending,
}
use driver_amiga_os_ks.Device.Types.{
  term_io, Request, DeviceUnit, Command, cmd_read, s2_broadcast, cmd_write, no_error, s2_onevent,
  s2_readorphan,
}
use driver_amiga_os_ks.Device.System.Sound.{all_waiting, IsSound}
use driver_amiga_os_ks.Device.Writing.{all_short}

all_waiting-remove :
    (b : Bool) (address : ℕ) (rs rest : List Request) (r : Request)
    → remove address rs ≡ some (r, rest)
    → all_waiting b rs ≡ true
    → all_waiting b rest ≡ true
unfolding remove keep
all_waiting-remove b address [] rest r e h = ground arith
all_waiting-remove b address (x ∷ xs) rest r e h = elim (Option-cases (remove address xs)) [
  | inl k ↦ ground arith
  | inr (p, k) ↦ ground (arith, all_waiting-remove b address xs p.1 p.0 k)
]

all_waiting-abort :
    (b : Bool) (address : ℕ) (rs : List Request) (u : DeviceUnit)
    → all_waiting b rs ≡ true
    → all_waiting b (abort_request_and_remove address rs u).1 ≡ true
unfolding abort_request_and_remove
all_waiting-abort b address rs u h = elim (Option-cases (remove address rs)) [
  | inl k ↦ ground arith
  | inr (p, k) ↦ ground (arith, all_waiting-remove b address rs p.1 p.0 k)
]

pub abort_request_and_remove-unit :
    (address : ℕ) (rs : List Request) (u : DeviceUnit)
    → (abort_request_and_remove address rs u).2
      ≡ record u { completed = (abort_request_and_remove address rs u).2.completed }
unfolding abort_request_and_remove term_io
abort_request_and_remove-unit address rs u = ground arith

all_short-remove :
    (limit address : ℕ) (rs rest : List Request) (r : Request)
    → remove address rs ≡ some (r, rest)
    → all_short limit rs ≡ true
    → all_short limit rest ≡ true
unfolding remove keep
all_short-remove limit address [] rest r e h = ground arith
all_short-remove limit address (x ∷ xs) rest r e h = elim (Option-cases (remove address xs)) [
  | inl k ↦ ground arith
  | inr (p, k) ↦ ground (arith, all_short-remove limit address xs p.1 p.0 k)
]

all_short-abort :
    (limit address : ℕ) (rs : List Request) (u : DeviceUnit)
    → all_short limit rs ≡ true
    → all_short limit (abort_request_and_remove address rs u).1 ≡ true
unfolding abort_request_and_remove
all_short-abort limit address rs u h = elim (Option-cases (remove address rs)) [
  | inl k ↦ ground arith
  | inr (p, k) ↦ ground (arith, all_short-remove limit address rs p.1 p.0 k)
]

abort_in_tx-IsSound : (r : Request) (u : DeviceUnit) → IsSound u → IsSound (abort_in_tx r u).1
unfolding abort_in_tx
abort_in_tx-IsSound r u (m, t, f, c, w) =
    let a = abort_request_and_remove r.address u.tx u in
    subst (λ v. IsSound (record v { tx = a.1 }))
      (sym (abort_request_and_remove-unit r.address u.tx u))
      (m, all_short-abort 1500 r.address u.tx u t, f, c, w)

abort_in_events-IsSound :
    (r : Request) (u : DeviceUnit) → IsSound u → IsSound (abort_in_events r u).1
unfolding abort_in_events
abort_in_events-IsSound r u (m, t, f, c, w) =
    let a = abort_request_and_remove r.address u.events u in
    subst (λ v. IsSound (record v { events = a.1 }))
      (sym (abort_request_and_remove-unit r.address u.events u))
      (m, t, f, c, all_waiting-abort u.is_online r.address u.events u w)

abort_in_read_orphan-IsSound :
    (r : Request) (u : DeviceUnit) → IsSound u → IsSound (abort_in_read_orphan r u).1
unfolding abort_in_read_orphan
abort_in_read_orphan-IsSound r u s =
    let a = abort_request_and_remove r.address u.read_orphan u in
    subst (λ v. IsSound (record v { read_orphan = a.1 }))
      (sym (abort_request_and_remove-unit r.address u.read_orphan u)) s

abort_in_rx_queue-IsSound :
    (r : Request) (u : DeviceUnit) → IsSound u → IsSound (abort_in_rx_queue r u).1
unfolding abort_in_rx_queue
abort_in_rx_queue-IsSound r u s =
    let id = r.buffer_management.id in
    let a = abort_request_and_remove r.address (rx_queue_of id u.buff_mgmt) u in
    subst (λ v. IsSound (record v { buff_mgmt = set_rx_queue id a.1 v.buff_mgmt }))
      (sym (abort_request_and_remove-unit r.address (rx_queue_of id u.buff_mgmt) u)) s

abort_pending-IsSound :
    (c : Command) (r : Request) (u : DeviceUnit) → IsSound u → IsSound (abort_pending c r u).1
unfolding abort_pending
abort_pending-IsSound cmd_read r u s = abort_in_rx_queue-IsSound r u s
abort_pending-IsSound s2_broadcast r u s = abort_in_tx-IsSound r u s
abort_pending-IsSound cmd_write r u s = abort_in_tx-IsSound r u s
abort_pending-IsSound s2_onevent r u s = abort_in_events-IsSound r u s
abort_pending-IsSound s2_readorphan r u s = abort_in_read_orphan-IsSound r u s
abort_pending-IsSound _ r u s = s

pub device_abort_io-IsSound :
    (r : Request) (u : DeviceUnit) → IsSound u → IsSound (device_abort_io r u).1
unfolding device_abort_io
device_abort_io-IsSound r u s = elim (Bool-cases (is_pending r.node_type)) [
  | inl e ↦
      subst (λ b. IsSound (if b then abort_pending r.command r u else (no_error, u)).1) (sym e)
        (abort_pending-IsSound r.command r u s)
  | inr e ↦
      subst (λ b. IsSound (if b then abort_pending r.command r u else (no_error, u)).1) (sym e) s
]
