-- ===== src/Device/Settings/Invariants.antt =====
-- Invariants of a unit's settings.
use driver_amiga_os_ks.Prelude.{
  List, ℕ, ◌≡◌, ◌++◌, Bool, false, true, ◌&&◌, ◌∷◌, [], arith, not, ◌==◌, refl, ◌||◌, ap, subst,
  sym, ◌∙◌,
}
use driver_amiga_os_ks.Device.Settings.{Settings, next, settings}
use driver_amiga_os_ks.Device.Commands.{is_tracked, untrack, Environment}
use driver_amiga_os_ks.Device.Stack.{Stack}
use driver_amiga_os_ks.Device.Types.{
  Command, Request, DeviceUnit, s2_online, s2_offline, no_error, s2_configinterface, s2_tracktype,
  s2_untracktype,
}
use driver_amiga_os_ks.Device.Dispatch.{perform_all, serve_port, perform_io}
use driver_amiga_os_ks.Device.Settings.Refinement.{settings-perform_io}

-- No type stands twice in the list of tracked types.
abbrev pub is_distinct : List ℕ → Bool
is_distinct [] = true
is_distinct (t ∷ ts) = not (is_tracked t ts) && is_distinct ts

-- An online unit is configured; the tracked types are distinct; the flag for IP tells whether the type
-- of IP is among them.
abbrev pub Consistent : Settings → Type 0
Consistent s =
    ((not s.is_online || s.is_config) ≡ true)
    × (is_distinct s.track ≡ true)
    × (s.ip_track ≡ is_tracked 2048 s.track)

is_tracked-append :
    (t x : ℕ) (ts : List ℕ) → is_tracked t (ts ++ x ∷ []) ≡ (is_tracked t ts || t == x)
unfolding is_tracked
is_tracked-append t x [] = ground arith
is_tracked-append t x (y ∷ ys) = ground (arith, is_tracked-append t x ys)

is_distinct-append :
    (x : ℕ) (ts : List ℕ)
    → is_tracked x ts ≡ false
    → is_distinct ts ≡ true
    → is_distinct (ts ++ x ∷ []) ≡ true
unfolding is_tracked
is_distinct-append x [] h d = refl
is_distinct-append x (y ∷ ys) h d =
    ground (arith, is_distinct-append x ys, is_tracked-append y x ys)

is_tracked-untrack :
    (t x : ℕ) (ts : List ℕ)
    → is_distinct ts ≡ true
    → is_tracked t (untrack x ts) ≡ (is_tracked t ts && not (t == x))
unfolding is_tracked untrack
is_tracked-untrack t x [] d = refl
is_tracked-untrack t x (y ∷ ys) d = ground (arith, is_tracked-untrack t x ys)

is_distinct-untrack :
    (x : ℕ) (ts : List ℕ) → is_distinct ts ≡ true → is_distinct (untrack x ts) ≡ true
unfolding untrack
is_distinct-untrack x [] d = refl
is_distinct-untrack x (y ∷ ys) d =
    ground (arith, is_distinct-untrack x ys, is_tracked-untrack y x ys)

pub next-Consistent :
    (memory : Bool) (c : Command) (r : Request) (s : Settings)
    → Consistent s
    → Consistent (next memory c r s)
unfolding next
next-Consistent memory s2_online r s (o, d, i) = (ground arith, ground arith, ground arith)
next-Consistent memory s2_offline r s (o, d, i) = (refl, d, i)
next-Consistent memory s2_configinterface r s (o, d, i) = (ground arith, ground arith, ground arith)
next-Consistent memory s2_tracktype r s (o, d, i) = (
  ground arith,
  ground (arith, is_distinct-append r.packet_type s.track),
  ground (arith, is_tracked-append 2048 r.packet_type s.track),
)
next-Consistent memory s2_untracktype r s (o, d, i) = (
  ground arith,
  ground (arith, is_distinct-untrack r.packet_type s.track),
  ground (arith, is_tracked-untrack 2048 r.packet_type s.track),
)
next-Consistent memory _ r s c = c

module _ (stack : Stack) (env : Environment) (memory : Bool) where
  -- Every command keeps the settings consistent: a unit is online only when it is configured, no
  -- type is tracked twice, and `eu_IpTrack` is set exactly when the type of IP is tracked, if this
  -- was so before.
  perform_io-Consistent :
      (r : Request) (u : DeviceUnit)
      → Consistent (settings u)
      → Consistent (settings (perform_io stack env memory r u))
  perform_io-Consistent r u c =
      subst Consistent (sym (settings-perform_io stack env memory r u))
        (next-Consistent memory r.command (record r { io_error = no_error }) (settings u) c)

  perform_all-Consistent :
      (rs : List Request) (u : DeviceUnit)
      → Consistent (settings u)
      → Consistent (settings (perform_all stack env memory rs u))
  unfolding perform_all
  perform_all-Consistent [] u c = c
  perform_all-Consistent (r ∷ rs) u c =
      perform_all-Consistent rs (perform_io stack env memory r u) (perform_io-Consistent r u c)

  pub serve_port-Consistent :
      (u : DeviceUnit)
      → Consistent (settings u)
      → Consistent (settings (serve_port stack env memory u))
  unfolding serve_port
  serve_port-Consistent u c = perform_all-Consistent u.msg_port (record u { msg_port = [] }) c

next-st_addr :
    (memory : Bool) (c : Command) (r : Request) (s : Settings)
    → s.is_config ≡ true
    → ((next memory c r s).st_addr ≡ s.st_addr) × ((next memory c r s).is_config ≡ true)
unfolding next
next-st_addr memory s2_online r s h = (ground arith, ground arith)
next-st_addr memory s2_offline r s h = (refl, h)
next-st_addr memory s2_configinterface r s h = (ground arith, ground arith)
next-st_addr memory s2_tracktype r s h = (ground arith, ground arith)
next-st_addr memory s2_untracktype r s h = (ground arith, ground arith)
next-st_addr memory _ r s h = (refl, h)

module _ (stack : Stack) (env : Environment) (memory : Bool) where
  -- Once configured, a unit stays configured and keeps its station address through any sequence of
  -- requests that the unit process performs.
  pub st_addr-perform_all :
      (rs : List Request) (u : DeviceUnit)
      → u.is_config ≡ true
      → ((perform_all stack env memory rs u).st_addr ≡ u.st_addr)
        × ((perform_all stack env memory rs u).is_config ≡ true)
  unfolding perform_all
  st_addr-perform_all [] u h = (refl, h)
  st_addr-perform_all (r ∷ rs) u h =
      let e = settings-perform_io stack env memory r u in
      let one = next-st_addr memory r.command (record r { io_error = no_error }) (settings u) h in
      let rest =
        st_addr-perform_all rs (perform_io stack env memory r u)
          (ap (λ s. s.is_config) e ∙ one.1) in
      (rest.0 ∙ ap (λ s. s.st_addr) e ∙ one.0, rest.1)
