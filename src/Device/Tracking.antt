-- ===== src/Device/Tracking.antt =====
-- Tracking a type and giving it up again.
use driver_amiga_os_ks.Device.Commands.{
  dev_cmd_un_track_type, is_tracked, dev_cmd_track_type, untrack,
}
use driver_amiga_os_ks.Prelude.{ℕ, List, ◌++◌, ◌≡◌, false, ◌∷◌, [], arith, true, length, ◌+◌}
use driver_amiga_os_ks.Device.Types.{term_io, fail_io, Request, DeviceUnit}

untrack-append : (t : ℕ) (ts : List ℕ) → is_tracked t ts ≡ false → untrack t (ts ++ t ∷ []) ≡ ts
unfolding is_tracked untrack
untrack-append t [] h = ground arith
untrack-append t (x ∷ xs) h = ground (arith, untrack-append t xs)

is_tracked-appended : (t : ℕ) (ts : List ℕ) → is_tracked t (ts ++ t ∷ []) ≡ true
unfolding is_tracked
is_tracked-appended t [] = ground arith
is_tracked-appended t (x ∷ xs) = ground (arith, is_tracked-appended t xs)

-- Giving up a type that was just tracked, and was not before, brings back the list of tracked types,
-- and both requests are completed.
dev_cmd_un_track_type-dev_cmd_track_type :
    (r : Request) (u : DeviceUnit)
    → is_tracked r.packet_type u.track ≡ false
    → ((dev_cmd_un_track_type r (dev_cmd_track_type true r u)).track ≡ u.track)
      × (length (dev_cmd_un_track_type r (dev_cmd_track_type true r u)).completed
          ≡ length u.completed + 2)
unfolding dev_cmd_un_track_type dev_cmd_track_type term_io fail_io
dev_cmd_un_track_type-dev_cmd_track_type r u h = (
  ground (arith, untrack-append r.packet_type u.track h, is_tracked-appended r.packet_type u.track),
  ground (arith, is_tracked-appended r.packet_type u.track),
)
