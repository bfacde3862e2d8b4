-- ===== src/Device/Writing.antt =====
-- `DevCmdWritePacket`: what reaches the low level driver.
use driver_amiga_os_ks.Prelude.{
  List, ℕ, Bool, leb, true, ◌≡◌, ◌++◌, [], ap, arith, ltb, ◌∷◌, ◌&&◌, if◌then◌else◌, ◌≤◌, false,
  ◌∙◌, Bool-cases, inl, inr, refl,
}
use driver_amiga_os_ks.Device.Types.{
  LowLevelCall, DeviceUnit, Request, send_packet, term_io, fail_io, s2event_buff,
  send_packet_cooked, nt_message, s2event_tx, mtu_exceeded, s2werr_generic_error,
}
use driver_amiga_os_ks.Device.Stack.{Stack}
use driver_amiga_os_ks.Device.Queues.{do_event, fire_all, fire}
use driver_amiga_os_ks.Device.Transmit.{
  dev_cmd_write_packet, finish_write, send_all, send_cooked, send_one, send_raw, low_level_call,
  send_all_packets,
}

-- Whether a call of the low level driver has a size that its buffers hold: a raw packet of more than a
-- header and at most the 2000 bytes of the send buffer, and a cooked payload of at most the MTU.
abbrev pub fits : LowLevelCall → Bool
fits (send_packet bytes n) = ltb 14 n && leb n 2000
fits (send_packet_cooked dst src packet_type bytes n) = leb n 1500
fits _ = true

abbrev pub all_fit : List LowLevelCall → Bool
all_fit [] = true
all_fit (call ∷ calls) = fits call && all_fit calls

abbrev pub all_short : ℕ → List Request → Bool
all_short limit [] = true
all_short limit (r ∷ rs) = leb r.data_length limit && all_short limit rs

low_level-fire_all :
    (events : ℕ) (rs : List Request) (u : DeviceUnit)
    → (fire_all events rs u).low_level ≡ u.low_level
unfolding fire_all fire term_io
low_level-fire_all events [] u = refl
low_level-fire_all events (r ∷ rs) u =
    ground (arith, low_level-fire_all events rs (fire events r u))

low_level-do_event : (events : ℕ) (u : DeviceUnit) → (do_event events u).low_level ≡ u.low_level
unfolding do_event
low_level-do_event events u = low_level-fire_all events u.events (record u { events = [] })

module _ (stack : Stack) where
  pub all_fit-send_raw :
      (r : Request) (u : DeviceUnit)
      → leb r.data_length 2000 ≡ true
      → all_fit u.low_level ≡ true
      → all_fit (send_raw stack r u).1.low_level ≡ true
  unfolding send_raw low_level_call
  all_fit-send_raw r u h a = ground arith

  pub all_fit-send_cooked :
      (r : Request) (u : DeviceUnit)
      → all_fit u.low_level ≡ true
      → all_fit (send_cooked stack r u).1.low_level ≡ true
  unfolding send_cooked low_level_call
  all_fit-send_cooked r u a = ground arith

  low_level-finish_write :
      (p : Request × DeviceUnit) → (finish_write stack p).low_level ≡ p.1.low_level
  unfolding finish_write term_io
  low_level-finish_write (r, u) = ground (arith, low_level-do_event s2event_buff u)

  all_fit-send_one :
      (r : Request) (u : DeviceUnit)
      → leb r.data_length 2000 ≡ true
      → all_fit u.low_level ≡ true
      → all_fit (send_one stack r u).low_level ≡ true
  unfolding send_one
  all_fit-send_one r u h a =
      ap all_fit
        (low_level-finish_write (if r.raw then send_raw stack r u else send_cooked stack r u))
      ∙ elim (Bool-cases r.raw) [
        | inl e ↦
            ap (λ b. all_fit (if b then send_raw stack r u else send_cooked stack r u).1.low_level)
              e
            ∙ all_fit-send_raw r u h a
        | inr e ↦
            ap (λ b. all_fit (if b then send_raw stack r u else send_cooked stack r u).1.low_level)
              e
            ∙ all_fit-send_cooked r u a
      ]

  all_fit-send_all :
      (rs : List Request) (u : DeviceUnit)
      → all_short 2000 rs ≡ true
      → all_fit u.low_level ≡ true
      → all_fit (send_all stack rs u).low_level ≡ true
  unfolding send_all
  all_fit-send_all [] u h a = a
  all_fit-send_all (r ∷ rs) u h a =
      all_fit-send_all rs (send_one stack r u) (ground arith)
        (all_fit-send_one r u (ground arith) a)

  all_short-append :
      (limit : ℕ) (rs : List Request) (r : Request)
      → all_short limit rs ≡ true
      → leb r.data_length limit ≡ true
      → all_short limit (rs ++ r ∷ []) ≡ true
  all_short-append limit [] r h k = ground arith
  all_short-append limit (x ∷ xs) r h k = ground (arith, all_short-append limit xs r)

  -- After a write, every call of the low level driver so far has a raw packet of 15 to 2000 bytes or a
  -- cooked payload of at most 1500, whatever the stack's copy functions do, if this held before, the
  -- requests that wait have at most 2000 bytes, and the MTU is at most 2000.
  all_fit-dev_cmd_write_packet :
      (r : Request) (u : DeviceUnit)
      → u.mtu ≤ 2000
      → all_short 2000 u.tx ≡ true
      → all_fit u.low_level ≡ true
      → all_fit (dev_cmd_write_packet stack r u).low_level ≡ true
  unfolding dev_cmd_write_packet send_all_packets fail_io term_io
  all_fit-dev_cmd_write_packet r u m h a =
      let queued = record r { quick = false; node_type = nt_message } in
      ground (
        arith,
        all_fit-send_all (u.tx ++ queued ∷ []) (record u { tx = [] }),
        all_short-append 2000 u.tx queued h,
        low_level-do_event s2event_tx (fail_io r mtu_exceeded s2werr_generic_error u),
      )
