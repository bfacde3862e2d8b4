-- ===== src/Device/Closing.antt =====
-- `DeviceClose`: the counters, the entries, and the expunge that it may do.
use driver_amiga_os_ks.Device.Lifecycle.{
  device_close, close_entry, close_unit, finish_close, DeviceDriver, device_expunge, expunge_unit,
  remove_entry, cleared_flags, close_opened, etheruf_exclusive, etheruf_loopback, etheruf_promisc,
}
use driver_amiga_os_ks.Prelude.{
  ℕ, List, ◌≡◌, arith, false, length, true, ◌+◌, some, ◌-◌, ap, ◌∙◌, ◌∷◌, [], if◌then◌else◌, sym,
  Option, has, subst, bit_and, none, refl, has-pow, bit-bit_and, ◌&&◌, ◌%◌,
}
use driver_amiga_os_ks.Device.Types.{Request, DeviceUnit, BufferManagement}
use driver_amiga_os_ks.Device.Receive.{has_entry}
use driver_amiga_os_ks.Device.Opening.{IsCounted, unit_openings, entries}
use driver_amiga_os_ks.Device.Queues.{abort_req_list, rx_queue_of}
use driver_amiga_os_ks.Device.Flushing.{abort_req_list_lem}

module _ (libf_delexp : ℕ) where
  length-remove_entry :
      (id : ℕ) (bms : List BufferManagement)
      → has_entry id bms ≡ true
      → length (remove_entry libf_delexp id bms) + 1 ≡ length bms
  unfolding has_entry remove_entry
  length-remove_entry id [] h = ground arith
  length-remove_entry id (bm ∷ bms) h = ground (arith, length-remove_entry id bms)

  close_unit-IsCounted :
      (u : DeviceUnit) (d : DeviceDriver)
      → d.lib_open_cnt ≡ u.open_cnt
      → u.open_cnt ≡ (length u.buff_mgmt + 1) % 65536
      → IsCounted (close_unit libf_delexp u d)
        × ((close_unit libf_delexp u d).lib_open_cnt ≡ (d.lib_open_cnt + 65535) % 65536)
  unfolding close_unit expunge_unit
  close_unit-IsCounted u d a b = ((ground arith, ground arith), ground arith)

  finish_close-IsCounted :
      (d : DeviceDriver)
      → IsCounted d
      → IsCounted (finish_close libf_delexp d).1
        × ((finish_close libf_delexp d).1.lib_open_cnt ≡ d.lib_open_cnt)
  unfolding finish_close device_expunge
  finish_close-IsCounted d (a, b) = ((ground arith, ground arith), ground arith)

  close_entry_lem :
      (r : Request) (u : DeviceUnit)
      → r.has_buffer_management ≡ true
      → has_entry r.buffer_management.id u.buff_mgmt ≡ true
      → ((close_entry libf_delexp r u).open_cnt ≡ u.open_cnt)
        × (length (close_entry libf_delexp r u).buff_mgmt + 1 ≡ length u.buff_mgmt)
  unfolding close_entry
  close_entry_lem r u h k =
      let id = r.buffer_management.id in
      let removed = record u { buff_mgmt = remove_entry libf_delexp id u.buff_mgmt } in
      let e =
        ap (λ b. if b then abort_req_list (rx_queue_of id u.buff_mgmt) removed else u) h
        ∙ abort_req_list_lem (rx_queue_of id u.buff_mgmt) removed in
      (
        ap (λ v. v.open_cnt) e,
        ap (λ v. length v.buff_mgmt + 1) e ∙ length-remove_entry id u.buff_mgmt k,
      )

  -- Closing an open request whose entry the unit has keeps the counts of the device, the unit and the
  -- list of entries equal, as numbers of 16 bits, and lowers the count by one, modulo 65536, if they were
  -- equal before.
  pub device_close-IsCounted :
      (r : Request) (u : DeviceUnit) (d : DeviceDriver)
      → r.is_open ≡ true
      → r.has_buffer_management ≡ true
      → has_entry r.buffer_management.id u.buff_mgmt ≡ true
      → d.device_unit ≡ some u
      → IsCounted d
      → IsCounted (device_close libf_delexp r d).2
        × ((device_close libf_delexp r d).2.lib_open_cnt ≡ (d.lib_open_cnt + 65535) % 65536)
  unfolding device_close close_opened
  device_close-IsCounted r u d o h k e (a, b) =
      let closed = close_entry_lem r u h k in
      let a' = a ∙ ap unit_openings e in
      let b' = sym (ap unit_openings e) ∙ b ∙ ap (λ unit. entries unit % 65536) e in
      let c =
        close_unit-IsCounted (close_entry libf_delexp r u) d (a' ∙ sym closed.0)
          (omega (arith, closed.0, closed.1, b')) in
      let f = finish_close-IsCounted (close_unit libf_delexp (close_entry libf_delexp r u) d) c.0 in
      subst (λ p. IsCounted p.2 × (p.2.lib_open_cnt ≡ (d.lib_open_cnt + 65535) % 65536))
        (sym (
          ap (λ t. if t then close_opened libf_delexp d.device_unit r d else (r, false, d)) o
          ∙ ap (λ unit. close_opened libf_delexp unit r d) e))
        (f.0, f.1 ∙ c.1)

delexp-cleared_flags : (flags : ℕ) → has (cleared_flags 8 flags) 8 ≡ false
unfolding cleared_flags
delexp-cleared_flags flags =
    let mine = bit_and flags (255 - etheruf_exclusive) in
    let loop = bit_and mine (255 - etheruf_loopback) in
    has-pow 3 (bit_and loop (255 - etheruf_promisc))
    ∙ bit-bit_and 3 loop (255 - etheruf_promisc)
    ∙ ap (λ b. b && true) (bit-bit_and 3 mine (255 - etheruf_loopback))
    ∙ ground arith

no_expunge-close_opened :
    (unit : Option DeviceUnit) (r : Request) (d : DeviceDriver)
    → (close_opened 8 unit r d).1 ≡ false
unfolding close_opened finish_close close_unit expunge_unit
no_expunge-close_opened none r d = refl
no_expunge-close_opened (some u) r d = ground (arith, delexp-cleared_flags d.lib_flags)

-- `DeviceClose` never returns a segment list, with the operating system's LIBF_DELEXP of 8: clearing
-- the driver's own bits clears the bit of a delayed expunge before it is tested.
pub device_close-no_expunge : (r : Request) (d : DeviceDriver) → (device_close 8 r d).1 ≡ false
unfolding device_close
device_close-no_expunge r d = ground (arith, no_expunge-close_opened d.device_unit r d)
