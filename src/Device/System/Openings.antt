-- ===== src/Device/System/Openings.antt =====
-- `DeviceOpen` and `DeviceClose` leave a sound unit, or none.
use driver_amiga_os_ks.Prelude.{
  Bool, ◌≡◌, true, false, refl, none, some, if-holds, Option, ℕ, subst, sym, arith, ◌+◌, ◌&&◌, ltb,
  ◌==◌, ◌%◌,
}
use driver_amiga_os_ks.Device.Lifecycle.{
  DeviceDriver, close_entry, close_unit, device_open, finish_close, init_unit_process, open_checked,
  open_entry, open_flagged, open_unit, open_with, remove_entry, OpenEnvironment, device_expunge,
  expunge_unit, new_unit, open_counted, BufferTags, callbacks_of, open_failed, check_flags,
  check_stack_space, stack_size_minimum, ed_maxunits, cleared_flags, close_opened, device_close,
}
use driver_amiga_os_ks.Device.Types.{DeviceUnit, Request, Callbacks}
use driver_amiga_os_ks.Device.Commands.{is_tracked}
use driver_amiga_os_ks.Device.System.Sound.{IsSound, HasSoundUnit}
use driver_amiga_os_ks.Device.Queues.{abort_req_list, rx_queue_of}
use driver_amiga_os_ks.Device.Flushing.{abort_req_list_lem}

module _ (libf_delexp : ℕ) where
  abbrev LeavesSound : Request × DeviceDriver → Type 0
  LeavesSound p = HasSoundUnit p.1.device_unit

  open_with-Sound :
      (callbacks : Callbacks) (r : Request) (u : DeviceUnit) (d : DeviceDriver)
      → IsSound u
      → LeavesSound (open_with libf_delexp callbacks r u d)
  unfolding open_with
  open_with-Sound callbacks r u d s = s

  open_entry-Sound :
      (memory : Option ℕ) (env : OpenEnvironment) (tags : BufferTags) (r : Request)
      → (u : DeviceUnit) (d : DeviceDriver) → IsSound u
      → LeavesSound (open_entry libf_delexp memory env tags r u d)
  unfolding open_entry
  open_entry-Sound none env tags r u d s = s
  open_entry-Sound (some address) env tags r u d s =
      open_with-Sound (callbacks_of env address tags) r u d s

  open_unit-Sound :
      (unit : Option DeviceUnit) (env : OpenEnvironment) (tags : BufferTags) (r : Request)
      → (d : DeviceDriver) → HasSoundUnit unit
      → HasSoundUnit d.device_unit
      → LeavesSound (open_unit libf_delexp unit env tags r d)
  unfolding open_unit
  open_unit-Sound none env tags r d h s = s
  open_unit-Sound (some u) env tags r d h s = open_entry-Sound env.memory env tags r u d h

  init_unit_process-Sound :
      (env : OpenEnvironment) (unit : Option DeviceUnit)
      → HasSoundUnit unit
      → HasSoundUnit (init_unit_process env unit)
  unfolding init_unit_process new_unit is_tracked
  init_unit_process-Sound env (some u) s = s
  init_unit_process-Sound env none s =
      if-holds HasSoundUnit env.unit_started (some (new_unit env.mac_tokens)) none
        (refl, refl, refl, (refl, refl, refl), refl) tt

  open_checked-Sound :
      (env : OpenEnvironment) (tags : BufferTags) (r : Request) (d : DeviceDriver)
      → HasSoundUnit d.device_unit
      → LeavesSound (open_checked libf_delexp env tags r d)
  unfolding open_checked
  open_checked-Sound env tags r d s =
      if-holds LeavesSound env.probe_ok
        (open_unit libf_delexp (init_unit_process env d.device_unit) env tags r d)
        (open_failed r, d)
        (open_unit-Sound (init_unit_process env d.device_unit) env tags r d
          (init_unit_process-Sound env d.device_unit s) s)
        s

  open_flagged-Sound :
      (env : OpenEnvironment) (tags : BufferTags) (r : Request) (p : Bool × ℕ) (d : DeviceDriver)
      → HasSoundUnit d.device_unit
      → LeavesSound (open_flagged libf_delexp env tags r p d)
  unfolding open_flagged
  open_flagged-Sound env tags r (true, flags) d s =
      open_checked-Sound env tags r (record d { lib_flags = flags }) s
  open_flagged-Sound env tags r (false, flags) d s = s

  pub open-Sound :
      (env : OpenEnvironment) (tags : BufferTags) (r : Request) (s2unit s2flags : ℕ)
      → (d : DeviceDriver) → HasSoundUnit d.device_unit
      → LeavesSound (device_open libf_delexp env tags r s2unit s2flags d)
  unfolding device_open open_counted
  open-Sound env tags r s2unit s2flags d s =
      let during = record d { lib_open_cnt = (d.lib_open_cnt + 1) % 65536 } in
      let checked = check_flags s2flags during.lib_open_cnt during.lib_flags in
      if-holds LeavesSound
        (check_stack_space env.stack_size stack_size_minimum && ltb s2unit ed_maxunits)
        (open_flagged libf_delexp env tags r checked during) (open_failed r, during)
        (open_flagged-Sound env tags r checked during s) s

  close_entry-IsSound :
      (r : Request) (u : DeviceUnit) → IsSound u → IsSound (close_entry libf_delexp r u)
  unfolding close_entry
  close_entry-IsSound r u s =
      let id = r.buffer_management.id in
      let removed = record u { buff_mgmt = remove_entry libf_delexp id u.buff_mgmt } in
      if-holds IsSound r.has_buffer_management (abort_req_list (rx_queue_of id u.buff_mgmt) removed)
        u (subst IsSound (sym (abort_req_list_lem (rx_queue_of id u.buff_mgmt) removed)) s) s

  close_unit-Sound :
      (u : DeviceUnit) (d : DeviceDriver)
      → IsSound u
      → HasSoundUnit (close_unit libf_delexp u d).device_unit
  unfolding close_unit expunge_unit
  close_unit-Sound u d s =
      let d' = record d {
        lib_flags = cleared_flags libf_delexp d.lib_flags;
        lib_open_cnt = (d.lib_open_cnt + 65535) % 65536;
      } in
      let u' = record u { open_cnt = (u.open_cnt + 65535) % 65536 } in
      if-holds (λ x. HasSoundUnit x.device_unit) (u'.open_cnt == 0) (expunge_unit libf_delexp u' d')
        (record d' { device_unit = some u' }) tt s

  finish_close-Sound :
      (d : DeviceDriver)
      → HasSoundUnit d.device_unit
      → HasSoundUnit (finish_close libf_delexp d).1.device_unit
  unfolding finish_close device_expunge
  finish_close-Sound d s =
      let e : (finish_close libf_delexp d).1.device_unit ≡ d.device_unit = ground arith in
      subst HasSoundUnit (sym e) s

  close-Sound :
      (unit : Option DeviceUnit) (r : Request) (d : DeviceDriver)
      → HasSoundUnit unit
      → HasSoundUnit d.device_unit
      → HasSoundUnit (close_opened libf_delexp unit r d).2.device_unit
  unfolding close_opened
  close-Sound none r d h s = s
  close-Sound (some u) r d h s =
      let closed = close_entry libf_delexp r u in
      finish_close-Sound (close_unit libf_delexp closed d)
        (close_unit-Sound closed d (close_entry-IsSound r u h))

  pub close-IsSound :
      (r : Request) (d : DeviceDriver)
      → HasSoundUnit d.device_unit
      → HasSoundUnit (device_close libf_delexp r d).2.device_unit
  unfolding device_close
  close-IsSound r d s =
      if-holds {A = Request × Bool × DeviceDriver} (λ p. HasSoundUnit p.2.device_unit) r.is_open
        (close_opened libf_delexp d.device_unit r d) (r, false, d)
        (close-Sound d.device_unit r d s s) s
