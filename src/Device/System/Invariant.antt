-- ===== src/Device/System/Invariant.antt =====
-- What holds of a loaded device at all times.
use driver_amiga_os_ks.Prelude.{
  suc, Bool, ◌≡◌, true, false, refl, some, [], ◌∷◌, if-holds, List, ℕ, subst, sym, ◌==◌, length,
  bit_or, ◌∙◌, ap, ◌%◌,
}
use driver_amiga_os_ks.Device.Lifecycle.{DeviceDriver, device_expunge}
use driver_amiga_os_ks.Device.Types.{DeviceUnit, BufferManagement, nt_message}
use driver_amiga_os_ks.Device.Opening.{IsCounted, unit_openings, entries, device_open-IsCounted}
use driver_amiga_os_ks.Device.System.Sound.{IsSound, HasSoundUnit}
use driver_amiga_os_ks.Device.Dispatch.{device_begin_io, service_round}
use driver_amiga_os_ks.Device.Queues.{device_abort_io}
use driver_amiga_os_ks.Device.System.{
  put_write, send_write, put_read, put_orphan, open_device, close_device, expunge_device, begin_io,
  abort_io, wake_up, loaded, next_step, asm_dev_init, asm_dev_open, asm_dev_close, device_init,
  Reach, asm_dev_expunge, asm_dev_begin_io, asm_dev_abort_io, Step,
}
use driver_amiga_os_ks.Device.System.Openers.{
  callbacks_of_all, openers, begin_io-Keeps, send_next-Keeps, callbacks-enqueue_read,
}
use driver_amiga_os_ks.Device.System.Aborts.{device_abort_io-IsSound}
use driver_amiga_os_ks.Device.Closing.{device_close-IsCounted}
use driver_amiga_os_ks.Device.System.Service.{device_abort_io-Keeps, service_round-Keeps}
use driver_amiga_os_ks.Device.System.Openings.{open-Sound, close-IsSound}
use driver_amiga_os_ks.Device.System.Rounds.{begin_io-IsSound, service_round-IsSound}
use driver_amiga_os_ks.Device.Transmit.{put_packet, send_next}
use driver_amiga_os_ks.Device.System.Commands.{put_packet-IsSound, send_next-IsSound}
use driver_amiga_os_ks.Device.Receive.{queue_read, queue_orphan}

-- The counts of the device agree, and its unit, if there is one, is sound.
abbrev pub IsValid : DeviceDriver → Type 0
IsValid d = IsCounted d × HasSoundUnit d.device_unit

length-callbacks : (bms : List BufferManagement) → length (callbacks_of_all bms) ≡ length bms
length-callbacks [] = refl
length-callbacks (bm ∷ bms) = ap suc (length-callbacks bms)

module _ (libf_delexp : ℕ) where
  expunge-IsValid : (d : DeviceDriver) → IsValid d → IsValid (device_expunge libf_delexp d).1
  unfolding device_expunge
  expunge-IsValid d v =
      if-holds {A = Bool × DeviceDriver} (λ p. IsValid p.1) (d.lib_open_cnt == 0)
        (true, record d { is_expunged = true; libraries_open = false })
        (false, record d { lib_flags = bit_or d.lib_flags libf_delexp; libraries_open = false }) v v

  -- A step that leaves the openers of the unit as they were.
  unit_step-IsValid :
      (u v : DeviceUnit) (d : DeviceDriver)
      → d.device_unit ≡ some u
      → openers v ≡ openers u
      → IsSound v
      → IsValid d
      → IsValid (record d { device_unit = some v })
  unit_step-IsValid u v d e o s ((a, b), h) =
      let a' = a ∙ ap unit_openings e in
      let b' = sym (ap unit_openings e) ∙ b ∙ ap (λ unit. entries unit % 65536) e in
      let l =
        sym (length-callbacks v.buff_mgmt)
        ∙ ap (λ p. length p.1) o
        ∙ length-callbacks u.buff_mgmt in
      ((a' ∙ sym (ap (λ p. p.0) o), ap (λ p. p.0) o ∙ b' ∙ ap (λ n. n % 65536) (sym l)), s)

  Step-IsValid : {d d' : DeviceDriver} → Step libf_delexp d d' → IsValid d → IsValid d'
  unfolding asm_dev_open asm_dev_close asm_dev_expunge asm_dev_begin_io asm_dev_abort_io
  Step-IsValid (open_device env tags r s2unit s2flags d) (c, s) = (
    (device_open-IsCounted libf_delexp env tags r s2unit s2flags d c).0,
    open-Sound libf_delexp env tags r s2unit s2flags d s,
  )
  Step-IsValid (close_device r u d o h k e) (c, s) =
      ((device_close-IsCounted libf_delexp r u d o h k e c).0, close-IsSound libf_delexp r d s)
  Step-IsValid (expunge_device d) v = expunge-IsValid d v
  Step-IsValid (begin_io stack env memory r u d o e) v =
      unit_step-IsValid u (device_begin_io stack env memory r u) d e
        (begin_io-Keeps stack env memory r u)
        (begin_io-IsSound stack env memory r u (subst HasSoundUnit e v.1)) v
  Step-IsValid (abort_io r u d o e) v =
      unit_step-IsValid u (device_abort_io r u).1 d e (device_abort_io-Keeps r u)
        (device_abort_io-IsSound r u (subst HasSoundUnit e v.1)) v
  Step-IsValid (put_write r u d o l e) v =
      unit_step-IsValid u (put_packet r u) d e refl
        (put_packet-IsSound r u l (subst HasSoundUnit e v.1)) v
  Step-IsValid (send_write stack u d e) v =
      unit_step-IsValid u (send_next stack u) d e (send_next-Keeps stack u)
        (send_next-IsSound stack u (subst HasSoundUnit e v.1)) v
  Step-IsValid (put_read r u d o e) v =
      unit_step-IsValid u (queue_read r u) d e
        (ap (λ cs. (u.open_cnt, cs))
          (callbacks-enqueue_read (record r { node_type = nt_message }) u.buff_mgmt))
        (subst HasSoundUnit e v.1) v
  Step-IsValid (put_orphan r u d o e) v =
      unit_step-IsValid u (queue_orphan r u) d e refl (subst HasSoundUnit e v.1) v
  Step-IsValid (wake_up stack env memory t u d b e) v =
      unit_step-IsValid u (service_round stack env memory t u).1 d e
        (service_round-Keeps stack env memory t u)
        (service_round-IsSound stack env memory t u b (subst HasSoundUnit e v.1)) v

  -- Whatever entry points are called and whatever wakes the unit process up, in any order after
  -- `DeviceInit`, also when writes and reads of several tasks are interleaved, each with its tests, its
  -- queueing and the sending of a packet as steps of their own, and the other calls and the rounds of the
  -- service loop one after the other: the device, its unit and its list of entries count the same openings,
  -- as numbers of 16 bits; a unit has an MTU of 1500, has only write requests waiting that fit in it, has
  -- called the low level driver with sizes that fit only, and has consistent settings; and no event
  -- request waits for a state that the unit is in.
  pub Reach-IsValid :
      (libf_changed libf_sumused : ℕ) {d : DeviceDriver}
      → Reach libf_delexp (asm_dev_init libf_changed libf_sumused) d
      → IsValid d
  unfolding asm_dev_init device_init
  Reach-IsValid libf_changed libf_sumused loaded = ((refl, refl), tt)
  Reach-IsValid libf_changed libf_sumused (next_step r s) =
      Step-IsValid s (Reach-IsValid libf_changed libf_sumused r)
