-- ===== src/Device/Opening.antt =====
-- `DeviceOpen`: the counters, the flags, and the entries.
use driver_amiga_os_ks.Device.Lifecycle.{
  DeviceDriver, device_open, open_counted, open_flagged, open_checked, open_with, init_unit_process,
  new_unit, OpenEnvironment, BufferTags, open_failed, callbacks_of, check_flags, open_entry,
  open_unit, check_stack_space, stack_size_minimum, ed_maxunits, sana2opf_mine, sana2opf_prom,
}
use driver_amiga_os_ks.Prelude.{
  Option, ℕ, ◌≡◌, some, length, none, arith, ◌+◌, Bool, if◌then◌else◌, length-append, true, [],
  false, refl, ◌∙◌, ◌∷◌, sym, Bool-cases, inl, subst, ◌&&◌, inr, ltb, not, has, ◌||◌, ◌%◌, ap,
}
use driver_amiga_os_ks.Device.Types.{DeviceUnit, Request, Callbacks, no_error, openfail}

-- The openings of the unit, which is there while it has any.
abbrev pub unit_openings : Option DeviceUnit → ℕ
unit_openings none = 0
unit_openings (some u) = u.open_cnt

abbrev pub entries : Option DeviceUnit → ℕ
entries none = 0
entries (some u) = length u.buff_mgmt

-- The device, its unit and the list of entries count the same openings, modulo 65536.
abbrev pub IsCounted : DeviceDriver → Type 0
IsCounted d =
    (d.lib_open_cnt ≡ unit_openings d.device_unit)
    × (unit_openings d.device_unit ≡ entries d.device_unit % 65536)

-- During a call of `DeviceOpen` the library's count is one too high.
abbrev IsBorrowed : DeviceDriver → Type 0
IsBorrowed d =
    (d.lib_open_cnt ≡ (unit_openings d.device_unit + 1) % 65536)
    × (unit_openings d.device_unit ≡ entries d.device_unit % 65536)

-- What a part of `DeviceOpen` returns: the counts agree, one is added if the request is open, and the
-- request's error tells the same.
abbrev Opens : Request × DeviceDriver → DeviceDriver → Type 0
Opens (r, d') d =
    IsBorrowed d'
    × (d'.lib_open_cnt ≡ (d.lib_open_cnt + (if r.is_open then 1 else 0)) % 65536)
    × (r.io_error ≡ (if r.is_open then no_error else openfail))

module _ (libf_delexp : ℕ) where
  open_with-Opens :
      (callbacks : Callbacks) (r : Request) (u : DeviceUnit) (d : DeviceDriver)
      → d.lib_open_cnt ≡ (u.open_cnt + 1) % 65536
      → u.open_cnt ≡ length u.buff_mgmt % 65536
      → Opens (open_with libf_delexp callbacks r u d) d
  unfolding open_with
  open_with-Opens callbacks r u d a b = (
    (
      omega (arith, a),
      omega (
        arith,
        b,
        length-append u.buff_mgmt (record { callbacks = callbacks; rx_queue = [] } ∷ []),
      ),
    ),
    refl,
    refl,
  )

  failed-Opens :
      (r : Request) (d d' : DeviceDriver)
      → IsBorrowed d'
      → d'.lib_open_cnt ≡ d.lib_open_cnt
      → Opens (open_failed r, d') d
  unfolding open_failed
  failed-Opens r d d' h e = (h, omega (arith, e, h.0), refl)

  open_entry-Opens :
      (memory : Option ℕ) (env : OpenEnvironment) (tags : BufferTags) (r : Request)
      → (u : DeviceUnit) (d : DeviceDriver) → d.lib_open_cnt ≡ (u.open_cnt + 1) % 65536
      → u.open_cnt ≡ length u.buff_mgmt % 65536
      → Opens (open_entry libf_delexp memory env tags r u d) d
  unfolding open_entry
  open_entry-Opens none env tags r u d a b =
      failed-Opens r d (record d { device_unit = some u }) (a, b) refl
  open_entry-Opens (some address) env tags r u d a b =
      open_with-Opens (callbacks_of env address tags) r u d a b

  open_unit-Opens :
      (unit : Option DeviceUnit) (env : OpenEnvironment) (tags : BufferTags) (r : Request)
      → (d : DeviceDriver) → IsBorrowed d
      → unit_openings unit ≡ unit_openings d.device_unit
      → entries unit ≡ entries d.device_unit
      → Opens (open_unit libf_delexp unit env tags r d) d
  unfolding open_unit
  open_unit-Opens none env tags r d h o e = failed-Opens r d d h refl
  open_unit-Opens (some u) env tags r d (a, b) o e =
      open_entry-Opens env.memory env tags r u d (omega (arith, a, o))
        (o ∙ b ∙ ap (λ n. n % 65536) (sym e))

  init_unit_process-openings :
      (env : OpenEnvironment) (unit : Option DeviceUnit)
      → (unit_openings (init_unit_process env unit) ≡ unit_openings unit)
        × (entries (init_unit_process env unit) ≡ entries unit)
  unfolding init_unit_process new_unit
  init_unit_process-openings env none = (ground arith, ground arith)
  init_unit_process-openings env (some u) = (refl, refl)

  open_checked-Opens :
      (env : OpenEnvironment) (tags : BufferTags) (r : Request) (d : DeviceDriver)
      → IsBorrowed d
      → Opens (open_checked libf_delexp env tags r d) d
  unfolding open_checked
  open_checked-Opens env tags r d h = elim (Bool-cases env.probe_ok) [
    | inl e ↦
        subst
          (λ b.
            Opens
              (if b
                then open_unit libf_delexp (init_unit_process env d.device_unit) env tags r d
                else (open_failed r, d))
              d)
          (sym e)
          (open_unit-Opens (init_unit_process env d.device_unit) env tags r d h
            (init_unit_process-openings env d.device_unit).0
            (init_unit_process-openings env d.device_unit).1)
    | inr e ↦
        subst
          (λ b.
            Opens
              (if b
                then open_unit libf_delexp (init_unit_process env d.device_unit) env tags r d
                else (open_failed r, d))
              d)
          (sym e) (failed-Opens r d d h refl)
  ]

  open_flagged-Opens :
      (env : OpenEnvironment) (tags : BufferTags) (r : Request) (p : Bool × ℕ) (d : DeviceDriver)
      → IsBorrowed d
      → Opens (open_flagged libf_delexp env tags r p d) d
  unfolding open_flagged
  open_flagged-Opens env tags r (true, flags) d h =
      open_checked-Opens env tags r (record d { lib_flags = flags }) h
  open_flagged-Opens env tags r (false, flags) d h =
      failed-Opens r d (record d { lib_flags = flags }) h refl

  open_counted-Opens :
      (env : OpenEnvironment) (tags : BufferTags) (r : Request) (s2unit s2flags : ℕ)
      → (d : DeviceDriver) → IsBorrowed d
      → Opens (open_counted libf_delexp env tags r s2unit s2flags d) d
  unfolding open_counted
  open_counted-Opens env tags r s2unit s2flags d h =
      let checked = check_flags s2flags d.lib_open_cnt d.lib_flags in
      let test = check_stack_space env.stack_size stack_size_minimum && ltb s2unit ed_maxunits in
      elim (Bool-cases test) [
        | inl e ↦
            subst
              (λ b.
                Opens
                  (if b then open_flagged libf_delexp env tags r checked d else (open_failed r, d))
                  d)
              (sym e) (open_flagged-Opens env tags r checked d h)
        | inr e ↦
            subst
              (λ b.
                Opens
                  (if b then open_flagged libf_delexp env tags r checked d else (open_failed r, d))
                  d)
              (sym e) (failed-Opens r d d h refl)
      ]

  -- `DeviceOpen`, on every path through it: if the counts of the device, its unit and the list of
  -- entries agree before, as numbers of 16 bits, they agree after; they are one higher, modulo 65536,
  -- exactly when the request comes back open; and it comes back with S2ERR_NO_ERROR if it is open, and
  -- with IOERR_OPENFAIL if not.
  pub device_open-IsCounted :
      (env : OpenEnvironment) (tags : BufferTags) (r : Request) (s2unit s2flags : ℕ)
      → (d : DeviceDriver) → IsCounted d
      → IsCounted (device_open libf_delexp env tags r s2unit s2flags d).1
        × ((device_open libf_delexp env tags r s2unit s2flags d).1.lib_open_cnt
            ≡ (d.lib_open_cnt
                + (if (device_open libf_delexp env tags r s2unit s2flags d).0.is_open
                    then 1
                    else 0))
              % 65536)
        × ((device_open libf_delexp env tags r s2unit s2flags d).0.io_error ≡ (
            if (device_open libf_delexp env tags r s2unit s2flags d).0.is_open
            then no_error
            else openfail))
  unfolding device_open
  device_open-IsCounted env tags r s2unit s2flags d (a, b) =
      let during = record d { lib_open_cnt = (d.lib_open_cnt + 1) % 65536 } in
      let opened =
        open_counted-Opens env tags r s2unit s2flags during (ap (λ n. (n + 1) % 65536) a, b) in
      (
        (omega (arith, opened.0.0, opened.0.1), opened.0.1),
        omega (arith, opened.1, opened.0.0, a, b),
        opened.2,
      )

-- An open passes its flags exactly when SANA2OPF_MINE comes with no other open and SANA2OPF_PROM comes
-- with SANA2OPF_MINE; the flags that earlier opens left, exclusive mode among them, do not matter.
check_flags_lem :
    (s2flags open_cnt flags : ℕ)
    → (check_flags s2flags open_cnt flags).0 ≡ (
        not (has s2flags sana2opf_mine && ltb 1 open_cnt)
        && (not (has s2flags sana2opf_prom) || has s2flags sana2opf_mine))
unfolding check_flags
check_flags_lem s2flags open_cnt flags = ground arith
