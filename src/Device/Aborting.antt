-- ===== src/Device/Aborting.antt =====
-- `DeviceAbortIO`: which request it aborts.
use driver_amiga_os_ks.Device.Types.{
  IoError, DeviceUnit, aborted, Request, Command, bad_argument, term_io, cmd_read, s2_broadcast,
  cmd_write, s2_onevent, s2_readorphan, software,
}
use driver_amiga_os_ks.Device.Queues.{set_rx_queue, rx_queue_of}
use driver_amiga_os_ks.Prelude.{
  some, ℕ, List, ◌≡◌, some, ◌∷◌, ◌⊎◌, ◌++◌, [], ◌==◌, Bool, true, not, ◌&&◌,
}

-- No request of the list stands at the address.
abbrev pub lists_none : ℕ → List Request → Bool
lists_none address [] = true
lists_none address (r ∷ rs) = not (r.address == address) && lists_none address rs

-- The list is `p.0`, then the request `p.1`, the first at the address, then `p.2`.
abbrev pub IsFirst : ℕ → List Request → List Request × Request × List Request → Type 0
IsFirst address list p =
    (list ≡ p.0 ++ p.1 ∷ p.2) × (lists_none address p.0 ≡ true) × (p.1.address ≡ address)

-- Either the list, which the unit has where `put` puts one, has no request at the address: then the unit
-- stays as it was. Or the first such request is answered as aborted, and the others stay in their order.
abbrev pub AbortsIn :
    ℕ
    → List Request
    → (List Request → DeviceUnit → DeviceUnit)
    → DeviceUnit
    → IoError × DeviceUnit
    → Type 0
AbortsIn address list put u result =
    ((lists_none address list ≡ true) × (result ≡ (bad_argument, u)))
    ⊎ ((p : List Request × Request × List Request) × IsFirst address list p
        × (result ≡ (aborted, put (p.0 ++ p.2) (term_io (record (p.1) { io_error = aborted }) u))))

-- The list that the command of a request waits in.
abbrev pub AbortsBy : Command → Request → DeviceUnit → IoError × DeviceUnit → Type 0
AbortsBy cmd_read r u =
    AbortsIn r.address (rx_queue_of r.buffer_management.id u.buff_mgmt)
      (λ queue v. record v { buff_mgmt = set_rx_queue r.buffer_management.id queue v.buff_mgmt }) u
AbortsBy s2_broadcast r u = AbortsIn r.address u.tx (λ queue v. record v { tx = queue }) u
AbortsBy cmd_write r u = AbortsIn r.address u.tx (λ queue v. record v { tx = queue }) u
AbortsBy s2_onevent r u = AbortsIn r.address u.events (λ queue v. record v { events = queue }) u
AbortsBy s2_readorphan r u =
    AbortsIn r.address u.read_orphan (λ queue v. record v { read_orphan = queue }) u
AbortsBy _ r u = λ result. result ≡ (software, u)
