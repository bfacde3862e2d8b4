-- ===== src/Device/Queueing.antt =====
-- Requests that `DeviceBeginIO` leaves to the unit process.
use mathlib.Core.List.{append-nil, append_assoc}
use driver_amiga_os_ks.Prelude.{
  List, Bool, false, true, ◌∷◌, ◌≡◌, ◌++◌, [], ap, sym, arith, if◌then◌else◌, ◌∙◌, length,
}
use driver_amiga_os_ks.Device.Types.{Request, nt_message, DeviceUnit}
use driver_amiga_os_ks.Device.Stack.{Stack}
use driver_amiga_os_ks.Device.Commands.{Environment}
use driver_amiga_os_ks.Device.Dispatch.{
  device_begin_io, serve_port, perform_all, is_performed_now, perform_io,
}
use driver_amiga_os_ks.Device.Loops.Termination.{put_port-perform_all, port_loop-serve_port}

-- A request as it waits in the message port.
abbrev pub queued : Request → Request
queued r = record r { node_type = nt_message; quick = false }

-- The requests that the unit process is to perform, as they wait.
abbrev pub left_of : List Request → List Request
left_of [] = []
left_of (r ∷ rs) = if is_performed_now r.command then left_of rs else queued r ∷ left_of rs

-- The requests that are performed at once.
abbrev pub now_of : List Request → List Request
now_of [] = []
now_of (r ∷ rs) = if is_performed_now r.command then r ∷ now_of rs else now_of rs

module _ (stack : Stack) (env : Environment) (memory : Bool) where
  abbrev pub begin_all : List Request → DeviceUnit → DeviceUnit
  begin_all [] u = u
  begin_all (r ∷ rs) u = begin_all rs (device_begin_io stack env memory r u)

  msg_port-perform_io :
      (r : Request) (u : DeviceUnit) → (perform_io stack env memory r u).msg_port ≡ u.msg_port
  unfolding perform_all
  msg_port-perform_io r u =
      ap (λ v. v.msg_port) (sym (put_port-perform_all stack env memory u.msg_port (r ∷ []) u))

  begin_all_lem :
      (rs : List Request) (u : DeviceUnit)
      → begin_all rs u ≡ record (perform_all stack env memory (now_of rs) u) {
        msg_port = u.msg_port ++ left_of rs;
      }
  unfolding device_begin_io perform_all
  begin_all_lem [] u = ap (λ port. record u { msg_port = port }) (sym (append-nil u.msg_port))
  begin_all_lem (r ∷ rs) u = begun (λ v. begin_all_lem rs v) (is_performed_now r.command)
    where
      next : DeviceUnit
      next = record u { msg_port = u.msg_port ++ queued r ∷ [] }

      begun :
          ((v : DeviceUnit)
            → begin_all rs v ≡ record (perform_all stack env memory (now_of rs) v) {
              msg_port = v.msg_port ++ left_of rs;
            })
          → (b : Bool)
          → begin_all rs (if b then perform_io stack env memory r u else next)
            ≡ record (perform_all stack env memory (if b then r ∷ now_of rs else now_of rs) u) {
              msg_port = u.msg_port ++ (if b then left_of rs else queued r ∷ left_of rs);
            }
      begun lem true =
          let v = perform_io stack env memory r u in
          lem v
          ∙ ap {A = List Request}
              (λ port. record (perform_all stack env memory (now_of rs) v) {
                msg_port = port ++ left_of rs;
              })
              (msg_port-perform_io r u)
      begun lem false =
          lem next
          ∙ ap {A = DeviceUnit} (λ v. record v { msg_port = next.msg_port ++ left_of rs })
              (sym (put_port-perform_all stack env memory next.msg_port (now_of rs) u))
          ∙ ap (λ port. record (perform_all stack env memory (now_of rs) u) { msg_port = port })
              (append_assoc u.msg_port (queued r ∷ []) (left_of rs))

  -- Whatever requests clients begin one after the other, a round over the message port then leaves the
  -- unit as if those that are performed at once had been performed first, in their order, and then those
  -- that waited in the port before and the others that were begun, in their order and each without
  -- IOF_QUICK; none of them is left in the port.
  pub serve_port-begin_all :
      (rs : List Request) (u : DeviceUnit)
      → (serve_port stack env memory (begin_all rs u)
          ≡ perform_all stack env memory
              (u.msg_port ++ left_of rs)
              (perform_all stack env memory (now_of rs) (record u { msg_port = [] })))
        × ((serve_port stack env memory (begin_all rs u)).msg_port ≡ [])
  unfolding serve_port
  serve_port-begin_all rs u = (
    ap (serve_port stack env memory) (begin_all_lem rs u)
        ∙ ap (perform_all stack env memory (u.msg_port ++ left_of rs))
            (put_port-perform_all stack env memory [] (now_of rs) u),
    (port_loop-serve_port stack env memory (length (begin_all rs u).msg_port) (begin_all rs u)
        (omega arith)).1,
  )
