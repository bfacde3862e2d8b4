-- ===== src/Device/Events.antt =====
-- `DoEvent`: who is told of an event, and who goes on waiting.
use driver_amiga_os_ks.Device.Queues.{do_event, fire_all, fire}
use driver_amiga_os_ks.Prelude.{
  ℕ, List, ◌≡◌, ◌++◌, [], ◌∷◌, ap, if◌then◌else◌, has, sym, Bool, ◌∙◌, true, false, refl, bit_and,
}
use driver_amiga_os_ks.Device.Types.{DeviceUnit, Request, term_io, Completion, no_error, IoError}
use driver_amiga_os_ks.Device.Flushing.{completion}
use mathlib.Core.List.{append_assoc, append-nil}
use driver_amiga_os_ks.Device.Commands.{dev_cmd_on_event, already_happened}

-- The requests that wait for none of the events.
abbrev pub unfired : ℕ → List Request → List Request
unfired events [] = []
unfired events (r ∷ rs) =
    if has r.wire_error events then unfired events rs else r ∷ unfired events rs

-- The completions after the requests that wait for one of the events are told of them.
abbrev pub after_firing : ℕ → List Request → List Completion → List Completion
after_firing events [] done = done
after_firing events (r ∷ rs) done = after_firing events rs (
    if has r.wire_error events
    then completion (record r { io_error = no_error; wire_error = events }) ∷ done
    else done)

-- The unit after the requests of a list are told, or are put back.
abbrev fired : ℕ → List Request → DeviceUnit → DeviceUnit
fired events rs u = record u {
  events = u.events ++ unfired events rs;
  completed = after_firing events rs u.completed;
}

fired-either :
    (b : Bool) (events : ℕ) (r : Request) (rs : List Request) (u : DeviceUnit)
    → fired events rs (
        if b
        then term_io (record r { io_error = no_error; wire_error = events }) u
        else record u { events = u.events ++ r ∷ [] })
      ≡ record u {
        events = u.events ++ (if b then unfired events rs else r ∷ unfired events rs);
        completed = after_firing events rs (
            if b
            then completion (record r { io_error = no_error; wire_error = events }) ∷ u.completed
            else u.completed);
      }
unfolding term_io
fired-either true events r rs u = refl
fired-either false events r rs u =
    ap (λ waiting. record u { events = waiting; completed = after_firing events rs u.completed })
      (append_assoc u.events (r ∷ []) (unfired events rs))

fire_all_lem :
    (events : ℕ) (rs : List Request) (u : DeviceUnit) → fire_all events rs u ≡ fired events rs u
unfolding fire_all fire
fire_all_lem events [] u = ap (λ rs. record u { events = rs }) (sym (append-nil u.events))
fire_all_lem events (r ∷ rs) u =
    fire_all_lem events rs (fire events r u) ∙ fired-either (has r.wire_error events) events r rs u

-- `DoEvent` completes the requests that wait for one of the events, with the events and
-- S2ERR_NO_ERROR and in the order of the list; those that wait for none stay, in their order; nothing
-- else changes.
pub do_event_lem :
    (events : ℕ) (u : DeviceUnit)
    → do_event events u ≡ record u {
      events = unfired events u.events;
      completed = after_firing events u.events u.completed;
    }
unfolding do_event
do_event_lem events u = fire_all_lem events u.events (record u { events = [] })

-- An event request to a unit that is not yet in a state that it waits for, and that nobody else waits
-- at, is completed by the next of its events, with the events.
do_event-dev_cmd_on_event :
    (events : ℕ) (r : Request) (u : DeviceUnit)
    → already_happened r.wire_error u.is_online ≡ false
    → u.events ≡ []
    → has r.wire_error events ≡ true
    → do_event events (dev_cmd_on_event r u) ≡ record u {
      events = [];
      completed =
          completion (record r { io_error = IoError.no_error; wire_error = events }) ∷ u.completed;
    }
unfolding dev_cmd_on_event
do_event-dev_cmd_on_event events r u a n h =
    let now =
      term_io (record r { io_error = IoError.no_error; wire_error = bit_and r.wire_error 24 }) u in
    let waits = record u { events = u.events ++ r ∷ [] } in
    let told = record r { io_error = IoError.no_error; wire_error = events } in
    ap (λ b. do_event events (if b then now else waits)) a
    ∙ do_event_lem events waits
    ∙ ap
        (λ es. record u {
          events = unfired events (es ++ r ∷ []);
          completed = after_firing events (es ++ r ∷ []) u.completed;
        })
        n
    ∙ ap
        (λ b. record u {
          events = if b then [] else r ∷ [];
          completed = if b then completion told ∷ u.completed else u.completed;
        })
        h
