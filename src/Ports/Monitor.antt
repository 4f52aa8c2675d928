-- ===== src/Ports/Monitor.antt =====
-- The monitor of `_udev_loop` (serwebs/port_manager.py): a thread puts the events of the devices in a
-- queue, from which the loop takes them one by one.
use serwebs.Prelude.{
  ℕ, ◌+◌, ◌≤◌, ◌≡◌, ◌∙◌, refl, ap, sym, subst, String, true, Option, List, [], ◌∷◌, ◌++◌,
  append_assoc, append-nil, length, length-append, ltb, arith, if◌then◌else◌,
}
use serwebs.Scan.{System, PortManager}
use serwebs.Ports.{udev_event}

-- `(device.action, device.device_node)`
abbrev pub Device : Type 0
Device = String × Option String

pub record Monitor : Type 0 where
  pub queue : List Device
  pub manager : PortManager

pub data Event : Type 0 where
  -- the thread gets an event
  arrives : Device → Event
  -- the loop takes one, if there is one; what the system answers meanwhile
  takes : System → Event

abbrev pub queue_size : ℕ
queue_size = 100

-- `queue.put_nowait`; a full queue loses the event.
unfoldable pub put_event : Monitor → Device → Monitor
put_event m d =
    if ltb (length m.queue) queue_size then record m { queue = m.queue ++ d ∷ [] } else m

unfoldable pub take_event : System → Monitor → List Device → Monitor
take_event sys m [] = m
take_event sys m (d ∷ rest) = record {
  queue = rest;
  manager = (udev_event sys m.manager d.0 d.1).0;
}

unfoldable pub step : Monitor → Event → Monitor
unfolding put_event take_event
step m (arrives d) = put_event m d
step m (takes sys) = take_event sys m m.queue

unfoldable pub run : Monitor → List Event → Monitor
unfolding step
run m [] = m
run m (e ∷ es) = run (step m e) es

-- The events that arrive.
abbrev pub arrived : List Event → List Device
arrived [] = []
arrived (arrives d ∷ es) = d ∷ arrived es
arrived (takes sys ∷ es) = arrived es

-- The port manager after it handled these events.
abbrev pub after : PortManager → List (System × Device) → PortManager
after m [] = m
after m ((sys, d) ∷ ds) = after (udev_event sys m d.0 d.1).0 ds

abbrev pub devices : List (System × Device) → List Device
devices [] = []
devices ((sys, d) ∷ ds) = d ∷ devices ds

-- What was handled, and what waits, is what arrived, in order.
abbrev pub IsHandled : Monitor → List Event → Monitor → Type 0
IsHandled m es m' =
    (handled : List (System × Device)) × ((m'.manager ≡ after m.manager handled)
      × ((devices handled ++ m'.queue) ≡ (m.queue ++ arrived es)))

take-IsHandled :
    (sys : System) (m : Monitor) (queue : List Device) (es : List Event)
    → m.queue ≡ queue
    → length queue + length (arrived es) ≤ queue_size
    → ((m' : Monitor)
        → length m'.queue + length (arrived es) ≤ queue_size
        → IsHandled m' es (run m' es))
    → IsHandled m es (run (take_event sys m queue) es)
unfolding take_event
take-IsHandled sys m [] es e fits rest = rest m (rw e fits)
take-IsHandled sys m (d ∷ queue) es e fits rest =
    let (handled, (manager, same)) =
      rest (record { queue = queue; manager = (udev_event sys m.manager d.0 d.1).0 })
        (omega (arith, fits)) in
    ((sys, d) ∷ handled, (manager, ap (λ ds. d ∷ ds) same ∙ ap (λ q. q ++ arrived es) (sym e)))

-- As long as no more than 100 events have arrived in all, with those that wait at the start, none is
-- lost: the port manager has handled the first of them, one after the other and in the order in which
-- they arrived, and the others wait.
pub run-IsHandled :
    (m : Monitor) (es : List Event)
    → length m.queue + length (arrived es) ≤ queue_size
    → IsHandled m es (run m es)
unfolding run step
run-IsHandled m [] fits = ([], (refl, sym (append-nil m.queue)))
run-IsHandled m (takes sys ∷ es) fits =
    take-IsHandled sys m m.queue es refl fits (λ m' f. run-IsHandled m' es f)
run-IsHandled m (arrives d ∷ es) fits =
    let room : ltb (length m.queue) queue_size ≡ true = ground (arith, fits) in
    let put : put_event m d ≡ record m { queue = m.queue ++ d ∷ [] } =
      unfold put_event in rw room refl in
    let (handled, (manager, same)) =
      run-IsHandled (record m { queue = m.queue ++ d ∷ [] }) es
        (omega (arith, fits, length-append m.queue (d ∷ []))) in
    subst (λ x. IsHandled m (arrives d ∷ es) (run x es)) (sym put)
      (handled, (manager, same ∙ append_assoc m.queue (d ∷ []) (arrived es)))
