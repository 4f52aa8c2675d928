-- ===== src/PortRoutes/Asking.antt =====
-- Any history of requests and of events of the system.
use serwebs.Prelude.{
  ◌≡◌, refl, subst, inl, inr, String, Option, none, some, List, [], ◌∷◌, arith, Option-cases,
  Bool-cases,
}
use serwebs.Dict.{Dict, get, get_or, has}
use serwebs.Dict.Sums.{IsUnique, put-IsUnique}
use serwebs.Models.{PortSettings, PortInfo}
use serwebs.Roles.{User, require_role}
use serwebs.Worker.{SerialWorker}
use serwebs.Scan.{System, PortManager, scan_ports}
use serwebs.Ports.{OpenResult, ok, error, open_port, handle_device_error, udev_event}
use serwebs.PortRoutes.{
  tagged, tag_all, list_ports, get_port, answer_open, open_route, close_route, port_status,
}
use serwebs.PortRoutes.Shown.{
  IsShown, Tells, AllTell, put-Tells, scan-IsShown, open_port-IsShown, close_port-IsShown,
  error-IsShown, udev_event-IsShown,
}

pub data Request : Type 0 where
  asks_list : Dict (List String) → Request
  asks_port : Dict (List String) → String → Request
  asks_open : String → PortSettings → User → Request
  asks_close : String → User → Request
  asks_status : String → Request
  -- the events of the monitor and of a worker, and the periodic scan
  device_event : String → Option String → Request
  device_error : String → String → Request
  periodic : Request

unfoldable pub step : System → PortManager → Request → PortManager
step sys m (asks_list all_tags) = (list_ports sys all_tags m).manager
step sys m (asks_port all_tags k) = (get_port all_tags m k).manager
step sys m (asks_open k settings user) = (open_route sys m k settings user).manager
step sys m (asks_close k user) = (close_route sys m k user).manager
step sys m (asks_status k) = (port_status m k).manager
step sys m (device_event action node) = (udev_event sys m action node).0
step sys m (device_error k message) = (handle_device_error sys m k message).0
step sys m periodic = scan_ports sys m

-- What the system answers may change from request to request.
unfoldable pub run : PortManager → List (System × Request) → PortManager
run m [] = m
run m ((sys, r) ∷ rs) = run (step sys m r) rs

module _ (t : Dict (List String)) where
  get-tag_all :
      (k : String) (d : Dict PortInfo)
      → get k (tag_all t d) ≡ (elim (get k d) [ none ↦ none | some p ↦ some (tagged t p) ])
  unfolding tag_all get
  get-tag_all k [] = refl
  get-tag_all k ((j, p) ∷ d) = ground (arith, get-tag_all k d)

  tag_all-IsUnique : (d : Dict PortInfo) → IsUnique d → IsUnique (tag_all t d)
  unfolding tag_all
  tag_all-IsUnique [] u = tt
  tag_all-IsUnique ((k, p) ∷ d) u = (ground (arith, get-tag_all k d, u.0), tag_all-IsUnique d u.1)

  tag_all-AllTell :
      (ws : Dict SerialWorker) (d : Dict PortInfo) → AllTell ws d → AllTell ws (tag_all t d)
  tag_all-AllTell ws d all k q e = elim (Option-cases (get k d)) [
    | inl f ↦ ground (arith, get-tag_all k d)
    | inr (p, f) ↦
        subst (Tells ws k) (let e' : tagged t p ≡ q = ground (arith, get-tag_all k d) in e')
          (all k p f)
  ]

list-IsShown :
    (sys : System) (t : Dict (List String)) (m : PortManager)
    → IsShown m
    → IsShown (list_ports sys t m).manager
unfolding list_ports
list-IsShown sys t m h =
    let h' : IsShown (scan_ports sys m) = scan-IsShown sys m h.unique_workers in
    record {
      unique_workers = h'.unique_workers;
      unique_ports = tag_all-IsUnique t (scan_ports sys m).ports h'.unique_ports;
      tell = tag_all-AllTell t (scan_ports sys m).workers (scan_ports sys m).ports h'.tell;
    }

look-IsShown :
    (t : Dict (List String)) (m : PortManager) (k : String)
    → IsShown m
    → IsShown (get_port t m k).manager
unfolding get_port
look-IsShown t m k h = elim (Option-cases (get k m.ports)) [
  | inl e ↦ rw (get_port, e) h
  | inr (p, e) ↦
      rw (get_port, e)
        record {
          unique_workers = h.unique_workers;
          unique_ports = put-IsUnique k _ m.ports h.unique_ports;
          tell =
              put-Tells m.workers k (record p { tags = get_or k [] t }) m.ports (h.tell k p e)
                (λ j q other g. h.tell j q g);
        }
]

answer_open-manager :
    (k : String) (s : PortSettings) (user : User) (r : OpenResult × PortManager)
    → (answer_open k s user r).manager ≡ r.1
unfolding answer_open
answer_open-manager k s user (ok p, m) = refl
answer_open-manager k s user (error e, m) = refl

open-IsShown :
    (sys : System) (m : PortManager) (k : String) (s : PortSettings) (user : User)
    → IsShown m
    → IsShown (open_route sys m k s user).manager
unfolding open_route
open-IsShown sys m k s user h = elim (Bool-cases (require_role "admin" user)) [
  | inl e ↦
      rw (e, answer_open-manager k s user (open_port sys m k s)) (open_port-IsShown sys m k s h)
  | inr e ↦ rw e h
]

close-IsShown :
    (sys : System) (m : PortManager) (k : String) (user : User)
    → IsShown m
    → IsShown (close_route sys m k user).manager
unfolding close_route
close-IsShown sys m k user h = elim (Bool-cases (require_role "admin" user)) [
  | inl e ↦ elim (Bool-cases (has k m.workers)) [
    | inl f ↦ rw (e, f) (close_port-IsShown sys m k h)
    | inr f ↦ rw (e, f) h
  ]
  | inr e ↦ rw e h
]

status-IsShown : (m : PortManager) (k : String) → IsShown m → IsShown (port_status m k).manager
unfolding port_status
status-IsShown m k h = elim (Option-cases (get k m.ports)) [
  | inl e ↦ rw (port_status, e) h
  | inr (p, e) ↦ rw (port_status, e) h
]

pub step-IsShown :
    (sys : System) (m : PortManager) (r : Request) → IsShown m → IsShown (step sys m r)
unfolding step
step-IsShown sys m (asks_list t) h = list-IsShown sys t m h
step-IsShown sys m (asks_port t k) h = look-IsShown t m k h
step-IsShown sys m (asks_open k s user) h = open-IsShown sys m k s user h
step-IsShown sys m (asks_close k user) h = close-IsShown sys m k user h
step-IsShown sys m (asks_status k) h = status-IsShown m k h
step-IsShown sys m (device_event action node) h = udev_event-IsShown sys m action node h
step-IsShown sys m (device_error k message) h = error-IsShown sys m k message h
step-IsShown sys m periodic h = scan-IsShown sys m h.unique_workers

pub run-IsShown : (m : PortManager) (rs : List (System × Request)) → IsShown m → IsShown (run m rs)
unfolding run
run-IsShown m [] h = h
run-IsShown m ((sys, r) ∷ rs) h = run-IsShown (step sys m r) rs (step-IsShown sys m r h)
