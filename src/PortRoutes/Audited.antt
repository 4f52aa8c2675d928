-- ===== src/PortRoutes/Audited.antt =====
-- The audit entries of the routes that open and close ports.
use serwebs.Prelude.{
  ◌≡◌, ◌∙◌, refl, inl, inr, String, Bool, true, false, ◌==◌, ◌&&◌, Option, none, some, List, [],
  ◌∷◌, ◌++◌, arith, Option-cases, Bool-cases, if◌then◌else◌,
}
use serwebs.Dict.{Dict, get, has, get-put, get-pop}
use serwebs.Models.{PortSettings}
use serwebs.Roles.{User, require_role}
use serwebs.Audit.{Entry}
use serwebs.Scan.{System, PortManager, scan_ports}
use serwebs.Ports.{OpenResult, ok, error, open_port, close_port, handle_device_error, udev_event}
use serwebs.Ports.Opening.{Opens, open_port_state}
use serwebs.PortRoutes.{
  list_ports, get_port, answer_open, answer_close, open_route, close_route, port_status,
}
use serwebs.PortRoutes.Asking.{
  Request, asks_list, asks_port, asks_open, asks_close, asks_status, device_event, device_error,
  periodic, step, run,
}

-- The entries that one request adds.
unfoldable pub entries : System → PortManager → Request → List Entry
entries sys m (asks_list all_tags) = (list_ports sys all_tags m).logged
entries sys m (asks_port all_tags k) = (get_port all_tags m k).logged
entries sys m (asks_open k settings user) = (open_route sys m k settings user).logged
entries sys m (asks_close k user) = (close_route sys m k user).logged
entries sys m (asks_status k) = (port_status m k).logged
entries sys m (device_event action _) = []
entries sys m (device_error k message) = []
entries sys m periodic = []

unfoldable pub run_log : PortManager → List (System × Request) → List Entry
unfolding entries step
run_log m [] = []
run_log m ((sys, r) ∷ rs) = entries sys m r ++ run_log (step sys m r) rs

-- Whether the last entry on the port that opens or closes it opens it; `was` is what was so before.
abbrev pub said_now : String → Bool → Entry → Bool
said_now k was e =
    if e.port_id == k
    then if e.event == "port_open" then true else if e.event == "port_close" then false else was
    else was

abbrev pub said_open : String → Bool → List Entry → Bool
said_open k was [] = was
said_open k was (e ∷ es) = said_open k (said_now k was e) es

said_open-append :
    (k : String) (es fs : List Entry) (was : Bool)
    → said_open k was (es ++ fs) ≡ said_open k (said_open k was es) fs
said_open-append k [] fs was = refl
said_open-append k (e ∷ es) fs was = said_open-append k es fs (said_now k was e)

-- A port with a worker was said to be open.
abbrev pub Accounts : PortManager → (String → Bool) → Type 0
Accounts m said = (k : String) → has k m.workers ≡ true → said k ≡ true

-- What a request leaves: each port with a worker either had one and is not said to be closed, or is
-- said to be opened.
abbrev Keeps : PortManager → PortManager → List Entry → Type 0
Keeps m m' es =
    (k : String) (was : Bool)
    → (has k m.workers ≡ true → was ≡ true)
    → has k m'.workers ≡ true
    → said_open k was es ≡ true

fewer-Keeps :
    (m m' : PortManager)
    → ((k : String) → has k m'.workers ≡ true → has k m.workers ≡ true)
    → Keeps m m' []
fewer-Keeps m m' f k was h g = h (f k g)

opened-Keeps :
    (m : PortManager) (k : String) (s : PortSettings) (user : User) (r : OpenResult × PortManager)
    → Opens m k r
    → Keeps m (answer_open k s user r).manager (answer_open k s user r).logged
unfolding answer_open
opened-Keeps m k s user (ok port, m') o j was h g =
    ground (arith, h, g, o.1, get-put k j o.0 m.workers)
opened-Keeps m k s user (error e, m') o j was h g = ground (arith, h, g, o.0)

open-Keeps :
    (sys : System) (m : PortManager) (k : String) (s : PortSettings) (user : User)
    → Keeps m (open_route sys m k s user).manager (open_route sys m k s user).logged
unfolding open_route
open-Keeps sys m k s user = elim (Bool-cases (require_role "admin" user)) [
  | inl e ↦ rw e (opened-Keeps m k s user (open_port sys m k s) (open_port_state sys m k s))
  | inr e ↦ rw e (λ j was h g. h g)
]

close-Keeps :
    (sys : System) (m : PortManager) (k : String) (user : User)
    → Keeps m (close_route sys m k user).manager (close_route sys m k user).logged
unfolding close_route answer_close close_port
close-Keeps sys m k user = elim (Bool-cases (require_role "admin" user)) [
  | inl e ↦ elim (Bool-cases (has k m.workers)) [
    | inl f ↦ rw (e, f) (λ j was h g. ground (arith, h, g, get-pop k j m.workers))
    | inr f ↦ rw (e, f) (λ j was h g. h g)
  ]
  | inr e ↦ rw e (λ j was h g. h g)
]

list-Keeps :
    (sys : System) (t : Dict (List String)) (m : PortManager)
    → Keeps m (list_ports sys t m).manager (list_ports sys t m).logged
unfolding list_ports scan_ports
list-Keeps sys t m j was h g = h g

look-Keeps :
    (t : Dict (List String)) (m : PortManager) (k : String)
    → Keeps m (get_port t m k).manager (get_port t m k).logged
look-Keeps t m k = elim (Option-cases (get k m.ports)) [
  | inl e ↦ unfold get_port in rw (get_port, e) (λ j was h g. h g)
  | inr (p, e) ↦ unfold get_port in rw (get_port, e) (λ j was h g. h g)
]

status-Keeps :
    (m : PortManager) (k : String) → Keeps m (port_status m k).manager (port_status m k).logged
status-Keeps m k = elim (Option-cases (get k m.ports)) [
  | inl e ↦ unfold port_status in rw (port_status, e) (λ j was h g. h g)
  | inr (p, e) ↦ unfold port_status in rw (port_status, e) (λ j was h g. h g)
]

error_fewer :
    (sys : System) (m : PortManager) (k message j : String)
    → has j (handle_device_error sys m k message).0.workers ≡ true
    → has j m.workers ≡ true
unfolding handle_device_error scan_ports
error_fewer sys m k message j h = ground (arith, h, get-pop k j m.workers)

udev_fewer :
    (sys : System) (m : PortManager) (action : String) (node : Option String) (j : String)
    → has j (udev_event sys m action node).0.workers ≡ true
    → has j m.workers ≡ true
udev_fewer sys m action none j = unfold udev_event in λ h. h
udev_fewer sys m action (some node) j =
    elim (Bool-cases (action == "remove" && has (sys.basename node) m.workers)) [
      | inl e ↦ unfold udev_event scan_ports in rw (e) (error_fewer sys m (sys.basename node) _ j)
      | inr e ↦ unfold udev_event scan_ports in rw (e) (λ h. h)
    ]

step-Keeps :
    (sys : System) (m : PortManager) (r : Request) → Keeps m (step sys m r) (entries sys m r)
unfolding step entries
step-Keeps sys m (asks_list t) = list-Keeps sys t m
step-Keeps sys m (asks_port t k) = look-Keeps t m k
step-Keeps sys m (asks_open k s user) = open-Keeps sys m k s user
step-Keeps sys m (asks_close k user) = close-Keeps sys m k user
step-Keeps sys m (asks_status k) = status-Keeps m k
step-Keeps sys m (device_event action node) =
    fewer-Keeps m (udev_event sys m action node).0 (λ j. udev_fewer sys m action node j)
step-Keeps sys m (device_error k message) =
    fewer-Keeps m (handle_device_error sys m k message).0 (λ j. error_fewer sys m k message j)
step-Keeps sys m periodic = unfold scan_ports in fewer-Keeps m (scan_ports sys m) (λ j h. h)

-- If each port with a worker is said to be open at the start, so is each port with a worker after any
-- requests, device events and device errors: the last audit entry that opens or closes it opens it.
pub run-Accounts :
    (m : PortManager) (rs : List (System × Request)) (said : String → Bool)
    → Accounts m said
    → Accounts (run m rs) (λ k. said_open k (said k) (run_log m rs))
unfolding run run_log
run-Accounts m [] said h k g = h k g
run-Accounts m ((sys, r) ∷ rs) said h k g =
    said_open-append k (entries sys m r) (run_log (step sys m r) rs) (said k)
    ∙ run-Accounts (step sys m r) rs (λ j. said_open j (said j) (entries sys m r))
        (λ j f. step-Keeps sys m r j (said j) (h j) f) k g
