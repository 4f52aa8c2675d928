-- ===== src/PortRoutes/Shown.antt =====
-- The ports that the manager keeps, against its workers, after any method and any route.
use serwebs.Prelude.{
  ◌≡◌, ◌∙◌, refl, subst, leb, length, ◌⊎◌, inl, inr, String, Bool, true, false, ◌==◌, ◌&&◌, eq_iff,
  eq_refl, Option, none, some, arith, Option-cases, Bool-cases, if◌then◌else◌,
}
use serwebs.Dict.{Dict, get, put, pop, has, get-put, get-pop}
use serwebs.Dict.Sums.{IsUnique, put-IsUnique, pop-IsUnique}
use serwebs.Models.{free, is_busy, PortSettings, PortInfo}
use serwebs.Scan.{System, PortManager, scan_ports}
use serwebs.Scan.Unique.{scan-IsUnique}
use serwebs.Scan.Status.{Agrees, scan_ports-AllAgree}
use serwebs.Worker.{SerialWorker}
use serwebs.Ports.{
  OpenResult, error, max_reached, already_open, port_busy, no_access, with_timeouts, start_worker,
  open_known, open_or_scan, open_port, close_port, handle_device_error, udev_event, set_free,
}
use serwebs.Ports.Opening.{live_worker, opened_info, start_worker_cases}
use serwebs.PortRoutes.{is_open}

-- What a kept port has to say: it is under its own id, and where it is shown as open there is a
-- worker for it, whose settings it shows.
abbrev pub Tells : Dict SerialWorker → String → PortInfo → Type 0
Tells workers k p =
    (p.id ≡ k)
    × (is_open p.status ≡ true
        → (w : SerialWorker) × (get k workers ≡ some w) × (p.settings ≡ some w.settings))

abbrev pub AllTell : Dict SerialWorker → Dict PortInfo → Type 0
AllTell workers ports = (k : String) (p : PortInfo) → get k ports ≡ some p → Tells workers k p

pub record IsShown (m : PortManager) : Type 0 where
  pub unique_workers : IsUnique m.workers
  pub unique_ports : IsUnique m.ports
  pub tell : AllTell m.workers m.ports

Agrees-Tells :
    (sys : System) (m : PortManager) (k : String) (p : PortInfo)
    → Agrees sys m k p
    → Tells m.workers k p
Agrees-Tells sys m k p (i, inl (w, e, s, t, c), b) = (i, λ _. (w, e, t))
Agrees-Tells sys m k p (i, inr (e, s, t, c), b) =
    (i, λ h. absurd (elim s [ inl f ↦ ground (arith, f, h) | inr f ↦ ground (arith, f, h) ]))

pub scan-IsShown :
    (sys : System) (m : PortManager) → IsUnique m.workers → IsShown (scan_ports sys m)
unfolding scan_ports
scan-IsShown sys m u = record {
  unique_workers = u;
  unique_ports = scan-IsUnique sys m;
  tell = λ k p e. Agrees-Tells sys m k p ((scan_ports-AllAgree sys m u).0 k p e);
}

pub put-Tells :
    (ws : Dict SerialWorker) (k : String) (p : PortInfo) (ports : Dict PortInfo)
    → Tells ws k p
    → ((j : String) (q : PortInfo) → (k == j) ≡ false → get j ports ≡ some q → Tells ws j q)
    → AllTell ws (put k p ports)
put-Tells ws k p ports t all j q e = elim (Bool-cases (k == j)) [
  | inl same ↦
      subst (λ i. Tells ws i q) ((eq_iff k j).0 same)
        (subst (Tells ws k) (let e' : p ≡ q = ground (arith, get-put k j p ports) in e') t)
  | inr other ↦ all j q other (ground (arith, get-put k j p ports))
]

-- The workers of the other ports.
other-Tells :
    (ws ws' : Dict SerialWorker) (k j : String) (q : PortInfo)
    → get j ws' ≡ get j ws
    → Tells ws j q
    → Tells ws' j q
other-Tells ws ws' k j q e (i, t) = (i, λ h. let (w, g, s) = t h in (w, e ∙ g, s))

start-IsShown :
    (sys : System) (m : PortManager) (k : String) (port : PortInfo) (s : PortSettings)
    → get k m.ports ≡ some port
    → IsShown m
    → IsShown (start_worker sys m k port s).1
start-IsShown sys m k port s known h = elim (start_worker_cases sys m k port s) [
  | inl e ↦
      let w : SerialWorker = live_worker port s in
      let ws' : Dict SerialWorker = put k w m.workers in
      let now : get k ws' ≡ some w = ground (arith, get-put k k w m.workers, eq_refl k) in
      rw e record {
        unique_workers = put-IsUnique k w m.workers h.unique_workers;
        unique_ports = put-IsUnique k (opened_info port s) m.ports h.unique_ports;
        tell =
            put-Tells ws' k (opened_info port s) m.ports
              ((h.tell k port known).0, λ _. (w, now, refl))
              (λ j q other g.
                other-Tells m.workers ws' k j q (ground (arith, get-put k j w m.workers))
                  (h.tell j q g));
      }
  | inr (x, e) ↦ rw e h
]

IsShown-if :
    (b : Bool) (x y : OpenResult × PortManager)
    → IsShown x.1
    → IsShown y.1
    → IsShown (if b then x else y).1
IsShown-if true x y p q = p
IsShown-if false x y p q = q

known-IsShown :
    (sys : System) (m : PortManager) (k : String) (port : PortInfo) (s : PortSettings)
    → get k m.ports ≡ some port
    → IsShown m
    → IsShown (open_known sys m k port s).1
unfolding open_known
known-IsShown sys m k port s known h =
    let s' : PortSettings = with_timeouts sys s in
    let later : OpenResult × PortManager =
      if sys.accessible port.device then start_worker sys m k port s' else (error no_access, m) in
    IsShown-if (is_busy port.status) (error port_busy, m) later h
      (IsShown-if (sys.accessible port.device) (start_worker sys m k port s') (error no_access, m)
        (start-IsShown sys m k port s' known h) h)

open_or_scan-IsShown :
    (sys : System) (m : PortManager) (k : String) (s : PortSettings)
    → IsShown m
    → IsShown (open_or_scan sys m k s).1
unfolding open_or_scan
open_or_scan-IsShown sys m k s h = elim (Option-cases (get k m.ports)) [
  | inr (port, e) ↦ rw (open_or_scan, e) (known-IsShown sys m k port s e h)
  | inl e ↦
      let h' : IsShown (scan_ports sys m) = scan-IsShown sys m h.unique_workers in
      elim (Option-cases (get k (scan_ports sys m).ports)) [
        | inr (port, f) ↦
            rw (open_or_scan, e, f) (known-IsShown sys (scan_ports sys m) k port s f h')
        | inl f ↦ rw (open_or_scan, e, f) h'
      ]
]

pub open_port-IsShown :
    (sys : System) (m : PortManager) (k : String) (s : PortSettings)
    → IsShown m
    → IsShown (open_port sys m k s).1
unfolding open_port
open_port-IsShown sys m k s h =
    let later : OpenResult × PortManager =
      if has k m.workers then (error already_open, m) else open_or_scan sys m k s in
    IsShown-if (leb sys.max_ports (length m.workers)) (error max_reached, m) later h
      (IsShown-if (has k m.workers) (error already_open, m) (open_or_scan sys m k s) h
        (open_or_scan-IsShown sys m k s h))

set_free-cases :
    (k : String) (ports : Dict PortInfo)
    → ((get k ports ≡ none) × (set_free k ports ≡ ports))
      ⊎ ((p : PortInfo) × (get k ports ≡ some p)
          × (set_free k ports
              ≡ put k (record p { status = free; settings = none; clients = 0 }) ports))
unfolding set_free
set_free-cases k ports = elim (Option-cases (get k ports)) [
  | inl e ↦ inl (e, ground arith)
  | inr (p, e) ↦ inr (p, e, ground arith)
]

pub close_port-IsShown :
    (sys : System) (m : PortManager) (k : String) → IsShown m → IsShown (close_port sys m k).0
unfolding close_port
close_port-IsShown sys m k h =
    let ws' : Dict SerialWorker = pop k m.workers in
    let rest : (j : String) (q : PortInfo)
        → (k == j) ≡ false
        → get j m.ports ≡ some q
        → Tells ws' j q =
      λ j q other g.
        other-Tells m.workers ws' k j q (ground (arith, get-pop k j m.workers)) (h.tell j q g) in
    elim (set_free-cases k m.ports) [
      | inl (e, f) ↦ record {
        unique_workers = pop-IsUnique k m.workers h.unique_workers;
        unique_ports = rw f h.unique_ports;
        tell = rw f (λ j q g. rest j q (ground (arith, e, g, eq_iff k j)) g);
      }
      | inr (p, e, f) ↦ record {
        unique_workers = pop-IsUnique k m.workers h.unique_workers;
        unique_ports = rw f (put-IsUnique k _ m.ports h.unique_ports);
        tell = rw f (put-Tells ws' k _ m.ports ((h.tell k p e).0, λ a. ground (arith, a)) rest);
      }
    ]

pub error-IsShown :
    (sys : System) (m : PortManager) (k message : String)
    → IsShown m
    → IsShown (handle_device_error sys m k message).0
unfolding handle_device_error
error-IsShown sys m k message h = scan-IsShown sys _ (pop-IsUnique k m.workers h.unique_workers)

-- An event of the monitor ends with a scan.
pub udev_event-IsShown :
    (sys : System) (m : PortManager) (action : String) (node : Option String)
    → IsShown m
    → IsShown (udev_event sys m action node).0
unfolding udev_event
udev_event-IsShown sys m action none h = h
udev_event-IsShown sys m action (some node) h =
    let k : String = sys.basename node in
    elim (Bool-cases (action == "remove" && has k m.workers)) [
      | inl e ↦ rw e (scan-IsShown sys _ (error-IsShown sys m k _ h).unique_workers)
      | inr e ↦ rw e (scan-IsShown sys m h.unique_workers)
    ]
