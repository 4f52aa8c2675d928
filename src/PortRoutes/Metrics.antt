-- ===== src/PortRoutes/Metrics.antt =====
-- What the metrics say of the open ports.
use serwebs.Prelude.{
  ◌≡◌, ◌∙◌, refl, ap, sym, subst, inl, inr, String, true, eq_iff, Option, none, some, List, [], ◌∷◌,
  length, arith, Option-cases, Bool-cases, if◌then◌else◌,
}
use serwebs.Dict.{Dict, get, put, get-put, values}
use serwebs.Dict.Sums.{IsUnique, Entries, Entries-self}
use serwebs.Models.{PortInfo}
use serwebs.Roles.{User, require_role}
use serwebs.Worker.{SerialWorker}
use serwebs.Scan.{System, PortManager}
use serwebs.Ws.{WsManager, client_count, total_clients}
use serwebs.PortRoutes.{
  is_open, rate_of, PortMetrics, metrics_of, MetricsResponse, open_metrics, metrics,
}
use serwebs.PortRoutes.Shown.{IsShown, AllTell}
use serwebs.PortRoutes.Asking.{Request, run, run-IsShown}

-- The metrics of one port.
abbrev of_port : WsManager → Option PortInfo → Option PortMetrics
of_port ws none = none
of_port ws (some p) = if is_open p.status then some (metrics_of ws p) else none

abbrev or_found : Option PortMetrics → Option PortMetrics → Option PortMetrics
or_found none found = found
or_found (some i) found = some i

-- Each port stands under its own id.
abbrev OwnId : Dict PortInfo → Type 0
OwnId [] = Unit
OwnId ((k, p) ∷ d) = (p.id ≡ k) × OwnId d

ports-OwnId :
    (ws : Dict SerialWorker) (all d : Dict PortInfo) → AllTell ws all → Entries all d → OwnId d
ports-OwnId ws all [] t es = tt
ports-OwnId ws all ((k, p) ∷ d) t es = ((t k p es.0).0, ports-OwnId ws all d t es.1)

get-open_metrics :
    (ws : WsManager) (d : Dict PortInfo) (found : Dict PortMetrics) (k : String)
    → IsUnique d
    → OwnId d
    → get k (open_metrics ws (values d) found) ≡ or_found (of_port ws (get k d)) (get k found)
unfolding open_metrics values get
get-open_metrics ws [] found k u o = refl
get-open_metrics ws ((j, p) ∷ d) found k u o =
    let then_found : Dict PortMetrics =
      if is_open p.status then put p.id (metrics_of ws p) found else found in
    ground (
      arith,
      get-open_metrics ws d then_found k u.1 o.1,
      get-put p.id k (metrics_of ws p) found,
      u.0,
      o.0,
      eq_iff j k,
      eq_iff p.id k,
    )

-- What the answer says, against the manager it is about: the number of workers; each port that is
-- shown as open with its own line; and no line but that of a port with a worker, at the worker's
-- baud rate and with the clients that are connected now.
abbrev pub Reports : PortManager → MetricsResponse → Type 0
Reports m r =
    (r.open_ports ≡ length m.workers)
    × ((k : String) (p : PortInfo)
        → get k m.ports ≡ some p
        → is_open p.status ≡ true
        → get k r.ports ≡ some (metrics_of m.ws p))
    × ((k : String) (i : PortMetrics)
        → get k r.ports ≡ some i
        → (w : SerialWorker) × (get k m.workers ≡ some w)
          × (i.baudrate ≡ some w.settings.baudrate)
          × (i.clients ≡ client_count m.ws k))

of_port-line :
    (m : PortManager) (k : String) (i : PortMetrics)
    → AllTell m.workers m.ports
    → of_port m.ws (get k m.ports) ≡ some i
    → (w : SerialWorker) × (get k m.workers ≡ some w)
      × (i.baudrate ≡ some w.settings.baudrate)
      × (i.clients ≡ client_count m.ws k)
of_port-line m k i t e = elim (Option-cases (get k m.ports)) [
  | inl f ↦ ground (arith, e, f)
  | inr (p, f) ↦ elim (Bool-cases (is_open p.status)) [
    | inl g ↦
        let (own, tells) = t k p f in
        let (w, there, settings) = tells g in
        let same : metrics_of m.ws p ≡ i = ground (arith, e, f, g) in
        (
          w,
          there,
          subst (λ x. x.baudrate ≡ some w.settings.baudrate) same (ap rate_of settings),
          subst (λ x. x.clients ≡ client_count m.ws k) same (ap (client_count m.ws) own),
        )
    | inr g ↦ ground (arith, e, f, g)
  ]
]

metrics-Reports :
    (m : PortManager) (user : User)
    → IsShown m
    → require_role "admin" user ≡ true
    → (r : MetricsResponse) × (metrics m user ≡ some r) × Reports m r
unfolding metrics
metrics-Reports m user h admin =
    let lines : Dict PortMetrics = open_metrics m.ws (values m.ports) [] in
    let at : (k : String) → get k lines ≡ of_port m.ws (get k m.ports) = λ k.
      get-open_metrics m.ws m.ports [] k h.unique_ports
        (ports-OwnId m.workers m.ports m.ports h.tell (Entries-self m.ports h.unique_ports))
      ∙ unfold get in ground arith in
    (
      record { open_ports = length m.workers; total = total_clients m.ws; ports = lines },
      rw admin refl,
      (
        refl,
        λ k p e o. at k ∙ ground (arith, e, o),
        λ k i e. of_port-line m k i h.tell (sym (at k) ∙ e),
      ),
    )

-- From a manager whose ports agree with its workers, after any requests, device events and device
-- errors, the metrics answer an administrator: with the number of workers, with a line for each port
-- that is shown as open, and with no line but that of a port that has a worker, at the worker's baud
-- rate and with the clients connected now.
pub run-Reports :
    (m : PortManager) (rs : List (System × Request)) (user : User)
    → IsShown m
    → require_role "admin" user ≡ true
    → (r : MetricsResponse) × (metrics (run m rs) user ≡ some r) × Reports (run m rs) r
run-Reports m rs user h admin = metrics-Reports (run m rs) user (run-IsShown m rs h) admin
