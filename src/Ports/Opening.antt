-- ===== src/Ports/Opening.antt =====
-- What opening a port does, and the limit on open ports.
use serwebs.Prelude.{
  ◌<◌, ◌≡◌, refl, sym, subst, ◌⊎◌, inl, inr, String, Bool, true, false, eq_refl, none, some, [],
  length, leb, is_some, if◌then◌else◌, arith, Option-cases, Bool-cases,
}
use serwebs.Dict.{get, put, has, get-put}
use serwebs.Models.{opened, is_busy, PortSettings, PortInfo}
use serwebs.Scan.{System, PortManager, scan_ports}
use serwebs.Worker
use serwebs.Worker.{SerialWorker}
use serwebs.Ports.{
  OpenError, OpenResult, ok, error, not_found, start_failed, with_timeouts, start_worker,
  open_known, open_or_scan, open_port,
}

-- What an opening leaves: on success a running worker for the port, with both time-outs set, shown
-- by the port, and the other workers as they were; on an error the workers as they were.
abbrev pub Opens : PortManager → String → OpenResult × PortManager → Type 0
Opens m k (ok port, m') =
    (worker : SerialWorker) × (m'.workers ≡ put k worker m.workers)
    × (worker.running ≡ true)
    × (worker.device ≡ port.device)
    × (is_some worker.settings.read_timeout ≡ true)
    × (is_some worker.settings.write_timeout ≡ true)
    × (get k m'.ports ≡ some port)
    × (port.status ≡ opened)
    × (port.settings ≡ some worker.settings)
    × (m'.ws ≡ m.ws)
Opens m k (error e, m') = (m'.workers ≡ m.workers) × (m'.ws ≡ m.ws)

abbrev pub live_worker : PortInfo → PortSettings → SerialWorker
live_worker port s = record {
  device = port.device;
  settings = s;
  write_queue = [];
  connected = true;
  running = true;
}

abbrev pub opened_info : PortInfo → PortSettings → PortInfo
opened_info port s = record port { status = opened; settings = some s }

pub start_worker_cases :
    (sys : System) (m : PortManager) (k : String) (port : PortInfo) (s : PortSettings)
    → (start_worker sys m k port s ≡ (
      ok (opened_info port s),
      record m {
        workers = put k (live_worker port s) m.workers;
        ports = put k (opened_info port s) m.ports;
      },
    ))
      ⊎ ((e : OpenError) × (start_worker sys m k port s ≡ (error e, m)))
unfolding start_worker Worker.start Worker.new
start_worker_cases sys m k port s =
    elim (Bool-cases (sys.opens (Worker.line_of (Worker.new port.device s)))) [
      | inl e ↦ inl (ground arith)
      | inr e ↦ inr (start_failed, ground arith)
    ]

start_worker-Opens :
    (sys : System) (m : PortManager) (k : String) (port : PortInfo) (s : PortSettings)
    → is_some s.read_timeout ≡ true
    → is_some s.write_timeout ≡ true
    → Opens m k (start_worker sys m k port s)
start_worker-Opens sys m k port s hr hw = elim (start_worker_cases sys m k port s) [
  | inl e ↦ subst (Opens m k) (sym e) (
    live_worker port s,
    refl,
    refl,
    refl,
    hr,
    hw,
    ground (arith, get-put k k (opened_info port s) m.ports, eq_refl k),
    refl,
    refl,
    refl,
  )
  | inr (x, e) ↦ subst (Opens m k) (sym e) (refl, refl)
]

Opens-if :
    (m : PortManager) (k : String) (b : Bool) (x y : OpenResult × PortManager)
    → Opens m k x
    → Opens m k y
    → Opens m k (if b then x else y)
Opens-if m k true x y p q = p
Opens-if m k false x y p q = q

timeouts_set :
    (sys : System) (s : PortSettings)
    → (is_some (with_timeouts sys s).read_timeout ≡ true)
      × (is_some (with_timeouts sys s).write_timeout ≡ true)
unfolding with_timeouts
timeouts_set sys s = (ground arith, ground arith)

open_known-Opens :
    (sys : System) (m : PortManager) (k : String) (port : PortInfo) (s : PortSettings)
    → Opens m k (open_known sys m k port s)
unfolding open_known
open_known-Opens sys m k port s =
    Opens-if m k (is_busy port.status) _ _ (refl, refl)
      (Opens-if m k (sys.accessible port.device) _ _
        (start_worker-Opens sys m k port (with_timeouts sys s) (timeouts_set sys s).0
          (timeouts_set sys s).1)
        (refl, refl))

-- A scan changes neither the workers nor the clients.
Opens-scan :
    (sys : System) (m : PortManager) (k : String) (r : OpenResult × PortManager)
    → Opens (scan_ports sys m) k r
    → Opens m k r
unfolding scan_ports
Opens-scan sys m k (ok p, m') h = h
Opens-scan sys m k (error e, m') h = h

open_or_scan-Opens :
    (sys : System) (m : PortManager) (k : String) (s : PortSettings)
    → Opens m k (open_or_scan sys m k s)
open_or_scan-Opens sys m k s = elim (Option-cases (get k m.ports)) [
  | inr (port, e) ↦
      subst (Opens m k)
        (let p : open_known sys m k port s ≡ open_or_scan sys m k s =
            unfold open_or_scan in ground arith in
          p)
        (open_known-Opens sys m k port s)
  | inl e ↦ elim (Option-cases (get k (scan_ports sys m).ports)) [
    | inr (port, f) ↦
        subst (Opens m k)
          (let p : open_known sys (scan_ports sys m) k port s ≡ open_or_scan sys m k s =
              unfold open_or_scan in ground arith in
            p)
          (Opens-scan sys m k _ (open_known-Opens sys (scan_ports sys m) k port s))
    | inl f ↦
        subst (Opens m k)
          (let p : (error not_found, scan_ports sys m) ≡ open_or_scan sys m k s =
              unfold open_or_scan in ground arith in
            p)
          (Opens-scan sys m k (error not_found, scan_ports sys m) (refl, refl))
  ]
]

pub open_port_state :
    (sys : System) (m : PortManager) (k : String) (s : PortSettings)
    → Opens m k (open_port sys m k s)
unfolding open_port
open_port_state sys m k s =
    Opens-if m k (leb sys.max_ports (length m.workers)) _ _ (refl, refl)
      (Opens-if m k (has k m.workers) _ _ (refl, refl) (open_or_scan-Opens sys m k s))

-- An opening succeeds only below the limit, and on a port that is not open yet.
pub open_port_guards :
    (sys : System) (m m' : PortManager) (k : String) (s : PortSettings) (port : PortInfo)
    → open_port sys m k s ≡ (ok port, m')
    → (length m.workers < sys.max_ports) × (get k m.workers ≡ none)
unfolding open_port
open_port_guards sys m m' k s port e = ground arith
