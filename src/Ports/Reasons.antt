-- ===== src/Ports/Reasons.antt =====
-- On which conditions a port is opened, and which error says which of them fails.
use serwebs.Prelude.{
  ◌<◌, ◌≤◌, ◌≡◌, refl, sym, subst, inl, inr, String, Bool, true, false, Option, none, some, length,
  leb, arith, Option-cases, Bool-cases, if◌then◌else◌,
}
use serwebs.Dict.{get, has}
use serwebs.Models.{is_busy, PortSettings, PortInfo}
use serwebs.Scan.{System, PortManager, scan_ports}
use serwebs.Worker
use serwebs.Ports.{
  OpenResult, ok, error, max_reached, already_open, not_found, port_busy, no_access, start_failed,
  with_timeouts, start_worker, open_known, open_or_scan, open_port,
}
use serwebs.Ports.Opening.{Opens, opened_info, open_port_state}

-- The port as it is known, or found by a scan where it is not.
abbrev pub known : System → PortManager → String → Option PortInfo
known sys m k = elim (get k m.ports) [ some p ↦ some p | none ↦ get k (scan_ports sys m).ports ]

-- Whether the system opens the device of the port, with the settings and the time-outs.
abbrev pub device_opens : System → PortSettings → PortInfo → Bool
device_opens sys s p = sys.opens (Worker.line_of (Worker.new p.device (with_timeouts sys s)))

-- What a result says of a known port.
abbrev After : System → PortSettings → PortInfo → OpenResult → Type 0
After sys s p (ok port) =
    (is_busy p.status ≡ false)
    × (sys.accessible p.device ≡ true)
    × (device_opens sys s p ≡ true)
    × (port ≡ opened_info p (with_timeouts sys s))
After sys s p (error port_busy) = is_busy p.status ≡ true
After sys s p (error no_access) = sys.accessible p.device ≡ false
After sys s p (error start_failed) = device_opens sys s p ≡ false
After sys s p (error _) = ⊥

-- What a result of `open_port` says.
abbrev pub Reason : System → PortManager → String → PortSettings → OpenResult → Type 0
Reason sys m k s (ok port) =
    (length m.workers < sys.max_ports)
    × (get k m.workers ≡ none)
    × ((p : PortInfo) × (known sys m k ≡ some p)
        × (is_busy p.status ≡ false)
        × (sys.accessible p.device ≡ true)
        × (device_opens sys s p ≡ true)
        × (port ≡ opened_info p (with_timeouts sys s)))
Reason sys m k s (error max_reached) = sys.max_ports ≤ length m.workers
Reason sys m k s (error already_open) = has k m.workers ≡ true
Reason sys m k s (error not_found) = known sys m k ≡ none
Reason sys m k s (error port_busy) =
    (p : PortInfo) × (known sys m k ≡ some p) × (is_busy p.status ≡ true)
Reason sys m k s (error no_access) =
    (p : PortInfo) × (known sys m k ≡ some p) × (sys.accessible p.device ≡ false)
Reason sys m k s (error start_failed) =
    (p : PortInfo) × (known sys m k ≡ some p) × (device_opens sys s p ≡ false)

start_value :
    (sys : System) (m : PortManager) (k : String) (p : PortInfo) (s : PortSettings)
    → (start_worker sys m k p (with_timeouts sys s)).0 ≡ (
        if device_opens sys s p
        then ok (opened_info p (with_timeouts sys s))
        else error start_failed)
unfolding start_worker Worker.start
start_value sys m k p s = ground arith

started-After :
    (sys : System) (p : PortInfo) (s : PortSettings) (b : Bool)
    → is_busy p.status ≡ false
    → sys.accessible p.device ≡ true
    → device_opens sys s p ≡ b
    → After sys s p (if b then ok (opened_info p (with_timeouts sys s)) else error start_failed)
started-After sys p s true free access e = (free, access, e, refl)
started-After sys p s false free access e = e

start_worker-After :
    (sys : System) (m : PortManager) (k : String) (p : PortInfo) (s : PortSettings)
    → is_busy p.status ≡ false
    → sys.accessible p.device ≡ true
    → After sys s p (start_worker sys m k p (with_timeouts sys s)).0
start_worker-After sys m k p s free access =
    subst (After sys s p) (sym (start_value sys m k p s))
      (started-After sys p s (device_opens sys s p) free access refl)

open_known-After :
    (sys : System) (m : PortManager) (k : String) (p : PortInfo) (s : PortSettings)
    → After sys s p (open_known sys m k p s).0
unfolding open_known
open_known-After sys m k p s = elim (Bool-cases (is_busy p.status)) [
  | inl e ↦ rw e e
  | inr e ↦ elim (Bool-cases (sys.accessible p.device)) [
    | inl f ↦ rw (e, f) (start_worker-After sys m k p s e f)
    | inr f ↦ rw (e, f) f
  ]
]

module _ (sys : System) (m : PortManager) (k : String) (s : PortSettings) where
  After-Reason :
      (p : PortInfo) (r : OpenResult)
      → length m.workers < sys.max_ports
      → get k m.workers ≡ none
      → known sys m k ≡ some p
      → After sys s p r
      → Reason sys m k s r
  After-Reason p (ok port) l w e (a, b, c, d) = (l, w, (p, e, a, b, c, d))
  After-Reason p (error port_busy) l w e a = (p, e, a)
  After-Reason p (error no_access) l w e a = (p, e, a)
  After-Reason p (error start_failed) l w e a = (p, e, a)
  After-Reason p (error max_reached) l w e a = absurd a
  After-Reason p (error already_open) l w e a = absurd a
  After-Reason p (error not_found) l w e a = absurd a

  open_or_scan-Reason :
      length m.workers < sys.max_ports
      → get k m.workers ≡ none
      → Reason sys m k s (open_or_scan sys m k s).0
  unfolding open_or_scan
  open_or_scan-Reason l w = elim (Option-cases (get k m.ports)) [
    | inr (p, e) ↦
        rw (open_or_scan, e)
          (After-Reason p (open_known sys m k p s).0 l w (ground (arith, e))
            (open_known-After sys m k p s))
    | inl e ↦
        let m' : PortManager = scan_ports sys m in
        elim (Option-cases (get k m'.ports)) [
          | inr (p, f) ↦
              rw (open_or_scan, e, f)
                (After-Reason p (open_known sys m' k p s).0 l w (ground (arith, e, f))
                  (open_known-After sys m' k p s))
          | inl f ↦
              let none_known : known sys m k ≡ none = ground (arith, e, f) in
              rw (open_or_scan, e, f) none_known
        ]
  ]

  -- Opening a port, on every path. It succeeds only below the limit, for a port without a worker that
  -- is known or found by a scan, is not busy, may be accessed, and whose device opens; each error
  -- says which of these is not so. On success there is a running worker for the port, with both
  -- time-outs set, which the port shows as open with the worker's settings, and all other workers
  -- are as they were; on any error no worker has changed. The clients and buffers are as they were.
  pub open_port_lem : Reason sys m k s (open_port sys m k s).0 × Opens m k (open_port sys m k s)
  unfolding open_port
  open_port_lem = (
    elim (Bool-cases (leb sys.max_ports (length m.workers))) [
      | inl e ↦ rw e (ground (arith, e))
      | inr e ↦ elim (Option-cases (get k m.workers)) [
        | inl f ↦
            let no_worker : has k m.workers ≡ false = rw f refl in
            rw (e, no_worker) (open_or_scan-Reason (ground (arith, e)) f)
        | inr (worker, f) ↦
            let open_already : has k m.workers ≡ true = rw f refl in
            rw (e, open_already) open_already
      ]
    ],
    open_port_state sys m k s,
  )
