-- ===== src/Ports/Limit.antt =====
-- The limit on open ports over any history of the manager.
use serwebs.Prelude.{
  ℕ, ◌≤◌, ◌≡◌, refl, sym, subst, ◌∙◌, inl, inr, String, ◌&&◌, ◌==◌, Option, none, some, List, [],
  ◌∷◌, length, if◌then◌else◌, arith, Bool-cases,
}
use serwebs.Dict.{pop, has}
use serwebs.Dict.Sums.{IsUnique, put-IsUnique, pop-IsUnique, length-put, length-pop-le}
use serwebs.Models.{PortSettings}
use serwebs.Scan.{System, PortManager, scan_ports}
use serwebs.Ports.{OpenResult, ok, error, open_port, close_port, handle_device_error, udev_event}
use serwebs.Ports.Opening.{Opens, open_port_state, open_port_guards}

-- The calls that the routes, the workers and the monitor make.
pub data Call : Type 0 where
  scans : Call
  opens : String → PortSettings → Call
  closes : String → Call
  fails : String → String → Call
  udev : String → Option String → Call

unfoldable pub step : System → PortManager → Call → PortManager
step sys m scans = scan_ports sys m
step sys m (opens k settings) = (open_port sys m k settings).1
step sys m (closes k) = (close_port sys m k).0
step sys m (fails k message) = (handle_device_error sys m k message).0
step sys m (udev action node) = (udev_event sys m action node).0

-- What the system answers may change from call to call, but not the limit.
unfoldable pub run : PortManager → List (System × Call) → PortManager
run m [] = m
run m ((sys, c) ∷ cs) = run (step sys m c) cs

abbrev pub SameLimit : ℕ → List (System × Call) → Type 0
SameLimit n [] = Unit
SameLimit n ((sys, c) ∷ cs) = (sys.max_ports ≡ n) × SameLimit n cs

pub record IsBounded (n : ℕ) (m : PortManager) : Type 0 where
  pub unique : IsUnique m.workers
  pub within : length m.workers ≤ n

pop-IsBounded :
    (n : ℕ) (m m' : PortManager) (k : String)
    → m'.workers ≡ pop k m.workers
    → IsBounded n m
    → IsBounded n m'
pop-IsBounded n m m' k e b = record {
  unique = rw e (pop-IsUnique k m.workers b.unique);
  within = rw e (omega (arith, length-pop-le k m.workers, b.within));
}

same-IsBounded :
    (n : ℕ) (m m' : PortManager) → m'.workers ≡ m.workers → IsBounded n m → IsBounded n m'
same-IsBounded n m m' e b = record { unique = rw e b.unique; within = rw e b.within }

opened-IsBounded :
    (sys : System) (m : PortManager) (k : String) (r : OpenResult × PortManager) (s : PortSettings)
    → open_port sys m k s ≡ r
    → Opens m k r
    → IsBounded sys.max_ports m
    → IsBounded sys.max_ports r.1
opened-IsBounded sys m k (ok port, m') s e o b = record {
  unique = rw o.1 (put-IsUnique k o.0 m.workers b.unique);
  within =
      rw o.1 (ground (arith, length-put k o.0 m.workers, open_port_guards sys m m' k s port e));
}
opened-IsBounded sys m k (error x, m') s e o b = same-IsBounded sys.max_ports m m' o.0 b

udev_workers :
    (sys : System) (m : PortManager) (action node : String)
    → (udev_event sys m action (some node)).0.workers ≡ (
        if action == "remove" && has (sys.basename node) m.workers
        then pop (sys.basename node) m.workers
        else m.workers)
unfolding udev_event handle_device_error scan_ports
udev_workers sys m action node = ground arith

step-IsBounded :
    (sys : System) (m : PortManager) (c : Call)
    → IsBounded sys.max_ports m
    → IsBounded sys.max_ports (step sys m c)
unfolding step scan_ports
step-IsBounded sys m scans b = same-IsBounded sys.max_ports m _ refl b
step-IsBounded sys m (opens k s) b =
    opened-IsBounded sys m k (open_port sys m k s) s refl (open_port_state sys m k s) b
step-IsBounded sys m (closes k) b = unfold close_port in pop-IsBounded sys.max_ports m _ k refl b
step-IsBounded sys m (fails k message) b =
    unfold handle_device_error in pop-IsBounded sys.max_ports m _ k refl b
step-IsBounded sys m (udev action none) b =
    unfold udev_event in same-IsBounded sys.max_ports m _ refl b
step-IsBounded sys m (udev action (some node)) b =
    elim (Bool-cases (action == "remove" && has (sys.basename node) m.workers)) [
      | inl e ↦
          pop-IsBounded sys.max_ports m _ (sys.basename node)
            (udev_workers sys m action node ∙ rw e) b
      | inr e ↦ same-IsBounded sys.max_ports m _ (udev_workers sys m action node ∙ rw e) b
    ]

-- From a manager within the limit, after any calls that open, close, lose or find ports, whatever
-- the system answers, there are at most `n` open ports, each with one worker.
pub run-IsBounded :
    (n : ℕ) (m : PortManager) (cs : List (System × Call))
    → SameLimit n cs
    → IsBounded n m
    → IsBounded n (run m cs)
unfolding run
run-IsBounded n m [] h b = b
run-IsBounded n m ((sys, c) ∷ cs) h b = run-IsBounded n (step sys m c) cs h.1 (
    subst (λ (k : ℕ). IsBounded k (step sys m c)) h.0
      (step-IsBounded sys m c (subst (λ (k : ℕ). IsBounded k m) (sym h.0) b)))
