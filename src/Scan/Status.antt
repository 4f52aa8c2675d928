-- ===== src/Scan/Status.antt =====
-- What the statuses of a scan say about the open ports.
use serwebs.Prelude.{
  ◌≡◌, refl, subst, ◌⊎◌, inl, inr, String, true, false, ◌||◌, ◌==◌, eq_iff, none, some, List, [],
  ◌∷◌, arith, Option-cases, Bool-cases,
}
use serwebs.Dict.{Dict, get, put, has, get-put}
use serwebs.Dict.Sums.{IsUnique, Entries, Entries-self}
use serwebs.Models.{free, opened, busy, unavailable, PortInfo}
use serwebs.Scan.{
  System, PortManager, blacklisted, info_of, scan_devices, scan_patterns, lost_info, keep_lost,
  scan_ports,
}
use serwebs.Worker.{SerialWorker}
use serwebs.Ws.{client_count}

-- The entry of one port agrees with the workers: an open or a lost port has a worker, whose
-- settings and clients it shows; a free or busy port has none, and shows no settings or clients;
-- a port whose device was found is not blacklisted.
abbrev pub Agrees : System → PortManager → String → PortInfo → Type 0
Agrees sys m k p =
    (p.id ≡ k)
    × (((worker : SerialWorker) × (get k m.workers ≡ some worker)
          × ((p.status ≡ opened) ⊎ (p.status ≡ unavailable))
          × (p.settings ≡ some worker.settings)
          × (p.clients ≡ client_count m.ws k))
        ⊎ ((get k m.workers ≡ none)
            × ((p.status ≡ free) ⊎ (p.status ≡ busy))
            × (p.settings ≡ none)
            × (p.clients ≡ 0)))
    × ((p.status ≡ unavailable) ⊎ (blacklisted sys p.device sys.blacklist_patterns ≡ false))

abbrev pub AllAgree : System → PortManager → Dict PortInfo → Type 0
AllAgree sys m found = (k : String) (p : PortInfo) → get k found ≡ some p → Agrees sys m k p

info_of-Agrees :
    (sys : System) (m : PortManager) (device : String)
    → blacklisted sys device sys.blacklist_patterns ≡ false
    → Agrees sys m (sys.basename device) (info_of sys m device)
unfolding info_of
info_of-Agrees sys m device h = elim (Option-cases (get (sys.basename device) m.workers)) [
  | inl e ↦ (refl, inr (e, ground arith, ground arith, ground arith), inr h)
  | inr (w, e) ↦ (refl, inl (w, e, ground arith, ground arith, ground arith), inr h)
]

put-AllAgree :
    (sys : System) (m : PortManager) (k : String) (p : PortInfo) (found : Dict PortInfo)
    → Agrees sys m k p
    → AllAgree sys m found
    → AllAgree sys m (put k p found)
put-AllAgree sys m k p found a all j q e = elim (Bool-cases (k == j)) [
  | inl same ↦
      subst (λ i. Agrees sys m i q) ((eq_iff k j).0 same)
        (subst (Agrees sys m k) (let e' : p ≡ q = ground (arith, get-put k j p found) in e') a)
  | inr other ↦ all j q (ground (arith, get-put k j p found))
]

scan_devices-AllAgree :
    (sys : System) (m : PortManager) (devices : List String) (found : Dict PortInfo)
    → AllAgree sys m found
    → AllAgree sys m (scan_devices sys m devices found)
unfolding scan_devices
scan_devices-AllAgree sys m [] found all = all
scan_devices-AllAgree sys m (d ∷ devices) found all =
    elim (Bool-cases (blacklisted sys d sys.blacklist_patterns)) [
      | inl e ↦ scan_devices-AllAgree sys m devices _ (rw e all)
      | inr e ↦ scan_devices-AllAgree sys m devices _ (
          rw e (
            put-AllAgree sys m (sys.basename d) (info_of sys m d) found (info_of-Agrees sys m d e)
              all))
    ]

scan_patterns-AllAgree :
    (sys : System) (m : PortManager) (patterns : List String) (found : Dict PortInfo)
    → AllAgree sys m found
    → AllAgree sys m (scan_patterns sys m patterns found)
unfolding scan_patterns
scan_patterns-AllAgree sys m [] found all = all
scan_patterns-AllAgree sys m (p ∷ patterns) found all =
    scan_patterns-AllAgree sys m patterns _ (scan_devices-AllAgree sys m (sys.devices p) found all)

lost_info-Agrees :
    (sys : System) (m : PortManager) (k : String) (w : SerialWorker)
    → get k m.workers ≡ some w
    → Agrees sys m k (lost_info sys m k w)
unfolding lost_info
lost_info-Agrees sys m k w e = (refl, inl (w, e, inr refl, refl, refl), inl refl)

keep_lost-AllAgree :
    (sys : System) (m : PortManager) (ws : Dict SerialWorker) (found : Dict PortInfo)
    → Entries m.workers ws
    → AllAgree sys m found
    → AllAgree sys m (keep_lost sys m ws found)
unfolding keep_lost
keep_lost-AllAgree sys m [] found es all = all
keep_lost-AllAgree sys m ((k, w) ∷ ws) found es all = elim (Bool-cases (has k found)) [
  | inl e ↦ keep_lost-AllAgree sys m ws _ es.1 (rw e all)
  | inr e ↦ keep_lost-AllAgree sys m ws _ es.1 (
      rw e (put-AllAgree sys m k (lost_info sys m k w) found (lost_info-Agrees sys m k w es.0) all))
]

keep_lost-has :
    (sys : System) (m : PortManager) (ws : Dict SerialWorker) (found : Dict PortInfo) (k : String)
    → (has k found || has k ws) ≡ true
    → has k (keep_lost sys m ws found) ≡ true
unfolding keep_lost get
keep_lost-has sys m [] found k h = ground arith
keep_lost-has sys m ((j, w) ∷ ws) found k h =
    keep_lost-has sys m ws _ k (ground (arith, get-put j k (lost_info sys m j w) found, eq_iff j k))

-- Where no port has two workers, after a scan every port agrees with the workers: exactly the ports
-- with a worker are open or unavailable, with the settings and the client count of the worker; all
-- others are free or busy, with none. No worker is without its port, a port that is not unavailable
-- is not on the blacklist, and the workers and clients are as they were.
pub scan_ports-AllAgree :
    (sys : System) (m : PortManager)
    → IsUnique m.workers
    → AllAgree sys m (scan_ports sys m).ports
      × ((k : String) → has k m.workers ≡ true → has k (scan_ports sys m).ports ≡ true)
      × ((scan_ports sys m).workers ≡ m.workers)
      × ((scan_ports sys m).ws ≡ m.ws)
unfolding scan_ports
scan_ports-AllAgree sys m u = (
  keep_lost-AllAgree sys m m.workers _ (Entries-self m.workers u)
      (scan_patterns-AllAgree sys m sys.port_patterns [] (λ k p e. unfold get in cc)),
  λ k h. keep_lost-has sys m m.workers _ k (ground arith),
  refl,
  refl,
)
