-- ===== src/Scan/Unique.antt =====
-- A scan leaves no port twice.
use serwebs.Prelude.{inl, inr, String, List, [], ◌∷◌, Bool-cases}
use serwebs.Dict.{Dict, has}
use serwebs.Dict.Sums.{IsUnique, put-IsUnique}
use serwebs.Models.{PortInfo}
use serwebs.Scan.{
  System, PortManager, blacklisted, info_of, scan_devices, scan_patterns, lost_info, keep_lost,
  scan_ports,
}
use serwebs.Worker.{SerialWorker}

module _ (sys : System) (m : PortManager) where
  scan_devices-IsUnique :
      (ds : List String) (found : Dict PortInfo)
      → IsUnique found
      → IsUnique (scan_devices sys m ds found)
  unfolding scan_devices
  scan_devices-IsUnique [] found u = u
  scan_devices-IsUnique (d ∷ ds) found u =
      elim (Bool-cases (blacklisted sys d sys.blacklist_patterns)) [
        | inl e ↦ scan_devices-IsUnique ds _ (rw e u)
        | inr e ↦
            scan_devices-IsUnique ds _
              (rw e (put-IsUnique (sys.basename d) (info_of sys m d) found u))
      ]

  scan_patterns-IsUnique :
      (ps : List String) (found : Dict PortInfo)
      → IsUnique found
      → IsUnique (scan_patterns sys m ps found)
  unfolding scan_patterns
  scan_patterns-IsUnique [] found u = u
  scan_patterns-IsUnique (p ∷ ps) found u =
      scan_patterns-IsUnique ps _ (scan_devices-IsUnique (sys.devices p) found u)

  keep_lost-IsUnique :
      (ws : Dict SerialWorker) (found : Dict PortInfo)
      → IsUnique found
      → IsUnique (keep_lost sys m ws found)
  unfolding keep_lost
  keep_lost-IsUnique [] found u = u
  keep_lost-IsUnique ((k, w) ∷ ws) found u = elim (Bool-cases (has k found)) [
    | inl e ↦ keep_lost-IsUnique ws _ (rw e u)
    | inr e ↦ keep_lost-IsUnique ws _ (rw e (put-IsUnique k (lost_info sys m k w) found u))
  ]

-- A scan starts with no port.
pub scan-IsUnique : (sys : System) (m : PortManager) → IsUnique (scan_ports sys m).ports
unfolding scan_ports
scan-IsUnique sys m =
    keep_lost-IsUnique sys m m.workers _ (scan_patterns-IsUnique sys m sys.port_patterns [] tt)
