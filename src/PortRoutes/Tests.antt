-- ===== src/PortRoutes/Tests.antt =====
-- The routes on a system with one port, and the theorems about them at concrete inputs.
use serwebs.Prelude.{◌≡◌, refl, true, false, none, some, List, [], ◌∷◌}
use serwebs.Dict.{get, put, has}
use serwebs.Models.{PortSettings, no_parity, no_flow}
use serwebs.Roles.{User, require_role}
use serwebs.Worker
use serwebs.Ws.{fresh}
use serwebs.Scan.{System, PortManager, scan_ports, scan_patterns, scan_devices, info_of, keep_lost}
use serwebs.Ports.{open_port}
use serwebs.PortRoutes.{MetricsResponse, metrics, refused, list_ports, port_status, open_route}
use serwebs.PortRoutes.Shown.{IsShown}
use serwebs.PortRoutes.Asking.{Request, asks_list, asks_open, asks_status, step, run}
use serwebs.PortRoutes.Metrics.{Reports, run-Reports}
use serwebs.PortRoutes.Audited.{Accounts, said_open, run_log, run-Accounts}

abbrev one_port : System
one_port = record {
  port_patterns = "/dev/ttyUSB*" ∷ [];
  blacklist_patterns = [];
  max_ports = 2;
  read_timeout = 100;
  write_timeout = 1000;
  devices = λ _. "/dev/ttyUSB0" ∷ [];
  basename = λ _. "ttyUSB0";
  matches = λ _ _. false;
  is_locked = λ _. false;
  describe = λ _. "";
  accessible = λ _. true;
  aliases = [];
  opens = λ _. true;
  alive = λ _. true;
}

abbrev slow : PortSettings
slow = record {
  baudrate = 9600;
  parity = no_parity;
  stopbits = 1;
  databits = 8;
  flowcontrol = no_flow;
  read_timeout = none;
  write_timeout = none;
}

abbrev boss : User
boss = record { username = "root"; role = "admin" }

abbrev guest : User
guest = record { username = "eve"; role = "viewer" }

abbrev empty : PortManager
empty = record { ws = fresh 4; ports = []; workers = [] }

abbrev day : List (System × Request)
day =
    (one_port, asks_list [])
    ∷ (one_port, asks_open "ttyUSB0" slow boss)
    ∷ (one_port, asks_status "ttyUSB0")
    ∷ []

-- After that day the port is open.
day_opens : has "ttyUSB0" (run empty day).workers ≡ true
unfolding run scan_ports scan_patterns scan_devices info_of keep_lost get put Worker.start
    Worker.new step port_status open_route require_role open_port list_ports
day_opens = refl

guest_is_refused : (open_route one_port empty "ttyUSB0" slow guest).reply ≡ refused 403
unfolding open_route require_role
guest_is_refused = refl

empty-IsShown : IsShown empty
empty-IsShown = record { unique_workers = tt; unique_ports = tt; tell = λ k p e. unfold get in cc }

run-Reports_example :
    (r : MetricsResponse) × (metrics (run empty day) boss ≡ some r) × Reports (run empty day) r
unfolding require_role
run-Reports_example = run-Reports empty day boss empty-IsShown refl

nothing_open : Accounts empty (λ _. false)
unfolding get
nothing_open k h = h

run-Accounts_example : Accounts (run empty day) (λ k. said_open k false (run_log empty day))
run-Accounts_example = run-Accounts empty day (λ _. false) nothing_open
