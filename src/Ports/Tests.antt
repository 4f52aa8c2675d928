-- ===== src/Ports/Tests.antt =====
-- The port manager on a concrete system, and the theorems about it at concrete inputs.
use serwebs.Prelude.{
  ◌≡◌, refl, String, true, false, ◌==◌, none, some, List, [], ◌∷◌, length, arith, if◌then◌else◌,
}
use serwebs.Dict.{get, put, has}
use serwebs.Models.{PortSettings, no_parity, no_flow}
use serwebs.Scan.{System, PortManager, scan_ports, scan_patterns, scan_devices, info_of, keep_lost}
use serwebs.Worker
use serwebs.Worker.{SerialWorker}
use serwebs.Ws.{fresh}
use serwebs.Ports.{error, not_found, open_port}
use serwebs.Ports.Monitor
use serwebs.Ports.Opening.{Opens}
use serwebs.Scan.Status.{AllAgree, scan_ports-AllAgree}
use serwebs.Ports.Reasons.{Reason, open_port_lem}
use serwebs.Ports.Limit.{Call, scans, opens, udev, run, IsBounded, run-IsBounded}

abbrev base : String → String
base device = if device == "/dev/ttyUSB0" then "ttyUSB0" else "ttyS0"

abbrev system : System
system = record {
  port_patterns = "/dev/ttyUSB*" ∷ "/dev/ttyS*" ∷ [];
  blacklist_patterns = "/dev/ttyS*" ∷ [];
  max_ports = 2;
  read_timeout = 100;
  write_timeout = 1000;
  devices = λ p. if p == "/dev/ttyUSB*" then "/dev/ttyUSB0" ∷ [] else "/dev/ttyS0" ∷ [];
  basename = base;
  matches = λ d p. (d == "/dev/ttyS0");
  is_locked = λ _. false;
  describe = λ _. "";
  accessible = λ _. true;
  aliases = ("ttyUSB0", "console") ∷ [];
  opens = λ _. true;
  alive = λ _. true;
}

abbrev settings : PortSettings
settings = record {
  baudrate = 115200;
  parity = no_parity;
  stopbits = 1;
  databits = 8;
  flowcontrol = no_flow;
  read_timeout = none;
  write_timeout = some 5;
}

abbrev none_open : PortManager
none_open = record {
  ws = record (fresh 4) { connections = ("ttyUSB0", 1 ∷ []) ∷ [] };
  ports = [];
  workers = [];
}

abbrev worker : SerialWorker
worker = record {
  device = "/dev/ttyUSB0";
  settings = settings;
  write_queue = [];
  connected = true;
  running = true;
}

abbrev one_open : PortManager
one_open = record none_open { workers = ("ttyUSB0", worker) ∷ [] }

-- An unknown port is found by a scan; a blacklisted one is not.
opens_after_scan : length (open_port system none_open "ttyUSB0" settings).1.workers ≡ 1
unfolding open_port scan_ports scan_patterns scan_devices info_of keep_lost get put Worker.start
    Worker.new
opens_after_scan = refl

blacklisted_not_found : (open_port system none_open "ttyS0" settings).0 ≡ error not_found
unfolding open_port scan_ports scan_patterns scan_devices info_of keep_lost get put
blacklisted_not_found = refl

open_port_lem_example :
    Reason system none_open "ttyUSB0" settings (open_port system none_open "ttyUSB0" settings).0
    × Opens none_open "ttyUSB0" (open_port system none_open "ttyUSB0" settings)
open_port_lem_example = open_port_lem system none_open "ttyUSB0" settings

abbrev history : List (System × Call)
history =
    (system, scans)
    ∷ (system, opens "ttyUSB0" settings)
    ∷ (system, udev "remove" (some "/dev/ttyUSB0"))
    ∷ (system, opens "ttyUSB0" settings)
    ∷ []

run-IsBounded_example : IsBounded 2 (run none_open history)
run-IsBounded_example =
    run-IsBounded 2 none_open history (omega arith) (record { unique = tt; within = omega arith })

abbrev plugging : List Monitor.Event
plugging =
    Monitor.arrives ("add", some "/dev/ttyUSB0")
    ∷ Monitor.arrives ("remove", some "/dev/ttyUSB0")
    ∷ Monitor.takes system
    ∷ []

abbrev idle_monitor : Monitor.Monitor
idle_monitor = record { queue = []; manager = one_open }

run-IsHandled_example : Monitor.IsHandled idle_monitor plugging (Monitor.run idle_monitor plugging)
run-IsHandled_example = Monitor.run-IsHandled idle_monitor plugging (omega arith)

scan_ports-AllAgree_example :
    AllAgree system one_open (scan_ports system one_open).ports
    × ((k : String)
        → has k one_open.workers ≡ true
        → has k (scan_ports system one_open).ports ≡ true)
    × ((scan_ports system one_open).workers ≡ one_open.workers)
    × ((scan_ports system one_open).ws ≡ one_open.ws)
unfolding get
scan_ports-AllAgree_example = scan_ports-AllAgree system one_open (refl, tt)
