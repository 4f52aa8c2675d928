-- ===== src/Scan.antt =====
-- The state of `PortManager` of serwebs/port_manager.py, and its scan for ports.
-- What the file system and the devices say is the record `System`; each method runs as one step.
pub mod Status
pub mod Unique
use serwebs.Prelude.{
  ℕ, ◌+◌, String, Bool, true, false, ◌&&◌, ◌==◌, Option, none, some, List, [], ◌∷◌, ◌++◌, length,
  leb, is_some, if◌then◌else◌,
}
use serwebs.Dict.{Dict, get, put, pop, has, keys, get_or}
use serwebs.Models.{PortStatus, free, opened, busy, unavailable, is_busy, PortSettings, PortInfo}
use serwebs.Wire.{Effect}
use serwebs.Worker
use serwebs.Worker.{SerialWorker}
use serwebs.Ws
use serwebs.Ws.{
  WsManager, client_count, broadcast_status, broadcast_error, disconnect_all, clear_buffer,
}

-- The configuration, and what the system answers during one call.
pub record System : Type 0 where
  pub port_patterns : List String
  pub blacklist_patterns : List String
  pub max_ports : ℕ
  pub read_timeout : ℕ
  pub write_timeout : ℕ
  -- `sorted(glob.glob(pattern))`, `os.path.basename` and `fnmatch.fnmatch`
  pub devices : String → List String
  pub basename : String → String
  pub matches : String → String → Bool
  -- the lock file, the description under /sys, and `os.access`
  pub is_locked : String → Bool
  pub describe : String → String
  pub accessible : String → Bool
  -- the stored aliases
  pub aliases : Dict String
  -- whether `open_serial_connection` returns
  pub opens : Worker.Line → Bool
  -- whether a send to a WebSocket goes through
  pub alive : ℕ → Bool

pub record PortManager : Type 0 where
  pub ws : WsManager
  pub ports : Dict PortInfo
  pub workers : Dict SerialWorker

-- `any(fnmatch.fnmatch(device, bp) for bp in cfg.blacklist_patterns)`
unfoldable pub blacklisted : System → String → List String → Bool
blacklisted sys device [] = false
blacklisted sys device (p ∷ ps) = if sys.matches device p then true else blacklisted sys device ps

-- Status, settings and clients of a device that was found.
unfoldable pub state_of :
    System → PortManager → String → String → PortStatus × Option PortSettings × ℕ
state_of sys m port_id device = elim (get port_id m.workers) [
  | some worker ↦ (opened, some worker.settings, client_count m.ws port_id)
  | none ↦ if sys.is_locked device then (busy, none, 0) else (free, none, 0)
]

unfoldable pub info_of : System → PortManager → String → PortInfo
unfolding state_of
info_of sys m device =
    let port_id = sys.basename device in
    let (status, settings, clients) = state_of sys m port_id device in
    record {
      id = port_id;
      device = device;
      description = sys.describe device;
      alias = get_or port_id "" sys.aliases;
      status = status;
      settings = settings;
      clients = clients;
      tags = [];
    }

unfoldable pub scan_devices : System → PortManager → List String → Dict PortInfo → Dict PortInfo
unfolding blacklisted
scan_devices sys m [] found = found
scan_devices sys m (device ∷ devices) found = scan_devices sys m devices (
    if blacklisted sys device sys.blacklist_patterns
    then found
    else put (sys.basename device) (info_of sys m device) found)

unfoldable pub scan_patterns : System → PortManager → List String → Dict PortInfo → Dict PortInfo
scan_patterns sys m [] found = found
scan_patterns sys m (pattern ∷ patterns) found =
    scan_patterns sys m patterns (scan_devices sys m (sys.devices pattern) found)

-- An open port whose device was not found.
unfoldable pub lost_info : System → PortManager → String → SerialWorker → PortInfo
lost_info sys m port_id worker = record {
  id = port_id;
  device = worker.device;
  description = "";
  alias = get_or port_id "" sys.aliases;
  status = unavailable;
  settings = some worker.settings;
  clients = client_count m.ws port_id;
  tags = [];
}

unfoldable pub keep_lost : System → PortManager → Dict SerialWorker → Dict PortInfo → Dict PortInfo
keep_lost sys m [] found = found
keep_lost sys m ((port_id, worker) ∷ workers) found =
    keep_lost sys m workers
      (if has port_id found then found else put port_id (lost_info sys m port_id worker) found)

unfoldable pub scan_ports : System → PortManager → PortManager
scan_ports sys m = record m {
  ports = keep_lost sys m m.workers (scan_patterns sys m sys.port_patterns []);
}
