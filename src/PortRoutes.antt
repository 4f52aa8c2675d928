-- ===== src/PortRoutes.antt =====
-- The routes of serwebs/routes_api.py on ports, and the metrics. A route gets the user that its
-- dependency found; `all_tags` is what `load_port_tags` reads. The objects in the port manager are
-- those that a route puts tags on, so the manager keeps the tags.
pub mod Shown
pub mod Metrics
pub mod Asking
pub mod Audited
mod Tests
use serwebs.Prelude.{
  ℕ, String, Bool, true, false, Option, none, some, List, [], ◌∷◌, length, if◌then◌else◌,
}
use serwebs.Dict.{Dict, get, put, has, get_or, values}
use serwebs.Models.{PortStatus, free, opened, busy, unavailable, PortSettings, PortInfo}
use serwebs.Wire.{Effect}
use serwebs.Roles.{User, require_role}
use serwebs.Audit.{Entry, rate, no_details}
use serwebs.Scan.{System, PortManager, scan_ports}
use serwebs.Ports.{
  OpenError, OpenResult, ok, error, max_reached, already_open, not_found, port_busy, no_access,
  start_failed, open_port, close_port,
}
use serwebs.Ws.{WsManager, client_count, total_clients}
use serwebs.Stores.{entry}

pub data Reply : Type 0 where
  refused : ℕ → Reply
  -- an exception that no handler of the route catches
  uncaught : Reply
  listed : List PortInfo → Reply
  shown : PortInfo → Reply
  closed : Reply
  is_at : String → PortStatus → ℕ → Reply

pub record Answer : Type 0 where
  pub reply : Reply
  pub manager : PortManager
  pub effects : List Effect
  pub logged : List Entry

abbrev pub says : Reply → PortManager → Answer
says reply m = record { reply = reply; manager = m; effects = []; logged = [] }

abbrev pub tagged : Dict (List String) → PortInfo → PortInfo
tagged all_tags p = record p { tags = get_or p.id [] all_tags }

-- `for p in ports: p.tags = ...`
unfoldable pub tag_all : Dict (List String) → Dict PortInfo → Dict PortInfo
tag_all all_tags [] = []
tag_all all_tags ((k, p) ∷ ports) = (k, tagged all_tags p) ∷ tag_all all_tags ports

unfoldable pub list_ports : System → Dict (List String) → PortManager → Answer
unfolding tag_all
list_ports sys all_tags m =
    let m' = scan_ports sys m in
    let ports : Dict PortInfo = tag_all all_tags m'.ports in
    says (listed (values ports)) (record m' { ports = ports })

unfoldable pub get_port : Dict (List String) → PortManager → String → Answer
get_port all_tags m port_id = elim (get port_id m.ports) [
  | none ↦ says (refused 404) m
  | some port ↦
      let port' : PortInfo = record port { tags = get_or port_id [] all_tags } in
      says (shown port') (record m { ports = put port_id port' m.ports })
]

-- The two `except` clauses; that of the worker's start is neither a ValueError nor, as a
-- SerialException, a PermissionError.
unfoldable pub reply_of : OpenError → Reply
reply_of max_reached = refused 400
reply_of already_open = refused 400
reply_of not_found = refused 400
reply_of port_busy = refused 400
reply_of no_access = refused 403
reply_of start_failed = uncaught

unfoldable pub answer_open : String → PortSettings → User → OpenResult × PortManager → Answer
unfolding reply_of
answer_open port_id settings user (ok port, m') = record {
  reply = shown port;
  manager = m';
  effects = [];
  logged = entry "port_open" user port_id (rate settings.baudrate) ∷ [];
}
answer_open port_id settings user (error e, m') = says (reply_of e) m'

unfoldable pub open_route : System → PortManager → String → PortSettings → User → Answer
unfolding answer_open
open_route sys m port_id settings user =
    if require_role "admin" user
    then answer_open port_id settings user (open_port sys m port_id settings)
    else says (refused 403) m

-- From `await pm.close_port` on.
unfoldable pub answer_close : System → PortManager → String → User → Answer
answer_close sys m port_id user =
    let (m', effects) = close_port sys m port_id in
    record {
      reply = closed;
      manager = m';
      effects = effects;
      logged = entry "port_close" user port_id no_details ∷ [];
    }

unfoldable pub close_route : System → PortManager → String → User → Answer
unfolding answer_close
close_route sys m port_id user =
    if require_role "admin" user
    then if has port_id m.workers then answer_close sys m port_id user else says (refused 400) m
    else says (refused 403) m

unfoldable pub port_status : PortManager → String → Answer
port_status m port_id = elim (get port_id m.ports) [
  | none ↦ says (refused 404) m
  | some port ↦ says (is_at port.id port.status (client_count m.ws port_id)) m
]

pub record PortMetrics : Type 0 where
  pub device : String
  pub baudrate : Option ℕ
  pub clients : ℕ

-- The up-time is left out.
pub record MetricsResponse : Type 0 where
  pub open_ports : ℕ
  pub total : ℕ
  pub ports : Dict PortMetrics

abbrev pub is_open : PortStatus → Bool
is_open opened = true
is_open free = false
is_open busy = false
is_open unavailable = false

abbrev pub rate_of : Option PortSettings → Option ℕ
rate_of none = none
rate_of (some s) = some s.baudrate

abbrev pub metrics_of : WsManager → PortInfo → PortMetrics
metrics_of ws port = record {
  device = port.device;
  baudrate = rate_of port.settings;
  clients = client_count ws port.id;
}

-- The loop over `get_ports()`, from the ports found so far.
unfoldable pub open_metrics : WsManager → List PortInfo → Dict PortMetrics → Dict PortMetrics
open_metrics ws [] found = found
open_metrics ws (port ∷ ports) found =
    open_metrics ws ports
      (if is_open port.status then put port.id (metrics_of ws port) found else found)

-- `none` is 403.
unfoldable pub metrics : PortManager → User → Option MetricsResponse
unfolding open_metrics
metrics m user =
    if require_role "admin" user
    then some record {
      open_ports = length m.workers;
      total = total_clients m.ws;
      ports = open_metrics m.ws (values m.ports) [];
    }
    else none
