-- ===== src/Ports.antt =====
-- The rest of `PortManager` of serwebs/port_manager.py: opening and closing ports, lost devices.
-- Each method runs as one step.
pub mod Opening
pub mod Reasons
pub mod Closing
pub mod Limit
pub mod Monitor
mod Tests
use serwebs.Prelude.{
  ℕ, ◌+◌, String, Bool, true, false, ◌&&◌, ◌==◌, Option, none, some, List, [], ◌∷◌, ◌++◌, length,
  leb, is_some, if◌then◌else◌,
}
use serwebs.Dict.{Dict, get, put, pop, has, keys, get_or}
use serwebs.Models.{PortStatus, free, opened, busy, unavailable, is_busy, PortSettings, PortInfo}
use serwebs.Wire.{Effect}
use serwebs.Scan.{System, PortManager, scan_ports}
use serwebs.Worker
use serwebs.Worker.{SerialWorker}
use serwebs.Ws
use serwebs.Ws.{
  WsManager, client_count, broadcast_status, broadcast_error, disconnect_all, clear_buffer,
}

pub data OpenError : Type 0 where
  max_reached already_open not_found port_busy no_access start_failed : OpenError

pub data OpenResult : Type 0 where
  ok : PortInfo → OpenResult
  error : OpenError → OpenResult

-- `if settings.read_timeout is None: settings.read_timeout = cfg.read_timeout`, and so for writes
unfoldable pub with_timeouts : System → PortSettings → PortSettings
with_timeouts sys s = record s {
  read_timeout = elim s.read_timeout [ none ↦ some sys.read_timeout | some t ↦ some t ];
  write_timeout = elim s.write_timeout [ none ↦ some sys.write_timeout | some t ↦ some t ];
}

-- From `worker.start()` on. Where the device does not open, `on_error` has also scheduled a task that
-- calls `handle_device_error` later.
unfoldable pub start_worker :
    System → PortManager → String → PortInfo → PortSettings → OpenResult × PortManager
start_worker sys m port_id port settings =
    elim (Worker.start sys.opens (Worker.new port.device settings)) [
      | none ↦ (error start_failed, m)
      | some worker ↦
          let port' = record port { status = opened; settings = some settings } in
          (
            ok port',
            record m { workers = put port_id worker m.workers; ports = put port_id port' m.ports },
          )
    ]

-- From the check of the status on, for a port that is known.
unfoldable pub open_known :
    System → PortManager → String → PortInfo → PortSettings → OpenResult × PortManager
unfolding start_worker with_timeouts
open_known sys m port_id port settings =
    if is_busy port.status
    then (error port_busy, m)
    else if sys.accessible port.device
    then start_worker sys m port_id port (with_timeouts sys settings)
    else (error no_access, m)

-- A port that is not known is looked for by a scan, once.
unfoldable pub open_or_scan :
    System → PortManager → String → PortSettings → OpenResult × PortManager
unfolding open_known
open_or_scan sys m port_id settings = elim (get port_id m.ports) [
  | some port ↦ open_known sys m port_id port settings
  | none ↦
      let m' = scan_ports sys m in
      elim (get port_id m'.ports) [
        | some port ↦ open_known sys m' port_id port settings
        | none ↦ (error not_found, m')
      ]
]

unfoldable pub open_port : System → PortManager → String → PortSettings → OpenResult × PortManager
unfolding open_or_scan
open_port sys m port_id settings =
    if leb sys.max_ports (length m.workers)
    then (error max_reached, m)
    else if has port_id m.workers
    then (error already_open, m)
    else open_or_scan sys m port_id settings

-- `_ports[port_id].status = FREE`, settings and clients with it, if the port is there.
unfoldable pub set_free : String → Dict PortInfo → Dict PortInfo
set_free port_id ports = elim (get port_id ports) [
  | none ↦ ports
  | some port ↦ put port_id (record port { status = free; settings = none; clients = 0 }) ports
]

unfoldable pub close_port : System → PortManager → String → PortManager × List Effect
unfolding set_free
close_port sys m port_id =
    let (ws₁, told) = broadcast_status sys.alive m.ws port_id "disconnected" in
    let (ws₂, closed) = disconnect_all sys.alive ws₁ port_id in
    (
      record {
        ws = clear_buffer ws₂ port_id;
        ports = set_free port_id m.ports;
        workers = pop port_id m.workers;
      },
      told ++ closed,
    )

-- `_handle_device_error`: the clients are told, the worker goes, and the ports are scanned.
unfoldable pub handle_device_error :
    System → PortManager → String → String → PortManager × List Effect
handle_device_error sys m port_id message =
    let (ws₁, told) = broadcast_status sys.alive m.ws port_id "device_lost" in
    let (ws₂, failed) = broadcast_error sys.alive ws₁ port_id message in
    let lost : Dict PortInfo = elim (get port_id m.ports) [
      | none ↦ m.ports
      | some port ↦ put port_id (record port { status = unavailable }) m.ports
    ] in
    (
      scan_ports sys (record { ws = ws₂; ports = lost; workers = pop port_id m.workers }),
      told ++ failed,
    )

-- One event of the udev monitor; an event without a device node is passed over.
unfoldable pub udev_event :
    System → PortManager → String → Option String → PortManager × List Effect
udev_event sys m action none = (m, [])
udev_event sys m action (some device_node) =
    let port_id = sys.basename device_node in
    let (m', effects) =
      if action == "remove" && has port_id m.workers
      then handle_device_error sys m port_id "Device disconnected"
      else (m, []) in
    (scan_ports sys m', effects)

-- The ports of `list(self._workers.keys())` are closed one after the other.
unfoldable pub close_ports : System → PortManager → List String → PortManager × List Effect
close_ports sys m [] = (m, [])
close_ports sys m (port_id ∷ ids) =
    let (m', effects) = close_port sys m port_id in
    let (m'', more) = close_ports sys m' ids in (m'', effects ++ more)

unfoldable pub shutdown : System → PortManager → PortManager × List Effect
shutdown sys m = close_ports sys m (keys m.workers)
