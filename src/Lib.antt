-- ===== src/Lib.antt =====
-- SerWebs gives serial ports to browsers, terminals and scripts. A port manager finds the ports and
-- opens them, a serial worker moves bytes in and out of an open port, and a WebSocket manager sends
-- what a port says to every client of it and replays what it said before. Sessions come in over
-- WebSocket, REST, SSH and Telnet; each is authenticated, has a role, and respects the locks of ports
-- and a rate limit where its code does. This library models these parts as pure functions on explicit
-- state and proves what they do.
--
-- Files, with the code they model (paths from the repository's root):
-- - Prelude: shared names, Boolean tests, lists measured by native numbers, lemmas on slices. Dict:
--   Python's dict with texts as keys, in its order of insertion; Dict/Sums counts its entries.
-- - Ring: RingBuffer of serwebs/utils.py. Ring/Bounds, Ring/Positions, Ring/Suffix, Ring/History prove its
--   well-formedness, one append, and any history of calls against a list of bytes.
-- - Limiter: RateLimiter of serwebs/utils.py, with Limiter/Keys and Limiter/Bound.
-- - Wire: the messages and the calls of loggers that the other parts make. Audit: audit entries.
-- - Rotation: the rotation of files that serwebs/audit.py and serwebs/session_logger.py share, with
--   Rotation/Shift. AuditLog: AuditLogger of serwebs/audit.py, with AuditLog/Newest,
--   and AuditLog/Route for its query over REST. SessionLog:
--   SessionLogger of serwebs/session_logger.py, with SessionLog/Written. Forward: what the audit log
--   forwards to serwebs/alerting.py and serwebs/syslog_handler.py, with Forward/Alerts,
--   Forward/Priority and Forward/Message.
-- - Ws: WsManager of serwebs/ws_manager.py, with Ws/Clients, Ws/Delivery and Ws/Replay.
-- - Models: serwebs/models.py. Worker: SerialWorker of serwebs/serial_worker.py, with Worker/Queue.
-- - Scan and Ports: PortManager of serwebs/port_manager.py, which owns the workers and calls the
--   WebSocket manager; Scan/Status, Scan/Unique, Ports/Opening, Ports/Reasons, Ports/Closing,
--   Ports/Limit and Ports/Monitor prove its properties.
-- - PortRoutes: the routes of serwebs/routes_api.py on ports and the metrics, with PortRoutes/Shown,
--   PortRoutes/Asking, PortRoutes/Metrics and PortRoutes/Audited.
-- - Hooks: how serwebs/ssh_gateway.py, serwebs/telnet_gateway.py and the write-wait route of
--   serwebs/routes_api.py replace wsm.broadcast while they run; Hooks/Nested and Hooks/Overlap.
-- - Roles and Auth: serwebs/auth.py, the roles and authenticate_user, with Roles/Order,
--   Roles/Mapping and Auth/Sources. Identity: get_current_user of the same file and the tokens it
--   reads, with Identity/Origin. Jwks: the cache of the provider's keys, with Jwks/Fresh.
-- - Login: the routes of serwebs/routes_api.py that give a token, and the local tokens of
--   serwebs/auth.py, with Login/Tokens.
-- - Locks: the lock and write routes of serwebs/routes_api.py, with Locks/Holder and Locks/Writing.
-- - Users: the user routes of the same file, with Users/Names and Users/Login.
-- - Text: Python's text methods that the program uses, with Text/Laws.
-- - Backends: the list of backends of serwebs/aggregator.py and the routes of serwebs/routes_api.py
--   that change it, with Backends/Cases, Backends/Names, Backends/Restart and Backends/Renaming. Remote:
--   what the aggregator asks of the backends, and the routes on remote ports, with
--   Remote/Requests, Remote/Generic, Remote/Cache, Remote/Tokens and Remote/Proxy.
-- - Gateway: line editor, menu and input of serwebs/telnet_gateway.py and serwebs/ssh_gateway.py, with
--   Gateway/Typing, Gateway/Screen, Gateway/Ssh, Gateway/Strip and Gateway/Menu. Bridge: a terminal that
--   is joined to a port, with Bridge/Order and Bridge/Delivery. Terminal: whole sessions of both
--   gateways, with Terminal/Flow, Terminal/Allowed and Terminal/Guard.
-- - Stores: the aliases, tags and profiles of serwebs/config.py and their routes, with Stores/Clean and
--   Stores/Tags. Recording: serwebs/recording.py and its routes, with Recording/Steps,
--   Recording/Events and Recording/Cleanup.
-- - Config: the settings of serwebs/config.py; Config/Loading says where they are loaded from.
--   Downloads: the session logs and recordings that serwebs/session_logger.py, serwebs/recording.py
--   and serwebs/routes_api.py give out, with Downloads/Leading, Downloads/Inside and
--   Downloads/Escape. App: start and end of the application (serwebs/app.py, serwebs/__main__.py), with
--   App/Life for what happens between.
-- - Session: websocket_endpoint of serwebs/routes_ws.py, with Session/Opening and Session/Writing.
-- Each Tests file runs definitions and theorems on concrete inputs.
--
-- Correspondence: a class is a record, a method a function from the state before to the state after,
-- named as in the source; what a method sends or logs is a list of effects. A method that awaits is one
-- step, so what other tasks do meanwhile is not modelled, save where a file gives its own steps
-- (Worker, Hooks, Session, Bridge, App/Life). A byte and a WebSocket are numbers; `alive` says which
-- sends go through. Numbers are unbounded, as in Python, and subtraction occurs only where the result is not negative.
-- The rate limiter counts time in whole ticks instead of floats. No definition uses fuel: every loop
-- is a structural recursion over a list or a number. The bounds of the source are the queues: 1000 chunks for a worker and for a bridge, 100 events for the
-- monitor of devices.
--
-- Outside, as arguments: the file system, globs, the serial device, bcrypt, JWT, YAML, the LDAP, RADIUS,
-- TACACS+ and OIDC servers, what a backend of the aggregator answers, `int` and `str.lower`,
-- text encodings, the clock and the configuration's values.
--
-- Not modelled: the HTTP requests and mails of serwebs/alerting.py, the set-up of the web framework and
-- of logging, how the JSON files of serwebs/config.py are read and written, the sockets, the host key
-- and the start of the SSH and Telnet gateways, and the REST routes that only show what one of the parts
-- above has.
pub mod App
pub mod Audit
pub mod AuditLog
pub mod Auth
pub mod Backends
pub mod Bridge
pub mod Config
pub mod Dict
pub mod Downloads
pub mod Forward
pub mod Gateway
pub mod Hooks
pub mod Identity
pub mod Jwks
pub mod Limiter
pub mod Locks
pub mod Login
pub mod Models
pub mod PortRoutes
pub mod Ports
pub mod Prelude
pub mod Recording
pub mod Remote
pub mod Ring
pub mod Roles
pub mod Rotation
pub mod Scan
pub mod Session
pub mod SessionLog
pub mod Stores
pub mod Terminal
pub mod Text
pub mod Users
pub mod Wire
pub mod Worker
pub mod Ws
