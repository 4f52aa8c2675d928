-- ===== src/App.antt =====
-- serwebs/app.py and serwebs/__main__.py: which parts start with which settings, what an audit entry
-- sets off, how the application stops, and the headers of every answer. Whether a server or a socket
-- comes up is an argument. The web framework and the set-up of Python's logging are outside.
pub mod Life
mod Tests
use serwebs.Prelude.{
  ℕ, String, Bool, true, false, ◌&&◌, ◌||◌, eqb, Option, none, some, List, [], ◌∷◌, ◌++◌,
  if◌then◌else◌,
}
use serwebs.Dict.{Dict, put}
use serwebs.Text.{is_true}
use serwebs.Wire.{Effect}
use serwebs.Config.{AppConfig}
use serwebs.Scan.{System, PortManager, scan_ports}
use serwebs.Ports
use serwebs.Ws
use serwebs.Ws.{fresh}

-- What comes up when it is started.
pub record Outcome : Type 0 where
  pub ssh_starts : Bool
  pub telnet_starts : Bool
  pub syslog_connects : Bool
  pub has_backends : Bool

pub record App : Type 0 where
  -- whether `log`, `log_data` and `start` are the methods, and not what replaces them
  pub logs_audit : Bool
  pub logs_data : Bool
  pub records : Bool
  pub manager : PortManager
  -- a server, a handler or its socket that is there
  pub ssh_server : Bool
  pub telnet_server : Bool
  pub alerter : Bool
  pub syslog : Bool
  pub syslog_socket : Bool
  pub aggregator : Bool

-- `lifespan` up to its `yield`.
unfoldable pub startup : AppConfig → Outcome → System → App
startup cfg out sys = record {
  logs_audit = cfg.audit.enabled;
  logs_data = cfg.session_logging.enabled;
  records = cfg.recordings.enabled;
  manager =
      scan_ports sys (record { ws = fresh cfg.serial.ring_buffer_size; ports = []; workers = [] });
  ssh_server = cfg.ssh.enabled && out.ssh_starts;
  telnet_server = cfg.telnet.enabled && out.telnet_starts;
  alerter = cfg.alerting.enabled;
  syslog = cfg.syslog.enabled;
  syslog_socket = cfg.syslog.enabled && out.syslog_connects;
  aggregator = cfg.aggregator.enabled && out.has_backends;
}

-- `stop_ssh_gateway` and `stop_telnet_gateway`: a server that is there is closed.
unfoldable pub stop_server : Bool → Bool → Bool
stop_server enabled server = if enabled then false else server

unfoldable pub close_syslog : Bool → App → App
close_syslog enabled app =
    if enabled && app.syslog then record app { syslog_socket = false } else app

-- What an audit entry does to the socket: `send` opens one where there is none, and gives it up where
-- it fails.
unfoldable pub log_entry : App → Bool → Bool → App
log_entry app connects sends =
    if app.logs_audit && app.syslog
    then record app { syslog_socket = (app.syslog_socket || connects) && sends }
    else app

abbrev pub log_each : App → List (Bool × Bool) → App
log_each app [] = app
log_each app ((connects, sends) ∷ entries) = log_each (log_entry app connects sends) entries

-- `lifespan` from its `yield`. `late` are the audit entries that come after the handler is closed.
unfoldable pub shutdown : AppConfig → System → List (Bool × Bool) → App → App × List Effect
unfolding stop_server close_syslog log_entry
shutdown cfg sys late app =
    let app₁ : App =
      log_each
        (close_syslog cfg.syslog.enabled (record app {
          ssh_server = stop_server cfg.ssh.enabled app.ssh_server;
          telnet_server = stop_server cfg.telnet.enabled app.telnet_server;
        }))
        late in
    let (m, closed) = Ports.shutdown sys app₁.manager in
    let (ws, more) = Ws.shutdown sys.alive m.ws in
    (record app₁ { manager = record m { ws = ws } }, closed ++ more)

-- What a call of `log` sets off. All of it happens inside the method.
pub data Sink : Type 0 where
  to_file to_alerter to_syslog : Sink

unfoldable pub sinks : App → List Sink
sinks app =
    if app.logs_audit
    then to_file
      ∷ ((if app.alerter then to_alerter ∷ [] else [])
          ++ (if app.syslog then to_syslog ∷ [] else []))
    else []

-- The headers that every answer gets.
abbrev pub headers : Dict String
headers =
    ("X-Content-Type-Options", "nosniff")
    ∷ ("X-Frame-Options", "DENY")
    ∷ ("X-XSS-Protection", "1; mode=block")
    ∷ ("Referrer-Policy", "strict-origin-when-cross-origin")
    ∷ ("Permissions-Policy", "camera=(), microphone=(), geolocation=()")
    ∷ (
      "Content-Security-Policy",
      "default-src 'self'; script-src 'self' 'unsafe-eval'; style-src 'self' 'unsafe-inline'; connect-src 'self' ws: wss:; img-src 'self' data:; frame-ancestors 'none'; base-uri 'self'; form-action 'self'",
    )
    ∷ []

abbrev pub put_each : Dict String → Dict String → Dict String
put_each [] answer = answer
put_each ((k, v) ∷ more) answer = put_each more (put k v answer)

unfoldable pub security_headers : Dict String → Dict String
security_headers answer = put_each headers answer

-- `args.host or cfg.server.host`, and so for the port
unfoldable pub host_of : Option String → AppConfig → String
host_of none cfg = cfg.server.host
host_of (some host) cfg = if is_true host then host else cfg.server.host

unfoldable pub port_of : Option ℕ → AppConfig → ℕ
port_of none cfg = cfg.server.port
port_of (some port) cfg = if eqb port 0 then cfg.server.port else port

-- The host that the gateways are started on.
unfoldable pub gateway_host : AppConfig → String
gateway_host cfg = cfg.server.host
