-- ===== src/App/Life.antt =====
-- The life of the application, from its start to its end.
use serwebs.Prelude.{
  ℕ, ◌≡◌, ◌∙◌, refl, sym, subst, ap, String, Bool, true, false, ◌&&◌, eq_iff, none, some, List, [],
  ◌∷◌, arith,
}
use serwebs.Dict.{Dict, get, put, get-put}
use serwebs.Dict.Sums.{IsUnique}
use serwebs.Config.{AppConfig}
use serwebs.Scan.{System, PortManager}
use serwebs.Ports
use serwebs.Ports.Closing.{shutdown_closes}
use serwebs.Ws
use serwebs.Ws.{WsManager, fresh}
use serwebs.Ws.Delivery.{shutdown_lem}
use serwebs.PortRoutes.Shown.{IsShown, scan-IsShown}
use serwebs.PortRoutes.Asking.{Request, step, step-IsShown}
use serwebs.App.{
  Outcome, App, startup, stop_server, close_syslog, log_entry, log_each, shutdown, headers,
  put_each, security_headers,
}

-- While the application serves: a request or an event of the system reaches the port manager, a
-- client comes or goes, a port sends bytes or a message for its clients, an entry is logged.
pub data Happening : Type 0 where
  asks : System → Request → Happening
  joins : Bool → (ℕ → Bool) → String → ℕ → Happening
  leaves : String → ℕ → Happening
  receives : Bool → Bool → (ℕ → Bool) → String → List ℕ → Happening
  tells fails : (ℕ → Bool) → String → String → Happening
  logs : Bool → Bool → Happening

abbrev pub with_ws : App → WsManager → App
with_ws app ws = record app { manager = record app.manager { ws = ws } }

unfoldable pub happens : App → Happening → App
happens app (asks sys r) = record app { manager = step sys app.manager r }
happens app (joins accepted alive k ws) =
    with_ws app (Ws.connect accepted alive app.manager.ws k ws).0
happens app (leaves k ws) = with_ws app (Ws.disconnect app.manager.ws k ws).1
happens app (receives logging recording alive k bytes) =
    with_ws app (Ws.broadcast logging recording alive app.manager.ws k bytes).0
happens app (tells alive k state) = with_ws app (Ws.broadcast_status alive app.manager.ws k state).0
happens app (fails alive k message) =
    with_ws app (Ws.broadcast_error alive app.manager.ws k message).0
happens app (logs connects sends) = log_entry app connects sends

unfoldable pub serve : App → List Happening → App
unfolding happens
serve app [] = app
serve app (h ∷ hs) = serve (happens app h) hs

-- No gateway, worker, client or buffer is left.
pub record IsStopped (app : App) : Type 0 where
  pub no_ssh : app.ssh_server ≡ false
  pub no_telnet : app.telnet_server ≡ false
  pub no_workers : app.manager.workers ≡ []
  pub no_clients : app.manager.ws.connections ≡ []
  pub no_buffers : app.manager.ws.ring_buffers ≡ []

-- What stays while the application serves.
abbrev SameServers : App → App → Type 0
SameServers a b = (a.ssh_server ≡ b.ssh_server) × (a.telnet_server ≡ b.telnet_server)

log_entry_lem :
    (app : App) (connects sends : Bool)
    → ((log_entry app connects sends).manager ≡ app.manager)
      × SameServers (log_entry app connects sends) app
unfolding log_entry
log_entry_lem app connects sends = (ground arith, (ground arith, ground arith))

log_each_lem :
    (app : App) (late : List (Bool × Bool))
    → ((log_each app late).manager ≡ app.manager) × SameServers (log_each app late) app
log_each_lem app [] = (refl, (refl, refl))
log_each_lem app ((connects, sends) ∷ late) =
    let (m, (s, t)) = log_entry_lem app connects sends in
    let (m', (s', t')) = log_each_lem (log_entry app connects sends) late in
    (m' ∙ m, (s' ∙ s, t' ∙ t))

ws-IsShown : (m : PortManager) (ws : WsManager) → IsShown m → IsShown (record m { ws = ws })
ws-IsShown m ws h = record {
  unique_workers = h.unique_workers;
  unique_ports = h.unique_ports;
  tell = h.tell;
}

happens-IsShown :
    (app : App) (h : Happening) → IsShown app.manager → IsShown (happens app h).manager
unfolding happens
happens-IsShown app (asks sys r) s = step-IsShown sys app.manager r s
happens-IsShown app (logs connects sends) s =
    subst IsShown (sym (log_entry_lem app connects sends).0) s
happens-IsShown app (joins accepted alive k ws) s = ws-IsShown app.manager _ s
happens-IsShown app (leaves k ws) s = ws-IsShown app.manager _ s
happens-IsShown app (receives logging recording alive k bytes) s = ws-IsShown app.manager _ s
happens-IsShown app (tells alive k state) s = ws-IsShown app.manager _ s
happens-IsShown app (fails alive k message) s = ws-IsShown app.manager _ s

happens-SameServers : (app : App) (h : Happening) → SameServers (happens app h) app
unfolding happens
happens-SameServers app (logs connects sends) = (log_entry_lem app connects sends).1
happens-SameServers app (asks sys r) = (refl, refl)
happens-SameServers app (joins accepted alive k ws) = (refl, refl)
happens-SameServers app (leaves k ws) = (refl, refl)
happens-SameServers app (receives logging recording alive k bytes) = (refl, refl)
happens-SameServers app (tells alive k state) = (refl, refl)
happens-SameServers app (fails alive k message) = (refl, refl)

serve_lem :
    (app : App) (hs : List Happening)
    → IsShown app.manager
    → IsShown (serve app hs).manager × SameServers (serve app hs) app
unfolding serve
serve_lem app [] s = (s, (refl, refl))
serve_lem app (h ∷ hs) s =
    let (shown, same) = serve_lem (happens app h) hs (happens-IsShown app h s) in
    let before = happens-SameServers app h in (shown, (same.0 ∙ before.0, same.1 ∙ before.1))

startup-IsShown :
    (cfg : AppConfig) (out : Outcome) (sys : System) → IsShown (startup cfg out sys).manager
unfolding startup
startup-IsShown cfg out sys =
    scan-IsShown sys (record { ws = fresh cfg.serial.ring_buffer_size; ports = []; workers = [] })
      tt

stop-server_lem : (enabled starts : Bool) → stop_server enabled (enabled && starts) ≡ false
unfolding stop_server
stop-server_lem true starts = refl
stop-server_lem false starts = refl

close_syslog-manager :
    (enabled : Bool) (app : App)
    → ((close_syslog enabled app).manager ≡ app.manager)
      × ((close_syslog enabled app).ssh_server ≡ app.ssh_server)
      × ((close_syslog enabled app).telnet_server ≡ app.telnet_server)
unfolding close_syslog
close_syslog-manager enabled app = (ground arith, ground arith, ground arith)

-- While the application serves, whatever is asked of it, whoever comes and goes, and whatever happens
-- to the devices, no port is shown as open that has no worker. When it stops after that, no gateway,
-- no worker, no client and no buffer is left, whatever entries are logged meanwhile. Nothing is said
-- of the socket of the syslog handler.
pub life_lem :
    (cfg : AppConfig) (out : Outcome) (sys sys' : System) (hs : List Happening)
    (late : List (Bool × Bool))
    → let app = serve (startup cfg out sys) hs in
      IsShown app.manager × IsStopped (shutdown cfg sys' late app).0
unfolding shutdown
life_lem cfg out sys sys' hs late =
    let app : App = serve (startup cfg out sys) hs in
    let (shown, same) = serve_lem (startup cfg out sys) hs (startup-IsShown cfg out sys) in
    let stopping : App = record app {
      ssh_server = stop_server cfg.ssh.enabled app.ssh_server;
      telnet_server = stop_server cfg.telnet.enabled app.telnet_server;
    } in
    let (_, ssh, telnet) = close_syslog-manager cfg.syslog.enabled stopping in
    let logged : App = log_each (close_syslog cfg.syslog.enabled stopping) late in
    let (_, (ssh', telnet')) = log_each_lem (close_syslog cfg.syslog.enabled stopping) late in
    let (m, closed) = Ports.shutdown sys' logged.manager in
    (
      shown,
      record {
        no_ssh =
            ssh'
            ∙ ssh
            ∙ ap (stop_server cfg.ssh.enabled) same.0
            ∙ (unfold startup in stop-server_lem cfg.ssh.enabled out.ssh_starts);
        no_telnet =
            telnet'
            ∙ telnet
            ∙ ap (stop_server cfg.telnet.enabled) same.1
            ∙ (unfold startup in stop-server_lem cfg.telnet.enabled out.telnet_starts);
        no_workers = shutdown_closes sys' logged.manager;
        no_clients = ap (λ w. w.connections) (shutdown_lem sys'.alive m.ws);
        no_buffers = ap (λ w. w.ring_buffers) (shutdown_lem sys'.alive m.ws);
      },
    )

-- After the handler is closed, an entry that reaches it opens the socket again, where the connection
-- and the send succeed.
socket_stays :
    (app : App)
    → app.logs_audit ≡ true
    → app.syslog ≡ true
    → (log_entry (close_syslog true app) true true).syslog_socket ≡ true
unfolding log_entry close_syslog
socket_stays app h g = ground (arith, h, g)

put_each-get :
    (hs answer : Dict String) (k : String)
    → IsUnique hs
    → get k (put_each hs answer) ≡ (elim (get k hs) [ none ↦ get k answer | some v ↦ some v ])
unfolding get
put_each-get [] answer k u = refl
put_each-get ((j, v) ∷ hs) answer k u =
    ground (arith, put_each-get hs (put j v answer) k u.1, get-put j k v answer, u.0, eq_iff j k)

-- Whatever a route answers, each of the six security headers has its fixed value, and every other
-- header is as the route set it.
pub security_headers_lem :
    (answer : Dict String) (k : String)
    → get k (security_headers answer)
      ≡ (elim (get k headers) [ none ↦ get k answer | some v ↦ some v ])
unfolding security_headers
security_headers_lem answer k =
    put_each-get headers answer k (unfold get in (refl, (refl, (refl, (refl, (refl, (refl, tt)))))))
