-- ===== src/Session.antt =====
-- A WebSocket session: `websocket_endpoint` of serwebs/routes_ws.py, as the handshake, the handling
-- of one message, and what the `finally` block does. Between two of these steps the state is free to
-- change, and in the handshake between the checks and the client's entry; elsewhere it does not. A send to a socket that is gone raises, which ends the session.
pub mod Opening
pub mod Writing
mod Tests
use serwebs.Prelude.{
  ℕ, String, Bool, true, false, not, ◌==◌, ◌&&◌, ◌||◌, Option, none, some, List, [], ◌∷◌, ◌++◌,
  length, leb, ltb, if◌then◌else◌,
}
use serwebs.Dict.{Dict, get, put}
use serwebs.Roles.{User, is_member}
use serwebs.Auth.{Result, ok, raised, AuthConfig, Services}
use serwebs.Identity.{token_user}
use serwebs.Audit.{Entry}
use serwebs.Wire.{Message, error, pong, tx, Effect, accept, send, close, session_log, record_data}
use serwebs.Worker
use serwebs.Worker.{SerialWorker, Written, queued, waits, not_running}
use serwebs.Ws.{client_count, connect, disconnect}
use serwebs.Scan.{PortManager}
use serwebs.Limiter.{Limiter, allow, remove}
use serwebs.Locks.{Lock, locked_out, entry}

-- What the endpoint shares with the rest of the server. The locks are those of port_locks.json.
pub record Server : Type 0 where
  pub manager : PortManager
  pub limiter : Limiter
  pub locks : Dict Lock

-- The configuration, and the texts that the library functions form.
pub record Endpoint : Type 0 where
  pub auth : AuthConfig
  pub services : Services
  pub max_clients_per_port : ℕ
  pub max_message_size : ℕ
  pub encode : String → List ℕ
  -- `f"{user['username']}:{id(ws)}"`
  pub client_key : String → ℕ → String
  pub locked_text : Dict Lock → String → String
  pub too_large_text : String

-- The headers, as `urlparse` and `partition` take them apart; the token of the query; and the token
-- of the first message, `none` if none comes in time or the message is another.
pub record Handshake : Type 0 where
  pub origin : String
  pub origin_host : String
  pub req_host : String
  pub token : Option String
  pub first_token : Option String

unfoldable pub origin_allowed : Handshake → Bool
origin_allowed h =
    if h.origin == ""
    then true
    else h.origin_host == h.req_host
      || (is_member h.origin_host ("localhost" ∷ "127.0.0.1" ∷ "::1" ∷ [])
          && is_member h.req_host ("localhost" ∷ "127.0.0.1" ∷ "::1" ∷ "0.0.0.0" ∷ []))

-- The user, and whether the socket had to be accepted to find out. An exception is caught only while
-- the first message is awaited.
unfoldable pub identify : Endpoint → Handshake → Result (Bool × Option User)
identify e h = elim (token_user e.auth e.services h.token) [
  | raised ↦ raised
  | ok (some user) ↦ ok (false, some user)
  | ok none ↦ elim (token_user e.auth e.services h.first_token) [
    | raised ↦ ok (true, none)
    | ok found ↦ ok (true, found)
  ]
]

pub record Session : Type 0 where
  pub user : User
  pub port_id : String
  pub ws : ℕ
  pub is_viewer : Bool

pub record Opened : Type 0 where
  pub server : Server
  pub effects : List Effect
  pub entries : List Entry
  -- `none`: the socket is turned away
  pub session : Option Session

abbrev pub turned_away : Server → List Effect → Opened
turned_away server effects = record {
  server = server;
  effects = effects;
  entries = [];
  session = none;
}

-- From the check that the port is open on. `connect` waits for the handshake and for its lock before
-- it adds the client: `later` is the server at that time.
unfoldable pub enter : Endpoint → (ℕ → Bool) → Server → Server → String → ℕ → Bool → User → Opened
enter e alive server later port_id ws accepted user =
    let m = server.manager in
    let before : List Effect = if accepted then accept ws ∷ [] else [] in
    elim (get port_id m.workers) [
      | none ↦ turned_away server (before ++ close ws 4002 ∷ [])
      | some worker ↦
          if leb e.max_clients_per_port (client_count m.ws port_id)
          then turned_away server (before ++ close ws 4003 ∷ [])
          else let (ws', sent) = connect accepted alive later.manager.ws port_id ws in
            record {
              server = record later { manager = record later.manager { ws = ws' } };
              effects = before ++ sent;
              entries = entry "ws_connect" user port_id ∷ [];
              session = some (record {
                user = user;
                port_id = port_id;
                ws = ws;
                is_viewer = user.role == "viewer";
              });
            }
    ]

unfoldable pub open_session :
    Endpoint → (ℕ → Bool) → Server → Server → Handshake → String → ℕ → Opened
unfolding origin_allowed identify enter
open_session e alive server later h port_id ws =
    if not (origin_allowed h)
    then turned_away server (close ws 4001 ∷ [])
    else elim (identify e h) [
      | raised ↦ turned_away server []
      | ok (accepted, none) ↦ turned_away server (
          accept ws
          ∷ (if alive ws
              then send ws (error "Authentication required") ∷ close ws 4001 ∷ []
              else []))
      | ok (accepted, some user) ↦ enter e alive server later port_id ws accepted user
    ]

-- A message from the client: text that is no JSON, a write with its payload, a ping, another type.
pub data Received : Type 0 where
  invalid_json ping other_type : Received
  write : String → Received

-- The loop goes on, an exception ends it, or the message is not done with: `await worker.write` waits
-- for room in the queue.
pub data Next : Type 0 where
  goes_on ends waits_for_room : Next

-- What a message leaves.
pub record Handled : Type 0 where
  pub server : Server
  pub effects : List Effect
  pub next : Next

-- `await ws.send_text(...)` outside a `try` of its own.
abbrev pub reply : (ℕ → Bool) → Server → Session → Message → Handled
reply alive server s msg =
    if alive s.ws
    then record { server = server; effects = send s.ws msg ∷ []; next = goes_on }
    else record { server = server; effects = []; next = ends }

-- From `current_worker = pm.get_worker(port_id)` on.
unfoldable pub write_through : (ℕ → Bool) → Bool → Server → Session → List ℕ → Handled
write_through alive recording server s chunk =
    let m = server.manager in
    let gone = reply alive server s (error "Port is no longer available") in
    elim (get s.port_id m.workers) [
      | none ↦ gone
      | some worker ↦
          if worker.running
          then (elim (Worker.write chunk worker) [
            | not_running ↦ record { server = server; effects = []; next = ends }
            | waits ↦ record { server = server; effects = []; next = waits_for_room }
            | queued worker' ↦ record {
              server = record server {
                manager = record m { workers = put s.port_id worker' m.workers };
              };
              effects =
                  session_log s.port_id tx chunk
                  ∷ (if recording then record_data s.port_id tx chunk ∷ [] else []);
              next = goes_on;
            }
          ])
          else gone
    ]

-- The rate limit; a KeyError of the limiter ends the session.
unfoldable pub write_limited :
    Endpoint → (ℕ → Bool) → Bool → Server → Session → ℕ → List ℕ → Handled
unfolding write_through
write_limited e alive recording server s now chunk =
    elim (allow server.limiter (e.client_key s.user.username s.ws) now) [
      | none ↦ record { server = server; effects = []; next = ends }
      | some (true, l) ↦ write_through alive recording (record server { limiter = l }) s chunk
      | some (false, l) ↦
          reply alive (record server { limiter = l }) s (error "Rate limit exceeded")
    ]

unfoldable pub on_write : Endpoint → (ℕ → Bool) → Bool → Server → Session → ℕ → String → Handled
unfolding write_limited locked_out
on_write e alive recording server s now payload =
    let chunk = e.encode payload in
    if s.is_viewer
    then reply alive server s (error "Read-only mode: viewers cannot write to ports")
    else if locked_out server.locks s.port_id s.user.username
    then reply alive server s (error (e.locked_text server.locks s.port_id))
    else if ltb e.max_message_size (length chunk)
    then reply alive server s (error e.too_large_text)
    else write_limited e alive recording server s now chunk

unfoldable pub on_message : Endpoint → (ℕ → Bool) → Bool → Server → Session → ℕ → Received → Handled
unfolding on_write
on_message e alive recording server s now invalid_json = reply alive server s (error "Invalid JSON")
on_message e alive recording server s now ping = reply alive server s pong
on_message e alive recording server s now other_type = record {
  server = server;
  effects = [];
  next = goes_on;
}
on_message e alive recording server s now (write payload) =
    on_write e alive recording server s now payload

-- The `finally` block.
unfoldable pub leave : Endpoint → Server → Session → Server × List Entry
leave e server s =
    let m = server.manager in
    (
      record server {
        limiter = remove server.limiter (e.client_key s.user.username s.ws);
        manager = record m { ws = (disconnect m.ws s.port_id s.ws).1 };
      },
      entry "ws_disconnect" s.user s.port_id ∷ [],
    )
