-- ===== src/Session/Tests.antt =====
-- A session on a port with one running worker.
use serwebs.Prelude.{◌≡◌, refl, true, false, ◌⊎◌, none, some, [], ◌∷◌, is_some}
use serwebs.Dict.{get}
use serwebs.Auth.{ok, AuthConfig, Services}
use serwebs.Identity.{token_user, try_decode_any_token}
use serwebs.Models.{PortSettings, no_parity, no_flow}
use serwebs.Worker.{SerialWorker}
use serwebs.Ws.{fresh, client_count}
use serwebs.Session.{Server, Endpoint, Handshake, Session, write, open_session, on_message}
use serwebs.Session.Opening.{open_session-lem}
use serwebs.Session.Writing.{IsWritten, on_message-IsWritten}

abbrev config : AuthConfig
config = record {
  users = [];
  runtime_users = [];
  ldap = record {
    enabled = false;
    has_groups = false;
    admin_groups = [];
    viewer_groups = [];
    default_role = "viewer";
  };
  radius = record {
    enabled = false;
    admin_filter_id = "";
    viewer_filter_id = "";
    default_role = "user";
  };
  tacacs = record {
    enabled = false;
    admin_priv_lvl = 15;
    viewer_priv_lvl = 0;
    default_role = "user";
  };
  oidc = record { enabled = false; admin_groups = []; viewer_groups = []; default_role = "user" };
}

abbrev services : Services
services = record {
  verify = λ password hash. ok false;
  ldap_search = λ username. none;
  ldap_bind = λ dn password. false;
  ldap_groups = λ dn. none;
  radius = λ username password. none;
  tacacs = λ username password. false;
  tacacs_arguments = λ username. [];
  decode_token = λ token. some (record { sub = some token; role = some "user" });
  kid_of = λ token. none;
  provider_keys = none;
  decode_oidc = λ kid token. none;
}

abbrev endpoint : Endpoint
endpoint = record {
  auth = config;
  services = services;
  max_clients_per_port = 2;
  max_message_size = 10;
  encode = λ text. 1 ∷ 2 ∷ [];
  client_key = λ username ws. username;
  locked_text = λ locks port_id. "locked";
  too_large_text = "too large";
}

abbrev settings : PortSettings
settings = record {
  baudrate = 9600;
  databits = 8;
  parity = no_parity;
  stopbits = 1;
  flowcontrol = no_flow;
  read_timeout = none;
  write_timeout = none;
}

abbrev worker : SerialWorker
worker = record {
  device = "/dev/a";
  settings = settings;
  write_queue = (7 ∷ []) ∷ [];
  connected = true;
  running = true;
}

abbrev server : Server
server = record {
  manager = record { ws = fresh 4; ports = []; workers = ("a", worker) ∷ [] };
  limiter = record { second = 1; rate = 5; burst = 5; tokens = []; last = [] };
  locks = [];
}

abbrev shake : Handshake
shake = record {
  origin = "http://box";
  origin_host = "box";
  req_host = "box";
  token = none;
  first_token = some "amy";
}

abbrev session : Session
session = record {
  user = record { username = "amy"; role = "user" };
  port_id = "a";
  ws = 1;
  is_viewer = false;
}

open_session-lem_example : is_some (get "a" server.manager.workers) ≡ true
unfolding open_session token_user try_decode_any_token get client_count
open_session-lem_example =
    (open_session-lem endpoint (λ _. true) server server shake "a" 1 session refl).2

on_message-IsWritten_example :
    ((on_message endpoint (λ _. true) true server session 0 (write "x")).server.manager.workers
      ≡ server.manager.workers)
    ⊎ IsWritten endpoint
        (λ _. true)
        true
        server
        session
        0
        (on_message endpoint (λ _. true) true server session 0 (write "x")).server
        (write "x")
on_message-IsWritten_example =
    (on_message-IsWritten endpoint (λ _. true) true server session 0 (write "x")).3
