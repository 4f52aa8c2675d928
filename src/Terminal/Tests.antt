-- ===== src/Terminal/Tests.antt =====
-- Sessions on concrete input, and the theorems about them at concrete inputs.
use serwebs.Prelude.{◌≡◌, refl, true, false, ◌==◌, ◌&&◌, none, some, [], ◌∷◌, if◌then◌else◌}
use serwebs.Models.{no_parity, no_flow}
use serwebs.Auth.{ok, UserConfig, AuthConfig, Services, authenticate_user, local_user}
use serwebs.Scan.{System, PortManager}
use serwebs.Worker.{SerialWorker}
use serwebs.Ws.{fresh}
use serwebs.Gateway.{nonnegative}
use serwebs.Bridge.{telnet, ssh, broadcasts, takes, idles, types}
use serwebs.Terminal.{Python, Round, telnet_session, ssh_connection}
use serwebs.Terminal.Flow.{IsOrdered, sessions-IsOrdered}
use serwebs.Terminal.Allowed.{AllAllowed}
use serwebs.Terminal.Guard.{telnet_who, ssh_who, sessions-AllAllowed}

abbrev python : Python
python = record {
  lower = λ s. s;
  to_int = λ s. if s == "1" then some (nonnegative 1) else none;
  show = λ n. "1";
}

abbrev dora : UserConfig
dora = record { username = "dora"; password_hash = "hash of pw"; role = "viewer" }

abbrev config : AuthConfig
config = record {
  users = dora ∷ [];
  runtime_users = [];
  ldap = record {
    enabled = false;
    has_groups = false;
    admin_groups = [];
    viewer_groups = [];
    default_role = "viewer";
  };
  radius = record {
    enabled = false;
    admin_filter_id = "";
    viewer_filter_id = "";
    default_role = "user";
  };
  tacacs = record {
    enabled = false;
    admin_priv_lvl = 15;
    viewer_priv_lvl = 0;
    default_role = "user";
  };
  oidc = record { enabled = false; admin_groups = []; viewer_groups = []; default_role = "user" };
}

abbrev services : Services
services = record {
  verify = λ password hash. ok (hash == "hash of pw" && password == "pw");
  ldap_search = λ username. none;
  ldap_bind = λ dn password. false;
  ldap_groups = λ dn. none;
  radius = λ username password. none;
  tacacs = λ username password. false;
  tacacs_arguments = λ username. [];
  decode_token = λ token. none;
  kid_of = λ token. none;
  provider_keys = none;
  decode_oidc = λ kid token. none;
}

abbrev one_device : System
one_device = record {
  port_patterns = "/dev/ttyUSB*" ∷ [];
  blacklist_patterns = [];
  max_ports = 2;
  read_timeout = 100;
  write_timeout = 1000;
  devices = λ _. "/dev/ttyUSB0" ∷ [];
  basename = λ _. "ttyUSB0";
  matches = λ _ _. false;
  is_locked = λ _. false;
  describe = λ _. "";
  accessible = λ _. true;
  aliases = [];
  opens = λ _. true;
  alive = λ _. true;
}

abbrev busy_worker : SerialWorker
busy_worker = record {
  device = "/dev/ttyUSB0";
  settings = record {
    baudrate = 9600;
    parity = no_parity;
    stopbits = 1;
    databits = 8;
    flowcontrol = no_flow;
    read_timeout = none;
    write_timeout = none;
  };
  write_queue = [];
  connected = true;
  running = true;
}

abbrev manager : PortManager
manager = record { ws = fresh 4; ports = []; workers = ("ttyUSB0", busy_worker) ∷ [] }

abbrev one_visit : Round
one_visit = record {
  sys = one_device;
  manager = manager;
  line = some "1";
  later = manager;
  events =
      broadcasts "ttyUSB0" (7 ∷ [])
      ∷ takes
      ∷ types (104 ∷ []) true
      ∷ types (29 ∷ []) true
      ∷ idles true
      ∷ [];
}

abbrev quitting : Round
quitting = record one_visit { line = some "q" }

-- The viewer is the user of both sessions.
dora_is_known :
    (telnet_who config services (some "dora") (some "pw")
      ≡ some record { username = "dora"; role = "viewer" })
unfolding authenticate_user local_user
dora_is_known = refl

sessions-IsOrdered_example :
    IsOrdered telnet
      (telnet_session config services python (some "dora") (some "pw") (one_visit ∷ quitting ∷ []))
    × IsOrdered ssh (
        ssh_connection config services python
          (("dora", "no") ∷ ("dora", "pw") ∷ [])
          (one_visit ∷ quitting ∷ []))
sessions-IsOrdered_example =
    sessions-IsOrdered config services python (some "dora") (some "pw")
      (("dora", "no") ∷ ("dora", "pw") ∷ []) (one_visit ∷ quitting ∷ [])

sessions-AllAllowed_example :
    AllAllowed
      (telnet_who config services (some "dora") (some "pw"))
      (telnet_session config services python (some "dora") (some "pw") (one_visit ∷ quitting ∷ []))
    × AllAllowed (ssh_who config services (("dora", "no") ∷ ("dora", "pw") ∷ [])) (
        ssh_connection config services python
          (("dora", "no") ∷ ("dora", "pw") ∷ [])
          (one_visit ∷ quitting ∷ []))
sessions-AllAllowed_example =
    sessions-AllAllowed config services python (some "dora") (some "pw")
      (("dora", "no") ∷ ("dora", "pw") ∷ []) (one_visit ∷ quitting ∷ [])
