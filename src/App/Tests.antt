-- ===== src/App/Tests.antt =====
-- An application with the default settings and one open port.
use serwebs.Prelude.{◌≡◌, refl, true, false, none, some, List, [], ◌∷◌}
use serwebs.Dict.{get, put}
use serwebs.Models.{PortSettings, no_parity, no_flow}
use serwebs.Roles.{User}
use serwebs.Config.{AppConfig, defaults}
use serwebs.Scan.{System}
use serwebs.PortRoutes.Shown.{IsShown}
use serwebs.PortRoutes.Asking.{asks_open, asks_list, device_event}
use serwebs.App.{Outcome, startup, shutdown, sinks, security_headers, host_of, gateway_host}
use serwebs.App.Life.{Happening, asks, joins, receives, logs, serve, IsStopped, life_lem}

abbrev machine : System
machine = record {
  port_patterns = "/dev/ttyUSB*" ∷ [];
  blacklist_patterns = [];
  max_ports = 2;
  read_timeout = 100;
  write_timeout = 1000;
  devices = λ _. "/dev/ttyUSB0" ∷ [];
  basename = λ _. "ttyUSB0";
  matches = λ _ _. false;
  is_locked = λ _. false;
  describe = λ _. "";
  accessible = λ _. true;
  aliases = [];
  opens = λ _. true;
  alive = λ _. true;
}

abbrev all_up : Outcome
all_up = record {
  ssh_starts = true;
  telnet_starts = true;
  syslog_connects = true;
  has_backends = true;
}

abbrev with_ssh : AppConfig
with_ssh = record defaults { ssh = record defaults.ssh { enabled = true } }

-- With the audit log off, no entry reaches the alerts or syslog, even where they are on.
abbrev quiet : AppConfig
quiet = record defaults {
  audit = record defaults.audit { enabled = false };
  alerting = record defaults.alerting { enabled = true };
  syslog = record defaults.syslog { enabled = true };
}

quiet_has_no_sinks : sinks (startup quiet all_up machine) ≡ []
unfolding sinks startup
quiet_has_no_sinks = refl

-- A host on the command line is that of the web server, and not that of the gateways.
host_is_split : host_of (some "127.0.0.1") defaults ≡ "127.0.0.1"
unfolding host_of
host_is_split = refl

gateways_listen : gateway_host defaults ≡ "0.0.0.0"
unfolding gateway_host
gateways_listen = refl

abbrev plain_settings : PortSettings
plain_settings = record {
  baudrate = 9600;
  parity = no_parity;
  stopbits = 1;
  databits = 8;
  flowcontrol = no_flow;
  read_timeout = none;
  write_timeout = none;
}

abbrev root : User
root = record { username = "root"; role = "admin" }

-- A port is opened, a client comes, the port sends bytes.
abbrev happenings : List Happening
happenings =
    asks machine (asks_list [])
    ∷ asks machine (asks_open "ttyUSB0" plain_settings root)
    ∷ logs true true
    ∷ joins true (λ _. true) "ttyUSB0" 1
    ∷ receives true true (λ _. true) "ttyUSB0" (104 ∷ [])
    ∷ asks machine (device_event "add" (some "/dev/ttyUSB0"))
    ∷ []

life_lem_example :
    IsShown (serve (startup with_ssh all_up machine) happenings).manager
    × IsStopped
        (shutdown with_ssh machine
          ((true, true) ∷ [])
          (serve (startup with_ssh all_up machine) happenings)).0
life_lem_example = life_lem with_ssh all_up machine machine happenings ((true, true) ∷ [])

served_answer :
    get "X-Frame-Options" (security_headers (("X-Frame-Options", "ALLOW") ∷ [])) ≡ some "DENY"
unfolding security_headers get put
served_answer = refl
