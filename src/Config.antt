-- ===== src/Config.antt =====
-- serwebs/config.py: the settings with their defaults, where they are loaded from and where data is
-- kept. The settings of `[auth]` are in Auth. A time-out is a number of milliseconds. The file system,
-- the environment and the parsing of TOML and of a path are arguments.
pub mod Loading
mod Tests
use serwebs.Prelude.{
  ℕ, String, Bool, true, false, Option, none, some, List, [], ◌∷◌, ◌++◌, if◌then◌else◌,
}
use serwebs.Dict.{Dict}
use serwebs.Auth.{Result, ok, raised}

pub record ServerConfig : Type 0 where
  pub host : String
  pub port : ℕ
  pub static_dir : String

pub record SerialConfig : Type 0 where
  pub port_patterns : List String
  pub blacklist_patterns : List String
  pub ring_buffer_size : ℕ
  pub max_message_size : ℕ
  pub rate_limit_per_second : ℕ
  pub max_clients_per_port : ℕ
  pub max_ports : ℕ
  pub read_timeout : ℕ
  pub write_timeout : ℕ

pub record LoggingConfig : Type 0 where
  pub level : String
  pub format : String

pub record DataConfig : Type 0 where
  pub directory : String

pub record AuditConfig : Type 0 where
  pub enabled : Bool
  pub max_file_size_mb : ℕ
  pub max_files : ℕ

pub record SessionLoggingConfig : Type 0 where
  pub enabled : Bool
  pub max_file_size_mb : ℕ
  pub max_files : ℕ
  pub timestamp_prefix : Bool

pub record RecordingsConfig : Type 0 where
  pub enabled : Bool
  pub max_storage_mb : ℕ

pub record SshConfig : Type 0 where
  pub enabled : Bool
  pub port : ℕ
  pub host_key_file : String

pub record AlertingConfig : Type 0 where
  pub enabled : Bool
  pub webhook_url : String
  pub webhook_headers : Dict String
  pub smtp_host : String
  pub smtp_port : ℕ
  pub smtp_use_tls : Bool
  pub smtp_username : String
  pub smtp_password : String
  pub smtp_from : String
  pub smtp_to : List String
  pub events : List String

pub record SyslogConfig : Type 0 where
  pub enabled : Bool
  pub host : String
  pub port : ℕ
  pub protocol : String
  pub facility : String
  pub format : String

pub record TelnetConfig : Type 0 where
  pub enabled : Bool
  pub port : ℕ
  pub timeout : ℕ

pub record AggregatorConfig : Type 0 where
  pub enabled : Bool
  pub backends_file : String

pub record AppConfig : Type 0 where
  pub server : ServerConfig
  pub serial : SerialConfig
  pub logging : LoggingConfig
  pub data_files : DataConfig
  pub audit : AuditConfig
  pub session_logging : SessionLoggingConfig
  pub recordings : RecordingsConfig
  pub ssh : SshConfig
  pub telnet : TelnetConfig
  pub alerting : AlertingConfig
  pub syslog : SyslogConfig
  pub aggregator : AggregatorConfig

-- `AppConfig()`
abbrev pub defaults : AppConfig
defaults = record {
  server = record { host = "0.0.0.0"; port = 8080; static_dir = "frontend" };
  serial = record {
    port_patterns = "/dev/ttyUSB*" ∷ "/dev/ttyACM*" ∷ [];
    blacklist_patterns = "/dev/ttyS*" ∷ [];
    ring_buffer_size = 65536;
    max_message_size = 4096;
    rate_limit_per_second = 100;
    max_clients_per_port = 10;
    max_ports = 20;
    read_timeout = 100;
    write_timeout = 1000;
  };
  logging = record { level = "info"; format = "json" };
  data_files = record { directory = "data" };
  audit = record { enabled = true; max_file_size_mb = 10; max_files = 5 };
  session_logging = record {
    enabled = true;
    max_file_size_mb = 50;
    max_files = 5;
    timestamp_prefix = true;
  };
  recordings = record { enabled = true; max_storage_mb = 500 };
  ssh = record { enabled = false; port = 2222; host_key_file = "" };
  telnet = record { enabled = false; port = 2323; timeout = 120 };
  alerting = record {
    enabled = false;
    webhook_url = "";
    webhook_headers = [];
    smtp_host = "";
    smtp_port = 587;
    smtp_use_tls = true;
    smtp_username = "";
    smtp_password = "";
    smtp_from = "";
    smtp_to = [];
    events =
        "port_open" ∷ "port_close" ∷ "device_lost" ∷ "login_failed" ∷ "ws_connect"
        ∷ "recording_start" ∷ [];
  };
  syslog = record {
    enabled = false;
    host = "localhost";
    port = 514;
    protocol = "udp";
    facility = "local0";
    format = "rfc5424";
  };
  aggregator = record { enabled = false; backends_file = "backends.yaml" };
}
