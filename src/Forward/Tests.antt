-- ===== src/Forward/Tests.antt =====
-- What is forwarded for a few entries.
use serwebs.Prelude.{◌≡◌, refl, String, [], ◌∷◌}
use serwebs.Dict.{Dict, get}
use serwebs.Text.{concat}
use serwebs.Forward.{AlertingConfig, forward_alert}
use serwebs.Forward.Message.{
  Sender, forged, join, format_rfc3164, format_rfc5424, message_is_forged,
}

abbrev cfg : AlertingConfig
cfg = record {
  events = "port_open" ∷ "aggregator_port_open" ∷ [];
  webhook_url = "http://w";
  smtp_host = "";
  smtp_to = [];
}

abbrev payload : Dict String
payload =
    ("event", "port_open")
    ∷ ("timestamp", "t")
    ∷ ("user", "ann")
    ∷ ("port_id", "a")
    ∷ ("baudrate", "9600")
    ∷ []

-- The details of `aggregator_port_open` have the key "port_id", so that no alert goes out.
clash_is_silent :
    forward_alert cfg "aggregator_port_open" "t" "ann" ""
      (("backend", "lab") ∷ ("port_id", "a") ∷ [])
    ≡ []
unfolding forward_alert get
clash_is_silent = refl

abbrev sender : Sender
sender = record {
  show = λ n. "134";
  facility = "local0";
  hostname = "box";
  short_time = "Jan 01 00:00:00";
  long_time = "2024-01-01T00:00:00.000000Z";
}

old_format :
    format_rfc3164 sender "port_open" "ann" "a"
    ≡ "<134>Jan 01 00:00:00 box serwebs: port_open user=ann port_id=a"
unfolding format_rfc3164 join concat
old_format = refl

message_is_forged_example :
    format_rfc5424 sender "login_failed" (forged "ann" "a") ""
    ≡ format_rfc5424 sender "login_failed" "ann" "a"
message_is_forged_example = message_is_forged sender "login_failed" "ann" "a" refl refl
