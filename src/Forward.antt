-- ===== src/Forward.antt =====
-- What `AuditLogger.log` (serwebs/audit.py) forwards: alerts (serwebs/alerting.py) and syslog messages
-- (serwebs/syslog_handler.py). The requests, mails and sockets are outside; details are texts.
pub mod Alerts
pub mod Message
pub mod Priority
mod Tests
use text.Mathlib.Text.{starts_with}
use serwebs.Prelude.{
  ℕ, ◌+◌, ◌*◌, String, Bool, true, false, not, ◌==◌, ◌&&◌, ◌||◌, Option, none, some, List, [], ◌∷◌,
  ◌++◌, if◌then◌else◌,
}
use serwebs.Text.{is_true}
use serwebs.Dict.{Dict, get, put, has, get_or}

pub record AlertingConfig : Type 0 where
  pub events : List String
  pub webhook_url : String
  pub smtp_host : String
  pub smtp_to : List String

pub data Alert : Type 0 where
  webhook : Dict String → Alert
  email : String → Dict String → Alert

abbrev pub is_listed : String → List String → Bool
is_listed event [] = false
is_listed event (e ∷ es) = if e == event then true else is_listed event es

unfoldable pub should_alert : AlertingConfig → String → Bool
should_alert cfg event = is_listed event cfg.events

-- `{**base, **kwargs}`
unfoldable pub put_all : Dict String → Dict String → Dict String
put_all [] base = base
put_all ((k, v) ∷ kwargs) base = put_all kwargs (put k v base)

abbrev is_nil : List String → Bool
is_nil [] = true
is_nil (s ∷ ss) = false

-- `_send_async` and `_send_sync`, one after the other.
unfoldable pub deliver : AlertingConfig → String → Dict String → List Alert
deliver cfg event payload =
    (if is_true cfg.webhook_url then webhook payload ∷ [] else [])
    ++ (if is_true cfg.smtp_host && not (is_nil cfg.smtp_to) then email event payload ∷ [] else [])

unfoldable pub payload_of : String → String → Dict String → Dict String
unfolding put_all
payload_of event timestamp kwargs =
    put_all kwargs (("event", event) ∷ ("timestamp", timestamp) ∷ [])

unfoldable pub send : AlertingConfig → String → String → Dict String → List Alert
unfolding should_alert deliver payload_of
send cfg event timestamp kwargs =
    if should_alert cfg event then deliver cfg event (payload_of event timestamp kwargs) else []

-- Keys that the call passes already: a second value for one is a TypeError.
abbrev pub clashes : Dict String → Bool
clashes details =
    has "self" details || (has "event" details || (has "user" details || has "port_id" details))

-- `alerter.send(event, user=user, port_id=port_id, **(details or {}))`, whose exceptions are dropped.
unfoldable pub forward_alert :
    AlertingConfig → String → String → String → String → Dict String → List Alert
unfolding send
forward_alert cfg event timestamp user port_id details =
    if clashes details
    then []
    else send cfg event timestamp (("user", user) ∷ ("port_id", port_id) ∷ details)

-- `_FACILITY_MAP`
abbrev pub facility_map : Dict ℕ
facility_map =
    ("kern", 0)
    ∷ ("user", 1)
    ∷ ("mail", 2)
    ∷ ("daemon", 3)
    ∷ ("auth", 4)
    ∷ ("syslog", 5)
    ∷ ("lpr", 6)
    ∷ ("news", 7)
    ∷ ("local0", 16)
    ∷ ("local1", 17)
    ∷ ("local2", 18)
    ∷ ("local3", 19)
    ∷ ("local4", 20)
    ∷ ("local5", 21)
    ∷ ("local6", 22)
    ∷ ("local7", 23)
    ∷ []

unfoldable pub facility_of : String → ℕ
unfolding get
facility_of name = get_or name 16 facility_map

-- `part in text`
unfoldable pub is_part : String → String → Bool
is_part part String.[] = part == ""
is_part part (String.◌∷◌ c s) =
    let rest = is_part part s in if starts_with (String.◌∷◌ c s) part then true else rest

unfoldable pub severity_of : String → ℕ
unfolding is_part
severity_of event = if is_part "fail" event then 4 else 6

-- `self._facility * 8 + severity`
unfoldable pub pri : String → String → ℕ
unfolding facility_of severity_of
pri facility event = facility_of facility * 8 + severity_of event

-- Whether the message was sent, and whether there is a socket after; `connects` and `sends` say
-- whether the network calls go through.
unfoldable pub send_syslog : Bool → Bool → Bool → Bool × Bool
send_syslog connects sends sock =
    if sock || connects then (if sends then (true, true) else (false, false)) else (false, false)
