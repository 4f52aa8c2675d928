-- ===== src/Forward/Message.antt =====
-- The text of a message of `SyslogForwarder` (serwebs/syslog_handler.py). `show` is `str` of a number;
-- the times and the name of the host are arguments. The audit log passes the user and the port.
use Prim.Native.Char.{Char}
use Prim.Native.String.{◌++◌ as append}
use Prim.Native.String.compare
use text.Mathlib.TextLemmas.{
  cons-append, append-nil as text_append_nil, append_assoc as text_append_assoc,
}
use serwebs.Prelude.{ℕ, ◌≡◌, ◌∙◌, refl, ap, sym, String, true, List, [], ◌∷◌, arith, if◌then◌else◌}
use serwebs.Text.{is_true, concat}
use serwebs.Forward.{pri}

-- The settings and surroundings of one message.
pub record Sender : Type 0 where
  pub show : ℕ → String
  pub facility : String
  pub hostname : String
  -- `datetime.now` in the two formats
  pub short_time : String
  pub long_time : String

-- `sep.join(texts)`
unfoldable pub join : String → List String → String
join sep [] = ""
join sep (s ∷ []) = s
join sep (s ∷ t ∷ more) = concat (s ∷ sep ∷ join sep (t ∷ more) ∷ [])

-- `f"{k}={v}"` and `f'{k}="{v}"'`
abbrev pub pair : String → String → String
pair k v = concat (k ∷ "=" ∷ v ∷ [])

abbrev pub quoted : String → String → String
quoted k v = concat (k ∷ "=\"" ∷ v ∷ "\"" ∷ [])

-- What is passed and not empty.
abbrev pub passed : (String → String → String) → String → String → List String
passed form user port_id =
    if is_true user
    then form "user" user ∷ (if is_true port_id then form "port_id" port_id ∷ [] else [])
    else if is_true port_id
    then form "port_id" port_id ∷ []
    else []

unfoldable pub format_rfc3164 : Sender → String → String → String → String
unfolding join
format_rfc3164 s event user port_id = concat (
    "<"
    ∷ s.show (pri s.facility event)
    ∷ ">"
    ∷ s.short_time
    ∷ " "
    ∷ s.hostname
    ∷ " serwebs: "
    ∷ event
    ∷ " "
    ∷ join " " (passed pair user port_id)
    ∷ [])

unfoldable pub format_rfc5424 : Sender → String → String → String → String
unfolding join
format_rfc5424 s event user port_id = concat (
    "<"
    ∷ s.show (pri s.facility event)
    ∷ ">1 "
    ∷ s.long_time
    ∷ " "
    ∷ s.hostname
    ∷ " serwebs - "
    ∷ event
    ∷ " [serwebs@0 "
    ∷ join " " (passed quoted user port_id)
    ∷ "]"
    ∷ " "
    ∷ event
    ∷ [])

-- A user's name that holds a quotation mark.
abbrev pub forged : String → String → String
forged user port_id = concat (user ∷ "\" port_id=\"" ∷ port_id ∷ [])

cons_nonempty : (c : Char) (s : String) → is_true (String.◌∷◌ c s) ≡ true
cons_nonempty c s = rw (compare.cons-nil c s) refl

forged_nonempty :
    (user port_id : String) → is_true user ≡ true → is_true (forged user port_id) ≡ true
unfolding concat
forged_nonempty String.[] port_id h = ground (arith, h)
forged_nonempty (String.◌∷◌ c user) port_id h =
    ap is_true (cons-append c user _) ∙ cons_nonempty c _

-- The pieces between two attributes are one text.
between :
    (rest : String)
    → append "\"" (append " " (append "port_id" (append "=\"" rest))) ≡ append "\" port_id=\"" rest
between rest =
    ap (λ t. append "\"" (append " " t)) (sym (text_append_assoc "port_id" "=\"" rest))
    ∙ ap (append "\"") (sym (text_append_assoc " " "port_id=\"" rest))
    ∙ sym (text_append_assoc "\"" " port_id=\"" rest)

same_attributes :
    (user port_id : String)
    → quoted "user" (forged user port_id)
      ≡ concat (quoted "user" user ∷ " " ∷ quoted "port_id" port_id ∷ [])
unfolding concat
same_attributes user port_id = simp (text_append_assoc, text_append_nil, between)

forged_attributes :
    (user port_id : String)
    → is_true user ≡ true
    → is_true port_id ≡ true
    → join " " (passed quoted (forged user port_id) "") ≡ join " " (passed quoted user port_id)
unfolding join
forged_attributes user port_id h g =
    rw (forged_nonempty user port_id h, h, g) (same_attributes user port_id)

-- The attributes of a syslog message are written without escaping what they hold: for any user and port,
-- an event of a user whose name is that user, a quotation mark, and the attribute of that port, and of
-- no port, is forwarded as the same message as the event of that user on that port.
pub message_is_forged :
    (s : Sender) (event user port_id : String)
    → is_true user ≡ true
    → is_true port_id ≡ true
    → format_rfc5424 s event (forged user port_id) "" ≡ format_rfc5424 s event user port_id
unfolding format_rfc5424
message_is_forged s event user port_id h g = rw (forged_attributes user port_id h g) refl
