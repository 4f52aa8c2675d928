-- ===== src/Terminal.antt =====
-- The sessions of serwebs/telnet_gateway.py and serwebs/ssh_gateway.py: the login, the menu of the open
-- ports, and a bridge for each port that is chosen. What other tasks make of the port manager and
-- what the terminal types is given for each round; reading a line is in Gateway.
pub mod Allowed
pub mod Guard
pub mod Flow
mod Tests
use serwebs.Prelude.{
  ℕ, ◌+◌, String, Bool, true, false, ◌==◌, Option, none, some, List, [], ◌∷◌, ◌++◌, if◌then◌else◌,
}
use serwebs.Dict.{values}
use serwebs.Text.{concat, is_true}
use serwebs.Models.{PortSettings, PortInfo}
use serwebs.Roles.{User}
use serwebs.Auth.{Result, ok, raised, AuthConfig, Services, authenticate_user}
use serwebs.Audit.{Entry, no_details, role}
use serwebs.Scan.{System, PortManager, scan_ports}
use serwebs.Gateway.{
  Number, Choice, waiting, timed_out, leave, invalid_selection, invalid_input, selected, choose,
  open_ports,
}
use serwebs.Bridge.{Kind, telnet, ssh, Act, says, logs, Event, bridge}

-- Python's `str.lower`, `int` and `str` of a number.
pub record Python : Type 0 where
  pub lower : String → String
  pub to_int : String → Option Number
  pub show : ℕ → String

-- One round of the menu: the port manager when it starts, the line that is typed (`none` when it does
-- not come in time), the port manager when a bridge starts, and what happens during the bridge.
pub record Round : Type 0 where
  pub sys : System
  pub manager : PortManager
  pub line : Option String
  pub later : PortManager
  pub events : List Event

abbrev pub or_else : String → String → String
or_else s t = if is_true s then s else t

abbrev pub baud : Python → Option PortSettings → String
baud py none = ""
baud py (some s) = concat (" [" ∷ py.show s.baudrate ∷ " baud]" ∷ [])

abbrev pub described : String → String
described s = if is_true s then concat (" (" ∷ s ∷ ")" ∷ []) else ""

unfoldable pub menu_lines : Python → ℕ → List PortInfo → List Act
menu_lines py i [] = []
menu_lines py i (p ∷ ps) =
    says (
      concat (
        "  "
        ∷ py.show i
        ∷ ". "
        ∷ or_else p.alias p.id
        ∷ described p.description
        ∷ baud py p.settings
        ∷ "\r\n"
        ∷ []))
    ∷ menu_lines py (i + 1) ps

unfoldable pub menu : Python → List PortInfo → List Act
unfolding menu_lines
menu py ports =
    says "Available ports:\r\n"
    ∷ (menu_lines py 1 ports ++ says "  q. Quit\r\n\r\n" ∷ says "Select port: " ∷ [])

-- After a bridge: whether it is over, and what follows it.
abbrev pub after_bridge : Bool × List Act → List Act → List Act
after_bridge (true, acts) rest = acts ++ says "\r\nDisconnected from port.\r\n\r\n" ∷ rest
after_bridge (false, acts) rest = acts

-- The rest of a round, with what the rounds after it do.
unfoldable pub round :
    Kind → Python → String → Bool → Round → List PortInfo → Choice → List Act → List Act
unfolding menu
round kind py username is_viewer r ports waiting rest =
    says "No ports are currently open. Waiting...\r\n" ∷ rest
round kind py username is_viewer r ports timed_out rest =
    menu py ports ++ says "\r\nSession timed out.\r\n" ∷ says "Goodbye!\r\n" ∷ []
round kind py username is_viewer r ports leave rest = menu py ports ++ says "Goodbye!\r\n" ∷ []
round kind py username is_viewer r ports invalid_selection rest =
    menu py ports ++ says "Invalid selection.\r\n\r\n" ∷ rest
round kind py username is_viewer r ports invalid_input rest =
    menu py ports ++ says "Invalid input.\r\n\r\n" ∷ rest
round kind py username is_viewer r ports (selected p) rest =
    menu py ports ++ after_bridge (bridge kind username is_viewer r.later p.id r.events) rest

-- The loop of the menu.
unfoldable pub rounds : Kind → Python → String → Bool → List Round → List Act
unfolding round
rounds kind py username is_viewer [] = []
rounds kind py username is_viewer (r ∷ rs) =
    let rest = rounds kind py username is_viewer rs in
    let ports : List PortInfo = values (scan_ports r.sys r.manager).ports in
    round kind py username is_viewer r (open_ports ports) (choose py.lower py.to_int ports r.line)
      rest

abbrev pub is_viewer : User → Bool
is_viewer user = (user.role == "viewer")

abbrev pub failed_entry : String → Entry
failed_entry username = record {
  event = "telnet_login_failed";
  user = username;
  port_id = "";
  details = no_details;
}

abbrev pub login_entry : User → Entry
login_entry user = record {
  event = "telnet_login";
  user = user.username;
  port_id = "";
  details = role user.role;
}

abbrev pub welcome : String → User → List Act
welcome gateway user =
    says
      (concat ("\r\nWelcome to SerWebs " ∷ gateway ∷ " Gateway, " ∷ user.username ∷ "!\r\n" ∷ []))
    ∷ says (concat ("Role: " ∷ user.role ∷ "\r\n\r\n" ∷ []))
    ∷ []

-- From the call of `authenticate_user` on; what it raises ends the session.
unfoldable pub telnet_user : Python → String → List Round → Result (Option User) → List Act
unfolding rounds
telnet_user py username rs raised = []
telnet_user py username rs (ok none) =
    logs (failed_entry username) ∷ says "\r\nAuthentication failed.\r\n" ∷ []
telnet_user py username rs (ok (some user)) =
    logs (login_entry user)
    ∷ (welcome "Telnet" user ++ rounds telnet py user.username (is_viewer user) rs)

-- `name` and `password` are `none` when they do not come within 30 seconds.
unfoldable pub telnet_session :
    AuthConfig → Services → Python → Option String → Option String → List Round → List Act
unfolding telnet_user
telnet_session cfg svc py name password rs =
    says "\r\nSerWebs Telnet Gateway\r\n\r\n" ∷ says "Username: " ∷ (elim name [
      | none ↦ says "\r\nTimeout.\r\n" ∷ []
      | some username ↦ says "Password: " ∷ (elim password [
        | none ↦ says "\r\nTimeout.\r\n" ∷ []
        | some word ↦ telnet_user py username rs (authenticate_user cfg svc username word)
      ])
    ])

-- `handle_session`, for the user that `validate_password` kept.
unfoldable pub handle_session : Python → User → List Round → List Act
unfolding rounds
handle_session py user rs = welcome "SSH" user ++ rounds ssh py user.username (is_viewer user) rs

-- An attempt with what `validate_password` gets for it, and what the attempts after it come to.
unfoldable pub ssh_user : Python → List Round → Result (Option User) → List Act → List Act
unfolding handle_session
ssh_user py rs raised rest = []
ssh_user py rs (ok none) rest = rest
ssh_user py rs (ok (some user)) rest = handle_session py user rs

-- The attempts of a connection; the SSH library starts the session after the first that
-- `validate_password` accepts, and takes one that raises for the end of the connection.
unfoldable pub ssh_connection :
    AuthConfig → Services → Python → List (String × String) → List Round → List Act
unfolding ssh_user
ssh_connection cfg svc py [] rs = []
ssh_connection cfg svc py ((username, password) ∷ attempts) rs =
    ssh_user py rs (authenticate_user cfg svc username password)
      (ssh_connection cfg svc py attempts rs)
