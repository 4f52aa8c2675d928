-- ===== src/Terminal/Guard.antt =====
-- Who reaches the ports through the gateways.
use serwebs.Prelude.{
  ℕ, ◌+◌, refl, String, Bool, true, false, Option, none, some, List, [], ◌∷◌, ◌++◌,
}
use serwebs.Dict.{values}
use serwebs.Models.{PortInfo}
use serwebs.Roles.{User}
use serwebs.Auth.{Result, ok, raised, AuthConfig, Services, authenticate_user}
use serwebs.Scan.{scan_ports}
use serwebs.Gateway.{
  Choice, waiting, timed_out, leave, invalid_selection, invalid_input, selected, choose, open_ports,
}
use serwebs.Bridge.{Kind, telnet, ssh, Act, bridge}
use serwebs.Terminal.{
  Python, Round, menu_lines, menu, after_bridge, round, rounds, is_viewer, telnet_user,
  telnet_session, handle_session, ssh_user, ssh_connection,
}
use serwebs.Terminal.Allowed.{AllAllowed, append-AllAllowed, bridge-All}

module _ (kind : Kind) (user : User) where
  abbrev All : List Act → Type 0
  All acts = AllAllowed (some user) acts

  lines-All : (py : Python) (i : ℕ) (ports : List PortInfo) → All (menu_lines py i ports)
  unfolding menu_lines
  lines-All py i [] = tt
  lines-All py i (p ∷ ports) = (tt, lines-All py (i + 1) ports)

  menu-All :
      (py : Python) (ports : List PortInfo) (acts : List Act)
      → All acts
      → All (menu py ports ++ acts)
  unfolding menu
  menu-All py ports acts h =
      append-AllAllowed (some user) (menu py ports) acts
        (
          tt,
          append-AllAllowed (some user) (menu_lines py 1 ports) _ (lines-All py 1 ports)
              (tt, (tt, tt)),
        )
        h

  after_bridge-All :
      (b : Bool × List Act) (rest : List Act) → All b.1 → All rest → All (after_bridge b rest)
  after_bridge-All (true, acts) rest h g = append-AllAllowed (some user) acts _ h (tt, g)
  after_bridge-All (false, acts) rest h g = h

  round-All :
      (py : Python) (r : Round) (ports : List PortInfo) (choice : Choice) (rest : List Act)
      → All rest
      → All (round kind py user.username (is_viewer user) r ports choice rest)
  unfolding round
  round-All py r ports waiting rest h = (tt, h)
  round-All py r ports timed_out rest h = menu-All py ports _ (tt, (tt, tt))
  round-All py r ports leave rest h = menu-All py ports _ (tt, tt)
  round-All py r ports invalid_selection rest h = menu-All py ports _ (tt, h)
  round-All py r ports invalid_input rest h = menu-All py ports _ (tt, h)
  round-All py r ports (selected p) rest h = menu-All py ports _ (
      after_bridge-All (bridge kind user.username (is_viewer user) r.later p.id r.events) rest
        (bridge-All kind user r.later p.id r.events) h)

  rounds-All :
      (py : Python) (rs : List Round) → All (rounds kind py user.username (is_viewer user) rs)
  unfolding rounds
  rounds-All py [] = tt
  rounds-All py (r ∷ rs) =
      let ports : List PortInfo = values (scan_ports r.sys r.manager).ports in
      round-All py r (open_ports ports) (choose py.lower py.to_int ports r.line)
        (rounds kind py user.username (is_viewer user) rs) (rounds-All py rs)

abbrev pub user_of : Result (Option User) → Option User
user_of raised = none
user_of (ok who) = who

-- The user of a Telnet session: the one of the name and the password, if both come in time.
abbrev pub telnet_who : AuthConfig → Services → Option String → Option String → Option User
telnet_who cfg svc none password = none
telnet_who cfg svc (some name) none = none
telnet_who cfg svc (some name) (some word) = user_of (authenticate_user cfg svc name word)

abbrev pub or_next : Result (Option User) → Option User → Option User
or_next raised next = none
or_next (ok none) next = next
or_next (ok (some user)) next = some user

-- The user of an SSH connection: that of the first attempt with a right password.
abbrev pub ssh_who : AuthConfig → Services → List (String × String) → Option User
ssh_who cfg svc [] = none
ssh_who cfg svc ((name, word) ∷ attempts) =
    or_next (authenticate_user cfg svc name word) (ssh_who cfg svc attempts)

telnet_user-Allowed :
    (py : Python) (name : String) (rs : List Round) (user : Result (Option User))
    → AllAllowed (user_of user) (telnet_user py name rs user)
unfolding telnet_user
telnet_user-Allowed py name rs raised = tt
telnet_user-Allowed py name rs (ok none) = (refl, (tt, tt))
telnet_user-Allowed py name rs (ok (some user)) = (refl, (tt, (tt, rounds-All telnet user py rs)))

telnet-Allowed :
    (cfg : AuthConfig) (svc : Services) (py : Python) (name password : Option String)
    (rs : List Round)
    → AllAllowed (telnet_who cfg svc name password) (telnet_session cfg svc py name password rs)
unfolding telnet_session
telnet-Allowed cfg svc py none password rs = (tt, (tt, (tt, tt)))
telnet-Allowed cfg svc py (some name) none rs = (tt, (tt, (tt, (tt, tt))))
telnet-Allowed cfg svc py (some name) (some word) rs =
    (tt, (tt, (tt, telnet_user-Allowed py name rs (authenticate_user cfg svc name word))))

ssh_user-Allowed :
    (py : Python) (rs : List Round) (user : Result (Option User)) (next : Option User)
    (rest : List Act)
    → AllAllowed next rest
    → AllAllowed (or_next user next) (ssh_user py rs user rest)
unfolding ssh_user handle_session
ssh_user-Allowed py rs raised next rest h = tt
ssh_user-Allowed py rs (ok none) next rest h = h
ssh_user-Allowed py rs (ok (some user)) next rest h = (tt, (tt, rounds-All ssh user py rs))

ssh-Allowed :
    (cfg : AuthConfig) (svc : Services) (py : Python) (attempts : List (String × String))
    (rs : List Round)
    → AllAllowed (ssh_who cfg svc attempts) (ssh_connection cfg svc py attempts rs)
unfolding ssh_connection
ssh-Allowed cfg svc py [] rs = tt
ssh-Allowed cfg svc py ((name, word) ∷ attempts) rs =
    ssh_user-Allowed py rs (authenticate_user cfg svc name word) _ _
      (ssh-Allowed cfg svc py attempts rs)

-- Without a user of the name and the password, a session of the Telnet or the SSH gateway neither
-- writes to a port nor shows bytes of one, and its only audit entry is that of a failed Telnet login.
-- With one, every audit entry is about this user, and a viewer writes nothing.
pub sessions-AllAllowed :
    (cfg : AuthConfig) (svc : Services) (py : Python) (name password : Option String)
    (attempts : List (String × String)) (rs : List Round)
    → AllAllowed (telnet_who cfg svc name password) (telnet_session cfg svc py name password rs)
      × AllAllowed (ssh_who cfg svc attempts) (ssh_connection cfg svc py attempts rs)
sessions-AllAllowed cfg svc py name password attempts rs =
    (telnet-Allowed cfg svc py name password rs, ssh-Allowed cfg svc py attempts rs)
