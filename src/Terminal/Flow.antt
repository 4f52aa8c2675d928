-- ===== src/Terminal/Flow.antt =====
-- The order of what a whole session does.
use serwebs.Prelude.{
  ℕ, ◌+◌, ◌≡◌, ◌∙◌, refl, String, Bool, true, false, Option, none, some, List, [], ◌∷◌, ◌++◌,
  is_some,
}
use serwebs.Dict.{values}
use serwebs.Models.{PortInfo}
use serwebs.Roles.{User}
use serwebs.Auth.{Result, ok, raised, AuthConfig, Services, authenticate_user}
use serwebs.Scan.{scan_ports}
use serwebs.Gateway.{
  Choice, waiting, timed_out, leave, invalid_selection, invalid_input, selected, choose, open_ports,
}
use serwebs.Bridge.{Kind, telnet, ssh, Act, bridge}
use serwebs.Bridge.Order.{flow, flow-append, stands, bridge-flow}
use serwebs.Terminal.{
  Python, Round, menu_lines, menu, after_bridge, round, rounds, is_viewer, telnet_user,
  telnet_session, handle_session, ssh_user, ssh_connection,
}

-- No act stands where it may not.
abbrev pub IsOrdered : Kind → List Act → Type 0
IsOrdered kind acts = is_some (flow kind acts none) ≡ true

module _ (kind : Kind) where
  after_text-IsOrdered :
      (text acts : List Act)
      → flow kind text none ≡ some none
      → IsOrdered kind acts
      → IsOrdered kind (text ++ acts)
  after_text-IsOrdered text acts f h = rw (flow-append kind text acts none, f) h

  menu_lines-flow :
      (py : Python) (i : ℕ) (ports : List PortInfo)
      → flow kind (menu_lines py i ports) none ≡ some none
  unfolding menu_lines
  menu_lines-flow py i [] = refl
  menu_lines-flow py i (p ∷ ports) = menu_lines-flow py (i + 1) ports

  menu-flow : (py : Python) (ports : List PortInfo) → flow kind (menu py ports) none ≡ some none
  unfolding menu
  menu-flow py ports =
      flow-append kind (menu_lines py 1 ports) _ none ∙ rw (menu_lines-flow py 1 ports) refl

  after_bridge-IsOrdered :
      (k : String) (b : Bool × List Act) (rest : List Act)
      → flow kind b.1 none ≡ some (stands k b.0)
      → IsOrdered kind rest
      → IsOrdered kind (after_bridge b rest)
  after_bridge-IsOrdered k (true, acts) rest f h = after_text-IsOrdered acts _ f h
  after_bridge-IsOrdered k (false, acts) rest f h = rw f refl

  round-IsOrdered :
      (py : Python) (username : String) (viewer : Bool) (r : Round) (ports : List PortInfo)
      (choice : Choice) (rest : List Act)
      → IsOrdered kind rest
      → IsOrdered kind (round kind py username viewer r ports choice rest)
  unfolding round
  round-IsOrdered py username viewer r ports waiting rest h = h
  round-IsOrdered py username viewer r ports timed_out rest h =
      after_text-IsOrdered (menu py ports) _ (menu-flow py ports) refl
  round-IsOrdered py username viewer r ports leave rest h =
      after_text-IsOrdered (menu py ports) _ (menu-flow py ports) refl
  round-IsOrdered py username viewer r ports invalid_selection rest h =
      after_text-IsOrdered (menu py ports) _ (menu-flow py ports) h
  round-IsOrdered py username viewer r ports invalid_input rest h =
      after_text-IsOrdered (menu py ports) _ (menu-flow py ports) h
  round-IsOrdered py username viewer r ports (selected p) rest h =
      after_text-IsOrdered (menu py ports) _ (menu-flow py ports) (
        after_bridge-IsOrdered p.id (bridge kind username viewer r.later p.id r.events) rest
          (bridge-flow kind username viewer r.later p.id r.events) h)

  rounds-IsOrdered :
      (py : Python) (username : String) (viewer : Bool) (rs : List Round)
      → IsOrdered kind (rounds kind py username viewer rs)
  unfolding rounds
  rounds-IsOrdered py username viewer [] = refl
  rounds-IsOrdered py username viewer (r ∷ rs) =
      let ports : List PortInfo = values (scan_ports r.sys r.manager).ports in
      round-IsOrdered py username viewer r (open_ports ports)
        (choose py.lower py.to_int ports r.line) (rounds kind py username viewer rs)
        (rounds-IsOrdered py username viewer rs)

telnet_user-IsOrdered :
    (py : Python) (username : String) (rs : List Round) (user : Result (Option User))
    → IsOrdered telnet (telnet_user py username rs user)
unfolding telnet_user
telnet_user-IsOrdered py username rs raised = refl
telnet_user-IsOrdered py username rs (ok none) = refl
telnet_user-IsOrdered py username rs (ok (some user)) =
    rounds-IsOrdered telnet py user.username (is_viewer user) rs

telnet_session-IsOrdered :
    (cfg : AuthConfig) (svc : Services) (py : Python) (name password : Option String)
    (rs : List Round)
    → IsOrdered telnet (telnet_session cfg svc py name password rs)
unfolding telnet_session
telnet_session-IsOrdered cfg svc py none password rs = refl
telnet_session-IsOrdered cfg svc py (some name) none rs = refl
telnet_session-IsOrdered cfg svc py (some name) (some word) rs =
    telnet_user-IsOrdered py name rs (authenticate_user cfg svc name word)

ssh_user-IsOrdered :
    (py : Python) (rs : List Round) (user : Result (Option User)) (rest : List Act)
    → IsOrdered ssh rest
    → IsOrdered ssh (ssh_user py rs user rest)
unfolding ssh_user handle_session
ssh_user-IsOrdered py rs raised rest h = refl
ssh_user-IsOrdered py rs (ok none) rest h = h
ssh_user-IsOrdered py rs (ok (some user)) rest h =
    rounds-IsOrdered ssh py user.username (is_viewer user) rs

ssh_connection-IsOrdered :
    (cfg : AuthConfig) (svc : Services) (py : Python) (attempts : List (String × String))
    (rs : List Round)
    → IsOrdered ssh (ssh_connection cfg svc py attempts rs)
unfolding ssh_connection
ssh_connection-IsOrdered cfg svc py [] rs = refl
ssh_connection-IsOrdered cfg svc py ((name, word) ∷ attempts) rs =
    ssh_user-IsOrdered py rs (authenticate_user cfg svc name word) _
      (ssh_connection-IsOrdered cfg svc py attempts rs)

-- In every session of the Telnet gateway and every connection of the SSH gateway, however its tasks
-- and the other tasks alternate, and whatever other ports say meanwhile: bytes go to a port, and bytes
-- that came from a port go to the terminal, only after the audit entry that joins the session to that
-- port and before the one that ends this; a session is joined to no other port meanwhile, and each
-- entry that ends it is for the port joined.
pub sessions-IsOrdered :
    (cfg : AuthConfig) (svc : Services) (py : Python) (name password : Option String)
    (attempts : List (String × String)) (rs : List Round)
    → IsOrdered telnet (telnet_session cfg svc py name password rs)
      × IsOrdered ssh (ssh_connection cfg svc py attempts rs)
sessions-IsOrdered cfg svc py name password attempts rs = (
  telnet_session-IsOrdered cfg svc py name password rs,
  ssh_connection-IsOrdered cfg svc py attempts rs,
)
