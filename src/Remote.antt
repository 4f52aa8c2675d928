-- ===== src/Remote.antt =====
-- What `Aggregator` (serwebs/aggregator.py) asks of the backends: their ports and tokens; its requests
-- and routes are in a module of their own. What a backend answers is an argument. Times are whole
-- ticks, `second` of them to a second.
pub mod Cache
pub mod Tokens
pub mod Proxy
pub mod Requests
pub mod Generic
mod Tests
use text.Mathlib.Text.{starts_with}
use serwebs.Prelude.{
  ℕ, ◌-◌, ◌*◌, String, Bool, true, false, not, ◌==◌, ◌&&◌, ◌||◌, Option, none, some, List, [], ◌∷◌,
  ◌++◌, map, ltb, if◌then◌else◌,
}
use serwebs.Text.{is_true, without, concat}
use serwebs.Dict.{Dict, get, put, values}
use serwebs.Auth.{or_else}
use serwebs.Roles.{User, require_role}
use serwebs.Audit.{Entry, remote_port}
use serwebs.Backends.{BackendConfig, find_backend}

-- A port as a backend describes it, with the keys that are read; and as it is handed on.
pub record RemotePort : Type 0 where
  pub id : Option String
  pub alias : Option String
  pub other : Dict String

pub record Port : Type 0 where
  pub id : String
  pub alias : String
  pub backend : String
  pub backend_url : String
  pub original_id : String
  pub other : Dict String

-- The prefix with the name of the backend.
unfoldable pub prefix_port : BackendConfig → RemotePort → Port
prefix_port b p =
    let original : String = or_else p.id "" in
    let alias : String = or_else p.alias "" in
    record {
      id = concat (b.name ∷ "/" ∷ original ∷ []);
      alias = concat ("[" ∷ b.name ∷ "] " ∷ (if is_true alias then alias else original) ∷ []);
      backend = b.name;
      backend_url = b.url;
      original_id = original;
      other = p.other;
    }

-- `none` is an exception; that backend is passed over.
unfoldable pub collect : (BackendConfig → Option (List RemotePort)) → List BackendConfig → List Port
unfolding prefix_port
collect answer [] = []
collect answer (b ∷ bs) = elim (answer b) [
  | none ↦ collect answer bs
  | some ports ↦ map (prefix_port b) ports ++ collect answer bs
]

unfoldable pub store : Dict Port → List Port → Dict Port
store d [] = d
store d (p ∷ ps) = store (put p.id p d) ps

pub record PortCache : Type 0 where
  pub ports : Dict Port
  pub time : ℕ

abbrev pub is_empty : Dict Port → Bool
is_empty [] = true
is_empty (p ∷ d) = false

-- The ports, the cache after, and whether the backends were asked.
unfoldable pub fetch_all_ports :
    ℕ
    → (BackendConfig → Option (List RemotePort))
    → List BackendConfig
    → PortCache
    → ℕ
    → List Port × PortCache × Bool
unfolding collect store
fetch_all_ports second answer backends cache now =
    if not (is_empty cache.ports) && ltb (now - cache.time) (5 * second)
    then (values cache.ports, cache, false)
    else let ports = collect answer backends in
      (ports, record { ports = store [] ports; time = now }, true)

-- The login of `_get_backend_token`: the token, the cache after, and whether a request was sent.
-- `login` is the token of a reply with status 200, `none` any other end.
unfoldable pub log_in :
    (BackendConfig → Option String)
    → Dict (String × ℕ)
    → BackendConfig
    → ℕ
    → String × Dict (String × ℕ) × Bool
log_in login cache b now =
    if not (is_true b.username) || not (is_true b.password)
    then ("", cache, false)
    else elim (login b) [
      | none ↦ ("", cache, true)
      | some token ↦ (token, put b.name (token, now) cache, true)
    ]

-- The token of its own, else one from the cache that is younger than an hour, else a login.
unfoldable pub get_backend_token :
    ℕ
    → (BackendConfig → Option String)
    → Dict (String × ℕ)
    → BackendConfig
    → ℕ
    → String × Dict (String × ℕ) × Bool
unfolding log_in
get_backend_token second login cache b now =
    if is_true b.token then (b.token, cache, false) else elim (get b.name cache) [
      | none ↦ log_in login cache b now
      | some (token, at) ↦
          if ltb (now - at) (3600 * second) then (token, cache, false) else log_in login cache b now
    ]

unfoldable pub get_backend_ws_url :
    ℕ
    → (BackendConfig → Option String)
    → List BackendConfig
    → Dict (String × ℕ)
    → String
    → String
    → ℕ
    → Option String × Dict (String × ℕ)
unfolding get_backend_token without
get_backend_ws_url second login backends cache name port_id now =
    elim (find_backend name backends) [
      | none ↦ (none, cache)
      | some b ↦
          let (token, cache', asked) = get_backend_token second login cache b now in
          let scheme : String = if starts_with b.url "https" then "wss" else "ws" in
          let base : String = without "http://" (without "https://" b.url) in
          (
            some (concat (scheme ∷ "://" ∷ base ∷ "/ws/" ∷ port_id ∷ "?token=" ∷ token ∷ [])),
            cache',
          )
    ]
