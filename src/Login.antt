-- ===== src/Login.antt =====
-- The routes of serwebs/routes_api.py that give a local token: `login` and `oidc_exchange`.
-- Below them are `create_access_token` and `decode_token` of serwebs/auth.py, each one call of the JWT
-- library. Times are in seconds.
pub mod Tokens
mod Tests
use serwebs.Prelude.{
  ℕ, ◌+◌, ◌*◌, String, Bool, true, false, ◌==◌, Option, none, some, List, [], ◌∷◌, if◌then◌else◌,
}
use serwebs.Roles.{User}
use serwebs.Auth.{Result, ok, raised, AuthConfig, Services, Claims, authenticate_user}
use serwebs.Identity.{validate_oidc_token}
use serwebs.Audit.{Entry, role, no_details}

pub data Reply : Type 0 where
  access_token : String → Reply
  refused : ℕ → Reply

-- The claims of a local token.
pub record Payload : Type 0 where
  pub sub : String
  pub role : String
  pub exp : ℕ

-- `jwt.encode` and `jwt.decode` with the configured key and algorithm. The second one is called at a
-- time; `none` is an exception.
pub record Jwt : Type 0 where
  pub encode : Payload → String
  pub decode : ℕ → String → Option Payload

-- `minutes` is `token_expire_minutes`.
unfoldable pub create_access_token : Jwt → ℕ → ℕ → User → String
create_access_token jwt minutes now user =
    jwt.encode (record { sub = user.username; role = user.role; exp = now + minutes * 60 })

unfoldable pub decode_token : Jwt → ℕ → String → Option Claims
decode_token jwt now token = elim (jwt.decode now token) [
  | none ↦ none
  | some p ↦ some (record { sub = some p.sub; role = some p.role })
]

-- What the other services are, with the local tokens as they are decoded at a time.
abbrev pub services_at : Jwt → Services → ℕ → Services
services_at jwt svc now = record svc { decode_token = decode_token jwt now }

abbrev success : String → User → Entry
success event user = record {
  event = event;
  user = user.username;
  port_id = "";
  details = role user.role;
}

module _ (cfg : AuthConfig) (svc : Services) (jwt : Jwt) (minutes now : ℕ) where
  -- An exception is not caught: the reply is 500.
  unfoldable pub login : String → String → Reply × List Entry
  login username password = elim (authenticate_user cfg svc username password) [
    | raised ↦ (refused 500, [])
    | ok none ↦ (
      refused 401,
      record { event = "login_failed"; user = username; port_id = ""; details = no_details } ∷ [],
    )
    | ok (some user) ↦
        (access_token (create_access_token jwt minutes now user), success "login" user ∷ [])
  ]

  -- A missing token is the empty text.
  unfoldable pub oidc_exchange : String → Reply × List Entry
  oidc_exchange token =
      if token == "" then (refused 400, []) else elim (validate_oidc_token cfg svc token) [
        | none ↦ (refused 401, [])
        | some user ↦ (
          access_token (create_access_token jwt minutes now user),
          success "oidc_login" user ∷ [],
        )
      ]
