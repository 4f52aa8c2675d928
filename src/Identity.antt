-- ===== src/Identity.antt =====
-- Who sends a request: `_validate_oidc_token`, `try_decode_any_token`, `_extract_basic_auth` and
-- `get_current_user` of serwebs/auth.py. Verified tokens, the provider's keys and the decoded
-- header are outside. A key of the provider is named by its key ID.
pub mod Origin
mod Tests
use serwebs.Prelude.{
  ℕ, String, Bool, true, false, ◌==◌, Option, none, some, List, [], ◌∷◌, if◌then◌else◌,
}
use serwebs.Roles.{User, group_role}
use serwebs.Auth.{
  Result, ok, raised, AuthConfig, Services, GroupClaim, one, many, Claims, OidcClaims, same_option,
  or_else, authenticate_user,
}

-- The parts of a request that are read. `basic` is what an "Authorization: Basic" header holds,
-- decoded and split at its first colon; `none` is another header, or one that cannot be decoded.
pub record Request : Type 0 where
  pub bearer : Option String
  pub basic : Option (String × String)
  pub query_token : Option String

-- The loop over the keys of the provider.
unfoldable pub has_key : Option String → List (Option String) → Bool
has_key kid [] = false
has_key kid (k ∷ ks) = if same_option k kid then true else has_key kid ks

-- `if isinstance(groups, str): groups = [groups]`
abbrev pub groups_of : GroupClaim → List String
groups_of (one g) = g ∷ []
groups_of (many gs) = gs

module _ (cfg : AuthConfig) (svc : Services) where
  unfoldable pub oidc_user : OidcClaims → User
  oidc_user payload = record {
    username = or_else payload.username (or_else payload.sub "unknown");
    role =
        group_role cfg.oidc.default_role cfg.oidc.admin_groups cfg.oidc.viewer_groups
          (groups_of payload.groups);
  }

  -- Any exception ends it with None.
  unfoldable pub validate_oidc_token : String → Option User
  unfolding has_key oidc_user
  validate_oidc_token token =
      if cfg.oidc.enabled
      then (elim (svc.kid_of token) [
        | none ↦ none
        | some kid ↦ elim svc.provider_keys [
          | none ↦ none
          | some keys ↦
              if has_key kid keys
              then (elim (svc.decode_oidc kid token) [
                | none ↦ none
                | some payload ↦ some (oidc_user payload)
              ])
              else none
        ]
      ])
      else none

  -- A local token without `sub` or `role` is a KeyError.
  unfoldable pub try_decode_any_token : String → Result (Option User)
  unfolding validate_oidc_token
  try_decode_any_token token = elim (svc.decode_token token) [
    | none ↦ ok (validate_oidc_token token)
    | some payload ↦ elim payload.sub [
      | none ↦ raised
      | some sub ↦ elim payload.role [
        | none ↦ raised
        | some role ↦ ok (some (record { username = sub; role = role }))
      ]
    ]
  ]

  -- The ValueError of bcrypt is caught here.
  unfoldable pub extract_basic_auth : Option (String × String) → Option User
  extract_basic_auth none = none
  extract_basic_auth (some (username, password)) =
      elim (authenticate_user cfg svc username password) [ raised ↦ none | ok user ↦ user ]

  -- The token, if there is one that is not empty.
  unfoldable pub token_user : Option String → Result (Option User)
  token_user none = ok none
  token_user (some token) = if token == "" then ok none else try_decode_any_token token

  -- `ok none` is the 401.
  unfoldable pub get_current_user : Request → Result (Option User)
  unfolding token_user extract_basic_auth
  get_current_user request = elim (token_user request.bearer) [
    | raised ↦ raised
    | ok (some user) ↦ ok (some user)
    | ok none ↦ elim (extract_basic_auth request.basic) [
      | some user ↦ ok (some user)
      | none ↦ token_user request.query_token
    ]
  ]
