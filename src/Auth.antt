-- ===== src/Auth.antt =====
-- Who a caller is by name and password: `authenticate_user` of serwebs/auth.py.
-- bcrypt, the LDAP, RADIUS and TACACS+ servers, JWT and the OIDC provider are outside: what they
-- answer is in `Services`. A function that can raise returns a `Result`.
pub mod Sources
mod Tests
use serwebs.Prelude.{
  ℕ, String, Bool, true, false, ◌==◌, ◌&&◌, Option, none, some, List, [], ◌∷◌, is_some,
  if◌then◌else◌,
}
use serwebs.Roles.{User, group_role, filter_role, priv_role, Argument}

pub data Result {ℓ} (A : Type ℓ) : Type ℓ where
  ok : A → Result A
  raised : Result A

-- `[[auth.users]]` of the configuration.
pub record UserConfig : Type 0 where
  pub username : String
  pub password_hash : String
  pub role : String

-- An entry of users.json, whose keys may be missing.
pub record RuntimeUser : Type 0 where
  pub username : Option String
  pub password_hash : Option String
  pub role : Option String

pub record LdapConfig : Type 0 where
  pub enabled : Bool
  pub has_groups : Bool
  pub admin_groups : List String
  pub viewer_groups : List String
  pub default_role : String

pub record RadiusConfig : Type 0 where
  pub enabled : Bool
  pub admin_filter_id : String
  pub viewer_filter_id : String
  pub default_role : String

pub record TacacsConfig : Type 0 where
  pub enabled : Bool
  pub admin_priv_lvl : ℕ
  pub viewer_priv_lvl : ℕ
  pub default_role : String

pub record OidcConfig : Type 0 where
  pub enabled : Bool
  pub admin_groups : List String
  pub viewer_groups : List String
  pub default_role : String

pub record AuthConfig : Type 0 where
  pub users : List UserConfig
  pub runtime_users : List RuntimeUser
  pub ldap : LdapConfig
  pub radius : RadiusConfig
  pub tacacs : TacacsConfig
  pub oidc : OidcConfig

-- The claims of a local token; a missing one is a KeyError.
pub record Claims : Type 0 where
  pub sub : Option String
  pub role : Option String

-- The claim with the groups, `[]` where it is missing.
pub data GroupClaim : Type 0 where
  one : String → GroupClaim
  many : List String → GroupClaim

-- The claims of a provider's token that are read.
pub record OidcClaims : Type 0 where
  pub username : Option String
  pub sub : Option String
  pub groups : GroupClaim

pub record Services : Type 0 where
  -- `bcrypt.checkpw`, which raises on a hash that is none
  pub verify : String → String → Result Bool
  -- the DN that the search finds, the bind with it, the names of its groups; `none` is an exception
  pub ldap_search : String → Option String
  pub ldap_bind : String → String → Bool
  pub ldap_groups : String → Option (List String)
  -- Filter-Id of an Access-Accept; `none` is a reject or an exception
  pub radius : String → String → Option (List String)
  -- whether the authentication passed, and the arguments of a valid authorization
  pub tacacs : String → String → Bool
  pub tacacs_arguments : String → List Argument
  -- `jwt.decode` with the local key; `none` is a JWTError
  pub decode_token : String → Option Claims
  -- key ID of a token; key IDs of the provider; the token verified with that key. `none` outside
  -- is an exception, `none` inside a missing key ID.
  pub kid_of : String → Option (Option String)
  pub provider_keys : Option (List (Option String))
  pub decode_oidc : Option String → String → Option OidcClaims

abbrev pub same_option : Option String → Option String → Bool
same_option none none = true
same_option (some a) (some b) = a == b
same_option _ _ = false

abbrev pub or_else : Option String → String → String
or_else none d = d
or_else (some s) d = s

module _ (cfg : AuthConfig) (svc : Services) where
  -- 1. Local users.
  unfoldable pub local_user : List UserConfig → String → String → Result (Option User)
  local_user [] username password = ok none
  local_user (u ∷ us) username password =
      let rest = local_user us username password in
      if u.username == username
      then (elim (svc.verify password u.password_hash) [
        | ok true ↦ ok (some (record { username = u.username; role = u.role }))
        | ok false ↦ rest
        | raised ↦ raised
      ])
      else rest

  -- 2. Runtime users.
  unfoldable pub runtime_user : List RuntimeUser → String → String → Result (Option User)
  runtime_user [] username password = ok none
  runtime_user (u ∷ us) username password =
      let rest = runtime_user us username password in
      if same_option u.username (some username)
      then (elim (svc.verify password (or_else u.password_hash "")) [
        | ok true ↦ ok (some (record { username = username; role = or_else u.role "user" }))
        | ok false ↦ rest
        | raised ↦ raised
      ])
      else rest

  -- `_authenticate_ldap`: any exception ends it with None.
  unfoldable pub ldap_user : String → String → Option User
  ldap_user username password =
      if cfg.ldap.enabled
      then (elim (svc.ldap_search username) [
        | none ↦ none
        | some dn ↦
            if svc.ldap_bind dn password
            then if cfg.ldap.has_groups
              then (elim (svc.ldap_groups dn) [
                | none ↦ none
                | some groups ↦ some (record {
                  username = username;
                  role =
                      group_role cfg.ldap.default_role cfg.ldap.admin_groups cfg.ldap.viewer_groups
                        groups;
                })
              ])
              else some (record { username = username; role = cfg.ldap.default_role })
            else none
      ])
      else none

  unfoldable pub radius_user : String → String → Option User
  radius_user username password =
      if cfg.radius.enabled
      then (elim (svc.radius username password) [
        | none ↦ none
        | some fids ↦ some (record {
          username = username;
          role =
              filter_role cfg.radius.admin_filter_id cfg.radius.viewer_filter_id
                cfg.radius.default_role fids;
        })
      ])
      else none

  unfoldable pub tacacs_user : String → String → Option User
  tacacs_user username password =
      if cfg.tacacs.enabled && svc.tacacs username password
      then some (record {
        username = username;
        role =
            priv_role cfg.tacacs.admin_priv_lvl cfg.tacacs.viewer_priv_lvl cfg.tacacs.default_role
              (svc.tacacs_arguments username);
      })
      else none

  abbrev pub or_next : Option User → Option User → Option User
  or_next (some u) next = some u
  or_next none next = next

  -- `authenticate_user`: the five sources in order, the first that knows the user.
  unfoldable pub authenticate_user : String → String → Result (Option User)
  authenticate_user username password = elim (local_user cfg.users username password) [
    | raised ↦ raised
    | ok (some u) ↦ ok (some u)
    | ok none ↦ elim (runtime_user cfg.runtime_users username password) [
      | raised ↦ raised
      | ok (some u) ↦ ok (some u)
      | ok none ↦ ok (
          or_next (ldap_user username password)
            (or_next (radius_user username password) (tacacs_user username password)))
    ]
  ]
