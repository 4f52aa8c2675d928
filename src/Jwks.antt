-- ===== src/Jwks.antt =====
-- The keys of the OIDC provider in serwebs/auth.py: `_fetch_jwks` with its cache, the address that
-- they are fetched from, and `_validate_oidc_token` as it uses them. Time is in whole seconds, and a
-- key is its ID. What the provider answers is an argument.
pub mod Fresh
mod Tests
use serwebs.Prelude.{
  ℕ, ◌-◌, String, Bool, true, false, ◌&&◌, Option, none, some, List, [], ◌∷◌, ltb, is_some,
  if◌then◌else◌,
}
use serwebs.Text.{is_true, rstrip_slash, concat}
use serwebs.Roles.{User}
use serwebs.Auth.{AuthConfig, Services}
use serwebs.Identity.{validate_oidc_token}

abbrev pub Keys : Type 0
Keys = List (Option String)

-- What the request for the keys comes to: an exception, an empty object, or an object, whose "keys"
-- are the empty list if it has none.
pub data Answer : Type 0 where
  failed : Answer
  empty_object : Answer
  loaded : Keys → Answer

-- `_jwks_cache`, where `none` is the empty object, and `_jwks_cache_time`.
pub record Cache : Type 0 where
  pub jwks : Option Keys
  pub time : ℕ

abbrev pub new : Cache
new = record { jwks = none; time = 0 }

abbrev pub ttl : ℕ
ttl = 3600

-- `return _jwks_cache`, of which the caller takes the keys
abbrev pub keys_of : Option Keys → Keys
keys_of none = []
keys_of (some keys) = keys

-- The request, when the cache does not do. `none` is an exception.
unfoldable pub request : Cache → ℕ → Answer → Option Keys × Cache
request c now failed = (c.jwks, c)
request c now empty_object = (some [], record { jwks = none; time = now })
request c now (loaded keys) = (some keys, record { jwks = some keys; time = now })

unfoldable pub is_cached : Cache → ℕ → Bool
is_cached c now = is_some c.jwks && ltb (now - c.time) ttl

-- `answer` is what the provider says if it is asked.
unfoldable pub fetch_jwks : Cache → ℕ → Answer → Option Keys × Cache
unfolding request is_cached
fetch_jwks c now answer = if is_cached c now then (c.jwks, c) else request c now answer

-- `discovered` is the "jwks_uri" of the discovery document, or `none` for an exception.
unfoldable pub get_oidc_jwks_uri : String → String → Option String → String
get_oidc_jwks_uri jwks_uri issuer discovered =
    if is_true jwks_uri
    then jwks_uri
    else (elim discovered [ some uri ↦ uri | none ↦ concat (rstrip_slash issuer ∷ "/jwks/" ∷ []) ])

-- `_validate_oidc_token` with the cache: the keys are fetched only for a token with a header.
unfoldable pub validate : AuthConfig → Services → Cache → ℕ → Answer → String → Option User × Cache
unfolding fetch_jwks
validate cfg svc c now answer token =
    if cfg.oidc.enabled && is_some (svc.kid_of token)
    then (
      validate_oidc_token cfg (record svc { provider_keys = (fetch_jwks c now answer).0 }) token,
      (fetch_jwks c now answer).1,
    )
    else (none, c)

-- A history of checks.
pub record Check : Type 0 where
  pub now : ℕ
  pub answer : Answer
  pub token : String

unfoldable pub run : AuthConfig → Services → Cache → List Check → Cache
unfolding validate
run cfg svc c [] = c
run cfg svc c (k ∷ ks) = run cfg svc (validate cfg svc c k.now k.answer k.token).1 ks
