-- ===== src/Jwks/Tests.antt =====
-- A token that is checked with kept keys while the provider does not answer.
use serwebs.Prelude.{◌≡◌, refl, true, false, none, some, [], ◌∷◌, ◌⊎◌}
use serwebs.Text.{concat, rstrip_slash}
use serwebs.Roles.{User, group_role, any_member}
use serwebs.Auth.{AuthConfig, Services, one, ok}
use serwebs.Identity.{has_key, oidc_user, validate_oidc_token}
use serwebs.Jwks.{
  Check, failed, loaded, new, request, is_cached, fetch_jwks, get_oidc_jwks_uri, validate, run,
}
use serwebs.Jwks.Fresh.{IsIn, IsVerified, load, loads, run-IsVerified}

abbrev config : AuthConfig
config = record {
  users = [];
  runtime_users = [];
  ldap = record {
    enabled = false;
    has_groups = false;
    admin_groups = [];
    viewer_groups = [];
    default_role = "viewer";
  };
  radius = record {
    enabled = false;
    admin_filter_id = "";
    viewer_filter_id = "";
    default_role = "user";
  };
  tacacs = record {
    enabled = false;
    admin_priv_lvl = 15;
    viewer_priv_lvl = 0;
    default_role = "user";
  };
  oidc = record {
    enabled = true;
    admin_groups = "ops" ∷ [];
    viewer_groups = [];
    default_role = "user";
  };
}

abbrev services : Services
services = record {
  verify = λ password hash. ok false;
  ldap_search = λ username. none;
  ldap_bind = λ dn password. false;
  ldap_groups = λ dn. none;
  radius = λ username password. none;
  tacacs = λ username password. false;
  tacacs_arguments = λ username. [];
  decode_token = λ token. none;
  kid_of = λ token. some (some "k2");
  provider_keys = none;
  decode_oidc =
      λ kid token. some (record { username = none; sub = some "eve"; groups = one "ops" });
}

abbrev first_check : Check
first_check = record { now = 10; answer = loaded (some "k1" ∷ some "k2" ∷ []); token = "t" }

abbrev next_day : Check
next_day = record { now = 86410; answer = failed; token = "t" }

abbrev eve : User
eve = record { username = "eve"; role = "admin" }

falls_back : get_oidc_jwks_uri "" "https://id/" none ≡ "https://id/jwks/"
unfolding get_oidc_jwks_uri rstrip_slash concat
falls_back = refl

run-IsVerified_example :
    IsVerified config services
      (λ l.
        IsIn l (loads config services new (first_check ∷ []))
        ⊎ IsIn l (load config services (run config services new (first_check ∷ [])) next_day))
      next_day
      eve
unfolding validate run fetch_jwks request is_cached validate_oidc_token has_key oidc_user group_role
    any_member
run-IsVerified_example = run-IsVerified config services (first_check ∷ []) next_day eve refl
