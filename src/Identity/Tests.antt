-- ===== src/Identity/Tests.antt =====
-- A request with a token of the provider.
use serwebs.Prelude.{refl, true, false, none, some, [], ◌∷◌}
use serwebs.Roles.{group_role, any_member}
use serwebs.Auth.{ok, AuthConfig, Services, one}
use serwebs.Identity.{Request, get_current_user, try_decode_any_token}
use serwebs.Identity.Origin.{Origin, get_current_user-Origin}

abbrev config : AuthConfig
config = record {
  users = [];
  runtime_users = [];
  ldap = record {
    enabled = false;
    has_groups = false;
    admin_groups = [];
    viewer_groups = [];
    default_role = "viewer";
  };
  radius = record {
    enabled = false;
    admin_filter_id = "";
    viewer_filter_id = "";
    default_role = "user";
  };
  tacacs = record {
    enabled = false;
    admin_priv_lvl = 15;
    viewer_priv_lvl = 0;
    default_role = "user";
  };
  oidc = record {
    enabled = true;
    admin_groups = "ops" ∷ [];
    viewer_groups = [];
    default_role = "user";
  };
}

abbrev services : Services
services = record {
  verify = λ password hash. ok false;
  ldap_search = λ username. none;
  ldap_bind = λ dn password. false;
  ldap_groups = λ dn. none;
  radius = λ username password. none;
  tacacs = λ username password. false;
  tacacs_arguments = λ username. [];
  decode_token = λ token. none;
  kid_of = λ token. some (some "k2");
  provider_keys = some (some "k1" ∷ some "k2" ∷ []);
  decode_oidc =
      λ kid token. some (record { username = none; sub = some "eve"; groups = one "ops" });
}

abbrev request : Request
request = record { bearer = some "token"; basic = none; query_token = none }

get_current_user-Origin_example :
    Origin config services request (record { username = "eve"; role = "admin" })
unfolding get_current_user try_decode_any_token group_role any_member
get_current_user-Origin_example =
    get_current_user-Origin config services request (record { username = "eve"; role = "admin" })
      refl
