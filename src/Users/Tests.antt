-- ===== src/Users/Tests.antt =====
-- The user routes on a concrete configuration, which has a user "root".
use serwebs.Prelude.{◌≡◌, refl, ap, eq_refl, false, ◌==◌, none, some, [], ◌∷◌}
use serwebs.Roles.{User, require_role, level, is_member}
use serwebs.Auth.{ok, UserConfig, RuntimeUser, AuthConfig, Services, authenticate_user}
use serwebs.Users.{Texts, Body, create_user, in_config, in_runtime}
use serwebs.Users.Names.{IsWellFormed, create, delete, run, run-IsWellFormed}
use serwebs.Users.Login.{create-authenticate}

abbrev root : User
root = record { username = "root"; role = "admin" }

abbrev local_root : UserConfig
local_root = record { username = "root"; password_hash = "x"; role = "admin" }

abbrev texts : Texts
texts = record { strip = λ s. s; size = λ s. 8; hash = λ s. s }

abbrev body : Body
body = record { username = some "dan"; password = some "12345678"; role = some "viewer" }

abbrev dan : RuntimeUser
dan = record { username = some "dan"; password_hash = some "12345678"; role = some "viewer" }

run-IsWellFormed_example :
    IsWellFormed (local_root ∷ []) (
      run texts (local_root ∷ []) [] (create body root ∷ create body root ∷ delete "eve" root ∷ []))
run-IsWellFormed_example =
    run-IsWellFormed texts (local_root ∷ []) []
      (create body root ∷ create body root ∷ delete "eve" root ∷ []) tt

abbrev config : AuthConfig
config = record {
  users = local_root ∷ [];
  runtime_users = [];
  ldap = record {
    enabled = false;
    has_groups = false;
    admin_groups = [];
    viewer_groups = [];
    default_role = "viewer";
  };
  radius = record {
    enabled = false;
    admin_filter_id = "";
    viewer_filter_id = "";
    default_role = "user";
  };
  tacacs = record {
    enabled = false;
    admin_priv_lvl = 15;
    viewer_priv_lvl = 0;
    default_role = "user";
  };
  oidc = record { enabled = false; admin_groups = []; viewer_groups = []; default_role = "user" };
}

abbrev services : Services
services = record {
  verify = λ password hash. ok (hash == password);
  ldap_search = λ username. none;
  ldap_bind = λ dn password. false;
  ldap_groups = λ dn. none;
  radius = λ username password. none;
  tacacs = λ username password. false;
  tacacs_arguments = λ username. [];
  decode_token = λ token. none;
  kid_of = λ token. none;
  provider_keys = none;
  decode_oidc = λ kid token. none;
}

create-authenticate_example :
    authenticate_user
      (record config { runtime_users = (create_user texts (local_root ∷ []) [] body root).1.users })
      services
      "dan"
      "12345678"
    ≡ ok (some (record { username = "dan"; role = "viewer" }))
unfolding create_user in_config in_runtime require_role level is_member
create-authenticate_example =
    create-authenticate config services texts body root "dan" "12345678" "viewer"
      (λ p. ap ok (eq_refl p)) refl refl

abbrev with_dan : AuthConfig
with_dan = record config { runtime_users = dan ∷ [] }
