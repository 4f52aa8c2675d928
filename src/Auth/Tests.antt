-- ===== src/Auth/Tests.antt =====
-- Authentication against two local users and an LDAP server.
use serwebs.Prelude.{refl, true, false, ◌==◌, ◌&&◌, if◌then◌else◌, none, some, [], ◌∷◌}
use serwebs.Auth.{
  ok, raised, UserConfig, AuthConfig, Services, authenticate_user, local_user, runtime_user,
  ldap_user,
}
use serwebs.Auth.Sources.{Source, authenticate-Source}

abbrev alice : UserConfig
alice = record { username = "alice"; password_hash = "hash of pw"; role = "admin" }

abbrev bob : UserConfig
bob = record { username = "bob"; password_hash = ""; role = "user" }

abbrev config : AuthConfig
config = record {
  users = alice ∷ bob ∷ [];
  runtime_users = [];
  ldap = record {
    enabled = true;
    has_groups = false;
    admin_groups = [];
    viewer_groups = [];
    default_role = "viewer";
  };
  radius = record {
    enabled = false;
    admin_filter_id = "";
    viewer_filter_id = "";
    default_role = "user";
  };
  tacacs = record {
    enabled = false;
    admin_priv_lvl = 15;
    viewer_priv_lvl = 0;
    default_role = "user";
  };
  oidc = record { enabled = false; admin_groups = []; viewer_groups = []; default_role = "user" };
}

abbrev services : Services
services = record {
  verify =
      λ password hash. if hash == "" then raised else ok (hash == "hash of pw" && password == "pw");
  ldap_search = λ username. if username == "carol" then some "cn=carol" else none;
  ldap_bind = λ dn password. password == "pw";
  ldap_groups = λ dn. none;
  radius = λ username password. none;
  tacacs = λ username password. false;
  tacacs_arguments = λ username. [];
  decode_token = λ token. none;
  kid_of = λ token. none;
  provider_keys = none;
  decode_oidc = λ kid token. none;
}

authenticate-Source_example :
    Source config services "carol" "pw" (record { username = "carol"; role = "viewer" })
unfolding authenticate_user local_user runtime_user ldap_user
authenticate-Source_example =
    authenticate-Source config services "carol" "pw"
      (record { username = "carol"; role = "viewer" }) refl
