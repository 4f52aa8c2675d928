-- ===== src/Users/Login.antt =====
-- How the user routes and the login meet: serwebs/routes_api.py and serwebs/auth.py.
use serwebs.Prelude.{
  ◌≡◌, refl, ap, ◌∙◌, String, true, false, eq_refl, arith, none, some, List, [], ◌∷◌, ◌++◌, not,
  keep,
}
use serwebs.Roles.{User}
use serwebs.Auth.{
  ok, UserConfig, RuntimeUser, AuthConfig, Services, or_else, local_user, runtime_user,
  authenticate_user,
}
use serwebs.Users.{
  Texts, Body, Reply, Outcome, in_config, has_name, in_runtime, create_user, delete_user, saved,
  deleted,
}

module _ (cfg : AuthConfig) (svc : Services) where
  local-unknown :
      (us : List UserConfig) (name password : String)
      → in_config name us ≡ false
      → local_user cfg svc us name password ≡ ok none
  unfolding in_config local_user
  local-unknown [] name password h = refl
  local-unknown (u ∷ us) name password h =
      ground (arith, local-unknown us name password (ground arith))

  runtime-append :
      (us : List RuntimeUser) (u : RuntimeUser) (name password role : String)
      → in_runtime name us ≡ false
      → u.username ≡ some name
      → u.role ≡ some role
      → svc.verify password (or_else u.password_hash "") ≡ ok true
      → runtime_user cfg svc (us ++ u ∷ []) name password
        ≡ ok (some (record { username = name; role = role }))
  unfolding in_runtime runtime_user
  runtime-append [] u name password role h n r v = ground (arith, n, r, v, eq_refl name)
  runtime-append (w ∷ us) u name password role h n r v =
      ground (arith, runtime-append us u name password role (ground arith) n r v)

  runtime-keep :
      (us : List RuntimeUser) (name password : String)
      → runtime_user cfg svc (keep (λ u. not (has_name name u)) us) name password ≡ ok none
  unfolding runtime_user
  runtime-keep [] name password = refl
  runtime-keep (u ∷ us) name password = ground (arith, runtime-keep us name password)

  authenticate_runtime :
      (name password : String) (u : User)
      → local_user cfg svc cfg.users name password ≡ ok none
      → runtime_user cfg svc cfg.runtime_users name password ≡ ok (some u)
      → authenticate_user cfg svc name password ≡ ok (some u)
  unfolding authenticate_user
  authenticate_runtime name password u l r = ground (arith, l, r)

-- What is known of a request that saved a user.
saved_lem :
    (t : Texts) (cfg_users : List UserConfig) (us : List RuntimeUser) (body : Body) (user : User)
    (name role : String)
    → (create_user t cfg_users us body user).0 ≡ saved name role
    → (in_config name cfg_users ≡ false)
      × (in_runtime name us ≡ false)
      × ((create_user t cfg_users us body user).1.users
          ≡ us
            ++ record {
              username = some name;
              password_hash = some (t.hash (or_else body.password ""));
              role = some role;
            }
              ∷ [])
unfolding create_user
saved_lem t cfg_users us body user name role h =
    (ground (arith, h), ground (arith, h), ground (arith, h))

module _ (cfg : AuthConfig) (svc : Services) where
  -- A user who was just created is let in with the password and the role of the request, if the
  -- hash of a password fits it.
  pub create-authenticate :
      (t : Texts) (body : Body) (user : User) (name password role : String)
      → ((p : String) → svc.verify p (t.hash p) ≡ ok true)
      → body.password ≡ some password
      → let made : Reply × Outcome = create_user t cfg.users cfg.runtime_users body user in
        made.0 ≡ saved name role
        → authenticate_user (record cfg { runtime_users = made.1.users }) svc name password
          ≡ ok (some (record { username = name; role = role }))
  create-authenticate t body user name password role v p h =
      let (c, r, e) = saved_lem t cfg.users cfg.runtime_users body user name role h in
      let after : AuthConfig = record cfg {
        runtime_users = (create_user t cfg.users cfg.runtime_users body user).1.users;
      } in
      authenticate_runtime after svc name password (record { username = name; role = role })
        (local-unknown after svc cfg.users name password c)
        (ap (λ us. runtime_user after svc us name password) e
          ∙ runtime-append after svc cfg.runtime_users
              (record {
                username = some name;
                password_hash = some (t.hash (or_else body.password ""));
                role = some role;
              })
              name password role r refl refl (rw p (v password)))

  -- A user whom the routes deleted is no longer known to users.json: with any password, the
  -- configuration and users.json let nobody of that name in.
  pub delete-authenticate :
      (t : Texts) (user : User) (name password : String)
      → let made : Reply × Outcome = delete_user t cfg.users cfg.runtime_users name user in
        made.0 ≡ deleted
        → (local_user (record cfg { runtime_users = made.1.users }) svc cfg.users name password
            ≡ ok none)
          × (runtime_user
                (record cfg { runtime_users = made.1.users })
                svc
                made.1.users
                name
                password
              ≡ ok none)
  unfolding delete_user
  delete-authenticate t user name password h = (
    local-unknown after svc cfg.users name password (ground (arith, h)),
    ap (λ us. runtime_user after svc us name password) gone
        ∙ runtime-keep after svc cfg.runtime_users name password,
  )
    where
      after : AuthConfig
      after = record cfg {
        runtime_users = (delete_user t cfg.users cfg.runtime_users name user).1.users;
      }

      gone :
          (delete_user t cfg.users cfg.runtime_users name user).1.users
          ≡ keep (λ u. not (has_name name u)) cfg.runtime_users
      gone = ground (arith, h)
