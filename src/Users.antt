-- ===== src/Users.antt =====
-- The user routes of serwebs/routes_api.py: `list_users`, `create_user`, `update_user` and
-- `delete_user` on the users of users.json, which each call loads and saves as one step.
-- The bodies are taken to hold texts, as the routes expect. `require_role("admin")` is the
-- dependency that each route declares.
pub mod Names
pub mod Login
mod Tests
use serwebs.Prelude.{
  ℕ, String, Bool, true, false, ◌==◌, ◌&&◌, ◌||◌, not, Option, none, some, List, [], ◌∷◌, ◌++◌, map,
  length, keep, ltb, eqb, is_some, if◌then◌else◌,
}
use serwebs.Roles.{User, require_role, is_member}
use serwebs.Auth.{UserConfig, RuntimeUser, same_option, or_else}
use serwebs.Audit.{Entry, new_user, target_user, deleted_user}

-- `str.strip`, `len` and `bcrypt.hashpw` with a fresh salt.
pub record Texts : Type 0 where
  pub strip : String → String
  pub size : String → ℕ
  pub hash : String → String

-- The body of a request; a key that is missing is `none`.
pub record Body : Type 0 where
  pub username : Option String
  pub password : Option String
  pub role : Option String

pub data Reply : Type 0 where
  saved : String → String → Reply
  deleted : Reply
  -- the status code of an HTTPException
  refused : ℕ → Reply

pub record Outcome : Type 0 where
  pub users : List RuntimeUser
  pub entries : List Entry

abbrev pub unchanged : List RuntimeUser → Outcome
unchanged users = record { users = users; entries = [] }

-- `role in ("admin", "user", "viewer")`
abbrev pub is_role : String → Bool
is_role role = is_member role ("admin" ∷ "user" ∷ "viewer" ∷ [])

-- The loop over the users of the configuration.
unfoldable pub in_config : String → List UserConfig → Bool
in_config username [] = false
in_config username (u ∷ us) = if u.username == username then true else in_config username us

abbrev pub has_name : String → RuntimeUser → Bool
has_name username u = same_option u.username (some username)

-- The loop over the users of users.json.
unfoldable pub in_runtime : String → List RuntimeUser → Bool
in_runtime username [] = false
in_runtime username (u ∷ us) = if has_name username u then true else in_runtime username us

-- What `list_users` shows of a user: name, role, source.
pub record Listed : Type 0 where
  pub username : String
  pub role : String
  pub source : String

-- The users of users.json, `none` where one has no name, which is a KeyError.
unfoldable pub list_runtime : List RuntimeUser → Option (List Listed)
list_runtime [] = some []
list_runtime (u ∷ us) = elim u.username [
  | none ↦ none
  | some name ↦ elim (list_runtime us) [
    | none ↦ none
    | some rest ↦
        some (record { username = name; role = or_else u.role "user"; source = "api" } ∷ rest)
  ]
]

-- `none` is an error: the 403, or the KeyError.
unfoldable pub list_users : List UserConfig → List RuntimeUser → User → Option (List Listed)
list_users cfg_users runtime user =
    if require_role "admin" user
    then (elim (list_runtime runtime) [
      | none ↦ none
      | some api ↦ some (
          map (λ u. record { username = u.username; role = u.role; source = "config" }) cfg_users
          ++ api)
    ])
    else none

module _ (t : Texts) (cfg_users : List UserConfig) where
  unfoldable pub create_user : List RuntimeUser → Body → User → Reply × Outcome
  unfolding in_config in_runtime
  create_user runtime body user =
      let username = t.strip (or_else body.username "") in
      let password = or_else body.password "" in
      let role = or_else body.role "user" in
      if not (require_role "admin" user)
      then (refused 403, unchanged runtime)
      else if username == "" || password == ""
      then (refused 400, unchanged runtime)
      else if not (is_role role)
      then (refused 400, unchanged runtime)
      else if ltb (t.size password) 6
      then (refused 400, unchanged runtime)
      else if in_config username cfg_users
      then (refused 409, unchanged runtime)
      else if in_runtime username runtime
      then (refused 409, unchanged runtime)
      else (
        saved username role,
        record {
          users =
              runtime
              ++ record {
                username = some username;
                password_hash = some (t.hash password);
                role = some role;
              }
                ∷ [];
          entries =
              record {
                event = "user_create";
                user = user.username;
                port_id = "";
                details = new_user username role;
              }
              ∷ [];
        },
      )

  -- The changes of a body to its user; `none` is the 400.
  unfoldable pub change_role : Body → RuntimeUser → Option RuntimeUser
  change_role body u = elim body.role [
    | none ↦ some u
    | some role ↦ if is_role role then some (record u { role = some role }) else none
  ]

  unfoldable pub change_password : Body → RuntimeUser → Option RuntimeUser
  change_password body u = elim body.password [
    | none ↦ some u
    | some password ↦
        if ltb (t.size password) 6
        then none
        else some (record u { password_hash = some (t.hash password) })
  ]

  unfoldable pub change : Body → RuntimeUser → Option RuntimeUser
  unfolding change_role change_password
  change body u = elim (change_role body u) [ none ↦ none | some v ↦ change_password body v ]

  -- The list with its first user of the name changed; `none` where that fails.
  unfoldable pub change_first :
      String → Body → List RuntimeUser → Option (RuntimeUser × List RuntimeUser)
  unfolding change
  change_first username body [] = none
  change_first username body (u ∷ us) =
      let rest = change_first username body us in
      if has_name username u
      then (elim (change body u) [ none ↦ none | some v ↦ some (v, v ∷ us) ])
      else elim rest [ none ↦ none | some found ↦ some (found.0, u ∷ found.1) ]

  unfoldable pub update_user : List RuntimeUser → String → Body → User → Reply × Outcome
  unfolding in_config in_runtime change_first
  update_user runtime username body user =
      if not (require_role "admin" user)
      then (refused 403, unchanged runtime)
      else if in_config username cfg_users
      then (refused 400, unchanged runtime)
      else if not (in_runtime username runtime)
      then (refused 404, unchanged runtime)
      else elim (change_first username body runtime) [
        | none ↦ (refused 400, unchanged runtime)
        | some found ↦ (
          saved username (or_else found.0.role "user"),
          record {
            users = found.1;
            entries =
                record {
                  event = "user_update";
                  user = user.username;
                  port_id = "";
                  details = target_user username;
                }
                ∷ [];
          },
        )
      ]

  unfoldable pub delete_user : List RuntimeUser → String → User → Reply × Outcome
  unfolding in_config
  delete_user runtime username user =
      let new_runtime = keep (λ u. not (has_name username u)) runtime in
      if not (require_role "admin" user)
      then (refused 403, unchanged runtime)
      else if in_config username cfg_users
      then (refused 400, unchanged runtime)
      else if eqb (length new_runtime) (length runtime)
      then (refused 404, unchanged runtime)
      else (
        deleted,
        record {
          users = new_runtime;
          entries =
              record {
                event = "user_delete";
                user = user.username;
                port_id = "";
                details = deleted_user username;
              }
              ∷ [];
        },
      )
