-- ===== src/Backends.antt =====
-- The list of backends of `Aggregator` (serwebs/aggregator.py) with its file, and the routes of
-- serwebs/routes_api.py that change it. Reading and writing the YAML file are outside: a write goes
-- through or not, and what was written is what is read.
pub mod Cases
pub mod Names
pub mod Restart
pub mod Renaming
mod Tests
use serwebs.Prelude.{
  ℕ, String, Bool, true, false, not, ◌==◌, ◌||◌, Option, none, some, List, [], ◌∷◌, ◌++◌, map,
  if◌then◌else◌,
}
use serwebs.Text.{is_true, rstrip_slash}
use serwebs.Auth.{or_else}
use serwebs.Roles.{User, require_role}

-- The dictionary of a backend, as it stands in the file or in a request; a missing key is `none`.
pub record BackendData : Type 0 where
  pub name : Option String
  pub url : Option String
  pub token : Option String
  pub username : Option String
  pub password : Option String
  pub verify_ssl : Option Bool

pub record BackendConfig : Type 0 where
  pub name : String
  pub url : String
  pub token : String
  pub username : String
  pub password : String
  pub verify_ssl : Bool

abbrev or_true : Option Bool → Bool
or_true none = true
or_true (some b) = b

-- `BackendConfig(data)`: `none` is the KeyError of a missing name or URL.
unfoldable pub of_data : BackendData → Option BackendConfig
of_data d = elim d.name [
  | none ↦ none
  | some name ↦ elim d.url [
    | none ↦ none
    | some url ↦ some (record {
      name = name;
      url = rstrip_slash url;
      token = or_else d.token "";
      username = or_else d.username "";
      password = or_else d.password "";
      verify_ssl = or_true d.verify_ssl;
    })
  ]
]

pub record Aggregator : Type 0 where
  pub backends : List BackendConfig
  -- the file; `none` is one that cannot be read
  pub file : Option (List BackendData)

-- The list comprehension: the first KeyError ends it.
unfoldable pub of_list : List BackendData → Option (List BackendConfig)
unfolding of_data
of_list [] = some []
of_list (d ∷ ds) = elim (of_data d) [
  | none ↦ none
  | some b ↦ elim (of_list ds) [ none ↦ none | some bs ↦ some (b ∷ bs) ]
]

-- An exception leaves the backends as they were.
unfoldable pub reload_backends : Aggregator → Aggregator
unfolding of_list
reload_backends a = elim a.file [
  | none ↦ a
  | some content ↦ elim (of_list content) [ none ↦ a | some bs ↦ record a { backends = bs } ]
]

-- A key that is written only if its value is not empty.
abbrev unless_empty : String → Option String
unless_empty s = if is_true s then some s else none

unfoldable pub to_data : BackendConfig → BackendData
to_data b = record {
  name = some b.name;
  url = some b.url;
  token = unless_empty b.token;
  username = unless_empty b.username;
  password = unless_empty b.password;
  verify_ssl = if b.verify_ssl then none else some false;
}

-- `saves`: whether the file can be written.
unfoldable pub persist_backends : Bool → Aggregator → Aggregator
unfolding to_data
persist_backends saves a = if saves then record a { file = some (map to_data a.backends) } else a

-- The first backend of the name.
unfoldable pub find_backend : String → List BackendConfig → Option BackendConfig
find_backend name [] = none
find_backend name (b ∷ bs) = if b.name == name then some b else find_backend name bs

-- The loop of `add_backend` over the names.
unfoldable pub is_taken : String → List BackendConfig → Bool
is_taken name [] = false
is_taken name (b ∷ bs) = if b.name == name then true else is_taken name bs

pub data Added : Type 0 where
  added : BackendConfig → Added
  -- a ValueError, and a KeyError
  duplicate key_error : Added

unfoldable pub add_backend : Bool → Aggregator → BackendData → Added × Aggregator
unfolding is_taken
add_backend saves a data' = elim (of_data data') [
  | none ↦ (key_error, a)
  | some backend ↦ if is_taken backend.name a.backends then (duplicate, a) else (
    added backend,
    persist_backends saves (record a { backends = a.backends ++ backend ∷ [] }),
  )
]

-- `data.setdefault("name", name)`
abbrev pub set_default_name : String → BackendData → BackendData
set_default_name name d = record d { name = some (or_else d.name name) }

pub data Updated : Type 0 where
  updated : BackendConfig → Updated
  missing key_error : Updated

-- The loop of `update_backend`: the list with the first backend of the name replaced.
unfoldable pub replace_first : String → BackendConfig → List BackendConfig → List BackendConfig
replace_first name new [] = []
replace_first name new (b ∷ bs) = if b.name == name then new ∷ bs else b ∷ replace_first name new bs

unfoldable pub update_backend : Bool → Aggregator → String → BackendData → Updated × Aggregator
unfolding is_taken replace_first
update_backend saves a name data' =
    if is_taken name a.backends
    then (elim (of_data (set_default_name name data')) [
      | none ↦ (key_error, a)
      | some backend ↦ (
        updated backend,
        persist_backends saves (record a { backends = replace_first name backend a.backends }),
      )
    ])
    else (missing, a)

unfoldable pub remove_first : String → List BackendConfig → List BackendConfig
remove_first name [] = []
remove_first name (b ∷ bs) = if b.name == name then bs else b ∷ remove_first name bs

unfoldable pub remove_backend : Bool → Aggregator → String → Bool × Aggregator
unfolding is_taken remove_first
remove_backend saves a name =
    if is_taken name a.backends
    then (true, persist_backends saves (record a { backends = remove_first name a.backends }))
    else (false, a)

-- The status code of a route.
pub data Status : Type 0 where
  done : Status
  failed : ℕ → Status

-- `not body.get(key)`
abbrev pub is_given : Option String → Bool
is_given none = false
is_given (some s) = is_true s

-- The routes, where an aggregator is enabled. A KeyError that is not caught is a 500.
unfoldable pub add_route : Bool → Aggregator → BackendData → User → Status × Aggregator
unfolding add_backend
add_route saves a body user =
    if not (require_role "admin" user)
    then (failed 403, a)
    else if not (is_given body.name) || not (is_given body.url)
    then (failed 400, a)
    else let (reply, a') = add_backend saves a body in
      elim reply [
        | added b ↦ (done, a')
        | duplicate ↦ (failed 409, a')
        | key_error ↦ (failed 500, a')
      ]

unfoldable pub update_route : Bool → Aggregator → String → BackendData → User → Status × Aggregator
unfolding update_backend
update_route saves a name body user =
    if not (require_role "admin" user)
    then (failed 403, a)
    else let (reply, a') = update_backend saves a name body in
      elim reply [
        | updated b ↦ (done, a')
        | missing ↦ (failed 404, a')
        | key_error ↦ (failed 500, a')
      ]

unfoldable pub delete_route : Bool → Aggregator → String → User → Status × Aggregator
unfolding remove_backend
delete_route saves a name user =
    if not (require_role "admin" user)
    then (failed 403, a)
    else let (found, a') = remove_backend saves a name in
      if found then (done, a') else (failed 404, a')
