-- ===== src/Stores.antt =====
-- The aliases, tags and profiles of the ports (serwebs/config.py) and their routes
-- (serwebs/routes_api.py). Each JSON file is the value that it holds, since every call loads and saves
-- it as one step; a write that fails is outside. `lower` is Python's `str.lower`.
pub mod Clean
pub mod Tags
mod Tests
use Prim.Native.String.{compare}
use Prim.Native.Nat.{Ordering}
use serwebs.Prelude.{
  ℕ, String, Bool, true, false, Option, none, some, List, [], ◌∷◌, map, ◌++◌, is_some,
  if◌then◌else◌,
}
use serwebs.Text.{is_true, strip}
use serwebs.Dict.{Dict, get, put, pop, values, has, get_or}
use serwebs.Roles.{User, require_role}
use serwebs.Models.{PortInfo}
use serwebs.Audit.{Entry, Details, no_details, new_alias, new_tags, baudrate}

unfoldable pub set_port_alias : Dict String → String → String → Dict String
unfolding strip
set_port_alias aliases port_id alias =
    if is_true (strip alias) then put port_id (strip alias) aliases else pop port_id aliases

unfoldable pub cleaned : (String → String) → List String → List String
unfolding strip
cleaned lower [] = []
cleaned lower (t ∷ tags) =
    let rest = cleaned lower tags in if is_true (strip t) then lower (strip t) ∷ rest else rest

unfoldable pub set_port_tags :
    (String → String) → Dict (List String) → String → List String → Dict (List String)
unfolding cleaned
set_port_tags lower all_tags port_id tags = elim (cleaned lower tags) [
  | [] ↦ pop port_id all_tags
  | t ∷ ts ↦ put port_id (t ∷ ts) all_tags
]

-- One more text in a sorted list without duplicates, as `sorted` of a set orders them.
unfoldable pub insert : String → List String → List String
insert s [] = s ∷ []
insert s (t ∷ ts) =
    let rest = insert s ts in
    elim (compare s t) [ Ordering.lt ↦ s ∷ t ∷ ts | Ordering.eq ↦ t ∷ ts | Ordering.gt ↦ t ∷ rest ]

unfoldable pub insert_all : List String → List String → List String
unfolding insert
insert_all [] seen = seen
insert_all (t ∷ ts) seen = insert_all ts (insert t seen)

unfoldable pub names_of : List (List String) → List String → List String
unfolding insert_all
names_of [] seen = seen
names_of (tags ∷ rest) seen = names_of rest (insert_all tags seen)

unfoldable pub get_all_tag_names : Dict (List String) → List String
unfolding names_of
get_all_tag_names all_tags = names_of (values all_tags) []

-- A profile is a JSON object; its values are kept as text.
abbrev pub Profile : Type 0
Profile = Dict String

unfoldable pub set_port_profile : Dict Profile → String → Profile → Dict Profile
set_port_profile profiles port_id profile = put port_id profile profiles

unfoldable pub delete_port_profile : Dict Profile → String → Dict Profile
delete_port_profile profiles port_id = pop port_id profiles

pub record Stores : Type 0 where
  pub aliases : Dict String
  pub tags : Dict (List String)
  pub profiles : Dict Profile

pub data Reply : Type 0 where
  refused : ℕ → Reply
  renamed : String → Reply
  tagged : List String → Reply
  profiled : Profile → Reply
  deleted : Reply

abbrev pub entry : String → User → String → Details → Entry
entry event user port_id details = record {
  event = event;
  user = user.username;
  port_id = port_id;
  details = details;
}

-- The scan that ends `rename_port` is `scan_ports`; `port` is what `get_port` finds.
unfoldable pub rename_port :
    Stores → Option PortInfo → String → String → User → Reply × Stores × List Entry
unfolding set_port_alias
rename_port s port port_id alias user =
    if require_role "admin" user
    then elim port [
      | none ↦ (refused 404, s, [])
      | some p ↦ (
        renamed alias,
        record s { aliases = set_port_alias s.aliases port_id alias },
        entry "port_rename" user port_id (new_alias alias) ∷ [],
      )
    ]
    else (refused 403, s, [])

-- `none` is a body whose "tags" is no list; a missing one is the empty list.
unfoldable pub update_port_tags :
    (String → String) → Stores → String → Option (List String) → User → Reply × Stores × List Entry
unfolding set_port_tags
update_port_tags lower s port_id body user =
    if require_role "admin" user
    then elim body [
      | none ↦ (refused 400, s, [])
      | some tags ↦
          let all_tags : Dict (List String) = set_port_tags lower s.tags port_id tags in
          let now : List String = get_or port_id [] all_tags in
          (
            tagged now,
            record s { tags = all_tags },
            entry "port_tags_update" user port_id (new_tags now) ∷ [],
          )
    ]
    else (refused 403, s, [])

unfoldable pub get_port_tags : Stores → String → List String
get_port_tags s port_id = get_or port_id [] s.tags

-- The profile is the value of "profile" in the body, or the body.
unfoldable pub save_profile : Stores → String → Profile → User → Reply × Stores × List Entry
unfolding set_port_profile
save_profile s port_id profile user =
    if require_role "admin" user
    then elim (get "baudrate" profile) [
      | none ↦ (refused 400, s, [])
      | some baud ↦ (
        profiled profile,
        record s { profiles = set_port_profile s.profiles port_id profile },
        entry "profile_save" user port_id (baudrate baud) ∷ [],
      )
    ]
    else (refused 403, s, [])

abbrev pub is_empty : Profile → Bool
is_empty [] = true
is_empty (p ∷ ps) = false

unfoldable pub get_profile : Stores → String → Reply
get_profile s port_id = elim (get port_id s.profiles) [
  | none ↦ refused 404
  | some profile ↦ if is_empty profile then refused 404 else profiled profile
]

unfoldable pub remove_profile : Stores → String → User → Reply × Stores × List Entry
unfolding delete_port_profile
remove_profile s port_id user =
    if require_role "admin" user
    then (
      deleted,
      record s { profiles = delete_port_profile s.profiles port_id },
      entry "profile_delete" user port_id no_details ∷ [],
    )
    else (refused 403, s, [])

-- `port.tags = all_tags.get(p.id, [])` in `list_ports` and `get_port`.
unfoldable pub with_tags : Stores → List PortInfo → List PortInfo
with_tags s [] = []
with_tags s (p ∷ ps) = record p { tags = get_or p.id [] s.tags } ∷ with_tags s ps

pub data Call : Type 0 where
  rename : Option PortInfo → String → String → User → Call
  tag : String → Option (List String) → User → Call
  save : String → Profile → User → Call
  remove : String → User → Call

unfoldable pub step : (String → String) → Stores → Call → Stores
unfolding rename_port update_port_tags save_profile remove_profile
step lower s (rename port port_id alias user) = (rename_port s port port_id alias user).1
step lower s (tag port_id body user) = (update_port_tags lower s port_id body user).1
step lower s (save port_id profile user) = (save_profile s port_id profile user).1
step lower s (remove port_id user) = (remove_profile s port_id user).1

unfoldable pub run : (String → String) → Stores → List Call → Stores
unfolding step
run lower s [] = s
run lower s (c ∷ cs) = run lower (step lower s c) cs
