-- ===== src/Downloads.antt =====
-- The files that are given out: `get_log_file` and `list_logs` of serwebs/session_logger.py,
-- `get_recording_path` of serwebs/recording.py, and the routes of serwebs/routes_api.py that serve them.
-- A path is the list of its parts, as pathlib has it; what the file system says is an argument, and
-- symbolic links are left out.
pub mod Leading
pub mod Inside
pub mod Escape
mod Tests
use Prim.Native.Char.{Char, code}
use text.Mathlib.Text.{starts_with}
use serwebs.Prelude.{
  ℕ, String, Bool, true, false, not, ◌==◌, ◌&&◌, ◌||◌, Option, none, some, List, [], ◌∷◌, ◌++◌, eqb,
  if◌then◌else◌,
}
use serwebs.Text.{concat}
use serwebs.Roles.{User}

abbrev pub Parts : Type 0
Parts = List String

-- Below the root of the file system, with ".." gone.
pub record FileSystem : Type 0 where
  pub is_file : Parts → Bool
  -- the names in a directory, sorted; `none` where there is none
  pub names : Parts → Option (List String)

abbrev pub put_first : Char → List String → List String
put_first c [] = String.◌∷◌ c "" ∷ []
put_first c (p ∷ ps) = String.◌∷◌ c p ∷ ps

-- `s.split("/")`
unfoldable pub pieces : String → List String
pieces String.[] = "" ∷ []
pieces (String.◌∷◌ c s) = if eqb (code c) 47 then "" ∷ pieces s else put_first c (pieces s)

-- pathlib drops what is empty, and ".", but keeps "..".
unfoldable pub kept : List String → Parts
kept [] = []
kept (p ∷ ps) = let rest = kept ps in if p == "" || p == "." then rest else p ∷ rest

unfoldable pub parts : String → Parts
unfolding pieces kept
parts s = kept (pieces s)

unfoldable pub is_absolute : String → Bool
is_absolute String.[] = false
is_absolute (String.◌∷◌ c s) = eqb (code c) 47

-- `p / s`
unfoldable pub join : Parts → String → Parts
unfolding parts is_absolute
join p s = if is_absolute s then parts s else p ++ parts s

-- `p.parent`
unfoldable pub parent : Parts → Parts
parent [] = []
parent (p ∷ []) = []
parent (p ∷ q ∷ ps) = p ∷ parent (q ∷ ps)

-- What the file system makes of a path.
unfoldable pub resolve_from : Parts → Parts → Parts
unfolding parent
resolve_from at [] = at
resolve_from at (p ∷ ps) =
    if p == ".." then resolve_from (parent at) ps else resolve_from (at ++ p ∷ []) ps

abbrev pub resolve : Parts → Parts
resolve p = resolve_from [] p

unfoldable pub same : Parts → Parts → Bool
same [] [] = true
same [] (q ∷ qs) = false
same (p ∷ ps) [] = false
same (p ∷ ps) (q ∷ qs) = p == q && same ps qs

pub data Found : Type 0 where
  not_found invalid : Found
  file : Parts → Found

unfoldable pub get_log_file : FileSystem → Parts → String → String → Found
unfolding join parent same
get_log_file fs log_dir port_id filename =
    let p : Parts = join (join log_dir port_id) filename in
    if not (fs.is_file (resolve p))
    then not_found
    else if not (same (parent p) (join log_dir port_id))
    then invalid
    else file p

-- `exists` of a path that ends in ".cast" is taken for `is_file`.
unfoldable pub get_recording_path : FileSystem → Parts → String → String → Found
unfolding join parent same
get_recording_path fs rec_dir port_id rec_id =
    let p : Parts = join (join rec_dir port_id) (concat (rec_id ∷ ".cast" ∷ [])) in
    if not (fs.is_file (resolve p))
    then not_found
    else if not (same (parent p) (join rec_dir port_id))
    then invalid
    else file p

unfoldable pub keep_logs : FileSystem → Parts → String → List String → List String
keep_logs fs port_dir port_id [] = []
keep_logs fs port_dir port_id (name ∷ names) =
    let rest = keep_logs fs port_dir port_id names in
    if fs.is_file (resolve (port_dir ++ name ∷ [])) && starts_with name port_id
    then name ∷ rest
    else rest

-- The names; sizes and times are left out.
unfoldable pub list_logs : FileSystem → Parts → String → List String
unfolding keep_logs join
list_logs fs log_dir port_id = elim (fs.names (resolve (join log_dir port_id))) [
  | none ↦ []
  | some names ↦ keep_logs fs (join log_dir port_id) port_id names
]

pub data Reply : Type 0 where
  refused : ℕ → Reply
  -- an exception that the route does not catch
  uncaught : Reply
  serves : Parts → Reply

-- The file, or 404, or what the route does with a ValueError.
abbrev pub replied : Found → Reply → Reply
replied not_found otherwise = refused 404
replied invalid otherwise = otherwise
replied (file p) otherwise = serves (resolve p)

-- Any user who is logged in may ask.
unfoldable pub download_session_log : FileSystem → Parts → String → String → User → Reply
unfolding get_log_file
download_session_log fs log_dir port_id filename user =
    replied (get_log_file fs log_dir port_id filename) (refused 404)

unfoldable pub get_recording : FileSystem → Parts → String → String → User → Reply
unfolding get_recording_path
get_recording fs rec_dir port_id rec_id user =
    replied (get_recording_path fs rec_dir port_id rec_id) uncaught
