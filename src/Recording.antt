-- ===== src/Recording.antt =====
-- The recorder (serwebs/recording.py) with its files, and the routes of serwebs/routes_api.py that
-- start, stop and delete recordings. A file is the list of its lines; times are whole ticks of a
-- microsecond; the time and the random part of an id are arguments.
pub mod Steps
pub mod Events
pub mod Cleanup
mod Tests
use serwebs.Prelude.{
  ℕ, ◌+◌, ◌-◌, ◌++◌, String, Bool, true, false, Option, none, some, List, [], ◌∷◌, is_some, not,
  leb, if◌then◌else◌,
}
use serwebs.Text.{concat}
use serwebs.Dict.{Dict, get, put, pop, has}
use serwebs.Roles.{User, require_role}
use serwebs.Audit.{Entry, recording_id}

pub data CastLine : Type 0 where
  header : String → CastLine
  -- the time since the start, "o" or "i", and the data
  event_line : ℕ → String → String → CastLine

pub record ActiveRecording : Type 0 where
  pub rec_id : String
  pub user : String
  pub fpath : String
  pub start_time : ℕ

pub record Recorder : Type 0 where
  pub active : Dict ActiveRecording
  pub files : Dict (List CastLine)

-- f"{port_id}/{rec_id}.cast"
unfoldable pub path_of : String → String → String
path_of port_id rec_id = concat (port_id ∷ "/" ∷ rec_id ∷ ".cast" ∷ [])

-- A file that is there is emptied. `none` is the ValueError.
unfoldable pub start : Recorder → String → String → String → ℕ → Option Recorder
start r port_id user rec_id now =
    let fpath : String = path_of port_id rec_id in
    if has port_id r.active
    then none
    else some (record {
      active =
          put port_id (record { rec_id = rec_id; user = user; fpath = fpath; start_time = now })
            r.active;
      files = put fpath (header port_id ∷ []) r.files;
    })

-- A line at the end of the open file.
unfoldable pub append_line : String → CastLine → Dict (List CastLine) → Dict (List CastLine)
append_line fpath line files = elim (get fpath files) [
  | none ↦ files
  | some lines ↦ put fpath (lines ++ line ∷ []) files
]

-- `decode` is `bytes.decode` of Python, for UTF-8 and with what is no UTF-8 replaced.
unfoldable pub record_data : (List ℕ → String) → Recorder → String → List ℕ → String → ℕ → Recorder
unfolding append_line
record_data decode r port_id bytes direction now = elim (get port_id r.active) [
  | none ↦ r
  | some rec ↦ record r {
    files =
        append_line rec.fpath (event_line (now - rec.start_time) direction (decode bytes)) r.files;
  }
]

-- The id and the duration, if there was a recording.
unfoldable pub stop : Recorder → String → ℕ → Option (String × ℕ) × Recorder
stop r port_id now = elim (get port_id r.active) [
  | none ↦ (none, r)
  | some rec ↦ (some (rec.rec_id, now - rec.start_time), record r { active = pop port_id r.active })
]

unfoldable pub is_recording : Recorder → String → Bool
is_recording r port_id = has port_id r.active

-- `none` is the FileNotFoundError. An id is a single name, as a route gives it.
unfoldable pub delete_recording : Recorder → String → String → Option Recorder
delete_recording r port_id rec_id = elim (get (path_of port_id rec_id) r.files) [
  | none ↦ none
  | some lines ↦ some (record r { files = pop (path_of port_id rec_id) r.files })
]

-- A file as `cleanup_storage` sees it; the files stand in the order of their last change.
pub record Stored : Type 0 where
  pub name : String
  pub size : ℕ

unfoldable pub total_size : List Stored → ℕ
total_size [] = 0
total_size (f ∷ files) = f.size + total_size files

-- The loop over the files, from the total that is left.
unfoldable pub remove_oldest : ℕ → ℕ → List Stored → List Stored
remove_oldest max total [] = []
remove_oldest max total (f ∷ files) =
    let rest = remove_oldest max (total - f.size) files in if leb total max then f ∷ files else rest

unfoldable pub cleanup_storage : ℕ → List Stored → List Stored
unfolding total_size remove_oldest
cleanup_storage max files =
    if leb (total_size files) max then files else remove_oldest max (total_size files) files

pub data Reply : Type 0 where
  refused : ℕ → Reply
  recording : String → Reply
  stopped : String → ℕ → Reply
  deleted : Reply

abbrev entry : String → User → String → String → Entry
entry event user port_id id = record {
  event = event;
  user = user.username;
  port_id = port_id;
  details = recording_id id;
}

-- `none` is a recorder that is switched off; `open` says whether the port has a worker. The
-- ValueError of `start` is not caught, so that the reply is 500.
unfoldable pub start_recording :
    Option Recorder → Bool → String → User → String → ℕ → Reply × Option Recorder × List Entry
unfolding start
start_recording none is_open port_id user rec_id now =
    (if require_role "user" user then refused 400 else refused 403, none, [])
start_recording (some r) is_open port_id user rec_id now =
    if not (require_role "user" user)
    then (refused 403, some r, [])
    else if not is_open
    then (refused 400, some r, [])
    else elim (start r port_id user.username rec_id now) [
      | none ↦ (refused 500, some r, [])
      | some after ↦
          (recording rec_id, some after, entry "recording_start" user port_id rec_id ∷ [])
    ]

unfoldable pub stop_recording :
    Option Recorder → String → User → ℕ → Reply × Option Recorder × List Entry
unfolding stop
stop_recording none port_id user now =
    (if require_role "user" user then refused 400 else refused 403, none, [])
stop_recording (some r) port_id user now =
    if not (require_role "user" user)
    then (refused 403, some r, [])
    else let (result, after) = stop r port_id now in
      elim result [
        | none ↦ (refused 400, some after, [])
        | some (id, duration) ↦
            (stopped id duration, some after, entry "recording_stop" user port_id id ∷ [])
      ]

unfoldable pub delete_route :
    Option Recorder → String → String → User → Reply × Option Recorder × List Entry
unfolding delete_recording
delete_route none port_id rec_id user =
    (if require_role "admin" user then refused 400 else refused 403, none, [])
delete_route (some r) port_id rec_id user =
    if not (require_role "admin" user)
    then (refused 403, some r, [])
    else elim (delete_recording r port_id rec_id) [
      | none ↦ (refused 404, some r, [])
      | some after ↦ (deleted, some after, entry "recording_delete" user port_id rec_id ∷ [])
    ]
