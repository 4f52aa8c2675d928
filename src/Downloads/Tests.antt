-- ===== src/Downloads/Tests.antt =====
-- A data directory with one session log and the file of the users.
use serwebs.Prelude.{◌≡◌, refl, Bool, ◌||◌, some, [], ◌∷◌}
use serwebs.Roles.{User}
use serwebs.Downloads.{
  Parts, FileSystem, parts, pieces, kept, is_absolute, join, parent, resolve_from, same, serves,
  get_log_file, keep_logs, list_logs, download_session_log, get_recording,
}
use serwebs.Downloads.Leading.{IsName}
use serwebs.Downloads.Inside.{IsInside, routes-IsInside}
use serwebs.Downloads.Escape.{download_escapes}

abbrev there : Parts → Bool
there p =
    same p ("data" ∷ "users.json" ∷ []) || same p ("data" ∷ "logs" ∷ "ttyUSB0" ∷ "ttyUSB0.log" ∷ [])

abbrev disk : FileSystem
disk = record { is_file = there; names = λ p. some ("ttyUSB0.log" ∷ "notes" ∷ []) }

abbrev guest : User
guest = record { username = "eve"; role = "viewer" }

log_is_served :
    download_session_log disk ("data" ∷ "logs" ∷ []) "ttyUSB0" "ttyUSB0.log" guest
    ≡ serves ("data" ∷ "logs" ∷ "ttyUSB0" ∷ "ttyUSB0.log" ∷ [])
unfolding download_session_log get_log_file parts pieces kept is_absolute join parent resolve_from
    same
log_is_served = refl

logs_are_listed : list_logs disk ("data" ∷ "logs" ∷ []) "ttyUSB0" ≡ "ttyUSB0.log" ∷ []
unfolding list_logs keep_logs parts pieces kept is_absolute join parent resolve_from same
logs_are_listed = refl

tty-IsName : IsName "ttyUSB0"
unfolding parts pieces kept is_absolute
tty-IsName = (refl, refl, refl)

users-IsName : IsName "users.json"
unfolding parts pieces kept is_absolute
users-IsName = (refl, refl, refl)

routes-IsInside_example :
    IsInside
      ("data" ∷ "logs" ∷ [])
      "ttyUSB0"
      (download_session_log disk ("data" ∷ "logs" ∷ []) "ttyUSB0" "../../users.json" guest)
    × IsInside
        ("data" ∷ "logs" ∷ [])
        "ttyUSB0"
        (get_recording disk ("data" ∷ "logs" ∷ []) "ttyUSB0" "../../users.json" guest)
unfolding resolve_from same
routes-IsInside_example =
    routes-IsInside disk ("data" ∷ "logs" ∷ []) "ttyUSB0" "../../users.json" guest tty-IsName refl
      refl

download_escapes_example :
    download_session_log disk ("data" ∷ "logs" ∷ []) ".." "users.json" guest
    ≡ serves ("data" ∷ "users.json" ∷ [])
unfolding resolve_from same
download_escapes_example =
    download_escapes disk ("data" ∷ []) "users.json" guest users-IsName refl refl
