-- ===== src/Locks.antt =====
-- Port locks and REST writes of serwebs/routes_api.py: `lock_port`, `unlock_port`,
-- `get_lock_status`, `rest_write` and `rest_write_wait`. The locks are the content of
-- port_locks.json, which each call loads and saves as one step. `require_role` is the dependency
-- that each route declares.
pub mod Holder
pub mod Writing
mod Tests
use serwebs.Prelude.{
  ℕ, String, Bool, true, false, ◌==◌, ◌&&◌, ◌||◌, not, Option, none, some, List, [], ◌∷◌, ◌++◌,
  length, take, ltb, min, is_some, if◌then◌else◌,
}
use serwebs.Dict.{Dict, get, put, pop, has}
use serwebs.Roles.{User, require_role}
use serwebs.Auth.{same_option}
use serwebs.Audit.{Entry, no_details, bytes}
use serwebs.Wire.{Effect, session_log, tx}
use serwebs.Worker
use serwebs.Worker.{SerialWorker, Written, queued, waits, not_running}

-- A value of port_locks.json, whose keys may be missing.
pub record Lock : Type 0 where
  pub user : Option String
  pub locked_at : Option String

pub data LockReply : Type 0 where
  locked already_locked not_locked unlocked : LockReply
  -- the status code of an HTTPException
  refused : ℕ → LockReply

abbrev pub entry : String → User → String → Entry
entry event user port_id = record {
  event = event;
  user = user.username;
  port_id = port_id;
  details = no_details;
}

unfoldable pub lock_port : Dict Lock → String → User → String → LockReply × Dict Lock × List Entry
lock_port locks port_id user now =
    if require_role "user" user
    then (elim (get port_id locks) [
      | some existing ↦
          if same_option existing.user (some user.username)
          then (already_locked, locks, [])
          else (refused 409, locks, [])
      | none ↦ (
        locked,
        put port_id (record { user = some user.username; locked_at = some now }) locks,
        entry "port_lock" user port_id ∷ [],
      )
    ])
    else (refused 403, locks, [])

unfoldable pub unlock_port : Dict Lock → String → User → LockReply × Dict Lock × List Entry
unlock_port locks port_id user =
    if require_role "user" user
    then (elim (get port_id locks) [
      | none ↦ (not_locked, locks, [])
      | some lock_info ↦
          if not (same_option lock_info.user (some user.username)) && not (user.role == "admin")
          then (refused 403, locks, [])
          else (unlocked, pop port_id locks, entry "port_unlock" user port_id ∷ [])
    ])
    else (refused 403, locks, [])

-- `if lock:` is false for a dictionary without keys.
abbrev pub is_true : Lock → Bool
is_true lock = is_some lock.user || is_some lock.locked_at

-- Who holds the port, if it is locked.
unfoldable pub get_lock_status : Dict Lock → String → Option Lock
get_lock_status locks port_id = elim (get port_id locks) [
  | none ↦ none
  | some lock ↦ if is_true lock then some lock else none
]

-- `lock_info and lock_info.get("user") != user["username"]`
unfoldable pub locked_out : Dict Lock → String → String → Bool
locked_out locks port_id username = elim (get port_id locks) [
  | none ↦ false
  | some lock ↦ is_true lock && not (same_option lock.user (some username))
]

-- The body of a write; a key that is missing is `none`.
pub record Body : Type 0 where
  pub text : Option String
  pub text_b64 : Option String

-- `str.encode("utf-8")`, `base64.b64decode`, and the largest message of the configuration.
pub record Codec : Type 0 where
  pub encode : String → List ℕ
  pub b64decode : String → Option (List ℕ)
  pub max_message_size : ℕ

-- The bytes of the body; `none` is the 400. An empty `data_b64` counts as missing.
unfoldable pub payload_of : Codec → Body → Option (List ℕ)
payload_of c body = elim body.text_b64 [
  | none ↦ plain
  | some b64 ↦ if b64 == "" then plain else c.b64decode b64
]
  where
    plain : Option (List ℕ)
    plain = elim body.text [ none ↦ none | some text ↦ some (c.encode text) ]

pub data WriteReply : Type 0 where
  ok : ℕ → WriteReply
  -- the status code of an HTTPException
  refused : ℕ → WriteReply
  -- `await worker.write` waits for room in the queue
  pending : WriteReply
  -- an exception that the route does not handle
  raised : WriteReply

-- What a write leaves: the workers, the lines of the session log, the audit entries.
pub record Outcome : Type 0 where
  pub workers : Dict SerialWorker
  pub effects : List Effect
  pub entries : List Entry

abbrev pub unchanged : Dict SerialWorker → Outcome
unchanged workers = record { workers = workers; effects = []; entries = [] }

-- `worker = pm.get_worker(port_id)` and `not worker or not worker.is_running`
unfoldable pub running_worker : Dict SerialWorker → String → Option SerialWorker
running_worker workers port_id = elim (get port_id workers) [
  | none ↦ none
  | some worker ↦ if worker.running then some worker else none
]

-- From `await worker.write(data)` on; `entries` is what is audited after it.
unfoldable pub put_bytes :
    Dict SerialWorker → String → SerialWorker → List ℕ → List Entry → WriteReply × Outcome
put_bytes workers port_id worker chunk entries = elim (Worker.write chunk worker) [
  | not_running ↦ (raised, unchanged workers)
  | waits ↦ (pending, unchanged workers)
  | queued worker' ↦ (
    ok (length chunk),
    record {
      workers = put port_id worker' workers;
      effects = session_log port_id tx chunk ∷ [];
      entries = entries;
    },
  )
]

abbrev pub audit_write : User → String → List ℕ → List Entry
audit_write user port_id chunk =
    record {
      event = "rest_write";
      user = user.username;
      port_id = port_id;
      details = bytes (length chunk);
    }
    ∷ []

unfoldable pub write_running :
    Codec → Dict SerialWorker → String → SerialWorker → Body → User → WriteReply × Outcome
unfolding payload_of put_bytes
write_running c workers port_id worker body user = elim (payload_of c body) [
  | none ↦ (refused 400, unchanged workers)
  | some chunk ↦
      if ltb c.max_message_size (length chunk)
      then (refused 400, unchanged workers)
      else put_bytes workers port_id worker chunk (audit_write user port_id chunk)
]

unfoldable pub rest_write :
    Codec → Dict Lock → Dict SerialWorker → String → Body → User → WriteReply × Outcome
unfolding locked_out running_worker write_running
rest_write c locks workers port_id body user =
    if not (require_role "user" user) || user.role == "viewer"
    then (refused 403, unchanged workers)
    else if locked_out locks port_id user.username
    then (refused 423, unchanged workers)
    else elim (running_worker workers port_id) [
      | none ↦ (refused 400, unchanged workers)
      | some worker ↦ write_running c workers port_id worker body user
    ]

-- What the hook collects for the port from the broadcasts it sees.
unfoldable pub collect : String → List (String × List ℕ) → List ℕ
collect port_id [] = []
collect port_id ((pid, rx_data) ∷ heard) =
    if pid == port_id then rx_data ++ collect port_id heard else collect port_id heard

-- A field of the body, or its default.
abbrev pub or_default {ℓ} : {A : Type ℓ} → Option A → A → A
or_default none d = d
or_default (some a) d = a

pub record WaitBody : Type 0 where
  pub text : Option String
  pub max_bytes : Option ℕ

abbrev pub is_ok : WriteReply → Bool
is_ok (ok n) = true
is_ok _ = false

-- `heard`: the broadcasts, each with its port, while the route waits for the answer. It returns
-- what it collected of them, cut at `max_bytes`.
unfoldable pub rest_write_wait :
    Codec
    → Dict SerialWorker
    → String
    → WaitBody
    → List (String × List ℕ)
    → User
    → WriteReply × List ℕ × Outcome
unfolding running_worker put_bytes collect
rest_write_wait c workers port_id body heard user =
    if not (require_role "user" user) || user.role == "viewer"
    then (refused 403, [], unchanged workers)
    else elim (running_worker workers port_id) [
      | none ↦ (refused 400, [], unchanged workers)
      | some worker ↦
          let chunk = c.encode (or_default body.text "") in
          let answer = take (min (or_default body.max_bytes 4096) 65536) (collect port_id heard) in
          if ltb c.max_message_size (length chunk)
          then (refused 400, [], unchanged workers)
          else let (reply, outcome) = put_bytes workers port_id worker chunk [] in
            (reply, if is_ok reply then answer else [], outcome)
    ]
