-- ===== src/AuditLog.antt =====
-- `AuditLogger` of serwebs/audit.py: the log file, its rotation and the query. File 0 is
-- audit.jsonl, file i is audit.jsonl.i. A file is the list of its lines, which are those that `log`
-- wrote; the forwarding to alerting and syslog, and errors of the file system, are not modelled.
pub mod Newest
pub mod Route
mod Tests
use serwebs.Prelude.{
  ℕ, zero, suc, ◌+◌, String, Bool, true, false, not, ◌==◌, Option, none, some, List, [], ◌∷◌, ◌++◌,
  take, keep, eqb, is_some, if◌then◌else◌,
}
use serwebs.Audit.{Entry}
use serwebs.Rotation
use serwebs.Rotation.{set, rotate}

pub record Line : Type 0 where
  pub ts : String
  pub entry : Entry

abbrev pub Files : Type 0
Files = Rotation.Files (List Line)

pub record AuditLogger : Type 0 where
  pub max_bytes : ℕ
  pub max_files : ℕ
  -- the size of a file with these lines
  pub size : List Line → ℕ
  -- the order of texts, for time stamps
  pub earlier : String → String → Bool

unfoldable pub rotate_if_needed : AuditLogger → Files → Files
rotate_if_needed a fs = rotate a.size a.max_bytes a.max_files fs

-- The lines of a file that need not exist.
abbrev pub lines_of : Option (List Line) → List Line
lines_of none = []
lines_of (some lines) = lines

-- `open(self._log_file, "a")` makes the file if it is missing.
unfoldable pub log : AuditLogger → Line → Files → Files
unfolding rotate_if_needed
log a line fs =
    let fs' = rotate_if_needed a fs in set zero (some (lines_of (fs' zero) ++ line ∷ [])) fs'

-- The arguments of `query`; an empty text counts as missing.
pub record Query : Type 0 where
  pub since : Option String
  pub event : Option String
  pub user : Option String
  pub port_id : Option String
  pub limit : ℕ

abbrev pub is_asked : Option String → String → Bool
is_asked none found = true
is_asked (some wanted) found = if wanted == "" then true else found == wanted

abbrev pub is_since : AuditLogger → Option String → String → Bool
is_since a none ts = true
is_since a (some s) ts = not (a.earlier ts s)

unfoldable pub matches : AuditLogger → Query → Line → Bool
matches a q line =
    if is_since a q.since line.ts
    then if is_asked q.event line.entry.event
      then if is_asked q.user line.entry.user then is_asked q.port_id line.entry.port_id else false
      else false
    else false

-- The lines of the files from `n` down to 0, oldest first; those that do not exist have none.
unfoldable pub read : ℕ → Files → List Line
read zero fs = lines_of (fs zero)
read (suc i) fs = lines_of (fs (suc i)) ++ read i fs

abbrev pub reverse : List Line → List Line
reverse [] = []
reverse (x ∷ xs) = reverse xs ++ x ∷ []

unfoldable pub query : AuditLogger → Query → Files → List Line
unfolding matches read
query a q fs = take q.limit (reverse (keep (matches a q) (read a.max_files fs)))
