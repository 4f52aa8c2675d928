-- ===== src/AuditLog/Tests.antt =====
-- The audit log on concrete files.
use serwebs.Prelude.{◌≡◌, refl, true, none, some, [], ◌∷◌, length}
use serwebs.Audit.{no_details}
use serwebs.Rotation.{set, rotate, rename, shift_all, shift}
use serwebs.Roles.{User, require_role, level}
use serwebs.Gateway.{negative}
use serwebs.AuditLog.Route.{events, since_of, query_slice, query_audit}
use serwebs.AuditLog.{query, matches, read, Line, Files, AuditLogger, Query, rotate_if_needed}

abbrev line : Line
line = record {
  ts = "t";
  entry = record { event = "port_open"; user = "ann"; port_id = "a"; details = no_details };
}

-- A file is full with two lines.
abbrev logger : AuditLogger
logger = record {
  max_bytes = 2;
  max_files = 2;
  size = λ lines. length lines;
  earlier = λ s t. true;
}

abbrev files : Files
files = set 0 (some (line ∷ line ∷ [])) (set 1 (some (line ∷ [])) (λ _. none))

rotates : rotate_if_needed logger files 2 ≡ some (line ∷ [])
unfolding rotate_if_needed rotate shift_all shift rename
rotates = refl

abbrev all : Query
all = record { since = none; event = some "port_open"; user = none; port_id = none; limit = 3 }

abbrev auditor : User
auditor = record { username = "root"; role = "admin" }

-- Everything but the oldest line.
abbrev asked : Query
asked = record { since = none; event = some "port_open"; user = none; port_id = none; limit = 100 }

two_are_shown :
    query_audit (λ s. none) logger asked (negative 1) files auditor ≡ events (line ∷ line ∷ [])
unfolding query_audit since_of query_slice query matches read require_role level
two_are_shown = refl
