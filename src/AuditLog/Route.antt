-- ===== src/AuditLog/Route.antt =====
-- `query_audit` of serwebs/routes_api.py. `parse` is what `datetime.fromisoformat` and `isoformat` make
-- of a text, `none` for a ValueError.
use serwebs.Prelude.{
  ℕ, ◌-◌, ◌≤◌, ◌<◌, ◌≡◌, String, Bool, true, not, Option, none, some, List, [], ◌∷◌, ◌++◌, length,
  take, keep, leb, if◌then◌else◌,
}
use serwebs.Roles.{User, require_role}
use serwebs.Gateway.{Number, nonnegative, negative}
use serwebs.Text.{is_true}
use serwebs.AuditLog.{AuditLogger, Line, Files, Query, matches, read, reverse, query}

pub data Reply : Type 0 where
  refused : ℕ → Reply
  events : List Line → Reply

-- `results[:limit]`, newest first; a negative limit takes lines off the end.
unfoldable pub query_slice : AuditLogger → Query → Number → Files → List Line
unfolding query
query_slice a q (nonnegative n) fs = query a (record q { limit = n }) fs
query_slice a q (negative n) fs =
    let found : List Line = reverse (keep (matches a q) (read a.max_files fs)) in
    take (length found - n) found

-- `le=1000`
abbrev pub is_allowed : Number → Bool
is_allowed (nonnegative n) = leb n 1000
is_allowed (negative n) = true

-- The text of `since` as the query gets it: `none` inside for an empty or missing one.
unfoldable pub since_of : (String → Option String) → Option String → Option (Option String)
since_of parse none = some none
since_of parse (some text) =
    if is_true text then elim (parse text) [ none ↦ none | some ts ↦ some (some ts) ] else some none

abbrev pub answer_of : AuditLogger → Query → Number → Files → Option (Option String) → Reply
answer_of a q limit fs none = refused 400
answer_of a q limit fs (some since) = events (query_slice a (record q { since = since }) limit fs)

unfoldable pub query_audit :
    (String → Option String) → AuditLogger → Query → Number → Files → User → Reply
unfolding since_of
query_audit parse a q limit fs user =
    if not (require_role "admin" user)
    then refused 403
    else if not (is_allowed limit)
    then refused 422
    else answer_of a q limit fs (since_of parse q.since)

abbrev pub AllMatch : AuditLogger → Query → List Line → Type 0
AllMatch a q [] = Unit
AllMatch a q (x ∷ xs) = (matches a q x ≡ true) × AllMatch a q xs

-- The lines of the files that match, newest first.
abbrev pub found_in : AuditLogger → Query → Files → List Line
found_in a q fs = reverse (keep (matches a q) (read a.max_files fs))

-- How many lines there may be, where `rest` are those left out.
abbrev pub IsWithin : Number → List Line → List Line → Type 0
IsWithin (nonnegative n) ls rest = (length ls ≤ n) × (n ≤ 1000) × (length ls < n → rest ≡ [])
IsWithin (negative n) ls rest = (length rest ≤ n) × (length rest < n → ls ≡ [])

-- The lines are the newest of those that match.
abbrev pub Shows : AuditLogger → Query → Number → Files → List Line → Type 0
Shows a q limit fs ls =
    AllMatch a q ls
    × ((rest : List Line) × (found_in a q fs ≡ (ls ++ rest)) × IsWithin limit ls rest)

-- An answer for the query `q`, where `parse` reads the text in `since`.
abbrev pub IsAnswer :
    (String → Option String) → AuditLogger → Query → Number → Files → User → Reply → Type 0
IsAnswer parse a q limit fs user (refused code) =
    require_role "admin" user ≡ true → is_allowed limit ≡ true → since_of parse q.since ≡ none
IsAnswer parse a q limit fs user (events ls) =
    (require_role "admin" user ≡ true)
    × ((since : Option String) × (since_of parse q.since ≡ some since)
        × Shows a (record q { since = since }) limit fs ls)
