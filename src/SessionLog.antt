-- ===== src/SessionLog.antt =====
-- `SessionLogger` of serwebs/session_logger.py: the log of each port, its rotation and its tail. A file
-- is the list of its bytes; errors of the file system are outside.
pub mod Written
mod Tests
use serwebs.Prelude.{
  ℕ, zero, ◌-◌, String, Bool, true, false, not, ◌==◌, ◌&&◌, Option, none, some, List, [], ◌∷◌, ◌++◌,
  length, drop, ltb, eqb, if◌then◌else◌,
}
use serwebs.Rotation.{Files, set, rotate}

pub record SessionLogger : Type 0 where
  pub max_bytes : ℕ
  pub max_files : ℕ
  pub timestamp : Bool

-- The files of each port's directory.
abbrev pub Logs : Type 0
Logs = String → Files (List ℕ)

abbrev pub content_of : Option (List ℕ) → List ℕ
content_of none = []
content_of (some bytes) = bytes

abbrev pub ends_line : List ℕ → Bool
ends_line [] = false
ends_line (b ∷ []) = eqb b 10
ends_line (b ∷ c ∷ bytes) = ends_line (c ∷ bytes)

-- "[<time> RX] ", the data, and a newline unless the data ends with one; the data alone without time
-- stamps. `stamp` is the time as text.
unfoldable pub written : SessionLogger → String → List ℕ → List ℕ → List ℕ
written l direction stamp bytes =
    let tag : List ℕ = if direction == "rx" then 82 ∷ 88 ∷ [] else 84 ∷ 88 ∷ [] in
    let head : List ℕ = (91 ∷ stamp) ++ (32 ∷ tag) ++ 93 ∷ 32 ∷ [] in
    if l.timestamp
    then (if ends_line bytes then head ++ bytes else head ++ bytes ++ 10 ∷ [])
    else bytes

unfoldable pub rotate_if_needed : SessionLogger → Files (List ℕ) → Files (List ℕ)
rotate_if_needed l fs = rotate (λ bytes. length bytes) l.max_bytes l.max_files fs

unfoldable pub log_data : SessionLogger → Logs → String → String → List ℕ → List ℕ → Logs
unfolding rotate_if_needed
log_data l logs port_id direction stamp bytes = λ p.
    if p == port_id
    then (let fs : Files (List ℕ) = rotate_if_needed l (logs port_id) in
        set zero (some (content_of (fs zero) ++ written l direction stamp bytes)) fs)
    else logs p

unfoldable pub read_log_tail : Logs → String → ℕ → List ℕ
read_log_tail logs port_id max_bytes = elim (logs port_id zero) [
  | none ↦ []
  | some bytes ↦
      if ltb max_bytes (length bytes) then drop (length bytes - max_bytes) bytes else bytes
]
