-- ===== src/SessionLog/Tests.antt =====
-- The session log of one port.
use serwebs.Prelude.{ℕ, ◌≡◌, refl, true, none, some, List, [], ◌∷◌, length, arith}
use serwebs.Rotation.{set, rotate, rename, shift_all, shift}
use serwebs.Rotation.Shift.{rotate_lem}
use serwebs.SessionLog.{SessionLogger, Logs, written, rotate_if_needed, log_data}

abbrev logger : SessionLogger
logger = record { max_bytes = 4; max_files = 2; timestamp = true }

abbrev logs : Logs
logs p = set 0 (some (65 ∷ 66 ∷ 67 ∷ 68 ∷ [])) (set 1 (some (64 ∷ [])) (λ j. none))

-- The full log is moved, and "[0 RX] A" with a newline starts a new one.
starts_anew :
    log_data logger logs "a" "rx" (48 ∷ []) (65 ∷ []) "a" 0
    ≡ some (91 ∷ 48 ∷ 32 ∷ 82 ∷ 88 ∷ 93 ∷ 32 ∷ 65 ∷ 10 ∷ [])
unfolding log_data rotate_if_needed rotate rename shift_all shift written
starts_anew = refl

rotate_lem_example : rotate (λ (bytes : List ℕ). length bytes) 4 2 (logs "a") 2 ≡ some (64 ∷ [])
rotate_lem_example = rotate_lem (λ bytes. length bytes) 4 2 (logs "a") 2 (ground arith)
