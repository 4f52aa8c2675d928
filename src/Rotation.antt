-- ===== src/Rotation.antt =====
-- The rotation of log files in serwebs/audit.py and serwebs/session_logger.py, which have the same
-- loop. File 0 is the log, file i the one with the suffix `.i`; a file has the contents `C`.
pub mod Shift
use serwebs.Prelude.{ℕ, zero, suc, ◌+◌, Bool, Option, none, some, List, eqb, ltb, if◌then◌else◌}

abbrev pub Files : Type 0 → Type 0
Files C = ℕ → Option C

module _ {C : Type 0} where
  abbrev pub set : ℕ → Option C → Files C → Files C
  set i content fs = λ j. if eqb i j then content else fs j

  -- `if src.exists(): src.rename(dst)`
  unfoldable pub rename : ℕ → Files C → Files C
  rename i fs = elim (fs i) [
    | none ↦ fs
    | some content ↦ set i none (set (suc i) (some content) fs)
  ]

  -- The loop from `i` down to 1.
  unfoldable pub shift : ℕ → Files C → Files C
  unfolding rename
  shift zero fs = fs
  shift (suc i) fs = shift i (rename (suc i) fs)

  -- The whole loop: the last file is unlinked, the others move up by one.
  unfoldable pub shift_all : ℕ → Files C → Files C
  unfolding shift
  shift_all zero fs = fs
  shift_all (suc m) fs = shift m (set (suc m) none fs)

  -- A log that exists and is not smaller than the bound is moved to the first file.
  unfoldable pub rotate : (C → ℕ) → ℕ → ℕ → Files C → Files C
  unfolding shift_all rename
  rotate size max_bytes max_files fs = elim (fs zero) [
    | none ↦ fs
    | some content ↦
        if ltb (size content) max_bytes then fs else rename zero (shift_all max_files fs)
  ]
