-- ===== src/AuditLog/Newest.antt =====
-- What a query finds after a log call.
use serwebs.Prelude.{
  ℕ, zero, suc, ◌≡◌, refl, sym, ap, ◌∙◌, Bool, false, some, List, [], ◌∷◌, ◌++◌, take, keep, eqb,
  if◌then◌else◌, arith, Bool-cases, inl, inr, append_assoc,
}
use serwebs.Rotation.{set}
use serwebs.AuditLog.{
  Line, Files, AuditLogger, rotate_if_needed, lines_of, log, Query, matches, read, reverse, query,
}

read-set :
    (n : ℕ) (fs : Files) (lines : List Line) (line : Line)
    → read n (set zero (some (lines ++ line ∷ [])) fs)
      ≡ read n (set zero (some lines) fs) ++ line ∷ []
unfolding read
read-set zero fs lines line = refl
read-set (suc n) fs lines line =
    let z : eqb 0 (suc n) ≡ false = ground arith in
    rw z (
      ap (◌++◌ (lines_of (fs (suc n)))) (read-set n fs lines line)
      ∙ sym (append_assoc (lines_of (fs (suc n))) (read n (set zero (some lines) fs)) (line ∷ [])))

reverse-keep :
    (p : Line → Bool) (xs : List Line) (line : Line)
    → reverse (keep p (xs ++ line ∷ []))
      ≡ (if p line then line ∷ reverse (keep p xs) else reverse (keep p xs))
reverse-keep p [] line = elim (Bool-cases (p line)) [ inl e ↦ rw e | inr e ↦ rw e ]
reverse-keep p (x ∷ xs) line = elim (Bool-cases (p x)) [
  | inr e ↦ rw e (reverse-keep p xs line)
  | inl e ↦ rw e (ap (λ ys. ys ++ x ∷ []) (reverse-keep p xs line) ∙ moved)
]
  where
    moved :
        (if p line then line ∷ reverse (keep p xs) else reverse (keep p xs)) ++ x ∷ []
        ≡ (if p line then line ∷ (reverse (keep p xs) ++ x ∷ []) else reverse (keep p xs) ++ x ∷ [])
    moved = elim (Bool-cases (p line)) [ inl e ↦ rw e | inr e ↦ rw e ]

-- A query right after a log call answers with what it would have found after the rotation, which
-- the call may have done, and with the new line before all of that, if it matches.
pub query-log :
    (a : AuditLogger) (q : Query) (line : Line) (fs : Files)
    → let rotated : Files = rotate_if_needed a fs in
      let older : List Line = reverse (
        keep
          (matches a q)
          (read a.max_files (set zero (some (lines_of (rotated zero))) rotated))) in
      query a q (log a line fs) ≡ take q.limit (if matches a q line then line ∷ older else older)
unfolding query log
query-log a q line fs = ap (take q.limit) (
    ap (λ xs. reverse (keep (matches a q) xs))
      (read-set a.max_files (rotate_if_needed a fs) (lines_of (rotate_if_needed a fs zero)) line)
    ∙ reverse-keep (matches a q)
        (read a.max_files
          (set zero (some (lines_of (rotate_if_needed a fs zero))) (rotate_if_needed a fs)))
        line)
