-- ===== src/SessionLog/Written.antt =====
-- What is in the log after a call.
use serwebs.Prelude.{
  ℕ, zero, ◌+◌, ◌-◌, ◌≤◌, ◌<◌, ◌≡◌, ◌≢◌, String, false, ◌==◌, some, List, ◌++◌, length, drop, ltb,
  eq_refl, eq_iff, length-append, drop-append_left, Bool-cases, Option-cases, inl, inr, arith,
}
use serwebs.Rotation.{Files}
use serwebs.Rotation.Shift.{rotate_lem}
use serwebs.SessionLog.{
  SessionLogger, Logs, content_of, written, rotate_if_needed, log_data, read_log_tail,
}

rotated_is_small :
    (l : SessionLogger) (fs : Files (List ℕ))
    → 1 ≤ l.max_files
    → 0 < l.max_bytes
    → length (content_of (rotate_if_needed l fs zero)) < l.max_bytes
unfolding rotate_if_needed
rotated_is_small l fs m b = elim (Option-cases (fs zero)) [
  | inl e ↦ rw (rotate_lem (λ bytes. length bytes) l.max_bytes l.max_files fs zero m, e, e) b
  | inr (bytes, e) ↦ elim (Bool-cases (ltb (length bytes) l.max_bytes)) [
    | inl f ↦
        rw (rotate_lem (λ bytes. length bytes) l.max_bytes l.max_files fs zero m, e, f, e)
          (ground (arith, f))
    | inr f ↦ rw (rotate_lem (λ bytes. length bytes) l.max_bytes l.max_files fs zero m, e, f) b
  ]
]

log_data-file :
    (l : SessionLogger) (logs : Logs) (port_id direction : String) (stamp bytes : List ℕ)
    → log_data l logs port_id direction stamp bytes port_id zero
      ≡ some
          (content_of (rotate_if_needed l (logs port_id) zero) ++ written l direction stamp bytes)
unfolding log_data
log_data-file l logs port_id direction stamp bytes = rw (eq_refl port_id)

log_data-other :
    (l : SessionLogger) (logs : Logs) (port_id p direction : String) (stamp bytes : List ℕ)
    → p ≢ port_id
    → log_data l logs port_id direction stamp bytes p ≡ logs p
unfolding log_data
log_data-other l logs port_id p direction stamp bytes n =
    let apart : (p == port_id) ≡ false = ground (arith, n, eq_iff p port_id) in rw apart

tail-append :
    (logs : Logs) (port_id : String) (n : ℕ) (older new : List ℕ)
    → logs port_id zero ≡ some (older ++ new)
    → length new ≤ n
    → (kept : List ℕ) × (read_log_tail logs port_id n ≡ kept ++ new)
unfolding read_log_tail
tail-append logs port_id n older new f h = elim (Bool-cases (ltb n (length (older ++ new)))) [
  | inl e ↦
      let k = length (older ++ new) - n in
      (
        drop k older,
        rw (f, e, read_log_tail)
            (drop-append_left k older new (ground (arith, h, length-append older new))),
      )
  | inr e ↦ (older, rw (f, e, read_log_tail))
]

-- With at least one file to keep and a bound that is not zero, a call writes its data at the end of the
-- port's log, which is then smaller than the bound and the written bytes together; every tail that
-- is long enough for the written bytes ends with them; and other ports' logs stay as they were.
pub log_data_lem :
    (l : SessionLogger) (logs : Logs) (port_id direction : String) (stamp bytes : List ℕ)
    → 1 ≤ l.max_files
    → 0 < l.max_bytes
    → let after : Logs = log_data l logs port_id direction stamp bytes in
      let new : List ℕ = written l direction stamp bytes in
      ((length (content_of (after port_id zero)) < l.max_bytes + length new)
        × ((n : ℕ)
            → length new ≤ n
            → (kept : List ℕ) × (read_log_tail after port_id n ≡ kept ++ new))
        × ((p : String) → p ≢ port_id → after p ≡ logs p))
log_data_lem l logs port_id direction stamp bytes m b =
    let older : List ℕ = content_of (rotate_if_needed l (logs port_id) zero) in
    let new : List ℕ = written l direction stamp bytes in
    let file = log_data-file l logs port_id direction stamp bytes in
    (
      rw file (ground (arith, length-append older new, rotated_is_small l (logs port_id) m b)),
      λ n h. tail-append (log_data l logs port_id direction stamp bytes) port_id n older new file h,
      λ p q. log_data-other l logs port_id p direction stamp bytes q,
    )
