-- ===== src/Locks/Writing.antt =====
-- What the write routes let through, and what they leave.
use serwebs.Prelude.{
  ℕ, ◌≡◌, ◌≤◌, refl, ap, sym, ◌∙◌, String, true, false, ◌==◌, ◌||◌, arith, inl, inr, some,
  Option-cases, Bool-cases, List, [], ◌∷◌, ◌++◌, not, if◌then◌else◌, length, ltb, take, min,
  length-take, append_assoc, take-append_left,
}
use serwebs.Dict.{Dict, get, put}
use serwebs.Roles.{User, require_role}
use serwebs.Wire.{session_log, tx}
use serwebs.Worker
use serwebs.Worker.{SerialWorker, Written, queued, waits, not_running, queue_size}
use serwebs.Locks.{
  Lock, Body, Codec, ok, Outcome, unchanged, is_ok, payload_of, running_worker, put_bytes,
  write_running, rest_write, rest_write_wait, audit_write, WaitBody, or_default, locked_out,
  collect,
}
use serwebs.Audit.{Entry}

module _ (workers : Dict SerialWorker) (port_id : String) where
  -- The number is that of the bytes, and they are at the end of the queue of the port's running worker, which had room, and in the
  -- session log; no other worker changed.
  abbrev pub IsQueued : List ℕ → ℕ → Outcome → Type 0
  IsQueued chunk n out =
      (n ≡ length chunk)
      × (worker : SerialWorker) × (get port_id workers ≡ some worker)
      × (worker.running ≡ true)
      × (ltb (length worker.write_queue) queue_size ≡ true)
      × (out.workers
          ≡ put port_id (record worker { write_queue = worker.write_queue ++ chunk ∷ [] }) workers)
      × (out.effects ≡ session_log port_id tx chunk ∷ [])

  running_lem :
      (worker : SerialWorker)
      → running_worker workers port_id ≡ some worker
      → (get port_id workers ≡ some worker) × (worker.running ≡ true)
  unfolding running_worker
  running_lem worker h = elim (Option-cases (get port_id workers)) [
    | inl e ↦ ground arith
    | inr (w, e) ↦ elim (Bool-cases w.running) [
      | inl r ↦ ground (arith, e, r)
      | inr r ↦ ground (arith, e, r)
    ]
  ]

  put_bytes-ok :
      (worker : SerialWorker) (chunk : List ℕ) (entries : List Entry) (n : ℕ) (out : Outcome)
      → running_worker workers port_id ≡ some worker
      → put_bytes workers port_id worker chunk entries ≡ (ok n, out)
      → IsQueued chunk n out
  unfolding put_bytes Worker.write
  put_bytes-ok worker chunk entries n out r h =
      let (g, w) = running_lem worker r in
      (
        ground (arith, h, w),
        worker,
        g,
        w,
        ground (arith, h, w),
        ground (arith, h, w),
        ground (arith, h, w),
      )

  put_bytes-error :
      (worker : SerialWorker) (chunk : List ℕ) (entries : List Entry)
      → is_ok (put_bytes workers port_id worker chunk entries).0 ≡ false
      → (put_bytes workers port_id worker chunk entries).1 ≡ unchanged workers
  unfolding put_bytes Worker.write
  put_bytes-error worker chunk entries h = ground arith

  module _ (c : Codec) (user : User) where
    write_running-ok :
        (worker : SerialWorker) (body : Body) (n : ℕ) (out : Outcome)
        → running_worker workers port_id ≡ some worker
        → write_running c workers port_id worker body user ≡ (ok n, out)
        → (chunk : List ℕ) × (payload_of c body ≡ some chunk)
          × (length chunk ≤ c.max_message_size)
          × IsQueued chunk n out
    unfolding write_running
    write_running-ok worker body n out r h = elim (Option-cases (payload_of c body)) [
      | inl e ↦ ground (arith, e, h)
      | inr (chunk, e) ↦ elim (Bool-cases (ltb c.max_message_size (length chunk))) [
        | inl b ↦ ground (arith, e, b, h)
        | inr b ↦ (
          chunk,
          e,
          ground (arith, b),
          put_bytes-ok worker chunk (audit_write user port_id chunk) n out r
              (ground (arith, e, b, h)),
        )
      ]
    ]

    -- A REST write that succeeds came from a user of level "user" or more whom no lock shuts out, with
    -- a body of at most the largest size; its bytes are then the last in the queue of the port's
    -- running worker, and in the session log, and their number is reported.
    pub rest_write-ok :
        (locks : Dict Lock) (body : Body) (n : ℕ) (out : Outcome)
        → rest_write c locks workers port_id body user ≡ (ok n, out)
        → (require_role "user" user ≡ true)
          × (locked_out locks port_id user.username ≡ false)
          × (chunk : List ℕ) × (payload_of c body ≡ some chunk)
          × (length chunk ≤ c.max_message_size)
          × IsQueued chunk n out
    unfolding rest_write
    rest_write-ok locks body n out h =
        elim (Bool-cases (not (require_role "user" user) || user.role == "viewer")) [
          | inl a ↦ ground (arith, a, h)
          | inr a ↦ elim (Bool-cases (locked_out locks port_id user.username)) [
            | inl b ↦ ground (arith, a, b, h)
            | inr b ↦ elim (Option-cases (running_worker workers port_id)) [
              | inl e ↦ ground (arith, a, b, e, h)
              | inr (worker, e) ↦
                  let (chunk, f, g, q) =
                    write_running-ok worker body n out e (ground (arith, a, b, e, h)) in
                  (ground (arith, a), b, chunk, f, g, q)
            ]
          ]
        ]

    -- A REST write that fails, for whatever reason, or that waits for room leaves the workers and both
    -- logs as they were.
    pub rest_write-error :
        (locks : Dict Lock) (body : Body)
        → is_ok (rest_write c locks workers port_id body user).0 ≡ false
        → (rest_write c locks workers port_id body user).1 ≡ unchanged workers
    unfolding rest_write write_running put_bytes
    rest_write-error locks body h = ground arith

    collect-append :
        (heard more : List (String × List ℕ))
        → collect port_id (heard ++ more) ≡ collect port_id heard ++ collect port_id more
    unfolding collect
    collect-append [] more = refl
    collect-append ((pid, rx) ∷ heard) more = elim (Bool-cases (pid == port_id)) [
      | inl e ↦ rw e (
          ap (◌++◌ rx) (collect-append heard more)
          ∙ sym (append_assoc rx (collect port_id heard) (collect port_id more)))
      | inr e ↦ rw e (collect-append heard more)
    ]

    rest_write_wait_cut :
        (body : WaitBody) (heard : List (String × List ℕ))
        → (rest_write_wait c workers port_id body heard user).1 ≡ (
            if is_ok (rest_write_wait c workers port_id body [] user).0
            then take (min (or_default body.max_bytes 4096) 65536) (collect port_id heard)
            else [])
    unfolding rest_write_wait
    rest_write_wait_cut body heard = ground arith

    -- A write that waits for an answer returns at most `max_bytes` bytes of it, never more than 65536,
    -- and once it has heard that many from the port, what it hears after changes nothing.
    pub rest_write_wait_answer :
        (body : WaitBody) (max_bytes : ℕ) (heard more : List (String × List ℕ))
        → body.max_bytes ≡ some max_bytes
        → let answer : List (String × List ℕ) → List ℕ =
            λ hs. (rest_write_wait c workers port_id body hs user).1 in
          (length (answer heard) ≤ min max_bytes 65536)
          × (min max_bytes 65536 ≤ length (collect port_id heard)
              → answer (heard ++ more) ≡ answer heard)
    unfolding rest_write_wait
    rest_write_wait_answer body max_bytes heard more m = (
      rw (rest_write_wait_cut body heard, m)
          (ground (arith, length-take (min max_bytes 65536) (collect port_id heard))),
      λ g.
          rest_write_wait_cut body (heard ++ more)
          ∙ rw
              (
                m,
                collect-append heard more,
                take-append_left (min max_bytes 65536) (collect port_id heard)
                    (collect port_id more) g,
              )
              (sym (rest_write_wait_cut body heard ∙ rw m)),
    )

    -- A write that waits for an answer and succeeds came from a user of level "user" or more, and its
    -- bytes are then the last in the queue of the port's running worker and in the session log.
    pub rest_write_wait-ok :
        (body : WaitBody) (heard : List (String × List ℕ)) (n : ℕ) (answer : List ℕ) (out : Outcome)
        → rest_write_wait c workers port_id body heard user ≡ (ok n, answer, out)
        → (require_role "user" user ≡ true)
          × (n ≤ c.max_message_size)
          × IsQueued (c.encode (or_default body.text "")) n out
    unfolding rest_write_wait
    rest_write_wait-ok body heard n answer out h =
        elim (Bool-cases (not (require_role "user" user) || user.role == "viewer")) [
          | inl a ↦ ground (arith, a, h)
          | inr a ↦ elim (Option-cases (running_worker workers port_id)) [
            | inl e ↦ ground (arith, a, e, h)
            | inr (worker, e) ↦
                elim (Bool-cases
                  (ltb c.max_message_size (length (c.encode (or_default body.text ""))))) [
                    | inl b ↦ ground (arith, a, e, b, h)
                    | inr b ↦
                        let q : IsQueued (c.encode (or_default body.text "")) n out =
                          put_bytes-ok worker (c.encode (or_default body.text "")) [] n out e
                            (ground (arith, a, e, b, h)) in
                        (ground (arith, a), ground (arith, b, q.0), q)
                  ]
          ]
        ]
