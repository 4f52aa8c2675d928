-- ===== src/Session/Writing.antt =====
-- What a message can change.
use serwebs.Prelude.{
  ℕ, ◌≡◌, ◌≤◌, refl, String, Bool, true, false, none, some, List, [], ◌∷◌, ◌++◌, length, ltb, ◌⊎◌,
  inl, inr, arith, Bool-cases, Option-cases,
}
use serwebs.Dict.{get, put}
use serwebs.Worker
use serwebs.Worker.{SerialWorker, queue_size}
use serwebs.Limiter.{Limiter, allow}
use serwebs.Locks.{locked_out}
use serwebs.Session.{
  Server, Endpoint, Session, Received, write, ping, invalid_json, other_type, on_message, on_write,
  write_limited, write_through,
}

module _ (e : Endpoint) (alive : ℕ → Bool) (recording : Bool) (server : Server) (s : Session)
    (now : ℕ) where
  -- The message was a write that passed every test: its bytes are the last in the queue of the port's
  -- running worker.
  pub data IsWritten (after : Server) (msg : Received) : Type 0 where
    written :
        (payload : String) (worker : SerialWorker) (l : Limiter)
        → msg ≡ write payload
        → s.is_viewer ≡ false
        → locked_out server.locks s.port_id s.user.username ≡ false
        → length (e.encode payload) ≤ e.max_message_size
        → allow server.limiter (e.client_key s.user.username s.ws) now ≡ some (true, l)
        → get s.port_id server.manager.workers ≡ some worker
        → worker.running ≡ true
        → after.manager.workers
          ≡ put s.port_id
              (record worker { write_queue = worker.write_queue ++ e.encode payload ∷ [] })
              server.manager.workers
        → IsWritten after msg

  allow_cases :
      (l : Limiter) (key : String)
      → (allow l key now ≡ none)
        ⊎ (((m : Limiter) × (allow l key now ≡ some (false, m)))
            ⊎ ((m : Limiter) × (allow l key now ≡ some (true, m))))
  allow_cases l key = elim (Option-cases (allow l key now)) [
    | inl h ↦ inl h
    | inr ((b, m), h) ↦ elim (Bool-cases b) [
      | inl t ↦ inr (inr (m, ground (arith, t, h)))
      | inr f ↦ inr (inl (m, ground (arith, f, h)))
    ]
  ]

  write_through_cases :
      (l : Limiter) (chunk : List ℕ)
      → let after : Server =
          (write_through alive recording (record server { limiter = l }) s chunk).server in
        (after.manager.workers ≡ server.manager.workers)
        ⊎ ((worker : SerialWorker) × (get s.port_id server.manager.workers ≡ some worker)
            × (worker.running ≡ true)
            × (after.manager.workers
                ≡ put s.port_id
                    (record worker { write_queue = worker.write_queue ++ chunk ∷ [] })
                    server.manager.workers))
  unfolding write_through Worker.write
  write_through_cases l chunk = elim (Option-cases (get s.port_id server.manager.workers)) [
    | inl a ↦ inl (ground (arith, a))
    | inr (worker, a) ↦ elim (Bool-cases worker.running) [
      | inr b ↦ inl (ground (arith, a, b))
      | inl b ↦ elim (Bool-cases (ltb (length worker.write_queue) queue_size)) [
        | inr c ↦ inl (ground (arith, a, b, c))
        | inl c ↦ inr (worker, a, b, ground (arith, a, b, c))
      ]
    ]
  ]

  -- A message leaves the connections, the replay buffers, the port list and the locks as they were. It
  -- leaves the workers as they were too, unless it is a write of a user who is not a viewer and whom
  -- no lock shuts out, not too large, which the rate limit admits, to a running worker; and then the
  -- bytes are the last in that worker's queue, and no other worker changes.
  pub on_message-IsWritten :
      (msg : Received)
      → let after : Server = (on_message e alive recording server s now msg).server in
        (after.manager.ws ≡ server.manager.ws)
        × (after.manager.ports ≡ server.manager.ports)
        × (after.locks ≡ server.locks)
        × ((after.manager.workers ≡ server.manager.workers) ⊎ IsWritten after msg)
  unfolding on_message on_write write_limited write_through
  on_message-IsWritten invalid_json = (ground arith, ground arith, ground arith, inl (ground arith))
  on_message-IsWritten ping = (ground arith, ground arith, ground arith, inl (ground arith))
  on_message-IsWritten other_type = (refl, refl, refl, inl refl)
  on_message-IsWritten (write payload) = (
    ground arith,
    ground arith,
    ground arith,
    elim (Bool-cases s.is_viewer) [
      | inl a ↦ inl (ground (arith, a))
      | inr a ↦ elim (Bool-cases (locked_out server.locks s.port_id s.user.username)) [
        | inl b ↦ inl (ground (arith, a, b))
        | inr b ↦ elim (Bool-cases (ltb e.max_message_size (length (e.encode payload)))) [
          | inl c ↦ inl (ground (arith, a, b, c))
          | inr c ↦ elim (allow_cases server.limiter (e.client_key s.user.username s.ws)) [
            | inl d ↦ inl (ground (arith, a, b, c, d))
            | inr (inl (l, d)) ↦ inl (ground (arith, a, b, c, d))
            | inr (inr (l, d)) ↦ elim (write_through_cases l (e.encode payload)) [
              | inl f ↦ inl (ground (arith, a, b, c, d, f))
              | inr (worker, g, r, f) ↦ inr (
                  written payload worker l refl a b (ground (arith, c)) d g r
                    (ground (arith, a, b, c, d, f)))
            ]
          ]
        ]
      ]
    ],
  )
