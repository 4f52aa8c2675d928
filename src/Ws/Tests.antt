-- ===== src/Ws/Tests.antt =====
-- The manager on concrete clients, and the theorems about it at concrete inputs.
use serwebs.Prelude.{ℕ, ◌≡◌, refl, Bool, true, false, not, List, [], ◌∷◌, ◌++◌, last, eqb}
use serwebs.Dict
use serwebs.Dict.{get, put, pop}
use serwebs.Ring.History.{stream}
use serwebs.Wire.{accept, send, payload, status, rx, session_log}
use serwebs.Ring
use serwebs.Ws.Delivery.{broadcast_lem}
use serwebs.Ws.{buffer_of, WsManager, fresh, connect, broadcast, send_each, send_all, total_clients}
use serwebs.Ws.Replay.{
  Call, connects, broadcasts, clears, shuts_down, run, since, replay_of, connect_replays,
}

-- Client 2 has gone away.
abbrev alive : ℕ → Bool
alive ws = not (eqb ws 2)

abbrev busy : WsManager
busy = record (fresh 4) { connections = ("a", 1 ∷ 2 ∷ 3 ∷ []) ∷ ("b", 4 ∷ []) ∷ [] }

broadcast_effects :
    (broadcast true false alive busy "a" (7 ∷ [])).1
    ≡ session_log "a" rx (7 ∷ []) ∷ send 1 (payload (7 ∷ [])) ∷ send 3 (payload (7 ∷ [])) ∷ []
unfolding broadcast send_all send_each get
broadcast_effects = refl

total_busy : total_clients busy ≡ 4
unfolding total_clients Dict.values
total_busy = refl

abbrev history : List Call
history =
    connects true alive "a" 1
    ∷ broadcasts true true alive "a" (8 ∷ [])
    ∷ shuts_down alive
    ∷ broadcasts true true alive "a" (1 ∷ 2 ∷ 3 ∷ [])
    ∷ clears "b"
    ∷ broadcasts true true alive "a" (4 ∷ 5 ∷ [])
    ∷ []

connect_replays_example :
    (connect false alive (run (fresh 4) history) "a" 9).1
    ≡ accept 9
      ∷ (replay_of 9 (last 4 (stream [] (since "a" [] history)))
          ++ send 9 (status "connected") ∷ [])
connect_replays_example = connect_replays 4 history false alive "a" 9 refl

broadcast_lem_example :
    buffer_of (broadcast true false alive busy "a" (7 ∷ [])).0 "a"
    ≡ Ring.append (buffer_of busy "a") (7 ∷ [])
broadcast_lem_example = (broadcast_lem true false alive busy "a" (7 ∷ [])).1
