-- ===== src/Ws/Delivery.antt =====
-- Who gets what a port sends, and what a call leaves of the other ports.
use serwebs.Prelude.{
  ℕ, ◌+◌, ◌≡◌, String, refl, ap, Bool, true, false, List, [], ◌∷◌, ◌++◌, map, arith, length, keep,
  if◌then◌else◌, Bool-cases, inl, inr, Option-cases, ◌==◌, eq_iff, eq_refl, length-append,
}
use serwebs.Dict.{keys, get, put, pop, get-put, get-pop}
use serwebs.Dict.Sums.{pops, pops-keys}
use serwebs.Ring
use serwebs.Wire.{
  Message, Effect, send, close, payload, status, error, session_log, record_data, rx,
}
use serwebs.Ws.{
  WsManager, clients_of, buffer_of, connect, disconnect, send_each, remove_dead, send_all,
  broadcast, broadcast_status, broadcast_error, client_count, disconnect_all, disconnect_ports,
  shutdown, close_each, remove, is_in,
}
use serwebs.Ws.Clients.{sent-keep, remove_dead-keep}

length-remove : (ws : ℕ) (cs : List ℕ) → is_in ws cs ≡ true → length (remove ws cs) + 1 ≡ length cs
unfolding is_in remove
length-remove ws [] h = cc
length-remove ws (c ∷ cs) h = ground (arith, length-remove ws cs)

-- What a message to all clients of a port does: the live ones get it in the order in which they
-- connected, exactly they stay its clients, the other ports keep theirs, and no buffer changes.
abbrev pub SentAll : (ℕ → Bool) → WsManager → String → Message → WsManager × List Effect → Type 0
SentAll alive w port msg (w', sent) =
    (sent ≡ map (λ c. send c msg) (keep alive (clients_of w port)))
    × (clients_of w' port ≡ keep alive (clients_of w port))
    × ((other : String) → (port == other) ≡ false → clients_of w' other ≡ clients_of w other)
    × (w'.ring_buffers ≡ w.ring_buffers)
    × (w'.ring_size ≡ w.ring_size)

pub send_all_lem :
    (alive : ℕ → Bool) (w : WsManager) (port : String) (msg : Message)
    → SentAll alive w port msg (send_all alive w port msg)
unfolding send_all
send_all_lem alive w port msg = elim (Option-cases (get port w.connections)) [
  | inl e ↦ (ground arith, ground arith, λ other h. ground arith, ground arith, ground arith)
  | inr (cs, e) ↦ (
    ground (arith, sent-keep alive msg cs),
    ground (
      arith,
      remove_dead-keep alive msg cs,
      get-put port port (remove_dead (send_each alive msg cs).1 cs) w.connections,
      eq_refl port,
    ),
    λ other h.
        ground
          (arith, get-put port other (remove_dead (send_each alive msg cs).1 cs) w.connections),
    ground arith,
    ground arith,
  )
]

-- A status reaches exactly the live clients of its port, and drops the others.
pub broadcast_status_lem :
    (alive : ℕ → Bool) (w : WsManager) (port state : String)
    → SentAll alive w port (status state) (broadcast_status alive w port state)
unfolding broadcast_status
broadcast_status_lem alive w port state = send_all_lem alive w port (status state)

-- And so does an error.
pub broadcast_error_lem :
    (alive : ℕ → Bool) (w : WsManager) (port message : String)
    → SentAll alive w port (error message) (broadcast_error alive w port message)
unfolding broadcast_error
broadcast_error_lem alive w port message = send_all_lem alive w port (error message)

-- A broadcast of bytes from a port puts them into the port's buffer, and no other; logs them once
-- if there is a session logger, and records them once if the port is being recorded; sends them to
-- exactly the live clients of the port, in order; and keeps exactly those.
pub broadcast_lem :
    (logging recording : Bool) (alive : ℕ → Bool) (w : WsManager) (port : String) (bytes : List ℕ)
    → let (w', effects) = broadcast logging recording alive w port bytes in
      (effects
        ≡ (if logging then session_log port rx bytes ∷ [] else [])
          ++ ((if recording then record_data port rx bytes ∷ [] else [])
              ++ map (λ c. send c (payload bytes)) (keep alive (clients_of w port))))
      × (buffer_of w' port ≡ Ring.append (buffer_of w port) bytes)
      × (clients_of w' port ≡ keep alive (clients_of w port))
      × ((other : String)
          → (port == other) ≡ false
          → (buffer_of w' other ≡ buffer_of w other) × (clients_of w' other ≡ clients_of w other))
unfolding broadcast
broadcast_lem logging recording alive w port bytes =
    let stored : WsManager = record w {
      ring_buffers = put port (Ring.append (buffer_of w port) bytes) w.ring_buffers;
    } in
    let (sent, left, others, buffers, size) = send_all_lem alive stored port (payload bytes) in
    (
      ap
          (λ l.
            (if logging then session_log port rx bytes ∷ [] else [])
            ++ ((if recording then record_data port rx bytes ∷ [] else []) ++ l))
          sent,
      ground (
        arith,
        buffers,
        size,
        get-put port port (Ring.append (buffer_of w port) bytes) w.ring_buffers,
        eq_refl port,
      ),
      left,
      λ other h. (
        ground (
          arith,
          buffers,
          size,
          get-put port other (Ring.append (buffer_of w port) bytes) w.ring_buffers,
        ),
        others other h,
      ),
    )

-- A client that connects is counted at its port, and at no other.
pub client_count-connect :
    (accepted : Bool) (alive : ℕ → Bool) (w : WsManager) (port other : String) (ws : ℕ)
    → client_count (connect accepted alive w port ws).0 other
      ≡ client_count w other + (if port == other then 1 else 0)
unfolding client_count connect
client_count-connect accepted alive w port other ws = ground (
  arith,
  get-put port other (clients_of w port ++ ws ∷ []) w.connections,
  length-append (clients_of w port) (ws ∷ []),
  eq_iff port other,
)

-- A disconnect takes one registration of the client out of its port, if it has one there, and none
-- out of the others; it returns how many clients the port has left.
pub client_count-disconnect :
    (w : WsManager) (port : String) (ws : ℕ)
    → let (remaining, w') = disconnect w port ws in
      (remaining ≡ client_count w' port)
      × (client_count w' port + (if is_in ws (clients_of w port) then 1 else 0)
          ≡ client_count w port)
      × ((other : String) → (port == other) ≡ false → clients_of w' other ≡ clients_of w other)
unfolding disconnect client_count
client_count-disconnect w port ws =
    let clients = clients_of w port in
    let rest = if is_in ws clients then remove ws clients else clients in
    (
      ground (
        arith,
        get-put port port rest w.connections,
        get-pop port port w.connections,
        eq_refl port,
      ),
      ground (
        arith,
        get-put port port rest w.connections,
        get-pop port port w.connections,
        eq_refl port,
        length-remove ws clients,
      ),
      λ other h.
          ground (arith, get-put port other rest w.connections, get-pop port other w.connections),
    )

close_each-keep :
    (alive : ℕ → Bool) (cs : List ℕ) → close_each alive cs ≡ map (λ c. close c 1001) (keep alive cs)
unfolding close_each
close_each-keep alive [] = refl
close_each-keep alive (c ∷ cs) = elim (Bool-cases (alive c)) [
  | inl e ↦ rw e (ap (◌∷◌ (close c 1001)) (close_each-keep alive cs))
  | inr e ↦ rw e (close_each-keep alive cs)
]

-- Closing a port leaves it without clients, and sends each live client one close; the other ports
-- keep their clients.
pub disconnect_all_lem :
    (alive : ℕ → Bool) (w : WsManager) (port : String)
    → let (w', effects) = disconnect_all alive w port in
      (clients_of w' port ≡ [])
      × (effects ≡ map (λ c. close c 1001) (keep alive (clients_of w port)))
      × ((other : String) → (port == other) ≡ false → clients_of w' other ≡ clients_of w other)
unfolding disconnect_all
disconnect_all_lem alive w port = (
  ground (arith, get-pop port port w.connections, eq_refl port),
  close_each-keep alive (clients_of w port),
  λ other h. ground (arith, get-pop port other w.connections),
)

disconnect_ports-pops :
    (alive : ℕ → Bool) (w : WsManager) (ks : List String)
    → (disconnect_ports alive w ks).0 ≡ record w { connections = pops ks w.connections }
unfolding disconnect_ports disconnect_all pops
disconnect_ports-pops alive w [] = refl
disconnect_ports-pops alive w (k ∷ ks) =
    disconnect_ports-pops alive (record w { connections = pop k w.connections }) ks

-- After a shutdown there is no client on any port and no buffer is kept.
pub shutdown_lem :
    (alive : ℕ → Bool) (w : WsManager)
    → (shutdown alive w).0 ≡ record w { connections = []; ring_buffers = [] }
unfolding shutdown
shutdown_lem alive w =
    rw (disconnect_ports-pops alive w (keys w.connections), pops-keys w.connections)
