-- ===== src/Ws.antt =====
-- `WsManager` of serwebs/ws_manager.py: the clients of each port and the port's replay buffer.
-- A WebSocket is the number of its object. `alive ws` says whether a send to it goes through in the
-- call at hand; a send that raises has no effect. Each method runs as one step: what other tasks
-- do while it waits for a send is not modelled. A list in the dictionary is the object that the
-- methods change, so a change is written back under its port.
pub mod Clients
pub mod Delivery
pub mod Replay
mod Tests
use mathlib.Core.List.{foldl}
use serwebs.Prelude.{
  ℕ, ◌+◌, String, Bool, true, false, not, Option, none, some, List, [], ◌∷◌, ◌++◌, map, length,
  keep, eqb, if◌then◌else◌,
}
use serwebs.Dict.{Dict, get, put, pop, has, get_or, keys, values}
use serwebs.Ring
use serwebs.Ring.{Ring}
use serwebs.Wire.{
  Message, replay, payload, status, error, Direction, rx, Effect, accept, send, close, session_log,
  record_data,
}

pub record WsManager : Type 0 where
  pub connections : Dict (List ℕ)
  pub ring_buffers : Dict Ring
  -- `get_config().serial.ring_buffer_size`
  pub ring_size : ℕ

abbrev pub fresh : ℕ → WsManager
fresh size = record { connections = []; ring_buffers = []; ring_size = size }

abbrev pub clients_of : WsManager → String → List ℕ
clients_of w port = get_or port [] w.connections

-- `_get_buffer`: the buffer of the port, made on the first call.
abbrev pub buffer_of : WsManager → String → Ring
buffer_of w port = get_or port (Ring.new w.ring_size) w.ring_buffers

abbrev pub with_buffer : WsManager → String → Ring → WsManager
with_buffer w port r = record w { ring_buffers = put port r w.ring_buffers }

-- `try: await ws.send_text(...) except Exception: pass`
unfoldable pub send_to : (ℕ → Bool) → ℕ → Message → List Effect
send_to alive ws msg = if alive ws then send ws msg ∷ [] else []

-- Replay is sent only if there is something to replay.
unfoldable pub send_replay : (ℕ → Bool) → ℕ → List ℕ → List Effect
send_replay alive ws [] = []
send_replay alive ws (b ∷ bs) = send_to alive ws (replay (b ∷ bs))

-- `accepted`: the socket was accepted before, to receive the token.
unfoldable pub connect : Bool → (ℕ → Bool) → WsManager → String → ℕ → WsManager × List Effect
unfolding send_to send_replay
connect accepted alive w port ws =
    let buf = buffer_of w port in
    (
      record w {
        connections = put port (clients_of w port ++ ws ∷ []) w.connections;
        ring_buffers = put port buf w.ring_buffers;
      },
      (if accepted then [] else accept ws ∷ [])
          ++ (send_replay alive ws (Ring.read_all buf) ++ send_to alive ws (status "connected")),
    )

-- `ws in clients`
unfoldable pub is_in : ℕ → List ℕ → Bool
is_in ws [] = false
is_in ws (c ∷ cs) = if eqb c ws then true else is_in ws cs

-- `clients.remove(ws)`: the first occurrence.
unfoldable pub remove : ℕ → List ℕ → List ℕ
remove ws [] = []
remove ws (c ∷ cs) = if eqb c ws then cs else c ∷ remove ws cs

-- The list is written back, or its key dropped when nobody is left; returns who remains.
unfoldable pub disconnect : WsManager → String → ℕ → ℕ × WsManager
unfolding remove is_in
disconnect w port ws =
    let clients = clients_of w port in
    let rest = if is_in ws clients then remove ws clients else clients in
    (
      length rest,
      record w {
        connections =
            if eqb (length rest) 0 then pop port w.connections else put port rest w.connections;
      },
    )

-- The loop over the clients: each gets the message, and those whose send raised are noted.
unfoldable pub send_each : (ℕ → Bool) → Message → List ℕ → List Effect × List ℕ
send_each alive msg [] = ([], [])
send_each alive msg (c ∷ cs) =
    let (sent, dead) = send_each alive msg cs in
    if alive c then (send c msg ∷ sent, dead) else (sent, c ∷ dead)

unfoldable pub remove_dead : List ℕ → List ℕ → List ℕ
unfolding remove is_in
remove_dead [] clients = clients
remove_dead (d ∷ ds) clients =
    remove_dead ds (if is_in d clients then remove d clients else clients)

-- Send to all clients of a port and drop the dead ones. A port without a key has no clients.
unfoldable pub send_all : (ℕ → Bool) → WsManager → String → Message → WsManager × List Effect
send_all alive w port msg = elim (get port w.connections) [
  | none ↦ (w, [])
  | some clients ↦
      let (sent, dead) = send_each alive msg clients in
      (record w { connections = put port (remove_dead dead clients) w.connections }, sent)
]

-- `recording`: whether a recorder is there and records the port.
unfoldable pub broadcast :
    Bool → Bool → (ℕ → Bool) → WsManager → String → List ℕ → WsManager × List Effect
broadcast logging recording alive w port bytes =
    let stored = with_buffer w port (Ring.append (buffer_of w port) bytes) in
    let (w', sent) = send_all alive stored port (payload bytes) in
    (
      w',
      (if logging then session_log port rx bytes ∷ [] else [])
          ++ ((if recording then record_data port rx bytes ∷ [] else []) ++ sent),
    )

unfoldable pub broadcast_status : (ℕ → Bool) → WsManager → String → String → WsManager × List Effect
broadcast_status alive w port state = send_all alive w port (status state)

unfoldable pub broadcast_error : (ℕ → Bool) → WsManager → String → String → WsManager × List Effect
broadcast_error alive w port message = send_all alive w port (error message)

unfoldable pub client_count : WsManager → String → ℕ
client_count w port = length (clients_of w port)

abbrev sum : List ℕ → ℕ
sum [] = 0
sum (n ∷ ns) = n + sum ns

unfoldable pub total_clients : WsManager → ℕ
total_clients w = sum (map length (values w.connections))

unfoldable pub clear_buffer : WsManager → String → WsManager
clear_buffer w port = elim (get port w.ring_buffers) [
  | none ↦ w
  | some r ↦ with_buffer w port (Ring.clear r)
]

-- `ws.close(code=1001)` for every client; one that raises has no effect.
unfoldable pub close_each : (ℕ → Bool) → List ℕ → List Effect
close_each alive [] = []
close_each alive (c ∷ cs) =
    if alive c then close c 1001 ∷ close_each alive cs else close_each alive cs

unfoldable pub disconnect_all : (ℕ → Bool) → WsManager → String → WsManager × List Effect
disconnect_all alive w port =
    (record w { connections = pop port w.connections }, close_each alive (clients_of w port))

-- The ports of `list(self._connections.keys())`, one after the other.
unfoldable pub disconnect_ports : (ℕ → Bool) → WsManager → List String → WsManager × List Effect
disconnect_ports alive w [] = (w, [])
disconnect_ports alive w (port ∷ ports) =
    let (w', closed) = disconnect_all alive w port in
    let (w'', more) = disconnect_ports alive w' ports in (w'', closed ++ more)

unfoldable pub shutdown : (ℕ → Bool) → WsManager → WsManager × List Effect
shutdown alive w =
    let (w', closed) = disconnect_ports alive w (keys w.connections) in
    (record w' { ring_buffers = [] }, closed)
