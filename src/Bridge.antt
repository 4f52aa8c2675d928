-- ===== src/Bridge.antt =====
-- `_bridge_serial` of serwebs/ssh_gateway.py and `_bridge_serial_telnet` of
-- serwebs/telnet_gateway.py: a terminal joined to an open port. Two tasks run side by side, and other
-- tasks between them; what happens is a list of events, in the order in which it happens. A connection
-- that fails is left out.
pub mod Order
pub mod Delivery
mod Tests
use serwebs.Prelude.{
  ℕ, String, Bool, true, false, not, ◌&&◌, ◌||◌, ◌==◌, Option, none, some, List, [], ◌∷◌, ◌++◌,
  length, ltb, if◌then◌else◌,
}
use serwebs.Dict.{get}
use serwebs.Text.{concat}
use serwebs.Audit.{Entry, no_details}
use serwebs.Ring
use serwebs.Ws.{buffer_of}
use serwebs.Scan.{PortManager}
use serwebs.Gateway.{is_nil, contains, telnet_tx, ssh_tx}

-- Which of the two gateways. They say the same, and differ in what they take out of the input and in
-- the names of their audit entries.
pub data Kind : Type 0 where
  telnet ssh : Kind

abbrev pub connect_event : Kind → String
connect_event telnet = "telnet_connect"
connect_event ssh = "ssh_connect"

abbrev pub disconnect_event : Kind → String
disconnect_event telnet = "telnet_disconnect"
disconnect_event ssh = "ssh_disconnect"

-- What a session does: a text of its own for the terminal, bytes of a port for the terminal, as they
-- are or by way of `decode("utf-8", errors="replace")`, an audit entry, a call of the worker's
-- `write`.
pub data Act : Type 0 where
  says : String → Act
  passes decodes : String → List ℕ → Act
  logs : Entry → Act
  writes : String → List ℕ → Act

-- How each gateway shows bytes of a port.
abbrev pub shows : Kind → String → List ℕ → Act
shows telnet port_id data' = passes port_id data'
shows ssh port_id data' = decodes port_id data'

-- Bytes, and the port that they came from, which the code does not keep.
abbrev pub Chunk : Type 0
Chunk = String × List ℕ

-- `running`, whether each task is still in its loop, whether `wsm.broadcast` reaches the hook of the
-- session, and the queue between the hook and `rx_task`.
pub record State : Type 0 where
  pub running : Bool
  pub tx_on : Bool
  pub rx_on : Bool
  pub hooked : Bool
  pub rx_queue : List Chunk

-- `rx_task` has put its hook in place.
abbrev pub started : State
started = record { running = true; tx_on = true; rx_on = true; hooked = true; rx_queue = [] }

pub data Event : Type 0 where
  -- the WebSocket manager broadcasts bytes of a port
  broadcasts : String → List ℕ → Event
  -- another session sets `wsm.broadcast` back to what it found: its hook is gone from there, or again
  -- there
  rehooks : Bool → Event
  -- `rx_queue.get()` returns
  takes : Event
  -- it does not for a second; whether the worker runs
  idles : Bool → Event
  -- `read` returns bytes; whether the worker accepts what is written, or raises
  types : List ℕ → Bool → Event

abbrev pub queue_size : ℕ
queue_size = 1000

-- The hook; a full queue loses the bytes.
unfoldable pub on_broadcast : String → State → String → List ℕ → State
on_broadcast port_id s pid data' =
    if s.hooked && (pid == port_id && s.running) && ltb (length s.rx_queue) queue_size
    then record s { rx_queue = s.rx_queue ++ (pid, data') ∷ [] }
    else s

-- The loop of `rx_task` looks at `running`, and sets `wsm.broadcast` back when it ends.
abbrev pub loops : State → State
loops s = record s { rx_on = s.running; hooked = s.hooked && s.running }

-- A round of `rx_task` that gets bytes.
unfoldable pub on_take : Kind → State → List Chunk → State × List Act
on_take kind s [] = (s, [])
on_take kind s ((pid, data') ∷ rest) =
    if s.rx_on then (loops (record s { rx_queue = rest }), shows kind pid data' ∷ []) else (s, [])

-- A round that times out.
unfoldable pub on_idle : State → List Chunk → Bool → State × List Act
on_idle s (chunk ∷ rest) alive = (s, [])
on_idle s [] alive =
    if not s.rx_on
    then (s, [])
    else if alive
    then (loops s, [])
    else (record s { rx_on = false; hooked = false }, says "\r\n[Port disconnected]\r\n" ∷ [])

-- What one read, which neither ends the input nor holds Ctrl+], writes.
unfoldable pub typed_by : Kind → Bool → List ℕ → List (List ℕ)
typed_by telnet is_viewer read = telnet_tx is_viewer (read ∷ [])
typed_by ssh is_viewer read = ssh_tx is_viewer (read ∷ [])

abbrev pub write_each : String → State → Bool → List (List ℕ) → State × List Act
write_each port_id s accepted [] = (s, [])
write_each port_id s accepted (clean ∷ more) =
    if accepted then (s, writes port_id clean ∷ []) else (record s { tx_on = false }, [])

-- A round of `tx_task` that reads something.
unfoldable pub on_type : Kind → String → Bool → State → List ℕ → Bool → State × List Act
unfolding typed_by
on_type kind port_id is_viewer s read accepted =
    if not s.tx_on
    then (s, [])
    else if is_nil read || contains 29 read
    then (record s { running = false; tx_on = false }, [])
    else write_each port_id s accepted (typed_by kind is_viewer read)

unfoldable pub step : Kind → String → Bool → State → Event → State × List Act
unfolding on_broadcast on_take on_idle on_type
step kind port_id is_viewer s (broadcasts pid data') = (on_broadcast port_id s pid data', [])
step kind port_id is_viewer s (rehooks b) = (record s { hooked = b }, [])
step kind port_id is_viewer s takes = on_take kind s s.rx_queue
step kind port_id is_viewer s (idles alive) = on_idle s s.rx_queue alive
step kind port_id is_viewer s (types read accepted) = on_type kind port_id is_viewer s read accepted

-- Both tasks have ended: `gather` returns.
abbrev pub is_over : State → Bool
is_over s = not s.tx_on && not s.rx_on

unfoldable pub run : Kind → String → Bool → State → List Event → State × List Act
unfolding step
run kind port_id is_viewer s [] = (s, [])
run kind port_id is_viewer s (e ∷ es) =
    let (s', acts) = step kind port_id is_viewer s e in
    let (s'', more) = run kind port_id is_viewer s' es in (s'', acts ++ more)

abbrev pub entry : String → String → String → Entry
entry event user port_id = record {
  event = event;
  user = user;
  port_id = port_id;
  details = no_details;
}

-- `worker and worker.is_running`
abbrev pub is_served : PortManager → String → Bool
is_served m port_id = elim (get port_id m.workers) [ none ↦ false | some worker ↦ worker.running ]

-- Replay is sent only if there is something to replay.
abbrev pub replays : Kind → String → List ℕ → List Act
replays kind port_id [] = []
replays kind port_id (b ∷ bs) = shows kind port_id (b ∷ bs) ∷ []

-- From the audit entry on. The empty buffer that is made for a port without one is left out.
unfoldable pub served : Kind → String → Bool → PortManager → String → List Event → Bool × List Act
unfolding run
served kind username is_viewer m port_id events =
    let (s, acts) = run kind port_id is_viewer started events in
    (
      is_over s,
      logs (entry (connect_event kind) username port_id)
          ∷ says (
              concat ("\r\nConnected to " ∷ port_id ∷ ". Press Ctrl+] to disconnect.\r\n\r\n" ∷ []))
          ∷ (replays kind port_id (Ring.read_all (buffer_of m.ws port_id))
              ++ (acts
                  ++ (if is_over s
                      then logs (entry (disconnect_event kind) username port_id) ∷ []
                      else []))),
    )

-- The acts of a bridge, and whether it is over when the events are. An event after that is none of
-- the bridge's.
unfoldable pub bridge : Kind → String → Bool → PortManager → String → List Event → Bool × List Act
unfolding served
bridge kind username is_viewer m port_id events =
    if is_served m port_id
    then served kind username is_viewer m port_id events
    else (true, says "Port is no longer available.\r\n" ∷ [])

unfoldable pub bridge_serial_telnet :
    String → Bool → PortManager → String → List Event → Bool × List Act
unfolding bridge
bridge_serial_telnet username is_viewer m port_id events =
    bridge telnet username is_viewer m port_id events

unfoldable pub bridge_serial : String → Bool → PortManager → String → List Event → Bool × List Act
unfolding bridge
bridge_serial username is_viewer m port_id events = bridge ssh username is_viewer m port_id events
