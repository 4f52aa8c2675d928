-- ===== src/Worker.antt =====
-- `SerialWorker` of serwebs/serial_worker.py: one open serial port with its queue of writes.
-- The device is outside: whether it opens, what it reads and whether a write goes through are
-- arguments. The two loops are steps, one for each round.
pub mod Queue
mod Tests
use serwebs.Prelude.{
  ℕ, ◌+◌, String, Bool, true, false, ◌&&◌, Option, none, some, List, [], ◌∷◌, ◌++◌, length, ltb,
  if◌then◌else◌,
}
use serwebs.Models.{
  PortSettings, Parity, no_parity, even, odd, FlowControl, no_flow, rtscts, xonxoff,
}

pub record SerialWorker : Type 0 where
  pub device : String
  pub settings : PortSettings
  pub write_queue : List (List ℕ)
  pub connected : Bool
  pub running : Bool

-- `serial.PARITY_NONE`, `PARITY_EVEN` and `PARITY_ODD`
unfoldable pub get_parity : Parity → String
get_parity no_parity = "N"
get_parity even = "E"
get_parity odd = "O"

-- The arguments of `open_serial_connection`.
pub record Line : Type 0 where
  pub url : String
  pub baudrate : ℕ
  pub bytesize : ℕ
  pub parity : String
  pub stopbits : ℕ
  pub xonxoff : Bool
  pub rtscts : Bool
  pub timeout : Option ℕ
  pub write_timeout : Option ℕ

abbrev is_xonxoff : FlowControl → Bool
is_xonxoff xonxoff = true
is_xonxoff _ = false

abbrev is_rtscts : FlowControl → Bool
is_rtscts rtscts = true
is_rtscts _ = false

unfoldable pub line_of : SerialWorker → Line
unfolding get_parity
line_of w = record {
  url = w.device;
  baudrate = s.baudrate;
  bytesize = s.databits;
  parity = get_parity s.parity;
  stopbits = s.stopbits;
  xonxoff = is_xonxoff s.flowcontrol;
  rtscts = is_rtscts s.flowcontrol;
  timeout = s.read_timeout;
  write_timeout = s.write_timeout;
}
  where
    s : PortSettings
    s = w.settings

unfoldable pub new : String → PortSettings → SerialWorker
new device settings = record {
  device = device;
  settings = settings;
  write_queue = [];
  connected = false;
  running = false;
}

-- `none`: the device could not be opened; `on_error` was called and the exception goes on.
unfoldable pub start : (Line → Bool) → SerialWorker → Option SerialWorker
start opens w =
    if opens (line_of w) then some (record w { connected = true; running = true }) else none

-- What a round of a loop tells the callbacks.
pub data Report : Type 0 where
  data_read : List ℕ → Report
  failed : Report

-- One round of `_read_loop`: `none` is a read that raised. Nothing is passed on for no data.
unfoldable pub read_round : Option (List ℕ) → SerialWorker → List Report × SerialWorker
read_round none w =
    if w.running && w.connected
    then (failed ∷ [], record w { running = false })
    else ([], record w { running = false })
read_round (some []) w =
    if w.running && w.connected then ([], w) else ([], record w { running = false })
read_round (some (b ∷ bs)) w =
    if w.running && w.connected
    then (data_read (b ∷ bs) ∷ [], w)
    else ([], record w { running = false })

-- One round of `_write_loop` on a queue that is not empty: the chunk that is written, if any.
-- A write that raises ends the loop; its chunk is lost.
unfoldable pub write_round :
    (List ℕ → Bool) → SerialWorker → List (List ℕ) × List Report × SerialWorker
write_round accepts w = elim w.write_queue [
  | [] ↦ ([], [], w)
  | chunk ∷ rest ↦
      if w.running && w.connected
      then if accepts chunk
        then (chunk ∷ [], [], record w { write_queue = rest })
        else ([], failed ∷ [], record w { write_queue = rest; running = false })
      else ([], [], record w { running = false })
]

pub data Written : Type 0 where
  queued : SerialWorker → Written
  -- The queue holds 1000 chunks: the caller waits.
  waits : Written
  -- `RuntimeError("Worker not running")`
  not_running : Written

abbrev pub queue_size : ℕ
queue_size = 1000

unfoldable pub write : List ℕ → SerialWorker → Written
write bytes w =
    if w.running
    then if ltb (length w.write_queue) queue_size
      then queued (record w { write_queue = w.write_queue ++ bytes ∷ [] })
      else waits
    else not_running

unfoldable pub stop : SerialWorker → SerialWorker
stop w = record w { running = false; connected = false }
