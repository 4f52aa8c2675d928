-- ===== src/Worker/Tests.antt =====
-- The worker on concrete writes, and the theorem about it at a concrete input.
use serwebs.Prelude.{◌≡◌, refl, true, false, none, some, List, [], ◌∷◌}
use serwebs.Models.{PortSettings, even, xonxoff}
use serwebs.Worker.{SerialWorker, new, start, line_of, read_round, data_read}
use serwebs.Worker.Queue.{
  Call, writes, rounds, stops, IsOrdered, run, step, started, writes_in_order,
}

abbrev settings : PortSettings
settings = record {
  baudrate = 9600;
  parity = even;
  stopbits = 1;
  databits = 7;
  flowcontrol = xonxoff;
  read_timeout = none;
  write_timeout = none;
}

abbrev open_worker : SerialWorker
open_worker = record {
  device = "/dev/ttyUSB0";
  settings = settings;
  write_queue = [];
  connected = true;
  running = true;
}

starts : start (λ l. l.xonxoff) (new "/dev/ttyUSB0" settings) ≡ some open_worker
unfolding start new line_of
starts = refl

reads : (read_round (some (1 ∷ [])) open_worker).0 ≡ data_read (1 ∷ []) ∷ []
unfolding read_round
reads = refl

abbrev calls : List Call
calls =
    writes (1 ∷ [])
    ∷ writes (2 ∷ [])
    ∷ writes (3 ∷ [])
    ∷ rounds (λ _. true)
    ∷ rounds (λ _. false)
    ∷ stops
    ∷ writes (4 ∷ [])
    ∷ []

calls_written : (run (started open_worker) calls).written ≡ (1 ∷ []) ∷ []
unfolding run step
calls_written = refl

writes_in_order_example : IsOrdered (run (started open_worker) calls)
writes_in_order_example = writes_in_order open_worker calls refl
