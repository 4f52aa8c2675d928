-- ===== src/Wire.antt =====
-- What the server sends to its WebSocket clients and writes to its logs: the JSON objects of
-- serwebs/ws_manager.py and serwebs/routes_ws.py, with payloads as bytes (their base64 and JSON
-- encodings are the libraries'), and the calls on the session logger and the recorder.
use serwebs.Prelude.{ℕ, String, List}

pub data Message : Type 0 where
  replay payload : List ℕ → Message
  status error : String → Message
  pong : Message

-- `rx` is what the port sent, `tx` what was written to it.
pub data Direction : Type 0 where
  rx tx : Direction

-- A send is an effect only if it does not raise.
pub data Effect : Type 0 where
  accept : ℕ → Effect
  send : ℕ → Message → Effect
  close : ℕ → ℕ → Effect
  session_log record_data : String → Direction → List ℕ → Effect
