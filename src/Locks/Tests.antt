-- ===== src/Locks/Tests.antt =====
-- Locks and writes on concrete ports.
use serwebs.Prelude.{
  ◌≡◌, ◌≢◌, ◌↔◌, refl, eq_iff, true, false, none, some, List, [], ◌∷◌, arith, inr, inl,
}
use serwebs.Dict.{Dict, get}
use serwebs.Roles.{User, require_role, level}
use serwebs.Models.{PortSettings, no_parity, no_flow}
use serwebs.Worker
use serwebs.Worker.{SerialWorker}
use serwebs.Locks.{
  Body, WaitBody, Codec, payload_of, running_worker, put_bytes, write_running, rest_write,
  locked_out, get_lock_status,
}
use serwebs.Locks.Holder.{Call, lock, unlock, step, run, lock_holds}
use serwebs.Locks.Writing.{rest_write-ok}

abbrev ann : User
ann = record { username = "ann"; role = "user" }

abbrev bob : User
bob = record { username = "bob"; role = "user" }

abbrev calls : List Call
calls = lock "a" bob "2" ∷ unlock "a" bob ∷ unlock "b" ann ∷ []

lock_holds_example :
    (get_lock_status (run (step [] (lock "a" ann "1")) calls) "a"
      ≡ some (record { user = some "ann"; locked_at = some "1" }))
    × ((locked_out (run (step [] (lock "a" ann "1")) calls) "a" bob.username ≡ true)
        ↔ (bob.username ≢ ann.username))
unfolding require_role level get
lock_holds_example = lock_holds [] calls "a" "1" bob.username ann refl refl (
  tt,
  (
    inr (
      λ e. ground (arith, (eq_iff "bob" "ann").1 e),
      λ e. ground (arith, (eq_iff "user" "admin").1 e),
    ),
    (inl (λ e. ground (arith, (eq_iff "b" "a").1 e)), tt),
  ),
)

abbrev codec : Codec
codec = record { encode = λ s. 65 ∷ 66 ∷ []; b64decode = λ s. none; max_message_size = 10 }

abbrev settings : PortSettings
settings = record {
  baudrate = 9600;
  databits = 8;
  parity = no_parity;
  stopbits = 1;
  flowcontrol = no_flow;
  read_timeout = none;
  write_timeout = none;
}

abbrev worker : SerialWorker
worker = record (Worker.new "/dev/a" settings) {
  connected = true;
  running = true;
  write_queue = (7 ∷ []) ∷ [];
}

abbrev body : Body
body = record { text = some "AB"; text_b64 = some "" }

abbrev workers : Dict SerialWorker
workers = ("a", worker) ∷ []

rest_write-ok_example : locked_out [] "a" ann.username ≡ false
unfolding rest_write locked_out running_worker write_running payload_of put_bytes require_role level
    get Worker.new Worker.write
rest_write-ok_example =
    (rest_write-ok workers "a" codec ann [] body 2 (rest_write codec [] workers "a" body ann).1
      refl).1

abbrev question : WaitBody
question = record { text = some "AB"; max_bytes = some 2 }
