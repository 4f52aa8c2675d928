-- ===== src/Worker/Queue.antt =====
-- The writes of a port reach the device in the order in which they were queued.
use serwebs.Prelude.{
  ℕ, ◌≤◌, ◌≡◌, refl, sym, Bool, true, ◌&&◌, List, [], ◌∷◌, ◌++◌, length, if◌then◌else◌, arith,
  append_assoc, append-nil, length-append, List-cases, inl, inr,
}
use serwebs.Worker.{
  SerialWorker, Written, queued, waits, not_running, write, write_round, stop, queue_size,
}

pub data Call : Type 0 where
  writes : List ℕ → Call
  rounds : (List ℕ → Bool) → Call
  stops : Call

-- A worker with what was queued, what the device got and what a failed write lost.
pub record Trace : Type 0 where
  pub worker : SerialWorker
  pub accepted : List (List ℕ)
  pub written : List (List ℕ)
  pub lost : List (List ℕ)

abbrev after_write : Trace → List ℕ → Written → Trace
after_write t bytes (queued w) = record t { worker = w; accepted = t.accepted ++ bytes ∷ [] }
after_write t bytes waits = t
after_write t bytes not_running = t

-- What the failed round took out of the queue.
unfoldable pub taken_and_lost : (List ℕ → Bool) → SerialWorker → List (List ℕ)
taken_and_lost accepts w = elim w.write_queue [
  | [] ↦ []
  | chunk ∷ rest ↦
      if w.running && w.connected then (if accepts chunk then [] else chunk ∷ []) else []
]

unfoldable pub step : Trace → Call → Trace
unfolding write write_round stop taken_and_lost
step t (writes bytes) = after_write t bytes (write bytes t.worker)
step t (rounds accepts) =
    let (out, reports, w) = write_round accepts t.worker in
    record t {
      worker = w;
      written = t.written ++ out;
      lost = t.lost ++ taken_and_lost accepts t.worker;
    }
step t stops = record t { worker = stop t.worker }

unfoldable pub run : Trace → List Call → Trace
run t [] = t
run t (c ∷ cs) = run (step t c) cs

-- Every accepted chunk is written, lost or still queued, in that order; at most one is lost, and
-- then the worker has stopped; the queue is within its bound.
pub record IsOrdered (t : Trace) : Type 0 where
  pub in_order : t.accepted ≡ t.written ++ (t.lost ++ t.worker.write_queue)
  pub lost_one : length t.lost ≤ 1
  pub lost_stops : t.worker.running ≡ true → t.lost ≡ []
  pub bounded : length t.worker.write_queue ≤ queue_size

step-IsOrdered : (t : Trace) (c : Call) → IsOrdered t → IsOrdered (step t c)
unfolding step
step-IsOrdered t (writes bytes) o = ground (
  arith,
  length-append t.worker.write_queue (bytes ∷ []),
  append_assoc t.written (t.lost ++ t.worker.write_queue) (bytes ∷ []),
  append_assoc t.lost t.worker.write_queue (bytes ∷ []),
)
step-IsOrdered t (rounds accepts) o = elim (List-cases t.worker.write_queue) [
  | inl e ↦ ground (arith, append-nil t.written, append-nil t.lost)
  | inr (chunk, rest, e) ↦ ground (
    arith,
    append-nil t.written,
    append-nil t.lost,
    append_assoc t.written (chunk ∷ []) rest,
    append_assoc t.lost (chunk ∷ []) rest,
  )
]
step-IsOrdered t stops o = ground arith

run-IsOrdered : (t : Trace) (cs : List Call) → IsOrdered t → IsOrdered (run t cs)
unfolding run
run-IsOrdered t [] o = o
run-IsOrdered t (c ∷ cs) o = run-IsOrdered (step t c) cs (step-IsOrdered t c o)

abbrev pub started : SerialWorker → Trace
started w = record { worker = w; accepted = []; written = []; lost = [] }

-- A worker that starts with an empty queue writes to the device, in whatever way writes, rounds of
-- the loop (the device failing or not) and a stop interleave: what was accepted is what was
-- written, what was lost and what is queued, in that order; a lost chunk is one that the device
-- refused, it is the only one, and the worker has stopped; at most 1000 chunks are queued.
pub writes_in_order :
    (w : SerialWorker) (cs : List Call) → w.write_queue ≡ [] → IsOrdered (run (started w) cs)
writes_in_order w cs e = run-IsOrdered (started w) cs (record {
  in_order = sym e;
  lost_one = omega arith;
  lost_stops = λ _. refl;
  bounded = rw e (omega arith);
})

-- A stopped worker writes nothing to the device.
stopped_writes_nothing :
    (accepts : List ℕ → Bool) (w : SerialWorker) → (write_round accepts (stop w)).0 ≡ []
unfolding write_round stop
stopped_writes_nothing accepts w = ground arith
