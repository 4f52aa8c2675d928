-- ===== src/Ws/Replay.antt =====
-- What a client sees on connecting, after any history of the manager.
use serwebs.Prelude.{
  ℕ, ◌≡◌, String, refl, ap, Bool, true, List, [], ◌∷◌, ◌++◌, arith, last, if◌then◌else◌, ◌∙◌,
  Bool-cases, inl, inr, ◌==◌, eq_iff, sym, subst,
}
use serwebs.Dict.{get, put, get-put}
use serwebs.Ring
use serwebs.Ring.{Ring}
use serwebs.Ring.History
use serwebs.Ring.History.{Op, stream, replay-run}
use serwebs.Wire.{Effect, accept, send, replay, payload, status, error}
use serwebs.Ws.{
  WsManager, fresh, buffer_of, connect, disconnect, broadcast, broadcast_status, broadcast_error,
  disconnect_all, clear_buffer, shutdown, send_to, send_replay,
}
use serwebs.Ws.Delivery.{send_all_lem, broadcast_lem, shutdown_lem}

-- The calls of the manager.
pub data Call : Type 0 where
  connects : Bool → (ℕ → Bool) → String → ℕ → Call
  disconnects : String → ℕ → Call
  broadcasts : Bool → Bool → (ℕ → Bool) → String → List ℕ → Call
  tells fails : (ℕ → Bool) → String → String → Call
  clears : String → Call
  closes : (ℕ → Bool) → String → Call
  shuts_down : (ℕ → Bool) → Call

unfoldable pub step : WsManager → Call → WsManager
step w (connects accepted alive port ws) = (connect accepted alive w port ws).0
step w (disconnects port ws) = (disconnect w port ws).1
step w (broadcasts logging recording alive port bytes) =
    (broadcast logging recording alive w port bytes).0
step w (tells alive port state) = (broadcast_status alive w port state).0
step w (fails alive port message) = (broadcast_error alive w port message).0
step w (clears port) = clear_buffer w port
step w (closes alive port) = (disconnect_all alive w port).0
step w (shuts_down alive) = (shutdown alive w).0

unfoldable pub run : WsManager → List Call → WsManager
run w [] = w
run w (c ∷ cs) = run (step w c) cs

-- What a call does to the buffer of one port, but for a shutdown: its bytes come in, or it is cleared.
abbrev pub bytes_of : String → Call → List Op
bytes_of port (broadcasts logging recording alive from bytes) =
    if from == port then Op.put bytes ∷ [] else []
bytes_of port (clears from) = if from == port then Op.reset ∷ [] else []
bytes_of port _ = []

-- What a history did to it since the last shutdown.
abbrev pub since : String → List Op → List Call → List Op
since port ops [] = ops
since port ops (shuts_down alive ∷ cs) = since port [] cs
since port ops (c ∷ cs) = since port (ops ++ bytes_of port c) cs

clear-new : (size : ℕ) → Ring.clear (Ring.new size) ≡ Ring.new size
unfolding Ring.clear Ring.new
clear-new size = refl

-- No shutdown.
abbrev IsCall : Call → Type 0
IsCall (shuts_down alive) = ⊥
IsCall c = Unit

step-buffer :
    (w : WsManager) (port : String) (c : Call)
    → IsCall c
    → buffer_of (step w c) port ≡ Ring.History.run (buffer_of w port) (bytes_of port c)
unfolding step
step-buffer w port (connects accepted alive from ws) is =
    unfold connect Ring.History.run in
    ground (arith, get-put from port (buffer_of w from) w.ring_buffers, eq_iff from port)
step-buffer w port (disconnects from ws) is = unfold disconnect Ring.History.run in refl
step-buffer w port (broadcasts logging recording alive from bytes) is =
    unfold Ring.History.run in
    elim (Bool-cases (from == port)) [
      | inl e ↦
          let p : from ≡ port = (eq_iff from port).0 e in
          rw e (
            subst
              (λ x.
                buffer_of (broadcast logging recording alive w from bytes).0 x
                ≡ Ring.append (buffer_of w x) bytes)
              p (broadcast_lem logging recording alive w from bytes).1)
      | inr e ↦ rw e ((broadcast_lem logging recording alive w from bytes).3 port e).0
    ]
step-buffer w port (tells alive from state) is =
    unfold broadcast_status Ring.History.run in
    ground (arith, send_all_lem alive w from (status state))
step-buffer w port (fails alive from message) is =
    unfold broadcast_error Ring.History.run in
    ground (arith, send_all_lem alive w from (error message))
step-buffer w port (clears from) is =
    unfold clear_buffer Ring.History.run Ring.History.apply in
    ground (
      arith,
      clear-new w.ring_size,
      get-put from port (Ring.clear (buffer_of w from)) w.ring_buffers,
      eq_iff from port,
    )
step-buffer w port (closes alive from) is = unfold disconnect_all Ring.History.run in refl
step-buffer w port (shuts_down alive) is = absurd is

run-append :
    (r : Ring) (xs ys : List Op)
    → Ring.History.run r (xs ++ ys) ≡ Ring.History.run (Ring.History.run r xs) ys
unfolding Ring.History.run
run-append r [] ys = refl
run-append r (x ∷ xs) ys = run-append (Ring.History.apply r x) xs ys

step-size : (w : WsManager) (c : Call) → (step w c).ring_size ≡ w.ring_size
unfolding step
step-size w (connects accepted alive from ws) = unfold connect in refl
step-size w (disconnects from ws) = unfold disconnect in ground arith
step-size w (broadcasts logging recording alive from bytes) =
    unfold broadcast in
    (send_all_lem alive
      (record w { ring_buffers = put from (Ring.append (buffer_of w from) bytes) w.ring_buffers })
      from (payload bytes)).4
step-size w (tells alive from state) =
    unfold broadcast_status in (send_all_lem alive w from (status state)).4
step-size w (fails alive from message) =
    unfold broadcast_error in (send_all_lem alive w from (error message)).4
step-size w (clears from) = unfold clear_buffer in ground arith
step-size w (closes alive from) = unfold disconnect_all in refl
step-size w (shuts_down alive) = ap (λ x. x.ring_size) (shutdown_lem alive w)

-- The buffer of the port is that of a new manager after these appends and resets.
abbrev Holds : String → ℕ → List Op → WsManager → Type 0
Holds port size ops w =
    (w.ring_size ≡ size) × (buffer_of w port ≡ Ring.History.run (Ring.new size) ops)

step-Holds :
    (port : String) (size : ℕ) (ops : List Op) (w : WsManager) (c : Call)
    → IsCall c
    → Holds port size ops w
    → Holds port size (ops ++ bytes_of port c) (step w c)
step-Holds port size ops w c is (s, h) = (
  step-size w c ∙ s,
  step-buffer w port c is
      ∙ ap (λ r. Ring.History.run r (bytes_of port c)) h
      ∙ sym (run-append (Ring.new size) ops (bytes_of port c)),
)

-- A shutdown leaves no buffer.
shutdown-Holds :
    (port : String) (size : ℕ) (w : WsManager) (alive : ℕ → Bool)
    → w.ring_size ≡ size
    → Holds port size [] (step w (shuts_down alive))
unfolding step Ring.History.run get
shutdown-Holds port size w alive s =
    subst (Holds port size []) (sym (shutdown_lem alive w)) (s, ap Ring.new s)

run-Holds :
    (port : String) (size : ℕ) (ops : List Op) (w : WsManager) (cs : List Call)
    → Holds port size ops w
    → Holds port size (since port ops cs) (run w cs)
unfolding run
run-Holds port size ops w [] h = h
run-Holds port size ops w (shuts_down alive ∷ cs) h =
    run-Holds port size [] (step w (shuts_down alive)) cs (shutdown-Holds port size w alive h.0)
run-Holds port size ops w (connects a l p s ∷ cs) h =
    run-Holds port size _ _ cs (step-Holds port size ops w (connects a l p s) tt h)
run-Holds port size ops w (disconnects p s ∷ cs) h =
    run-Holds port size _ _ cs (step-Holds port size ops w (disconnects p s) tt h)
run-Holds port size ops w (broadcasts g r l p bytes ∷ cs) h =
    run-Holds port size _ _ cs (step-Holds port size ops w (broadcasts g r l p bytes) tt h)
run-Holds port size ops w (tells l p s ∷ cs) h =
    run-Holds port size _ _ cs (step-Holds port size ops w (tells l p s) tt h)
run-Holds port size ops w (fails l p s ∷ cs) h =
    run-Holds port size _ _ cs (step-Holds port size ops w (fails l p s) tt h)
run-Holds port size ops w (clears p ∷ cs) h =
    run-Holds port size _ _ cs (step-Holds port size ops w (clears p) tt h)
run-Holds port size ops w (closes l p ∷ cs) h =
    run-Holds port size _ _ cs (step-Holds port size ops w (closes l p) tt h)

-- No message for no bytes, and one for some.
abbrev pub replay_of : ℕ → List ℕ → List Effect
replay_of ws [] = []
replay_of ws (b ∷ bs) = send ws (replay (b ∷ bs)) ∷ []

send_replay-live :
    (alive : ℕ → Bool) (ws : ℕ) (bytes : List ℕ)
    → alive ws ≡ true
    → send_replay alive ws bytes ≡ replay_of ws bytes
unfolding send_replay send_to
send_replay-live alive ws [] h = refl
send_replay-live alive ws (b ∷ bs) h = rw h

-- A live client that connects after any calls on a new manager, whoever else uses its port: its socket
-- is accepted, unless it was before; it gets one replay message with exactly the last `size` bytes
-- that the port has sent since its buffer was last cleared, or the manager last shut down, if there
-- are any; and then the status.
pub connect_replays :
    (size : ℕ) (cs : List Call) (accepted : Bool) (alive : ℕ → Bool) (port : String) (ws : ℕ)
    → alive ws ≡ true
    → (connect accepted alive (run (fresh size) cs) port ws).1
      ≡ (if accepted then [] else accept ws ∷ [])
        ++ (replay_of ws (last size (stream [] (since port [] cs)))
            ++ send ws (status "connected") ∷ [])
unfolding connect send_to
connect_replays size cs accepted alive port ws h =
    let held = run-Holds port size [] (fresh size) cs (refl, unfold get Ring.History.run in refl) in
    rw h (
      ap
        (λ l. (if accepted then [] else accept ws ∷ []) ++ (l ++ send ws (status "connected") ∷ []))
        (send_replay-live alive ws (Ring.read_all (buffer_of (run (fresh size) cs) port)) h
          ∙ ap (replay_of ws) (ap Ring.read_all held.1 ∙ replay-run size (since port [] cs))))
