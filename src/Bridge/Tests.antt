-- ===== src/Bridge/Tests.antt =====
-- A bridge on concrete events, and the theorems about it at concrete inputs.
use serwebs.Gateway.{ssh_tx}
use serwebs.Prelude.{◌≡◌, refl, arith, true, false, List, [], ◌∷◌, ◌++◌}
use serwebs.Bridge.{
  telnet, ssh, Event, broadcasts, takes, idles, rehooks, types, decodes, writes, started, run, step,
  on_broadcast, on_take, on_type, typed_by, is_over,
}
use serwebs.Bridge.Delivery.{passed, bridge_delivers, bridge_leaves}

abbrev talk : List Event
talk =
    broadcasts "a" (1 ∷ [])
    ∷ broadcasts "b" (9 ∷ [])
    ∷ types (104 ∷ []) true
    ∷ takes
    ∷ rehooks false
    ∷ broadcasts "a" (3 ∷ [])
    ∷ rehooks true
    ∷ broadcasts "a" (2 ∷ [])
    ∷ []

talk_acts : (run ssh "a" false started talk).1 ≡ writes "a" (104 ∷ []) ∷ decodes "a" (1 ∷ []) ∷ []
unfolding run step on_broadcast on_take on_type typed_by ssh_tx
talk_acts = refl

bridge_delivers_example :
    (passed ssh (run ssh "a" false started talk).1 ++ (run ssh "a" false started talk).0.rx_queue)
    ≡ ("a", 1 ∷ []) ∷ ("a", 2 ∷ []) ∷ []
unfolding run step on_broadcast on_take on_type typed_by ssh_tx
bridge_delivers_example = bridge_delivers ssh "a" false talk (refl, refl) (omega arith)

bridge_leaves_example :
    is_over (run telnet "a" false started (types (29 ∷ []) true ∷ takes ∷ idles true ∷ [])).0 ≡ true
bridge_leaves_example = bridge_leaves telnet "a" false started (29 ∷ []) true true refl refl
