-- ===== src/Hooks.antt =====
-- How a session taps the bytes of a port: `wsm.broadcast` is replaced by a function that keeps a
-- copy and calls the one that was there, and is set back at the end. The SSH and Telnet bridges
-- (serwebs/ssh_gateway.py, serwebs/telnet_gateway.py) and the write-wait route
-- (serwebs/routes_api.py) all do it this way, with the replaced function in a local variable.
pub mod Nested
pub mod Overlap
mod Tests
use serwebs.Prelude.{ℕ, String, Bool, ◌&&◌, ◌==◌, List, [], ◌∷◌, ◌++◌, eqb, if◌then◌else◌}

-- The function in `wsm.broadcast`: that of the class, or a session's hook around another.
pub data Hook : Type 0 where
  base : Hook
  hooked : ℕ → String → Hook → Hook

-- The sessions whose hook gets a copy of the bytes of `port`; `running` is their flag.
unfoldable pub receivers : (ℕ → Bool) → String → Hook → List ℕ
receivers running port base = []
receivers running port (hooked session own inner) =
    if own == port && running session
    then session ∷ receivers running port inner
    else receivers running port inner

pub record Tap : Type 0 where
  pub current : Hook
  -- each session's `original_broadcast`
  pub original : ℕ → Hook

unfoldable pub install : Tap → ℕ → String → Tap
install t session port = record {
  current = hooked session port t.current;
  original = λ s. if eqb session s then t.current else t.original s;
}

-- The `finally` block.
unfoldable pub restore : Tap → ℕ → Tap
restore t session = record t { current = t.original session }

pub data Event : Type 0 where
  enter : ℕ → String → Event
  leave : ℕ → Event

unfoldable pub step : Tap → Event → Tap
unfolding install restore
step t (enter session port) = install t session port
step t (leave session) = restore t session

unfoldable pub run : Tap → List Event → Tap
unfolding step
run t [] = t
run t (e ∷ es) = run (step t e) es
