-- ===== src/Hooks/Overlap.antt =====
-- Sessions that overlap without nesting lose their bytes.
use serwebs.Prelude.{ℕ, ◌≡◌, ◌≢◌, String, Bool, [], ◌∷◌, arith, eqb_iff}
use serwebs.Hooks.{Tap, hooked, enter, leave, run, receivers}

-- If session `a` begins, then `b`, and `a` ends first, then `b`, though it is still running, gets
-- none of the bytes that come after: who gets them is as before both began. When `b` ends, the
-- hook of `a`, which is over, is back in place.
pub overlap_loses :
    (t : Tap) (a b : ℕ) (port_a port_b port : String) (running : ℕ → Bool)
    → a ≢ b
    → (receivers running port (run t (enter a port_a ∷ enter b port_b ∷ leave a ∷ [])).current
        ≡ receivers running port t.current)
      × ((run t (enter a port_a ∷ enter b port_b ∷ leave a ∷ leave b ∷ [])).current
          ≡ hooked a port_a t.current)
unfolding run
overlap_loses t a b port_a port_b port running h =
    (ground (arith, eqb_iff a a, eqb_iff b a), ground (arith, eqb_iff b b))
