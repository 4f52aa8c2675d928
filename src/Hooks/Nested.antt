-- ===== src/Hooks/Nested.antt =====
-- Sessions that nest leave `wsm.broadcast` as they found it.
use serwebs.Prelude.{ℕ, ◌≡◌, refl, ap, ◌∙◌, String, false, List, [], ◌∷◌, ◌++◌, arith, eqb, eqb_iff}
use serwebs.Hooks.{Tap, Event, enter, leave, step, run}

-- No event of the list is of the session.
abbrev pub Without : ℕ → List Event → Type 0
Without s [] = Unit
Without s (enter t port ∷ es) = (eqb t s ≡ false) × Without s es
Without s (leave t ∷ es) = (eqb t s ≡ false) × Without s es

-- Each session ends before the one that began before it.
pub data IsNested : List Event → Type 0 where
  idle : IsNested []
  session :
      (s : ℕ) (port : String) {inner rest : List Event}
      → Without s inner
      → IsNested inner
      → IsNested rest
      → IsNested (enter s port ∷ (inner ++ leave s ∷ rest))

run-append : (t : Tap) (xs ys : List Event) → run t (xs ++ ys) ≡ run (run t xs) ys
unfolding run
run-append t [] ys = refl
run-append t (x ∷ xs) ys = run-append (step t x) xs ys

original-run :
    (t : Tap) (s : ℕ) (es : List Event) → Without s es → (run t es).original s ≡ t.original s
unfolding run
original-run t s [] w = refl
original-run t s (enter j port ∷ es) w = original-run (step t (enter j port)) s es w.1 ∙ rw w.0
original-run t s (leave j ∷ es) w = original-run (step t (leave j)) s es w.1

own_original : (t : Tap) (s : ℕ) (port : String) → (step t (enter s port)).original s ≡ t.current
unfolding step
own_original t s port = ground (arith, eqb_iff s s)

-- Sessions that nest, on any ports, leave `wsm.broadcast` as it was before the first of them.
pub nested_restores : (t : Tap) (es : List Event) → IsNested es → (run t es).current ≡ t.current
unfolding run
nested_restores t _ idle = refl
nested_restores t _ (session s port {inner} {rest} w n m) =
    ap (λ (u : Tap). u.current) (run-append (step t (enter s port)) inner (leave s ∷ rest))
    ∙ nested_restores (step (run (step t (enter s port)) inner) (leave s)) rest m
    ∙ original-run (step t (enter s port)) s inner w
    ∙ own_original t s port
