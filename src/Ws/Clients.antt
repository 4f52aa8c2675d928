-- ===== src/Ws/Clients.antt =====
-- The list of clients: dropping the dead ones leaves exactly the live ones, in order.
use serwebs.Prelude.{
  ℕ, ◌≡◌, refl, ap, Bool, true, false, List, [], ◌∷◌, map, arith, keep, eqb, eqb_iff, ◌∙◌,
  Bool-cases, inl, inr,
}
use serwebs.Wire.{Message, send}
use serwebs.Ws.{is_in, remove, send_each, remove_dead}

abbrev pub AllDead : (ℕ → Bool) → List ℕ → Type 0
AllDead alive [] = Unit
AllDead alive (d ∷ ds) = (alive d ≡ false) × AllDead alive ds

-- A live head stays where it is.
remove_dead-live :
    (alive : ℕ → Bool) (c : ℕ) (ds cs : List ℕ)
    → alive c ≡ true
    → AllDead alive ds
    → remove_dead ds (c ∷ cs) ≡ c ∷ remove_dead ds cs
unfolding remove_dead
remove_dead-live alive c [] cs l d = refl
remove_dead-live alive c (x ∷ ds) cs l d = elim (Bool-cases (is_in x cs)) [
  | inl e ↦ rw (differ, e) (remove_dead-live alive c ds (remove x cs) l d.1)
  | inr e ↦ rw (differ, e) (remove_dead-live alive c ds cs l d.1)
]
  where
    differ : eqb c x ≡ false
    differ = ground (arith, eqb_iff c x, ap alive)

send_each-AllDead :
    (alive : ℕ → Bool) (msg : Message) (cs : List ℕ) → AllDead alive (send_each alive msg cs).1
unfolding send_each
send_each-AllDead alive msg [] = tt
send_each-AllDead alive msg (c ∷ cs) = ground (arith, send_each-AllDead alive msg cs)

-- The message reaches the live clients, in order.
pub sent-keep :
    (alive : ℕ → Bool) (msg : Message) (cs : List ℕ)
    → (send_each alive msg cs).0 ≡ map (λ c. send c msg) (keep alive cs)
unfolding send_each
sent-keep alive msg [] = refl
sent-keep alive msg (c ∷ cs) = elim (Bool-cases (alive c)) [
  | inl e ↦ rw e (ap (◌∷◌ (send c msg)) (sent-keep alive msg cs))
  | inr e ↦ rw e (sent-keep alive msg cs)
]

drop_dead : (c : ℕ) (ds cs : List ℕ) → remove_dead (c ∷ ds) (c ∷ cs) ≡ remove_dead ds cs
unfolding remove_dead
drop_dead c ds cs = ground arith

-- Dropping the clients whose send failed leaves exactly the live ones, in order.
pub remove_dead-keep :
    (alive : ℕ → Bool) (msg : Message) (cs : List ℕ)
    → remove_dead (send_each alive msg cs).1 cs ≡ keep alive cs
unfolding send_each
remove_dead-keep alive msg [] = unfold remove_dead in refl
remove_dead-keep alive msg (c ∷ cs) = elim (Bool-cases (alive c)) [
  | inl e ↦ rw e (
      remove_dead-live alive c (send_each alive msg cs).1 cs e (send_each-AllDead alive msg cs)
      ∙ ap (◌∷◌ c) (remove_dead-keep alive msg cs))
  | inr e ↦ rw e (drop_dead c (send_each alive msg cs).1 cs ∙ remove_dead-keep alive msg cs)
]
