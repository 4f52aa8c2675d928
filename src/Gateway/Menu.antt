-- ===== src/Gateway/Menu.antt =====
-- The choice of a port.
use serwebs.Prelude.{
  ℕ, ◌+◌, ◌-◌, ◌≡◌, refl, ap, subst, String, true, Option, none, some, List, [], ◌∷◌, ◌++◌, inl,
  inr, eqb, length, arith, Bool-cases,
}
use serwebs.Text.{strip}
use serwebs.Models.{PortInfo}
use serwebs.Gateway.{
  open_ports, is_open, selected, Number, negative, nonnegative, get_index, pick, choose,
}

abbrev pub StandsAt : List PortInfo → ℕ → PortInfo → Type 0
StandsAt ports n p =
    (before : List PortInfo) × ((behind : List PortInfo) × ((ports ≡ before ++ p ∷ behind)
        × (length before ≡ n)))

index-StandsAt :
    (ports : List PortInfo) (n : ℕ) (p : PortInfo)
    → get_index ports n ≡ selected p
    → StandsAt ports n p
index-StandsAt [] n p h = ground (arith, h)
index-StandsAt (q ∷ ports) n p h = elim (Bool-cases (eqb n 0)) [
  | inl e ↦
      let same : q ≡ p = ground (arith, h, e) in
      ([], (ports, (ap (λ (x : PortInfo). x ∷ ports) same, ground (arith, e))))
  | inr e ↦
      let (before, (behind, (same, len))) = index-StandsAt ports (n - 1) p (ground (arith, h, e)) in
      (q ∷ before, (behind, (ap (λ ps. q ∷ ps) same, ground (arith, len, e))))
]

pick-StandsAt :
    (ports : List PortInfo) (number : Option Number) (p : PortInfo)
    → pick ports number ≡ selected p
    → (n : ℕ) × ((number ≡ some (nonnegative (n + 1))) × StandsAt ports n p)
pick-StandsAt ports none p h = ground (arith, h)
pick-StandsAt ports (some (negative n)) p h = ground (arith, h)
pick-StandsAt ports (some (nonnegative n)) p h =
    (n - 1, (ground (arith, h), index-StandsAt ports (n - 1) p (ground (arith, h))))

abbrev AllOpen : List PortInfo → Type 0
AllOpen [] = Unit
AllOpen (p ∷ ps) = (is_open p.status ≡ true) × AllOpen ps

open_ports-AllOpen : (ps : List PortInfo) → AllOpen (open_ports ps)
unfolding open_ports
open_ports-AllOpen [] = tt
open_ports-AllOpen (p ∷ ps) = elim (Bool-cases (is_open p.status)) [
  | inl e ↦ subst AllOpen {x = p ∷ open_ports ps} (rw (e, open_ports)) (e, open_ports-AllOpen ps)
  | inr e ↦ subst AllOpen {x = open_ports ps} (rw (e, open_ports)) (open_ports-AllOpen ps)
]

AllOpen-behind :
    (before behind : List PortInfo) (p : PortInfo)
    → AllOpen (before ++ p ∷ behind)
    → is_open p.status ≡ true
AllOpen-behind [] behind p (o, a) = o
AllOpen-behind (q ∷ before) behind p (o, a) = AllOpen-behind before behind p a

no_answer :
    (lower : String → String) (to_int : String → Option Number) (ps : List PortInfo) (p : PortInfo)
    → ¬ (choose lower to_int ps none ≡ selected p)
unfolding choose
no_answer lower to_int ps p h = ground (arith, h)

-- A port that the menu gives is open, and the number that was typed is its place, from 1, in the list
-- of the open ports that was shown.
pub choose-StandsAt :
    (lower : String → String) (to_int : String → Option Number) (ps : List PortInfo)
    (line : Option String) (p : PortInfo)
    → choose lower to_int ps line ≡ selected p
    → (is_open p.status ≡ true)
      × ((n : ℕ) × ((answer : String) × ((line ≡ some answer)
              × (to_int (strip answer) ≡ some (nonnegative (n + 1)))
              × StandsAt (open_ports ps) n p)))
unfolding choose
choose-StandsAt lower to_int ps none p h = absurd (no_answer lower to_int ps p h)
choose-StandsAt lower to_int ps (some answer) p h =
    let picked : pick (open_ports ps) (to_int (strip answer)) ≡ selected p = ground (arith, h) in
    let (n, (number, (before, (behind, (same, len))))) =
      pick-StandsAt (open_ports ps) (to_int (strip answer)) p picked in
    (
      AllOpen-behind before behind p (subst AllOpen same (open_ports-AllOpen ps)),
      (n, (answer, (refl, number, (before, (behind, (same, len)))))),
    )
