-- ===== src/Gateway/Screen.antt =====
-- What a client sees while a line is read.
use serwebs.Prelude.{
  ℕ, ◌≤◌, ◌<◌, ◌≡◌, refl, subst, ap, sym, ◌∙◌, true, false, List, [], ◌∷◌, ◌++◌, Bool-cases, ◌⊎◌,
  inl, inr, eqb,
}
use serwebs.Gateway.{
  iac, erase, telnet_key, Arrival, Read, after, pop, erasing, has_option, telnet_read_loop,
}
use serwebs.Gateway.Typing.{
  Key-cases, Stroke, letter, backspace, negotiation, command, read-plain, read-erase, read-enter,
  read-interrupt, read-negotiation, read-command,
}

-- The text left of the cursor of a terminal that goes back on 8 and puts any other byte in a cell.
unfoldable pub display : List ℕ → List ℕ → List ℕ
unfolding pop
display text [] = text
display text (c ∷ out) = elim (eqb c 8) [
  | true ↦ display (pop text) out
  | false ↦ display (text ++ c ∷ []) out
]

-- Letters of one byte that take one cell: printable ASCII.
abbrev pub AllPrintable : List Stroke → Type 0
AllPrintable [] = Unit
AllPrintable (letter c ∷ ss) = (32 ≤ c.byte) × (c.byte < 127) × AllPrintable ss
AllPrintable (backspace c ∷ ss) = (telnet_key c.byte ≡ erase) × AllPrintable ss
AllPrintable (negotiation c d o ∷ ss) =
    (telnet_key c.byte ≡ iac) × (has_option d.byte ≡ true) × AllPrintable ss
AllPrintable (command c d ∷ ss) =
    (telnet_key c.byte ≡ iac) × (has_option d.byte ≡ false) × AllPrintable ss

abbrev IsQuiet : Read Arrival → Type 0
IsQuiet r = (r.output ≡ []) ⊎ (r.output ≡ 13 ∷ 10 ∷ [])

erasing-quiet : (buf : List ℕ) → erasing false buf ≡ []
erasing-quiet [] = refl
erasing-quiet (c ∷ buf) = refl

-- A byte that starts no command keeps the rest quiet.
IsQuiet-cons :
    (buf : List ℕ) (a : Arrival) (more : List Arrival)
    → ((b : List ℕ) → IsQuiet (telnet_read_loop false b more))
    → IsQuiet (telnet_read_loop false buf (a ∷ more)) ⊎ (telnet_key a.byte ≡ iac)
IsQuiet-cons buf a more q = elim (Key-cases (telnet_key a.byte)) [
  | inl k ↦ inr k
  | inr (inl k) ↦ inl (subst IsQuiet (sym (read-plain false buf a more k)) (q (buf ++ a.byte ∷ [])))
  | inr (inr (inl k)) ↦ inl (
      subst IsQuiet
        (sym (
          read-erase false buf a more k
          ∙ ap (λ out. after out (telnet_read_loop false (pop buf) more)) (erasing-quiet buf)))
        (q (pop buf)))
  | inr (inr (inr (inl k))) ↦ inl (inr (ap (λ r. r.output) (read-enter false buf a more k)))
  | inr (inr (inr (inr k))) ↦ inl (inl (ap (λ r. r.output) (read-interrupt false buf a more k)))
]

-- Without echo, whatever is sent, nothing is written to the client but at most one new line.
pub password_hidden :
    (buf : List ℕ) (arrivals : List Arrival)
    → ((telnet_read_loop false buf arrivals).output ≡ [])
      ⊎ ((telnet_read_loop false buf arrivals).output ≡ 13 ∷ 10 ∷ [])
unfolding telnet_read_loop
password_hidden buf [] = inl refl
password_hidden buf (a ∷ []) = elim (IsQuiet-cons buf a [] (λ b. inl refl)) [
  | inl q ↦ q
  | inr k ↦ inl (rw (k, telnet_read_loop))
]
password_hidden buf (a ∷ b ∷ []) =
    elim (IsQuiet-cons buf a (b ∷ []) (λ c. password_hidden c (b ∷ []))) [
      | inl q ↦ q
      | inr k ↦ inl (rw (k, telnet_read_loop))
    ]
password_hidden buf (a ∷ b ∷ c ∷ more) =
    elim (IsQuiet-cons buf a (b ∷ c ∷ more) (λ d. password_hidden d (b ∷ c ∷ more))) [
      | inl q ↦ q
      | inr k ↦ elim (Bool-cases (has_option b.byte)) [
        | inl o ↦
            subst IsQuiet (sym (read-negotiation false buf a b c more k o))
              (password_hidden buf more)
        | inr o ↦
            subst IsQuiet (sym (read-command false buf a b (c ∷ more) k o))
              (password_hidden buf (c ∷ more))
      ]
    ]
