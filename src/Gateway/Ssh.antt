-- ===== src/Gateway/Ssh.antt =====
-- The SSH gateway reads lines as the Telnet gateway does.
use serwebs.Prelude.{ℕ, ◌≡◌, refl, ap, ◌∙◌, true, false, List, [], ◌∷◌, ◌++◌, inl, inr, eqb, arith}
use serwebs.Gateway.{
  iac, telnet_key, ssh_key, Arrival, Read, after, pop, erasing, after_enter, telnet_read_loop,
  ssh_read_loop,
}
use serwebs.Gateway.Typing.{Key-cases, read-plain, read-erase, read-enter, read-interrupt}

abbrev pub in_time : List ℕ → List Arrival
in_time [] = []
in_time (c ∷ cs) = record { byte = c; late = false } ∷ in_time cs

-- No byte that starts a Telnet command, and no CR.
abbrev pub IsText : List ℕ → Type 0
IsText [] = Unit
IsText (c ∷ cs) = (eqb c 255 ≡ false) × (eqb c 13 ≡ false) × IsText cs

abbrev pub arrived : Read ℕ → Read Arrival
arrived r = record { line = r.line; output = r.output; rest = in_time r.rest }

ssh_key-telnet_key : (c : ℕ) → eqb c 255 ≡ false → telnet_key c ≡ ssh_key c
unfolding telnet_key ssh_key
ssh_key-telnet_key c h = rw h

ssh_key-iac : (c : ℕ) → ¬ (ssh_key c ≡ iac)
unfolding ssh_key
ssh_key-iac c h = ground (arith, h)

after_enter-in_time :
    (c : ℕ) (cs : List ℕ) → eqb c 13 ≡ false → after_enter c (in_time cs) ≡ in_time cs
after_enter-in_time c [] h = refl
after_enter-in_time c (d ∷ cs) h = rw h

-- On text without Telnet commands and without CR, the two gateways read the same line, write the same
-- to the client and leave the same text.
pub ssh_agrees :
    (buf cs : List ℕ)
    → IsText cs
    → telnet_read_loop true buf (in_time cs) ≡ arrived (ssh_read_loop buf cs)
unfolding ssh_read_loop telnet_read_loop
ssh_agrees buf [] t = refl
ssh_agrees buf (c ∷ cs) (h, n, t) =
    let a : Arrival = record { byte = c; late = false } in
    let same = ssh_key-telnet_key c h in
    elim (Key-cases (ssh_key c)) [
      | inl k ↦ absurd (ssh_key-iac c k)
      | inr (inl k) ↦
          read-plain true buf a (in_time cs) (same ∙ k)
          ∙ ap (after {A = Arrival} (c ∷ [])) (ssh_agrees (buf ++ c ∷ []) cs t)
          ∙ rw (k, ssh_read_loop)
      | inr (inr (inl k)) ↦
          read-erase true buf a (in_time cs) (same ∙ k)
          ∙ ap (after {A = Arrival} (erasing true buf)) (ssh_agrees (pop buf) cs t)
          ∙ rw (k, ssh_read_loop)
      | inr (inr (inr (inl k))) ↦
          read-enter true buf a (in_time cs) (same ∙ k)
          ∙ rw (k, ssh_read_loop, after_enter-in_time c cs n)
      | inr (inr (inr (inr k))) ↦
          read-interrupt true buf a (in_time cs) (same ∙ k) ∙ rw (k, ssh_read_loop)
    ]
