-- ===== src/Gateway/Strip.antt =====
-- What of a read reaches the port.
use serwebs.Prelude.{
  ℕ, ◌≡◌, refl, ap, sym, ◌∙◌, true, false, not, List, [], ◌∷◌, ◌++◌, eqb, if◌then◌else◌, ◌||◌,
  subst, Bool-cases, inl, inr,
}
use serwebs.Gateway.{strip_iac, telnet_tx, ssh_tx, contains, has_option, is_nil}

-- What a Telnet client sends: a byte of data, a command with an option, or another command.
pub data Item : Type 0 where
  plain_byte : ℕ → Item
  negotiation : ℕ → ℕ → Item
  command : ℕ → Item

abbrev pub IsItem : Item → Type 0
IsItem (plain_byte c) = eqb c 255 ≡ false
IsItem (negotiation c o) = has_option c ≡ true
IsItem (command c) = has_option c ≡ false

abbrev pub AllItems : List Item → Type 0
AllItems [] = Unit
AllItems (i ∷ is) = IsItem i × AllItems is

abbrev pub encode : List Item → List ℕ
encode [] = []
encode (plain_byte c ∷ is) = c ∷ encode is
encode (negotiation c o ∷ is) = 255 ∷ c ∷ o ∷ encode is
encode (command c ∷ is) = 255 ∷ c ∷ encode is

abbrev pub data_of : List Item → List ℕ
data_of [] = []
data_of (plain_byte c ∷ is) = c ∷ data_of is
data_of (_ ∷ is) = data_of is

strip-plain : (c : ℕ) (cs : List ℕ) → eqb c 255 ≡ false → strip_iac (c ∷ cs) ≡ c ∷ strip_iac cs
unfolding strip_iac
strip-plain c [] h = refl
strip-plain c (d ∷ []) h = rw (h, strip_iac)
strip-plain c (d ∷ e ∷ cs) h = rw (h, strip_iac)

strip-command :
    (a c : ℕ) (cs : List ℕ)
    → eqb a 255 ≡ true
    → has_option c ≡ false
    → strip_iac (a ∷ c ∷ cs) ≡ strip_iac cs
unfolding strip_iac
strip-command a c [] e h = rw (e, strip_iac)
strip-command a c (d ∷ cs) e h = rw (e, h, strip_iac)

strip-negotiation :
    (a c o : ℕ) (cs : List ℕ)
    → eqb a 255 ≡ true
    → has_option c ≡ true
    → strip_iac (a ∷ c ∷ o ∷ cs) ≡ strip_iac cs
unfolding strip_iac
strip-negotiation a c o cs e h = rw (e, h, strip_iac)

-- Of a read that holds whole Telnet commands, exactly the data between them is kept, in order.
pub strip-encode : (is : List Item) → AllItems is → strip_iac (encode is) ≡ data_of is
unfolding strip_iac
strip-encode [] a = refl
strip-encode (plain_byte c ∷ is) (h, a) =
    strip-plain c (encode is) h ∙ ap (λ cs. c ∷ cs) (strip-encode is a)
strip-encode (negotiation c o ∷ is) (h, a) =
    strip-negotiation 255 c o (encode is) refl h ∙ strip-encode is a
strip-encode (command c ∷ is) (h, a) = strip-command 255 c (encode is) refl h ∙ strip-encode is a

-- No byte but the last of a list is the one that starts a command.
abbrev pub IsClean : List ℕ → Type 0
IsClean [] = Unit
IsClean (c ∷ []) = Unit
IsClean (c ∷ d ∷ cs) = (eqb c 255 ≡ false) × IsClean (d ∷ cs)

IsClean-cons : (c : ℕ) (cs : List ℕ) → eqb c 255 ≡ false → IsClean cs → IsClean (c ∷ cs)
IsClean-cons c [] h a = tt
IsClean-cons c (d ∷ cs) h a = (h, a)

-- Whatever is read, a byte 255 reaches the port only as the last one of a read.
pub strip-IsClean : (cs : List ℕ) → IsClean (strip_iac cs)
unfolding strip_iac
strip-IsClean [] = tt
strip-IsClean (a ∷ []) = tt
strip-IsClean (a ∷ b ∷ []) = elim (Bool-cases (eqb a 255)) [
  | inl e ↦ subst (λ x. IsClean x) {x = []} (rw (e, strip_iac)) tt
  | inr e ↦ subst IsClean (sym (strip-plain a (b ∷ []) e)) (IsClean-cons a (b ∷ []) e tt)
]
strip-IsClean (a ∷ b ∷ c ∷ cs) = elim (Bool-cases (eqb a 255)) [
  | inl e ↦ elim (Bool-cases (has_option b)) [
    | inl o ↦ subst IsClean (sym (strip-negotiation a b c cs e o)) (strip-IsClean cs)
    | inr o ↦ subst IsClean (sym (strip-command a b (c ∷ cs) e o)) (strip-IsClean (c ∷ cs))
  ]
  | inr e ↦
      subst IsClean (sym (strip-plain a (b ∷ c ∷ cs) e))
        (IsClean-cons a (strip_iac (b ∷ c ∷ cs)) e (strip-IsClean (b ∷ c ∷ cs)))
]

pub viewer_writes : (reads : List (List ℕ)) → (telnet_tx true reads ≡ []) × (ssh_tx true reads ≡ [])
unfolding telnet_tx ssh_tx
viewer_writes [] = (refl, refl)
viewer_writes (r ∷ rs) =
    let (t, s) = viewer_writes rs in
    elim (Bool-cases (is_nil r || contains 29 r)) [
      | inl e ↦ (rw (e, telnet_tx), rw (e, ssh_tx))
      | inr e ↦ elim (Bool-cases (not (is_nil (strip_iac r)))) [
        | inl f ↦ (rw (e, f, telnet_tx) t, rw (e, ssh_tx) s)
        | inr f ↦ (rw (e, f, telnet_tx) t, rw (e, ssh_tx) s)
      ]
    ]

abbrev pub join : List (List ℕ) → List ℕ
join [] = []
join (cs ∷ css) = cs ++ join css

-- The reads before the one that ends the session.
abbrev pub sent_reads : List (List ℕ) → List (List ℕ)
sent_reads [] = []
sent_reads (r ∷ rs) =
    let rest = sent_reads rs in if is_nil r then [] else if contains 29 r then [] else r ∷ rest

abbrev pub all_stripped : List (List ℕ) → List (List ℕ)
all_stripped [] = []
all_stripped (r ∷ rs) = strip_iac r ∷ all_stripped rs

abbrev pub AllReads : List (List Item) → Type 0
AllReads [] = Unit
AllReads (is ∷ iss) = AllItems is × AllReads iss

abbrev pub encodes : List (List Item) → List (List ℕ)
encodes [] = []
encodes (is ∷ iss) = encode is ∷ encodes iss

-- The data of the reads before the one that ends the session: an empty one, or one with Ctrl+].
abbrev pub data_before : List (List Item) → List ℕ
data_before [] = []
data_before (is ∷ iss) =
    let rest = data_before iss in
    if is_nil (encode is) then [] else if contains 29 (encode is) then [] else data_of is ++ rest
