-- ===== src/Gateway/Typing.antt =====
-- What `_read_line` of the Telnet gateway returns for what a client sends.
use serwebs.Prelude.{
  ℕ, ◌≡◌, refl, ap, sym, ◌∙◌, Bool, true, false, List, [], ◌∷◌, ◌++◌, append_assoc, append-nil, ◌⊎◌,
  inl, inr,
}
use serwebs.Gateway.{
  Key, iac, enter, erase, interrupt, plain, telnet_key, Arrival, Line, typed, quit, after, pop,
  echoed, erasing, after_enter, has_option, telnet_read_loop,
}

-- A byte of text, an erased one, a command with an option, or another command.
pub data Stroke : Type 0 where
  letter backspace : Arrival → Stroke
  negotiation : Arrival → Arrival → Arrival → Stroke
  command : Arrival → Arrival → Stroke

abbrev pub IsStroke : Stroke → Type 0
IsStroke (letter a) = telnet_key a.byte ≡ plain
IsStroke (backspace a) = telnet_key a.byte ≡ erase
IsStroke (negotiation a b o) = (telnet_key a.byte ≡ iac) × (has_option b.byte ≡ true)
IsStroke (command a b) = (telnet_key a.byte ≡ iac) × (has_option b.byte ≡ false)

abbrev pub AllStrokes : List Stroke → Type 0
AllStrokes [] = Unit
AllStrokes (s ∷ ss) = IsStroke s × AllStrokes ss

-- What arrives when the strokes are sent before `rest`.
abbrev pub encode : List Stroke → List Arrival → List Arrival
encode [] rest = rest
encode (letter a ∷ ss) rest = a ∷ encode ss rest
encode (backspace a ∷ ss) rest = a ∷ encode ss rest
encode (negotiation a b o ∷ ss) rest = a ∷ b ∷ o ∷ encode ss rest
encode (command a b ∷ ss) rest = a ∷ b ∷ encode ss rest

-- The line that the strokes make of a line.
unfoldable pub edit : List ℕ → List Stroke → List ℕ
edit line [] = line
edit line (letter a ∷ ss) = edit (line ++ a.byte ∷ []) ss
edit line (backspace a ∷ ss) = edit (pop line) ss
edit line (_ ∷ ss) = edit line ss

-- What is echoed meanwhile.
unfoldable pub shown : Bool → List ℕ → List Stroke → List ℕ
shown echo line [] = []
shown echo line (letter a ∷ ss) = echoed echo (a.byte ∷ []) ++ shown echo (line ++ a.byte ∷ []) ss
shown echo line (backspace a ∷ ss) = erasing echo line ++ shown echo (pop line) ss
shown echo line (_ ∷ ss) = shown echo line ss

pub Key-cases :
    (k : Key) → (k ≡ iac) ⊎ ((k ≡ plain) ⊎ ((k ≡ erase) ⊎ ((k ≡ enter) ⊎ (k ≡ interrupt))))
Key-cases iac = inl refl
Key-cases plain = inr (inl refl)
Key-cases erase = inr (inr (inl refl))
Key-cases enter = inr (inr (inr (inl refl)))
Key-cases interrupt = inr (inr (inr (inr refl)))

module _ (echo : Bool) (buf : List ℕ) where
  pub read-plain :
      (a : Arrival) (more : List Arrival)
      → telnet_key a.byte ≡ plain
      → telnet_read_loop echo buf (a ∷ more)
        ≡ after (echoed echo (a.byte ∷ [])) (telnet_read_loop echo (buf ++ a.byte ∷ []) more)
  unfolding telnet_read_loop
  read-plain a [] k = rw (k, telnet_read_loop, append-nil (echoed echo (a.byte ∷ [])))
  read-plain a (b ∷ []) k = rw (k, telnet_read_loop)
  read-plain a (b ∷ c ∷ more) k = rw (k, telnet_read_loop)

  pub read-erase :
      (a : Arrival) (more : List Arrival)
      → telnet_key a.byte ≡ erase
      → telnet_read_loop echo buf (a ∷ more)
        ≡ after (erasing echo buf) (telnet_read_loop echo (pop buf) more)
  unfolding telnet_read_loop
  read-erase a [] k = rw (k, telnet_read_loop, append-nil (erasing echo buf))
  read-erase a (b ∷ []) k = rw (k, telnet_read_loop)
  read-erase a (b ∷ c ∷ more) k = rw (k, telnet_read_loop)

  pub read-negotiation :
      (a b o : Arrival) (more : List Arrival)
      → telnet_key a.byte ≡ iac
      → has_option b.byte ≡ true
      → telnet_read_loop echo buf (a ∷ b ∷ o ∷ more) ≡ telnet_read_loop echo buf more
  unfolding telnet_read_loop
  read-negotiation a b o more k h = rw (k, telnet_read_loop, h)

  pub read-command :
      (a b : Arrival) (more : List Arrival)
      → telnet_key a.byte ≡ iac
      → has_option b.byte ≡ false
      → telnet_read_loop echo buf (a ∷ b ∷ more) ≡ telnet_read_loop echo buf more
  unfolding telnet_read_loop
  read-command a b [] k h = rw (k, telnet_read_loop)
  read-command a b (c ∷ more) k h = rw (k, telnet_read_loop, h)

  pub read-enter :
      (a : Arrival) (more : List Arrival)
      → telnet_key a.byte ≡ enter
      → telnet_read_loop echo buf (a ∷ more)
        ≡ record { line = typed buf; output = 13 ∷ 10 ∷ []; rest = after_enter a.byte more }
  unfolding telnet_read_loop
  read-enter a [] k = rw (k, telnet_read_loop)
  read-enter a (b ∷ []) k = rw (k, telnet_read_loop)
  read-enter a (b ∷ c ∷ more) k = rw (k, telnet_read_loop)

  pub read-interrupt :
      (a : Arrival) (more : List Arrival)
      → telnet_key a.byte ≡ interrupt
      → telnet_read_loop echo buf (a ∷ more) ≡ record { line = quit; output = []; rest = more }
  unfolding telnet_read_loop
  read-interrupt a [] k = rw (k, telnet_read_loop)
  read-interrupt a (b ∷ []) k = rw (k, telnet_read_loop)
  read-interrupt a (b ∷ c ∷ more) k = rw (k, telnet_read_loop)

after-output :
    (xs ys zs : List ℕ) (l : Line) (rest : List Arrival)
    → after xs (record { line = l; output = ys ++ zs; rest = rest })
      ≡ record { line = l; output = (xs ++ ys) ++ zs; rest = rest }
after-output xs ys zs l rest =
    ap (λ (out : List ℕ). record { line = l; output = out; rest = rest })
      (sym (append_assoc xs ys zs))

-- Strokes and an enter, whenever the bytes come, with commands anywhere between them, give the line
-- that the strokes make, and leave what comes after the enter.
pub read_line-encode :
    (echo : Bool) (line : List ℕ) (ss : List Stroke) (e : Arrival) (more : List Arrival)
    → AllStrokes ss
    → telnet_key e.byte ≡ enter
    → telnet_read_loop echo line (encode ss (e ∷ more)) ≡ record {
      line = typed (edit line ss);
      output = shown echo line ss ++ 13 ∷ 10 ∷ [];
      rest = after_enter e.byte more;
    }
unfolding edit shown
read_line-encode echo line [] e more a k = read-enter echo line e more k
read_line-encode echo line (letter c ∷ ss) e more (h, a) k =
    read-plain echo line c (encode ss (e ∷ more)) h
    ∙ ap (after {A = Arrival} (echoed echo (c.byte ∷ [])))
        (read_line-encode echo (line ++ c.byte ∷ []) ss e more a k)
    ∙ after-output (echoed echo (c.byte ∷ [])) (shown echo (line ++ c.byte ∷ []) ss) (13 ∷ 10 ∷ [])
        _ _
read_line-encode echo line (backspace c ∷ ss) e more (h, a) k =
    read-erase echo line c (encode ss (e ∷ more)) h
    ∙ ap (after {A = Arrival} (erasing echo line)) (read_line-encode echo (pop line) ss e more a k)
    ∙ after-output (erasing echo line) (shown echo (pop line) ss) (13 ∷ 10 ∷ []) _ _
read_line-encode echo line (negotiation c d o ∷ ss) e more ((h, i), a) k =
    read-negotiation echo line c d o (encode ss (e ∷ more)) h i
    ∙ read_line-encode echo line ss e more a k
read_line-encode echo line (command c d ∷ ss) e more ((h, i), a) k =
    read-command echo line c d (encode ss (e ∷ more)) h i ∙ read_line-encode echo line ss e more a k
