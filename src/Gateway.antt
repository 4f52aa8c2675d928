-- ===== src/Gateway.antt =====
-- The Telnet and SSH gateways (serwebs/telnet_gateway.py, serwebs/ssh_gateway.py): reading a line with
-- echo, choosing a port from the menu, and sending what is typed to the port. Bytes and characters
-- are numbers. The network and the tasks that run side by side are outside: what arrives is a list.
pub mod Typing
pub mod Screen
pub mod Ssh
pub mod Strip
pub mod Menu
mod Tests
use serwebs.Prelude.{
  ℕ, ◌-◌, ◌==◌, String, Bool, true, false, not, ◌&&◌, ◌||◌, Option, none, some, List, [], ◌∷◌, ◌++◌,
  eqb, leb, if◌then◌else◌,
}
use serwebs.Text.{strip}
use serwebs.Models.{PortInfo, PortStatus, opened}

-- What the code tells apart among the bytes that it reads.
pub data Key : Type 0 where
  iac enter erase interrupt plain : Key

unfoldable pub telnet_key : ℕ → Key
telnet_key c =
    if eqb c 255
    then iac
    else if eqb c 13 || eqb c 10
    then enter
    else if eqb c 127 || eqb c 8
    then erase
    else if eqb c 3
    then interrupt
    else plain

unfoldable pub ssh_key : ℕ → Key
ssh_key c =
    if eqb c 13 || eqb c 10
    then enter
    else if eqb c 127 || eqb c 8
    then erase
    else if eqb c 3
    then interrupt
    else plain

-- A byte, and whether it comes more than 0.1 seconds after the call that asks for it.
pub record Arrival : Type 0 where
  pub byte : ℕ
  pub late : Bool

-- How the loop of `_read_line` ends: with what is in the buffer, by Ctrl+C, or at the end of the input.
pub data Line : Type 0 where
  typed : List ℕ → Line
  quit closed : Line

-- The result with what was written to the client and what is left to read.
pub record Read (A : Type 0) : Type 0 where
  pub line : Line
  pub output : List ℕ
  pub rest : List A

-- What was written before comes first.
abbrev pub after : {A : Type 0} → List ℕ → Read A → Read A
after out r = record r { output = out ++ r.output }

unfoldable pub pop : List ℕ → List ℕ
pop [] = []
pop (c ∷ []) = []
pop (c ∷ d ∷ cs) = c ∷ pop (d ∷ cs)

abbrev pub echoed : Bool → List ℕ → List ℕ
echoed echo out = if echo then out else []

abbrev pub is_nil : List ℕ → Bool
is_nil [] = true
is_nil (c ∷ cs) = false

-- "\b \b", when there is something to erase.
abbrev pub erasing : Bool → List ℕ → List ℕ
erasing echo buf = if is_nil buf then [] else echoed echo (8 ∷ 32 ∷ 8 ∷ [])

-- After a CR one byte more is read, if it comes in time.
abbrev pub after_enter : ℕ → List Arrival → List Arrival
after_enter c [] = []
after_enter c (d ∷ rest) = if eqb c 13 && not d.late then rest else d ∷ rest

-- WILL, WONT, DO and DONT are followed by an option.
abbrev pub has_option : ℕ → Bool
has_option c = leb 251 c && leb c 254

-- The loop of the Telnet gateway, from a buffer.
unfoldable pub telnet_read_loop : Bool → List ℕ → List Arrival → Read Arrival
telnet_read_loop echo buf [] = record { line = closed; output = []; rest = [] }
telnet_read_loop echo buf (a ∷ []) = elim (telnet_key a.byte) [
  | iac ↦ record { line = closed; output = []; rest = [] }
  | enter ↦ record { line = typed buf; output = 13 ∷ 10 ∷ []; rest = [] }
  | erase ↦ record { line = closed; output = erasing echo buf; rest = [] }
  | interrupt ↦ record { line = quit; output = []; rest = [] }
  | plain ↦ record { line = closed; output = echoed echo (a.byte ∷ []); rest = [] }
]
telnet_read_loop echo buf (a ∷ b ∷ []) = elim (telnet_key a.byte) [
  | iac ↦ record { line = closed; output = []; rest = [] }
  | enter ↦ record { line = typed buf; output = 13 ∷ 10 ∷ []; rest = after_enter a.byte (b ∷ []) }
  | erase ↦ after (erasing echo buf) (telnet_read_loop echo (pop buf) (b ∷ []))
  | interrupt ↦ record { line = quit; output = []; rest = b ∷ [] }
  | plain ↦ after (echoed echo (a.byte ∷ [])) (telnet_read_loop echo (buf ++ a.byte ∷ []) (b ∷ []))
]
telnet_read_loop echo buf (a ∷ b ∷ c ∷ more) = elim (telnet_key a.byte) [
  | iac ↦ elim (has_option b.byte) [
    | true ↦ telnet_read_loop echo buf more
    | false ↦ telnet_read_loop echo buf (c ∷ more)
  ]
  | enter ↦ record {
    line = typed buf;
    output = 13 ∷ 10 ∷ [];
    rest = after_enter a.byte (b ∷ c ∷ more);
  }
  | erase ↦ after (erasing echo buf) (telnet_read_loop echo (pop buf) (b ∷ c ∷ more))
  | interrupt ↦ record { line = quit; output = []; rest = b ∷ c ∷ more }
  | plain ↦
      after (echoed echo (a.byte ∷ [])) (telnet_read_loop echo (buf ++ a.byte ∷ []) (b ∷ c ∷ more))
]

-- What `_read_line` returns, with what was written to the client and what is left to read. `decode` is
-- `bytes.decode` of Python, for UTF-8 and with what is no UTF-8 replaced.
pub record ReadText (A : Type 0) : Type 0 where
  pub text : String
  pub output : List ℕ
  pub rest : List A

unfoldable pub text_of : (List ℕ → String) → Line → String
text_of decode (typed buf) = decode buf
text_of decode quit = "q"
text_of decode closed = ""

unfoldable pub telnet_read_line : (List ℕ → String) → Bool → List Arrival → ReadText Arrival
unfolding telnet_read_loop text_of
telnet_read_line decode echo arrivals =
    let r : Read Arrival = telnet_read_loop echo [] arrivals in
    record { text = text_of decode r.line; output = r.output; rest = r.rest }

-- The loop of the SSH gateway, which always echoes and knows no commands.
unfoldable pub ssh_read_loop : List ℕ → List ℕ → Read ℕ
ssh_read_loop buf [] = record { line = closed; output = []; rest = [] }
ssh_read_loop buf (c ∷ cs) = elim (ssh_key c) [
  | iac ↦ after (c ∷ []) (ssh_read_loop (buf ++ c ∷ []) cs)
  | enter ↦ record { line = typed buf; output = 13 ∷ 10 ∷ []; rest = cs }
  | erase ↦ after (erasing true buf) (ssh_read_loop (pop buf) cs)
  | interrupt ↦ record { line = quit; output = []; rest = cs }
  | plain ↦ after (c ∷ []) (ssh_read_loop (buf ++ c ∷ []) cs)
]

-- The characters need no decoding; `join` makes them a text.
unfoldable pub ssh_read_line : (List ℕ → String) → List ℕ → ReadText ℕ
unfolding ssh_read_loop text_of
ssh_read_line join characters =
    let r : Read ℕ = ssh_read_loop [] characters in
    record { text = text_of join r.line; output = r.output; rest = r.rest }

-- The Telnet commands taken out of what one read gave.
unfoldable pub strip_iac : List ℕ → List ℕ
strip_iac [] = []
strip_iac (a ∷ []) = a ∷ []
strip_iac (a ∷ b ∷ []) = elim (eqb a 255) [ true ↦ [] | false ↦ a ∷ strip_iac (b ∷ []) ]
strip_iac (a ∷ b ∷ c ∷ data') = elim (eqb a 255) [
  | true ↦ elim (has_option b) [ true ↦ strip_iac data' | false ↦ strip_iac (c ∷ data') ]
  | false ↦ a ∷ strip_iac (b ∷ c ∷ data')
]

abbrev pub contains : ℕ → List ℕ → Bool
contains n [] = false
contains n (c ∷ cs) = if eqb c n then true else contains n cs

-- The loops of `tx_task` over the reads that end with data or with the end of the input (an empty
-- read): what is passed to the worker's `write`, in order. Ctrl+] ends it.
unfoldable pub telnet_tx : Bool → List (List ℕ) → List (List ℕ)
unfolding strip_iac
telnet_tx is_viewer [] = []
telnet_tx is_viewer (read ∷ reads) =
    let rest = telnet_tx is_viewer reads in
    let clean : List ℕ = strip_iac read in
    if is_nil read || contains 29 read
    then []
    else if not (is_nil clean) && not is_viewer
    then clean ∷ rest
    else rest

unfoldable pub ssh_tx : Bool → List (List ℕ) → List (List ℕ)
ssh_tx is_viewer [] = []
ssh_tx is_viewer (read ∷ reads) =
    let rest = ssh_tx is_viewer reads in
    if is_nil read || contains 29 read then [] else if not is_viewer then read ∷ rest else rest

abbrev pub is_open : PortStatus → Bool
is_open opened = true
is_open _ = false

-- The ports that the menu shows, in order.
unfoldable pub open_ports : List PortInfo → List PortInfo
open_ports [] = []
open_ports (p ∷ ps) = let rest = open_ports ps in if is_open p.status then p ∷ rest else rest

pub data Choice : Type 0 where
  waiting timed_out leave invalid_selection invalid_input : Choice
  selected : PortInfo → Choice

-- `none` is the ValueError of `int`; a negative number is a sign and its size.
pub data Number : Type 0 where
  nonnegative : ℕ → Number
  negative : ℕ → Number

abbrev pub get_index : List PortInfo → ℕ → Choice
get_index [] n = invalid_selection
get_index (p ∷ ps) n = elim (eqb n 0) [ true ↦ selected p | false ↦ get_index ps (n - 1) ]

abbrev pub pick : List PortInfo → Option Number → Choice
pick ports none = invalid_input
pick ports (some (negative n)) = invalid_selection
pick ports (some (nonnegative n)) = if eqb n 0 then invalid_selection else get_index ports (n - 1)

abbrev pub is_empty : List PortInfo → Bool
is_empty [] = true
is_empty (p ∷ ps) = false

-- One round of the menu. `line` is the answer, `none` when none comes in time; `lower` and `to_int` are
-- Python's.
unfoldable pub choose :
    (String → String) → (String → Option Number) → List PortInfo → Option String → Choice
choose lower to_int ps line =
    let ports : List PortInfo = open_ports ps in
    if is_empty ports then waiting else elim line [
      | none ↦ timed_out
      | some answer ↦
          if lower (strip answer) == "q" then leave else pick ports (to_int (strip answer))
    ]
