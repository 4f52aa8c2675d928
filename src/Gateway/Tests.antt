-- ===== src/Gateway/Tests.antt =====
-- The gateways on concrete input.
use serwebs.Prelude.{
  ℕ, eqb, ◌&&◌, if◌then◌else◌, ◌≡◌, refl, String, false, Option, none, some, List, [], ◌∷◌,
}
use serwebs.Models.{PortInfo, free, opened}
use serwebs.Gateway.{Arrival, Number, nonnegative}
use serwebs.Gateway.Typing.{Stroke, letter, backspace, negotiation, command}
use serwebs.Gateway.Strip
use serwebs.Gateway.Strip.{data_before}

abbrev byte : ℕ → Arrival
byte c = record { byte = c; late = false }

-- "hj", erased to "h", a negotiation, a command, "i".
abbrev strokes : List Stroke
strokes =
    letter (byte 104)
    ∷ letter (byte 106)
    ∷ backspace (byte 127)
    ∷ negotiation (byte 255) (byte 253) (byte 1)
    ∷ command (byte 255) (byte 241)
    ∷ letter (byte 105)
    ∷ []

-- Enough of the decoding for this line.
abbrev ascii : List ℕ → String
ascii (c ∷ d ∷ []) = if eqb c 104 && eqb d 105 then "hi" else "�"
ascii bytes = "�"

abbrev items : List Strip.Item
items = Strip.plain_byte 65 ∷ Strip.negotiation 251 3 ∷ Strip.command 255 ∷ Strip.plain_byte 66 ∷ []

-- The third read ends the session.
abbrev reads : List (List Strip.Item)
reads =
    items
    ∷ (Strip.plain_byte 67 ∷ [])
    ∷ (Strip.plain_byte 68 ∷ Strip.plain_byte 29 ∷ [])
    ∷ (Strip.plain_byte 69 ∷ [])
    ∷ []

sent_bytes : data_before reads ≡ 65 ∷ 66 ∷ 67 ∷ []
sent_bytes = refl

abbrev port_a : PortInfo
port_a = record {
  id = "a";
  device = "/dev/a";
  description = "";
  alias = "";
  status = free;
  settings = none;
  clients = 0;
  tags = [];
}

abbrev port_b : PortInfo
port_b = record port_a { id = "b"; status = opened }

abbrev lower : String → String
lower s = s

abbrev to_int : String → Option Number
to_int s = some (nonnegative 1)
