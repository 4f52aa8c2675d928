-- ===== src/Login/Tests.antt =====
-- A login, with tokens that spell out the name and the role.
use Prim.Native.Char.{Char, code}
use text.Mathlib.TextLemmas.{nil≢cons}
use serwebs.Prelude.{
  ℕ, zero, suc, Bool, leb, arith, ◌∙◌, ◌≡◌, ◌≢◌, refl, sym, ap, String, true, false, ◌==◌, Option,
  none, some, [], ◌∷◌, eqb, if◌then◌else◌,
}
use serwebs.Roles.{User}
use serwebs.Auth.{ok, AuthConfig, Services, authenticate_user, local_user}
use serwebs.Identity.{validate_oidc_token}
use serwebs.Login.{access_token, login, oidc_exchange, Payload, Jwt, create_access_token}
use serwebs.Login.Tokens.{IsJwt, IsGood, token-IsGood}

-- An "x" before each letter of the name, and a "." before the role.
abbrev spell : String → String → String
spell String.[] role = String.◌∷◌ "." role
spell (String.◌∷◌ c s) role = String.◌∷◌ "x" (String.◌∷◌ c (spell s role))

abbrev Named : Type 0
Named = String × String

abbrev prepend : Char → Option Named → Option Named
prepend c none = none
prepend c (some (s, r)) = some (String.◌∷◌ c s, r)

abbrev read : String → Option Named
read String.[] = none
read (String.◌∷◌ c String.[]) = if eqb (code c) 46 then some ("", "") else none
read (String.◌∷◌ c (String.◌∷◌ d s)) = elim (eqb (code c) 46) [
  | true ↦ some ("", String.◌∷◌ d s)
  | false ↦ prepend d (read s)
]

read-spell : (s r : String) → read (spell s r) ≡ some (s, r)
read-spell String.[] String.[] = refl
read-spell String.[] (String.◌∷◌ d r) = refl
read-spell (String.◌∷◌ c s) r = ap (prepend c) (read-spell s r)

-- A number as so many "e"s and a "-", before the rest.
abbrev tally : ℕ → String → String
tally zero s = String.◌∷◌ "-" s
tally (suc n) s = String.◌∷◌ "e" (tally n s)

abbrev more : ℕ × String → ℕ × String
more (n, s) = (suc n, s)

abbrev untally : String → ℕ × String
untally String.[] = (0, "")
untally (String.◌∷◌ c s) = elim (eqb (code c) 101) [ true ↦ more (untally s) | false ↦ (0, s) ]

untally-tally : (n : ℕ) (s : String) → untally (tally n s) ≡ (n, s)
untally-tally zero s = refl
untally-tally (suc n) s = ap more (untally-tally n s)

tally-full : (n : ℕ) (s : String) → tally n s ≢ ""
tally-full zero s h = nil≢cons (sym h)
tally-full (suc n) s h = nil≢cons (sym h)

abbrev in_time : Bool → ℕ → Option Named → Option Payload
in_time true exp (some (s, r)) = some (record { sub = s; role = r; exp = exp })
in_time _ exp _ = none

abbrev decoded : ℕ → ℕ × String → Option Payload
decoded now (exp, s) = in_time (leb now exp) exp (read s)

abbrev unary : Jwt
unary = record {
  encode = λ p. tally p.exp (spell p.sub p.role);
  decode = λ now token. decoded now (untally token);
}

abbrev config : AuthConfig
config = record {
  users = record { username = "al"; password_hash = "pw"; role = "user" } ∷ [];
  runtime_users = [];
  ldap = record {
    enabled = false;
    has_groups = false;
    admin_groups = [];
    viewer_groups = [];
    default_role = "viewer";
  };
  radius = record {
    enabled = false;
    admin_filter_id = "";
    viewer_filter_id = "";
    default_role = "user";
  };
  tacacs = record {
    enabled = false;
    admin_priv_lvl = 15;
    viewer_priv_lvl = 0;
    default_role = "user";
  };
  oidc = record { enabled = false; admin_groups = []; viewer_groups = []; default_role = "user" };
}

abbrev services : Services
services = record {
  verify = λ password hash. ok (password == hash);
  ldap_search = λ username. none;
  ldap_bind = λ dn password. false;
  ldap_groups = λ dn. none;
  radius = λ username password. none;
  tacacs = λ username password. false;
  tacacs_arguments = λ username. [];
  decode_token = λ token. none;
  kid_of = λ token. none;
  provider_keys = none;
  decode_oidc = λ kid token. none;
}

unary-decodes :
    (now : ℕ) (p : Payload)
    → unary.decode now (unary.encode p) ≡ in_time (leb now p.exp) p.exp (some (p.sub, p.role))
unary-decodes now p =
    ap (decoded now) (untally-tally p.exp (spell p.sub p.role))
    ∙ ap (in_time (leb now p.exp) p.exp) (read-spell p.sub p.role)

unary-IsJwt : IsJwt unary
unary-IsJwt = record {
  not_empty = λ p. tally-full p.exp (spell p.sub p.role);
  alive = λ now p h.
      unary-decodes now p ∙ (let due : leb now p.exp ≡ true = ground (arith, h) in rw due refl);
  expired = λ now p h.
      unary-decodes now p ∙ (let due : leb now p.exp ≡ false = ground (arith, h) in rw due refl);
}

-- A token that is good for a minute.
abbrev al_token : String
al_token = unary.encode (record { sub = "al"; role = "user"; exp = 60 })

gives_token : (login config services unary 1 0 "al" "pw").0 ≡ access_token al_token
unfolding login authenticate_user local_user create_access_token
gives_token = refl

token-IsGood_example :
    ((login config services unary 1 0 "al" "pw").0 ≡ access_token al_token
      → (user : User) × ((authenticate_user config services "al" "pw" ≡ ok (some user))
          × IsGood config services unary 1 0 unary-IsJwt al_token user))
    × ((oidc_exchange config services unary 1 0 "").0 ≡ access_token al_token
        → (user : User) × ((validate_oidc_token config services "" ≡ some user)
            × IsGood config services unary 1 0 unary-IsJwt al_token user))
token-IsGood_example = token-IsGood config services unary 1 0 unary-IsJwt "al" "pw" "" al_token
