-- ===== src/Text.antt =====
-- The string methods of Python that the program uses: `strip`, `rstrip("/")`, and truth of a text.
pub mod Laws
use Prim.Native.Char.{Char, code}
use Prim.Native.String.{count, ◌++◌ as append}
use text.Mathlib.Text.{starts_with}
use serwebs.Prelude.{
  List, [], ◌∷◌, ℕ, zero, suc, ◌-◌, String, Bool, true, false, ◌&&◌, ◌||◌, ◌==◌, not, leb, eqb,
  if◌then◌else◌,
}

-- `bool(s)`
abbrev pub is_true : String → Bool
is_true s = not (s == "")

-- A character is kept if one after it is kept, or if it does not pass the test.
unfoldable pub before : (Char → Bool) → Char → String → String
before p c String.[] = if p c then String.[] else String.◌∷◌ c String.[]
before p c (String.◌∷◌ d s) = String.◌∷◌ c (String.◌∷◌ d s)

unfoldable pub rstrip : (Char → Bool) → String → String
unfolding before
rstrip p String.[] = String.[]
rstrip p (String.◌∷◌ c s) = before p c (rstrip p s)

unfoldable pub lstrip : (Char → Bool) → String → String
lstrip p String.[] = String.[]
lstrip p (String.◌∷◌ c s) = if p c then lstrip p s else String.◌∷◌ c s

abbrev between : ℕ → ℕ → ℕ → Bool
between a b c = leb a c && leb c b

-- `str.isspace` of one character.
unfoldable pub is_space : Char → Bool
is_space c =
    between 9 13 (code c)
    || (between 28 32 (code c)
        || (eqb (code c) 133
            || (eqb (code c) 160
                || (eqb (code c) 5760
                    || (between 8192 8202 (code c)
                        || (between 8232 8233 (code c)
                            || (eqb (code c) 8239
                                || (eqb (code c) 8287 || eqb (code c) 12288))))))))

unfoldable pub is_slash : Char → Bool
is_slash c = eqb (code c) b'/'

-- `s.strip()`
unfoldable pub strip : String → String
unfolding is_space rstrip lstrip
strip s = lstrip is_space (rstrip is_space s)

-- `s.rstrip("/")`
unfoldable pub rstrip_slash : String → String
unfolding is_slash rstrip
rstrip_slash s = rstrip is_slash s

-- `s.replace(old, "")`; the number says how much of an occurrence is still to be skipped.
unfoldable pub without_from : String → ℕ → String → String
without_from old k String.[] = String.[]
without_from old zero (String.◌∷◌ c s) =
    if starts_with (String.◌∷◌ c s) old
    then without_from old (count old - 1) s
    else String.◌∷◌ c (without_from old 0 s)
without_from old (suc k) (String.◌∷◌ c s) = without_from old k s

unfoldable pub without : String → String → String
unfolding without_from
without old s = without_from old 0 s

-- The pieces of an f-string.
unfoldable pub concat : List String → String
concat [] = ""
concat (s ∷ pieces) = append s (concat pieces)
