-- ===== src/Text/Laws.antt =====
-- Stripping a text twice does what stripping it once does.
use Prim.Native.Char.{Char}
use text.Mathlib.TextLemmas.{nil≢cons, tail-eq_of_cons-eq}
use serwebs.Prelude.{String, ◌≡◌, refl, ap, ◌∙◌, Bool, inl, inr, Bool-cases}
use serwebs.Text.{before, rstrip, lstrip, strip, is_space}

before_keeps :
    (p : Char → Bool) (c : Char) (r : String)
    → rstrip p r ≡ r
    → rstrip p (before p c r) ≡ before p c r
unfolding rstrip before
before_keeps p c String.[] h = elim (Bool-cases (p c)) [ inl e ↦ rw e | inr e ↦ rw e (rw e) ]
before_keeps p c (String.◌∷◌ d s) h = rw h

pub rstrip_idem : (p : Char → Bool) (s : String) → rstrip p (rstrip p s) ≡ rstrip p s
unfolding rstrip
rstrip_idem p String.[] = refl
rstrip_idem p (String.◌∷◌ c s) = before_keeps p c (rstrip p s) (rstrip_idem p s)

lstrip_idem : (p : Char → Bool) (s : String) → lstrip p (lstrip p s) ≡ lstrip p s
unfolding lstrip
lstrip_idem p String.[] = refl
lstrip_idem p (String.◌∷◌ c s) = elim (Bool-cases (p c)) [
  | inl e ↦ rw e (lstrip_idem p s)
  | inr e ↦ rw e (rw e)
]

before_tail : (p : Char → Bool) (c : Char) (r s : String) → before p c r ≡ String.◌∷◌ c s → r ≡ s
unfolding before
before_tail p c String.[] s h = elim (Bool-cases (p c)) [
  | inl e ↦ absurd (nil≢cons (rw e at h))
  | inr e ↦ tail-eq_of_cons-eq (rw e at h)
]
before_tail p c (String.◌∷◌ d r) s h = tail-eq_of_cons-eq h

-- What `rstrip` keeps it still keeps after a removal at the front.
rstrip-lstrip : (p : Char → Bool) (s : String) → rstrip p s ≡ s → rstrip p (lstrip p s) ≡ lstrip p s
unfolding rstrip lstrip
rstrip-lstrip p String.[] h = refl
rstrip-lstrip p (String.◌∷◌ c s) h = elim (Bool-cases (p c)) [
  | inr e ↦ rw e h
  | inl e ↦ rw e (rstrip-lstrip p s (before_tail p c (rstrip p s) s h))
]

pub strip_idem : (s : String) → strip (strip s) ≡ strip s
unfolding strip
strip_idem s =
    ap (lstrip is_space) (rstrip-lstrip is_space (rstrip is_space s) (rstrip_idem is_space s))
    ∙ lstrip_idem is_space (rstrip is_space s)
