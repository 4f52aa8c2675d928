-- ===== src/Stores/Tags.antt =====
-- The names of all tags.
use Prim.Native.Nat.{Ordering, compare as compare_ℕ}
use Prim.Native.Char.{code}
use Prim.Native.String.{compare, then as chain}
use Prim.Native.String.compare
use text.Mathlib.TextEquality.{path_by_compare}
use serwebs.Prelude.{
  ◌≡◌, ◌⊎◌, refl, sym, ◌∙◌, subst, ℕ, String, Bool, true, false, ◌==◌, ◌||◌, List, [], ◌∷◌, inl,
  inr, arith, if◌then◌else◌, eq_iff,
}
use serwebs.Dict.{Dict, values}
use serwebs.Stores.{insert, insert_all, names_of, get_all_tag_names}

Ordering-cases : (o : Ordering) → (o ≡ Ordering.lt) ⊎ ((o ≡ Ordering.eq) ⊎ (o ≡ Ordering.gt))
Ordering-cases Ordering.lt = inl refl
Ordering-cases Ordering.eq = inr (inl refl)
Ordering-cases Ordering.gt = inr (inr refl)

chain_flip :
    (m n : ℕ) (o r : Ordering)
    → (o ≡ Ordering.gt → r ≡ Ordering.lt)
    → chain (compare_ℕ m n) o ≡ Ordering.gt
    → chain (compare_ℕ n m) r ≡ Ordering.lt
chain_flip m n o r f h = elim (Ordering-cases (compare_ℕ m n)) [
  | inl e ↦ ground (arith, e, h)
  | inr (inl e) ↦
      let same : compare_ℕ n m ≡ Ordering.eq = ground (arith, e) in rw same (f (rw e at h))
  | inr (inr e) ↦ let less : compare_ℕ n m ≡ Ordering.lt = ground (arith, e) in rw less
]

lt≢gt : ¬ (Ordering.lt ≡ Ordering.gt)
lt≢gt h = ground (arith, h)

compare_flip : (s t : String) → compare s t ≡ Ordering.gt → compare t s ≡ Ordering.lt
compare_flip String.[] String.[] h = ground (arith, h)
compare_flip String.[] (String.◌∷◌ d t) h = absurd (lt≢gt (sym (compare.nil-cons d t) ∙ h))
compare_flip (String.◌∷◌ c s) String.[] h = compare.nil-cons c s
compare_flip (String.◌∷◌ c s) (String.◌∷◌ d t) h =
    compare.cons-cons d c t s
    ∙ chain_flip (code c) (code d) (compare s t) (compare t s) (compare_flip s t)
        (sym (compare.cons-cons c d s t) ∙ h)

-- Each text comes before the next, so that none is there twice.
abbrev pub IsSorted : List String → Type 0
IsSorted [] = Unit
IsSorted (s ∷ []) = Unit
IsSorted (s ∷ t ∷ ts) = (compare s t ≡ Ordering.lt) × IsSorted (t ∷ ts)

abbrev pub is_in : String → List String → Bool
is_in s [] = false
is_in s (t ∷ ts) = if t == s then true else is_in s ts

abbrev pub is_tag : String → List (List String) → Bool
is_tag s [] = false
is_tag s (tags ∷ rest) = is_in s tags || is_tag s rest

is_in-insert : (s t : String) (ts : List String) → is_in s (insert t ts) ≡ (is_in s (t ∷ ts))
unfolding insert
is_in-insert s t [] = refl
is_in-insert s t (u ∷ ts) = elim (Ordering-cases (compare t u)) [
  | inl e ↦ rw (e, insert)
  | inr (inl e) ↦ rw (e, insert) (ground (arith, path_by_compare t u e, eq_iff t s, eq_iff u s))
  | inr (inr e) ↦ rw (e, insert) (ground (arith, is_in-insert s t ts))
]

insert-after :
    (u t : String) (ts : List String)
    → compare u t ≡ Ordering.lt
    → IsSorted (u ∷ ts)
    → IsSorted (u ∷ insert t ts)
unfolding insert
insert-after u t [] l h = (l, tt)
insert-after u t (v ∷ ts) l (k, h) = elim (Ordering-cases (compare t v)) [
  | inl e ↦ subst (λ x. IsSorted (u ∷ x)) {x = t ∷ v ∷ ts} (rw (e, insert)) (l, (e, h))
  | inr (inl e) ↦ subst (λ x. IsSorted (u ∷ x)) {x = v ∷ ts} (rw (e, insert)) (k, h)
  | inr (inr e) ↦
      subst (λ x. IsSorted (u ∷ x)) {x = v ∷ insert t ts} (rw (e, insert))
        (k, insert-after v t ts (compare_flip t v e) h)
]

insert-IsSorted : (t : String) (ts : List String) → IsSorted ts → IsSorted (insert t ts)
unfolding insert
insert-IsSorted t [] h = tt
insert-IsSorted t (v ∷ ts) h = elim (Ordering-cases (compare t v)) [
  | inl e ↦ subst IsSorted {x = t ∷ v ∷ ts} (rw (e, insert)) (e, h)
  | inr (inl e) ↦ subst IsSorted {x = v ∷ ts} (rw (e, insert)) h
  | inr (inr e) ↦
      subst IsSorted {x = v ∷ insert t ts} (rw (e, insert))
        (insert-after v t ts (compare_flip t v e) h)
]

insert_all-IsSorted : (ts seen : List String) → IsSorted seen → IsSorted (insert_all ts seen)
unfolding insert_all
insert_all-IsSorted [] seen h = h
insert_all-IsSorted (t ∷ ts) seen h =
    insert_all-IsSorted ts (insert t seen) (insert-IsSorted t seen h)

names-IsSorted :
    (rest : List (List String)) (seen : List String) → IsSorted seen → IsSorted (names_of rest seen)
unfolding names_of
names-IsSorted [] seen h = h
names-IsSorted (tags ∷ rest) seen h =
    names-IsSorted rest (insert_all tags seen) (insert_all-IsSorted tags seen h)

is_in-insert_all :
    (s : String) (ts seen : List String)
    → is_in s (insert_all ts seen) ≡ (is_in s ts || is_in s seen)
unfolding insert_all
is_in-insert_all s [] seen = refl
is_in-insert_all s (t ∷ ts) seen =
    ground (arith, is_in-insert_all s ts (insert t seen), is_in-insert s t seen)

is_in-names :
    (s : String) (rest : List (List String)) (seen : List String)
    → is_in s (names_of rest seen) ≡ (is_tag s rest || is_in s seen)
unfolding names_of
is_in-names s [] seen = refl
is_in-names s (tags ∷ rest) seen =
    ground (arith, is_in-names s rest (insert_all tags seen), is_in-insert_all s tags seen)

-- The list of all tags has exactly the tags of the ports, each once, in the order of the texts.
pub tag_names_lem :
    (all_tags : Dict (List String))
    → IsSorted (get_all_tag_names all_tags)
      × ((s : String) → is_in s (get_all_tag_names all_tags) ≡ is_tag s (values all_tags))
unfolding get_all_tag_names
tag_names_lem all_tags = (
  names-IsSorted (values all_tags) [] tt,
  λ s. ground (arith, is_in-names s (values all_tags) []),
)
