-- ===== src/Dict.antt =====
-- Python's `dict` with string keys, in its order of insertion: `d[k] = v` keeps the place of a key
-- that is there and adds a new one at the end, `pop` takes a key out.
pub mod Sums
use serwebs.Prelude.{
  ℕ, String, ◌+◌, ◌≡◌, refl, ap, Bool, true, false, Option, none, some, List, [], ◌∷◌, ◌++◌, arith,
  ◌==◌, eq_iff, eq_refl, is_some, if◌then◌else◌,
}

abbrev pub Dict {ℓ} : Type ℓ → Type ℓ
Dict V = List (String × V)

module _ {ℓ} {V : Type ℓ} where
  -- d.get(k)
  unfoldable pub get : String → Dict V → Option V
  get k [] = none
  get k ((j, v) ∷ d) = if j == k then some v else get k d

  -- d[k] = v
  unfoldable pub put : String → V → Dict V → Dict V
  put k v [] = (k, v) ∷ []
  put k v ((j, w) ∷ d) = if j == k then (j, v) ∷ d else (j, w) ∷ put k v d

  -- d.pop(k, None), del d[k]
  unfoldable pub pop : String → Dict V → Dict V
  pop k [] = []
  pop k ((j, v) ∷ d) = if j == k then pop k d else (j, v) ∷ pop k d

  -- k in d
  abbrev pub has : String → Dict V → Bool
  has k d = is_some (get k d)

  -- list(d.keys()), list(d.values())
  unfoldable pub keys : Dict V → List String
  keys [] = []
  keys ((k, v) ∷ d) = k ∷ keys d

  unfoldable pub values : Dict V → List V
  values [] = []
  values ((k, v) ∷ d) = v ∷ values d

  -- d.get(k, default)
  abbrev pub get_or : String → V → Dict V → V
  get_or k v d = elim (get k d) [ none ↦ v | some w ↦ w ]

  pub get-put :
      (k j : String) (v : V) (d : Dict V) → get j (put k v d) ≡ (if k == j then some v else get j d)
  unfolding get put
  get-put k j v [] = refl
  get-put k j v ((i, w) ∷ d) = ground (arith, eq_iff k j, eq_iff i k, eq_iff i j, get-put k j v d)

  pub get-pop : (k j : String) (d : Dict V) → get j (pop k d) ≡ (if k == j then none else get j d)
  unfolding get pop
  get-pop k j [] = ground arith
  get-pop k j ((i, w) ∷ d) = ground (arith, eq_iff k j, eq_iff i k, eq_iff i j, get-pop k j d)

pub ruleset dict_laws = (get-put, get-pop, eq_refl)
