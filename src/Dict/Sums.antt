-- ===== src/Dict/Sums.antt =====
-- A dictionary has each key once, and what that gives for its size and for sums over its values.
use serwebs.Prelude.{
  String, ◌+◌, ◌≤◌, ◌≡◌, refl, ap, ◌∙◌, true, false, none, some, List, [], ◌∷◌, arith, eq_iff,
  eq_refl, is_some, length, if◌then◌else◌,
}
use serwebs.Dict.{Dict, get, put, pop, keys, get-put, get-pop}

module _ {ℓ} {V : Type ℓ} where
  -- No key occurs twice.
  abbrev pub IsUnique : Dict V → Type 0
  IsUnique [] = Unit
  IsUnique ((k, v) ∷ d) = (is_some (get k d) ≡ false) × IsUnique d

  pub put-IsUnique : (k : String) (v : V) (d : Dict V) → IsUnique d → IsUnique (put k v d)
  unfolding put get
  put-IsUnique k v [] u = (refl, tt)
  put-IsUnique k v ((j, w) ∷ d) u =
      ground (arith, put-IsUnique k v d u.1, get-put k j v d, eq_iff j k, eq_iff k j)

  pub pop-IsUnique : (k : String) (d : Dict V) → IsUnique d → IsUnique (pop k d)
  unfolding pop get
  pop-IsUnique k [] u = tt
  pop-IsUnique k ((j, w) ∷ d) u =
      ground (arith, pop-IsUnique k d u.1, get-pop k j d, eq_iff j k, eq_iff k j)

  pub pop-absent : (k : String) (d : Dict V) → get k d ≡ none → pop k d ≡ d
  unfolding pop get
  pop-absent k [] e = refl
  pop-absent k ((j, w) ∷ d) e = ground (arith, pop-absent k d)

  pub length-put :
      (k : String) (v : V) (d : Dict V)
      → length (put k v d) ≡ (if is_some (get k d) then length d else length d + 1)
  unfolding put get
  length-put k v [] = refl
  length-put k v ((j, w) ∷ d) = ground (arith, length-put k v d)

  pub length-pop-le : (k : String) (d : Dict V) → length (pop k d) ≤ length d
  unfolding pop
  length-pop-le k [] = omega arith
  length-pop-le k ((j, w) ∷ d) = ground (arith, length-pop-le k d)

  -- Popping a key that is there takes one entry out.
  pub length-pop :
      (k : String) (d : Dict V)
      → IsUnique d
      → is_some (get k d) ≡ true
      → length (pop k d) + 1 ≡ length d
  unfolding pop get
  length-pop k [] u h = cc
  length-pop k ((j, w) ∷ d) u h = ground (arith, length-pop k d u.1, eq_iff j k, pop-absent k d)

  -- Each pair of the list is an entry of the dictionary.
  abbrev pub Entries : Dict V → Dict V → Type ℓ
  Entries d [] = Unit
  Entries d ((k, v) ∷ ws) = (get k d ≡ some v) × Entries d ws

  Entries-cons :
      (k : String) (v : V) (d ws : Dict V)
      → is_some (get k d) ≡ false
      → Entries d ws
      → Entries ((k, v) ∷ d) ws
  unfolding get
  Entries-cons k v d [] h es = tt
  Entries-cons k v d ((j, w) ∷ ws) h es = (ground (arith, eq_iff k j), Entries-cons k v d ws h es.1)

  pub Entries-self : (d : Dict V) → IsUnique d → Entries d d
  unfolding get
  Entries-self [] u = tt
  Entries-self ((k, v) ∷ d) u =
      (ground (arith, eq_refl k), Entries-cons k v d d u.0 (Entries-self d u.1))

  -- Popping keys one after the other; popping all keys leaves nothing.
  unfoldable pub pops : List String → Dict V → Dict V
  pops [] d = d
  pops (k ∷ ks) d = pops ks (pop k d)

  pop_comm : (j k : String) (d : Dict V) → pop j (pop k d) ≡ pop k (pop j d)
  unfolding pop
  pop_comm j k [] = refl
  pop_comm j k ((i, v) ∷ d) = ground (arith, pop_comm j k d)

  pops-pop : (ks : List String) (k : String) (d : Dict V) → pops ks (pop k d) ≡ pop k (pops ks d)
  unfolding pops
  pops-pop [] k d = refl
  pops-pop (j ∷ ks) k d = ap (pops ks) (pop_comm j k d) ∙ pops-pop ks k (pop j d)

  pop_head : (k : String) (v : V) (d : Dict V) → pop k ((k, v) ∷ d) ≡ pop k d
  unfolding pop
  pop_head k v d = ground (arith, eq_refl k)

  pub pops-keys : (d : Dict V) → pops (keys d) d ≡ []
  unfolding pops pop keys
  pops-keys [] = refl
  pops-keys ((k, v) ∷ d) =
      ap (pops (keys d)) (pop_head k v d) ∙ pops-pop (keys d) k d ∙ ap (pop k) (pops-keys d)
