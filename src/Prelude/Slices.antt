-- ===== src/Prelude/Slices.antt =====
-- How `take` and `drop` meet `++` and each other.
use Prim.Native.Nat.{ℕ, zero, suc, ◌+◌, ◌-◌, ◌≤◌}
use mathlib.Core.Path.{◌≡◌, refl, sym, ap, ◌∙◌}
use mathlib.Core.List.{List, [], ◌∷◌, ◌++◌}
use native.Mathlib.Omega.{arith}
use native.Mathlib.Decide.{dec_lt}
use serwebs.Prelude.Lists.{length, take, drop, length-append, length-drop}

module _ {ℓ} {A : Type ℓ} where
  pub take-nil : (n : ℕ) → take {A = A} n [] ≡ []
  take-nil zero = refl
  take-nil (suc n) = refl

  pub drop-nil : (n : ℕ) → drop {A = A} n [] ≡ []
  drop-nil zero = refl
  drop-nil (suc n) = refl

  pub take-all : (n : ℕ) (xs : List A) → length xs ≤ n → take n xs ≡ xs
  take-all zero [] h = refl
  take-all zero (x ∷ xs) h = absurd (omega arith)
  take-all (suc n) [] h = refl
  take-all (suc n) (x ∷ xs) h = ap (◌∷◌ x) (take-all n xs (omega arith))

  pub drop-all : (n : ℕ) (xs : List A) → length xs ≤ n → drop n xs ≡ []
  drop-all zero [] h = refl
  drop-all zero (x ∷ xs) h = absurd (omega arith)
  drop-all (suc n) [] h = refl
  drop-all (suc n) (x ∷ xs) h = drop-all n xs (omega arith)

  -- A cut inside the left part.
  pub take-append_left : (n : ℕ) (xs ys : List A) → n ≤ length xs → take n (xs ++ ys) ≡ take n xs
  take-append_left zero xs ys h = refl
  take-append_left (suc n) [] ys h = absurd (omega arith)
  take-append_left (suc n) (x ∷ xs) ys h = ap (◌∷◌ x) (take-append_left n xs ys (omega arith))

  pub drop-append_left :
      (n : ℕ) (xs ys : List A) → n ≤ length xs → drop n (xs ++ ys) ≡ drop n xs ++ ys
  drop-append_left zero xs ys h = refl
  drop-append_left (suc n) [] ys h = absurd (omega arith)
  drop-append_left (suc n) (x ∷ xs) ys h = drop-append_left n xs ys (omega arith)

  -- A cut past the left part; `k` is the length of that part.
  pub take-append_right :
      (k n : ℕ) (xs ys : List A) → length xs ≡ k → take (k + n) (xs ++ ys) ≡ xs ++ take n ys
  take-append_right k n [] ys h = ap (λ (m : ℕ). take m ys) (omega arith)
  take-append_right zero n (x ∷ xs) ys h = absurd (omega arith)
  take-append_right (suc k) n (x ∷ xs) ys h =
      ap (λ (m : ℕ). take m (x ∷ xs ++ ys)) (let e : suc k + n ≡ suc (k + n) = omega arith in e)
      ∙ ap (◌∷◌ x) (take-append_right k n xs ys (omega arith))

  pub drop-append_right :
      (k n : ℕ) (xs ys : List A) → length xs ≡ k → drop (k + n) (xs ++ ys) ≡ drop n ys
  drop-append_right k n [] ys h = ap (λ (m : ℕ). drop m ys) (omega arith)
  drop-append_right zero n (x ∷ xs) ys h = absurd (omega arith)
  drop-append_right (suc k) n (x ∷ xs) ys h =
      ap (λ (m : ℕ). drop m (x ∷ xs ++ ys)) (let e : suc k + n ≡ suc (k + n) = omega arith in e)
      ∙ drop-append_right k n xs ys (omega arith)

  pub drop-drop : (m n : ℕ) (xs : List A) → drop m (drop n xs) ≡ drop (n + m) xs
  drop-drop m zero xs = ap (λ (k : ℕ). drop k xs) (omega arith)
  drop-drop m (suc n) [] = drop-nil m ∙ sym (drop-nil (suc n + m))
  drop-drop m (suc n) (x ∷ xs) =
      drop-drop m n xs
      ∙ ap (λ (k : ℕ). drop k (x ∷ xs)) (let e : suc (n + m) ≡ suc n + m = omega arith in e)

  -- The last `n` elements, or all if there are fewer.
  abbrev pub last : ℕ → List A → List A
  last n xs = drop (length xs - n) xs

  pub last-all : (n : ℕ) (xs : List A) → length xs ≤ n → last n xs ≡ xs
  last-all n xs h = ap (λ (k : ℕ). drop k xs) (let e : length xs - n ≡ 0 = omega arith in e)

  pub take-length_append : (xs ys : List A) → take (length xs) (xs ++ ys) ≡ xs
  take-length_append [] ys = refl
  take-length_append (x ∷ xs) ys = ap (◌∷◌ x) (take-length_append xs ys)

  pub drop-length_append : (xs ys : List A) → drop (length xs) (xs ++ ys) ≡ ys
  drop-length_append [] ys = refl
  drop-length_append (x ∷ xs) ys = drop-length_append xs ys

  -- Only the part of the left list that the last `n` elements reach is kept.
  pub last-append_long : (n : ℕ) (xs ys : List A) → n ≤ length ys → last n (xs ++ ys) ≡ last n ys
  last-append_long n xs ys h =
      ap (λ (k : ℕ). drop k (xs ++ ys))
        (let e : length (xs ++ ys) - n ≡ length xs + (length ys - n) =
            omega (arith, length-append xs ys) in
          e)
      ∙ drop-append_right (length xs) (length ys - n) xs ys refl

  pub length-last_le : (n : ℕ) (xs : List A) → length (last n xs) ≤ n
  length-last_le n xs = omega (arith, length-drop (length xs - n) xs)

  -- Cutting to `n` before more elements come changes nothing of the cut after.
  pub last-last_append : (n : ℕ) (xs ys : List A) → last n (last n xs ++ ys) ≡ last n (xs ++ ys)
  last-last_append n xs ys = elim (dec_lt n (length xs)) [
    | no few ↦ ap (λ l. last n (l ++ ys)) (last-all n xs (omega arith))
    | yes many ↦
        ap (λ l. last n l) (sym (drop-append_left (length xs - n) xs ys (omega arith)))
        ∙ drop-drop (length (drop (length xs - n) (xs ++ ys)) - n) (length xs - n) (xs ++ ys)
        ∙ ap (λ (k : ℕ). drop k (xs ++ ys))
            (omega (arith, length-append xs ys, length-drop (length xs - n) (xs ++ ys)))
  ]
