-- ===== src/Downloads/Leading.antt =====
-- Where paths lead, for the files that are given out.
use serwebs.Prelude.{
  ◌≡◌, ◌∙◌, refl, ap, ◌⊎◌, inl, inr, String, true, false, ◌==◌, eq_iff, [], ◌∷◌, ◌++◌, arith,
  Bool-cases, if◌then◌else◌,
}
use serwebs.Downloads.{Parts, parts, is_absolute, join, parent, resolve_from, resolve, same}

-- A name that pathlib takes for one part, and that is not "..".
abbrev pub IsName : String → Type 0
IsName s = (parts s ≡ s ∷ []) × (is_absolute s ≡ false) × ((s == "..") ≡ false)

pub same_sound : (p q : Parts) → same p q ≡ true → p ≡ q
unfolding same
same_sound [] [] h = refl
same_sound [] (y ∷ q) h = ground (arith, h)
same_sound (x ∷ p) [] h = ground (arith, h)
same_sound (x ∷ p) (y ∷ q) h =
    let rest : p ≡ q = same_sound p q (ground (arith, h)) in
    let first : x ≡ y = ground (arith, h, eq_iff x y) in
    ap (λ z. z ∷ p) first ∙ ap (λ r. y ∷ r) rest

pub same_refl : (p : Parts) → same p p ≡ true
unfolding same
same_refl [] = refl
same_refl (x ∷ p) = ground (arith, eq_iff x x, same_refl p)

pub resolve_from-append :
    (xs ys at : Parts) → resolve_from at (xs ++ ys) ≡ resolve_from (resolve_from at xs) ys
unfolding resolve_from
resolve_from-append [] ys at = refl
resolve_from-append (x ∷ xs) ys at = elim (Bool-cases (x == "..")) [
  | inl e ↦ rw e (resolve_from-append xs ys (parent at))
  | inr e ↦ rw e (resolve_from-append xs ys (at ++ x ∷ []))
]

pub parent-snoc : (xs : Parts) (y : String) → parent (xs ++ y ∷ []) ≡ xs
unfolding parent
parent-snoc [] y = refl
parent-snoc (x ∷ []) y = refl
parent-snoc (x ∷ z ∷ xs) y = ap (λ r. x ∷ r) (parent-snoc (z ∷ xs) y)

-- A path is its parent and a name.
pub has_name : (p : Parts) → (p ≡ []) ⊎ ((y : String) × (p ≡ parent p ++ y ∷ []))
unfolding parent
has_name [] = inl refl
has_name (x ∷ []) = inr (x, refl)
has_name (x ∷ z ∷ p) = elim (has_name (z ∷ p)) [
  | inl e ↦ ground (arith, e)
  | inr (y, e) ↦ inr (y, ap (λ r. x ∷ r) e)
]

pub snoc≢nil : (xs : Parts) (y : String) → ¬ (xs ++ y ∷ [] ≡ [])
snoc≢nil [] y e = ground (arith, e)
snoc≢nil (x ∷ xs) y e = ground (arith, e)

-- Where a name below a directory leads.
abbrev pub step : Parts → String → Parts
step at y = if y == ".." then parent at else at ++ y ∷ []

pub resolve-step : (dir : Parts) (y : String) → resolve (dir ++ y ∷ []) ≡ step (resolve dir) y
resolve-step dir y =
    resolve_from-append dir (y ∷ []) []
    ∙ (let p : resolve_from (resolve dir) (y ∷ []) ≡ step (resolve dir) y =
          unfold resolve_from in ground arith in
        p)

pub join-name : (dir : Parts) (k : String) → IsName k → join dir k ≡ dir ++ k ∷ []
unfolding join
join-name dir k (one, relative, up) = rw (relative, one) refl

-- The directory of a port.
pub port_dir-resolve :
    (dir : Parts) (k : String) → IsName k → resolve dir ≡ dir → resolve (join dir k) ≡ dir ++ k ∷ []
port_dir-resolve dir k name clean =
    ap resolve (join-name dir k name) ∙ resolve-step dir k ∙ rw (clean, name.2) refl
