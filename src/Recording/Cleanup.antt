-- ===== src/Recording/Cleanup.antt =====
-- The bound on the storage.
use serwebs.Prelude.{
  ℕ, ◌-◌, ◌≤◌, ◌<◌, ◌≡◌, refl, ap, subst, true, List, [], ◌∷◌, ◌++◌, leb, Bool-cases, inl, inr,
  arith,
}
use serwebs.Recording.{Stored, total_size, remove_oldest, cleanup_storage}

-- With any of the removed files, and those after it, the bound would be exceeded.
abbrev pub AllNeeded : ℕ → List Stored → List Stored → Type 0
AllNeeded max [] kept = Unit
AllNeeded max (f ∷ removed) kept =
    (max < total_size (f ∷ removed ++ kept)) × AllNeeded max removed kept

abbrev pub IsCleaned : ℕ → List Stored → List Stored → Type 0
IsCleaned max files kept =
    (total_size kept ≤ max)
    × ((removed : List Stored) × ((files ≡ removed ++ kept) × AllNeeded max removed kept))

whole-IsCleaned :
    (max : ℕ) (files : List Stored) → leb (total_size files) max ≡ true → IsCleaned max files files
whole-IsCleaned max files h = (ground (arith, h), ([], (refl, tt)))

nothing-fits : (max : ℕ) → total_size [] ≤ max
unfolding total_size
nothing-fits max = ground arith

total-rest : (f : Stored) (files : List Stored) → total_size (f ∷ files) - f.size ≡ total_size files
unfolding total_size
total-rest f files = ground arith

remove-IsCleaned :
    (max : ℕ) (files : List Stored)
    → IsCleaned max files (remove_oldest max (total_size files) files)
unfolding remove_oldest
remove-IsCleaned max [] = (nothing-fits max, ([], (refl, tt)))
remove-IsCleaned max (f ∷ files) = elim (Bool-cases (leb (total_size (f ∷ files)) max)) [
  | inl e ↦
      subst (IsCleaned max (f ∷ files)) {x = f ∷ files} (rw (e, remove_oldest))
        (whole-IsCleaned max (f ∷ files) e)
  | inr e ↦
      let (bound, (removed, (same, needed))) = remove-IsCleaned max files in
      subst (IsCleaned max (f ∷ files)) {x = remove_oldest max (total_size files) files}
        (rw (e, remove_oldest, total-rest f files))
        (
          bound,
          (
            f ∷ removed,
            (
              ap (λ fs. f ∷ fs) same,
              (subst (λ fs. max < total_size (f ∷ fs)) same (ground (arith, e)), needed),
            ),
          ),
        )
]

-- The clean-up keeps the newest files: what is left fits the bound, what goes is the oldest, and no
-- file goes that could have stayed with all the newer ones.
pub cleanup-IsCleaned :
    (max : ℕ) (files : List Stored) → IsCleaned max files (cleanup_storage max files)
unfolding cleanup_storage
cleanup-IsCleaned max files = elim (Bool-cases (leb (total_size files) max)) [
  | inl e ↦ subst (IsCleaned max files) {x = files} (rw e) (whole-IsCleaned max files e)
  | inr e ↦
      subst (IsCleaned max files) {x = remove_oldest max (total_size files) files} (rw e)
        (remove-IsCleaned max files)
]
