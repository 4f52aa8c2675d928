-- ===== src/Rotation/Shift.antt =====
-- Where a rotation leaves each file.
use serwebs.Prelude.{
  ℕ, zero, suc, ◌-◌, ◌≤◌, ◌≡◌, ap, sym, ◌∙◌, true, false, Option, none, some, eqb, ltb, leb,
  eqb_iff, if◌then◌else◌, Bool-cases, Option-cases, inl, inr, arith,
}
use serwebs.Rotation.{Files, set, rename, shift, shift_all, rotate}

module _ {C : Type 0} where
  rename-at :
      (i : ℕ) (fs : Files C) (j : ℕ)
      → fs (suc i) ≡ none
      → rename i fs j ≡ (if eqb i j then none else if eqb (suc i) j then fs i else fs j)
  unfolding rename
  rename-at i fs j free = elim (Option-cases (fs i)) [
    | inl e ↦ elim (Bool-cases (eqb i j)) [
      | inl k ↦ rw (e, rename, k) (ap fs (sym ((eqb_iff i j).0 k)) ∙ e)
      | inr k ↦ elim (Bool-cases (eqb (suc i) j)) [
        | inl l ↦ rw (e, rename, k, l) (ap fs (sym ((eqb_iff (suc i) j).0 l)) ∙ free)
        | inr l ↦ rw (e, rename, k, l)
      ]
    ]
    | inr (content, e) ↦ rw (e, rename)
  ]

  -- Where the loop down from `i` leaves file j, when file i + 1 is free.
  abbrev shifted : ℕ → Files C → ℕ → Option C
  shifted i fs j =
      if eqb j 0 then fs 0 else if eqb j 1 then none else if leb j (suc i) then fs (j - 1) else fs j

  shifted-step :
      (i : ℕ) (fs : Files C) (j : ℕ)
      → fs (suc (suc i)) ≡ none
      → shifted i (rename (suc i) fs) j ≡ shifted (suc i) fs j
  shifted-step i fs j free = elim (Bool-cases (eqb j 0)) [
    | inl z ↦
        let k : eqb (suc i) 0 ≡ false = ground arith in
        let k' : eqb (suc (suc i)) 0 ≡ false = ground arith in
        rw (z, rename-at (suc i) fs 0 free, k, k')
    | inr z ↦ elim (Bool-cases (eqb j 1)) [
      | inl o ↦ rw (z, o)
      | inr o ↦ elim (Bool-cases (leb j (suc i))) [
        | inl l ↦
            let k : eqb (suc i) (j - 1) ≡ false = ground (arith, l, z) in
            let k' : eqb (suc (suc i)) (j - 1) ≡ false = ground (arith, l, z) in
            let m : leb j (suc (suc i)) ≡ true = ground (arith, l) in
            rw (z, o, l, m, rename-at (suc i) fs (j - 1) free, k, k')
        | inr l ↦
            let k : eqb (suc i) j ≡ false = ground (arith, l) in
            elim (Bool-cases (eqb (suc (suc i)) j)) [
              | inl m ↦
                  let same : suc (suc i) ≡ j = (eqb_iff (suc (suc i)) j).0 m in
                  let n : leb j (suc (suc i)) ≡ true = ground (arith, same) in
                  let before : suc i ≡ j - 1 = ground (arith, same) in
                  rw (z, o, l, n, rename-at (suc i) fs j free, k, m) (ap fs before)
              | inr m ↦
                  let n : leb j (suc (suc i)) ≡ false = ground (arith, l, m) in
                  rw (z, o, l, n, rename-at (suc i) fs j free, k, m)
            ]
      ]
    ]
  ]

  shift-at : (i : ℕ) (fs : Files C) (j : ℕ) → fs (suc i) ≡ none → shift i fs j ≡ shifted i fs j
  unfolding shift
  shift-at zero fs j free = elim (Bool-cases (eqb j 0)) [
    | inl z ↦ rw z (ap fs ((eqb_iff j 0).0 z))
    | inr z ↦ elim (Bool-cases (eqb j 1)) [
      | inl o ↦ rw (z, o) (ap fs ((eqb_iff j 1).0 o) ∙ free)
      | inr o ↦ let l : leb j 1 ≡ false = ground (arith, z, o) in rw (z, o, l)
    ]
  ]
  shift-at (suc i) fs j free =
      let g : Files C = rename (suc i) fs in
      let gone : eqb (suc i) (suc i) ≡ true = ground arith in
      shift-at i g j (rename-at (suc i) fs (suc i) free ∙ rw gone) ∙ shifted-step i fs j free

  shift_all-at : (n : ℕ) (fs : Files C) (j : ℕ) → shift_all (suc n) fs j ≡ shifted n fs j
  unfolding shift_all
  shift_all-at n fs j =
      let h : Files C = set (suc n) none fs in
      let gone : eqb (suc n) (suc n) ≡ true = ground arith in
      let first : eqb (suc n) 0 ≡ false = ground arith in
      shift-at n h j (rw gone) ∙ elim (Bool-cases (eqb j 0)) [
        | inl z ↦ rw (z, first)
        | inr z ↦ elim (Bool-cases (leb j (suc n))) [
          | inl l ↦ let k : eqb (suc n) (j - 1) ≡ false = ground (arith, l, z) in rw (z, l, k)
          | inr l ↦ let k : eqb (suc n) j ≡ false = ground (arith, l) in rw (z, l, k)
        ]
      ]

  -- Where a rotation of `m` files leaves file j.
  abbrev pub rotated : ℕ → Files C → ℕ → Option C
  rotated m fs j = if eqb j 0 then none else if leb j m then fs (j - 1) else fs j

  move_log-at :
      (n : ℕ) (fs : Files C) (j : ℕ) → rename zero (shift_all (suc n) fs) j ≡ rotated (suc n) fs j
  move_log-at n fs j =
      rename-at zero (shift_all (suc n) fs) j (shift_all-at n fs 1) ∙ elim (Bool-cases (eqb j 0)) [
        | inl z ↦ let z' : eqb 0 j ≡ true = ground (arith, z) in rw (z, z')
        | inr z ↦
            let z' : eqb 0 j ≡ false = ground (arith, z) in
            elim (Bool-cases (eqb j 1)) [
              | inl o ↦
                  let o' : eqb 1 j ≡ true = ground (arith, o) in
                  let l : leb j (suc n) ≡ true = ground (arith, o) in
                  let first : 0 ≡ j - 1 = ground (arith, o) in
                  rw (z, z', o', l) (shift_all-at n fs 0 ∙ ap fs first)
              | inr o ↦
                  let o' : eqb 1 j ≡ false = ground (arith, o) in
                  rw (z', o', shift_all-at n fs j, z, o)
            ]
      ]

  -- A rotation with at least one file to keep: when the log is there and has reached the bound,
  -- afterwards there is no log, every file up to the last has what the one before it had, so that
  -- only the last one's contents are lost, and files with a higher number stay as they were.
  -- Otherwise no file changes.
  pub rotate_lem :
      (size : C → ℕ) (max_bytes max_files : ℕ) (fs : Files C) (j : ℕ)
      → 1 ≤ max_files
      → rotate size max_bytes max_files fs j ≡ (elim (fs 0) [
        | none ↦ fs j
        | some content ↦ if ltb (size content) max_bytes then fs j else rotated max_files fs j
      ])
  unfolding rotate
  rotate_lem size max_bytes zero fs j h = ground (arith, h)
  rotate_lem size max_bytes (suc n) fs j h = elim (Option-cases (fs 0)) [
    | inl e ↦ rw (e, rotate)
    | inr (content, e) ↦ elim (Bool-cases (ltb (size content) max_bytes)) [
      | inl f ↦ rw (e, f, rotate)
      | inr f ↦ rw (e, f, rotate) (move_log-at n fs j)
    ]
  ]
