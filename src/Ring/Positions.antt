-- ===== src/Ring/Positions.antt =====
-- Where a short write puts its bytes, read round from the new position.
use native.Mathlib.Nat.{mod-eq_of_lt, mod-eq-sub-mod}
use serwebs.Prelude.{
  ℕ, ◌+◌, ◌-◌, ◌%◌, ◌<◌, ◌≡◌, sym, ap, ap₂, ◌∙◌, List, ◌++◌, append_assoc, append-nil, arith,
  length, take, drop, leb, length-take, length-drop, take-append_right, drop-append_left,
  drop-append_right, drop-drop, drop-all, take-append-drop, take-length_append, drop-length_append,
}
use native.Mathlib.Decide.{dec_lt}
use mathlib.Core.Bool.{true, false}
use serwebs.Ring.{Ring, place, assign}
use serwebs.Ring.Bounds.{IsValid}

-- The bytes of a full buffer, oldest first.
abbrev pub from_pos : List ℕ → ℕ → List ℕ
from_pos buf wp = drop wp buf ++ take wp buf

module _ (buf xs : List ℕ) (wp cap : ℕ) (size : length buf ≡ cap) (pos : wp < cap) where
  front_size : length (take wp buf) ≡ wp
  front_size = omega (arith, length-take wp buf)

  pub rest_size : length (drop wp buf) ≡ cap - wp
  rest_size = omega (arith, length-drop wp buf)

  -- A write in one piece: the bytes before its end, and those after.
  take-assign : take (wp + length xs) (assign buf wp (wp + length xs) xs) ≡ take wp buf ++ xs
  take-assign =
      take-append_right wp (length xs) (take wp buf) (xs ++ drop (wp + length xs) buf) front_size
      ∙ ap (◌++◌ (take wp buf)) (take-length_append xs _)

  drop-assign :
      drop (wp + length xs) (assign buf wp (wp + length xs) xs) ≡ drop (length xs) (drop wp buf)
  drop-assign =
      drop-append_right wp (length xs) (take wp buf) (xs ++ drop (wp + length xs) buf) front_size
      ∙ drop-length_append xs _
      ∙ sym (drop-drop (length xs) wp buf)

  one_piece :
      wp + length xs < cap
      → from_pos (assign buf wp (wp + length xs) xs) ((wp + length xs) % cap)
        ≡ drop (length xs) (drop wp buf ++ (take wp buf ++ xs))
  one_piece h =
      rw (mod-eq_of_lt h, drop-assign, take-assign)
        (sym (drop-append_left (length xs) (drop wp buf) _ (omega (arith, rest_size))))

  at_end :
      wp + length xs ≡ cap
      → from_pos (assign buf wp (wp + length xs) xs) 0
        ≡ drop (length xs) (drop wp buf ++ (take wp buf ++ xs))
  at_end h =
      append-nil _
      ∙ ap (◌++◌ (take wp buf))
          (ap (◌++◌ xs) (drop-all (wp + length xs) buf (omega arith)) ∙ append-nil xs)
      ∙ sym (
          drop-append_left (length xs) (drop wp buf) _ (omega (arith, rest_size))
          ∙ ap (λ l. l ++ (take wp buf ++ xs))
              (drop-all (length xs) (drop wp buf) (omega (arith, rest_size))))

  -- A write that goes round the end of the storage.
  wrapped :
      cap < wp + length xs
      → length xs < cap
      → let first = cap - wp in
        from_pos
          (assign (take wp buf ++ take first xs) 0 (length xs - first) (drop first xs))
          ((wp + length xs) % cap)
        ≡ drop (length xs) (drop wp buf ++ (take wp buf ++ xs))
  wrapped h short = rw end (
      ap₂ ◌++◌ after before
      ∙ append_assoc left _ _
      ∙ ap (◌++◌ left) (take-append-drop first xs)
      ∙ expected)
    where
      first : ℕ
      first = cap - wp

      over : ℕ
      over = length xs - (cap - wp)

      left : List ℕ
      left = drop (length xs - (cap - wp)) (take wp buf)

      tail_size : length (drop (cap - wp) xs) ≡ length xs - (cap - wp)
      tail_size = length-drop (cap - wp) xs

      end : (wp + length xs) % cap ≡ length xs - (cap - wp)
      end = omega (
        arith,
        mod-eq-sub-mod {n = wp + length xs} {m = cap} (omega arith),
        mod-eq_of_lt {n = wp + length xs - cap} {m = cap} (omega arith),
      )

      after :
          drop (length xs - (cap - wp)) (
            drop (cap - wp) xs ++ drop (length xs - (cap - wp)) (take wp buf ++ take (cap - wp) xs))
          ≡ left ++ take (cap - wp) xs
      after =
          rw (← tail_size) (drop-length_append (drop (cap - wp) xs) _)
          ∙ drop-append_left over (take wp buf) (take first xs) (omega (arith, front_size))

      before :
          take (length xs - (cap - wp)) (
            drop (cap - wp) xs ++ drop (length xs - (cap - wp)) (take wp buf ++ take (cap - wp) xs))
          ≡ drop (cap - wp) xs
      before = rw (← tail_size) (take-length_append (drop (cap - wp) xs) _)

      expected : left ++ xs ≡ drop (length xs) (drop wp buf ++ (take wp buf ++ xs))
      expected = sym (
          ap (λ (k : ℕ). drop k (drop wp buf ++ (take wp buf ++ xs)))
            (let e : length xs ≡ (cap - wp) + (length xs - (cap - wp)) = omega arith in e)
          ∙ drop-append_right first over (drop wp buf) (take wp buf ++ xs) rest_size
          ∙ drop-append_left over (take wp buf) xs (omega (arith, front_size)))

-- Read round from the new position, a short write drops as many old bytes as it adds.
pub from_pos-place :
    (r : Ring) (xs : List ℕ)
    → IsValid r
    → length xs < r.capacity
    → from_pos (place r xs) ((r.write_pos + length xs) % r.capacity)
      ≡ drop (length xs) (drop r.write_pos r.buf ++ (take r.write_pos r.buf ++ xs))
unfolding place
from_pos-place r xs v h = elim (dec_lt r.capacity (r.write_pos + length xs)) [
  | yes over ↦
      rw (test_false over) (wrapped r.buf xs r.write_pos r.capacity v.storage v.pos_in over h)
  | no fits ↦ elim (dec_lt (r.write_pos + length xs) r.capacity) [
    | yes before ↦
        rw (test_true fits) (one_piece r.buf xs r.write_pos r.capacity v.storage v.pos_in before)
    | no at ↦
        rw (test_true fits, end_zero fits at)
          (at_end r.buf xs r.write_pos r.capacity v.storage v.pos_in (omega arith))
  ]
]
  where
    test_false :
        r.capacity < r.write_pos + length xs → leb (r.write_pos + length xs) r.capacity ≡ false
    test_false p = ground arith

    test_true :
        ¬ (r.capacity < r.write_pos + length xs) → leb (r.write_pos + length xs) r.capacity ≡ true
    test_true p = ground arith

    end_zero :
        ¬ (r.capacity < r.write_pos + length xs)
        → ¬ (r.write_pos + length xs < r.capacity)
        → (r.write_pos + length xs) % r.capacity ≡ 0
    end_zero p q =
        ap (λ (k : ℕ). k % r.capacity)
          (let e : r.write_pos + length xs ≡ r.capacity = omega arith in e)
        ∙ grind arith

-- Until the buffer is full the bytes stand at its front.
pub take-place :
    (r : Ring) (xs : List ℕ)
    → IsValid r
    → r.write_pos + length xs < r.capacity
    → take (r.write_pos + length xs) (place r xs) ≡ take r.write_pos r.buf ++ xs
unfolding place
take-place r xs v h =
    rw (let e : leb (r.write_pos + length xs) r.capacity ≡ true = ground arith in e)
      (take-assign r.buf xs r.write_pos r.capacity v.storage v.pos_in)
