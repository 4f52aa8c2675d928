-- ===== src/Ring/Suffix.antt =====
-- What one `append` does to the bytes that `read_all` returns.
use native.Mathlib.Nat.{mod-eq_of_lt}
use serwebs.Prelude.{
  ℕ, ◌+◌, ◌-◌, ◌%◌, ◌≤◌, ◌<◌, min, ◌≡◌, refl, sym, ap, ◌∙◌, inl, inr, Bool-cases, List, [], ◌∷◌,
  ◌++◌, append_assoc, append-nil, arith, length, take, drop, last, ltb, eqb, length-append,
  length-take, length-drop, drop-append_right, last-all, last-append_long,
}
use native.Mathlib.Decide.{dec_lt}
use mathlib.Core.Bool.{true}
use serwebs.Ring.{Ring, place, append, read_all}
use serwebs.Ring.Bounds.{IsValid, append-IsValid, length-read_all}
use serwebs.Ring.Positions.{from_pos, rest_size, from_pos-place, take-place}

none_left : (xs : List ℕ) → ¬ (0 < length xs) → xs ≡ []
none_left [] h = refl
none_left (x ∷ xs) h = absurd (omega arith)

read_full : (r : Ring) → IsValid r → r.len ≡ r.capacity → read_all r ≡ from_pos r.buf r.write_pos
unfolding read_all
read_full r v e = ground arith

read_front : (r : Ring) → IsValid r → r.len < r.capacity → read_all r ≡ take r.write_pos r.buf
unfolding read_all
read_front r v h = elim (Bool-cases (eqb r.len 0)) [
  | inl e ↦ rw e (ap (λ (k : ℕ). take k r.buf) (let z : 0 ≡ r.write_pos = ground arith in z))
  | inr e ↦
      rw (e, let t : ltb r.len r.capacity ≡ true = ground arith in t)
        (ap (λ (k : ℕ). take k r.buf) (let z : r.len ≡ r.write_pos = omega arith in z))
]

append_empty : (r : Ring) (xs : List ℕ) → length xs ≡ 0 → append r xs ≡ r
unfolding append
append_empty r xs e = ground arith

append_large :
    (r : Ring) (xs : List ℕ)
    → 0 < r.capacity
    → r.capacity ≤ length xs
    → append r xs ≡ record r { buf = last r.capacity xs; write_pos = 0; len = r.capacity }
unfolding append
append_large r xs p h = ground arith

append_short :
    (r : Ring) (xs : List ℕ)
    → 0 < length xs
    → length xs < r.capacity
    → append r xs ≡ record r {
      buf = place r xs;
      write_pos = (r.write_pos + length xs) % r.capacity;
      len = min (r.len + length xs) r.capacity;
    }
unfolding append
append_short r xs p h = ground arith

-- The bytes that a full buffer has after a short write, counted from the old contents.
kept_full :
    (r : Ring) (xs : List ℕ)
    → IsValid r
    → length xs < r.capacity
    → r.capacity ≤ r.len + length xs
    → drop (length xs) (drop r.write_pos r.buf ++ (take r.write_pos r.buf ++ xs))
      ≡ last r.capacity (read_all r ++ xs)
kept_full r xs v short full = elim (dec_lt r.len r.capacity) [
  | no at ↦
      rw (read_full r v (omega arith), append_assoc)
        (ap (λ (k : ℕ). drop k (drop r.write_pos r.buf ++ (take r.write_pos r.buf ++ xs)))
          (omega (arith, sizes)))
  | yes below ↦ rw (read_front r v below) (
      ap (λ (k : ℕ). drop k (drop r.write_pos r.buf ++ (take r.write_pos r.buf ++ xs)))
        (let e : length xs
              ≡ (r.capacity - r.write_pos) + (length (take r.write_pos r.buf ++ xs) - r.capacity) =
            omega (arith, fill) in
          e)
      ∙ drop-append_right (r.capacity - r.write_pos) _ (drop r.write_pos r.buf) _
          (rest_size r.buf xs r.write_pos r.capacity v.storage v.pos_in))
]
  where
    fill : length (take r.write_pos r.buf ++ xs) ≡ r.write_pos + length xs
    fill = omega (arith, length-append (take r.write_pos r.buf) xs, length-take r.write_pos r.buf)

    sizes :
        length (drop r.write_pos r.buf ++ (take r.write_pos r.buf ++ xs)) ≡ r.capacity + length xs
    sizes = omega (
      arith,
      fill,
      length-append (drop r.write_pos r.buf) (take r.write_pos r.buf ++ xs),
      length-drop r.write_pos r.buf,
    )

-- A short write that does not fill the buffer.
read_room :
    (r : Ring) (xs : List ℕ)
    → IsValid r
    → 0 < length xs
    → r.len + length xs < r.capacity
    → read_all (append r xs) ≡ take r.write_pos r.buf ++ xs
read_room r xs v some_byte room =
    read_front (append r xs) (append-IsValid r xs v)
      (rw (append_short r xs some_byte (omega arith)) (omega arith))
    ∙ rw
        (
          append_short r xs some_byte (omega arith),
          mod-eq_of_lt {n = r.write_pos + length xs} {m = r.capacity} (omega arith),
        )
        (take-place r xs v (omega arith))

read_short :
    (r : Ring) (xs : List ℕ)
    → IsValid r
    → 0 < length xs
    → length xs < r.capacity
    → read_all (append r xs) ≡ last r.capacity (read_all r ++ xs)
read_short r xs v some_byte short = elim (dec_lt (r.len + length xs) r.capacity) [
  | no full ↦
      read_full (append r xs) (append-IsValid r xs v)
        (rw (append_short r xs some_byte short) (omega arith))
      ∙ rw (append_short r xs some_byte short) (from_pos-place r xs v short)
      ∙ kept_full r xs v short (omega arith)
  | yes room ↦
      read_room r xs v some_byte room
      ∙ sym (
          rw (read_front r v (omega arith)) (
            last-all r.capacity _ (
              omega
                (arith, length-append (take r.write_pos r.buf) xs, length-take r.write_pos r.buf))))
]

-- After an append the buffer holds the last `capacity` bytes of what it held and what came.
pub read_all-append :
    (r : Ring) (xs : List ℕ)
    → IsValid r
    → read_all (append r xs) ≡ last r.capacity (read_all r ++ xs)
read_all-append r xs v = elim (dec_lt 0 (length xs)) [
  | no empty ↦ rw (append_empty r xs (omega arith)) (
      sym (
        ap (last r.capacity) (nothing empty)
        ∙ last-all r.capacity (read_all r) (omega (arith, length-read_all r v))))
  | yes some_byte ↦ elim (dec_lt (length xs) r.capacity) [
    | yes short ↦ read_short r xs v some_byte short
    | no large ↦
        read_full (append r xs) (append-IsValid r xs v)
          (rw (append_large r xs (omega arith) (omega arith)))
        ∙ rw (append_large r xs (omega arith) (omega arith)) (append-nil _)
        ∙ sym (last-append_long r.capacity (read_all r) xs (omega arith))
  ]
]
  where
    nothing : ¬ (0 < length xs) → read_all r ++ xs ≡ read_all r
    nothing h = ap (◌++◌ (read_all r)) (none_left xs h) ∙ append-nil (read_all r)
