-- ===== src/Ring/Bounds.antt =====
-- The representation invariant of the buffer, and that each operation keeps it.
use native.Mathlib.Nat.{mod-eq_of_lt}
use serwebs.Prelude.{
  ℕ, ◌+◌, ◌-◌, ◌%◌, ◌≤◌, ◌<◌, min, ◌≡◌, ◌⊎◌, inl, inr, List, ◌++◌, arith, length, take, drop,
  length-append, length-take, length-drop, length-replicate,
}
use serwebs.Ring.{Ring, new, place, append, read_all, clear}

-- The storage has `capacity` bytes, the positions are in range, and until the buffer is full it
-- is filled from the front.
pub record IsValid (r : Ring) : Type 0 where
  pub storage : length r.buf ≡ r.capacity
  pub pos_in : r.write_pos < r.capacity
  pub len_in : r.len ≤ r.capacity
  pub front : (r.len ≡ r.capacity) ⊎ (r.write_pos ≡ r.len)

pub new-IsValid : (c : ℕ) → 0 < c → IsValid (new c)
unfolding new
new-IsValid c h = record {
  storage = length-replicate c 0;
  pos_in = h;
  len_in = omega arith;
  front = omega arith;
}

-- A short write keeps the size of the storage.
pub length-place :
    (r : Ring) (xs : List ℕ) → IsValid r → length xs < r.capacity → length (place r xs) ≡ r.capacity
unfolding place
length-place r xs v h = ground (
  arith,
  length-append (take r.write_pos r.buf) (xs ++ drop (r.write_pos + length xs) r.buf),
  length-append xs (drop (r.write_pos + length xs) r.buf),
  length-take r.write_pos r.buf,
  length-drop (r.write_pos + length xs) r.buf,
  length-append (drop (r.capacity - r.write_pos) xs) (
      drop (length xs - (r.capacity - r.write_pos))
        (take r.write_pos r.buf ++ take (r.capacity - r.write_pos) xs)),
  length-drop (r.capacity - r.write_pos) xs,
  length-drop (length xs - (r.capacity - r.write_pos))
      (take r.write_pos r.buf ++ take (r.capacity - r.write_pos) xs),
  length-append (take r.write_pos r.buf) (take (r.capacity - r.write_pos) xs),
  length-take (r.capacity - r.write_pos) xs,
)

-- Where the next write begins, after `n` more bytes.
step_front :
    (wp len n cap : ℕ)
    → wp < cap
    → len ≤ cap
    → (len ≡ cap) ⊎ (wp ≡ len)
    → (min (len + n) cap ≡ cap) ⊎ ((wp + n) % cap ≡ min (len + n) cap)
step_front wp len n cap p q (inl e) = inl (omega arith)
step_front wp len n cap p q (inr e) = grind (arith, mod-eq_of_lt)

-- From a valid buffer an append of any length leaves a valid buffer: storage of `capacity` bytes, a
-- write position inside it, and a front that is filled first.
pub append-IsValid : (r : Ring) (xs : List ℕ) → IsValid r → IsValid (append r xs)
unfolding append
append-IsValid r xs v = ground (
  arith,
  length-place r xs v,
  length-drop (length xs - r.capacity) xs,
  step_front r.write_pos r.len (length xs) r.capacity v.pos_in v.len_in v.front,
)

pub clear-IsValid : (r : Ring) → IsValid r → IsValid (clear r)
unfolding clear
clear-IsValid r v = ground arith

-- Replay holds exactly `len` bytes.
pub length-read_all : (r : Ring) → IsValid r → length (read_all r) ≡ r.len
unfolding read_all
length-read_all r v = ground (
  arith,
  length-take r.len r.buf,
  length-append (drop r.write_pos r.buf) (take r.write_pos r.buf),
  length-drop r.write_pos r.buf,
  length-take r.write_pos r.buf,
)
