-- ===== src/Ring.antt =====
-- `RingBuffer` of serwebs/utils.py: the circular byte buffer behind session replay.
-- `_buf` is a list; Python's slices are `take` and `drop`, and a slice assignment replaces the
-- slice, whatever the lengths. A byte is only moved, so it is any number. `capacity` is not
-- negative (`bytearray` would raise).
pub mod Bounds
pub mod Positions
pub mod Suffix
pub mod History
mod Tests
use serwebs.Prelude.{
  ℕ, ◌+◌, ◌-◌, ◌%◌, min, List, [], ◌∷◌, ◌++◌, length, take, drop, replicate, ltb, leb, eqb,
  if◌then◌else◌,
}

pub record Ring : Type 0 where
  pub buf : List ℕ
  pub capacity : ℕ
  pub write_pos : ℕ
  pub len : ℕ

unfoldable pub new : ℕ → Ring
new capacity = record { buf = replicate capacity 0; capacity = capacity; write_pos = 0; len = 0 }

-- `data[-n:]`; at 0 the slice is the whole of `data`.
abbrev pub tail_slice : ℕ → List ℕ → List ℕ
tail_slice n xs = if eqb n 0 then xs else drop (length xs - n) xs

-- `buf[a:b] = data`
abbrev pub assign : List ℕ → ℕ → ℕ → List ℕ → List ℕ
assign buf a b xs = take a buf ++ (xs ++ drop b buf)

-- The bytes after a write of fewer than `capacity` bytes: in one piece, or wrapped in two.
unfoldable pub place : Ring → List ℕ → List ℕ
place r xs =
    if leb (r.write_pos + length xs) r.capacity
    then assign r.buf r.write_pos (r.write_pos + length xs) xs
    else let first = r.capacity - r.write_pos in
      assign (take r.write_pos r.buf ++ take first xs) 0 (length xs - first) (drop first xs)

unfoldable pub append : Ring → List ℕ → Ring
append r xs =
    if eqb (length xs) 0
    then r
    else if leb r.capacity (length xs)
    then record r { buf = tail_slice r.capacity xs; write_pos = 0; len = r.capacity }
    else record r {
      buf = place r xs;
      write_pos = (r.write_pos + length xs) % r.capacity;
      len = min (r.len + length xs) r.capacity;
    }

unfoldable pub read_all : Ring → List ℕ
read_all r =
    if eqb r.len 0
    then []
    else if ltb r.len r.capacity
    then take r.len r.buf
    else drop r.write_pos r.buf ++ take r.write_pos r.buf

unfoldable pub clear : Ring → Ring
clear r = record r { write_pos = 0; len = 0 }
