-- ===== src/Ring/History.antt =====
-- The buffer against the stream of bytes that went into it.

use serwebs.Prelude.{
  ℕ, zero, suc, last-last_append, sym, ◌-◌, ◌≡◌, refl, ap, ◌∙◌, List, [], ◌∷◌, ◌++◌, arith, length,
  last, drop-nil, drop-all,
}
use serwebs.Ring.{Ring, new, append, read_all, clear}
use serwebs.Ring.Bounds.{IsValid, new-IsValid, append-IsValid, clear-IsValid}
use serwebs.Ring.Suffix.{read_all-append}

pub data Op : Type 0 where
  put : List ℕ → Op
  reset : Op

-- The calls that a port makes on its buffer, in order.
unfoldable pub apply : Ring → Op → Ring
unfolding append clear
apply r (put xs) = append r xs
apply r reset = clear r

unfoldable pub run : Ring → List Op → Ring
unfolding apply
run r [] = r
run r (op ∷ ops) = run (apply r op) ops

-- The specification: all bytes since the last reset.
unfoldable pub stream : List ℕ → List Op → List ℕ
stream acc [] = acc
stream acc (put xs ∷ ops) = stream (acc ++ xs) ops
stream acc (reset ∷ ops) = stream [] ops

capacity-apply : (r : Ring) (op : Op) → (apply r op).capacity ≡ r.capacity
unfolding apply
capacity-apply r (put xs) = ground arith
capacity-apply r reset = refl

apply-IsValid : (r : Ring) (op : Op) → IsValid r → IsValid (apply r op)
unfolding apply
apply-IsValid r (put xs) v = append-IsValid r xs v
apply-IsValid r reset v = clear-IsValid r v

read_all-clear : (r : Ring) → read_all (clear r) ≡ []
unfolding read_all clear
read_all-clear r = refl

-- From a valid buffer that holds the tail of `acc`.
run_from :
    (ops : List Op) (r : Ring) (acc : List ℕ)
    → IsValid r
    → read_all r ≡ last r.capacity acc
    → read_all (run r ops) ≡ last r.capacity (stream acc ops)
unfolding run stream
run_from [] r acc v e = e
run_from (put xs ∷ ops) r acc v e =
    run_from ops (apply r (put xs)) (acc ++ xs) (apply-IsValid r (put xs) v) (
      unfold apply in
      read_all-append r xs v
      ∙ ap (λ l. last r.capacity (l ++ xs)) e
      ∙ last-last_append r.capacity acc xs
      ∙ ap (λ (n : ℕ). last n (acc ++ xs)) (sym (capacity-apply r (put xs))))
    ∙ ap (λ (n : ℕ). last n (stream (acc ++ xs) ops)) (capacity-apply r (put xs))
run_from (reset ∷ ops) r acc v e =
    run_from ops (apply r reset) [] (apply-IsValid r reset v)
      (unfold apply in read_all-clear r ∙ sym (drop-nil (0 - r.capacity)))
    ∙ ap (λ (n : ℕ). last n (stream [] ops)) (capacity-apply r reset)

-- A buffer of capacity 0 holds nothing, whatever it is given.
run_none : (ops : List Op) (r : Ring) → r.capacity ≡ 0 → r.len ≡ 0 → read_all (run r ops) ≡ []
unfolding run apply read_all
run_none [] r c e = rw e
run_none (put xs ∷ ops) r c e = run_none ops (append r xs) (ground arith) (ground arith)
run_none (reset ∷ ops) r c e = run_none ops (clear r) c refl

-- From a new buffer of any capacity, after any appends and resets, replay is exactly the last
-- `capacity` bytes that came since the last reset, in the order in which they came.
pub replay-run :
    (capacity : ℕ) (ops : List Op)
    → read_all (run (new capacity) ops) ≡ last capacity (stream [] ops)
replay-run zero ops =
    run_none ops (new 0) (unfold new in refl) (unfold new in refl)
    ∙ sym (drop-all (length (stream [] ops) - 0) (stream [] ops) (omega arith))
replay-run (suc c) ops =
    unfold new in
    run_from ops (new (suc c)) [] (new-IsValid (suc c) (omega arith))
      (unfold read_all in sym (drop-nil (0 - suc c)))
