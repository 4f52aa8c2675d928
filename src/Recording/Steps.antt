-- ===== src/Recording/Steps.antt =====
-- The calls of the recorder and what each does to its state.

use serwebs.Prelude.{
  ℕ, ◌-◌, ◌≡◌, ◌⊎◌, ◌≢◌, ap, ◌∙◌, String, false, ◌==◌, Option, none, some, List, [], ◌∷◌, ◌++◌,
  eq_iff, eq_refl, Option-cases, inl, inr, arith,
}
use serwebs.Dict.{Dict, get, put, pop, get-put}
use serwebs.Recording.{
  Recorder, ActiveRecording, CastLine, header, event_line, path_of, start, append_line, record_data,
  stop,
}

-- A call of the recorder; a start that raises leaves it as it was.
pub data Call : Type 0 where
  begin : String → String → String → ℕ → Call
  record_of : String → List ℕ → String → ℕ → Call
  finish : String → ℕ → Call

abbrev pub started : Recorder → Option Recorder → Recorder
started r none = r
started r (some after) = after

unfoldable pub step : (List ℕ → String) → Recorder → Call → Recorder
unfolding start record_data stop
step decode r (begin port_id user rec_id now) = started r (start r port_id user rec_id now)
step decode r (record_of port_id bytes direction now) =
    record_data decode r port_id bytes direction now
step decode r (finish port_id now) = (stop r port_id now).1

unfoldable pub run : (List ℕ → String) → Recorder → List Call → Recorder
unfolding step
run decode r [] = r
run decode r (c ∷ cs) = run decode (step decode r c) cs

pub not_none : {V : Type 0} (v : V) → ¬ (none ≡ some v)
not_none v h = ground (arith, h)

pub eq_false : (a b : String) → a ≢ b → (a == b) ≡ false
eq_false a b h = ground (arith, h, eq_iff a b)

pub not_equal : (a b : String) → (a == b) ≡ false → a ≢ b
not_equal a b h e = ground (arith, h, e, eq_iff a b)

pub get-put_same : {V : Type 0} (k : String) (v : V) (d : Dict V) → get k (put k v d) ≡ some v
get-put_same k v d = rw (get-put k k v d, eq_refl k)

pub get-put_other :
    {V : Type 0} (k j : String) (v : V) (d : Dict V) → k ≢ j → get j (put k v d) ≡ get j d
get-put_other k j v d n = rw (get-put k j v d, eq_false k j n)

pub append-value :
    (fpath : String) (line : CastLine) (files : Dict (List CastLine)) (lines : List CastLine)
    → get fpath files ≡ some lines
    → append_line fpath line files ≡ put fpath (lines ++ line ∷ []) files
unfolding append_line
append-value fpath line files lines g = rw (g, append_line)

pub append-none :
    (fpath : String) (line : CastLine) (files : Dict (List CastLine))
    → get fpath files ≡ none
    → append_line fpath line files ≡ files
unfolding append_line
append-none fpath line files g = rw (g, append_line)

pub append-other :
    (path fpath : String) (line : CastLine) (files : Dict (List CastLine))
    → path ≢ fpath
    → get fpath (append_line path line files) ≡ get fpath files
append-other path fpath line files n = elim (Option-cases (get path files)) [
  | inl e ↦ ap (get fpath) (append-none path line files e)
  | inr (lines, e) ↦
      ap (get fpath) (append-value path line files lines e)
      ∙ get-put_other path fpath (lines ++ line ∷ []) files n
]

pub record-value :
    (decode : List ℕ → String) (r : Recorder) (p : String) (bytes : List ℕ) (direction : String)
    (now : ℕ) (rec : ActiveRecording)
    → get p r.active ≡ some rec
    → record_data decode r p bytes direction now ≡ record r {
      files =
          append_line rec.fpath
            (event_line (now - rec.start_time) direction (decode bytes))
            r.files;
    }
unfolding record_data
record-value decode r p bytes direction now rec g = rw (g, record_data)

pub record-none :
    (decode : List ℕ → String) (r : Recorder) (p : String) (bytes : List ℕ) (direction : String)
    (now : ℕ)
    → get p r.active ≡ none
    → record_data decode r p bytes direction now ≡ r
unfolding record_data
record-none decode r p bytes direction now g = rw (g, record_data)

pub stop_cases :
    (r : Recorder) (p : String) (now : ℕ)
    → ((stop r p now).1 ≡ r) ⊎ ((stop r p now).1 ≡ record r { active = pop p r.active })
unfolding stop
stop_cases r p now = elim (Option-cases (get p r.active)) [
  | inl e ↦ inl (rw (e, stop))
  | inr (rec, e) ↦ inr (rw (e, stop))
]

pub start_cases :
    (r : Recorder) (p user id : String) (now : ℕ)
    → (started r (start r p user id now) ≡ r)
      ⊎ ((get p r.active ≡ none)
          × (started r (start r p user id now) ≡ record {
            active =
                put p
                  (record { rec_id = id; user = user; fpath = path_of p id; start_time = now })
                  r.active;
            files = put (path_of p id) (header p ∷ []) r.files;
          }))
unfolding start
start_cases r p user id now = elim (Option-cases (get p r.active)) [
  | inl e ↦ inr (e, rw (e, start))
  | inr (rec, e) ↦ inl (rw (e, start))
]
