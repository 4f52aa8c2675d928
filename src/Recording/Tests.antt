-- ===== src/Recording/Tests.antt =====
-- A recording of a few data on two ports.
use mathlib.Core.Option.{some-injective}
use serwebs.Prelude.{
  ℕ, ◌≡◌, ◌≢◌, ◌==◌, eqb, if◌then◌else◌, subst, Bool-cases, inl, inr, refl, eq_iff, String, some,
  List, [], ◌∷◌, arith,
}
use serwebs.Text.{concat}
use serwebs.Dict.{get, put}
use serwebs.Recording.{Recorder, ActiveRecording, header, event_line, path_of, start, Stored}
use serwebs.Recording.Steps.{Call, record_of, finish, run, not_none}
use serwebs.Recording.Events.{recorded}

abbrev other : ActiveRecording
other = record { rec_id = "0"; user = "bob"; fpath = "b/0.cast"; start_time = 5 }

abbrev before : Recorder
before = record { active = ("b", other) ∷ []; files = ("b/0.cast", header "b" ∷ []) ∷ [] }

abbrev after : Recorder
after = record {
  active =
      ("b", other)
      ∷ ("a", record { rec_id = "1"; user = "ann"; fpath = "a/1.cast"; start_time = 100 })
      ∷ [];
  files = ("b/0.cast", header "b" ∷ []) ∷ ("a/1.cast", header "a" ∷ []) ∷ [];
}

-- Enough of the decoding for these bytes.
abbrev decode : List ℕ → String
decode [] = ""
decode (b ∷ bytes) = if eqb b 65 then "A" else "�"

abbrev calls : List Call
calls =
    record_of "a" (65 ∷ []) "o" 107
    ∷ record_of "b" (66 ∷ []) "o" 108
    ∷ finish "b" 109
    ∷ record_of "a" (200 ∷ []) "i" 120
    ∷ []

only_other : (p : String) (rec : ActiveRecording) → get p before.active ≡ some rec → other ≡ rec
unfolding get
only_other p rec h = elim (Bool-cases ("b" == p)) [
  | inl e ↦ some-injective other rec (rw e at h)
  | inr e ↦ absurd (not_none rec (rw e at h))
]

recorded_example :
    get (path_of "a" "1") (run decode after calls).files
    ≡ some (header "a" ∷ event_line 7 "o" "A" ∷ event_line 20 "i" "�" ∷ [])
unfolding start path_of concat get put
recorded_example =
    recorded decode before after "a" "ann" "1" 100 calls refl
      (λ p rec m h.
        subst (λ (x : ActiveRecording). x.fpath ≢ "a/1.cast") (only_other p rec h)
          (λ e. ground (arith, (eq_iff "b/0.cast" "a/1.cast").1 e)))
      (tt, (tt, ((λ e. ground (arith, (eq_iff "b" "a").1 e)), (tt, tt))))

abbrev files : List Stored
files =
    record { name = "x"; size = 6 }
    ∷ record { name = "y"; size = 5 }
    ∷ record { name = "z"; size = 4 }
    ∷ []
