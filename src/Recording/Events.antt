-- ===== src/Recording/Events.antt =====
-- What a recording holds.
use mathlib.Core.Option.{some-injective}
use serwebs.Prelude.{
  ℕ, ◌-◌, ◌≡◌, ◌≢◌, refl, ap, sym, ◌∙◌, subst, String, ◌==◌, none, some, List, [], ◌∷◌, ◌++◌,
  append_assoc, append-nil, eq_iff, Bool-cases, Option-cases, inl, inr, if◌then◌else◌,
}
use serwebs.Dict.{get, put, get-put, get-pop}
use serwebs.Recording.{
  Recorder, ActiveRecording, CastLine, header, event_line, path_of, start, append_line, record_data,
  stop,
}
use serwebs.Recording.Steps.{
  Call, begin, record_of, finish, started, step, run, not_none, eq_false, not_equal, get-put_same,
  get-put_other, append-value, append-other, record-value, record-none, stop_cases, start_cases,
}

module _ (port_id fpath : String) where
  -- No call ends the recording of the port or takes its file for another one.
  abbrev pub LeavesAlone : Call → Type 0
  LeavesAlone (begin p user rec_id now) = path_of p rec_id ≢ fpath
  LeavesAlone (record_of p bytes direction now) = Unit
  LeavesAlone (finish p now) = p ≢ port_id

  abbrev pub AllLeaveAlone : List Call → Type 0
  AllLeaveAlone [] = Unit
  AllLeaveAlone (c ∷ cs) = LeavesAlone c × AllLeaveAlone cs

  -- The port is being recorded into the file, and no other port is.
  abbrev pub IsOwned : ActiveRecording → Recorder → Type 0
  IsOwned rec r =
      (get port_id r.active ≡ some rec)
      × ((p : String) (other : ActiveRecording)
          → p ≢ port_id
          → get p r.active ≡ some other
          → other.fpath ≢ fpath)

module _ (decode : List ℕ → String) (port_id fpath : String) where
  -- The lines for the data of the port, decoded, in order, with the time since the start.
  abbrev pub events : ℕ → List Call → List CastLine
  events at [] = []
  events at (record_of p bytes direction now ∷ cs) =
      let rest = events at cs in
      if p == port_id then event_line (now - at) direction (decode bytes) ∷ rest else rest
  events at (_ ∷ cs) = events at cs

module _ (decode : List ℕ → String) (port_id fpath : String) (rec : ActiveRecording)
    (own : rec.fpath ≡ fpath) where
  abbrev Held : List CastLine → Recorder → Type 0
  Held lines r = (get fpath r.files ≡ some lines) × IsOwned port_id fpath rec r

  -- the lines that one call adds
  abbrev added : Call → List CastLine
  added c = events decode port_id fpath rec.start_time (c ∷ [])

  begin-Held :
      (lines : List CastLine) (r : Recorder) (p user id : String) (now : ℕ)
      → path_of p id ≢ fpath
      → Held lines r
      → Held lines (started r (start r p user id now))
  begin-Held lines r p user id now n (f, (g, o)) =
      let new : ActiveRecording = record {
        rec_id = id;
        user = user;
        fpath = path_of p id;
        start_time = now;
      } in
      elim (start_cases r p user id now) [
        | inl e ↦ subst (Held lines) (sym e) (f, (g, o))
        | inr (free, e) ↦ subst (Held lines) (sym e) (
          get-put_other (path_of p id) fpath (header p ∷ []) r.files n ∙ f,
          (
            get-put_other p port_id new r.active
                  (λ q. not_none rec (sym free ∙ ap (λ k. get k r.active) q ∙ g))
                ∙ g,
            λ q other m h. elim (Bool-cases (p == q)) [
              | inl c ↦
                  let same =
                    some-injective new other (rw c at (sym (get-put p q new r.active) ∙ h)) in
                  subst (λ (x : ActiveRecording). x.fpath ≢ fpath) same n
              | inr c ↦ o q other m (rw c at (sym (get-put p q new r.active) ∙ h))
            ],
          ),
        )
      ]

  finish-Held :
      (lines : List CastLine) (r : Recorder) (p : String) (now : ℕ)
      → p ≢ port_id
      → Held lines r
      → Held lines (stop r p now).1
  finish-Held lines r p now n (f, (g, o)) = elim (stop_cases r p now) [
    | inl e ↦ subst (Held lines) (sym e) (f, (g, o))
    | inr e ↦ subst (Held lines) (sym e) (
      f,
      (
        get-pop p port_id r.active ∙ rw (eq_false p port_id n) g,
        λ q other m h. elim (Bool-cases (p == q)) [
          | inl c ↦ absurd (not_none other (rw c at (sym (get-pop p q r.active) ∙ h)))
          | inr c ↦ o q other m (rw c at (sym (get-pop p q r.active) ∙ h))
        ],
      ),
    )
  ]

  record-Held :
      (lines : List CastLine) (r : Recorder) (p : String) (bytes : List ℕ) (direction : String)
      (now : ℕ)
      → Held lines r
      → Held
          (lines ++ added (record_of p bytes direction now))
          (record_data decode r p bytes direction now)
  record-Held lines r p bytes direction now (f, (g, o)) = elim (Bool-cases (p == port_id)) [
    | inl e ↦
        let line = event_line (now - rec.start_time) direction (decode bytes) in
        let at_p = ap (λ k. get k r.active) ((eq_iff p port_id).0 e) ∙ g in
        let value = record-value decode r p bytes direction now rec at_p in
        let file : get fpath (append_line rec.fpath line r.files) ≡ some (lines ++ line ∷ []) =
          rw (own, append-value fpath line r.files lines f)
            (get-put_same fpath (lines ++ line ∷ []) r.files) in
        rw (e, value) (file, (g, o))
    | inr e ↦ elim (Option-cases (get p r.active)) [
      | inl free ↦
          rw (e, record-none decode r p bytes direction now free, append-nil lines) (f, (g, o))
      | inr (other, h) ↦
          let line = event_line (now - other.start_time) direction (decode bytes) in
          let apart = o p other (not_equal p port_id e) h in
          rw (e, record-value decode r p bytes direction now other h, append-nil lines)
            (append-other other.fpath fpath line r.files apart ∙ f, (g, o))
    ]
  ]

  events-step :
      (lines : List CastLine) (c : Call) (cs : List Call)
      → (lines ++ added c) ++ events decode port_id fpath rec.start_time cs
        ≡ lines ++ events decode port_id fpath rec.start_time (c ∷ cs)
  events-step lines (begin p user id now) cs = rw (append-nil lines)
  events-step lines (finish p now) cs = rw (append-nil lines)
  events-step lines (record_of p bytes direction now) cs = elim (Bool-cases (p == port_id)) [
    | inl e ↦ rw e (
        append_assoc lines (event_line (now - rec.start_time) direction (decode bytes) ∷ [])
          (events decode port_id fpath rec.start_time cs))
    | inr e ↦ rw (e, append-nil lines)
  ]

  step-Held :
      (lines : List CastLine) (r : Recorder) (c : Call)
      → LeavesAlone port_id fpath c
      → Held lines r
      → Held (lines ++ added c) (step decode r c)
  unfolding step
  step-Held lines r (begin p user id now) n h =
      rw (append-nil lines) (begin-Held lines r p user id now n h)
  step-Held lines r (record_of p bytes direction now) n h =
      record-Held lines r p bytes direction now h
  step-Held lines r (finish p now) n h = rw (append-nil lines) (finish-Held lines r p now n h)

  run-Held :
      (lines : List CastLine) (r : Recorder) (cs : List Call)
      → AllLeaveAlone port_id fpath cs
      → Held lines r
      → Held (lines ++ events decode port_id fpath rec.start_time cs) (run decode r cs)
  unfolding run
  run-Held lines r [] a h = rw (append-nil lines) h
  run-Held lines r (c ∷ cs) (l, a) h =
      subst (λ x. Held x (run decode (step decode r c) cs)) (events-step lines c cs)
        (run-Held (lines ++ added c) (step decode r c) cs a (step-Held lines r c l h))

abbrev opened : Recorder → String → String → String → ℕ → Recorder
opened r p user id now = record {
  active =
      put p (record { rec_id = id; user = user; fpath = path_of p id; start_time = now }) r.active;
  files = put (path_of p id) (header p ∷ []) r.files;
}

start_value :
    (r after : Recorder) (p user id : String) (now : ℕ)
    → start r p user id now ≡ some after
    → opened r p user id now ≡ after
unfolding start
start_value r after p user id now s = elim (Option-cases (get p r.active)) [
  | inl e ↦
      let value : start r p user id now ≡ some (opened r p user id now) = rw (e, start) in
      some-injective (opened r p user id now) after (sym value ∙ s)
  | inr (rec, e) ↦
      let value : start r p user id now ≡ none = rw (e, start) in
      absurd (not_none after (sym value ∙ s))
]

-- After a recording is started on a port that has none, with a file of its own, and then any starts,
-- stops and data of any ports, except a stop for that port and a start that takes its file, the file
-- holds the header and a line for each of the data of that port since, and no other: in order, each
-- with the decoded text, the direction and the time since the start.
pub recorded :
    (decode : List ℕ → String) (r after : Recorder) (port_id user rec_id : String) (now : ℕ)
    (cs : List Call)
    → start r port_id user rec_id now ≡ some after
    → ((p : String) (other : ActiveRecording)
        → p ≢ port_id
        → get p r.active ≡ some other
        → other.fpath ≢ path_of port_id rec_id)
    → AllLeaveAlone port_id (path_of port_id rec_id) cs
    → get (path_of port_id rec_id) (run decode after cs).files
      ≡ some (header port_id ∷ events decode port_id (path_of port_id rec_id) now cs)
recorded decode r after port_id user rec_id now cs s own a =
    let fpath : String = path_of port_id rec_id in
    let new : ActiveRecording = record {
      rec_id = rec_id;
      user = user;
      fpath = fpath;
      start_time = now;
    } in
    let held : Held decode port_id fpath new refl (header port_id ∷ [])
        (opened r port_id user rec_id now) =
      (
        get-put_same fpath (header port_id ∷ []) r.files,
        (
          get-put_same port_id new r.active,
          λ q other m h.
              own q other m (sym (get-put_other port_id q new r.active (λ e. m (sym e))) ∙ h),
        ),
      ) in
    (run-Held decode port_id fpath new refl (header port_id ∷ []) after cs a (
      subst (Held decode port_id fpath new refl (header port_id ∷ []))
        (start_value r after port_id user rec_id now s) held)).0
