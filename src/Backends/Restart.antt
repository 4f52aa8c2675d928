-- ===== src/Backends/Restart.antt =====
-- The file says what the list of backends says, after any calls.
use serwebs.Prelude.{
  String, ◌≡◌, refl, sym, subst, true, ◌==◌, some, List, [], ◌∷◌, ◌++◌, map, arith, eq_iff,
  Bool-cases, Option-cases, inl, inr,
}
use serwebs.Text.{rstrip_slash, is_slash}
use serwebs.Text.Laws.{rstrip_idem}
use serwebs.Roles.{User}
use serwebs.Backends.Cases.{add_cases, update_cases, delete_cases}
use serwebs.Backends.{
  BackendData, BackendConfig, Aggregator, of_data, of_list, to_data, reload_backends,
  persist_backends, replace_first, remove_first, set_default_name, add_route, update_route,
  delete_route,
}

-- The URLs end in no slash.
abbrev pub AllClean : List BackendConfig → Type 0
AllClean [] = Unit
AllClean (b ∷ bs) = (rstrip_slash b.url ≡ b.url) × AllClean bs

rstrip_slash_idem : (s : String) → rstrip_slash (rstrip_slash s) ≡ rstrip_slash s
unfolding rstrip_slash
rstrip_slash_idem s = rstrip_idem is_slash s

of_data-clean :
    (d : BackendData) (b : BackendConfig) → of_data d ≡ some b → rstrip_slash b.url ≡ b.url
unfolding of_data
of_data-clean d b h = elim (Option-cases d.name) [
  | inl e ↦ ground (arith, e, h)
  | inr (name, e) ↦ elim (Option-cases d.url) [
    | inl f ↦ ground (arith, e, f, h)
    | inr (url, f) ↦ ground (arith, e, f, h, rstrip_slash_idem url)
  ]
]

-- An entry of the file gives the backend back.
of_data-to_data : (b : BackendConfig) → rstrip_slash b.url ≡ b.url → of_data (to_data b) ≡ some b
unfolding of_data to_data
of_data-to_data b h =
    ground (arith, h, eq_iff b.token "", eq_iff b.username "", eq_iff b.password "")

of_list-to_data : (bs : List BackendConfig) → AllClean bs → of_list (map to_data bs) ≡ some bs
unfolding of_list
of_list-to_data [] c = refl
of_list-to_data (b ∷ bs) (h, c) = ground (arith, of_data-to_data b h, of_list-to_data bs c)

pub of_list-clean :
    (ds : List BackendData) (bs : List BackendConfig) → of_list ds ≡ some bs → AllClean bs
unfolding of_list
of_list-clean [] bs h = subst AllClean {x = []} (ground (arith, h)) tt
of_list-clean (d ∷ ds) bs h = elim (Option-cases (of_data d)) [
  | inl e ↦ ground (arith, e, h)
  | inr (b, e) ↦ elim (Option-cases (of_list ds)) [
    | inl f ↦ ground (arith, e, f, h)
    | inr (rest, f) ↦
        subst AllClean {x = b ∷ rest} (ground (arith, e, f, h))
          (of_data-clean d b e, of_list-clean ds rest f)
  ]
]

AllClean-append :
    (bs : List BackendConfig) (b : BackendConfig)
    → AllClean bs
    → rstrip_slash b.url ≡ b.url
    → AllClean (bs ++ b ∷ [])
AllClean-append [] b c h = (h, tt)
AllClean-append (x ∷ bs) b (k, c) h = (k, AllClean-append bs b c h)

AllClean-replace :
    (name : String) (new : BackendConfig) (bs : List BackendConfig)
    → AllClean bs
    → rstrip_slash new.url ≡ new.url
    → AllClean (replace_first name new bs)
unfolding replace_first
AllClean-replace name new [] c h = tt
AllClean-replace name new (b ∷ bs) (k, c) h = elim (Bool-cases (b.name == name)) [
  | inl e ↦ rw e (h, c)
  | inr e ↦ rw e (k, AllClean-replace name new bs c h)
]

AllClean-remove :
    (name : String) (bs : List BackendConfig) → AllClean bs → AllClean (remove_first name bs)
unfolding remove_first
AllClean-remove name [] c = tt
AllClean-remove name (b ∷ bs) (k, c) = elim (Bool-cases (b.name == name)) [
  | inl e ↦ rw e c
  | inr e ↦ rw e (k, AllClean-remove name bs c)
]

-- A reload finds in the file what the list holds.
abbrev pub IsSaved : Aggregator → Type 0
IsSaved a =
    AllClean a.backends
    × ((content : List BackendData) × (a.file ≡ some content) × (of_list content ≡ some a.backends))

persist-IsSaved : (a : Aggregator) → AllClean a.backends → IsSaved (persist_backends true a)
unfolding persist_backends
persist-IsSaved a c = (c, (map to_data a.backends, refl, of_list-to_data a.backends c))

clean : (a : Aggregator) → IsSaved a → AllClean a.backends
clean a (c, rest) = c

pub reload_same : (a : Aggregator) → IsSaved a → reload_backends a ≡ a
unfolding reload_backends
reload_same a (c, (content, f, l)) = ground (arith, f, l)

-- A call of a route that changes the backends, or of the reload.
pub data Call : Type 0 where
  add : BackendData → User → Call
  update : String → BackendData → User → Call
  delete : String → User → Call
  reload : Call

unfoldable pub step : Aggregator → Call → Aggregator
unfolding add_route update_route delete_route reload_backends
step a (add body user) = (add_route true a body user).1
step a (update name body user) = (update_route true a name body user).1
step a (delete name user) = (delete_route true a name user).1
step a reload = reload_backends a

unfoldable pub run : Aggregator → List Call → Aggregator
unfolding step
run a [] = a
run a (c ∷ cs) = run (step a c) cs

pub step-IsSaved : (a : Aggregator) (c : Call) → IsSaved a → IsSaved (step a c)
unfolding step
step-IsSaved a (add body user) s = elim (add_cases true a body user) [
  | inl e ↦ subst IsSaved (sym e) s
  | inr (b, d, t, e) ↦ subst IsSaved (sym e) (
      persist-IsSaved (record a { backends = a.backends ++ b ∷ [] })
        (AllClean-append a.backends b (clean a s) (of_data-clean body b d)))
]
step-IsSaved a (update name body user) s = elim (update_cases true a name body user) [
  | inl e ↦ subst IsSaved (sym e) s
  | inr (b, d, e) ↦ subst IsSaved (sym e) (
      persist-IsSaved (record a { backends = replace_first name b a.backends })
        (AllClean-replace name b a.backends (clean a s)
          (of_data-clean (set_default_name name body) b d)))
]
step-IsSaved a (delete name user) s = elim (delete_cases true a name user) [
  | inl e ↦ subst IsSaved (sym e) s
  | inr e ↦ subst IsSaved (sym e) (
      persist-IsSaved (record a { backends = remove_first name a.backends })
        (AllClean-remove name a.backends (clean a s)))
]
step-IsSaved a reload s = subst IsSaved (sym (reload_same a s)) s

run-IsSaved : (a : Aggregator) (cs : List Call) → IsSaved a → IsSaved (run a cs)
unfolding run
run-IsSaved a [] s = s
run-IsSaved a (c ∷ cs) s = run-IsSaved (step a c) cs (step-IsSaved a c s)

-- After the aggregator has loaded a file, and after any calls of the routes and reloads, with every
-- write of the file going through: there is a file, what it holds reads as exactly the list of
-- backends, and so an aggregator that starts with any other list has this one after it has loaded it.
pub reload-run :
    (a : Aggregator) (content : List BackendData) (cs : List Call) (before : List BackendConfig)
    → a.file ≡ some content
    → of_list content ≡ some a.backends
    → ((saved : List BackendData) × ((run a cs).file ≡ some saved)
        × (of_list saved ≡ some (run a cs).backends))
      × (reload_backends (record (run a cs) { backends = before }) ≡ run a cs)
reload-run a content cs before f l =
    let (c, (saved, g, k)) =
      run-IsSaved a cs (of_list-clean content a.backends l, (content, f, l)) in
    ((saved, g, k), unfold reload_backends in ground (arith, g, k))
