-- ===== src/Backends/Names.antt =====
-- Each name is that of one backend, as long as no update renames one.
use serwebs.Prelude.{
  ℕ, ◌+◌, ◌≤◌, ◌≡◌, refl, ◌∙◌, subst, inl, inr, String, Bool, true, false, ◌==◌, some, List, [],
  ◌∷◌, ◌++◌, Bool-cases, Option-cases, arith, if◌then◌else◌, eq_iff,
}
use serwebs.Auth.{or_else}
use serwebs.Backends.{
  BackendData, BackendConfig, Aggregator, of_data, of_list, is_taken, replace_first, remove_first,
  set_default_name, persist_backends,
}
use serwebs.Backends.Cases.{add_cases, update_cases, delete_cases}
use serwebs.Backends.Restart.{
  Call, add, update, delete, reload, step, run, IsSaved, step-IsSaved, reload_same, of_list-clean,
}

-- How many backends have the name.
abbrev pub count : String → List BackendConfig → ℕ
count name [] = 0
count name (b ∷ bs) = (if b.name == name then 1 else 0) + count name bs

count-append :
    (n : String) (bs : List BackendConfig) (b : BackendConfig)
    → count n (bs ++ b ∷ []) ≡ count n bs + (if b.name == n then 1 else 0)
count-append n [] b = omega arith
count-append n (x ∷ bs) b = omega (arith, count-append n bs b)

count_free : (n : String) (bs : List BackendConfig) → is_taken n bs ≡ false → count n bs ≡ 0
unfolding is_taken
count_free n [] h = refl
count_free n (b ∷ bs) h = ground (arith, count_free n bs)

count-remove-le :
    (n name : String) (bs : List BackendConfig) → count n (remove_first name bs) ≤ count n bs
unfolding remove_first
count-remove-le n name [] = omega arith
count-remove-le n name (b ∷ bs) = ground (arith, count-remove-le n name bs)

-- A replacement takes one backend of the name away and puts the new one in.
pub count-replace :
    (n name : String) (new : BackendConfig) (bs : List BackendConfig)
    → is_taken name bs ≡ true
    → count n (replace_first name new bs) + (if name == n then 1 else 0)
      ≡ count n bs + (if new.name == n then 1 else 0)
unfolding replace_first is_taken
count-replace n name new [] h = ground (arith, h)
count-replace n name new (b ∷ bs) h = elim (Bool-cases (b.name == name)) [
  | inl e ↦ ground (arith, e, eq_iff b.name name, eq_iff b.name n, eq_iff name n)
  | inr e ↦ ground (arith, e, h, count-replace n name new bs)
]

replace_free :
    (name : String) (new : BackendConfig) (bs : List BackendConfig)
    → is_taken name bs ≡ false
    → replace_first name new bs ≡ bs
unfolding replace_first is_taken
replace_free name new [] h = refl
replace_free name new (b ∷ bs) h = ground (arith, replace_free name new bs)

abbrev pub IsUnique : List BackendConfig → Type 0
IsUnique bs = (n : String) → count n bs ≤ 1

-- An update names no other backend than its own.
abbrev pub KeepsName : Call → Type 0
KeepsName (update name body user) = or_else body.name name ≡ name
KeepsName _ = Unit

abbrev pub AllKeepName : List Call → Type 0
AllKeepName [] = Unit
AllKeepName (c ∷ cs) = KeepsName c × AllKeepName cs

pub of_data-name :
    (d : BackendData) (name : String) (b : BackendConfig)
    → of_data (set_default_name name d) ≡ some b
    → b.name ≡ or_else d.name name
unfolding of_data
of_data-name d name b h = elim (Option-cases d.url) [
  | inl e ↦ ground (arith, e, h)
  | inr (url, e) ↦ ground (arith, e, h)
]

pub count-persist :
    (saves : Bool) (n : String) (a : Aggregator)
    → count n (persist_backends saves a).backends ≡ count n a.backends
unfolding persist_backends
count-persist true n a = refl
count-persist false n a = refl

add-le :
    (n : String) (bs : List BackendConfig) (b : BackendConfig)
    → IsUnique bs
    → is_taken b.name bs ≡ false
    → count n (bs ++ b ∷ []) ≤ 1
add-le n bs b u t = elim (Bool-cases (b.name == n)) [
  | inl e ↦
      let same : count n bs ≡ 0 =
        count_free n bs (subst (λ m. is_taken m bs ≡ false) ((eq_iff b.name n).0 e) t) in
      ground (arith, e, same, count-append n bs b)
  | inr e ↦ ground (arith, e, u n, count-append n bs b)
]

replace-le :
    (n name : String) (bs : List BackendConfig) (b : BackendConfig)
    → IsUnique bs
    → b.name ≡ name
    → count n (replace_first name b bs) ≤ 1
replace-le n name bs b u e = elim (Bool-cases (is_taken name bs)) [
  | inl t ↦ ground (arith, e, u n, count-replace n name b bs t)
  | inr t ↦ rw (replace_free name b bs t) (u n)
]

step-IsUnique :
    (a : Aggregator) (c : Call)
    → IsSaved a
    → KeepsName c
    → IsUnique a.backends
    → IsUnique (step a c).backends
unfolding step
step-IsUnique a (add body user) s k u n = elim (add_cases true a body user) [
  | inl e ↦ rw e (u n)
  | inr (b, d, t, e) ↦ rw (e, count-persist) (add-le n a.backends b u t)
]
step-IsUnique a (update name body user) s k u n = elim (update_cases true a name body user) [
  | inl e ↦ rw e (u n)
  | inr (b, d, e) ↦
      rw (e, count-persist) (replace-le n name a.backends b u (of_data-name body name b d ∙ k))
]
step-IsUnique a (delete name user) s k u n = elim (delete_cases true a name user) [
  | inl e ↦ rw e (u n)
  | inr e ↦ rw (e, count-persist) (omega (arith, u n, count-remove-le n name a.backends))
]
step-IsUnique a reload s k u n = rw (reload_same a s) (u n)

-- No name is that of two backends after any calls, if it was so of the file that was loaded, every
-- write goes through, and no update gives a backend another name.
pub run-IsUnique :
    (a : Aggregator) (content : List BackendData) (cs : List Call)
    → a.file ≡ some content
    → of_list content ≡ some a.backends
    → AllKeepName cs
    → IsUnique a.backends
    → IsUnique (run a cs).backends
unfolding run
run-IsUnique a content cs f l k u =
    from a cs (of_list-clean content a.backends l, (content, f, l)) k u
  where
    from :
        (b : Aggregator) (ds : List Call)
        → IsSaved b
        → AllKeepName ds
        → IsUnique b.backends
        → IsUnique (run b ds).backends
    from b [] s k u = u
    from b (d ∷ ds) s (k, ks) u =
        from (step b d) ds (step-IsSaved b d s) ks (step-IsUnique b d s k u)
