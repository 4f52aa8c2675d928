-- ===== src/Stores/Clean.antt =====
-- What the stores hold after any calls.
use mathlib.Core.Option.{some-injective}
use mathlib.Core.Bool.{false≢true}
use serwebs.Prelude.{
  ◌≡◌, ◌⊎◌, refl, ap, sym, ◌∙◌, subst, String, true, false, ◌==◌, Option, none, some, List, [], ◌∷◌,
  is_some, Bool-cases, Option-cases, List-cases, inl, inr, arith, if◌then◌else◌,
}
use serwebs.Text.{is_true, strip}
use serwebs.Text.Laws.{strip_idem}
use serwebs.Dict.{Dict, get, put, pop, get-put, get-pop}
use serwebs.Roles.{User, require_role}
use serwebs.Models.{PortInfo}
use serwebs.Stores.{
  Stores, Profile, profiled, set_port_alias, cleaned, set_port_tags, rename_port, update_port_tags,
  save_profile, get_profile, is_empty, remove_profile, Call, rename, tag, save, remove, step, run,
}

-- Every value of the dictionary has the property.
abbrev pub AllValues : {V : Type 0} → (V → Type 0) → Dict V → Type 0
AllValues {V} P d = (k : String) (v : V) → get k d ≡ some v → P v

not_some : {V : Type 0} (w : V) → ¬ (none ≡ some w)
not_some w h = ground (arith, h)

module _ {V : Type 0} (P : V → Type 0) (d : Dict V) (holds : AllValues P d) where
  put-AllValues : (k : String) (v : V) → P v → AllValues P (put k v d)
  put-AllValues k v p j w h = elim (Bool-cases (k == j)) [
    | inl e ↦ subst P (some-injective _ w (rw e at (sym (get-put k j v d) ∙ h))) p
    | inr e ↦ holds j w (rw e at (sym (get-put k j v d) ∙ h))
  ]

  pop-AllValues : (k : String) → AllValues P (pop k d)
  pop-AllValues k j w h = elim (Bool-cases (k == j)) [
    | inl e ↦ absurd (not_some w (rw e at (sym (get-pop k j d) ∙ h)))
    | inr e ↦ holds j w (rw e at (sym (get-pop k j d) ∙ h))
  ]

abbrev pub IsAlias : String → Type 0
IsAlias a = (is_true a ≡ true) × (strip a ≡ a)

abbrev pub AllTrue : List String → Type 0
AllTrue [] = Unit
AllTrue (t ∷ ts) = (is_true t ≡ true) × AllTrue ts

abbrev pub IsTags : List String → Type 0
IsTags [] = ⊥
IsTags (t ∷ ts) = AllTrue (t ∷ ts)

abbrev pub IsProfile : Profile → Type 0
IsProfile profile = is_some (get "baudrate" profile) ≡ true

pub record IsClean (s : Stores) : Type 0 where
  pub aliases : AllValues IsAlias s.aliases
  pub tags : AllValues IsTags s.tags
  pub profiles : AllValues IsProfile s.profiles

set_port_alias-AllValues :
    (d : Dict String) (port_id alias : String)
    → AllValues IsAlias d
    → AllValues IsAlias (set_port_alias d port_id alias)
unfolding set_port_alias
set_port_alias-AllValues d port_id alias h = elim (Bool-cases (is_true (strip alias))) [
  | inl e ↦ rw e (put-AllValues IsAlias d h port_id (strip alias) (e, strip_idem alias))
  | inr e ↦ rw e (pop-AllValues IsAlias d h port_id)
]

module _ (lower : String → String)
    (lower_true : (s : String) → is_true s ≡ true → is_true (lower s) ≡ true) where
  cleaned-AllTrue : (tags : List String) → AllTrue (cleaned lower tags)
  unfolding cleaned
  cleaned-AllTrue [] = tt
  cleaned-AllTrue (t ∷ tags) = elim (Bool-cases (is_true (strip t))) [
    | inl e ↦
        subst AllTrue {x = lower (strip t) ∷ cleaned lower tags} (rw (e, cleaned))
          (lower_true (strip t) e, cleaned-AllTrue tags)
    | inr e ↦ subst AllTrue {x = cleaned lower tags} (rw (e, cleaned)) (cleaned-AllTrue tags)
  ]

  tagged-AllValues :
      (d : Dict (List String)) (port_id : String) (tags : List String)
      → AllValues IsTags d
      → AllValues IsTags (set_port_tags lower d port_id tags)
  unfolding set_port_tags
  tagged-AllValues d port_id tags h = elim (List-cases (cleaned lower tags)) [
    | inl e ↦
        subst (AllValues IsTags) {x = pop port_id d} (rw (e, set_port_tags))
          (pop-AllValues IsTags d h port_id)
    | inr (t, ts, e) ↦
        subst (AllValues IsTags) {x = put port_id (t ∷ ts) d} (rw (e, set_port_tags))
          (put-AllValues IsTags d h port_id (t ∷ ts) (subst AllTrue e (cleaned-AllTrue tags)))
  ]

rename_cases :
    (s : Stores) (port : Option PortInfo) (port_id alias : String) (user : User)
    → ((rename_port s port port_id alias user).1 ≡ s)
      ⊎ ((rename_port s port port_id alias user).1
          ≡ record s { aliases = set_port_alias s.aliases port_id alias })
unfolding rename_port
rename_cases s none port_id alias user = elim (Bool-cases (require_role "admin" user)) [
  | inl e ↦ inl (rw e)
  | inr e ↦ inl (rw e)
]
rename_cases s (some p) port_id alias user = elim (Bool-cases (require_role "admin" user)) [
  | inl e ↦ inr (rw e)
  | inr e ↦ inl (rw e)
]

tag_cases :
    (lower : String → String) (s : Stores) (port_id : String) (body : Option (List String))
    (user : User)
    → ((update_port_tags lower s port_id body user).1 ≡ s)
      ⊎ ((tags : List String) × ((update_port_tags lower s port_id body user).1
            ≡ record s { tags = set_port_tags lower s.tags port_id tags }))
unfolding update_port_tags
tag_cases lower s port_id none user = elim (Bool-cases (require_role "admin" user)) [
  | inl e ↦ inl (rw e)
  | inr e ↦ inl (rw e)
]
tag_cases lower s port_id (some tags) user = elim (Bool-cases (require_role "admin" user)) [
  | inl e ↦ inr (tags, rw e)
  | inr e ↦ inl (rw e)
]

save_cases :
    (s : Stores) (port_id : String) (profile : Profile) (user : User)
    → ((save_profile s port_id profile user).1 ≡ s)
      ⊎ (IsProfile profile
          × ((save_profile s port_id profile user).1
              ≡ record s { profiles = put port_id profile s.profiles }))
unfolding save_profile
save_cases s port_id profile user = elim (Bool-cases (require_role "admin" user)) [
  | inr e ↦ inl (rw e)
  | inl e ↦ elim (Option-cases (get "baudrate" profile)) [
    | inl g ↦ inl (rw (e, g))
    | inr (baud, g) ↦ inr (rw g, rw (e, g))
  ]
]

remove_cases :
    (s : Stores) (port_id : String) (user : User)
    → ((remove_profile s port_id user).1 ≡ s)
      ⊎ ((remove_profile s port_id user).1 ≡ record s { profiles = pop port_id s.profiles })
unfolding remove_profile
remove_cases s port_id user = elim (Bool-cases (require_role "admin" user)) [
  | inl e ↦ inr (rw e)
  | inr e ↦ inl (rw e)
]

module _ (lower : String → String)
    (lower_true : (s : String) → is_true s ≡ true → is_true (lower s) ≡ true) where
  step-IsClean : (s : Stores) (c : Call) → IsClean s → IsClean (step lower s c)
  unfolding step
  step-IsClean s (rename port port_id alias user) h =
      elim (rename_cases s port port_id alias user) [
        | inl e ↦ subst IsClean (sym e) h
        | inr e ↦ subst IsClean (sym e) (record {
          aliases = set_port_alias-AllValues s.aliases port_id alias h.aliases;
          tags = h.tags;
          profiles = h.profiles;
        })
      ]
  step-IsClean s (tag port_id body user) h = elim (tag_cases lower s port_id body user) [
    | inl e ↦ subst IsClean (sym e) h
    | inr (tags, e) ↦ subst IsClean (sym e) (record {
      aliases = h.aliases;
      tags = tagged-AllValues lower lower_true s.tags port_id tags h.tags;
      profiles = h.profiles;
    })
  ]
  step-IsClean s (save port_id profile user) h = elim (save_cases s port_id profile user) [
    | inl e ↦ subst IsClean (sym e) h
    | inr (p, e) ↦ subst IsClean (sym e) (record {
      aliases = h.aliases;
      tags = h.tags;
      profiles = put-AllValues IsProfile s.profiles h.profiles port_id profile p;
    })
  ]
  step-IsClean s (remove port_id user) h = elim (remove_cases s port_id user) [
    | inl e ↦ subst IsClean (sym e) h
    | inr e ↦ subst IsClean (sym e) (record {
      aliases = h.aliases;
      tags = h.tags;
      profiles = pop-AllValues IsProfile s.profiles h.profiles port_id;
    })
  ]

  -- From stores that are clean, as empty ones are, any calls of the routes lead to clean ones: every
  -- alias is a text that is not empty and has no space at its ends, every list of tags has a tag and
  -- none that is empty, and every profile has a baud rate. `lower` makes no text empty.
  pub run-IsClean : (s : Stores) (cs : List Call) → IsClean s → IsClean (run lower s cs)
  unfolding run
  run-IsClean s [] h = h
  run-IsClean s (c ∷ cs) h = run-IsClean (step lower s c) cs (step-IsClean s c h)

not_empty : (profile : Profile) → IsProfile profile → is_empty profile ≡ false
unfolding get
not_empty [] h = ground (arith, h)
not_empty (p ∷ ps) h = refl

profile_kept :
    (s : Stores) (port_id other : String) (profile : Profile)
    → IsProfile profile
    → get_profile (record s { profiles = put port_id profile s.profiles }) other
      ≡ (if port_id == other then profiled profile else get_profile s other)
unfolding get_profile
profile_kept s port_id other profile p = elim (Bool-cases (port_id == other)) [
  | inl e ↦
      let found = rw e at (get-put port_id other profile s.profiles) in
      rw (e, get_profile, found, not_empty profile p)
  | inr e ↦
      let found = rw e at (get-put port_id other profile s.profiles) in rw (e, get_profile, found)
]

save-value :
    (s : Stores) (port_id : String) (profile : Profile) (user : User) (baud : String)
    → require_role "admin" user ≡ true
    → get "baudrate" profile ≡ some baud
    → ((save_profile s port_id profile user).0 ≡ profiled profile)
      × ((save_profile s port_id profile user).1
          ≡ record s { profiles = put port_id profile s.profiles })
unfolding save_profile
save-value s port_id profile user baud r g = (rw (r, g), rw (r, g))

-- A profile with a baud rate that an admin saves is what the route for that port gives from then on,
-- and what the route gives for any other port stays as it was.
pub save-get_profile :
    (s : Stores) (port_id other : String) (profile : Profile) (user : User)
    → require_role "admin" user ≡ true
    → IsProfile profile
    → let (reply, after, entries) = save_profile s port_id profile user in
      ((reply ≡ profiled profile)
        × (get_profile after other
            ≡ (if port_id == other then profiled profile else get_profile s other)))
save-get_profile s port_id other profile user r p = elim (Option-cases (get "baudrate" profile)) [
  | inl g ↦ absurd (false≢true (sym (ap is_some g) ∙ p))
  | inr (baud, g) ↦
      let (reply, after) = save-value s port_id profile user baud r g in
      (reply, ap (λ t. get_profile t other) after ∙ profile_kept s port_id other profile p)
]
