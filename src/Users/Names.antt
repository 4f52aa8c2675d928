-- ===== src/Users/Names.antt =====
-- The names and roles of users.json over any sequence of calls of the user routes.
use serwebs.Prelude.{
  ◌≡◌, refl, subst, ◌∙◌, String, true, false, ◌==◌, ◌||◌, eq_iff, arith, ◌⊎◌, inl, inr, some,
  Option-cases, Bool-cases, List, [], ◌∷◌, ◌++◌, not, if◌then◌else◌, length, ltb, eqb, keep,
}
use serwebs.Roles.{User, require_role}
use serwebs.Auth.{UserConfig, RuntimeUser, or_else}
use serwebs.Users.{
  Texts, Body, is_role, in_config, has_name, in_runtime, create_user, change_role, change_password,
  change, change_first, update_user, delete_user,
}

-- Every user has a name that the configuration and the users after it do not have, and a role.
abbrev pub IsWellFormed : List UserConfig → List RuntimeUser → Type 0
IsWellFormed cfg_users [] = Unit
IsWellFormed cfg_users (u ∷ us) =
    ((name : String) × (u.username ≡ some name)
      × (in_config name cfg_users ≡ false)
      × (in_runtime name us ≡ false))
    × ((role : String) × (u.role ≡ some role) × (is_role role ≡ true))
    × IsWellFormed cfg_users us

in_runtime-append :
    (name : String) (us vs : List RuntimeUser)
    → in_runtime name (us ++ vs) ≡ (if in_runtime name us then true else in_runtime name vs)
unfolding in_runtime
in_runtime-append name [] vs = refl
in_runtime-append name (u ∷ us) vs = ground (arith, in_runtime-append name us vs)

append-IsWellFormed :
    (cfg_users : List UserConfig) (us : List RuntimeUser) (name role : String) (u : RuntimeUser)
    → IsWellFormed cfg_users us
    → u.username ≡ some name
    → u.role ≡ some role
    → is_role role ≡ true
    → in_config name cfg_users ≡ false
    → in_runtime name us ≡ false
    → IsWellFormed cfg_users (us ++ u ∷ [])
unfolding in_runtime
append-IsWellFormed cfg_users [] name role u w n r i c d = ((name, n, c, refl), (role, r, i), tt)
append-IsWellFormed cfg_users (v ∷ us) name role u ((m, vn, mc, md), vr, w) n r i c d = (
  (m, vn, mc, ground (arith, in_runtime-append m us (u ∷ []), eq_iff m name, eq_iff name m)),
  vr,
  append-IsWellFormed cfg_users us name role u w n r i c (ground arith),
)

in_runtime-keep :
    (name other : String) (us : List RuntimeUser)
    → in_runtime name us ≡ false
    → in_runtime name (keep (λ u. not (has_name other u)) us) ≡ false
unfolding in_runtime
in_runtime-keep name other [] h = refl
in_runtime-keep name other (u ∷ us) h = ground (arith, in_runtime-keep name other us (ground arith))

keep-IsWellFormed :
    (cfg_users : List UserConfig) (us : List RuntimeUser) (name : String)
    → IsWellFormed cfg_users us
    → IsWellFormed cfg_users (keep (λ u. not (has_name name u)) us)
keep-IsWellFormed cfg_users [] name w = tt
keep-IsWellFormed cfg_users (v ∷ us) name ((m, vn, mc, md), vr, w) =
    elim (Bool-cases (has_name name v)) [
      | inl e ↦ rw e (keep-IsWellFormed cfg_users us name w)
      | inr e ↦
          rw e
            ((m, vn, mc, in_runtime-keep m name us md), vr, keep-IsWellFormed cfg_users us name w)
    ]

module _ (t : Texts) (cfg_users : List UserConfig) where
  -- A change keeps the name, and leaves a role that is one.
  change-lem :
      (body : Body) (u v : RuntimeUser) (role : String)
      → u.role ≡ some role
      → is_role role ≡ true
      → change t cfg_users body u ≡ some v
      → (v.username ≡ u.username) × ((r : String) × (v.role ≡ some r) × (is_role r ≡ true))
  unfolding change change_role change_password
  change-lem body u v role r i h = elim (Option-cases body.role) [
    | inl e ↦ (ground (arith, e, h), (role, ground (arith, e, h), i))
    | inr (new, e) ↦ (ground (arith, e, h), (new, ground (arith, e, h), ground (arith, e, h)))
  ]

  change_first-IsWellFormed :
      (username : String) (body : Body) (us vs : List RuntimeUser) (v : RuntimeUser)
      → IsWellFormed cfg_users us
      → change_first t cfg_users username body us ≡ some (v, vs)
      → IsWellFormed cfg_users vs × ((n : String) → in_runtime n vs ≡ in_runtime n us)
  unfolding change_first in_runtime
  change_first-IsWellFormed username body [] vs v w h = ground arith
  change_first-IsWellFormed username body (u ∷ us) vs v ((m, un, mc, md), (role, ur, i), w) h =
      elim (Bool-cases (has_name username u)) [
        | inl e ↦ elim (Option-cases (change t cfg_users body u)) [
          | inl c ↦ ground (arith, e, c, h)
          | inr (x, c) ↦
              let (nx, rx) = change-lem body u x role ur i c in
              subst
                (λ l.
                  IsWellFormed cfg_users l
                  × ((n : String) → in_runtime n l ≡ in_runtime n (u ∷ us)))
                {x = x ∷ us} (ground (arith, e, c, h)) (((m, nx ∙ un, mc, md), rx, w), λ n. rw nx)
        ]
        | inr e ↦ elim (Option-cases (change_first t cfg_users username body us)) [
          | inl c ↦ ground (arith, e, c, h)
          | inr ((x, xs), c) ↦
              let (wx, same) = change_first-IsWellFormed username body us xs x w c in
              subst
                (λ l.
                  IsWellFormed cfg_users l
                  × ((n : String) → in_runtime n l ≡ in_runtime n (u ∷ us)))
                {x = u ∷ xs} (ground (arith, e, c, h))
                (((m, un, mc, same m ∙ md), (role, ur, i), wx), λ n. ground (arith, same n))
        ]
      ]

-- A call of a route that changes users, with its caller.
pub data Call : Type 0 where
  create : Body → User → Call
  update : String → Body → User → Call
  delete : String → User → Call

module _ (t : Texts) (cfg_users : List UserConfig) where
  unfoldable pub step : List RuntimeUser → Call → List RuntimeUser
  unfolding create_user update_user delete_user
  step us (create body user) = (create_user t cfg_users us body user).1.users
  step us (update name body user) = (update_user t cfg_users us name body user).1.users
  step us (delete name user) = (delete_user t cfg_users us name user).1.users

  unfoldable pub run : List RuntimeUser → List Call → List RuntimeUser
  unfolding step
  run us [] = us
  run us (c ∷ cs) = run (step us c) cs

  abbrev created : Body → RuntimeUser
  created body = record {
    username = some (t.strip (or_else body.username ""));
    password_hash = some (t.hash (or_else body.password ""));
    role = some (or_else body.role "user");
  }

  -- Either nothing is saved, or the tests have passed.
  create_cases :
      (us : List RuntimeUser) (body : Body) (user : User)
      → ((create_user t cfg_users us body user).1.users ≡ us)
        ⊎ (((create_user t cfg_users us body user).1.users ≡ us ++ created body ∷ [])
            × (is_role (or_else body.role "user") ≡ true)
            × (in_config (t.strip (or_else body.username "")) cfg_users ≡ false)
            × (in_runtime (t.strip (or_else body.username "")) us ≡ false))
  unfolding create_user
  create_cases us body user = elim (Bool-cases (is_role (or_else body.role "user"))) [
    | inr a ↦ inl (ground (arith, a))
    | inl a ↦ elim (Bool-cases (in_config (t.strip (or_else body.username "")) cfg_users)) [
      | inl b ↦ inl (ground (arith, a, b))
      | inr b ↦ elim (Bool-cases (in_runtime (t.strip (or_else body.username "")) us)) [
        | inl c ↦ inl (ground (arith, a, b, c))
        | inr c ↦ elim (Bool-cases (require_role "admin" user)) [
          | inr d ↦ inl (rw d)
          | inl d ↦
              elim (Bool-cases
                (t.strip (or_else body.username "") == "" || or_else body.password "" == "")) [
                  | inl e ↦ inl (rw (d, e))
                  | inr e ↦ elim (Bool-cases (ltb (t.size (or_else body.password "")) 6)) [
                    | inl f ↦ inl (rw (a, d, e, f))
                    | inr f ↦ inr (rw (a, b, c, d, e, f), a, b, c)
                  ]
                ]
        ]
      ]
    ]
  ]

  create-IsWellFormed :
      (us : List RuntimeUser) (body : Body) (user : User)
      → IsWellFormed cfg_users us
      → IsWellFormed cfg_users (create_user t cfg_users us body user).1.users
  create-IsWellFormed us body user w = elim (create_cases us body user) [
    | inl e ↦ rw e w
    | inr (e, i, c, r) ↦ rw e (
        append-IsWellFormed cfg_users us (t.strip (or_else body.username ""))
          (or_else body.role "user") (created body) w refl refl i c r)
  ]

  update-IsWellFormed :
      (us : List RuntimeUser) (name : String) (body : Body) (user : User)
      → IsWellFormed cfg_users us
      → IsWellFormed cfg_users (update_user t cfg_users us name body user).1.users
  unfolding update_user
  update-IsWellFormed us name body user w =
      elim (Option-cases (change_first t cfg_users name body us)) [
        | inl e ↦ subst (IsWellFormed cfg_users) {x = us} (ground (arith, e)) w
        | inr ((v, vs), e) ↦ elim (Bool-cases (not (require_role "admin" user))) [
          | inl a ↦ rw a w
          | inr a ↦ elim (Bool-cases (in_config name cfg_users)) [
            | inl b ↦ rw (a, b) w
            | inr b ↦ elim (Bool-cases (not (in_runtime name us))) [
              | inl c ↦ rw (a, b, c) w
              | inr c ↦
                  rw (a, b, c, e) ((change_first-IsWellFormed t cfg_users name body us vs v w e).0)
            ]
          ]
        ]
      ]

  delete-IsWellFormed :
      (us : List RuntimeUser) (name : String) (user : User)
      → IsWellFormed cfg_users us
      → IsWellFormed cfg_users (delete_user t cfg_users us name user).1.users
  unfolding delete_user
  delete-IsWellFormed us name user w = elim (Bool-cases (not (require_role "admin" user))) [
    | inl a ↦ rw a w
    | inr a ↦ elim (Bool-cases (in_config name cfg_users)) [
      | inl b ↦ rw (a, b) w
      | inr b ↦
          elim (Bool-cases (eqb (length (keep (λ u. not (has_name name u)) us)) (length us))) [
            | inl c ↦ rw (a, b, c) w
            | inr c ↦ rw (a, b, c) (keep-IsWellFormed cfg_users us name w)
          ]
    ]
  ]

  -- From a users.json in which every user has a name that no other user there and no user of the
  -- configuration has, and one of the three roles: whatever the user routes are called with, while the
  -- users of the configuration stay the same, this is so after it.
  pub run-IsWellFormed :
      (us : List RuntimeUser) (cs : List Call)
      → IsWellFormed cfg_users us
      → IsWellFormed cfg_users (run us cs)
  unfolding run step
  run-IsWellFormed us [] w = w
  run-IsWellFormed us (create body user ∷ cs) w =
      run-IsWellFormed (step us (create body user)) cs (create-IsWellFormed us body user w)
  run-IsWellFormed us (update name body user ∷ cs) w =
      run-IsWellFormed (step us (update name body user)) cs
        (update-IsWellFormed us name body user w)
  run-IsWellFormed us (delete name user ∷ cs) w =
      run-IsWellFormed (step us (delete name user)) cs (delete-IsWellFormed us name user w)
