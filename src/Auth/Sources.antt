-- ===== src/Auth/Sources.antt =====
-- Where an authenticated user comes from.
use serwebs.Prelude.{
  ◌≡◌, refl, ap, ◌⊎◌, inl, inr, String, Bool, true, false, ◌==◌, eq_iff, Option, none, some,
  Option-cases, Bool-cases, List, [], ◌∷◌, arith,
}
use serwebs.Roles.{User}
use serwebs.Auth.{
  Result, ok, raised, UserConfig, RuntimeUser, AuthConfig, Services, or_else, same_option,
  local_user, runtime_user, ldap_user, radius_user, tacacs_user, authenticate_user,
}

verify_cases : (r : Result Bool) → (r ≡ ok true) ⊎ ((r ≡ ok false) ⊎ (r ≡ raised))
verify_cases (ok true) = inl refl
verify_cases (ok false) = inr (inl refl)
verify_cases raised = inr (inr refl)

pub result_cases :
    (r : Result (Option User)) → (r ≡ raised) ⊎ ((r ≡ ok none) ⊎ ((u : User) × (r ≡ ok (some u))))
result_cases raised = inl refl
result_cases (ok none) = inr (inl refl)
result_cases (ok (some u)) = inr (inr (u, refl))

module _ (cfg : AuthConfig) (svc : Services) (username password : String) where
  -- The entry that let the user in.
  pub data FromLocal (user : User) : List UserConfig → Type 0 where
    here :
        {u : UserConfig} {us : List UserConfig}
        → (u.username ≡ username)
        → (svc.verify password u.password_hash ≡ ok true)
        → (user ≡ record { username = username; role = u.role })
        → FromLocal user (u ∷ us)
    there : {u : UserConfig} {us : List UserConfig} → FromLocal user us → FromLocal user (u ∷ us)

  pub data FromRuntime (user : User) : List RuntimeUser → Type 0 where
    here :
        {u : RuntimeUser} {us : List RuntimeUser}
        → (u.username ≡ some username)
        → (svc.verify password (or_else u.password_hash "") ≡ ok true)
        → (user ≡ record { username = username; role = or_else u.role "user" })
        → FromRuntime user (u ∷ us)
    there :
        {u : RuntimeUser} {us : List RuntimeUser} → FromRuntime user us → FromRuntime user (u ∷ us)

  -- The sources that can answer for a user.
  pub data Source (user : User) : Type 0 where
    local : FromLocal user cfg.users → Source user
    runtime : FromRuntime user cfg.runtime_users → Source user
    ldap :
        (dn : String)
        → cfg.ldap.enabled ≡ true
        → svc.ldap_search username ≡ some dn
        → svc.ldap_bind dn password ≡ true
        → user.username ≡ username
        → Source user
    radius :
        (fids : List String)
        → cfg.radius.enabled ≡ true
        → svc.radius username password ≡ some fids
        → user.username ≡ username
        → Source user
    tacacs :
        cfg.tacacs.enabled ≡ true
        → svc.tacacs username password ≡ true
        → user.username ≡ username
        → Source user

  local-FromLocal :
      (us : List UserConfig) (user : User)
      → local_user cfg svc us username password ≡ ok (some user)
      → FromLocal user us
  unfolding local_user
  local-FromLocal [] user e = ground arith
  local-FromLocal (u ∷ us) user e = elim (Bool-cases (u.username == username)) [
    | inr n ↦ there (local-FromLocal us user (ground arith))
    | inl y ↦ elim (verify_cases (svc.verify password u.password_hash)) [
      | inl v ↦
          here ((eq_iff u.username username).0 y) v (ground (arith, eq_iff u.username username))
      | inr (inl v) ↦ there (local-FromLocal us user (ground arith))
      | inr (inr v) ↦ ground arith
    ]
  ]

  same_some : (o : Option String) → same_option o (some username) ≡ true → o ≡ some username
  same_some none h = cc
  same_some (some n) h = ap some ((eq_iff n username).0 h)

  runtime-FromRuntime :
      (us : List RuntimeUser) (user : User)
      → runtime_user cfg svc us username password ≡ ok (some user)
      → FromRuntime user us
  unfolding runtime_user
  runtime-FromRuntime [] user e = ground arith
  runtime-FromRuntime (u ∷ us) user e = elim (Bool-cases (same_option u.username (some username))) [
    | inr n ↦ there (runtime-FromRuntime us user (ground arith))
    | inl y ↦ elim (verify_cases (svc.verify password (or_else u.password_hash ""))) [
      | inl v ↦ here (same_some u.username y) v (ground arith)
      | inr (inl v) ↦ there (runtime-FromRuntime us user (ground arith))
      | inr (inr v) ↦ ground arith
    ]
  ]

  ldap-Source : (user : User) → ldap_user cfg svc username password ≡ some user → Source user
  unfolding ldap_user
  ldap-Source user e = elim (Option-cases (svc.ldap_search username)) [
    | inl f ↦ ground arith
    | inr (dn, f) ↦ ldap dn (ground arith) f (ground arith) (ground arith)
  ]

  radius-Source : (user : User) → radius_user cfg svc username password ≡ some user → Source user
  unfolding radius_user
  radius-Source user e = elim (Option-cases (svc.radius username password)) [
    | inl f ↦ ground arith
    | inr (fids, f) ↦ radius fids (ground arith) f (ground arith)
  ]

  tacacs-Source : (user : User) → tacacs_user cfg svc username password ≡ some user → Source user
  unfolding tacacs_user
  tacacs-Source user e = tacacs (ground arith) (ground arith) (ground arith)

  -- Nobody is let in without a source that vouches for the name: a local or a runtime entry of
  -- that name whose hash fits the password, with the role of the entry, or an enabled LDAP,
  -- RADIUS or TACACS+ server that accepted name and password.
  pub authenticate-Source :
      (user : User) → authenticate_user cfg svc username password ≡ ok (some user) → Source user
  unfolding authenticate_user
  authenticate-Source user e =
      elim (result_cases (local_user cfg svc cfg.users username password)) [
        | inl f ↦ ground arith
        | inr (inr (u, f)) ↦ local (local-FromLocal cfg.users user (ground arith))
        | inr (inl f) ↦
            elim (result_cases (runtime_user cfg svc cfg.runtime_users username password)) [
              | inl g ↦ ground arith
              | inr (inr (u, g)) ↦
                  runtime (runtime-FromRuntime cfg.runtime_users user (ground arith))
              | inr (inl g) ↦ elim (Option-cases (ldap_user cfg svc username password)) [
                | inr (u, h) ↦ ldap-Source user (ground arith)
                | inl h ↦ elim (Option-cases (radius_user cfg svc username password)) [
                  | inr (u, i) ↦ radius-Source user (ground arith)
                  | inl i ↦ tacacs-Source user (ground arith)
                ]
              ]
            ]
      ]

  -- A local user who gives the right password is let in with the role of the configuration,
  -- whatever users.json and the servers say of the name: here the first entry has the name.
  pub authenticate_local :
      (u : UserConfig) (us : List UserConfig)
      → cfg.users ≡ u ∷ us
      → u.username ≡ username
      → svc.verify password u.password_hash ≡ ok true
      → authenticate_user cfg svc username password
        ≡ ok (some (record { username = username; role = u.role }))
  unfolding authenticate_user local_user
  authenticate_local u us c n v = ground (arith, c, n, v, eq_iff u.username username)
