-- ===== src/Backends/Cases.antt =====
-- What a route can do to the backends.
use serwebs.Prelude.{
  ◌≡◌, ◌⊎◌, inl, inr, String, Bool, false, not, ◌||◌, some, [], ◌∷◌, ◌++◌, Option-cases, Bool-cases,
  arith,
}
use serwebs.Roles.{User, require_role}
use serwebs.Backends.{
  BackendData, BackendConfig, Aggregator, of_data, persist_backends, is_taken, is_given,
  replace_first, remove_first, set_default_name, add_backend, update_backend, add_route,
  update_route, delete_route,
}

module _ (saves : Bool) (a : Aggregator) where
  add_backend_cases :
      (body : BackendData)
      → ((add_backend saves a body).1 ≡ a)
        ⊎ ((b : BackendConfig) × (of_data body ≡ some b)
            × (is_taken b.name a.backends ≡ false)
            × ((add_backend saves a body).1
                ≡ persist_backends saves (record a { backends = a.backends ++ b ∷ [] })))
  unfolding add_backend
  add_backend_cases body = elim (Option-cases (of_data body)) [
    | inl e ↦ inl (ground (arith, e))
    | inr (b, e) ↦ elim (Bool-cases (is_taken b.name a.backends)) [
      | inl t ↦ inl (ground (arith, e, t))
      | inr t ↦ inr (b, e, t, ground (arith, e, t))
    ]
  ]

  pub add_cases :
      (body : BackendData) (user : User)
      → ((add_route saves a body user).1 ≡ a)
        ⊎ ((b : BackendConfig) × (of_data body ≡ some b)
            × (is_taken b.name a.backends ≡ false)
            × ((add_route saves a body user).1
                ≡ persist_backends saves (record a { backends = a.backends ++ b ∷ [] })))
  unfolding add_route
  add_cases body user = elim (Bool-cases (not (require_role "admin" user))) [
    | inl r ↦ inl (rw r)
    | inr r ↦ elim (Bool-cases (not (is_given body.name) || not (is_given body.url))) [
      | inl g ↦ inl (rw (r, g))
      | inr g ↦ elim (add_backend_cases body) [
        | inl e ↦ inl (ground (arith, r, g, e))
        | inr (b, d, t, e) ↦ inr (b, d, t, ground (arith, r, g, e))
      ]
    ]
  ]

  update_backend_cases :
      (name : String) (body : BackendData)
      → ((update_backend saves a name body).1 ≡ a)
        ⊎ ((b : BackendConfig) × (of_data (set_default_name name body) ≡ some b)
            × ((update_backend saves a name body).1
                ≡ persist_backends saves (record a { backends = replace_first name b a.backends })))
  unfolding update_backend
  update_backend_cases name body = elim (Bool-cases (is_taken name a.backends)) [
    | inr t ↦ inl (ground (arith, t))
    | inl t ↦ elim (Option-cases (of_data (set_default_name name body))) [
      | inl e ↦ inl (ground (arith, t, e))
      | inr (b, e) ↦ inr (b, e, ground (arith, t, e))
    ]
  ]

  pub update_cases :
      (name : String) (body : BackendData) (user : User)
      → ((update_route saves a name body user).1 ≡ a)
        ⊎ ((b : BackendConfig) × (of_data (set_default_name name body) ≡ some b)
            × ((update_route saves a name body user).1
                ≡ persist_backends saves (record a { backends = replace_first name b a.backends })))
  unfolding update_route
  update_cases name body user = elim (Bool-cases (not (require_role "admin" user))) [
    | inl r ↦ inl (rw r)
    | inr r ↦ elim (update_backend_cases name body) [
      | inl e ↦ inl (ground (arith, r, e))
      | inr (b, d, e) ↦ inr (b, d, ground (arith, r, e))
    ]
  ]

  pub delete_cases :
      (name : String) (user : User)
      → ((delete_route saves a name user).1 ≡ a)
        ⊎ ((delete_route saves a name user).1
            ≡ persist_backends saves (record a { backends = remove_first name a.backends }))
  unfolding delete_route
  delete_cases name user = elim (Bool-cases (not (require_role "admin" user))) [
    | inl r ↦ inl (rw r)
    | inr r ↦ elim (Bool-cases (is_taken name a.backends)) [
      | inl t ↦ inr (ground (arith, r, t))
      | inr t ↦ inl (ground (arith, r, t))
    ]
  ]
