-- ===== src/Backends/Renaming.antt =====
-- An update can give a backend the name of another.
use serwebs.Prelude.{
  ◌+◌, ◌≡◌, ◌≢◌, ap, Option-cases, inl, inr, ◌∙◌, String, Bool, true, none, some, arith, eq_iff,
}
use serwebs.Roles.{User, require_role}
use serwebs.Backends.{
  BackendData, Aggregator, done, of_data, set_default_name, update_route, replace_first, is_taken,
  persist_backends,
}
use serwebs.Backends.Names.{count, count-replace, count-persist, of_data-name}

of_data-url :
    (name url : String) (body : BackendData)
    → body.url ≡ some url
    → of_data (set_default_name name body) ≢ none
unfolding of_data
of_data-url name url body u h = ground (arith, u, h)

-- An update of a backend with a URL and the name of another backend is let through: there is then one
-- backend more of that name, so that it is no longer unique, though adding it would be refused.
pub update_renames :
    (saves : Bool) (a : Aggregator) (name other url : String) (body : BackendData) (user : User)
    → require_role "admin" user ≡ true
    → is_taken name a.backends ≡ true
    → name ≢ other
    → body.name ≡ some other
    → body.url ≡ some url
    → ((update_route saves a name body user).0 ≡ done)
      × (count other (update_route saves a name body user).1.backends ≡ count other a.backends + 1)
unfolding update_route
update_renames saves a name other url body user r t d n u =
    elim (Option-cases (of_data (set_default_name name body))) [
      | inl e ↦ absurd (of_data-url name url body u e)
      | inr (b, e) ↦
          let named : b.name ≡ other = of_data-name body name b e ∙ ground (arith, n) in
          let after : (update_route saves a name body user).1
              ≡ persist_backends saves (record a { backends = replace_first name b a.backends }) =
            ground (arith, r, t, e) in
          (
            ground (arith, r, t, e),
            ap (λ (c : Aggregator). count other c.backends) after
                ∙ count-persist saves other
                    (record a { backends = replace_first name b a.backends })
                ∙ ground (
                  arith,
                  count-replace other name b a.backends t,
                  named,
                  eq_iff name other,
                  eq_iff b.name other,
                ),
          )
    ]
