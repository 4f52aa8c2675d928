-- ===== src/Remote/Tokens.antt =====
-- The tokens of the backends.
use serwebs.Prelude.{
  ℕ, ◌-◌, ◌*◌, ◌<◌, ◌≡◌, ◌≢◌, String, true, false, not, ◌||◌, Option, some, ltb, arith, ltb-true,
  eq_iff, eq_refl, Bool-cases, Option-cases, inl, inr,
}
use serwebs.Text.{is_true}
use serwebs.Dict.{Dict, get, put, get-put}
use serwebs.Backends.{BackendConfig}
use serwebs.Remote.{log_in, get_backend_token}

put_others {ℓ} :
    {V : Type ℓ} (i j : String) (v : V) (d : Dict V) → j ≢ i → get j (put i v d) ≡ get j d
put_others i j v d h = ground (arith, get-put i j v d, h, eq_iff i j, eq_iff j i)

token_cached :
    (second : ℕ) (login : BackendConfig → Option String) (cache : Dict (String × ℕ))
    (b : BackendConfig) (now at : ℕ) (token : String)
    → is_true b.token ≡ false
    → get b.name cache ≡ some (token, at)
    → ltb (now - at) (3600 * second) ≡ true
    → get_backend_token second login cache b now ≡ (token, cache, false)
unfolding get_backend_token
token_cached second login cache b now at token o g f = rw (o, g, f)

module _ (second : ℕ) (login later : BackendConfig → Option String)
    (cache : Dict (String × ℕ)) where
  log_in_others :
      (b : BackendConfig) (now : ℕ) (name : String)
      → let (token, after, asked) = log_in login cache b now in
        ((name ≢ b.name → get name after ≡ get name cache) × (asked ≡ false → after ≡ cache))
  unfolding log_in
  log_in_others b now name =
      elim (Bool-cases (not (is_true b.username) || not (is_true b.password))) [
        | inl e ↦ (λ q. rw e, λ q. rw e)
        | inr e ↦ elim (Option-cases (login b)) [
          | inl g ↦ (λ q. rw (e, g), λ q. rw (e, g))
          | inr (token, g) ↦ (
            λ q. rw (e, g, put_others b.name name (token, now) cache q),
            λ r. ground (arith, e, g, r),
          )
        ]
      ]

  -- A login that gave a token is not repeated for an hour: every call in that time for a backend of
  -- that name without a token of its own gets the same token and sends nothing. So it is, too, for a
  -- backend that was given another URL or other credentials meanwhile.
  pub token_kept :
      (b b' : BackendConfig) (now then' : ℕ) (token : String)
      → get_backend_token second login cache b now ≡ (token, put b.name (token, now) cache, true)
      → b'.name ≡ b.name
      → b'.token ≡ ""
      → then' - now < 3600 * second
      → get_backend_token second later (put b.name (token, now) cache) b' then'
        ≡ (token, put b.name (token, now) cache, false)
  unfolding get_backend_token
  token_kept b b' now then' token h n t s =
      let found : get b'.name (put b.name (token, now) cache) ≡ some (token, now) =
        rw (get-put b.name b'.name (token, now) cache, n, eq_refl b.name) in
      let fresh = ltb-true (then' - now) (3600 * second) s in
      token_cached second later (put b.name (token, now) cache) b' then' now token (rw t) found
        fresh

  -- A call changes the cache at most for its backend, and only by a login.
  pub token_others :
      (b : BackendConfig) (now : ℕ) (name : String)
      → let (token, after, asked) = get_backend_token second login cache b now in
        ((name ≢ b.name → get name after ≡ get name cache) × (asked ≡ false → after ≡ cache))
  unfolding get_backend_token
  token_others b now name = ground (arith, log_in_others b now name)
