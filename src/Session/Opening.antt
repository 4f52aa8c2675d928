-- ===== src/Session/Opening.antt =====
-- Who gets a session, and what it leaves behind.
use serwebs.Prelude.{
  ℕ, ◌+◌, ◌≡◌, ◌<◌, refl, sym, ap, subst, ◌∙◌, String, Bool, true, Option, none, some, leb, ◌⊎◌,
  inl, inr, arith, Bool-cases, Option-cases, is_some, eq_refl,
}
use serwebs.Dict.{get}
use serwebs.Roles.{User}
use serwebs.Auth.{Result, ok, raised}
use serwebs.Auth.Sources.{result_cases}
use serwebs.Identity.{token_user}
use serwebs.Identity.Origin.{FromToken, token_user-FromToken}
use serwebs.Ws.{client_count}
use serwebs.Ws.Delivery.{client_count-connect}
use serwebs.Session.{
  Server, Endpoint, Handshake, Session, Opened, origin_allowed, identify, enter, open_session,
}

identify_cases :
    (r : Result (Bool × Option User))
    → (r ≡ raised)
      ⊎ ((accepted : Bool) × ((r ≡ ok (accepted, none))
            ⊎ ((user : User) × (r ≡ ok (accepted, some user)))))
identify_cases raised = inl refl
identify_cases (ok (accepted, none)) = inr (accepted, inl refl)
identify_cases (ok (accepted, some user)) = inr (accepted, inr (user, refl))

module _ (e : Endpoint) (alive : ℕ → Bool) (server later : Server) (h : Handshake)
    (port_id : String) (ws : ℕ) where
  identify-FromToken :
      (accepted : Bool) (user : User)
      → identify e h ≡ ok (accepted, some user)
      → (token : String) × ((h.token ≡ some token) ⊎ (h.first_token ≡ some token))
        × FromToken e.auth e.services user token
  unfolding identify
  identify-FromToken accepted user i = elim (result_cases (token_user e.auth e.services h.token)) [
    | inl a ↦ ground (arith, a, i)
    | inr (inr (u, a)) ↦
        let (token, b, t) =
          token_user-FromToken e.auth e.services h.token user (ground (arith, a, i)) in
        (token, inl b, t)
    | inr (inl a) ↦ elim (result_cases (token_user e.auth e.services h.first_token)) [
      | inl b ↦ ground (arith, a, b, i)
      | inr (inl b) ↦ ground (arith, a, b, i)
      | inr (inr (u, b)) ↦
          let (token, c, t) =
            token_user-FromToken e.auth e.services h.first_token user (ground (arith, a, b, i)) in
          (token, inr c, t)
    ]
  ]

  enter_lem :
      (accepted : Bool) (user : User) (s : Session)
      → let opened : Opened = enter e alive server later port_id ws accepted user in
        opened.session ≡ some s
        → (s.user ≡ user)
          × (is_some (get port_id server.manager.workers) ≡ true)
          × (client_count server.manager.ws port_id < e.max_clients_per_port)
          × (client_count opened.server.manager.ws port_id
              ≡ client_count later.manager.ws port_id + 1)
  unfolding enter
  enter_lem accepted user s i = elim (Option-cases (get port_id server.manager.workers)) [
    | inl a ↦ ground (arith, a, i)
    | inr (worker, a) ↦
        elim (Bool-cases (leb e.max_clients_per_port (client_count server.manager.ws port_id))) [
          | inl b ↦ ground (arith, a, b, i)
          | inr b ↦ (
            ground (arith, a, b, i),
            ground (arith, a),
            ground (arith, b),
            ground (
              arith,
              a,
              b,
              client_count-connect accepted alive later.manager.ws port_id port_id ws,
              eq_refl port_id,
            ),
          )
        ]
  ]

  -- A socket gets a session only if its origin is allowed, the token of the query or of the first
  -- message says who the user is, and, when this is checked, the port is open and has fewer clients
  -- than it may have. By then the client is not entered yet: `later` is the server just before it is,
  -- in any state, and the port has one client more than in that one.
  pub open_session-lem :
      (s : Session)
      → let opened : Opened = open_session e alive server later h port_id ws in
        opened.session ≡ some s
        → (origin_allowed h ≡ true)
          × ((token : String) × ((h.token ≡ some token) ⊎ (h.first_token ≡ some token))
              × FromToken e.auth e.services s.user token)
          × (is_some (get port_id server.manager.workers) ≡ true)
          × (client_count server.manager.ws port_id < e.max_clients_per_port)
          × (client_count opened.server.manager.ws port_id
              ≡ client_count later.manager.ws port_id + 1)
  unfolding open_session
  open_session-lem s i = elim (Bool-cases (origin_allowed h)) [
    | inr a ↦ ground (arith, a, i)
    | inl a ↦ elim (identify_cases (identify e h)) [
      | inl b ↦ ground (arith, a, b, i)
      | inr (accepted, inl b) ↦ ground (arith, a, b, i)
      | inr (accepted, inr (user, b)) ↦
          let (same, open_port, below, one_more) =
            enter_lem accepted user s (ground (arith, a, b, i)) in
          let entered : open_session e alive server later h port_id ws
              ≡ enter e alive server later port_id ws accepted user =
            ground (arith, a, b) in
          (
            a,
            subst
                (λ u.
                  (token : String) × ((h.token ≡ some token) ⊎ (h.first_token ≡ some token))
                  × FromToken e.auth e.services u token)
                (sym same) (identify-FromToken accepted user b),
            open_port,
            below,
            ap (λ (o : Opened). client_count o.server.manager.ws port_id) entered ∙ one_more,
          )
    ]
  ]
