-- ===== src/Remote/Cache.antt =====
-- The cache of the ports.
use serwebs.Prelude.{
  ℕ, ◌-◌, ◌*◌, ◌<◌, ◌≡◌, refl, ap, sym, ◌∙◌, String, Bool, true, false, ◌==◌, Option, none, List,
  [], ◌∷◌, ◌++◌, if◌then◌else◌, subst, arith, append_assoc, append-nil, eq_iff,
}
use serwebs.Dict.{Dict, get, put, values, get-put}
use serwebs.Backends.{BackendConfig}
use serwebs.Remote.{RemotePort, Port, PortCache, is_empty, collect, store, fetch_all_ports}

-- Whether a port has the id.
abbrev pub has_id : String → List Port → Bool
has_id i [] = false
has_id i (p ∷ ps) = if p.id == i then true else has_id i ps

abbrev pub AllDistinct : List Port → Type 0
AllDistinct [] = Unit
AllDistinct (p ∷ ps) = (has_id p.id ps ≡ false) × AllDistinct ps

values-put :
    (i : String) (p : Port) (d : Dict Port)
    → get i d ≡ none
    → values (put i p d) ≡ values d ++ p ∷ []
unfolding values put get
values-put i p [] h = refl
values-put i p ((j, q) ∷ d) h = ground (arith, h, values-put i p d)

-- No port of the list has a key of the dictionary.
abbrev AllNew : Dict Port → List Port → Type 0
AllNew d [] = Unit
AllNew d (p ∷ ps) = (get p.id d ≡ none) × AllNew d ps

AllNew-put :
    (d : Dict Port) (i : String) (q : Port) (ps : List Port)
    → has_id i ps ≡ false
    → AllNew d ps
    → AllNew (put i q d) ps
AllNew-put d i q [] h n = tt
AllNew-put d i q (p ∷ ps) h (g, n) = (
  ground (arith, h, g, get-put i p.id q d, eq_iff i p.id, eq_iff p.id i),
  AllNew-put d i q ps (ground (arith, h)) n,
)

values-store :
    (d : Dict Port) (ps : List Port)
    → AllNew d ps
    → AllDistinct ps
    → values (store d ps) ≡ values d ++ ps
unfolding store
values-store d [] n u = sym (append-nil (values d))
values-store d (p ∷ ps) (g, n) (h, u) =
    values-store (put p.id p d) ps (AllNew-put d p.id p ps h n) u
    ∙ ap (λ vs. vs ++ ps) (values-put p.id p d g)
    ∙ append_assoc (values d) (p ∷ []) ps

values-is_empty :
    (d : Dict Port) (p : Port) (ps : List Port) → values d ≡ p ∷ ps → is_empty d ≡ false
unfolding values
values-is_empty [] p ps h = ground arith
values-is_empty (x ∷ d) p ps h = refl

AllNew-nil : (ps : List Port) → AllNew [] ps
unfolding get
AllNew-nil [] = tt
AllNew-nil (p ∷ ps) = (refl, AllNew-nil ps)

values-store-nil : (ps : List Port) → AllDistinct ps → values (store [] ps) ≡ ps
unfolding values
values-store-nil ps u = values-store [] ps (AllNew-nil ps) u

store-is_full :
    (p : Port) (ps qs : List Port) → qs ≡ p ∷ ps → AllDistinct qs → is_empty (store [] qs) ≡ false
store-is_full p ps qs e u = values-is_empty (store [] qs) p ps (values-store-nil qs u ∙ e)

module _ (second : ℕ) (answer : BackendConfig → Option (List RemotePort))
    (backends : List BackendConfig) where
  fetch_fresh :
      (cache : PortCache) (now : ℕ)
      → is_empty cache.ports ≡ false
      → now - cache.time < 5 * second
      → fetch_all_ports second answer backends cache now ≡ (values cache.ports, cache, false)
  unfolding fetch_all_ports
  fetch_fresh cache now e t = ground (arith, e, t)

  fetch_asks :
      (cache : PortCache) (now : ℕ)
      → (fetch_all_ports second answer backends cache now).2 ≡ true
      → fetch_all_ports second answer backends cache now ≡ (
        collect answer backends,
        record { ports = store [] (collect answer backends); time = now },
        true,
      )
  unfolding fetch_all_ports
  fetch_asks cache now a = ground (arith, a)

module _ (second : ℕ) (answer later : BackendConfig → Option (List RemotePort))
    (backends : List BackendConfig) (cache : PortCache) (now then' : ℕ) where
  -- When the backends are asked, and the ports that come are not none and have different ids, then
  -- within five seconds the same ports are given again, in the same order, without asking, whatever
  -- the backends would answer by then.
  pub fetch_twice :
      let (ports, cache', asked) = fetch_all_ports second answer backends cache now in
      asked ≡ true
      → (p : Port) (ps : List Port) → ports ≡ p ∷ ps
      → AllDistinct ports
      → then' - now < 5 * second
      → fetch_all_ports second later backends cache' then' ≡ (ports, cache', false)
  fetch_twice a p ps e u t =
      let asks = fetch_asks second answer backends cache now a in
      let found : List Port = collect answer backends in
      let cache' : PortCache = record { ports = store [] found; time = now } in
      let e' = subst (λ r. r.0 ≡ p ∷ ps) asks e in
      let u' = subst (λ r. AllDistinct r.0) asks u in
      let fresh =
        fetch_fresh second later backends cache' then' (store-is_full p ps found e' u') t in
      let all = values-store-nil found u' in rw (asks, fresh, all)
