-- ===== src/Forward/Alerts.antt =====
-- What an alert says.
use serwebs.Prelude.{
  ◌≡◌, refl, sym, ◌∙◌, subst, String, true, false, ◌==◌, some, List, [], ◌∷◌, Bool-cases, inl, inr,
  arith,
}
use serwebs.Dict.{Dict, get, put, has, get-put}
use serwebs.Forward.{
  AlertingConfig, Alert, webhook, email, should_alert, put_all, deliver, payload_of, send, clashes,
  forward_alert,
}

get-put_all :
    (kwargs base : Dict String) (k : String)
    → has k kwargs ≡ false
    → get k (put_all kwargs base) ≡ get k base
unfolding put_all get
get-put_all [] base k h = refl
get-put_all ((j, v) ∷ kwargs) base k h = elim (Bool-cases (j == k)) [
  | inl e ↦ ground (arith, e, h)
  | inr e ↦ get-put_all kwargs (put j v base) k (ground (arith, e, h)) ∙ get-put j k v base ∙ rw e
]

abbrev pub payload_in : Alert → Dict String
payload_in (webhook payload) = payload
payload_in (email event payload) = payload

-- The payload names the event, the user and the port.
abbrev pub IsNamed : String → String → String → Dict String → Type 0
IsNamed event user port_id payload =
    (get "event" payload ≡ some event)
    × (get "user" payload ≡ some user)
    × (get "port_id" payload ≡ some port_id)

base-IsNamed :
    (event timestamp user port_id : String)
    → IsNamed event user port_id
        (("event", event) ∷ ("timestamp", timestamp) ∷ ("user", user) ∷ ("port_id", port_id) ∷ [])
unfolding get
base-IsNamed event timestamp user port_id = (refl, refl, refl)

payload-IsNamed :
    (event timestamp user port_id : String) (details : Dict String)
    → clashes details ≡ false
    → IsNamed event user port_id
        (payload_of event timestamp (("user", user) ∷ ("port_id", port_id) ∷ details))
unfolding payload_of put_all put
payload-IsNamed event timestamp user port_id details c =
    let base : Dict String =
      ("event", event) ∷ ("timestamp", timestamp) ∷ ("user", user) ∷ ("port_id", port_id) ∷ [] in
    let (e, u, p) = base-IsNamed event timestamp user port_id in
    (
      get-put_all details base "event" (ground (arith, c)) ∙ e,
      get-put_all details base "user" (ground (arith, c)) ∙ u,
      get-put_all details base "port_id" (ground (arith, c)) ∙ p,
    )

nothing : (a : Alert) (rest : List Alert) → ¬ ([] ≡ a ∷ rest)
nothing a rest h = ground (arith, h)

deliver-payload :
    (cfg : AlertingConfig) (event : String) (payload : Dict String) (a : Alert) (rest : List Alert)
    → deliver cfg event payload ≡ a ∷ rest
    → payload_in a ≡ payload
unfolding deliver
deliver-payload cfg event payload a rest h = ground (arith, h)

-- An alert is sent only for an event that the configuration lists, and only when the details have no
-- key that the call passes itself; then it names the event, the user and the port of the entry.
pub alert-IsNamed :
    (cfg : AlertingConfig) (event timestamp user port_id : String) (details : Dict String)
    (a : Alert) (rest : List Alert)
    → forward_alert cfg event timestamp user port_id details ≡ a ∷ rest
    → (should_alert cfg event ≡ true)
      × (clashes details ≡ false)
      × IsNamed event user port_id (payload_in a)
unfolding forward_alert send
alert-IsNamed cfg event timestamp user port_id details a rest h =
    let kwargs : Dict String = ("user", user) ∷ ("port_id", port_id) ∷ details in
    let payload : Dict String = payload_of event timestamp kwargs in
    elim (Bool-cases (clashes details)) [
      | inl c ↦ absurd (nothing a rest (rw c at h))
      | inr c ↦
          let h' = rw c at h in
          elim (Bool-cases (should_alert cfg event)) [
            | inr s ↦ absurd (nothing a rest (rw s at h'))
            | inl s ↦
                let same = deliver-payload cfg event payload a rest (rw s at h') in
                (
                  s,
                  c,
                  subst (IsNamed event user port_id) (sym same)
                      (payload-IsNamed event timestamp user port_id details c),
                )
          ]
    ]
