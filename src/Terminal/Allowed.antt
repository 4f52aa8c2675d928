-- ===== src/Terminal/Allowed.antt =====
-- What a bridge does for its user.
use serwebs.Prelude.{
  ℕ, ◌≡◌, refl, ◌||◌, not, String, Bool, true, false, Option, none, some, List, [], ◌∷◌, ◌++◌, ◌⊎◌,
  inl, inr, Bool-cases, if◌then◌else◌,
}
use serwebs.Roles.{User}
use serwebs.Scan.{PortManager}
use serwebs.Ring
use serwebs.Ws.{buffer_of}
use serwebs.Gateway.{is_nil, contains}
use serwebs.Gateway.Strip.{viewer_writes}
use serwebs.Bridge.{
  Kind, telnet, ssh, disconnect_event, Act, says, passes, decodes, shows, logs, writes, Chunk,
  rehooks, State, started, Event, broadcasts, takes, idles, types, on_take, on_idle, on_type,
  typed_by, write_each, step, is_over, run, entry, is_served, replays, served, bridge,
}
use serwebs.Terminal.{is_viewer}

-- What a session may do for a user: its entries are about this user, and only one that is no viewer
-- writes. Without a user there is only text, and the entry of the failed login.
abbrev pub Allowed : Option User → Act → Type 0
Allowed who (says s) = Unit
Allowed none (passes k d) = ⊥
Allowed (some user) (passes k d) = Unit
Allowed none (decodes k d) = ⊥
Allowed (some user) (decodes k d) = Unit
Allowed none (logs e) = e.event ≡ "telnet_login_failed"
Allowed (some user) (logs e) = e.user ≡ user.username
Allowed none (writes k d) = ⊥
Allowed (some user) (writes k d) = is_viewer user ≡ false

abbrev pub AllAllowed : Option User → List Act → Type 0
AllAllowed who [] = Unit
AllAllowed who (a ∷ acts) = Allowed who a × AllAllowed who acts

pub append-AllAllowed :
    (who : Option User) (xs ys : List Act)
    → AllAllowed who xs
    → AllAllowed who ys
    → AllAllowed who (xs ++ ys)
append-AllAllowed who [] ys h g = g
append-AllAllowed who (x ∷ xs) ys h g = (h.0, append-AllAllowed who xs ys h.1 g)

if-AllAllowed :
    (who : Option User) (b : Bool) (x y : State × List Act)
    → AllAllowed who x.1
    → AllAllowed who y.1
    → AllAllowed who (if b then x else y).1
if-AllAllowed who true x y p q = p
if-AllAllowed who false x y p q = q

-- A viewer has nothing to write.
typed_by-viewer : (kind : Kind) (read : List ℕ) → typed_by kind true read ≡ []
unfolding typed_by
typed_by-viewer telnet read = (viewer_writes (read ∷ [])).0
typed_by-viewer ssh read = (viewer_writes (read ∷ [])).1

shows-Allowed :
    (kind : Kind) (user : User) (k : String) (d : List ℕ) → Allowed (some user) (shows kind k d)
shows-Allowed telnet user k d = tt
shows-Allowed ssh user k d = tt

module _ (kind : Kind) (user : User) where
  abbrev All : List Act → Type 0
  All acts = AllAllowed (some user) acts

  take-All : (s : State) (queue : List Chunk) → All (on_take kind s queue).1
  unfolding on_take
  take-All s [] = tt
  take-All s ((k, d) ∷ queue) =
      if-AllAllowed (some user) s.rx_on (_, _) (_, _) (shows-Allowed kind user k d, tt) tt

  idle-All : (s : State) (queue : List Chunk) (alive : Bool) → All (on_idle s queue alive).1
  unfolding on_idle
  idle-All s (d ∷ queue) alive = tt
  idle-All s [] true = if-AllAllowed (some user) (not s.rx_on) (_, _) (_, _) tt tt
  idle-All s [] false = if-AllAllowed (some user) (not s.rx_on) (_, _) (_, _) tt (tt, tt)

  each-All :
      (k : String) (s : State) (accepted : Bool) (chunks : List (List ℕ))
      → (is_viewer user ≡ false) ⊎ (chunks ≡ [])
      → All (write_each k s accepted chunks).1
  each-All k s accepted [] h = tt
  each-All k s true (d ∷ chunks) (inl h) = (h, tt)
  each-All k s true (d ∷ chunks) (inr h) = cc
  each-All k s false (d ∷ chunks) h = tt

  typed-cases :
      (read : List ℕ) → (is_viewer user ≡ false) ⊎ (typed_by kind (is_viewer user) read ≡ [])
  typed-cases read = elim (Bool-cases (is_viewer user)) [
    | inl e ↦ inr (rw e (typed_by-viewer kind read))
    | inr e ↦ inl e
  ]

  type-All :
      (k : String) (s : State) (read : List ℕ) (accepted : Bool)
      → All (on_type kind k (is_viewer user) s read accepted).1
  unfolding on_type
  type-All k s read accepted =
      let sent : State × List Act = write_each k s accepted (typed_by kind (is_viewer user) read) in
      let ends : Bool = is_nil read || contains 29 read in
      let ended : State × List Act = (record s { running = false; tx_on = false }, []) in
      if-AllAllowed (some user) (not s.tx_on) (s, []) (if ends then ended else sent) tt
        (if-AllAllowed (some user) ends ended sent tt
          (each-All k s accepted (typed_by kind (is_viewer user) read) (typed-cases read)))

  step-All : (k : String) (s : State) (e : Event) → All (step kind k (is_viewer user) s e).1
  unfolding step
  step-All k s (broadcasts pid d) = tt
  step-All k s (rehooks b) = tt
  step-All k s takes = take-All s s.rx_queue
  step-All k s (idles alive) = idle-All s s.rx_queue alive
  step-All k s (types read accepted) = type-All k s read accepted

  run-All : (k : String) (s : State) (es : List Event) → All (run kind k (is_viewer user) s es).1
  unfolding run
  run-All k s [] = tt
  run-All k s (e ∷ es) =
      append-AllAllowed (some user) (step kind k (is_viewer user) s e).1
        (run kind k (is_viewer user) (step kind k (is_viewer user) s e).0 es).1 (step-All k s e)
        (run-All k (step kind k (is_viewer user) s e).0 es)

  replays-All : (k : String) (bytes : List ℕ) → All (replays kind k bytes)
  replays-All k [] = tt
  replays-All k (b ∷ bytes) = (shows-Allowed kind user k (b ∷ bytes), tt)

  ending-All :
      (k : String) (over : Bool)
      → All (if over then logs (entry (disconnect_event kind) user.username k) ∷ [] else [])
  ending-All k true = (refl, tt)
  ending-All k false = tt

  pub bridge-All :
      (m : PortManager) (k : String) (es : List Event)
      → All (bridge kind user.username (is_viewer user) m k es).1
  unfolding bridge served
  bridge-All m k es = elim (Bool-cases (is_served m k)) [
    | inr e ↦ rw e (tt, tt)
    | inl e ↦
        let over : Bool = is_over (run kind k (is_viewer user) started es).0 in
        let acts : List Act = (run kind k (is_viewer user) started es).1 in
        rw e (
          refl,
          (
            tt,
            append-AllAllowed (some user) (replays kind k (Ring.read_all (buffer_of m.ws k))) _
                (replays-All k (Ring.read_all (buffer_of m.ws k)))
                (append-AllAllowed (some user) acts _ (run-All k started es) (ending-All k over)),
          ),
        )
  ]
