-- ===== src/Bridge/Order.antt =====
-- The order of what a session does: the bytes of a port pass only between the two audit entries of
-- one bridge to it.
use serwebs.Prelude.{
  ℕ, ◌≡◌, ◌∙◌, refl, inl, inr, String, Bool, true, false, not, ◌&&◌, ◌||◌, ◌==◌, eq_refl, Option,
  length, ltb, arith, none, some, List, [], ◌∷◌, ◌++◌, Option-cases, Bool-cases, if◌then◌else◌,
}
use serwebs.Ring
use serwebs.Ws.{buffer_of}
use serwebs.Scan.{PortManager}
use serwebs.Gateway.{is_nil, contains}
use serwebs.Bridge.{
  Kind, telnet, ssh, connect_event, disconnect_event, Act, says, passes, decodes, shows, logs,
  writes, State, started, Event, Chunk, loops, queue_size, on_broadcast, rehooks, broadcasts, takes,
  idles, types, on_take, on_idle, on_type, typed_by, write_each, step, is_over, run, entry,
  is_served, replays, served, bridge,
}

-- The port that a session is joined to after an act, or `none` if the act may not stand there.
abbrev pub next : Kind → Option String → Act → Option (Option String)
next kind at (says s) = some at
next kind none (passes j d) = none
next kind (some k) (passes j d) = if j == k then some (some k) else none
next kind none (decodes j d) = none
next kind (some k) (decodes j d) = if j == k then some (some k) else none
next kind none (writes j d) = none
next kind (some k) (writes j d) = if j == k then some (some k) else none
next kind none (logs e) =
    if e.event == connect_event kind
    then some (some e.port_id)
    else if e.event == disconnect_event kind
    then none
    else some none
next kind (some k) (logs e) =
    if e.event == disconnect_event kind && e.port_id == k then some none else none

abbrev pub and_then : {A B : Type 0} → Option A → (A → Option B) → Option B
and_then none f = none
and_then (some a) f = f a

abbrev pub flow : Kind → List Act → Option String → Option (Option String)
flow kind [] at = some at
flow kind (a ∷ acts) at = and_then (next kind at a) (flow kind acts)

pub flow-append :
    (kind : Kind) (xs ys : List Act) (at : Option String)
    → flow kind (xs ++ ys) at ≡ and_then (flow kind xs at) (flow kind ys)
flow-append kind [] ys at = refl
flow-append kind (x ∷ xs) ys at = elim (Option-cases (next kind at x)) [
  | inl e ↦ rw e refl
  | inr (now, e) ↦ rw e (flow-append kind xs ys now)
]

-- The acts of a bridge to `k`, but for its audit entries.
abbrev pub Inside : Kind → String → List Act → Type 0
Inside kind k acts = flow kind acts (some k) ≡ some (some k)

Inside-append :
    (kind : Kind) (k : String) (xs ys : List Act)
    → Inside kind k xs
    → Inside kind k ys
    → Inside kind k (xs ++ ys)
Inside-append kind k xs ys f g = flow-append kind xs ys (some k) ∙ rw f g

-- What waits in the queue came from `k`.
abbrev AllFrom : String → List Chunk → Type 0
AllFrom k [] = Unit
AllFrom k ((j, d) ∷ chunks) = ((j == k) ≡ true) × AllFrom k chunks

AllFrom-append :
    (k : String) (xs ys : List Chunk) → AllFrom k xs → AllFrom k ys → AllFrom k (xs ++ ys)
AllFrom-append k [] ys h g = g
AllFrom-append k ((j, d) ∷ xs) ys (e, h) g = (e, AllFrom-append k xs ys h g)

abbrev Keeps : Kind → String → State × List Act → Type 0
Keeps kind k r = Inside kind k r.1 × AllFrom k r.0.rx_queue

Keeps-if :
    (kind : Kind) (k : String) (b : Bool) (x y : State × List Act)
    → (b ≡ true → Keeps kind k x)
    → (b ≡ false → Keeps kind k y)
    → Keeps kind k (if b then x else y)
Keeps-if kind k true x y p q = p refl
Keeps-if kind k false x y p q = q refl

shows-Inside :
    (kind : Kind) (k j : String) (d : List ℕ)
    → (j == k) ≡ true
    → Inside kind k (shows kind j d ∷ [])
shows-Inside telnet k j d e = rw e refl
shows-Inside ssh k j d e = rw e refl

module _ (kind : Kind) (k : String) (is_viewer : Bool) where
  on_broadcast-AllFrom :
      (s : State) (pid : String) (d : List ℕ)
      → AllFrom k s.rx_queue
      → AllFrom k (on_broadcast k s pid d).rx_queue
  unfolding on_broadcast
  on_broadcast-AllFrom s pid d a =
      elim (Bool-cases
        (s.hooked && (pid == k && s.running) && ltb (length s.rx_queue) queue_size)) [
          | inl h ↦ rw h (AllFrom-append k s.rx_queue ((pid, d) ∷ []) a (ground (arith, h), tt))
          | inr h ↦ rw h a
        ]

  on_take-Keeps :
      (s : State) (queue : List Chunk)
      → AllFrom k s.rx_queue
      → AllFrom k queue
      → Keeps kind k (on_take kind s queue)
  unfolding on_take
  on_take-Keeps s [] a b = (refl, a)
  on_take-Keeps s ((pid, d) ∷ queue) a (e, b) =
      Keeps-if kind k s.rx_on (loops (record s { rx_queue = queue }), shows kind pid d ∷ []) (s, [])
        (λ _. (shows-Inside kind k pid d e, b)) (λ _. (refl, a))

  on_idle-Keeps :
      (s : State) (queue : List Chunk) (alive : Bool)
      → AllFrom k s.rx_queue
      → Keeps kind k (on_idle s queue alive)
  unfolding on_idle
  on_idle-Keeps s (d ∷ queue) alive a = (refl, a)
  on_idle-Keeps s [] true a =
      Keeps-if kind k (not s.rx_on) (s, []) (loops s, []) (λ _. (refl, a)) (λ _. (refl, a))
  on_idle-Keeps s [] false a =
      Keeps-if kind k (not s.rx_on) (s, [])
        (record s { rx_on = false; hooked = false }, says "\r\n[Port disconnected]\r\n" ∷ [])
        (λ _. (refl, a)) (λ _. (refl, a))

  write_each-Keeps :
      (s : State) (accepted : Bool) (chunks : List (List ℕ))
      → AllFrom k s.rx_queue
      → Keeps kind k (write_each k s accepted chunks)
  write_each-Keeps s accepted [] a = (refl, a)
  write_each-Keeps s true (d ∷ chunks) a = (rw (eq_refl k) refl, a)
  write_each-Keeps s false (d ∷ chunks) a = (refl, a)

  on_type-Keeps :
      (s : State) (read : List ℕ) (accepted : Bool)
      → AllFrom k s.rx_queue
      → Keeps kind k (on_type kind k is_viewer s read accepted)
  unfolding on_type
  on_type-Keeps s read accepted a =
      let sent : State × List Act = write_each k s accepted (typed_by kind is_viewer read) in
      let ends : Bool = is_nil read || contains 29 read in
      let ended : State × List Act = (record s { running = false; tx_on = false }, []) in
      Keeps-if kind k (not s.tx_on) (s, []) (if ends then ended else sent) (λ _. (refl, a))
        (λ _.
          Keeps-if kind k ends ended sent (λ _. (refl, a))
            (λ _. write_each-Keeps s accepted (typed_by kind is_viewer read) a))

  step-Keeps :
      (s : State) (e : Event) → AllFrom k s.rx_queue → Keeps kind k (step kind k is_viewer s e)
  unfolding step
  step-Keeps s (broadcasts pid d) a = (refl, on_broadcast-AllFrom s pid d a)
  step-Keeps s (rehooks b) a = (refl, a)
  step-Keeps s takes a = on_take-Keeps s s.rx_queue a a
  step-Keeps s (idles alive) a = on_idle-Keeps s s.rx_queue alive a
  step-Keeps s (types read accepted) a = on_type-Keeps s read accepted a

  run-Inside :
      (s : State) (es : List Event)
      → AllFrom k s.rx_queue
      → Inside kind k (run kind k is_viewer s es).1
  unfolding run
  run-Inside s [] a = refl
  run-Inside s (e ∷ es) a =
      let (inside, from) = step-Keeps s e a in
      Inside-append kind k (step kind k is_viewer s e).1 _ inside
        (run-Inside (step kind k is_viewer s e).0 es from)

  replays-Inside : (bytes : List ℕ) → Inside kind k (replays kind k bytes)
  replays-Inside [] = refl
  replays-Inside (b ∷ bytes) = shows-Inside kind k k (b ∷ bytes) (eq_refl k)

joined-flow :
    (kind : Kind) (user k text : String) (acts : List Act) (at : Option (Option String))
    → flow kind acts (some k) ≡ at
    → flow kind (logs (entry (connect_event kind) user k) ∷ says text ∷ acts) none ≡ at
joined-flow telnet user k text acts at h = h
joined-flow ssh user k text acts at h = h

disconnects_last :
    (kind : Kind) (user k : String)
    → next kind (some k) (logs (entry (disconnect_event kind) user k)) ≡ some none
disconnects_last telnet user k = rw (eq_refl k) refl
disconnects_last ssh user k = rw (eq_refl k) refl

-- Where a session stands after a bridge to `k`.
abbrev pub stands : String → Bool → Option String
stands k true = none
stands k false = some k

ending-flow :
    (kind : Kind) (user k : String) (over : Bool)
    → flow kind (if over then logs (entry (disconnect_event kind) user k) ∷ [] else []) (some k)
      ≡ some (stands k over)
ending-flow kind user k true = rw (disconnects_last kind user k) refl
ending-flow kind user k false = refl

served-flow :
    (kind : Kind) (user : String) (is_viewer : Bool) (m : PortManager) (k : String)
    (es : List Event)
    → let (over, acts) = served kind user is_viewer m k es in
      flow kind acts none ≡ some (stands k over)
unfolding served
served-flow kind user is_viewer m k es =
    let s : State = (run kind k is_viewer started es).0 in
    let acts : List Act = (run kind k is_viewer started es).1 in
    let replay : List Act = replays kind k (Ring.read_all (buffer_of m.ws k)) in
    let ending : List Act =
      if is_over s then logs (entry (disconnect_event kind) user k) ∷ [] else [] in
    joined-flow kind user k "" (replay ++ (acts ++ ending)) _ (
      flow-append kind replay (acts ++ ending) (some k)
      ∙ rw (replays-Inside kind k is_viewer (Ring.read_all (buffer_of m.ws k))) (
          flow-append kind acts ending (some k)
          ∙ rw (run-Inside kind k is_viewer started es tt) (ending-flow kind user k (is_over s))))

-- After a bridge that did not start, or is over, the session is joined to no port.
pub bridge-flow :
    (kind : Kind) (user : String) (is_viewer : Bool) (m : PortManager) (k : String)
    (es : List Event)
    → let (over, acts) = bridge kind user is_viewer m k es in
      flow kind acts none ≡ some (stands k over)
unfolding bridge
bridge-flow kind user is_viewer m k es = elim (Bool-cases (is_served m k)) [
  | inl e ↦ rw e (served-flow kind user is_viewer m k es)
  | inr e ↦ rw e refl
]
