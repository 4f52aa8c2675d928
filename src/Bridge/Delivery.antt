-- ===== src/Bridge/Delivery.antt =====
-- What reaches the terminal of what a port says during a bridge.
use serwebs.Prelude.{
  ℕ, ◌+◌, ◌≤◌, ◌≡◌, ◌∙◌, refl, ap, sym, String, Bool, true, false, not, ◌||◌, ◌&&◌, ◌==◌, List, [],
  ◌∷◌, ◌++◌, append_assoc, append-nil, length, length-append, arith, List-cases, inl, inr,
  if◌then◌else◌,
}
use serwebs.Gateway.{is_nil, contains}
use serwebs.Bridge.{
  Kind, telnet, ssh, Act, says, passes, decodes, shows, writes, Chunk, loops, rehooks, State,
  started, Event, broadcasts, takes, idles, types, queue_size, on_broadcast, on_take, on_idle,
  on_type, typed_by, write_each, step, is_over, run,
}

-- The chunks that an act shows on the terminal, the way the gateway shows them.
abbrev pub shown : Kind → Act → List Chunk
shown telnet (passes pid d) = (pid, d) ∷ []
shown ssh (decodes pid d) = (pid, d) ∷ []
shown _ _ = []

abbrev pub passed : Kind → List Act → List Chunk
passed kind [] = []
passed kind (a ∷ acts) = shown kind a ++ passed kind acts

-- Whether the hook is in place after an event that does not end the loop of `rx_task`.
abbrev pub hook_after : Bool → Event → Bool
hook_after h (rehooks b) = b
hook_after h _ = h

-- The chunks that the port says while the hook is in place; `h` is whether it is at the start.
abbrev pub said : String → Bool → List Event → List Chunk
said k h [] = []
said k h (broadcasts pid d ∷ es) =
    let rest = said k h es in if h && pid == k then (pid, d) ∷ rest else rest
said k h (rehooks b ∷ es) = said k b es
said k h (takes ∷ es) = said k h es
said k h (idles alive ∷ es) = said k h es
said k h (types read accepted ∷ es) = said k h es

passed-append :
    (kind : Kind) (xs ys : List Act) → passed kind (xs ++ ys) ≡ (passed kind xs ++ passed kind ys)
passed-append kind [] ys = refl
passed-append kind (x ∷ xs) ys =
    ap (λ ds. shown kind x ++ ds) (passed-append kind xs ys)
    ∙ sym (append_assoc (shown kind x) (passed kind xs) (passed kind ys))

shown-shows :
    (kind : Kind) (pid : String) (d : List ℕ) → shown kind (shows kind pid d) ≡ (pid, d) ∷ []
shown-shows telnet pid d = refl
shown-shows ssh pid d = refl

shown-says : (kind : Kind) (s : String) → shown kind (says s) ≡ []
shown-says telnet s = refl
shown-says ssh s = refl

shown-writes : (kind : Kind) (k : String) (d : List ℕ) → shown kind (writes k d) ≡ []
shown-writes telnet k d = refl
shown-writes ssh k d = refl

abbrev pub IsOn : State → Type 0
IsOn s = (s.running ≡ true) × (s.rx_on ≡ true)

-- What a step does to the chunks that are under way, where the bridge is on after it and `new` fits
-- in the queue; `h` is whether the hook is then in place.
abbrev Accounts : Kind → State → List Chunk → Bool → State × List Act → Type 0
Accounts kind s new h r =
    IsOn r.0
    → IsOn s
      × (r.0.hooked ≡ h)
      × (length s.rx_queue + length new ≤ queue_size
          → (passed kind r.1 ++ r.0.rx_queue) ≡ (s.rx_queue ++ new))

Accounts-if :
    (kind : Kind) (s : State) (new : List Chunk) (h b : Bool) (x y : State × List Act)
    → (b ≡ true → Accounts kind s new h x)
    → (b ≡ false → Accounts kind s new h y)
    → Accounts kind s new h (if b then x else y)
Accounts-if kind s new h true x y p q = p refl
Accounts-if kind s new h false x y p q = q refl

stays : (kind : Kind) (s : State) → Accounts kind s [] s.hooked (s, [])
stays kind s on = (on, refl, λ fits. sym (append-nil s.rx_queue))

still_hooked : (s : State) → s.running ≡ true → (s.hooked && s.running) ≡ s.hooked
still_hooked s h = ground (arith, h)

module _ (kind : Kind) (k : String) (viewer : Bool) where
  each-Accounts :
      (s : State) (accepted : Bool) (chunks : List (List ℕ))
      → Accounts kind s [] s.hooked (write_each k s accepted chunks)
  each-Accounts s accepted [] on = stays kind s on
  each-Accounts s true (d ∷ chunks) on =
      (on, refl, λ fits. rw (shown-writes kind k d) (sym (append-nil s.rx_queue)))
  each-Accounts s false (d ∷ chunks) on = (on, refl, λ fits. sym (append-nil s.rx_queue))

  type-Accounts :
      (s : State) (read : List ℕ) (accepted : Bool)
      → Accounts kind s [] s.hooked (on_type kind k viewer s read accepted)
  unfolding on_type
  type-Accounts s read accepted =
      let sent : State × List Act = write_each k s accepted (typed_by kind viewer read) in
      let ends : Bool = is_nil read || contains 29 read in
      let ended : State × List Act = (record s { running = false; tx_on = false }, []) in
      Accounts-if kind s [] s.hooked (not s.tx_on) (s, []) (if ends then ended else sent)
        (λ _. stays kind s)
        (λ _.
          Accounts-if kind s [] s.hooked ends ended sent (λ _ on. ground (arith, on.0))
            (λ _. each-Accounts s accepted (typed_by kind viewer read)))

  take-Accounts :
      (s : State) (queue : List Chunk)
      → s.rx_queue ≡ queue
      → Accounts kind s [] s.hooked (on_take kind s queue)
  unfolding on_take
  take-Accounts s [] e = stays kind s
  take-Accounts s ((pid, d) ∷ queue) e =
      Accounts-if kind s [] s.hooked s.rx_on
        (loops (record s { rx_queue = queue }), shows kind pid d ∷ []) (s, [])
        (λ h on. (
          (on.0, h),
          still_hooked s on.0,
          λ fits. rw (shown-shows kind pid d) (sym (append-nil s.rx_queue ∙ e)),
        ))
        (λ _. stays kind s)

  idle-Accounts :
      (s : State) (queue : List Chunk) (alive : Bool)
      → Accounts kind s [] s.hooked (on_idle s queue alive)
  unfolding on_idle
  idle-Accounts s (d ∷ queue) alive = stays kind s
  idle-Accounts s [] true =
      Accounts-if kind s [] s.hooked (not s.rx_on) (s, []) (loops s, []) (λ _. stays kind s)
        (λ h on.
          ((on.0, ground (arith, h)), still_hooked s on.0, λ fits. sym (append-nil s.rx_queue)))
  idle-Accounts s [] false =
      Accounts-if kind s [] s.hooked (not s.rx_on) (s, [])
        (record s { rx_on = false; hooked = false }, says "\r\n[Port disconnected]\r\n" ∷ [])
        (λ _. stays kind s) (λ h on. ground (arith, on.1))

  broadcast-Accounts :
      (s : State) (pid : String) (d : List ℕ)
      → Accounts kind s
          (said k s.hooked (broadcasts pid d ∷ []))
          s.hooked
          (on_broadcast k s pid d, [])
  unfolding on_broadcast
  broadcast-Accounts s pid d on =
      let was : IsOn s = (ground (arith, on.0), ground (arith, on.1)) in
      (was, ground arith, λ fits. ground (arith, was.0, was.1, fits, append-nil s.rx_queue))

  step-Accounts :
      (s : State) (e : Event)
      → Accounts kind s (said k s.hooked (e ∷ [])) (hook_after s.hooked e) (step kind k viewer s e)
  unfolding step
  step-Accounts s (broadcasts pid d) = broadcast-Accounts s pid d
  step-Accounts s (rehooks b) = λ on. (on, refl, λ fits. sym (append-nil s.rx_queue))
  step-Accounts s takes = take-Accounts s s.rx_queue refl
  step-Accounts s (idles alive) = idle-Accounts s s.rx_queue alive
  step-Accounts s (types read accepted) = type-Accounts s read accepted

  each-queue :
      (s : State) (accepted : Bool) (chunks : List (List ℕ))
      → (write_each k s accepted chunks).0.rx_queue ≡ s.rx_queue
  each-queue s accepted [] = refl
  each-queue s true (d ∷ chunks) = refl
  each-queue s false (d ∷ chunks) = refl

  take-queue :
      (s : State) (queue : List Chunk)
      → length queue ≤ length s.rx_queue
      → length (on_take kind s queue).0.rx_queue ≤ length s.rx_queue + 0
  unfolding on_take
  take-queue s [] h = omega arith
  take-queue s ((pid, d) ∷ queue) h = ground (arith, h)

  idle-queue :
      (s : State) (queue : List Chunk) (alive : Bool)
      → length (on_idle s queue alive).0.rx_queue ≤ length s.rx_queue + 0
  unfolding on_idle
  idle-queue s (d ∷ queue) alive = omega arith
  idle-queue s [] alive = ground arith

  step-queue :
      (s : State) (e : Event)
      → length (step kind k viewer s e).0.rx_queue
        ≤ length s.rx_queue + length (said k s.hooked (e ∷ []))
  unfolding step on_broadcast on_type
  step-queue s (broadcasts pid d) = ground (arith, length-append s.rx_queue ((pid, d) ∷ []))
  step-queue s (rehooks b) = omega arith
  step-queue s takes = take-queue s s.rx_queue (omega arith)
  step-queue s (idles alive) = idle-queue s s.rx_queue alive
  step-queue s (types read accepted) =
      ground (arith, each-queue s accepted (typed_by kind viewer read))

  said-cons :
      (h : Bool) (e : Event) (es : List Event)
      → said k h (e ∷ es) ≡ (said k h (e ∷ []) ++ said k (hook_after h e) es)
  said-cons h (broadcasts pid d) es = ground arith
  said-cons h (rehooks b) es = refl
  said-cons h takes es = refl
  said-cons h (idles alive) es = refl
  said-cons h (types read accepted) es = refl

  run-Accounts :
      (s : State) (es : List Event)
      → let r = run kind k viewer s es in Accounts kind s (said k s.hooked es) r.0.hooked r
  unfolding run
  run-Accounts s [] on = stays kind s on
  run-Accounts s (e ∷ es) on =
      let s' : State = (step kind k viewer s e).0 in
      let acts : List Act = (step kind k viewer s e).1 in
      let (on', _, later) = run-Accounts s' es on in
      let (was, hook, now) = step-Accounts s e on' in
      let new : List Chunk = said k s.hooked (e ∷ []) in
      let rest : List Chunk = said k s'.hooked es in
      let parts : said k s.hooked (e ∷ es) ≡ (new ++ rest) =
        said-cons s.hooked e es ∙ ap (λ h. new ++ said k h es) (sym hook) in
      let all : length (said k s.hooked (e ∷ es)) ≡ length new + length rest =
        ap length parts ∙ length-append new rest in
      let more : List Act = (run kind k viewer s' es).1 in
      let queue : List Chunk = (run kind k viewer s' es).0.rx_queue in
      (
        was,
        refl,
        λ fits.
            ap (λ x. x ++ queue) (passed-append kind acts more)
            ∙ append_assoc (passed kind acts) (passed kind more) queue
            ∙ ap (λ x. passed kind acts ++ x) (later (omega (arith, fits, all, step-queue s e)))
            ∙ sym (append_assoc (passed kind acts) s'.rx_queue rest)
            ∙ ap (λ x. x ++ rest) (now (omega (arith, fits, all)))
            ∙ append_assoc s.rx_queue new rest
            ∙ ap (λ x. s.rx_queue ++ x) (sym parts),
      )

-- While a bridge runs and its task that shows bytes is on, and the port has said no more than 1000
-- chunks with the hook in place since its start, the terminal has got exactly these chunks, of this port only and in order,
-- but for those that wait in the queue, which are the last ones; by Telnet as they are, by SSH each
-- one decoded. What the port says while another session has removed the hook is not among them.
pub bridge_delivers :
    (kind : Kind) (k : String) (viewer : Bool) (es : List Event)
    → IsOn (run kind k viewer started es).0
    → length (said k true es) ≤ queue_size
    → let (s, acts) = run kind k viewer started es in
      (passed kind acts ++ s.rx_queue) ≡ said k true es
bridge_delivers kind k viewer es on fits =
    (run-Accounts kind k viewer started es on).2 (omega (arith, fits))

-- A read that holds Ctrl+], or the end of the input, ends a bridge with the next round of the other
-- task, whether that gets bytes or waits in vain, and whatever is in the queue.
pub bridge_leaves :
    (kind : Kind) (k : String) (viewer : Bool) (s : State) (read : List ℕ) (accepted alive : Bool)
    → s.tx_on ≡ true
    → (is_nil read || contains 29 read) ≡ true
    → is_over (run kind k viewer s (types read accepted ∷ takes ∷ idles alive ∷ [])).0 ≡ true
unfolding run step on_type on_take on_idle
bridge_leaves kind k viewer s read accepted alive on ends = elim (List-cases s.rx_queue) [
  | inl e ↦ rw (on, ends, e) (ground arith)
  | inr (d, ds, e) ↦ rw (on, ends, e) (ground arith)
]
