-- ===== src/Ports/Closing.antt =====
-- What closing a port, losing its device and shutting down do.
use serwebs.Prelude.{
  ℕ, ◌≡◌, refl, sym, ap, ap₂, ◌∙◌, inl, inr, String, Bool, false, ◌==◌, eq_refl, none, some, List,
  [], ◌∷◌, ◌++◌, map, keep, arith, Option-cases, Bool-cases,
}
use serwebs.Dict.{Dict, get, pop, keys, get-put}
use serwebs.Dict.Sums.{IsUnique, pop-IsUnique, pops, pops-keys}
use serwebs.Models.{free, PortInfo}
use serwebs.Ring
use serwebs.Scan.{System, PortManager, scan_ports}
use serwebs.Scan.Status.{AllAgree, scan_ports-AllAgree}
use serwebs.Wire.{send, close, status, error}
use serwebs.Ws.{WsManager, clients_of, buffer_of, broadcast_status, disconnect_all, clear_buffer}
use serwebs.Ws.Delivery.{broadcast_status_lem, broadcast_error_lem, disconnect_all_lem}
use serwebs.Ports.{close_port, handle_device_error, close_ports, shutdown, set_free}

-- `keep` twice by one test is `keep` once.
keep-keep : (p : ℕ → Bool) (xs : List ℕ) → keep p (keep p xs) ≡ keep p xs
keep-keep p [] = refl
keep-keep p (x ∷ xs) = elim (Bool-cases (p x)) [
  | inl e ↦ rw (e, keep, e) (ap (◌∷◌ x) (keep-keep p xs))
  | inr e ↦ rw e (keep-keep p xs)
]

clear_buffer_clients :
    (w : WsManager) (k other : String) → clients_of (clear_buffer w k) other ≡ clients_of w other
unfolding clear_buffer
clear_buffer_clients w k other = ground arith

clear_buffer_empties :
    (w : WsManager) (k : String) → Ring.read_all (buffer_of (clear_buffer w k) k) ≡ []
unfolding clear_buffer Ring.clear Ring.read_all Ring.new
clear_buffer_empties w k =
    ground (arith, get-put k k (Ring.clear (buffer_of w k)) w.ring_buffers, eq_refl k)

set_free-status :
    (k : String) (ports : Dict PortInfo) (port : PortInfo)
    → get k (set_free k ports) ≡ some port
    → (port.status ≡ free) × (port.settings ≡ none) × (port.clients ≡ 0)
unfolding set_free
set_free-status k ports port e = elim (Option-cases (get k ports)) [
  | inl f ↦ ground arith
  | inr (p, f) ↦
      let q : record p { status = free; settings = none; clients = 0 } ≡ port = ground (
        arith,
        get-put k k (record p { status = free; settings = none; clients = 0 }) ports,
        eq_refl k,
      ) in
      (
        sym (ap (λ (x : PortInfo). x.status) q),
        sym (ap (λ (x : PortInfo). x.settings) q),
        sym (ap (λ (x : PortInfo). x.clients) q),
      )
]

-- Closing a port: its worker is gone and the others are kept; each live client got the status
-- and then a close, and nobody else got anything; no client is left on the port and the other
-- ports keep theirs; its replay is empty; and if the port is known it is free, without settings.
pub close_port_lem :
    (sys : System) (m : PortManager) (k : String)
    → let (m', effects) = close_port sys m k in
      (m'.workers ≡ pop k m.workers)
      × (effects
          ≡ map (λ c. send c (status "disconnected")) (keep sys.alive (clients_of m.ws k))
            ++ map (λ c. close c 1001) (keep sys.alive (clients_of m.ws k)))
      × (clients_of m'.ws k ≡ [])
      × ((other : String) → (k == other) ≡ false → clients_of m'.ws other ≡ clients_of m.ws other)
      × (Ring.read_all (buffer_of m'.ws k) ≡ [])
      × ((port : PortInfo)
          → get k m'.ports ≡ some port
          → (port.status ≡ free) × (port.settings ≡ none) × (port.clients ≡ 0))
unfolding close_port
close_port_lem sys m k =
    let ws₁ : WsManager = (broadcast_status sys.alive m.ws k "disconnected").0 in
    let ws₂ : WsManager = (disconnect_all sys.alive ws₁ k).0 in
    let (sent, left, others, buffers, size) =
      broadcast_status_lem sys.alive m.ws k "disconnected" in
    let (gone, closed, others') = disconnect_all_lem sys.alive ws₁ k in
    (
      refl,
      ap₂ ◌++◌ sent (
          closed
          ∙ ap (map (λ c. close c 1001))
              (ap (keep sys.alive) left ∙ keep-keep sys.alive (clients_of m.ws k))),
      clear_buffer_clients ws₂ k k ∙ gone,
      λ other h. clear_buffer_clients ws₂ k other ∙ others' other h ∙ others other h,
      clear_buffer_empties ws₂ k,
      λ port e. set_free-status k m.ports port e,
    )

-- A device error on a port: its worker is gone and the others are kept; each live client of the
-- port got the status and then the message, and stays a client, as do those of the other ports;
-- and all ports agree with the workers that are left.
pub handle_device_error_lem :
    (sys : System) (m : PortManager) (k message : String)
    → IsUnique m.workers
    → let (m', effects) = handle_device_error sys m k message in
      (m'.workers ≡ pop k m.workers)
      × (effects
          ≡ map (λ c. send c (status "device_lost")) (keep sys.alive (clients_of m.ws k))
            ++ map (λ c. send c (error message)) (keep sys.alive (clients_of m.ws k)))
      × (clients_of m'.ws k ≡ keep sys.alive (clients_of m.ws k))
      × ((other : String) → (k == other) ≡ false → clients_of m'.ws other ≡ clients_of m.ws other)
      × AllAgree sys m' m'.ports
unfolding handle_device_error scan_ports
handle_device_error_lem sys m k message u =
    let ws₁ : WsManager = (broadcast_status sys.alive m.ws k "device_lost").0 in
    let (sent, left, others, _, _) = broadcast_status_lem sys.alive m.ws k "device_lost" in
    let (sent', left', others', _, _) = broadcast_error_lem sys.alive ws₁ k message in
    let again : keep sys.alive (clients_of ws₁ k) ≡ keep sys.alive (clients_of m.ws k) =
      ap (keep sys.alive) left ∙ keep-keep sys.alive (clients_of m.ws k) in
    (
      refl,
      ap₂ ◌++◌ sent (sent' ∙ ap (map (λ c. send c (error message))) again),
      left' ∙ again,
      λ other h. others' other h ∙ others other h,
      (scan_ports-AllAgree sys _ (pop-IsUnique k m.workers u)).0,
    )

close_ports-workers :
    (sys : System) (m : PortManager) (ks : List String)
    → (close_ports sys m ks).0.workers ≡ pops ks m.workers
unfolding close_ports close_port pops
close_ports-workers sys m [] = refl
close_ports-workers sys m (k ∷ ks) = close_ports-workers sys (close_port sys m k).0 ks

-- After a shutdown no port is open.
pub shutdown_closes : (sys : System) (m : PortManager) → (shutdown sys m).0.workers ≡ []
unfolding shutdown
shutdown_closes sys m = close_ports-workers sys m (keys m.workers) ∙ pops-keys m.workers
