-- ===== src/Locks/Holder.antt =====
-- Who holds a port over any sequence of calls of the lock routes.
use serwebs.Prelude.{
  ◌≡◌, ◌≢◌, ◌↔◌, String, true, eq_iff, eq_refl, arith, ◌⊎◌, inl, inr, none, some, Option-cases,
  List, [], ◌∷◌,
}
use serwebs.Dict.{Dict, get, get-put, get-pop}
use serwebs.Roles.{User, require_role}
use serwebs.Locks.{Lock, lock_port, unlock_port, locked_out, get_lock_status}

-- A call of a lock route, with its port, its caller and, for a lock, the time.
pub data Call : Type 0 where
  lock : String → User → String → Call
  unlock : String → User → Call

unfoldable pub step : Dict Lock → Call → Dict Lock
unfolding lock_port unlock_port
step locks (lock port_id user now) = (lock_port locks port_id user now).1
step locks (unlock port_id user) = (unlock_port locks port_id user).1

unfoldable pub run : Dict Lock → List Call → Dict Lock
unfolding step
run locks [] = locks
run locks (c ∷ cs) = run (step locks c) cs

-- The call does not unlock the port for its holder or for an admin.
abbrev pub IsForeign : String → String → Call → Type 0
IsForeign port_id holder (lock p user now) = Unit
IsForeign port_id holder (unlock p user) =
    (p ≢ port_id) ⊎ ((user.username ≢ holder) × (user.role ≢ "admin"))

abbrev pub AllForeign : String → String → List Call → Type 0
AllForeign port_id holder [] = Unit
AllForeign port_id holder (c ∷ cs) = IsForeign port_id holder c × AllForeign port_id holder cs

step-holder :
    (locks : Dict Lock) (c : Call) (port_id holder now : String)
    → get port_id locks ≡ some (record { user = some holder; locked_at = some now })
    → IsForeign port_id holder c
    → get port_id (step locks c) ≡ some (record { user = some holder; locked_at = some now })
unfolding step lock_port unlock_port
step-holder locks (lock p user at) port_id holder now h f = elim (Option-cases (get p locks)) [
  | inl e ↦ ground (
    arith,
    e,
    get-put p port_id (record { user = some user.username; locked_at = some at }) locks,
    eq_iff p port_id,
  )
  | inr (l, e) ↦ ground (arith, e)
]
step-holder locks (unlock p user) port_id holder now h f = elim (Option-cases (get p locks)) [
  | inl e ↦ ground (arith, e)
  | inr (l, e) ↦ ground (
    arith,
    e,
    h,
    f,
    get-pop p port_id locks,
    eq_iff p port_id,
    eq_iff holder user.username,
    eq_iff user.role "admin",
  )
]

-- Once a user has locked a port, the lock stays theirs through any calls of the lock routes, except
-- an unlock of that port by themselves or by an admin.
pub run-holder :
    (locks : Dict Lock) (cs : List Call) (port_id holder now : String)
    → get port_id locks ≡ some (record { user = some holder; locked_at = some now })
    → AllForeign port_id holder cs
    → get port_id (run locks cs) ≡ some (record { user = some holder; locked_at = some now })
unfolding run
run-holder locks [] port_id holder now h f = h
run-holder locks (c ∷ cs) port_id holder now h (f, fs) =
    run-holder (step locks c) cs port_id holder now (step-holder locks c port_id holder now h f) fs

locked_now :
    (locks : Dict Lock) (port_id now : String) (user : User)
    → get port_id locks ≡ none
    → require_role "user" user ≡ true
    → get port_id (step locks (lock port_id user now))
      ≡ some (record { user = some user.username; locked_at = some now })
unfolding step lock_port
locked_now locks port_id now user n r = ground (
  arith,
  n,
  r,
  get-put port_id port_id (record { user = some user.username; locked_at = some now }) locks,
  eq_refl port_id,
)

-- A user of level "user" or more who locks a free port is the one it reports, and stays the only one
-- who is not locked out, through any calls of the lock routes but an unlock of that port by that user
-- or by an admin.
pub lock_holds :
    (locks : Dict Lock) (cs : List Call) (port_id now other : String) (user : User)
    → get port_id locks ≡ none
    → require_role "user" user ≡ true
    → AllForeign port_id user.username cs
    → let later : Dict Lock = run (step locks (lock port_id user now)) cs in
      (get_lock_status later port_id
        ≡ some (record { user = some user.username; locked_at = some now }))
      × ((locked_out later port_id other ≡ true) ↔ (other ≢ user.username))
unfolding get_lock_status locked_out
lock_holds locks cs port_id now other user n r f =
    let h : get port_id (run (step locks (lock port_id user now)) cs)
        ≡ some (record { user = some user.username; locked_at = some now }) =
      run-holder (step locks (lock port_id user now)) cs port_id user.username now
        (locked_now locks port_id now user n r) f in
    (
      ground (arith, h),
      (
        λ e q. ground (arith, h, eq_iff user.username other),
        λ e. ground (arith, h, eq_iff user.username other),
      ),
    )
