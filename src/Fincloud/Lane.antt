-- ===== src/Fincloud/Lane.antt =====
-- internal/fincloud/session_coordinator.go, `sessionLane`: one Fincloud user's sessions. Callers
-- queue; the head of the queue gets a lease on the current client, if it needs the same session
-- context, or on a new one once nobody holds a lease.
mod Invariant
mod Rules
mod Step
pub mod Exclusion
pub mod Wakeup
pub mod Order
pub mod Closing
mod Tests
use dwh_v.Common.{
  ℕ, zero, suc, ◌+◌, ◌-◌, ◌≡◌, Bool, true, false, ◌&&◌, ◌||◌, not, Option, none, some, List, [],
  ◌∷◌, ◌++◌, ltb, ◌==◌, if◌then◌else◌, length, remove_first,
}
use dwh_v.Fincloud.Auth.{AuthContext, Config, client_accepted, same_session_context}

pub record Epoch : Type 0 where
  pub auth : AuthContext
  pub client : ℕ
  pub exclusive : Bool

pub record Waiter : Type 0 where
  pub id : ℕ
  pub auth : AuthContext
  pub exclusive : Bool

-- `coordinatedLease`, with the waiter that it was granted to.
pub record Lease : Type 0 where
  pub holder : Waiter
  pub client : ℕ

pub data Refusal : Type 0 where
  coordinator_closed client_rejected : Refusal

-- `sessionGrant`
pub data Grant : Type 0 where
  leased : ℕ → Grant
  refused : Refusal → Grant

-- The Go fields are the first four. `sent` lists what was sent on the waiters' `done` channels, oldest
-- first, `held` the leases whose `once` has not fired, `idled` the clients whose idle connections
-- were closed; clients are numbered as they are made.
pub record Lane : Type 0 where
  pub current : Option Epoch
  pub active : ℕ
  pub waiters : List Waiter
  pub closed : Bool
  pub sent : List (Waiter × Grant)
  pub held : List Lease
  pub idled : List ℕ
  pub next_client : ℕ

unfoldable pub empty : Lane
empty = record {
  current = none;
  active = 0;
  waiters = [];
  closed = false;
  sent = [];
  held = [];
  idled = [];
  next_client = 0;
}

-- `popLocked().done <- grant`, for the queue `w ∷ ws`.
abbrev pub send : Lane → Waiter → List Waiter → Grant → Lane
send l w ws g = record l { waiters = ws; sent = l.sent ++ (w, g) ∷ [] }

abbrev pub send_lease : Lane → Waiter → List Waiter → ℕ → Lane
send_lease l w ws client = record l {
  waiters = ws;
  sent = l.sent ++ (w, leased client) ∷ [];
  held = record { holder = w; client = client } ∷ l.held;
}

-- What follows in the body of the loop of `grantLocked`: the next round, a return, or the part of
-- the body that is behind the branch for an idle lane.
pub data Flow : Type 0 where
  again stop onward : Flow

-- The lines from `lane.current = &sessionEpoch{…}` on.
abbrev pub install : Lane → Waiter → List Waiter → ℕ → Lane × Flow
install l w ws client = (
  record (send_lease l w ws client) {
    current = some (record { auth = w.auth; client = client; exclusive = w.exclusive });
    active = 1;
  },
  if w.exclusive then stop else onward,
)

-- `CloseIdleConnections` of the current client, if there is one.
abbrev pub idle_current : Option Epoch → List ℕ → List ℕ
idle_current none idled = idled
idle_current (some e) idled = e.client ∷ idled

abbrev pub reusable : Option Epoch → Waiter → Option ℕ
reusable none w = none
reusable (some e) w =
    if not w.exclusive && same_session_context e.auth w.auth then some e.client else none

-- A client is made, and the current one has its idle connections closed.
abbrev pub fresh_client : Lane → Lane
fresh_client l = record l {
  idled = idle_current l.current l.idled;
  next_client = suc l.next_client;
}

-- The branch of the loop for `lane.active == 0`.
unfoldable pub grant_idle : Config → Lane → Waiter → List Waiter → Lane × Flow
grant_idle c l w ws = elim (reusable l.current w) [
  | some client ↦ install l w ws client
  | none ↦
      if client_accepted c w.auth
      then install (fresh_client l) w ws l.next_client
      else (send l w ws (refused client_rejected), again)
]

-- The rest of the body: the head of the queue joins the current session.
unfoldable pub share : Lane → Option Epoch → List Waiter → Lane × Flow
share l current [] = (l, stop)
share l none (w ∷ ws) = (l, stop)
share l (some e) (w ∷ ws) =
    if e.exclusive || (w.exclusive || not (same_session_context e.auth w.auth))
    then (l, stop)
    else (record (send_lease l w ws e.client) { active = l.active + 1 }, again)

abbrev pub onward_share : Lane × Flow → Lane × Flow
onward_share (l, onward) = share l l.current l.waiters
onward_share (l, again) = (l, again)
onward_share (l, stop) = (l, stop)

-- One round of the loop, for the queue `w ∷ ws`.
unfoldable pub grant_round : Config → Lane → Waiter → List Waiter → Lane × Flow
unfolding grant_idle share
grant_round c l w ws =
    if l.closed
    then (send l w ws (refused coordinator_closed), again)
    else (if l.active == 0 then onward_share (grant_idle c l w ws) else share l l.current (w ∷ ws))

-- The loop; each round but the last shortens the queue, so its length is fuel enough.
unfoldable pub grant_loop : Config → ℕ → List Waiter → Lane → Lane
grant_loop c zero ws l = l
grant_loop c (suc fuel) [] l = l
grant_loop c (suc fuel) (w ∷ ws) l =
    let (l', flow) = grant_round c l w ws in
    elim flow [ again ↦ grant_loop c fuel l'.waiters l' | _ ↦ l' ]

unfoldable pub grant_locked : Config → Lane → Lane
unfolding grant_loop
grant_locked c l = grant_loop c (length l.waiters) l.waiters l

-- `acquire` up to its `select`; on a closed lane it returns an error and changes nothing.
unfoldable pub acquire : Config → Waiter → Lane → Lane × Bool
acquire c w l =
    if l.closed
    then (l, false)
    else (grant_locked c (record l { waiters = l.waiters ++ w ∷ [] }), true)

abbrev pub remove_waiter : ℕ → List Waiter → Option (List Waiter)
remove_waiter id = remove_first λ w. w.id == id

unfoldable pub cancel : Config → ℕ → Lane → Lane × Bool
cancel c id l = elim (remove_waiter id l.waiters) [
  | none ↦ (l, false)
  | some ws ↦ (grant_locked c (record l { waiters = ws }), true)
]

abbrev pub unshare : Bool → Option Epoch → Option Epoch
unshare closed none = none
unshare closed (some e) = if closed then none else some (record e { exclusive = false })

-- The state that `release` hands to `grantLocked`.
unfoldable pub vacate : Lane → Lane
vacate l =
    let active = l.active - 1 in
    if active == 0
    then record l {
      active = active;
      current = unshare l.closed l.current;
      idled = if l.closed then idle_current l.current l.idled else l.idled;
    }
    else record l { active = active }

unfoldable pub release : Config → Lane → Lane
unfolding vacate
release c l = grant_locked c (vacate l)

abbrev pub remove_lease : ℕ → List Lease → Option (List Lease)
remove_lease id = remove_first λ x. x.holder.id == id

-- `Release` of a lease, by its holder: `once` lets only the first call through.
unfoldable pub release_once : Config → ℕ → Lane → Lane
unfolding release
release_once c id l = elim (remove_lease id l.held) [
  | none ↦ l
  | some held ↦ release c (record l { held = held })
]

-- The branch of `acquire` for a context that ends before the answer.
unfoldable pub give_up : Config → ℕ → Lane → Lane
unfolding cancel release_once
give_up c id l =
    let (l', cancelled) = cancel c id l in if cancelled then l' else release_once c id l'

unfoldable pub invalidate : ℕ → Lane → Lane
invalidate client l = elim l.current [
  | none ↦ l
  | some e ↦ if e.client == client then record l { current = none; idled = client ∷ l.idled } else l
]

unfoldable pub close : Config → Lane → Lane
unfolding grant_locked
close c l =
    let l' = grant_locked c (record l { closed = true }) in
    if l'.active == 0
    then record l' { current = none; idled = idle_current l'.current l'.idled }
    else l'

-- The calls on a lane, each under its mutex, so in some order.
pub data Call : Type 0 where
  acquires : Waiter → Call
  gives_up releases invalidates : ℕ → Call
  closes : Call

unfoldable pub step : Config → Lane → Call → Lane
unfolding acquire give_up release_once invalidate close
step c l (acquires w) = (acquire c w l).0
step c l (gives_up id) = give_up c id l
step c l (releases id) = release_once c id l
step c l (invalidates client) = invalidate client l
step c l closes = close c l

unfoldable pub run : Config → Lane → List Call → Lane
run c l [] = l
run c l (x ∷ xs) = run c (step c l x) xs
