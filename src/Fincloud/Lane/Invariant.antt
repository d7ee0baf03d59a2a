-- ===== src/Fincloud/Lane/Invariant.antt =====
-- What holds of a lane whenever its mutex is free, but for the queue.
use dwh_v.Common.{ℕ, ◌≤◌, ◌≡◌, Bool, true, Option, none, some, List, length, All}
use dwh_v.Fincloud.Auth.{SessionKey, session_key}
use dwh_v.Fincloud.Lane.{Epoch, Lease, Lane}

-- The lease stands for a session of client `n` with key `k`, exclusive or not.
pub record Fits (n : ℕ) (k : SessionKey) (exclusive : Bool) (x : Lease) : Type 0 where
  pub same_client : x.client ≡ n
  pub same_key : session_key x.holder.auth ≡ k
  pub same_mode : x.holder.exclusive ≡ exclusive

-- All leases are of one session, and an exclusive lease is alone.
pub record Session (held : List Lease) : Type 0 where
  pub client : ℕ
  pub key : SessionKey
  pub exclusive : Bool
  pub uniform : All (Fits client key exclusive) held
  pub alone : exclusive ≡ true → length held ≤ 1

abbrev pub Current : Option Epoch → List Lease → Type 0
Current none held = Unit {0}
Current (some e) held = All (Fits e.client (session_key e.auth) e.exclusive) held

pub record Inv (l : Lane) : Type 0 where
  pub counted : l.active ≡ length l.held
  pub session : Session l.held
  pub current : Current l.current l.held
