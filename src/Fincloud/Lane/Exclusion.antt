-- ===== src/Fincloud/Lane/Exclusion.antt =====
-- Sessions of different contexts never overlap on a lane.
use mathlib.Core.List.{Memᴰ}
use dwh_v.Common.{◌≡◌, true, List, length, All-mem, ◌≤◌, ◌∙◌, sym}
use dwh_v.Fincloud.Auth.{Config, session_key}
use dwh_v.Fincloud.Lane.{Lease, Call, empty, run}
use dwh_v.Fincloud.Lane.Invariant.{Fits, Session}
use dwh_v.Fincloud.Lane.Step.{run-Inv, empty-Inv}

-- After any calls on a new lane, any two leases that are held at once are of one client and of one
-- session context, and a lease that was asked for as exclusive is the only one.
pub held_one_session :
    (c : Config) (xs : List Call) (x y : Lease)
    → Memᴰ x (run c empty xs).held
    → Memᴰ y (run c empty xs).held
    → (x.client ≡ y.client)
      × (session_key x.holder.auth ≡ session_key y.holder.auth)
      × (x.holder.exclusive ≡ true → length (run c empty xs).held ≤ 1)
held_one_session c xs x y mx my = (
  fx.same_client ∙ sym fy.same_client,
  fx.same_key ∙ sym fy.same_key,
  λ e. s.alone (sym fx.same_mode ∙ e),
)
  where
    s : Session (run c empty xs).held
    s = (run-Inv c empty xs empty-Inv).session

    fx : Fits s.client s.key s.exclusive x
    fx = All-mem _ s.uniform mx

    fy : Fits s.client s.key s.exclusive y
    fy = All-mem _ s.uniform my

-- After any calls on a new lane, `active` is the number of leases that have not been released.
pub active-length :
    (c : Config) (xs : List Call) → (run c empty xs).active ≡ length (run c empty xs).held
active-length c xs = (run-Inv c empty xs empty-Inv).counted
