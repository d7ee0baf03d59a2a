-- ===== src/Fincloud/Lane/Tests.antt =====
-- Runs of a lane, and the theorems at concrete inputs.
use mathlib.Core.List.{Memᴰ}
use dwh_v.Common.{
  ℕ, ◌≡◌, ◌<◌, ◌≤◌, refl, true, false, none, List, [], ◌∷◌, ◌++◌, length, map, keep, Bool, String,
}
use dwh_v.Fincloud.Auth.{
  AuthContext, Config, session_key, client_accepted, same_session_context, invalid_auth_identifier,
}
use dwh_v.Fincloud.Lane.{
  Waiter, Lease, Call, acquires, gives_up, releases, closes, leased, refused, coordinator_closed,
  empty, grant_round, step, run, close,
}
use dwh_v.Fincloud.Lane.Exclusion.{held_one_session, active-length}
use dwh_v.Fincloud.Lane.Wakeup.{head_must_wait, Waits}
use dwh_v.Fincloud.Lane.Order.{answered, comers, stays, answers_in_order}
use dwh_v.Fincloud.Lane.Closing.{close_refuses_queue, closed_lane_drains}

abbrev plain : Config
plain = record { trim_space = λ s. s; endpoint_accepted = true }

abbrev account : String → AuthContext
account location = record {
  profile_id = 1;
  revision = 1;
  profile_name = "main";
  username = "u";
  password = "p";
  role_id = "r";
  location_id = location;
}

abbrev caller : ℕ → String → Bool → Waiter
caller id location exclusive = record { id = id; auth = account location; exclusive = exclusive }

-- Two callers share a session; a third, for another location, waits with a fourth behind it.
abbrev traffic : List Call
traffic =
    acquires (caller 1 "a" false)
    ∷ acquires (caller 2 "a" false)
    ∷ acquires (caller 3 "b" false)
    ∷ acquires (caller 4 "a" false)
    ∷ []

queue_after : map (λ (w : Waiter). w.id) (run plain empty traffic).waiters ≡ 3 ∷ 4 ∷ []
unfolding run step grant_round empty client_accepted same_session_context invalid_auth_identifier
queue_after = refl

served_after :
    (run plain empty (traffic ++ releases 1 ∷ releases 1 ∷ releases 2 ∷ [])).sent
    ≡ (caller 1 "a" false, leased 0)
      ∷ (caller 2 "a" false, leased 0)
      ∷ (caller 3 "b" false, leased 1)
      ∷ []
unfolding run step grant_round empty client_accepted same_session_context invalid_auth_identifier
served_after = refl

abbrev lease_one : Lease
lease_one = record { holder = caller 1 "a" false; client = 0 }

abbrev lease_two : Lease
lease_two = record { holder = caller 2 "a" false; client = 0 }

held_one_session_example :
    (lease_one.client ≡ lease_two.client)
    × (session_key lease_one.holder.auth ≡ session_key lease_two.holder.auth)
    × (lease_one.holder.exclusive ≡ true → length (run plain empty traffic).held ≤ 1)
unfolding run step grant_round empty client_accepted same_session_context invalid_auth_identifier
held_one_session_example =
    held_one_session plain traffic lease_one lease_two (Memᴰ.tail (Memᴰ.head refl)) (Memᴰ.head refl)

active-length_example : (run plain empty traffic).active ≡ length (run plain empty traffic).held
active-length_example = active-length plain traffic

head_must_wait_example :
    ((run plain empty traffic).closed ≡ false)
    × (0 < (run plain empty traffic).active)
    × Waits (run plain empty traffic).current (caller 3 "b" false)
unfolding run step grant_round empty client_accepted same_session_context invalid_auth_identifier
head_must_wait_example =
    head_must_wait plain traffic (caller 3 "b" false) (caller 4 "a" false ∷ []) refl

-- The third caller gives up, and the fourth is no longer behind it.
answers_in_order_example :
    keep (stays (traffic ++ gives_up 3 ∷ [])) (
      answered (run plain empty (traffic ++ gives_up 3 ∷ []))
      ++ (run plain empty (traffic ++ gives_up 3 ∷ [])).waiters)
    ≡ keep (stays (traffic ++ gives_up 3 ∷ [])) (comers (traffic ++ gives_up 3 ∷ []))
answers_in_order_example = answers_in_order plain (traffic ++ gives_up 3 ∷ [])

close_refuses_queue_example :
    let l = run plain empty traffic in
    ((close plain l).waiters ≡ [])
    × ((close plain l).sent ≡ l.sent ++ map (λ w. (w, refused coordinator_closed)) l.waiters)
    × ((close plain l).held ≡ l.held)
    × (l.active ≡ 0 → (close plain l).current ≡ none)
close_refuses_queue_example = close_refuses_queue plain (run plain empty traffic)

abbrev returned : List Call
returned = releases 1 ∷ releases 2 ∷ []

closed_lane_drains_example :
    let l = run plain empty (traffic ++ closes ∷ returned) in
    (l.closed ≡ true) × (l.waiters ≡ []) × (l.held ≡ [] → l.current ≡ none)
closed_lane_drains_example = closed_lane_drains plain traffic returned
