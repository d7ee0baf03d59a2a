-- ===== src/Fincloud/Coordinator/Tests.antt =====
-- Two users of one coordinator.
use mathlib.Core.List.{Memᴰ}
use dwh_v.Common.{ℕ, ◌≤◌, ◌≡◌, refl, true, false, String, some, List, [], ◌∷◌, length}
use dwh_v.Fincloud.Auth.{
  Config, session_key, validate, client_accepted, same_session_context, invalid_auth_identifier,
}
use dwh_v.Fincloud.Lane.{Grant, Lane, Lease, Waiter, empty, acquire, grant_locked, grant_round, run}
use dwh_v.Fincloud.Coordinator.{
  Call, enters, fresh, enter, handle, handle_all, calls_of, user_has_one_session,
}

abbrev plain : Config
plain = record { trim_space = λ s. s; endpoint_accepted = true }

abbrev caller : ℕ → String → Waiter
caller id user = record {
  id = id;
  auth = record {
    profile_id = 1;
    revision = 1;
    profile_name = "p";
    username = user;
    password = "x";
    role_id = "r";
    location_id = "l";
  };
  exclusive = false;
}

abbrev traffic : List Call
traffic = enters (caller 1 "ann") ∷ enters (caller 2 "bob") ∷ enters (caller 3 "ann") ∷ []

abbrev lease : ℕ → Lease
lease id = record { holder = caller id "ann"; client = 0 }

abbrev lane_of_ann : Lane
lane_of_ann = record {
  current = some (record { auth = (caller 1 "ann").auth; client = 0; exclusive = false });
  active = 2;
  waiters = [];
  closed = false;
  sent = (caller 1 "ann", Grant.leased 0) ∷ (caller 3 "ann", Grant.leased 0) ∷ [];
  held = lease 3 ∷ lease 1 ∷ [];
  idled = [];
  next_client = 1;
}

user_has_one_session_example :
    (lane_of_ann ≡ run plain empty (calls_of plain "ann" false traffic))
    × ((lease 1).client ≡ (lease 3).client)
    × (session_key (lease 1).holder.auth ≡ session_key (lease 3).holder.auth)
    × ((lease 1).holder.exclusive ≡ true → length lane_of_ann.held ≤ 1)
unfolding handle_all handle enter fresh validate grant_round empty acquire grant_locked
    client_accepted same_session_context invalid_auth_identifier
user_has_one_session_example =
    user_has_one_session plain traffic "ann" lane_of_ann (lease 1) (lease 3) refl
      (Memᴰ.tail (Memᴰ.head refl)) (Memᴰ.head refl)
