-- ===== src/Mfa/Tests.antt =====
-- A user with an authenticator and a recovery code, and two logins that wait for a code.
use dwh_v.Common.{
  ℕ, ◌*◌, ◌≤◌, ◌≡◌, ◌≢◌, refl, true, false, String, none, some, List, [], ◌∷◌, Result, ok, err,
  arith, count_if,
}
use dwh_v.Common.Tables.{find_row, update_rows}
use dwh_v.Mfa.Totp.{pos, less, Crypto, last, second, totp_code, match_in, match_code, max_failures}
use dwh_v.Mfa.Model.{login, User, Challenge, Store, Env, Draws, Outcome, wrong_code, MfaError}
use dwh_v.Mfa.Challenges.{new_challenge, issue, begin_login}
use dwh_v.Mfa.Inspection.{Factor, Inspection, inspect, refused, counter_match, recovery_match}
use dwh_v.Mfa.Inspection.Facts.{Attempt, inspected}
use dwh_v.Mfa.Verify.{verify, reject, spend, use_counter, use_recovery, complete, create_session}
use dwh_v.Mfa.Reset.{reset}
use dwh_v.Mfa.Reset.Revokes.{Went, reset_revokes}
use dwh_v.Mfa.Lifecycle.{
  Operation, verifies, logs_in, expires, perform, performs, event, events, waiting, settle, failed,
  passed, unrelated,
}
use dwh_v.Mfa.Lifecycle.Refines.{Reached}
use dwh_v.Mfa.Lifecycle.History.{
  at_most_five_attempts, challenge_keeps_promise, is_attempt, is_pass,
}
use dwh_v.Mfa.Kept.Credentials.{renews, NeverRenews}
use dwh_v.Mfa.Replay.{attempted}
use dwh_v.Mfa.Replay.Counters.{codes_not_replayed}
use dwh_v.Mfa.Replay.Codes.{recovery_code_used_once}

abbrev toy : Crypto
toy = record {
  decode_base32 = λ secret. some [];
  hmac_sha1 = λ key message. 0 ∷ 0 ∷ 0 ∷ last message ∷ 0 ∷ [];
}

abbrev env : Env
env = record {
  lifetime = 1000 * second;
  remember_lifetime = 5000 * second;
  idle_timeout = 500 * second;
  crypto = toy;
  sha256 = λ text. text;
  zero_hash = "zero";
  encrypt = λ purpose id secret. some secret;
  decrypt = λ purpose id secret. some secret;
  print_id = λ id. "7";
  trim_space = λ text. text;
  to_upper = λ text. text;
  without_dashes = λ text. text;
}

abbrev draws : Draws
draws = record { challenge_token = "c"; secret = "s2"; session_token = "session"; codes = [] }

abbrev more : Draws
more = record { challenge_token = "d"; secret = "s3"; session_token = "other"; codes = [] }

abbrev ana : User
ana = record {
  id = 7;
  username = "ana";
  password_hash = "hash";
  active = true;
  role = 1;
  last_login_at = none;
}

abbrev noon : ℕ
noon = 3000 * second

abbrev first : Challenge
first = new_challenge 1 "t1" 7 0 login false "/" noon

abbrev other : Challenge
other = new_challenge 2 "t2" 7 0 login false "/" noon

abbrev start : Store
start = record {
  users = ana ∷ [];
  roles = [];
  challenges = first ∷ other ∷ [];
  next_challenge = 3;
  enrollments =
      record { user = 7; secret = "s"; last_counter = pos 90; enrolled_at = 0; updated_at = 0 }
      ∷ [];
  recovery =
      record { user = 7; code_hash = "mfa-recovery:7:REC1"; used_at = none; created_at = 0 } ∷ [];
  sessions = [];
  next_session = 1;
  audits = [];
}

abbrev attempt : String → String → ℕ → Attempt
attempt token input now = record {
  token = token;
  input = input;
  session_id = 0;
  password_hash = "";
  now = now;
  later = now;
}

-- The first code, the second thirty seconds later.
abbrev code_a : Attempt
code_a = attempt "t1" "000100" noon

abbrev code_b : Attempt
code_b = attempt "d" "000101" (3030 * second)

abbrev after_a : Store
after_a = settle start (attempted env draws code_a start)

abbrev found : Challenge → User → Factor → Inspection
found c u f = record { user = u; challenge = c; session = none; factor = f }

-- What the store is after a login with a factor.
abbrev logged_in : User
logged_in = record ana { last_login_at = some noon }

abbrev answer : Result MfaError (Outcome × Store) → Outcome
answer (ok (o, t)) = o
answer (err e) = wrong_code

inspect_a : inspected env code_a start ≡ ok (found first ana (counter_match (pos 100)))
unfolding inspect find_row match_code match_in totp_code
inspect_a = refl

-- Another login begins, and a wrong code is given for it.
abbrev between : List Operation
between = logs_in more 7 "hash" false "/" noon ∷ verifies draws "d" "000999" 0 "" noon noon ∷ []

abbrev failed_once : Challenge
failed_once = record (new_challenge 3 "d" 7 0 login false "/" noon) { failures = 1 }

codes_not_replayed_example : less (pos 100) (pos 101) ≡ true
unfolding inspect find_row match_code match_in totp_code verify spend use_counter complete
    create_session update_rows reject performs perform begin_login issue NeverRenews renews
codes_not_replayed_example =
    codes_not_replayed env draws code_a code_b between start after_a
      (found first ana (counter_match (pos 100)))
      (found failed_once logged_in (counter_match (pos 101)))
      (answer (attempted env draws code_a start)) (pos 100) (pos 101) refl refl refl refl
      (refl, (refl, tt)) refl refl refl refl

-- The recovery code, twice.
abbrev spare_a : Attempt
spare_a = attempt "t1" "REC1" noon

abbrev spare_b : Attempt
spare_b = attempt "d" "REC1" noon

abbrev after_spare : Store
after_spare = settle start (attempted env draws spare_a start)

recovery_code_used_once_example : refused ≢ recovery_match
unfolding inspect find_row match_code match_in totp_code verify spend use_recovery complete
    create_session update_rows reject performs perform begin_login issue NeverRenews renews
recovery_code_used_once_example =
    recovery_code_used_once env draws spare_a spare_b between start after_spare
      (found first ana recovery_match) (found failed_once logged_in refused)
      (answer (attempted env draws spare_a start)) refl refl refl refl (refl, (refl, tt)) refl refl
      refl

-- The operator takes the user's credentials away.
reset_revokes_example :
    Went env 7 0 0 noon noon start (settle start (reset env 7 0 0 noon noon start))
unfolding reset find_row
reset_revokes_example =
    reset_revokes env 7 0 0 noon noon start (settle start (reset env 7 0 0 noon noon start)) refl

-- A wrong code, the right one, and the right one again.
abbrev tries : String → Operation
tries input = verifies draws "t1" input 0 "" noon noon

abbrev history : List Operation
history = tries "000999" ∷ tries "000100" ∷ tries "000100" ∷ expires noon ∷ []

events-history : events env 1 history start ≡ failed ∷ passed ∷ unrelated ∷ unrelated ∷ []
unfolding events event perform inspect find_row match_code match_in totp_code verify spend
    use_counter complete create_session update_rows reject
events-history = refl

at_most_five_attempts_example :
    (count_if is_attempt (events env 1 history start) ≤ max_failures)
    × (count_if is_pass (events env 1 history start) ≤ 1)
at_most_five_attempts_example =
    at_most_five_attempts env 1 (waiting 0) history start (omega arith)
      ((λ _. refl), ((λ e. refl), tt))

challenge_keeps_promise_example :
    Reached 1 (waiting 0) (event env 1 (tries "000999") start) (perform env (tries "000999") start)
challenge_keeps_promise_example =
    challenge_keeps_promise env 1 (waiting 0) (tries "000999") start (omega arith)
      ((λ _. refl), ((λ e. refl), tt))
