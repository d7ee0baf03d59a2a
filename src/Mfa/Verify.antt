-- ===== src/Mfa/Verify.antt =====
-- internal/mfa/store.go, the second half of `Verify`: what it writes.
use dwh_v.Common.{
  ℕ, ◌+◌, Bool, true, false, ◌&&◌, not, String, str_eq, none, some, List, [], ◌∷◌, if◌then◌else◌,
  ◌==◌, is_some, Result, ok, err, leb,
}
use dwh_v.Common.Tables.{update_rows, find_row, delete_rows}
use dwh_v.Common.Transactions.{pure, ◌>>=◌, ◌>>◌, get, modify, or_fail}
use dwh_v.Mfa.Totp.{ℤ, max_failures}
use dwh_v.Mfa.Model.{
  Purpose, login, enrollment, step_up, rotation, rotate_authorize, regenerate, totp_active,
  Challenge, Session, Enrolled, RecoveryCode, Store, Env, Draws, MfaError, duplicate_key,
  cipher_failed, bad_session, Verified, Outcome, accepted, wrong_code, exhausted, Tx, mfa_failed,
  mfa_exhausted, mfa_enrolled, mfa_rotated, mfa_recovery_used, auth_login, mfa_step_up,
  mfa_recovery_regenerated, AuditAction,
}
use dwh_v.Mfa.Challenges.{append_audit, delete_sessions, issue, pending_secret, has_pending}
use dwh_v.Mfa.Inspection.{
  Factor, refused, counter_match, recovery_match, Inspection, inspect, recovery_hash, find_recovery,
  find_enrollment,
}

abbrev pub from_result {ℓ} : {A : Type ℓ} → Result MfaError A → Tx A
from_result (ok a) s = ok (a, s)
from_result (err e) s = err e

-- A wrong code: the failure is counted, and the fifth ends the challenge and its session.
abbrev pub fail_challenge : ℕ → ℕ → Challenge → Challenge
fail_challenge failures now c = record c {
  failures = failures;
  consumed_at = if failures == max_failures then some now else none;
}

abbrev pub fail_store : Challenge → ℕ → ℕ → Store → Store
fail_store c session_id now s =
    let counted = record s {
      challenges =
          update_rows (λ d. d.id == c.id) (fail_challenge (c.failures + 1) now) s.challenges;
    } in
    if c.failures + 1 == max_failures && is_some c.session
    then delete_sessions (λ x. x.id == session_id) counted
    else counted

unfoldable pub reject : Challenge → ℕ → ℕ → Tx Outcome
reject c session_id now = do
  modify (fail_store c session_id now)
  append_audit mfa_failed c.user
  if c.failures + 1 == max_failures
      then append_audit mfa_exhausted c.user >> pure exhausted
      else pure wrong_code

-- `replaceRecovery`: the key of a row is the user and the hash.
abbrev pub unused_code : ℕ → String → ℕ → RecoveryCode
unused_code user hash now = record {
  user = user;
  code_hash = hash;
  used_at = none;
  created_at = now;
}

abbrev pub insert_codes : Env → ℕ → ℕ → List String → Tx (Unit {0})
insert_codes v user now [] = pure tt
insert_codes v user now (code ∷ codes) =
    let rest = insert_codes v user now codes in
    let hash = recovery_hash v user code in
    get >>= λ s.
    if is_some (find_recovery user hash s)
    then from_result (err duplicate_key)
    else modify (λ t. record t { recovery = unused_code user hash now ∷ t.recovery }) >> rest

unfoldable pub replace_recovery : Env → Draws → ℕ → ℕ → Tx (List String)
replace_recovery v draws user now = do
  modify λ s. record s { recovery = delete_rows (λ r. r.user == user) s.recovery }
  insert_codes v user now draws.codes
  pure draws.codes

-- `clearChallengesSessions`
unfoldable pub clear_challenges_sessions : ℕ → Store → Store
clear_challenges_sessions user s =
    delete_sessions (λ x. x.user == user)
      (record s { challenges = delete_rows (λ c. c.user == user) s.challenges })

-- The secret of an enrollment or a rotation becomes the active one.
abbrev pub new_enrollment : ℕ → String → ℤ → ℕ → Enrolled
new_enrollment user secret counter now = record {
  user = user;
  secret = secret;
  last_counter = counter;
  enrolled_at = now;
  updated_at = now;
}

abbrev pub enroll : Purpose → ℕ → String → ℤ → ℕ → Tx (Unit {0})
enroll enrollment user secret counter now s =
    if is_some (find_enrollment user s)
    then err duplicate_key
    else ok (tt, record s { enrollments = new_enrollment user secret counter now ∷ s.enrollments })
enroll _ user secret counter now s = ok (
  tt,
  record s {
    enrollments =
        update_rows (λ e. e.user == user)
          (λ e. record e { secret = secret; last_counter = counter; updated_at = now })
          s.enrollments;
  },
)

abbrev pub enrolled_action : Purpose → AuditAction
enrolled_action rotation = mfa_rotated
enrolled_action _ = mfa_enrolled

unfoldable pub activate : Env → Draws → Challenge → ℤ → ℕ → Tx (List String)
activate v draws c counter now = do
  secret ← from_result (pending_secret v c)
  encoded ← or_fail (v.encrypt totp_active c.user secret) cipher_failed
  enroll c.purpose c.user encoded counter now
  codes ← replace_recovery v draws c.user now
  append_audit (enrolled_action c.purpose) c.user
  pure codes

-- A recovery code is used up.
unfoldable pub use_recovery : Env → ℕ → String → ℕ → Tx (List String)
use_recovery v user input now = do
  modify λ s. record s {
    recovery =
        update_rows
          (λ r.
            r.user == user
            && (str_eq r.code_hash (recovery_hash v user input) && not (is_some r.used_at)))
          (λ r. record r { used_at = some now }) s.recovery;
  }
  append_audit mfa_recovery_used user
  pure []

-- The counter of a code is used up.
unfoldable pub use_counter : ℕ → ℤ → ℕ → Tx (List String)
use_counter user counter now = do
  modify λ s. record s {
    enrollments =
        update_rows (λ e. e.user == user)
          (λ e. record e { last_counter = counter; updated_at = now }) s.enrollments;
  }
  pure []

unfoldable pub spend : Env → Draws → Challenge → String → Factor → ℕ → Tx (List String)
spend v draws c input refused now = pure []
spend v draws c input (counter_match n) now =
    if has_pending c.purpose then activate v draws c n now else use_counter c.user n now
spend v draws c input recovery_match now = use_recovery v c.user input now

-- `UPDATE mfa_challenges SET consumed_at=?,pending_secret=NULL`
abbrev pub consume : ℕ → ℕ → Store → Store
consume id now s = record s {
  challenges =
      update_rows (λ c. c.id == id)
        (λ c. record c { consumed_at = some now; pending_secret = none }) s.challenges;
}

-- `auth.CreateSessionIn`, with the session verified now.
abbrev pub new_session : ℕ → Env → ℕ → String → Bool → ℕ → Session
new_session id v user hash remember now = record {
  id = id;
  user = user;
  impersonated = none;
  token_hash = hash;
  remember_me = remember;
  expires_at = now + (if remember then v.remember_lifetime else v.lifetime);
  last_seen_at = now;
  mfa_verified_at = some now;
  created_at = now;
  updated_at = now;
}

unfoldable pub create_session : Env → ℕ → String → Bool → ℕ → Tx Session
create_session v user hash remember now s =
    let x = new_session s.next_session v user hash remember now in
    if user == 0
    then err bad_session
    else (if str_eq hash v.zero_hash
        then err bad_session
        else (if leb x.expires_at now
            then err bad_session
            else (if is_some (find_row (λ y. str_eq y.token_hash hash) s.sessions)
                then err duplicate_key
                else ok (
                  x,
                  record s { sessions = x ∷ s.sessions; next_session = s.next_session + 1 },
                ))))

abbrev pub nothing_verified : String → List String → Verified
nothing_verified next codes = record {
  raw_token = "";
  session = none;
  next = next;
  recovery_codes = codes;
  pending = none;
  logout = false;
}

abbrev pub log_in : Env → Draws → Challenge → List String → ℕ → Tx Verified
log_in v draws c codes now = do
  x ← create_session v c.user (v.sha256 draws.session_token) c.remember_me now
  modify λ s. record s {
    users = update_rows (λ u. u.id == c.user) (λ u. record u { last_login_at = some now }) s.users;
  }
  append_audit auth_login c.user
  pure (record (nothing_verified c.next_path codes) {
    raw_token = draws.session_token;
    session = some x;
  })

abbrev pub log_out : ℕ → List String → Tx Verified
log_out user codes = do
  modify (clear_challenges_sessions user)
  pure (record (nothing_verified "/login" codes) { logout = true })

-- The switch at the end of `Verify`.
unfoldable pub complete : Env → Draws → Challenge → ℕ → List String → ℕ → Tx Verified
complete v draws c session_id codes now = elim c.purpose [
  | login ↦ log_in v draws c codes now
  | enrollment ↦ log_in v draws c codes now
  | step_up ↦ do
    modify λ s. record s {
      sessions =
          update_rows (λ x. x.id == session_id)
            (λ x. record x { mfa_verified_at = some now; updated_at = now }) s.sessions;
    }
    append_audit mfa_step_up c.user
    pure (nothing_verified c.next_path codes)
  | rotate_authorize ↦ do
    issued ← issue v draws c.user session_id rotation false "/login" now
    pure (record (nothing_verified c.next_path codes) { pending = some issued })
  | regenerate ↦ do
    fresh ← replace_recovery v draws c.user now
    append_audit mfa_recovery_regenerated c.user
    log_out c.user fresh
  | rotation ↦ log_out c.user codes
]

abbrev pub is_refused : Factor → Bool
is_refused refused = true
is_refused _ = false

abbrev pub accept : Env → Draws → Challenge → Factor → String → ℕ → ℕ → Tx Outcome
accept v draws c f input session_id now = do
  codes ← spend v draws c input f now
  modify (consume c.id now)
  verified ← complete v draws c session_id codes now
  pure (accepted verified)

abbrev pub decide : Env → Draws → String → ℕ → ℕ → Inspection → Tx Outcome
decide v draws input session_id now i =
    if is_refused i.factor
    then reject i.challenge session_id now
    else accept v draws i.challenge i.factor input session_id now

-- `Verify`. A refusal that was counted is committed, and so is not an error here.
unfoldable pub verify : Env → Draws → String → String → ℕ → String → ℕ → ℕ → Tx Outcome
verify v draws token input session_id password_hash now later s =
    (from_result (inspect v token input session_id password_hash now later s)
        >>= decide v draws input session_id later)
      s
