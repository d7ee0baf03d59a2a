-- ===== src/Mfa/Challenges.antt =====
-- internal/mfa/store.go: how a challenge is issued and found, and the sessions of internal/auth/repository.go.
use dwh_v.Common.{
  ℕ, ◌+◌, Bool, true, false, ◌&&◌, ◌||◌, not, String, str_eq, Option, none, some, List, [], ◌∷◌,
  if◌then◌else◌, ◌==◌, ltb, is_some, Result, ok, err, keep,
}
use dwh_v.Common.Tables.{find_row, delete_rows}
use dwh_v.Common.Transactions.{pure, ◌>>=◌, ◌>>◌, check, get, modify, or_fail}
use dwh_v.Mfa.Totp.{challenge_lifetime}
use dwh_v.Mfa.Model.{
  Purpose, login, enrollment, step_up, rotation, rotate_authorize, regenerate, totp_pending,
  Challenge, Session, User, Store, Env, Draws, MfaError, invalid, pending, no_rows, duplicate_key,
  cipher_failed, Issued, Tx, AuditAction,
}

abbrev pub is_step_up : Purpose → Bool
is_step_up step_up = true
is_step_up _ = false

-- `c.Purpose == Enrollment || c.Purpose == Rotation`
abbrev pub has_pending : Purpose → Bool
has_pending enrollment = true
has_pending rotation = true
has_pending _ = false

abbrev pub number_is : Option ℕ → ℕ → Bool
number_is none value = false
number_is (some n) value = n == value

abbrev pub find_user : ℕ → Store → Option User
find_user id s = find_row (λ u. u.id == id) s.users

abbrev pub find_challenge : String → Store → Option Challenge
find_challenge hash s = find_row (λ c. str_eq c.token_hash hash) s.challenges

-- `audit.Append` with the transaction
abbrev pub append_audit : AuditAction → ℕ → Tx (Unit {0})
append_audit action user = modify λ s. record s { audits = (action, user) ∷ s.audits }

-- `DELETE FROM sessions`, and the challenges of the deleted sessions (`fk_mfa_challenge_session`).
abbrev pub belongs : List Session → Challenge → Bool
belongs [] c = false
belongs (x ∷ xs) c = number_is c.session x.id || belongs xs c

abbrev pub delete_sessions : (Session → Bool) → Store → Store
delete_sessions test s = record s {
  sessions = delete_rows test s.sessions;
  challenges = delete_rows (belongs (keep test s.sessions)) s.challenges;
}

-- `issue`
abbrev pub new_challenge : ℕ → String → ℕ → ℕ → Purpose → Bool → String → ℕ → Challenge
new_challenge id hash user session_id purpose remember next now = record {
  id = id;
  token_hash = hash;
  user = user;
  session = if session_id == 0 then none else some session_id;
  purpose = purpose;
  pending_secret = none;
  remember_me = remember;
  next_path = next;
  failures = 0;
  expires_at = now + challenge_lifetime;
  consumed_at = none;
  created_at = now;
}

abbrev pub pending_for : Env → Draws → Challenge → Result MfaError Challenge
pending_for v draws c =
    if has_pending c.purpose
    then elim (v.encrypt totp_pending c.id draws.secret) [
      | none ↦ err cipher_failed
      | some encoded ↦ ok (record c { pending_secret = some encoded })
    ]
    else ok c

unfoldable pub issue : Env → Draws → ℕ → ℕ → Purpose → Bool → String → ℕ → Tx Issued
issue v draws user session_id purpose remember next now s =
    let hash = v.sha256 draws.challenge_token in
    let c = new_challenge s.next_challenge hash user session_id purpose remember next now in
    if is_some (find_challenge hash s) then err duplicate_key else elim (pending_for v draws c) [
      | err e ↦ err e
      | ok issued ↦ ok (
        record { token = draws.challenge_token; challenge = issued },
        record s { challenges = issued ∷ s.challenges; next_challenge = s.next_challenge + 1 },
      )
    ]

-- `BeginLogin`; `now` is the clock's time under the lock.
unfoldable pub begin_login : Env → Draws → ℕ → String → Bool → String → ℕ → Tx Issued
begin_login v draws id password_hash remember next now = do
  s ← get
  u ← or_fail (find_user id s) no_rows
  check (u.active && str_eq u.password_hash password_hash) invalid
  let enrolled = find_row (λ e. e.user == id) s.enrollments
  let purpose = if is_some enrolled then login else enrollment
  modify λ t. record t {
    challenges = delete_rows (λ c. c.user == id && not (is_some c.session)) t.challenges;
  }
  issue v draws id 0 purpose remember next now

-- `Get`
unfoldable pub get_challenge : Env → String → ℕ → Store → Option Challenge
get_challenge v token now s =
    find_row
      (λ c.
        str_eq c.token_hash (v.sha256 token)
        && not (is_some c.consumed_at)
        && ltb now c.expires_at
        && ltb c.failures 5)
      s.challenges

-- `PendingSecret`
unfoldable pub pending_secret : Env → Challenge → Result MfaError String
pending_secret v c =
    if has_pending c.purpose
    then elim c.pending_secret [
      | none ↦ err cipher_failed
      | some encoded ↦ elim (v.decrypt totp_pending c.id encoded) [
        | none ↦ err cipher_failed
        | some x ↦ ok x
      ]
    ]
    else err invalid

-- `FindValidSession`
abbrev pub find_valid_session : String → ℕ → Store → Option Session
find_valid_session hash now s =
    find_row (λ x. str_eq x.token_hash hash && ltb now x.expires_at) s.sessions

-- `session.ExpiresAt.After(now) && session.LastSeenAt.Add(s.IdleTimeout).After(now)`
abbrev pub is_live : Env → Session → ℕ → Bool
is_live v x now = ltb now x.expires_at && ltb now (x.last_seen_at + v.idle_timeout)

-- `lockSession`: every failure is `ErrInvalid`.
unfoldable pub lock_session : Env → ℕ → ℕ → ℕ → Store → Option Session
lock_session v id session_id now s =
    elim (find_row (λ x. x.id == session_id && x.user == id) s.sessions) [
      | none ↦ none
      | some named ↦ elim (find_valid_session named.token_hash now s) [
        | none ↦ none
        | some x ↦
            if is_some x.mfa_verified_at && ltb now (x.last_seen_at + v.idle_timeout)
            then some x
            else none
      ]
    ]

-- `ORDER BY id LIMIT 1`
abbrev pub lesser : Challenge → Option Challenge → Challenge
lesser c none = c
lesser c (some d) = if ltb d.id c.id then d else c

abbrev pub first_pending : ℕ → ℕ → List Challenge → Option Challenge
first_pending session_id now [] = none
first_pending session_id now (c ∷ cs) =
    let rest = first_pending session_id now cs in
    if number_is c.session session_id && not (is_some c.consumed_at) && ltb now c.expires_at
    then some (lesser c rest)
    else rest

abbrev pub same_purpose : Purpose → Purpose → Bool
same_purpose login login = true
same_purpose enrollment enrollment = true
same_purpose step_up step_up = true
same_purpose rotation rotation = true
same_purpose rotate_authorize rotate_authorize = true
same_purpose regenerate regenerate = true
same_purpose _ _ = false

abbrev pub is_authenticated : Purpose → Bool
is_authenticated login = false
is_authenticated enrollment = false
is_authenticated rotation = false
is_authenticated _ = true

-- `BeginAuthenticated`; `now` and `later` are the times that are given and that the clock shows under the lock.
unfoldable pub begin_authenticated :
    Env → Draws → ℕ → ℕ → Purpose → String → String → ℕ → ℕ → Tx Issued
begin_authenticated v draws id session_id purpose next existing now later = do
  check (is_authenticated purpose) invalid
  s ← get
  u ← or_fail (find_user id s) no_rows
  check u.active invalid
  x ← or_fail (lock_session v id session_id now s) invalid
  check (is_step_up purpose || not (is_some x.impersonated)) invalid
  check (is_live v x later) invalid
  elim (first_pending session_id later s.challenges) [
    | some c ↦ do
      check (str_eq (v.sha256 existing) c.token_hash && same_purpose c.purpose purpose) pending
      pure (record { token = existing; challenge = c })
    | none ↦ issue v draws id session_id purpose false next later
  ]
