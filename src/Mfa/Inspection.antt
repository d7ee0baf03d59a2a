-- ===== src/Mfa/Inspection.antt =====
-- internal/mfa/store.go, the first half of `Verify`: what it reads and decides under the locks, before it
-- writes anything.
pub mod Facts
use dwh_v.Common.{
  ℕ, ◌≡◌, Bool, true, false, ◌&&◌, ◌||◌, not, String, str_eq, Option, none, some, if◌then◌else◌,
  ◌==◌, ltb, is_some, Result, ok, err, ◌>>=◌, ◌>>◌, guard,
}
use Prim.Native.String.{◌++◌ as ◌+++◌}
use dwh_v.Common.Tables.{find_row}
use dwh_v.Mfa.Totp.{ℤ, before_first, match_code, max_failures}
use dwh_v.Mfa.Model.{
  Purpose, rotate_authorize, regenerate, totp_active, Challenge, Session, User, Enrolled,
  RecoveryCode, Store, Env, MfaError, invalid, no_rows, cipher_failed,
}
use dwh_v.Mfa.Challenges.{
  is_step_up, has_pending, find_user, find_challenge, pending_secret, is_live, lock_session,
}

-- `RecoveryHash`
abbrev pub recovery_hash : Env → ℕ → String → String
recovery_hash v user input = v.sha256 (
    "mfa-recovery:"
    +++ (v.print_id user +++ (":" +++ v.to_upper (v.without_dashes (v.trim_space input)))))

-- What the input was found to be.
pub data Factor : Type 0 where
  refused : Factor
  counter_match : ℤ → Factor
  recovery_match : Factor

pub record Inspection : Type 0 where
  pub user : User
  pub challenge : Challenge
  pub session : Option Session
  pub factor : Factor

abbrev pub or_error {ℓ} : {A : Type ℓ} → Option A → MfaError → Result MfaError A
or_error none e = err e
or_error (some a) e = ok a

pub or_error-ok {ℓ} :
    {A : Type ℓ} (o : Option A) (e : MfaError) {a : A} → or_error o e ≡ ok a → o ≡ some a
or_error-ok none e h = cc
or_error-ok (some x) e h = cc

-- The session that the challenge is bound to.
abbrev pub bound_session : Env → Challenge → ℕ → ℕ → ℕ → Store → Result MfaError (Option Session)
bound_session v c id session_id now s = elim c.session [
  | none ↦ guard (session_id == 0) invalid >> ok none
  | some bound ↦ do
    guard (bound == session_id) invalid
    x ← or_error (lock_session v id session_id now s) invalid
    guard (is_step_up c.purpose || not (is_some x.impersonated)) invalid
    ok (some x)
]

abbrev pub still_live : Env → Option Session → ℕ → Bool
still_live v none now = true
still_live v (some x) now = is_live v x now

-- The name of the impersonated user, for the audit.
abbrev pub effective_known : Option Session → Store → Bool
effective_known none s = true
effective_known (some x) s = elim x.impersonated [
  | none ↦ true
  | some other ↦ is_some (find_user other s)
]

abbrev pub find_recovery : ℕ → String → Store → Option RecoveryCode
find_recovery user hash s = find_row (λ r. r.user == user && str_eq r.code_hash hash) s.recovery

abbrev pub unused : Option RecoveryCode → Bool
unused none = false
unused (some r) = not (is_some r.used_at)

abbrev pub find_enrollment : ℕ → Store → Option Enrolled
find_enrollment user s = find_row (λ e. e.user == user) s.enrollments

-- The factor of a challenge with a pending secret.
abbrev pub pending_factor : Env → Challenge → String → ℕ → Result MfaError Factor
pending_factor v c input now = do
  secret ← pending_secret v c
  ok (elim (match_code v.crypto secret input now before_first) [
    | none ↦ refused
    | some n ↦ counter_match n
  ])

-- The factor of a challenge of an enrolled user.
abbrev pub active_factor : Env → ℕ → String → ℕ → Store → Result MfaError Factor
active_factor v id input now s = do
  e ← or_error (find_enrollment id s) invalid
  secret ← or_error (v.decrypt totp_active id e.secret) cipher_failed
  ok (elim (match_code v.crypto secret input now e.last_counter) [
    | some n ↦ counter_match n
    | none ↦
        if unused (find_recovery id (recovery_hash v id input) s) then recovery_match else refused
  ])

-- `valid && passwordHash != "" && passwordHash == u.PasswordHash`
abbrev pub with_password : Purpose → String → User → Factor → Factor
with_password rotate_authorize given u f =
    if not (str_eq given "") && str_eq given u.password_hash then f else refused
with_password regenerate given u f =
    if not (str_eq given "") && str_eq given u.password_hash then f else refused
with_password _ given u f = f

abbrev pub is_open : Challenge → ℕ → Bool
is_open c now = not (is_some c.consumed_at) && (ltb now c.expires_at && ltb c.failures max_failures)

-- `Verify` as far as the check of the factor. `now` and `later` are the two readings of the clock.
unfoldable pub inspect :
    Env → String → String → ℕ → String → ℕ → ℕ → Store → Result MfaError Inspection
inspect v token input session_id password_hash now later s = do
  c ← or_error (find_challenge (v.sha256 token) s) invalid
  u ← or_error (find_user c.user s) no_rows
  guard (u.active && is_open c now) invalid
  x ← bound_session v c c.user session_id now s
  guard (ltb later c.expires_at && still_live v x later) invalid
  guard (effective_known x s) no_rows
  f ←
      if has_pending c.purpose
      then pending_factor v c input later
      else active_factor v c.user input later s
  ok (record {
    user = u;
    challenge = c;
    session = x;
    factor = with_password c.purpose password_hash u f;
  })
