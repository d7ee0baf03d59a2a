-- ===== src/Mfa/Reset.antt =====
-- internal/mfa/store.go, `Status` and `Reset`; the cleanup of internal/auth/repository.go.
pub mod Revokes
use dwh_v.Common.{
  ℕ, Bool, true, false, ◌&&◌, ◌||◌, not, String, str_eq, Option, none, some, List, [], ◌∷◌,
  if◌then◌else◌, ◌==◌, leb, is_some, count_if, ok,
}
use dwh_v.Common.Tables.{delete_rows}
use dwh_v.Common.Transactions.{pure, ◌>>=◌, ◌>>◌, check, get, put, modify, or_fail}
use dwh_v.Mfa.Totp.{recent}
use dwh_v.Mfa.Model.{
  Role, Store, Env, MfaError, invalid, no_rows, Tx, mfa_operator_reset, mfa_admin_reset, User,
  Session, Enrolled,
}
use dwh_v.Mfa.Challenges.{
  append_audit, delete_sessions, find_user, number_is, lock_session, is_live,
}
use dwh_v.Mfa.Inspection.{find_enrollment, or_error}
use dwh_v.Mfa.Actor.{check_actor}
use dwh_v.Mfa.Verify.{clear_challenges_sessions, from_result}

-- `Status`: when the user enrolled, and how many recovery codes are left.
unfoldable pub status : ℕ → Store → Option (ℕ × ℕ)
status user s = elim (find_enrollment user s) [
  | none ↦ none
  | some e ↦
      some (e.enrolled_at, count_if (λ r. r.user == user && not (is_some r.used_at)) s.recovery)
]

unfoldable pub clear_credentials : ℕ → Store → Store
clear_credentials user s = clear_challenges_sessions user (record s {
  enrollments = delete_rows (λ e. e.user == user) s.enrollments;
  recovery = delete_rows (λ r. r.user == user) s.recovery;
})

-- `Reset`; actor 0 is the operator.
unfoldable pub reset : Env → ℕ → ℕ → ℕ → ℕ → ℕ → Tx (Unit {0})
reset v target actor session_id now later = do
  check (not (target == 0) && not (target == actor)) invalid
  s ← get
  u ← or_fail (find_user target s) no_rows
  from_result (if actor == 0 then ok tt else check_actor v actor session_id now later s)
  modify (clear_credentials target)
  append_audit (if actor == 0 then mfa_operator_reset else mfa_admin_reset) target

-- `DeleteExpired`
unfoldable pub delete_expired : ℕ → Store → Store
delete_expired now s =
    delete_sessions (λ x. leb x.expires_at now)
      (record s { challenges = delete_rows (λ c. leb c.expires_at now) s.challenges })
