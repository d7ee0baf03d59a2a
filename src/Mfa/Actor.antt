-- ===== src/Mfa/Actor.antt =====
-- internal/mfa/store.go, in `Reset`: who may take the credentials of another user away.
use dwh_v.Common.{
  ℕ, Bool, false, ◌&&◌, ◌||◌, not, String, str_eq, List, [], ◌∷◌, ◌==◌, is_some, count_if, Result,
  ◌>>=◌, ◌>>◌, guard,
}
use dwh_v.Mfa.Totp.{recent}
use dwh_v.Mfa.Model.{User, Role, Session, Store, Env, MfaError, invalid, no_rows}
use dwh_v.Mfa.Challenges.{find_user, lock_session, is_live}
use dwh_v.Mfa.Inspection.{or_error}

abbrev pub any_text : String → List String → Bool
any_text key [] = false
any_text key (k ∷ ks) = str_eq k key || any_text key ks

abbrev pub may_reset : User → Role → Bool
may_reset u r =
    r.id == u.role && (str_eq r.slug "admin" || any_text "users.mfa.reset" r.permissions)

-- The checks of the actor of an administrative reset. `now` and `later` are the two readings of the clock.
abbrev pub is_fresh : Env → Session → ℕ → Bool
is_fresh v x later =
    is_live v x later && (not (is_some x.impersonated) && recent x.mfa_verified_at later)

unfoldable pub check_actor : Env → ℕ → ℕ → ℕ → ℕ → Store → Result MfaError (Unit {0})
check_actor v actor session_id now later s = do
  u ← or_error (find_user actor s) no_rows
  guard u.active invalid
  x ← or_error (lock_session v actor session_id now s) invalid
  guard (is_fresh v x later) invalid
  guard (count_if (may_reset u) s.roles == 1) invalid
