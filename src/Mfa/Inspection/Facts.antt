-- ===== src/Mfa/Inspection/Facts.antt =====
-- What a verification has found out when it starts to write.
use dwh_v.Common.{
  ℕ, ◌≡◌, refl, true, ◌&&◌, String, Option, some, if◌then◌else◌, ltb, Result, ok, Ensures,
  Ensures-bind, Ensures-guard, guard, ◌>>=◌, ◌>>◌,
}
use dwh_v.Mfa.Model.{Challenge, Session, User, Store, Env, MfaError, invalid, no_rows}
use dwh_v.Mfa.Challenges.{has_pending, find_user, find_challenge}
use dwh_v.Mfa.Inspection.{
  Factor, Inspection, inspect, is_open, or_error, or_error-ok, bound_session, still_live,
  effective_known, pending_factor, active_factor, with_password,
}

-- The arguments of `Verify`, and the two readings of the clock.
pub record Attempt : Type 0 where
  pub token : String
  pub input : String
  pub session_id : ℕ
  pub password_hash : String
  pub now : ℕ
  pub later : ℕ

abbrev pub inspected : Env → Attempt → Store → Result MfaError Inspection
inspected v a = inspect v a.token a.input a.session_id a.password_hash a.now a.later

abbrev pub factor_of : Env → Attempt → Store → Challenge → Result MfaError Factor
factor_of v a s c =
    if has_pending c.purpose
    then pending_factor v c a.input a.later
    else active_factor v c.user a.input a.later s

pub record Facts (v : Env) (a : Attempt) (s : Store) (i : Inspection) : Type 0 where
  pub found : find_challenge (v.sha256 a.token) s ≡ some i.challenge
  pub known : find_user i.challenge.user s ≡ some i.user
  pub usable : i.user.active && is_open i.challenge a.now ≡ true
  pub bound : bound_session v i.challenge i.challenge.user a.session_id a.now s ≡ ok i.session
  pub live : ltb a.later i.challenge.expires_at && still_live v i.session a.later ≡ true
  pub checked : Factor
  pub judged : factor_of v a s i.challenge ≡ ok checked
  pub decided : i.factor ≡ with_password i.challenge.purpose a.password_hash i.user checked

pub inspect-Facts : (v : Env) (a : Attempt) (s : Store) → Ensures (Facts v a s) (inspected v a s)
unfolding inspect
inspect-Facts v a s =
    Ensures-bind P (or_error (find_challenge (v.sha256 a.token) s) invalid) found (λ c e.
      Ensures-bind P (or_error (find_user c.user s) no_rows) (known c) (λ u e'.
        Ensures-guard P (u.active && is_open c a.now) invalid (usable c u) (λ opened.
          Ensures-bind P (bound_session v c c.user a.session_id a.now s) (bound c u) (λ x b.
            Ensures-guard P (ltb a.later c.expires_at && still_live v x a.later) invalid
              (live c u x)
              (λ l. Ensures-guard P (effective_known x s) no_rows (judged c u x) (λ _.
                Ensures-bind P (factor_of v a s c) (ended c u x) (λ f j. record {
                  found = or_error-ok _ _ e;
                  known = or_error-ok _ _ e';
                  usable = opened;
                  bound = b;
                  live = l;
                  checked = f;
                  judged = j;
                  decided = refl;
                })))))))
  where
    P : Inspection → Type 0
    P = Facts v a s

    ended : Challenge → User → Option Session → Factor → Result MfaError Inspection
    ended c u x f = ok (record {
      user = u;
      challenge = c;
      session = x;
      factor = with_password c.purpose a.password_hash u f;
    })

    judged : Challenge → User → Option Session → Result MfaError Inspection
    judged c u x = factor_of v a s c >>= ended c u x

    live : Challenge → User → Option Session → Result MfaError Inspection
    live c u x = guard (effective_known x s) no_rows >> judged c u x

    bound : Challenge → User → Option Session → Result MfaError Inspection
    bound c u x = guard (ltb a.later c.expires_at && still_live v x a.later) invalid >> live c u x

    usable : Challenge → User → Result MfaError Inspection
    usable c u = bound_session v c c.user a.session_id a.now s >>= bound c u

    known : Challenge → User → Result MfaError Inspection
    known c u = guard (u.active && is_open c a.now) invalid >> usable c u

    found : Challenge → Result MfaError Inspection
    found c = or_error (find_user c.user s) no_rows >>= known c
