-- ===== src/Mfa/Reset/Revokes.antt =====
-- internal/mfa/store.go, `Reset`: what it takes away, and who may do it.
use dwh_v.Common.{
  ℕ, ◌+◌, ◌-◌, ◌*◌, ◌≤◌, ◌<◌, leb, ◌∙◌, ◌≡◌, ◌≢◌, refl, Bool, true, false, not, ◌&&◌, Option, none,
  some, List, [], ◌∷◌, if◌then◌else◌, ◌==◌, Result, ok, err, ◌>>=◌, ◌>>◌, guard, Ensures,
  Ensures-bind, Ensures-guard, All, arith, if_rule, option_rule, inl, inr, Bool-cases, subst, keep,
  count_if, ==_iff,
}
use dwh_v.Common.Tables.{delete_rows, keep-All, All-keep, find_row-delete_rows}
use dwh_v.Common.Transactions.{
  Committed, modify, check, get, or_fail, ◌>>=◌ as ◌>>='◌, ◌>>◌ as ◌>>'◌,
}
use dwh_v.Mfa.Model.{
  Challenge, Session, User, Enrolled, RecoveryCode, Store, Env, MfaError, invalid, no_rows,
  AuditAction, Tx, mfa_operator_reset, mfa_admin_reset,
}
use dwh_v.Mfa.Challenges.{find_user, lock_session, append_audit, belongs}
use dwh_v.Mfa.Inspection.{find_enrollment, or_error, or_error-ok}
use dwh_v.Mfa.Verify.{clear_challenges_sessions, from_result}
use dwh_v.Mfa.Actor.{check_actor, is_fresh, may_reset}
use dwh_v.Mfa.Reset.{status, reset, clear_credentials}

-- Nothing of a user's second factor and sessions is left.
pub record Revoked (user : ℕ) (t : Store) : Type 0 where
  pub sessions : All (λ (x : Session). not (x.user == user) ≡ true) t.sessions
  pub challenges : All (λ (c : Challenge). not (c.user == user) ≡ true) t.challenges
  pub recovery : All (λ (r : RecoveryCode). not (r.user == user) ≡ true) t.recovery
  pub not_enrolled : status user t ≡ none

-- A challenge of a user that is not bound to a session of `gone`.
abbrev pub unbound : ℕ → ℕ → Store → Challenge → Bool
unbound other gone s c = c.user == other && not (belongs (keep (λ x. x.user == gone) s.sessions) c)

-- The rows of the other users; the database deletes what is bound to a session with the session.
pub record SameOthers (user : ℕ) (s t : Store) : Type 0 where
  pub sessions :
      (other : ℕ)
      → other ≢ user
      → keep (λ (x : Session). x.user == other) t.sessions
        ≡ keep (λ (x : Session). x.user == other) s.sessions
  pub challenges :
      (other : ℕ)
      → other ≢ user
      → keep (unbound other user s) t.challenges ≡ keep (unbound other user s) s.challenges
  pub enrollments :
      (other : ℕ)
      → other ≢ user
      → keep (λ (e : Enrolled). e.user == other) t.enrollments
        ≡ keep (λ (e : Enrolled). e.user == other) s.enrollments
  pub recovery :
      (other : ℕ)
      → other ≢ user
      → keep (λ (r : RecoveryCode). r.user == other) t.recovery
        ≡ keep (λ (r : RecoveryCode). r.user == other) s.recovery

-- Deleting rows leaves those that another test finds.
keep-delete_rows :
    {A : Type 0} (find gone : A → Bool) (rs : List A)
    → ((r : A) → find r ≡ true → gone r ≡ false)
    → keep find (delete_rows gone rs) ≡ keep find rs
keep-delete_rows find gone [] f = refl
keep-delete_rows find gone (r ∷ rs) f =
    let rest = keep-delete_rows find gone rs f in
    elim (Bool-cases (gone r)) [
      | inl out ↦ elim (Bool-cases (find r)) [
        | inl hit ↦ let stays = f r hit in cc (out, stays)
        | inr miss ↦ rw (out, miss) rest
      ]
      | inr stays ↦ rw (stays, rest) refl
    ]

other_user : (n other user : ℕ) → other ≢ user → n == other ≡ true → n == user ≡ false
other_user n other user d h = ground (arith, d)

status-none : (user : ℕ) (t : Store) → find_enrollment user t ≡ none → status user t ≡ none
unfolding status
status-none user t e =
    option_rule (λ (o : Option (ℕ × ℕ)). o ≡ none) (find_enrollment user t) (λ _. refl)
      (λ x h. cc (e, h))

clear_credentials-Revoked : (user : ℕ) (s : Store) → Revoked user (clear_credentials user s)
unfolding clear_credentials clear_challenges_sessions
clear_credentials-Revoked user s = record {
  sessions = keep-All _ s.sessions;
  challenges = All-keep _ _ _ (keep-All _ s.challenges);
  recovery = keep-All _ s.recovery;
  not_enrolled =
      status-none user (clear_credentials user s)
        (find_row-delete_rows (λ (e : Enrolled). e.user == user) s.enrollments);
}

clear_credentials-SameOthers : (user : ℕ) (s : Store) → SameOthers user s (clear_credentials user s)
unfolding clear_credentials clear_challenges_sessions
clear_credentials-SameOthers user s = record {
  sessions = λ other d. keep-delete_rows _ _ s.sessions (λ x. other_user x.user other user d);
  enrollments = λ other d. keep-delete_rows _ _ s.enrollments (λ x. other_user x.user other user d);
  recovery = λ other d. keep-delete_rows _ _ s.recovery (λ x. other_user x.user other user d);
  challenges = λ other d.
      keep-delete_rows (unbound other user s) (belongs (keep (λ x. x.user == user) s.sessions))
        (delete_rows (λ c. c.user == user) s.challenges) (λ c h. ground (arith, h))
      ∙ keep-delete_rows (unbound other user s) (λ c. c.user == user) s.challenges
          (λ c h. other_user c.user other user d (ground (arith, h)));
}

-- A session that lives, is no impersonation, and whose second factor was checked in the last ten minutes.
pub record IsFresh (v : Env) (x : Session) (later : ℕ) : Type 0 where
  pub unexpired : later < x.expires_at
  pub in_use : later < x.last_seen_at + v.idle_timeout
  pub not_impersonating : x.impersonated ≡ none
  pub verified_at : ℕ
  pub verified : x.mfa_verified_at ≡ some verified_at
  pub not_ahead : verified_at ≤ later
  pub within_ten_minutes : later ≤ verified_at + 600 * 1000000

is_fresh-IsFresh :
    (v : Env) (x : Session) (later : ℕ) → is_fresh v x later ≡ true → IsFresh v x later
is_fresh-IsFresh v x later h = go x.impersonated refl x.mfa_verified_at refl
  where
    go :
        (i : Option ℕ)
        → x.impersonated ≡ i
        → (m : Option ℕ) → x.mfa_verified_at ≡ m
        → IsFresh v x later
    go (some other) e m f = absurd (ground (arith, h, e))
    go none e none f = absurd (ground (arith, h, f))
    go none e (some t) f =
        let now : leb t later && leb (later - t) (10 * 60 * 1000000) ≡ true =
          ground (arith, h, f) in
        record {
          unexpired = ground (arith, h);
          in_use = ground (arith, h);
          not_impersonating = e;
          verified_at = t;
          verified = f;
          not_ahead = ground (arith, now);
          within_ten_minutes = ground (arith, now);
        }

-- What has to hold of the actor, unless it is the operator.
pub record Authorized (v : Env) (actor session_id now later : ℕ) (s : Store) : Type 0 where
  pub user : User
  pub known : find_user actor s ≡ some user
  pub active : user.active ≡ true
  pub session : Session
  pub locked : lock_session v actor session_id now s ≡ some session
  pub fresh : IsFresh v session later
  pub may : count_if (may_reset user) s.roles ≡ 1

check_actor-Authorized :
    (v : Env) (actor session_id now later : ℕ) (s : Store)
    → Ensures
        (λ _. Authorized v actor session_id now later s)
        (check_actor v actor session_id now later s)
unfolding check_actor
check_actor-Authorized v actor session_id now later s =
    Ensures-bind P (or_error (find_user actor s) no_rows) known (λ u e.
      Ensures-guard P u.active invalid (active u) (λ on.
        Ensures-bind P (or_error (lock_session v actor session_id now s) invalid) (locked u) (λ x l.
          Ensures-guard P (is_fresh v x later) invalid (fresh u) (λ f.
            permitted u x (or_error-ok _ _ e) on (or_error-ok _ _ l) f
              (count_if (may_reset u) s.roles == 1) refl))))
  where
    P : Unit {0} → Type 0
    P _ = Authorized v actor session_id now later s

    fresh : User → Result MfaError (Unit {0})
    fresh u = guard (count_if (may_reset u) s.roles == 1) invalid

    locked : User → Session → Result MfaError (Unit {0})
    locked u x = guard (is_fresh v x later) invalid >> fresh u

    active : User → Result MfaError (Unit {0})
    active u = or_error (lock_session v actor session_id now s) invalid >>= locked u

    known : User → Result MfaError (Unit {0})
    known u = guard u.active invalid >> active u

    permitted :
        (u : User) (x : Session)
        → find_user actor s ≡ some u
        → u.active ≡ true
        → lock_session v actor session_id now s ≡ some x
        → is_fresh v x later ≡ true
        → (b : Bool) → (count_if (may_reset u) s.roles == 1) ≡ b
        → Ensures P (guard b invalid)
    permitted u x e on l f true m = record {
      user = u;
      known = e;
      active = on;
      session = x;
      locked = l;
      fresh = is_fresh-IsFresh v x later f;
      may = (==_iff _ _).0 m;
    }
    permitted u x e on l f false m = tt

-- A reset that succeeds: it was asked of another user, and by the operator or an actor who may.
pub record Went (v : Env) (target actor session_id now later : ℕ) (s t : Store) : Type 0 where
  pub nobody : target ≢ 0
  pub another : target ≢ actor
  pub authorized : actor ≢ 0 → Authorized v actor session_id now later s
  pub revoked : Revoked target t
  pub same_others : SameOthers target s t

reset-Went :
    (v : Env) (target actor session_id now later : ℕ) (s : Store)
    → Committed
        (Went v target actor session_id now later)
        s
        (reset v target actor session_id now later s)
unfolding reset clear_credentials clear_challenges_sessions status
reset-Went v target actor session_id now later s =
    asked (not (target == 0) && not (target == actor)) refl
  where
    action : AuditAction
    action = if actor == 0 then mfa_operator_reset else mfa_admin_reset

    gate : Store → Result MfaError (Unit {0})
    gate u = if actor == 0 then ok tt else check_actor v actor session_id now later u

    write : Tx (Unit {0})
    write = modify (clear_credentials target) >>' append_audit action target

    P : Result MfaError (Unit {0} × Store) → Type 0
    P = Committed (Went v target actor session_id now later) s

    by_gate : Ensures (λ _. actor ≢ 0 → Authorized v actor session_id now later s) (gate s)
    by_gate =
        if_rule (Ensures (λ _. actor ≢ 0 → Authorized v actor session_id now later s)) (actor == 0)
          (λ operator other. absurd (other ((==_iff actor 0).0 operator)))
          (λ _.
            weaker (check_actor v actor session_id now later s)
              (check_actor-Authorized v actor session_id now later s))
      where
        weaker :
            (r : Result MfaError (Unit {0}))
            → Ensures (λ _. Authorized v actor session_id now later s) r
            → Ensures (λ _. actor ≢ 0 → Authorized v actor session_id now later s) r
        weaker (ok x) a = λ _. a
        weaker (err e) a = tt

    gone : Revoked target (clear_credentials target s)
    gone = clear_credentials-Revoked target s

    rest : SameOthers target s (clear_credentials target s)
    rest = clear_credentials-SameOthers target s

    found :
        not (target == 0) && not (target == actor) ≡ true
        → (o : Option User) (r : Result MfaError (Unit {0}))
        → Ensures (λ _. actor ≢ 0 → Authorized v actor session_id now later s) r
        → P ((or_fail o no_rows >>=' λ _. from_result r >>' write) s)
    found h (some u) (ok x) a = record {
      nobody = λ e. ground (arith, h, e);
      another = λ e. ground (arith, h, e);
      authorized = a;
      revoked = record {
        sessions = gone.sessions;
        challenges = gone.challenges;
        recovery = gone.recovery;
        not_enrolled = gone.not_enrolled;
      };
      same_others = record {
        sessions = rest.sessions;
        enrollments = rest.enrollments;
        challenges = rest.challenges;
        recovery = rest.recovery;
      };
    }
    found h (some u) (err e) a = tt
    found h none r a = tt

    asked :
        (b : Bool)
        → not (target == 0) && not (target == actor) ≡ b
        → P (
            (check b invalid
                >>' (get >>=' λ z.
                    or_fail (find_user target z) no_rows >>=' λ _. from_result (gate z) >>' write))
              s)
    asked true h = found h (find_user target s) (gate s) by_gate
    asked false h = tt

-- A reset that succeeds was asked for another user, by the operator or by an active user who has a session that is
-- not an impersonation and whose second factor was checked at most ten minutes ago, and whose role permits it.
-- It leaves the target no session, challenge, enrollment or recovery code, and the other users theirs, but for
-- challenges that are bound to a session of the target.
pub reset_revokes :
    (v : Env) (target actor session_id now later : ℕ) (s t : Store)
    → reset v target actor session_id now later s ≡ ok (tt, t)
    → Went v target actor session_id now later s t
reset_revokes v target actor session_id now later s t e =
    subst (Committed (Went v target actor session_id now later) s) e
      (reset-Went v target actor session_id now later s)
