-- ===== src/Mfa/Kept.antt =====
-- What a relation on stores has to satisfy so that every operation of internal/mfa/store.go keeps it, and that
-- the parts of the operations then do.
pub mod Completion
pub mod Removal
pub mod Credentials
use dwh_v.Common.{
  ℕ, ◌+◌, ◌≡◌, refl, Bool, true, false, not, ◌&&◌, ◌||◌, String, str_eq, Option, none, some, List,
  [], ◌∷◌, if◌then◌else◌, ◌==◌, is_some, Result, ok, err, if_rule, option_rule, leb, keep,
}
use dwh_v.Common.Tables.{delete_rows, find_row, update_rows}
use dwh_v.Common.Transactions.{
  Committed, Keeps, IsPreorder, Keeps-bind, Keeps-then, Keeps-pure, Keeps-check, Keeps-get,
  Keeps-or_fail, modify, pure, check, get, or_fail, ◌>>=◌, ◌>>◌,
}
use dwh_v.Mfa.Model.{
  Purpose, login, enrollment, step_up, rotation, rotate_authorize, regenerate, Challenge, Session,
  Store, Env, Draws, MfaError, Issued, Verified, Tx, AuditAction, invalid, pending, User, no_rows,
  totp_pending, RecoveryCode, duplicate_key, auth_login, mfa_step_up, mfa_recovery_regenerated,
}
use dwh_v.Mfa.Challenges.{
  append_audit, delete_sessions, issue, new_challenge, pending_for, find_challenge, begin_login,
  begin_authenticated, has_pending, belongs, first_pending, find_user, is_authenticated,
  lock_session, is_step_up, is_live, same_purpose,
}
use dwh_v.Mfa.Inspection.{recovery_hash, find_recovery}
use dwh_v.Mfa.Verify.{
  from_result, insert_codes, unused_code, replace_recovery, clear_challenges_sessions,
  create_session, new_session, nothing_verified, log_in, log_out, complete,
}

-- A relation that holds across every write that leaves the challenges, the enrollments and the recovery codes
-- alone, and across the writes to the table of challenges that `issue` and the deletions make.
pub record IsKept (R : Store → Store → Type 0) : Type 0 where
  pub preorder : IsPreorder R
  pub aside :
      (s t : Store)
      → s.challenges ≡ t.challenges
      → s.next_challenge ≡ t.next_challenge
      → s.enrollments ≡ t.enrollments
      → s.recovery ≡ t.recovery
      → R s t
  pub insert :
      (s : Store) (c : Challenge)
      → c.id ≡ s.next_challenge
      → R s (record s { challenges = c ∷ s.challenges; next_challenge = s.next_challenge + 1 })
  pub delete :
      (test : Challenge → Bool) (s : Store)
      → R s (record s { challenges = delete_rows test s.challenges })

-- And across the writes to the recovery codes of a user that `replaceRecovery` makes.
pub record KeptByCodes (R : Store → Store → Type 0) (user : ℕ) : Type 0 where
  pub clear :
      (s : Store) → R s (record s { recovery = delete_rows (λ r. r.user == user) s.recovery })
  pub add :
      (s : Store) (hash : String) (now : ℕ)
      → R s (record s { recovery = unused_code user hash now ∷ s.recovery })

module _ (R : Store → Store → Type 0) (k : IsKept R) where
  pub Kept-bind {ℓ μ} :
      {A : Type ℓ} {B : Type μ} (m : Tx A) (f : A → Tx B)
      → Keeps R m
      → ((a : A) → Keeps R (f a))
      → Keeps R (m >>= f)
  Kept-bind = Keeps-bind R k.preorder

  pub Kept-then {μ} :
      {B : Type μ} (m : Tx (Unit {0})) (n : Tx B) → Keeps R m → Keeps R n → Keeps R (m >> n)
  Kept-then = Keeps-then R k.preorder

  pub Kept-pure {ℓ} : {A : Type ℓ} (a : A) → Keeps {E = MfaError} R (pure a)
  Kept-pure = Keeps-pure R k.preorder MfaError

  pub Kept-check : (b : Bool) (e : MfaError) → Keeps R (check b e)
  Kept-check = Keeps-check R k.preorder

  pub Kept-get : Keeps {E = MfaError} R get
  Kept-get = Keeps-get R k.preorder MfaError

  pub Kept-or_fail {ℓ} : {A : Type ℓ} (a : Option A) (e : MfaError) → Keeps R (or_fail a e)
  Kept-or_fail = Keeps-or_fail R k.preorder

  pub append_audit-Kept : (a : AuditAction) (user : ℕ) → Keeps R (append_audit a user)
  append_audit-Kept a user s = k.aside _ _ refl refl refl refl

  pub delete_sessions-Kept : (test : Session → Bool) (s : Store) → R s (delete_sessions test s)
  delete_sessions-Kept test s =
      k.preorder.joined s (record s { sessions = delete_rows test s.sessions }) _
        (k.aside _ _ refl refl refl refl)
        (k.delete (belongs (keep test s.sessions))
          (record s { sessions = delete_rows test s.sessions }))

  pub from_result-Kept {ℓ} : {A : Type ℓ} (r : Result MfaError A) → Keeps R (from_result r)
  from_result-Kept (ok a) s = k.preorder.same s
  from_result-Kept (err e) s = tt

  pub issue-Kept :
      (v : Env) (d : Draws) (user session_id : ℕ) (p : Purpose) (remember : Bool) (next : String)
      (now : ℕ)
      → Keeps R (issue v d user session_id p remember next now)
  unfolding issue
  issue-Kept v d user session_id p remember next now s =
      if_rule P (is_some (find_challenge hash s)) (λ _. tt) (λ _. inserted)
    where
      hash : String
      hash = v.sha256 d.challenge_token

      c : Challenge
      c = new_challenge s.next_challenge hash user session_id p remember next now

      P : Result MfaError (Issued × Store) → Type 0
      P = Committed R s

      added : (x : Challenge) → Result MfaError (Issued × Store)
      added x = ok (
        record { token = d.challenge_token; challenge = x },
        record s { challenges = x ∷ s.challenges; next_challenge = s.next_challenge + 1 },
      )

      Q : Result MfaError Challenge → Type 0
      Q r = P (elim r [ err e ↦ err e | ok x ↦ added x ])

      inserted : P (elim (pending_for v d c) [ err e ↦ err e | ok x ↦ added x ])
      inserted =
          if_rule Q (has_pending p)
            (λ _.
              option_rule Q (v.encrypt totp_pending c.id d.secret) (λ _. tt)
                (λ encoded _. k.insert s (record c { pending_secret = some encoded }) refl))
            (λ _. k.insert s c refl)

  pub begin_login-Kept :
      (v : Env) (d : Draws) (id : ℕ) (password_hash : String) (remember : Bool) (next : String)
      (now : ℕ)
      → Keeps R (begin_login v d id password_hash remember next now)
  unfolding begin_login
  begin_login-Kept v d id password_hash remember next now = Kept-bind get found Kept-get (λ s.
      Kept-bind (or_fail (find_user id s) no_rows) (known s) (Kept-or_fail _ _) (λ u.
        Kept-then (check (u.active && str_eq u.password_hash password_hash) invalid) (begun s)
          (Kept-check _ _)
          (Kept-then clear (started s) (λ t. k.delete mine t)
            (issue-Kept v d id 0 (purpose s) remember next now))))
    where
      mine : Challenge → Bool
      mine c = c.user == id && not (is_some c.session)

      clear : Tx (Unit {0})
      clear = modify λ t. record t { challenges = delete_rows mine t.challenges }

      purpose : Store → Purpose
      purpose s = if is_some (find_row (λ e. e.user == id) s.enrollments) then login else enrollment

      started : Store → Tx Issued
      started s = issue v d id 0 (purpose s) remember next now

      begun : Store → Tx Issued
      begun s = clear >> started s

      known : Store → User → Tx Issued
      known s u = check (u.active && str_eq u.password_hash password_hash) invalid >> begun s

      found : Store → Tx Issued
      found s = or_fail (find_user id s) no_rows >>= known s

  pub begin_authenticated-Kept :
      (v : Env) (d : Draws) (id session_id : ℕ) (p : Purpose) (next existing : String)
      (now later : ℕ)
      → Keeps R (begin_authenticated v d id session_id p next existing now later)
  unfolding begin_authenticated
  begin_authenticated-Kept v d id session_id p next existing now later =
      Kept-then (check (is_authenticated p) invalid) (get >>= found) (Kept-check _ _) (
        Kept-bind get found Kept-get (λ s.
          Kept-bind (or_fail (find_user id s) no_rows) (known s) (Kept-or_fail _ _) (λ u.
            Kept-then (check u.active invalid) (session s) (Kept-check _ _) (
              Kept-bind (or_fail (lock_session v id session_id now s) invalid) (locked s)
                (Kept-or_fail _ _)
                (λ x.
                  Kept-then (check (is_step_up p || not (is_some x.impersonated)) invalid)
                    (live s x) (Kept-check _ _)
                    (Kept-then (check (is_live v x later) invalid) (begun s) (Kept-check _ _) (
                      option_rule (Keeps R) (first_pending session_id later s.challenges)
                        (λ _. issue-Kept v d id session_id p false next later)
                        (λ c _.
                          Kept-then (check (known_token c) pending) (pure (again c))
                            (Kept-check _ _) (Kept-pure (again c))))))))))
    where
      known_token : Challenge → Bool
      known_token c = str_eq (v.sha256 existing) c.token_hash && same_purpose c.purpose p

      again : Challenge → Issued
      again c = record { token = existing; challenge = c }

      begun : Store → Tx Issued
      begun s = elim (first_pending session_id later s.challenges) [
        | some c ↦ check (known_token c) pending >> pure (again c)
        | none ↦ issue v d id session_id p false next later
      ]

      live : Store → Session → Tx Issued
      live s x = check (is_live v x later) invalid >> begun s

      locked : Store → Session → Tx Issued
      locked s x = check (is_step_up p || not (is_some x.impersonated)) invalid >> live s x

      session : Store → Tx Issued
      session s = or_fail (lock_session v id session_id now s) invalid >>= locked s

      known : Store → User → Tx Issued
      known s u = check u.active invalid >> session s

      found : Store → Tx Issued
      found s = or_fail (find_user id s) no_rows >>= known s
