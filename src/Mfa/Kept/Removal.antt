-- ===== src/Mfa/Kept/Removal.antt =====
-- What a reset and the cleanup keep.
use dwh_v.Common.{ℕ, not, ◌&&◌, if◌then◌else◌, ◌==◌, Result, ok, leb}
use dwh_v.Common.Tables.{delete_rows}
use dwh_v.Common.Transactions.{Keeps, modify, check, get, or_fail, ◌>>=◌, ◌>>◌}
use dwh_v.Mfa.Model.{
  Store, Env, MfaError, Tx, invalid, no_rows, mfa_operator_reset, mfa_admin_reset, AuditAction,
}
use dwh_v.Mfa.Challenges.{find_user, append_audit}
use dwh_v.Mfa.Verify.{from_result}
use dwh_v.Mfa.Actor.{check_actor}
use dwh_v.Mfa.Reset.{reset, clear_credentials, delete_expired}
use dwh_v.Mfa.Kept.{
  IsKept, Kept-bind, Kept-then, Kept-check, Kept-get, Kept-or_fail, append_audit-Kept,
  delete_sessions-Kept, from_result-Kept,
}
use dwh_v.Mfa.Kept.Completion.{clear_challenges_sessions-Kept}

-- Across the writes to the enrollments and the recovery codes too.
abbrev pub KeptByRemoval : (Store → Store → Type 0) → Type 0
KeptByRemoval R =
    (s : Store) (user : ℕ)
    → R s (record s {
      enrollments = delete_rows (λ e. e.user == user) s.enrollments;
      recovery = delete_rows (λ r. r.user == user) s.recovery;
    })

module _ (R : Store → Store → Type 0) (k : IsKept R) where
  clear_credentials-Kept :
      (remove : KeptByRemoval R) (user : ℕ) (s : Store) → R s (clear_credentials user s)
  unfolding clear_credentials
  clear_credentials-Kept remove user s =
      k.preorder.joined s removed _ (remove s user)
        (clear_challenges_sessions-Kept R k user removed)
    where
      removed : Store
      removed = record s {
        enrollments = delete_rows (λ e. e.user == user) s.enrollments;
        recovery = delete_rows (λ r. r.user == user) s.recovery;
      }

  pub reset-Kept :
      (remove : KeptByRemoval R) (v : Env) (target actor session_id now later : ℕ)
      → Keeps R (reset v target actor session_id now later)
  unfolding reset
  reset-Kept remove v target actor session_id now later =
      Kept-then R k (check (not (target == 0) && not (target == actor)) invalid) (get >>= found)
        (Kept-check R k _ _)
        (Kept-bind R k get found (Kept-get R k) (λ s.
          Kept-bind R k (or_fail (find_user target s) no_rows) (λ _. known s) (Kept-or_fail R k _ _)
            (λ u.
              Kept-then R k (from_result (allowed_by s)) cleared
                (from_result-Kept R k (allowed_by s))
                (Kept-then R k (modify (clear_credentials target)) (append_audit action target)
                  (clear_credentials-Kept remove target) (append_audit-Kept R k action target)))))
    where
      allowed_by : Store → Result MfaError (Unit {0})
      allowed_by s = if actor == 0 then ok tt else check_actor v actor session_id now later s

      action : AuditAction
      action = if actor == 0 then mfa_operator_reset else mfa_admin_reset

      cleared : Tx (Unit {0})
      cleared = modify (clear_credentials target) >> append_audit action target

      known : Store → Tx (Unit {0})
      known s = from_result (allowed_by s) >> cleared

      found : Store → Tx (Unit {0})
      found s = or_fail (find_user target s) no_rows >>= λ _. known s

  pub delete_expired-Kept : (now : ℕ) (s : Store) → R s (delete_expired now s)
  unfolding delete_expired
  delete_expired-Kept now s =
      k.preorder.joined s expired _ (k.delete (λ c. leb c.expires_at now) s)
        (delete_sessions-Kept R k (λ x. leb x.expires_at now) expired)
    where
      expired : Store
      expired = record s { challenges = delete_rows (λ c. leb c.expires_at now) s.challenges }
