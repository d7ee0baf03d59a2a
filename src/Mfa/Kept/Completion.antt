-- ===== src/Mfa/Kept/Completion.antt =====
-- What the parts of an accepted verification keep.
use dwh_v.Common.{
  ℕ, ◌≡◌, refl, Bool, true, false, String, str_eq, some, List, [], ◌∷◌, if◌then◌else◌, ◌==◌,
  is_some, Result, err, if_rule, leb,
}
use dwh_v.Common.Tables.{delete_rows, find_row, update_rows}
use dwh_v.Common.Transactions.{Committed, Keeps, modify, pure, get, or_fail, ◌>>=◌, ◌>>◌}
use dwh_v.Mfa.Model.{
  Purpose, login, enrollment, step_up, rotation, rotate_authorize, regenerate, Challenge, Session,
  Store, Env, Draws, MfaError, Issued, Verified, Tx, duplicate_key, auth_login, mfa_step_up,
  mfa_recovery_regenerated, totp_active, cipher_failed,
}
use dwh_v.Mfa.Challenges.{append_audit, issue, pending_secret}
use dwh_v.Mfa.Totp.{ℤ}
use dwh_v.Mfa.Inspection.{recovery_hash, find_recovery}
use dwh_v.Mfa.Verify.{
  from_result, insert_codes, unused_code, replace_recovery, clear_challenges_sessions,
  create_session, new_session, nothing_verified, log_in, log_out, complete, enroll, enrolled_action,
  activate,
}
use dwh_v.Mfa.Kept.{
  Kept-or_fail, IsKept, KeptByCodes, Kept-bind, Kept-then, Kept-pure, Kept-get, append_audit-Kept,
  delete_sessions-Kept, from_result-Kept, issue-Kept,
}

abbrev pub is_regenerate : Purpose → Bool
is_regenerate regenerate = true
is_regenerate _ = false

module _ (R : Store → Store → Type 0) (k : IsKept R) where
  insert_codes-Kept :
      (v : Env) (user : ℕ) (law : KeptByCodes R user) (now : ℕ) (codes : List String)
      → Keeps R (insert_codes v user now codes)
  insert_codes-Kept v user law now [] = k.preorder.same
  insert_codes-Kept v user law now (code ∷ codes) = Kept-bind R k get go (Kept-get R k) (λ s.
      if_rule (Keeps R) (is_some (find_recovery user hash s))
        (λ _. from_result-Kept R k {A = Unit {0}} (err duplicate_key))
        (λ _.
          Kept-then R k add (insert_codes v user now codes) (λ t. law.add t hash now)
            (insert_codes-Kept v user law now codes)))
    where
      hash : String
      hash = recovery_hash v user code

      add : Tx (Unit {0})
      add = modify λ t. record t { recovery = unused_code user hash now ∷ t.recovery }

      go : Store → Tx (Unit {0})
      go s =
          if is_some (find_recovery user hash s)
          then from_result (err duplicate_key)
          else add >> insert_codes v user now codes

  pub replace_recovery-Kept :
      (v : Env) (d : Draws) (user : ℕ) (law : KeptByCodes R user) (now : ℕ)
      → Keeps R (replace_recovery v d user now)
  unfolding replace_recovery
  replace_recovery-Kept v d user law now =
      Kept-then R k clear (insert_codes v user now d.codes >> pure d.codes) law.clear (
        Kept-then R k (insert_codes v user now d.codes) (pure d.codes)
          (insert_codes-Kept v user law now d.codes) (Kept-pure R k d.codes))
    where
      clear : Tx (Unit {0})
      clear = modify λ s. record s { recovery = delete_rows (λ r. r.user == user) s.recovery }

  pub clear_challenges_sessions-Kept :
      (user : ℕ) (s : Store) → R s (clear_challenges_sessions user s)
  unfolding clear_challenges_sessions
  clear_challenges_sessions-Kept user s =
      k.preorder.joined s cleared _ (k.delete (λ c. c.user == user) s)
        (delete_sessions-Kept R k (λ x. x.user == user) cleared)
    where
      cleared : Store
      cleared = record s { challenges = delete_rows (λ c. c.user == user) s.challenges }

  create_session-Kept :
      (v : Env) (user : ℕ) (hash : String) (remember : Bool) (now : ℕ)
      → Keeps R (create_session v user hash remember now)
  unfolding create_session
  create_session-Kept v user hash remember now s =
      if_rule P (user == 0) (λ _. tt)
        (λ _.
          if_rule P (str_eq hash v.zero_hash) (λ _. tt)
            (λ _.
              if_rule P (leb x.expires_at now) (λ _. tt)
                (λ _.
                  if_rule P (is_some (find_row (λ y. str_eq y.token_hash hash) s.sessions))
                    (λ _. tt) (λ _. k.aside _ _ refl refl refl refl))))
    where
      x : Session
      x = new_session s.next_session v user hash remember now

      P : Result MfaError (Session × Store) → Type 0
      P = Committed R s

  log_in-Kept :
      (v : Env) (d : Draws) (c : Challenge) (codes : List String) (now : ℕ)
      → Keeps R (log_in v d c codes now)
  log_in-Kept v d c codes now =
      Kept-bind R k (create_session v c.user (v.sha256 d.session_token) c.remember_me now) ended
        (create_session-Kept v c.user _ _ now) (λ x s. k.aside _ _ refl refl refl refl)
    where
      ended : Session → Tx Verified
      ended x = do
        modify λ s. record s {
          users =
              update_rows (λ u. u.id == c.user) (λ u. record u { last_login_at = some now })
                s.users;
        }
        append_audit auth_login c.user
        pure (record (nothing_verified c.next_path codes) {
          raw_token = d.session_token;
          session = some x;
        })

  log_out-Kept : (user : ℕ) (codes : List String) → Keeps R (log_out user codes)
  log_out-Kept user codes s = clear_challenges_sessions-Kept user s

  pub complete-Kept :
      (v : Env) (d : Draws) (c : Challenge) (session_id : ℕ) (codes : List String) (now : ℕ)
      → (is_regenerate c.purpose ≡ true → KeptByCodes R c.user)
      → Keeps R (complete v d c session_id codes now)
  unfolding complete
  complete-Kept v d c session_id codes now law = go c.purpose law
    where
      told : List String → Tx Verified
      told fresh = append_audit mfa_recovery_regenerated c.user >> log_out c.user fresh

      given : Issued → Tx Verified
      given x = pure (record (nothing_verified c.next_path codes) { pending = some x })

      go :
          (p : Purpose)
          → (is_regenerate p ≡ true → KeptByCodes R c.user)
          → Keeps R (elim p [
            | login ↦ log_in v d c codes now
            | enrollment ↦ log_in v d c codes now
            | step_up ↦
                modify (λ s. record s {
                  sessions =
                      update_rows
                        (λ x. x.id == session_id)
                        (λ x. record x { mfa_verified_at = some now; updated_at = now })
                        s.sessions;
                })
                >> (append_audit mfa_step_up c.user >> pure (nothing_verified c.next_path codes))
            | rotate_authorize ↦ issue v d c.user session_id rotation false "/login" now >>= given
            | regenerate ↦ replace_recovery v d c.user now >>= told
            | rotation ↦ log_out c.user codes
          ])
      go login law' = log_in-Kept v d c codes now
      go enrollment law' = log_in-Kept v d c codes now
      go step_up law' = λ s. k.aside _ _ refl refl refl refl
      go rotate_authorize law' =
          Kept-bind R k (issue v d c.user session_id rotation false "/login" now) given
            (issue-Kept R k v d c.user session_id rotation false "/login" now)
            (λ x. Kept-pure R k (record (nothing_verified c.next_path codes) { pending = some x }))
      go regenerate law' =
          Kept-bind R k (replace_recovery v d c.user now) told
            (replace_recovery-Kept v d c.user (law' refl) now)
            (λ fresh.
              Kept-then R k (append_audit mfa_recovery_regenerated c.user) (log_out c.user fresh)
                (append_audit-Kept R k _ _) (log_out-Kept c.user fresh))
      go rotation law' = log_out-Kept c.user codes

  -- What activating a secret keeps, if the write of the secret does.
  pub activate-Kept :
      (v : Env) (d : Draws) (c : Challenge) (n : ℤ) (now : ℕ)
      → KeptByCodes R c.user
      → ((secret : String) → Keeps R (enroll c.purpose c.user secret n now))
      → Keeps R (activate v d c n now)
  unfolding activate
  activate-Kept v d c n now law enrolls =
      Kept-bind R k (from_result (pending_secret v c)) decrypted (from_result-Kept R k _) (λ x.
        Kept-bind R k (or_fail (v.encrypt totp_active c.user x) cipher_failed) encrypted
          (Kept-or_fail R k _ _)
          (λ y. Kept-then R k (enroll c.purpose c.user y n now) enrolled (enrolls y) (
            Kept-bind R k (replace_recovery v d c.user now) ended
              (replace_recovery-Kept v d c.user law now)
              (λ codes.
                Kept-then R k (append_audit (enrolled_action c.purpose) c.user) (pure codes)
                  (append_audit-Kept R k _ _) (Kept-pure R k codes)))))
    where
      ended : List String → Tx (List String)
      ended codes = append_audit (enrolled_action c.purpose) c.user >> pure codes

      enrolled : Tx (List String)
      enrolled = replace_recovery v d c.user now >>= ended

      encrypted : String → Tx (List String)
      encrypted y = enroll c.purpose c.user y n now >> enrolled

      decrypted : String → Tx (List String)
      decrypted x = or_fail (v.encrypt totp_active c.user x) cipher_failed >>= encrypted
