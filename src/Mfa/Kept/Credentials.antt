-- ===== src/Mfa/Kept/Credentials.antt =====
-- internal/mfa/store.go: what all operations keep of the enrollments and the recovery codes, but for those that give a
-- user new ones.
use dwh_v.Common.{
  ℕ, ◌+◌, ◌≡◌, refl, Bool, true, false, ◌&&◌, String, Option, none, some, List, [], ◌∷◌,
  if◌then◌else◌, ◌==◌, is_some, Result, ok, err, if_rule,
}
use dwh_v.Common.Transactions.{
  Committed, Committed-bind, Keeps, IsPreorder, pure, modify, ◌>>=◌, ◌>>◌,
}
use dwh_v.Mfa.Totp.{max_failures}
use dwh_v.Mfa.Model.{
  Purpose, Challenge, Store, Env, Draws, MfaError, Outcome, accepted, Verified, Tx, mfa_failed,
}
use dwh_v.Mfa.Challenges.{find_challenge}
use dwh_v.Mfa.Inspection.{Factor, Inspection}
use dwh_v.Mfa.Inspection.Facts.{Attempt, inspected}
use dwh_v.Mfa.Verify.{
  from_result, reject, fail_store, is_refused, spend, consume, complete, accept, decide, verify,
}
use dwh_v.Mfa.Lifecycle.{
  Operation, logs_in, authenticates, verifies, resets, expires, settle, perform, performs,
}
use dwh_v.Mfa.Kept.{IsKept, KeptByCodes, begin_login-Kept, begin_authenticated-Kept}
use dwh_v.Mfa.Kept.Completion.{is_regenerate, complete-Kept}
use dwh_v.Mfa.Kept.Removal.{KeptByRemoval, reset-Kept, delete_expired-Kept}

-- A verification for a challenge of the user with one of the purposes.
abbrev pub is_of : (Purpose → Bool) → ℕ → Option Challenge → Bool
is_of kinds user none = false
is_of kinds user (some c) = kinds c.purpose && c.user == user

unfoldable pub renews : (Purpose → Bool) → Env → ℕ → Operation → Store → Bool
renews kinds v user (verifies d token input session_id password now later) s =
    is_of kinds user (find_challenge (v.sha256 token) s)
renews kinds v user _ s = false

-- No operation of a history is one.
unfoldable pub NeverRenews : (Purpose → Bool) → Env → ℕ → List Operation → Store → Type 0
NeverRenews kinds v user [] s = Unit
NeverRenews kinds v user (o ∷ os) s =
    (renews kinds v user o s ≡ false) × NeverRenews kinds v user os (perform v o s)

-- A relation on the enrollments and the recovery codes of two stores.
pub record IsCredential (R : Store → Store → Type 0) : Type 0 where
  pub preorder : IsPreorder R
  pub same : (s t : Store) → s.enrollments ≡ t.enrollments → s.recovery ≡ t.recovery → R s t
  pub removal : KeptByRemoval R

module _ (R : Store → Store → Type 0) (k : IsCredential R) where
  pub Credential-IsKept : IsKept R
  Credential-IsKept = record {
    preorder = k.preorder;
    aside = λ s t _ _ e r. k.same s t e r;
    insert = λ s c _. k.same _ _ refl refl;
    delete = λ test s. k.same _ _ refl refl;
  }

  reject-Kept : (c : Challenge) (session_id now : ℕ) → Keeps R (reject c session_id now)
  unfolding reject
  reject-Kept c session_id now s =
      if_rule (λ (m : Tx Outcome). Committed R s (m t)) (c.failures + 1 == max_failures)
        (λ _. k.preorder.joined s w _ counted (k.same _ _ refl refl))
        (λ _. k.preorder.joined s w _ counted (k.same _ _ refl refl))
    where
      t : Store
      t =
          let u = fail_store c session_id now s in
          record u { audits = (mfa_failed, c.user) ∷ u.audits }

      w : Store
      w = fail_store c session_id now s

      counted : R s (fail_store c session_id now s)
      counted =
          if_rule (R s) (c.failures + 1 == max_failures && is_some c.session)
            (λ _. k.same _ _ refl refl) (λ _. k.same _ _ refl refl)

  accept-Kept :
      (v : Env) (d : Draws) (c : Challenge) (f : Factor) (input : String) (session_id now : ℕ)
      (s : Store)
      → (is_regenerate c.purpose ≡ true → KeptByCodes R c.user)
      → Committed R s (spend v d c input f now s)
      → Committed R s (accept v d c f input session_id now s)
  accept-Kept v d c f input session_id now s law p =
      Committed-bind R (R s) (spend v d c input f now) rest s p (λ codes t _ q.
        ended codes t q (complete v d c session_id codes now (consume c.id now t))
          (complete-Kept R Credential-IsKept v d c session_id codes now law (consume c.id now t)))
    where
      rest : List String → Tx Outcome
      rest codes =
          modify (consume c.id now)
          >> (complete v d c session_id codes now >>= λ x. pure (accepted x))

      ended :
          (codes : List String) (t : Store)
          → R s t
          → (r : Result MfaError (Verified × Store)) → Committed R (consume c.id now t) r
          → Committed {E = MfaError} {A = Outcome}
              (λ _. R s)
              t
              (elim r [ ok (x, u) ↦ ok (accepted x, u) | err e ↦ err e ])
      ended codes t q (ok (x, u)) m =
          k.preorder.joined s t u q
            (k.preorder.joined t (consume c.id now t) u (k.same _ _ refl refl) m)
      ended codes t q (err e) m = tt

  -- What a verification keeps, if the use of its factor and new recovery codes do.
  pub verify-Kept :
      (v : Env) (d : Draws) (a : Attempt) (s : Store)
      → ((x : Inspection)
          → inspected v a s ≡ ok x
          → is_refused x.factor ≡ false
          → (is_regenerate x.challenge.purpose ≡ true → KeptByCodes R x.challenge.user)
            × Committed R s (spend v d x.challenge a.input x.factor a.later s))
      → Committed R s (verify v d a.token a.input a.session_id a.password_hash a.now a.later s)
  unfolding verify
  verify-Kept v d a s f = go (inspected v a s) refl
    where
      chosen : Inspection → Bool → Tx Outcome
      chosen x b =
          if b
          then reject x.challenge a.session_id a.later
          else accept v d x.challenge x.factor a.input a.session_id a.later

      step :
          (x : Inspection)
          → inspected v a s ≡ ok x
          → (b : Bool) → is_refused x.factor ≡ b
          → Committed R s (chosen x b s)
      step x e true h = reject-Kept x.challenge a.session_id a.later s
      step x e false h =
          let laws = f x e h in
          accept-Kept v d x.challenge x.factor a.input a.session_id a.later s laws.0 laws.1

      go :
          (r : Result MfaError Inspection)
          → inspected v a s ≡ r
          → Committed R s ((from_result r >>= decide v d a.input a.session_id a.later) s)
      go (ok x) e = step x e (is_refused x.factor) refl
      go (err z) e = tt

  settled :
      {A : Type 0} (s : Store) (r : Result MfaError (A × Store))
      → Committed R s r
      → R s (settle s r)
  settled s (ok (a, t)) p = p
  settled s (err e) p = k.preorder.same s

  -- And what a history keeps, in which nothing is renewed.
  module _ (kinds : Purpose → Bool) (v : Env) (user : ℕ)
      (verified : (d : Draws) (a : Attempt) (s : Store)
        → is_of kinds user (find_challenge (v.sha256 a.token) s) ≡ false
        → Committed R s
            (verify v d a.token a.input a.session_id a.password_hash a.now a.later s)) where
    perform-Kept :
        (o : Operation) (s : Store) → renews kinds v user o s ≡ false → R s (perform v o s)
    unfolding perform renews
    perform-Kept (logs_in d id password remember next now) s h =
        settled s _ (begin_login-Kept R Credential-IsKept v d id password remember next now s)
    perform-Kept (authenticates d id session_id p next existing now later) s h =
        settled s _ (
          begin_authenticated-Kept R Credential-IsKept v d id session_id p next existing now later
            s)
    perform-Kept (verifies d token input session_id password now later) s h = settled s _ (
        verified d
          (record {
            token = token;
            input = input;
            session_id = session_id;
            password_hash = password;
            now = now;
            later = later;
          })
          s h)
    perform-Kept (resets target actor session_id now later) s h =
        settled s _ (reset-Kept R Credential-IsKept k.removal v target actor session_id now later s)
    perform-Kept (expires now) s h = delete_expired-Kept R Credential-IsKept now s

    pub performs-Kept :
        (os : List Operation) (s : Store) → NeverRenews kinds v user os s → R s (performs v os s)
    unfolding NeverRenews performs
    performs-Kept [] s h = k.preorder.same s
    performs-Kept (o ∷ os) s h =
        k.preorder.joined s (perform v o s) _ (perform-Kept o s h.0)
          (performs-Kept os (perform v o s) h.1)
