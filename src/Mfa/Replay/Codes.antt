-- ===== src/Mfa/Replay/Codes.antt =====
-- internal/mfa/store.go: in every history, a recovery code that is used stays so, until the user has new ones.
use dwh_v.Common.{
  ℕ, ◌≡◌, ◌≢◌, refl, Bool, true, false, ◌&&◌, ◌||◌, String, str_eq, Option, none, some, List,
  if◌then◌else◌, ◌==◌, is_some, Result, ok, Ensures, Ensures-bind, All, arith, if_rule, inl, inr,
  Bool-cases, subst, sym, ap, ◌∙◌,
}
use dwh_v.Common.Tables.{All-update_rows, All-keep}
use dwh_v.Common.Transactions.{Committed, Keeps}
use dwh_v.Mfa.Totp.{ℤ, match_code, before_first}
use dwh_v.Mfa.Model.{
  Purpose, login, enrollment, step_up, rotation, rotate_authorize, regenerate, Challenge,
  RecoveryCode, Store, Env, Draws, MfaError, Outcome,
}
use dwh_v.Mfa.Challenges.{has_pending, find_challenge, pending_secret}
use dwh_v.Mfa.Inspection.{
  Factor, refused, counter_match, recovery_match, Inspection, recovery_hash, find_recovery, unused,
  find_enrollment, pending_factor, active_factor,
}
use dwh_v.Mfa.Inspection.Facts.{Attempt, inspected, Facts, inspect-Facts}
use dwh_v.Mfa.Verify.{is_refused, spend, enroll, use_counter, use_recovery, verify}
use dwh_v.Mfa.Kept.{KeptByCodes}
use dwh_v.Mfa.Kept.Completion.{is_regenerate, activate-Kept}
use dwh_v.Mfa.Kept.Credentials.{
  is_of, NeverRenews, IsCredential, Credential-IsKept, verify-Kept, performs-Kept,
}
use dwh_v.Mfa.Lifecycle.{Operation, performs}
use dwh_v.Mfa.Replay.{
  attempted, Shown, inspected-Shown, accepted_code, not_unused, with_password-checked,
}

-- The user's codes with the hash are used.
abbrev IsUsed : ℕ → String → RecoveryCode → Type 0
IsUsed user hash r = r.user == user && str_eq r.code_hash hash ≡ true → is_some r.used_at ≡ true

abbrev Spent : ℕ → String → Store → Type 0
Spent user hash s = All (IsUsed user hash) s.recovery

KeepsSpent : ℕ → String → Store → Store → Type 0
KeepsSpent user hash s t = Spent user hash s → Spent user hash t

-- The purposes that give a user new recovery codes.
abbrev pub brings_codes : Purpose → Bool
brings_codes p = has_pending p || is_regenerate p

KeepsSpent-IsCredential : (user : ℕ) (hash : String) → IsCredential (KeepsSpent user hash)
unfolding KeepsSpent
KeepsSpent-IsCredential user hash = record {
  preorder = record { same = λ s h. h; joined = λ s t u p q h. q (p h) };
  same = λ s t _ e h. subst (All (IsUsed user hash)) e h;
  removal = λ s gone h. All-keep _ _ _ h;
}

-- The codes of another user.
others_codes :
    (user : ℕ) (hash : String) (other : ℕ)
    → other == user ≡ false
    → KeptByCodes (KeepsSpent user hash) other
unfolding KeepsSpent
others_codes user hash other d = record {
  clear = λ s h. All-keep _ _ _ h;
  add = λ s code now h. ((λ own. ground (arith, own, d)), h);
}

enroll-KeepsSpent :
    (user : ℕ) (hash : String) (p : Purpose) (other : ℕ) (secret : String) (n : ℤ) (now : ℕ)
    → Keeps (KeepsSpent user hash) (enroll p other secret n now)
unfolding KeepsSpent
enroll-KeepsSpent user hash p other secret n now s = go p
  where
    R : Store → Store → Type 0
    R a b = Spent user hash a → Spent user hash b

    go : (q : Purpose) → Committed R s (enroll q other secret n now s)
    go enrollment =
        if_rule (λ (r : Result MfaError (Unit {0} × Store)). Committed R s r)
          (is_some (find_enrollment other s)) (λ _. tt) (λ _ h. h)
    go login = λ h. h
    go step_up = λ h. h
    go rotation = λ h. h
    go rotate_authorize = λ h. h
    go regenerate = λ h. h

verify-KeepsSpent :
    (user : ℕ) (hash : String) (v : Env) (d : Draws) (a : Attempt) (s : Store)
    → is_of brings_codes user (find_challenge (v.sha256 a.token) s) ≡ false
    → Committed
        (KeepsSpent user hash)
        s
        (verify v d a.token a.input a.session_id a.password_hash a.now a.later s)
unfolding KeepsSpent spend use_counter use_recovery
verify-KeepsSpent user hash v d a s quiet =
    verify-Kept R (KeepsSpent-IsCredential user hash) v d a s (λ x e h.
      ((λ p. others_codes user hash x.challenge.user (regenerates x e p)), used x e x.factor))
  where
    R : Store → Store → Type 0
    R = KeepsSpent user hash

    quiet_for :
        (x : Inspection)
        → inspected v a s ≡ ok x
        → brings_codes x.challenge.purpose && x.challenge.user == user ≡ false
    quiet_for x e =
        let f = subst (Ensures (Facts v a s)) e (inspect-Facts v a s) in
        subst (λ o. is_of brings_codes user o ≡ false) f.found quiet

    regenerates :
        (x : Inspection)
        → inspected v a s ≡ ok x
        → is_regenerate x.challenge.purpose ≡ true
        → x.challenge.user == user ≡ false
    regenerates x e p = let q = quiet_for x e in ground (arith, p, q)

    activates :
        (x : Inspection)
        → inspected v a s ≡ ok x
        → has_pending x.challenge.purpose ≡ true
        → x.challenge.user == user ≡ false
    activates x e p = let q = quiet_for x e in ground (arith, p, q)

    used :
        (x : Inspection)
        → inspected v a s ≡ ok x
        → (g : Factor) → Committed R s (spend v d x.challenge a.input g a.later s)
    used x e refused = λ k. k
    used x e recovery_match =
        λ k. All-update_rows (IsUsed user hash) _ _ s.recovery (λ r _ _ _. refl) k
    used x e (counter_match n) = elim (Bool-cases (has_pending x.challenge.purpose)) [
      | inl p ↦ rw p (
          activate-Kept R (Credential-IsKept R (KeepsSpent-IsCredential user hash)) v d x.challenge
            n a.later (others_codes user hash x.challenge.user (activates x e p))
            (λ y. enroll-KeepsSpent user hash x.challenge.purpose x.challenge.user y n a.later) s)
      | inr p ↦ rw p (λ k. k)
    ]

-- A pending secret has no recovery codes.
pending_factor-counts :
    (v : Env) (c : Challenge) (input : String) (now : ℕ)
    → Ensures (λ f. f ≢ recovery_match) (pending_factor v c input now)
pending_factor-counts v c input now =
    Ensures-bind (λ f. f ≢ recovery_match) (pending_secret v c) ended
      (λ secret _. judged (match_code v.crypto secret input now before_first))
  where
    found : Option ℤ → Factor
    found o = elim o [ none ↦ refused | some n ↦ counter_match n ]

    ended : String → Result MfaError Factor
    ended secret = ok (found (match_code v.crypto secret input now before_first))

    judged : (o : Option ℤ) → found o ≢ recovery_match
    judged none h = cc h
    judged (some n) h = cc h

-- After a recovery code of a user was accepted, for anything but new recovery codes, and however many operations later,
-- the same code of the user's is not accepted as a recovery code, for whatever challenge and at whatever time, as long
-- as no challenge of the user that brings new recovery codes (an enrollment, a rotation or a regeneration) is
-- verified in between.
pub recovery_code_used_once :
    (v : Env) (d : Draws) (a b : Attempt) (os : List Operation) (s t : Store) (x z : Inspection)
    (y : Outcome)
    → inspected v a s ≡ ok x
    → x.factor ≡ recovery_match
    → is_regenerate x.challenge.purpose ≡ false
    → attempted v d a s ≡ ok (y, t)
    → NeverRenews brings_codes v x.challenge.user os t
    → inspected v b (performs v os t) ≡ ok z
    → z.challenge.user ≡ x.challenge.user
    → recovery_hash v z.challenge.user b.input ≡ recovery_hash v x.challenge.user a.input
    → z.factor ≢ recovery_match
unfolding KeepsSpent
recovery_code_used_once v d a b os s t x z y e f g out quiet e' same hash f' =
    elim (Bool-cases (has_pending z.challenge.purpose)) [
      | inl p ↦
          let fact = subst (Ensures (Facts v b w)) e' (inspect-Facts v b w) in
          let chosen =
            subst
              (λ q.
                (if q
                  then pending_factor v z.challenge b.input b.later
                  else active_factor v z.challenge.user b.input b.later w)
                ≡ ok fact.checked)
              p fact.judged in
          let checked =
            with_password-checked z.challenge.purpose b.password_hash z.user fact.checked z.factor
              fact.decided (ap is_refused f') in
          subst (Ensures (λ q. q ≢ recovery_match)) chosen
            (pending_factor-counts v z.challenge b.input b.later) (checked ∙ f')
      | inr p ↦
          let spare =
            subst (Shown v z.challenge.user b.input b.later w) f'
              (inspected-Shown v b w z e' p (ap is_refused f')) in
          cc (spare, none_left)
    ]
  where
    user : ℕ
    user = x.challenge.user

    code : String
    code = recovery_hash v user a.input

    w : Store
    w = performs v os t

    reached : Spent user code w
    reached =
        performs-Kept (KeepsSpent user code) (KeepsSpent-IsCredential user code) brings_codes v user
          (verify-KeepsSpent user code v) os t quiet (accepted_code v d a s t x y e f g out)

    none_left :
        unused (find_recovery z.challenge.user (recovery_hash v z.challenge.user b.input) w) ≡ false
    none_left = not_unused z.challenge.user (recovery_hash v z.challenge.user b.input) w (
        subst (λ u. All (IsUsed u (recovery_hash v z.challenge.user b.input)) w.recovery) (sym same)
          (subst (λ h. All (IsUsed user h) w.recovery) (sym hash) reached))
