-- ===== src/Mfa/Replay.antt =====
-- internal/mfa/store.go, `Verify`: a code, once accepted, is used up.
pub mod Counters
pub mod Codes
use dwh_v.Common.{
  ℕ, ◌≡◌, ◌≢◌, refl, Bool, true, false, not, ◌&&◌, String, str_eq, Option, none, some, List, [],
  ◌∷◌, if◌then◌else◌, ◌==◌, is_some, Result, ok, err, ◌>>=◌, Ensures, Ensures-bind, All, ◌/◌, arith,
  if_rule, inl, inr, Bool-cases, Option-cases, if_some, subst, sym, ap, ◌∙◌,
}
use dwh_v.Common.Tables.{update_rows, find_row-All, find_row-test}
use dwh_v.Common.Transactions.{Committed, ◌>>=◌ as ◌>>='◌}
use Prim.Native.String.{len}
use dwh_v.Mfa.Totp.{ℤ, Crypto, less, code_is, match_in, match_code, window, second, all_digits}
use dwh_v.Mfa.Model.{
  Purpose, login, enrollment, step_up, rotation, rotate_authorize, regenerate, totp_active,
  Challenge, User, Enrolled, RecoveryCode, Store, Env, Draws, MfaError, invalid, cipher_failed,
  Verified, Outcome, accepted, mfa_recovery_used,
}
use dwh_v.Mfa.Challenges.{has_pending}
use dwh_v.Mfa.Inspection.{
  Factor, refused, counter_match, recovery_match, Inspection, recovery_hash, find_recovery, unused,
  find_enrollment, active_factor, pending_factor, with_password, or_error, or_error-ok,
}
use dwh_v.Mfa.Inspection.Facts.{Attempt, inspected, Facts, inspect-Facts}
use dwh_v.Mfa.Verify.{
  is_refused, reject, use_counter, use_recovery, spend, consume, complete, accept, decide, verify,
  from_result,
}
use dwh_v.Mfa.Kept.{IsKept, KeptByCodes}
use dwh_v.Mfa.Kept.Completion.{is_regenerate, complete-Kept}

abbrev pub attempted : Env → Draws → Attempt → Store → Result MfaError (Outcome × Store)
attempted v d a = verify v d a.token a.input a.session_id a.password_hash a.now a.later

-- A counter that matches comes after the last one.
pub match_in-later :
    (k : Crypto) (secret input : String) (last_used : ℤ) (cs : List ℤ) {n : ℤ}
    → match_in k secret input last_used cs ≡ some n
    → (less last_used n ≡ true) × (code_is k secret input n ≡ true)
unfolding match_in
match_in-later k secret input last_used [] e = cc
match_in-later k secret input last_used (c ∷ cs) {n} e =
    elim (Bool-cases (code_is k secret input c)) [
      | inl hit ↦
          let q = if_some (less last_used c) (
            subst
              (λ b.
                (if b
                  then (if less last_used c then some c else none)
                  else match_in k secret input last_used cs)
                ≡ some n)
              hit e) in
          subst (λ x. (less last_used x ≡ true) × (code_is k secret input x ≡ true)) q.1 (q.0, hit)
      | inr miss ↦ match_in-later k secret input last_used cs (
          subst
            (λ b.
              (if b
                then (if less last_used c then some c else none)
                else match_in k secret input last_used cs)
              ≡ some n)
            miss e)
    ]

pub match_code-later :
    (k : Crypto) (secret input : String) (now : ℕ) (last_used : ℤ) {n : ℤ}
    → match_code k secret input now last_used ≡ some n
    → (less last_used n ≡ true) × (code_is k secret input n ≡ true)
unfolding match_code
match_code-later k secret input now last_used {n} e =
    if_rule (λ z. z ≡ some n → (less last_used n ≡ true) × (code_is k secret input n ≡ true))
      (len input == 6 && all_digits input)
      (λ _. match_in-later k secret input last_used (window (now / second / 30))) (λ _ x. cc) e

kept_by : (b : Bool) (f g : Factor) → g ≡ (if b then f else refused) → is_refused g ≡ false → f ≡ g
kept_by true f g e h = sym e
kept_by false f g e h = cc (e, h)

pub with_password-checked :
    (p : Purpose) (given : String) (u : User) (f g : Factor)
    → g ≡ with_password p given u f
    → is_refused g ≡ false
    → f ≡ g
with_password-checked login given u f g e h = sym e
with_password-checked enrollment given u f g e h = sym e
with_password-checked step_up given u f g e h = sym e
with_password-checked rotation given u f g e h = sym e
with_password-checked rotate_authorize given u f g e h =
    kept_by (not (str_eq given "") && str_eq given u.password_hash) f g e h
with_password-checked regenerate given u f g e h =
    kept_by (not (str_eq given "") && str_eq given u.password_hash) f g e h

-- What the factor of an enrolled user rests on.
pub record Active (v : Env) (user : ℕ) (input : String) (now : ℕ) (s : Store) (n : ℤ) : Type 0 where
  pub row : Enrolled
  pub found : find_enrollment user s ≡ some row
  pub later : less row.last_counter n ≡ true

-- What a factor shows of the store in which it was found.
abbrev pub Shown : Env → ℕ → String → ℕ → Store → Factor → Type 0
Shown v user input now s refused = Unit
Shown v user input now s (counter_match n) = Active v user input now s n
Shown v user input now s recovery_match =
    unused (find_recovery user (recovery_hash v user input) s) ≡ true

active_factor-Shown :
    (v : Env) (user : ℕ) (input : String) (now : ℕ) (s : Store)
    → Ensures (Shown v user input now s) (active_factor v user input now s)
active_factor-Shown v user input now s =
    Ensures-bind P (or_error (find_enrollment user s) invalid) found (λ e h.
      Ensures-bind P (or_error (v.decrypt totp_active user e.secret) cipher_failed) (ended e)
        (λ secret _.
          matched e secret (or_error-ok _ _ h) (match_code v.crypto secret input now e.last_counter)
            refl))
  where
    P : Factor → Type 0
    P = Shown v user input now s

    spare : Factor
    spare =
        if unused (find_recovery user (recovery_hash v user input) s)
        then recovery_match
        else refused

    factor : Option ℤ → Factor
    factor o = elim o [ some n ↦ counter_match n | none ↦ spare ]

    ended : Enrolled → String → Result MfaError Factor
    ended e secret = ok (factor (match_code v.crypto secret input now e.last_counter))

    found : Enrolled → Result MfaError Factor
    found e = or_error (v.decrypt totp_active user e.secret) cipher_failed >>= ended e

    matched :
        (e : Enrolled) (secret : String)
        → find_enrollment user s ≡ some e
        → (o : Option ℤ) → match_code v.crypto secret input now e.last_counter ≡ o
        → P (factor o)
    matched e secret h (some n) m = record {
      row = e;
      found = h;
      later = (match_code-later v.crypto secret input now e.last_counter m).0;
    }
    matched e secret h none m =
        if_rule P (unused (find_recovery user (recovery_hash v user input) s)) (λ hit. hit)
          (λ _. tt)

-- The same, from an inspection that found a factor of an enrolled user.
pub inspected-Shown :
    (v : Env) (a : Attempt) (s : Store) (x : Inspection)
    → inspected v a s ≡ ok x
    → has_pending x.challenge.purpose ≡ false
    → is_refused x.factor ≡ false
    → Shown v x.challenge.user a.input a.later s x.factor
inspected-Shown v a s x e p h =
    let f = subst (Ensures (Facts v a s)) e (inspect-Facts v a s) in
    let same =
      with_password-checked x.challenge.purpose a.password_hash x.user f.checked x.factor f.decided
        h in
    let j =
      subst
        (λ b.
          (if b
            then pending_factor v x.challenge a.input a.later
            else active_factor v x.challenge.user a.input a.later s)
          ≡ ok f.checked)
        p f.judged in
    subst (Shown v x.challenge.user a.input a.later s) same (
      subst (Ensures (Shown v x.challenge.user a.input a.later s)) j
        (active_factor-Shown v x.challenge.user a.input a.later s))

SameEnrollments : Store → Store → Type 0
SameEnrollments s t = s.enrollments ≡ t.enrollments

SameEnrollments-IsKept : IsKept SameEnrollments
unfolding SameEnrollments
SameEnrollments-IsKept = record {
  preorder = record { same = λ s. refl; joined = λ s t u p q. p ∙ q };
  aside = λ s t _ _ e _. e;
  insert = λ s c _. refl;
  delete = λ test s. refl;
}

SameRecovery : Store → Store → Type 0
SameRecovery s t = s.recovery ≡ t.recovery

SameRecovery-IsKept : IsKept SameRecovery
unfolding SameRecovery
SameRecovery-IsKept = record {
  preorder = record { same = λ s. refl; joined = λ s t u p q. p ∙ q };
  aside = λ s t _ _ _ e. e;
  insert = λ s c _. refl;
  delete = λ test s. refl;
}

-- What an acceptance keeps after the factor is used up.
accept-Kept :
    (R : Store → Store → Type 0) (k : IsKept R) (v : Env) (d : Draws) (c : Challenge) (f : Factor)
    (input : String) (session_id now : ℕ) (s s' : Store) (codes : List String)
    → (is_regenerate c.purpose ≡ true → KeptByCodes R c.user)
    → spend v d c input f now s ≡ ok (codes, s')
    → R s' (consume c.id now s')
    → Committed (λ _. R s') s (accept v d c f input session_id now s)
accept-Kept R k v d c f input session_id now s s' codes law e q =
    subst
      (λ r.
        Committed {E = MfaError} {A = Outcome} (λ _. R s') s
          (elim r [ ok (l, w) ↦ finished l w | err e ↦ err e ]))
      (sym e)
      (completed (complete v d c session_id codes now u)
        (complete-Kept R k v d c session_id codes now law u))
  where
    finished : List String → Store → Result MfaError (Outcome × Store)
    finished l w = elim (complete v d c session_id l now (consume c.id now w)) [
      | ok (x, t) ↦ ok (accepted x, t)
      | err e ↦ err e
    ]

    u : Store
    u = consume c.id now s'

    completed :
        (r : Result MfaError (Verified × Store))
        → Committed R u r
        → Committed {E = MfaError} {A = Outcome}
            (λ _. R s')
            s
            (elim r [ ok (x, t) ↦ ok (accepted x, t) | err e ↦ err e ])
    completed (ok (x, t)) p = k.preorder.joined s' u t q p
    completed (err e) p = tt

-- What a verification commits is what the acceptance commits.
accepted_by :
    (R : Store → Store → Type 0) (v : Env) (d : Draws) (a : Attempt) (s s' t : Store)
    (x : Inspection) (y : Outcome)
    → inspected v a s ≡ ok x
    → is_refused x.factor ≡ false
    → Committed (λ _. R s') s (accept v d x.challenge x.factor a.input a.session_id a.later s)
    → attempted v d a s ≡ ok (y, t)
    → R s' t
unfolding verify
accepted_by R v d a s s' t x y e h k out =
    let chosen =
      subst (λ r. (from_result r >>=' decide v d a.input a.session_id a.later) s ≡ ok (y, t)) e
        out in
    let taken =
      subst
        (λ b.
          (if b
              then reject x.challenge a.session_id a.later
              else accept v d x.challenge x.factor a.input a.session_id a.later)
            s
          ≡ ok (y, t))
        h chosen in
    subst (Committed (λ _. R s') s) taken k

-- A counter that was accepted is the last one of the user.
used_counter :
    (user : ℕ) (n : ℤ) (now : ℕ) (es : List Enrolled)
    → All
        (λ (e : Enrolled). e.user == user ≡ true → e.last_counter ≡ n)
        (update_rows
          (λ e. e.user == user)
          (λ e. record e { last_counter = n; updated_at = now })
          es)
unfolding update_rows
used_counter user n now [] = tt
used_counter user n now (e ∷ es) = (
  if_rule (λ (x : Enrolled). x.user == user ≡ true → x.last_counter ≡ n) (e.user == user)
      (λ _ _. refl) (λ miss h. cc (miss, h)),
  used_counter user n now es,
)

-- A counter that was accepted is the last one of the user afterwards.
pub accepted_counter :
    (v : Env) (d : Draws) (a : Attempt) (s t : Store) (x : Inspection) (y : Outcome) (m : ℤ)
    → inspected v a s ≡ ok x
    → x.factor ≡ counter_match m
    → has_pending x.challenge.purpose ≡ false
    → attempted v d a s ≡ ok (y, t)
    → All (λ (e : Enrolled). e.user == x.challenge.user ≡ true → e.last_counter ≡ m) t.enrollments
unfolding spend use_counter SameEnrollments
accepted_counter v d a s t x y m e f p out =
    subst (All (λ (r : Enrolled). r.user == user ≡ true → r.last_counter ≡ m)) kept
      (used_counter user m a.later s.enrollments)
  where
    user : ℕ
    user = x.challenge.user

    used : List Enrolled
    used =
        update_rows (λ r. r.user == user) (λ r. record r { last_counter = m; updated_at = a.later })
          s.enrollments

    s' : Store
    s' = record s { enrollments = used }

    kept : SameEnrollments s' t
    kept =
        accepted_by SameEnrollments v d a s s' t x y e (ap is_refused f)
          (subst
            (λ g.
              Committed (λ _. SameEnrollments s') s
                (accept v d x.challenge g a.input a.session_id a.later s))
            (sym f)
            (accept-Kept SameEnrollments SameEnrollments-IsKept v d x.challenge (counter_match m)
              a.input a.session_id a.later s s' []
              (λ _. record { clear = λ s. refl; add = λ s h n. refl }) (rw p refl) refl))
          out

-- The codes with a hash are used.
used_recovery :
    (user : ℕ) (hash : String) (now : ℕ) (rs : List RecoveryCode)
    → All
        (λ (r : RecoveryCode).
          r.user == user && str_eq r.code_hash hash ≡ true → is_some r.used_at ≡ true)
        (update_rows
          (λ r. r.user == user && (str_eq r.code_hash hash && not (is_some r.used_at)))
          (λ r. record r { used_at = some now })
          rs)
unfolding update_rows
used_recovery user hash now [] = tt
used_recovery user hash now (r ∷ rs) = (
  if_rule
      (λ (x : RecoveryCode).
        x.user == user && str_eq x.code_hash hash ≡ true → is_some x.used_at ≡ true)
      (r.user == user && (str_eq r.code_hash hash && not (is_some r.used_at))) (λ _ _. refl)
      (λ miss h. ground arith),
  used_recovery user hash now rs,
)

pub not_unused :
    (user : ℕ) (hash : String) (s : Store)
    → All
        (λ (r : RecoveryCode).
          r.user == user && str_eq r.code_hash hash ≡ true → is_some r.used_at ≡ true)
        s.recovery
    → unused (find_recovery user hash s) ≡ false
not_unused user hash s h = elim (Option-cases (find_recovery user hash s)) [
  | inl e ↦ rw e refl
  | inr (r, e) ↦
      let hit = find_row-test _ s.recovery e in
      let seen = (find_row-All _ _ _ e h).1 hit in rw (e, seen) refl
]

-- A recovery code that was accepted is used afterwards.
pub accepted_code :
    (v : Env) (d : Draws) (a : Attempt) (s t : Store) (x : Inspection) (y : Outcome)
    → inspected v a s ≡ ok x
    → x.factor ≡ recovery_match
    → is_regenerate x.challenge.purpose ≡ false
    → attempted v d a s ≡ ok (y, t)
    → All
        (λ (r : RecoveryCode).
          r.user == x.challenge.user
              && str_eq r.code_hash (recovery_hash v x.challenge.user a.input)
            ≡ true
          → is_some r.used_at ≡ true)
        t.recovery
unfolding spend use_recovery SameRecovery
accepted_code v d a s t x y e f g out =
    subst
      (All (λ (r : RecoveryCode).
        r.user == user && str_eq r.code_hash code ≡ true → is_some r.used_at ≡ true))
      kept (used_recovery user code a.later s.recovery)
  where
    user : ℕ
    user = x.challenge.user

    code : String
    code = recovery_hash v user a.input

    used : List RecoveryCode
    used =
        update_rows (λ r. r.user == user && (str_eq r.code_hash code && not (is_some r.used_at)))
          (λ r. record r { used_at = some a.later }) s.recovery

    s' : Store
    s' = record s { recovery = used; audits = (mfa_recovery_used, user) ∷ s.audits }

    no_law : is_regenerate x.challenge.purpose ≡ true → KeptByCodes SameRecovery user
    no_law h = cc (g, h)

    kept : SameRecovery s' t
    kept =
        accepted_by SameRecovery v d a s s' t x y e (ap is_refused f)
          (subst
            (λ q.
              Committed (λ _. SameRecovery s') s
                (accept v d x.challenge q a.input a.session_id a.later s))
            (sym f)
            (accept-Kept SameRecovery SameRecovery-IsKept v d x.challenge recovery_match a.input
              a.session_id a.later s s' [] no_law refl refl))
          out
