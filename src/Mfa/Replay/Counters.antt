-- ===== src/Mfa/Replay/Counters.antt =====
-- internal/mfa/store.go: in every history, the last counter of a user only grows, until the user has a new secret.
use dwh_v.Common.{
  ℕ, ◌≡◌, refl, true, false, String, List, ◌==◌, is_some, Result, ok, Ensures, All, All-mono, arith,
  if_rule, inl, inr, Bool-cases, subst, sym, ap, ◌∙◌, ==_iff,
}
use dwh_v.Common.Tables.{update_rows, All-update_rows, All-keep, find_row-All, find_row-test}
use dwh_v.Common.Transactions.{Committed, Keeps}
use dwh_v.Mfa.Totp.{ℤ, pos, negsuc, less}
use dwh_v.Mfa.Model.{
  Purpose, login, enrollment, step_up, rotation, rotate_authorize, regenerate, Enrolled, Store, Env,
  Draws, MfaError, Outcome,
}
use dwh_v.Mfa.Challenges.{has_pending, find_challenge}
use dwh_v.Mfa.Inspection.{
  Factor, refused, counter_match, recovery_match, Inspection, find_enrollment,
}
use dwh_v.Mfa.Inspection.Facts.{Attempt, inspected, Facts, inspect-Facts}
use dwh_v.Mfa.Verify.{is_refused, spend, enroll, use_counter, use_recovery, verify}
use dwh_v.Mfa.Kept.{KeptByCodes}
use dwh_v.Mfa.Kept.Completion.{activate-Kept}
use dwh_v.Mfa.Kept.Credentials.{
  is_of, NeverRenews, IsCredential, Credential-IsKept, verify-Kept, performs-Kept,
}
use dwh_v.Mfa.Lifecycle.{Operation, performs}
use dwh_v.Mfa.Replay.{attempted, Active, Shown, inspected-Shown, accepted_counter}

-- The user's last counter is at least `m`.
abbrev IsLate : ℕ → ℤ → Enrolled → Type 0
IsLate user m e = e.user == user ≡ true → less e.last_counter m ≡ false

abbrev Floor : ℕ → ℤ → Store → Type 0
Floor user m s = All (IsLate user m) s.enrollments

KeepsFloor : ℕ → ℤ → Store → Store → Type 0
KeepsFloor user m s t = Floor user m s → Floor user m t

not_less : (l n m : ℤ) → less l n ≡ true → less l m ≡ false → less n m ≡ false
not_less (pos l) (pos n) (pos m) p q = ground (arith, p, q)
not_less (pos l) (pos n) (negsuc m) p q = refl
not_less (pos l) (negsuc n) (pos m) p q = cc p
not_less (pos l) (negsuc n) (negsuc m) p q = cc p
not_less (negsuc l) (pos n) (pos m) p q = cc q
not_less (negsuc l) (negsuc n) (pos m) p q = cc q
not_less (negsuc l) (pos n) (negsuc m) p q = refl
not_less (negsuc l) (negsuc n) (negsuc m) p q = ground (arith, p, q)

less_again : (l n m : ℤ) → less l n ≡ true → less l m ≡ false → less m n ≡ true
less_again (pos l) (pos n) (pos m) p q = ground (arith, p, q)
less_again (pos l) (pos n) (negsuc m) p q = refl
less_again (pos l) (negsuc n) (pos m) p q = cc p
less_again (pos l) (negsuc n) (negsuc m) p q = cc p
less_again (negsuc l) (pos n) (pos m) p q = cc q
less_again (negsuc l) (negsuc n) (pos m) p q = cc q
less_again (negsuc l) (pos n) (negsuc m) p q = refl
less_again (negsuc l) (negsuc n) (negsuc m) p q = ground (arith, p, q)

less_self : (m : ℤ) → less m m ≡ false
less_self (pos m) = ground arith
less_self (negsuc m) = ground arith

KeepsFloor-IsCredential : (user : ℕ) (m : ℤ) → IsCredential (KeepsFloor user m)
unfolding KeepsFloor
KeepsFloor-IsCredential user m = record {
  preorder = record { same = λ s h. h; joined = λ s t u p q h. q (p h) };
  same = λ s t e _ h. subst (All (IsLate user m)) e h;
  removal = λ s gone h. All-keep _ _ _ h;
}

-- The secret of another user.
enroll-KeepsFloor :
    (user : ℕ) (m : ℤ) (p : Purpose) (other : ℕ) (secret : String) (n : ℤ) (now : ℕ)
    → other == user ≡ false
    → Keeps (KeepsFloor user m) (enroll p other secret n now)
unfolding KeepsFloor
enroll-KeepsFloor user m p other secret n now d s = go p
  where
    R : Store → Store → Type 0
    R a b = Floor user m a → Floor user m b

    change : Enrolled → Enrolled
    change e = record e { secret = secret; last_counter = n; updated_at = now }

    changed :
        Floor user m s
        → All (IsLate user m) (update_rows (λ e. e.user == other) change s.enrollments)
    changed h =
        All-update_rows (IsLate user m) (λ e. e.user == other) change s.enrollments
          (λ e hit _ own.
            let j : e.user ≡ other = (==_iff e.user other).0 hit in
            let same : other == user ≡ true = subst (λ u. u == user ≡ true) j own in cc (same, d))
          h

    go : (q : Purpose) → Committed R s (enroll q other secret n now s)
    go enrollment =
        if_rule (λ (r : Result MfaError (Unit {0} × Store)). Committed R s r)
          (is_some (find_enrollment other s)) (λ _. tt) (λ _ h. ((λ own. cc (own, d)), h))
    go login = changed
    go step_up = changed
    go rotation = changed
    go rotate_authorize = changed
    go regenerate = changed

verify-KeepsFloor :
    (user : ℕ) (m : ℤ) (v : Env) (d : Draws) (a : Attempt) (s : Store)
    → is_of has_pending user (find_challenge (v.sha256 a.token) s) ≡ false
    → Committed
        (KeepsFloor user m)
        s
        (verify v d a.token a.input a.session_id a.password_hash a.now a.later s)
unfolding KeepsFloor spend use_counter use_recovery
verify-KeepsFloor user m v d a s quiet =
    verify-Kept R (KeepsFloor-IsCredential user m) v d a s
      (λ x e h. ((λ _. free x.challenge.user), used x e h x.factor refl))
  where
    R : Store → Store → Type 0
    R = KeepsFloor user m

    free : (u : ℕ) → KeptByCodes R u
    free u = record { clear = λ s h. h; add = λ s hash now h. h }

    other :
        (x : Inspection)
        → inspected v a s ≡ ok x
        → has_pending x.challenge.purpose ≡ true
        → x.challenge.user == user ≡ false
    other x e p =
        let f = subst (Ensures (Facts v a s)) e (inspect-Facts v a s) in
        let q = subst (λ o. is_of has_pending user o ≡ false) f.found quiet in ground (arith, p, q)

    later :
        (x : Inspection) (n : ℤ)
        → Active v x.challenge.user a.input a.later s n
        → Floor user m s
        → All (IsLate user m) (
            update_rows
              (λ e. e.user == x.challenge.user)
              (λ e. record e { last_counter = n; updated_at = a.later })
              s.enrollments)
    later x n shown k =
        All-update_rows (IsLate user m) (λ e. e.user == x.challenge.user)
          (λ e. record e { last_counter = n; updated_at = a.later }) s.enrollments
          (λ e hit _ own.
            let i : e.user ≡ x.challenge.user = (==_iff e.user x.challenge.user).0 hit in
            let mine : shown.row.user == x.challenge.user ≡ true =
              find_row-test _ s.enrollments shown.found in
            let j : shown.row.user ≡ x.challenge.user =
              (==_iff shown.row.user x.challenge.user).0 mine in
            let same : shown.row.user == user ≡ true =
              subst (λ u. u == user ≡ true) (i ∙ sym j) own in
            not_less shown.row.last_counter n m shown.later
              ((find_row-All _ _ _ shown.found k).1 same))
          k

    used :
        (x : Inspection)
        → inspected v a s ≡ ok x
        → is_refused x.factor ≡ false
        → (g : Factor) → x.factor ≡ g
        → Committed R s (spend v d x.challenge a.input g a.later s)
    used x e h refused f = λ k. k
    used x e h recovery_match f = λ k. k
    used x e h (counter_match n) f = elim (Bool-cases (has_pending x.challenge.purpose)) [
      | inl p ↦ rw p (
          activate-Kept R (Credential-IsKept R (KeepsFloor-IsCredential user m)) v d x.challenge n
            a.later (free x.challenge.user)
            (λ y.
              enroll-KeepsFloor user m x.challenge.purpose x.challenge.user y n a.later
                (other x e p))
            s)
      | inr p ↦
          let shown =
            subst (Shown v x.challenge.user a.input a.later s) f (inspected-Shown v a s x e p h) in
          rw p (later x n shown)
    ]

-- After a user's code was accepted for a counter, and however many operations later, the counter of the user's next
-- code that is accepted comes later: no code is accepted for the same counter or an earlier one, as long as no
-- challenge of the user that brings a new secret (an enrollment or a rotation) is verified.
pub codes_not_replayed :
    (v : Env) (d : Draws) (a b : Attempt) (os : List Operation) (s t : Store) (x z : Inspection)
    (y : Outcome) (m n : ℤ)
    → inspected v a s ≡ ok x
    → x.factor ≡ counter_match m
    → has_pending x.challenge.purpose ≡ false
    → attempted v d a s ≡ ok (y, t)
    → NeverRenews has_pending v x.challenge.user os t
    → inspected v b (performs v os t) ≡ ok z
    → z.factor ≡ counter_match n
    → has_pending z.challenge.purpose ≡ false
    → z.challenge.user ≡ x.challenge.user
    → less m n ≡ true
unfolding KeepsFloor
codes_not_replayed v d a b os s t x z y m n e f p out quiet e' f' p' same =
    less_again next.row.last_counter n m next.later
      ((find_row-All _ _ _ next.found reached).1 (subst (λ u. next.row.user == u ≡ true) same mine))
  where
    user : ℕ
    user = x.challenge.user

    start : Floor user m t
    start =
        All-mono (λ r own hit. subst (λ i. less i m ≡ false) (sym (own hit)) (less_self m))
          t.enrollments (accepted_counter v d a s t x y m e f p out)

    reached : Floor user m (performs v os t)
    reached =
        performs-Kept (KeepsFloor user m) (KeepsFloor-IsCredential user m) has_pending v user
          (verify-KeepsFloor user m v) os t quiet start

    next : Active v z.challenge.user b.input b.later (performs v os t) n
    next =
        subst (Shown v z.challenge.user b.input b.later (performs v os t)) f'
          (inspected-Shown v b (performs v os t) z e' p' (ap is_refused f'))

    mine : next.row.user == z.challenge.user ≡ true
    mine = find_row-test _ (performs v os t).enrollments next.found
