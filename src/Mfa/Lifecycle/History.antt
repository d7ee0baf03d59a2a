-- ===== src/Mfa/Lifecycle/History.antt =====
-- Every history of the operations of internal/mfa/store.go, as one challenge sees it.
use dwh_v.Common.{
  ℕ, suc, ◌+◌, ◌-◌, ◌<◌, ◌≤◌, ◌≡◌, refl, Bool, true, false, String, some, List, [], ◌∷◌,
  if◌then◌else◌, ◌==◌, Result, ok, err, arith, ltb, if_some, count_if, subst, Ensures,
}
use dwh_v.Common.Transactions.{Committed, ◌>>=◌}
use dwh_v.Mfa.Totp.{max_failures}
use dwh_v.Mfa.Model.{Store, Env, Draws, MfaError, Outcome}
use dwh_v.Mfa.Inspection.{Inspection, inspect}
use dwh_v.Mfa.Inspection.Facts.{Attempt}
use dwh_v.Mfa.Verify.{verify, decide, from_result}
use dwh_v.Mfa.Lifecycle.{
  Operation, logs_in, authenticates, verifies, resets, expires, settle, perform, Event, unrelated,
  failed, failed_last, passed, event_for, event, Spec, waiting, closed, allowed, events,
}
use dwh_v.Mfa.Kept.{begin_login-Kept, begin_authenticated-Kept}
use dwh_v.Mfa.Kept.Removal.{KeptByRemoval, reset-Kept, delete_expired-Kept}
use dwh_v.Mfa.Lifecycle.Preserves.{Represents, Preserves, Preserves-elsewhere, Preserves-IsKept}
use dwh_v.Mfa.Lifecycle.Refines.{
  Reached, unrelated-Reached, Judged, inspect-Judged, decide-Steps, Steps,
}

unrelated-Steps :
    (i : ℕ) (a : Spec) (s t : Store)
    → i < s.next_challenge
    → Represents s.challenges i a
    → Preserves s t
    → Steps i a unrelated s t
unrelated-Steps i a s t l h p = record {
  grows = p.grows;
  reached = unrelated-Reached i a t (p.keeps i a l h);
}

settled {ℓ} :
    {A : Type ℓ} (s : Store) (r : Result MfaError (A × Store))
    → Committed Preserves s r
    → Preserves s (settle s r)
settled s (ok (a, t)) p = p
settled s (err e) p = Preserves-IsKept.preorder.same s

verify-Steps :
    (v : Env) (d : Draws) (token input : String) (session_id : ℕ) (password_hash : String)
    (now later : ℕ) (s : Store) (i : ℕ) (a : Spec)
    → i < s.next_challenge
    → Represents s.challenges i a
    → Steps i a
        (event_for i
          (inspect v token input session_id password_hash now later s)
          (verify v d token input session_id password_hash now later s))
        s
        (settle s (verify v d token input session_id password_hash now later s))
unfolding verify
verify-Steps v d token input session_id password_hash now later s i a l h =
    go (inspect v token input session_id password_hash now later s) (inspect-Judged v attempt s)
  where
    attempt : Attempt
    attempt = record {
      token = token;
      input = input;
      session_id = session_id;
      password_hash = password_hash;
      now = now;
      later = later;
    }

    result : Result MfaError Inspection → Result MfaError (Outcome × Store)
    result r = (from_result r >>= decide v d input session_id later) s

    go :
        (r : Result MfaError Inspection)
        → Ensures (λ x. Judged (v.sha256 token) s x.challenge) r
        → Steps i a (event_for i r (result r)) s (settle s (result r))
    go (ok x) j = decide-Steps v d (v.sha256 token) input session_id later x s i a j h l
    go (err e) j = record { grows = omega arith; reached = unrelated-Reached i a s h }

by_removal : KeptByRemoval Preserves
by_removal s user = Preserves-elsewhere s _ refl refl

perform-Steps :
    (v : Env) (i : ℕ) (a : Spec) (o : Operation) (s : Store)
    → i < s.next_challenge
    → Represents s.challenges i a
    → Steps i a (event v i o s) s (perform v o s)
unfolding perform event
perform-Steps v i a (logs_in d id password remember next now) s l h =
    unrelated-Steps i a s _ l h (
      settled s _ (begin_login-Kept Preserves Preserves-IsKept v d id password remember next now s))
perform-Steps v i a (authenticates d id session_id p next existing now later) s l h =
    unrelated-Steps i a s _ l h (
      settled s _ (
        begin_authenticated-Kept Preserves Preserves-IsKept v d id session_id p next existing now
          later s))
perform-Steps v i a (verifies d token input session_id password now later) s l h =
    verify-Steps v d token input session_id password now later s i a l h
perform-Steps v i a (resets target actor session_id now later) s l h = unrelated-Steps i a s _ l h (
    settled s _
      (reset-Kept Preserves Preserves-IsKept by_removal v target actor session_id now later s))
perform-Steps v i a (expires now) s l h =
    unrelated-Steps i a s _ l h (delete_expired-Kept Preserves Preserves-IsKept now s)

-- Every operation is, for a challenge that exists, a step that the promise allows: if its rows show the state `a`,
-- the event of the operation leads from `a` to a state that its rows show afterwards. The event of a code that is
-- judged wrong is a failure, whatever its transaction then does; a right code whose transaction fails is no event.
pub challenge_keeps_promise :
    (v : Env) (i : ℕ) (a : Spec) (o : Operation) (s : Store)
    → i < s.next_challenge
    → Represents s.challenges i a
    → Reached i a (event v i o s) (perform v o s)
challenge_keeps_promise v i a o s l h = (perform-Steps v i a o s l h).reached

abbrev pub is_attempt : Event → Bool
is_attempt unrelated = false
is_attempt failed = true
is_attempt failed_last = true
is_attempt passed = true

abbrev pub is_pass : Event → Bool
is_pass unrelated = false
is_pass failed = false
is_pass failed_last = false
is_pass passed = true

-- How many codes may still be judged, and accepted.
abbrev attempts_left : Spec → ℕ
attempts_left (waiting k) = max_failures - k
attempts_left closed = 0

abbrev passes_left : Spec → ℕ
passes_left (waiting k) = 1
passes_left closed = 0

abbrev one_if : Bool → ℕ
one_if b = if b then 1 else 0

allowed-left :
    (e : Event) (a b : Spec)
    → allowed e a ≡ some b
    → (attempts_left b + one_if (is_attempt e) ≤ attempts_left a)
      × (passes_left b + one_if (is_pass e) ≤ passes_left a)
unfolding allowed
allowed-left unrelated a b h = let same : a ≡ b = cc h in rw same (omega arith, omega arith)
allowed-left failed (waiting k) b h =
    let q = if_some (ltb (suc k) max_failures) h in
    subst (λ x. (attempts_left x + 1 ≤ max_failures - k) × (passes_left x + 0 ≤ 1)) q.1
      (ground (arith, q.0), omega arith)
allowed-left failed_last (waiting k) b h =
    let q = if_some (suc k == max_failures) h in
    subst (λ x. (attempts_left x + 1 ≤ max_failures - k) × (passes_left x + 0 ≤ 1)) q.1
      (ground (arith, q.0), omega arith)
allowed-left passed (waiting k) b h =
    let q = if_some (ltb k max_failures) h in
    subst (λ x. (attempts_left x + 1 ≤ max_failures - k) × (passes_left x + 1 ≤ 1)) q.1
      (ground (arith, q.0), omega arith)
allowed-left failed closed b h = cc
allowed-left failed_last closed b h = cc
allowed-left passed closed b h = cc

events-left :
    (v : Env) (i : ℕ) (a : Spec) (os : List Operation) (s : Store)
    → i < s.next_challenge
    → Represents s.challenges i a
    → (count_if is_attempt (events v i os s) ≤ attempts_left a)
      × (count_if is_pass (events v i os s) ≤ passes_left a)
unfolding events
events-left v i a [] s l h = (omega arith, omega arith)
events-left v i a (o ∷ os) s l h =
    let step = perform-Steps v i a o s l h in
    let r = step.reached in
    let rest =
      events-left v i r.after os (perform v o s) (omega (arith, l, step.grows)) r.represented in
    let now = allowed-left (event v i o s) a r.after r.is_allowed in
    (ground (arith, rest.0, now.0), ground (arith, rest.1, now.1))

-- In every history of operations, whatever challenge exists at its start and whatever its state `a`, at most five
-- codes are judged wrong or let the caller in for the challenge, and at most one of them lets the caller in. A code
-- judged wrong counts whatever its transaction then does; a right code whose transaction fails does not count.
pub at_most_five_attempts :
    (v : Env) (i : ℕ) (a : Spec) (os : List Operation) (s : Store)
    → i < s.next_challenge
    → Represents s.challenges i a
    → (count_if is_attempt (events v i os s) ≤ max_failures)
      × (count_if is_pass (events v i os s) ≤ 1)
at_most_five_attempts v i a os s l h =
    let k = events-left v i a os s l h in
    let most = all_left a in (omega (arith, k.0, most.0), omega (arith, k.1, most.1))
  where
    all_left : (x : Spec) → (attempts_left x ≤ max_failures) × (passes_left x ≤ 1)
    all_left (waiting n) = (omega arith, omega arith)
    all_left closed = (omega arith, omega arith)
