-- ===== src/Mfa/Lifecycle/Refines.antt =====
-- `Verify` and the promise that a challenge is open with a number of failures, or closed for ever.
use dwh_v.Common.{
  ℕ, suc, ◌+◌, ◌<◌, ◌≤◌, ◌≡◌, refl, Bool, true, false, ◌&&◌, String, some, List, [], ◌∷◌,
  if◌then◌else◌, ◌==◌, is_some, Result, ok, err, arith, if_rule, ltb, inl, inr, Bool-cases, subst,
  sym, ap, ◌∙◌,
}
use dwh_v.Common.Tables.{update_rows, All-keep, find_row-All}
use dwh_v.Common.{Ensures}
use dwh_v.Common.Transactions.{Committed}
use dwh_v.Mfa.Totp.{max_failures}
use dwh_v.Mfa.Model.{
  Challenge, Store, Env, Draws, MfaError, Verified, Outcome, accepted, Tx, mfa_failed,
  mfa_exhausted,
}
use dwh_v.Mfa.Challenges.{find_challenge}
use dwh_v.Mfa.Inspection.{Factor, Inspection}
use dwh_v.Mfa.Inspection.Facts.{Attempt, inspected, Facts, inspect-Facts}
use dwh_v.Mfa.Verify.{
  reject, fail_store, fail_challenge, consume, spend, complete, accept, decide, is_refused,
}
use dwh_v.Mfa.Lifecycle.{
  Spec, waiting, closed, Event, unrelated, failed, failed_last, passed, allowed, view,
  outcome_event, wrong_event, judged_event, settle,
}
use dwh_v.Mfa.Lifecycle.Preserves.{Represents, Preserves}
use dwh_v.Mfa.Lifecycle.Writes.{spend-Preserves, complete-Preserves}

-- Where a challenge can be after an event: what the promise allows, represented by the rows.
pub record Reached (i : ℕ) (a : Spec) (e : Event) (t : Store) : Type 0 where
  pub after : Spec
  pub is_allowed : allowed e a ≡ some after
  pub represented : Represents t.challenges i after

pub unrelated-Reached :
    (i : ℕ) (a : Spec) (t : Store) → Represents t.challenges i a → Reached i a unrelated t
unfolding allowed
unrelated-Reached i a t h = record { after = a; is_allowed = refl; represented = h }

-- After an update of the row `id`, that changes rows to a state, it is in that state and the others are as before.
updated :
    (id : ℕ) (change : Challenge → Challenge) (b : Spec) (cs : List Challenge) (i : ℕ) (a : Spec)
    → ((c : Challenge) → view (change c) ≡ b)
    → ((c : Challenge) → (change c).id ≡ c.id)
    → Represents cs i a
    → Represents (update_rows (λ c. c.id == id) change cs) i (if id == i then b else a)
unfolding update_rows
updated id change b [] i a f g h = tt
updated id change b (c ∷ cs) i a f g h = (
  if_rule (λ (x : Challenge). x.id == i ≡ true → view x ≡ (if id == i then b else a)) (c.id == id)
      (λ hit same. let e : id == i ≡ true = ground (arith, g c) in rw e (f c))
      (λ miss same. let e : id == i ≡ false = ground arith in rw e (h.0 same)),
  updated id change b cs i a f g h.1,
)

-- A challenge of which a code was judged: it stood in the table, and was open.
pub record Judged (hash : String) (s : Store) (c : Challenge) : Type 0 where
  pub found : find_challenge hash s ≡ some c
  pub unconsumed : is_some c.consumed_at ≡ false
  pub below : c.failures < max_failures

pub inspect-Judged :
    (v : Env) (b : Attempt) (s : Store)
    → Ensures (λ (i : Inspection). Judged (v.sha256 b.token) s i.challenge) (inspected v b s)
inspect-Judged v b s = go (inspected v b s) (inspect-Facts v b s)
  where
    go :
        (r : Result MfaError Inspection)
        → Ensures (Facts v b s) r
        → Ensures (λ (i : Inspection). Judged (v.sha256 b.token) s i.challenge) r
    go (ok i) f = record {
      found = f.found;
      unconsumed = ground (arith, f.usable);
      below = ground (arith, f.usable);
    }
    go (err e) f = tt

-- A step: the event is allowed and leads to what the rows show, and no identity is used again.
pub record Steps (i : ℕ) (a : Spec) (e : Event) (s t : Store) : Type 0 where
  pub grows : s.next_challenge ≤ t.next_challenge
  pub reached : Reached i a e t

-- What the result of a judgement is for a challenge.
abbrev pub Concludes : Store → ℕ → Spec → Challenge → Result MfaError (Outcome × Store) → Type 0
Concludes s i a c (ok (o, t)) =
    Steps i a (if c.id == i then outcome_event (ok (o, t)) else unrelated) s t
Concludes s i a c (err e) = Unit

-- From the state of the judged challenge the event leads on; every other challenge stays as it is.
concluded :
    (i : ℕ) (a b : Spec) (c : Challenge) (e : Event) (s t : Store)
    → s.next_challenge ≤ t.next_challenge
    → (c.id == i ≡ true → a ≡ waiting c.failures)
    → allowed e (waiting c.failures) ≡ some b
    → Represents t.challenges i (if c.id == i then b else a)
    → Steps i a (if c.id == i then e else unrelated) s t
unfolding allowed
concluded i a b c e s t l same step h = record { grows = l; reached = reached }
  where
    reached : Reached i a (if c.id == i then e else unrelated) t
    reached = elim (Bool-cases (c.id == i)) [
      | inl hit ↦ record {
        after = b;
        is_allowed = rw (hit, same hit) step;
        represented = subst (λ x. Represents t.challenges i (if x then b else a)) hit h;
      }
      | inr miss ↦ record {
        after = a;
        is_allowed = rw miss refl;
        represented = subst (λ x. Represents t.challenges i (if x then b else a)) miss h;
      }
    ]

Judged-waiting :
    (hash : String) (s : Store) (c : Challenge) (i : ℕ) (a : Spec)
    → Judged hash s c
    → Represents s.challenges i a
    → c.id == i ≡ true
    → a ≡ waiting c.failures
Judged-waiting hash s c i a j h hit =
    let seen = (find_row-All _ _ s.challenges j.found h).1 hit in
    let still : view c ≡ waiting c.failures = rw j.unconsumed refl in sym seen ∙ still

-- What a wrong code leads to.
abbrev after_failure : ℕ → Spec
after_failure k = if k + 1 == max_failures then closed else waiting (k + 1)

fail_challenge-view :
    (k now : ℕ) (c : Challenge) → view (fail_challenge (k + 1) now c) ≡ after_failure k
fail_challenge-view k now c = elim (Bool-cases (k + 1 == max_failures)) [
  | inl hit ↦ rw hit refl
  | inr miss ↦ rw miss refl
]

fail_store-Represents :
    (c : Challenge) (session_id now : ℕ) (s : Store) (i : ℕ) (a : Spec)
    → Represents s.challenges i a
    → Represents
        (fail_store c session_id now s).challenges
        i
        (if c.id == i then after_failure c.failures else a)
fail_store-Represents c session_id now s i a h =
    if_rule
      (λ (t : Store). Represents t.challenges i (if c.id == i then after_failure c.failures else a))
      (c.failures + 1 == max_failures && is_some c.session) (λ _. All-keep _ _ _ counted)
      (λ _. counted)
  where
    counted :
        Represents
          (update_rows (λ d. d.id == c.id) (fail_challenge (c.failures + 1) now) s.challenges)
          i
          (if c.id == i then after_failure c.failures else a)
    counted =
        updated c.id (fail_challenge (c.failures + 1) now) (after_failure c.failures) s.challenges i
          a (fail_challenge-view c.failures now) (λ d. refl) h

reject-Steps :
    (hash : String) (c : Challenge) (session_id now : ℕ) (s : Store) (i : ℕ) (a : Spec)
    → Judged hash s c
    → Represents s.challenges i a
    → Steps i a
        (if c.id == i then wrong_event c else unrelated)
        s
        (settle s (reject c session_id now s))
unfolding reject allowed
reject-Steps hash c session_id now s i a j h =
    if_rule
      (λ (m : Tx Outcome).
        Steps i a (if c.id == i then wrong_event c else unrelated) s (settle s (m t)))
      (c.failures + 1 == max_failures)
      (λ hit.
        let e : suc c.failures == max_failures ≡ true = ground arith in
        subst
          (λ b.
            Steps i a (if c.id == i then (if b then failed_last else failed) else unrelated) s
              (record t { audits = (mfa_exhausted, c.user) ∷ t.audits }))
          (sym e)
          (concluded i a (after_failure c.failures) c failed_last s _ grows same (rw (hit, e) refl)
            represented))
      (λ miss.
        let f : suc c.failures == max_failures ≡ false = ground arith in
        let e : ltb (suc c.failures) max_failures ≡ true = ground (arith, j.below) in
        subst
          (λ b.
            Steps i a (if c.id == i then (if b then failed_last else failed) else unrelated) s t)
          (sym f)
          (concluded i a (after_failure c.failures) c failed s _ grows same
            (rw (miss, e) (ap (λ x. some (waiting x)) (omega arith))) represented))
  where
    t : Store
    t =
        let u = fail_store c session_id now s in
        record u { audits = (mfa_failed, c.user) ∷ u.audits }

    same : c.id == i ≡ true → a ≡ waiting c.failures
    same = Judged-waiting hash s c i a j h

    grows : s.next_challenge ≤ (fail_store c session_id now s).next_challenge
    grows =
        if_rule (λ (u : Store). s.next_challenge ≤ u.next_challenge)
          (c.failures + 1 == max_failures && is_some c.session) (λ _. omega arith)
          (λ _. omega arith)

    represented :
        Represents
          (fail_store c session_id now s).challenges
          i
          (if c.id == i then after_failure c.failures else a)
    represented = fail_store-Represents c session_id now s i a h

accept-Concludes :
    (v : Env) (d : Draws) (hash : String) (c : Challenge) (f : Factor) (input : String)
    (session_id now : ℕ) (s : Store) (i : ℕ) (a : Spec)
    → Judged hash s c
    → Represents s.challenges i a
    → i < s.next_challenge
    → Concludes s i a c (accept v d c f input session_id now s)
unfolding allowed
accept-Concludes v d hash c f input session_id now s i a j h l =
    spent (spend v d c input f now s) (spend-Preserves v d c input f now s)
  where
    step : allowed passed (waiting c.failures) ≡ some closed
    step = let e : ltb c.failures max_failures ≡ true = ground (arith, j.below) in rw e refl

    completed :
        (s' : Store)
        → Represents s'.challenges i (if c.id == i then closed else a)
        → i < s'.next_challenge
        → s.next_challenge ≤ s'.next_challenge
        → (r : Result MfaError (Verified × Store)) → Committed Preserves s' r
        → Concludes s i a c (elim r [ ok (x, t) ↦ ok (accepted x, t) | err e ↦ err e ])
    completed s' k m g (ok (x, t)) p =
        concluded i a closed c passed s t (omega (arith, p.grows, g))
          (Judged-waiting hash s c i a j h) step (p.keeps i _ m k)
    completed s' k m g (err e) p = tt

    used : List String → Store → Result MfaError (Outcome × Store)
    used codes s' = elim (complete v d c session_id codes now (consume c.id now s')) [
      | ok (x, t) ↦ ok (accepted x, t)
      | err e ↦ err e
    ]

    spent :
        (r : Result MfaError (List String × Store))
        → Committed Preserves s r
        → Concludes s i a c (elim r [ ok (codes, s') ↦ used codes s' | err e ↦ err e ])
    spent (ok (codes, s')) p =
        completed (consume c.id now s')
          (updated c.id _ closed s'.challenges i a (λ x. refl) (λ x. refl) (p.keeps i a l h))
          (omega (arith, l, p.grows)) p.grows
          (complete v d c session_id codes now (consume c.id now s'))
          (complete-Preserves v d c session_id codes now (consume c.id now s'))
    spent (err e) p = tt

-- An acceptance that fails is rolled back.
accepted_step :
    (s : Store) (i : ℕ) (a : Spec) (c : Challenge) (r : Result MfaError (Outcome × Store))
    → Represents s.challenges i a
    → Concludes s i a c r
    → Steps i a (if c.id == i then outcome_event r else unrelated) s (settle s r)
accepted_step s i a c (ok (o, t)) h k = k
accepted_step s i a c (err e) h k =
    if_rule (λ x. Steps i a x s s) (c.id == i) (λ _. stays) (λ _. stays)
  where
    stays : Steps i a unrelated s s
    stays = record { grows = omega arith; reached = unrelated-Reached i a s h }

pub decide-Steps :
    (v : Env) (d : Draws) (hash input : String) (session_id now : ℕ) (x : Inspection) (s : Store)
    (i : ℕ) (a : Spec)
    → Judged hash s x.challenge
    → Represents s.challenges i a
    → i < s.next_challenge
    → Steps i a
        (if x.challenge.id == i
          then judged_event x (decide v d input session_id now x s)
          else unrelated)
        s
        (settle s (decide v d input session_id now x s))
decide-Steps v d hash input session_id now x s i a j h l = step (is_refused x.factor)
  where
    c : Challenge
    c = x.challenge

    chosen : Bool → Tx Outcome
    chosen b = if b then reject c session_id now else accept v d c x.factor input session_id now

    step :
        (b : Bool)
        → Steps i a
            (if c.id == i
              then (if b then wrong_event c else outcome_event (chosen b s))
              else unrelated)
            s
            (settle s (chosen b s))
    step true = reject-Steps hash c session_id now s i a j h
    step false =
        accepted_step s i a c (accept v d c x.factor input session_id now s) h
          (accept-Concludes v d hash c x.factor input session_id now s i a j h l)
