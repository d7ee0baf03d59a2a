-- ===== src/Scheduler/Soundness/Creation.antt =====
-- internal/scheduler/service.go: creating schedules, one or many, keeps the check of the cursor.
use dwh_v.Common.{
  ℕ, ◌<◌, ◌≡◌, refl, Bool, true, false, Option, none, some, List, [], ◌∷◌, if◌then◌else◌, ◌==◌,
  is_some, Result, ok, err, All-mono, arith, if_rule, Bool-cases, inl, inr, ==_iff,
}
use dwh_v.Common.Transactions.{
  Committed, Keeps, Keeps-bind, pure, Keeps-bind_valued, or_fail, ◌>>=◌,
}
use dwh_v.Scheduler.Definitions.{Definition, Cron}
use dwh_v.Scheduler.Model.{Schedule, Store, SchedulerError, invalid_definition, Tx, Service}
use dwh_v.Scheduler.States.{validated_at, with_timezone, create, insert_schedule, new_schedule}
use dwh_v.Common.{Ensures, Ensures-bind, Ensures-guard, keep, not, String, All, subst}
use dwh_v.Common.{◌>>=◌ as bind_result}
use dwh_v.Scheduler.Many.{
  Input, Prepared, prepared, prepare_create, prepare_all, first_run, valid_input, agrees, selected,
  first_of, schedulable, same_slot, Many, insert_missing, joined, insert_each, create_many,
  none_given,
}
use dwh_v.Scheduler.Soundness.{cursor_ok, Sounds, Sounds-IsPreorder}
use dwh_v.Scheduler.Soundness.Changes.{validated_at-Sounds, validated_at-Next}

pub insert_schedule-Sounds :
    (d : Definition) (enabled : Bool) (next actor : Option ℕ)
    → ((id : ℕ) → cursor_ok (new_schedule d enabled next actor id) ≡ true)
    → Keeps Sounds (insert_schedule d enabled next actor)
unfolding Sounds
insert_schedule-Sounds d enabled next actor c s h = record {
  cursors = (c s.next_schedule, h.cursors);
  keyed = (All-mono (λ y l. smaller y.id l) s.schedules h.below, h.keyed);
  below = (omega arith, All-mono (λ y l. omega (arith, l)) s.schedules h.below);
}
  where
    smaller : (i : ℕ) → i < s.next_schedule → i == s.next_schedule ≡ false
    smaller i l = elim (Bool-cases (i == s.next_schedule)) [
      | inl t ↦ let e = (==_iff i s.next_schedule).0 t in ground (arith, e, l, t)
      | inr f ↦ f
    ]

pub create-Sounds :
    (v : Service) (d : Definition) (enabled : Bool) (actor : Option ℕ) (now : ℕ)
    → Keeps Sounds (create v d enabled actor now)
unfolding create cursor_ok
create-Sounds v d enabled actor now =
    Keeps-bind_valued Sounds Sounds-IsPreorder (λ (r : Definition × Cron). is_some (r.1 now) ≡ true)
      (validated_at v (with_timezone v d) now) inserted
      (validated_at-Sounds v (with_timezone v d) now) (validated_at-Next v (with_timezone v d) now)
      (λ r h s.
        if_rule (λ (m : Tx Schedule). Committed Sounds s (m s)) enabled (λ _. at_once r (r.1 now) s)
          (λ _. insert_schedule-Sounds r.0 false none actor (λ id. refl) s))
  where
    first : Definition × Cron → Option ℕ → Tx Schedule
    first r o = or_fail o invalid_definition >>= λ t. insert_schedule r.0 true (some t) actor

    inserted : Definition × Cron → Tx Schedule
    inserted r = if enabled then first r (r.1 now) else insert_schedule r.0 false none actor

    at_once : (r : Definition × Cron) (o : Option ℕ) → Keeps Sounds (first r o)
    at_once r (some t) s = insert_schedule-Sounds r.0 true (some t) actor (λ id. refl) s
    at_once r none s = tt

-- What is inserted satisfies the check.
abbrev Ready : Prepared → Type 0
Ready p = (id : ℕ) → cursor_ok (new_schedule p.definition p.enabled p.next p.actor id) ≡ true

prepare_create-Ready : (v : Service) (i : Input) (now : ℕ) → Ensures Ready (prepare_create v i now)
unfolding prepare_create cursor_ok
prepare_create-Ready v i now =
    Ensures-bind P (valid_input v i now)
      (λ r. bind_result (first_run i.enabled (r.1 now)) (λ n. ok (prepared i r.0 n)))
      (λ r _.
        Ensures-bind P (first_run i.enabled (r.1 now)) (λ n. ok (prepared i r.0 n))
          (λ n e. ready i.enabled (r.1 now) n r.0 e))
  where
    P : Prepared → Type 0
    P p = (id : ℕ) → cursor_ok (new_schedule p.definition p.enabled p.next p.actor id) ≡ true

    ready :
        (b : Bool) (o n : Option ℕ) (d : Definition)
        → first_run b o ≡ ok n
        → (id : ℕ) → cursor_ok (new_schedule d b n i.actor id) ≡ true
    ready true (some t) (some u) d e id = refl
    ready true (some t) none d e id = cc
    ready true none n d e id = cc
    ready false o none d e id = refl
    ready false o (some u) d e id = cc

prepare_all-Ready :
    (v : Service) (now : ℕ) (first : Option Prepared) (seen : List String) (is : List Input)
    → Ensures (All Ready) (prepare_all v now first seen is)
unfolding prepare_all
prepare_all-Ready v now first seen [] = tt
prepare_all-Ready v now first seen (i ∷ is) =
    Ensures-bind (All Ready) (prepare_create v i now) _ (λ p e.
      Ensures-guard (All Ready) (not (selected p.definition.job_key seen)) invalid_definition _
        (λ _. Ensures-guard (All Ready) (agrees first p) invalid_definition _ (λ _.
          Ensures-bind (All Ready)
            (prepare_all v now (some (first_of first p)) (p.definition.job_key ∷ seen) is) _
            (λ ps es. (
              subst (Ensures Ready) e (prepare_create-Ready v i now),
              subst (Ensures (All Ready)) es (
                  prepare_all-Ready v now (some (first_of first p)) (p.definition.job_key ∷ seen)
                    is),
            )))))

insert_missing-Sounds :
    (p : Prepared) (ys : List Schedule) → Ready p → Keeps Sounds (insert_missing p ys)
insert_missing-Sounds p (y ∷ ys) h s = Sounds-IsPreorder.same s
insert_missing-Sounds p [] h s = insert_schedule-Sounds p.definition p.enabled p.next p.actor h s

insert_each-Sounds : (ps : List Prepared) → All Ready ps → Keeps Sounds (insert_each ps)
unfolding insert_each
insert_each-Sounds [] h = λ s. Sounds-IsPreorder.same s
insert_each-Sounds (p ∷ ps) h =
    Keeps-bind Sounds Sounds-IsPreorder (λ s. insert_missing p (keep (same_slot p) s.schedules) s)
      rest (λ s. insert_missing-Sounds p (keep (same_slot p) s.schedules) h.0 s)
      (λ one.
        Keeps-bind Sounds Sounds-IsPreorder (insert_each ps) (λ more. pure (joined one more))
          (insert_each-Sounds ps h.1) (λ more s. Sounds-IsPreorder.same s))
  where
    rest : Many → Tx Many
    rest one = insert_each ps >>= λ more. pure (joined one more)

pub create_many-Sounds :
    (v : Service) (inputs : List Input) (now : ℕ) → Keeps Sounds (create_many v inputs now)
unfolding create_many
create_many-Sounds v inputs now s =
    if_rule Q (none_given inputs) (λ _. tt)
      (λ _. begun (prepare_all v now none [] inputs) (prepare_all-Ready v now none [] inputs))
  where
    Q : Result SchedulerError (Many × Store) → Type 0
    Q = Committed Sounds s

    begun :
        (r : Result SchedulerError (List Prepared))
        → Ensures (All Ready) r
        → Committed Sounds s (elim r as (λ _. Result SchedulerError (Many × Store)) [
          | err e ↦ err e
          | ok ps ↦
              if schedulable s.runs.sources ps then insert_each ps s else err invalid_definition
        ])
    begun (err e) h = tt
    begun (ok ps) h =
        if_rule Q (schedulable s.runs.sources ps) (λ _. insert_each-Sounds ps h s) (λ _. tt)
