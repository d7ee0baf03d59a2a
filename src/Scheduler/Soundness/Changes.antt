-- ===== src/Scheduler/Soundness/Changes.antt =====
-- Creating and changing schedules keeps the check of the cursor.
use dwh_v.Common.{
  ℕ, suc, ◌≡◌, refl, Bool, true, false, not, ◌&&◌, ◌||◌, Option, none, some, List, [], ◌∷◌,
  if◌then◌else◌, ◌==◌, ==_iff, is_some, Result, ok, err, arith, if_rule, option_rule, All, All-mono,
  Ensures, subst, sym, leb, inl, inr, Bool-cases, ◌∙◌,
}
use dwh_v.Common.Tables.{find_row, find_row-test, find_row-All}
use dwh_v.Common.Transactions.{
  Committed, Committed-bind, Keeps, Keeps-bind, Keeps-then, Keeps-check, Keeps-or_fail,
  Keeps-bind_valued, Same-IsPreorder, Valued, Valued-bind, pure, check, or_fail, ◌>>=◌, ◌>>◌,
}
use dwh_v.Scheduler.Definitions.{Definition, Cron, DefinitionError, validate_definition}
use dwh_v.Scheduler.Model.{
  Schedule, Store, SchedulerError, conflict, backlog, archived, no_rows, invalid_definition, Tx,
  Service, lock_schedule, lock_active_occurrence, is_unresolved, semantic_matches, update_schedules,
  update_occurrences,
}
use dwh_v.Scheduler.States.{
  validated_at, with_timezone, next_after_update, update, prepare_enable, apply_enable, enable,
  apply_stop, stop, at_revision, enabled_row, may_be_enabled, stopped_row, discarded_row,
}
use dwh_v.Scheduler.States.Revision.{
  Keyed, Change, updates, enables, stops, apply, Same, validated_at-Same, next_after_update-Same,
}
use dwh_v.Scheduler.Soundness.{
  cursor_ok, Sounds, Sounds-IsPreorder, update_occurrences-Sounds, update_schedules-Sounds,
  rows-Sounds, validate_definition-Next,
}

bind {ℓ μ} :
    {A : Type ℓ} {B : Type μ} (m : Tx A) (f : A → Tx B)
    → Keeps Sounds m
    → ((a : A) → Keeps Sounds (f a))
    → Keeps Sounds (m >>= f)
bind = Keeps-bind Sounds Sounds-IsPreorder

then_ {μ} :
    {B : Type μ} (m : Tx (Unit {0})) (k : Tx B)
    → Keeps Sounds m
    → Keeps Sounds k
    → Keeps Sounds (m >> k)
then_ = Keeps-then Sounds Sounds-IsPreorder

checked : (b : Bool) (e : SchedulerError) → Keeps Sounds (check b e)
checked = Keeps-check Sounds Sounds-IsPreorder

pub validated_at-Sounds :
    (v : Service) (d : Definition) (now : ℕ) → Keeps Sounds (validated_at v d now)
validated_at-Sounds v d now s = go (validate_definition v.rules d now)
  where
    go :
        (r : Result DefinitionError (Definition × Cron))
        → Committed {E = SchedulerError} {A = Definition × Cron} Sounds s
            (elim r [ ok x ↦ ok (x, s) | err e ↦ err invalid_definition ])
    go (ok x) = Sounds-IsPreorder.same s
    go (err e) = tt

pub validated_at-Next :
    (v : Service) (d : Definition) (now : ℕ) (s : Store)
    → Valued (λ (r : Definition × Cron). is_some (r.1 now) ≡ true) (validated_at v d now s)
validated_at-Next v d now s =
    go (validate_definition v.rules d now) (validate_definition-Next v.rules d now)
  where
    go :
        (r : Result DefinitionError (Definition × Cron))
        → Ensures (λ (x : Definition × Cron). is_some (x.1 now) ≡ true) r
        → Valued {S = Store} {E = SchedulerError}
            (λ (x : Definition × Cron). is_some (x.1 now) ≡ true)
            (elim r [ ok x ↦ ok (x, s) | err e ↦ err invalid_definition ])
    go (ok x) h = h
    go (err e) h = tt

-- The schedule that the identity finds is the only one with it.
only_one :
    (id : ℕ) (xs : List Schedule) (x : Schedule)
    → Keyed xs
    → find_row (λ (y : Schedule). y.id == id) xs ≡ some x
    → All (λ (y : Schedule). y.id == id ≡ true → y ≡ x) xs
unfolding find_row
only_one id [] x k e = tt
only_one id (y ∷ ys) x k e = elim (Bool-cases (y.id == id)) [
  | inl hit ↦
      let same : y ≡ x = ground (arith, hit, e) in
      let j = (==_iff y.id id).0 hit in
      (
        (λ _. same),
        All-mono (λ z other own. let q = subst (λ w. z.id == w ≡ false) j other in cc (q, own)) ys
            k.0,
      )
  | inr miss ↦ ((λ own. cc (miss, own)), only_one id ys x k.1 (ground (arith, miss, e)))
]

prepare_enable-Sounds :
    (v : Service) (x : Schedule) (occupied : Bool) (now : ℕ)
    → Keeps Sounds (prepare_enable v x occupied now)
unfolding prepare_enable
prepare_enable-Sounds v x occupied now =
    then_ (check (not (is_some x.archived_at)) archived) free (checked _ _) (
      then_ (check (not occupied) backlog) valid (checked _ _) (
        bind (validated_at v x.definition now) first (validated_at-Sounds v x.definition now)
          (λ r s. Sounds-IsPreorder.same s)))
  where
    first : Definition × Cron → Tx (Option ℕ)
    first r = pure (r.1 now)

    valid : Tx (Option ℕ)
    valid = validated_at v x.definition now >>= first

    free : Tx (Option ℕ)
    free = check (not occupied) backlog >> valid

prepare_enable-Next :
    (v : Service) (x : Schedule) (occupied : Bool) (now : ℕ) (s : Store)
    → Valued (λ (next : Option ℕ). is_some next ≡ true) (prepare_enable v x occupied now s)
unfolding prepare_enable
prepare_enable-Next v x occupied now s =
    Valued-bind P (check (not (is_some x.archived_at)) archived) (λ _. free) s
      (λ _ t.
        Valued-bind P (check (not occupied) backlog) (λ _. valid) t
          (λ _ u.
            go u (validated_at v x.definition now u) (validated_at-Next v x.definition now u)))
  where
    P : Option ℕ → Type 0
    P next = is_some next ≡ true

    first : Definition × Cron → Tx (Option ℕ)
    first r = pure (r.1 now)

    valid : Tx (Option ℕ)
    valid = validated_at v x.definition now >>= first

    free : Tx (Option ℕ)
    free = check (not occupied) backlog >> valid

    go :
        (u : Store) (r : Result SchedulerError ((Definition × Cron) × Store))
        → Valued (λ (y : Definition × Cron). is_some (y.1 now) ≡ true) r
        → Valued {E = SchedulerError} P (elim r as (λ _. Result SchedulerError (Option ℕ × Store)) [
          | ok (y, t) ↦ first y t
          | err e ↦ err e
        ])
    go u (ok (y, t)) h = h
    go u (err e) h = tt

enable-Sounds : (v : Service) (id n now : ℕ) → Keeps Sounds (enable v id n now)
unfolding enable apply_enable cursor_ok
enable-Sounds v id n now s =
    bind (or_fail (lock_schedule id s) no_rows) found (Keeps-or_fail Sounds Sounds-IsPreorder _ _)
      (λ x. then_ (check (x.revision == n) conflict) (ended x) (checked _ _) (
        Keeps-bind_valued Sounds Sounds-IsPreorder (λ (next : Option ℕ). is_some next ≡ true)
          (prepare_enable v x occupied now) (apply_enable x)
          (prepare_enable-Sounds v x occupied now) (prepare_enable-Next v x occupied now)
          (λ next some_next.
            rows-Sounds (may_be_enabled x) (enabled_row next) 1 (λ y. refl)
              (λ y t _. ground (arith, t, some_next)))))
      s
  where
    occupied : Bool
    occupied = is_some (lock_active_occurrence id s)

    ended : Schedule → Tx (Unit {0})
    ended x = prepare_enable v x occupied now >>= apply_enable x

    found : Schedule → Tx (Unit {0})
    found x = check (x.revision == n) conflict >> ended x

stop-Sounds : (v : Service) (id n now : ℕ) (archive : Bool) → Keeps Sounds (stop v id n archive now)
unfolding stop apply_stop cursor_ok
stop-Sounds v id n now archive s =
    bind (or_fail (lock_schedule id s) no_rows) found (Keeps-or_fail Sounds Sounds-IsPreorder _ _)
      (λ x. then_ (check (x.revision == n) conflict) (ended x) (checked _ _) (
        then_ closed (last x)
          (option_rule (Keeps Sounds) (lock_active_occurrence id s)
            (λ _ t. Sounds-IsPreorder.same t) (λ p _. update_occurrences-Sounds _ _ 1))
          (rows-Sounds (at_revision x) (stopped_row archive now) 1 (λ y. refl) (λ y _ _. refl))))
      s
  where
    closed : Tx (Unit {0})
    closed = elim (lock_active_occurrence id s) [
      | none ↦ pure tt
      | some p ↦
          update_occurrences (λ q. q.id == p.id && is_unresolved q.status) (discarded_row now) 1
    ]

    last : Schedule → Tx (Unit {0})
    last x = update_schedules (at_revision x) (stopped_row archive now) 1

    ended : Schedule → Tx (Unit {0})
    ended x = closed >> last x

    found : Schedule → Tx (Unit {0})
    found x = check (x.revision == n) conflict >> ended x

-- The cursor that an update writes fits the schedule.
Fits : Schedule → Cron → ℕ → Option ℕ → Type 0
Fits x cron now next =
    cursor_ok x ≡ true
    → is_some (cron now) ≡ true
    → ((x.enabled ≡ true → is_some next ≡ true) × (x.enabled ≡ false → is_some next ≡ false))

next_after_update-Fits :
    (v : Service) (x : Schedule) (d : Definition) (cron : Cron) (now : ℕ) (s t : Store)
    → Valued (Fits x cron now) (next_after_update v x d cron now s t)
unfolding Fits cursor_ok
next_after_update-Fits v x d cron now s t =
    if_rule (λ (m : Tx (Option ℕ)). Valued (Fits x cron now) (m t))
      (semantic_matches x.definition d)
      (λ _ ok_x has. ((λ on. ground (arith, on, ok_x)), (λ off. ground (arith, off, ok_x))))
      (λ _.
        Valued-bind (Fits x cron now) (check free backlog)
          (λ _. pure (if x.enabled then cron now else x.next_run_at)) t
          (λ _ _ ok_x has. ((λ on. ground (arith, on, has)), (λ off. ground (arith, off, ok_x)))))
  where
    free : Bool
    free = not (
        is_some (lock_active_occurrence x.id s)
        || x.enabled && elim x.next_run_at [ none ↦ false | some z ↦ leb z now ])

-- The last statement of an update.
updated-Sounds :
    (id n now : ℕ) (x : Schedule) (r : Definition × Cron) (next : Option ℕ) (s : Store)
    → lock_schedule id s ≡ some x
    → Fits x r.1 now next
    → is_some (r.1 now) ≡ true
    → Committed Sounds s (
        update_schedules
          (at_revision x)
          (λ y. record y {
            definition = r.0;
            next_run_at = next;
            revision = suc y.revision;
            validation_error = none;
          })
          1
          s)
unfolding Fits cursor_ok
updated-Sounds id n now x r next s e f has =
    update_schedules-Sounds (at_revision x) _ 1 s (λ y. refl)
      (λ h.
        let own = find_row-test _ s.schedules e in
        let x_ok =
          (find_row-All (λ (y : Schedule). cursor_ok y ≡ true) _ s.schedules e h.cursors).1 in
        let fit = f x_ok has in
        All-mono
          (λ y one test.
            let same = one (ground (arith, test, own)) in
            subst
              (λ (z : Schedule).
                cursor_ok (record z {
                  definition = r.0;
                  next_run_at = next;
                  revision = suc z.revision;
                  validation_error = none;
                })
                ≡ true)
              (sym same)
              (elim (Bool-cases x.enabled) [
                | inl on ↦ let q = fit.0 on in ground (arith, on, q, x_ok)
                | inr off ↦ let q = fit.1 off in ground (arith, off, q)
              ]))
          s.schedules (only_one id s.schedules x h.keyed e))

update-Sounds : (v : Service) (id n now : ℕ) (d : Definition) → Keeps Sounds (update v id d n now)
unfolding update Same
update-Sounds v id n now d s = found (lock_schedule id s) refl
  where
    ended : Schedule → Definition × Cron → Option ℕ → Tx (Unit {0})
    ended x r next =
        update_schedules (at_revision x)
          (λ y. record y {
            definition = r.0;
            next_run_at = next;
            revision = suc y.revision;
            validation_error = none;
          })
          1

    valid : Schedule → Definition × Cron → Tx (Unit {0})
    valid x r = next_after_update v x r.0 r.1 now s >>= ended x r

    living : Schedule → Tx (Unit {0})
    living x = validated_at v (with_timezone v d) now >>= valid x

    unarchived : Schedule → Tx (Unit {0})
    unarchived x = check (not (is_some x.archived_at)) archived >> living x

    at_next : Schedule → Tx (Unit {0})
    at_next x = check (x.revision == n) conflict >> unarchived x

    read : (x : Schedule) → lock_schedule id s ≡ some x → Committed Sounds s (at_next x s)
    read x e =
        Committed-bind Same (Sounds s) (check (x.revision == n) conflict) (λ _. unarchived x) s
          (Keeps-check Same Same-IsPreorder _ _ s)
          (λ _ a _ qa.
            Committed-bind Same (Sounds s) (check (not (is_some x.archived_at)) archived)
              (λ _. living x) a (Keeps-check Same Same-IsPreorder _ _ a)
              (λ _ b _ qb.
                Committed-bind Same (Sounds s) (validated_at v (with_timezone v d) now) (valid x) b
                  (validated_at-Same v (with_timezone v d) now b)
                  (λ r c er qc.
                    let has =
                      subst (Valued (λ (y : Definition × Cron). is_some (y.1 now) ≡ true)) er
                        (validated_at-Next v (with_timezone v d) now b) in
                    Committed-bind Same (Sounds s) (next_after_update v x r.0 r.1 now s) (ended x r)
                      c (next_after_update-Same v x r.0 r.1 now s c)
                      (λ next g en qg.
                        let fits =
                          subst (Valued (Fits x r.1 now)) en
                            (next_after_update-Fits v x r.0 r.1 now s c) in
                        subst (λ w. Committed (λ _. Sounds s) w (ended x r next w))
                          (qa ∙ (qb ∙ (qc ∙ qg)))
                          (updated-Sounds id n now x r next s e fits has)))))

    found :
        (o : Option Schedule)
        → lock_schedule id s ≡ o
        → Committed Sounds s ((or_fail o no_rows >>= at_next) s)
    found (some x) e = read x e
    found none e = tt

pub apply-Sounds : (v : Service) (c : Change) (id n now : ℕ) → Keeps Sounds (apply v c id n now)
unfolding apply
apply-Sounds v (updates d) id n now = update-Sounds v id n now d
apply-Sounds v enables id n now = enable-Sounds v id n now
apply-Sounds v (stops archive) id n now = stop-Sounds v id n now archive
