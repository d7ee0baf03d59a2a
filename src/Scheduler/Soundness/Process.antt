-- ===== src/Scheduler/Soundness/Process.antt =====
-- The processing of a schedule keeps the check of the cursor.
use dwh_v.Common.{
  ◌/◌, ℕ, suc, ◌+◌, refl, Bool, not, ◌&&◌, String, Option, none, some, if◌then◌else◌, ◌==◌, is_some,
  Result, ok, err, arith, if_rule, option_rule,
}
use dwh_v.Common.Tables.{find_row}
use dwh_v.Common.Transactions.{
  Committed, Keeps, Keeps-bind, Keeps-then, Keeps-check, Keeps-get, Keeps-or_fail, pure, modify,
  get, check, or_fail, ◌>>=◌, ◌>>◌,
}
use dwh_v.Ingestion.Catalog.{JobDefinition}
use dwh_v.Runs.Params.{Parameters, Checked}
use dwh_v.Runs.Model.{Row, RunError, Store as RunStore}
use dwh_v.Scheduler.Occurrences.{parameters_for_occurrence, retry_delay}
use dwh_v.Scheduler.Definitions.{Definition, Cron}
use dwh_v.Scheduler.Model.{
  Schedule, Occurrence, Attempt, Store, SchedulerError, conflict, invalid_definition, Tx, Service,
  lock_schedule, lock_active_occurrence, semantic_matches, insert_occurrence, update_schedules,
  update_occurrences, ResolutionMode, is_unresolved, resolved, delivery_delay,
}
use dwh_v.Scheduler.Process.{
  Verdict, waits, resolves, backs_off, rejects, submits, breaks, verdict, Delivery, deliver,
  record_attempt, block_schedule, block_reason, parameters_of, answered, submitted, delivery,
  insert_attempt, attempt_clashes, at_cursor, at_attempt, at_definition, disabled_row,
  disable_invalid, rejected_row, reject_locked_occurrence, reject_invalid, invalid_occurrence,
  create_occurrence, fresh_occurrence, current_fence, is_coalesced, resolve_success, record_backoff,
  Progress, changed, act, process_occurrence, process_valid, mode_of, is_validated, same_mode,
  due_at, validated, process_transaction,
}
use dwh_v.Scheduler.Soundness.{
  cursor_ok, Sounds, Sounds-IsPreorder, Sounds-elsewhere, update_occurrences-Sounds,
  insert_occurrence-Sounds, rows-Sounds,
}

bind {ℓ μ} :
    {A : Type ℓ} {B : Type μ} (m : Tx A) (f : A → Tx B)
    → Keeps Sounds m
    → ((a : A) → Keeps Sounds (f a))
    → Keeps Sounds (m >>= f)
bind = Keeps-bind Sounds Sounds-IsPreorder

then_ {μ} :
    {B : Type μ} (m : Tx (Unit {0})) (k : Tx B)
    → Keeps Sounds m
    → Keeps Sounds k
    → Keeps Sounds (m >> k)
then_ = Keeps-then Sounds Sounds-IsPreorder

reads : Keeps {E = SchedulerError} Sounds get
reads = Keeps-get Sounds Sounds-IsPreorder SchedulerError

changed-Sounds : (m : Tx (Unit {0})) → Keeps Sounds m → Keeps Sounds (changed m)
changed-Sounds m k = then_ m (pure (some none)) k (λ s. Sounds-IsPreorder.same s)

-- A write of the time before which nothing is delivered, or of the reason for that.
waiting-Sounds :
    (test : Schedule → Bool) (reason : Schedule → Option String) (time : Schedule → Option ℕ)
    → Keeps Sounds
        (update_schedules test (λ y. record y { block_reason = reason y; not_before = time y }) 1)
unfolding cursor_ok
waiting-Sounds test reason time = rows-Sounds test _ 1 (λ y. refl) (λ y _ h. h)

disable_invalid-Sounds :
    (x : Schedule) (message : String) → Keeps Sounds (disable_invalid x message)
unfolding disable_invalid cursor_ok
disable_invalid-Sounds x message =
    rows-Sounds _ (disabled_row message) 1 (λ y. refl) (λ y _ _. refl)

reject_locked_occurrence-Sounds :
    (v : Service) (x : Schedule) (o : Occurrence) (now : ℕ) (cause : String)
    → Keeps Sounds (reject_locked_occurrence v x o now cause)
unfolding reject_locked_occurrence
reject_locked_occurrence-Sounds v x o now cause =
    then_
      (update_occurrences (λ p. p.id == o.id && is_unresolved p.status)
        (rejected_row (v.safe_message cause) now) 1)
      (disable_invalid x (v.safe_message cause)) (update_occurrences-Sounds _ _ 1)
      (disable_invalid-Sounds x (v.safe_message cause))

reject_invalid-Sounds :
    (v : Service) (x : Schedule) (cursor now : ℕ) (cause : String)
    → Keeps Sounds (reject_invalid v x cursor now cause)
unfolding reject_invalid
reject_invalid-Sounds v x cursor now cause s =
    option_rule (λ (m : Tx (Unit {0})). Committed Sounds s (m s)) (lock_active_occurrence x.id s)
      (λ _.
        then_ (insert_occurrence o) (disable_invalid x (v.safe_message cause))
          (insert_occurrence-Sounds o) (disable_invalid-Sounds x (v.safe_message cause)) s)
      (λ p _. reject_locked_occurrence-Sounds v x p now cause s)
  where
    o : Occurrence
    o = invalid_occurrence v s.next_occurrence x cursor now cause

resolve_success-Sounds :
    (x : Schedule) (o : Occurrence) (a : Attempt) (run : Row) (cron : Cron) (now : ℕ)
    → Keeps Sounds (resolve_success x o a run cron now)
unfolding resolve_success cursor_ok
resolve_success-Sounds x o a run cron now =
    then_ (check fits conflict) (or_fail run.finished_at conflict >>= ended)
      (Keeps-check Sounds Sounds-IsPreorder _ _)
      (bind (or_fail run.finished_at conflict) ended (Keeps-or_fail Sounds Sounds-IsPreorder _ _)
        (λ f.
          bind (or_fail (from f) invalid_definition) moved
            (Keeps-or_fail Sounds Sounds-IsPreorder _ _)
            (λ n. then_ closed (cursor_to n) (update_occurrences-Sounds _ _ 1) (
              rows-Sounds (at_definition x.id o) _ 1 (λ y. refl) (λ y t h. ground (arith, t, h))))))
  where
    fits : Bool
    fits = current_fence x o && (a.run == run.id && o.attempt_count == a.attempt_no)

    closed : Tx (Unit {0})
    closed =
        update_occurrences (at_attempt o.id a.attempt_no)
          (λ p. record p { status = resolved; retry_not_before = none; closed_at = some now }) 1

    cursor_to : ℕ → Tx (Unit {0})
    cursor_to n =
        update_schedules (at_definition x.id o)
          (λ y. record y { next_run_at = some n; not_before = none; block_reason = none }) 1

    from : ℕ → Option ℕ
    from f = cron (if is_coalesced o.resolution_mode then f else o.scheduled_for)

    moved : ℕ → Tx (Unit {0})
    moved n = closed >> cursor_to n

    ended : ℕ → Tx (Unit {0})
    ended f = or_fail (from f) invalid_definition >>= moved

record_backoff-Sounds :
    (x : Schedule) (o : Occurrence) (a : Attempt) (run : Row)
    → Keeps Sounds (record_backoff x o a run)
unfolding record_backoff cursor_ok
record_backoff-Sounds x o a run =
    then_ (check fits conflict) (or_fail run.finished_at conflict >>= ended)
      (Keeps-check Sounds Sounds-IsPreorder _ _)
      (bind (or_fail run.finished_at conflict) ended (Keeps-or_fail Sounds Sounds-IsPreorder _ _)
        (λ f.
          then_ (closed f) (later f) (update_occurrences-Sounds _ _ 1)
            (rows-Sounds (at_definition x.id o) _ 1 (λ y. refl) (λ y _ h. h))))
  where
    fits : Bool
    fits = current_fence x o && (o.attempt_count == a.attempt_no && a.run == run.id)

    closed : ℕ → Tx (Unit {0})
    closed f =
        update_occurrences (λ p. at_attempt o.id a.attempt_no p && not (is_some p.retry_not_before))
          (λ p. record p { retry_not_before = some (f + retry_delay a.attempt_no / 1000) }) 1

    later : ℕ → Tx (Unit {0})
    later f =
        update_schedules (at_definition x.id o)
          (λ y. record y { not_before = some (f + retry_delay a.attempt_no / 1000) }) 1

    ended : ℕ → Tx (Unit {0})
    ended f = closed f >> later f

insert_attempt-Sounds : (a : Attempt) → Keeps Sounds (insert_attempt a)
insert_attempt-Sounds a s =
    if_rule (λ (q : Result SchedulerError (Unit {0} × Store)). Committed Sounds s q)
      (is_some (find_row (attempt_clashes a) s.attempts)) (λ _. tt)
      (λ _. Sounds-elsewhere _ _ refl refl)

record_attempt-Sounds :
    (v : Service) (x : Schedule) (o : Occurrence) (run now : ℕ)
    → Keeps Sounds (record_attempt v x o run now)
unfolding record_attempt
record_attempt-Sounds v x o run now =
    then_ (insert_attempt a) (counted >> later) (insert_attempt-Sounds a)
      (then_ counted later (update_occurrences-Sounds _ _ 1) (waiting-Sounds _ _ _))
  where
    a : Attempt
    a = record {
      occurrence = o.id;
      attempt_no = suc o.attempt_count;
      run = run;
      reference = v.reference x.id o.scheduled_for (suc o.attempt_count);
      submitted_at = now;
    }

    counted : Tx (Unit {0})
    counted =
        update_occurrences (at_attempt o.id o.attempt_count)
          (λ p. record p { attempt_count = suc o.attempt_count; retry_not_before = none }) 1

    later : Tx (Unit {0})
    later =
        update_schedules (at_cursor x.id o.scheduled_for)
          (λ y. record y { block_reason = none; not_before = some (now + delivery_delay) }) 1

answered-Sounds :
    (v : Service) (x : Schedule) (o : Occurrence) (now : ℕ) (r : Result RunError (ℕ × RunStore))
    → Keeps Sounds (answered v x o now r)
answered-Sounds v x o now (ok (run, runs)) =
    then_ (modify λ s. record s { runs = runs }) (record_attempt v x o run now >> told)
      (λ s. Sounds-elsewhere _ _ refl refl)
      (then_ (record_attempt v x o run now) told (record_attempt-Sounds v x o run now)
        (λ s. Sounds-IsPreorder.same s))
  where
    told : Tx (Option Delivery)
    told = pure (some (delivery x o run))
answered-Sounds v x o now (err e) =
    option_rule (Keeps Sounds) (block_reason e) (λ _ s. tt)
      (λ reason _.
        then_ (block_schedule x o reason now) (pure none) (waiting-Sounds _ _ _)
          (λ t. Sounds-IsPreorder.same t))

parameters_of-Sounds : (p : Checked Parameters) → Keeps Sounds (parameters_of p)
parameters_of-Sounds (ok p) s = Sounds-IsPreorder.same s
parameters_of-Sounds (err e) s = tt

deliver-Sounds :
    (v : Service) (x : Schedule) (o : Occurrence) (job : JobDefinition) (now : ℕ)
    → Keeps Sounds (deliver v x o job now)
unfolding deliver
deliver-Sounds v x o job now =
    bind (parameters_of made) (λ p. get >>= submitted v x o now p) (parameters_of-Sounds made)
      (λ p s. answered-Sounds v x o now _ s)
  where
    made : Checked Parameters
    made = parameters_for_occurrence v.calendar v.codec v.rules.jobs v.civil job o.scheduled_for

act-Sounds :
    (v : Service) (x : Schedule) (o : Occurrence) (job : JobDefinition) (cron : Cron) (now : ℕ)
    (w : Verdict)
    → Keeps Sounds (act v x o job cron now w)
act-Sounds v x o job cron now waits = λ s. Sounds-IsPreorder.same s
act-Sounds v x o job cron now (resolves a run) =
    changed-Sounds _ (resolve_success-Sounds x o a run cron now)
act-Sounds v x o job cron now (backs_off a run) = changed-Sounds _ (record_backoff-Sounds x o a run)
act-Sounds v x o job cron now (rejects cause) =
    changed-Sounds _ (reject_locked_occurrence-Sounds v x o now cause)
act-Sounds v x o job cron now submits =
    bind (deliver v x o job now) (λ d. pure (some d)) (deliver-Sounds v x o job now)
      (λ d s. Sounds-IsPreorder.same s)
act-Sounds v x o job cron now (breaks e) = λ s. tt

process_occurrence-Sounds :
    (v : Service) (x : Schedule) (o : Occurrence) (d : Definition) (job : JobDefinition)
    (cron : Cron) (now : ℕ)
    → Keeps Sounds (process_occurrence v x o d job cron now)
unfolding process_occurrence
process_occurrence-Sounds v x o d job cron now =
    if_rule (Keeps Sounds) (not (semantic_matches o.definition d))
      (λ _. changed-Sounds _ (reject_locked_occurrence-Sounds v x o now _))
      (λ _.
        if_rule (Keeps Sounds)
          (not (
            is_validated o.identity_source
            && same_mode o.resolution_mode (mode_of job.date_strategy)))
          (λ _. changed-Sounds _ (reject_locked_occurrence-Sounds v x o now _))
          (λ _ s. act-Sounds v x o job cron now (verdict o now s) s))

create_occurrence-Sounds :
    (x : Schedule) (cursor : ℕ) (mode : ResolutionMode)
    → Keeps Sounds (create_occurrence x cursor mode)
unfolding create_occurrence
create_occurrence-Sounds x cursor mode s =
    then_ (insert_occurrence o) (pure o) (insert_occurrence-Sounds o)
      (λ t. Sounds-IsPreorder.same t) s
  where
    o : Occurrence
    o = fresh_occurrence s.next_occurrence x cursor mode

process_valid-Sounds :
    (v : Service) (x : Schedule) (cursor : ℕ) (d : Definition) (job : JobDefinition) (cron : Cron)
    (now : ℕ)
    → Keeps Sounds (process_valid v x cursor d job cron now)
unfolding process_valid
process_valid-Sounds v x cursor d job cron now s =
    option_rule (λ (m : Tx Progress). Committed Sounds s (m s)) (lock_active_occurrence x.id s)
      (λ _.
        bind (create_occurrence x cursor (mode_of job.date_strategy))
          (λ o. process_occurrence v x o d job cron now) (create_occurrence-Sounds x cursor _)
          (λ o. process_occurrence-Sounds v x o d job cron now) s)
      (λ o _.
        if_rule (λ (m : Tx Progress). Committed Sounds s (m s)) (o.scheduled_for == cursor)
          (λ _. process_occurrence-Sounds v x o d job cron now s)
          (λ _. changed-Sounds _ (reject_locked_occurrence-Sounds v x o now _) s))

pub process_transaction-Sounds :
    (v : Service) (id now : ℕ) → Keeps Sounds (process_transaction v id now)
unfolding process_transaction
process_transaction-Sounds v id now s =
    option_rule Q (lock_schedule id s) (λ _. Sounds-IsPreorder.same s)
      (λ x _.
        option_rule Q (due_at x now) (λ _. Sounds-IsPreorder.same s)
          (λ cursor _.
            option_rule Q (validated v x cursor now)
              (λ _. changed-Sounds _ (reject_invalid-Sounds v x cursor now _) s)
              (λ w _. process_valid-Sounds v x cursor w.0 w.1.0 w.1.1 now s)))
  where
    Q : Tx Progress → Type 0
    Q m = Committed Sounds s (m s)
