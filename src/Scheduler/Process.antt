-- ===== src/Scheduler/Process.antt =====
-- internal/scheduler/service.go, `processTransaction`: what happens to a schedule that is due.
pub mod Turn
use dwh_v.Common.{
  ℕ, suc, ◌+◌, ◌*◌, ◌/◌, Bool, true, false, ◌&&◌, ◌||◌, not, String, str_eq, Option, none, some,
  List, [], ◌∷◌, if◌then◌else◌, ◌==◌, ltb, leb, is_some, Result, ok, err,
}
use dwh_v.Common.Tables.{find_row}
use dwh_v.Common.Transactions.{pure, ◌>>=◌, ◌>>◌, check, get, put, modify, or_fail}
use dwh_v.Ingestion.Catalog.{JobDefinition, DateStrategy, no_date, find_job}
use dwh_v.Runs.Params.{Parameters, Checked}
use dwh_v.Runs.Model.{
  Row, Status, queued, running, succeeded, failed, cancelled, abandoned, RunError, job_busy,
  source_disabled, source_configuration_required, trigger_scheduler, Store as RunStore,
}
use dwh_v.Scheduler.Occurrences.{retry_delay, parameters_for_occurrence}
use dwh_v.Scheduler.Definitions.{Definition, Cron, Rules, validate_definition, is_occurrence}
use dwh_v.Scheduler.Model.{
  Schedule, Occurrence, Attempt, Store, SchedulerError, conflict, no_rows, not_finished,
  invalid_status, invalid_parameters, not_submitted, Tx, Service, delivery_delay, is_unresolved,
  validated_cron, persisted_cursor_fallback, ResolutionMode, historical, live_coalesced,
  invalid_mode, unresolved, resolved, rejected_invalid, lock_schedule, lock_active_occurrence,
  latest_attempt, semantic_matches, update_schedules, update_occurrences, insert_occurrence,
  IdentitySource, duplicate_key, invalid_definition,
}

-- The conditions `x = ?` on a column that may be NULL, and a time that has come.
abbrev pub time_is : Option ℕ → ℕ → Bool
time_is none t = false
time_is (some x) t = x == t

abbrev pub has_come : Option ℕ → ℕ → Bool
has_come none now = true
has_come (some t) now = leb t now

-- `WHERE id=? AND enabled=TRUE AND next_run_at=?`
abbrev pub at_cursor : ℕ → ℕ → Schedule → Bool
at_cursor id cursor x = x.id == id && (x.enabled && time_is x.next_run_at cursor)

-- `WHERE id=? AND status='unresolved' AND attempt_count=?`
abbrev pub at_attempt : ℕ → ℕ → Occurrence → Bool
at_attempt id count o = o.id == id && (is_unresolved o.status && o.attempt_count == count)

-- `disableInvalid`
abbrev pub disabled_row : String → Schedule → Schedule
disabled_row message x = record x {
  enabled = false;
  next_run_at = none;
  not_before = none;
  block_reason = none;
  validation_error = some message;
  revision = suc x.revision;
}

unfoldable pub disable_invalid : Schedule → String → Tx (Unit {0})
disable_invalid x message =
    update_schedules (λ y. y.id == x.id && (y.revision == x.revision && y.enabled))
      (disabled_row message) 1

-- `rejectLockedOccurrence`
abbrev pub rejected_row : String → ℕ → Occurrence → Occurrence
rejected_row message now o = record o {
  status = rejected_invalid;
  resolution_mode = invalid_mode;
  retry_not_before = none;
  rejection = some message;
  closed_at = some now;
}

unfoldable pub reject_locked_occurrence :
    Service → Schedule → Occurrence → ℕ → String → Tx (Unit {0})
reject_locked_occurrence v x o now cause =
    update_occurrences (λ p. p.id == o.id && is_unresolved p.status)
      (rejected_row (v.safe_message cause) now) 1
    >> disable_invalid x (v.safe_message cause)

-- A row of `schedule_occurrences` as it is inserted.
abbrev pub fresh_occurrence : ℕ → Schedule → ℕ → ResolutionMode → Occurrence
fresh_occurrence id x cursor mode = record {
  id = id;
  schedule = x.id;
  scheduled_for = cursor;
  identity_source = validated_cron;
  resolution_mode = mode;
  status = unresolved;
  definition = x.definition;
  attempt_count = 0;
  retry_not_before = none;
  rejection = none;
  closed_at = none;
}

-- A cursor that is no occurrence, as it is recorded.
abbrev pub invalid_occurrence : Service → ℕ → Schedule → ℕ → ℕ → String → Occurrence
invalid_occurrence v id x cursor now cause =
    record (rejected_row (v.safe_message cause) now (fresh_occurrence id x cursor invalid_mode)) {
      identity_source = persisted_cursor_fallback;
    }

-- `rejectInvalid`
unfoldable pub reject_invalid : Service → Schedule → ℕ → ℕ → String → Tx (Unit {0})
reject_invalid v x cursor now cause = do
  s ← get
  elim (lock_active_occurrence x.id s) [
    | some o ↦ reject_locked_occurrence v x o now cause
    | none ↦
        insert_occurrence (invalid_occurrence v s.next_occurrence x cursor now cause)
        >> disable_invalid x (v.safe_message cause)
  ]

-- `createOccurrence`
unfoldable pub create_occurrence : Schedule → ℕ → ResolutionMode → Tx Occurrence
create_occurrence x cursor mode = do
  s ← get
  let o = fresh_occurrence s.next_occurrence x cursor mode
  insert_occurrence o
  pure o

-- `currentFence`
abbrev pub current_fence : Schedule → Occurrence → Bool
current_fence x o =
    x.enabled
    && (is_unresolved o.status
        && (time_is x.next_run_at o.scheduled_for && semantic_matches x.definition o.definition))

abbrev pub is_coalesced : ResolutionMode → Bool
is_coalesced live_coalesced = true
is_coalesced _ = false

-- `WHERE id=? AND enabled=TRUE AND next_run_at=? AND job_key=? AND …`
abbrev pub at_definition : ℕ → Occurrence → Schedule → Bool
at_definition id o x = at_cursor id o.scheduled_for x && semantic_matches x.definition o.definition

-- `resolveSuccess`
unfoldable pub resolve_success : Schedule → Occurrence → Attempt → Row → Cron → ℕ → Tx (Unit {0})
resolve_success x o a run cron now = do
  check (current_fence x o && (a.run == run.id && o.attempt_count == a.attempt_no)) conflict
  finished ← or_fail run.finished_at conflict
  next ←
      or_fail (cron (if is_coalesced o.resolution_mode then finished else o.scheduled_for))
        invalid_definition
  update_occurrences (at_attempt o.id a.attempt_no)
      (λ p. record p { status = resolved; retry_not_before = none; closed_at = some now }) 1
  update_schedules (at_definition x.id o)
      (λ y. record y { next_run_at = some next; not_before = none; block_reason = none }) 1

-- `recordBackoff`; a duration is in nanoseconds.
unfoldable pub record_backoff : Schedule → Occurrence → Attempt → Row → Tx (Unit {0})
record_backoff x o a run = do
  check (current_fence x o && (o.attempt_count == a.attempt_no && a.run == run.id)) conflict
  finished ← or_fail run.finished_at conflict
  let deadline = finished + retry_delay a.attempt_no / 1000
  update_occurrences (λ p. at_attempt o.id a.attempt_no p && not (is_some p.retry_not_before))
      (λ p. record p { retry_not_before = some deadline }) 1
  update_schedules (at_definition x.id o) (λ y. record y { not_before = some deadline }) 1

-- What the latest attempt of an occurrence asks for.
pub data Verdict : Type 0 where
  waits : Verdict
  resolves : Attempt → Row → Verdict
  backs_off : Attempt → Row → Verdict
  rejects : String → Verdict
  submits : Verdict
  breaks : SchedulerError → Verdict

-- After a run that ended without success.
abbrev pub late_verdict : Occurrence → Attempt → ℕ → Row → Verdict
late_verdict o a now run =
    if is_some run.finished_at
    then elim o.retry_not_before [
      | none ↦ backs_off a run
      | some t ↦ if ltb now t then waits else submits
    ]
    else breaks not_finished

abbrev pub status_verdict : Attempt → Row → Verdict → Status → Verdict
status_verdict a run late succeeded = resolves a run
status_verdict a run late queued = waits
status_verdict a run late running = waits
status_verdict a run late failed = late
status_verdict a run late cancelled = late
status_verdict a run late abandoned = late
status_verdict a run late _ = breaks invalid_status

abbrev pub verdict_of_run : Occurrence → Attempt → ℕ → Row → Verdict
verdict_of_run o a now run = status_verdict a run (late_verdict o a now run) run.status

unfoldable pub verdict : Occurrence → ℕ → Store → Verdict
verdict o now s = elim (latest_attempt o.id s.attempts) [
  | none ↦ if o.attempt_count == 0 then submits else rejects "occurrence attempt history is missing"
  | some a ↦
      if a.attempt_no == o.attempt_count
      then elim (find_row (λ r. r.id == a.run) s.runs.runs) [
        | none ↦ breaks no_rows
        | some run ↦ verdict_of_run o a now run
      ]
      else rejects "occurrence attempt sequence is invalid"
]

-- What a transaction delivered.
pub record Delivery : Type 0 where
  pub schedule : ℕ
  pub occurrence : ℕ
  pub run : ℕ
  pub attempt : ℕ
  pub scheduled_for : ℕ

-- `INSERT INTO schedule_attempts`, with the unique keys of the table.
abbrev pub attempt_clashes : Attempt → Attempt → Bool
attempt_clashes a b =
    a.occurrence == b.occurrence && a.attempt_no == b.attempt_no
    || (a.run == b.run || str_eq a.reference b.reference)

abbrev pub insert_attempt : Attempt → Tx (Unit {0})
insert_attempt a s =
    if is_some (find_row (attempt_clashes a) s.attempts)
    then err duplicate_key
    else ok (tt, record s { attempts = a ∷ s.attempts })

-- Why a submission has to wait, if that is so.
abbrev pub block_reason : RunError → Option String
block_reason job_busy = some "job_busy"
block_reason source_disabled = some "source_disabled"
block_reason source_configuration_required = some "source_configuration_required"
block_reason _ = none

abbrev pub parameters_of : Checked Parameters → Tx Parameters
parameters_of (ok p) s = ok (p, s)
parameters_of (err e) s = err invalid_parameters

-- The submission was refused.
abbrev pub block_schedule : Schedule → Occurrence → String → ℕ → Tx (Unit {0})
block_schedule x o reason now =
    update_schedules (at_cursor x.id o.scheduled_for)
      (λ y. record y { block_reason = some reason; not_before = some (now + delivery_delay) }) 1

abbrev pub block : Schedule → Occurrence → String → ℕ → Tx (Option Delivery)
block x o reason now = block_schedule x o reason now >> pure none

-- The submission was accepted as a run.
abbrev pub delivery : Schedule → Occurrence → ℕ → Delivery
delivery x o run = record {
  schedule = x.id;
  occurrence = o.id;
  run = run;
  attempt = suc o.attempt_count;
  scheduled_for = o.scheduled_for;
}

unfoldable pub record_attempt : Service → Schedule → Occurrence → ℕ → ℕ → Tx (Unit {0})
record_attempt v x o run now = do
  let number = suc o.attempt_count
  insert_attempt (record {
    occurrence = o.id;
    attempt_no = number;
    run = run;
    reference = v.reference x.id o.scheduled_for number;
    submitted_at = now;
  })
  update_occurrences (at_attempt o.id o.attempt_count)
      (λ p. record p { attempt_count = number; retry_not_before = none }) 1
  update_schedules (at_cursor x.id o.scheduled_for)
      (λ y. record y { block_reason = none; not_before = some (now + delivery_delay) }) 1

-- What follows on the answer to the submission.
abbrev pub answered :
    Service → Schedule → Occurrence → ℕ → Result RunError (ℕ × RunStore) → Tx (Option Delivery)
answered v x o now (ok (run, runs)) =
    modify (λ s. record s { runs = runs })
    >> (record_attempt v x o run now >> pure (some (delivery x o run)))
answered v x o now (err e) = elim (block_reason e) [
  | some reason ↦ block x o reason now
  | none ↦ λ _. err (not_submitted e)
]

abbrev pub submitted :
    Service → Schedule → Occurrence → ℕ → Parameters → Store → Tx (Option Delivery)
submitted v x o now parameters s = answered v x o now (
    v.submit x.definition.job_key parameters trigger_scheduler
      (v.reference x.id o.scheduled_for (suc o.attempt_count)) x.created_by now s.runs)

unfoldable pub deliver : Service → Schedule → Occurrence → JobDefinition → ℕ → Tx (Option Delivery)
deliver v x o job now =
    parameters_of
      (parameters_for_occurrence v.calendar v.codec v.rules.jobs v.civil job o.scheduled_for)
    >>= λ parameters. get >>= submitted v x o now parameters

abbrev pub mode_of : DateStrategy → ResolutionMode
mode_of no_date = live_coalesced
mode_of _ = historical

abbrev pub same_mode : ResolutionMode → ResolutionMode → Bool
same_mode historical historical = true
same_mode live_coalesced live_coalesced = true
same_mode invalid_mode invalid_mode = true
same_mode _ _ = false

abbrev pub is_validated : IdentitySource → Bool
is_validated validated_cron = true
is_validated persisted_cursor_fallback = false

-- `true` and `false` of the source are `some` and `none` here: whether something changed, and what was delivered.
abbrev pub Progress : Type 0
Progress = Option (Option Delivery)

abbrev pub changed : Tx (Unit {0}) → Tx Progress
changed m = m >> pure (some none)

abbrev pub act : Service → Schedule → Occurrence → JobDefinition → Cron → ℕ → Verdict → Tx Progress
act v x o job cron now waits = pure none
act v x o job cron now (resolves a run) = changed (resolve_success x o a run cron now)
act v x o job cron now (backs_off a run) = changed (record_backoff x o a run)
act v x o job cron now (rejects cause) = changed (reject_locked_occurrence v x o now cause)
act v x o job cron now submits = deliver v x o job now >>= λ d. pure (some d)
act v x o job cron now (breaks e) = λ _. err e

-- The checks of an occurrence against its schedule, and then its verdict.
unfoldable pub process_occurrence :
    Service → Schedule → Occurrence → Definition → JobDefinition → Cron → ℕ → Tx Progress
process_occurrence v x o d job cron now =
    if not (semantic_matches o.definition d)
    then changed (reject_locked_occurrence v x o now "occurrence definition differs from schedule")
    else (if not (
          is_validated o.identity_source && same_mode o.resolution_mode (mode_of job.date_strategy))
        then changed
            (reject_locked_occurrence v x o now "occurrence resolution contract is invalid")
        else (get >>= λ s. act v x o job cron now (verdict o now s)))

unfoldable pub process_valid :
    Service → Schedule → ℕ → Definition → JobDefinition → Cron → ℕ → Tx Progress
process_valid v x cursor d job cron now = do
  s ← get
  elim (lock_active_occurrence x.id s) [
    | some o ↦
        if o.scheduled_for == cursor
        then process_occurrence v x o d job cron now
        else changed
            (reject_locked_occurrence v x o now "active occurrence does not match durable cursor")
    | none ↦ create_occurrence x cursor (mode_of job.date_strategy) >>= λ o.
        process_occurrence v x o d job cron now
  ]

-- Due, by the cursor that it is due at.
abbrev pub due_at : Schedule → ℕ → Option ℕ
due_at x now =
    if x.enabled && (not (is_some x.archived_at) && has_come x.not_before now)
    then elim x.next_run_at [ none ↦ none | some t ↦ if leb t now then some t else none ]
    else none

-- The definition, job and cron of a schedule whose cursor is an occurrence.
abbrev pub validated : Service → Schedule → ℕ → ℕ → Option (Definition × (JobDefinition × Cron))
validated v x cursor now = elim (validate_definition v.rules x.definition now) [
  | err e ↦ none
  | ok (d, cron) ↦ elim (find_job x.definition.job_key v.rules.jobs) [
    | none ↦ none
    | some job ↦ if is_occurrence cron cursor then some (d, (job, cron)) else none
  ]
]

-- `processTransaction`; whatever is wrong with a definition is one cause here.
unfoldable pub process_transaction : Service → ℕ → ℕ → Tx Progress
process_transaction v id now = do
  s ← get
  elim (lock_schedule id s) [
    | none ↦ pure none
    | some x ↦ elim (due_at x now) [
      | none ↦ pure none
      | some cursor ↦ elim (validated v x cursor now) [
        | none ↦ changed (reject_invalid v x cursor now "invalid schedule definition")
        | some (d, (job, cron)) ↦ process_valid v x cursor d job cron now
      ]
    ]
  ]
