-- ===== src/Scheduler/Model.antt =====
-- internal/scheduler/service.go: the rows of schedules, occurrences and attempts, and the statements that find and
-- change them. Times are microseconds; `none` is NULL.
use dwh_v.Common.{
  ℕ, ◌+◌, ◌*◌, Bool, true, false, ◌&&◌, ◌||◌, String, str_eq, Option, none, some, List, [], ◌∷◌,
  if◌then◌else◌, ◌==◌, ltb, is_some, Result, ok, err, count_if,
}
use dwh_v.Common.Tables.{find_row, update_rows}
use dwh_v.Common.Transactions.{Transaction}
use dwh_v.Runs.Model.{RunError, Trigger}
use dwh_v.Runs.Params.{Parameters, Codec}
use dwh_v.Runs.Model.{Store as RunStore}
use dwh_v.Ingestion.Dates.{CalendarDate, Calendar}
use dwh_v.Scheduler.Definitions.{Definition, Rules}

pub record Schedule : Type 0 where
  pub id : ℕ
  pub definition : Definition
  pub enabled : Bool
  pub next_run_at : Option ℕ
  pub revision : ℕ
  pub not_before : Option ℕ
  pub block_reason : Option String
  pub validation_error : Option String
  pub created_by : Option ℕ
  pub archived_at : Option ℕ

pub data IdentitySource : Type 0 where
  validated_cron persisted_cursor_fallback : IdentitySource

pub data ResolutionMode : Type 0 where
  historical live_coalesced invalid_mode : ResolutionMode

pub data OccurrenceStatus : Type 0 where
  unresolved resolved discarded rejected_invalid : OccurrenceStatus

pub record Occurrence : Type 0 where
  pub id : ℕ
  pub schedule : ℕ
  pub scheduled_for : ℕ
  pub identity_source : IdentitySource
  pub resolution_mode : ResolutionMode
  pub status : OccurrenceStatus
  pub definition : Definition
  pub attempt_count : ℕ
  pub retry_not_before : Option ℕ
  pub rejection : Option String
  pub closed_at : Option ℕ

pub record Attempt : Type 0 where
  pub occurrence : ℕ
  pub attempt_no : ℕ
  pub run : ℕ
  pub reference : String
  pub submitted_at : ℕ

-- The tables of the scheduler and those of the runs.
pub record Store : Type 0 where
  pub schedules : List Schedule
  pub next_schedule : ℕ
  pub occurrences : List Occurrence
  pub next_occurrence : ℕ
  pub attempts : List Attempt
  pub runs : RunStore

pub data SchedulerError : Type 0 where
  conflict backlog archived invalid_definition invalid_selection : SchedulerError
  no_rows duplicate_key not_finished invalid_status invalid_parameters : SchedulerError
  not_submitted : RunError → SchedulerError

abbrev pub Tx {ℓ} : Type ℓ → Type ℓ
Tx A = Transaction Store SchedulerError A

-- The service: `submit` is the function that it is built with, `reference` prints the trigger reference, and `civil` is
-- the date of a number of days in the library's calendar.
pub record Service : Type 0 where
  pub rules : Rules
  pub submit :
      String
      → Parameters
      → Trigger
      → String
      → Option ℕ
      → ℕ
      → RunStore
      → Result RunError (ℕ × RunStore)
  pub reference : ℕ → ℕ → ℕ → String
  pub civil : ℕ → CalendarDate
  pub calendar : Calendar
  pub codec : Codec
  pub safe_message : String → String

abbrev pub delivery_delay : ℕ
delivery_delay = 15 * 1000000

abbrev pub is_unresolved : OccurrenceStatus → Bool
is_unresolved unresolved = true
is_unresolved _ = false

-- The key `active_schedule_id`.
abbrev pub is_active_of : ℕ → Occurrence → Bool
is_active_of schedule o = is_unresolved o.status && o.schedule == schedule

abbrev pub lock_schedule : ℕ → Store → Option Schedule
lock_schedule id s = find_row (λ x. x.id == id) s.schedules

abbrev pub lock_active_occurrence : ℕ → Store → Option Occurrence
lock_active_occurrence schedule s = find_row (is_active_of schedule) s.occurrences

-- `ORDER BY attempt_no DESC LIMIT 1`
abbrev pub greater : Attempt → Option Attempt → Attempt
greater a none = a
greater a (some b) = if ltb a.attempt_no b.attempt_no then b else a

unfoldable pub latest_attempt : ℕ → List Attempt → Option Attempt
latest_attempt occurrence [] = none
latest_attempt occurrence (a ∷ more) =
    let rest = latest_attempt occurrence more in
    if a.occurrence == occurrence then some (greater a rest) else rest

-- `semanticMatches`
abbrev pub semantic_matches : Definition → Definition → Bool
semantic_matches a b =
    str_eq a.job_key b.job_key
    && (str_eq a.cron_expression b.cron_expression
        && (str_eq a.timezone b.timezone
            && (str_eq a.policy.kind b.policy.kind
                && (a.policy.version == b.policy.version
                    && str_eq a.policy.checksum b.policy.checksum))))

-- An `UPDATE` of schedules or of occurrences that has to match so many rows (`requireCount`).
unfoldable pub update_schedules : (Schedule → Bool) → (Schedule → Schedule) → ℕ → Tx (Unit {0})
update_schedules test change expected s =
    if count_if test s.schedules == expected
    then ok (tt, record s { schedules = update_rows test change s.schedules })
    else err conflict

unfoldable pub update_occurrences :
    (Occurrence → Bool) → (Occurrence → Occurrence) → ℕ → Tx (Unit {0})
update_occurrences test change expected s =
    if count_if test s.occurrences == expected
    then ok (tt, record s { occurrences = update_rows test change s.occurrences })
    else err conflict

-- The unique keys of the table of occurrences.
abbrev pub clashes : Occurrence → Occurrence → Bool
clashes o p =
    o.schedule == p.schedule
    && (o.scheduled_for == p.scheduled_for || is_unresolved o.status && is_unresolved p.status)

abbrev pub insert_occurrence : Occurrence → Tx (Unit {0})
insert_occurrence o s =
    if is_some (find_row (clashes o) s.occurrences)
    then err duplicate_key
    else ok
        (tt, record s { occurrences = o ∷ s.occurrences; next_occurrence = s.next_occurrence + 1 })
