-- ===== src/Scheduler/States.antt =====
-- internal/scheduler/service.go: creating, changing, enabling, disabling and archiving schedules.
pub mod Revision
use dwh_v.Common.{
  ℕ, suc, ◌+◌, ◌*◌, Bool, true, false, ◌&&◌, ◌||◌, not, String, str_eq, Option, none, some, List,
  [], ◌∷◌, if◌then◌else◌, ◌==◌, ltb, leb, is_some, Result, ok, err, length, keep,
}
use dwh_v.Common.Tables.{find_row}
use dwh_v.Common.Transactions.{pure, ◌>>=◌, ◌>>◌, check, get, put, modify, or_fail}
use dwh_v.Scheduler.Definitions.{
  Definition, Cron, Rules, DefinitionError, validate_definition, default_timezone,
}
use dwh_v.Scheduler.Model.{
  Schedule, Occurrence, Store, SchedulerError, conflict, backlog, archived, invalid_definition,
  invalid_selection, no_rows, Tx, Service, is_unresolved, discarded, is_active_of, lock_schedule,
  lock_active_occurrence, semantic_matches, update_schedules, update_occurrences,
}

abbrev pub validated_at : Service → Definition → ℕ → Tx (Definition × Cron)
validated_at v d now s = elim (validate_definition v.rules d now) [
  | ok r ↦ ok (r, s)
  | err e ↦ err invalid_definition
]

-- The time zone that a definition has without one.
abbrev pub with_timezone : Service → Definition → Definition
with_timezone v d =
    if str_eq (v.rules.trim_space d.timezone) ""
    then record d { timezone = default_timezone }
    else d

-- A schedule as it is inserted.
abbrev pub new_schedule : Definition → Bool → Option ℕ → Option ℕ → ℕ → Schedule
new_schedule d enabled next actor id = record {
  id = id;
  definition = d;
  enabled = enabled;
  next_run_at = next;
  revision = 1;
  not_before = none;
  block_reason = none;
  validation_error = none;
  created_by = actor;
  archived_at = none;
}

-- `insertSchedule`
abbrev pub insert_schedule : Definition → Bool → Option ℕ → Option ℕ → Tx Schedule
insert_schedule d enabled next actor s =
    let x = new_schedule d enabled next actor s.next_schedule in
    ok (x, record s { schedules = x ∷ s.schedules; next_schedule = suc s.next_schedule })

-- `prepareCreate` and `Create`
unfoldable pub create : Service → Definition → Bool → Option ℕ → ℕ → Tx Schedule
create v d enabled actor now = do
  r ← validated_at v (with_timezone v d) now
  if enabled
      then (or_fail (r.1 now) invalid_definition >>= λ t. insert_schedule r.0 true (some t) actor)
      else insert_schedule r.0 false none actor

abbrev pub at_revision : Schedule → Schedule → Bool
at_revision x y = y.id == x.id && y.revision == x.revision

-- The cursor after an update. A change of what runs, or when, has to wait for the occurrence at hand.
abbrev pub next_after_update : Service → Schedule → Definition → Cron → ℕ → Store → Tx (Option ℕ)
next_after_update v x d cron now s =
    if semantic_matches x.definition d
    then pure x.next_run_at
    else (check
          (not (
            is_some (lock_active_occurrence x.id s)
            || x.enabled && elim x.next_run_at [ none ↦ false | some t ↦ leb t now ]))
          backlog
        >> pure (if x.enabled then cron now else x.next_run_at))

-- `Update`
unfoldable pub update : Service → ℕ → Definition → ℕ → ℕ → Tx (Unit {0})
update v id d expected now = do
  s ← get
  x ← or_fail (lock_schedule id s) no_rows
  check (x.revision == expected) conflict
  check (not (is_some x.archived_at)) archived
  r ← validated_at v (with_timezone v d) now
  next ← next_after_update v x r.0 r.1 now s
  update_schedules (at_revision x)
      (λ y. record y {
        definition = r.0;
        next_run_at = next;
        revision = suc y.revision;
        validation_error = none;
      })
      1

-- `prepareEnable`: the first cursor.
unfoldable pub prepare_enable : Service → Schedule → Bool → ℕ → Tx (Option ℕ)
prepare_enable v x has_occurrence now = do
  check (not (is_some x.archived_at)) archived
  check (not has_occurrence) backlog
  r ← validated_at v x.definition now
  pure (r.1 now)

abbrev pub enabled_row : Option ℕ → Schedule → Schedule
enabled_row next y = record y {
  enabled = true;
  next_run_at = next;
  not_before = none;
  block_reason = none;
  validation_error = none;
  revision = suc y.revision;
}

abbrev pub may_be_enabled : Schedule → Schedule → Bool
may_be_enabled x y = at_revision x y && (not y.enabled && not (is_some y.archived_at))

-- `applyEnableTransitions`, for one schedule
unfoldable pub apply_enable : Schedule → Option ℕ → Tx (Unit {0})
apply_enable x next = update_schedules (may_be_enabled x) (enabled_row next) 1

-- `Enable`
unfoldable pub enable : Service → ℕ → ℕ → ℕ → Tx (Unit {0})
enable v id expected now = do
  s ← get
  x ← or_fail (lock_schedule id s) no_rows
  check (x.revision == expected) conflict
  next ← prepare_enable v x (is_some (lock_active_occurrence id s)) now
  apply_enable x next

abbrev pub stopped_row : Bool → ℕ → Schedule → Schedule
stopped_row archive now y = record y {
  enabled = false;
  next_run_at = none;
  not_before = none;
  block_reason = none;
  archived_at = if archive then some now else y.archived_at;
  revision = suc y.revision;
}

abbrev pub discarded_row : ℕ → Occurrence → Occurrence
discarded_row now o = record o { status = discarded; retry_not_before = none; closed_at = some now }

-- `applyStopTransitions`, for one schedule
unfoldable pub apply_stop : Schedule → Option Occurrence → Bool → ℕ → Tx (Unit {0})
apply_stop x o archive now = do
  elim o [
    | none ↦ pure tt
    | some p ↦
        update_occurrences (λ q. q.id == p.id && is_unresolved q.status) (discarded_row now) 1
  ]
  update_schedules (at_revision x) (stopped_row archive now) 1

-- `stop`: `Disable` and `Archive`
unfoldable pub stop : Service → ℕ → ℕ → Bool → ℕ → Tx (Unit {0})
stop v id expected archive now = do
  s ← get
  x ← or_fail (lock_schedule id s) no_rows
  check (x.revision == expected) conflict
  apply_stop x (lock_active_occurrence id s) archive now
