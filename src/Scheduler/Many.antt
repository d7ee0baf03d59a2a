-- ===== src/Scheduler/Many.antt =====
-- internal/scheduler/service.go, `CreateMany`: schedules of several jobs at the same times. The checks before the first
-- write are a function of the inputs.
use dwh_v.Common.{
  ℕ, Bool, true, false, ◌&&◌, not, String, str_eq, Option, none, some, List, [], ◌∷◌, ◌++◌,
  if◌then◌else◌, Result, ok, err, guard, is_some, keep, ◌>>=◌, ◌>>◌,
}
use dwh_v.Common.Tables.{find_row}
use dwh_v.Common.Transactions.{pure, ◌>>=◌ as then_with}
use dwh_v.Runs.Model.{Source}
use dwh_v.Scheduler.Definitions.{Definition, Cron, validate_definition}
use dwh_v.Scheduler.Model.{Schedule, SchedulerError, invalid_definition, Tx, Service}
use dwh_v.Scheduler.States.{with_timezone, insert_schedule}

-- `CreateInput`
pub record Input : Type 0 where
  pub definition : Definition
  pub enabled : Bool
  pub actor : Option ℕ

-- `preparedCreate`
pub record Prepared : Type 0 where
  pub definition : Definition
  pub enabled : Bool
  pub actor : Option ℕ
  pub next : Option ℕ

abbrev pub first_run : Bool → Option ℕ → Result SchedulerError (Option ℕ)
first_run true (some t) = ok (some t)
first_run true none = err invalid_definition
first_run false _ = ok none

abbrev pub valid_input : Service → Input → ℕ → Result SchedulerError (Definition × Cron)
valid_input v i now = elim (validate_definition v.rules (with_timezone v i.definition) now) [
  | ok r ↦ ok r
  | err e ↦ err invalid_definition
]

-- `prepareCreate`
abbrev pub prepared : Input → Definition → Option ℕ → Prepared
prepared i d next = record { definition = d; enabled = i.enabled; actor = i.actor; next = next }

unfoldable pub prepare_create : Service → Input → ℕ → Result SchedulerError Prepared
prepare_create v i now = do
  r ← valid_input v i now
  next ← first_run i.enabled (r.1 now)
  ok (prepared i r.0 next)

abbrev same_state : Bool → Bool → Bool
same_state a b = if a then b else not b

-- Whether the schedules have the times of the first.
abbrev pub agrees : Option Prepared → Prepared → Bool
agrees none p = true
agrees (some q) p =
    str_eq p.definition.cron_expression q.definition.cron_expression
    && (str_eq p.definition.timezone q.definition.timezone && same_state p.enabled q.enabled)

abbrev pub first_of : Option Prepared → Prepared → Prepared
first_of none p = p
first_of (some q) p = q

abbrev pub selected : String → List String → Bool
selected key seen = is_some (find_row (str_eq key) seen)

unfoldable pub prepare_all :
    Service → ℕ → Option Prepared → List String → List Input → Result SchedulerError (List Prepared)
prepare_all v now first seen [] = ok []
prepare_all v now first seen (i ∷ more) = do
  p ← prepare_create v i now
  guard (not (selected p.definition.job_key seen)) invalid_definition
  guard (agrees first p) invalid_definition
  rest ← prepare_all v now (some (first_of first p)) (p.definition.job_key ∷ seen) more
  ok (p ∷ rest)

-- Every job has its row in `source_settings`.
abbrev pub schedulable : List Source → List Prepared → Bool
schedulable sources [] = true
schedulable sources (p ∷ ps) =
    is_some (find_row (λ x. str_eq x.key p.definition.job_key) sources) && schedulable sources ps

-- `WHERE job_key=? AND cron_expression=? AND timezone=? AND archived_at IS NULL`
abbrev pub same_slot : Prepared → Schedule → Bool
same_slot p y =
    str_eq y.definition.job_key p.definition.job_key
    && (str_eq y.definition.cron_expression p.definition.cron_expression
        && (str_eq y.definition.timezone p.definition.timezone && not (is_some y.archived_at)))

-- The schedules that were created, and those that existed.
pub record Many : Type 0 where
  pub created : List Schedule
  pub existing : List Schedule

abbrev pub insert_missing : Prepared → List Schedule → Tx Many
insert_missing p (y ∷ ys) s = ok (record { created = []; existing = y ∷ ys }, s)
insert_missing p [] s = elim (insert_schedule p.definition p.enabled p.next p.actor s) [
  | ok (x, t) ↦ ok (record { created = x ∷ []; existing = [] }, t)
  | err e ↦ err e
]

abbrev pub joined : Many → Many → Many
joined a b = record { created = a.created ++ b.created; existing = a.existing ++ b.existing }

unfoldable pub insert_each : List Prepared → Tx Many
insert_each [] = pure (record { created = []; existing = [] })
insert_each (p ∷ ps) =
    then_with (λ s. insert_missing p (keep (same_slot p) s.schedules) s)
      (λ one. then_with (insert_each ps) (λ rest. pure (joined one rest)))

abbrev pub none_given : List Input → Bool
none_given [] = true
none_given _ = false

-- `CreateMany`
unfoldable pub create_many : Service → List Input → ℕ → Tx Many
create_many v inputs now s =
    if none_given inputs then err invalid_definition else elim (prepare_all v now none [] inputs) [
      | err e ↦ err e
      | ok ps ↦ if schedulable s.runs.sources ps then insert_each ps s else err invalid_definition
    ]
