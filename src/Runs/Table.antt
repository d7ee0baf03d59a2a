-- ===== src/Runs/Table.antt =====
-- The statements of internal/ingestionrun/repository.go on the table of runs, and the unique keys of
-- the table (migrations/20260813084201 and 20260814025546).
pub mod Laws
unfoldable pub use dwh_v.Common.Tables.{update_rows, find_row}
use dwh_v.Common.{
  ℕ, suc, ◌≡◌, Bool, true, false, ◌&&◌, ◌||◌, not, String, str_eq, Option, none, some, List, [],
  ◌∷◌, ◌++◌, ◌==◌, if◌then◌else◌, Result, ok, err, ltb, leb, count_if,
}
use dwh_v.Runs.Model.{
  Kind, kind_job, run_all_parent, run_all_child, Status, planned, queued, running, Trigger,
  trigger_scheduler, Row, Store, RunError, SafeError, Progress,
}
use dwh_v.Runs.Params.{Parameters}

abbrev pub is_executable : Kind → Bool
is_executable kind_job = true
is_executable run_all_parent = false
is_executable run_all_child = true

abbrev pub is_parent : Kind → Bool
is_parent run_all_parent = true
is_parent _ = false

abbrev pub is_planned : Status → Bool
is_planned planned = true
is_planned _ = false

abbrev pub is_queued : Status → Bool
is_queued queued = true
is_queued _ = false

abbrev pub is_running : Status → Bool
is_running running = true
is_running _ = false

-- `column = value`, which is false of a NULL.
abbrev pub text_is : Option String → String → Bool
text_is none value = false
text_is (some s) value = str_eq s value

abbrev pub number_is : Option ℕ → ℕ → Bool
number_is none value = false
number_is (some n) value = n == value

-- The number of rows that an update matches.
abbrev pub affected : (Row → Bool) → List Row → ℕ
affected test rs = count_if test rs

-- `SELECT … WHERE … ORDER BY … LIMIT 1`: of the rows that pass, the first that none comes before.
abbrev pub least : (Row → Row → Bool) → Row → Option Row → Row
least before r none = r
least before r (some s) = if before s r then s else r

unfoldable pub first_row : (Row → Row → Bool) → (Row → Bool) → List Row → Option Row
first_row before test [] = none
first_row before test (r ∷ rs) =
    let rest = first_row before test rs in if test r then some (least before r rest) else rest

-- The generated columns `active_job_key` and `scheduler_trigger_reference`.
abbrev pub active_key : Row → Option String
active_key r =
    if is_executable r.kind && (is_queued r.status || is_running r.status) then r.job_key else none

abbrev pub is_scheduler : Trigger → Bool
is_scheduler trigger_scheduler = true
is_scheduler _ = false

abbrev pub is_job : Kind → Bool
is_job kind_job = true
is_job _ = false

abbrev pub scheduler_key : Row → Option String
scheduler_key r = if is_job r.kind && is_scheduler r.trigger then r.reference else none

-- Two non-NULL values of a unique key agree.
abbrev pub text_clash : Option String → Option String → Bool
text_clash (some a) (some b) = str_eq a b
text_clash _ _ = false

abbrev pub number_clash : Option ℕ → Option ℕ → Bool
number_clash (some a) (some b) = a == b
number_clash _ _ = false

abbrev pub clash : Row → Row → Bool
clash r s =
    text_clash (active_key r) (active_key s)
    || (text_clash (scheduler_key r) (scheduler_key s)
        || (number_clash r.parent s.parent
            && (number_clash r.position s.position || text_clash r.job_key s.job_key)))

-- Some row of the table stands against a new one.
unfoldable pub any_clash : Row → List Row → Bool
any_clash r [] = false
any_clash r (s ∷ ss) = clash r s || any_clash r ss

-- `nullable`
abbrev pub nullable : String → Option String
nullable value = if str_eq value "" then none else some value
