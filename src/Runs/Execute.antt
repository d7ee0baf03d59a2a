-- ===== src/Runs/Execute.antt =====
-- internal/ingestionrun/repository.go: claiming a queued run, and what its owner does until it ends.
pub mod Capacity
pub mod Fairness
use Prim.Native.String.{len}
use dwh_v.Common.{
  ℕ, suc, ◌+◌, ◌≤◌, ◌≡◌, Bool, true, false, ◌&&◌, ◌||◌, not, String, str_eq, Option, none, some,
  List, [], ◌∷◌, ◌==◌, if◌then◌else◌, Result, ok, err, ltb, leb, count_if, is_some,
}
use dwh_v.Ingestion.Dates.{CalendarDate, is_zero}
use dwh_v.Runs.Model.{
  Status, queued, running, succeeded, failed, cancelled, Row, Store, Progress, SafeError, RunError,
  transition, ownership_lost, owner_required, invalid_limit, invalid_status, date_required,
  constraint_violated, valid_runtime_limit,
}
use dwh_v.Runs.Table.{
  is_executable, is_queued, is_running, text_is, update_rows, affected, find_row, first_row,
}
use dwh_v.Runs.Tx.{Tx, pure, ◌>>=◌, ◌>>◌, check, get, put, or_fail}

unfoldable pub running_jobs : List Row → ℕ
running_jobs rs = count_if (λ r. is_executable r.kind && is_running r.status) rs

-- `ORDER BY created_at,id`
abbrev pub by_creation : Row → Row → Bool
by_creation r s = ltb r.created_at s.created_at || (r.created_at == s.created_at && leb r.id s.id)

-- What the owner of a running row may change: `WHERE id=? AND status='running' AND owner_id=?`.
abbrev pub owned : ℕ → String → Row → Bool
owned id owner r = r.id == id && (is_running r.status && text_is r.owner owner)

abbrev pub claim_row : String → ℕ → Row → Row
claim_row owner now r = record r {
  status = running;
  owner = some owner;
  claimed_at = some now;
  heartbeat_at = some now;
  started_at = elim r.started_at [ none ↦ some now | some t ↦ some t ];
}

-- The queued row that `Claim` takes: rows that another transaction has locked are skipped.
unfoldable pub next_queued : (ℕ → Bool) → List Row → Option Row
next_queued locked rs =
    first_row by_creation (λ r. is_executable r.kind && (is_queued r.status && not (locked r.id)))
      rs

-- `Claim`, at time `now`; the answer is the row after the update, as `getRun` reads it.
unfoldable pub claim : String → (ℕ → Bool) → ℕ → Tx (Option Row)
unfolding running_jobs next_queued
claim owner locked now s =
    if not (len owner == 64)
    then err owner_required
    else (if not (valid_runtime_limit s.settings.max_running_jobs)
        then err invalid_limit
        else (if leb s.settings.max_running_jobs (running_jobs s.runs)
            then ok (none, s)
            else elim (next_queued locked s.runs) [
              | none ↦ ok (none, s)
              | some r ↦
                  let taken = λ (x : Row). x.id == r.id && is_queued x.status in
                  let runs = update_rows taken (claim_row owner now) s.runs in
                  if affected taken s.runs == 1
                  then ok (find_row (λ x. x.id == r.id) runs, record s { runs = runs })
                  else err transition
            ]))

-- `HeartbeatResult`
pub record HeartbeatResult : Type 0 where
  pub is_owned : Bool
  pub cancel_requested : Bool

unfoldable pub heartbeat : ℕ → String → ℕ → Store → HeartbeatResult × Store
heartbeat id owner now s =
    let beats = λ (r : Row). is_executable r.kind && owned id owner r in
    let runs = update_rows beats (λ r. record r { heartbeat_at = some now }) s.runs in
    (
      elim (find_row (owned id owner) runs) [
        | none ↦ record { is_owned = false; cancel_requested = false }
        | some r ↦ record { is_owned = true; cancel_requested = is_some r.cancel_requested_at }
      ],
      record s { runs = runs },
    )

-- The check constraint on the progress columns.
abbrev pub progress_valid : Progress → Bool
progress_valid p = leb p.started p.total && leb (p.succeeded + p.failed) p.started

abbrev pub keep_some : Option String → Option String → Option String
keep_some none old = old
keep_some (some d) old = some d

-- `UpdateProgress`, with the diagnostics already in their JSON form.
unfoldable pub update_progress : ℕ → String → Progress → Option String → Tx (Unit {0})
update_progress id owner progress diagnostics s =
    let change = λ (r : Row). record r {
      progress = progress;
      diagnostics = keep_some diagnostics r.diagnostics;
    } in
    if affected (owned id owner) s.runs == 0
    then err ownership_lost
    else (if progress_valid progress
        then ok (tt, record s { runs = update_rows (owned id owner) change s.runs })
        else err constraint_violated)

abbrev pub undated : ℕ → String → Row → Bool
undated id owner r = owned id owner r && not (is_some r.snapshot_date)

unfoldable pub freeze_snapshot_date : ℕ → String → CalendarDate → Tx (Unit {0})
freeze_snapshot_date id owner date s =
    if is_zero date
    then err date_required
    else (if affected (undated id owner) s.runs == 1
        then ok (
          tt,
          record s {
            runs =
                update_rows (undated id owner) (λ r. record r { snapshot_date = some date }) s.runs;
          },
        )
        else err ownership_lost)

abbrev pub is_succeeded : Status → Bool
is_succeeded succeeded = true
is_succeeded _ = false

abbrev pub is_outcome : Status → Bool
is_outcome succeeded = true
is_outcome failed = true
is_outcome cancelled = true
is_outcome _ = false

-- The rows that `finish` changes: success wants that no cancellation was requested.
abbrev pub finishable : ℕ → String → Status → Row → Bool
finishable id owner status r =
    owned id owner r && (not (is_succeeded status) || not (is_some r.cancel_requested_at))

abbrev pub finish_row : Status → SafeError → ℕ → Row → Row
finish_row status error now r = record r { status = status; error = error; finished_at = some now }

-- The function `finish`, and with the status `succeeded` `FinishSucceededInTx`.
unfoldable pub finish_in_tx : ℕ → String → Status → SafeError → ℕ → Tx (Unit {0})
finish_in_tx id owner status error now s =
    if affected (finishable id owner status) s.runs == 1
    then ok (
      tt,
      record s {
        runs = update_rows (finishable id owner status) (finish_row status error now) s.runs;
      },
    )
    else err transition

-- The method `Finish`
unfoldable pub finish : ℕ → String → Status → SafeError → ℕ → Tx (Unit {0})
unfolding finish_in_tx
finish id owner status error now s =
    if is_outcome status then finish_in_tx id owner status error now s else err invalid_status
