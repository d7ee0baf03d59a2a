-- ===== src/Runs/Cancel.antt =====
-- internal/ingestionrun/repository.go, `RequestCancellation`.
pub mod Success
use dwh_v.Common.{
  ℕ, Bool, true, false, ◌&&◌, ◌||◌, String, Option, none, some, List, ◌==◌, if◌then◌else◌, Result,
  ok, err,
}
use dwh_v.Runs.Model.{
  Kind, Status, cancelled, is_terminal, Row, Store, Env, RunError, cancellation_requested, no_rows,
}
use dwh_v.Runs.Table.{
  is_parent, is_planned, is_queued, is_running, number_is, update_rows, find_row, nullable,
}
use dwh_v.Runs.Submit.{append_audit}
use dwh_v.Runs.Tx.{Tx, pure, ◌>>=◌, ◌>>◌, get, put, or_fail}

-- A request that the owner of the row has to see.
abbrev pub flag_row : Option String → ℕ → Row → Row
flag_row reason now r = record r { cancel_requested_at = some now; cancel_reason = reason }

-- A row that no one has started ends at once.
abbrev pub cancel_row : Option String → ℕ → Row → Row
cancel_row reason now r = record r {
  status = cancelled;
  cancel_requested_at = some now;
  cancel_reason = reason;
  finished_at = some now;
}

abbrev pub waiting : Status → Bool
waiting s = is_planned s || is_queued s

-- The three updates for a "Run All" parent.
unfoldable pub cancel_family : ℕ → Option String → ℕ → List Row → List Row
cancel_family id reason now rs =
    update_rows (λ r. number_is r.parent id && is_running r.status) (flag_row reason now)
      (update_rows (λ r. number_is r.parent id && waiting r.status) (cancel_row reason now)
        (update_rows (λ r. r.id == id) (flag_row reason now) rs))

unfoldable pub cancel_rows : Row → ℕ → Option String → ℕ → List Row → List Row
unfolding cancel_family
cancel_rows row id reason now rs =
    if is_parent row.kind
    then cancel_family id reason now rs
    else (if waiting row.status
        then update_rows (λ r. r.id == id) (cancel_row reason now) rs
        else update_rows (λ r. r.id == id) (flag_row reason now) rs)

-- `RequestCancellation`: `false` if the run has already ended.
unfoldable pub request_cancellation : Env → ℕ → String → ℕ → Tx Bool
unfolding cancel_rows
request_cancellation v id reason now = do
  s ← get
  row ← or_fail (find_row (λ r. r.id == id) s.runs) no_rows
  if is_terminal row.status then pure false else (do
    put (record s { runs = cancel_rows row id (nullable (v.safe_text 255 reason)) now s.runs })
    append_audit cancellation_requested id
    pure true)
