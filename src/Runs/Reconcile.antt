-- ===== src/Runs/Reconcile.antt =====
-- internal/ingestionrun/repository.go: a "Run All" parent starts its children one after another and
-- ends with the last.
pub mod Outcome
use Prim.Native.String.{len}
use dwh_v.Common.{
  ℕ, ◌+◌, ◌-◌, Bool, true, false, ◌&&◌, ◌||◌, not, String, str_eq, Option, none, some, List, [],
  ◌∷◌, ◌==◌, if◌then◌else◌, Result, ok, err, ltb, leb, is_some, count_if,
}
use dwh_v.Runs.Model.{
  Status, queued, skipped, cancelled, failed, abandoned, completed, completed_with_skips, Row,
  Store, RunError, no_rows, owner_required, ownership_lost, no_parent_owner,
}
use dwh_v.Runs.Table.{
  is_parent, is_planned, is_queued, is_running, text_is, number_is, text_clash, active_key,
  update_rows, find_row, first_row,
}
use dwh_v.Runs.Submit.{source_enabled}
use dwh_v.Runs.Execute.{owned}
use dwh_v.Runs.Tx.{Tx, pure, ◌>>=◌, ◌>>◌, check, get, put, or_fail}

abbrev pub is_broken : Status → Bool
is_broken failed = true
is_broken cancelled = true
is_broken abandoned = true
is_broken _ = false

abbrev pub is_skipped : Status → Bool
is_skipped skipped = true
is_skipped _ = false

-- How many children of the parent have a status of the kind.
abbrev pub children_with : (Status → Bool) → ℕ → List Row → ℕ
children_with test parent rs = count_if (λ r. number_is r.parent parent && test r.status) rs

unfoldable pub aggregate_parent_status : ℕ → List Row → Status
aggregate_parent_status parent rs =
    if ltb 0 (children_with is_broken parent rs)
    then failed
    else (if ltb 0 (children_with is_skipped parent rs) then completed_with_skips else completed)

abbrev pub is_active : Status → Bool
is_active s = is_queued s || is_running s

abbrev pub end_parent : Status → ℕ → Row → Row
end_parent status now r = record r { status = status; finished_at = some now }

abbrev pub skip_row : String → ℕ → Row → Row
skip_row reason now r = record r {
  status = skipped;
  skip_reason = some reason;
  finished_at = some now;
}

abbrev pub queue_row : Row → Row
queue_row r = record r { status = queued }

-- `ORDER BY child_position`; a child has a position.
abbrev pub by_position : Row → Row → Bool
by_position r s = elim r.position [
  | none ↦ true
  | some i ↦ elim s.position [ none ↦ false | some j ↦ leb i j ]
]

unfoldable pub next_planned : ℕ → List Row → Option Row
next_planned parent rs =
    first_row by_position (λ r. number_is r.parent parent && is_planned r.status) rs

-- Another row is active under the key that the child would have: error 1062 of the update to `queued`.
unfoldable pub key_taken : Row → List Row → Bool
key_taken child [] = false
key_taken child (r ∷ rs) =
    (not (r.id == child.id) && text_clash (active_key (queue_row child)) (active_key r))
    || key_taken child rs

-- The planned child becomes queued, or is skipped.
unfoldable pub advance_child : Row → Bool → ℕ → List Row → List Row
advance_child child enabled now rs =
    if not enabled
    then update_rows (λ r. r.id == child.id) (skip_row "source_disabled" now) rs
    else (if key_taken child rs
        then update_rows (λ r. r.id == child.id) (skip_row "job_busy" now) rs
        else update_rows (λ r. r.id == child.id && is_planned r.status) queue_row rs)

-- `reconcileParentTransaction` once the parent is found.
unfoldable pub reconcile_found : Row → String → ℕ → Tx Bool
unfolding next_planned advance_child aggregate_parent_status
reconcile_found parent owner now = do
  check (not (str_eq owner "")) no_parent_owner
  s ← get
  let beaten =
      update_rows (owned parent.id owner) (λ r. record r { heartbeat_at = some now }) s.runs
  put (record s { runs = beaten })
  if ltb 0 (children_with is_active parent.id beaten)
      then pure false
      else (if is_some parent.cancel_requested_at
          then (do
            put (record s {
              runs = update_rows (owned parent.id owner) (end_parent cancelled now) beaten;
            })
            pure true)
          else elim (next_planned parent.id beaten) [
            | none ↦ do
              put (record s {
                runs =
                    update_rows (owned parent.id owner)
                      (end_parent (aggregate_parent_status parent.id beaten) now) beaten;
              })
              pure true
            | some child ↦ do
              enabled ← source_enabled (elim child.job_key [ none ↦ "" | some k ↦ k ])
              put (record s { runs = advance_child child enabled now beaten })
              pure true
          ])

-- `ReconcileParent`
unfoldable pub reconcile_parent : ℕ → String → ℕ → Tx Bool
unfolding reconcile_found
reconcile_parent id owner now = do
  check (not (id == 0 || not (len owner == 64))) owner_required
  s ← get
  parent ← or_fail (find_row (λ r. owned id owner r && is_parent r.kind) s.runs) ownership_lost
  reconcile_found parent owner now

-- `ReconcileOneParent`: the first running parent, by its id, that no other transaction has locked and
-- that has no active child.
unfoldable pub reconcile_one_parent : (ℕ → Bool) → ℕ → Tx Bool
unfolding reconcile_found
reconcile_one_parent locked now = do
  s ← get
  elim (first_row (λ r t. leb r.id t.id)
      (λ r.
        is_parent r.kind
        && (is_running r.status && (not (locked r.id) && children_with is_active r.id s.runs == 0)))
      s.runs) [
        | none ↦ pure false
        | some parent ↦ reconcile_found parent (elim parent.owner [ none ↦ "" | some o ↦ o ]) now
      ]
