-- ===== src/Runs/Recover.antt =====
-- internal/ingestionrun/repository.go: taking a run from an owner that no longer gives signs of life.
use Prim.Native.String.{len}
use dwh_v.Common.{
  ℕ, suc, ◌+◌, ◌-◌, Bool, true, false, ◌&&◌, ◌||◌, not, String, str_eq, Option, none, some, List,
  [], ◌∷◌, ◌==◌, if◌then◌else◌, ok, err, ltb, leb, is_some,
}
use dwh_v.Ingestion.Catalog.{JobDefinition}
use dwh_v.Runs.Params.{Range, decode_range}
use dwh_v.Runs.Model.{
  Kind, abandoned, Row, Env, SafeError, abandoned_recovered, transition, no_rows, recovery_input,
  not_canonical, not_a_range,
}
use dwh_v.Runs.Table.{
  is_parent, is_running, text_is, number_is, update_rows, affected, find_row, first_row,
}
use dwh_v.Runs.Submit.{append_audit, checked, insert_child}
use dwh_v.Runs.Tx.{Tx, pure, ◌>>=◌, ◌>>◌, check, get, put, or_fail}

-- `Recovery`
pub record Recovery : Type 0 where
  pub run : ℕ
  pub parent : Option ℕ
  pub kind : Kind
  pub job_key : Option String
  pub previous_owner : String
  pub previous_heartbeat : ℕ
  pub new_owner : Option String

-- `heartbeat_at < now - lease`, of a running row with an owner.
abbrev pub expired : ℕ → ℕ → Option ℕ → Bool
expired lease now none = false
expired lease now (some beat) = ltb (beat + lease) now

abbrev pub stale : ℕ → ℕ → Row → Bool
stale lease now r = is_running r.status && (is_some r.owner && expired lease now r.heartbeat_at)

-- `ORDER BY heartbeat_at,id`; a stale row has a heartbeat.
abbrev pub beat_le : Option ℕ → Option ℕ → ℕ → ℕ → Bool
beat_le (some a) (some b) i j = ltb a b || (a == b && leb i j)
beat_le _ _ i j = leb i j

-- The row that a recovery found, with the owner and the heartbeat that it read.
pub record Candidate : Type 0 where
  pub row : Row
  pub owner : String
  pub heartbeat : ℕ

abbrev pub candidate_of : Row → Option String → Option ℕ → Option Candidate
candidate_of r (some owner) (some beat) = some (record { row = r; owner = owner; heartbeat = beat })
candidate_of r _ _ = none

unfoldable pub find_stale : ℕ → ℕ → List Row → Option Candidate
find_stale lease now rs =
    elim (first_row (λ r s. beat_le r.heartbeat_at s.heartbeat_at r.id s.id) (stale lease now) rs) [
      | none ↦ none
      | some r ↦ candidate_of r r.owner r.heartbeat_at
    ]

-- The rows that still stand as the recovery read them, the exact owner and heartbeat included; the
-- update of a parent asks for its kind as well.
abbrev pub unrenewed : ℕ → ℕ → Candidate → Row → Bool
unrenewed lease now c r =
    r.id == c.row.id
    && (is_running r.status
        && (text_is r.owner c.owner
            && (number_is r.heartbeat_at c.heartbeat
                && (expired lease now r.heartbeat_at
                    && (not (is_parent c.row.kind) || is_parent r.kind)))))

abbrev pub abandon_row : SafeError → ℕ → Row → Row
abandon_row error now r = record r {
  status = abandoned;
  error = error;
  previous_owner = r.owner;
  previous_heartbeat = r.heartbeat_at;
  finished_at = some now;
}

abbrev pub adopt_row : String → ℕ → Row → Row
adopt_row owner now r = record r {
  owner = some owner;
  claimed_at = some now;
  heartbeat_at = some now;
}

abbrev pub expired_error : SafeError
expired_error = record {
  class = "abandoned";
  message = "Worker ownership expired; stale execution recovered automatically.";
  step = "ownership_lease";
}

abbrev pub recovery_of : Candidate → Option String → Recovery
recovery_of c new_owner = record {
  run = c.row.id;
  parent = c.row.parent;
  kind = c.row.kind;
  job_key = c.row.job_key;
  previous_owner = c.owner;
  previous_heartbeat = c.heartbeat;
  new_owner = new_owner;
}

-- The children that a parent has, by position.
abbrev pub child_at : ℕ → ℕ → Row → Bool
child_at parent position r = number_is r.parent parent && number_is r.position position

abbrev pub key_at : List JobDefinition → ℕ → Option String
key_at [] n = none
key_at (j ∷ js) n = if n == 0 then some j.key else key_at js (n - 1)

abbrev pub keys_agree : Option String → Option String → Bool
keys_agree (some a) (some b) = str_eq a b
keys_agree _ _ = false

-- Every child stands at the position of its job.
abbrev pub child_canonical : List JobDefinition → Option ℕ → Option String → Bool
child_canonical jobs none key = false
child_canonical jobs (some position) key =
    not (position == 0) && keys_agree (key_at jobs (position - 1)) key

unfoldable pub children_canonical : List JobDefinition → ℕ → List Row → Bool
children_canonical jobs parent [] = true
children_canonical jobs parent (r ∷ rs) =
    (not (number_is r.parent parent) || child_canonical jobs r.position r.job_key)
    && children_canonical jobs parent rs

abbrev pub exactly : ℕ → String → ℕ → Row → Bool
exactly id owner beat r =
    r.id == id && (is_running r.status && (text_is r.owner owner && number_is r.heartbeat_at beat))

-- `RecoverAbandoned` leaves `error_step` as it was.
abbrev pub abandon_by_hand : String → ℕ → Row → Row
abandon_by_hand why now r =
    abandon_row (record { class = "abandoned"; message = why; step = r.error.step }) now r

module _ (v : Env) where
  -- The second loop of `ensureRunAllChildren`: the positions that have no child get one.
  unfoldable pub fill_children :
      ℕ → Option ℕ → Range → ℕ → List Row → ℕ → List JobDefinition → Tx (Unit {0})
  fill_children parent requester range now existing position [] = pure tt
  fill_children parent requester range now existing position (j ∷ js) =
      (if is_some (find_row (child_at parent position) existing)
        then pure tt
        else insert_child v parent requester range.from range.to now position j)
      >> fill_children parent requester range now existing (suc position) js

  unfoldable pub ensure_run_all_children : ℕ → ℕ → Tx (Unit {0})
  ensure_run_all_children parent now = do
    s ← get
    row ← or_fail (find_row (λ r. r.id == parent) s.runs) no_rows
    range ← checked (decode_range v.calendar v.codec row.parameters) not_a_range
    check (children_canonical v.jobs parent s.runs) not_canonical
    fill_children parent row.requested_by range now s.runs 1 v.jobs

  -- The transaction of `RecoverOneStale` behind its read: a compare and swap on the candidate.
  unfoldable pub recover_candidate : ℕ → String → ℕ → Candidate → Tx (Option Recovery)
  unfolding ensure_run_all_children
  recover_candidate lease replacement now c s =
      if not (affected (unrenewed lease now c) s.runs == 1)
      then ok (none, s)
      else (if is_parent c.row.kind
          then (do
            put (record s {
              runs = update_rows (unrenewed lease now c) (adopt_row replacement now) s.runs;
            })
            ensure_run_all_children c.row.id now
            pure (some (recovery_of c (some replacement))))
              s
          else ok (
            some (recovery_of c none),
            record s {
              runs = update_rows (unrenewed lease now c) (abandon_row expired_error now) s.runs;
            },
          ))

  -- One round of the loop of `RecoverOneStale`.
  unfoldable pub recover_one_stale : ℕ → String → ℕ → Tx (Option Recovery)
  unfolding recover_candidate find_stale
  recover_one_stale lease replacement now s =
      if lease == 0 || not (len replacement == 64)
      then err recovery_input
      else elim (find_stale lease now s.runs) [
        | none ↦ ok (none, s)
        | some c ↦ recover_candidate lease replacement now c s
      ]

  -- `RecoverAbandoned`; a zero expected heartbeat is `none`.
  unfoldable pub recover_abandoned : ℕ → String → Option ℕ → String → ℕ → Tx (Unit {0})
  recover_abandoned id owner none reason now s = err recovery_input
  recover_abandoned id owner (some beat) reason now s =
      let why = v.safe_text 500 reason in
      if str_eq owner "" || str_eq why ""
      then err recovery_input
      else (if affected (exactly id owner beat) s.runs == 1
          then append_audit abandoned_recovered id (record s {
            runs = update_rows (exactly id owner beat) (abandon_by_hand why now) s.runs;
          })
          else err transition)
