-- ===== src/Runs/Lifecycle/Steps.antt =====
-- Every transaction of the repository moves runs along the arrows of the diagram.
use dwh_v.Common.{
  ℕ, ◌≡◌, refl, Bool, true, ◌&&◌, not, String, Option, List, if◌then◌else◌, arith, ◌==◌, if_rule,
  option_rule, Result, ok, err, leb,
}
use Prim.Native.String.{len}
use dwh_v.Ingestion.Dates.{CalendarDate, is_zero}
use dwh_v.Runs.Lifecycle.{
  Advances, Advances-IsPreorder, Advances-update, also, here, start, succeed, break, stop, ◌⟶◌,
  ◌⟶*◌,
}
use dwh_v.Runs.Model.{
  Status, planned, queued, running, succeeded, failed, skipped, cancelled, abandoned, completed,
  completed_with_skips, valid_runtime_limit, Row, Store, Progress, SafeError, RunError, transition,
}
use dwh_v.Runs.Table.{update_rows, affected, find_row, is_queued, is_running, is_planned, text_is}
use dwh_v.Runs.Tx.{Committed, Keeps}
use dwh_v.Runs.Execute.{
  claim, claim_row, running_jobs, next_queued, owned, heartbeat, update_progress,
  freeze_snapshot_date, finish, finishable, finish_row, undated, is_outcome, progress_valid,
}

pub from_running : {t : Status} (s : Status) → is_running s ≡ true → running ⟶ t → s ⟶* t
from_running running e a = also a here
from_running planned e a = cc
from_running queued e a = cc
from_running succeeded e a = cc
from_running _ e a = cc

pub from_queued : {t : Status} (s : Status) → is_queued s ≡ true → queued ⟶ t → s ⟶* t
from_queued queued e a = also a here
from_queued planned e a = cc
from_queued running e a = cc
from_queued _ e a = cc

pub from_planned : {t : Status} (s : Status) → is_planned s ≡ true → planned ⟶ t → s ⟶* t
from_planned planned e a = also a here
from_planned queued e a = cc
from_planned running e a = cc
from_planned _ e a = cc

pub and_left : (a b : Bool) → (a && b) ≡ true → a ≡ true
and_left a b h = ground arith

pub and_right : (a b : Bool) → (a && b) ≡ true → b ≡ true
and_right a b h = ground arith

-- What `owned` says of the status.
pub owned_running :
    (id : ℕ) (owner : String) (r : Row) → owned id owner r ≡ true → is_running r.status ≡ true
owned_running id owner r h = and_left _ (text_is r.owner owner) (and_right (r.id == id) _ h)

kept : (s : Store) → Advances s s
kept = Advances-IsPreorder.same

abbrev with_runs : Store → List Row → Store
with_runs s rs = record s { runs = rs }

pub claim-Advances :
    (owner : String) (locked : ℕ → Bool) (now : ℕ) → Keeps Advances (claim owner locked now)
unfolding claim
claim-Advances owner locked now s =
    if_rule P (not (len owner == 64)) (λ _. tt)
      (λ _.
        if_rule P (not (valid_runtime_limit s.settings.max_running_jobs)) (λ _. tt)
          (λ _.
            if_rule P (leb s.settings.max_running_jobs (running_jobs s.runs)) (λ _. kept s)
              (λ _. option_rule P (next_queued locked s.runs) (λ _. kept s) (λ r _. taken r))))
  where
    P : Result RunError (Option Row × Store) → Type 0
    P = Committed Advances s

    taken :
        (r : Row)
        → P (
            if affected (λ (x : Row). x.id == r.id && is_queued x.status) s.runs == 1
            then ok (
              find_row
                  (λ x. x.id == r.id)
                  (update_rows
                    (λ (x : Row). x.id == r.id && is_queued x.status)
                    (claim_row owner now)
                    s.runs),
              with_runs s (
                  update_rows
                    (λ (x : Row). x.id == r.id && is_queued x.status)
                    (claim_row owner now)
                    s.runs),
            )
            else err transition)
    taken r =
        if_rule P (affected (λ (x : Row). x.id == r.id && is_queued x.status) s.runs == 1)
          (λ _.
            Advances-update s _ (claim_row owner now) (λ _. refl)
              (λ x h. record {
                same = refl;
                moves = from_queued x.status (and_right (x.id == r.id) _ h) start;
              }))
          (λ _. tt)

pub heartbeat-Advances :
    (id : ℕ) (owner : String) (now : ℕ) (s : Store) → Advances s (heartbeat id owner now s).1
unfolding heartbeat
heartbeat-Advances id owner now s =
    Advances-update s _ _ (λ _. refl) (λ _ _. record { same = refl; moves = here })

pub update_progress-Advances :
    (id : ℕ) (owner : String) (progress : Progress) (diagnostics : Option String)
    → Keeps Advances (update_progress id owner progress diagnostics)
unfolding update_progress
update_progress-Advances id owner progress diagnostics s =
    if_rule P (affected (owned id owner) s.runs == 0) (λ _. tt)
      (λ _.
        if_rule P (progress_valid progress)
          (λ _.
            Advances-update s (owned id owner) _ (λ _. refl)
              (λ _ _. record { same = refl; moves = here }))
          (λ _. tt))
  where
    P : Result RunError (Unit {0} × Store) → Type 0
    P = Committed Advances s

pub freeze_snapshot_date-Advances :
    (id : ℕ) (owner : String) (date : CalendarDate)
    → Keeps Advances (freeze_snapshot_date id owner date)
unfolding freeze_snapshot_date
freeze_snapshot_date-Advances id owner date s =
    if_rule P (is_zero date) (λ _. tt)
      (λ _.
        if_rule P (affected (undated id owner) s.runs == 1)
          (λ _.
            Advances-update s (undated id owner) _ (λ _. refl)
              (λ _ _. record { same = refl; moves = here }))
          (λ _. tt))
  where
    P : Result RunError (Unit {0} × Store) → Type 0
    P = Committed Advances s

-- The arrow to each outcome of an execution.
to_outcome : (t : Status) → is_outcome t ≡ true → running ⟶ t
to_outcome succeeded h = succeed
to_outcome failed h = break
to_outcome cancelled h = stop
to_outcome planned h = cc
to_outcome queued h = cc
to_outcome running h = cc
to_outcome skipped h = cc
to_outcome abandoned h = cc
to_outcome completed h = cc
to_outcome completed_with_skips h = cc

pub finish-Advances :
    (id : ℕ) (owner : String) (status : Status) (error : SafeError) (now : ℕ)
    → Keeps Advances (finish id owner status error now)
unfolding finish
finish-Advances id owner status error now s =
    if_rule P (is_outcome status)
      (λ good.
        if_rule P (affected (finishable id owner status) s.runs == 1)
          (λ _.
            Advances-update s (finishable id owner status) (finish_row status error now) (λ _. refl)
              (λ r h. record {
                same = refl;
                moves =
                    from_running r.status (owned_running id owner r (and_left _ _ h))
                      (to_outcome status good);
              }))
          (λ _. tt))
      (λ _. tt)
  where
    P : Result RunError (Unit {0} × Store) → Type 0
    P = Committed Advances s
