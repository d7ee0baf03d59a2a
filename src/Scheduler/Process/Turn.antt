-- ===== src/Scheduler/Process/Turn.antt =====
-- internal/scheduler/service.go: when `processTransaction` submits a run.
use dwh_v.Common.{
  ℕ, suc, ◌≤◌, leb, ◌≡◌, ap, refl, Bool, true, false, not, ◌&&◌, Option, none, some, ◌==◌, ==_iff,
  is_some, Result, ok, err, arith, if_rule, option_rule, subst, ◌∙◌, ltb,
}
use dwh_v.Common.Tables.{find_row}
use dwh_v.Common.Transactions.{Valued, Valued-bind, pure, get, ◌>>=◌}
use dwh_v.Ingestion.Catalog.{JobDefinition}
use dwh_v.Runs.Model.{
  Row, Status, planned, skipped, completed, completed_with_skips, queued, running, succeeded,
  failed, cancelled, abandoned, RunError, Store as RunStore,
}
use dwh_v.Scheduler.Definitions.{Definition, Cron}
use dwh_v.Scheduler.Model.{
  Schedule, Occurrence, Attempt, Store, SchedulerError, Tx, Service, lock_schedule,
  lock_active_occurrence, latest_attempt, semantic_matches, insert_occurrence,
}
use dwh_v.Scheduler.Occurrences.{parameters_for_occurrence}
use dwh_v.Scheduler.Process.{
  has_come, Verdict, waits, resolves, backs_off, rejects, submits, breaks, verdict, verdict_of_run,
  late_verdict, status_verdict, Delivery, deliver, record_attempt, block_schedule, block_reason,
  parameters_of, answered, submitted, delivery, resolve_success, record_backoff,
  reject_locked_occurrence, Progress, changed, act, process_occurrence, process_valid, due_at,
  process_transaction, create_occurrence, fresh_occurrence, mode_of, is_validated, same_mode,
  reject_invalid, validated,
}

-- What a delivery says about its occurrence.
pub record Of (o : Occurrence) (d : Delivery) : Type 0 where
  pub occurrence : d.occurrence ≡ o.id
  pub attempt : d.attempt ≡ suc o.attempt_count
  pub scheduled_for : d.scheduled_for ≡ o.scheduled_for

-- Of what was done, only a delivery says something.
abbrev Says : (Delivery → Type 0) → Progress → Type 0
Says P none = Unit
Says P (some none) = Unit
Says P (some (some d)) = P d

abbrev Told : (Delivery → Type 0) → Option Delivery → Type 0
Told P none = Unit
Told P (some d) = P d

changed-Says :
    (P : Delivery → Type 0) (m : Tx (Unit {0})) (s : Store) → Valued (Says P) (changed m s)
changed-Says P m s = Valued-bind (Says P) m (λ _. pure (some none)) s (λ _ t. tt)

answered-Told :
    (v : Service) (x : Schedule) (o : Occurrence) (now : ℕ) (r : Result RunError (ℕ × RunStore))
    (t : Store)
    → Valued (Told (Of o)) (answered v x o now r t)
answered-Told v x o now (ok (run, runs)) t =
    Valued-bind (Told (Of o)) (record_attempt v x o run now) (λ _. pure (some (delivery x o run)))
      (record t { runs = runs })
      (λ _ _. record { occurrence = refl; attempt = refl; scheduled_for = refl })
answered-Told v x o now (err e) t =
    option_rule (λ (m : Tx (Option Delivery)). Valued (Told (Of o)) (m t)) (block_reason e)
      (λ _. tt)
      (λ reason _.
        Valued-bind (Told (Of o)) (block_schedule x o reason now) (λ _. pure none) t (λ _ _. tt))

deliver-Told :
    (v : Service) (x : Schedule) (o : Occurrence) (job : JobDefinition) (now : ℕ) (s : Store)
    → Valued (Told (Of o)) (deliver v x o job now s)
unfolding deliver
deliver-Told v x o job now s =
    Valued-bind (Told (Of o))
      (parameters_of
        (parameters_for_occurrence v.calendar v.codec v.rules.jobs v.civil job o.scheduled_for))
      (λ p. get >>= submitted v x o now p) s (λ p t. answered-Told v x o now _ t)

Told-Says :
    (P : Delivery → Type 0) (o : Occurrence) (r : Result SchedulerError (Option Delivery × Store))
    → ((d : Delivery) → Of o d → P d)
    → Valued (Told (Of o)) r
    → Valued (Says P) (elim r as (λ _. Result SchedulerError (Progress × Store)) [
      | ok (d, t) ↦ ok (some d, t)
      | err e ↦ err e
    ])
Told-Says P o (ok (none, t)) f h = tt
Told-Says P o (ok (some d, t)) f h = f d h
Told-Says P o (err e) f h = tt

act-Says :
    (P : Delivery → Type 0) (v : Service) (x : Schedule) (o : Occurrence) (job : JobDefinition)
    (cron : Cron) (now : ℕ) (w : Verdict) (s : Store)
    → (w ≡ submits → (d : Delivery) → Of o d → P d)
    → Valued (Says P) (act v x o job cron now w s)
act-Says P v x o job cron now waits s f = tt
act-Says P v x o job cron now (resolves a run) s f =
    changed-Says P (resolve_success x o a run cron now) s
act-Says P v x o job cron now (backs_off a run) s f = changed-Says P (record_backoff x o a run) s
act-Says P v x o job cron now (rejects cause) s f =
    changed-Says P (reject_locked_occurrence v x o now cause) s
act-Says P v x o job cron now (breaks e) s f = tt
act-Says P v x o job cron now submits s f =
    Told-Says P o (deliver v x o job now s) (f refl) (deliver-Told v x o job now s)

-- A run that ended, and not with success.
abbrev pub went_wrong : Status → Bool
went_wrong failed = true
went_wrong cancelled = true
went_wrong abandoned = true
went_wrong _ = false

-- No attempt of the occurrence is under way: there was none, or the latest one's run went wrong and ended, and the
-- time to wait after it is over.
pub data Idle (o : Occurrence) (now : ℕ) (s : Store) : Type 0 where
  untried : latest_attempt o.id s.attempts ≡ none → o.attempt_count ≡ 0 → Idle o now s
  waited :
      (a : Attempt) (run : Row) (wait : ℕ)
      → latest_attempt o.id s.attempts ≡ some a
      → a.attempt_no ≡ o.attempt_count
      → find_row (λ (r : Row). r.id == a.run) s.runs.runs ≡ some run
      → went_wrong run.status ≡ true
      → is_some run.finished_at ≡ true
      → o.retry_not_before ≡ some wait
      → wait ≤ now
      → Idle o now s

-- Of a run that ended, the verdict is to submit again only after the wait.
late_submits :
    (o : Occurrence) (a : Attempt) (now : ℕ) (run : Row)
    → late_verdict o a now run ≡ submits
    → (is_some run.finished_at ≡ true)
      × ((wait : ℕ) × (o.retry_not_before ≡ some wait) × (wait ≤ now))
late_submits o a now run e =
    if_rule (λ z. z ≡ submits → A) (is_some run.finished_at)
      (λ ended.
        option_rule (λ z. z ≡ submits → A) o.retry_not_before (λ _ c. cc)
          (λ t at.
            if_rule (λ z. z ≡ submits → A) (ltb now t) (λ _ c. cc)
              (λ over _. (ended, (t, at, ground (arith, over))))))
      (λ _ c. cc) e
  where
    A : Type 0
    A =
        (is_some run.finished_at ≡ true)
        × ((wait : ℕ) × (o.retry_not_before ≡ some wait) × (wait ≤ now))

verdict_of_run-submits :
    (o : Occurrence) (a : Attempt) (now : ℕ) (run : Row)
    → verdict_of_run o a now run ≡ submits
    → (went_wrong run.status ≡ true) × (late_verdict o a now run ≡ submits)
verdict_of_run-submits o a now run e = go run.status e
  where
    go :
        (st : Status)
        → status_verdict a run (late_verdict o a now run) st ≡ submits
        → (went_wrong st ≡ true) × (late_verdict o a now run ≡ submits)
    go succeeded c = cc
    go queued c = cc
    go running c = cc
    go failed c = (refl, c)
    go cancelled c = (refl, c)
    go abandoned c = (refl, c)
    go planned c = cc
    go skipped c = cc
    go completed c = cc
    go completed_with_skips c = cc

verdict-Idle : (o : Occurrence) (now : ℕ) (s : Store) → verdict o now s ≡ submits → Idle o now s
unfolding verdict
verdict-Idle o now s e =
    option_rule P (latest_attempt o.id s.attempts)
      (λ none_yet.
        if_rule P (o.attempt_count == 0) (λ zero _. untried none_yet ((==_iff _ _).0 zero))
          (λ _ c. cc))
      (λ a latest.
        if_rule P (a.attempt_no == o.attempt_count)
          (λ same.
            option_rule P (find_row (λ r. r.id == a.run) s.runs.runs) (λ _ c. cc)
              (λ run f c.
                let w = verdict_of_run-submits o a now run c in
                let l = late_submits o a now run w.1 in
                waited a run l.1.0 latest ((==_iff _ _).0 same) f w.0 l.0 l.1.1 l.1.2))
          (λ _ c. cc))
      e
  where
    P : Verdict → Type 0
    P z = z ≡ submits → Idle o now s

-- The occurrence of a delivery, and why it was its turn.
pub data Basis (v : Service) (x : Schedule) (cursor now : ℕ) (s : Store) (d : Delivery)
    : Type 0 where
  first :
      lock_active_occurrence x.id s ≡ none
      → d.attempt ≡ 1
      → d.scheduled_for ≡ cursor
      → Basis v x cursor now s d
  again :
      (o : Occurrence)
      → lock_active_occurrence x.id s ≡ some o
      → Idle o now s
      → Of o d
      → d.scheduled_for ≡ cursor
      → Basis v x cursor now s d

process_occurrence-Says :
    (P : Delivery → Type 0) (v : Service) (x : Schedule) (o : Occurrence) (d : Definition)
    (job : JobDefinition) (cron : Cron) (now : ℕ) (s : Store)
    → (verdict o now s ≡ submits → (e : Delivery) → Of o e → P e)
    → Valued (Says P) (process_occurrence v x o d job cron now s)
unfolding process_occurrence
process_occurrence-Says P v x o d job cron now s f =
    if_rule Q (not (semantic_matches o.definition d))
      (λ _.
        changed-Says P
          (reject_locked_occurrence v x o now "occurrence definition differs from schedule") s)
      (λ _.
        if_rule Q
          (not (
            is_validated o.identity_source
            && same_mode o.resolution_mode (mode_of job.date_strategy)))
          (λ _.
            changed-Says P
              (reject_locked_occurrence v x o now "occurrence resolution contract is invalid") s)
          (λ _. act-Says P v x o job cron now (verdict o now s) s f))
  where
    Q : Tx Progress → Type 0
    Q m = Valued (Says P) (m s)

process_valid-Says :
    (v : Service) (x : Schedule) (cursor : ℕ) (d : Definition) (job : JobDefinition) (cron : Cron)
    (now : ℕ) (s : Store)
    → Valued (Says (Basis v x cursor now s)) (process_valid v x cursor d job cron now s)
unfolding process_valid create_occurrence
process_valid-Says v x cursor d job cron now s =
    option_rule Q (lock_active_occurrence x.id s) (λ e. fresh e (insert_occurrence o s))
      (λ p e.
        if_rule Q (p.scheduled_for == cursor)
          (λ at.
            process_occurrence-Says P v x p d job cron now s
              (λ w z q. again p e (verdict-Idle p now s w) q (q.scheduled_for ∙ (==_iff _ _).0 at)))
          (λ _.
            changed-Says P
              (reject_locked_occurrence v x p now "active occurrence does not match durable cursor")
              s))
  where
    P : Delivery → Type 0
    P = Basis v x cursor now s

    Q : Tx Progress → Type 0
    Q m = Valued (Says P) (m s)

    o : Occurrence
    o = fresh_occurrence s.next_occurrence x cursor (mode_of job.date_strategy)

    next : Occurrence → Tx Progress
    next p = process_occurrence v x p d job cron now

    fresh :
        lock_active_occurrence x.id s ≡ none
        → (r : Result SchedulerError (Unit {0} × Store))
        → Valued
            (Says P)
            (elim (elim r as (λ _. Result SchedulerError (Occurrence × Store)) [
              | ok (_, t) ↦ ok (o, t)
              | err e ↦ err e
            ])
              as (λ _. Result SchedulerError (Progress × Store)) [
                | ok (p, t) ↦ next p t
                | err e ↦ err e
              ])
    fresh e (ok (_, t)) =
        process_occurrence-Says P v x o d job cron now t
          (λ _ z q. first e q.attempt q.scheduled_for)
    fresh e (err x) = tt

-- The schedule runs, its cursor has come, and so has the time before which nothing is to be delivered.
pub record IsDue (x : Schedule) (now cursor : ℕ) : Type 0 where
  pub enabled : x.enabled ≡ true
  pub not_archived : x.archived_at ≡ none
  pub at : x.next_run_at ≡ some cursor
  pub has_passed : cursor ≤ now
  pub may_deliver : (t : ℕ) → x.not_before ≡ some t → t ≤ now

due_at-IsDue : (x : Schedule) (now cursor : ℕ) → due_at x now ≡ some cursor → IsDue x now cursor
due_at-IsDue x now cursor h = go x.archived_at refl x.next_run_at refl
  where
    go :
        (a : Option ℕ) → x.archived_at ≡ a → (n : Option ℕ) → x.next_run_at ≡ n → IsDue x now cursor
    go (some t) e n f = absurd (ground (arith, h, e))
    go none e none f = absurd (ground (arith, h, e, f))
    go none e (some t) f =
        let both : (x.enabled && has_come x.not_before now ≡ true)
            × (leb t now ≡ true)
            × (t ≡ cursor) =
          ground (arith, h, e, f) in
        record {
          enabled = ground (arith, both.0);
          not_archived = e;
          at = f ∙ ap some both.2;
          has_passed = let z = both.1 in let w = both.2 in ground (arith, z, w);
          may_deliver = λ u g.
              let z = subst (λ o. x.enabled && has_come o now ≡ true) g both.0 in ground (arith, z);
        }

-- A delivery was the turn of the schedule.
pub record Turn (v : Service) (id now : ℕ) (s : Store) (d : Delivery) : Type 0 where
  pub schedule : Schedule
  pub found : lock_schedule id s ≡ some schedule
  pub cursor : ℕ
  pub due : IsDue schedule now cursor
  pub basis : Basis v schedule cursor now s d

process_transaction-Says :
    (v : Service) (id now : ℕ) (s : Store)
    → Valued (Says (Turn v id now s)) (process_transaction v id now s)
unfolding process_transaction
process_transaction-Says v id now s =
    option_rule Q (lock_schedule id s) (λ _. tt)
      (λ x e.
        option_rule Q (due_at x now) (λ _. tt)
          (λ cursor due.
            option_rule Q (validated v x cursor now)
              (λ _. changed-Says P (reject_invalid v x cursor now "invalid schedule definition") s)
              (λ w _.
                lift x cursor e due (process_valid v x cursor w.0 w.1.0 w.1.1 now s)
                  (process_valid-Says v x cursor w.0 w.1.0 w.1.1 now s))))
  where
    P : Delivery → Type 0
    P = Turn v id now s

    Q : Tx Progress → Type 0
    Q m = Valued (Says P) (m s)

    lift :
        (x : Schedule) (cursor : ℕ)
        → lock_schedule id s ≡ some x
        → due_at x now ≡ some cursor
        → (r : Result SchedulerError (Progress × Store)) → Valued (Says (Basis v x cursor now s)) r
        → Valued (Says P) r
    lift x cursor e due (ok (none, t)) h = tt
    lift x cursor e due (ok (some none, t)) h = tt
    lift x cursor e due (ok (some (some d), t)) h = record {
      schedule = x;
      found = e;
      cursor = cursor;
      due = due_at-IsDue x now cursor due;
      basis = h;
    }
    lift x cursor e due (err z) h = tt

-- When the processing of a schedule delivers a run, the schedule is enabled and not archived, its cursor has come, and
-- so has the time, if one is set, before which nothing is delivered. Either no occurrence was unresolved and the run
-- is the first attempt of a new one at the cursor; or the run is the next attempt of the unresolved occurrence at the
-- cursor, whose latest attempt, if there was one, ended without success, and the time to wait after it is over.
pub delivery-Turn :
    (v : Service) (id now : ℕ) (s t : Store) (d : Delivery)
    → process_transaction v id now s ≡ ok (some (some d), t)
    → Turn v id now s d
delivery-Turn v id now s t d e =
    subst (Valued (Says (Turn v id now s))) e (process_transaction-Says v id now s)
