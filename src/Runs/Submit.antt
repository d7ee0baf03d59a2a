-- ===== src/Runs/Submit.antt =====
-- internal/ingestionrun/repository.go: submitting a run, and a "Run All" parent with its children.
use dwh_v.Common.{
  ℕ, suc, Bool, ◌&&◌, not, String, str_eq, Option, none, some, List, [], ◌∷◌, ◌++◌, ◌==◌,
  if◌then◌else◌, ok, err,
}
use dwh_v.Ingestion.Dates.{CalendarDate}
use dwh_v.Ingestion.Catalog.{JobDefinition, find_job}
use dwh_v.Runs.Params.{Parameters, Checked, validate, parameters_for_job, new_run_all_range}
use dwh_v.Runs.Model.{
  Kind, kind_job, run_all_parent, run_all_child, Status, planned, queued, running, Trigger,
  trigger_run_all, Row, Source, Profile, Env, AuditAction, run_submitted, run_all_submitted,
  RunError, job_busy, source_disabled, source_configuration_required, reference_required,
  unknown_run_job, invalid_parameters, no_rows, duplicate_key,
}
use dwh_v.Runs.Table.{is_running, is_scheduler, any_clash, update_rows, nullable}
use dwh_v.Runs.Tx.{Tx, pure, ◌>>=◌, ◌>>◌, check, get, put, or_fail}

-- The row of an insertion: the columns that the statement does not name have their defaults.
abbrev pub new_row :
    Kind
    → Option ℕ
    → Option ℕ
    → String
    → Status
    → Parameters
    → Trigger
    → String
    → Option ℕ
    → ℕ
    → ℕ
    → Row
new_row kind parent position key status parameters trigger reference requested_by now id = record {
  id = id;
  kind = kind;
  parent = parent;
  position = position;
  job_key = nullable key;
  status = status;
  parameters = parameters;
  trigger = trigger;
  reference = nullable reference;
  requested_by = requested_by;
  skip_reason = none;
  cancel_requested_at = none;
  cancel_reason = none;
  owner = none;
  claimed_at = none;
  heartbeat_at = none;
  snapshot_date = none;
  progress = record { total = 0; started = 0; succeeded = 0; failed = 0; rows = 0; step = "" };
  diagnostics = none;
  error = record { class = ""; message = ""; step = "" };
  previous_owner = none;
  previous_heartbeat = none;
  created_at = now;
  started_at = none;
  finished_at = none;
}

-- `INSERT INTO ingestion_runs (…)`. A clash on a unique key is
-- the MySQL error 1062.
unfoldable pub insert_run :
    Kind
    → Option ℕ
    → Option ℕ
    → String
    → Status
    → Parameters
    → Trigger
    → String
    → Option ℕ
    → ℕ
    → Tx ℕ
insert_run kind parent position key status parameters trigger reference requested_by now = do
  s ← get
  let row =
      new_row kind parent position key status parameters trigger reference requested_by now
        s.next_id
  check (not (any_clash row s.runs)) duplicate_key
  put (record s { runs = s.runs ++ row ∷ []; next_id = suc s.next_id })
  pure s.next_id

-- `appendRunAudit`
unfoldable pub append_audit : AuditAction → ℕ → Tx (Unit {0})
append_audit action run s = ok (tt, record s { audits = (action, run) ∷ s.audits })

abbrev pub find_source : String → List Source → Option Source
find_source key [] = none
find_source key (s ∷ ss) = if str_eq s.key key then some s else find_source key ss

abbrev pub find_profile : ℕ → List Profile → Option Profile
find_profile id [] = none
find_profile id (p ∷ ps) = if p.id == id then some p else find_profile id ps

unfoldable pub source_enabled : String → Tx Bool
source_enabled key = do
  s ← get
  source ← or_fail (find_source key s.sources) no_rows
  pure source.enabled

unfoldable pub source_ready : String → Tx (Unit {0})
source_ready key = do
  s ← get
  source ← or_fail (find_source key s.sources) no_rows
  check source.enabled source_disabled
  id ← or_fail source.profile source_configuration_required
  profile ← or_fail (find_profile id s.profiles) source_configuration_required
  check profile.active source_configuration_required

abbrev pub checked : {A : Type 0} → Checked A → RunError → Tx A
checked (ok a) e s = ok (a, s)
checked (err _) e s = err e

-- Error 1062 of an insertion is `ErrJobBusy`.
abbrev pub busy_of_duplicate : RunError → RunError
busy_of_duplicate duplicate_key = job_busy
busy_of_duplicate e = e

abbrev pub on_error {ℓ} : {A : Type ℓ} → (RunError → RunError) → Tx A → Tx A
on_error f m s = elim (m s) [ ok r ↦ ok r | err e ↦ err (f e) ]

-- The first owner of a "Run All" parent.
abbrev pub own_parent : String → ℕ → Row → Row
own_parent owner now r = record r {
  owner = some owner;
  claimed_at = some now;
  heartbeat_at = some now;
  started_at = some now;
}

module _ (v : Env) where
  -- `submitInTx`
  unfoldable pub submit_in_tx : String → Parameters → Trigger → String → Option ℕ → Bool → ℕ → Tx ℕ
  submit_in_tx key parameters trigger reference requester require_auth now = do
    check (not (is_scheduler trigger && str_eq (v.trim_space reference) "")) reference_required
    job ← or_fail (find_job key v.jobs) unknown_run_job
    checked (validate v.calendar v.codec parameters job) invalid_parameters
    if require_auth
        then source_ready key
        else (do enabled ← source_enabled key; check enabled source_disabled)
    on_error busy_of_duplicate
        (insert_run kind_job none none key queued parameters trigger reference requester now)

  -- `submit`; `by_hand` says whether a requester is to be audited.
  unfoldable pub submit : String → Parameters → Trigger → String → Option ℕ → Bool → Bool → ℕ → Tx ℕ
  submit key parameters trigger reference requester by_hand require_auth now = do
    id ← submit_in_tx key parameters trigger reference requester require_auth now
    if by_hand then append_audit run_submitted id else pure tt
    pure id

  -- One child of the loop of `createRunAll` and of `ensureRunAllChildren`.
  unfoldable pub insert_child :
      ℕ → Option ℕ → CalendarDate → CalendarDate → ℕ → ℕ → JobDefinition → Tx (Unit {0})
  insert_child parent requester from to now position job = do
    parameters ←
        checked (parameters_for_job v.calendar v.codec v.jobs job from to) invalid_parameters
    _ ←
        insert_run run_all_child (some parent) (some position) job.key planned parameters
          trigger_run_all (v.print_id parent) requester now
    pure tt

  unfoldable pub insert_children :
      ℕ → Option ℕ → CalendarDate → CalendarDate → ℕ → ℕ → List JobDefinition → Tx (Unit {0})
  insert_children parent requester from to now position [] = pure tt
  insert_children parent requester from to now position (j ∷ js) =
      insert_child parent requester from to now position j
      >> insert_children parent requester from to now (suc position) js

  unfoldable pub create_run_all :
      CalendarDate → CalendarDate → Trigger → String → Option ℕ → Bool → String → ℕ → Tx ℕ
  create_run_all from to trigger reference requester by_hand owner now = do
    parameters ← checked (new_run_all_range v.calendar v.codec from to) invalid_parameters
    id ← insert_run run_all_parent none none "" running parameters trigger reference requester now
    s ← get
    put (record s {
      runs = update_rows (λ r. r.id == id && is_running r.status) (own_parent owner now) s.runs;
    })
    insert_children id requester from to now 1 v.jobs
    if by_hand then append_audit run_all_submitted id else pure tt
    pure id
