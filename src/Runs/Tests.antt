-- ===== src/Runs/Tests.antt =====
-- Runs of the model of internal/ingestionrun on small tables.
use mathlib.Core.List.{Memᴰ}
use dwh_v.Common.{
  ℕ, ◌≤◌, ◌<◌, ◌≡◌, refl, true, false, String, Option, none, some, List, [], ◌∷◌, err, arith,
}
use dwh_v.Ingestion.Dates.{Calendar}
use dwh_v.Ingestion.Catalog.{category_detail, no_date}
use dwh_v.Runs.Params.{Codec, live_snapshot_v1}
use dwh_v.Runs.Model.{
  Kind, kind_job, run_all_parent, run_all_child, Status, queued, running, succeeded, trigger_direct,
  Row, RuntimeSettings, Store, Env, SafeError, Progress, transition, ownership_lost,
  cancellation_requested, runtime_settings_updated, settings_conflict, settings_valid,
}
use dwh_v.Runs.Table.{first_row, find_row, update_rows}
use dwh_v.Runs.Execute.{
  running_jobs, claim, claim_row, finish, finish_in_tx, update_progress, heartbeat,
}
use dwh_v.Runs.Execute.Capacity.{claim_within_limit}
use dwh_v.Runs.Execute.Fairness.{Oldest, claim-Oldest}
use dwh_v.Runs.Submit.{append_audit}
use dwh_v.Runs.Cancel.{request_cancellation}
use dwh_v.Runs.Cancel.Success.{cancelled_run_cannot_succeed}
use dwh_v.Runs.Settings.{update_runtime_settings}
use dwh_v.Runs.Settings.Swap.{stale_update_conflicts}
use dwh_v.Runs.Reconcile.{next_planned, aggregate_parent_status}
use dwh_v.Runs.Reconcile.Outcome.{did_work, completed_parent_did_all}
use dwh_v.Runs.Lifecycle.{IsSound}
use dwh_v.Runs.Lifecycle.History.{
  Call, do_claim, do_cancel, do_finish, perform, replay, Survives, runs_survive,
  ended_run_is_closed,
}

abbrev worker : String
worker = "0123456789abcdef0123456789abcdef0123456789abcdef0123456789abcdef"

abbrev plain_calendar : Calendar
plain_calendar = record {
  format = λ _. "2026-01-01";
  text_le = λ _ _. true;
  next_day = λ d. d;
  last_day = 1;
}

abbrev plain_codec : Codec
plain_codec = record {
  marshal = λ _. "{}";
  valid = λ _. true;
  decode_range = λ _. none;
  decode_series = λ _. none;
  decode_nothing = λ _. none;
  at_end = λ _. true;
  parse_date = λ _. none;
  sha256 = λ s. s;
}

abbrev env : Env
env = record {
  calendar = plain_calendar;
  codec = plain_codec;
  jobs = record { key = "cif_detail"; category = category_detail; date_strategy = no_date } ∷ [];
  trim_space = λ s. s;
  print_id = λ _. "1";
  safe_text = λ _ s. s;
}

abbrev no_error : SafeError
no_error = record { class = ""; message = ""; step = "" }

abbrev no_progress : Progress
no_progress = record { total = 0; started = 0; succeeded = 0; failed = 0; rows = 0; step = "" }

abbrev row : ℕ → Kind → Option ℕ → String → Status → Row
row id kind parent key status = record {
  id = id;
  kind = kind;
  parent = parent;
  position = parent;
  job_key = some key;
  status = status;
  parameters = record { kind = live_snapshot_v1; version = 1; json = "{}"; checksum = "{}" };
  trigger = trigger_direct;
  reference = none;
  requested_by = none;
  skip_reason = none;
  cancel_requested_at = none;
  cancel_reason = none;
  owner = none;
  claimed_at = none;
  heartbeat_at = none;
  snapshot_date = none;
  progress = no_progress;
  diagnostics = none;
  error = no_error;
  previous_owner = none;
  previous_heartbeat = none;
  created_at = 5;
  started_at = none;
  finished_at = none;
}

abbrev ended : Row
ended = row 1 kind_job none "loan_detail" succeeded

abbrev first_wait : Row
first_wait = row 2 kind_job none "cif_detail" queued

abbrev second_wait : Row
second_wait = row 3 kind_job none "saving_detail" queued

abbrev limits : ℕ → RuntimeSettings
limits n = record { max_running_jobs = n; fixed_member_concurrency = 4; detail_concurrency = 4 }

abbrev store : Store
store = record {
  runs = ended ∷ first_wait ∷ second_wait ∷ [];
  next_id = 4;
  settings = limits 1;
  sources = [];
  profiles = [];
  audits = [];
}

store-IsSound : IsSound store
store-IsSound = record { ids = (omega arith, (omega arith, (omega arith, omega arith))) }

abbrev history : List Call
history =
    do_claim worker (λ _. false) 7
    ∷ do_claim worker (λ _. false) 8
    ∷ do_cancel 2 "stop" 9
    ∷ do_finish 2 worker succeeded no_error 10
    ∷ []

-- The second claim finds the limit reached, and the run does not end with success.
history_runs :
    replay env history store
    ≡ replay env (do_claim worker (λ _. false) 7 ∷ do_cancel 2 "stop" 9 ∷ []) store
unfolding replay perform request_cancellation finish claim find_row first_row update_rows
    append_audit
history_runs = refl

runs_survive_example :
    IsSound (replay env history store)
    × ((r : Row) → Memᴰ r store.runs → Survives r (replay env history store).runs)
runs_survive_example = runs_survive env history store store-IsSound

ended_run_is_closed_example :
    (finish_in_tx 1 worker succeeded no_error 20 (replay env history store) ≡ err transition)
    × (update_progress 1 worker no_progress none (replay env history store) ≡ err ownership_lost)
    × ((heartbeat 1 worker 20 (replay env history store)).0.is_owned ≡ false)
ended_run_is_closed_example =
    ended_run_is_closed env history store ended worker succeeded no_error no_progress none 20
      store-IsSound (Memᴰ.head refl) refl

abbrev claimed : Store
claimed = record store { runs = ended ∷ claim_row worker 7 first_wait ∷ second_wait ∷ [] }

claim_within_limit_example :
    (running_jobs store.runs < 1) × (running_jobs claimed.runs ≤ 1) × (1 ≤ 64)
unfolding claim first_row find_row update_rows
claim_within_limit_example =
    claim_within_limit worker (λ _. false) 7 store claimed (claim_row worker 7 first_wait) refl

claim-Oldest_example : Oldest worker (λ _. false) 7 store.runs (claim_row worker 7 first_wait)
unfolding claim first_row find_row update_rows
claim-Oldest_example =
    claim-Oldest worker (λ _. false) 7 store claimed (claim_row worker 7 first_wait) store-IsSound
      refl

-- Where the request to cancel the running run was accepted.
abbrev asked : Store
asked = record claimed {
  runs =
      ended
      ∷ record (claim_row worker 7 first_wait) {
        cancel_requested_at = some 9;
        cancel_reason = some "stop";
      }
      ∷ second_wait
      ∷ [];
  audits = (cancellation_requested, 2) ∷ [];
}

cancelled_run_cannot_succeed_example : finish 2 worker succeeded no_error 10 asked ≡ err transition
unfolding request_cancellation first_row find_row update_rows append_audit
cancelled_run_cannot_succeed_example =
    cancelled_run_cannot_succeed env 2 "stop" 9 claimed asked worker no_error 10 refl

abbrev raised : Store
raised = record store { settings = limits 2; audits = (runtime_settings_updated, 0) ∷ [] }

stale_update_conflicts_example :
    (raised.settings ≡ limits 2)
    × (settings_valid (limits 2) ≡ true)
    × (update_runtime_settings (limits 1) (limits 3) raised ≡ err settings_conflict)
unfolding update_runtime_settings
stale_update_conflicts_example =
    stale_update_conflicts (limits 1) (limits 2) (limits 3) store raised refl refl

abbrev family : List Row
family =
    row 1 run_all_parent none "" running ∷ row 2 run_all_child (some 1) "cif_detail" succeeded ∷ []

completed_parent_did_all_example : did_work succeeded ≡ true
unfolding next_planned aggregate_parent_status first_row
completed_parent_did_all_example =
    completed_parent_did_all 1 family (row 2 run_all_child (some 1) "cif_detail" succeeded) refl
      refl refl (Memᴰ.tail (Memᴰ.head refl)) refl
