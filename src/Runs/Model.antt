-- ===== src/Runs/Model.antt =====
-- internal/ingestionrun/model.go and the row of `ingestion_runs` that repository.go works on.
use dwh_v.Common.{ℕ, Bool, true, false, ◌&&◌, String, Option, List, leb}
use dwh_v.Ingestion.Dates.{CalendarDate, Calendar}
use dwh_v.Ingestion.Catalog.{JobDefinition}
use dwh_v.Runs.Params.{Parameters, Codec}

pub data Kind : Type 0 where
  kind_job run_all_parent run_all_child : Kind

pub data Status : Type 0 where
  planned queued running succeeded failed skipped cancelled abandoned : Status
  completed completed_with_skips : Status

pub data Trigger : Type 0 where
  trigger_direct trigger_scheduler trigger_run_all : Trigger

abbrev pub is_terminal : Status → Bool
is_terminal planned = false
is_terminal queued = false
is_terminal running = false
is_terminal _ = true

pub record Progress : Type 0 where
  pub total : ℕ
  pub started : ℕ
  pub succeeded : ℕ
  pub failed : ℕ
  pub rows : ℕ
  pub step : String

pub record SafeError : Type 0 where
  pub class : String
  pub message : String
  pub step : String

-- A row of the table, without `updated_at`. Times are microseconds; `none` is NULL.
pub record Row : Type 0 where
  pub id : ℕ
  pub kind : Kind
  pub parent : Option ℕ
  pub position : Option ℕ
  pub job_key : Option String
  pub status : Status
  pub parameters : Parameters
  pub trigger : Trigger
  pub reference : Option String
  pub requested_by : Option ℕ
  pub skip_reason : Option String
  pub cancel_requested_at : Option ℕ
  pub cancel_reason : Option String
  pub owner : Option String
  pub claimed_at : Option ℕ
  pub heartbeat_at : Option ℕ
  pub snapshot_date : Option CalendarDate
  pub progress : Progress
  pub diagnostics : Option String
  pub error : SafeError
  pub previous_owner : Option String
  pub previous_heartbeat : Option ℕ
  pub created_at : ℕ
  pub started_at : Option ℕ
  pub finished_at : Option ℕ

pub record RuntimeSettings : Type 0 where
  pub max_running_jobs : ℕ
  pub fixed_member_concurrency : ℕ
  pub detail_concurrency : ℕ

abbrev pub min_runtime_limit : ℕ
min_runtime_limit = 1

abbrev pub max_runtime_limit : ℕ
max_runtime_limit = 64

abbrev pub valid_runtime_limit : ℕ → Bool
valid_runtime_limit value = leb min_runtime_limit value && leb value max_runtime_limit

abbrev pub settings_valid : RuntimeSettings → Bool
settings_valid s =
    valid_runtime_limit s.max_running_jobs
    && (valid_runtime_limit s.fixed_member_concurrency && valid_runtime_limit s.detail_concurrency)

-- A row of `source_settings`, and of `fincloud_auth_profiles` with whether its status is active.
pub record Source : Type 0 where
  pub key : String
  pub enabled : Bool
  pub profile : Option ℕ

pub record Profile : Type 0 where
  pub id : ℕ
  pub active : Bool

pub data AuditAction : Type 0 where
  run_submitted run_all_submitted cancellation_requested abandoned_recovered : AuditAction
  runtime_settings_updated : AuditAction

-- The tables that the repository reads and writes. `audits` holds the events of `audit.Append` with
-- the run that they name (0 for the settings), newest first.
pub record Store : Type 0 where
  pub runs : List Row
  pub next_id : ℕ
  pub settings : RuntimeSettings
  pub sources : List Source
  pub profiles : List Profile
  pub audits : List (AuditAction × ℕ)

-- What the repository is built with, and the functions of the standard library that it calls.
pub record Env : Type 0 where
  pub calendar : Calendar
  pub codec : Codec
  pub jobs : List JobDefinition
  pub trim_space : String → String
  pub print_id : ℕ → String
  pub safe_text : ℕ → String → String

pub data RunError : Type 0 where
  job_busy source_disabled source_configuration_required transition ownership_lost : RunError
  reference_required unknown_run_job invalid_parameters no_rows invalid_status : RunError
  owner_required invalid_limit settings_conflict invalid_settings date_required : RunError
  recovery_input not_canonical no_parent_owner not_a_range constraint_violated duplicate_key :
      RunError
