-- ===== src/Scheduler/Tests.antt =====
-- A schedule of a job that has no date, every minute.
use dwh_v.Common.{List, ◌+◌, ◌*◌, ◌≡◌, refl, true, false, none, some, [], ◌∷◌, ok, err}
use dwh_v.Common.Tables.{find_row, update_rows}
use dwh_v.Ingestion.Catalog.{category_detail, no_date}
use dwh_v.Runs.Params.{Codec, new_live_snapshot_execution, require_job, encode}
use dwh_v.Runs.Model.{Store as RunStore}
use dwh_v.Ingestion.Dates.{Calendar}
use dwh_v.Scheduler.Occurrences.{parameters_for_occurrence}
use dwh_v.Scheduler.Definitions.{
  Definition, canonical_policy, validate_policy, parse_cron, validate_definition, is_occurrence,
}
use dwh_v.Scheduler.Model.{
  Schedule, Store, Service, conflict, validated_cron, live_coalesced, unresolved, latest_attempt,
  update_schedules, update_occurrences, delivery_delay,
}
use dwh_v.Scheduler.States.{create, stop, apply_stop}
use dwh_v.Scheduler.States.Revision.{stops, updates, apply, stale_change_conflicts}
use dwh_v.Scheduler.Process.{
  Delivery, create_occurrence, verdict, record_attempt, deliver, process_occurrence, process_valid,
  process_transaction,
}
use dwh_v.Scheduler.Process.Turn.{Turn, delivery-Turn}
use dwh_v.Scheduler.Many.{Input, prepare_create, prepare_all, insert_each, create_many}
use dwh_v.Scheduler.Soundness.History.{creates_many}
use dwh_v.Scheduler.Soundness.{IsSound}
use dwh_v.Scheduler.Soundness.History.{
  creates, changes, processes, perform_all, perform_all-IsSound,
}

abbrev plain_calendar : Calendar
plain_calendar = record {
  format = λ _. "2026-01-01";
  text_le = λ _ _. true;
  next_day = λ d. d;
  last_day = 9;
}

abbrev plain_codec : Codec
plain_codec = record {
  marshal = λ _. "{}";
  valid = λ _. true;
  decode_range = λ _. none;
  decode_series = λ _. none;
  decode_nothing = λ _. none;
  at_end = λ _. true;
  parse_date = λ _. none;
  sha256 = λ _. "00";
}

abbrev no_runs : RunStore
no_runs = record {
  runs = [];
  next_id = 1;
  settings = record { max_running_jobs = 1; fixed_member_concurrency = 1; detail_concurrency = 1 };
  sources = [];
  profiles = [];
  audits = [];
}

abbrev minutely : Service
minutely = record {
  rules = record {
    jobs = record { key = "accounts"; category = category_detail; date_strategy = no_date } ∷ [];
    trim_space = λ s. s;
    has_prefix = λ _ _. false;
    contains = λ _ _. false;
    parse = λ _ _. some (λ t. some (t + 60 * 1000000));
    is_empty_object = λ _. true;
    policy_checksum = λ _ _ _. "00";
    no_checksum = "";
  };
  submit = λ _ _ _ _ _ _ s. ok (1, record s { next_id = 2 });
  reference = λ _ _ _. "schedule:1";
  civil = λ _. record { year = 2026; month = 1; day = 1 };
  calendar = plain_calendar;
  codec = plain_codec;
  safe_message = λ s. s;
}

abbrev every_minute : Definition
every_minute = record {
  name = "accounts";
  job_key = "accounts";
  cron_expression = "* * * * *";
  timezone = "Asia/Jakarta";
  policy = record { kind = "live_snapshot"; version = 1; payload = "{}"; checksum = "00" };
}

abbrev due_schedule : Schedule
due_schedule = record {
  id = 1;
  definition = every_minute;
  enabled = true;
  next_run_at = some 120000000;
  revision = 1;
  not_before = none;
  block_reason = none;
  validation_error = none;
  created_by = some 1;
  archived_at = none;
}

abbrev due_store : Store
due_store = record {
  schedules = due_schedule ∷ [];
  next_schedule = 2;
  occurrences = [];
  next_occurrence = 1;
  attempts = [];
  runs = no_runs;
}

abbrev first_delivery : Delivery
first_delivery = record {
  schedule = 1;
  occurrence = 1;
  run = 1;
  attempt = 1;
  scheduled_for = 120000000;
}

abbrev delivered : Store
delivered = record due_store {
  schedules = record due_schedule { not_before = some (130000000 + delivery_delay) } ∷ [];
  occurrences =
      record {
        id = 1;
        schedule = 1;
        scheduled_for = 120000000;
        identity_source = validated_cron;
        resolution_mode = live_coalesced;
        status = unresolved;
        definition = every_minute;
        attempt_count = 1;
        retry_not_before = none;
        rejection = none;
        closed_at = none;
      }
      ∷ [];
  next_occurrence = 2;
  attempts =
      record {
        occurrence = 1;
        attempt_no = 1;
        run = 1;
        reference = "schedule:1";
        submitted_at = 130000000;
      }
      ∷ [];
  runs = record no_runs { next_id = 2 };
}

delivery-Turn_example : Turn minutely 1 130000000 due_store first_delivery
unfolding process_transaction process_valid process_occurrence verdict latest_attempt deliver
    record_attempt create_occurrence update_schedules update_occurrences update_rows find_row
    validate_definition validate_policy canonical_policy parse_cron is_occurrence
    parameters_for_occurrence new_live_snapshot_execution require_job encode
delivery-Turn_example = delivery-Turn minutely 1 130000000 due_store delivered first_delivery refl

abbrev disabled : Store
disabled = record due_store {
  schedules = record due_schedule { enabled = false; next_run_at = none; revision = 2 } ∷ [];
}

stale_change_conflicts_example :
    apply minutely (updates every_minute) 1 1 131000000 disabled ≡ err conflict
unfolding apply stop apply_stop update_schedules update_rows find_row
stale_change_conflicts_example =
    stale_change_conflicts minutely (stops false) (updates every_minute) 1 1 130000000 131000000
      due_store disabled (tt, tt) refl

abbrev empty_store : Store
empty_store = record due_store { schedules = []; next_schedule = 1 }

perform_all-IsSound_example : IsSound (
    perform_all minutely
      (creates every_minute true (some 1) 60000000
        ∷ processes 1 130000000
        ∷ changes (stops true) 1 1 140000000
        ∷ [])
      empty_store)
perform_all-IsSound_example =
    perform_all-IsSound minutely _ empty_store (record { cursors = tt; keyed = tt; below = tt })

archived_in_the_end :
    (perform_all minutely
      (creates every_minute true (some 1) 60000000
        ∷ processes 1 130000000
        ∷ changes (stops true) 1 1 140000000
        ∷ [])
      empty_store).schedules
    ≡ record due_schedule {
      enabled = false;
      next_run_at = none;
      revision = 2;
      archived_at = some 140000000;
    }
      ∷ []
unfolding perform_all create apply stop apply_stop process_transaction process_valid
    process_occurrence verdict latest_attempt deliver record_attempt create_occurrence
    update_schedules update_occurrences update_rows find_row validate_definition validate_policy
    canonical_policy parse_cron is_occurrence parameters_for_occurrence new_live_snapshot_execution
    require_job encode
archived_in_the_end = refl

abbrev sourced : Store
sourced = record empty_store {
  runs = record no_runs {
    sources = record { key = "accounts"; enabled = true; profile = none } ∷ [];
  };
}

abbrev one_input : List Input
one_input = record { definition = every_minute; enabled = true; actor = some 1 } ∷ []

asked_again :
    perform_all minutely
      (creates_many one_input 60000000 ∷ creates_many one_input 60000000 ∷ [])
      sourced
    ≡ record sourced { schedules = due_schedule ∷ []; next_schedule = 2 }
unfolding perform_all create_many prepare_all prepare_create insert_each find_row
    validate_definition validate_policy canonical_policy parse_cron
asked_again = refl
