-- ===== src/Scheduler/Definitions.antt =====
-- internal/scheduler/model.go: the definition of a schedule, its policy and its cron expression. The cron parser, the
-- time zones, `encoding/json`, `crypto/sha256` and `strings` are parameters. Times are microseconds.
use dwh_v.Common.{
  ℕ, ◌-◌, ◌*◌, ◌%◌, Bool, false, ◌&&◌, ◌||◌, not, String, str_eq, Option, none, some, List,
  if◌then◌else◌, ◌==◌, ltb, is_some, Result, ok, err, ◌>>=◌, ◌>>◌, guard,
}
use Prim.Native.String.{len}
use dwh_v.Ingestion.Catalog.{JobDefinition, DateStrategy, no_date, find_job}

pub record Policy : Type 0 where
  pub kind : String
  pub version : ℕ
  pub payload : String
  pub checksum : String

pub record Definition : Type 0 where
  pub name : String
  pub job_key : String
  pub cron_expression : String
  pub timezone : String
  pub policy : Policy

-- `cronDefinition`: the first occurrence after a time, if there is one (`none` is the zero time).
abbrev pub Cron : Type 0
Cron = ℕ → Option ℕ

-- What lies outside the package. `parse` is the cron parser in a time zone that `LoadLocation` finds;
-- `is_empty_object` says that a payload decodes strictly to an empty object.
pub record Rules : Type 0 where
  pub jobs : List JobDefinition
  pub trim_space : String → String
  pub has_prefix : String → String → Bool
  pub contains : String → String → Bool
  pub parse : String → String → Option Cron
  pub is_empty_object : String → Bool
  pub policy_checksum : String → ℕ → String → String
  pub no_checksum : String

pub data DefinitionError : Type 0 where
  invalid_definition : DefinitionError

abbrev pub policy_previous_day : String
policy_previous_day = "previous_calendar_day_jakarta"

abbrev pub policy_live_snapshot : String
policy_live_snapshot = "live_snapshot"

abbrev pub policy_detail_live_snapshot : String
policy_detail_live_snapshot = "detail_live_snapshot"

abbrev pub default_timezone : String
default_timezone = "Asia/Jakarta"

abbrev pub known_kind : String → Bool
known_kind kind =
    str_eq kind policy_previous_day
    || (str_eq kind policy_live_snapshot || str_eq kind policy_detail_live_snapshot)

-- Whether the job's policy is that of a live snapshot.
abbrev pub wanted_policy : DateStrategy → String
wanted_policy no_date = policy_live_snapshot
wanted_policy _ = policy_previous_day

abbrev pub semantic_kind : String → String
semantic_kind kind = if str_eq kind policy_detail_live_snapshot then policy_live_snapshot else kind

module _ (v : Rules) where
  -- `canonicalPolicy`
  unfoldable pub canonical_policy : String → ℕ → String → Result DefinitionError Policy
  canonical_policy kind version payload = do
    guard (known_kind kind && version == 1) invalid_definition
    guard (v.is_empty_object payload) invalid_definition
    ok (record {
      kind = kind;
      version = version;
      payload = "{}";
      checksum = v.policy_checksum kind version "{}";
    })

  -- `validatePolicy`
  unfoldable pub validate_policy : Policy → Result DefinitionError Policy
  validate_policy p = do
    canonical ← canonical_policy p.kind p.version p.payload
    guard (str_eq p.checksum v.no_checksum || str_eq p.checksum canonical.checksum)
        invalid_definition
    ok canonical

  abbrev pub strict_expression : String → Bool
  strict_expression e = not (
      str_eq e ""
      || (ltb 128 (len e)
          || (v.has_prefix e "@" || (v.contains e "CRON_TZ=" || v.contains e "TZ="))))

  abbrev pub named_timezone : String → Bool
  named_timezone z = not (
      str_eq z ""
      || (ltb 64 (len z) || (str_eq z "Local" || (v.has_prefix z "+" || v.has_prefix z "-"))))

  -- `parseCron`
  unfoldable pub parse_cron : String → String → ℕ → Result DefinitionError Cron
  parse_cron expression timezone reference = do
    guard (strict_expression (v.trim_space expression)) invalid_definition
    guard (named_timezone (v.trim_space timezone)) invalid_definition
    elim (v.parse (v.trim_space expression) (v.trim_space timezone)) [
      | none ↦ err invalid_definition
      | some cron ↦ guard (is_some (cron reference)) invalid_definition >> ok cron
    ]

  -- `validateDefinition`
  unfoldable pub validate_definition : Definition → ℕ → Result DefinitionError (Definition × Cron)
  validate_definition d reference = do
    let name = v.trim_space d.name
    let key = v.trim_space d.job_key
    guard (not (str_eq name "") && not (ltb 128 (len name))) invalid_definition
    job ← elim (find_job key v.jobs) [ none ↦ err invalid_definition | some job ↦ ok job ]
    policy ← validate_policy d.policy
    guard (str_eq (semantic_kind policy.kind) (wanted_policy job.date_strategy)) invalid_definition
    cron ← parse_cron (v.trim_space d.cron_expression) (v.trim_space d.timezone) reference
    ok (
      record {
        name = name;
        job_key = key;
        cron_expression = v.trim_space d.cron_expression;
        timezone = v.trim_space d.timezone;
        policy = policy;
      },
      cron,
    )

-- `IsOccurrence`: a whole second that is the next occurrence a minute before.
unfoldable pub is_occurrence : Cron → ℕ → Bool
is_occurrence cron value =
    value % 1000000 == 0
    && elim (cron (value - 60 * 1000000)) [ none ↦ false | some next ↦ next == value ]
