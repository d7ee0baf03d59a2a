-- ===== src/Runs/Params.antt =====
-- internal/ingestionrun/params.go: the parameters of a run, in a canonical JSON form with a checksum.
pub mod Series
pub mod Valid
pub mod Decode
mod Tests
pub use dwh_v.Runs.Json.{Range, Payload, range, series, nothing, Codec}
use dwh_v.Runs.Json.{wire, read_range, read_series, read_nothing}
use dwh_v.Common.{
  ℕ, zero, suc, ◌≡◌, Bool, true, false, ◌&&◌, ◌||◌, not, String, str_eq, Option, none, some, List,
  [], ◌∷◌, ◌==◌, if◌then◌else◌, Result, ok, err, ◌>>=◌, ◌>>◌, guard,
}
use dwh_v.Ingestion.Dates.{CalendarDate, Calendar, is_zero, date_eq, at_or_before, add_day}
use dwh_v.Ingestion.Catalog.{
  JobDefinition, JobCategory, DateStrategy, category_fixed, category_eod, category_cbr,
  range_capable, single_date, no_date, same_strategy, find_job,
}

pub data ParameterKind : Type 0 where
  fixed_range_v1 fixed_date_series_v1 maintenance_date_series_v2 : ParameterKind
  live_snapshot_v1 detail_live_snapshot_v1 run_all_range_v1 : ParameterKind

pub record Parameters : Type 0 where
  pub kind : ParameterKind
  pub version : ℕ
  pub json : String
  pub checksum : String

pub data ParamError : Type 0 where
  unknown_job incompatible_contract not_maintenance no_strategy : ParamError
  invalid_range empty_series not_contiguous : ParamError
  bad_envelope unsupported_kind not_decoded bad_checksum : ParamError

abbrev pub Checked : Type 0 → Type 0
Checked A = Result ParamError A

abbrev pub is_fixed : JobCategory → Bool
is_fixed category_fixed = true
is_fixed _ = false

abbrev pub is_maintenance : JobCategory → Bool
is_maintenance category_eod = true
is_maintenance category_cbr = true
is_maintenance _ = false

-- `requireJob`; the category "" of the source, any category, is `false` here, and "fixed" is `true`.
unfoldable pub require_job :
    List JobDefinition → String → DateStrategy → Bool → Checked JobDefinition
require_job jobs key strategy fixed = elim (find_job key jobs) [
  | none ↦ err unknown_job
  | some job ↦
      if not (same_strategy job.date_strategy strategy) || (fixed && not (is_fixed job.category))
      then err incompatible_contract
      else ok job
]

module _ (t : Calendar) where
  unfoldable pub valid_range : CalendarDate → CalendarDate → Checked Range
  valid_range from to =
      if is_zero from || (is_zero to || not (at_or_before t from to))
      then err invalid_range
      else ok (record { from = from; to = to })

  -- The loop of `inclusiveDates`.
  unfoldable pub dates_loop : ℕ → CalendarDate → CalendarDate → List CalendarDate
  dates_loop zero date to = []
  dates_loop (suc fuel) date to = elim (at_or_before t date to) [
    | true ↦ date ∷ dates_loop fuel (add_day t date) to
    | false ↦ []
  ]

  unfoldable pub inclusive_dates : CalendarDate → CalendarDate → Checked (List CalendarDate)
  unfolding valid_range
  inclusive_dates from to = do _ ← valid_range from to; ok (dates_loop (suc t.last_day) from to)

  -- The loop of `validateDateSeries`, behind the date `before`.
  abbrev pub contiguous : CalendarDate → List CalendarDate → Bool
  contiguous before [] = true
  contiguous before (d ∷ ds) = not (is_zero d) && (date_eq d (add_day t before) && contiguous d ds)

  abbrev pub validate_date_series : List CalendarDate → Checked (Unit {0})
  validate_date_series [] = err empty_series
  validate_date_series (d ∷ ds) = guard (not (is_zero d) && contiguous d ds) not_contiguous

module _ (t : Calendar) (k : Codec) where
  unfoldable pub encode : ParameterKind → Payload → Parameters
  encode kind value =
      let json = k.marshal (wire t value) in
      record { kind = kind; version = 1; json = json; checksum = k.sha256 json }

module _ (t : Calendar) (k : Codec) (jobs : List JobDefinition) where
  unfoldable pub new_range_execution : String → CalendarDate → CalendarDate → Checked Parameters
  new_range_execution key from to = do
    _ ← require_job jobs key range_capable true
    value ← valid_range t from to
    ok (encode t k fixed_range_v1 (range value))

  unfoldable pub new_date_series_execution :
      String → CalendarDate → CalendarDate → Checked Parameters
  new_date_series_execution key from to = do
    _ ← require_job jobs key single_date true
    dates ← inclusive_dates t from to
    ok (encode t k fixed_date_series_v1 (series dates))

  unfoldable pub new_maintenance_series_execution :
      String → CalendarDate → CalendarDate → Checked Parameters
  new_maintenance_series_execution key from to = do
    job ← require_job jobs key single_date false
    guard (is_maintenance job.category) not_maintenance
    dates ← inclusive_dates t from to
    ok (encode t k maintenance_date_series_v2 (series dates))

  unfoldable pub new_live_snapshot_execution : String → Checked Parameters
  new_live_snapshot_execution key = do
    _ ← require_job jobs key no_date false
    ok (encode t k live_snapshot_v1 nothing)

  -- `parametersForJob` of repository.go.
  unfoldable pub parameters_for_job :
      JobDefinition → CalendarDate → CalendarDate → Checked Parameters
  unfolding new_range_execution new_date_series_execution new_maintenance_series_execution
      new_live_snapshot_execution
  parameters_for_job job from to = elim job.date_strategy [
    | range_capable ↦ new_range_execution job.key from to
    | single_date ↦
        if is_fixed job.category
        then new_date_series_execution job.key from to
        else new_maintenance_series_execution job.key from to
    | no_date ↦ new_live_snapshot_execution job.key
  ]

module _ (t : Calendar) (k : Codec) where
  unfoldable pub new_run_all_range : CalendarDate → CalendarDate → Checked Parameters
  new_run_all_range from to = do
    value ← valid_range t from to
    ok (encode t k run_all_range_v1 (range value))

  -- `validateCanonical`: the decoded value is encoded again, and the checksums have to agree.
  abbrev pub same_checksum : Parameters → Payload → Checked (Unit {0})
  same_checksum p value = guard (str_eq (encode t k p.kind value).checksum p.checksum) bad_checksum

  abbrev pub or_not_decoded : {A : Type 0} → Option A → Checked A
  or_not_decoded none = err not_decoded
  or_not_decoded (some a) = ok a

  unfoldable pub canonical_range : Parameters → Checked (Unit {0})
  canonical_range p = do
    value ← or_not_decoded (read_range k p.json)
    _ ← valid_range t value.from value.to
    same_checksum p (range value)

  unfoldable pub canonical_series : Parameters → Checked (Unit {0})
  canonical_series p = do
    dates ← or_not_decoded (read_series k p.json)
    validate_date_series t dates
    same_checksum p (series dates)

  unfoldable pub canonical_nothing : Parameters → Checked (Unit {0})
  canonical_nothing p = do guard (read_nothing k p.json) not_decoded; same_checksum p nothing

  abbrev pub validate_kind : ParameterKind → Parameters → JobDefinition → Checked (Unit {0})
  validate_kind fixed_range_v1 p job = do
    guard (is_fixed job.category && same_strategy job.date_strategy range_capable)
        incompatible_contract
    canonical_range p
  validate_kind fixed_date_series_v1 p job = do
    guard (is_fixed job.category && same_strategy job.date_strategy single_date)
        incompatible_contract
    canonical_series p
  validate_kind maintenance_date_series_v2 p job = do
    guard (is_maintenance job.category) incompatible_contract
    canonical_series p
  validate_kind live_snapshot_v1 p job = do
    guard (same_strategy job.date_strategy no_date) incompatible_contract
    canonical_nothing p
  validate_kind detail_live_snapshot_v1 p job = do
    guard (same_strategy job.date_strategy no_date) incompatible_contract
    canonical_nothing p
  validate_kind run_all_range_v1 p job = err unsupported_kind

  -- `Validate`
  unfoldable pub validate : Parameters → JobDefinition → Checked (Unit {0})
  validate p job = do
    guard (p.version == 1 && (not (str_eq p.json "") && k.valid p.json)) bad_envelope
    validate_kind p.kind p job

  abbrev pub is_range_kind : ParameterKind → Bool
  is_range_kind fixed_range_v1 = true
  is_range_kind run_all_range_v1 = true
  is_range_kind _ = false

  unfoldable pub decode_range : Parameters → Checked Range
  decode_range p = do
    guard (is_range_kind p.kind) unsupported_kind
    value ← or_not_decoded (read_range k p.json)
    _ ← valid_range t value.from value.to
    ok value
