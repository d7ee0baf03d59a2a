-- ===== src/Runs/Params/Valid.antt =====
-- What the constructors of parameters make, the job's validation accepts.
use dwh_v.Runs.Json.{
  wire_range, wire_series, wire_nothing, wire, date_to_json, date_of_json, dates_of_json,
  range_of_json, read_range, read_series, read_nothing,
}
use dwh_v.Common.{
  suc, [], ◌∷◌, map, ℕ, ◌≡◌, ◌≤◌, ◌<◌, refl, Bool, true, false, ◌&&◌, not, String, str_eq, eq_iff,
  some, List, subst, ok, All, ◌∙◌,
}
use dwh_v.Ingestion.Dates.{CalendarDate, Calendar, CalendarLaws, date_text}
use dwh_v.Ingestion.Catalog.{
  JobDefinition, JobCategory, DateStrategy, category_fixed, category_eod, category_cbr,
  category_detail, category_master, range_capable, single_date, no_date, same_strategy, find_job,
  find_job_sound, IsCoherent, Suits,
}
use dwh_v.Runs.Params.{
  ParameterKind, Parameters, Range, Payload, range, series, nothing, Codec, Checked, is_fixed,
  is_maintenance, require_job, encode, parameters_for_job, validate, canonical_range,
  canonical_series, canonical_nothing, validate_kind, same_checksum, new_range_execution,
  new_date_series_execution, new_maintenance_series_execution, new_live_snapshot_execution,
  fixed_range_v1, fixed_date_series_v1, maintenance_date_series_v2, live_snapshot_v1,
  validate_date_series,
}
use dwh_v.Runs.Params.Series.{IsSequence, inclusive_dates-IsSequence, valid_range_lem}

-- What is relied on of `encoding/json` and `time.Parse`. A text that was written is not empty and is valid. Strings in a
-- struct or a list come back as they were written, and nothing is left behind them; the text of a real date is parsed
-- as that date.
pub record CodecLaws (t : Calendar) (w : CalendarLaws t) (k : Codec) : Type 0 where
  pub not_empty : (v : Payload) → str_eq (k.marshal (wire t v)) "" ≡ false
  pub is_valid : (v : Payload) → k.valid (k.marshal (wire t v)) ≡ true
  pub range_back :
      (d e : CalendarDate)
      → w.IsReal d
      → w.IsReal e
      → k.decode_range
          (k.marshal (wire_range (record { from = some (t.format d); to = some (t.format e) })))
        ≡ some (record { from = some (t.format d); to = some (t.format e) }, "")
  pub series_back :
      (n : ℕ) (ds : List CalendarDate)
      → IsSequence t w n ds
      → k.decode_series (k.marshal (wire_series (map (λ d. some (t.format d)) ds)))
        ≡ some (map (λ d. some (t.format d)) ds, "")
  pub nothing_back : k.decode_nothing (k.marshal wire_nothing) ≡ some ""
  pub ends : k.at_end "" ≡ true
  pub parses : (d : CalendarDate) → w.IsReal d → k.parse_date (t.format d) ≡ some d

module _ (t : Calendar) (w : CalendarLaws t) (k : Codec) (laws : CodecLaws t w k) where
  date_to_json-format : (d : CalendarDate) → w.IsReal d → date_to_json t d ≡ some (t.format d)
  unfolding date_to_json date_text
  date_to_json-format d p = rw (w.not_zero d p) refl

  -- Reading back what was written.
  pub read_range-wire :
      (r : Range)
      → w.IsReal r.from
      → w.IsReal r.to
      → read_range k (k.marshal (wire t (range r))) ≡ some r
  unfolding read_range date_of_json
  read_range-wire r p q =
      rw (date_to_json-format r.from p, date_to_json-format r.to q)
        (rw (laws.range_back r.from r.to p q, read_range)
          (rw laws.ends (
            rw (laws.parses r.from p, range_of_json)
              (rw (laws.parses r.to q, range_of_json) refl))))

  to_json-sequence :
      (n : ℕ) (ds : List CalendarDate)
      → IsSequence t w n ds
      → map (date_to_json t) ds ≡ map (λ d. some (t.format d)) ds
  to_json-sequence n [] s = refl
  to_json-sequence n (d ∷ ds) s =
      λ i. date_to_json-format d s.0 i ∷ to_json-sequence (suc n) ds s.2 i

  dates_of_json-sequence :
      (n : ℕ) (ds : List CalendarDate)
      → IsSequence t w n ds
      → dates_of_json k (map (λ d. some (t.format d)) ds) ≡ some ds
  unfolding dates_of_json date_of_json
  dates_of_json-sequence n [] s = refl
  dates_of_json-sequence n (d ∷ ds) s =
      rw (laws.parses d s.0, dates_of_json) (rw (dates_of_json-sequence (suc n) ds s.2) refl)

  pub read_series-wire :
      (n : ℕ) (ds : List CalendarDate)
      → IsSequence t w n ds
      → read_series k (k.marshal (wire t (series ds))) ≡ some ds
  unfolding read_series
  read_series-wire n ds s =
      rw (to_json-sequence n ds s)
        (rw (laws.series_back n ds s, read_series) (rw laws.ends (dates_of_json-sequence n ds s)))

  pub read_nothing-wire : read_nothing k (k.marshal (wire t nothing)) ≡ true
  unfolding read_nothing
  read_nothing-wire = rw (laws.nothing_back, read_nothing) laws.ends

  str_eq_self : (s : String) → str_eq s s ≡ true
  str_eq_self s = (eq_iff s s).1 refl

  -- The envelope that `encode` writes is the one that `validate` asks for.
  validate-encode :
      (kind : ParameterKind) (v : Payload) (job : JobDefinition)
      → validate t k (encode t k kind v) job ≡ validate_kind t k kind (encode t k kind v) job
  unfolding validate encode
  validate-encode kind v job = rw (laws.not_empty v, laws.is_valid v) refl

  same_checksum-encode :
      (kind : ParameterKind) (v : Payload) → same_checksum t k (encode t k kind v) v ≡ ok tt
  unfolding encode
  same_checksum-encode kind v = rw (str_eq_self (k.sha256 (k.marshal (wire t v)))) refl

  canonical_range-encode :
      (kind : ParameterKind) (from to : CalendarDate)
      → w.IsReal from
      → w.IsReal to
      → w.ordinal from ≤ w.ordinal to
      → canonical_range t k (encode t k kind (range (record { from = from; to = to }))) ≡ ok tt
  unfolding canonical_range encode
  canonical_range-encode kind from to p q le =
      rw (read_range-wire (record { from = from; to = to }) p q, valid_range_lem t w from to p q le)
        (rw (str_eq_self (k.sha256 (k.marshal (wire t (range (record { from = from; to = to }))))))
          refl)

  canonical_series-encode :
      (kind : ParameterKind) (n : ℕ) (ds : List CalendarDate)
      → IsSequence t w n ds
      → validate_date_series t ds ≡ ok tt
      → canonical_series t k (encode t k kind (series ds)) ≡ ok tt
  unfolding canonical_series encode
  canonical_series-encode kind n ds s v =
      rw (read_series-wire n ds s)
        (rw v (rw (str_eq_self (k.sha256 (k.marshal (wire t (series ds))))) refl))

  canonical_nothing-encode :
      (kind : ParameterKind) → canonical_nothing t k (encode t k kind nothing) ≡ ok tt
  unfolding canonical_nothing encode
  canonical_nothing-encode kind =
      rw read_nothing-wire (rw (str_eq_self (k.sha256 (k.marshal (wire t nothing)))) refl)

  -- The parameters are made, and the job accepts them.
  abbrev pub Accepted : JobDefinition → Checked Parameters → Type 0
  Accepted job r = (p : Parameters) × (r ≡ ok p) × (validate t k p job ≡ ok tt)

  require_job_lem :
      (jobs : List JobDefinition) (job : JobDefinition) (s : DateStrategy) (fixed : Bool)
      → find_job job.key jobs ≡ some job
      → same_strategy job.date_strategy s ≡ true
      → (fixed && not (is_fixed job.category)) ≡ false
      → require_job jobs job.key s fixed ≡ ok job
  unfolding require_job
  require_job_lem jobs job s fixed e h g = rw (e, require_job) (rw (h, g) refl)

  -- A kind whose test the job passes is accepted as its payload is.
  kind-Accepted :
      (kind : ParameterKind) (v : Payload) (job : JobDefinition)
      → validate_kind t k kind (encode t k kind v) job ≡ ok tt
      → Accepted job (ok (encode t k kind v))
  kind-Accepted kind v job e = (encode t k kind v, refl, validate-encode kind v job ∙ e)

  module _ (jobs : List JobDefinition) (job : JobDefinition) (from to : CalendarDate)
      (found : find_job job.key jobs ≡ some job) (p : w.IsReal from) (q : w.IsReal to)
      (le : w.ordinal from ≤ w.ordinal to) (room : w.ordinal to < t.last_day) where
    pub range-Accepted :
        job.category ≡ category_fixed
        → job.date_strategy ≡ range_capable
        → Accepted job (new_range_execution t k jobs job.key from to)
    unfolding new_range_execution
    range-Accepted c s =
        rw
          (
            require_job_lem jobs job range_capable true found (rw s refl) (rw c refl),
            valid_range_lem t w from to p q le,
          )
          (kind-Accepted fixed_range_v1 _ job
            (rw (c, s) (canonical_range-encode fixed_range_v1 from to p q le)))

    pub series-Accepted :
        job.category ≡ category_fixed
        → job.date_strategy ≡ single_date
        → Accepted job (new_date_series_execution t k jobs job.key from to)
    unfolding new_date_series_execution
    series-Accepted c s =
        let (ds, e, all, _, v) = inclusive_dates-IsSequence t w from to p q le room in
        rw (require_job_lem jobs job single_date true found (rw s refl) (rw c refl), e)
          (kind-Accepted fixed_date_series_v1 (series ds) job
            (rw (c, s) (canonical_series-encode fixed_date_series_v1 (w.ordinal from) ds all v)))

    pub maintenance-Accepted :
        is_maintenance job.category ≡ true
        → job.date_strategy ≡ single_date
        → Accepted job (new_maintenance_series_execution t k jobs job.key from to)
    unfolding new_maintenance_series_execution
    maintenance-Accepted c s =
        let (ds, e, all, _, v) = inclusive_dates-IsSequence t w from to p q le room in
        rw (require_job_lem jobs job single_date false found (rw s refl) refl) (
          rw c (
            rw e (
              kind-Accepted maintenance_date_series_v2 (series ds) job (
                rw c
                  (canonical_series-encode maintenance_date_series_v2 (w.ordinal from) ds all v)))))

    live-Accepted :
        job.date_strategy ≡ no_date → Accepted job (new_live_snapshot_execution t k jobs job.key)
    unfolding new_live_snapshot_execution
    live-Accepted s = rw (require_job_lem jobs job no_date false found (rw s refl) refl) (
        kind-Accepted live_snapshot_v1 nothing job
          (rw s (canonical_nothing-encode live_snapshot_v1)))

    -- Which constructor `parameters_for_job` calls.
    calls_range :
        job.date_strategy ≡ range_capable
        → new_range_execution t k jobs job.key from to ≡ parameters_for_job t k jobs job from to
    unfolding parameters_for_job
    calls_range s = rw (s, parameters_for_job) refl

    calls_series :
        job.category ≡ category_fixed
        → job.date_strategy ≡ single_date
        → new_date_series_execution t k jobs job.key from to
          ≡ parameters_for_job t k jobs job from to
    unfolding parameters_for_job
    calls_series c s = rw (s, parameters_for_job) (rw c refl)

    calls_maintenance :
        is_fixed job.category ≡ false
        → job.date_strategy ≡ single_date
        → new_maintenance_series_execution t k jobs job.key from to
          ≡ parameters_for_job t k jobs job from to
    unfolding parameters_for_job
    calls_maintenance c s = rw (s, parameters_for_job) (rw c refl)

    calls_live :
        job.date_strategy ≡ no_date
        → new_live_snapshot_execution t k jobs job.key ≡ parameters_for_job t k jobs job from to
    unfolding parameters_for_job
    calls_live s = rw (s, parameters_for_job) refl

    by_contract :
        (c : JobCategory) (s : DateStrategy)
        → job.category ≡ c
        → job.date_strategy ≡ s
        → Suits c s
        → Accepted job (parameters_for_job t k jobs job from to)
    by_contract category_fixed range_capable c s _ =
        subst (Accepted job) (calls_range s) (range-Accepted c s)
    by_contract category_fixed single_date c s _ =
        subst (Accepted job) (calls_series c s) (series-Accepted c s)
    by_contract category_eod single_date c s _ =
        subst (Accepted job) (calls_maintenance (rw c refl) s) (maintenance-Accepted (rw c refl) s)
    by_contract category_cbr single_date c s _ =
        subst (Accepted job) (calls_maintenance (rw c refl) s) (maintenance-Accepted (rw c refl) s)
    by_contract category_detail no_date c s _ =
        subst (Accepted job) (calls_live s) (live-Accepted s)
    by_contract category_master no_date c s _ =
        subst (Accepted job) (calls_live s) (live-Accepted s)
    by_contract category_fixed no_date c s h = absurd h
    by_contract category_eod range_capable c s h = absurd h
    by_contract category_eod no_date c s h = absurd h
    by_contract category_cbr range_capable c s h = absurd h
    by_contract category_cbr no_date c s h = absurd h
    by_contract category_detail range_capable c s h = absurd h
    by_contract category_detail single_date c s h = absurd h
    by_contract category_master range_capable c s h = absurd h
    by_contract category_master single_date c s h = absurd h

  -- For a job of a catalog whose jobs have strategies that suit their categories, and real days
  -- `from` and `to`, `from` not after `to` and `to` before the last day of the calendar, the
  -- parameters of the job are made, and the validation of the job accepts them.
  pub parameters_for_job-Accepted :
      (jobs : List JobDefinition) (job : JobDefinition) (from to : CalendarDate)
      → find_job job.key jobs ≡ some job
      → All IsCoherent jobs
      → w.IsReal from
      → w.IsReal to
      → w.ordinal from ≤ w.ordinal to
      → w.ordinal to < t.last_day
      → Accepted job (parameters_for_job t k jobs job from to)
  parameters_for_job-Accepted jobs job from to found all p q le room =
      by_contract jobs job from to found p q le room job.category job.date_strategy refl refl
        (find_job_sound IsCoherent job.key jobs found all).0
