-- ===== src/Scheduler/Occurrences.antt =====
-- internal/scheduler/model.go: the parameters of a scheduled run, and how long a failed one waits.
mod Tests
use native.Mathlib.Numerals.{unary_clauses}
use dwh_v.Common.{
  ℕ, zero, suc, ◌+◌, ◌-◌, ◌/◌, min, ap, ◌∙◌, ◌*◌, ◌^◌, ◌≤◌, ◌<◌, ◌≡◌, refl, Bool, true, false,
  Option, some, List, if◌then◌else◌, ◌==◌, leb, arith, All, subst, sym,
}
use dwh_v.Ingestion.Dates.{CalendarDate, Calendar, CalendarLaws}
use dwh_v.Ingestion.Catalog.{
  JobDefinition, range_capable, single_date, no_date, find_job, IsCoherent,
}
use dwh_v.Runs.Params.{
  Parameters, Codec, Checked, is_fixed, new_range_execution, new_date_series_execution,
  new_maintenance_series_execution, new_live_snapshot_execution, parameters_for_job,
}
use dwh_v.Runs.Params.Valid.{CodecLaws, Accepted, parameters_for_job-Accepted}

-- A minute, in nanoseconds.
abbrev minute : ℕ
minute = 60000000000

-- `retryDelay`
unfoldable pub retry_delay : ℕ → ℕ
retry_delay attempt =
    if attempt == 0 then 0 else (if leb 6 attempt then 30 * minute else minute * 2 ^ (attempt - 1))

abbrev day : ℕ
day = 86400000000

-- Seven hours.
abbrev jakarta_offset : ℕ
jakarta_offset = 25200000000

-- `ResolvePreviousCalendarDayJakarta` of internal/ingestion/date.go, for times after 1 January 1970 in Jakarta. `civil` is the
-- date that the library finds for a number of days since then.
unfoldable pub previous_calendar_day : (ℕ → CalendarDate) → ℕ → CalendarDate
previous_calendar_day civil now = civil ((now + jakarta_offset) / day - 1)

-- `parametersForOccurrence`
unfoldable pub parameters_for_occurrence :
    Calendar
    → Codec
    → List JobDefinition
    → (ℕ → CalendarDate)
    → JobDefinition
    → ℕ
    → Checked Parameters
parameters_for_occurrence t k jobs civil job scheduled_for =
    let date = previous_calendar_day civil scheduled_for in
    elim job.date_strategy [
      | range_capable ↦ new_range_execution t k jobs job.key date date
      | single_date ↦
          if is_fixed job.category
          then new_date_series_execution t k jobs job.key date date
          else new_maintenance_series_execution t k jobs job.key date date
      | no_date ↦ new_live_snapshot_execution t k jobs job.key
    ]

power_grows : (n : ℕ) → 32 ≤ 2 ^ suc (suc (suc (suc (suc n))))
power_grows zero = omega arith
power_grows (suc n) = let h = power_grows n in doubled (suc (suc (suc (suc (suc n))))) h
  where
    doubled : (m : ℕ) → 32 ≤ 2 ^ m → 32 ≤ 2 ^ suc m
    doubled m h = let e : 2 ^ suc m ≡ 2 ^ m * 2 = simp unary_clauses in omega (arith, h, e)

-- The wait after a first failure is one minute, in nanoseconds; every further failure doubles it, up to half an
-- hour; and there is none before a first attempt.
pub retry_delay_doubles :
    (n : ℕ)
    → (retry_delay 0 ≡ 0)
      × (retry_delay (suc n) ≡ min (30 * 60 * 1000000000) (60 * 1000000000 * 2 ^ n))
unfolding retry_delay
retry_delay_doubles zero = (refl, refl)
retry_delay_doubles (suc zero) = (refl, refl)
retry_delay_doubles (suc (suc zero)) = (refl, refl)
retry_delay_doubles (suc (suc (suc zero))) = (refl, refl)
retry_delay_doubles (suc (suc (suc (suc zero)))) = (refl, refl)
retry_delay_doubles (suc (suc (suc (suc (suc n))))) =
    let h = power_grows n in (refl, ground (arith, h))

-- The day before the time, in Jakarta.
previous_calendar_day_lem :
    (civil : ℕ → CalendarDate) (at d : ℕ)
    → suc d * day ≤ at + jakarta_offset
    → at + jakarta_offset < suc (suc d) * day
    → previous_calendar_day civil at ≡ civil d
unfolding previous_calendar_day
previous_calendar_day_lem civil at d low high = ap civil (omega (arith, low, high))

occurrence-job :
    (t : Calendar) (k : Codec) (jobs : List JobDefinition) (civil : ℕ → CalendarDate)
    (job : JobDefinition) (at : ℕ)
    → parameters_for_occurrence t k jobs civil job at
      ≡ parameters_for_job t k jobs job
          (previous_calendar_day civil at)
          (previous_calendar_day civil at)
unfolding parameters_for_occurrence parameters_for_job
occurrence-job t k jobs civil job at = refl

-- For a job of a catalog whose jobs have strategies that suit their categories, and a time on the day after day `d` of
-- the calendar in Jakarta (seven hours before Greenwich), where `d` is real and not the calendar's last: the
-- parameters of an occurrence at the time are those of the job for that day alone, they are made, and the validation of
-- the job accepts them.
pub occurrence_parameters-Accepted :
    (t : Calendar) (w : CalendarLaws t) (k : Codec) (laws : CodecLaws t w k)
    (jobs : List JobDefinition) (civil : ℕ → CalendarDate) (job : JobDefinition) (at d : ℕ)
    → suc d * 86400000000 ≤ at + 7 * 3600000000
    → at + 7 * 3600000000 < suc (suc d) * 86400000000
    → find_job job.key jobs ≡ some job
    → All IsCoherent jobs
    → w.IsReal (civil d)
    → w.ordinal (civil d) < t.last_day
    → (parameters_for_occurrence t k jobs civil job at
        ≡ parameters_for_job t k jobs job (civil d) (civil d))
      × Accepted t w k laws job (parameters_for_occurrence t k jobs civil job at)
occurrence_parameters-Accepted t w k laws jobs civil job at d low high found all real room = (
  same,
  subst (Accepted t w k laws job) (sym same) (
      parameters_for_job-Accepted t w k laws jobs job (civil d) (civil d) found all real real
        (omega arith) room),
)
  where
    same :
        parameters_for_occurrence t k jobs civil job at
        ≡ parameters_for_job t k jobs job (civil d) (civil d)
    same =
        occurrence-job t k jobs civil job at
        ∙ ap (λ x. parameters_for_job t k jobs job x x)
            (previous_calendar_day_lem civil at d low high)
