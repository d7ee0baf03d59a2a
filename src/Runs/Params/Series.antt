-- ===== src/Runs/Params/Series.antt =====
-- The dates from one day to another, and the check on a series of dates.
use dwh_v.Common.{
  ℕ, zero, suc, ◌+◌, ◌≤◌, ◌<◌, ◌≡◌, refl, true, List, [], ◌∷◌, length, leb, ok, arith, Bool-cases,
  inl, inr, subst, sym,
}
use dwh_v.Ingestion.Dates.{CalendarDate, Calendar, CalendarLaws, date_eq, at_or_before, add_day}
use dwh_v.Runs.Params.{valid_range, dates_loop, inclusive_dates, contiguous, validate_date_series}

date_eq_of : (d e : CalendarDate) → d ≡ e → date_eq d e ≡ true
date_eq_of d e h = subst (λ x. date_eq d x ≡ true) h (ground arith)

module _ (t : Calendar) (w : CalendarLaws t) where
  open w use {IsReal, ordinal, not_zero, ordinal_le, text_order, next_real}

  pub at_or_before_lem :
      (d e : CalendarDate) → IsReal d → IsReal e → at_or_before t d e ≡ leb (ordinal d) (ordinal e)
  unfolding at_or_before
  at_or_before_lem d e p q = ground (arith, not_zero d p, not_zero e q, text_order d e p q)

  add_day_lem : (d : CalendarDate) → IsReal d → add_day t d ≡ t.next_day d
  unfolding add_day
  add_day_lem d p = ground (arith, not_zero d p)

  -- The days with the numbers from `n` on, one after another.
  abbrev pub IsSequence : ℕ → List CalendarDate → Type 0
  IsSequence n [] = Unit {0}
  IsSequence n (d ∷ ds) = IsReal d × (ordinal d ≡ n) × IsSequence (suc n) ds

  add_day_real :
      (d : CalendarDate)
      → IsReal d
      → ordinal d < t.last_day
      → IsReal (add_day t d) × (ordinal (add_day t d) ≡ suc (ordinal d))
  add_day_real d p h =
      subst (λ e. IsReal e × (ordinal e ≡ suc (ordinal d))) (sym (add_day_lem d p))
        (next_real d p h)

  -- The dates number every day from `n` to the day `last`, and continue a series that ended the day
  -- before.
  record Covers (n last : ℕ) (date : CalendarDate) (ds : List CalendarDate) : Type 0 where
    sequence : IsSequence n ds
    counted : length ds + n ≡ suc last
    joined : (before : CalendarDate) → add_day t before ≡ date → contiguous t before ds ≡ true
    accepted : 0 < length ds → validate_date_series t ds ≡ ok tt

  dates_loop-Covers :
      (fuel : ℕ) (date to : CalendarDate) (n : ℕ)
      → IsReal date
      → IsReal to
      → ordinal to < t.last_day
      → ordinal date ≡ n
      → ordinal to < n + fuel
      → n ≤ suc (ordinal to)
      → Covers n (ordinal to) date (dates_loop t fuel date to)
  unfolding dates_loop
  dates_loop-Covers zero date to n p q room e enough b = record {
    sequence = tt;
    counted = omega arith;
    joined = λ _ _. refl;
    accepted = λ h. absurd (omega arith);
  }
  dates_loop-Covers (suc fuel) date to n p q room e enough b =
      elim (Bool-cases (at_or_before t date to)) [
        | inr late ↦
            let past : suc (ordinal to) ≤ n = ground (arith, at_or_before_lem date to p q) in
            rw (late, dates_loop)
              (record {
                sequence = tt;
                counted = omega arith;
                joined = λ _ _. refl;
                accepted = λ h. absurd (omega arith);
              })
        | inl due ↦
            let within : n ≤ ordinal to = ground (arith, at_or_before_lem date to p q) in
            let next = add_day_real date p (omega arith) in
            let rest =
              dates_loop-Covers fuel (add_day t date) to (suc n) next.0 q room (omega arith)
                (omega arith) (omega arith) in
            rw (due, dates_loop)
              (record {
                sequence = (p, e, rest.sequence);
                counted = omega (arith, rest.counted);
                joined = λ before h. ground (
                  arith,
                  not_zero date p,
                  rest.joined date refl,
                  date_eq_of date (add_day t before) (sym h),
                );
                accepted = λ _. ground (arith, not_zero date p, rest.joined date refl);
              })
      ]

  pub valid_range_lem :
      (from to : CalendarDate)
      → IsReal from
      → IsReal to
      → ordinal from ≤ ordinal to
      → valid_range t from to ≡ ok (record { from = from; to = to })
  unfolding valid_range
  valid_range_lem from to p q le =
      ground (arith, not_zero from p, not_zero to q, at_or_before_lem from to p q)

  -- For real days `from` and `to`, `from` not after `to` and `to` before the last day of the
  -- calendar, the fuel is enough: `inclusive_dates` succeeds with one date for every day from the
  -- one to the other, in order, and the check on a series accepts them.
  pub inclusive_dates-IsSequence :
      (from to : CalendarDate)
      → IsReal from
      → IsReal to
      → ordinal from ≤ ordinal to
      → ordinal to < t.last_day
      → (ds : List CalendarDate) × (inclusive_dates t from to ≡ ok ds)
        × IsSequence (ordinal from) ds
        × (length ds + ordinal from ≡ suc (ordinal to))
        × (validate_date_series t ds ≡ ok tt)
  unfolding inclusive_dates
  inclusive_dates-IsSequence from to p q le room = (
    ds,
    rw (valid_range_lem from to p q le) refl,
    all.sequence,
    all.counted,
    all.accepted (omega (arith, all.counted)),
  )
    where
      ds : List CalendarDate
      ds = dates_loop t (suc t.last_day) from to

      all : Covers (ordinal from) (ordinal to) from ds
      all =
          dates_loop-Covers (suc t.last_day) from to (ordinal from) p q room refl (omega arith)
            (omega arith)
