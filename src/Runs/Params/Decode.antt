-- ===== src/Runs/Params/Decode.antt =====
-- internal/ingestionrun/params.go: the decoders of series, and reading back what the constructors made.
use dwh_v.Common.{
  ℕ, ◌≡◌, ◌≤◌, ◌<◌, refl, Bool, true, false, String, List, some, subst, ok, err, ◌>>=◌, ◌>>◌, guard,
}
use dwh_v.Ingestion.Dates.{CalendarDate, Calendar, CalendarLaws}
use dwh_v.Ingestion.Catalog.{JobDefinition, category_fixed, range_capable, single_date, find_job}
use dwh_v.Runs.Json.{read_series}
use dwh_v.Runs.Params.{
  ParameterKind, fixed_range_v1, fixed_date_series_v1, maintenance_date_series_v2, Parameters,
  range, series, Codec, Checked, not_maintenance, unsupported_kind, require_job, is_maintenance,
  inclusive_dates, validate_date_series, encode, or_not_decoded, decode_range, new_range_execution,
  new_date_series_execution, new_maintenance_series_execution,
}
use dwh_v.Runs.Params.Series.{IsSequence, inclusive_dates-IsSequence, valid_range_lem}
use dwh_v.Runs.Params.Valid.{
  CodecLaws, Accepted, range-Accepted, series-Accepted, maintenance-Accepted, read_range-wire,
  read_series-wire,
}

abbrev pub is_series_kind : ParameterKind → Bool
is_series_kind fixed_date_series_v1 = true
is_series_kind _ = false

abbrev pub is_maintenance_kind : ParameterKind → Bool
is_maintenance_kind maintenance_date_series_v2 = true
is_maintenance_kind _ = false

module _ (t : Calendar) (k : Codec) where
  unfoldable pub decode_date_series : Parameters → Checked (List CalendarDate)
  decode_date_series p = do
    guard (is_series_kind p.kind) unsupported_kind
    dates ← or_not_decoded t k (read_series k p.json)
    validate_date_series t dates
    ok dates

  unfoldable pub decode_maintenance_series : Parameters → Checked (List CalendarDate)
  decode_maintenance_series p = do
    guard (is_maintenance_kind p.kind) unsupported_kind
    dates ← or_not_decoded t k (read_series k p.json)
    validate_date_series t dates
    ok dates

-- The parameters are made, and have the property.
abbrev pub Makes : (Parameters → Type 0) → Checked Parameters → Type 0
Makes P r = (p : Parameters) × (r ≡ ok p) × P p

-- A predicate of the value, where there is one.
abbrev Gives : {A : Type 0} → (A → Type 0) → Checked A → Type 0
Gives P (ok a) = P a
Gives P (err e) = Unit

Gives-bind :
    {A B : Type 0} (P : B → Type 0) (m : Checked A) (f : A → Checked B)
    → ((a : A) → Gives P (f a))
    → Gives P (m >>= f)
Gives-bind P (ok a) f h = h a
Gives-bind P (err e) f h = tt

module _ (t : Calendar) (w : CalendarLaws t) (k : Codec) (laws : CodecLaws t w k)
    (jobs : List JobDefinition) where
  decode_series-encode :
      (n : ℕ) (ds : List CalendarDate)
      → IsSequence t w n ds
      → validate_date_series t ds ≡ ok tt
      → (decode_date_series t k (encode t k fixed_date_series_v1 (series ds)) ≡ ok ds)
        × (decode_maintenance_series t k (encode t k maintenance_date_series_v2 (series ds))
            ≡ ok ds)
  unfolding decode_date_series decode_maintenance_series encode
  decode_series-encode n ds s v = (
    rw (read_series-wire t w k laws n ds s) (rw v refl),
    rw (read_series-wire t w k laws n ds s) (rw v refl),
  )

  decode_range-encode :
      (from to : CalendarDate)
      → w.IsReal from
      → w.IsReal to
      → w.ordinal from ≤ w.ordinal to
      → decode_range t k (encode t k fixed_range_v1 (range (record { from = from; to = to })))
        ≡ ok (record { from = from; to = to })
  unfolding decode_range encode
  decode_range-encode from to p q le =
      rw
        (
          read_range-wire t w k laws (record { from = from; to = to }) p q,
          valid_range_lem t w from to p q le,
        )
        refl

  made-Gives :
      (key : String) (from to : CalendarDate)
      → w.IsReal from
      → w.IsReal to
      → w.ordinal from ≤ w.ordinal to
      → w.ordinal to < t.last_day
      → Gives
          (λ p. decode_range t k p ≡ ok (record { from = from; to = to }))
          (new_range_execution t k jobs key from to)
        × Gives
            (λ p. decode_date_series t k p ≡ inclusive_dates t from to)
            (new_date_series_execution t k jobs key from to)
        × Gives
            (λ p. decode_maintenance_series t k p ≡ inclusive_dates t from to)
            (new_maintenance_series_execution t k jobs key from to)
  unfolding new_range_execution new_date_series_execution new_maintenance_series_execution
  made-Gives key from to p q le room =
      let (ds, e, all, _, v) = inclusive_dates-IsSequence t w from to p q le room in
      let read = decode_series-encode (w.ordinal from) ds all v in
      (
        Gives-bind _ (require_job jobs key range_capable true) _
            (λ _. rw (valid_range_lem t w from to p q le) (decode_range-encode from to p q le)),
        Gives-bind _ (require_job jobs key single_date true) _ (λ _. rw e (read.0)),
        Gives-bind _ (require_job jobs key single_date false) _ (λ job.
            Gives-bind _ (guard (is_maintenance job.category) not_maintenance) _
              (λ _. rw e (read.1))),
      )

  made-Makes :
      (P : Parameters → Type 0) (job : JobDefinition) (r : Checked Parameters)
      → Accepted t w k laws job r
      → Gives P r
      → Makes P r
  made-Makes P job r (p, e, _) g = (p, e, subst (Gives P) e g)

  -- For a fixed job with a range, a fixed job with single dates and a maintenance job with single dates, all in the
  -- catalog, and real days `from` and `to`, `from` not after `to` and `to` before the last day of the calendar: the
  -- parameters of a range, of a series and of a maintenance series are made, and decoding them gives back the range,
  -- and the days from the one to the other.
  pub parameters_read_back :
      (ranged dated kept : JobDefinition) (from to : CalendarDate)
      → find_job ranged.key jobs ≡ some ranged
      → ranged.category ≡ category_fixed
      → ranged.date_strategy ≡ range_capable
      → find_job dated.key jobs ≡ some dated
      → dated.category ≡ category_fixed
      → dated.date_strategy ≡ single_date
      → find_job kept.key jobs ≡ some kept
      → is_maintenance kept.category ≡ true
      → kept.date_strategy ≡ single_date
      → w.IsReal from
      → w.IsReal to
      → w.ordinal from ≤ w.ordinal to
      → w.ordinal to < t.last_day
      → Makes
          (λ p. decode_range t k p ≡ ok (record { from = from; to = to }))
          (new_range_execution t k jobs ranged.key from to)
        × Makes
            (λ p. decode_date_series t k p ≡ inclusive_dates t from to)
            (new_date_series_execution t k jobs dated.key from to)
        × Makes
            (λ p. decode_maintenance_series t k p ≡ inclusive_dates t from to)
            (new_maintenance_series_execution t k jobs kept.key from to)
  parameters_read_back ranged dated kept from to f1 c1 s1 f2 c2 s2 f3 c3 s3 p q le room = (
    made-Makes _ ranged _ (range-Accepted t w k laws jobs ranged from to f1 p q le room c1 s1)
        (made-Gives ranged.key from to p q le room).0,
    made-Makes _ dated _ (series-Accepted t w k laws jobs dated from to f2 p q le room c2 s2)
        (made-Gives dated.key from to p q le room).1,
    made-Makes _ kept _ (maintenance-Accepted t w k laws jobs kept from to f3 p q le room c3 s3)
        (made-Gives kept.key from to p q le room).2,
  )
