-- ===== src/Runs/Params/Tests.antt =====
-- The parameters with a calendar of one month that has no end, and a codec that writes days in unary.
use Prim.Native.Char.{Char, code}
use Prim.Native.String.{[] as empty_text, ◌∷◌ as ◌+>◌}
use dwh_v.Common.{
  ℕ, zero, suc, ◌+◌, ◌*◌, ◌≤◌, ◌≡◌, refl, Bool, true, false, String, str_eq, Option, none, some,
  List, [], ◌∷◌, ◌==◌, if◌then◌else◌, ok, arith, leb, length, ap, sym, ◌∙◌, map, Bool-cases, inl,
  inr, eq_iff,
}
use dwh_v.Ingestion.Dates.{CalendarDate, Calendar, CalendarLaws, is_zero}
use dwh_v.Ingestion.Catalog.{
  JobDefinition, category_eod, category_fixed, single_date, range_capable,
}
use dwh_v.Runs.Json.{WireRange, wire_range, wire_series, wire_nothing, wire}
use dwh_v.Runs.Params.{
  decode_range, new_range_execution, new_date_series_execution, new_maintenance_series_execution,
  Payload, range, series, nothing, Codec, inclusive_dates, validate_date_series, parameters_for_job,
}
use dwh_v.Runs.Params.Series.{IsSequence, inclusive_dates-IsSequence}
use dwh_v.Scheduler.Occurrences.{parameters_for_occurrence, occurrence_parameters-Accepted}
use dwh_v.Runs.Params.Decode.{
  Makes, decode_date_series, decode_maintenance_series, parameters_read_back,
}
use dwh_v.Runs.Params.Valid.{CodecLaws, Accepted, parameters_for_job-Accepted}

abbrev day_of : ℕ → CalendarDate
day_of n = record { year = 2026; month = 1; day = n }

-- A number in unary, in front of a text.
abbrev unary : ℕ → String → String
unary zero s = "/" +> s
unary (suc n) s = "1" +> unary n s

abbrev to_days : String → ℕ → List ℕ
to_days empty_text n = []
to_days (c +> s) n =
    let more = to_days s (suc n) in
    let next = to_days s 0 in if code c == 49 then more else n ∷ next

to_days-unary : (n m : ℕ) (s : String) → to_days (unary n s) m ≡ (n + m) ∷ to_days s 0
to_days-unary zero m s = ap (λ k. k ∷ to_days s 0) (omega arith)
to_days-unary (suc n) m s = to_days-unary n (suc m) s ∙ ap (λ k. k ∷ to_days s 0) (omega arith)

abbrev numbers : List CalendarDate → String
numbers [] = empty_text
numbers (d ∷ ds) = unary d.day (numbers ds)

abbrev at_most : List ℕ → List ℕ → Bool
at_most (m ∷ _) (n ∷ _) = leb m n
at_most _ _ = true

-- A calendar whose days are those of January 2026, counted without end.
abbrev january : Calendar
january = record {
  format = λ d. unary d.day empty_text;
  text_le = λ s t. at_most (to_days s 0) (to_days t 0);
  next_day = λ d. day_of (suc d.day);
  last_day = 9;
}

abbrev IsJanuary : CalendarDate → Type 0
IsJanuary d = (d ≡ day_of d.day) × (d.day ≤ 9)

january_order :
    (d e : CalendarDate) → january.text_le (january.format d) (january.format e) ≡ leb d.day e.day
january_order d e =
    rw (to_days-unary d.day 0 empty_text, to_days-unary e.day 0 empty_text)
      (ap (λ k. leb (d.day + 0) k) (plus_zero e.day) ∙ ap (λ k. leb k e.day) (plus_zero d.day))
  where
    plus_zero : (n : ℕ) → n + 0 ≡ n
    plus_zero n = omega arith

abbrev january_laws : CalendarLaws january
january_laws = record {
  IsReal = IsJanuary;
  ordinal = λ d. d.day;
  not_zero = λ d h. ap is_zero h.0;
  ordinal_le = λ d h. h.1;
  text_order = λ d e _ _. january_order d e;
  next_real = λ d h room. ((refl, room), refl);
}

to_days-numbers : (ds : List CalendarDate) → to_days (numbers ds) 0 ≡ map (λ d. d.day) ds
to_days-numbers [] = refl
to_days-numbers (d ∷ ds) =
    to_days-unary d.day 0 (numbers ds)
    ∙ (ap (λ k. k ∷ to_days (numbers ds) 0) (omega arith)
        ∙ ap (λ ks. d.day ∷ ks) (to_days-numbers ds))

-- A text in front of another.
abbrev onto : Option String → String → String
onto none s = s
onto (some empty_text) s = s
onto (some (c +> r)) s = c +> onto (some r) s

abbrev texts : List (Option String) → String
texts [] = empty_text
texts (x ∷ xs) = onto x (texts xs)

abbrev text_of : ℕ → Option String
text_of n = some (unary n empty_text)

onto-unary : (n : ℕ) (s : String) → onto (text_of n) s ≡ unary n s
onto-unary zero s = refl
onto-unary (suc n) s = ap (λ r. "1" +> r) (onto-unary n s)

texts-numbers : (ds : List CalendarDate) → texts (map (λ d. text_of d.day) ds) ≡ numbers ds
texts-numbers [] = refl
texts-numbers (d ∷ ds) =
    onto-unary d.day (texts (map (λ e. text_of e.day) ds)) ∙ ap (unary d.day) (texts-numbers ds)

abbrev range_of : List ℕ → Option (WireRange × String)
range_of (m ∷ n ∷ _) = some (record { from = text_of m; to = text_of n }, "")
range_of _ = none

abbrev first_day : List ℕ → Option CalendarDate
first_day [] = none
first_day (n ∷ _) = some (day_of n)

abbrev behind : String → String
behind empty_text = empty_text
behind (c +> s) = s

abbrev starts_with : ℕ → String → Bool
starts_with n empty_text = false
starts_with n (c +> s) = code c == n

abbrev diary : Codec
diary = record {
  marshal = λ v. elim v [
    | wire_range r ↦ "R" +> texts (r.from ∷ r.to ∷ [])
    | wire_series xs ↦ "S" +> texts xs
    | wire_nothing ↦ "N" +> empty_text
  ];
  valid = λ _. true;
  decode_range = λ s. range_of (to_days (behind s) 0);
  decode_series = λ s. some (map text_of (to_days (behind s) 0), "");
  decode_nothing = λ s. if starts_with 78 s then some "" else none;
  at_end = λ s. str_eq s "";
  parse_date = λ s. first_day (to_days s 0);
  sha256 = λ s. s;
}

map-text_of :
    (ds : List CalendarDate) → map text_of (map (λ d. d.day) ds) ≡ map (λ d. text_of d.day) ds
map-text_of [] = refl
map-text_of (d ∷ ds) = ap (λ xs. text_of d.day ∷ xs) (map-text_of ds)

diary_parses :
    (d : CalendarDate) → IsJanuary d → first_day (to_days (unary d.day empty_text) 0) ≡ some d
diary_parses d p =
    ap first_day (to_days-unary d.day 0 empty_text)
    ∙ ap (λ n. some (day_of n)) (omega arith)
    ∙ ap some (sym p.0)

not_empty : (c : Char) (s : String) → str_eq (c +> s) "" ≡ false
not_empty c s = elim (Bool-cases (str_eq (c +> s) "")) [
  | inl h ↦ let e = (eq_iff (c +> s) "").0 h in cc
  | inr h ↦ h
]

text_start : (v : Payload) → str_eq (diary.marshal (wire january v)) "" ≡ false
text_start (range r) = not_empty "R" _
text_start (series ds) = not_empty "S" _
text_start nothing = refl

abbrev diary_laws : CodecLaws january january_laws diary
diary_laws = record {
  not_empty = text_start;
  is_valid = λ _. refl;
  range_back = λ d e _ _.
      ap (λ s. range_of (to_days s 0)) (texts-numbers (d ∷ e ∷ []))
      ∙ ap range_of (to_days-numbers (d ∷ e ∷ []));
  series_back = λ n ds _.
      ap (λ s. some (map text_of (to_days s 0), "")) (texts-numbers ds)
      ∙ ap (λ ks. some (map text_of ks, "")) (to_days-numbers ds)
      ∙ ap (λ xs. some (xs, "")) (map-text_of ds);
  nothing_back = refl;
  ends = refl;
  parses = diary_parses;
}

inclusive_dates-IsSequence_example :
    (ds : List CalendarDate) × (inclusive_dates january (day_of 2) (day_of 5) ≡ ok ds)
    × IsSequence january january_laws 2 ds
    × (length ds + 2 ≡ 6)
    × (validate_date_series january ds ≡ ok tt)
inclusive_dates-IsSequence_example =
    inclusive_dates-IsSequence january january_laws (day_of 2) (day_of 5) (refl, omega arith)
      (refl, omega arith) (omega arith) (omega arith)

abbrev end_of_day : JobDefinition
end_of_day = record { key = "eod"; category = category_eod; date_strategy = single_date }

parameters_for_job-Accepted_example :
    Accepted january january_laws diary diary_laws end_of_day
      (parameters_for_job january diary (end_of_day ∷ []) end_of_day (day_of 2) (day_of 5))
parameters_for_job-Accepted_example =
    parameters_for_job-Accepted january january_laws diary diary_laws (end_of_day ∷ []) end_of_day
      (day_of 2) (day_of 5) refl (tt, tt) (refl, omega arith) (refl, omega arith) (omega arith)
      (omega arith)

-- In the night of the sixth day there, which is the evening of the fifth in Greenwich.
abbrev evening : ℕ
evening = 5 * 86400000000 + 20 * 3600000000

occurrence_parameters-Accepted_example :
    (parameters_for_occurrence january diary (end_of_day ∷ []) day_of end_of_day evening
      ≡ parameters_for_job january diary (end_of_day ∷ []) end_of_day (day_of 5) (day_of 5))
    × Accepted january january_laws diary diary_laws end_of_day
        (parameters_for_occurrence january diary (end_of_day ∷ []) day_of end_of_day evening)
occurrence_parameters-Accepted_example =
    occurrence_parameters-Accepted january january_laws diary diary_laws (end_of_day ∷ []) day_of
      end_of_day evening 5 (omega arith) (omega arith) refl (tt, tt) (refl, omega arith)
      (omega arith)

abbrev balances : JobDefinition
balances = record { key = "balances"; category = category_fixed; date_strategy = range_capable }

abbrev rates : JobDefinition
rates = record { key = "rates"; category = category_fixed; date_strategy = single_date }

abbrev three_jobs : List JobDefinition
three_jobs = balances ∷ rates ∷ end_of_day ∷ []

parameters_read_back_example :
    Makes
      (λ p. decode_range january diary p ≡ ok (record { from = day_of 2; to = day_of 5 }))
      (new_range_execution january diary three_jobs "balances" (day_of 2) (day_of 5))
    × Makes
        (λ p. decode_date_series january diary p ≡ inclusive_dates january (day_of 2) (day_of 5))
        (new_date_series_execution january diary three_jobs "rates" (day_of 2) (day_of 5))
    × Makes
        (λ p.
          decode_maintenance_series january diary p ≡ inclusive_dates january (day_of 2) (day_of 5))
        (new_maintenance_series_execution january diary three_jobs "eod" (day_of 2) (day_of 5))
parameters_read_back_example =
    parameters_read_back january january_laws diary diary_laws three_jobs balances rates end_of_day
      (day_of 2) (day_of 5) refl refl refl refl refl refl refl refl refl (refl, omega arith)
      (refl, omega arith) (omega arith) (omega arith)
