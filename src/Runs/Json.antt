-- ===== src/Runs/Json.antt =====
-- The values that internal/ingestionrun/params.go writes as JSON and reads back: `decodeCanonical` of that file, and the
-- JSON methods of `CalendarDate` in internal/ingestion/date.go.
use dwh_v.Common.{Bool, false, String, Option, none, some, List, [], ◌∷◌, if◌then◌else◌, map}
use dwh_v.Ingestion.Dates.{CalendarDate, Calendar, is_zero, date_text}

pub record Range : Type 0 where
  pub from : CalendarDate
  pub to : CalendarDate

-- The values that `encode` is called with: a `Range`, a `DateSeries`, or the empty struct.
pub data Payload : Type 0 where
  range : Range → Payload
  series : List CalendarDate → Payload
  nothing : Payload

-- The same values with each date as the JSON value that its own method writes: a string, or `none` for null.
pub record WireRange : Type 0 where
  pub from : Option String
  pub to : Option String

pub data Wire : Type 0 where
  wire_range : WireRange → Wire
  wire_series : List (Option String) → Wire
  wire_nothing : Wire

-- `encoding/json`, `crypto/sha256` and `time.Parse`. A `decode` is one call of a decoder that refuses unknown fields: the
-- value and what is left of the input. `at_end` says that a further call finds the end of the input.
pub record Codec : Type 0 where
  pub marshal : Wire → String
  pub valid : String → Bool
  pub decode_range : String → Option (WireRange × String)
  pub decode_series : String → Option (List (Option String) × String)
  pub decode_nothing : String → Option String
  pub at_end : String → Bool
  pub parse_date : String → Option CalendarDate
  pub sha256 : String → String

module _ (t : Calendar) where
  -- `CalendarDate.MarshalJSON`
  unfoldable pub date_to_json : CalendarDate → Option String
  date_to_json d = if is_zero d then none else some (date_text t d)

  abbrev pub wire : Payload → Wire
  wire (range r) = wire_range (record { from = date_to_json r.from; to = date_to_json r.to })
  wire (series ds) = wire_series (map date_to_json ds)
  wire nothing = wire_nothing

abbrev pub zero_date : CalendarDate
zero_date = record { year = 0; month = 0; day = 0 }

module _ (k : Codec) where
  -- `CalendarDate.UnmarshalJSON`
  unfoldable pub date_of_json : Option String → Option CalendarDate
  date_of_json none = some zero_date
  date_of_json (some s) = k.parse_date s

  abbrev pub range_of_json : WireRange → Option Range
  range_of_json w = elim (date_of_json w.from) [
    | none ↦ none
    | some from ↦ elim (date_of_json w.to) [
      | none ↦ none
      | some to ↦ some (record { from = from; to = to })
    ]
  ]

  unfoldable pub dates_of_json : List (Option String) → Option (List CalendarDate)
  dates_of_json [] = some []
  dates_of_json (x ∷ xs) =
      let rest = dates_of_json xs in
      elim (date_of_json x) [
        | none ↦ none
        | some d ↦ elim rest [ none ↦ none | some ds ↦ some (d ∷ ds) ]
      ]

  abbrev pub if_at_end : {A : Type 0} → String → Option A → Option A
  if_at_end rest o = if k.at_end rest then o else none

  -- `decodeCanonical`, up to the validation.
  unfoldable pub read_range : String → Option Range
  read_range json = elim (k.decode_range json) [
    | none ↦ none
    | some (w, rest) ↦ if_at_end rest (range_of_json w)
  ]

  unfoldable pub read_series : String → Option (List CalendarDate)
  read_series json = elim (k.decode_series json) [
    | none ↦ none
    | some (xs, rest) ↦ if_at_end rest (dates_of_json xs)
  ]

  unfoldable pub read_nothing : String → Bool
  read_nothing json = elim (k.decode_nothing json) [ none ↦ false | some rest ↦ k.at_end rest ]
