-- ===== src/Ingestion/Dates.antt =====
-- internal/ingestion/date.go: civil dates. The calendar itself is Go's `time` package.
use dwh_v.Common.{ℕ, suc, ◌≤◌, ◌<◌, ◌≡◌, Bool, false, ◌&&◌, String, ◌==◌, leb, if◌then◌else◌}

pub record CalendarDate : Type 0 where
  pub year : ℕ
  pub month : ℕ
  pub day : ℕ

-- `date != other` of Go compares the three fields.
abbrev pub date_eq : CalendarDate → CalendarDate → Bool
date_eq a b = a.year == b.year && (a.month == b.month && a.day == b.day)

abbrev pub is_zero : CalendarDate → Bool
is_zero d = d.year == 0

-- `Time.Format("2006-01-02")`, Go's order of strings, and `AddDate(0, 0, 1)` at midnight UTC.
pub record Calendar : Type 0 where
  pub format : CalendarDate → String
  pub text_le : String → String → Bool
  pub next_day : CalendarDate → CalendarDate
  pub last_day : ℕ

module _ (t : Calendar) where
  -- `String`
  unfoldable pub date_text : CalendarDate → String
  date_text d = if is_zero d then "" else t.format d

  -- `date.String() <= other.String()`
  unfoldable pub at_or_before : CalendarDate → CalendarDate → Bool
  unfolding date_text
  at_or_before a b = t.text_le (date_text a) (date_text b)

  -- `AddDays(1)`
  unfoldable pub add_day : CalendarDate → CalendarDate
  add_day d = if is_zero d then d else t.next_day d

-- What is relied on of the package: a date of a four-digit year has a day number, its text sorts
-- by that number, and the day after it has the next number, unless it is the last of these days.
pub record CalendarLaws (t : Calendar) : Type 1 where
  pub IsReal : CalendarDate → Type 0
  pub ordinal : CalendarDate → ℕ
  pub not_zero : (d : CalendarDate) → IsReal d → is_zero d ≡ false
  pub ordinal_le : (d : CalendarDate) → IsReal d → ordinal d ≤ t.last_day
  pub text_order :
      (d e : CalendarDate)
      → IsReal d
      → IsReal e
      → t.text_le (t.format d) (t.format e) ≡ leb (ordinal d) (ordinal e)
  pub next_real :
      (d : CalendarDate)
      → IsReal d
      → ordinal d < t.last_day
      → IsReal (t.next_day d) × (ordinal (t.next_day d) ≡ suc (ordinal d))
