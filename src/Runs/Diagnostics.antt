-- ===== src/Runs/Diagnostics.antt =====
-- internal/ingestionrun/model.go, `MapperDiagnostics`, and `IsSafeMapperDiagnostic` of
-- internal/ingestion/detail.go: what could not be mapped, counted in at most sixteen groups. The counts
-- are 64-bit.
mod Tests
pub mod Counting
use Prim.Native.Nat.{Ordering}
use Prim.Native.String.{compare as compare_text}
use dwh_v.Common.{
  ℕ, zero, suc, ◌+◌, ◌-◌, ◌≤◌, ◌≡◌, refl, Bool, true, false, ◌&&◌, ◌||◌, not, String, str_eq,
  Option, none, some, List, [], ◌∷◌, ◌++◌, if◌then◌else◌, ◌==◌, ==_iff, arith, ltb, leb, length,
  if_rule, if_some, option_rule, subst, sym, ◌∙◌, ap, Bool-cases, Option-cases, inl, inr, Result,
  ok, err,
}

abbrev pub max_groups : ℕ
max_groups = 16

abbrev pub max_uint64 : ℕ
max_uint64 = 18446744073709551615

-- What `MapperMetadata` tells of one failure.
pub record Metadata : Type 0 where
  pub class : String
  pub field : String
  pub category : String
  pub reason : String
  pub message : String

pub record Group : Type 0 where
  pub what : Metadata
  pub count : ℕ

pub record Diagnostics : Type 0 where
  pub total : ℕ
  pub overflow : ℕ
  pub groups : List Group

abbrev pub one_of : String → List String → Bool
one_of s [] = false
one_of s (x ∷ xs) = str_eq s x || one_of s xs

abbrev pub safe_categories : List String
safe_categories =
    "string" ∷ "decimal" ∷ "integer" ∷ "date" ∷ "time" ∷ "datetime" ∷ "boolean" ∷ "identifier"
    ∷ "structure" ∷ []

abbrev pub safe_reasons : List String
safe_reasons =
    "missing" ∷ "required" ∷ "invalid_json" ∷ "expected_array" ∷ "expected_object" ∷ "invalid_value"
    ∷ []

abbrev pub safe_messages : List String
safe_messages =
    "detail payload is missing" ∷ "detail payload is invalid" ∷ "detail identifier is missing"
    ∷ "required detail field is missing" ∷ "detail field value is invalid"
    ∷ "detail child collection is invalid" ∷ "detail child item is invalid" ∷ []

-- `IsSafeMapperDiagnostic`; `targets` holds the target fields of the shapes of the five details.
unfoldable pub is_safe : List String → Metadata → Bool
is_safe targets m =
    str_eq m.class "detail_mapping"
    && ((str_eq m.field "payload" || (str_eq m.field "identifier" || one_of m.field targets))
        && (one_of m.category safe_categories
            && (one_of m.reason safe_reasons && one_of m.message safe_messages)))

-- `sameMapperDiagnostic`
unfoldable pub is_same : Metadata → Metadata → Bool
is_same a b =
    str_eq a.class b.class
    && (str_eq a.field b.field
        && (str_eq a.category b.category
            && (str_eq a.reason b.reason && str_eq a.message b.message)))

abbrev pub text_lt : String → String → Bool
text_lt a b = elim (compare_text a b) [ Ordering.lt ↦ true | _ ↦ false ]

-- The order that `sort` sorts by.
unfoldable pub goes_before : Group → Group → Bool
goes_before a b =
    if not (str_eq a.what.class b.what.class)
    then text_lt a.what.class b.what.class
    else (if not (str_eq a.what.field b.what.field)
        then text_lt a.what.field b.what.field
        else (if not (str_eq a.what.category b.what.category)
            then text_lt a.what.category b.what.category
            else (if not (str_eq a.what.reason b.what.reason)
                then text_lt a.what.reason b.what.reason
                else text_lt a.what.message b.what.message)))

-- The loop of `validate`, behind the group `before`: the total with the groups' counts, if all are valid.
unfoldable pub count_groups : List String → ℕ → Option Metadata → List Group → Option ℕ
count_groups targets total before [] = some total
count_groups targets total before (g ∷ gs) =
    let rest = count_groups targets (total + g.count) (some g.what) gs in
    if not (is_safe targets g.what) || g.count == 0
    then none
    else (if elim before [ none ↦ false | some b ↦ is_same b g.what ]
        then none
        else (if ltb (max_uint64 - total) g.count then none else rest))

unfoldable pub validate : List String → Diagnostics → Bool
unfolding count_groups
validate targets d =
    if ltb max_groups (length d.groups)
    then false
    else elim (count_groups targets d.overflow none d.groups) [
      | none ↦ false
      | some total ↦ total == d.total
    ]

-- The search of `Add` for the group of a failure: there is none, its count is full, or it is counted.
pub data Search : Type 0 where
  missing full : Search
  counted : List Group → Search

abbrev pub behind : Group → Search → Search
behind g missing = missing
behind g full = full
behind g (counted gs) = counted (g ∷ gs)

unfoldable pub count_in : Metadata → List Group → Search
count_in m [] = missing
count_in m (g ∷ gs) =
    let rest = count_in m gs in
    if is_same g.what m
    then (if g.count == max_uint64 then full else counted (record g { count = suc g.count } ∷ gs))
    else behind g rest

-- `sort.Slice` is the function `sort_slice`.
module _ (sort_slice : (Group → Group → Bool) → List Group → List Group)
    (targets : List String) where
  unfoldable pub sorted : Diagnostics → Diagnostics
  sorted d = record d { groups = sort_slice goes_before d.groups }

  -- `validate` of what was changed: the answer and the diagnostics.
  abbrev pub checked : Diagnostics → Bool × Diagnostics
  checked d = (validate targets d, d)

  abbrev pub add_group : Metadata → Diagnostics → Search → Bool × Diagnostics
  add_group m d (counted gs) = checked (sorted (record d { groups = gs }))
  add_group m d full = (false, d)
  add_group m d missing =
      if ltb (length d.groups) max_groups
      then checked (sorted (record d { groups = d.groups ++ record { what = m; count = 1 } ∷ [] }))
      else (if d.overflow == max_uint64
          then (false, d)
          else checked (record d { overflow = suc d.overflow }))

  -- `Add`: whether it returned no error, and the diagnostics that it leaves.
  unfoldable pub add : Metadata → Diagnostics → Bool × Diagnostics
  add m d =
      if not (is_safe targets m)
      then (false, d)
      else (if d.total == max_uint64
          then (false, d)
          else add_group m (record d { total = suc d.total }) (count_in m d.groups))

abbrev pub sum_counts : List Group → ℕ
sum_counts [] = 0
sum_counts (g ∷ gs) = g.count + sum_counts gs

-- An answer of the count is the total with the counts.
abbrev Sums : ℕ → List Group → Option ℕ → Type 0
Sums total gs none = Unit
Sums total gs (some n) = total + sum_counts gs ≡ n

count_groups-Sums :
    (targets : List String) (total : ℕ) (before : Option Metadata) (gs : List Group)
    → Sums total gs (count_groups targets total before gs)
unfolding count_groups
count_groups-Sums targets total before [] = omega arith
count_groups-Sums targets total before (g ∷ gs) =
    if_rule P (not (is_safe targets g.what) || g.count == 0) (λ _. tt)
      (λ _.
        if_rule P (elim before [ none ↦ false | some b ↦ is_same b g.what ]) (λ _. tt)
          (λ _.
            if_rule P (ltb (max_uint64 - total) g.count) (λ _. tt)
              (λ _.
                shift (count_groups targets (total + g.count) (some g.what) gs)
                  (count_groups-Sums targets (total + g.count) (some g.what) gs))))
  where
    P : Option ℕ → Type 0
    P = Sums total (g ∷ gs)

    shift : (o : Option ℕ) → Sums (total + g.count) gs o → P o
    shift none h = tt
    shift (some n) h = omega (arith, h)

-- What a validation that passes says.
abbrev pub Accounts : Diagnostics → Type 0
Accounts d = (d.overflow + sum_counts d.groups ≡ d.total) × (length d.groups ≤ max_groups)

validate-Accounts :
    (targets : List String) (d : Diagnostics) → validate targets d ≡ true → Accounts d
unfolding validate
validate-Accounts targets d h = elim (Bool-cases (ltb max_groups (length d.groups))) [
  | inl over ↦ absurd (ground arith)
  | inr fits ↦ elim (Option-cases (count_groups targets d.overflow none d.groups)) [
    | inl nothing ↦ absurd (ground arith)
    | inr (n, e) ↦
        let sums =
          subst (Sums d.overflow d.groups) e (count_groups-Sums targets d.overflow none d.groups) in
        let same : n ≡ d.total = ground arith in (sums ∙ same, ground arith)
  ]
]
