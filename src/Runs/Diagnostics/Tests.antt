-- ===== src/Runs/Diagnostics/Tests.antt =====
-- A failure that is counted in the second of two groups.
use mathlib.Core.List.Permᴰ
use dwh_v.Common.{ℕ, refl, [], ◌∷◌, String}
use dwh_v.Runs.Diagnostics.{
  Metadata, Group, Diagnostics, add, is_safe, is_same, count_in, sorted, validate, count_groups,
}
use dwh_v.Runs.Diagnostics.Counting.{Counted, add-Counted}

abbrev failure : String → Metadata
failure field = record {
  class = "detail_mapping";
  field = field;
  category = "string";
  reason = "missing";
  message = "detail payload is missing";
}

abbrev one_of : ℕ → String → Group
one_of n field = record { what = failure field; count = n }

abbrev two_groups : Diagnostics
two_groups = record { total = 3; overflow = 0; groups = one_of 2 "payload" ∷ one_of 1 "name" ∷ [] }

abbrev one_more : Diagnostics
one_more = record { total = 4; overflow = 0; groups = one_of 2 "payload" ∷ one_of 2 "name" ∷ [] }

add-Counted_example : Counted (failure "name") two_groups one_more
unfolding add is_safe is_same count_in sorted validate count_groups
add-Counted_example =
    add-Counted (λ _ gs. gs) (λ _ gs. Permᴰ.refl gs) ("name" ∷ []) (failure "name") two_groups
      one_more refl
