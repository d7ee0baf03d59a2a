-- ===== src/Common/Tables.antt =====
-- Tables as lists of rows: the statements of SQL that change, delete and select rows.
use mathlib.Core.Path.{◌≡◌, refl, subst}
use mathlib.Core.Logic.{inl, inr}
use mathlib.Core.Bool.{Bool, true, not}
use mathlib.Core.Option.{Option, none, some}
use mathlib.Core.List.{List, [], ◌∷◌}
use native.Mathlib.Omega.{arith}
use dwh_v.Common.Tests.{if◌then◌else◌, if_rule, Bool-cases}
use dwh_v.Common.Lists.{All, keep}

module _ {A : Type 0} where
  -- `UPDATE … SET … WHERE …`
  unfoldable pub update_rows : (A → Bool) → (A → A) → List A → List A
  update_rows test change [] = []
  update_rows test change (r ∷ rs) = (if test r then change r else r) ∷ update_rows test change rs

  -- `SELECT … WHERE … LIMIT 1`, by a key that at most one row has.
  unfoldable pub find_row : (A → Bool) → List A → Option A
  find_row test [] = none
  find_row test (r ∷ rs) = if test r then some r else find_row test rs

  -- `DELETE … WHERE …`
  abbrev pub delete_rows : (A → Bool) → List A → List A
  delete_rows test = keep λ r. not (test r)

  pub All-update_rows {κ} :
      (P : A → Type κ) (test : A → Bool) (change : A → A) (rs : List A)
      → ((r : A) → test r ≡ true → P r → P (change r))
      → All P rs
      → All P (update_rows test change rs)
  unfolding update_rows
  All-update_rows P test change [] f h = tt
  All-update_rows P test change (r ∷ rs) f h =
      (if_rule P (test r) (λ hit. f r hit h.0) (λ _. h.0), All-update_rows P test change rs f h.1)

  -- What no matching row loses, and no other row.
  pub All-keep {κ} : (P : A → Type κ) (t : A → Bool) (rs : List A) → All P rs → All P (keep t rs)
  All-keep P t [] h = tt
  All-keep P t (r ∷ rs) h =
      let rest = All-keep P t rs h.1 in if_rule (All P) (t r) (λ _. (h.0, rest)) (λ _. rest)

  -- Every row that stays passes the test.
  pub keep-All : (t : A → Bool) (rs : List A) → All (λ r. t r ≡ true) (keep t rs)
  keep-All t [] = tt
  keep-All t (r ∷ rs) =
      let rest = keep-All t rs in
      if_rule (All (λ r. t r ≡ true)) (t r) (λ hit. (hit, rest)) (λ _. rest)

  pub find_row-All {κ} :
      (P : A → Type κ) (test : A → Bool) (rs : List A) {r : A}
      → find_row test rs ≡ some r
      → All P rs
      → (test r ≡ true) × P r
  unfolding find_row
  find_row-All P test [] e h = cc
  find_row-All P test (x ∷ xs) {r} e h = elim (Bool-cases (test x)) [
    | inl hit ↦
        let same : x ≡ r = ground arith in subst (λ y. (test y ≡ true) × P y) same (hit, h.0)
    | inr miss ↦ find_row-All P test xs {r = r} (ground arith) h.1
  ]

  pub find_row-test :
      (test : A → Bool) (rs : List A) {r : A} → find_row test rs ≡ some r → test r ≡ true
  unfolding find_row
  find_row-test test [] e = cc
  find_row-test test (x ∷ xs) {r} e = elim (Bool-cases (test x)) [
    | inl hit ↦ let same : x ≡ r = ground arith in subst (λ y. test y ≡ true) same hit
    | inr miss ↦ find_row-test test xs {r = r} (ground arith)
  ]

  pub find_row-delete_rows :
      (test : A → Bool) (rs : List A) → find_row test (delete_rows test rs) ≡ none
  unfolding find_row
  find_row-delete_rows test [] = refl
  find_row-delete_rows test (x ∷ xs) =
      let rest = find_row-delete_rows test xs in
      elim (Bool-cases (test x)) [ inl hit ↦ rw hit rest | inr miss ↦ rw (miss, miss) rest ]
