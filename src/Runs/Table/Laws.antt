-- ===== src/Runs/Table/Laws.antt =====
-- What a statement finds stands in the table and passes its test.
use mathlib.Core.List.{Memᴰ}
use dwh_v.Common.{
  ◌≡◌, refl, Bool, true, false, Option, none, some, List, [], ◌∷◌, if◌then◌else◌, arith, Bool-cases,
  inl, inr, subst, sym, ◌∙◌, ap, if_rule, ◌⊎◌,
}
use dwh_v.Runs.Model.{Row}
use dwh_v.Runs.Table.{find_row, first_row, least, update_rows}

-- The row is in the table and passes.
abbrev pub Found : (Row → Bool) → List Row → Row → Type 0
Found test rs r = Memᴰ r rs × (test r ≡ true)

pub find_row-Found :
    (test : Row → Bool) (rs : List Row) {r : Row} → find_row test rs ≡ some r → Found test rs r
unfolding find_row
find_row-Found test [] e = cc
find_row-Found test (x ∷ xs) {r} e = elim (Bool-cases (test x)) [
  | inl hit ↦ let q : x ≡ r = ground arith in (Memᴰ.head (sym q), subst (λ y. test y ≡ true) q hit)
  | inr miss ↦
      let rest = find_row-Found test xs {r = r} (ground arith) in (Memᴰ.tail rest.0, rest.1)
]

least_cases :
    (before : Row → Row → Bool) (x : Row) (o : Option Row)
    → (least before x o ≡ x) ⊎ (o ≡ some (least before x o))
least_cases before x none = inl refl
least_cases before x (some s) =
    if_rule (λ r. (r ≡ x) ⊎ (some s ≡ some r)) (before s x) (λ _. inr refl) (λ _. inl refl)

pub first_row-Found :
    (before : Row → Row → Bool) (test : Row → Bool) (rs : List Row) {r : Row}
    → first_row before test rs ≡ some r
    → Found test rs r
unfolding first_row
first_row-Found before test [] e = cc
first_row-Found before test (x ∷ xs) {r} e = elim (Bool-cases (test x)) [
  | inl hit ↦
      let q : least before x (first_row before test xs) ≡ r = ground arith in
      elim (least_cases before x (first_row before test xs)) [
        | inl own ↦
            let p : x ≡ r = sym own ∙ q in (Memᴰ.head (sym p), subst (λ y. test y ≡ true) p hit)
        | inr other ↦
            let rest = first_row-Found before test xs {r = r} (other ∙ ap some q) in
            (Memᴰ.tail rest.0, rest.1)
      ]
  | inr miss ↦
      let rest = first_row-Found before test xs {r = r} (ground arith) in (Memᴰ.tail rest.0, rest.1)
]

-- The row that a search by an order found comes before the row `y`.
abbrev pub Beats : (Row → Row → Bool) → Option Row → Row → Type 0
Beats before none y = ⊥
Beats before (some x) y = before x y ≡ true

-- A search finds a row that comes before all that pass.
module _ (before : Row → Row → Bool) (total : (x y : Row) → before x y ≡ false → before y x ≡ true)
    (trans : (x y z : Row) → before x y ≡ true → before y z ≡ true → before x z ≡ true) where
  own_before : (x : Row) → before x x ≡ true
  own_before x = elim (Bool-cases (before x x)) [ inl h ↦ h | inr h ↦ total x x h ]

  least_own : (r : Row) (o : Option Row) → Beats before (some (least before r o)) r
  least_own r none = own_before r
  least_own r (some s) =
      if_rule (λ (z : Row). before z r ≡ true) (before s r) (λ h. h) (λ _. own_before r)

  least_rest :
      (r y : Row) (o : Option Row) → Beats before o y → Beats before (some (least before r o)) y
  least_rest r y none h = absurd h
  least_rest r y (some s) h =
      if_rule (λ (z : Row). before z y ≡ true) (before s r) (λ _. h)
        (λ f. trans r s y (total s r f) h)

  pub first_row-Beats :
      (test : Row → Bool) (rs : List Row) (y : Row)
      → Memᴰ y rs
      → test y ≡ true
      → Beats before (first_row before test rs) y
  unfolding first_row
  first_row-Beats test [] y m h = elim m [ ]
  first_row-Beats test (r ∷ rs) y (Memᴰ.head e) h =
      if_rule (λ o. Beats before o y) (test r)
        (λ _.
          subst (λ z. Beats before (some (least before r (first_row before test rs))) z) (sym e)
            (least_own r (first_row before test rs)))
        (λ f. let q = ap test e in absurd (ground arith))
  first_row-Beats test (r ∷ rs) y (Memᴰ.tail m) h =
      let rest = first_row-Beats test rs y m h in
      if_rule (λ o. Beats before o y) (test r) (λ _. least_rest r y (first_row before test rs) rest)
        (λ _. rest)

-- A row of the table after an update was one before it.
pub update_rows-Memᴰ :
    (test : Row → Bool) (change : Row → Row) (rs : List Row) (y : Row)
    → Memᴰ y (update_rows test change rs)
    → (x : Row) × (Memᴰ x rs × (y ≡ (if test x then change x else x)))
unfolding update_rows
update_rows-Memᴰ test change [] y m = elim m [ ]
update_rows-Memᴰ test change (r ∷ rs) y (Memᴰ.head e) = (r, (Memᴰ.head refl, e))
update_rows-Memᴰ test change (r ∷ rs) y (Memᴰ.tail m) =
    let rest = update_rows-Memᴰ test change rs y m in (rest.0, (Memᴰ.tail rest.1.0, rest.1.1))
