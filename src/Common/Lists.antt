-- ===== src/Common/Lists.antt =====
-- Lists measured by native numbers, and a predicate that holds of every entry.
use Prim.Native.Nat.{ℕ, suc, ◌+◌}
use mathlib.Core.Path.{◌≡◌, sym, ap, subst}
use mathlib.Core.Logic.{◌⊎◌, inl, inr}
use mathlib.Core.Option.{Option, none, some}
use mathlib.Core.Bool.{Bool}
use mathlib.Core.List.{List, [], ◌∷◌, ◌++◌, Memᴰ}
use native.Mathlib.Omega.{arith}
use dwh_v.Common.Tests.{if◌then◌else◌, Bool-cases, Option-cases}

module _ {ℓ} {A : Type ℓ} where
  abbrev pub length : List A → ℕ
  length [] = 0
  length (x ∷ xs) = suc (length xs)

  pub length-append : (xs ys : List A) → length (xs ++ ys) ≡ length xs + length ys
  length-append [] ys = omega arith
  length-append (x ∷ xs) ys = omega (arith, length-append xs ys)

  abbrev pub All {κ} : (A → Type κ) → List A → Type κ
  All P [] = Unit
  All P (x ∷ xs) = P x × All P xs

  pub All-mono {κ μ} :
      {P : A → Type κ} {Q : A → Type μ}
      → ((a : A) → P a → Q a)
      → (xs : List A) → All P xs
      → All Q xs
  All-mono f [] h = tt
  All-mono f (x ∷ xs) h = (f x h.0, All-mono f xs h.1)

  -- The entries that pass a Boolean test, in order.
  abbrev pub keep : (A → Bool) → List A → List A
  keep t [] = []
  keep t (x ∷ xs) = let rest = keep t xs in if t x then x ∷ rest else rest

  abbrev pub count_if : (A → Bool) → List A → ℕ
  count_if t [] = 0
  count_if t (x ∷ xs) = let rest = count_if t xs in if t x then suc rest else rest

  -- The list without its first entry that passes, if there is one.
  abbrev pub remove_first : (A → Bool) → List A → Option (List A)
  remove_first t [] = none
  remove_first t (x ∷ xs) =
      let rest = remove_first t xs in
      if t x then some xs else elim rest [ none ↦ none | some r ↦ some (x ∷ r) ]

  pub remove_first_cons :
      (t : A → Bool) (x : A) (xs : List A) {ys : List A}
      → remove_first t (x ∷ xs) ≡ some ys
      → (xs ≡ ys) ⊎ ((zs : List A) × (remove_first t xs ≡ some zs) × (x ∷ zs ≡ ys))
  remove_first_cons t x xs e = elim (Option-cases (remove_first t xs)) [
    | inl r ↦ inl (ground arith)
    | inr (zs, r) ↦ elim (Bool-cases (t x)) [
      | inl hit ↦ inl (ground arith)
      | inr miss ↦ inr (zs, r, ground arith)
    ]
  ]

  pub All-remove_first {κ} :
      (P : A → Type κ) (t : A → Bool) (xs : List A) {ys : List A}
      → remove_first t xs ≡ some ys
      → All P xs
      → All P ys
  All-remove_first P t [] e h = cc
  All-remove_first P t (x ∷ xs) e h = elim (remove_first_cons t x xs e) [
    | inl q ↦ subst (All P) q h.1
    | inr (zs, r, q) ↦ subst (All P) q (h.0, All-remove_first P t xs r h.1)
  ]

  pub length-remove_first :
      (t : A → Bool) (xs : List A) {ys : List A}
      → remove_first t xs ≡ some ys
      → length xs ≡ suc (length ys)
  length-remove_first t [] e = cc
  length-remove_first t (x ∷ xs) e = elim (remove_first_cons t x xs e) [
    | inl q ↦ omega (arith, ap length q)
    | inr (zs, r, q) ↦ omega (arith, ap length q, length-remove_first t xs r)
  ]

  pub All-mem {κ} : (P : A → Type κ) {a : A} {xs : List A} → All P xs → Memᴰ a xs → P a
  All-mem P h (Memᴰ.head e) = subst P (sym e) h.0
  All-mem P h (Memᴰ.tail m) = All-mem P h.1 m
