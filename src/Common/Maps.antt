-- ===== src/Common/Maps.antt =====
-- Maps from texts as lists of pairs; a key stands once.
use Prim.Native.String.{String}
use mathlib.Core.Path.{◌≡◌, refl, ap}
use mathlib.Core.Logic.{inl, inr}
use mathlib.Core.Option.{Option, none, some}
use mathlib.Core.Bool.{Bool, true, false}
use mathlib.Core.List.{List, [], ◌∷◌}
use native.Mathlib.Omega.{arith}
use text.Mathlib.Text.{◌==◌ as str_eq}
use text.Mathlib.TextEquality.{eq_iff}
use dwh_v.Common.Tests.{if◌then◌else◌, Bool-cases}

module _ {ℓ} {V : Type ℓ} where
  abbrev pub lookup : String → List (String × V) → Option V
  lookup k [] = none
  lookup k ((j, v) ∷ m) = if str_eq j k then some v else lookup k m

  abbrev pub insert : String → V → List (String × V) → List (String × V)
  insert k v [] = (k, v) ∷ []
  insert k v ((j, w) ∷ m) =
      let rest = insert k v m in if str_eq j k then (k, v) ∷ m else (j, w) ∷ rest

  -- The entries that pass.
  abbrev pub keep_entries : (String → V → Bool) → List (String × V) → List (String × V)
  keep_entries t [] = []
  keep_entries t ((j, v) ∷ m) = let rest = keep_entries t m in if t j v then (j, v) ∷ rest else rest

  abbrev pub delete : String → List (String × V) → List (String × V)
  delete k = keep_entries λ j _. if str_eq j k then false else true

  pub lookup-keep_entries :
      (t : String → V → Bool) (k : String) (m : List (String × V)) {v : V}
      → lookup k m ≡ some v
      → t k v ≡ true
      → lookup k (keep_entries t m) ≡ some v
  lookup-keep_entries t k [] e h = cc
  lookup-keep_entries t k ((j, w) ∷ m) {v} e h = elim (Bool-cases (str_eq j k)) [
    | inl hit ↦
        let same : w ≡ v = ground arith in
        let key = (eq_iff j k).0 hit in
        let passes : t j w ≡ true = cc (key, same, h) in rw (passes, hit) (ap some same)
    | inr miss ↦
        let rest = lookup-keep_entries t k m {v = v} (ground arith) h in
        elim (Bool-cases (t j w)) [ inl in_ ↦ rw (in_, miss) rest | inr out ↦ rw out rest ]
  ]

  pub lookup-insert_other :
      (k j : String) (v : V) (m : List (String × V))
      → str_eq j k ≡ false
      → lookup k (insert j v m) ≡ lookup k m
  lookup-insert_other k j v [] h = rw h refl
  lookup-insert_other k j v ((i, w) ∷ m) h =
      let rest = lookup-insert_other k j v m h in
      elim (Bool-cases (str_eq i j)) [
        | inl hit ↦ let key = (eq_iff i j).0 hit in ground (arith, ap (λ x. str_eq x k) key)
        | inr miss ↦ ground arith
      ]
