-- ===== src/Runs/Reconcile/Outcome.antt =====
-- What the status of an ended "Run All" parent says of its children.
use mathlib.Core.List.{Memᴰ}
use dwh_v.Common.{
  ℕ, ◌≡◌, refl, Bool, true, false, ◌&&◌, none, List, [], ◌∷◌, count_if, subst, sym, Bool-cases, inl,
  inr, arith, ltb,
}
use dwh_v.Runs.Model.{
  Status, planned, queued, running, succeeded, failed, skipped, cancelled, abandoned, completed,
  completed_with_skips, Row,
}
use dwh_v.Runs.Table.{is_planned, number_is, first_row}
use dwh_v.Runs.Reconcile.{
  is_broken, is_skipped, is_active, children_with, aggregate_parent_status, by_position,
  next_planned,
}

-- The child did its work.
abbrev pub did_work : Status → Bool
did_work succeeded = true
did_work completed = true
did_work completed_with_skips = true
did_work _ = false

count_if-zero :
    (test : Row → Bool) (rs : List Row) (r : Row)
    → count_if test rs ≡ 0
    → Memᴰ r rs
    → test r ≡ false
count_if-zero test [] r e m = elim m [ ]
count_if-zero test (x ∷ xs) r e (Memᴰ.head p) = subst (λ y. test y ≡ false) (sym p) (ground arith)
count_if-zero test (x ∷ xs) r e (Memᴰ.tail m) = count_if-zero test xs r (ground arith) m

-- A search that finds nothing: no row passes.
first_row-none :
    (before : Row → Row → Bool) (test : Row → Bool) (rs : List Row) (r : Row)
    → first_row before test rs ≡ none
    → Memᴰ r rs
    → test r ≡ false
unfolding first_row
first_row-none before test [] r e m = elim m [ ]
first_row-none before test (x ∷ xs) r e (Memᴰ.head p) =
    subst (λ y. test y ≡ false) (sym p) (ground arith)
first_row-none before test (x ∷ xs) r e (Memᴰ.tail m) =
    first_row-none before test xs r (ground arith) m

aggregate_completed :
    (parent : ℕ) (rs : List Row)
    → aggregate_parent_status parent rs ≡ completed
    → (children_with is_broken parent rs ≡ 0) × (children_with is_skipped parent rs ≡ 0)
unfolding aggregate_parent_status
aggregate_completed parent rs e = elim (Bool-cases (ltb 0 (children_with is_broken parent rs))) [
  | inl broken ↦ absurd (ground arith)
  | inr sound ↦ elim (Bool-cases (ltb 0 (children_with is_skipped parent rs))) [
    | inl missed ↦ absurd (ground arith)
    | inr whole ↦ (ground arith, ground arith)
  ]
]

-- What is left of the states.
only_work :
    (s : Status)
    → is_planned s ≡ false
    → is_active s ≡ false
    → is_broken s ≡ false
    → is_skipped s ≡ false
    → did_work s ≡ true
only_work planned a b c d = cc
only_work queued a b c d = cc
only_work running a b c d = cc
only_work failed a b c d = cc
only_work cancelled a b c d = cc
only_work abandoned a b c d = cc
only_work skipped a b c d = cc
only_work succeeded a b c d = refl
only_work completed a b c d = refl
only_work completed_with_skips a b c d = refl

other_fails : {a b : Bool} → a ≡ true → (a && b) ≡ false → b ≡ false
other_fails p q = ground arith

-- If a "Run All" parent ends as `completed`, where it ends (no child is active and none is planned any
-- more), then every child of the parent in the table did its work: none failed, was cancelled, abandoned or
-- skipped.
pub completed_parent_did_all :
    (parent : ℕ) (rs : List Row) (r : Row)
    → children_with is_active parent rs ≡ 0
    → next_planned parent rs ≡ none
    → aggregate_parent_status parent rs ≡ completed
    → Memᴰ r rs
    → number_is r.parent parent ≡ true
    → did_work r.status ≡ true
unfolding next_planned
completed_parent_did_all parent rs r idle last e m own =
    let sum = aggregate_completed parent rs e in
    let test = λ (p : Status → Bool) (x : Row). number_is x.parent parent && p x.status in
    let a = first_row-none by_position (test is_planned) rs r last m in
    let b = count_if-zero (test is_active) rs r idle m in
    let c = count_if-zero (test is_broken) rs r sum.0 m in
    let d = count_if-zero (test is_skipped) rs r sum.1 m in
    only_work r.status (other_fails own a) (other_fails own b) (other_fails own c)
      (other_fails own d)
