-- ===== src/Runs/Cancel/Success.antt =====
-- A run whose cancellation was requested cannot end with success.
use dwh_v.Common.{
  ℕ, ◌≡◌, refl, Bool, true, false, String, Option, none, some, List, [], ◌∷◌, if◌then◌else◌, ◌==◌,
  Result, ok, err, if_rule, subst, Bool-cases, inl, inr, arith, is_some,
}
use dwh_v.Runs.Model.{
  Row, Store, Env, succeeded, SafeError, RunError, transition, is_terminal, no_rows,
  cancellation_requested,
}
use dwh_v.Runs.Table.{is_parent, affected, update_rows, find_row, nullable}
use dwh_v.Runs.Tx.{Tx, ◌>>=◌, ◌>>◌, put, pure, or_fail}
use dwh_v.Runs.Submit.{append_audit}
use dwh_v.Runs.Execute.{finish, finish_in_tx, finishable}
use dwh_v.Runs.Cancel.{
  cancel_row, flag_row, cancel_family, cancel_rows, waiting, request_cancellation,
}

-- Every row with the identity has a request.
abbrev Flagged : ℕ → List Row → Type 0
Flagged id [] = Unit
Flagged id (r ∷ rs) = (r.id == id ≡ true → is_some r.cancel_requested_at ≡ true) × Flagged id rs

-- An update that sets the request keeps it so, and sets it on the rows that it matches.
Flagged-update :
    (id : ℕ) (test : Row → Bool) (change : Row → Row) (rs : List Row)
    → ((r : Row) → is_some (change r).cancel_requested_at ≡ true)
    → Flagged id rs
    → Flagged id (update_rows test change rs)
unfolding update_rows
Flagged-update id test change [] f h = tt
Flagged-update id test change (r ∷ rs) f h = (
  if_rule (λ (x : Row). x.id == id ≡ true → is_some x.cancel_requested_at ≡ true) (test r)
      (λ _ _. f r) (λ _. h.0),
  Flagged-update id test change rs f h.1,
)

Flagged-here :
    (id : ℕ) (change : Row → Row) (rs : List Row)
    → ((r : Row) → is_some (change r).cancel_requested_at ≡ true)
    → Flagged id (update_rows (λ r. r.id == id) change rs)
unfolding update_rows
Flagged-here id change [] f = tt
Flagged-here id change (r ∷ rs) f = (
  if_rule (λ (x : Row). x.id == id ≡ true → is_some x.cancel_requested_at ≡ true) (r.id == id)
      (λ _ _. f r) (λ miss h. cc (miss, h)),
  Flagged-here id change rs f,
)

cancel_rows-Flagged :
    (row : Row) (id : ℕ) (reason : Option String) (now : ℕ) (rs : List Row)
    → Flagged id (cancel_rows row id reason now rs)
unfolding cancel_rows cancel_family
cancel_rows-Flagged row id reason now rs =
    if_rule (Flagged id) (is_parent row.kind)
      (λ _.
        Flagged-update id _ (flag_row reason now) _ (λ _. refl)
          (Flagged-update id _ (cancel_row reason now) _ (λ _. refl)
            (Flagged-here id (flag_row reason now) rs (λ _. refl))))
      (λ _.
        if_rule (Flagged id) (waiting row.status)
          (λ _. Flagged-here id (cancel_row reason now) rs (λ _. refl))
          (λ _. Flagged-here id (flag_row reason now) rs (λ _. refl)))

Flagged-none :
    (id : ℕ) (owner : String) (rs : List Row)
    → Flagged id rs
    → affected (finishable id owner succeeded) rs ≡ 0
Flagged-none id owner [] h = refl
Flagged-none id owner (r ∷ rs) h =
    let rest = Flagged-none id owner rs h.1 in
    let miss : finishable id owner succeeded r ≡ false = elim (Bool-cases (r.id == id)) [
      | inl hit ↦ let seen = h.0 hit in ground arith
      | inr other ↦ ground arith
    ] in
    rw (miss, rest)

-- What a request that is accepted leaves.
abbrev Requested : ℕ → Result RunError (Bool × Store) → Type 0
Requested id (ok (true, t)) = Flagged id t.runs
Requested id _ = Unit

request_cancellation-Requested :
    (v : Env) (id : ℕ) (reason : String) (now : ℕ) (s : Store)
    → Requested id (request_cancellation v id reason now s)
unfolding request_cancellation append_audit
request_cancellation-Requested v id reason now s = go (find_row (λ r. r.id == id) s.runs)
  where
    why : Option String
    why = nullable (v.safe_text 255 reason)

    decide : Row → Tx Bool
    decide row =
        if is_terminal row.status
        then pure false
        else put (record s { runs = cancel_rows row id why now s.runs })
          >> (append_audit cancellation_requested id >> pure true)

    go : (o : Option Row) → Requested id ((or_fail o no_rows >>= decide) s)
    go none = tt
    go (some row) =
        if_rule (λ (m : Tx Bool). Requested id (m s)) (is_terminal row.status) (λ _. tt)
          (λ _. cancel_rows-Flagged row id why now s.runs)

-- Directly after a request to cancel a run was accepted, no owner can end the run with success:
-- `finish` with the status `succeeded` is refused as an illegal transition.
pub cancelled_run_cannot_succeed :
    (v : Env) (id : ℕ) (reason : String) (now : ℕ) (s t : Store) (owner : String)
    (error : SafeError) (later : ℕ)
    → request_cancellation v id reason now s ≡ ok (true, t)
    → finish id owner succeeded error later t ≡ err transition
unfolding finish finish_in_tx
cancelled_run_cannot_succeed v id reason now s t owner error later e =
    let flagged = subst (Requested id) e (request_cancellation-Requested v id reason now s) in
    rw (Flagged-none id owner t.runs flagged) refl
