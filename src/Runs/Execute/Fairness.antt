-- ===== src/Runs/Execute/Fairness.antt =====
-- Which queued run `Claim` takes.
use mathlib.Core.List.{Memᴰ}
use dwh_v.Common.{
  ℕ, ◌≡◌, refl, Bool, true, false, not, ◌&&◌, String, Option, none, some, List, if◌then◌else◌, ◌==◌,
  ==_iff, Result, ok, err, if_rule, option_rule, subst, sym, ◌∙◌, ap, arith, leb,
}
use Prim.Native.String.{len}
use dwh_v.Runs.Model.{Row, Store, valid_runtime_limit, RunError, transition}
use dwh_v.Runs.Table.{is_executable, is_queued, affected, update_rows, find_row}
use dwh_v.Runs.Table.Laws.{
  Found, Beats, find_row-Found, first_row-Found, first_row-Beats, update_rows-Memᴰ,
}
use dwh_v.Runs.Execute.{by_creation, claim, claim_row, next_queued, running_jobs}
use dwh_v.Runs.Lifecycle.{IsSound, Ascends-unique}

by_creation_total : (x y : Row) → by_creation x y ≡ false → by_creation y x ≡ true
by_creation_total x y h = ground arith

by_creation_trans :
    (x y z : Row) → by_creation x y ≡ true → by_creation y z ≡ true → by_creation x z ≡ true
by_creation_trans x y z g h = ground arith

-- A row that a claim may take.
abbrev pub claimable : (ℕ → Bool) → Row → Bool
claimable locked r = is_executable r.kind && (is_queued r.status && not (locked r.id))

-- The row is claimed from one that may be taken, and that none that may be taken is older than.
abbrev pub Oldest : String → (ℕ → Bool) → ℕ → List Row → Row → Type 0
Oldest owner locked now rs r =
    (x : Row) × (Memᴰ x rs
      × ((claimable locked x ≡ true)
          × ((r ≡ claim_row owner now x)
              × ((y : Row) → Memᴰ y rs → claimable locked y ≡ true → by_creation x y ≡ true))))

abbrev Taken : String → (ℕ → Bool) → ℕ → Store → Result RunError (Option Row × Store) → Type 0
Taken owner locked now s (ok (some r, t)) = Oldest owner locked now s.runs r
Taken owner locked now s _ = Unit

module _ (owner : String) (locked : ℕ → Bool) (now : ℕ) (s : Store) (h : IsSound s) where
  oldest_first :
      (x y : Row)
      → next_queued locked s.runs ≡ some x
      → Memᴰ y s.runs
      → claimable locked y ≡ true
      → by_creation x y ≡ true
  unfolding next_queued
  oldest_first x y e m c =
      subst (λ o. Beats by_creation o y) e
        (first_row-Beats by_creation by_creation_total by_creation_trans (claimable locked) s.runs y
          m c)

  queued_Found : (x : Row) → next_queued locked s.runs ≡ some x → Found (claimable locked) s.runs x
  unfolding next_queued
  queued_Found x e = first_row-Found by_creation (claimable locked) s.runs e

  claimed_row :
      (x r : Row)
      → Found (claimable locked) s.runs x
      → find_row
          (λ y. y.id == x.id)
          (update_rows
            (λ (y : Row). y.id == x.id && is_queued y.status)
            (claim_row owner now)
            s.runs)
        ≡ some r
      → r ≡ claim_row owner now x
  claimed_row x r f e =
      let found =
        find_row-Found (λ (y : Row). y.id == x.id) (update_rows test (claim_row owner now) s.runs)
          e in
      let k = update_rows-Memᴰ test (claim_row owner now) s.runs r found.0 in
      let kept : k.0.id ≡ (claimed k.0).id =
        if_rule (λ (z : Row). k.0.id ≡ z.id) (test k.0) (λ _. refl) (λ _. refl) in
      let same : k.0.id ≡ x.id =
        kept ∙ (ap (λ (z : Row). z.id) (sym k.1.1) ∙ (==_iff r.id x.id).0 found.1) in
      let own : k.0 ≡ x = Ascends-unique 0 s.next_id k.0 x s.runs h.ids k.1.0 f.0 same in
      let hit : test x ≡ true = let i = (==_iff x.id x.id).1 refl in let q = f.1 in ground arith in
      let done : claimed x ≡ claim_row owner now x = rw hit refl in k.1.1 ∙ (ap claimed own ∙ done)
    where
      test : Row → Bool
      test y = y.id == x.id && is_queued y.status

      claimed : Row → Row
      claimed y = if test y then claim_row owner now y else y

  claim-Taken : Taken owner locked now s (claim owner locked now s)
  unfolding claim
  claim-Taken =
      if_rule P (not (len owner == 64)) (λ _. tt)
        (λ _.
          if_rule P (not (valid_runtime_limit s.settings.max_running_jobs)) (λ _. tt)
            (λ _.
              if_rule P (leb s.settings.max_running_jobs (running_jobs s.runs)) (λ _. tt)
                (λ _. option_rule P (next_queued locked s.runs) (λ _. tt) taken)))
    where
      P : Result RunError (Option Row × Store) → Type 0
      P = Taken owner locked now s

      rows : Row → List Row
      rows x =
          update_rows (λ (y : Row). y.id == x.id && is_queued y.status) (claim_row owner now) s.runs

      answer :
          (x : Row)
          → next_queued locked s.runs ≡ some x
          → (o : Option Row) → find_row (λ y. y.id == x.id) (rows x) ≡ o
          → P (ok (o, record s { runs = rows x }))
      answer x e none q = tt
      answer x e (some r) q =
          let f = queued_Found x e in
          (x, (f.0, (f.1, (claimed_row x r f q, λ y m c. oldest_first x y e m c))))

      taken :
          (x : Row)
          → next_queued locked s.runs ≡ some x
          → P (
              if affected (λ (y : Row). y.id == x.id && is_queued y.status) s.runs == 1
              then ok (find_row (λ y. y.id == x.id) (rows x), record s { runs = rows x })
              else err transition)
      taken x e =
          if_rule P (affected (λ (y : Row). y.id == x.id && is_queued y.status) s.runs == 1)
            (λ _. answer x e (find_row (λ y. y.id == x.id) (rows x)) refl) (λ _. tt)

-- In a table whose identities rise, a claim that takes a run takes an executable, queued and unlocked one,
-- answers it as it stands after the claim, and no other such run was created before it (of those
-- created at once, none has a smaller identity).
pub claim-Oldest :
    (owner : String) (locked : ℕ → Bool) (now : ℕ) (s t : Store) (r : Row)
    → IsSound s
    → claim owner locked now s ≡ ok (some r, t)
    → Oldest owner locked now s.runs r
claim-Oldest owner locked now s t r h e =
    subst (Taken owner locked now s) e (claim-Taken owner locked now s h)
