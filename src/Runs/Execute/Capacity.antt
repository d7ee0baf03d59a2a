-- ===== src/Runs/Execute/Capacity.antt =====
-- How many runs execute at once, and which run is claimed first.
use dwh_v.Common.{
  ℕ, ◌+◌, ◌≤◌, ◌<◌, ◌≡◌, Bool, false, not, ◌&&◌, String, Option, none, some, List, [], ◌∷◌,
  if◌then◌else◌, ◌==◌, Result, ok, err, if_rule, option_rule, count_if, subst, arith, leb,
}
use Prim.Native.String.{len}
use dwh_v.Runs.Model.{Row, Store, valid_runtime_limit, RunError, transition}
use dwh_v.Runs.Table.{is_executable, is_queued, is_running, affected, update_rows, find_row}
use dwh_v.Runs.Execute.{claim, claim_row, next_queued, running_jobs}

-- An update adds to a count at most the rows that it matches.
count_if-update_rows :
    (p test : Row → Bool) (change : Row → Row) (rs : List Row)
    → count_if p (update_rows test change rs) ≤ count_if p rs + affected test rs
unfolding update_rows
count_if-update_rows p test change [] = omega arith
count_if-update_rows p test change (r ∷ rs) =
    let rest = count_if-update_rows p test change rs in ground arith

-- What a claim that takes a run says of the limit.
abbrev Bounded : Store → Result RunError (Option Row × Store) → Type 0
Bounded s (ok (some r, t)) =
    (running_jobs s.runs < s.settings.max_running_jobs)
    × (running_jobs t.runs ≤ s.settings.max_running_jobs)
    × (s.settings.max_running_jobs ≤ 64)
Bounded s _ = Unit

Bounded-answer :
    (s : Store) (o : Option Row) (t : Store)
    → (running_jobs s.runs < s.settings.max_running_jobs)
      × (running_jobs t.runs ≤ s.settings.max_running_jobs)
      × (s.settings.max_running_jobs ≤ 64)
    → Bounded s (ok (o, t))
Bounded-answer s none t h = tt
Bounded-answer s (some r) t h = h

claim-Bounded :
    (owner : String) (locked : ℕ → Bool) (now : ℕ) (s : Store)
    → Bounded s (claim owner locked now s)
unfolding claim running_jobs
claim-Bounded owner locked now s =
    if_rule (Bounded s) (not (len owner == 64)) (λ _. tt)
      (λ _.
        if_rule (Bounded s) (not (valid_runtime_limit s.settings.max_running_jobs)) (λ _. tt)
          (λ valid.
            if_rule (Bounded s) (leb s.settings.max_running_jobs (running_jobs s.runs)) (λ _. tt)
              (λ free.
                option_rule (Bounded s) (next_queued locked s.runs) (λ _. tt)
                  (λ x _. taken valid free x))))
  where
    taken :
        not (valid_runtime_limit s.settings.max_running_jobs) ≡ false
        → leb s.settings.max_running_jobs (running_jobs s.runs) ≡ false
        → (x : Row)
        → Bounded s (
            let test = λ (y : Row). y.id == x.id && is_queued y.status in
            let runs = update_rows test (claim_row owner now) s.runs in
            if affected test s.runs == 1
            then ok (find_row (λ y. y.id == x.id) runs, record s { runs = runs })
            else err transition)
    taken valid free x =
        let test = λ (y : Row). y.id == x.id && is_queued y.status in
        let runs = update_rows test (claim_row owner now) s.runs in
        let executing = λ (y : Row). is_executable y.kind && is_running y.status in
        let grown = count_if-update_rows executing test (claim_row owner now) s.runs in
        if_rule (Bounded s) (affected test s.runs == 1)
          (λ one.
            Bounded-answer s (find_row (λ y. y.id == x.id) runs) (record s { runs = runs })
              (ground arith, ground arith, ground arith))
          (λ _. tt)

-- A claim that takes a run finds fewer runs executing than the configured limit, leaves at most
-- as many as the limit executing, and the limit is at most 64.
pub claim_within_limit :
    (owner : String) (locked : ℕ → Bool) (now : ℕ) (s t : Store) (r : Row)
    → claim owner locked now s ≡ ok (some r, t)
    → (running_jobs s.runs < s.settings.max_running_jobs)
      × (running_jobs t.runs ≤ s.settings.max_running_jobs)
      × (s.settings.max_running_jobs ≤ 64)
claim_within_limit owner locked now s t r e = subst (Bounded s) e (claim-Bounded owner locked now s)
