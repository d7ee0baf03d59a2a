-- ===== src/Runs/Lifecycle/Parents.antt =====
-- What a reconciliation does to the table of runs.
use mathlib.Core.List.{Memᴰ}
use dwh_v.Common.{
  ℕ, ◌≡◌, refl, Bool, true, not, ◌&&◌, ◌||◌, String, str_eq, none, some, List, ◌==◌, Result, ok,
  err, if_rule, option_rule, is_some, ltb, leb,
}
use Prim.Native.String.{len}
use dwh_v.Runs.Model.{
  Status, running, cancelled, Row, Store, RunError, no_parent_owner, ownership_lost, owner_required,
}
use dwh_v.Runs.Table.{
  is_parent, is_running, is_planned, number_is, update_rows, first_row, find_row,
}
use dwh_v.Runs.Table.Laws.{first_row-Found}
use dwh_v.Runs.Tx.{Tx, Committed, Keeps, pure, put, ◌>>=◌, ◌>>◌}
use dwh_v.Runs.Submit.{source_enabled}
use dwh_v.Runs.Execute.{owned}
use dwh_v.Runs.Reconcile.{
  is_broken, is_skipped, is_active, children_with, aggregate_parent_status, end_parent, skip_row,
  queue_row, by_position, next_planned, key_taken, advance_child, reconcile_found, reconcile_parent,
  reconcile_one_parent,
}
use dwh_v.Runs.Lifecycle.{
  ◌⟶◌, Advances, Advances-IsPreorder, Advances-update, Advances-update_at, here, skip, unlock, stop,
  break, complete, complete_with_skips,
}
use dwh_v.Runs.Lifecycle.Steps.{from_running, from_planned, and_right, owned_running}
use dwh_v.Runs.Lifecycle.Submits.{
  Advances-bind, Advances-then, Advances-check, Advances-guard, Advances-or_fail,
}

-- The parent ends by an arrow.
end_parent-Advances :
    (s : Store) (id : ℕ) (owner : String) (status : Status) (now : ℕ)
    → running ⟶ status
    → Advances s (record s { runs = update_rows (owned id owner) (end_parent status now) s.runs })
end_parent-Advances s id owner status now arrow =
    Advances-update s (owned id owner) (end_parent status now) (λ _. refl)
      (λ r h. record {
        same = refl;
        moves = from_running r.status (owned_running id owner r h) arrow;
      })

-- Each aggregate is an outcome of a running parent.
aggregate_arrow : (parent : ℕ) (rs : List Row) → running ⟶ aggregate_parent_status parent rs
unfolding aggregate_parent_status
aggregate_arrow parent rs =
    if_rule (λ s. running ⟶ s) (ltb 0 (children_with is_broken parent rs)) (λ _. break)
      (λ _.
        if_rule (λ s. running ⟶ s) (ltb 0 (children_with is_skipped parent rs))
          (λ _. complete_with_skips) (λ _. complete))

advance_child-Advances :
    (s : Store) (child : Row) (enabled : Bool) (now : ℕ)
    → Memᴰ child s.runs
    → is_planned child.status ≡ true
    → Advances s (record s { runs = advance_child child enabled now s.runs })
unfolding advance_child
advance_child-Advances s child enabled now m p =
    if_rule P (not enabled) (λ _. skipped_for "source_disabled")
      (λ _.
        if_rule P (key_taken child s.runs) (λ _. skipped_for "job_busy")
          (λ _.
            Advances-update s (λ r. r.id == child.id && is_planned r.status) queue_row (λ _. refl)
              (λ r h. record {
                same = refl;
                moves = from_planned r.status (and_right (r.id == child.id) _ h) unlock;
              })))
  where
    P : List Row → Type 0
    P rs = Advances s (record s { runs = rs })

    skipped_for :
        (reason : String) → P (update_rows (λ r. r.id == child.id) (skip_row reason now) s.runs)
    skipped_for reason =
        Advances-update_at s child (skip_row reason now) (λ _. refl) m
          (record { same = refl; moves = from_planned child.status p skip })

-- What is written after a read does not look at the store that the read leaves.
after_read :
    (s t : Store) (m : Tx Bool) (u : Bool → Store)
    → ((b : Bool) → Advances s (u b))
    → Committed Advances s ((m >>= λ b. put (u b) >> pure true) t)
after_read s t m u f = go (m t)
  where
    go :
        (r : Result RunError (Bool × Store))
        → Committed Advances s
            (elim r [ ok (b, x) ↦ (put {E = RunError} (u b) >> pure true) x | err e ↦ err e ])
    go (ok (b, x)) = f b
    go (err e) = tt

reconcile_found-Advances :
    (parent : Row) (owner : String) (now : ℕ) → Keeps Advances (reconcile_found parent owner now)
unfolding reconcile_found next_planned
reconcile_found-Advances parent owner now s =
    Advances-guard (not (str_eq owner "")) no_parent_owner _ s (
      if_rule P (ltb 0 (children_with is_active parent.id t.runs)) (λ _. beat)
        (λ _.
          if_rule P (is_some parent.cancel_requested_at)
            (λ _. then_to (end_parent-Advances t parent.id owner cancelled now stop))
            (λ _.
              option_rule P (next_planned parent.id t.runs)
                (λ _.
                  then_to (
                    end_parent-Advances t parent.id owner _ now (aggregate_arrow parent.id t.runs)))
                (λ child e.
                  after_read s t (source_enabled (elim child.job_key [ none ↦ "" | some k ↦ k ])) _
                    (next_child child e)))))
  where
    t : Store
    t = record s {
      runs = update_rows (owned parent.id owner) (λ r. record r { heartbeat_at = some now }) s.runs;
    }

    P : Tx Bool → Type 0
    P m = Committed Advances s (m t)

    beat : Advances s t
    beat =
        Advances-update s (owned parent.id owner) _ (λ _. refl)
          (λ r _. record { same = refl; moves = here })

    then_to : {u : Store} → Advances t u → Advances s u
    then_to {u} = Advances-IsPreorder.joined s t u beat

    next_child :
        (child : Row)
        → next_planned parent.id t.runs ≡ some child
        → (enabled : Bool) → Advances s (record s { runs = advance_child child enabled now t.runs })
    next_child child e enabled =
        let f =
          first_row-Found by_position
            (λ (r : Row). number_is r.parent parent.id && is_planned r.status) t.runs e in
        then_to (
          advance_child-Advances t child enabled now f.0
            (and_right (number_is child.parent parent.id) _ f.1))

pub reconcile_parent-Advances :
    (id : ℕ) (owner : String) (now : ℕ) → Keeps Advances (reconcile_parent id owner now)
unfolding reconcile_parent
reconcile_parent-Advances id owner now s =
    Advances-then _ _ (Advances-check (not (id == 0 || not (len owner == 64))) owner_required)
      (λ t.
        Advances-bind _ _
          (Advances-or_fail (find_row (λ r. owned id owner r && is_parent r.kind) t.runs)
            ownership_lost)
          (λ parent. reconcile_found-Advances parent owner now) t)
      s

pub reconcile_one_parent-Advances :
    (locked : ℕ → Bool) (now : ℕ) → Keeps Advances (reconcile_one_parent locked now)
unfolding reconcile_one_parent
reconcile_one_parent-Advances locked now s =
    option_rule (λ (m : Tx Bool). Committed Advances s (m s))
      (first_row (λ r t. leb r.id t.id)
        (λ r.
          is_parent r.kind
          && (is_running r.status
              && (not (locked r.id) && children_with is_active r.id s.runs == 0)))
        s.runs)
      (λ _. Advances-IsPreorder.same s)
      (λ parent _.
        reconcile_found-Advances parent (elim parent.owner [ none ↦ "" | some o ↦ o ]) now s)
