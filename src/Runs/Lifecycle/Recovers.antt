-- ===== src/Runs/Lifecycle/Recovers.antt =====
-- What recovery and cancellation do to the table of runs.
use mathlib.Core.List.{Memᴰ}
use dwh_v.Common.{
  ℕ, suc, ◌≡◌, refl, Bool, true, false, not, ◌&&◌, ◌||◌, String, str_eq, Option, none, some, List,
  [], ◌∷◌, if◌then◌else◌, ◌==◌, Result, ok, subst, ==_iff, if_rule, option_rule, is_some,
}
use Prim.Native.String.{len}
use dwh_v.Ingestion.Catalog.{JobDefinition}
use dwh_v.Runs.Params.{Range, decode_range}
use dwh_v.Runs.Model.{
  Status, planned, queued, running, succeeded, cancelled, is_terminal, Row, Store, Env, RunError,
  abandoned_recovered, cancellation_requested, no_rows, not_canonical, not_a_range,
}
use dwh_v.Runs.Table.{is_parent, is_running, number_is, affected, update_rows, find_row, nullable}
use dwh_v.Runs.Table.Laws.{Found, find_row-Found}
use dwh_v.Runs.Tx.{Tx, Committed, Keeps, pure, put, ◌>>◌}
use dwh_v.Runs.Submit.{append_audit, insert_child}
use dwh_v.Runs.Recover.{
  Recovery, recovery_of, Candidate, unrenewed, adopt_row, abandon_row, abandon_by_hand,
  expired_error, exactly, child_at, children_canonical, fill_children, ensure_run_all_children,
  recover_candidate, recover_one_stale, recover_abandoned, find_stale,
}
use dwh_v.Runs.Cancel.{
  flag_row, cancel_row, waiting, cancel_family, cancel_rows, request_cancellation,
}
use dwh_v.Runs.Lifecycle.{
  ◌⟶*◌, Follows, Advances, Advances-IsPreorder, Advances-update, Advances-update_at, here, also,
  abandon, drop_planned, drop_queued,
}
use dwh_v.Runs.Lifecycle.Steps.{from_running, and_left, and_right}
use dwh_v.Runs.Lifecycle.Submits.{
  Advances-bind, Advances-then, Advances-put, Advances-find, Advances-check, Advances-pure,
  Advances-or_fail, Advances-checked, append_audit-Advances, insert_child-Advances,
}

-- An update of running rows that ends them by one arrow, or leaves their status.
unrenewed_running :
    (lease now : ℕ) (c : Candidate) (r : Row)
    → unrenewed lease now c r ≡ true
    → is_running r.status ≡ true
unrenewed_running lease now c r h = and_left _ _ (and_right (r.id == c.row.id) _ h)

module _ (v : Env) where
  fill_children-Advances :
      (parent : ℕ) (requester : Option ℕ) (range : Range) (now : ℕ) (existing : List Row)
      (position : ℕ) (jobs : List JobDefinition)
      → Keeps Advances (fill_children v parent requester range now existing position jobs)
  unfolding fill_children
  fill_children-Advances parent requester range now existing position [] = Advances-IsPreorder.same
  fill_children-Advances parent requester range now existing position (j ∷ js) =
      Advances-then
        (if is_some (find_row (child_at parent position) existing)
          then pure tt
          else insert_child v parent requester range.from range.to now position j)
        _
        (if_rule (Keeps Advances) (is_some (find_row (child_at parent position) existing))
          (λ _. Advances-IsPreorder.same)
          (λ _. insert_child-Advances v parent requester range.from range.to now position j))
        (fill_children-Advances parent requester range now existing (suc position) js)

  ensure_run_all_children-Advances :
      (parent now : ℕ) → Keeps Advances (ensure_run_all_children v parent now)
  unfolding ensure_run_all_children
  ensure_run_all_children-Advances parent now s =
      Advances-bind _ _ (Advances-or_fail (find_row (λ r. r.id == parent) s.runs) no_rows)
        (λ row.
          Advances-bind _ _
            (Advances-checked (decode_range v.calendar v.codec row.parameters) not_a_range)
            (λ range.
              Advances-then _ _
                (Advances-check (children_canonical v.jobs parent s.runs) not_canonical)
                (fill_children-Advances parent row.requested_by range now s.runs 1 v.jobs)))
        s

  recover_candidate-Advances :
      (lease : ℕ) (replacement : String) (now : ℕ) (c : Candidate)
      → Keeps Advances (recover_candidate v lease replacement now c)
  unfolding recover_candidate
  recover_candidate-Advances lease replacement now c s =
      if_rule P (not (affected (unrenewed lease now c) s.runs == 1))
        (λ _. Advances-IsPreorder.same s)
        (λ _.
          if_rule P (is_parent c.row.kind)
            (λ _.
              Advances-then adopt
                (ensure_run_all_children v c.row.id now
                  >> pure (some (recovery_of c (some replacement))))
                (λ t.
                  Advances-update t _ _ (λ _. refl) (λ r h. record { same = refl; moves = here }))
                (Advances-then _ _ (ensure_run_all_children-Advances c.row.id now)
                  (Advances-pure (some (recovery_of c (some replacement)))))
                s)
            (λ _.
              Advances-update s (unrenewed lease now c) (abandon_row expired_error now) (λ _. refl)
                (λ r h. record {
                  same = refl;
                  moves = from_running r.status (unrenewed_running lease now c r h) abandon;
                })))
    where
      adopt : Tx (Unit {0})
      adopt t = ok (
        tt,
        record t { runs = update_rows (unrenewed lease now c) (adopt_row replacement now) t.runs },
      )

      P : Result RunError (Option Recovery × Store) → Type 0
      P = Committed Advances s

  pub recover_one_stale-Advances :
      (lease : ℕ) (replacement : String) (now : ℕ)
      → Keeps Advances (recover_one_stale v lease replacement now)
  unfolding recover_one_stale
  recover_one_stale-Advances lease replacement now s =
      if_rule P (lease == 0 || not (len replacement == 64)) (λ _. tt)
        (λ _.
          option_rule P (find_stale lease now s.runs) (λ _. Advances-IsPreorder.same s)
            (λ c _. recover_candidate-Advances lease replacement now c s))
    where
      P : Result RunError (Option Recovery × Store) → Type 0
      P = Committed Advances s

  pub recover_abandoned-Advances :
      (id : ℕ) (owner : String) (beat : Option ℕ) (reason : String) (now : ℕ)
      → Keeps Advances (recover_abandoned v id owner beat reason now)
  unfolding recover_abandoned
  recover_abandoned-Advances id owner none reason now s = tt
  recover_abandoned-Advances id owner (some beat) reason now s =
      if_rule P (str_eq owner "" || str_eq why "") (λ _. tt)
        (λ _.
          if_rule P (affected (exactly id owner beat) s.runs == 1)
            (λ _.
              Advances-then
                (λ t. ok (
                  tt,
                  record t {
                    runs = update_rows (exactly id owner beat) (abandon_by_hand why now) t.runs;
                  },
                ))
                (append_audit abandoned_recovered id)
                (λ t.
                  Advances-update t (exactly id owner beat) (abandon_by_hand why now) (λ _. refl)
                    (λ r h. record {
                      same = refl;
                      moves =
                          from_running r.status (and_left _ _ (and_right (r.id == id) _ h)) abandon;
                    }))
                (append_audit-Advances abandoned_recovered id) s)
            (λ _. tt))
    where
      why : String
      why = v.safe_text 500 reason

      P : Result RunError (Unit {0} × Store) → Type 0
      P = Committed Advances s

-- A run that waits may be dropped.
waiting_drops : (s : Status) → waiting s ≡ true → s ⟶* cancelled
waiting_drops planned h = also drop_planned here
waiting_drops queued h = also drop_queued here
waiting_drops running h = cc
waiting_drops succeeded h = cc
waiting_drops _ h = cc

cancel_family-Advances :
    (s : Store) (id : ℕ) (reason : Option String) (now : ℕ)
    → Advances s (record s { runs = cancel_family id reason now s.runs })
unfolding cancel_family
cancel_family-Advances s id reason now =
    Advances-IsPreorder.joined s a _
      (Advances-update s own (flag_row reason now) (λ _. refl) flagged)
      (Advances-IsPreorder.joined a b _
        (Advances-update a planned_child (cancel_row reason now) (λ _. refl)
          (λ r h. record {
            same = refl;
            moves = waiting_drops r.status (and_right (number_is r.parent id) _ h);
          }))
        (Advances-update b running_child (flag_row reason now) (λ _. refl)
          (λ r _. record { same = refl; moves = here })))
  where
    own : Row → Bool
    own r = r.id == id

    planned_child : Row → Bool
    planned_child r = number_is r.parent id && waiting r.status

    running_child : Row → Bool
    running_child r = number_is r.parent id && is_running r.status

    flagged : (r : Row) → own r ≡ true → Follows r (flag_row reason now r)
    flagged r _ = record { same = refl; moves = here }

    a : Store
    a = record s { runs = update_rows own (flag_row reason now) s.runs }

    b : Store
    b = record a { runs = update_rows planned_child (cancel_row reason now) a.runs }

cancel_rows-Advances :
    (s : Store) (row : Row) (reason : Option String) (now : ℕ)
    → Memᴰ row s.runs
    → Advances s (record s { runs = cancel_rows row row.id reason now s.runs })
unfolding cancel_rows
cancel_rows-Advances s row reason now m =
    if_rule P (is_parent row.kind) (λ _. cancel_family-Advances s row.id reason now)
      (λ _.
        if_rule P (waiting row.status)
          (λ w.
            Advances-update_at s row (cancel_row reason now) (λ _. refl) m
              (record { same = refl; moves = waiting_drops row.status w }))
          (λ _.
            Advances-update_at s row (flag_row reason now) (λ _. refl) m
              (record { same = refl; moves = here })))
  where
    P : List Row → Type 0
    P rs = Advances s (record s { runs = rs })

pub request_cancellation-Advances :
    (v : Env) (id : ℕ) (reason : String) (now : ℕ)
    → Keeps Advances (request_cancellation v id reason now)
unfolding request_cancellation
request_cancellation-Advances v id reason now s =
    Advances-find (find_row (λ r. r.id == id) s.runs) no_rows decide s found
  where
    why : Option String
    why = nullable (v.safe_text 255 reason)

    cancelled_at : Row → Store
    cancelled_at row = record s { runs = cancel_rows row id why now s.runs }

    decide : Row → Tx Bool
    decide row =
        if is_terminal row.status
        then pure false
        else put (cancelled_at row) >> (append_audit cancellation_requested id >> pure true)

    moved : (row : Row) → Found (λ r. r.id == id) s.runs row → Advances s (cancelled_at row)
    moved row f =
        subst (λ n. Advances s (record s { runs = cancel_rows row n why now s.runs }))
          ((==_iff row.id id).0 f.1) (cancel_rows-Advances s row why now f.0)

    found :
        (row : Row)
        → find_row (λ r. r.id == id) s.runs ≡ some row
        → Committed Advances s (decide row s)
    found row e =
        if_rule (λ (m : Tx Bool). Committed Advances s (m s)) (is_terminal row.status)
          (λ _. Advances-IsPreorder.same s)
          (λ _.
            Advances-put s (cancelled_at row) (append_audit cancellation_requested id >> pure true)
              (moved row (find_row-Found (λ r. r.id == id) s.runs e))
              (Advances-then (append_audit cancellation_requested id) (pure true)
                (append_audit-Advances cancellation_requested id) (Advances-pure true)))
