-- ===== src/Runs/Lifecycle/Submits.antt =====
-- What `submit` and `createRunAll` do to the table of runs.
use dwh_v.Common.{
  ℕ, suc, ◌≡◌, refl, Bool, true, false, not, ◌&&◌, String, Option, none, some, List, [], ◌∷◌, ◌++◌,
  ◌==◌, Result, ok, err, if_rule,
}
use dwh_v.Ingestion.Dates.{CalendarDate}
use dwh_v.Ingestion.Catalog.{JobDefinition, find_job}
use dwh_v.Runs.Params.{Parameters, Checked, validate, parameters_for_job, new_run_all_range}
use dwh_v.Runs.Model.{
  Kind, kind_job, run_all_parent, run_all_child, Status, planned, queued, running, Trigger,
  trigger_run_all, Store, Env, AuditAction, run_submitted, run_all_submitted, RunError,
  source_disabled, source_configuration_required, duplicate_key, unknown_run_job,
  invalid_parameters, no_rows,
}
use dwh_v.Runs.Table.{any_clash, is_running, update_rows}
use dwh_v.Runs.Tx.{
  Tx, Committed, Keeps, Keeps-bind, Keeps-then, Keeps-pure, Keeps-check, Keeps-or_fail, put, get,
  pure, ◌>>=◌, ◌>>◌, check, or_fail,
}
use dwh_v.Runs.Submit.{
  insert_run, new_row, append_audit, source_enabled, source_ready, find_source, find_profile,
  checked, busy_of_duplicate, on_error, submit_in_tx, submit, insert_child, insert_children,
  own_parent, create_run_all,
}
use dwh_v.Runs.Lifecycle.{
  Evolves-refl, Advances, Advances-IsPreorder, Advances-insert, Advances-update, here,
}

pub Advances-bind {ℓ μ} :
    {A : Type ℓ} {B : Type μ} (m : Tx A) (f : A → Tx B)
    → Keeps Advances m
    → ((a : A) → Keeps Advances (f a))
    → Keeps Advances (m >>= f)
Advances-bind = Keeps-bind Advances Advances-IsPreorder

pub Advances-then {μ} :
    {B : Type μ} (m : Tx (Unit {0})) (k : Tx B)
    → Keeps Advances m
    → Keeps Advances k
    → Keeps Advances (m >> k)
Advances-then = Keeps-then Advances Advances-IsPreorder

pub Advances-check : (b : Bool) (e : RunError) → Keeps Advances (check b e)
Advances-check = Keeps-check Advances Advances-IsPreorder

pub Advances-pure {ℓ} : {A : Type ℓ} (a : A) → Keeps {E = RunError} Advances (pure a)
Advances-pure = Keeps-pure Advances Advances-IsPreorder RunError

pub Advances-or_fail {ℓ} : {A : Type ℓ} (a : Option A) (e : RunError) → Keeps Advances (or_fail a e)
Advances-or_fail = Keeps-or_fail Advances Advances-IsPreorder

pub Advances-checked : {A : Type 0} (a : Checked A) (e : RunError) → Keeps Advances (checked a e)
Advances-checked (ok a) e s = Advances-IsPreorder.same s
Advances-checked (err x) e s = tt

Advances-on_error {ℓ} :
    {A : Type ℓ} (f : RunError → RunError) (m : Tx A)
    → Keeps Advances m
    → Keeps Advances (on_error f m)
Advances-on_error {A} f m k s = go (m s) (k s)
  where
    go :
        (r : Result RunError (A × Store))
        → Committed Advances s r
        → Committed Advances s (elim r [ ok x ↦ ok x | err e ↦ err (f e) ])
    go (ok (a, t)) h = h
    go (err e) h = tt

-- A change of the store in front of the rest.
pub Advances-modify {μ} :
    {B : Type μ} (change : Store → Store) (k : Tx B)
    → ((s : Store) → Advances s (change s))
    → Keeps Advances k
    → Keeps Advances (get >>= λ s. put (change s) >> k)
Advances-modify change k p q = Advances-then (λ s. ok (tt, change s)) k p q

-- A store that is written in front of the rest.
pub Advances-put {μ} :
    {B : Type μ} (s t : Store) (k : Tx B)
    → Advances s t
    → Keeps Advances k
    → Committed Advances s (k t)
Advances-put {B} s t k p q = go (k t) (q t)
  where
    go : (r : Result RunError (B × Store)) → Committed Advances t r → Committed Advances s r
    go (ok (b, u)) h = Advances-IsPreorder.joined s t u p h
    go (err e) h = tt

-- A row that is looked for in front of the rest.
pub Advances-find {ℓ μ} :
    {A : Type ℓ} {B : Type μ} (o : Option A) (e : RunError) (k : A → Tx B) (s : Store)
    → ((a : A) → o ≡ some a → Committed Advances s (k a s))
    → Committed Advances s ((or_fail o e >>= k) s)
Advances-find none e k s f = tt
Advances-find (some a) e k s f = f a refl

-- A check in front of what keeps the table from this store on.
pub Advances-guard {ℓ} :
    {A : Type ℓ} (b : Bool) (e : RunError) (m : Tx A) (s : Store)
    → Committed Advances s (m s)
    → Committed Advances s ((check b e >> m) s)
Advances-guard true e m s h = h
Advances-guard false e m s h = tt

pub insert_run-Advances :
    (kind : Kind) (parent position : Option ℕ) (key : String) (status : Status)
    (parameters : Parameters) (trigger : Trigger) (reference : String) (requested_by : Option ℕ)
    (now : ℕ)
    → Keeps Advances
        (insert_run kind parent position key status parameters trigger reference requested_by now)
unfolding insert_run
insert_run-Advances kind parent position key status parameters trigger reference requested_by now
      s =
    let row =
      new_row kind parent position key status parameters trigger reference requested_by now
        s.next_id in
    Advances-guard (not (any_clash row s.runs)) duplicate_key
      (put (record s { runs = s.runs ++ row ∷ []; next_id = suc s.next_id }) >> pure s.next_id) s
      (Advances-insert s row refl)

pub append_audit-Advances :
    (action : AuditAction) (run : ℕ) → Keeps Advances (append_audit action run)
unfolding append_audit
append_audit-Advances action run s v = (record { ids = v.ids }, Evolves-refl s.runs)

pub source_enabled-Advances : (key : String) → Keeps Advances (source_enabled key)
unfolding source_enabled
source_enabled-Advances key s =
    Advances-bind _ _ (Advances-or_fail (find_source key s.sources) no_rows)
      (λ source. Advances-pure source.enabled) s

source_ready-Advances : (key : String) → Keeps Advances (source_ready key)
unfolding source_ready
source_ready-Advances key s =
    Advances-bind _ _ (Advances-or_fail (find_source key s.sources) no_rows)
      (λ source. Advances-then _ _ (Advances-check source.enabled source_disabled) (
        Advances-bind _ _ (Advances-or_fail source.profile source_configuration_required) (λ id.
          Advances-bind _ _
            (Advances-or_fail (find_profile id s.profiles) source_configuration_required)
            (λ profile. Advances-check profile.active source_configuration_required))))
      s

module _ (v : Env) where
  submit_in_tx-Advances :
      (key : String) (parameters : Parameters) (trigger : Trigger) (reference : String)
      (requester : Option ℕ) (require_auth : Bool) (now : ℕ)
      → Keeps Advances (submit_in_tx v key parameters trigger reference requester require_auth now)
  unfolding submit_in_tx
  submit_in_tx-Advances key parameters trigger reference requester require_auth now =
      Advances-then _ _ (Advances-check _ _) (
        Advances-bind _ _ (Advances-or_fail (find_job key v.jobs) unknown_run_job) (λ job.
          Advances-bind _ _
            (Advances-checked (validate v.calendar v.codec parameters job) invalid_parameters)
            (λ _.
              Advances-then _ _
                (if_rule (Keeps Advances) require_auth (λ _. source_ready-Advances key)
                  (λ _.
                    Advances-bind _ _ (source_enabled-Advances key)
                      (λ enabled. Advances-check enabled source_disabled)))
                (Advances-on_error busy_of_duplicate _ (
                  insert_run-Advances kind_job none none key queued parameters trigger reference
                    requester now)))))

  pub submit-Advances :
      (key : String) (parameters : Parameters) (trigger : Trigger) (reference : String)
      (requester : Option ℕ) (by_hand require_auth : Bool) (now : ℕ)
      → Keeps Advances
          (submit v key parameters trigger reference requester by_hand require_auth now)
  unfolding submit
  submit-Advances key parameters trigger reference requester by_hand require_auth now =
      Advances-bind _ _
        (submit_in_tx-Advances key parameters trigger reference requester require_auth now)
        (λ id.
          Advances-then _ _
            (if_rule (Keeps Advances) by_hand (λ _. append_audit-Advances run_submitted id)
              (λ _. Advances-IsPreorder.same))
            (Advances-pure id))

  pub insert_child-Advances :
      (parent : ℕ) (requester : Option ℕ) (from to : CalendarDate) (now position : ℕ)
      (job : JobDefinition)
      → Keeps Advances (insert_child v parent requester from to now position job)
  unfolding insert_child
  insert_child-Advances parent requester from to now position job =
      Advances-bind _ _
        (Advances-checked (parameters_for_job v.calendar v.codec v.jobs job from to)
          invalid_parameters)
        (λ parameters.
          Advances-bind _ _
            (insert_run-Advances run_all_child (some parent) (some position) job.key planned
              parameters trigger_run_all (v.print_id parent) requester now)
            (λ _. Advances-IsPreorder.same))

  insert_children-Advances :
      (parent : ℕ) (requester : Option ℕ) (from to : CalendarDate) (now position : ℕ)
      (jobs : List JobDefinition)
      → Keeps Advances (insert_children v parent requester from to now position jobs)
  unfolding insert_children
  insert_children-Advances parent requester from to now position [] = Advances-IsPreorder.same
  insert_children-Advances parent requester from to now position (j ∷ js) =
      Advances-then (insert_child v parent requester from to now position j) _
        (insert_child-Advances parent requester from to now position j)
        (insert_children-Advances parent requester from to now (suc position) js)

  pub create_run_all-Advances :
      (from to : CalendarDate) (trigger : Trigger) (reference : String) (requester : Option ℕ)
      (by_hand : Bool) (owner : String) (now : ℕ)
      → Keeps Advances (create_run_all v from to trigger reference requester by_hand owner now)
  unfolding create_run_all
  create_run_all-Advances from to trigger reference requester by_hand owner now =
      Advances-bind _ _
        (Advances-checked (new_run_all_range v.calendar v.codec from to) invalid_parameters)
        (λ parameters.
          Advances-bind _ _
            (insert_run-Advances run_all_parent none none "" running parameters trigger reference
              requester now)
            (λ id.
              Advances-modify
                (λ s. record s {
                  runs =
                      update_rows (λ r. r.id == id && is_running r.status) (own_parent owner now)
                        s.runs;
                })
                _
                (λ s.
                  Advances-update s _ (own_parent owner now) (λ _. refl)
                    (λ r _. record { same = refl; moves = here }))
                (Advances-then _ _ (insert_children-Advances id requester from to now 1 v.jobs) (
                  Advances-then _ _
                    (if_rule (Keeps Advances) by_hand
                      (λ _. append_audit-Advances run_all_submitted id)
                      (λ _. Advances-IsPreorder.same))
                    (Advances-pure id)))))
