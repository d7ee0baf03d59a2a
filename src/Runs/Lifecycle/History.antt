-- ===== src/Runs/Lifecycle/History.antt =====
-- Any sequence of the repository's transactions, each committed or rolled back.
use mathlib.Core.List.{Memᴰ}
use dwh_v.Common.{
  ℕ, ◌≡◌, refl, Bool, true, false, ◌&&◌, String, Option, none, some, List, [], ◌∷◌, if◌then◌else◌,
  ◌==◌, ==_iff, Result, ok, err, if_rule, subst, sym, ap, Bool-cases, inl, inr, arith,
}
use dwh_v.Ingestion.Dates.{CalendarDate}
use dwh_v.Runs.Params.{Parameters}
use dwh_v.Runs.Model.{
  Status, planned, queued, running, is_terminal, Trigger, Row, Store, Progress, SafeError,
  RuntimeSettings, Env, RunError, transition, ownership_lost, settings_valid, invalid_settings,
  settings_conflict, runtime_settings_updated,
}
use dwh_v.Runs.Table.{is_running, is_executable, affected, find_row, update_rows}
use dwh_v.Runs.Tx.{Tx, Committed, Keeps, ◌>>◌, ◌>>=◌, get, check, put, pure}
use dwh_v.Runs.Submit.{submit, create_run_all}
use dwh_v.Runs.Execute.{
  owned, finishable, claim, heartbeat, update_progress, freeze_snapshot_date, finish_in_tx, finish,
}
use dwh_v.Runs.Recover.{recover_one_stale, recover_abandoned}
use dwh_v.Runs.Cancel.{request_cancellation}
use dwh_v.Runs.Reconcile.{reconcile_parent, reconcile_one_parent}
use dwh_v.Runs.Settings.{settings_eq, update_runtime_settings}
use dwh_v.Runs.Lifecycle.{
  Follows, Evolves, Evolves-refl, IsSound, Advances, Advances-IsPreorder, Ascends-unique, Identity,
  terminal_stays,
}
use dwh_v.Runs.Lifecycle.Steps.{
  claim-Advances, heartbeat-Advances, update_progress-Advances, freeze_snapshot_date-Advances,
  finish-Advances,
}
use dwh_v.Runs.Lifecycle.Submits.{submit-Advances, create_run_all-Advances, Advances-guard}
use dwh_v.Runs.Lifecycle.Recovers.{
  recover_one_stale-Advances, recover_abandoned-Advances, request_cancellation-Advances,
}
use dwh_v.Runs.Lifecycle.Parents.{reconcile_parent-Advances, reconcile_one_parent-Advances}

-- A call of the repository, with the time at which it runs and the rows that others have locked.
pub data Call : Type 0 where
  do_submit : String → Parameters → Trigger → String → Option ℕ → Bool → Bool → ℕ → Call
  do_run_all : CalendarDate → CalendarDate → Trigger → String → Option ℕ → Bool → String → ℕ → Call
  do_claim : String → (ℕ → Bool) → ℕ → Call
  do_heartbeat : ℕ → String → ℕ → Call
  do_progress : ℕ → String → Progress → Option String → Call
  do_freeze : ℕ → String → CalendarDate → Call
  do_finish : ℕ → String → Status → SafeError → ℕ → Call
  do_recover : ℕ → String → ℕ → Call
  do_abandon : ℕ → String → Option ℕ → String → ℕ → Call
  do_cancel : ℕ → String → ℕ → Call
  do_reconcile : ℕ → String → ℕ → Call
  do_reconcile_one : (ℕ → Bool) → ℕ → Call
  do_settings : RuntimeSettings → RuntimeSettings → Call

-- The store after a transaction: a rollback leaves it.
abbrev pub settle {ℓ} : {A : Type ℓ} → Store → Result RunError (A × Store) → Store
settle s (ok (a, t)) = t
settle s (err e) = s

unfoldable pub perform : Env → Call → Store → Store
perform v (do_submit key parameters trigger reference requester by_hand require_auth now) s =
    settle s (submit v key parameters trigger reference requester by_hand require_auth now s)
perform v (do_run_all from to trigger reference requester by_hand owner now) s =
    settle s (create_run_all v from to trigger reference requester by_hand owner now s)
perform v (do_claim owner locked now) s = settle s (claim owner locked now s)
perform v (do_heartbeat id owner now) s = (heartbeat id owner now s).1
perform v (do_progress id owner progress diagnostics) s =
    settle s (update_progress id owner progress diagnostics s)
perform v (do_freeze id owner date) s = settle s (freeze_snapshot_date id owner date s)
perform v (do_finish id owner status error now) s = settle s (finish id owner status error now s)
perform v (do_recover lease replacement now) s =
    settle s (recover_one_stale v lease replacement now s)
perform v (do_abandon id owner beat reason now) s =
    settle s (recover_abandoned v id owner beat reason now s)
perform v (do_cancel id reason now) s = settle s (request_cancellation v id reason now s)
perform v (do_reconcile id owner now) s = settle s (reconcile_parent id owner now s)
perform v (do_reconcile_one locked now) s = settle s (reconcile_one_parent locked now s)
perform v (do_settings expected target) s = settle s (update_runtime_settings expected target s)

unfoldable pub replay : Env → List Call → Store → Store
replay v [] s = s
replay v (c ∷ cs) s = replay v cs (perform v c s)

settle-Advances {ℓ} :
    {A : Type ℓ} (s : Store) (r : Result RunError (A × Store))
    → Committed Advances s r
    → Advances s (settle s r)
settle-Advances s (ok (a, t)) h = h
settle-Advances s (err e) h = Advances-IsPreorder.same s

settings-Advances :
    (expected target : RuntimeSettings) → Keeps Advances (update_runtime_settings expected target)
unfolding update_runtime_settings
settings-Advances expected target s =
    Advances-guard (settings_valid target) invalid_settings checked_now s (
      Advances-guard (settings_valid s.settings) invalid_settings
        (check (settings_eq s.settings expected) settings_conflict >> change) s
        (Advances-guard (settings_eq s.settings expected) settings_conflict change s (
          if_rule (λ (m : Tx Bool). Committed Advances s (m s)) (settings_eq s.settings target)
            (λ _. Advances-IsPreorder.same s)
            (λ _ h. (record { ids = h.ids }, Evolves-refl s.runs)))))
  where
    change : Tx Bool
    change =
        if settings_eq s.settings target
        then pure false
        else put (record s { settings = target; audits = (runtime_settings_updated, 0) ∷ s.audits })
          >> pure true

    checked_now : Tx Bool
    checked_now = get >>= λ t.
        check (settings_valid t.settings) invalid_settings
        >> (check (settings_eq t.settings expected) settings_conflict
            >> (if settings_eq t.settings target
                then pure false
                else put (record t {
                  settings = target;
                  audits = (runtime_settings_updated, 0) ∷ t.audits;
                })
                  >> pure true))

perform-Advances : (v : Env) (c : Call) (s : Store) → Advances s (perform v c s)
unfolding perform
perform-Advances v (do_submit key parameters trigger reference requester by_hand require_auth now)
      s =
    settle-Advances s _
      (submit-Advances v key parameters trigger reference requester by_hand require_auth now s)
perform-Advances v (do_run_all from to trigger reference requester by_hand owner now) s =
    settle-Advances s _
      (create_run_all-Advances v from to trigger reference requester by_hand owner now s)
perform-Advances v (do_claim owner locked now) s =
    settle-Advances s _ (claim-Advances owner locked now s)
perform-Advances v (do_heartbeat id owner now) s = heartbeat-Advances id owner now s
perform-Advances v (do_progress id owner progress diagnostics) s =
    settle-Advances s _ (update_progress-Advances id owner progress diagnostics s)
perform-Advances v (do_freeze id owner date) s =
    settle-Advances s _ (freeze_snapshot_date-Advances id owner date s)
perform-Advances v (do_finish id owner status error now) s =
    settle-Advances s _ (finish-Advances id owner status error now s)
perform-Advances v (do_recover lease replacement now) s =
    settle-Advances s _ (recover_one_stale-Advances v lease replacement now s)
perform-Advances v (do_abandon id owner beat reason now) s =
    settle-Advances s _ (recover_abandoned-Advances v id owner beat reason now s)
perform-Advances v (do_cancel id reason now) s =
    settle-Advances s _ (request_cancellation-Advances v id reason now s)
perform-Advances v (do_reconcile id owner now) s =
    settle-Advances s _ (reconcile_parent-Advances id owner now s)
perform-Advances v (do_reconcile_one locked now) s =
    settle-Advances s _ (reconcile_one_parent-Advances locked now s)
perform-Advances v (do_settings expected target) s =
    settle-Advances s _ (settings-Advances expected target s)

pub replay-Advances : (v : Env) (cs : List Call) (s : Store) → Advances s (replay v cs s)
unfolding replay
replay-Advances v [] s = Advances-IsPreorder.same s
replay-Advances v (c ∷ cs) s =
    Advances-IsPreorder.joined s (perform v c s) _ (perform-Advances v c s)
      (replay-Advances v cs (perform v c s))

-- The table has the run of the row, further along the arrows; if it had ended, as it ended.
abbrev pub Survives : Row → List Row → Type 0
Survives r rs =
    (r' : Row) × (Memᴰ r' rs
      × (Follows r r' × (is_terminal r.status ≡ true → r'.status ≡ r.status)))

Evolves-Survives : (r : Row) (rs ts : List Row) → Evolves rs ts → Memᴰ r rs → Survives r ts
Evolves-Survives r [] ts e m = elim m [ ]
Evolves-Survives r (x ∷ xs) [] e m = absurd e
Evolves-Survives r (x ∷ xs) (y ∷ ys) e (Memᴰ.head p) =
    let f = subst (λ z. Follows z y) (sym p) e.0 in
    (y, (Memᴰ.head refl, (f, terminal_stays f.moves)))
Evolves-Survives r (x ∷ xs) (y ∷ ys) e (Memᴰ.tail m) =
    let rest = Evolves-Survives r xs ys e.1 m in (rest.0, (Memᴰ.tail rest.1.0, rest.1.1))

-- From a table in which identities rise, any sequence of calls of the repository keeps that so and
-- leaves every run in the table: with the same identity, kind, parent, position, job and parameters,
-- with a status that the diagram of states reaches from the one it had, and with the very same status
-- if that one was terminal.
pub runs_survive :
    (v : Env) (cs : List Call) (s : Store)
    → IsSound s
    → IsSound (replay v cs s) × ((r : Row) → Memᴰ r s.runs → Survives r (replay v cs s).runs)
runs_survive v cs s h =
    let a = replay-Advances v cs s h in
    (a.0, λ r m. Evolves-Survives r s.runs (replay v cs s).runs a.1 m)

count_if-none :
    (test : Row → Bool) (rs : List Row)
    → ((r : Row) → Memᴰ r rs → test r ≡ false)
    → affected test rs ≡ 0
count_if-none test [] f = refl
count_if-none test (r ∷ rs) f =
    rw (f r (Memᴰ.head refl), count_if-none test rs (λ x m. f x (Memᴰ.tail m)))

terminal_idle : (s : Status) → is_terminal s ≡ true → is_running s ≡ false
terminal_idle running h = cc
terminal_idle planned h = refl
terminal_idle queued h = refl
terminal_idle _ h = refl

-- A terminal row of a sound table is no one's.
terminal_unowned :
    (s : Store) (r : Row) (owner : String)
    → IsSound s
    → Memᴰ r s.runs
    → is_terminal r.status ≡ true
    → (x : Row) → Memᴰ x s.runs
    → owned r.id owner x ≡ false
terminal_unowned s r owner h m t x n = elim (Bool-cases (x.id == r.id)) [
  | inl hit ↦
      let e = Ascends-unique 0 s.next_id x r s.runs h.ids n m ((==_iff x.id r.id).0 hit) in
      subst (λ y. owned r.id owner y ≡ false) (sym e) idle
  | inr miss ↦ rw miss
]
  where
    idle : owned r.id owner r ≡ false
    idle = let i = terminal_idle r.status t in ground arith

-- A row that no update and no search of its owner meets.
find_row-unmet :
    (test guard : Row → Bool) (change : Row → Row) (rs : List Row)
    → ((r : Row) → Memᴰ r rs → test r ≡ false)
    → find_row test (update_rows (λ r. guard r && test r) change rs) ≡ none
unfolding find_row update_rows
find_row-unmet test guard change [] f = refl
find_row-unmet test guard change (r ∷ rs) f =
    let miss = f r (Memᴰ.head refl) in
    let rest = find_row-unmet test guard change rs (λ x m. f x (Memᴰ.tail m)) in
    let still : guard r && test r ≡ false = ground arith in rw (still, miss) rest

-- Whatever follows, the row of a run that has ended has no owner.
unowned_after :
    (v : Env) (cs : List Call) (s : Store) (r : Row) (owner : String)
    → IsSound s
    → Memᴰ r s.runs
    → is_terminal r.status ≡ true
    → (x : Row) → Memᴰ x (replay v cs s).runs
    → owned r.id owner x ≡ false
unowned_after v cs s r owner h m t x n =
    let a = runs_survive v cs s h in
    let k = a.1 r m in
    let same_id : k.0.id ≡ r.id = ap (λ (y : Identity). y.id) k.1.1.0.same in
    subst (λ i. owned i owner x ≡ false) same_id
      (terminal_unowned (replay v cs s) k.0 owner a.0 k.1.0
        (subst (λ q. is_terminal q ≡ true) (sym (k.1.1.1 t)) t) x n)

-- In a table whose identities rise, once a run has ended it has no owner again: whatever calls
-- follow, ending it and recording its progress fail for every owner, and a heartbeat answers that the
-- run is not owned.
pub ended_run_is_closed :
    (v : Env) (cs : List Call) (s : Store) (r : Row) (owner : String) (status : Status)
    (error : SafeError) (progress : Progress) (diagnostics : Option String) (now : ℕ)
    → IsSound s
    → Memᴰ r s.runs
    → is_terminal r.status ≡ true
    → (finish_in_tx r.id owner status error now (replay v cs s) ≡ err transition)
      × (update_progress r.id owner progress diagnostics (replay v cs s) ≡ err ownership_lost)
      × ((heartbeat r.id owner now (replay v cs s)).0.is_owned ≡ false)
unfolding finish_in_tx update_progress heartbeat
ended_run_is_closed v cs s r owner status error progress diagnostics now h m t =
    let unmet = unowned_after v cs s r owner h m t in
    let no_end : affected (finishable r.id owner status) (replay v cs s).runs ≡ 0 =
      count_if-none (finishable r.id owner status) (replay v cs s).runs
        (λ x n. let u = unmet x n in ground arith) in
    let no_step : affected (owned r.id owner) (replay v cs s).runs ≡ 0 =
      count_if-none (owned r.id owner) (replay v cs s).runs unmet in
    (
      rw no_end refl,
      rw no_step refl,
      rw
          (
            find_row-unmet (owned r.id owner) (λ x. is_executable x.kind)
                (λ x. record x { heartbeat_at = some now }) (replay v cs s).runs unmet,
            heartbeat,
          )
          refl,
    )
