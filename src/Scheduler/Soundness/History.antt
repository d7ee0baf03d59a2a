-- ===== src/Scheduler/Soundness/History.antt =====
-- internal/scheduler/service.go: a history of transactions, each of which is rolled back when it fails.
use dwh_v.Common.{ℕ, Bool, Option, List, [], ◌∷◌, Result, ok, err}
use dwh_v.Common.Transactions.{Committed}
use dwh_v.Scheduler.Definitions.{Definition}
use dwh_v.Scheduler.Model.{Store, SchedulerError, Service}
use dwh_v.Scheduler.States.{create}
use dwh_v.Scheduler.Soundness.Creation.{create-Sounds, create_many-Sounds}
use dwh_v.Scheduler.Many.{Input, create_many}
use dwh_v.Scheduler.States.Revision.{Change, apply}
use dwh_v.Scheduler.Process.{process_transaction}
use dwh_v.Scheduler.Soundness.{IsSound, Sounds}
use dwh_v.Scheduler.Soundness.Changes.{apply-Sounds}
use dwh_v.Scheduler.Soundness.Process.{process_transaction-Sounds}

-- A transaction that somebody starts: schedules are created, or one is changed or processed.
pub data Operation : Type 0 where
  creates : Definition → Bool → Option ℕ → ℕ → Operation
  creates_many : List Input → ℕ → Operation
  changes : Change → ℕ → ℕ → ℕ → Operation
  processes : ℕ → ℕ → Operation

abbrev settle : {A : Type 0} → Store → Result SchedulerError (A × Store) → Store
settle s (ok (a, t)) = t
settle s (err e) = s

abbrev pub perform : Service → Operation → Store → Store
perform v (creates d enabled actor now) s = settle s (create v d enabled actor now s)
perform v (creates_many inputs now) s = settle s (create_many v inputs now s)
perform v (changes c id n now) s = settle s (apply v c id n now s)
perform v (processes id now) s = settle s (process_transaction v id now s)

unfoldable pub perform_all : Service → List Operation → Store → Store
perform_all v [] s = s
perform_all v (o ∷ os) s = perform_all v os (perform v o s)

settled :
    {A : Type 0} (s : Store) (r : Result SchedulerError (A × Store))
    → Committed Sounds s r
    → IsSound s
    → IsSound (settle s r)
unfolding Sounds
settled s (ok (a, t)) c h = c h
settled s (err e) c h = h

perform-IsSound : (v : Service) (o : Operation) (s : Store) → IsSound s → IsSound (perform v o s)
perform-IsSound v (creates d enabled actor now) s h =
    settled s _ (create-Sounds v d enabled actor now s) h
perform-IsSound v (creates_many inputs now) s h = settled s _ (create_many-Sounds v inputs now s) h
perform-IsSound v (changes c id n now) s h = settled s _ (apply-Sounds v c id n now s) h
perform-IsSound v (processes id now) s h = settled s _ (process_transaction-Sounds v id now s) h

-- Whatever schedules are created, one or many at once, changed and processed, and in whatever order: if at the start an enabled schedule has
-- a cursor and is not archived, a disabled one has no cursor, and identities are fresh and occur once, then so it is at
-- the end.
pub perform_all-IsSound :
    (v : Service) (os : List Operation) (s : Store) → IsSound s → IsSound (perform_all v os s)
unfolding perform_all
perform_all-IsSound v [] s h = h
perform_all-IsSound v (o ∷ os) s h =
    perform_all-IsSound v os (perform v o s) (perform-IsSound v o s h)
