-- ===== src/Mfa/Lifecycle.antt =====
-- internal/mfa/store.go as steps of a store: the operations in any order, and what they are to one challenge.
pub mod Preserves
pub mod Writes
pub mod Refines
pub mod History
use dwh_v.Common.{
  ℕ, zero, suc, ◌+◌, Bool, true, false, String, Option, none, some, List, [], ◌∷◌, if◌then◌else◌,
  ◌==◌, ltb, is_some, Result, ok, err,
}
use dwh_v.Mfa.Totp.{max_failures}
use dwh_v.Mfa.Model.{
  Purpose, Challenge, Store, Env, Draws, MfaError, Outcome, accepted, wrong_code, exhausted,
}
use dwh_v.Mfa.Challenges.{begin_login, begin_authenticated}
use dwh_v.Mfa.Inspection.{Inspection, inspect}
use dwh_v.Mfa.Verify.{verify, is_refused}
use dwh_v.Mfa.Reset.{reset, delete_expired}

-- A call of an operation with its arguments, what it draws, and what it reads from the clock.
pub data Operation : Type 0 where
  logs_in : Draws → ℕ → String → Bool → String → ℕ → Operation
  authenticates : Draws → ℕ → ℕ → Purpose → String → String → ℕ → ℕ → Operation
  verifies : Draws → String → String → ℕ → String → ℕ → ℕ → Operation
  resets : ℕ → ℕ → ℕ → ℕ → ℕ → Operation
  expires : ℕ → Operation

-- A transaction that fails is rolled back.
abbrev pub settle {ℓ} : {A : Type ℓ} → Store → Result MfaError (A × Store) → Store
settle s (ok (a, t)) = t
settle s (err e) = s

unfoldable pub perform : Env → Operation → Store → Store
perform v (logs_in d id password remember next now) s =
    settle s (begin_login v d id password remember next now s)
perform v (authenticates d id session_id purpose next existing now later) s =
    settle s (begin_authenticated v d id session_id purpose next existing now later s)
perform v (verifies d token input session_id password now later) s =
    settle s (verify v d token input session_id password now later s)
perform v (resets target actor session_id now later) s =
    settle s (reset v target actor session_id now later s)
perform v (expires now) s = delete_expired now s

-- What a step is to one challenge: `unrelated` if no code was judged for it.
pub data Event : Type 0 where
  unrelated failed failed_last passed : Event

-- A code that is judged wrong is a failure, whatever the transaction then does. A right one whose transaction fails is
-- rolled back, and nobody is let in.
abbrev pub wrong_event : Challenge → Event
wrong_event c = if suc c.failures == max_failures then failed_last else failed

abbrev pub outcome_event : Result MfaError (Outcome × Store) → Event
outcome_event (ok (accepted x, t)) = passed
outcome_event (ok (wrong_code, t)) = failed
outcome_event (ok (exhausted, t)) = failed_last
outcome_event (err e) = unrelated

abbrev pub judged_event : Inspection → Result MfaError (Outcome × Store) → Event
judged_event x r = if is_refused x.factor then wrong_event x.challenge else outcome_event r

abbrev pub event_for : ℕ → Result MfaError Inspection → Result MfaError (Outcome × Store) → Event
event_for i (err e) r = unrelated
event_for i (ok x) r = if x.challenge.id == i then judged_event x r else unrelated

unfoldable pub event : Env → ℕ → Operation → Store → Event
event v i (verifies d token input session_id password now later) s =
    event_for i (inspect v token input session_id password now later s)
      (verify v d token input session_id password now later s)
event v i _ s = unrelated

-- The promise: a challenge waits with a number of failures, or closed for ever.
pub data Spec : Type 0 where
  waiting : ℕ → Spec
  closed : Spec

unfoldable pub allowed : Event → Spec → Option Spec
allowed unrelated a = some a
allowed failed (waiting k) = if ltb (suc k) max_failures then some (waiting (suc k)) else none
allowed failed_last (waiting k) = if suc k == max_failures then some closed else none
allowed passed (waiting k) = if ltb k max_failures then some closed else none
allowed failed closed = none
allowed failed_last closed = none
allowed passed closed = none

abbrev pub view : Challenge → Spec
view c = if is_some c.consumed_at then closed else waiting c.failures

-- The operations one after the other: the events for a challenge, and the store at the end.
unfoldable pub events : Env → ℕ → List Operation → Store → List Event
events v i [] s = []
events v i (o ∷ os) s = event v i o s ∷ events v i os (perform v o s)

unfoldable pub performs : Env → List Operation → Store → Store
performs v [] s = s
performs v (o ∷ os) s = performs v os (perform v o s)

unfoldable pub allowed_all : List Event → Spec → Option Spec
allowed_all [] a = some a
allowed_all (e ∷ es) a = elim (allowed e a) [ none ↦ none | some b ↦ allowed_all es b ]
