-- ===== src/Scheduler/Soundness.antt =====
-- internal/scheduler/service.go and the table of schedules: the check of the cursor, and the primary key.
pub mod Process
pub mod Changes
pub mod Creation
pub mod History
use dwh_v.Common.{
  ℕ, suc, ◌<◌, ◌≡◌, refl, Bool, true, false, not, ◌&&◌, Option, none, some, List, [], ◌∷◌,
  if◌then◌else◌, ◌==◌, ==_iff, is_some, Result, ok, err, All, arith, if_rule, option_rule, inl, inr,
  Bool-cases, subst, sym, count_if, Ensures, Ensures-bind, Ensures-guard, All-mono, guard, ◌>>=◌,
  ◌>>◌, String, str_eq, ltb,
}
use Prim.Native.String.{len}
use dwh_v.Common.Tables.{update_rows, find_row, All-update_rows}
use dwh_v.Common.Transactions.{Committed, Keeps, IsPreorder}
use dwh_v.Ingestion.Catalog.{JobDefinition, find_job}
use dwh_v.Scheduler.Definitions.{
  Definition, Cron, Rules, Policy, DefinitionError, invalid_definition, validate_definition,
  validate_policy, parse_cron, strict_expression, named_timezone, semantic_kind, wanted_policy,
}
use dwh_v.Scheduler.Model.{
  Schedule, Occurrence, Store, SchedulerError, update_schedules, update_occurrences,
  insert_occurrence,
}
use dwh_v.Scheduler.States.Revision.{Keyed}

-- `chk_schedules_cursor`
unfoldable pub cursor_ok : Schedule → Bool
cursor_ok x =
    if x.enabled
    then not (is_some x.archived_at) && is_some x.next_run_at
    else not (is_some x.next_run_at)

pub record IsSound (s : Store) : Type 0 where
  pub cursors : All (λ (x : Schedule). cursor_ok x ≡ true) s.schedules
  pub keyed : Keyed s.schedules
  pub below : All (λ (x : Schedule). x.id < s.next_schedule) s.schedules

pub Sounds : Store → Store → Type 0
Sounds s t = IsSound s → IsSound t

pub Sounds-IsPreorder : IsPreorder Sounds
unfolding Sounds
Sounds-IsPreorder = record { same = λ s h. h; joined = λ s t u p q h. q (p h) }

-- What leaves the schedules alone.
pub Sounds-elsewhere :
    (s t : Store) → s.schedules ≡ t.schedules → s.next_schedule ≡ t.next_schedule → Sounds s t
unfolding Sounds
Sounds-elsewhere s t e n h = record {
  cursors = subst (All (λ (x : Schedule). cursor_ok x ≡ true)) e h.cursors;
  keyed = subst Keyed e h.keyed;
  below =
      subst (λ k. All (λ (x : Schedule). x.id < k) t.schedules) n
        (subst (All (λ (x : Schedule). x.id < s.next_schedule)) e h.below);
}

pub update_occurrences-Sounds :
    (test : Occurrence → Bool) (change : Occurrence → Occurrence) (n : ℕ)
    → Keeps Sounds (update_occurrences test change n)
unfolding update_occurrences
update_occurrences-Sounds test change n s =
    if_rule (λ (q : Result SchedulerError (Unit {0} × Store)). Committed Sounds s q)
      (count_if test s.occurrences == n) (λ _. Sounds-elsewhere _ _ refl refl) (λ _. tt)

pub insert_occurrence-Sounds : (o : Occurrence) → Keeps Sounds (insert_occurrence o)
insert_occurrence-Sounds o s =
    if_rule (λ (q : Result SchedulerError (Unit {0} × Store)). Committed Sounds s q)
      (is_some (find_row _ s.occurrences)) (λ _. tt) (λ _. Sounds-elsewhere _ _ refl refl)

others_kept :
    (id : ℕ) (test : Schedule → Bool) (change : Schedule → Schedule) (xs : List Schedule)
    → ((y : Schedule) → (change y).id ≡ y.id)
    → All (λ (y : Schedule). y.id == id ≡ false) xs
    → All (λ (y : Schedule). y.id == id ≡ false) (update_rows test change xs)
others_kept id test change xs i h =
    All-update_rows (λ (y : Schedule). y.id == id ≡ false) test change xs
      (λ y _ p. subst (λ k. k == id ≡ false) (sym (i y)) p) h

Keyed-update_rows :
    (test : Schedule → Bool) (change : Schedule → Schedule) (xs : List Schedule)
    → ((y : Schedule) → (change y).id ≡ y.id)
    → Keyed xs
    → Keyed (update_rows test change xs)
unfolding update_rows
Keyed-update_rows test change [] i k = tt
Keyed-update_rows test change (x ∷ xs) i k = (
  if_rule
      (λ (z : Schedule). All (λ (y : Schedule). y.id == z.id ≡ false) (update_rows test change xs))
      (test x)
      (λ _.
        subst (λ j. All (λ (y : Schedule). y.id == j ≡ false) (update_rows test change xs))
          (sym (i x)) (others_kept x.id test change xs i k.0))
      (λ _. others_kept x.id test change xs i k.0),
  Keyed-update_rows test change xs i k.1,
)

-- An update that keeps identities, and the check on the rows that it matches: each is one of the table.
pub update_schedules-Sounds :
    (test : Schedule → Bool) (change : Schedule → Schedule) (n : ℕ) (s : Store)
    → ((y : Schedule) → (change y).id ≡ y.id)
    → (IsSound s → All (λ (y : Schedule). test y ≡ true → cursor_ok (change y) ≡ true) s.schedules)
    → Committed Sounds s (update_schedules test change n s)
unfolding update_schedules Sounds update_rows
update_schedules-Sounds test change n s i f =
    if_rule
      (λ (q : Result SchedulerError (Unit {0} × Store)).
        Committed (λ a b. IsSound a → IsSound b) s q)
      (count_if test s.schedules == n)
      (λ _ h. record {
        cursors = matched s.schedules h.cursors (f h);
        keyed = Keyed-update_rows test change s.schedules i h.keyed;
        below =
            All-update_rows (λ (x : Schedule). x.id < s.next_schedule) test change s.schedules
              (λ y _ p. subst (λ k. k < s.next_schedule) (sym (i y)) p) h.below;
      })
      (λ _. tt)
  where
    matched :
        (xs : List Schedule)
        → All (λ (x : Schedule). cursor_ok x ≡ true) xs
        → All (λ (y : Schedule). test y ≡ true → cursor_ok (change y) ≡ true) xs
        → All (λ (x : Schedule). cursor_ok x ≡ true) (update_rows test change xs)
    matched [] h g = tt
    matched (x ∷ xs) h g = (
      if_rule (λ (z : Schedule). cursor_ok z ≡ true) (test x) (λ hit. g.0 hit) (λ _. h.0),
      matched xs h.1 g.1,
    )

-- The same, when the check follows row by row.
pub rows-Sounds :
    (test : Schedule → Bool) (change : Schedule → Schedule) (n : ℕ)
    → ((y : Schedule) → (change y).id ≡ y.id)
    → ((y : Schedule) → test y ≡ true → cursor_ok y ≡ true → cursor_ok (change y) ≡ true)
    → Keeps Sounds (update_schedules test change n)
rows-Sounds test change n i f s =
    update_schedules-Sounds test change n s i
      (λ h. All-mono (λ y c t. f y t c) s.schedules h.cursors)

parse_cron-Next :
    (v : Rules) (expression timezone : String) (now : ℕ)
    → Ensures (λ (c : Cron). is_some (c now) ≡ true) (parse_cron v expression timezone now)
unfolding parse_cron
parse_cron-Next v expression timezone now =
    Ensures-guard P (strict_expression v (v.trim_space expression)) invalid_definition named (λ _.
      Ensures-guard P (named_timezone v (v.trim_space timezone)) invalid_definition parsed (λ _.
        option_rule (Ensures P) (v.parse (v.trim_space expression) (v.trim_space timezone))
          (λ _. tt)
          (λ cron _. Ensures-guard P (is_some (cron now)) invalid_definition (ok cron) (λ h. h))))
  where
    P : Cron → Type 0
    P c = is_some (c now) ≡ true

    parsed : Result DefinitionError Cron
    parsed = elim (v.parse (v.trim_space expression) (v.trim_space timezone)) [
      | none ↦ err invalid_definition
      | some cron ↦ guard (is_some (cron now)) invalid_definition >> ok cron
    ]

    named : Result DefinitionError Cron
    named = guard (named_timezone v (v.trim_space timezone)) invalid_definition >> parsed

-- A definition that is accepted at a time has an occurrence after it.
pub validate_definition-Next :
    (v : Rules) (d : Definition) (now : ℕ)
    → Ensures (λ (r : Definition × Cron). is_some (r.1 now) ≡ true) (validate_definition v d now)
unfolding validate_definition
validate_definition-Next v d now =
    Ensures-guard P
      (not (str_eq (v.trim_space d.name) "") && not (ltb 128 (len (v.trim_space d.name))))
      invalid_definition named
      (λ _. Ensures-bind P job known (λ j _.
        Ensures-bind P (validate_policy v d.policy) (canonical j) (λ p _.
          Ensures-guard P (str_eq (semantic_kind p.kind) (wanted_policy j.date_strategy))
            invalid_definition (parsed p)
            (λ _. Ensures-bind P cron_of (ended p) (λ c e.
              subst (Ensures (λ (x : Cron). is_some (x now) ≡ true)) e (
                parse_cron-Next v (v.trim_space d.cron_expression) (v.trim_space d.timezone)
                  now))))))
  where
    P : Definition × Cron → Type 0
    P r = is_some (r.1 now) ≡ true

    job : Result DefinitionError JobDefinition
    job = elim (find_job (v.trim_space d.job_key) v.jobs) [
      | none ↦ err invalid_definition
      | some j ↦ ok j
    ]

    cron_of : Result DefinitionError Cron
    cron_of = parse_cron v (v.trim_space d.cron_expression) (v.trim_space d.timezone) now

    ended : Policy → Cron → Result DefinitionError (Definition × Cron)
    ended p c = ok (
      record {
        name = v.trim_space d.name;
        job_key = v.trim_space d.job_key;
        cron_expression = v.trim_space d.cron_expression;
        timezone = v.trim_space d.timezone;
        policy = p;
      },
      c,
    )

    parsed : Policy → Result DefinitionError (Definition × Cron)
    parsed p = cron_of >>= ended p

    canonical : JobDefinition → Policy → Result DefinitionError (Definition × Cron)
    canonical j p =
        guard (str_eq (semantic_kind p.kind) (wanted_policy j.date_strategy)) invalid_definition
        >> parsed p

    known : JobDefinition → Result DefinitionError (Definition × Cron)
    known j = validate_policy v d.policy >>= canonical j

    named : Result DefinitionError (Definition × Cron)
    named = job >>= known
