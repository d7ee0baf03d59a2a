-- ===== src/Scheduler/States/Revision.antt =====
-- internal/scheduler/service.go: two changes of a schedule that expect the same revision.
use dwh_v.Common.{
  ℕ, suc, ◌≡◌, refl, Bool, true, false, not, ◌&&◌, ◌||◌, Option, none, some, List, [], ◌∷◌,
  if◌then◌else◌, ◌==◌, is_some, Result, ok, err, All, arith, if_rule, option_rule, inl, inr,
  Bool-cases, ==_iff, subst, ap, ◌∙◌, count_if, leb,
}
use dwh_v.Common.Tables.{update_rows, find_row, find_row-test}
use dwh_v.Common.Transactions.{
  Committed, Keeps, Committed-bind, Same-IsPreorder, IsPreorder, Keeps-bind, Keeps-then,
  Keeps-check, pure, ◌>>=◌, ◌>>◌, check, or_fail,
}
use dwh_v.Scheduler.Definitions.{Definition, Cron, DefinitionError, validate_definition}
use dwh_v.Scheduler.Model.{
  Schedule, Occurrence, Store, SchedulerError, conflict, backlog, archived, no_rows,
  invalid_definition, Tx, Service, is_unresolved, lock_schedule, lock_active_occurrence,
  semantic_matches, update_schedules, update_occurrences,
}
use dwh_v.Scheduler.States.{
  validated_at, with_timezone, next_after_update, update, prepare_enable, apply_enable, enable,
  apply_stop, stop, at_revision, enabled_row, may_be_enabled, stopped_row, discarded_row,
}

-- A change of a schedule that somebody asks for, on the revision that they have seen.
pub data Change : Type 0 where
  updates : Definition → Change
  enables : Change
  stops : Bool → Change

unfoldable pub apply : Service → Change → ℕ → ℕ → ℕ → Tx (Unit {0})
apply v (updates d) id expected now = update v id d expected now
apply v enables id expected now = enable v id expected now
apply v (stops archive) id expected now = stop v id expected archive now

-- The primary key: no two rows have one identity.
abbrev pub Keyed : List Schedule → Type 0
Keyed [] = Unit
Keyed (x ∷ xs) = All (λ (y : Schedule). y.id == x.id ≡ false) xs × Keyed xs

none_matches :
    (id : ℕ) (test : Schedule → Bool) (xs : List Schedule)
    → ((y : Schedule) → test y ≡ true → y.id == id ≡ true)
    → All (λ (y : Schedule). y.id == id ≡ false) xs
    → count_if test xs ≡ 0
none_matches id test [] f h = refl
none_matches id test (y ∷ ys) f h = elim (Bool-cases (test y)) [
  | inl hit ↦ let same = f y hit in let other = h.0 in cc (same, other)
  | inr miss ↦ rw miss (none_matches id test ys f h.1)
]

-- An update that matches one row, by its identity, changes the row that the identity finds.
pub updated_one :
    (id : ℕ) (test : Schedule → Bool) (change : Schedule → Schedule) (xs : List Schedule)
    (x : Schedule)
    → ((y : Schedule) → test y ≡ true → y.id == id ≡ true)
    → ((y : Schedule) → (change y).id ≡ y.id)
    → Keyed xs
    → find_row (λ (y : Schedule). y.id == id) xs ≡ some x
    → count_if test xs ≡ 1
    → (test x ≡ true)
      × (find_row (λ (y : Schedule). y.id == id) (update_rows test change xs) ≡ some (change x))
unfolding update_rows find_row
updated_one id test change [] x f i k e n = cc
updated_one id test change (y ∷ ys) x f i k e n = elim (Bool-cases (y.id == id)) [
  | inl hit ↦
      let same : y ≡ x = ground (arith, hit, e) in
      let alone =
        none_matches id test ys f (
          subst (λ j. All (λ (z : Schedule). z.id == j ≡ false) ys) ((==_iff y.id id).0 hit) k.0) in
      let matched : test y ≡ true = ground (arith, alone, n) in
      let changed : (change y).id == id ≡ true = ground (arith, i y, hit) in
      subst
        (λ z.
          (test z ≡ true)
          × (find_row (λ (w : Schedule). w.id == id) (update_rows test change (y ∷ ys))
              ≡ some (change z)))
        same (matched, rw (matched, changed) refl)
  | inr miss ↦
      let unmatched : test y ≡ false = elim (Bool-cases (test y)) [
        | inl t ↦ let h = f y t in cc (h, miss)
        | inr t ↦ t
      ] in
      let rest =
        updated_one id test change ys x f i k.1 (ground (arith, miss, e))
          (ground (arith, unmatched, n)) in
      (rest.0, rw (unmatched, miss) rest.1)
]

-- The schedule is at the next revision.
abbrev Raised : ℕ → ℕ → Store → Type 0
Raised id n t = (z : Schedule) × (lock_schedule id t ≡ some z) × (z.revision ≡ suc n)

-- The last statement of every change.
written :
    (id n : ℕ) (test : Schedule → Bool) (change : Schedule → Schedule) (x : Schedule) (s : Store)
    → ((y : Schedule) → test y ≡ true → y.id == id ≡ true)
    → ((y : Schedule) → (change y).id ≡ y.id)
    → ((y : Schedule) → (change y).revision ≡ suc y.revision)
    → Keyed s.schedules
    → lock_schedule id s ≡ some x
    → x.revision ≡ n
    → Committed (λ _. Raised id n) s (update_schedules test change 1 s)
unfolding update_schedules
written id n test change x s f i r k e h =
    if_rule (λ (q : Result SchedulerError (Unit {0} × Store)). Committed (λ _. Raised id n) s q)
      (count_if test s.schedules == 1)
      (λ one.
        let found = updated_one id test change s.schedules x f i k e ((==_iff _ _).0 one) in
        (change x, found.1, r x ∙ ap suc h))
      (λ _. tt)

-- The statements leave the schedules alone.
SameSchedules : Store → Store → Type 0
SameSchedules s t = s.schedules ≡ t.schedules

update_occurrences-SameSchedules :
    (test : Occurrence → Bool) (change : Occurrence → Occurrence) (n : ℕ) (s : Store)
    → Committed SameSchedules s (update_occurrences test change n s)
unfolding update_occurrences SameSchedules
update_occurrences-SameSchedules test change n s =
    if_rule (λ (q : Result SchedulerError (Unit {0} × Store)). Committed SameSchedules s q)
      (count_if test s.occurrences == n) (λ _. refl) (λ _. tt)

-- The start of every change: the schedule is found at the revision.
started :
    (id n : ℕ) (rest : Schedule → Tx (Unit {0})) (s : Store)
    → ((x : Schedule)
        → lock_schedule id s ≡ some x
        → x.revision ≡ n
        → Committed (λ _. Raised id n) s (rest x s))
    → Committed
        (λ _. Raised id n)
        s
        ((or_fail (lock_schedule id s) no_rows >>= λ x. check (x.revision == n) conflict >> rest x)
          s)
started id n rest s f = found (lock_schedule id s) refl
  where
    checked :
        (x : Schedule)
        → lock_schedule id s ≡ some x
        → (b : Bool) → (x.revision == n) ≡ b
        → Committed (λ _. Raised id n) s ((check b conflict >> rest x) s)
    checked x e true h = f x e ((==_iff _ _).0 h)
    checked x e false h = tt

    found :
        (o : Option Schedule)
        → lock_schedule id s ≡ o
        → Committed
            (λ _. Raised id n)
            s
            ((or_fail o no_rows >>= λ x. check (x.revision == n) conflict >> rest x) s)
    found (some x) e = checked x e (x.revision == n) refl
    found none e = tt

-- Reading changes nothing.
unfoldable pub Same : Store → Store → Type 0
Same s t = s ≡ t

pub validated_at-Same : (v : Service) (d : Definition) (now : ℕ) → Keeps Same (validated_at v d now)
unfolding Same
validated_at-Same v d now s = go (validate_definition v.rules d now)
  where
    go :
        (r : Result DefinitionError (Definition × Cron))
        → Committed {E = SchedulerError} {A = Definition × Cron}
            (λ a b. a ≡ b)
            s
            (elim r [ ok x ↦ ok (x, s) | err e ↦ err invalid_definition ])
    go (ok x) = refl
    go (err e) = tt

prepare_enable-Same :
    (v : Service) (x : Schedule) (occupied : Bool) (now : ℕ)
    → Keeps Same (prepare_enable v x occupied now)
unfolding prepare_enable Same
prepare_enable-Same v x occupied now =
    Keeps-then R o (check (not (is_some x.archived_at)) archived) free (Keeps-check R o _ _) (
      Keeps-then R o (check (not occupied) backlog) valid (Keeps-check R o _ _) (
        Keeps-bind R o (validated_at v x.definition now) first
          (validated_at-Same v x.definition now) (λ r s. refl)))
  where
    R : Store → Store → Type 0
    R s t = s ≡ t

    o : IsPreorder R
    o = Same-IsPreorder

    first : Definition × Cron → Tx (Option ℕ)
    first r = pure (r.1 now)

    valid : Tx (Option ℕ)
    valid = validated_at v x.definition now >>= first

    free : Tx (Option ℕ)
    free = check (not occupied) backlog >> valid

enable-Raised :
    (v : Service) (id n now : ℕ) (s : Store)
    → Keyed s.schedules
    → Committed (λ _. Raised id n) s (enable v id n now s)
unfolding enable apply_enable Same
enable-Raised v id n now s k = started id n rest s (λ x e h.
    Committed-bind Same (Raised id n) (prepare_enable v x occupied now) (apply_enable x) s
      (prepare_enable-Same v x occupied now s)
      (λ next t _ same.
        subst (λ w. Committed (λ _. Raised id n) w (apply_enable x next w)) same
          (written id n (may_be_enabled x) (enabled_row next) x s
            (λ y t. let own = find_row-test _ s.schedules e in ground (arith, t, own)) (λ y. refl)
            (λ y. refl) k e h)))
  where
    occupied : Bool
    occupied = is_some (lock_active_occurrence id s)

    rest : Schedule → Tx (Unit {0})
    rest x = prepare_enable v x occupied now >>= apply_enable x

stop-Raised :
    (v : Service) (id n now : ℕ) (archive : Bool) (s : Store)
    → Keyed s.schedules
    → Committed (λ _. Raised id n) s (stop v id n archive now s)
unfolding stop apply_stop SameSchedules
stop-Raised v id n now archive s k = started id n rest s (λ x e h.
    Committed-bind SameSchedules (Raised id n) closed (λ _. ended x) s
      (option_rule (λ (m : Tx (Unit {0})). Committed SameSchedules s (m s)) active (λ _. refl)
        (λ p _. update_occurrences-SameSchedules _ _ 1 s))
      (λ _ t _ same.
        written id n (at_revision x) (stopped_row archive now) x t
          (λ y q. let own = find_row-test _ s.schedules e in ground (arith, q, own)) (λ y. refl)
          (λ y. refl) (subst Keyed same k)
          (subst (λ xs. find_row (λ (y : Schedule). y.id == id) xs ≡ some x) same e) h))
  where
    active : Option Occurrence
    active = lock_active_occurrence id s

    closed : Tx (Unit {0})
    closed = elim active [
      | none ↦ pure tt
      | some p ↦
          update_occurrences (λ q. q.id == p.id && is_unresolved q.status) (discarded_row now) 1
    ]

    ended : Schedule → Tx (Unit {0})
    ended x = update_schedules (at_revision x) (stopped_row archive now) 1

    rest : Schedule → Tx (Unit {0})
    rest x = closed >> ended x

pub next_after_update-Same :
    (v : Service) (x : Schedule) (d : Definition) (cron : Cron) (now : ℕ) (s : Store)
    → Keeps Same (next_after_update v x d cron now s)
unfolding Same
next_after_update-Same v x d cron now s =
    if_rule (Keeps R) (semantic_matches x.definition d) (λ _ t. refl)
      (λ _.
        Keeps-then R Same-IsPreorder (check free backlog) moved (Keeps-check R Same-IsPreorder _ _)
          (λ t. refl))
  where
    R : Store → Store → Type 0
    R a b = a ≡ b

    free : Bool
    free = not (
        is_some (lock_active_occurrence x.id s)
        || x.enabled && elim x.next_run_at [ none ↦ false | some t ↦ leb t now ])

    moved : Tx (Option ℕ)
    moved = pure (if x.enabled then cron now else x.next_run_at)

update-Raised :
    (v : Service) (id n now : ℕ) (d : Definition) (s : Store)
    → Keyed s.schedules
    → Committed (λ _. Raised id n) s (update v id d n now s)
unfolding update Same
update-Raised v id n now d s k = started id n rest s (λ x e h.
    Committed-bind Same (Raised id n) (check (not (is_some x.archived_at)) archived) (λ _. living x)
      s (Keeps-check Same Same-IsPreorder _ _ s)
      (λ _ a _ qa.
        Committed-bind Same (Raised id n) (validated_at v (with_timezone v d) now) (valid x) a
          (validated_at-Same v (with_timezone v d) now a)
          (λ r b _ qb.
            Committed-bind Same (Raised id n) (next_after_update v x r.0 r.1 now s) (ended x r) b
              (next_after_update-Same v x r.0 r.1 now s b)
              (λ next c _ qc.
                subst (λ w. Committed (λ _. Raised id n) w (ended x r next w)) (qa ∙ (qb ∙ qc))
                  (written id n (at_revision x) _ x s
                    (λ y q. let own = find_row-test _ s.schedules e in ground (arith, q, own))
                    (λ y. refl) (λ y. refl) k e h)))))
  where
    ended : Schedule → Definition × Cron → Option ℕ → Tx (Unit {0})
    ended x r next =
        update_schedules (at_revision x)
          (λ y. record y {
            definition = r.0;
            next_run_at = next;
            revision = suc y.revision;
            validation_error = none;
          })
          1

    valid : Schedule → Definition × Cron → Tx (Unit {0})
    valid x r = next_after_update v x r.0 r.1 now s >>= ended x r

    living : Schedule → Tx (Unit {0})
    living x = validated_at v (with_timezone v d) now >>= valid x

    rest : Schedule → Tx (Unit {0})
    rest x = check (not (is_some x.archived_at)) archived >> living x

apply-Raised :
    (v : Service) (c : Change) (id n now : ℕ) (s : Store)
    → Keyed s.schedules
    → Committed (λ _. Raised id n) s (apply v c id n now s)
unfolding apply
apply-Raised v (updates d) id n now s k = update-Raised v id n now d s k
apply-Raised v enables id n now s k = enable-Raised v id n now s k
apply-Raised v (stops archive) id n now s k = stop-Raised v id n now archive s k

-- Once a change of a schedule (an update, or that it is enabled, disabled or archived) has succeeded on a revision,
-- every change that expects that revision is refused as a conflict. Identities are the primary key.
pub stale_change_conflicts :
    (v : Service) (a b : Change) (id n now later : ℕ) (s t : Store)
    → Keyed s.schedules
    → apply v a id n now s ≡ ok (tt, t)
    → apply v b id n later t ≡ err conflict
unfolding apply update enable stop
stale_change_conflicts v a b id n now later s t k e = refused b
  where
    r : Raised id n t
    r = subst (Committed (λ _. Raised id n) s) e (apply-Raised v a id n now s k)

    stale : (r.0.revision == n) ≡ false
    stale = ground (arith, r.2)

    refused : (c : Change) → apply v c id n later t ≡ err conflict
    refused (updates d) = rw (r.1, stale) refl
    refused enables = rw (r.1, stale) refl
    refused (stops archive) = rw (r.1, stale) refl
