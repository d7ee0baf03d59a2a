-- ===== src/Runs/Lifecycle.antt =====
-- The states of a run, and what may happen to the table of runs.
pub mod Steps
pub mod Submits
pub mod Recovers
pub mod Parents
pub mod History
use mathlib.Core.List.{Memᴰ}
use dwh_v.Common.{
  String, ℕ, suc, ◌≤◌, ◌<◌, ◌≡◌, refl, Bool, true, false, Option, none, some, List, [], ◌∷◌, ◌++◌,
  if◌then◌else◌, arith, Bool-cases, inl, inr, subst, sym, ◌∙◌, if_rule, ◌==◌, ==_iff, ap,
}
use dwh_v.Runs.Params.{Parameters}
use dwh_v.Runs.Model.{
  Kind, Status, planned, queued, running, succeeded, failed, skipped, cancelled, abandoned,
  completed, completed_with_skips, is_terminal, Row, Store,
}
use dwh_v.Runs.Table.{update_rows}
use dwh_v.Runs.Tx.{IsPreorder}

infix 40 ◌⟶◌ ◌⟶*◌
-- The arrows of the diagram of states.
pub data ◌⟶◌ : Status → Status → Type 0 where
  unlock : planned ⟶ queued
  skip : planned ⟶ skipped
  drop_planned : planned ⟶ cancelled
  drop_queued : queued ⟶ cancelled
  start : queued ⟶ running
  succeed : running ⟶ succeeded
  break : running ⟶ failed
  stop : running ⟶ cancelled
  abandon : running ⟶ abandoned
  complete : running ⟶ completed
  complete_with_skips : running ⟶ completed_with_skips

pub data ◌⟶*◌ : Status → Status → Type 0 where
  here : {s : Status} → s ⟶* s
  also : {s t u : Status} → s ⟶ t → t ⟶* u → s ⟶* u

⟶*-trans : {s t u : Status} → s ⟶* t → t ⟶* u → s ⟶* u
⟶*-trans here q = q
⟶*-trans (also a p) q = also a (⟶*-trans p q)

-- No arrow leaves a terminal state.
terminal_stuck : {s t : Status} → s ⟶ t → is_terminal s ≡ false
terminal_stuck unlock = refl
terminal_stuck skip = refl
terminal_stuck drop_planned = refl
terminal_stuck drop_queued = refl
terminal_stuck start = refl
terminal_stuck succeed = refl
terminal_stuck break = refl
terminal_stuck stop = refl
terminal_stuck abandon = refl
terminal_stuck complete = refl
terminal_stuck complete_with_skips = refl

pub terminal_stays : {s t : Status} → s ⟶* t → is_terminal s ≡ true → t ≡ s
terminal_stays here h = refl
terminal_stays (also a p) h = cc (terminal_stuck a, h)

-- What of a run never changes.
pub record Identity : Type 0 where
  pub id : ℕ
  pub kind : Kind
  pub parent : Option ℕ
  pub position : Option ℕ
  pub job_key : Option String
  pub parameters : Parameters

abbrev pub identity : Row → Identity
identity r = record {
  id = r.id;
  kind = r.kind;
  parent = r.parent;
  position = r.position;
  job_key = r.job_key;
  parameters = r.parameters;
}

-- The row is the same run, and its status has moved along arrows.
pub record Follows (r r' : Row) : Type 0 where
  pub same : identity r' ≡ identity r
  pub moves : r.status ⟶* r'.status

pub Follows-refl : (r : Row) → Follows r r
Follows-refl r = record { same = refl; moves = here }

Follows-trans : {r s t : Row} → Follows r s → Follows s t → Follows r t
Follows-trans f g = record { same = g.same ∙ f.same; moves = ⟶*-trans f.moves g.moves }

-- No row is lost, each follows what it was, and new rows stand at the end.
abbrev pub Evolves : List Row → List Row → Type 0
Evolves [] ys = Unit {0}
Evolves (x ∷ xs) [] = ⊥
Evolves (x ∷ xs) (y ∷ ys) = Follows x y × Evolves xs ys

pub Evolves-refl : (rs : List Row) → Evolves rs rs
Evolves-refl [] = tt
Evolves-refl (r ∷ rs) = (Follows-refl r, Evolves-refl rs)

Evolves-trans : (xs ys zs : List Row) → Evolves xs ys → Evolves ys zs → Evolves xs zs
Evolves-trans [] ys zs p q = tt
Evolves-trans (x ∷ xs) [] zs p q = absurd p
Evolves-trans (x ∷ xs) (y ∷ ys) [] p q = absurd q
Evolves-trans (x ∷ xs) (y ∷ ys) (z ∷ zs) p q =
    (Follows-trans p.0 q.0, Evolves-trans xs ys zs p.1 q.1)

pub Evolves-append : (rs new : List Row) → Evolves rs (rs ++ new)
Evolves-append [] new = tt
Evolves-append (r ∷ rs) new = (Follows-refl r, Evolves-append rs new)

-- The identities rise along the table, from `low` to below `next`.
abbrev pub Ascends : ℕ → ℕ → List Row → Type 0
Ascends low next [] = low ≤ next
Ascends low next (r ∷ rs) = (low ≤ r.id) × Ascends (suc r.id) next rs

Ascends-update :
    (low next : ℕ) (test : Row → Bool) (change : Row → Row) (rs : List Row)
    → ((r : Row) → (change r).id ≡ r.id)
    → Ascends low next rs
    → Ascends low next (update_rows test change rs)
unfolding update_rows
Ascends-update low next test change [] f a = a
Ascends-update low next test change (r ∷ rs) f a =
    let rest = Ascends-update (suc r.id) next test change rs f a.1 in
    if_rule (λ (x : Row). (low ≤ x.id) × Ascends (suc x.id) next (update_rows test change rs))
      (test r)
      (λ _.
        subst (λ n. (low ≤ n) × Ascends (suc n) next (update_rows test change rs)) (sym (f r))
          (a.0, rest))
      (λ _. (a.0, rest))

Ascends-append :
    (low next : ℕ) (rs : List Row) (r : Row)
    → r.id ≡ next
    → Ascends low next rs
    → Ascends low (suc next) (rs ++ r ∷ [])
Ascends-append low next [] r e a = (omega arith, omega arith)
Ascends-append low next (x ∷ xs) r e a = (a.0, Ascends-append (suc x.id) next xs r e a.1)

Ascends-above :
    (low next : ℕ) (r : Row) (rs : List Row) → Ascends low next rs → Memᴰ r rs → low ≤ r.id
Ascends-above low next r [] a m = elim m [ ]
Ascends-above low next r (x ∷ xs) a (Memᴰ.head e) = subst (λ (y : Row). low ≤ y.id) (sym e) a.0
Ascends-above low next r (x ∷ xs) a (Memᴰ.tail m) =
    omega (arith, a.0, Ascends-above (suc x.id) next r xs a.1 m)

-- An identity is that of one row.
pub Ascends-unique :
    (low next : ℕ) (r s : Row) (rs : List Row)
    → Ascends low next rs
    → Memᴰ r rs
    → Memᴰ s rs
    → r.id ≡ s.id
    → r ≡ s
Ascends-unique low next r s [] a m n h = elim m [ ]
Ascends-unique low next r s (x ∷ xs) a (Memᴰ.head e) (Memᴰ.head f) h = e ∙ sym f
Ascends-unique low next r s (x ∷ xs) a (Memᴰ.head e) (Memᴰ.tail n) h =
    absurd (omega (arith, ap (λ (y : Row). y.id) e, h, Ascends-above (suc x.id) next s xs a.1 n))
Ascends-unique low next r s (x ∷ xs) a (Memᴰ.tail m) (Memᴰ.head f) h =
    absurd (omega (arith, ap (λ (y : Row). y.id) f, h, Ascends-above (suc x.id) next r xs a.1 m))
Ascends-unique low next r s (x ∷ xs) a (Memᴰ.tail m) (Memᴰ.tail n) h =
    Ascends-unique (suc x.id) next r s xs a.1 m n h

Evolves-update_mem :
    (test : Row → Bool) (change : Row → Row) (rs : List Row)
    → ((r : Row) → Memᴰ r rs → test r ≡ true → Follows r (change r))
    → Evolves rs (update_rows test change rs)
unfolding update_rows
Evolves-update_mem test change [] f = tt
Evolves-update_mem test change (r ∷ rs) f = (
  if_rule (Follows r) (test r) (f r (Memᴰ.head refl)) (λ _. Follows-refl r),
  Evolves-update_mem test change rs (λ s m. f s (Memᴰ.tail m)),
)

-- The identities rise, so that one that is found is found once.
pub record IsSound (s : Store) : Type 0 where
  pub ids : Ascends 0 s.next_id s.runs

-- From a sound store the table evolves, to a sound one.
abbrev pub Advances : Store → Store → Type 0
Advances s t = IsSound s → IsSound t × Evolves s.runs t.runs

pub Advances-IsPreorder : IsPreorder Advances
Advances-IsPreorder = record {
  same = λ s v. (v, Evolves-refl s.runs);
  joined = λ s t u f g v.
      let a = f v in let b = g a.0 in (b.0, Evolves-trans s.runs t.runs u.runs a.1 b.1);
}

-- An update that moves the rows that pass along arrows.
pub Advances-update :
    (s : Store) (test : Row → Bool) (change : Row → Row)
    → ((r : Row) → (change r).id ≡ r.id)
    → ((r : Row) → test r ≡ true → Follows r (change r))
    → Advances s (record s { runs = update_rows test change s.runs })
Advances-update s test change same f v = (
  record { ids = Ascends-update 0 s.next_id test change s.runs same v.ids },
  Evolves-update_mem test change s.runs (λ r _. f r),
)

-- An update of the row with the identity of one in the table.
pub Advances-update_at :
    (s : Store) (row : Row) (change : Row → Row)
    → ((r : Row) → (change r).id ≡ r.id)
    → Memᴰ row s.runs
    → Follows row (change row)
    → Advances s (record s { runs = update_rows (λ r. r.id == row.id) change s.runs })
Advances-update_at s row change same m f v = (
  record { ids = Ascends-update 0 s.next_id _ change s.runs same v.ids },
  Evolves-update_mem (λ r. r.id == row.id) change s.runs
      (λ r n hit.
        subst (λ x. Follows x (change x))
          (Ascends-unique 0 s.next_id row r s.runs v.ids m n (sym ((==_iff _ _).0 hit))) f),
)

pub Advances-insert :
    (s : Store) (r : Row)
    → r.id ≡ s.next_id
    → Advances s (record s { runs = s.runs ++ r ∷ []; next_id = suc s.next_id })
Advances-insert s r e v =
    (record { ids = Ascends-append 0 s.next_id s.runs r e v.ids }, Evolves-append s.runs (r ∷ []))
