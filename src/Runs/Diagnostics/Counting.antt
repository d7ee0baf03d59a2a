-- ===== src/Runs/Diagnostics/Counting.antt =====
-- internal/ingestionrun/model.go, `MapperDiagnostics.Add`: in which group a failure is counted.
use mathlib.Core.List.{Permᴰ}
use dwh_v.Common.{
  ℕ, suc, ◌+◌, ◌≤◌, ◌≡◌, refl, Bool, true, false, not, String, eq_iff, List, [], ◌∷◌, ◌++◌,
  if◌then◌else◌, ◌==◌, ltb, length, arith, if_rule, subst, sym, ap, ◌∙◌, Bool-cases, inl, inr, ◌⊎◌,
  All,
}
use dwh_v.Runs.Diagnostics.{
  Metadata, Group, Diagnostics, Search, missing, full, counted, behind, is_same, is_safe, count_in,
  sorted, add, add_group, goes_before, max_groups, max_uint64, Accounts, validate,
  validate-Accounts,
}

abbrev one_if : Bool → ℕ
one_if b = if b then 1 else 0

-- How many failures are counted in the groups of a kind.
abbrev pub tally : Metadata → List Group → ℕ
tally k [] = 0
tally k (g ∷ gs) = (if is_same g.what k then g.count else 0) + tally k gs

is_same-eq : (a b : Metadata) → is_same a b ≡ true → a ≡ b
unfolding is_same
is_same-eq a b h =
    let p = (eq_iff a.class b.class).0 (ground (arith, h)) in
    let q = (eq_iff a.field b.field).0 (ground (arith, h)) in
    let r = (eq_iff a.category b.category).0 (ground (arith, h)) in
    let s = (eq_iff a.reason b.reason).0 (ground (arith, h)) in
    let t = (eq_iff a.message b.message).0 (ground (arith, h)) in
    λ i. record { class = p i; field = q i; category = r i; reason = s i; message = t i }

tally-append : (k : Metadata) (xs ys : List Group) → tally k (xs ++ ys) ≡ tally k xs + tally k ys
tally-append k [] ys = omega arith
tally-append k (x ∷ xs) ys = let rest = tally-append k xs ys in omega (arith, rest)

tally-perm : (k : Metadata) {xs ys : List Group} → Permᴰ xs ys → tally k xs ≡ tally k ys
tally-perm k Permᴰ.nil = refl
tally-perm k (Permᴰ.cons {b = b} e d) =
    let rest = tally-perm k d in
    let one = ap (λ (g : Group). if is_same g.what k then g.count else 0) e in
    omega (arith, rest, one)
tally-perm k (Permᴰ.swap p q) =
    let one = ap (λ (g : Group). if is_same g.what k then g.count else 0) p in
    let two = ap (λ (g : Group). if is_same g.what k then g.count else 0) q in
    omega (arith, one, two)
tally-perm k (Permᴰ.trans p q) = tally-perm k p ∙ tally-perm k q

-- What the search says of every kind.
abbrev Found : Metadata → List Group → Search → Type 0
Found m gs missing = All (λ (g : Group). is_same g.what m ≡ false) gs
Found m gs full = Unit
Found m gs (counted hs) =
    ((k : Metadata) → tally k hs ≡ tally k gs + (if is_same m k then 1 else 0))
    × (length hs ≡ length gs)

count_in-Found : (m : Metadata) (gs : List Group) → Found m gs (count_in m gs)
unfolding count_in
count_in-Found m [] = tt
count_in-Found m (g ∷ gs) = elim (Bool-cases (is_same g.what m)) [
  | inl hit ↦ rw hit (
      if_rule (Found m (g ∷ gs)) (g.count == max_uint64) (λ _. tt)
        (λ _. (λ k. one_more k hit (Bool-cases (is_same m k)), refl)))
  | inr miss ↦ rw miss (further miss (count_in m gs) (count_in-Found m gs))
]
  where
    one_more :
        (k : Metadata)
        → is_same g.what m ≡ true
        → (is_same m k ≡ true) ⊎ (is_same m k ≡ false)
        → tally k (record g { count = suc g.count } ∷ gs)
          ≡ tally k (g ∷ gs) + (if is_same m k then 1 else 0)
    one_more k hit (inl t) =
        let u = subst (λ w. is_same w k ≡ true) (sym (is_same-eq g.what m hit)) t in
        rw (t, u) (omega arith)
    one_more k hit (inr t) =
        let u = subst (λ w. is_same w k ≡ false) (sym (is_same-eq g.what m hit)) t in
        rw (t, u) (omega arith)

    further : is_same g.what m ≡ false → (o : Search) → Found m gs o → Found m (g ∷ gs) (behind g o)
    further miss missing h = (miss, h)
    further miss full h = tt
    further miss (counted hs) h = (λ k. let q = h.0 k in omega (arith, q), ap suc h.1)

-- One failure more: in the groups of its kind and in no other, or, when sixteen groups are taken and none is of its kind,
-- among those that are not told apart.
pub record Counted (m : Metadata) (d d' : Diagnostics) : Type 0 where
  pub total : d'.total ≡ suc d.total
  pub accounts : Accounts d'
  pub where_counted :
      ((d'.overflow ≡ d.overflow)
        × ((k : Metadata) → tally k d'.groups ≡ tally k d.groups + (if is_same m k then 1 else 0)))
      ⊎ ((d'.overflow ≡ suc d.overflow)
          × (max_groups ≤ length d.groups)
          × All (λ (g : Group). is_same g.what m ≡ false) d.groups
          × (d'.groups ≡ d.groups))

module _ (sort_slice : (Group → Group → Bool) → List Group → List Group)
    (permutes : (lt : Group → Group → Bool) (gs : List Group) → Permᴰ (sort_slice lt gs) gs)
    (targets : List String) where
  -- The result of an addition to `d`, if it is none of an error.
  abbrev Adds : Metadata → Diagnostics → Bool × Diagnostics → Type 0
  Adds m d r = r.0 ≡ true → Counted m d r.1

  abbrev bumped : Diagnostics → Diagnostics
  bumped d = record d { total = suc d.total }

  in_group :
      (m : Metadata) (d : Diagnostics) (hs : List Group)
      → ((k : Metadata) → tally k hs ≡ tally k d.groups + (if is_same m k then 1 else 0))
      → Adds m d (
        validate targets (sorted sort_slice targets (record (bumped d) { groups = hs })),
        sorted sort_slice targets (record (bumped d) { groups = hs }),
      )
  unfolding sorted
  in_group m d hs f h = record {
    total = refl;
    accounts = validate-Accounts targets _ h;
    where_counted = inl (refl, λ k. tally-perm k (permutes goes_before hs) ∙ f k);
  }

  add_group-Adds :
      (m : Metadata) (d : Diagnostics) (o : Search)
      → Found m d.groups o
      → Adds m d (add_group sort_slice targets m (bumped d) o)
  add_group-Adds m d (counted hs) f = in_group m d hs f.0
  add_group-Adds m d full f = λ h. cc h
  add_group-Adds m d missing f =
      if_rule (Adds m d) (ltb (length d.groups) max_groups)
        (λ _. in_group m d (d.groups ++ record { what = m; count = 1 } ∷ []) (λ k.
          let e = tally-append k d.groups (record { what = m; count = 1 } ∷ []) in
          omega (arith, e)))
        (λ taken.
          if_rule (Adds m d) (d.overflow == max_uint64) (λ _ h. cc h)
            (λ _ h. record {
              total = refl;
              accounts = validate-Accounts targets _ h;
              where_counted = inr (refl, ground (arith, taken), f, refl);
            }))

  add-Adds : (m : Metadata) (d : Diagnostics) → Adds m d (add sort_slice targets m d)
  unfolding add
  add-Adds m d =
      if_rule (Adds m d) (not (is_safe targets m)) (λ _ h. cc h)
        (λ _.
          if_rule (Adds m d) (d.total == max_uint64) (λ _ h. cc h)
            (λ _. add_group-Adds m d (count_in m d.groups) (count_in-Found m d.groups)))

  -- A failure that is added without an error is counted once, and where it belongs, if `sort.Slice` permutes the groups: the
  -- total grows by one. Either the count of the failures of its kind grows by one and those of every other kind stay,
  -- or, when sixteen groups are taken and none is of its kind, the groups stay and the overflow grows by one. The
  -- counts of the groups and of the overflow add up to the total, and there are at most sixteen groups.
  pub add-Counted :
      (m : Metadata) (d d' : Diagnostics) → add sort_slice targets m d ≡ (true, d') → Counted m d d'
  add-Counted m d d' e =
      subst (λ (r : Bool × Diagnostics). r.0 ≡ true → Counted m d r.1) e (add-Adds m d) refl
