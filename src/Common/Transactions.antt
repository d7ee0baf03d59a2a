-- ===== src/Common/Transactions.antt =====
-- Transactions on a store: code that reads and changes the tables, and that leaves no trace when it returns
-- an error (`defer tx.Rollback()`).
use mathlib.Core.Path.{◌≡◌, refl, ◌∙◌}
use mathlib.Core.Bool.{Bool, true, false}
use mathlib.Core.Option.{Option, none, some}
use dwh_v.Common.Results.{Result, ok, err}

abbrev pub Transaction {ℓ} : Type 0 → Type 0 → Type ℓ → Type ℓ
Transaction S E A = S → Result E (A × S)

module _ {S : Type 0} {E : Type 0} where
  abbrev pub pure {ℓ} : {A : Type ℓ} → A → Transaction S E A
  pure a s = ok (a, s)

  infixl 5 ◌>>=◌ ◌>>◌
  abbrev pub ◌>>=◌ {ℓ κ} :
      {A : Type ℓ} {B : Type κ} → Transaction S E A → (A → Transaction S E B) → Transaction S E B
  ◌>>=◌ m f s = elim (m s) [ ok (a, s') ↦ f a s' | err e ↦ err e ]

  abbrev pub ◌>>◌ {ℓ} :
      {B : Type ℓ} → Transaction S E (Unit {0}) → Transaction S E B → Transaction S E B
  m >> k = m >>= λ _. k

  abbrev pub check : Bool → E → Transaction S E (Unit {0})
  check true e s = ok (tt, s)
  check false e s = err e

  abbrev pub get : Transaction S E S
  get s = ok (s, s)

  abbrev pub put : S → Transaction S E (Unit {0})
  put s _ = ok (tt, s)

  -- An `UPDATE`, `INSERT` or `DELETE` that does not fail.
  abbrev pub modify : (S → S) → Transaction S E (Unit {0})
  modify f s = ok (tt, f s)

  -- `sql.ErrNoRows` as an error.
  abbrev pub or_fail {ℓ} : {A : Type ℓ} → Option A → E → Transaction S E A
  or_fail none e s = err e
  or_fail (some a) e s = ok (a, s)

  -- What a transaction does to the store when it commits.
  abbrev pub Committed {ℓ κ} : {A : Type ℓ} → (S → S → Type κ) → S → Result E (A × S) → Type κ
  Committed R s (ok (a, s')) = R s s'
  Committed R s (err e) = Unit

  abbrev pub Keeps {ℓ κ} : {A : Type ℓ} → (S → S → Type κ) → Transaction S E A → Type κ
  Keeps R m = (s : S) → Committed R s (m s)

pub record IsPreorder {κ} {S : Type 0} (R : S → S → Type κ) : Type κ where
  pub same : (s : S) → R s s
  pub joined : (s t u : S) → R s t → R t u → R s u

-- What each part of a transaction keeps, the whole keeps.
module _ {κ} {S : Type 0} {E : Type 0} (R : S → S → Type κ) (o : IsPreorder R) where
  pub Keeps-bind {ℓ μ} :
      {A : Type ℓ} {B : Type μ} (m : Transaction S E A) (f : A → Transaction S E B)
      → Keeps R m
      → ((a : A) → Keeps R (f a))
      → Keeps R (m >>= f)
  Keeps-bind {A} {B} m f p q s = go (m s) (p s)
    where
      after :
          (a : A) (s' : S) → R s s' → (r : Result E (B × S)) → Committed R s' r → Committed R s r
      after a s' h (ok (b, s'')) k = o.joined s s' s'' h k
      after a s' h (err e) k = tt

      go :
          (r : Result E (A × S))
          → Committed R s r
          → Committed R s (elim r [ ok (a, s') ↦ f a s' | err e ↦ err e ])
      go (ok (a, s')) h = after a s' h (f a s') (q a s')
      go (err e) h = tt

  pub Keeps-then {μ} :
      {B : Type μ} (m : Transaction S E (Unit {0})) (k : Transaction S E B)
      → Keeps R m
      → Keeps R k
      → Keeps R (m >> k)
  Keeps-then m k p q = Keeps-bind m (λ _. k) p (λ _. q)

  pub Keeps-check : (b : Bool) (e : E) → Keeps R (check b e)
  Keeps-check true e s = o.same s
  Keeps-check false e s = tt

  pub Keeps-or_fail {ℓ} : {A : Type ℓ} (a : Option A) (e : E) → Keeps R (or_fail a e)
  Keeps-or_fail none e s = tt
  Keeps-or_fail (some a) e s = o.same s

module _ {κ} {S : Type 0} (R : S → S → Type κ) (o : IsPreorder R) (E : Type 0) where
  pub Keeps-pure {ℓ} : {A : Type ℓ} (a : A) → Keeps {E = E} R (pure a)
  Keeps-pure a s = o.same s

  pub Keeps-get : Keeps {E = E} R get
  Keeps-get s = o.same s

-- What the end of a transaction satisfies, after a part that was carried out in one store.
pub Committed-bind {κ μ ν ℓ} :
    {S : Type 0} {E : Type 0} {A : Type ℓ} {B : Type ν} (R : S → S → Type κ) (P : S → Type μ)
    (m : Transaction S E A) (f : A → Transaction S E B) (s : S)
    → Committed R s (m s)
    → ((a : A) (t : S) → m s ≡ ok (a, t) → R s t → Committed (λ _. P) t (f a t))
    → Committed (λ _. P) s ((m >>= f) s)
Committed-bind {S} {E} {A} {B} R P m f s h k = go (m s) refl h
  where
    moved :
        (t : S) (r : Result E (B × S))
        → Committed {E = E} {A = B} (λ _. P) t r
        → Committed {E = E} {A = B} (λ _. P) s r
    moved t (ok (b, u)) p = p
    moved t (err e) p = tt

    go :
        (r : Result E (A × S))
        → m s ≡ r
        → Committed R s r
        → Committed {E = E} {A = B} (λ _. P) s (elim r [ ok (a, t) ↦ f a t | err e ↦ err e ])
    go (ok (a, t)) e p = moved t (f a t) (k a t e p)
    go (err x) e p = tt

pub Same-IsPreorder : {S : Type 0} → IsPreorder (λ (s t : S). s ≡ t)
Same-IsPreorder = record { same = λ s. refl; joined = λ s t u p q. p ∙ q }

-- What holds of the value of a transaction, if it commits.
abbrev pub Valued {ℓ κ} :
    {S : Type 0} {E : Type 0} {A : Type ℓ} → (A → Type κ) → Result E (A × S) → Type κ
Valued Q (ok (a, t)) = Q a
Valued Q (err e) = Unit

pub Valued-bind {ℓ κ μ} :
    {S : Type 0} {E : Type 0} {A : Type ℓ} {B : Type μ} (Q : B → Type κ) (m : Transaction S E A)
    (f : A → Transaction S E B) (s : S)
    → ((a : A) (t : S) → Valued Q (f a t))
    → Valued Q ((m >>= f) s)
Valued-bind {S} {E} {A} {B} Q m f s h = go (m s)
  where
    go : (r : Result E (A × S)) → Valued {E = E} Q (elim r [ ok (a, t) ↦ f a t | err e ↦ err e ])
    go (ok (a, t)) = h a t
    go (err e) = tt

-- What the rest keeps because of the value that it is given.
pub Keeps-bind_valued {ℓ κ μ ν} :
    {S : Type 0} {E : Type 0} {A : Type ℓ} {B : Type μ} (R : S → S → Type κ) (o : IsPreorder R)
    (Q : A → Type ν) (m : Transaction S E A) (f : A → Transaction S E B)
    → Keeps R m
    → ((s : S) → Valued Q (m s))
    → ((a : A) → Q a → Keeps R (f a))
    → Keeps R (m >>= f)
Keeps-bind_valued {S} {E} {A} {B} R o Q m f p v q s = go (m s) (p s) (v s)
  where
    after :
        (t : S)
        → R s t
        → (r : Result E (B × S)) → Committed {E = E} {A = B} R t r
        → Committed {E = E} {A = B} R s r
    after t h (ok (b, u)) k = o.joined s t u h k
    after t h (err e) k = tt

    go :
        (r : Result E (A × S))
        → Committed R s r
        → Valued Q r
        → Committed {E = E} {A = B} R s (elim r [ ok (a, t) ↦ f a t | err e ↦ err e ])
    go (ok (a, t)) h w = after t h (f a t) (q a w t)
    go (err e) h w = tt
