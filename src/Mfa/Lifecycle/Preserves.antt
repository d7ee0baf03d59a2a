-- ===== src/Mfa/Lifecycle/Preserves.antt =====
-- What the writes of internal/mfa/store.go leave as it is of the challenges that exist.
use dwh_v.Common.{ℕ, ◌+◌, ◌<◌, ◌≤◌, ◌≡◌, Bool, true, List, ◌∷◌, ◌==◌, All, arith, subst}
use dwh_v.Common.Tables.{delete_rows, All-keep}
use dwh_v.Common.Transactions.{IsPreorder}
use dwh_v.Mfa.Model.{Challenge, Store}
use dwh_v.Mfa.Kept.{IsKept}
use dwh_v.Mfa.Lifecycle.{Spec, view}

-- Every row with the identity is in the state.
abbrev pub Represents : List Challenge → ℕ → Spec → Type 0
Represents cs i a = All (λ (c : Challenge). c.id == i ≡ true → view c ≡ a) cs

pub record Preserves (s t : Store) : Type 0 where
  pub grows : s.next_challenge ≤ t.next_challenge
  pub keeps :
      (i : ℕ) (a : Spec)
      → i < s.next_challenge
      → Represents s.challenges i a
      → Represents t.challenges i a

pub Preserves-IsPreorder : IsPreorder Preserves
Preserves-IsPreorder = record {
  same = λ s. record { grows = omega arith; keeps = λ i a l h. h };
  joined = λ s t u p q. record {
    grows = omega (arith, p.grows, q.grows);
    keeps = λ i a l h. q.keeps i a (omega (arith, p.grows)) (p.keeps i a l h);
  };
}

-- Writes that leave the table of challenges alone, and deletions from it.
pub Preserves-elsewhere :
    (s t : Store)
    → s.challenges ≡ t.challenges
    → s.next_challenge ≡ t.next_challenge
    → Preserves s t
Preserves-elsewhere s t e n = record {
  grows = omega (arith, n);
  keeps = λ i a l h. subst (λ cs. Represents cs i a) e h;
}

Preserves-delete :
    (test : Challenge → Bool) (s : Store)
    → Preserves s (record s { challenges = delete_rows test s.challenges })
Preserves-delete test s = record { grows = omega arith; keeps = λ i a l h. All-keep _ _ _ h }

-- A new challenge has an identity of its own.
Preserves-insert :
    (s : Store) (c : Challenge)
    → c.id ≡ s.next_challenge
    → Preserves s
        (record s { challenges = c ∷ s.challenges; next_challenge = s.next_challenge + 1 })
Preserves-insert s c e = record {
  grows = omega arith;
  keeps = λ i a l h. ((λ hit. ground arith), h);
}

pub Preserves-IsKept : IsKept Preserves
Preserves-IsKept = record {
  preorder = Preserves-IsPreorder;
  aside = λ s t e n _ _. Preserves-elsewhere s t e n;
  insert = Preserves-insert;
  delete = Preserves-delete;
}
