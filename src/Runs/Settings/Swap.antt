-- ===== src/Runs/Settings/Swap.antt =====
-- The update of the settings is a compare and swap.
use dwh_v.Common.{
  ◌≡◌, refl, Bool, true, false, ◌∷◌, if◌then◌else◌, Result, ok, err, if_rule, subst, sym, arith,
}
use dwh_v.Runs.Model.{
  RuntimeSettings, settings_valid, Store, RunError, settings_conflict, invalid_settings,
  runtime_settings_updated,
}
use dwh_v.Runs.Tx.{Tx, ◌>>=◌, ◌>>◌, pure, check, get, put}
use dwh_v.Runs.Settings.{settings_eq, update_runtime_settings}

-- A check passes or is the error.
check_rule {κ} :
    {A : Type 0} (P : Result RunError (A × Store) → Type κ) (b : Bool) (e : RunError) (m : Tx A)
    (s : Store)
    → (b ≡ true → P (m s))
    → P (err e)
    → P ((check b e >> m) s)
check_rule P true e m s f g = f refl
check_rule P false e m s f g = g

-- What an update that changes the settings leaves.
abbrev Swapped : RuntimeSettings → RuntimeSettings → Result RunError (Bool × Store) → Type 0
Swapped expected first (ok (true, t)) =
    (t.settings ≡ first) × (settings_valid first ≡ true) × (settings_eq first expected ≡ false)
Swapped expected first _ = Unit

other_target :
    (a b c : RuntimeSettings)
    → settings_eq a b ≡ true
    → settings_eq a c ≡ false
    → settings_eq c b ≡ false
other_target a b c p q = ground arith

update-Swapped :
    (expected first : RuntimeSettings) (s : Store)
    → Swapped expected first (update_runtime_settings expected first s)
unfolding update_runtime_settings
update-Swapped expected first s =
    check_rule P (settings_valid first) invalid_settings look s
      (λ valid.
        check_rule P (settings_valid s.settings) invalid_settings
          (check (settings_eq s.settings expected) settings_conflict >> write s) s
          (λ _.
            check_rule P (settings_eq s.settings expected) settings_conflict (write s) s
              (λ same.
                if_rule (λ (m : Tx Bool). P (m s)) (settings_eq s.settings first) (λ _. tt)
                  (λ other. (refl, valid, other_target s.settings expected first same other)))
              tt)
          tt)
      tt
  where
    P : Result RunError (Bool × Store) → Type 0
    P = Swapped expected first

    write : Store → Tx Bool
    write u =
        if settings_eq u.settings first
        then pure false
        else put (record u { settings = first; audits = (runtime_settings_updated, 0) ∷ u.audits })
          >> pure true

    look : Tx Bool
    look = get >>= λ u.
        check (settings_valid u.settings) invalid_settings
        >> (check (settings_eq u.settings expected) settings_conflict >> write u)

refused :
    (expected second : RuntimeSettings) (t : Store)
    → settings_valid second ≡ true
    → settings_valid t.settings ≡ true
    → settings_eq t.settings expected ≡ false
    → update_runtime_settings expected second t ≡ err settings_conflict
unfolding update_runtime_settings
refused expected second t v w x = rw (v, w, x) refl

-- After one update has changed the settings, a second one that expects the old settings is refused
-- as a conflict, if its target is valid; and the settings are the first one's target, which is valid.
pub stale_update_conflicts :
    (expected first second : RuntimeSettings) (s t : Store)
    → update_runtime_settings expected first s ≡ ok (true, t)
    → settings_valid second ≡ true
    → (t.settings ≡ first)
      × (settings_valid first ≡ true)
      × (update_runtime_settings expected second t ≡ err settings_conflict)
stale_update_conflicts expected first second s t e v =
    let k : Swapped expected first (ok (true, t)) =
      subst (Swapped expected first) e (update-Swapped expected first s) in
    (
      k.0,
      k.1,
      refused expected second t v (subst (λ x. settings_valid x ≡ true) (sym k.0) k.1)
          (subst (λ x. settings_eq x expected ≡ false) (sym k.0) k.2),
    )
