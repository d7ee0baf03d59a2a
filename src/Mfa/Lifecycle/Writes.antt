-- ===== src/Mfa/Lifecycle/Writes.antt =====
-- What the writes of an accepted code leave as it is of the challenges that exist.
use dwh_v.Common.{ℕ, refl, String, List, is_some, if_rule}
use dwh_v.Common.Transactions.{Committed, Keeps}
use dwh_v.Mfa.Totp.{ℤ}
use dwh_v.Mfa.Model.{
  Purpose, login, enrollment, step_up, rotation, rotate_authorize, regenerate, Challenge, Env,
  Draws,
}
use dwh_v.Mfa.Challenges.{has_pending}
use dwh_v.Mfa.Inspection.{Factor, refused, counter_match, recovery_match, find_enrollment}
use dwh_v.Mfa.Verify.{enroll, use_recovery, use_counter, spend, complete}
use dwh_v.Mfa.Kept.{KeptByCodes}
use dwh_v.Mfa.Kept.Completion.{activate-Kept, complete-Kept}
use dwh_v.Mfa.Lifecycle.Preserves.{
  Preserves, Preserves-IsPreorder, Preserves-elsewhere, Preserves-IsKept,
}

by_codes : (user : ℕ) → KeptByCodes Preserves user
by_codes user = record {
  clear = λ s. Preserves-elsewhere s _ refl refl;
  add = λ s hash now. Preserves-elsewhere s _ refl refl;
}

enroll-Preserves :
    (p : Purpose) (user : ℕ) (secret : String) (n : ℤ) (now : ℕ)
    → Keeps Preserves (enroll p user secret n now)
enroll-Preserves enrollment user secret n now s =
    if_rule (Committed Preserves s) (is_some (find_enrollment user s)) (λ _. tt)
      (λ _. Preserves-elsewhere _ _ refl refl)
enroll-Preserves login user secret n now s = Preserves-elsewhere _ _ refl refl
enroll-Preserves step_up user secret n now s = Preserves-elsewhere _ _ refl refl
enroll-Preserves rotation user secret n now s = Preserves-elsewhere _ _ refl refl
enroll-Preserves rotate_authorize user secret n now s = Preserves-elsewhere _ _ refl refl
enroll-Preserves regenerate user secret n now s = Preserves-elsewhere _ _ refl refl

pub spend-Preserves :
    (v : Env) (d : Draws) (c : Challenge) (input : String) (f : Factor) (now : ℕ)
    → Keeps Preserves (spend v d c input f now)
unfolding spend use_counter use_recovery
spend-Preserves v d c input refused now = Preserves-IsPreorder.same
spend-Preserves v d c input (counter_match n) now =
    if_rule (Keeps Preserves) (has_pending c.purpose)
      (λ _.
        activate-Kept Preserves Preserves-IsKept v d c n now (by_codes c.user)
          (λ y. enroll-Preserves c.purpose c.user y n now))
      (λ _ s. Preserves-elsewhere _ _ refl refl)
spend-Preserves v d c input recovery_match now = λ s. Preserves-elsewhere _ _ refl refl

pub complete-Preserves :
    (v : Env) (d : Draws) (c : Challenge) (session_id : ℕ) (codes : List String) (now : ℕ)
    → Keeps Preserves (complete v d c session_id codes now)
complete-Preserves v d c session_id codes now =
    complete-Kept Preserves Preserves-IsKept v d c session_id codes now (λ _. by_codes c.user)
