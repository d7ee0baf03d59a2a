-- ===== src/Fincloud/Lane/Rules.antt =====
-- What every round of the loop of `grantLocked` keeps, the loop keeps.
use dwh_v.Common.{ℕ, zero, suc, ◌≡◌, refl, ◌∙◌, List, [], ◌∷◌, length, arith, Option, none, some}
use dwh_v.Fincloud.Auth.{Config}
use dwh_v.Fincloud.Lane.{
  Lane, Waiter, Flow, again, stop, onward, grant_round, grant_loop, grant_locked, grant_idle, share,
  onward_share, Epoch,
}

module _ {ℓ} (P : Lane → Type ℓ) (c : Config)
    (keeps : (l : Lane) (w : Waiter) (ws : List Waiter)
      → l.waiters ≡ w ∷ ws
      → P l
      → P (grant_round c l w ws).0) where
  grant_loop_rule :
      (fuel : ℕ) (ws : List Waiter) (l : Lane) → l.waiters ≡ ws → P l → P (grant_loop c fuel ws l)
  unfolding grant_loop
  grant_loop_rule zero ws l e p = p
  grant_loop_rule (suc fuel) [] l e p = p
  grant_loop_rule (suc fuel) (w ∷ ws) l e p =
      let (l', flow) = grant_round c l w ws in
      next l' flow (keeps l w ws e p) (grant_loop_rule fuel l'.waiters l' refl)
    where
      next :
          (l' : Lane) (flow : Flow)
          → P l'
          → (P l' → P (grant_loop c fuel l'.waiters l'))
          → P (elim flow [ again ↦ grant_loop c fuel l'.waiters l' | _ ↦ l' ])
      next l' again p' rest = rest p'
      next l' stop p' rest = p'
      next l' onward p' rest = p'

  pub grant_locked_rule : (l : Lane) → P l → P (grant_locked c l)
  unfolding grant_locked
  grant_locked_rule l p = grant_loop_rule (length l.waiters) l.waiters l refl p

share-closed : (l : Lane) (o : Option Epoch) (ws : List Waiter) → (share l o ws).0.closed ≡ l.closed
unfolding share
share-closed l o [] = refl
share-closed l none (w ∷ ws) = refl
share-closed l (some e) (w ∷ ws) = ground arith

onward_share-closed : (r : Lane × Flow) → (onward_share r).0.closed ≡ r.0.closed
onward_share-closed (l, onward) = share-closed l l.current l.waiters
onward_share-closed (l, again) = refl
onward_share-closed (l, stop) = refl

grant_idle-closed :
    (c : Config) (l : Lane) (w : Waiter) (ws : List Waiter)
    → (grant_idle c l w ws).0.closed ≡ l.closed
unfolding grant_idle
grant_idle-closed c l w ws = ground arith

pub grant_round-closed :
    (c : Config) (l : Lane) (w : Waiter) (ws : List Waiter)
    → (grant_round c l w ws).0.closed ≡ l.closed
unfolding grant_round
grant_round-closed c l w ws = ground (
  arith,
  onward_share-closed (grant_idle c l w ws),
  grant_idle-closed c l w ws,
  share-closed l l.current (w ∷ ws),
)

pub grant_locked-closed : (c : Config) (l : Lane) → (grant_locked c l).closed ≡ l.closed
grant_locked-closed c l =
    grant_locked_rule (λ m. m.closed ≡ l.closed) c (λ m w ws _ e. grant_round-closed c m w ws ∙ e) l
      refl
