-- ===== src/Fincloud/Lane/Closing.antt =====
-- A closed lane answers everyone at once and gives its client up with the last lease.
use dwh_v.Common.{
  ℕ, zero, suc, ◌-◌, ◌≤◌, ◌≡◌, refl, Bool, true, Option, none, some, List, [], ◌∷◌, length, ◌++◌,
  map, append_assoc, append-nil, arith, Option-cases, if_rule, inl, inr, ◌==◌, sym, ◌∙◌, ap,
}
use dwh_v.Fincloud.Auth.{Config}
use dwh_v.Fincloud.Lane.Rules.{grant_locked_rule, grant_locked-closed, grant_round-closed}
use dwh_v.Fincloud.Lane.Step.{run-Inv, empty-Inv}
use dwh_v.Fincloud.Lane.Wakeup.{run-IsSettled, closed_queue}
use dwh_v.Fincloud.Lane.{
  Waiter, Lane, Flow, Grant, refused, coordinator_closed, Call, acquires, gives_up, releases,
  invalidates, closes, empty, grant_round, grant_loop, again, grant_locked, acquire, cancel, vacate,
  remove_lease, remove_waiter, release_once, give_up, invalidate, close, step, run, send, unshare,
  Epoch,
}

abbrev shut_out : List Waiter → List (Waiter × Grant)
shut_out = map λ w. (w, refused coordinator_closed)

grant_round-shut :
    (c : Config) (l : Lane) (w : Waiter) (ws : List Waiter)
    → l.closed ≡ true
    → grant_round c l w ws ≡ (send l w ws (refused coordinator_closed), again)
unfolding grant_round
grant_round-shut c l w ws e =
    if_rule (λ (r : Lane × Flow). r ≡ (send l w ws (refused coordinator_closed), again)) l.closed
      (λ _. refl) (λ f. cc (e, f))

grant_loop-shut :
    (c : Config) (fuel : ℕ) (ws : List Waiter) (l : Lane)
    → l.closed ≡ true
    → l.waiters ≡ ws
    → length ws ≤ fuel
    → grant_loop c fuel ws l ≡ record l { waiters = []; sent = l.sent ++ shut_out ws }
unfolding grant_loop
grant_loop-shut c zero (w ∷ ws) l e q h = absurd (omega arith)
grant_loop-shut c zero [] l e q h =
    λ i. record l { waiters = q i; sent = sym (append-nil l.sent) i }
grant_loop-shut c (suc fuel) [] l e q h =
    λ i. record l { waiters = q i; sent = sym (append-nil l.sent) i }
grant_loop-shut c (suc fuel) (w ∷ ws) l e q h =
    ap (λ (r : Lane × Flow). elim r.1 [ again ↦ grant_loop c fuel r.0.waiters r.0 | _ ↦ r.0 ])
      (grant_round-shut c l w ws e)
    ∙ grant_loop-shut c fuel ws (send l w ws (refused coordinator_closed)) e refl (omega arith)
    ∙ λ i. record l {
      waiters = [];
      sent = append_assoc l.sent ((w, refused coordinator_closed) ∷ []) (shut_out ws) i;
    }

abbrev IsDrained : Lane → Type 0
IsDrained l = l.closed ≡ true → l.active ≡ 0 → l.current ≡ none

grant_locked-IsDrained : (c : Config) (l : Lane) → IsDrained l → IsDrained (grant_locked c l)
grant_locked-IsDrained c l d =
    grant_locked_rule IsDrained c
      (λ m w ws _ p e.
        let e' : m.closed ≡ true = sym (grant_round-closed c m w ws) ∙ e in
        rw (grant_round-shut c m w ws e') (p e'))
      l d

vacate-IsDrained : (l : Lane) → IsDrained l → IsDrained (vacate l)
unfolding vacate
vacate-IsDrained l d =
    if_rule IsDrained (l.active - 1 == 0) (λ _ e _. gone l.current l.closed e)
      (λ busy _ a. absurd (ground arith))
  where
    gone : (o : Option Epoch) (b : Bool) → b ≡ true → unshare b o ≡ none
    gone none b e = refl
    gone (some x) b e = rw e refl

release_once-IsDrained :
    (c : Config) (id : ℕ) (l : Lane) → IsDrained l → IsDrained (release_once c id l)
unfolding release_once
release_once-IsDrained c id l d = elim (Option-cases (remove_lease id l.held)) [
  | inl r ↦ rw (r, release_once) d
  | inr (held, r) ↦
      rw (r, release_once)
        (grant_locked-IsDrained c (vacate (record l { held = held }))
          (vacate-IsDrained (record l { held = held }) d))
]

cancel-IsDrained : (c : Config) (id : ℕ) (l : Lane) → IsDrained l → IsDrained (cancel c id l).0
unfolding cancel
cancel-IsDrained c id l d = elim (Option-cases (remove_waiter id l.waiters)) [
  | inl r ↦ rw (r, cancel) d
  | inr (ws, r) ↦ rw (r, cancel) (grant_locked-IsDrained c (record l { waiters = ws }) d)
]

give_up-IsDrained : (c : Config) (id : ℕ) (l : Lane) → IsDrained l → IsDrained (give_up c id l)
unfolding give_up
give_up-IsDrained c id l d =
    if_rule IsDrained (cancel c id l).1 (λ _. cancel-IsDrained c id l d)
      (λ _. release_once-IsDrained c id (cancel c id l).0 (cancel-IsDrained c id l d))

acquire-IsDrained : (c : Config) (w : Waiter) (l : Lane) → IsDrained l → IsDrained (acquire c w l).0
unfolding acquire
acquire-IsDrained c w l d =
    if_rule (λ (r : Lane × Bool). IsDrained r.0) l.closed (λ _. d)
      (λ _. grant_locked-IsDrained c (record l { waiters = l.waiters ++ w ∷ [] }) d)

invalidate-IsDrained : (client : ℕ) (l : Lane) → IsDrained l → IsDrained (invalidate client l)
unfolding invalidate
invalidate-IsDrained client l d = elim (Option-cases l.current) [
  | inl r ↦ rw (r, invalidate) d
  | inr (e, r) ↦
      rw (r, invalidate) (if_rule IsDrained (e.client == client) (λ _ _ _. refl) (λ _. d))
]

close-IsDrained : (c : Config) (l : Lane) → IsDrained (close c l)
unfolding close
close-IsDrained c l =
    if_rule IsDrained ((grant_locked c (record l { closed = true })).active == 0) (λ _ _ _. refl)
      (λ busy _ a. absurd (ground arith))

run-IsDrained : (c : Config) (l : Lane) (xs : List Call) → IsDrained l → IsDrained (run c l xs)
unfolding run step
run-IsDrained c l [] d = d
run-IsDrained c l (acquires w ∷ xs) d =
    run-IsDrained c (acquire c w l).0 xs (acquire-IsDrained c w l d)
run-IsDrained c l (gives_up id ∷ xs) d =
    run-IsDrained c (give_up c id l) xs (give_up-IsDrained c id l d)
run-IsDrained c l (releases id ∷ xs) d =
    run-IsDrained c (release_once c id l) xs (release_once-IsDrained c id l d)
run-IsDrained c l (invalidates client ∷ xs) d =
    run-IsDrained c (invalidate client l) xs (invalidate-IsDrained client l d)
run-IsDrained c l (closes ∷ xs) d = run-IsDrained c (close c l) xs (close-IsDrained c l)

-- Closing a lane empties its queue and sends the whole queue, in order, the error that the coordinator is closed;
-- leases that are held stay held, and with none held the lane keeps no client.
pub close_refuses_queue :
    (c : Config) (l : Lane)
    → ((close c l).waiters ≡ [])
      × ((close c l).sent ≡ l.sent ++ map (λ w. (w, refused coordinator_closed)) l.waiters)
      × ((close c l).held ≡ l.held)
      × (l.active ≡ 0 → (close c l).current ≡ none)
unfolding close grant_locked
close_refuses_queue c l =
    rw
      (grant_loop-shut c (length l.waiters) l.waiters (record l { closed = true }) refl refl
        (omega arith))
      (ground arith)

IsClosed : Lane → Type 0
IsClosed l = l.closed ≡ true

release_once-IsClosed :
    (c : Config) (id : ℕ) (l : Lane) → IsClosed l → IsClosed (release_once c id l)
unfolding IsClosed release_once vacate
release_once-IsClosed c id l e = elim (Option-cases (remove_lease id l.held)) [
  | inl r ↦ rw (r, release_once) e
  | inr (held, r) ↦
      rw (r, release_once)
        (grant_locked-closed c (vacate (record l { held = held }))
          ∙ if_rule (λ (m : Lane). m.closed ≡ true) (l.active - 1 == 0) (λ _. e) (λ _. e))
]

cancel-IsClosed : (c : Config) (id : ℕ) (l : Lane) → IsClosed l → IsClosed (cancel c id l).0
unfolding IsClosed cancel
cancel-IsClosed c id l e = elim (Option-cases (remove_waiter id l.waiters)) [
  | inl r ↦ rw (r, cancel) e
  | inr (ws, r) ↦ rw (r, cancel) (grant_locked-closed c (record l { waiters = ws }) ∙ e)
]

close-IsClosed : (c : Config) (l : Lane) → IsClosed (close c l)
unfolding IsClosed close
close-IsClosed c l =
    if_rule (λ (m : Lane). m.closed ≡ true)
      ((grant_locked c (record l { closed = true })).active == 0)
      (λ _. grant_locked-closed c (record l { closed = true }))
      (λ _. grant_locked-closed c (record l { closed = true }))

step-IsClosed : (c : Config) (l : Lane) (x : Call) → IsClosed l → IsClosed (step c l x)
unfolding IsClosed step acquire give_up invalidate
step-IsClosed c l (acquires w) e =
    if_rule (λ (r : Lane × Bool). r.0.closed ≡ true) l.closed (λ _. e)
      (λ _. grant_locked-closed c (record l { waiters = l.waiters ++ w ∷ [] }) ∙ e)
step-IsClosed c l (gives_up id) e =
    if_rule (λ (m : Lane). m.closed ≡ true) (cancel c id l).1 (λ _. cancel-IsClosed c id l e)
      (λ _. release_once-IsClosed c id (cancel c id l).0 (cancel-IsClosed c id l e))
step-IsClosed c l (releases id) e = release_once-IsClosed c id l e
step-IsClosed c l (invalidates client) e = elim (Option-cases l.current) [
  | inl r ↦ rw (r, invalidate) e
  | inr (x, r) ↦
      rw (r, invalidate)
        (if_rule (λ (m : Lane). m.closed ≡ true) (x.client == client) (λ _. e) (λ _. e))
]
step-IsClosed c l closes e = close-IsClosed c l

-- Once a close was among the calls, the lane stays closed.
run-IsClosed : (c : Config) (xs ys : List Call) (l : Lane) → IsClosed (run c l (xs ++ closes ∷ ys))
unfolding run step
run-IsClosed c [] ys l = stays ys (close c l) (close-IsClosed c l)
  where
    stays : (zs : List Call) (m : Lane) → IsClosed m → IsClosed (run c m zs)
    stays [] m e = e
    stays (z ∷ zs) m e = stays zs (step c m z) (step-IsClosed c m z e)
run-IsClosed c (x ∷ xs) ys l = run-IsClosed c xs ys (step c l x)

-- After any calls on a new lane among which there was a close, the lane is closed and nobody waits, and if every
-- lease has been released then the lane keeps no client.
pub closed_lane_drains :
    (c : Config) (xs ys : List Call)
    → ((run c empty (xs ++ closes ∷ ys)).closed ≡ true)
      × ((run c empty (xs ++ closes ∷ ys)).waiters ≡ [])
      × ((run c empty (xs ++ closes ∷ ys)).held ≡ []
          → (run c empty (xs ++ closes ∷ ys)).current ≡ none)
unfolding empty IsClosed
closed_lane_drains c xs ys = (
  e,
  closed_queue l l.waiters e (run-IsSettled c empty (xs ++ closes ∷ ys) tt),
  λ h.
      run-IsDrained c empty (xs ++ closes ∷ ys) (λ _ _. refl) e
        ((run-Inv c empty (xs ++ closes ∷ ys) empty-Inv).counted ∙ ap length h),
)
  where
    l : Lane
    l = run c empty (xs ++ closes ∷ ys)

    e : l.closed ≡ true
    e = run-IsClosed c xs ys empty
