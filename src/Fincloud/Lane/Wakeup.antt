-- ===== src/Fincloud/Lane/Wakeup.antt =====
-- No call leaves a waiter in the queue that could be served.
use dwh_v.Common.{
  ℕ, zero, suc, ◌≤◌, ◌<◌, ◌≡◌, refl, Bool, true, false, Option, none, some, List, [], ◌∷◌, length,
  arith, Option-cases, if_rule, inl, inr, ◌==◌, not, ◌||◌, subst, sym,
}
use dwh_v.Fincloud.Auth.{Config, client_accepted, same_session_context}
use dwh_v.Fincloud.Lane.Rules.{grant_locked-closed}
use dwh_v.Fincloud.Lane.{
  Epoch, Waiter, Lane, Flow, again, stop, onward, Call, acquires, gives_up, releases, invalidates,
  closes, empty, install, grant_idle, share, grant_round, grant_loop, grant_locked, acquire, cancel,
  remove_lease, remove_waiter, release_once, give_up, invalidate, close, step, run, reusable,
  onward_share, fresh_client, idle_current,
}

-- The head of the queue needs another session than the current one, or one of its own.
abbrev pub Waits : Option Epoch → Waiter → Type 0
Waits none w = Unit {0}
Waits (some e) w = (e.exclusive || (w.exclusive || not (same_session_context e.auth w.auth))) ≡ true

abbrev pub Blocked : Lane → List Waiter → Type 0
Blocked l [] = Unit {0}
Blocked l (w ∷ ws) = (l.closed ≡ false) × (0 < l.active) × Waits l.current w

abbrev pub IsSettled : Lane → Type 0
IsSettled l = Blocked l l.waiters

-- What one round leaves behind, from a queue of `suc n`.
abbrev Round : ℕ → Lane × Flow → Type 0
Round n (l, again) = length l.waiters ≤ n
Round n (l, stop) = IsSettled l
Round n (l, onward) = (l.closed ≡ false) × (0 < l.active) × (length l.waiters ≤ n)

abbrev Done : ℕ → Lane × Flow → Type 0
Done n (l, again) = length l.waiters ≤ n
Done n (l, stop) = IsSettled l
Done n (l, onward) = ⊥

share-Done :
    (n : ℕ) (l : Lane) (current : Option Epoch) (ws : List Waiter)
    → l.current ≡ current
    → l.waiters ≡ ws
    → l.closed ≡ false
    → 0 < l.active
    → length ws ≤ suc n
    → Done n (share l current ws)
unfolding share
share-Done n l none [] q e open' busy b = subst (Blocked l) (sym e) tt
share-Done n l (some x) [] q e open' busy b = subst (Blocked l) (sym e) tt
share-Done n l none (w ∷ ws) q e open' busy b =
    subst (Blocked l) (sym e) (open', busy, subst (λ o. Waits o w) (sym q) tt)
share-Done n l (some x) (w ∷ ws) q e open' busy b =
    if_rule (Done n) (x.exclusive || (w.exclusive || not (same_session_context x.auth w.auth)))
      (λ t. subst (Blocked l) (sym e) (open', busy, subst (λ o. Waits o w) (sym q) t))
      (λ _. omega arith)

-- Behind an exclusive session everybody waits.
exclusive-Blocked :
    (l : Lane) (w : Waiter) (ws : List Waiter) (client : ℕ)
    → l.closed ≡ false
    → w.exclusive ≡ true
    → Blocked (install l w ws client).0 ws
exclusive-Blocked l w [] client open' x = tt
exclusive-Blocked l w (v ∷ vs) client open' x = (open', omega arith, rw x refl)

install-Round :
    (n : ℕ) (l : Lane) (w : Waiter) (ws : List Waiter) (client : ℕ)
    → l.closed ≡ false
    → length ws ≤ n
    → Round n (install l w ws client)
install-Round n l w ws client open' b =
    if_rule (λ f. Round n ((install l w ws client).0, f)) w.exclusive
      (λ x. exclusive-Blocked l w ws client open' x) (λ _. (open', omega arith, b))

grant_idle-Round :
    (c : Config) (n : ℕ) (l : Lane) (w : Waiter) (ws : List Waiter)
    → l.closed ≡ false
    → length ws ≤ n
    → Round n (grant_idle c l w ws)
unfolding grant_idle
grant_idle-Round c n l w ws open' b = elim (Option-cases (reusable l.current w)) [
  | inr (client, r) ↦ rw (r, grant_idle) (install-Round n l w ws client open' b)
  | inl r ↦
      rw (r, grant_idle)
        (if_rule (Round n) (client_accepted c w.auth)
          (λ _. install-Round n (fresh_client l) w ws l.next_client open' b) (λ _. b))
]

onward_share-Done : (n : ℕ) (r : Lane × Flow) → Round n r → Done n (onward_share r)
onward_share-Done n (l, onward) (open', busy, b) =
    share-Done n l l.current l.waiters refl refl open' busy (omega arith)
onward_share-Done n (l, again) b = b
onward_share-Done n (l, stop) s = s

grant_round-Done :
    (c : Config) (l : Lane) (w : Waiter) (ws : List Waiter)
    → l.waiters ≡ w ∷ ws
    → Done (length ws) (grant_round c l w ws)
unfolding grant_round
grant_round-Done c l w ws e =
    if_rule (Done (length ws)) l.closed (λ _. omega arith)
      (λ open'.
        if_rule (Done (length ws)) (l.active == 0)
          (λ _.
            onward_share-Done (length ws) (grant_idle c l w ws)
              (grant_idle-Round c (length ws) l w ws open' (omega arith)))
          (λ busy.
            share-Done (length ws) l l.current (w ∷ ws) refl e open' (ground arith) (omega arith)))

grant_loop-IsSettled :
    (c : Config) (fuel : ℕ) (ws : List Waiter) (l : Lane)
    → l.waiters ≡ ws
    → length ws ≤ fuel
    → IsSettled (grant_loop c fuel ws l)
unfolding grant_loop
grant_loop-IsSettled c zero [] l e h = subst (Blocked l) (sym e) tt
grant_loop-IsSettled c zero (w ∷ ws) l e h = absurd (omega arith)
grant_loop-IsSettled c (suc fuel) [] l e h = subst (Blocked l) (sym e) tt
grant_loop-IsSettled c (suc fuel) (w ∷ ws) l e h =
    let (l', flow) = grant_round c l w ws in
    next l' flow (grant_round-Done c l w ws e)
      (λ b. grant_loop-IsSettled c fuel l'.waiters l' refl b)
  where
    next :
        (l' : Lane) (flow : Flow)
        → Done (length ws) (l', flow)
        → (length l'.waiters ≤ fuel → IsSettled (grant_loop c fuel l'.waiters l'))
        → IsSettled (elim flow [ again ↦ grant_loop c fuel l'.waiters l' | _ ↦ l' ])
    next l' again d rest = rest (omega arith)
    next l' stop d rest = d
    next l' onward d rest = absurd d

pub grant_locked-IsSettled : (c : Config) (l : Lane) → IsSettled (grant_locked c l)
unfolding grant_locked
grant_locked-IsSettled c l =
    grant_loop-IsSettled c (length l.waiters) l.waiters l refl (omega arith)

vacated-IsSettled : (c : Config) (id : ℕ) (l : Lane) → IsSettled l → IsSettled (release_once c id l)
unfolding release_once
vacated-IsSettled c id l s = elim (Option-cases (remove_lease id l.held)) [
  | inl r ↦ rw (r, release_once) s
  | inr (held, r) ↦ rw (r, release_once) (grant_locked-IsSettled c _)
]

cancel-IsSettled : (c : Config) (id : ℕ) (l : Lane) → IsSettled l → IsSettled (cancel c id l).0
unfolding cancel
cancel-IsSettled c id l s = elim (Option-cases (remove_waiter id l.waiters)) [
  | inl r ↦ rw (r, cancel) s
  | inr (ws, r) ↦ rw (r, cancel) (grant_locked-IsSettled c _)
]

invalidated_queue :
    (l m : Lane) (ws : List Waiter)
    → m.closed ≡ l.closed
    → m.active ≡ l.active
    → m.current ≡ none
    → Blocked l ws
    → Blocked m ws
invalidated_queue l m [] e f g b = tt
invalidated_queue l m (w ∷ ws) e f g b =
    (cc (e, b.0), omega (arith, f, b.1), subst (λ o. Waits o w) (sym g) tt)

invalidate-IsSettled : (client : ℕ) (l : Lane) → IsSettled l → IsSettled (invalidate client l)
unfolding invalidate
invalidate-IsSettled client l s = elim (Option-cases l.current) [
  | inl r ↦ rw (r, invalidate) s
  | inr (e, r) ↦
      rw (r, invalidate)
        (if_rule IsSettled (e.client == client)
          (λ _.
            invalidated_queue l (record l { current = none; idled = client ∷ l.idled }) l.waiters
              refl refl refl s)
          (λ _. s))
]

-- Nobody is left in the queue of a closed lane.
pub closed_queue : (l : Lane) (ws : List Waiter) → l.closed ≡ true → Blocked l ws → ws ≡ []
closed_queue l [] e b = refl
closed_queue l (w ∷ ws) e b = cc (e, b.0)

give_up-IsSettled : (c : Config) (id : ℕ) (l : Lane) → IsSettled l → IsSettled (give_up c id l)
unfolding give_up
give_up-IsSettled c id l s =
    if_rule IsSettled (cancel c id l).1 (λ _. cancel-IsSettled c id l s)
      (λ _. vacated-IsSettled c id (cancel c id l).0 (cancel-IsSettled c id l s))

acquire-IsSettled : (c : Config) (w : Waiter) (l : Lane) → IsSettled l → IsSettled (acquire c w l).0
unfolding acquire
acquire-IsSettled c w l s =
    if_rule (λ (r : Lane × Bool). IsSettled r.0) l.closed (λ _. s) (λ _. grant_locked-IsSettled c _)

close-IsSettled : (c : Config) (l : Lane) → IsSettled (close c l)
unfolding close
close-IsSettled c l =
    if_rule IsSettled (l'.active == 0)
      (λ _.
        subst (Blocked (record l' { current = none; idled = idle_current l'.current l'.idled }))
          (sym (closed_queue l' l'.waiters (grant_locked-closed c _) s)) tt)
      (λ _. s)
  where
    l' : Lane
    l' = grant_locked c (record l { closed = true })

    s : IsSettled l'
    s = grant_locked-IsSettled c (record l { closed = true })

pub step-IsSettled : (c : Config) (l : Lane) (x : Call) → IsSettled l → IsSettled (step c l x)
unfolding step
step-IsSettled c l (acquires w) s = acquire-IsSettled c w l s
step-IsSettled c l (gives_up id) s = give_up-IsSettled c id l s
step-IsSettled c l (releases id) s = vacated-IsSettled c id l s
step-IsSettled c l (invalidates client) s = invalidate-IsSettled client l s
step-IsSettled c l closes s = close-IsSettled c l

pub run-IsSettled : (c : Config) (l : Lane) (xs : List Call) → IsSettled l → IsSettled (run c l xs)
unfolding run
run-IsSettled c l [] s = s
run-IsSettled c l (x ∷ xs) s = run-IsSettled c (step c l x) xs (step-IsSettled c l x s)

-- After any calls on a new lane, if a waiter is at the head of the queue, then the lane is open,
-- some lease is held, and there is no current session or it is one that this waiter may not join.
pub head_must_wait :
    (c : Config) (xs : List Call) (w : Waiter) (ws : List Waiter)
    → (run c empty xs).waiters ≡ w ∷ ws
    → ((run c empty xs).closed ≡ false)
      × (0 < (run c empty xs).active)
      × Waits (run c empty xs).current w
unfolding empty
head_must_wait c xs w ws e = subst (Blocked (run c empty xs)) e (run-IsSettled c empty xs tt)
