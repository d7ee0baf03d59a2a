-- ===== src/Fincloud/Lane/Order.antt =====
-- The queue is served in the order of arrival.
use dwh_v.Common.{
  ℕ, ◌≡◌, ◌-◌, refl, Bool, true, false, Option, none, some, List, [], ◌∷◌, ◌++◌, map, map-append,
  append_assoc, append-nil, arith, Option-cases, if_rule, inl, inr, ◌==◌, not, ◌||◌, Bool-cases,
  keep, sym, ◌∙◌, ap,
}
use dwh_v.Fincloud.Auth.{Config, client_accepted, same_session_context}
use dwh_v.Fincloud.Lane.Rules.{grant_locked_rule, grant_locked-closed}
use dwh_v.Fincloud.Lane.{
  Epoch, Waiter, Lease, Lane, Flow, again, stop, onward, Grant, Call, acquires, gives_up, releases,
  invalidates, closes, empty, grant_idle, share, grant_round, grant_locked, acquire, vacate,
  remove_lease, release_once, cancel, give_up, remove_waiter, invalidate, close, step, run,
  reusable, onward_share,
}

abbrev pub answered : Lane → List Waiter
answered l = map (λ (s : Waiter × Grant). s.0) l.sent

-- Everyone who has come: first those who have an answer, then the queue.
abbrev pub arrived : Lane → List Waiter
arrived l = answered l ++ l.waiters

sent_one :
    (sent : List (Waiter × Grant)) (w : Waiter) (ws : List Waiter) (g : Grant)
    → map (λ (s : Waiter × Grant). s.0) (sent ++ (w, g) ∷ []) ++ ws
      ≡ map (λ (s : Waiter × Grant). s.0) sent ++ w ∷ ws
sent_one sent w ws g = simp (map-append, append_assoc)

share-arrived :
    (l : Lane) (current : Option Epoch) (ws : List Waiter)
    → l.waiters ≡ ws
    → arrived (share l current ws).0 ≡ arrived l
unfolding share
share-arrived l none [] e = refl
share-arrived l (some x) [] e = refl
share-arrived l none (w ∷ ws) e = refl
share-arrived l (some x) (w ∷ ws) e =
    if_rule (λ (r : Lane × Flow). arrived r.0 ≡ arrived l)
      (x.exclusive || (w.exclusive || not (same_session_context x.auth w.auth))) (λ _. refl)
      (λ _. sent_one l.sent w ws _ ∙ ap (λ q. answered l ++ q) (sym e))

grant_idle-arrived :
    (c : Config) (l : Lane) (w : Waiter) (ws : List Waiter)
    → l.waiters ≡ w ∷ ws
    → arrived (grant_idle c l w ws).0 ≡ arrived l
unfolding grant_idle
grant_idle-arrived c l w ws e = elim (Option-cases (reusable l.current w)) [
  | inr (client, r) ↦ rw (r, grant_idle) (one _)
  | inl r ↦
      rw (r, grant_idle)
        (if_rule (λ (r : Lane × Flow). arrived r.0 ≡ arrived l) (client_accepted c w.auth)
          (λ _. one _) (λ _. one _))
]
  where
    one : (g : Grant) → map (λ (s : Waiter × Grant). s.0) (l.sent ++ (w, g) ∷ []) ++ ws ≡ arrived l
    one g = sent_one l.sent w ws g ∙ ap (λ q. answered l ++ q) (sym e)

onward_share-arrived : (r : Lane × Flow) → arrived (onward_share r).0 ≡ arrived r.0
onward_share-arrived (l, onward) = share-arrived l l.current l.waiters refl
onward_share-arrived (l, again) = refl
onward_share-arrived (l, stop) = refl

grant_round-arrived :
    (c : Config) (l : Lane) (w : Waiter) (ws : List Waiter)
    → l.waiters ≡ w ∷ ws
    → arrived (grant_round c l w ws).0 ≡ arrived l
unfolding grant_round
grant_round-arrived c l w ws e =
    if_rule (λ (r : Lane × Flow). arrived r.0 ≡ arrived l) l.closed
      (λ _. sent_one l.sent w ws _ ∙ ap (λ q. answered l ++ q) (sym e))
      (λ _.
        if_rule (λ (r : Lane × Flow). arrived r.0 ≡ arrived l) (l.active == 0)
          (λ _. onward_share-arrived (grant_idle c l w ws) ∙ grant_idle-arrived c l w ws e)
          (λ _. share-arrived l l.current (w ∷ ws) e))

grant_locked-arrived : (c : Config) (l : Lane) → arrived (grant_locked c l) ≡ arrived l
grant_locked-arrived c l =
    grant_locked_rule (λ m. arrived m ≡ arrived l) c
      (λ m w ws e p. grant_round-arrived c m w ws e ∙ p) l refl

-- Who comes in a history: the callers of `acquire` before the lane is closed.
abbrev pub comers : List Call → List Waiter
comers [] = []
comers (acquires w ∷ xs) = w ∷ comers xs
comers (closes ∷ xs) = []
comers (_ ∷ xs) = comers xs

-- Whether a caller's context ends in a history.
abbrev pub leaves : ℕ → List Call → Bool
leaves id [] = false
leaves id (gives_up other ∷ xs) = id == other || leaves id xs
leaves id (acquires w ∷ xs) = leaves id xs
leaves id (releases other ∷ xs) = leaves id xs
leaves id (invalidates client ∷ xs) = leaves id xs
leaves id (closes ∷ xs) = leaves id xs

abbrev pub stays : List Call → Waiter → Bool
stays xs w = not (leaves w.id xs)

-- The call `f` answers and queues nobody new, and leaves the lane as open as it was.
abbrev Kept : Lane → Lane → Type 0
Kept l m = (arrived m ≡ arrived l) × (m.closed ≡ l.closed)

grant_locked-Kept : (c : Config) (l m : Lane) → Kept l m → Kept l (grant_locked c m)
grant_locked-Kept c l m k = (grant_locked-arrived c m ∙ k.0, grant_locked-closed c m ∙ k.1)

vacate-Kept : (l : Lane) (held : List Lease) → Kept l (vacate (record l { held = held }))
unfolding vacate
vacate-Kept l held = if_rule (Kept l) (l.active - 1 == 0) (λ _. (refl, refl)) (λ _. (refl, refl))

release_once-Kept : (c : Config) (id : ℕ) (l : Lane) → Kept l (release_once c id l)
unfolding release_once
release_once-Kept c id l = elim (Option-cases (remove_lease id l.held)) [
  | inl r ↦ rw (r, release_once) (refl, refl)
  | inr (held, r) ↦ rw (r, release_once) (grant_locked-Kept c l _ (vacate-Kept l held))
]

invalidate-Kept : (client : ℕ) (l : Lane) → Kept l (invalidate client l)
unfolding invalidate
invalidate-Kept client l = ground arith

close-kept :
    (c : Config) (l : Lane) → (arrived (close c l) ≡ arrived l) × ((close c l).closed ≡ true)
unfolding close
close-kept c l =
    if_rule (λ m. (arrived m ≡ arrived l) × (m.closed ≡ true))
      ((grant_locked c (record l { closed = true })).active == 0) (λ _. shuts_queue)
      (λ _. shuts_queue)
  where
    shuts_queue :
        (arrived (grant_locked c (record l { closed = true })) ≡ arrived l)
        × ((grant_locked c (record l { closed = true })).closed ≡ true)
    shuts_queue = (
      grant_locked-arrived c (record l { closed = true }),
      grant_locked-closed c (record l { closed = true }),
    )

abbrev queued : Lane → Waiter → Lane
queued l w = record l { waiters = l.waiters ++ w ∷ [] }

acquire-open :
    (c : Config) (w : Waiter) (l : Lane)
    → l.closed ≡ false
    → (arrived (acquire c w l).0 ≡ arrived l ++ w ∷ []) × ((acquire c w l).0.closed ≡ false)
unfolding acquire
acquire-open c w l e =
    if_rule (λ (r : Lane × Bool). (arrived r.0 ≡ arrived l ++ w ∷ []) × (r.0.closed ≡ false))
      l.closed (λ t. cc (t, e))
      (λ _. (
        grant_locked-arrived c (queued l w) ∙ sym (append_assoc (answered l) l.waiters (w ∷ [])),
        grant_locked-closed c (queued l w) ∙ e,
      ))

acquire-closed : (c : Config) (w : Waiter) (l : Lane) → l.closed ≡ true → (acquire c w l).0 ≡ l
unfolding acquire
acquire-closed c w l e =
    if_rule (λ (r : Lane × Bool). r.0 ≡ l) l.closed (λ _. refl) (λ f. cc (f, e))

keep-append : (p : Waiter → Bool) (xs ys : List Waiter) → keep p (xs ++ ys) ≡ keep p xs ++ keep p ys
keep-append p [] ys = refl
keep-append p (x ∷ xs) ys =
    let rest = keep-append p xs ys in
    elim (Bool-cases (p x)) [ inl t ↦ rw t (ap (λ q. x ∷ q) rest) | inr t ↦ rw t rest ]

removed_behind :
    (id : ℕ) (w : Waiter) (ws us : List Waiter)
    → w.id == id ≡ false
    → remove_waiter id (w ∷ ws) ≡ some us
    → (vs : List Waiter) × (remove_waiter id ws ≡ some vs) × (w ∷ vs ≡ us)
removed_behind id w ws us miss e = elim (Option-cases (remove_waiter id ws)) [
  | inl r ↦ absurd (ground (arith, e, miss, r))
  | inr (vs, r) ↦ (vs, r, ground (arith, e, miss, r))
]

keep-remove_waiter :
    (p : Waiter → Bool) (id : ℕ) (ws us : List Waiter)
    → ((w : Waiter) → w.id == id ≡ true → p w ≡ false)
    → remove_waiter id ws ≡ some us
    → keep p us ≡ keep p ws
keep-remove_waiter p id [] us f e = cc e
keep-remove_waiter p id (w ∷ ws) us f e = elim (Bool-cases (w.id == id)) [
  | inl hit ↦
      let out = f w hit in
      let same : ws ≡ us = ground (arith, e, hit) in rw out (ap (keep p) (sym same))
  | inr miss ↦
      let (vs, h, same) = removed_behind id w ws us miss e in
      let rest = keep-remove_waiter p id ws vs f h in
      ap (keep p) (sym same)
      ∙ elim (Bool-cases (p w)) [ inl t ↦ rw t (ap (λ q. w ∷ q) rest) | inr t ↦ rw t rest ]
]

module _ (p : Waiter → Bool) (c : Config) where
  -- Everyone who stays and has come.
  stayers : Lane → List Waiter
  stayers l = keep p (arrived l)

  cancel-stayers :
      (id : ℕ) (l : Lane)
      → ((w : Waiter) → w.id == id ≡ true → p w ≡ false)
      → (stayers (cancel c id l).0 ≡ stayers l) × ((cancel c id l).0.closed ≡ l.closed)
  unfolding stayers cancel
  cancel-stayers id l f = elim (Option-cases (remove_waiter id l.waiters)) [
    | inl r ↦ rw (r, cancel) (refl, refl)
    | inr (ws, r) ↦
        rw (r, cancel)
          (
            ap (keep p) (grant_locked-arrived c (record l { waiters = ws }))
                ∙ keep-append p (answered l) ws
                ∙ ap (λ q. keep p (answered l) ++ q) (keep-remove_waiter p id l.waiters ws f r)
                ∙ sym (keep-append p (answered l) l.waiters),
            grant_locked-closed c (record l { waiters = ws }),
          )
  ]

  give_up-stayers :
      (id : ℕ) (l : Lane)
      → ((w : Waiter) → w.id == id ≡ true → p w ≡ false)
      → (stayers (give_up c id l) ≡ stayers l) × ((give_up c id l).closed ≡ l.closed)
  unfolding stayers give_up
  give_up-stayers id l f =
      let one = cancel-stayers id l f in
      if_rule (λ (m : Lane). (keep p (arrived m) ≡ keep p (arrived l)) × (m.closed ≡ l.closed))
        (cancel c id l).1 (λ _. one)
        (λ _.
          let k = release_once-Kept c id (cancel c id l).0 in
          (ap (keep p) k.0 ∙ one.0, k.1 ∙ one.1))

  -- Those who give up do not stay.
  abbrev Honest : List Call → Type 0
  Honest [] = Unit
  Honest (gives_up id ∷ xs) = ((w : Waiter) → w.id == id ≡ true → p w ≡ false) × Honest xs
  Honest (acquires w ∷ xs) = Honest xs
  Honest (releases id ∷ xs) = Honest xs
  Honest (invalidates client ∷ xs) = Honest xs
  Honest (closes ∷ xs) = Honest xs

  run-closed :
      (l : Lane) (xs : List Call) → l.closed ≡ true → Honest xs → stayers (run c l xs) ≡ stayers l
  unfolding run step stayers
  run-closed l [] e h = refl
  run-closed l (acquires w ∷ xs) e h =
      let q = acquire-closed c w l e in
      run-closed (acquire c w l).0 xs (ap (λ m. m.closed) q ∙ e) h ∙ ap (λ m. keep p (arrived m)) q
  run-closed l (gives_up id ∷ xs) e h =
      let k = give_up-stayers id l h.0 in run-closed (give_up c id l) xs (k.1 ∙ e) h.1 ∙ k.0
  run-closed l (releases id ∷ xs) e h =
      let k = release_once-Kept c id l in
      run-closed (release_once c id l) xs (k.1 ∙ e) h ∙ ap (keep p) k.0
  run-closed l (invalidates client ∷ xs) e h =
      let k = invalidate-Kept client l in
      run-closed (invalidate client l) xs (k.1 ∙ e) h ∙ ap (keep p) k.0
  run-closed l (closes ∷ xs) e h =
      let k = close-kept c l in run-closed (close c l) xs k.1 h ∙ ap (keep p) k.0

  run-opened :
      (l : Lane) (xs : List Call)
      → l.closed ≡ false
      → Honest xs
      → stayers (run c l xs) ≡ stayers l ++ keep p (comers xs)
  unfolding run step stayers
  run-opened l [] e h = sym (append-nil _)
  run-opened l (acquires w ∷ xs) e h =
      let k = acquire-open c w l e in
      run-opened (acquire c w l).0 xs k.1 h
      ∙ ap (λ q. keep p q ++ keep p (comers xs)) k.0
      ∙ ap (λ q. q ++ keep p (comers xs)) (keep-append p (arrived l) (w ∷ []))
      ∙ append_assoc (keep p (arrived l)) (keep p (w ∷ [])) (keep p (comers xs))
      ∙ ap (λ q. keep p (arrived l) ++ q) (sym (keep-append p (w ∷ []) (comers xs)))
  run-opened l (gives_up id ∷ xs) e h =
      let k = give_up-stayers id l h.0 in
      run-opened (give_up c id l) xs (k.1 ∙ e) h.1 ∙ ap (λ q. q ++ keep p (comers xs)) k.0
  run-opened l (releases id ∷ xs) e h =
      let k = release_once-Kept c id l in
      run-opened (release_once c id l) xs (k.1 ∙ e) h ∙ ap (λ q. keep p q ++ keep p (comers xs)) k.0
  run-opened l (invalidates client ∷ xs) e h =
      let k = invalidate-Kept client l in
      run-opened (invalidate client l) xs (k.1 ∙ e) h ∙ ap (λ q. keep p q ++ keep p (comers xs)) k.0
  run-opened l (closes ∷ xs) e h =
      let k = close-kept c l in
      run-closed (close c l) xs k.1 h ∙ ap (keep p) k.0 ∙ sym (append-nil _)

-- A history is honest about those that it lets give up.
stays-Honest :
    (p : Waiter → Bool) (c : Config) (xs : List Call)
    → ((w : Waiter) → leaves w.id xs ≡ true → p w ≡ false)
    → Honest p c xs
stays-Honest p c [] f = tt
stays-Honest p c (gives_up id ∷ xs) f =
    (λ w e. f w (rw e refl), stays-Honest p c xs (λ w e. f w (ground (arith, e))))
stays-Honest p c (acquires w ∷ xs) f = stays-Honest p c xs f
stays-Honest p c (releases id ∷ xs) f = stays-Honest p c xs f
stays-Honest p c (invalidates client ∷ xs) f = stays-Honest p c xs f
stays-Honest p c (closes ∷ xs) f = stays-Honest p c xs f

-- In every history of a new lane, look at the callers that never give up in it. Those that have been answered so far, in the
-- order of the answers, followed by those in the queue, are all that called `acquire` before the lane was closed,
-- in the order of their calls: whoever else gives up, none of them is lost, overtaken or answered twice.
pub answers_in_order :
    (c : Config) (xs : List Call)
    → keep (stays xs) (answered (run c empty xs) ++ (run c empty xs).waiters)
      ≡ keep (stays xs) (comers xs)
unfolding empty stayers
answers_in_order c xs =
    run-opened (stays xs) c empty xs refl (stays-Honest (stays xs) c xs (λ w e. rw e refl))
