-- ===== src/Fincloud/Lane/Step.antt =====
-- Every call keeps the invariant of `Invariant`.
use dwh_v.Common.{
  ℕ, ◌+◌, ◌-◌, ◌≡◌, refl, Bool, true, false, Option, none, some, List, [], ◌∷◌, length, All, arith,
  Option-cases, Bool-cases, All-remove_first, length-remove_first, subst, sym, if_rule, inl, inr,
  ◌==◌, not, ◌||◌,
}
use dwh_v.Fincloud.Auth.{
  Config, session_key, session_key_of_same, client_accepted, same_session_context,
}
use dwh_v.Fincloud.Lane.{
  Epoch, Waiter, Lease, Lane, Flow, again, stop, onward, Call, acquires, gives_up, releases,
  invalidates, closes, empty, install, grant_idle, share, grant_round, grant_locked, acquire,
  cancel, vacate, remove_lease, remove_waiter, unshare, release_once, give_up, invalidate, close,
  step, run, reusable, onward_share, send_lease, fresh_client,
}
use dwh_v.Fincloud.Lane.Rules.{grant_locked_rule}
use dwh_v.Fincloud.Lane.Invariant.{Fits, Session, Current, Inv}

nil_of_length {ℓ} : {A : Type ℓ} (xs : List A) → length xs ≡ 0 → xs ≡ []
nil_of_length [] h = refl
nil_of_length (x ∷ xs) h = absurd (omega arith)

-- With nobody holding a lease the head of the queue starts a session.
install-Inv :
    (l : Lane) (w : Waiter) (ws : List Waiter) (client : ℕ)
    → l.held ≡ []
    → Inv (install l w ws client).0
install-Inv l w ws client e = record {
  counted = rw e refl;
  session = record {
    client = client;
    key = session_key w.auth;
    exclusive = w.exclusive;
    uniform = rw e (record { same_client = refl; same_key = refl; same_mode = refl }, tt);
    alone = λ _. rw e (omega arith);
  };
  current = rw e (record { same_client = refl; same_key = refl; same_mode = refl }, tt);
}

grant_idle-Inv :
    (c : Config) (l : Lane) (w : Waiter) (ws : List Waiter)
    → l.held ≡ []
    → Inv l
    → Inv (grant_idle c l w ws).0
unfolding grant_idle
grant_idle-Inv c l w ws e v = elim (Option-cases (reusable l.current w)) [
  | inr (client, r) ↦ rw (r, grant_idle) (install-Inv l w ws client e)
  | inl r ↦
      rw (r, grant_idle)
        (elim (Bool-cases (client_accepted c w.auth)) [
          | inl ok ↦ rw ok (install-Inv (fresh_client l) w ws l.next_client e)
          | inr bad ↦
              rw bad (record { counted = v.counted; session = v.session; current = v.current })
        ])
]

-- A waiter of the same, shared session joins.
joined-Inv :
    (l : Lane) (e : Epoch) (w : Waiter) (ws : List Waiter)
    → l.current ≡ some e
    → (e.exclusive || (w.exclusive || not (same_session_context e.auth w.auth))) ≡ false
    → Inv l
    → Inv (record (send_lease l w ws e.client) { active = l.active + 1 })
joined-Inv l e w ws q free v = record {
  counted = omega (arith, v.counted);
  session = record {
    client = e.client;
    key = session_key e.auth;
    exclusive = e.exclusive;
    uniform = (fits, current);
    alone = λ x. cc (x, shared.0);
  };
  current = rw q (fits, current);
}
  where
    current : All (Fits e.client (session_key e.auth) e.exclusive) l.held
    current = subst (λ o. Current o l.held) q v.current

    shared :
        (e.exclusive ≡ false) × (w.exclusive ≡ false) × (same_session_context e.auth w.auth ≡ true)
    shared = ground arith

    fits : Fits e.client (session_key e.auth) e.exclusive (record { holder = w; client = e.client })
    fits = record {
      same_client = refl;
      same_key = sym (session_key_of_same e.auth w.auth shared.2);
      same_mode = cc (shared.0, shared.1);
    }

share-Inv :
    (l : Lane) (current : Option Epoch) (ws : List Waiter)
    → l.current ≡ current
    → Inv l
    → Inv (share l current ws).0
unfolding share
share-Inv l none [] q v = v
share-Inv l (some e) [] q v = v
share-Inv l none (w ∷ ws) q v = v
share-Inv l (some e) (w ∷ ws) q v =
    elim (Bool-cases (e.exclusive || (w.exclusive || not (same_session_context e.auth w.auth)))) [
      | inl busy ↦ rw busy v
      | inr free ↦ rw free (joined-Inv l e w ws q free v)
    ]

onward_share-Inv : (r : Lane × Flow) → Inv r.0 → Inv (onward_share r).0
onward_share-Inv (l, onward) v = share-Inv l l.current l.waiters refl v
onward_share-Inv (l, again) v = v
onward_share-Inv (l, stop) v = v

grant_round-Inv :
    (c : Config) (l : Lane) (w : Waiter) (ws : List Waiter) → Inv l → Inv (grant_round c l w ws).0
unfolding grant_round
grant_round-Inv c l w ws v =
    if_rule (λ (r : Lane × Flow). Inv r.0) l.closed
      (λ _. record { counted = v.counted; session = v.session; current = v.current })
      (λ _.
        if_rule (λ (r : Lane × Flow). Inv r.0) (l.active == 0)
          (λ idle.
            onward_share-Inv (grant_idle c l w ws)
              (grant_idle-Inv c l w ws (nil_of_length l.held (ground (arith, v.counted))) v))
          (λ _. share-Inv l l.current (w ∷ ws) refl v))

grant_locked-Inv : (c : Config) (l : Lane) → Inv l → Inv (grant_locked c l)
grant_locked-Inv c l v = grant_locked_rule Inv c (λ m w ws _. grant_round-Inv c m w ws) l v

Session-remove :
    (id : ℕ) {xs ys : List Lease} → remove_lease id xs ≡ some ys → Session xs → Session ys
Session-remove id {xs} e s = record {
  client = s.client;
  key = s.key;
  exclusive = s.exclusive;
  uniform = All-remove_first _ _ xs e s.uniform;
  alone = λ x. omega (arith, s.alone x, length-remove_first _ xs e);
}

Current-remove :
    (id : ℕ) (xs ys : List Lease) (current : Option Epoch)
    → remove_lease id xs ≡ some ys
    → Current current xs
    → Current current ys
Current-remove id xs ys none e h = tt
Current-remove id xs ys (some _) e h = All-remove_first _ _ xs e h

Current-nil : (current : Option Epoch) {xs : List Lease} → xs ≡ [] → Current current xs
Current-nil none e = tt
Current-nil (some x) e = subst (Current (some x)) (sym e) tt

-- A lease that ends leaves the others as they were; the last one to end leaves the session shared.
vacate-Inv :
    (l : Lane) (id : ℕ) (held : List Lease)
    → remove_lease id l.held ≡ some held
    → Inv l
    → Inv (vacate (record l { held = held }))
unfolding vacate
vacate-Inv l id held e v =
    if_rule Inv (l.active - 1 == 0)
      (λ last. record {
        counted = left;
        session = Session-remove id e v.session;
        current =
            Current-nil (unshare l.closed l.current) (nil_of_length held (ground (arith, left)));
      })
      (λ _. record {
        counted = left;
        session = Session-remove id e v.session;
        current = Current-remove id l.held held l.current e v.current;
      })
  where
    left : l.active - 1 ≡ length held
    left = omega (arith, v.counted, length-remove_first _ l.held e)

release_once-Inv : (c : Config) (id : ℕ) (l : Lane) → Inv l → Inv (release_once c id l)
unfolding release_once
release_once-Inv c id l v = elim (Option-cases (remove_lease id l.held)) [
  | inl r ↦ rw (r, release_once) v
  | inr (held, r) ↦ rw (r, release_once) (grant_locked-Inv c _ (vacate-Inv l id held r v))
]

cancel-Inv : (c : Config) (id : ℕ) (l : Lane) → Inv l → Inv (cancel c id l).0
unfolding cancel
cancel-Inv c id l v = elim (Option-cases (remove_waiter id l.waiters)) [
  | inl r ↦ rw (r, cancel) v
  | inr (ws, r) ↦
      rw (r, cancel)
        (grant_locked-Inv c _
          (record { counted = v.counted; session = v.session; current = v.current }))
]

give_up-Inv : (c : Config) (id : ℕ) (l : Lane) → Inv l → Inv (give_up c id l)
unfolding give_up
give_up-Inv c id l v =
    if_rule Inv (cancel c id l).1 (λ _. cancel-Inv c id l v)
      (λ _. release_once-Inv c id (cancel c id l).0 (cancel-Inv c id l v))

acquire-Inv : (c : Config) (w : Waiter) (l : Lane) → Inv l → Inv (acquire c w l).0
unfolding acquire
acquire-Inv c w l v =
    if_rule (λ (r : Lane × Bool). Inv r.0) l.closed (λ _. v)
      (λ _.
        grant_locked-Inv c _
          (record { counted = v.counted; session = v.session; current = v.current }))

invalidate-Inv : (client : ℕ) (l : Lane) → Inv l → Inv (invalidate client l)
unfolding invalidate
invalidate-Inv client l v = elim (Option-cases l.current) [
  | inl r ↦ rw (r, invalidate) v
  | inr (e, r) ↦
      rw (r, invalidate)
        (if_rule Inv (e.client == client)
          (λ _. record { counted = v.counted; session = v.session; current = tt }) (λ _. v))
]

close-Inv : (c : Config) (l : Lane) → Inv l → Inv (close c l)
unfolding close
close-Inv c l v =
    if_rule Inv ((grant_locked c (record l { closed = true })).active == 0)
      (λ _. record { counted = v'.counted; session = v'.session; current = tt }) (λ _. v')
  where
    v' : Inv (grant_locked c (record l { closed = true }))
    v' =
        grant_locked-Inv c _
          (record { counted = v.counted; session = v.session; current = v.current })

pub step-Inv : (c : Config) (l : Lane) (x : Call) → Inv l → Inv (step c l x)
unfolding step
step-Inv c l (acquires w) v = acquire-Inv c w l v
step-Inv c l (gives_up id) v = give_up-Inv c id l v
step-Inv c l (releases id) v = release_once-Inv c id l v
step-Inv c l (invalidates client) v = invalidate-Inv client l v
step-Inv c l closes v = close-Inv c l v

pub run-Inv : (c : Config) (l : Lane) (xs : List Call) → Inv l → Inv (run c l xs)
unfolding run
run-Inv c l [] v = v
run-Inv c l (x ∷ xs) v = run-Inv c (step c l x) xs (step-Inv c l x v)

pub empty-Inv : Inv empty
unfolding empty
empty-Inv = record {
  counted = refl;
  session = record {
    client = 0;
    key = record { username = ""; password = ""; role_id = ""; location_id = "" };
    exclusive = false;
    uniform = tt;
    alone = λ _. omega arith;
  };
  current = tt;
}
