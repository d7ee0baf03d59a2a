-- ===== src/Fincloud/Coordinator.antt =====
-- internal/fincloud/session_coordinator.go, `SessionCoordinator`: a lane for each Fincloud user.
mod Tests
use mathlib.Core.List.{Memᴰ}
use dwh_v.Common.{
  ℕ, ◌≤◌, ◌≡◌, refl, Bool, true, false, not, String, Option, none, some, List, [], ◌∷◌, ◌++◌,
  if◌then◌else◌, length, lookup, insert, if_rule, option_rule, subst, sym, ap, ◌∙◌, arith,
  Bool-cases, inl, inr, str_eq, eq_iff, ◌&&◌, lookup-insert_other,
}
use dwh_v.Fincloud.Auth.{Config, validate, session_key}
use dwh_v.Fincloud.Lane as Lanes
use dwh_v.Fincloud.Lane.{
  Lane, Waiter, Lease, empty, run, step, gives_up, releases, invalidates, closes, acquires,
}
use dwh_v.Fincloud.Lane.Exclusion.{held_one_session}

pub record Coordinator : Type 0 where
  pub lanes : List (String × Lane)
  pub closed : Bool

unfoldable pub fresh : Coordinator
fresh = record { lanes = []; closed = false }

abbrev lane_or_new : Option Lane → Lane
lane_or_new none = empty
lane_or_new (some l) = l

-- `acquire` of the coordinator, up to where the lane's waits.
unfoldable pub enter : Config → Waiter → Coordinator → Coordinator
enter c w o =
    if not (validate c w.auth)
    then o
    else (if o.closed then o else record o {
      lanes =
          insert w.auth.username
            (Lanes.acquire c w (lane_or_new (lookup w.auth.username o.lanes))).0 o.lanes;
    })

abbrev close_all : Config → List (String × Lane) → List (String × Lane)
close_all c [] = []
close_all c ((k, l) ∷ m) = (k, Lanes.close c l) ∷ close_all c m

-- `Close`
unfoldable pub shut : Config → Coordinator → Coordinator
shut c o = if o.closed then o else record { lanes = close_all c o.lanes; closed = true }

-- A call on the lane of a user by one that holds it.
unfoldable pub on_lane : Config → String → Lanes.Call → Coordinator → Coordinator
on_lane c user x o = elim (lookup user o.lanes) [
  | none ↦ o
  | some l ↦ record o { lanes = insert user (step c l x) o.lanes }
]

-- The end of `Test`: a client that could not authenticate is invalidated, and the lease is released.
unfoldable pub end_test : Config → String → Lease → Bool → Coordinator → Coordinator
unfolding on_lane
end_test c user lease failed o =
    on_lane c user (releases lease.holder.id)
      (if failed then on_lane c user (invalidates lease.client) o else o)

pub data Call : Type 0 where
  enters : Waiter → Call
  leaves : String → ℕ → Call
  returns : String → ℕ → Call
  ends_test : String → Lease → Bool → Call
  shuts : Call

unfoldable pub handle : Config → Coordinator → Call → Coordinator
unfolding enter on_lane end_test shut
handle c o (enters w) = enter c w o
handle c o (leaves user id) = on_lane c user (gives_up id) o
handle c o (returns user id) = on_lane c user (releases id) o
handle c o (ends_test user lease failed) = end_test c user lease failed o
handle c o shuts = shut c o

unfoldable pub handle_all : Config → Coordinator → List Call → Coordinator
handle_all c o [] = o
handle_all c o (x ∷ xs) = handle_all c (handle c o x) xs

-- The calls that the lane of a user gets from one call of the coordinator, which may be closed.
abbrev pub lane_call : String → String → Lanes.Call → List Lanes.Call
lane_call user name x = if str_eq name user then x ∷ [] else []

abbrev pub lane_calls : Config → String → Bool → Call → List Lanes.Call
lane_calls c user shut_down (enters w) =
    if validate c w.auth && not shut_down then lane_call user w.auth.username (acquires w) else []
lane_calls c user shut_down (leaves name id) = lane_call user name (gives_up id)
lane_calls c user shut_down (returns name id) = lane_call user name (releases id)
lane_calls c user shut_down (ends_test name lease failed) =
    (if failed then lane_call user name (invalidates lease.client) else [])
    ++ lane_call user name (releases lease.holder.id)
lane_calls c user shut_down shuts = if shut_down then [] else closes ∷ []

abbrev is_shut : Bool → Call → Bool
is_shut b (enters w) = b
is_shut b (leaves name id) = b
is_shut b (returns name id) = b
is_shut b (ends_test name lease failed) = b
is_shut b shuts = true

-- The calls that the lane of a user gets in a history of the coordinator.
unfoldable pub calls_of : Config → String → Bool → List Call → List Lanes.Call
calls_of c user shut_down [] = []
calls_of c user shut_down (x ∷ xs) =
    lane_calls c user shut_down x ++ calls_of c user (is_shut shut_down x) xs

run-append :
    (c : Config) (l : Lane) (xs ys : List Lanes.Call) → run c l (xs ++ ys) ≡ run c (run c l xs) ys
unfolding run
run-append c l [] ys = refl
run-append c l (x ∷ xs) ys = run-append c (step c l x) xs ys

-- The lane of the user is `l`, or there is none yet and `l` is new.
record Follows (user : String) (o : Coordinator) (l : Lane) : Type 0 where
  present : (m : Lane) → lookup user o.lanes ≡ some m → m ≡ l
  absent : lookup user o.lanes ≡ none → o.closed ≡ false → l ≡ empty

lookup-insert_same :
    (k : String) (v : Lane) (m : List (String × Lane)) → lookup k (insert k v m) ≡ some v
lookup-insert_same k v [] = rw ((eq_iff k k).1 refl) refl
lookup-insert_same k v ((j, w) ∷ m) =
    let rest = lookup-insert_same k v m in
    elim (Bool-cases (str_eq j k)) [
      | inl hit ↦ rw hit (rw ((eq_iff k k).1 refl) refl)
      | inr miss ↦ rw miss (rw miss rest)
    ]

lookup-close_all :
    (c : Config) (k : String) (m : List (String × Lane))
    → lookup k (close_all c m) ≡ elim (lookup k m) [ none ↦ none | some l ↦ some (Lanes.close c l) ]
lookup-close_all c k [] = refl
lookup-close_all c k ((j, l) ∷ m) = elim (Bool-cases (str_eq j k)) [
  | inl hit ↦ rw hit refl
  | inr miss ↦ rw miss (lookup-close_all c k m)
]

-- A call that leaves a new lane as it is.
abbrev Idle : Config → Lanes.Call → Type 0
Idle c x = step c empty x ≡ empty

on_lane-Follows :
    (c : Config) (user name : String) (x : Lanes.Call) (o : Coordinator) (l : Lane)
    → Idle c x
    → Follows user o l
    → Follows user (on_lane c name x o) (run c l (lane_call user name x))
unfolding on_lane run
on_lane-Follows c user name x o l idle f = elim (Bool-cases (str_eq name user)) [
  | inl hit ↦ rw hit (mine ((eq_iff name user).0 hit) (lookup name o.lanes) refl)
  | inr miss ↦ rw miss (theirs miss (lookup name o.lanes) refl)
]
  where
    moved : Option Lane → Coordinator
    moved p = elim p [ none ↦ o | some m ↦ record o { lanes = insert name (step c m x) o.lanes } ]

    mine :
        name ≡ user
        → (p : Option Lane) → lookup name o.lanes ≡ p
        → Follows user (moved p) (step c l x)
    mine e none h =
        let here = subst (λ k. lookup k o.lanes ≡ none) e h in
        record {
          present = λ n q. cc (here, q);
          absent = λ q opened. ap (λ m. step c m x) (f.absent here opened) ∙ idle;
        }
    mine e (some m) h =
        let here = subst (λ k. lookup k o.lanes ≡ some m) e h in
        let found =
          subst (λ k. lookup user (insert k (step c m x) o.lanes) ≡ some (step c m x)) (sym e)
            (lookup-insert_same user (step c m x) o.lanes) in
        record {
          present = λ n q.
              let same : n ≡ step c m x = cc (found, q) in
              same ∙ ap (λ k. step c k x) (f.present m here);
          absent = λ q opened. cc (found, q);
        }

    theirs :
        str_eq name user ≡ false
        → (p : Option Lane) → lookup name o.lanes ≡ p
        → Follows user (moved p) l
    theirs miss none h = f
    theirs miss (some m) h =
        let other = lookup-insert_other user name (step c m x) o.lanes miss in
        record {
          present = λ n q. f.present n (sym other ∙ q);
          absent = λ q opened. f.absent (sym other ∙ q) opened;
        }

enter-Follows :
    (c : Config) (user : String) (w : Waiter) (o : Coordinator) (l : Lane)
    → Follows user o l
    → Follows user (enter c w o) (run c l (lane_calls c user o.closed (enters w)))
unfolding enter run step
enter-Follows c user w o l f = go (validate c w.auth) o.closed refl
  where
    name : String
    name = w.auth.username

    entered : Coordinator
    entered = record o {
      lanes = insert name (Lanes.acquire c w (lane_or_new (lookup name o.lanes))).0 o.lanes;
    }

    joins : o.closed ≡ false → Follows user entered (run c l (lane_call user name (acquires w)))
    joins opened = elim (Bool-cases (str_eq name user)) [
      | inl hit ↦
          let e = (eq_iff name user).0 hit in
          let found =
            subst (λ k. lookup user (insert k (after name) o.lanes) ≡ some (after name)) (sym e)
              (lookup-insert_same user (after name) o.lanes) in
          let held = lane_is (lookup user o.lanes) refl in
          rw hit (record {
            present = λ n q.
                let same : n ≡ after name = cc (found, q) in
                same ∙ ap after e ∙ ap (λ m. (Lanes.acquire c w m).0) held;
            absent = λ q _. cc (found, q);
          })
      | inr miss ↦
          let other = lookup-insert_other user name (after name) o.lanes miss in
          rw miss (record {
            present = λ n q. f.present n (sym other ∙ q);
            absent = λ q e. f.absent (sym other ∙ q) e;
          })
    ]
      where
        after : String → Lane
        after k = (Lanes.acquire c w (lane_or_new (lookup k o.lanes))).0

        lane_is : (p : Option Lane) → lookup user o.lanes ≡ p → lane_or_new p ≡ l
        lane_is none h = sym (f.absent h opened)
        lane_is (some m) h = f.present m h

    go :
        (valid b : Bool)
        → o.closed ≡ b
        → Follows user
            (if not valid then o else (if b then o else entered))
            (run c l (if valid && not b then lane_call user name (acquires w) else []))
    go false b e = f
    go true true e = f
    go true false e = joins e

shut-Follows :
    (c : Config) (user : String) (o : Coordinator) (l : Lane)
    → Follows user o l
    → Follows user (shut c o) (run c l (lane_calls c user o.closed shuts))
unfolding shut run step
shut-Follows c user o l f = go o.closed
  where
    ended : Follows user (record { lanes = close_all c o.lanes; closed = true }) (Lanes.close c l)
    ended = record {
      present =
          λ n q. closed (lookup user o.lanes) refl n (sym (lookup-close_all c user o.lanes) ∙ q);
      absent = λ q e. cc e;
    }
      where
        closed :
            (p : Option Lane)
            → lookup user o.lanes ≡ p
            → (n : Lane) → elim p [ none ↦ none | some m ↦ some (Lanes.close c m) ] ≡ some n
            → n ≡ Lanes.close c l
        closed none h n q = cc q
        closed (some m) h n q =
            let same : n ≡ Lanes.close c m = cc q in same ∙ ap (Lanes.close c) (f.present m h)

    go :
        (b : Bool)
        → Follows user
            (if b then o else record { lanes = close_all c o.lanes; closed = true })
            (run c l (if b then [] else closes ∷ []))
    go true = f
    go false = ended

ends_test-Follows :
    (c : Config) (user name : String) (lease : Lease) (failed : Bool) (o : Coordinator) (l : Lane)
    → Follows user o l
    → Follows user
        (end_test c name lease failed o)
        (run c l (lane_calls c user o.closed (ends_test name lease failed)))
unfolding end_test run step empty
ends_test-Follows c user name lease false o l f =
    on_lane-Follows c user name (releases lease.holder.id) o l refl f
ends_test-Follows c user name lease true o l f =
    subst (Follows user _)
      (sym (
        run-append c l (lane_call user name (invalidates lease.client))
          (lane_call user name (releases lease.holder.id))))
      (on_lane-Follows c user name (releases lease.holder.id) _ _ refl
        (on_lane-Follows c user name (invalidates lease.client) o l refl f))

handle-Follows :
    (c : Config) (user : String) (o : Coordinator) (x : Call) (l : Lane)
    → Follows user o l
    → Follows user (handle c o x) (run c l (lane_calls c user o.closed x))
unfolding handle step empty
handle-Follows c user o (enters w) l f = enter-Follows c user w o l f
handle-Follows c user o (leaves name id) l f = on_lane-Follows c user name (gives_up id) o l refl f
handle-Follows c user o (returns name id) l f = on_lane-Follows c user name (releases id) o l refl f
handle-Follows c user o (ends_test name lease failed) l f =
    ends_test-Follows c user name lease failed o l f
handle-Follows c user o shuts l f = shut-Follows c user o l f

on_lane-closed :
    (c : Config) (name : String) (x : Lanes.Call) (o : Coordinator)
    → (on_lane c name x o).closed ≡ o.closed
unfolding on_lane
on_lane-closed c name x o =
    option_rule (λ (p : Coordinator). p.closed ≡ o.closed) (lookup name o.lanes) (λ _. refl)
      (λ l _. refl)

handle-closed :
    (c : Config) (o : Coordinator) (x : Call) → (handle c o x).closed ≡ is_shut o.closed x
unfolding handle enter end_test shut
handle-closed c o (enters w) =
    if_rule (λ (p : Coordinator). p.closed ≡ o.closed) (not (validate c w.auth)) (λ _. refl)
      (λ _. if_rule (λ (p : Coordinator). p.closed ≡ o.closed) o.closed (λ _. refl) (λ _. refl))
handle-closed c o (leaves name id) = on_lane-closed c name (gives_up id) o
handle-closed c o (returns name id) = on_lane-closed c name (releases id) o
handle-closed c o (ends_test name lease failed) =
    on_lane-closed c name (releases lease.holder.id) _
    ∙ if_rule (λ (p : Coordinator). p.closed ≡ o.closed) failed
        (λ _. on_lane-closed c name (invalidates lease.client) o) (λ _. refl)
handle-closed c o shuts =
    if_rule (λ (p : Coordinator). p.closed ≡ true) o.closed (λ h. h) (λ _. refl)

handle_all-Follows :
    (c : Config) (user : String) (xs : List Call) (o : Coordinator) (l : Lane)
    → Follows user o l
    → Follows user (handle_all c o xs) (run c l (calls_of c user o.closed xs))
unfolding handle_all calls_of run
handle_all-Follows c user [] o l f = f
handle_all-Follows c user (x ∷ xs) o l f =
    subst (Follows user (handle_all c (handle c o x) xs))
      (ap (λ b. run c (run c l (lane_calls c user o.closed x)) (calls_of c user b xs))
          (handle-closed c o x)
        ∙ sym (
            run-append c l (lane_calls c user o.closed x)
              (calls_of c user (is_shut o.closed x) xs)))
      (handle_all-Follows c user xs (handle c o x) (run c l (lane_calls c user o.closed x))
        (handle-Follows c user o x l f))

-- Whatever calls a new coordinator has had, the lane that it has for a user is what a new lane becomes by the calls for
-- that user name, all of them and no others, up to and with the close of the coordinator; and two leases that are held
-- on it are for the same client and the same session context, and if one of them is exclusive, it is the only one.
pub user_has_one_session :
    (c : Config) (xs : List Call) (user : String) (l : Lane) (x y : Lease)
    → lookup user (handle_all c fresh xs).lanes ≡ some l
    → Memᴰ x l.held
    → Memᴰ y l.held
    → (l ≡ run c empty (calls_of c user false xs))
      × (x.client ≡ y.client)
      × (session_key x.holder.auth ≡ session_key y.holder.auth)
      × (x.holder.exclusive ≡ true → length l.held ≤ 1)
unfolding fresh
user_has_one_session c xs user l x y e m n =
    let same = (handle_all-Follows c user xs fresh empty new).present l e in
    let one =
      held_one_session c (calls_of c user false xs) x y (subst (λ z. Memᴰ x z.held) same m)
        (subst (λ z. Memᴰ y z.held) same n) in
    (same, one.0, one.1, λ h. subst (λ (z : Lane). length z.held ≤ 1) (sym same) (one.2 h))
  where
    new : Follows user fresh empty
    new = record { present = λ m' h. cc h; absent = λ _ _. refl }
