-- ===== src/Browserauth/Failures.antt =====
-- internal/browserauth/security.go, `loginFailures`: how many logins of a user failed, and until when the
-- user is locked out. Times and durations are nanoseconds; `none` is the zero time. Each method runs
-- under the mutex.
mod Tests
use dwh_v.Common.{
  ℕ, suc, ◌+◌, ◌<◌, ◌≡◌, refl, Bool, true, false, ◌&&◌, ◌||◌, not, String, str_eq, eq_iff, Option,
  none, some, List, [], ◌∷◌, if◌then◌else◌, arith, ltb, leb, min, length, lookup, insert, delete,
  keep_entries, lookup-keep_entries, lookup-insert_other, is_some, All, if_rule, Bool-cases, inl,
  inr, ap, subst, sym, ◌∙◌,
}

abbrev pub max_login_failure_entries : ℕ
max_login_failure_entries = 10000

abbrev minute : ℕ
minute = 60000000000

pub record LoginFailure : Type 0 where
  pub count : ℕ
  pub first : Option ℕ
  pub locked_until : Option ℕ

pub record LoginFailures : Type 0 where
  pub entries : List (String × LoginFailure)
  pub window : ℕ
  pub lockout : ℕ
  pub max_failures : ℕ
  pub last_cleanup : Option ℕ

-- `t.After(now)`
abbrev pub is_after : Option ℕ → ℕ → Bool
is_after none now = false
is_after (some t) now = ltb now t

-- `t.Add(d).After(now)`
abbrev pub is_after_for : Option ℕ → ℕ → ℕ → Bool
is_after_for none d now = false
is_after_for (some t) d now = ltb now (t + d)

-- `f.entries[username]`
abbrev pub entry_of : Option LoginFailure → LoginFailure
entry_of none = record { count = 0; first = none; locked_until = none }
entry_of (some e) = e

-- What the cleanup leaves.
abbrev pub stays : ℕ → ℕ → LoginFailure → Bool
stays window now e =
    if is_some e.locked_until then is_after e.locked_until now else is_after_for e.first window now

abbrev pub cleaned_lately : LoginFailures → ℕ → Bool
cleaned_lately f now = is_after_for f.last_cleanup (min minute (min f.window f.lockout)) now

unfoldable pub cleanup : ℕ → LoginFailures → LoginFailures
cleanup now f = if cleaned_lately f now then f else record f {
  entries = keep_entries (λ _ e. stays f.window now e) f.entries;
  last_cleanup = some now;
}

unfoldable pub blocked : String → ℕ → LoginFailures → Bool × LoginFailures
unfolding cleanup
blocked username now f =
    let g = cleanup now f in
    let entry = entry_of (lookup username g.entries) in
    (
      is_after entry.locked_until now,
      if is_some entry.locked_until && not (is_after entry.locked_until now)
          then record g { entries = delete username g.entries }
          else g,
    )

-- The entry that a failure is counted in.
abbrev pub counted_in : ℕ → ℕ → LoginFailure → LoginFailure
counted_in window now e =
    if not (is_some e.first) || (not (is_after_for e.first window now) || is_some e.locked_until)
    then record { count = 0; first = some now; locked_until = none }
    else e

-- One failure more.
abbrev pub count_one : ℕ → ℕ → ℕ → LoginFailure → LoginFailure
count_one max_failures lockout now e =
    let count = suc e.count in
    record e {
      count = count;
      locked_until = if leb max_failures count then some (now + lockout) else e.locked_until;
    }

unfoldable pub fail : String → ℕ → LoginFailures → LoginFailures
unfolding cleanup
fail username now f =
    let g = cleanup now f in
    let found = lookup username g.entries in
    let entry = entry_of found in
    if is_after entry.locked_until now
    then g
    else (if not (is_some found) && leb max_login_failure_entries (length g.entries)
        then g
        else record g {
          entries =
              insert username
                (count_one g.max_failures g.lockout now (counted_in g.window now entry)) g.entries;
        })

unfoldable pub clear : String → LoginFailures → LoginFailures
clear username f = record f { entries = delete username f.entries }

pub data Call : Type 0 where
  asks fails : String → ℕ → Call
  clears : String → Call

unfoldable pub handle : Call → LoginFailures → LoginFailures
unfolding blocked fail clear
handle (asks username now) f = (blocked username now f).1
handle (fails username now) f = fail username now f
handle (clears username) f = clear username f

unfoldable pub handle_all : List Call → LoginFailures → LoginFailures
handle_all [] f = f
handle_all (c ∷ cs) f = handle_all cs (handle c f)

-- A call that comes before the time, and does not clear the user.
abbrev pub Spares : String → ℕ → Call → Type 0
Spares user until (asks _ now) = now < until
Spares user until (fails _ now) = now < until
Spares user until (clears username) = str_eq user username ≡ false

-- The user is locked until the time.
abbrev pub Locked : String → ℕ → LoginFailures → Type 0
Locked user until f =
    (e : LoginFailure) × (lookup user f.entries ≡ some e) × (e.locked_until ≡ some until)

Locked-cleanup :
    (user : String) (until now : ℕ) (f : LoginFailures)
    → now < until
    → Locked user until f
    → Locked user until (cleanup now f)
unfolding cleanup
Locked-cleanup user until now f room h =
    if_rule (Locked user until) (cleaned_lately f now) (λ _. h)
      (λ _. (
        h.0,
        lookup-keep_entries (λ _ e. stays f.window now e) user f.entries h.1
            (rw h.2 (ground arith)),
        h.2,
      ))

Locked-delete :
    (user other : String) (until : ℕ) (f : LoginFailures)
    → str_eq user other ≡ false
    → Locked user until f
    → Locked user until (record f { entries = delete other f.entries })
Locked-delete user other until f differs h = (
  h.0,
  lookup-keep_entries (λ j _. if str_eq j other then false else true) user f.entries h.1
      (rw differs refl),
  h.2,
)

-- What the user's own entry says.
Locked-own :
    (user : String) (until now : ℕ) (f : LoginFailures)
    → now < until
    → Locked user until f
    → is_after (entry_of (lookup user f.entries)).locked_until now ≡ true
Locked-own user until now f room h = rw (h.1, h.2) (ground arith)

differs_sym : (a b : String) → str_eq a b ≡ false → str_eq b a ≡ false
differs_sym a b h = ground (arith, eq_iff a b, eq_iff b a)

Locked-asks :
    (user other : String) (until now : ℕ) (f : LoginFailures)
    → now < until
    → Locked user until f
    → Locked user until (blocked other now f).1
unfolding blocked
Locked-asks user other until now f room h =
    if_rule (Locked user until)
      (is_some (entry_of (lookup other (cleanup now f).entries)).locked_until
        && not (is_after (entry_of (lookup other (cleanup now f).entries)).locked_until now))
      (λ gone. elim (Bool-cases (str_eq user other)) [
        | inl same ↦
            let own = Locked-own user until now (cleanup now f) room g in
            let key = (eq_iff user other).0 same in
            let own' =
              subst
                (λ x.
                  is_after (entry_of (lookup x (cleanup now f).entries)).locked_until now ≡ true)
                key own in
            absurd (ground arith)
        | inr differs ↦ Locked-delete user other until (cleanup now f) differs g
      ])
      (λ _. g)
  where
    g : Locked user until (cleanup now f)
    g = Locked-cleanup user until now f room h

Locked-fails :
    (user other : String) (until now : ℕ) (f : LoginFailures)
    → now < until
    → Locked user until f
    → Locked user until (fail other now f)
unfolding fail
Locked-fails user other until now f room h = elim (Bool-cases (str_eq user other)) [
  | inl same ↦
      let key = (eq_iff user other).0 same in
      let own = Locked-own user until now (cleanup now f) room g in
      let own' =
        subst (λ x. is_after (entry_of (lookup x (cleanup now f).entries)).locked_until now ≡ true)
          key own in
      rw own' g
  | inr differs ↦
      if_rule (Locked user until)
        (is_after (entry_of (lookup other (cleanup now f).entries)).locked_until now) (λ _. g)
        (λ _.
          if_rule (Locked user until)
            (not (is_some (lookup other (cleanup now f).entries))
              && leb max_login_failure_entries (length (cleanup now f).entries))
            (λ _. g)
            (λ _. (
              g.0,
              lookup-insert_other user other _ (cleanup now f).entries
                    (differs_sym user other differs)
                  ∙ g.1,
              g.2,
            )))
]
  where
    g : Locked user until (cleanup now f)
    g = Locked-cleanup user until now f room h

Locked-handle :
    (user : String) (until : ℕ) (c : Call) (f : LoginFailures)
    → Spares user until c
    → Locked user until f
    → Locked user until (handle c f)
unfolding handle clear
Locked-handle user until (asks other now) f room h = Locked-asks user other until now f room h
Locked-handle user until (fails other now) f room h = Locked-fails user other until now f room h
Locked-handle user until (clears other) f differs h = Locked-delete user other until f differs h

-- A user who is locked until a time stays blocked at every earlier time, whatever calls come between: asking
-- and failing before that time, for any users, in any order of their times, and clearing other users.
pub lock_holds :
    (user : String) (until now : ℕ) (cs : List Call) (f : LoginFailures)
    → Locked user until f
    → All (Spares user until) cs
    → now < until
    → (blocked user now (handle_all cs f)).0 ≡ true
unfolding handle_all blocked
lock_holds user until now [] f h all room =
    Locked-own user until now (cleanup now f) room (Locked-cleanup user until now f room h)
lock_holds user until now (c ∷ cs) f h all room =
    lock_holds user until now cs (handle c f) (Locked-handle user until c f all.0 h) all.1 room
