-- ===== src/Browserauth/Failures/Tests.antt =====
-- A user who fails three times, and another who goes on.
use dwh_v.Common.{◌≡◌, refl, true, none, some, List, [], ◌∷◌, arith}
use dwh_v.Browserauth.Failures.{
  LoginFailures, Call, asks, fails, clears, handle, handle_all, blocked, fail, cleanup, lock_holds,
}

abbrev quiet : LoginFailures
quiet = record { entries = []; window = 100; lockout = 50; max_failures = 3; last_cleanup = none }

abbrev locked : LoginFailures
locked = record {
  entries = ("eve", record { count = 3; first = some 10; locked_until = some 80 }) ∷ [];
  window = 100;
  lockout = 50;
  max_failures = 3;
  last_cleanup = some 10;
}

three_failures : handle_all (fails "eve" 10 ∷ fails "eve" 20 ∷ fails "eve" 30 ∷ []) quiet ≡ locked
unfolding handle_all handle fail cleanup
three_failures = refl

abbrev noise : List Call
noise = fails "eve" 40 ∷ asks "eve" 70 ∷ fails "bob" 75 ∷ clears "bob" ∷ []

lock_holds_example : (blocked "eve" 79 (handle_all noise locked)).0 ≡ true
lock_holds_example =
    lock_holds "eve" 80 79 noise locked
      (record { count = 3; first = some 10; locked_until = some 80 }, refl, refl)
      (omega arith, (omega arith, (omega arith, (refl, tt)))) (omega arith)
