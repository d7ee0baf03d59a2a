-- ===== src/Database/Retry/Tests.antt =====
-- A statement that loses two races, on a world that counts.
use dwh_v.Common.{ℕ, suc, ◌≡◌, refl, Option, none, some, if◌then◌else◌, ltb}
use dwh_v.Database.Retry.{
  Database, returned, Promised, Transacted, Executed, transaction, retry_loop, retry_tx,
  retry_conn_tx, retry_exec, is_retryable, retries_keep_promise,
}

abbrev counting : Database ℕ ℕ
counting = record {
  mysql_number = λ e. some e;
  context_error = λ _. none;
  begin = λ w. (none, w);
  commit = λ w. (none, w);
  rollback = λ w. w;
  wait = λ _ w. (none, w);
}

-- The first two calls are chosen as victims of a deadlock.
abbrev loses_twice : ℕ → Option ℕ × ℕ
loses_twice w = (if ltb w 2 then some 1213 else none, suc w)

third_wins : retry_tx counting loses_twice 0 ≡ (returned 3 none, 3)
unfolding retry_tx retry_loop transaction is_retryable
third_wins = refl

retries_keep_promise_example :
    Promised counting (Transacted counting loses_twice) 0 (retry_tx counting loses_twice 0)
    × Promised counting (Transacted counting loses_twice) 0 (retry_conn_tx counting loses_twice 0)
    × Promised counting (Executed counting loses_twice) 0 (retry_exec counting loses_twice 0)
retries_keep_promise_example = retries_keep_promise counting loses_twice loses_twice 0
