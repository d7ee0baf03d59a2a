-- ===== src/Scheduler/Occurrences/Tests.antt =====
-- The waits after failures.
use dwh_v.Common.{◌≡◌, ◌*◌, ◌^◌, min, refl}
use dwh_v.Scheduler.Occurrences.{retry_delay, retry_delay_doubles}

fifth_wait : retry_delay 5 ≡ 16 * 60000000000
unfolding retry_delay
fifth_wait = refl

retry_delay_doubles_example :
    (retry_delay 0 ≡ 0) × (retry_delay 4 ≡ min (30 * 60 * 1000000000) (60 * 1000000000 * 2 ^ 3))
retry_delay_doubles_example = retry_delay_doubles 3
