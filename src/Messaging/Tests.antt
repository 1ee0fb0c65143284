-- ===== src/Messaging/Tests.antt =====
-- Concrete times and calls, on which the theorems about messaging are applied.
use wdc_backend.Prelude.{ℕ, ◌+◌, ◌≤◌, ◌≡◌, refl, true, false, some, List, [], ◌∷◌, arith}
use wdc_backend.Messaging.QuietHours.{
  is_quiet_hours_wat, ms_until_quiet_hours_end, wat_time, ms_until_quiet_hours_end-wat,
}
use wdc_backend.Messaging.Breaker.{
  Attempt, opened, refused, new_breaker, execute, execute_all, execute_all-settled,
  execute_all-trips, is_settled,
}

-- 22:43:35.250 in UTC, an hour later in West Africa Time.
abbrev late : ℕ
late = 1700000000000 + 1815250

late_quiet : is_quiet_hours_wat late ≡ true
unfolding is_quiet_hours_wat
late_quiet = refl

ms_until_quiet_hours_end-wat_example :
    (wat_time (late + ms_until_quiet_hours_end late) ≡ 21600000)
    × (ms_until_quiet_hours_end late ≤ 28800000)
ms_until_quiet_hours_end-wat_example = ms_until_quiet_hours_end-wat late late_quiet

abbrev failing : Attempt
failing = record { started = 100; ended = 110; succeeds = false }

abbrev two_failing : List Attempt
two_failing = failing ∷ failing ∷ []

execute_all-settled_example : is_settled (execute_all two_failing (new_breaker 2 30000)) ≡ true
execute_all-settled_example = execute_all-settled 2 30000 two_failing (omega arith)

-- The second failure is the later one.
abbrev then_failing : List Attempt
then_failing = failing ∷ record { started = 200; ended = 40000; succeeds = false } ∷ []

execute_all-trips_example :
    let b = execute_all then_failing (new_breaker 2 30000) in
    (b.state ≡ opened)
    × (b.last_failure_time ≡ some 40000)
    × ((execute (record failing { started = 60000 }) b).0 ≡ refused)
execute_all-trips_example =
    execute_all-trips 2 30000 then_failing (record failing { started = 60000 }) (omega arith)
      (refl, (refl, tt)) refl
