-- ===== src/Messaging/QuietHours.antt =====
-- Quiet hours, from 22:00 to 06:00 in West Africa Time (src/modules/messaging/messaging.service.ts).
use wdc_backend.Prelude.{
  ℕ, ◌+◌, ◌-◌, ◌*◌, ◌/◌, ◌%◌, ◌≤◌, ◌<◌, Timestamp, ◌≡◌, Bool, true, ◌||◌, leb, ltb, if◌then◌else◌,
  arith,
}

-- The fields of a time in milliseconds, as `Date` gives them in UTC.
abbrev pub utc_hours : Timestamp → ℕ
utc_hours now = (now / 3600000) % 24

abbrev pub utc_minutes : Timestamp → ℕ
utc_minutes now = (now / 60000) % 60

abbrev pub utc_seconds : Timestamp → ℕ
utc_seconds now = (now / 1000) % 60

abbrev pub wat_hour : Timestamp → ℕ
wat_hour now = (utc_hours now + 1) % 24

unfoldable pub is_quiet_hours_wat : Timestamp → Bool
is_quiet_hours_wat now = leb 22 (wat_hour now) || ltb (wat_hour now) 6

abbrev pub hours_to_add : ℕ → ℕ
hours_to_add hour = if leb 22 hour then (24 - hour) + 6 else 6 - hour

-- The differences are negative from 06:00 to 22:00, where it is not called.
unfoldable pub ms_until_quiet_hours_end : Timestamp → ℕ
ms_until_quiet_hours_end now =
    ((hours_to_add (wat_hour now) * 60 - utc_minutes now) * 60 - utc_seconds now) * 1000
    - now % 1000

-- The milliseconds since midnight in West Africa Time.
abbrev pub wat_time : Timestamp → ℕ
wat_time now = (now + 3600000) % 86400000

-- In quiet hours, the delay ends at 06:00 sharp, after at most eight hours.
pub ms_until_quiet_hours_end-wat :
    (now : Timestamp)
    → is_quiet_hours_wat now ≡ true
    → (wat_time (now + ms_until_quiet_hours_end now) ≡ 21600000)
      × (ms_until_quiet_hours_end now ≤ 28800000)
unfolding is_quiet_hours_wat ms_until_quiet_hours_end
ms_until_quiet_hours_end-wat now quiet = (ground arith, ground arith)

-- Up to the end of the delay, all of the time is in quiet hours.
pub is_quiet_hours_wat-until :
    (now d : ℕ)
    → is_quiet_hours_wat now ≡ true
    → d < ms_until_quiet_hours_end now
    → is_quiet_hours_wat (now + d) ≡ true
unfolding is_quiet_hours_wat ms_until_quiet_hours_end
is_quiet_hours_wat-until now d quiet early = ground arith
