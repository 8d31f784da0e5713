-- ===== src/Time/Rounding.antt =====
-- time.go: what a round trip through milliseconds does to a duration.
use xredis.Prelude.{ℕ, ◌+◌, ◌^◌, ◌<◌, ◌≤◌, pos, pos_part, arith}
use xredis.Time.{duration_to_ms, ms_to_duration, millisecond}

-- A positive duration of at most 2 ^ 63 - 1 - 999,999 ns comes back from milliseconds as the
-- duration itself or the next whole millisecond above it: never below, never a millisecond more.
pub ms_to_duration-duration_to_ms :
    (d : ℕ)
    → d + 999999 < 2 ^ 63
    → 0 < d
    → (d ≤ pos_part (ms_to_duration (duration_to_ms (pos d))))
      × (pos_part (ms_to_duration (duration_to_ms (pos d))) < d + millisecond)
unfolding ms_to_duration duration_to_ms
ms_to_duration-duration_to_ms d h p = ground arith
