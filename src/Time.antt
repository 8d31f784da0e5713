-- ===== src/Time.antt =====
-- time.go. A `time.Duration` is an int64 of nanoseconds, here an integer; a product of two int64
-- values wraps around, as `wrap64` writes out.
pub mod Rounding
use xredis.Prelude.{
  ℕ, ◌+◌, ◌-◌, ◌*◌, ◌/◌, ◌%◌, ◌^◌, ℤ, pos, negsuc, pos_part, sub_ℕ, leb_ℤ, eqb_ℤ, ltb, ◌==◌,
  if◌then◌else◌,
}
use xredis.Errors.{invalid_ttl}
use xredis.Exec.{Result, ok, fail}

abbrev pub millisecond : ℕ
millisecond = 1000000

-- const KeepTTL time.Duration = rdb.KeepTTL
abbrev pub keep_ttl : ℤ
keep_ttl = negsuc 0

-- The int64 with the bits of `n`, a number of at most 64 bits of magnitude.
abbrev pub int64_of_bits : ℕ → ℤ
int64_of_bits n = if ltb n (2 ^ 63) then pos n else sub_ℕ n (2 ^ 64)

abbrev pub wrap64 : ℤ → ℤ
wrap64 (pos n) = int64_of_bits (n % 2 ^ 64)
wrap64 (negsuc n) = int64_of_bits (2 ^ 64 - 1 - n % 2 ^ 64)

-- durationToMs: up to the next millisecond above zero, toward zero below it.
unfoldable pub duration_to_ms : ℤ → ℤ
duration_to_ms (pos d) =
    if d % millisecond == 0 then pos (d / millisecond) else pos (d / millisecond + 1)
duration_to_ms (negsuc d) = sub_ℕ 0 ((d + 1) / millisecond)

-- msToDuration
unfoldable pub ms_to_duration : ℤ → ℤ
ms_to_duration ms = if leb_ℤ ms (pos 0) then pos 0 else wrap64 (pos (pos_part ms * millisecond))

-- updateExpirationToMs
unfoldable pub update_expiration_to_ms : ℤ → Result ℤ
unfolding duration_to_ms
update_expiration_to_ms expiration =
    if eqb_ℤ expiration keep_ttl
    then ok (negsuc 0)
    else if leb_ℤ (pos 0) expiration
    then ok (duration_to_ms expiration)
    else fail invalid_ttl
