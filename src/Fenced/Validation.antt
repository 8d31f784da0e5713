-- ===== src/Fenced/Validation.antt =====
-- The checks of lock_fencing.go before a request.
use xredis.Prelude.{◌<◌, ◌≡◌, ◌↔◌, ◌⊎◌, ℤ, pos, negsuc, ◌<ℤ◌, arith}
use xredis.Exec.{ok}
use xredis.Lock.Contract.{ceil_ms}
use xredis.Fenced.{validate_fenced_lock_ttl}

-- A lock's ttl is accepted if it is positive, and the counter's if it is zero (no expiration) or
-- longer than the lock's in whole milliseconds, rounded up; nothing else is accepted.
pub validate_fenced_lock_ttl_iff :
    (lock_ttl counter_ttl : ℤ)
    → (validate_fenced_lock_ttl lock_ttl counter_ttl ≡ ok tt)
      ↔ ((pos 0 <ℤ lock_ttl) × ((counter_ttl ≡ pos 0) ⊎ (ceil_ms lock_ttl < ceil_ms counter_ttl)))
unfolding validate_fenced_lock_ttl
validate_fenced_lock_ttl_iff (pos n) (pos m) = ground arith
validate_fenced_lock_ttl_iff (pos n) (negsuc m) = ground arith
validate_fenced_lock_ttl_iff (negsuc n) (pos m) = ground arith
validate_fenced_lock_ttl_iff (negsuc n) (negsuc m) = ground arith
