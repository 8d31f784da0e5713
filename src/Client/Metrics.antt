-- ===== src/Client/Metrics.antt =====
-- metrics.go and metrics_attributes.go: a measurement is the attributes of one counter increment.
-- Durations and the client's own labels are left out.
pub data LockType : Type 0 where
  lease fenced : LockType

pub data LockOperation : Type 0 where
  acquire extend unlock : LockOperation

pub data LockOutcome : Type 0 where
  lock_success contended not_owned lock_error : LockOutcome

pub data Algorithm : Type 0 where
  fixed_window sliding_window token_bucket : Algorithm

pub data RateLimitOutcome : Type 0 where
  allowed rejected rate_limit_error : RateLimitOutcome

pub data CacheOperation : Type 0 where
  get get_or_load : CacheOperation

pub data CacheResult : Type 0 where
  hit miss negative_hit cache_error : CacheResult

pub data LoaderOutcome : Type 0 where
  loaded not_found loader_error : LoaderOutcome

pub data Measurement : Type 0 where
  lock_operation : LockType → LockOperation → LockOutcome → Measurement
  rate_limit_decision : Algorithm → RateLimitOutcome → Measurement
  cache_request : CacheOperation → CacheResult → Measurement
  cache_loader : LoaderOutcome → Measurement
  singleflight_shared : Measurement
