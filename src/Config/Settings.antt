-- ===== src/Config/Settings.antt =====
-- config.go: the many fields of the four configurations that only travel to go-redis.
mod Standalone
mod Cluster
mod Failover
mod Ring
unfoldable pub use Standalone.*
unfoldable pub use Cluster.*
unfoldable pub use Failover.*
unfoldable pub use Ring.*
