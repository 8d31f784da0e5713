-- ===== src/Examples.antt =====
-- Concrete inputs: an in-memory server, and each theorem at an input that meets its conditions.
pub mod Numbers
pub mod Memory
pub mod Cas
pub mod Lock
pub mod Fenced
pub mod RateLimit
pub mod Token
pub mod Versioned
pub mod Pipeline
pub mod Scan
pub mod Cache
pub mod Commands
pub mod Config
pub mod Connect
pub mod Reflect
