-- ===== src/AutoPath.antt =====
-- src/lib/auto-path: base.js, bucket.js and partition.js, the rules that read partition keys and
-- buckets off a path.
pub mod Rules
mod Lookup
pub mod Changes
mod Chosen
pub mod Updates
mod Tests
pub use Rules.*
pub use Lookup.*
pub use Changes.*
