-- ===== src/Metadata.antt =====
-- src/index.js: `patchMetadata`, and the methods that it calls.
pub mod Defs
pub mod Patching
pub mod Keys
mod Tests
pub use Defs.*
pub use Keys.*
