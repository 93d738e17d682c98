-- ===== src/Environments.antt =====
-- src/lib/environment.js: `LibraryEnvironment`, the named environments of the command line.
mod Defs
mod Defaults
mod Loading
mod Tests
pub use Defs.*
