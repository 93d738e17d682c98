-- ===== src/Listing.antt =====
-- src/index.js: `ls`, and the two queries of src/lib/database/index.js that it combines.
mod Defs
mod Pages
mod Tests
pub use Defs.*
