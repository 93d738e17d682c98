-- ===== src/Files.antt =====
-- src/index.js: the methods of `CaskFs` that write, read, delete, copy and sync files, and the
-- statements of src/lib/database/index.js and src/schema/layer2-fs.sql that they run.
pub mod Repo
mod Rows
mod Kinds
mod Write
mod Copy
mod Changes
mod Saving
mod Storing
mod Phases
mod Writing
mod Contents
mod Removing
mod Undoing
mod Moving
mod Syncing
pub mod Sample
mod Tests
