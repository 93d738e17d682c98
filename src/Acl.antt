-- ===== src/Acl.antt =====
-- src/lib/acl.js, the tables of src/schema/layer2-fs.sql that it reads, and the calls of it in
-- src/index.js and src/lib/directory.js.
pub mod Db
pub mod State
pub mod Checks
pub mod Spread
pub mod Tables
pub mod Facade
mod Rights
mod Inheritance
mod Moves
mod Checking
mod Members
pub mod Making
pub mod Trees
mod Granting
mod Tests
