-- ===== src/Transfer.antt =====
-- src/lib/transfer.js and src/bin/lib/transfer.js: the export of a file system as an archive, and its
-- import.
mod AclData
mod RuleData
mod Restoring
pub mod Extract
mod Contained
mod Extracted
mod Places
mod Unpacked
mod Export
mod Listed
mod Below
mod Keeping
mod Ungranted
mod Failing
mod Tests
mod ArchiveTests
