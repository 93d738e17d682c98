-- ===== src/LinkedData.antt =====
-- src/lib/ld.js: the linked data of files, what is kept of it, and the links between files.
mod Quads
mod Tables
mod Readable
mod Shown
mod Links
mod Noted
mod Replaced
mod Exact
mod Seen
mod Dual
mod Tests
