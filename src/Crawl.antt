-- ===== src/Crawl.antt =====
-- src/bin/lib/cp-utils.js: the walk over a local directory whose files are copied into CaskFS.
mod Defs
mod Apart
mod Tests
