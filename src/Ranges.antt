-- ===== src/Ranges.antt =====
-- src/controllers/fs.js: what GET of a file answers, with the byte ranges it is asked for.
mod Defs
mod Serving
mod Asked
mod Tests
