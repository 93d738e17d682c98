-- ===== src/Cas.antt =====
-- src/lib/cas.js and src/lib/storage/fs.js: the content-addressed store, with the file system as its
-- storage. The disk is a map from paths to bytes; directories are not kept, so `mkdir` is nothing.
-- The tables `hash` and `file` are those that the queries of this file read and write. Cloud
-- storage (cloudStorageEnabled) is off.
mod Disk
pub mod Ops
pub mod Layout
pub mod Writing
pub mod Finalizing
pub mod Staging
pub mod Deleting
pub mod Sweeping
pub mod Tests
pub use Disk.{Bytes, CasError, missing, no_input, not_absolute, no_source}
pub use Disk.{hash_not_found, not_in_cas, no_tmp_file, not_updatable, FileRow, Store, Io}
pub use Ops.{Env, Digests, WriteInput, Staged, Deletion}
unfoldable pub use Ops.{
  hash_file_path, disk_path, quad_path, tmp_path, hash_data, stage_write, finalize_write,
}
unfoldable pub use Ops.{
  abort_write, read, write_quads, read_quads, quad_exists, references, delete, unused,
}
unfoldable pub use Ops.{delete_each, delete_unused_hashes, get_unused_hash_count}
