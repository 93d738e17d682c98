-- ===== src/Paths.antt =====
-- What the program uses of Node's `path` module, on absolute POSIX paths.
mod Defs
mod Laws
mod Parse
pub use Defs.{slash, path_of, join_slash, put_pieces, ends_with_slash, rebuild, IsClean, NoSlash}
unfoldable pub use Defs.{split, parts, normalize, join, basename, dir_parts, parse_dir, strip}
pub use Laws.{
  put_pieces-split, rebuild-past, split-join_slash, ends_with_slash-join_slash, join-path_of,
  parts-path_of, path_of_injective, basename-path_of,
}
pub use Parse.{parse_dir-path_of}
