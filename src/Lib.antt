-- ===== src/Lib.antt =====
-- CaskFS, a content-addressed file system. A file has a path and metadata in PostgreSQL, and its bytes
-- lie on disk under their hash; users reach them by roles and directory ACLs.
--
-- The parts, and how they meet:
--   `CaskFs` (src/index.js) writes a file by staging its bytes in the store, changing the tables, and
--   finalizing the write; it asks the access control before it reads, writes or lists, and takes the
--   partition keys and the bucket of a path from the auto-path rules. The command line sends files to a
--   pool of worker processes that hash them, and connects to the environment that it is told.
--
-- The modules:
--   Base         Lists, options, tests, text, maps, and `Exec`: actions on a state that may throw. What
--                an action changed before it threw stays changed, as with the awaits of the source.
--   Paths        What the source uses of Node's `path`, and `split('/')`, on absolute paths.
--   Cas          src/lib/cas.js over src/lib/storage/fs.js. `Store` has the files on disk by path, the
--                rows of the table `hash`, and the rows of `file` as far as the store reads them.
--                `stage_write`, `finalize_write`, `read`, `delete`, `delete_unused_hashes`, `write_quads`
--                stand for the methods of the same names; `put` is the two calls that a write makes.
--                The hash functions are fields of `Env`: Node's crypto computes them.
--   Crawl        src/bin/lib/cp-utils.js: `crawl_local`, on the tree that fs.readdir finds. A path is the
--                list of its parts.
--   Pool         src/bin/lib/file-processor.js. `Processor` has the fields of `FileProcessor`, with a
--                promise as the id it was given; `_enqueue`, `_dispatch`, `_onResult`, `processBatch`
--                and `close` are functions on it, and a run is a list of batches and answers.
--   Acl          src/lib/acl.js and the ACL methods of src/index.js. `Acl.Db` has the tables of
--                src/schema/layer2-fs.sql, a unique column as the key of a map, with the SQL functions
--                get_permission and has_permission; deletions cascade as the foreign keys say.
--                `Acl.State` has the two caches. `Acl.Checks` has the checks, `Acl.Tables` the methods
--                that change the tables, `Acl.Spread` setDirectoryAcl, and `Acl.Facade` the methods of
--                `CaskFs` and mkdir of src/lib/directory.js.
--   AutoPath     src/lib/auto-path. `Rules` has the table and the copy of it that `getConfig` keeps. How
--                an expression matches, whether it compiles, and what a rule's own function returns, are
--                fields of `Host`. The pass of a new partition rule over all files reads their paths, and stops
--                at a value that add_partition_key refuses; the keys that it leaves are not modelled.
--   Environments src/lib/environment.js. `Session` has the file of environments, which may lack the list
--                itself, the loaded data, and the settings that loading an environment changes; `Loading`
--                says which settings these are.
--   Listing      `ls` of src/index.js, with the queries getChildDirectories and getChildFiles of
--                src/lib/database/index.js.
--   Metadata     `_applyGitPatch`, `_setPartitionKeys`, `_arrayEquals` and the comparison of
--                `patchMetadata` of src/index.js. `Keys` has the tables of rules and of partition keys, with the SQL function
--                add_partition_key, which refuses a rule that is not in the table.
--   Files        `write`, `metadata`, `exists`, `read`, `deleteFile`, `copyFile` and `sync` of
--                src/index.js, with the statements of src/lib/database/index.js and the functions
--                insert_file and update_file of src/schema/layer2-fs.sql. `Repo` is what stands behind
--                `CaskFs`: the tables and caches of `Acl`, the rows of `file` under their directory and
--                name, the key tables of `Metadata`, and what `Cas` keeps. `Write` has the transaction step by
--                step, with `patchMetadata` as it calls it, `Rows` the
--                statements, `Kinds` the types of a file, `Copy` what is built on a write. `Contents`
--                has the abstract view: a map from paths to bytes, of which a write and a deletion are
--                updates; `Removing`, `Moving`, `Syncing` and `Undoing` prove the other methods.
--   Ranges       src/controllers/fs.js: what GET of a file answers, from the headers of the request and the
--                size and the hash of the file, up to the stream of its bytes.
--   LinkedData   src/lib/ld.js and src/schema/layer3-ld.sql: linked data. `Quads` is what is taken of the
--                parsed quads, `Tables` the rows of filters, links and literals, which name their URIs,
--                `Links` the queries for the links between files, `Readable` and `Shown` who may read.
--                `Noted`, `Replaced` and `Exact` follow the quads into the tables, `Seen` and `Dual` the
--                tables into the answers.
--   Transfer     src/lib/transfer.js and src/bin/lib/transfer.js: export and import. `AclData` and
--                `RuleData` have the tables as JSON and their import, `Export` the hashes and files of an
--                archive, on what stands behind `CaskFs`, `Extract` the extraction, with `path.normalize`
--                and `path.resolve` written out. tar, gzip and JSON stand for what they carry.
--   Validation   src/controllers/validate.js: `Validator`.
--
-- Choices:
--   Names, paths and hashes are texts of character codes. Where the source tests whether a string is
--   there, an empty text counts as none. An id drawn by the database is the next number. A query's rows
--   come in the order of the table, where the source sorts, the table is taken in that order.
--   A transaction that throws leaves the tables as they were, and the caches as they are.
--   The recursion of setDirectoryAcl runs on a number that bounds its depth, two more than there are
--   directories: each level puts one more directory under the ACL, and stops at one that is. The walk
--   from a directory to its parents is bounded by the number of directories too, which a chain of
--   distinct parents does not exceed. Items inserted in batches take no more rounds than there are
--   items, which is enough for batches of at least one. All other loops run on lists and trees.
--   The n-th UUID of a temporary file, mime.getType, the values of the auto-path rules of a path and the
--   quads that the RDF library parses are fields of `Files.Repo.Host`, of which nothing is assumed but
--   what a theorem names. Writes run one after the other, so that the advisory lock of a path has no
--   part in it. A request that was checked is marked, as in the source, and is not checked again.
--   parseInt, trim and toLowerCase are written out on ASCII. A number read from a text is rounded to a
--   double, and infinite beyond them; those given as numbers are whole and below 10^21, or infinite.
--   Names of files and new partition keys are refused beyond the 256 characters of their columns. Names
--   of directories, roles, users and rules are taken to have room.
--
-- Not modelled: the parts that only call others or draw (the commands, the HTTP client and the
-- controllers but for Ranges and Validation, the pages), reading, searching and formatting linked data,
-- the loops that import the files of an archive, cloud storage and the buckets, the reading of git
-- data, copy and deleteDirectory, which walk a directory, and the columns for digests, sizes and
-- dates. URIs of linked data have room in their column. An environment whose name is a property of every
-- JavaScript object is not told apart from others.
pub mod Acl
pub mod AutoPath
pub mod Base
pub mod Cas
pub mod Crawl
pub mod Environments
pub mod Files
pub mod LinkedData
pub mod Listing
pub mod Metadata
pub mod Paths
pub mod Pool
pub mod Ranges
pub mod Transfer
pub mod Validation
