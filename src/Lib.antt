-- ===== src/Lib.antt =====
-- The core of libxbps, the library of the X Binary Package System: how package names are read, how
-- a transaction gathers its packages, what it checks before it starts, which files it removes, and
-- which installed packages nothing needs.
--
-- A transaction is an array of package dictionaries. xbps_transaction_store puts packages into it,
-- xbps_transaction_check_conflicts, _revdeps and _shlibs compare it with the package database, and
-- xbps_transaction_files collects the files of its packages in a table, refuses conflicts, and
-- schedules the obsolete files for removal. While a package is unpacked,
-- xbps_entry_install_conf_file decides on each configuration file.
--
-- The files of this library and the sources they model:
--   Util/Pkgver.antt     lib/util.c: xbps_pkg_name, xbps_pkg_version, xbps_pkg_revision
--   Util/Pattern.antt    lib/util.c: xbps_pkgpattern_name, _version and _match, xbps_patterns_match
--   Util/Binpkg.antt     lib/util.c: xbps_binpkg_pkgver, xbps_binpkg_arch
--   Util/Slashes.antt    lib/util.c: xbps_sanitize_path
--   Match.antt           lib/plist_match.c
--   Arrays.antt          lib/plist_find.c: searches in arrays
--   Remove.antt          lib/plist_remove.c
--   Store.antt           lib/transaction_store.c
--   Dict.antt            lib/plist_find.c: searches in a dictionary such as the pkgdb
--   Virtual.antt         lib/plist_find.c: virtual packages; lib/pkgdb.c: xbps_pkgdb_get_pkg
--   Revdeps.antt         lib/pkgdb.c: generate_full_revdeps_tree, xbps_pkgdb_get_pkg_revdeps
--   Fulldeptree.antt     lib/package_fulldeptree.c; lib/pkgdb.c: xbps_pkgdb_get_pkg_fulldeptree
--   Orphans.antt         lib/package_orphans.c: xbps_find_pkg_orphans in automatic mode
--   Orphans/Recursive.antt, Orphans/Rounds.antt  lib/package_orphans.c: the recursive mode
--   Conflicts.antt       lib/transaction_check_conflicts.c
--   Breakage.antt        lib/transaction_check_revdeps.c; lib/util.c: xbps_pkg_is_ignored
--   Paths.antt           lib/util_path.c: xbps_path_append, _prepend, _join and _clean
--   State.antt           lib/package_state.c
--   Config.antt          lib/conf.c: parse_option
--   Files/Types.antt     lib/transaction_files.c: struct item, addItem
--   Files/Collect.antt   lib/transaction_files.c: lookupItem, collect_file, collect_files
--   Files/Sort.antt      lib/transaction_files.c: pathcmp and the order of the table
--   Files/Obsolete.antt  lib/transaction_files.c: can_delete_directory, collect_obsoletes
--   Files/Transaction.antt  lib/transaction_files.c: collect_binpkg_files, xbps_transaction_files
--   ConfFile.antt        lib/package_config_files.c
--   Shlibs.antt          lib/transaction_check_shlibs.c
--   Pkg.antt, Versions.antt  package dictionaries, parameters
--   Common.antt, Walks.antt  shared helpers
--   Tests.antt           runs on small inputs
-- Files below these hold their lemmas; each is named for what it shows.
--
-- C strings are lists of bytes without the final NUL. A dictionary is a record of the keys that
-- the code reads, with `none` for a missing key; numbers are natural, a subtraction on size_t is
-- written modulo 2^64. A function that returns an error number returns an option, one that may
-- abort the process a result with `abort`. The static table of transaction_files.c is the state
-- that collect_file passes on, as the static items of package_fulldeptree.c are of its walk. Loops
-- run over lists and are structural recursion, but for four, which run on fuel that never runs
-- out: the one of xbps_find_pkg_orphans in automatic mode, until nothing is added (one pass for
-- each package and one more); in recursive mode, its loop over an array that grows (one round for
-- each package named or installed, and one more); ordered_depends (one call for each package and
-- one more); and add_deps_recursive (one call for each item and one more).
--
-- Parameters: fnmatch, dewey_match and xbps_cmpver (lib/external/dewey.c, a copy of NetBSD code)
-- are fields of Versions; the directories, hashes and symlinks on disk, the file lists of binary
-- packages and of the package database, and the result of chdir are fields of Env and World.
-- bsearch is an argument of parse_option. What is assumed of them is said at each theorem: that a
-- version equals itself, and that bsearch finds a key that starts with the word, if there is one.
--
-- Not modelled: failed allocations, debug output and callbacks; the assertion that a link in a
-- file list has a target, and entries without a path; that the `replaces` array of a stored
-- package is shared with the dictionary it was copied from; the order in which qsort leaves paths
-- of one length (it is that of an insertion sort). xbps_path_rel is left out, and so are
-- dependency resolution, the search in the repository pool, the files of the configuration, the
-- check on replaced packages, unpacking, the files of the package database, repositories and the
-- programs; proplib and libfetch are copies of other projects.
pub mod Common
pub mod Pkg
pub mod Util
pub mod Versions
pub mod Match
pub mod Arrays
pub mod Remove
pub mod Store
pub mod Files
pub mod ConfFile
pub mod Dict
pub mod Virtual
pub mod Revdeps
pub mod Orphans
pub mod Walks
pub mod Fulldeptree
pub mod Breakage
pub mod Config
pub mod Conflicts
pub mod Paths
pub mod State
pub mod Shlibs
pub mod Tests
