-- ===== src/Lib.antt =====
-- umsftpd: an SFTP server with a virtual file system, its sessions, its passphrases with one-time
-- codes, and its configuration.
--
-- The parts of the program stand side by side: main.c answers sessions of libssh by itself so far,
-- and does not call the others. Passphrases and codes (passdb.c on rfc6238.c), the configuration
-- (jsonconfig.c, rfc4648.c) and the file system (vfs.c) are complete in themselves; the shell of
-- vfsdebug.c uses the file system. vfs.c keeps a table of inodes, each with a virtual path, flags
-- to set and reset, and possibly a target directory of the host where it is mounted. A request is
-- made absolute and sanitised (strings.c), looked up along its prefixes (vfs.c, with `path_split`
-- of strings.c), mapped below the target of the deepest mountpoint, checked for symbolic links, and
-- opened. The names that an inode has below it are a list of strings (stringlist.c).
--
-- Files, paths from the root of the repository:
--   Paths.antt                 strings.c: `path_split`, `pathcmp`, `truncate_trailing_slash`,
--                              `sanitize_absolute_path`, `sanitize_path`, and the tests on paths
--   Paths/Checks.antt          strings.c: `path_contains_hidden`, `path_contains_symlink`, `strip_crlf`,
--                              `const_basename`
--   Paths/Names, Parts, Buffer the abstract view: a path as a list of names, a text as the parts between
--                              its slashes, and the buffer of the sanitiser as a stack of names
--   Paths/Sanitize, Split, Compare, Checks/Laws
--                              the byte-level functions against that view
--   StringList.antt            stringlist.c; Order, Sort and Search hold its theory
--   Vfs.antt                   vfs.h and vfs.c: flags, inodes, the state, `vfs_find_inode`,
--                              `vfs_set_cwd`, `vfs_init`
--   Vfs/Insert.antt            vfs.c: `vfs_add_single_inode`, `vfs_add_inode_splitter`, `vfs_add_inode`
--   Vfs/Lookup.antt            vfs.c: `vfs_lookup_splitter`, `vfs_lookup`, `vfs_freeze_inodes`
--   Vfs/Node.antt              vfs.c: `vfs_map_path`, `vfs_open_node`
--   Vfs/System, Handles, Stat, Readdir
--                              vfs.c: `vfs_errno_to_vfs_error`, `vfs_chdir`, `vfs_opendir`, `vfs_open`,
--                              `vfs_read`, `vfs_write`, `vfs_stat`, `vfs_readdir`
--   Vfs/Freeze                 vfs.c: `vfs_inode_comparator`, and the order of frozen inodes
--   Vfs/Release                vfs.c and stringlist.c: `vfs_free`, `stringlist_free`; Release/Fields and
--                              Once count what they release
--   Vfs/Table, Insert/*, Lookup/Deepest, Node/*, Handles/Laws, Readdir/*,
--   Vfs/Cwd, Keep, Unique, Reach, Reach/Distinct
--                              the table as a map from lists of names, and the theorems on it; Vfs/Fixture
--                              and Sorter serve the tests
--   Base32.antt                rfc4648.c: the base32 decoder; Base32/Laws holds its bounds and its end,
--                              Base32/Encode the encoding of RFC 4648 as its reference, Signs, Joins, Groups
--                              and RoundTrip the way back, Accepted the decoder without its failures
--   Totp.antt                  rfc6238.h and rfc6238.c: `rfc6238_new`, `rfc6238_generate`, and the calls of
--                              it at a time; Totp/Decimal, Truncation and Laws hold the text and value of it
--   Passdb.antt                passdb.h and passdb.c: derivation, `passdb_create_entry`,
--                              `passdb_attach_totp`, `passdb_validate_around`; Passdb/Window is the search
--                              for the offset, Laws and Accept the parts of the decision, Validate and
--                              Entries the whole; Passdb/Dump is `passdb_entry_dump`
--   Server.antt                main.c: the callbacks, `process_client_message`, the event loop and
--                              `handle_session`; Server/Listen is `start_server`
--   Server/Protocol            the order of a session as a step relation; Server/Laws, Turns, Loop, Replies hold
--                              the sessions of main.c against it
--   Jsonconfig.antt            jsonconfig.h and jsonconfig.c; Jsonconfig/Shape says which trees are
--                              configurations, Laws, Settings, Sections and Whole that the parser reads
--                              these
--   Logging.antt               logging.h and logging.c: `logmsg`, `llvl_set`; Logging/Reader reads its text back
--   Shell.antt                 vfsdebug.c: the lines of a user, the table of commands, help and the prompt
--   Shell/Handlers, Print, Dump
--                              vfsdebug.c: the handlers, what is printed for an entry (with `vfs_error_str`
--                              of vfs.c), and the dumps
--   Shell/Laws, Files, Stat, Safe, Whole
--                              the commands on a well-formed file system
--   Shell/Reader, Listing, Masked, Lines
--                              the listing: its lines read back, the modes, and which lines there are
--   Shell/Program              vfsdebug.c: `main` of `__VFS_SHELL__`; Table is the file system that it sets up,
--                              Guarded, Links, Mapped and Writes say what can be written there
--   Prelude/*                  Boolean tests, lists, strings, outcomes, bits, signed integers and the
--                              conversions of `printf`
--
-- The model. A string is the list of its bytes without the terminating zero. A function that
-- changes `struct vfs_t` takes the state and returns the new one. A NULL pointer is `none`, and a pointer
-- to memory that is released is a case of its own where the code hands it out; an
-- outcome `undefined` stands for a write outside a buffer or the use of a NULL pointer, so that a
-- theorem that a function returns `done` says that this does not happen. Which requests for memory
-- succeed is a function of the place and the path. What third parties do is a parameter: OpenSSL's
-- `HMAC` and key derivations, `getrandom` and the clock, the trees of json-c, and for a session of
-- libssh the list of its turns, each with the events of a poll and the results of the calls behind
-- it. `lstat`, `stat`, `opendir`, `fopen`, `fread`, `fwrite`, `fstatat` and what `readdir` gives
-- are parameters; so is the order in which `qsort` leaves inodes, of which a rearrangement is assumed,
-- and the order of the comparator where the order matters. The text of a time is a parameter, and
-- what the shell prints is a list of pieces on `stdout` and `stderr`. The pointer to an inode is its
-- index in the table when it was added.
--
-- Bounds. Every loop is structural recursion on the bytes or lists it runs over, but for the binary
-- search, whose fuel is the length of the list (each round at least halves the range, so that this
-- is enough), and the base32 decoder, which has a turn for each eight characters and one for the
-- rest. The search for a code has a turn for each slice of the window; a session has the turns that
-- it is given. The listing of the shell has a call for each name of the inode's list, for each entry of
-- the stream and for the end, and is undefined if these are used up; a file is at its end behind the
-- reads that are given. The overflow of `int` and `time_t` is undefined. The lengths of paths and lists are
-- natural numbers, that is, they are taken to fit `unsigned int` and `size_t`; flags are words of
-- 32 bits, uid and gid of 16.
--
-- Not modelled: the text of the error messages of vfs.c and which log messages the other files write;
-- `vfs_close_handle`, `rfc6238_free` and `jsonconfig_free`, which release memory and streams, and with
-- them the closing of handles by the shell; the commands of the shell that are not implemented do
-- nothing. Adding inodes is covered by theorems for paths without empty names, and but for the paths of
-- the inodes, for granted memory: a path with several slashes at its end adds an inode twice, or is
-- undefined. The theorem on the map of the inodes says nothing of the lists of subdirectories.
mod Prelude
pub mod Paths
pub mod StringList
pub mod Base32
pub mod Totp
pub mod Passdb
pub mod Server
pub mod Jsonconfig
pub mod Shell
pub mod Vfs
pub mod Logging
