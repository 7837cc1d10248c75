-- ===== src/Lib.antt =====
-- A small file system in C over a pseudo disk: a server that keeps directories and files in zones of
-- 64 bytes, and a disk manager that keeps blocks of 512 bytes, connected by messages over sockets.
--
-- The parts, from below:
-- - Utils: src/utils.c. Utils.Text has C strings, Utils.Socket `send_msg` and `get_msg` over the
--   packets of a connection, Utils.Decimal `itoa`, Utils.Tokens `get_toks`.
-- - Layout: the structures of src/utils.h (`dentry_t`, `dir_zone_t`, `inode_t`, `idx_zone_t`) as
--   views of a zone's 64 bytes. A `signed short` is its bit pattern below 2 ^ 16.
-- - Alloc: src/alloc.c. Alloc.Bitmap has `map` and `get_state`, `set_state`, `get_free_id` and
--   `set_free_id`; Alloc.Cache has `b_cache` and `get_block`, `read_zone`, `write_zone` and
--   `free_cache`; Alloc.Startup has `format`, `alloc_init` and `alloc_final`. The state of all of
--   them is the record Machine of Alloc.Machine.
-- - Store: what src/fs_lib.c sees of the layers below. Store.Prog has its calls as programs, and
--   Store.Spec runs a program on zones and states without cache, blocks and bits. Alloc.Machine
--   runs the same program on the functions of src/alloc.c.
-- - Fs: src/fs_lib.c as such programs. Fs.Dir has `add_sub` and `add_sub_cont`; Fs.Remove
--   `rm_sub`, `rm_sub_cont` and `rm_tail_sub`; Fs.Release `rm_inode`, `rm_idx_zone`, `rm_dentry`
--   and `rm_dir_zone`; Fs.Listing `get_ls_len` and `show_sub_name`; Fs.Size `get_size` and
--   `show_mode`; Fs.Data `add_data`, `wrt_idx`, `wrt_data`, `update_size` and `get_cat_len`; Fs.Show
--   `show_file`, `show_dir`, `cat_dir`, `cat_file` and the functions that they share.
-- - Paths: src/path.c. A `path_t` is the list of its nodes up to `root_dir`, and `get_path` gives
--   back the string that its argument has become beside the path.
-- - Server: src/server.c. Each command is a program that is given `pwd` as a path; Server.Interpret
--   has `interpret`, which reads a request, performs it and passes `pwd` on to the next.
-- - Wire: two programs that talk over a connection, step by step. DiskMgr: src/disk_mgr.c as such a
--   program, and `read_block` and `write_block` of src/utils.c as the other (`fetch_block` and
--   `store_block`). Alloc.Cache has these two as functions on a disk of blocks.
-- - Remote: the functions of src/alloc.c once more, over the connection to the disk manager, and
--   with them `main` of src/server.c and the process of src/format.c from start to end.
-- - Process: the functions of src/utils.c that open and close connections, and the `main` functions,
--   as sequences of system calls; Process.Run has their runs on given answers.
-- - Client: src/client.c on the lines that the user types. Client.Serve has the server's side of it.
-- - DiskTest: the test of src/disk_test.c, on what `rand` gives.
-- - Base: lists over native numbers and Boolean tests. Tests: the theorems at concrete inputs.
--
-- Undefined behaviour of the C code (a null pointer, an index out of an array, a value that a function
-- does not return, a `strcpy` that does not fit) is a failure of the run: `none` in Alloc, `undefined`
-- in a run of a program. A recursion along a chain of zones on the disk, which may be a cycle, takes
-- fuel: the zones that it may still visit. For a directory, as much fuel as it has zones is enough,
-- since each call goes on to the next zone. The loop of `get_free_id` has its own bound
-- of 2 ^ 15 - 4 rounds. The recursion of a pointer zone with its flag is two functions without fuel.
--
-- The search of a path has as much fuel as its text is long, which is enough, since every call goes
-- on with a shorter text. `interpret` and `serv_loop` take the number of requests that they may
-- still answer.
--
-- The loop of `get_sub_path` reads past the end of a local variable: the bytes that it finds there
-- are given by the state (`strays`), different ones at each call.
--
-- What is not modelled: a read or write on an open connection that fails, waiting times, the end of
-- the terminal's input, and the messages to the terminal of all programs but the client. A `read`
-- returns bytes of one `write` of the peer, up to the size of the buffer; `time` gives the readings of
-- a clock that is part of the state. Paths are values, so `free_path` has no counterpart, and `cwd_to`
-- is the passing on of a path. `cmd_test` of src/disk_test.c, which nothing calls, is not modelled.
pub mod Base
pub mod Utils
pub mod Layout
pub mod Alloc
pub mod Store
pub mod Fs
pub mod Paths
pub mod Server
pub mod Wire
pub mod DiskMgr
pub mod Remote
pub mod Process
pub mod Client
pub mod DiskTest
pub mod Tests
