-- ===== src/Lib.antt =====
-- Verification of 56pfs, a distributed store of photos and videos.
--
-- A storage server is a few processes around one event loop. network/pfs_so.c reads bytes from
-- connections into the buffers of lib/mybuff.c and calls the process: N answers clients where to
-- store a file, S passes tasks between servers, U takes uploads, D moves files between servers. They
-- exchange the packets of lib/protocol.c. Work to do is a task, which travels through the queues of
-- network/pfs_task.c, from thread to thread. network/pfs_localfile.c puts received files into place.
--
-- Which file models what:
--   Common      shared notation, lists, tests, and C integers.
--   Buffer      lib/mybuff.c. `Mybuff` is `struct mybuff`, with the memory block as a list; each
--               function has its name. Buffer/Pointer says what an old pointer shows.
--   Protocol    lib/protocol.c: `parse_sig_msg` and `create_sig_msg`.
--   Session     network/N/pfs_sig.c and network/S/pfs_sig.c: `check_req` and `svc_recv`, which are the
--               same in both, with the request handler as a parameter; Session/Chunks adds the read of
--               network/pfs_so.c.
--   Task        network/pfs_task.c and lib/pfs_task.h: `pfs_get_task`, `pfs_set_task`,
--               `init_task_info`, `do_timeout_task` and what they call. A task is a number that stands
--               for its address; a queue is the list of the tasks in it.
--   LocalFile   network/pfs_localfile.c: `trim_sep`, `storage_convert`, `open_tmp_localfile_4_write`,
--               `check_localfile_md5`, `close_tmp_check_mv`, over a file system that maps paths to
--               bytes.
--   Upload      network/U/pfs_up.c, network/U/pfs_up_task.c and network/U/pfs_up_sub.c: the part of
--               `svc_recv` that receives a file, the answers, and `svc_finiconn`. Upload/Request has
--               the requests and the whole of `svc_recv`, Upload/Names the names of new files, with
--               `get_max_free_storage` of network/pfs_init.c and `base64_encode` of lib/common.c.
--   Timer       network/pfs_timer.c.
--   Select      network/N/pfs_sig_sub.c: `get_valid_ip_4_up`, the storage server for an upload.
--               Select/Domains has network/N/pfs_sig_base.c: `check_more_half_online`, `sortdomain`
--               and the loop of `update_group_domain`, the domain for the uploads of a group;
--               Select/Domains/Table has the rest of `update_group_domain`, and
--               `get_domain_by_group`.
--   EventLoop   network/pfs_so.c: `do_send`, `do_recv`, `do_process`, with the process (`struct mylib`)
--               as a record of functions.
--   ActiveList  network/U/pfs_up.c and network/D/pfs_data.c: `activelist` and `svc_timeout`.
--   Transfer    network/D/pfs_data_base.c and network/D/pfs_data.c: the scheduler `check_task` with the
--               connections that it opens and asks for files. Transfer/Send has
--               network/D/pfs_data_task.c and the rest: `do_send_task`, `svc_send`, `svc_send_once`,
--               `svc_check_send` and `svc_finiconn`, on the connections of EventLoop.
--   Storage     network/S/pfs_sig_task.c: `sync_task_2_domain`, which passes a finished task on to the
--               other servers of the domain; Storage/Finish has `do_fin_task` of
--               network/S/pfs_sig_sub.c.
--   DelFile     network/pfs_del_file.c, and `do_sync_del_req` of network/S/pfs_sig_task.c.
--   Disks       network/pfs_init.c: `set_info_disk` and `refresh_disk_info`, the table of disks with
--               their directories; Disks/Choice has `get_max_free_storage` on a disk of the table.
--   Filter      network/pfs_file_filter.c: the patterns of file names.
--   Address     lib/util_ip.c and lib/util_hex.c: addresses and bytes as text, with `strtoul`.
--
-- What the system answers (locks, clock, allocator, write, open, rename) is an argument of each
-- operation, a record `Env`, `Heap`, `OpenSys`, `Sys`, `ReqSys`, `Turn`, `SendSys` or `Stat`. A
-- pointer that would be followed through NULL is the result `none` or `faulted`. Each `svc_recv` is
-- a loop on fuel; one unit more than the buffer has bytes is enough, since each round but the last
-- takes at least a head of four bytes. The loops of `check_task` have one more unit than there are
-- tasks in the queues that they take from. The digest of lib/md5.c and the bytes of a `t_task_base`
-- in memory are parameters. A `size_t` that is passed as an `int` is cut to its 32 bits, so that it
-- may become negative. The type `off_t` is taken to hold no negative number, and strings to fit
-- their fields where the source does not cut them.
--
-- Not modelled: logs, the plug-ins, the start of threads, `accept_new` and the wait for events,
-- which are system calls; the configuration; and of the processes N, S and D what is not named
-- above: the other requests of N and S, and in D the receive of a file, which is as in U.
pub mod ActiveList
pub mod Address
pub mod Buffer
pub mod Common
pub mod DelFile
pub mod Disks
pub mod EventLoop
pub mod Filter
pub mod LocalFile
pub mod Protocol
pub mod Select
pub mod Session
pub mod Storage
pub mod Task
pub mod Timer
pub mod Transfer
pub mod Upload
