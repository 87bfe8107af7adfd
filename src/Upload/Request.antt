-- ===== src/Upload/Request.antt =====
-- The requests of an upload connection: `do_req` of network/U/pfs_up_sub.c, `do_push_task` and
-- `do_recv_task` of network/U/pfs_up_task.c, and `check_req` and `svc_recv` of network/U/pfs_up.c.
-- A NULL that would be followed is the result `none`.
pub mod Bytes
pub mod Lifecycle
pub mod Fault
mod Examples
pub mod Receive
use pfs.Common.{
  ℕ, zero, suc, ◌+◌, Bool, true, false, not, ◌&&◌, ◌||◌, Option, none, some, List, [], ◌∷◌, ◌++◌,
  ◌==◌, if◌then◌else◌, ℤ, pos, negsuc,
}
use pfs.Buffer.{mybuff_getdata, mybuff_skipdata}
use pfs.LocalFile.{
  Disk, OpenSys, Opened, open_tmp_localfile_4_write, Deleted, delete_localfile, is_ok, eqb,
}
use pfs.Protocol.{SigHead, Parsed, parse_sig_msg, is_positive, sig_headsize}
use pfs.Session.{is_close, recv_close, recv_add_epollin, recv_add_epollout, recv_send}
use pfs.Task.{Env, Got, pfs_get_task, write}
use pfs.Task.Types.{
  TaskBase, TaskSub, Tasklist, zero_sub, task_q_home, task_q_fin, task_q_clean, over_ok,
  over_e_open_srcfile, over_e_open_dstfile, oper_up_req, task_source, task_delfile,
}
use pfs.Upload.{
  Upload, Peer, Sys, SockStat, logout, connected, login, idle, prepare_recvfile, recvfileing,
  sendfileing, set_task, set_over, create_push_rsp, create_push_rsp_err, recv_file,
}
use pfs.Upload.Names.{
  MaxDisk, Named, get_local_filename, get_local_bname, get_max_free_storage, in_dirs,
}

abbrev pub is_prepare : SockStat → Bool
is_prepare prepare_recvfile = true
is_prepare _ = false

abbrev pub is_recvfileing : SockStat → Bool
is_recvfileing recvfileing = true
is_recvfileing _ = false

abbrev pub is_sendfileing : SockStat → Bool
is_sendfileing sendfileing = true
is_sendfileing _ = false

-- lib/protocol.h and lib/pfs_api.h
abbrev pub cmd_get_file_rsp : ℕ
cmd_get_file_rsp = 0x12

abbrev pub cmd_put_file_req : ℕ
cmd_put_file_req = 0x15

abbrev pub file_sync_dst_2_src : ℕ
file_sync_dst_2_src = 0x81

abbrev pub add_path_by_bname : ℕ
add_path_by_bname = 2

abbrev pub add_query_dir : ℕ
add_query_dir = 5

-- The process: the connection, the counters of names, and the files that wait for their removal.
pub record Server : Type 0 where
  pub up : Upload
  pub pic_index : ℕ
  pub g_index : ℕ
  pub max_disk : Option MaxDisk
  pub removals : List (List ℕ)

-- What the configuration says and the C library does: the data directory, DIR1, the own address and
-- domain, `basename`, `ip2str`, and the digest.
pub record Config : Type 0 where
  pub datadir : List ℕ
  pub dir1 : ℕ
  pub self_ip : ℕ
  pub domain : List ℕ
  pub basename : List ℕ → List ℕ
  pub ip2str : ℕ → List ℕ
  pub md5 : List ℕ → List ℕ

-- What the system answers to one request: the locks of TASK_Q_HOME and of the queue that the task
-- goes to, the open, the rename, and the memory in front of the two names.
pub record ReqSys : Type 0 where
  pub home : Env
  pub other : Env
  pub open_sys : OpenSys
  pub rename_ok : Bool
  pub before : List ℕ
  pub before_body : List ℕ

abbrev pub with_up : Server → Upload → Server
with_up s u = record s { up = u }

abbrev pub set_stat : SockStat → Upload → Upload
set_stat st u = record u { peer = record (u.peer) { sock_stat = st } }

abbrev pub set_recvtask : Option ℕ → Upload → Upload
set_recvtask o u = record u { peer = record (u.peer) { recvtask = o } }

abbrev pub set_base : ℕ → TaskBase → Upload → Upload
set_base t b u = record u { tasks = write t (record (u.tasks.tasks t) { base = b }) u.tasks }

-- if (peer->local_in_fd > 0) close(peer->local_in_fd);
pub close_local : Upload → Upload
close_local u =
    if pfs.Upload.is_positive u.peer.local_in_fd
    then record u { closed = u.closed ++ (u.peer.local_in_fd ∷ []) }
    else u

-- The temporary file is opened, or the task goes to TASK_Q_CLEAN. `answer` is what is sent then.
pub open_for_task : Config → ReqSys → ℕ → (Upload → Upload) → ℕ → Server → Server × ℕ
open_for_task cfg sys t answer failed s =
    let u = close_local s.up in
    let o =
      open_tmp_localfile_4_write cfg.datadir sys.before sys.open_sys s.g_index u.peer.local_in_fd
        u.disk (u.tasks.tasks t).base in
    let opened =
      set_base t o.task
        (record u { peer = record (u.peer) { local_in_fd = o.fd }; disk = o.disk }) in
    let after = record s { g_index = o.g_index } in
    if is_ok o.ret then (with_up after (set_stat recvfileing opened), recv_add_epollin) else (
      with_up after (
          answer (
            set_recvtask none
              (set_task sys.other t task_q_clean (set_over t over_e_open_dstfile opened)))),
      failed,
    )

-- "malloc error!", "open remote file err"
abbrev pub malloc_error : List ℕ
malloc_error = 109 ∷ 97 ∷ 108 ∷ 108 ∷ 111 ∷ 99 ∷ 32 ∷ 101 ∷ 114 ∷ 114 ∷ 111 ∷ 114 ∷ 33 ∷ []

abbrev pub open_error : List ℕ
open_error =
    111 ∷ 112 ∷ 101 ∷ 110 ∷ 32 ∷ 114 ∷ 101 ∷ 109 ∷ 111 ∷ 116 ∷ 101 ∷ 32 ∷ 102 ∷ 105 ∷ 108 ∷ 101 ∷ 32
    ∷ 101 ∷ 114 ∷ 114 ∷ []

-- A response to a request of this server for a file: `do_recv_task`. With no task it goes through
-- NULL.
pub do_recv_task : Config → ReqSys → SigHead → TaskBase → Server → Option (Server × ℕ)
do_recv_task cfg sys h base s =
    let refused : ℕ → Server × ℕ = λ t. (
      with_up s (
          set_recvtask none (
            set_task sys.other t task_q_fin (set_over t over_e_open_srcfile (set_stat idle s.up)))),
      recv_close,
    ) in
    let adopt : ℕ → Upload = λ t.
      let v = s.up.tasks.tasks t in
      if eqb v.base.filemd5 base.filemd5 then s.up else record (s.up) {
        tasks =
            write t (record v { base = base; sub = record (v.sub) { processlen = base.fsize } })
              s.up.tasks;
      } in
    if not (is_prepare s.up.peer.sock_stat) then some (s, recv_close) else elim s.up.peer.recvtask [
      | none ↦ none
      | some t ↦ some (
          if h.status == file_sync_dst_2_src
          then open_for_task cfg sys t (λ u. u) recv_close (with_up s (adopt t))
          else refused t)
    ]

pub do_query_other : Config → Server → Server
do_query_other cfg s =
    let d = get_max_free_storage cfg.dir1 s.max_disk in
    let base = record (pfs.Task.Types.zero_base) { retfile = in_dirs d.0 [] } in
    record s { up = create_push_rsp cfg.domain base s.up; max_disk = d.1 }

-- The name of the file, by the type and the way that the client asked for.
pub choose_name : Config → ℕ → SigHead → TaskBase → Server → Named
choose_name cfg now h base s =
    if base.type == task_delfile
    then record { base = base; pic_index = s.pic_index; max_disk = s.max_disk }
    else if h.status == 0
    then get_local_filename cfg.dir1 now cfg.self_ip s.pic_index s.max_disk base
    else if h.status == add_path_by_bname
    then get_local_bname cfg.dir1 cfg.basename s.pic_index s.max_disk base
    else record { base = base; pic_index = s.pic_index; max_disk = s.max_disk }

-- The task `t` of the upload is filled in.
pub start_task : Config → ℕ → ℕ → TaskBase → Upload → Upload
start_task cfg now t base u = set_recvtask (some t) (record u {
  tasks =
      write t
        (record (u.tasks.tasks t) {
          base = record base { starttime = now; dstip = u.peer.ip };
          sub = record zero_sub {
            peerip = cfg.ip2str u.peer.ip;
            processlen = base.fsize;
            starttime = now;
            oper_type = oper_up_req;
            need_sync = task_source;
          };
        })
        u.tasks;
})

-- The file of a delete request is renamed, its task is finished, and the answer is given.
pub delete_for_task : Config → ReqSys → ℕ → ℕ → TaskBase → Server → Server × ℕ
delete_for_task cfg sys now t base s =
    let r =
      delete_localfile cfg.datadir sys.before_body sys.rename_ok s.up.disk
        (record base { mtime = now }) in
    let v = s.up.tasks.tasks t in
    let dated =
      set_base t (record (v.base) { mtime = now; overstatus = over_ok })
        (record (s.up) { disk = r.disk }) in
    let done = set_recvtask none (set_task sys.other t task_q_fin dated) in
    (
      record s {
        up = create_push_rsp cfg.domain (dated.tasks.tasks t).base done;
        removals = s.removals ++ (elim r.removal [ none ↦ [] | some f ↦ f ∷ [] ]);
      },
      recv_send,
    )

-- An upload, or a file to delete, with what `pfs_get_task` gave.
pub push_got : Config → ReqSys → SigHead → TaskBase → Server → Got → Server × ℕ
push_got cfg sys h base s g =
    let n = choose_name cfg sys.home.now h base s in
    elim g.task [
      | none ↦ (
        with_up s (create_push_rsp_err malloc_error (record (s.up) { tasks = g.state })),
        recv_add_epollout,
      )
      | some t ↦
          let w = record s {
            up = start_task cfg sys.home.now t n.base (record (s.up) { tasks = g.state });
            pic_index = n.pic_index;
            max_disk = n.max_disk;
          } in
          if base.type == task_delfile
          then delete_for_task cfg sys sys.home.now t n.base w
          else open_for_task cfg sys t (create_push_rsp_err open_error) recv_add_epollout w
    ]

pub push_task : Config → ReqSys → SigHead → TaskBase → Server → Server × ℕ
push_task cfg sys h base s =
    push_got cfg sys h base (with_up s (set_stat prepare_recvfile s.up))
      (pfs_get_task sys.home task_q_home s.up.tasks)

pub do_push_task : Config → ReqSys → SigHead → TaskBase → Server → Server × ℕ
do_push_task cfg sys h base s =
    if (base.type == task_delfile) && (h.status == add_query_dir)
    then (do_query_other cfg s, recv_add_epollout)
    else push_task cfg sys h base s

-- `size` is sizeof(t_task_base), and `read_base` reads one from the body of a packet.
pub do_req :
    Config → ReqSys → ℕ → (List ℕ → TaskBase) → SigHead → List ℕ → Server → Option (Server × ℕ)
do_req cfg sys size read_base h body s =
    if h.cmdid == cmd_get_file_rsp
    then (if h.bodylen == size
        then do_recv_task cfg sys h (read_base body) s
        else some (s, recv_close))
    else if h.cmdid == cmd_put_file_req
    then (if h.bodylen == size
        then some (do_push_task cfg sys h (read_base body) s)
        else some (s, recv_close))
    else some (s, recv_close)

-- How a receive ends: the fuel is gone, a NULL was followed, or it returns.
pub data Run : Type 0 where
  no_fuel faulted : Run
  returns : Server → ℕ → Run

-- The loop of `svc_recv` reads requests until one says what to do next, until a file is to be
-- received or sent, or until no request is whole.
module _ (cfg : Config) (size : ℕ) (read_base : List ℕ → TaskBase) (h0 : SigHead)
    (b0 : List ℕ) where
  pub answer_req : ReqSys → Parsed → Server → Option (Server × Option ℕ)
  answer_req sys p s =
      if is_positive p.ret
      then some (s, none)
      else if is_close p.ret
      then some (s, some recv_close)
      else elim (do_req cfg sys size read_base p.head p.body s) [
        | none ↦ none
        | some r ↦ some (
          with_up r.0 (record (r.0.up) {
            recv_buff = mybuff_skipdata r.0.up.recv_buff (p.head.bodylen + sig_headsize);
          }),
          some r.1,
        )
      ]

  -- The inner `none` is -1.
  pub check_req : ReqSys → Server → Option (Server × Option ℕ)
  check_req sys s = elim (mybuff_getdata s.up.recv_buff) [
    | none ↦ some (s, none)
    | some bytes ↦ answer_req sys (parse_sig_msg h0 b0 bytes) s
  ]

  pub receive : Sys → Server → Server × ℕ
  receive sys s = let r = recv_file cfg.md5 cfg.domain sys s.up in (with_up s r.0, r.1)

  -- What the loop does after a request: stop, receive, or go on.
  pub after_req : Sys → Server → ℕ → Run → Run
  after_req sys s sub rest =
      if (sub == recv_add_epollout) || (sub == recv_send) || (sub == recv_close)
      then returns s sub
      else if is_recvfileing s.up.peer.sock_stat
      then returns (receive sys s).0 (receive sys s).1
      else if is_sendfileing s.up.peer.sock_stat
      then returns s recv_add_epollout
      else rest

  -- With fuel. Each round has its answers.
  pub recv_loop : Sys → (ℕ → ReqSys) → ℕ → Server → Run
  recv_loop sys reqs zero s = no_fuel
  recv_loop sys reqs (suc fuel) s = elim (check_req (reqs fuel) s) [
    | none ↦ faulted
    | some r ↦
        let rest = recv_loop sys reqs fuel r.0 in
        elim r.1 [ none ↦ returns r.0 recv_add_epollin | some sub ↦ after_req sys r.0 sub rest ]
  ]

  pub svc_recv : Sys → (ℕ → ReqSys) → ℕ → Server → Run
  svc_recv sys reqs fuel s =
      let u = s.up in
      let touched = with_up s (record u { peer = record (u.peer) { hbtime = sys.env.now } }) in
      let loop = recv_loop sys reqs fuel touched in
      if is_recvfileing s.up.peer.sock_stat
      then returns (receive sys touched).0 (receive sys touched).1
      else loop
