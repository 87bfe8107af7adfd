-- ===== src/Upload.antt =====
-- network/U/pfs_up.c: the process that takes uploads. A connection receives a request, then the
-- bytes of a file, and answers when the file is in its place.
pub mod Receive
pub mod Names
pub mod Request
pub mod Outcome
pub mod Digest
pub mod Ownership
mod Examples
use pfs.Common.{
  ℕ, zero, suc, ◌+◌, ◌-◌, ◌*◌, ◌/◌, ◌%◌, ◌^◌, Bool, true, false, Option, none, some, List, [], ◌∷◌,
  ◌++◌, not, ◌||◌, ltb, leb, ◌==◌, if◌then◌else◌, length, take, drop, replicate, ℤ, pos, negsuc,
}
use pfs.Buffer.{Mybuff, mybuff_getdata, mybuff_skipdata}
use pfs.Buffer.Pointer.{block_of}
use pfs.Protocol.{create_sig_msg}
use pfs.Session.{recv_close, recv_add_epollin, recv_add_epollout, recv_send}
use pfs.LocalFile.{Disk, put_file, write_file, is_ok, is_negative, clip, close_tmp_check_mv}
use pfs.Task.{Tasks, Env, pfs_set_task, write}
use pfs.Task.Types.{
  TaskBase, TaskSub, Tasklist, task_q_fin, over_ok, over_e_md5, over_send_len, over_up_err,
  oper_up_req,
}

pub data SockStat : Type 0 where
  logout connected login idle prepare_recvfile recvfileing sendfileing : SockStat

-- `pfs_cs_peer`, without the fields that this process never reads. `ctx` holds the bytes that the
-- digest was given.
pub record Peer : Type 0 where
  pub fd : ℕ
  pub local_in_fd : ℤ
  pub hbtime : ℕ
  pub ip : ℕ
  pub sock_stat : SockStat
  pub close : Bool
  pub ctx : List ℕ
  pub recvtask : Option ℕ
  pub sendtask : Option ℕ

-- A connection with what it shares: the tasks and the file system. `send_data` is what its send
-- buffer holds, `epollout` says that the event loop was asked to send, `closed` are the descriptors
-- that were closed.
pub record Upload : Type 0 where
  pub peer : Peer
  pub recv_buff : Mybuff
  pub send_data : List ℕ
  pub epollout : Bool
  pub closed : List ℤ
  pub tasks : Tasks
  pub disk : Disk

-- What the system answers to one receive: the lock and the clock, how many bytes `write` wrote for
-- the count that it was asked (`none` is -1), whether `rename` works, the text that %m stands for,
-- the byte of memory behind `omd5`, and what `MD5Final` leaves of a context.
pub record Sys : Type 0 where
  pub env : Env
  pub written : ℕ → Option ℕ
  pub rename_ok : Bool
  pub errmsg : List ℕ
  pub behind : ℕ
  pub final : List ℕ → List ℕ

abbrev pub set_task : Env → ℕ → ℕ → Upload → Upload
set_task e t q u = record u { tasks = (pfs_set_task e t q u.tasks).0 }

abbrev pub set_over : ℕ → ℕ → Upload → Upload
set_over t over u =
    let v = u.tasks.tasks t in
    record u { tasks = write t (record v { base = record (v.base) { overstatus = over } }) u.tasks }

-- CMD_PUT_FILE_RSP, with a body. The connection is marked to be closed; this process never looks at
-- the mark.
abbrev pub put_file_rsp : ℕ
put_file_rsp = 0x16

pub send_rsp : List ℕ → Upload → Upload
send_rsp body u = record u {
  peer = record (u.peer) { close = true };
  send_data = u.send_data ++ create_sig_msg put_file_rsp 0 body (length body);
  epollout = true;
}

pub create_push_rsp_err : List ℕ → Upload → Upload
create_push_rsp_err errmsg u = send_rsp errmsg u

-- "OK|retfile|domain", filled up with NULs to 256 bytes.
pub create_push_rsp : List ℕ → TaskBase → Upload → Upload
create_push_rsp domain base u =
    let text = clip 255 (79 ∷ 75 ∷ 124 ∷ base.retfile ++ 124 ∷ domain) in
    send_rsp (text ++ replicate (256 - length text) 0) u

-- `int remainlen`, as `size_t`, of a difference of two `off_t`s: 32 bits, sign extended.
pub remain_limit : ℕ → ℕ → ℕ
remain_limit processlen lastlen =
    let m = (processlen + 2 ^ 64 - lastlen) % 2 ^ 32 in
    if ltb m (2 ^ 31) then m else m + 2 ^ 64 - 2 ^ 32

-- The first `n` of the bytes are written. The digest is given what is at `data` after the buffer
-- was moved.
pub take_bytes : Sys → ℕ → List ℕ → ℕ → Upload → Upload
take_bytes sys t bytes n u =
    let v = u.tasks.tasks t in
    let b = mybuff_skipdata u.recv_buff n in
    record u {
      recv_buff = b;
      disk = write_file u.peer.local_in_fd (take n bytes) u.disk;
      tasks = write t (record v { sub = record (v.sub) { lastlen = v.sub.lastlen + n } }) u.tasks;
      peer = record (u.peer) { ctx = u.peer.ctx ++ take n (block_of b.block) };
    }

module _ (md5 : List ℕ → List ℕ) (domain : List ℕ) where
  -- All bytes are there: the file goes to its place, or an error is answered.
  pub finish_file : Sys → ℕ → Upload → Upload × ℕ
  finish_file sys t u0 =
      let v = u0.tasks.tasks t in
      let digest = md5 u0.peer.ctx ++ sys.behind ∷ [] in
      let moved = close_tmp_check_mv md5 sys.rename_ok v.base u0.peer.local_in_fd digest u0.disk in
      let u = record u0 {
        peer = record (u0.peer) { ctx = sys.final u0.peer.ctx };
        disk = moved.0;
        closed =
            if is_negative u0.peer.local_in_fd
            then u0.closed
            else u0.closed ++ u0.peer.local_in_fd ∷ [];
      } in
      let bad =
        set_task sys.env t task_q_fin
          (set_over t over_e_md5 (record u { peer = record (u.peer) { recvtask = none } })) in
      let good = set_over t over_ok u in
      let told =
        if v.sub.oper_type == oper_up_req then create_push_rsp domain v.base good else good in
      let done = set_task sys.env t task_q_fin told in
      if is_ok moved.1
      then (
        record done {
          peer = record (done.peer) { local_in_fd = negsuc 0; recvtask = none; sock_stat = idle };
        },
        recv_send,
      )
      else (
        if v.sub.oper_type == oper_up_req
            then create_push_rsp_err
                (109 ∷ 100 ∷ 53 ∷ 32 ∷ 101 ∷ 114 ∷ 114 ∷ 111 ∷ 114 ∷ 32 ∷ sys.errmsg) bad
            else bad,
        recv_send,
      )

  -- What a receive does with the bytes of the buffer.
  pub recv_bytes : Sys → ℕ → List ℕ → Upload → Upload × ℕ
  recv_bytes sys t bytes u =
      let v = u.tasks.tasks t in
      let limit = remain_limit v.sub.processlen v.sub.lastlen in
      let datalen = if leb (length bytes) limit then length bytes else limit in
      elim (sys.written datalen) [
        | none ↦ (
          if v.sub.oper_type == oper_up_req
              then create_push_rsp_err
                  (119 ∷ 114 ∷ 105 ∷ 116 ∷ 101 ∷ 32 ∷ 101 ∷ 114 ∷ 114 ∷ 32 ∷ sys.errmsg) u
              else u,
          recv_add_epollout,
        )
        | some n ↦
            let u' = take_bytes sys t bytes n u in
            if leb v.sub.processlen (v.sub.lastlen + n)
            then finish_file sys t u'
            else (u', recv_add_epollin)
      ]

  -- The part of `svc_recv` for a connection that receives a file.
  pub recv_file : Sys → Upload → Upload × ℕ
  recv_file sys u0 =
      let u = record u0 { peer = record (u0.peer) { hbtime = sys.env.now } } in
      elim u.peer.recvtask [
        | none ↦ (u, recv_close)
        | some t ↦ elim (mybuff_getdata u.recv_buff) [
          | none ↦ (u, recv_add_epollin)
          | some bytes ↦ recv_bytes sys t bytes u
        ]
      ]

-- `unlink` of a file, and whether it works: a file that is not there makes no difference. Otherwise
-- only the log says so.
pub real_rm_file : Bool → List ℕ → Disk → Disk
real_rm_file unlinked file d =
    if unlinked then record d { content = put_file file none d.content } else d

-- `svc_finiconn`: tasks that the connection still has end with an error.
abbrev pub is_positive : ℤ → Bool
is_positive (pos n) = not (n == 0)
is_positive (negsuc n) = false

pub abort_send : Env → Option ℕ → Upload → Upload
abort_send e none u = u
abort_send e (some t) u = set_task e t task_q_fin (set_over t over_send_len u)

pub abort_recv : Bool → Env → Option ℕ → Upload → Upload
abort_recv unlinked e none u = u
abort_recv unlinked e (some t) u =
    let w = set_over t over_up_err u in
    set_task e t task_q_fin
      (record w { disk = real_rm_file unlinked ((w.tasks.tasks t).base.tmpfile) w.disk })

-- `unlinked` is the system's answer, and the locks are those of both puts.
pub svc_finiconn : Bool → Env → Env → Upload → Upload
svc_finiconn unlinked e e' u =
    let c =
      if is_positive u.peer.local_in_fd
      then record u { closed = u.closed ++ u.peer.local_in_fd ∷ [] }
      else u in
    abort_recv unlinked e' u.peer.recvtask (abort_send e u.peer.sendtask c)
