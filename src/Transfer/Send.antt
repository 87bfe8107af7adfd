-- ===== src/Transfer/Send.antt =====
-- network/D/pfs_data.c and pfs_data_task.c: a file that another server asks for. `do_send_task`
-- answers and hands the file to the event loop, `svc_send` is told that all was sent, and
-- `svc_finiconn` ends the connection. What is followed through NULL is the result `none`.
pub mod Rounds
pub mod Files
pub mod Stops
mod Examples
use pfs.Common.{
  ℕ, zero, suc, ◌+◌, ◌%◌, ◌^◌, Bool, true, false, not, ◌&&◌, ◌||◌, Option, none, some, List, [],
  ◌∷◌, ◌++◌, drop, length, ltb, leb, ◌==◌, if◌then◌else◌, ℤ, pos, negsuc,
}
use pfs.Buffer.{Mybuff, Heap, mybuff_setdata, mybuff_setfile}
use pfs.EventLoop.{Conn, send_add_epollin, send_close}
use pfs.LocalFile.{LocalResult, localfile_ok, localfile_dir_e, localfile_file_e, is_ok}
use pfs.Protocol.{create_sig_msg}
use pfs.Task.{Tasks, Env, remove, update, pfs_get_task, pfs_set_task}
use pfs.Task.Types.{
  TaskBase, TaskSub, zero_sub, task_q_home, task_q_fin, task_q_send, task_q_wait, over_unknown,
  over_ok, over_send_len, over_e_open_srcfile, oper_get_rsp, task_src_nosync,
}
use pfs.Upload.{SockStat, logout, idle, sendfileing, is_positive}
use pfs.Upload.Request.{cmd_get_file_rsp, is_sendfileing}
use pfs.Transfer.{
  Transfer, Peer, set_task, set_content, set_peer, file_sync_dst_2_src, allmask, con_passive,
}

abbrev pub e_openfile : ℕ
e_openfile = 0x86

abbrev pub e_malloc : ℕ
e_malloc = 0x87

-- What the system answers to one request: the locks of `TASK_Q_HOME` and of the queue that the task
-- goes to, the clock, the times and size of the file, its digest, its descriptor, and the
-- allocator.
pub record SendSys : Type 0 where
  pub home : Env
  pub put : Env
  pub now : ℕ
  pub stat : Option (ℕ × ℕ)
  pub filemd5 : Option (List ℕ)
  pub opened : Option ℕ
  pub heap : Heap

-- The digest has 16 bytes; the field has one more.
pub get_localfile_stat : SendSys → TaskBase → TaskBase × LocalResult
get_localfile_stat sys b = elim sys.stat [
  | none ↦ (b, localfile_dir_e)
  | some (mtime, size) ↦
      let known = record b { mtime = mtime; fsize = size } in
      elim sys.filemd5 [
        | none ↦ (known, localfile_file_e)
        | some digest ↦ (record known { filemd5 = digest ++ drop 16 b.filemd5 }, localfile_ok)
      ]
]

abbrev pub with_user : Conn Transfer → Transfer → Conn Transfer
with_user c d = record c { user = d }

abbrev pub set_send : ℕ → SockStat → Option ℕ → Transfer → Transfer
set_send fd st o d = set_peer fd (record (d.peers fd) { sock_stat = st; sendtask = o }) d

-- The file is looked at when the request does not say its size, or was tried before.
pub known_file : SendSys → TaskBase → TaskBase × LocalResult
known_file sys base =
    if base.fsize == 0 || not (base.retry == 0)
    then get_localfile_stat sys base
    else (base, localfile_ok)

-- `ip2str` is the conversion of an address.
abbrev pub send_sub : (ℕ → List ℕ) → SendSys → ℕ → TaskBase → Transfer → TaskSub
send_sub ip2str sys fd base d = record zero_sub {
  peerip = ip2str (d.peers fd).ip;
  processlen = base.fsize;
  starttime = sys.now;
  oper_type = oper_get_rsp;
  need_sync = task_src_nosync;
}

-- The file is open, or not; and the status of the answer.
pub open_offer :
    SendSys → ℕ → TaskBase → TaskSub → ℕ → Conn Transfer → Transfer → Option ℕ → Conn Transfer × ℕ
open_offer sys fd base sub t c d none = (
  with_user c (
      set_task sys.put t task_q_fin
        (set_content t (record base { overstatus = over_e_open_srcfile }) sub d)),
  e_openfile,
)
open_offer sys fd base sub t c d (some lfd) = (
  record c {
    send_buff = (mybuff_setfile c.send_buff (some lfd) 0 base.fsize).0;
    closed = c.closed ++ (mybuff_setfile c.send_buff (some lfd) 0 base.fsize).1;
    user = set_send fd sendfileing (some t) (
        set_task sys.put t task_q_send
          (set_content t (record base { overstatus = over_unknown }) sub d));
  },
  file_sync_dst_2_src,
)

-- There is a task for the file, or not.
pub task_offer :
    (ℕ → List ℕ) → SendSys → ℕ → TaskBase → Conn Transfer → Transfer → Option ℕ → Conn Transfer × ℕ
task_offer ip2str sys fd base c d none = (with_user c d, e_malloc)
task_offer ip2str sys fd base c d (some t) =
    open_offer sys fd base (send_sub ip2str sys fd base d) t c d sys.opened

pub offer : (ℕ → List ℕ) → SendSys → ℕ → TaskBase → Conn Transfer → Bool → Conn Transfer × ℕ
offer ip2str sys fd base c false = (c, e_openfile)
offer ip2str sys fd base c true =
    let g = pfs_get_task sys.home task_q_home c.user.tasks in
    task_offer ip2str sys fd base c (record (c.user) { tasks = g.state }) g.task

-- The answer is in the send buffer, or there was no memory for it.
pub answered : ℕ → ℕ → Conn Transfer → Option Mybuff → Option (Conn Transfer)
answered fd n c none = none
answered fd n c (some b) = some (record c {
  send_buff = b;
  user = set_peer fd (record (c.user.peers fd) { headlen = n }) c.user;
})

-- The parameters are the size of the first block of a buffer, `ip2str`, and the bytes of a
-- `t_task_base` in memory.
module _ (init_buff_size : ℕ) (ip2str : ℕ → List ℕ) (encode : TaskBase → List ℕ) where
  abbrev pub response : TaskBase → ℕ → List ℕ
  response base status = create_sig_msg cmd_get_file_rsp status (encode base) (length (encode base))

  pub do_send_task : SendSys → ℕ → TaskBase → Conn Transfer → Option (Conn Transfer)
  do_send_task sys fd base c0 =
      let c = record c0 {
        send_len = 0;
        user = set_peer fd (record (c0.user.peers fd) { hbtime = sys.now }) c0.user;
      } in
      let r = known_file sys base in
      let o = offer ip2str sys fd r.0 c (is_ok r.1) in
      let packet = response r.0 o.1 in
      answered fd (length packet) o.0 (mybuff_setdata init_buff_size sys.heap o.0.send_buff packet)

-- `send_len >= total`, where `send_len` is an `int` and `total` has 64 bits.
pub sent_enough : ℕ → ℕ → Bool
sent_enough send_len total =
    let m = send_len % 2 ^ 32 in if ltb m (2 ^ 31) then leb total m else false

-- The task that is sent is over.
abbrev pub end_send : Env → ℕ → ℕ → ℕ → Transfer → Transfer
end_send e fd t how d =
    let v = d.tasks.tasks t in
    set_send fd idle none
      (set_task e t task_q_fin (set_content t (record (v.base) { overstatus = how }) v.sub d))

-- The verdict on the file, and what the event loop is to do.
pub told : Env → ℕ → ℕ → ℕ → Conn Transfer → Transfer → Bool → Conn Transfer × ℕ
told e fd t code c d true = (with_user c (end_send e fd t over_ok d), code)
told e fd t code c d false = (with_user c (end_send e fd t over_send_len d), send_close)

-- With `sock_stat == SENDFILEING`, `sendtask` and `headlen` of the connection.
pub serve_send :
    Env → ℕ → ℕ → Conn Transfer → Transfer → Bool → Option ℕ → ℕ → Option (Conn Transfer × ℕ)
serve_send e fd code c d false o head = some (with_user c d, code)
serve_send e fd code c d true none head = none
serve_send e fd code c d true (some t) head =
    some (told e fd t code c d (sent_enough c.send_len (head + (d.tasks.tasks t).sub.processlen)))

pub svc_send : Env → ℕ → Conn Transfer → Option (Conn Transfer × ℕ)
svc_send e fd c =
    let p = record (c.user.peers fd) { hbtime = e.now } in
    serve_send e fd (if p.close then send_close else send_add_epollin) c (set_peer fd p c.user)
      (is_sendfileing p.sock_stat) p.sendtask p.headlen

-- `now` is the time.
pub svc_send_once : ℕ → ℕ → Conn Transfer → Conn Transfer
svc_send_once now fd c =
    with_user c (set_peer fd (record (c.user.peers fd) { hbtime = now }) c.user)

-- Whether the result is negative; `size` is what `stat` says of the file.
pub svc_check_send : (List ℕ → Option ℕ) → ℕ → Conn Transfer → Bool
svc_check_send size fd c = elim (c.user.peers fd).sendtask [
  | none ↦ true
  | some t ↦
      let base = (c.user.tasks.tasks t).base in
      elim (size base.filename) [ none ↦ true | some n ↦ not (n == base.fsize) ]
]

-- The connection ends: a file that it sends is not sent again, one that it receives is asked for
-- again. Besides the process, the descriptors that are closed and the files that are removed.
pub record Finished : Type 0 where
  pub transfer : Transfer
  pub closed : List ℤ
  pub removed : List (List ℕ)

pub stop_send : Env → Option ℕ → Transfer → Transfer
stop_send e none d = d
stop_send e (some t) d =
    let v = d.tasks.tasks t in
    set_task e t task_q_fin (set_content t (record (v.base) { overstatus = over_send_len }) v.sub d)

-- `retry` has 8 bits.
pub stop_recv : Env → Option ℕ → Transfer → Transfer × List (List ℕ)
stop_recv e none d = (d, [])
stop_recv e (some t) d =
    let v = d.tasks.tasks t in
    (
      set_task e t task_q_wait
          (set_content t (record (v.base) { retry = (v.base.retry + 1) % 2 ^ 8 }) v.sub d),
      v.base.tmpfile ∷ [],
    )

pub svc_finiconn : Env → Env → ℕ → Transfer → Finished
svc_finiconn e e' fd d0 =
    let p = d0.peers fd in
    let d = record d0 {
      online_list =
          update d0.online_list (allmask p.ip) (remove fd (d0.online_list (allmask p.ip)));
    } in
    let r = stop_recv e' p.recvtask (stop_send e p.sendtask d) in
    record {
      transfer =
          set_peer fd
            (record {
              local_in_fd = pos 0;
              hbtime = 0;
              ip = 0;
              headlen = 0;
              sock_stat = logout;
              mode = con_passive;
              close = false;
              recvtask = none;
              sendtask = none;
            })
            r.0;
      closed = if is_positive p.local_in_fd then p.local_in_fd ∷ [] else [];
      removed = r.1;
    }
