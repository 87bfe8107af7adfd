-- ===== src/Transfer.antt =====
-- network/D/pfs_data.c and pfs_data_base.c: the process that transfers files between servers.
-- `check_task` takes the tasks that wait and asks other servers for their files. A connection is
-- named by its descriptor; the list of idle connections is in ActiveList.
pub mod Keeps
pub mod Turns
pub mod Schedule
pub mod Ways
pub mod Peers
pub mod Send
mod Examples
use pfs.Common.{
  ℕ, zero, suc, ◌+◌, ◌%◌, ◌^◌, Bool, true, false, not, ◌&&◌, Option, none, some, List, [], ◌∷◌,
  ◌++◌, ltb, leb, ◌==◌, if◌then◌else◌, ℤ, pos, negsuc,
}
use pfs.Address.{str2ip}
use pfs.LocalFile.{Disk, is_ok, storage_convert, check_localfile_md5}
use pfs.Task.{Tasks, Env, update, write, pfs_get_task, pfs_set_task}
use pfs.Task.Types.{
  TaskBase, TaskSub, Tasklist, task_q_wait, task_q_wait_tmp, task_q_sync_dir, task_q_sync_dir_tmp,
  task_q_fin, task_q_recv, over_ok, over_e_type, over_too_many_try, over_disk_err, oper_get_req,
  oper_from_poss, task_sync_isdir,
}
use pfs.Upload.{SockStat, idle, prepare_recvfile, connected}

pub data Mode : Type 0 where
  con_active con_passive : Mode

-- `pfs_cs_peer`, without the digest.
pub record Peer : Type 0 where
  pub local_in_fd : ℤ
  pub hbtime : ℕ
  pub ip : ℕ
  pub headlen : ℕ
  pub sock_stat : SockStat
  pub mode : Mode
  pub close : Bool
  pub recvtask : Option ℕ
  pub sendtask : Option ℕ

-- A packet for a connection: CMD_GET_FILE_REQ with its status and the task.
pub data Message : Type 0 where
  get_file_req : ℕ → TaskBase → Message

-- The connections, by address in `online_list` and by descriptor in `peers`, the tasks, and the
-- packets that were put into send buffers.
pub record Transfer : Type 0 where
  pub online_list : ℕ → List ℕ
  pub peers : ℕ → Peer
  pub tasks : Tasks
  pub sent : List (ℕ × Message)

-- `g_config`; `before` is the memory in front of a file's name.
pub record Config : Type 0 where
  pub datadir : List ℕ
  pub before : List ℕ
  pub md5 : List ℕ → List ℕ
  pub max_task_run_once : ℕ
  pub retry : ℕ
  pub max_data_connects : ℕ
  pub pfs_test : Bool

-- The results of `check_disk_space`; the last stands for DISK_ERR and LOCALFILE_DIR_E.
pub data DiskSpace : Type 0 where
  disk_ok disk_space_too_small disk_err : DiskSpace

-- What the system answers while one task is handled: the locks of `TASK_Q_WAIT`, of
-- `TASK_Q_SYNC_DIR` and of the queue that the task goes to, the file system, both calls of
-- `check_disk_space`, the clock, and the new connection with its address, if there is one.
pub record Turn : Type 0 where
  pub wait : Env
  pub sync_dir : Env
  pub put : Env
  pub disk : Disk
  pub space : DiskSpace
  pub space_again : DiskSpace
  pub now : ℕ
  pub connected : Option (ℕ × ℕ)

abbrev pub allmask : ℕ → ℕ
allmask ip = ip % 256

abbrev pub is_active : Mode → Bool
is_active con_active = true
is_active con_passive = false

abbrev pub is_idle : SockStat → Bool
is_idle idle = true
is_idle _ = false

abbrev pub is_disk_ok : DiskSpace → Bool
is_disk_ok disk_ok = true
is_disk_ok _ = false

abbrev pub is_too_small : DiskSpace → Bool
is_too_small disk_space_too_small = true
is_too_small _ = false

pub count_active : ℕ → (ℕ → Peer) → List ℕ → ℕ
count_active ip peers [] = 0
count_active ip peers (fd ∷ fds) =
    let rest = count_active ip peers fds in
    if ((peers fd).ip == ip) && is_active (peers fd).mode then suc rest else rest

pub get_ip_connect_count : ℕ → Transfer → ℕ
get_ip_connect_count ip d = count_active ip d.peers (d.online_list (allmask ip))

-- The first connection of a chain that this process opened to the address and that does nothing.
pub find_idle : ℕ → (ℕ → Peer) → List ℕ → Option ℕ
find_idle ip peers [] = none
find_idle ip peers (fd ∷ fds) =
    let rest = find_idle ip peers fds in
    if ((peers fd).ip == ip) && (is_active (peers fd).mode && is_idle (peers fd).sock_stat)
    then some fd
    else rest

-- `find_ip_stat` with CON_ACTIVE and IDLE, as it is called.
pub find_ip_stat : ℕ → Transfer → Option ℕ
find_ip_stat ip d = find_idle ip d.peers (d.online_list (allmask ip))

-- `memset`, and what differs from 0 then.
pub svc_initconn : ℕ → ℕ → ℕ → Transfer → Transfer
svc_initconn now fd ip d = record d {
  peers = update d.peers fd (record {
    local_in_fd = pos 0;
    hbtime = now;
    ip = ip;
    headlen = 0;
    sock_stat = SockStat.connected;
    mode = con_passive;
    close = false;
    recvtask = none;
    sendtask = none;
  });
  online_list = update d.online_list (allmask ip) (fd ∷ d.online_list (allmask ip));
}

pub active_connect : ℕ → Option (ℕ × ℕ) → Transfer → Transfer
active_connect now none d = d
active_connect now (some (fd, ip)) d =
    let c = svc_initconn now fd ip d in
    record c {
      peers = update c.peers fd (record (c.peers fd) { sock_stat = idle; mode = con_active });
    }

pub active_send : ℕ → ℕ → Message → Transfer → Transfer
active_send now fd m d = record d {
  peers = update d.peers fd (record (d.peers fd) { hbtime = now });
  sent = d.sent ++ (fd, m) ∷ [];
}

abbrev pub set_task : Env → ℕ → ℕ → Transfer → Transfer
set_task e t q d = record d { tasks = (pfs_set_task e t q d.tasks).0 }

abbrev pub set_content : ℕ → TaskBase → TaskSub → Transfer → Transfer
set_content t b sub d = record d {
  tasks = write t (record (d.tasks.tasks t) { base = b; sub = sub }) d.tasks;
}

-- The task is over.
abbrev pub over : Turn → ℕ → ℕ → Transfer → Transfer
over turn t how d =
    let v = d.tasks.tasks t in
    set_task turn.put t task_q_fin (set_content t (record (v.base) { overstatus = how }) v.sub d)

-- The task waits for the next call.
abbrev pub tmp_queue : Tasklist → ℕ
tmp_queue v = if v.sub.need_sync == task_sync_isdir then task_q_sync_dir_tmp else task_q_wait_tmp

abbrev pub put_back : Turn → ℕ → Transfer → Transfer
put_back turn t d = set_task turn.put t (tmp_queue (d.tasks.tasks t)) d

abbrev pub file_sync_dst_2_src : ℕ
file_sync_dst_2_src = 0x81

abbrev pub set_peer : ℕ → Peer → Transfer → Transfer
set_peer fd p d = record d { peers = update d.peers fd p }

module _ (cfg : Config) where
  -- The connection is asked for the file.
  pub fetch : Turn → ℕ → ℕ → Transfer → Transfer
  fetch turn t fd d =
      let v = d.tasks.tasks t in
      if cfg.pfs_test
      then over turn t over_ok d
      else (let asked =
            active_send turn.now fd (get_file_req file_sync_dst_2_src v.base)
              (set_content t v.base (record (v.sub) { lastlen = 0 }) d) in
          let waits =
            set_task turn.put t task_q_recv
              (set_peer fd (record (asked.peers fd) { sock_stat = prepare_recvfile }) asked) in
          set_peer fd (record (waits.peers fd) { recvtask = some t }) waits)

  -- There is no idle connection to the server: one is opened, if there are not too many.
  pub connect : Turn → ℕ → Transfer → Transfer
  connect turn t d =
      let ip = str2ip (d.tasks.tasks t).sub.peerip in
      let c = active_connect turn.now turn.connected d in
      if ltb cfg.max_data_connects (get_ip_connect_count ip d)
      then put_back turn t d
      else elim (find_ip_stat ip c) [ none ↦ put_back turn t c | some fd ↦ fetch turn t fd c ]

  -- The type of the task, and the space on the disk.
  pub check_space : Turn → ℕ → Transfer → Transfer
  check_space turn t d =
      let v = d.tasks.tasks t in
      let peer = find_ip_stat (str2ip v.sub.peerip) d in
      if not (v.sub.oper_type == oper_get_req) && not (v.sub.oper_type == oper_from_poss)
      then over turn t over_e_type d
      else if not (is_disk_ok turn.space)
      then (if is_too_small turn.space_again
          then put_back turn t d
          else over turn t over_disk_err d)
      else elim peer [ none ↦ connect turn t d | some fd ↦ fetch turn t fd d ]

  -- What `check_localfile_md5` makes of the name, when it is called.
  pub named : ℕ → Transfer → Transfer
  named t d =
      let v = d.tasks.tasks t in
      if ltb 0 v.base.fsize
      then set_content t (storage_convert cfg.datadir cfg.before v.base).0 v.sub d
      else d

  abbrev pub present : Turn → TaskBase → Bool
  present turn b =
      ltb 0 b.fsize && is_ok (check_localfile_md5 cfg.md5 turn.disk b.filename b.filemd5)

  -- One round of the last loop of `check_task`, with the task that it took.
  pub run_task : Turn → ℕ → Transfer → Transfer
  run_task turn t d =
      let n = named t d in
      if ltb cfg.retry (d.tasks.tasks t).base.retry
      then over turn t over_too_many_try d
      else if present turn (n.tasks.tasks t).base
      then over turn t over_ok n
      else check_space turn t n

-- The tasks of a queue go to another one, until there is none. `gets` and `puts` are the locks; on
-- enough fuel the loop ends by itself.
pub move_all : ℕ → ℕ → (ℕ → Env) → (ℕ → Env) → ℕ → Tasks → Option Tasks
move_all from to gets puts zero s = none
move_all from to gets puts (suc fuel) s =
    let g = pfs_get_task (gets fuel) from s in
    elim g.task [
      | none ↦ some g.state
      | some t ↦ move_all from to gets puts fuel (pfs_set_task (puts fuel) t to g.state).0
    ]

-- A task of `TASK_Q_WAIT`, or else of `TASK_Q_SYNC_DIR`.
pub next_task : Turn → Transfer → Transfer × Option ℕ
next_task turn d =
    let g = pfs_get_task turn.wait task_q_wait d.tasks in
    let h = pfs_get_task turn.sync_dir task_q_sync_dir g.state in
    elim g.task [
      | none ↦ (record d { tasks = h.state }, h.task)
      | some t ↦ (record d { tasks = g.state }, some t)
    ]

-- The last loop; `once_run` has 16 bits. Round `fuel` has its own answers.
pub run_all : Config → (ℕ → Turn) → ℕ → ℕ → Transfer → Option Transfer
run_all cfg turns zero once_run d = none
run_all cfg turns (suc fuel) once_run d =
    let n = (once_run + 1) % 2 ^ 16 in
    let r = next_task (turns fuel) d in
    elim (leb cfg.max_task_run_once n) [
      | true ↦ some d
      | false ↦ elim r.1 [
        | none ↦ some r.0
        | some t ↦ run_all cfg turns fuel n (run_task cfg (turns fuel) t r.0)
      ]
    ]

-- The locks of the first two loops.
pub record Locks : Type 0 where
  pub wait_tmp : ℕ → Env
  pub wait : ℕ → Env
  pub sync_dir_tmp : ℕ → Env
  pub sync_dir : ℕ → Env

-- Each loop has `fuel`.
pub check_task : Config → Locks → (ℕ → Turn) → ℕ → Transfer → Option Transfer
check_task cfg locks turns fuel d =
    elim (move_all task_q_wait_tmp task_q_wait locks.wait_tmp locks.wait fuel d.tasks) [
      | none ↦ none
      | some s ↦
          elim (move_all task_q_sync_dir_tmp task_q_sync_dir locks.sync_dir_tmp locks.sync_dir fuel
            s) [ none ↦ none | some s' ↦ run_all cfg turns fuel 0 (record d { tasks = s' }) ]
    ]
