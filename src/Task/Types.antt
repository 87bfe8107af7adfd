-- ===== src/Task/Types.antt =====
-- The structures and enumerations of lib/pfs_task.h and lib/pfs_api.h.
use pfs.Common.{ℕ, List, [], ℤ}

-- A C string is the list of its bytes without the NUL.
pub record TaskBase : Type 0 where
  pub filename : List ℕ
  pub tmpfile : List ℕ
  pub retfile : List ℕ
  pub filemd5 : List ℕ
  pub dstip : ℕ
  pub starttime : ℕ
  pub mtime : ℕ
  pub fsize : ℕ
  pub type : ℕ
  pub retry : ℕ
  pub overstatus : ℕ

pub record TaskSub : Type 0 where
  pub processlen : ℕ
  pub lastlen : ℕ
  pub lasttime : ℕ
  pub starttime : ℕ
  pub endtime : ℕ
  pub peerip : List ℕ
  pub oper_type : ℕ
  pub need_sync : ℕ
  pub sync_dir : ℕ

pub record Tasklist : Type 0 where
  pub base : TaskBase
  pub sub : TaskSub
  pub last : ℤ
  pub status : ℕ

-- memset(…, 0, …)
abbrev pub zero_base : TaskBase
zero_base = record {
  filename = [];
  tmpfile = [];
  retfile = [];
  filemd5 = [];
  dstip = 0;
  starttime = 0;
  mtime = 0;
  fsize = 0;
  type = 0;
  retry = 0;
  overstatus = 0;
}

abbrev pub zero_sub : TaskSub
zero_sub = record {
  processlen = 0;
  lastlen = 0;
  lasttime = 0;
  starttime = 0;
  endtime = 0;
  peerip = [];
  oper_type = 0;
  need_sync = 0;
  sync_dir = 0;
}

-- The queues.
abbrev pub task_q_delay : ℕ
task_q_delay = 0

abbrev pub task_q_wait : ℕ
task_q_wait = 1

abbrev pub task_q_wait_tmp : ℕ
task_q_wait_tmp = 2

abbrev pub task_q_wait_sync : ℕ
task_q_wait_sync = 3

abbrev pub task_q_wait_sync_ip : ℕ
task_q_wait_sync_ip = 4

abbrev pub task_q_wait_sync_dir : ℕ
task_q_wait_sync_dir = 5

abbrev pub task_q_wait_sync_dir_tmp : ℕ
task_q_wait_sync_dir_tmp = 6

abbrev pub task_q_sync_dir : ℕ
task_q_sync_dir = 7

abbrev pub task_q_sync_dir_tmp : ℕ
task_q_sync_dir_tmp = 8

abbrev pub task_q_run : ℕ
task_q_run = 9

abbrev pub task_q_fin : ℕ
task_q_fin = 10

abbrev pub task_q_clean : ℕ
task_q_clean = 11

abbrev pub task_q_home : ℕ
task_q_home = 12

abbrev pub task_q_send : ℕ
task_q_send = 13

abbrev pub task_q_recv : ℕ
task_q_recv = 14

abbrev pub task_q_sync_poss : ℕ
task_q_sync_poss = 15

abbrev pub task_q_sync_dir_req : ℕ
task_q_sync_dir_req = 16

abbrev pub task_q_sync_dir_rsp : ℕ
task_q_sync_dir_rsp = 17

abbrev pub task_q_unknown : ℕ
task_q_unknown = 18

-- How a task ended.
abbrev pub over_unknown : ℕ
over_unknown = 0

abbrev pub over_ok : ℕ
over_ok = 1

abbrev pub over_e_md5 : ℕ
over_e_md5 = 2

abbrev pub over_peererr : ℕ
over_peererr = 3

abbrev pub task_exist : ℕ
task_exist = 4

abbrev pub over_peerclose : ℕ
over_peerclose = 5

abbrev pub over_unlink : ℕ
over_unlink = 6

abbrev pub over_timeout : ℕ
over_timeout = 7

abbrev pub over_malloc : ℕ
over_malloc = 8

abbrev pub over_src_domain_err : ℕ
over_src_domain_err = 9

abbrev pub over_src_ip_offline : ℕ
over_src_ip_offline = 10

abbrev pub over_e_open_srcfile : ℕ
over_e_open_srcfile = 11

abbrev pub over_e_open_dstfile : ℕ
over_e_open_dstfile = 12

abbrev pub over_e_ip : ℕ
over_e_ip = 13

abbrev pub over_e_type : ℕ
over_e_type = 14

abbrev pub over_send_len : ℕ
over_send_len = 15

abbrev pub over_too_many_try : ℕ
over_too_many_try = 16

abbrev pub over_disk_err : ℕ
over_disk_err = 17

abbrev pub over_up_err : ℕ
over_up_err = 18

-- What a task does.
abbrev pub oper_idle : ℕ
oper_idle = 0

abbrev pub oper_get_req : ℕ
oper_get_req = 1

abbrev pub oper_get_rsp : ℕ
oper_get_rsp = 2

abbrev pub oper_sync_2_domain : ℕ
oper_sync_2_domain = 3

abbrev pub oper_put_req : ℕ
oper_put_req = 4

abbrev pub oper_put_rsp : ℕ
oper_put_rsp = 5

abbrev pub oper_up_req : ℕ
oper_up_req = 6

abbrev pub oper_from_poss : ℕ
oper_from_poss = 7

-- Where a task comes from.
abbrev pub task_dst : ℕ
task_dst = 0

abbrev pub task_source : ℕ
task_source = 1

abbrev pub task_src_nosync : ℕ
task_src_nosync = 2

abbrev pub task_sync_isdir : ℕ
task_sync_isdir = 3

abbrev pub task_sync_voss_file : ℕ
task_sync_voss_file = 4

-- The type of an operation: characters from '0' on.
abbrev pub task_addfile : ℕ
task_addfile = 48

abbrev pub task_delfile : ℕ
task_delfile = 49

abbrev pub task_modyfile : ℕ
task_modyfile = 50

abbrev pub task_syncdir : ℕ
task_syncdir = 51
