-- ===== src/Transfer/Examples.antt =====
-- A server of network/D with one task that waits, and no connection yet.
use pfs.Common.{refl, true, false, none, some, [], ◌∷◌, ◌==◌, if◌then◌else◌, pos, arith}
use pfs.Address.{str2ip}
use pfs.Task.{Tasks, Env}
use pfs.Task.Types.{Tasklist, zero_base, zero_sub, task_q_wait, task_q_unknown, oper_get_req}
use pfs.Task.Invariant.{IsValid, Owned}
use pfs.Upload.{SockStat}
use pfs.Transfer.{Transfer, Peer, Config, Turn, Locks, con_passive, disk_ok, check_task, run_task}
use pfs.Transfer.Turns.{Queued, queued}
use pfs.Transfer.Schedule.{Returns, check_task-Returns, check_task-keeps}
use pfs.Transfer.Peers.{Fate, run_task-Fate}
use pfs.Transfer.Ways.{announced}

abbrev missing_file : Tasklist
missing_file = record {
  base = record zero_base { filename = 47 ∷ 102 ∷ []; fsize = 3; overstatus = 0 };
  sub = record zero_sub {
    oper_type = oper_get_req;
    peerip = 49 ∷ 46 ∷ 50 ∷ 46 ∷ 51 ∷ 46 ∷ 52 ∷ [];
  };
  last = pos 1;
  status = task_q_wait;
}

abbrev waiting : Tasks
waiting = record {
  queue = λ q. if q == task_q_wait then 0 ∷ [] else [];
  taskcount = λ q. if q == task_q_wait then pos 1 else pos 0;
  tasks = λ t. missing_file;
  fresh = 1;
}

waiting-IsValid : IsValid (λ q. 0) waiting
waiting-IsValid = record {
  once = λ q t. ground arith;
  known = λ q t h. ground arith;
  counted = λ q. ground arith;
}

abbrev no_peer : Peer
no_peer = record {
  local_in_fd = pos 0;
  hbtime = 0;
  ip = 0;
  headlen = 0;
  sock_stat = SockStat.logout;
  mode = con_passive;
  close = false;
  recvtask = none;
  sendtask = none;
}

abbrev server : Transfer
server = record { online_list = λ i. []; peers = λ fd. no_peer; tasks = waiting; sent = [] }

abbrev config : Config
config = record {
  datadir = 47 ∷ 100 ∷ [];
  before = [];
  md5 = λ bytes. [];
  max_task_run_once = 10;
  retry = 3;
  max_data_connects = 8;
  pfs_test = false;
}

abbrev free : Env
free = record { lock = 0; now = 1000; malloc_ok = true; memory = missing_file }

-- The server connects to the address that it asks for, and the connection gets descriptor 7.
abbrev one_turn : Turn
one_turn = record {
  wait = free;
  sync_dir = free;
  put = free;
  disk = record { content = λ p. none; path = λ fd. []; offset = λ fd. 0 };
  space = disk_ok;
  space_again = disk_ok;
  now = 1000;
  connected = some (7, str2ip missing_file.sub.peerip);
}

abbrev locks : Locks
locks = record {
  wait_tmp = λ i. free;
  wait = λ i. free;
  sync_dir_tmp = λ i. free;
  sync_dir = λ i. free;
}

check_task-Returns_example : Returns (λ q. 0) (check_task config locks (λ i. one_turn) 2 server)
check_task-Returns_example =
    check_task-Returns (λ q. 0) config (λ i. one_turn) locks 2 server waiting-IsValid (omega arith)

after_check : Returns (λ q. 0) (check_task config locks (λ i. one_turn) 2 server)
after_check =
    check_task-Returns (λ q. 0) config (λ i. one_turn) locks 2 server waiting-IsValid (omega arith)

waiting-Queued : Queued 0 waiting
waiting-Queued = queued task_q_wait (λ e. omega (arith, e)) (ground arith)

check_task-keeps_example : Queued 0 after_check.result.tasks
check_task-keeps_example =
    check_task-keeps (λ q. 0) config (λ i. one_turn) locks 2 server after_check.result 0 (λ i. refl)
      (λ i. refl) (λ i. refl) waiting-IsValid (omega arith) after_check.returns waiting-Queued

-- The task was taken.
abbrev taken : Tasks
taken = record {
  queue = λ q. [];
  taskcount = λ q. pos 0;
  tasks = λ t. record missing_file { status = task_q_unknown };
  fresh = 1;
}

abbrev taken_server : Transfer
taken_server = record server { tasks = taken }

taken-IsValid : IsValid (λ q. 0) taken
taken-IsValid = record {
  once = λ q t. ground arith;
  known = λ q t h. ground arith;
  counted = λ q. ground arith;
}

taken-Owned : Owned 0 taken
taken-Owned = record { exists = omega arith; unqueued = λ q. ground arith }

run_task-Fate_example :
    Fate
      (λ q. 0)
      (announced config one_turn missing_file.base)
      (str2ip missing_file.sub.peerip)
      0
      taken_server
      (run_task config one_turn 0 taken_server)
run_task-Fate_example =
    run_task-Fate config one_turn (λ q. 0) 0 taken_server refl taken-IsValid taken-Owned
      (λ fd h. refl) (λ fd ip e. refl)
