-- ===== src/Upload/Request/Examples.antt =====
-- Requests of an upload connection with an empty buffer, and with one packet in it.
use pfs.Common.{
  ℕ, ◌+◌, ◌≡◌, refl, true, false, none, some, List, [], ◌∷◌, length, pos, negsuc, arith,
}
use pfs.Buffer.Data.{view}
use pfs.Protocol.{SigHead}
use pfs.Task.{Env}
use pfs.Task.Types.{
  Tasklist, TaskBase, zero_base, zero_sub, task_q_unknown, task_delfile, task_addfile,
}
use pfs.Upload.{Sys, connected}
use pfs.Upload.Request.{Server, Config, ReqSys, do_recv_task, do_push_task, do_req, svc_recv}
use pfs.Upload.Request.Lifecycle.{Good, Answered, do_req-Answered}
use pfs.Upload.Request.Receive.{Finishes, svc_recv-Finishes}
use pfs.Upload.Request.Fault.{response_after_delete}

abbrev no_task : Tasklist
no_task = record { base = zero_base; sub = zero_sub; last = pos 1; status = task_q_unknown }

abbrev env : Env
env = record { lock = 0; now = 7; malloc_ok = true; memory = no_task }

-- A new connection, whose buffer holds the packet of a command that is not known.
abbrev new_connection : Server
new_connection = record {
  up = record {
    peer = record {
      fd = 4;
      local_in_fd = pos 0;
      hbtime = 0;
      ip = 1;
      sock_stat = connected;
      close = false;
      ctx = [];
      recvtask = none;
      sendtask = none;
    };
    recv_buff = record {
      block = some (0 ∷ 0 ∷ 99 ∷ 0 ∷ 0 ∷ []);
      size = 5;
      len = 4;
      fd = none;
      foffset = 0;
      flen = 0;
    };
    send_data = [];
    epollout = false;
    closed = [];
    tasks = record { queue = λ q. []; taskcount = λ q. pos 0; tasks = λ t. no_task; fresh = 0 };
    disk = record { content = λ p. none; path = λ fd. []; offset = λ fd. 0 };
  };
  pic_index = 0;
  g_index = 0;
  max_disk = none;
  removals = [];
}

new_connection-Good : Good (λ q. 0) new_connection.up
new_connection-Good = record {
  valid = record { once = λ q t. omega arith; known = λ q t h. ground arith; counted = λ q. refl };
  owns = tt;
  only_receiving = λ w. refl;
}

abbrev config : Config
config = record {
  datadir = 47 ∷ 100 ∷ [];
  dir1 = 10;
  self_ip = 1;
  domain = 100 ∷ [];
  basename = λ p. p;
  ip2str = λ ip. [];
  md5 = λ b. [];
}

abbrev req_sys : ReqSys
req_sys = record {
  home = env;
  other = env;
  open_sys = record {
    first = pos 5;
    enoent = false;
    dir_ok = true;
    second = negsuc 0;
    strtime = [];
  };
  rename_ok = true;
  before = [];
  before_body = [];
}

-- A body is read as an upload of "/x".
abbrev read_upload : List ℕ → TaskBase
read_upload body = record zero_base { filename = 47 ∷ 120 ∷ []; type = task_addfile }

abbrev put_head : SigHead
put_head = record { bodylen = 3; cmdid = 0x15; status = 1 }

do_req-Answered_example :
    Answered
      (λ q. 0)
      new_connection
      put_head
      (do_req config req_sys 3 read_upload put_head [] new_connection)
do_req-Answered_example =
    do_req-Answered (λ q. 0) config req_sys 3 read_upload put_head [] new_connection
      new_connection-Good refl

abbrev system : Sys
system = record {
  env = env;
  written = λ count. some count;
  rename_ok = true;
  errmsg = [];
  behind = 0;
  final = λ ctx. ctx;
}

svc_recv-Finishes_example :
    Finishes
      (λ q. 0)
      (svc_recv config 3 read_upload put_head [] system
        (λ k. req_sys)
        (length (view new_connection.up.recv_buff) + 1)
        new_connection)
svc_recv-Finishes_example =
    svc_recv-Finishes (λ q. 0) config 3 read_upload put_head [] system (λ k. req_sys) new_connection
      new_connection-Good (refl, omega arith, omega arith)

abbrev delete_base : TaskBase
delete_base = record zero_base { filename = 47 ∷ 120 ∷ []; type = task_delfile }

response_after_delete_example :
    do_recv_task config req_sys put_head zero_base
      (do_push_task config req_sys put_head delete_base new_connection).0
    ≡ none
response_after_delete_example =
    response_after_delete config req_sys req_sys put_head put_head delete_base zero_base
      new_connection refl refl refl
