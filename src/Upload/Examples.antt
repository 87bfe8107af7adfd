-- ===== src/Upload/Examples.antt =====
-- A connection of network/U/pfs_up.c that receives a file of five bytes, of which it has two.
use pfs.Common.{ℕ, ◌≡◌, ◌≢◌, ◌⊎◌, refl, true, false, none, some, List, [], ◌∷◌, arith, pos}
use pfs.Buffer.Data.{view}
use pfs.LocalFile.{Disk}
use pfs.Session.{recv_add_epollin, recv_send}
use pfs.Task.{Tasks, Env}
use pfs.Task.Types.{Tasklist, TaskBase, zero_base, zero_sub, task_q_unknown, oper_up_req}
use pfs.Task.Invariant
use pfs.Upload.{Upload, Sys, recvfileing, recv_file, finish_file, svc_finiconn}
use pfs.Upload.Receive.{Receiving, Writes, Receives, recv_file-Receives}
use pfs.Upload.Outcome.{Stored, Rejected, finish_file_lem}
use pfs.Upload.Ownership.{Ended, svc_finiconn-Ended}
use pfs.Upload.Digest.{recv_file_stalls}

abbrev file_base : TaskBase
file_base = record zero_base {
  filename = 102 ∷ [];
  tmpfile = 116 ∷ [];
  filemd5 = 9 ∷ 0 ∷ [];
  fsize = 5;
}

-- Task 0 waits for `size` bytes and has two of them.
abbrev receives_task : ℕ → Tasklist
receives_task size = record {
  base = file_base;
  sub = record zero_sub { processlen = size; lastlen = 2; oper_type = oper_up_req };
  last = pos 1;
  status = task_q_unknown;
}

abbrev owned_task : ℕ → Tasks
owned_task size = record {
  queue = λ q. [];
  taskcount = λ q. pos 0;
  tasks = λ t. receives_task size;
  fresh = 1;
}

abbrev two_written : Disk
two_written = record { content = λ p. some (9 ∷ 8 ∷ []); path = λ fd. 116 ∷ []; offset = λ fd. 2 }

abbrev receiver : ℕ → Upload
receiver size = record {
  peer = record {
    fd = 4;
    local_in_fd = pos 5;
    hbtime = 0;
    ip = 0;
    sock_stat = recvfileing;
    close = false;
    ctx = 9 ∷ 8 ∷ [];
    recvtask = some 0;
    sendtask = none;
  };
  recv_buff = record {
    block = some (1 ∷ 2 ∷ 3 ∷ 4 ∷ 0 ∷ []);
    size = 5;
    len = 4;
    fd = none;
    foffset = 0;
    flen = 0;
  };
  send_data = [];
  epollout = false;
  closed = [];
  tasks = owned_task size;
  disk = two_written;
}

receiver-Receiving : (size : ℕ) → Receiving 0 (9 ∷ 8 ∷ []) (receiver size)
receiver-Receiving size = record {
  task = refl;
  content = refl;
  at_end = refl;
  lastlen = refl;
  valid = (refl, omega arith, omega arith);
}

abbrev system : Sys
system = record {
  env = record { lock = 0; now = 7; malloc_ok = true; memory = receives_task 0 };
  written = λ count. some count;
  rename_ok = true;
  errmsg = [];
  behind = 0;
  final = λ ctx. ctx;
}

system-Writes : Writes system
system-Writes count n e = ground arith

abbrev first_byte : List ℕ → List ℕ
first_byte [] = []
first_byte (b ∷ bs) = b ∷ []

recv_file-Receives_example :
    Receives first_byte [] system 0 5
      (9 ∷ 8 ∷ [])
      (receiver 5)
      (recv_file first_byte [] system (receiver 5))
recv_file-Receives_example =
    recv_file-Receives first_byte [] system 0 (9 ∷ 8 ∷ []) (receiver 5) (receiver-Receiving 5)
      system-Writes (omega arith) (omega arith) (omega arith)

finish_file_lem_example :
    ((finish_file first_byte [] system 0 (receiver 2)).1 ≡ recv_send)
    × ((finish_file first_byte [] system 0 (receiver 2)).0.peer.recvtask ≡ none)
    × (Stored first_byte system 0
          (9 ∷ 8 ∷ [])
          (receiver 2)
          (finish_file first_byte [] system 0 (receiver 2)).0
        ⊎ Rejected 0 (receiver 2) (finish_file first_byte [] system 0 (receiver 2)).0)
finish_file_lem_example =
    finish_file_lem first_byte [] system 0 (9 ∷ 8 ∷ []) (receiver 2) (receiver-Receiving 2) refl
      differ
  where
    differ : file_base.tmpfile ≢ file_base.filename
    differ e = ground arith

-- Two bytes are there, and 4 GiB are missing.
recv_file_stalls_example :
    ((recv_file first_byte [] system (receiver 4294967298)).1 ≡ recv_add_epollin)
    × Receiving 0 (9 ∷ 8 ∷ []) (recv_file first_byte [] system (receiver 4294967298)).0
    × (view (recv_file first_byte [] system (receiver 4294967298)).0.recv_buff ≡ 1 ∷ 2 ∷ 3 ∷ 4 ∷ [])
    × (((recv_file first_byte [] system (receiver 4294967298)).0.tasks.tasks 0).sub.processlen
        ≡ 4294967298)
recv_file_stalls_example =
    recv_file_stalls first_byte [] system 0 0 (9 ∷ 8 ∷ []) (receiver 4294967298)
      (receiver-Receiving 4294967298) (omega arith) refl refl

owned_task-IsValid : pfs.Task.Invariant.IsValid (λ q. 0) (owned_task 5)
owned_task-IsValid = record {
  once = λ q t. omega arith;
  known = λ q t h. ground arith;
  counted = λ q. refl;
}

svc_finiconn-Ended_example :
    Ended (λ q. 0) true (receiver 5) (svc_finiconn true system.env system.env (receiver 5))
svc_finiconn-Ended_example =
    svc_finiconn-Ended (λ q. 0) true system.env system.env refl refl (receiver 5) owned_task-IsValid
      tt (record { exists = omega arith; unqueued = λ q. refl }) tt
