-- ===== src/Transfer/Send/Examples.antt =====
-- A connection of network/D that is asked for a file of three bytes, and one that ends.
use pfs.Common.{
  ℕ, ◌+◌, ◌^◌, ◌≤◌, ◌<◌, ◌≡◌, refl, true, false, none, some, List, [], ◌∷◌, length, ◌==◌,
  if◌then◌else◌, Option, ltb, pos, arith,
}
use pfs.Buffer.{
  Mybuff, mybuff_setdata, first_block, malloc, realloc, grow, room, store, copy_in, mybuff_setfile,
  mybuff_getdata, mybuff_skipdata, mybuff_getfile, mybuff_skipfile,
}
use pfs.Protocol.{create_sig_msg, put_u16}
use pfs.Buffer.Data.{view}
use pfs.EventLoop.{
  Answer, Conn, Mylib, Stage, eagain, send_add_epollin, send_close, transmit, data_stage, send_data,
  sent_data, file_stage, send_file, sent_file, send_once, modify_fd_event,
}
use pfs.EventLoop.Transmit.{pending, file_rest, Honest}
use pfs.Task.{Tasks, Env, pfs_get_task, take_first}
use pfs.Task.Types.{TaskBase, Tasklist, zero_base, zero_sub, task_q_home, task_q_send, task_q_recv}
use pfs.Task.Requeue.{Ordered}
use pfs.Upload.{SockStat}
use pfs.Transfer.{Transfer, Peer, con_active}
use pfs.LocalFile.{is_ok}
use pfs.Transfer.Send.{
  SendSys, known_file, offer, task_offer, open_offer, answered, svc_send_once, do_send_task,
  svc_send, svc_finiconn,
}
use pfs.Transfer.Send.Files.{Judged, do_send_task-Judged}
use pfs.Transfer.Send.Rounds.{Rounds, begin, round}
use pfs.Transfer.Send.Stops.{Stopped, svc_finiconn-Stopped}

abbrev three_bytes : TaskBase
three_bytes = record zero_base { filename = 47 ∷ 102 ∷ []; fsize = 3 }

abbrev some_task : Tasklist
some_task = record { base = three_bytes; sub = zero_sub; last = pos 1; status = task_q_home }

-- Task 0 is free, task 1 is sent, and task 2 is received.
abbrev queues : Tasks
queues = record {
  queue = λ q.
      if q == task_q_home
      then 0 ∷ []
      else if q == task_q_send
      then 1 ∷ []
      else if q == task_q_recv
      then 2 ∷ []
      else [];
  taskcount = λ q. pos 0;
  tasks = λ t. record some_task {
    status = if t == 0 then task_q_home else if t == 1 then task_q_send else task_q_recv;
  };
  fresh = 3;
}

queues-Ordered : Ordered queues
queues-Ordered = record { once = λ q t. ground arith; known = λ q t h. ground arith }

abbrev busy_peer : Peer
busy_peer = record {
  local_in_fd = pos 0;
  hbtime = 0;
  ip = 5;
  headlen = 0;
  sock_stat = SockStat.recvfileing;
  mode = con_active;
  close = false;
  recvtask = some 2;
  sendtask = some 1;
}

abbrev server : Transfer
server = record {
  online_list = λ i. if i == 5 then 7 ∷ [] else [];
  peers = λ fd. busy_peer;
  tasks = queues;
  sent = [];
}

abbrev free : Env
free = record { lock = 0; now = 1000; malloc_ok = true; memory = some_task }

svc_finiconn-Stopped_example :
    Stopped (some 1) (some 2) queues (svc_finiconn free free 7 server).transfer.tasks
svc_finiconn-Stopped_example =
    svc_finiconn-Stopped free free 7 server refl refl queues-Ordered (omega arith) (omega arith)
      (λ e. omega (arith, e))

abbrev empty_buff : Mybuff
empty_buff = record { block = none; size = 0; len = 0; fd = none; foffset = 0; flen = 0 }

abbrev asked : Conn Transfer
asked = record {
  is_open = true;
  send_len = 77;
  send_buff = empty_buff;
  recv_buff = empty_buff;
  epollout = false;
  wire = [];
  closed = [];
  user = server;
}

abbrev system : SendSys
system = record {
  home = free;
  put = free;
  now = 1000;
  stat = none;
  filemd5 = none;
  opened = some 9;
  heap = record { malloc_ok = true; realloc_ok = true; junk = 0 };
}

abbrev two_bytes : TaskBase → List ℕ
two_bytes b = 1 ∷ 2 ∷ []

abbrev files : ℕ → List ℕ
files fd = 6 ∷ 7 ∷ 8 ∷ []

first_free : (pfs_get_task free task_q_home queues).task ≡ some 0
unfolding pfs_get_task take_first
first_free = refl

size_known : is_ok (known_file system three_bytes).1 ≡ true
unfolding known_file
size_known = refl

size_kept : (known_file system three_bytes).0 ≡ three_bytes
unfolding known_file
size_kept = refl

request_fits : 0 + (4 + length (two_bytes (known_file system three_bytes).0)) + 1 < 2 ^ 64
request_fits = omega arith

file_whole : (known_file system three_bytes).0.fsize ≤ length (files 9)
file_whole = rw size_kept (omega arith)

-- The connection after the request.
abbrev or_asked : Option (Conn Transfer) → Conn Transfer
or_asked none = asked
or_asked (some c) = c

abbrev answer : Conn Transfer
answer = or_asked (do_send_task 8 (λ ip. []) two_bytes system 7 three_bytes asked)

answer-returns : do_send_task 8 (λ ip. []) two_bytes system 7 three_bytes asked ≡ some answer
unfolding do_send_task known_file offer task_offer open_offer answered mybuff_setdata first_block
    malloc realloc grow room store copy_in mybuff_setfile pfs_get_task take_first create_sig_msg
    put_u16
answer-returns = refl

-- A call takes at most so many bytes.
abbrev upto : ℕ → ℕ → Answer
upto most k = record { ret = pos (if ltb most k then most else k); errno = eagain }

upto-Honest : (most n : ℕ) → most ≤ n → Honest n (upto most ∷ [])
upto-Honest most n h = (λ k. (ground arith, ground arith), tt)

abbrev libs : ℕ → Mylib Transfer
libs i = record {
  svc_recv = λ c. (c, send_add_epollin);
  svc_send = λ c. (c, send_add_epollin);
  svc_finiconn = none;
  svc_send_once = some (svc_send_once (1000 + i) 7);
  svc_check_send = none;
}

-- Four bytes of the answer go out in the first round, and the rest with the file in the second.
abbrev or_stopped : Conn Transfer → Option (Stage Transfer) → Stage Transfer
or_stopped c none = record { conn = c; ret = send_close; n = pos 0 }
or_stopped c (some s) = s

abbrev first_stage : Stage Transfer
first_stage = or_stopped answer (transmit (libs 0) files (upto 4 ∷ []) [] answer)

first_stage-sent : transmit (libs 0) files (upto 4 ∷ []) [] answer ≡ some first_stage
unfolding do_send_task known_file offer task_offer open_offer answered mybuff_setdata first_block
    malloc realloc grow room store copy_in mybuff_setfile pfs_get_task take_first create_sig_msg
    put_u16 transmit data_stage send_data sent_data file_stage mybuff_getdata mybuff_skipdata
first_stage-sent = refl

abbrev after_one : Conn Transfer
after_one = send_once (libs 0) first_stage.n (modify_fd_event true first_stage.conn)

abbrev second_stage : Stage Transfer
second_stage = or_stopped after_one (transmit (libs 1) files (upto 2 ∷ []) (upto 3 ∷ []) after_one)

second_stage-sent :
    transmit (libs 1) files (upto 2 ∷ []) (upto 3 ∷ []) after_one ≡ some second_stage
unfolding do_send_task known_file offer task_offer open_offer answered mybuff_setdata first_block
    malloc realloc grow room store copy_in mybuff_setfile pfs_get_task take_first create_sig_msg
    put_u16 transmit data_stage send_data sent_data file_stage mybuff_getdata mybuff_skipdata
    mybuff_skipfile mybuff_getfile send_once modify_fd_event svc_send_once send_file sent_file
second_stage-sent = refl

abbrev after_two : Conn Transfer
after_two = send_once (libs 1) second_stage.n (modify_fd_event false second_stage.conn)

all_sent : pending files after_two ≡ []
unfolding do_send_task known_file offer task_offer open_offer answered mybuff_setdata first_block
    malloc realloc grow room store copy_in mybuff_setfile pfs_get_task take_first create_sig_msg
    put_u16 transmit data_stage send_data sent_data file_stage mybuff_getdata mybuff_skipdata
    mybuff_skipfile mybuff_getfile send_once modify_fd_event svc_send_once send_file sent_file
    pending
all_sent = refl

six_pending : length (view answer.send_buff) ≡ 6
unfolding do_send_task known_file offer task_offer open_offer answered mybuff_setdata first_block
    malloc realloc grow room store copy_in mybuff_setfile pfs_get_task take_first create_sig_msg
    put_u16
six_pending = refl

two_pending :
    (length (view after_one.send_buff) ≡ 2) × (length (file_rest files after_one.send_buff) ≡ 3)
unfolding do_send_task known_file offer task_offer open_offer answered mybuff_setdata first_block
    malloc realloc grow room store copy_in mybuff_setfile pfs_get_task take_first create_sig_msg
    put_u16 transmit data_stage send_data sent_data file_stage mybuff_getdata mybuff_skipdata
    send_once modify_fd_event svc_send_once
two_pending = (refl, refl)

both-Rounds : Rounds libs files answer after_two
both-Rounds =
    round after_one after_two 1 second_stage (upto 2 ∷ []) (upto 3 ∷ []) false
      (round answer after_one 0 first_stage (upto 4 ∷ []) [] true (begin answer refl)
        (upto-Honest 4 _ (omega (arith, six_pending))) tt first_stage-sent refl)
      (upto-Honest 2 _ (omega (arith, two_pending.0)))
      (upto-Honest 3 _ (omega (arith, two_pending.1))) second_stage-sent refl

do_send_task-Judged_example :
    (r : Conn Transfer × ℕ) × (svc_send free 7 after_two ≡ some r)
    × Judged (4 + 2 + (known_file system three_bytes).0.fsize) 0 7 r
do_send_task-Judged_example =
    do_send_task-Judged 8 (λ ip. []) two_bytes (omega arith) (omega arith) system refl refl 7
      three_bytes asked refl refl 0 9 refl size_known first_free request_fits files file_whole libs
      (λ i. 1000 + i) (λ i. refl) answer after_two free answer-returns both-Rounds all_sent
