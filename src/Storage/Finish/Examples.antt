-- ===== src/Storage/Finish/Examples.antt =====
-- A server of network/S with one finished task, in a domain with one more server, which is away.
use pfs.Common.{refl, false, true, [], ◌∷◌, ◌==◌, if◌then◌else◌, pos, arith}
use pfs.Task.{Tasks, Env}
use pfs.Task.Types.{Tasklist, zero_base, zero_sub, task_q_fin, task_source, over_ok}
use pfs.Task.Invariant.{IsValid}
use pfs.Storage.Finish.{Server, Config, Round, on_line, do_fin_task}
use pfs.Storage.Finish.Drain.{Drained, do_fin_task-Drained}

abbrev finished : Tasklist
finished = record {
  base = record zero_base { filename = 47 ∷ 102 ∷ []; overstatus = over_ok };
  sub = record zero_sub { need_sync = task_source };
  last = pos 1;
  status = task_q_fin;
}

abbrev one_finished : Tasks
one_finished = record {
  queue = λ q. if q == task_q_fin then 0 ∷ [] else [];
  taskcount = λ q. if q == task_q_fin then pos 1 else pos 0;
  tasks = λ t. finished;
  fresh = 1;
}

one_finished-IsValid : IsValid (λ q. 0) one_finished
one_finished-IsValid = record {
  once = λ q t. ground arith;
  known = λ q t h. ground arith;
  counted = λ q. ground arith;
}

abbrev server : Server
server = record {
  storage = record { tasks = one_finished; sent = [] };
  flag = 0;
  total_sync_task = 0;
  total_synced_task = 0;
  self_stat = on_line;
  stamped = [];
}

abbrev config : Config
config = record { retry = 3; ip2str = λ ip. ip ∷ []; online_list = λ i. []; self_ip = 1 }

abbrev free : Env
free = record { lock = 0; now = 1000; malloc_ok = true; memory = finished }

abbrev round : Round
round = record {
  fin = free;
  put = free;
  members = (record { ip = 2; offline = false }, record { home = free; put = free }) ∷ [];
}

do_fin_task-Drained_example :
    Drained (λ q. 0) config one_finished (do_fin_task config (λ i. round) 2 server)
do_fin_task-Drained_example =
    do_fin_task-Drained (λ q. 0) config (λ i. round) 2 server (λ i. refl) (λ i. refl)
      (λ i. (refl, refl, refl, tt)) one_finished-IsValid (omega arith)
