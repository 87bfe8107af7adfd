-- ===== src/Task.antt =====
-- lib/pfs_task.h and network/pfs_task.c: the tasks of a storage server and the queues that hold
-- them, one for each status. A task is named by a number, which stands for its address; `tasks`
-- says what is stored there. The counters are `int`s.
pub mod Types
pub mod Moves
pub mod Invariant
pub mod Puts
pub mod Requeue
pub mod Free
pub mod Init
pub mod Timeout
pub mod Sweep
pub mod Ledger
mod Examples
use pfs.Common.{
  leb, ℕ, zero, suc, ◌+◌, Bool, true, false, Option, none, some, List, [], ◌∷◌, ◌++◌, not, ◌||◌,
  ltb, ◌==◌, if◌then◌else◌, ℤ, pos, negsuc, inc_ℤ, dec_ℤ, ltb_ℤ,
}
use Types.{
  Tasklist, TaskBase, zero_base, zero_sub, task_q_unknown, task_q_home, task_q_clean, over_timeout,
}

-- The queues `pfstask`, the counters `taskcount`, and the memory of the tasks. Addresses from
-- `fresh` on are not allocated yet.
pub record Tasks : Type 0 where
  pub queue : ℕ → List ℕ
  pub taskcount : ℕ → ℤ
  pub tasks : ℕ → Tasklist
  pub fresh : ℕ

-- What the system answers during one call: the result of `pthread_mutex_timedlock`, the clock,
-- whether `malloc` gives memory, and what this memory holds.
pub record Env : Type 0 where
  pub lock : ℕ
  pub now : ℕ
  pub malloc_ok : Bool
  pub memory : Tasklist

abbrev pub edeadlk : ℕ
edeadlk = 35

abbrev pub update {ℓ} : {A : Type ℓ} → (ℕ → A) → ℕ → A → ℕ → A
update f i a j = if j == i then a else f j

pub remove : ℕ → List ℕ → List ℕ
remove t [] = []
remove t (x ∷ xs) = if x == t then xs else x ∷ remove t xs

-- list_del_init: out of whatever queue the task is in.
abbrev pub unlink : ℕ → Tasks → Tasks
unlink t s = record s { queue = λ j. remove t (s.queue j) }

abbrev pub count_down : ℕ → Tasks → Tasks
count_down q s = record s { taskcount = update s.taskcount q (dec_ℤ (s.taskcount q)) }

abbrev pub count_up : ℕ → Tasks → Tasks
count_up q s = record s { taskcount = update s.taskcount q (inc_ℤ (s.taskcount q)) }

abbrev pub write : ℕ → Tasklist → Tasks → Tasks
write t v s = record s { tasks = update s.tasks t v }

-- `n` more tasks, each at the front of `TASK_Q_HOME`.
pub fill : ℕ → Tasks → Tasks
fill zero s = s
fill (suc n) s = fill n (record s {
  queue = update s.queue task_q_home (s.fresh ∷ s.queue task_q_home);
  tasks =
      update s.tasks s.fresh
        (record { base = zero_base; sub = zero_sub; last = negsuc 0; status = task_q_home });
  fresh = s.fresh + 1;
})

-- The lists are emptied first, each before its mutex is made: `mutex_fails` is the first queue
-- whose mutex cannot be. The counters are cleared when the tasks are already in `TASK_Q_HOME`. `s`
-- is what memory holds.
pub init_task_info : Option ℕ → Bool → Tasks → Tasks × ℤ
init_task_info mutex_fails malloc_ok s =
    let empty = record s { queue = λ q. [] } in
    elim mutex_fails [
      | some i ↦ (record s { queue = λ q. if leb q i then [] else s.queue q }, negsuc 0)
      | none ↦
          if not malloc_ok
          then (empty, negsuc 0)
          else (record (fill 2048 empty) { taskcount = λ q. pos 0 }, pos 0)
    ]

-- The range check and the lock, which the calls share: an error to return, or nothing.
abbrev pub lock_fails : Env → Bool
lock_fails e = not (e.lock == 0 || e.lock == edeadlk)

pub record Got : Type 0 where
  pub state : Tasks
  pub task : Option ℕ
  pub ret : ℤ

-- From an empty `TASK_Q_HOME` a new task is allocated.
pub allocate : Env → Tasks → Got
allocate e s =
    if e.malloc_ok
    then record {
      state = record s {
        tasks =
            update s.tasks s.fresh (record e.memory { last = pos e.now; status = task_q_unknown });
        fresh = s.fresh + 1;
      };
      task = some s.fresh;
      ret = pos 0;
    }
    else record { state = s; task = none; ret = pos 1 }

-- The queue is locked: its first task, if it has one.
unfoldable pub take_first : Env → ℕ → List ℕ → Tasks → Got
take_first e q [] s =
    if q == task_q_home then allocate e s else record { state = s; task = none; ret = pos 1 }
take_first e q (t ∷ ts) s = record {
  state = record s {
    queue = update s.queue q ts;
    taskcount = update s.taskcount q (dec_ℤ (s.taskcount q));
    tasks = update s.tasks t (record (s.tasks t) { status = task_q_unknown });
  };
  task = some t;
  ret = pos 0;
}

-- A negative status fails the range check like one that is too large.
unfoldable pub pfs_get_task : Env → ℕ → Tasks → Got
pfs_get_task e q s =
    if not (ltb q task_q_unknown)
    then record { state = s; task = none; ret = negsuc 0 }
    else if lock_fails e
    then record { state = s; task = none; ret = pos e.lock }
    else take_first e q (s.queue q) s

-- The task goes to the end of the queue.
pub append_task : Env → ℕ → ℕ → Tasks → Tasks
append_task e t q s0 =
    let s = unlink t s0 in
    let v = s.tasks t in
    record s {
      queue = update s.queue q (s.queue q ++ t ∷ []);
      taskcount = update s.taskcount q (inc_ℤ (s.taskcount q));
      tasks =
          update s.tasks t
            (record v { status = q; last = if ltb_ℤ (pos 0) v.last then pos e.now else v.last });
    }

pub pfs_set_task : Env → ℕ → ℕ → Tasks → Tasks × ℤ
pfs_set_task e t q s =
    if not (ltb q task_q_unknown)
    then (s, negsuc 0)
    else if lock_fails e
    then (s, negsuc 0)
    else (append_task e t q s, pos e.lock)

-- The callback is called on each task that the queue has when the scan begins.
pub for_each : (ℕ → Tasks → Tasks) → List ℕ → Tasks → Tasks
for_each cb [] s = s
for_each cb (t ∷ ts) s = for_each cb ts (cb t s)

pub scan_some_status_task : Env → ℕ → (ℕ → Tasks → Tasks) → Tasks → Tasks × ℤ
scan_some_status_task e q cb s =
    if not (ltb q task_q_unknown)
    then (s, negsuc 0)
    else if lock_fails e
    then (s, negsuc 0)
    else (for_each cb (s.queue q) s, pos e.lock)

pub get_task_count : ℕ → Tasks → ℤ
get_task_count q s = if not (ltb q task_q_unknown) then negsuc 0 else s.taskcount q

-- `overstatus` after the clock was looked at: `cur - starttime > task_timeout`.
pub timed_out : ℕ → ℕ → TaskBase → ℕ
timed_out task_timeout now b =
    if ltb (b.starttime + task_timeout) now then over_timeout else b.overstatus

-- `e` is what the lock of `TASK_Q_HOME` and the clock answer.
pub check_task_timeout : ℕ → Env → ℕ → Tasks → Tasks
check_task_timeout task_timeout e t s =
    let v = s.tasks t in
    let over = timed_out task_timeout e.now v.base in
    if over == over_timeout
    then (pfs_set_task e t task_q_home (
        write t (record v { base = zero_base; sub = zero_sub })
          (count_down v.status (unlink t s)))).0
    else write t (record v { base = record (v.base) { overstatus = over } }) s

-- The queues `q`, `q + 1`, … , `n` of them; `locks` are the answers for the queues' own locks.
pub scan_queues : ℕ → (ℕ → Env) → (ℕ → Env) → ℕ → ℕ → Tasks → Tasks
scan_queues task_timeout locks home zero q s = s
scan_queues task_timeout locks home (suc n) q s =
    scan_queues task_timeout locks home n (q + 1)
      (scan_some_status_task (locks q) q (λ t. check_task_timeout task_timeout (home t) t) s).0

-- From `TASK_Q_DELAY` up to `TASK_Q_CLEAN`, without it.
pub do_timeout_task : Bool → ℕ → (ℕ → Env) → (ℕ → Env) → Tasks → Tasks
do_timeout_task check_enabled task_timeout locks home s =
    if check_enabled then scan_queues task_timeout locks home task_q_clean 0 s else s
