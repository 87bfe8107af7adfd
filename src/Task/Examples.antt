-- ===== src/Task/Examples.antt =====
-- The queues of network/pfs_task.c with one waiting task, and one that a thread owns.
use pfs.Common.{none, ℕ, ◌≡◌, refl, true, List, [], ◌∷◌, ◌++◌, ◌==◌, if◌then◌else◌, pos, arith}
use pfs.Task.{Tasks, Env, pfs_get_task, do_timeout_task, init_task_info}
use pfs.Task.Types.{
  Tasklist, zero_base, zero_sub, task_q_wait, task_q_run, task_q_clean, task_q_unknown,
}
use pfs.Task.Invariant.{IsValid, Owned}
use pfs.Task.Init.{home_off, init-IsValid}
use pfs.Task.Ledger.{Op, get, put, run, Legal, taken, added, run-Ledger}
use pfs.Task.Sweep.{SweptAll, do_timeout_task-SweptAll}

abbrev zero_task : Tasklist
zero_task = record { base = zero_base; sub = zero_sub; last = pos 1; status = task_q_unknown }

abbrev no_off : ℕ → ℕ
no_off q = 0

abbrev free : Env
free = record { lock = 0; now = 1000; malloc_ok = true; memory = zero_task }

-- Task 0 waits, task 1 is owned.
abbrev one_waits : Tasks
one_waits = record {
  queue = λ q. if q == task_q_wait then 0 ∷ [] else [];
  taskcount = λ q. if q == task_q_wait then pos 1 else pos 0;
  tasks = λ t. record zero_task { status = if t == 0 then task_q_wait else task_q_unknown };
  fresh = 2;
}

one_waits-IsValid : IsValid no_off one_waits
one_waits-IsValid = record {
  once = λ q t. ground arith;
  known = λ q t h. ground arith;
  counted = λ q. ground arith;
}

one_waits-Owned : Owned 1 one_waits
one_waits-Owned = record { exists = omega arith; unqueued = λ q. ground arith }

init-IsValid_example :
    IsValid home_off (init_task_info none true (record one_waits { fresh = 0 })).0
init-IsValid_example = init-IsValid (record one_waits { fresh = 0 }) refl

-- A call on a queue that does not exist, one that cannot get its lock, and a task put away.
abbrev history : List Op
history = get free 99 ∷ get (record free { lock = 110 }) task_q_wait ∷ put free 1 task_q_run ∷ []

run-Ledger_example :
    IsValid no_off (run history one_waits)
    × (taken task_q_run history one_waits ++ (run history one_waits).queue task_q_run
        ≡ one_waits.queue task_q_run ++ added task_q_run history one_waits)
unfolding Legal pfs_get_task
run-Ledger_example =
    run-Ledger no_off history one_waits task_q_run one_waits-IsValid
      (tt, (tt, (one_waits-Owned, tt))) (λ w. omega (arith, w))

do_timeout_task-SweptAll_example :
    SweptAll 600
      (λ t. free)
      (λ t. refl)
      no_off
      (λ q. free)
      (λ q. refl)
      one_waits
      task_q_clean
      0
      (do_timeout_task true 600 (λ q. free) (λ t. free) one_waits)
do_timeout_task-SweptAll_example =
    do_timeout_task-SweptAll 600 (λ t. free) (λ t. refl) no_off (λ q. free) (λ q. refl) one_waits
      one_waits-IsValid
