-- ===== src/Transfer/Peers.antt =====
-- The connections that `check_task` of network/D/pfs_data_base.c gives tasks to.
use pfs.Common.{
  ℕ, ◌<◌, ◌≡◌, ◌≢◌, sym, ap, ◌∙◌, subst, true, false, none, some, [], ◌∷◌, ◌++◌, arith, inl, inr,
}
use pfs.Address.{str2ip}
use pfs.Task.{Tasks, Env, pfs_set_task, lock_fails}
use pfs.Task.Invariant.{IsValid, Owned}
use pfs.Task.Puts.{set-Puts}
use pfs.Task.Types.{TaskBase, task_q_recv, task_q_unknown}
use pfs.Upload.{prepare_recvfile}
use pfs.Transfer.{Transfer, Config, Turn, get_file_req, file_sync_dst_2_src, run_task}
use pfs.Transfer.Ways.{
  IdleFree, Rest, rest_fin, rest_wait, rest_sync, Way, asks, stops, Unused, announced, run_task-Way,
}
use pfs.Transfer.Keeps.{Alike, Alike-IsValid, Alike-Owned}

-- The task went to the end of queue `q`, and the other queues are as they were.
pub record PutLast (off : ℕ → ℕ) (t q : ℕ) (s r : Tasks) : Type 0 where
  pub valid : IsValid off r
  pub at_end : r.queue q ≡ s.queue q ++ t ∷ []
  pub elsewhere : (j : ℕ) → j ≢ q → r.queue j ≡ s.queue j

-- What happens to the task `t` of server `ip`.
pub data Fate (off : ℕ → ℕ) (file : TaskBase) (ip t : ℕ) (d r : Transfer) : Type 0 where
  -- A connection to the server, which had no task, is asked for the file and waits for it.
  asked :
      (fd : ℕ)
      → (d.peers fd).recvtask ≡ none
      → (r.peers fd).ip ≡ ip
      → (r.peers fd).recvtask ≡ some t
      → (r.peers fd).sock_stat ≡ prepare_recvfile
      → r.sent ≡ d.sent ++ (fd, get_file_req file_sync_dst_2_src file) ∷ []
      → ((x : ℕ) → x ≢ fd → (r.peers x).recvtask ≡ (d.peers x).recvtask)
      → PutLast off t task_q_recv d.tasks r.tasks
      → IdleFree r
      → Fate off file ip t d r
  -- The task is over, or it waits; nothing is sent, and every connection keeps the task that it
  -- has.
  rests :
      (q : ℕ)
      → Rest q
      → r.sent ≡ d.sent
      → ((x : ℕ) → (r.peers x).recvtask ≡ (d.peers x).recvtask)
      → PutLast off t q d.tasks r.tasks
      → IdleFree r
      → Fate off file ip t d r

set-PutLast :
    (off : ℕ → ℕ) (e : Env) (t q : ℕ) (s w : Tasks)
    → lock_fails e ≡ false
    → q < task_q_unknown
    → IsValid off s
    → Owned t s
    → Alike s w
    → PutLast off t q s (pfs_set_task e t q w).0
set-PutLast off e t q s w free h v o a =
    elim (set-Puts off e w t q (Alike-IsValid off a v) (Alike-Owned t a o)) [
      | inl p ↦ record {
        valid = p.2.1.valid;
        at_end = p.2.1.at_end ∙ ap (λ k. k q ++ t ∷ []) a.queue;
        elsewhere = λ j n. p.2.1.elsewhere j n ∙ ap (λ k. k j) a.queue;
      }
      | inr (inl x, z) ↦ absurd (omega (arith, x, h))
      | inr (inr x, z) ↦ absurd (let c : false ≡ true = sym free ∙ x in cc)
    ]

Rest-lt : (q : ℕ) → Rest q → q < task_q_unknown
Rest-lt q rest_fin = omega arith
Rest-lt q rest_wait = omega arith
Rest-lt q rest_sync = omega arith

Way-Fate :
    (off : ℕ → ℕ) (e : Env) (file : TaskBase) (ip t : ℕ) (d r : Transfer)
    → lock_fails e ≡ false
    → IsValid off d.tasks
    → Owned t d.tasks
    → Way e file ip t d r
    → Fate off file ip t d r
Way-Fate off e file ip t d r free v o (asks fd w a i f g h k l m n) =
    asked fd a i f g h k
      (subst (λ x. PutLast off t task_q_recv d.tasks x) (sym m)
        (set-PutLast off e t task_q_recv d.tasks w free (omega arith) v o l))
      n
Way-Fate off e file ip t d r free v o (stops q w g h k l m n) =
    rests q g h k
      (subst (λ x. PutLast off t q d.tasks x) (sym m)
        (set-PutLast off e t q d.tasks w free (Rest-lt q g) v o l))
      n

module _ (cfg : Config) (turn : Turn) where
  -- A task that `check_task` took and owns, where the lock of the queue that it goes to is free, no
  -- connection that does nothing has a task, and a new connection gets a descriptor of none that
  -- has one: either a connection to the task's own server that had no task is sent the request for
  -- the task's file, has the task from then on and waits for the file, while the task goes to the
  -- end of the queue of those that are received; or nothing is sent, no connection gets a task, and
  -- the task goes to the end of the queue of finished tasks or of one of those that wait for the
  -- next call. The other queues are as they were and all stay in order, and no connection loses the
  -- task it has.
  pub run_task-Fate :
      (off : ℕ → ℕ) (t : ℕ) (d : Transfer)
      → lock_fails turn.put ≡ false
      → IsValid off d.tasks
      → Owned t d.tasks
      → IdleFree d
      → Unused cfg turn d
      → Fate off
          (announced cfg turn (d.tasks.tasks t).base)
          (str2ip (d.tasks.tasks t).sub.peerip)
          t
          d
          (run_task cfg turn t d)
  run_task-Fate off t d free v o f u =
      Way-Fate off turn.put _ _ t d _ free v o (run_task-Way cfg turn t d f u)
