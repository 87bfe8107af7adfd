-- ===== src/Transfer/Keeps.antt =====
-- Where `check_task` of network/D/pfs_data_base.c puts the tasks that it takes.
use pfs.Common.{
  ℕ, ◌≡◌, refl, ◌∙◌, subst, not, ◌&&◌, Option, none, some, ltb, ◌==◌, inl, inr, Bool-cases,
  Option-cases, ==_iff,
}
use pfs.Address.{str2ip}
use pfs.Task.{Tasks, Env, pfs_set_task}
use pfs.Task.Types.{
  TaskBase, TaskSub, task_q_wait_tmp, task_q_sync_dir_tmp, task_q_fin, task_q_recv, over_ok,
  over_e_type, over_too_many_try, over_disk_err, oper_get_req, oper_from_poss, task_sync_isdir,
}
use pfs.Task.Invariant.{IsValid, Owned}
use pfs.Transfer.{
  Transfer, Config, Turn, active_connect, svc_initconn, active_send, set_content, over, put_back,
  fetch, connect, check_space, named, present, run_task, find_ip_stat, get_ip_connect_count,
  is_disk_ok, is_too_small,
}

-- The two states differ in what tasks are about only.
pub record Alike (s r : Tasks) : Type 0 where
  pub queue : r.queue ≡ s.queue
  pub taskcount : r.taskcount ≡ s.taskcount
  pub fresh : r.fresh ≡ s.fresh
  pub status : (u : ℕ) → (r.tasks u).status ≡ (s.tasks u).status

pub Alike-refl : (s : Tasks) → Alike s s
Alike-refl s = record { queue = refl; taskcount = refl; fresh = refl; status = λ u. refl }

pub Alike-trans : {s r w : Tasks} → Alike s r → Alike r w → Alike s w
Alike-trans a b = record {
  queue = b.queue ∙ a.queue;
  taskcount = b.taskcount ∙ a.taskcount;
  fresh = b.fresh ∙ a.fresh;
  status = λ u. b.status u ∙ a.status u;
}

pub set_content-Alike :
    (t : ℕ) (b : TaskBase) (sub : TaskSub) (d : Transfer)
    → Alike d.tasks (set_content t b sub d).tasks
set_content-Alike t b sub d = record {
  queue = refl;
  taskcount = refl;
  fresh = refl;
  status =
      λ u. elim (Bool-cases (u == t)) [ inl y ↦ rw (y, (==_iff u t).0 y) refl | inr n ↦ rw n refl ];
}

pub Alike-IsValid : (off : ℕ → ℕ) {s r : Tasks} → Alike s r → IsValid off s → IsValid off r
Alike-IsValid off a v = record {
  once = λ q t. rw a.queue (v.once q t);
  known = λ q t h. let k = v.known q t (rw a.queue at h) in (a.status t ∙ k.0, rw a.fresh (k.1));
  counted = λ q. rw (a.taskcount, a.queue) (v.counted q);
}

pub Alike-Owned : {s r : Tasks} (t : ℕ) → Alike s r → Owned t s → Owned t r
Alike-Owned t a o = record {
  exists = rw a.fresh o.exists;
  unqueued = λ q. rw a.queue (o.unqueued q);
}

-- The queues that a task goes to.
pub data Target : ℕ → Type 0 where
  to_fin : Target task_q_fin
  to_recv : Target task_q_recv
  to_wait : Target task_q_wait_tmp
  to_sync : Target task_q_sync_dir_tmp

-- The task was changed, and then it was put into one of them.
pub data Ends (e : Env) (t : ℕ) (s r : Tasks) : Type 0 where
  ends : (q : ℕ) (w : Tasks) → Target q → Alike s w → r ≡ (pfs_set_task e t q w).0 → Ends e t s r

Ends-alike : (e : Env) (t : ℕ) {s w r : Tasks} → Alike s w → Ends e t w r → Ends e t s r
Ends-alike e t a (ends q w' k b z) = ends q w' k (Alike-trans a b) z

over-Ends :
    (turn : Turn) (t how : ℕ) (d : Transfer) → Ends turn.put t d.tasks (over turn t how d).tasks
over-Ends turn t how d = ends task_q_fin _ to_fin (set_content-Alike t _ _ d) refl

put_back-Ends :
    (turn : Turn) (t : ℕ) (d : Transfer) → Ends turn.put t d.tasks (put_back turn t d).tasks
put_back-Ends turn t d = elim (Bool-cases ((d.tasks.tasks t).sub.need_sync == task_sync_isdir)) [
  | inl y ↦ rw y (ends task_q_sync_dir_tmp _ to_sync (Alike-refl d.tasks) refl)
  | inr n ↦ rw n (ends task_q_wait_tmp _ to_wait (Alike-refl d.tasks) refl)
]

active_connect-tasks :
    (now : ℕ) (o : Option (ℕ × ℕ)) (d : Transfer) → (active_connect now o d).tasks ≡ d.tasks
unfolding active_connect svc_initconn
active_connect-tasks now none d = refl
active_connect-tasks now (some (fd, ip)) d = refl

module _ (cfg : Config) where
  fetch-Ends :
      (turn : Turn) (t fd : ℕ) (d : Transfer)
      → Ends turn.put t d.tasks (fetch cfg turn t fd d).tasks
  unfolding fetch active_send
  fetch-Ends turn t fd d = elim (Bool-cases cfg.pfs_test) [
    | inl y ↦ rw y (over-Ends turn t over_ok d)
    | inr n ↦ rw n (ends task_q_recv _ to_recv (set_content-Alike t _ _ d) refl)
  ]

  connect-Ends :
      (turn : Turn) (t : ℕ) (d : Transfer) → Ends turn.put t d.tasks (connect cfg turn t d).tasks
  unfolding connect
  connect-Ends turn t d =
      let c = active_connect turn.now turn.connected d in
      let same = active_connect-tasks turn.now turn.connected d in
      elim (Bool-cases (
        ltb cfg.max_data_connects (get_ip_connect_count (str2ip (d.tasks.tasks t).sub.peerip) d))) [
          | inl y ↦ rw y (put_back-Ends turn t d)
          | inr n ↦
              rw n (elim (Option-cases (find_ip_stat (str2ip (d.tasks.tasks t).sub.peerip) c)) [
                | inl z ↦ rw z (
                    subst (λ s. Ends turn.put t s (put_back turn t c).tasks) same
                      (put_back-Ends turn t c))
                | inr (fd, z) ↦ rw z (
                    subst (λ s. Ends turn.put t s (fetch cfg turn t fd c).tasks) same
                      (fetch-Ends turn t fd c))
              ])
        ]

  check_space-Ends :
      (turn : Turn) (t : ℕ) (d : Transfer)
      → Ends turn.put t d.tasks (check_space cfg turn t d).tasks
  unfolding check_space
  check_space-Ends turn t d =
      let v = d.tasks.tasks t in
      elim (Bool-cases
        (not (v.sub.oper_type == oper_get_req) && not (v.sub.oper_type == oper_from_poss))) [
          | inl y ↦ rw y (over-Ends turn t over_e_type d)
          | inr n ↦ rw n (elim (Bool-cases (not (is_disk_ok turn.space))) [
            | inl y ↦ rw y (elim (Bool-cases (is_too_small turn.space_again)) [
              | inl z ↦ rw z (put_back-Ends turn t d)
              | inr z ↦ rw z (over-Ends turn t over_disk_err d)
            ])
            | inr m ↦ rw m (elim (Option-cases (find_ip_stat (str2ip v.sub.peerip) d)) [
              | inl z ↦ rw z (connect-Ends turn t d)
              | inr (fd, z) ↦ rw z (fetch-Ends turn t fd d)
            ])
          ])
        ]

  named-Alike : (t : ℕ) (d : Transfer) → Alike d.tasks (named cfg t d).tasks
  unfolding named
  named-Alike t d = elim (Bool-cases (ltb 0 (d.tasks.tasks t).base.fsize)) [
    | inl y ↦ rw y (set_content-Alike t _ _ d)
    | inr n ↦ rw n (Alike-refl d.tasks)
  ]

  pub run_task-Ends :
      (turn : Turn) (t : ℕ) (d : Transfer) → Ends turn.put t d.tasks (run_task cfg turn t d).tasks
  unfolding run_task
  run_task-Ends turn t d =
      let n = named cfg t d in
      elim (Bool-cases (ltb cfg.retry (d.tasks.tasks t).base.retry)) [
        | inl y ↦ rw y (over-Ends turn t over_too_many_try d)
        | inr m ↦ rw m (elim (Bool-cases (present cfg turn (n.tasks.tasks t).base)) [
          | inl y ↦ rw y (Ends-alike turn.put t (named-Alike t d) (over-Ends turn t over_ok n))
          | inr z ↦ rw z (Ends-alike turn.put t (named-Alike t d) (check_space-Ends turn t n))
        ])
      ]
