-- ===== src/Storage/Finish.antt =====
-- network/S/pfs_sig_sub.c: `do_fin_task`, which ends the finished tasks of a server.
pub mod Rounds
pub mod Drain
mod Examples
use pfs.Common.{
  ℕ, zero, suc, ◌+◌, ◌%◌, ◌^◌, Bool, true, false, not, ◌&&◌, ◌||◌, Option, none, some, List, [],
  ◌∷◌, ◌++◌, ltb, leb, ◌==◌, if◌then◌else◌,
}
use pfs.Task.{Tasks, Env, write, pfs_get_task, pfs_set_task}
use pfs.Task.Types.{
  TaskBase, Tasklist, task_q_fin, task_q_wait, task_q_clean, over_unknown, over_ok, over_e_md5,
  over_unlink, task_source, task_sync_isdir, task_addfile,
}
use pfs.Storage.{Peer, Member, Storage, Sys, sync_task_2_domain}

abbrev pub on_line : ℕ
on_line = 3

abbrev pub off_line : ℕ
off_line = 4

-- The server: what `sync_para` and `self_stat` say, and the tasks that `set_time_stamp` was given.
-- The counts are taken to stay below the largest `int`.
pub record Server : Type 0 where
  pub storage : Storage
  pub flag : ℕ
  pub total_sync_task : ℕ
  pub total_synced_task : ℕ
  pub self_stat : ℕ
  pub stamped : List TaskBase

-- `g_config.retry`, the addresses as text, the connections, and the own address.
pub record Config : Type 0 where
  pub retry : ℕ
  pub ip2str : ℕ → List ℕ
  pub online_list : ℕ → List Peer
  pub self_ip : ℕ

-- What the system answers in one round: the lock of TASK_Q_FIN, that of the queue that the task
-- goes to, and for each server of the domain.
pub record Round : Type 0 where
  pub fin : Env
  pub put : Env
  pub members : List (Member × Sys)

abbrev pub set_base : ℕ → TaskBase → Tasks → Tasks
set_base t b s = write t (record (s.tasks t) { base = b }) s

abbrev pub put_task : Env → ℕ → ℕ → Tasks → Server → Server
put_task e t q s d = record d { storage = record (d.storage) { tasks = (pfs_set_task e t q s).0 } }

-- A file whose digest was wrong is asked for again.
abbrev pub again : ℕ → TaskBase → Bool
again retry b = (b.overstatus == over_e_md5) && (not (retry == 0) && ltb b.retry retry)

-- A task of the synchronisation of directories is counted.
pub count_synced : Server → Server
count_synced d =
    let n = d.total_synced_task + 1 in
    record d {
      total_synced_task = n;
      self_stat =
          if (d.flag == 2) && leb d.total_sync_task n
          then (if d.self_stat == off_line then d.self_stat else on_line)
          else d.self_stat;
    }

pub stamp : TaskBase → Server → Server
stamp b d =
    if (b.type == task_addfile) && (b.overstatus == over_ok)
    then record d { stamped = d.stamped ++ b ∷ [] }
    else d

module _ (cfg : Config) where
  -- A file that came from a client goes to the other servers. The result of `sync_task_2_domain` is
  -- always 0.
  pub pass_on : Round → ℕ → Server → Server
  pass_on r t d =
      let v = d.storage.tasks.tasks t in
      if v.sub.need_sync == task_source
      then (if (v.base.overstatus == over_ok) || (v.base.overstatus == over_unlink)
          then record d {
            storage =
                sync_task_2_domain cfg.ip2str cfg.online_list cfg.self_ip t r.members d.storage;
          }
          else d)
      else if v.sub.need_sync == task_sync_isdir
      then count_synced d
      else d

  pub finish_task : Round → ℕ → Server → Server
  finish_task r t d =
      let s = d.storage.tasks in
      let b = (s.tasks t).base in
      let p = pass_on r t d in
      if again cfg.retry b
      then put_task r.put t task_q_wait
          (set_base t (record b { retry = (b.retry + 1) % 2 ^ 8; overstatus = over_unknown }) s) d
      else put_task r.put t task_q_clean p.storage.tasks (stamp (p.storage.tasks.tasks t).base p)

  -- On enough fuel the loop ends by itself.
  pub do_fin_task : (ℕ → Round) → ℕ → Server → Option Server
  do_fin_task rounds zero d = none
  do_fin_task rounds (suc fuel) d =
      let g = pfs_get_task (rounds fuel).fin task_q_fin d.storage.tasks in
      let taken = record d { storage = record (d.storage) { tasks = g.state } } in
      elim g.task [
        | none ↦ some taken
        | some t ↦ do_fin_task rounds fuel (finish_task (rounds fuel) t taken)
      ]
