-- ===== src/Storage.antt =====
-- network/S/pfs_sig_task.c: a finished task goes to the other servers of its domain.
pub mod Copies
pub mod Effects
pub mod Spread
pub mod Finish
mod Examples
use pfs.Common.{
  ℕ, ◌%◌, Bool, true, false, Option, none, some, List, [], ◌∷◌, ◌++◌, ◌==◌, if◌then◌else◌,
}
use pfs.Task.{Tasks, Env, write, pfs_get_task, pfs_set_task}
use pfs.Task.Types.{TaskBase, TaskSub, zero_sub, task_q_home, task_q_wait_sync, oper_sync_2_domain}

-- A connection of `online_list`, and a server of the domain: `ips` and `offline` of `t_pfs_domain`.
pub record Peer : Type 0 where
  pub fd : ℕ
  pub ip : ℕ

pub record Member : Type 0 where
  pub ip : ℕ
  pub offline : Bool

-- NEWTASK_REQ, with its status and the task.
pub record Request : Type 0 where
  pub fd : ℕ
  pub status : ℕ
  pub base : TaskBase

pub record Storage : Type 0 where
  pub tasks : Tasks
  pub sent : List Request

-- The locks of TASK_Q_HOME and of TASK_Q_WAIT_SYNC while one server is handled, and the clock.
pub record Sys : Type 0 where
  pub home : Env
  pub put : Env

abbrev pub task_sync : ℕ
task_sync = 0x03

-- The first connection to the address in the chain of its hash value.
pub find_ip_stat : ℕ → List Peer → Option ℕ
find_ip_stat ip [] = none
find_ip_stat ip (p ∷ ps) = let rest = find_ip_stat ip ps in if p.ip == ip then some p.fd else rest

pub do_dispatch_task : ℕ → TaskBase → ℕ → Storage → Storage
do_dispatch_task fd base status s = record s {
  sent = s.sent ++ record { fd = fd; status = status; base = base } ∷ [];
}

-- `ip2str` is the conversion of an address.
abbrev pub delay_sub : (ℕ → List ℕ) → ℕ → TaskSub
delay_sub ip2str ip = record zero_sub { peerip = ip2str ip; oper_type = oper_sync_2_domain }

-- There is a task for the server, or not; `t0` is the task that is copied, whose own time of start
-- is set too.
pub delay_with : (ℕ → List ℕ) → Env → ℕ → ℕ → Tasks → Option ℕ → Tasks
delay_with ip2str e t0 ip s none = s
delay_with ip2str e t0 ip s (some t) =
    let v0 = s.tasks t0 in
    let base = record (v0.base) { starttime = e.now } in
    let timed = write t0 (record v0 { base = base }) s in
    let filled =
      write t (record (timed.tasks t) { base = base; sub = delay_sub ip2str ip }) timed in
    (pfs_set_task e t task_q_wait_sync filled).0

pub create_delay_task : (ℕ → List ℕ) → Sys → ℕ → ℕ → Storage → Storage
create_delay_task ip2str sys t0 ip s =
    let g = pfs_get_task sys.home task_q_home s.tasks in
    record s { tasks = delay_with ip2str sys.put t0 ip g.state g.task }

-- There is a connection to the server, or not.
pub send_or_delay : (ℕ → List ℕ) → Sys → ℕ → ℕ → Option ℕ → Storage → Storage
send_or_delay ip2str sys t0 ip none s = create_delay_task ip2str sys t0 ip s
send_or_delay ip2str sys t0 ip (some fd) s = do_dispatch_task fd (s.tasks.tasks t0).base task_sync s

-- One server of the domain.
pub sync_one : (ℕ → List ℕ) → (ℕ → List Peer) → ℕ → Sys → ℕ → Member → Storage → Storage
sync_one ip2str online_list self_ip sys t0 m s =
    if m.ip == self_ip
    then s
    else if m.offline
    then s
    else send_or_delay ip2str sys t0 m.ip (find_ip_stat m.ip (online_list (m.ip % 256))) s

-- All of them, each with the system's answers.
pub sync_task_2_domain :
    (ℕ → List ℕ) → (ℕ → List Peer) → ℕ → ℕ → List (Member × Sys) → Storage → Storage
sync_task_2_domain ip2str online_list self_ip t0 [] s = s
sync_task_2_domain ip2str online_list self_ip t0 ((m, sys) ∷ ms) s =
    sync_task_2_domain ip2str online_list self_ip t0 ms
      (sync_one ip2str online_list self_ip sys t0 m s)
