-- ===== src/Upload/Request/Fault.antt =====
-- A sequence of two requests to network/U/pfs_up_task.c.
use pfs.Common.{
  ℕ, ◌≡◌, refl, sym, subst, true, false, none, ◌==◌, inl, inr, Bool-cases, Option-cases,
}
use pfs.Protocol.{SigHead}
use pfs.Task.{Got, pfs_get_task}
use pfs.Task.Types.{TaskBase, task_delfile, task_q_home}
use pfs.Upload.{send_rsp, create_push_rsp, create_push_rsp_err, prepare_recvfile}
use pfs.Upload.Request.{
  Server, Config, ReqSys, is_prepare, with_up, set_stat, do_recv_task, delete_for_task, start_task,
  push_got, push_task, do_push_task, add_query_dir,
}
use pfs.Upload.Request.Lifecycle.{recv_task_null}

-- The connection waits for a file, and has no task.
Waits : Server → Type 0
Waits s = (is_prepare s.up.peer.sock_stat ≡ true) × (s.up.peer.recvtask ≡ none)

got-Waits :
    (cfg : Config) (sys : ReqSys) (h : SigHead) (base : TaskBase) (s : Server) (g : Got)
    → base.type ≡ task_delfile
    → Waits s
    → Waits (push_got cfg sys h base s g).0
unfolding Waits push_got start_task delete_for_task create_push_rsp create_push_rsp_err send_rsp
got-Waits cfg sys h base s g d w = elim (Option-cases g.task) [
  | inl e ↦ rw (e, push_got) w
  | inr (t, e) ↦ rw (e, push_got, d) (w.0, refl)
]

push_not_query :
    (cfg : Config) (sys : ReqSys) (h : SigHead) (base : TaskBase) (s : Server)
    → (h.status == add_query_dir) ≡ false
    → do_push_task cfg sys h base s
      ≡ push_got cfg sys h base
          (with_up s (set_stat prepare_recvfile s.up))
          (pfs_get_task sys.home task_q_home s.up.tasks)
unfolding do_push_task push_task
push_not_query cfg sys h base s q = elim (Bool-cases (base.type == task_delfile)) [
  | inl y ↦ rw (y, q) refl
  | inr z ↦ rw z refl
]

-- A request to delete a file, from a connection with no task, leaves it in the state in which a
-- response to a request for a file, whatever is in it, goes through NULL.
pub response_after_delete :
    (cfg : Config) (sys sys' : ReqSys) (h h' : SigHead) (base base' : TaskBase) (s : Server)
    → base.type ≡ task_delfile
    → (h.status == add_query_dir) ≡ false
    → s.up.peer.recvtask ≡ none
    → do_recv_task cfg sys' h' base' (do_push_task cfg sys h base s).0 ≡ none
unfolding Waits
response_after_delete cfg sys sys' h h' base base' s d q e =
    let got =
      push_got cfg sys h base (with_up s (set_stat prepare_recvfile s.up))
        (pfs_get_task sys.home task_q_home s.up.tasks) in
    let w =
      got-Waits cfg sys h base (with_up s (set_stat prepare_recvfile s.up))
        (pfs_get_task sys.home task_q_home s.up.tasks) d (refl, e) in
    subst (λ (r : Server × ℕ). do_recv_task cfg sys' h' base' r.0 ≡ none)
      (sym (push_not_query cfg sys h base s q)) (recv_task_null cfg sys' h' base' got.0 w.0 w.1)
