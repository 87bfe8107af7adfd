-- ===== src/Upload/Request/Bytes.antt =====
-- The receive buffer during the requests of network/U.
use pfs.Common.{ℕ, ◌≡◌, refl, ◌∙◌, ◌&&◌, List, ◌==◌, inl, inr, Bool-cases, Option-cases}
use pfs.LocalFile.{is_ok, open_tmp_localfile_4_write}
use pfs.Protocol.{SigHead}
use pfs.Task.{Got, pfs_get_task}
use pfs.Task.Types.{TaskBase, task_delfile, task_q_home}
use pfs.Upload.{Upload, send_rsp, create_push_rsp, create_push_rsp_err, prepare_recvfile}
use pfs.Upload.Request.{
  Server, Config, ReqSys, with_up, set_stat, close_local, open_for_task, do_query_other, start_task,
  push_got, delete_for_task, push_task, do_push_task, add_query_dir, open_error,
}

abbrev pub Keeps : Server → Server → Type 0
Keeps s r = r.up.recv_buff ≡ s.up.recv_buff

close_local_buff : (u : Upload) → (close_local u).recv_buff ≡ u.recv_buff
unfolding close_local
close_local_buff u = elim (Bool-cases (pfs.Upload.is_positive u.peer.local_in_fd)) [
  | inl y ↦ rw y refl
  | inr z ↦ rw z refl
]

pub open-Keeps :
    (cfg : Config) (sys : ReqSys) (t : ℕ) (answer : Upload → Upload) (failed : ℕ) (s : Server)
    → ((u : Upload) → (answer u).recv_buff ≡ u.recv_buff)
    → Keeps s (open_for_task cfg sys t answer failed s).0
unfolding open_for_task
open-Keeps cfg sys t answer failed s k =
    let r =
      open_tmp_localfile_4_write cfg.datadir sys.before sys.open_sys s.g_index
        (close_local s.up).peer.local_in_fd (close_local s.up).disk
        ((close_local s.up).tasks.tasks t).base in
    elim (Bool-cases (is_ok r.ret)) [
      | inl y ↦ rw y (close_local_buff s.up)
      | inr z ↦ rw z (k _ ∙ close_local_buff s.up)
    ]

err-buff : (body : List ℕ) (u : Upload) → (create_push_rsp_err body u).recv_buff ≡ u.recv_buff
unfolding create_push_rsp_err send_rsp
err-buff body u = refl

delete-Keeps :
    (cfg : Config) (sys : ReqSys) (now t : ℕ) (base : TaskBase) (s : Server)
    → Keeps s (delete_for_task cfg sys now t base s).0
unfolding delete_for_task create_push_rsp send_rsp
delete-Keeps cfg sys now t base s = refl

got-Keeps :
    (cfg : Config) (sys : ReqSys) (h : SigHead) (base : TaskBase) (s : Server) (g : Got)
    → Keeps s (push_got cfg sys h base s g).0
unfolding push_got start_task
got-Keeps cfg sys h base s g = elim (Option-cases g.task) [
  | inl e ↦ rw (e, push_got) (err-buff _ _)
  | inr (t, e) ↦
      rw (e, push_got)
        (elim (Bool-cases (base.type == task_delfile)) [
          | inl y ↦ rw y (delete-Keeps cfg sys sys.home.now t _ _)
          | inr z ↦
              rw z (open-Keeps cfg sys t (create_push_rsp_err open_error) _ _ (err-buff open_error))
        ])
]

query-Keeps : (cfg : Config) (s : Server) → Keeps s (do_query_other cfg s)
unfolding do_query_other create_push_rsp send_rsp
query-Keeps cfg s = refl

pub push-Keeps :
    (cfg : Config) (sys : ReqSys) (h : SigHead) (base : TaskBase) (s : Server)
    → Keeps s (do_push_task cfg sys h base s).0
unfolding do_push_task push_task
push-Keeps cfg sys h base s =
    elim (Bool-cases ((base.type == task_delfile) && (h.status == add_query_dir))) [
      | inl y ↦ rw y (query-Keeps cfg s)
      | inr z ↦ rw z (
          got-Keeps cfg sys h base (with_up s (set_stat prepare_recvfile s.up))
            (pfs_get_task sys.home task_q_home s.up.tasks))
    ]
