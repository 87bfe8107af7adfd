-- ===== src/Upload/Request/Lifecycle.antt =====
-- The task of an upload connection over its requests (network/U): who owns it, and when.
use pfs.Common.{
  ℕ, ◌≡◌, refl, sym, ap, ◌∙◌, subst, true, false, ◌&&◌, Option, none, some, List, ◌==◌, inl, inr,
  Bool-cases, ==_iff, arith,
}
use pfs.LocalFile.{is_ok, open_tmp_localfile_4_write}
use pfs.Protocol.{SigHead}
use pfs.Session.{recv_close}
use pfs.Task.{Tasks, Env, Got, write, pfs_set_task, pfs_get_task}
use pfs.Task.Types.{TaskBase, Tasklist, task_delfile, task_q_home, task_q_clean, task_q_fin}
use pfs.Task.Invariant.{IsValid, Owned, Answers, nothing, gives, get-Answers}
use pfs.Task.Puts.{set-Puts}
use pfs.Upload.{
  Upload, set_task, set_over, send_rsp, create_push_rsp, create_push_rsp_err, recvfileing,
  prepare_recvfile,
}
use pfs.Upload.Ownership.{Owns, write-IsValid}
use pfs.Upload.Request.Bytes.{Keeps, push-Keeps}
use pfs.Upload.Request.{
  Server, Config, ReqSys, is_recvfileing, is_prepare, with_up, set_stat, close_local, open_for_task,
  do_recv_task, do_req, cmd_get_file_rsp, cmd_put_file_req, do_query_other, start_task, push_got,
  delete_for_task, push_task, do_push_task, add_query_dir, malloc_error, open_error,
}

-- The queues are in order, the connection owns the task that it receives, and it has one only while
-- it receives a file.
pub record Good (off : ℕ → ℕ) (u : Upload) : Type 0 where
  pub valid : IsValid off u.tasks
  pub owns : Owns u.peer.recvtask u.tasks
  pub only_receiving : is_recvfileing u.peer.sock_stat ≡ false → u.peer.recvtask ≡ none

pub set-IsValid :
    (off : ℕ → ℕ) (e : Env) (t q : ℕ) (s : Tasks)
    → IsValid off s
    → Owned t s
    → IsValid off (pfs_set_task e t q s).0
set-IsValid off e t q s v o = elim (set-Puts off e s t q v o) [
  | inl p ↦ p.2.1.valid
  | inr p ↦ subst (λ (x : Tasks × _). IsValid off x.0) (sym p.1) v
]

pub write-Owned : (t u : ℕ) (v : Tasklist) (s : Tasks) → Owned t s → Owned t (write u v s)
write-Owned t u v s o = record { exists = o.exists; unqueued = o.unqueued }

pub write-Owns :
    (o : Option ℕ) (t : ℕ) (v : Tasklist) (s : Tasks)
    → o ≡ some t
    → Owned t s
    → Owns o (write t v s)
write-Owns o t v s e w = subst (λ p. Owns p (write t v s)) (sym e) (write-Owned t t v s w)

pub rsp-Good :
    (off : ℕ → ℕ) (body : List ℕ) (u : Upload) → Good off u → Good off (create_push_rsp_err body u)
unfolding create_push_rsp_err send_rsp
rsp-Good off body u g = record { valid = g.valid; owns = g.owns; only_receiving = g.only_receiving }

close_local_tasks :
    (u : Upload) → ((close_local u).tasks ≡ u.tasks) × ((close_local u).peer ≡ u.peer)
unfolding close_local
close_local_tasks u = elim (Bool-cases (pfs.Upload.is_positive u.peer.local_in_fd)) [
  | inl y ↦ rw y (refl, refl)
  | inr z ↦ rw z (refl, refl)
]

open-Good :
    (off : ℕ → ℕ) (cfg : Config) (sys : ReqSys) (t : ℕ) (answer : Upload → Upload) (failed : ℕ)
    (s : Server)
    → ((u : Upload) → Good off u → Good off (answer u))
    → IsValid off s.up.tasks
    → Owned t s.up.tasks
    → s.up.peer.recvtask ≡ some t
    → Good off (open_for_task cfg sys t answer failed s).0.up
unfolding open_for_task
open-Good off cfg sys t answer failed s keeps v o e =
    let c = close_local_tasks s.up in
    let v' : IsValid off (close_local s.up).tasks = subst (IsValid off) (sym c.0) v in
    let o' : Owned t (close_local s.up).tasks = subst (Owned t) (sym c.0) o in
    let e' : (close_local s.up).peer.recvtask ≡ some t = ap (λ p. p.recvtask) c.1 ∙ e in
    let r =
      open_tmp_localfile_4_write cfg.datadir sys.before sys.open_sys s.g_index
        (close_local s.up).peer.local_in_fd (close_local s.up).disk
        ((close_local s.up).tasks.tasks t).base in
    elim (Bool-cases (is_ok r.ret)) [
      | inl y ↦ rw y (record {
        valid = write-IsValid off (close_local s.up).tasks t _ refl v';
        owns = write-Owns (close_local s.up).peer.recvtask t _ (close_local s.up).tasks e' o';
        only_receiving = λ w. absurd (let x : true ≡ false = w in cc);
      })
      | inr z ↦ rw z (
          keeps _ (record {
            valid =
                set-IsValid off sys.other t task_q_clean _
                  (write-IsValid off _ t _ refl
                    (write-IsValid off (close_local s.up).tasks t _ refl v'))
                  (write-Owned t t _ _ (write-Owned t t _ _ o'));
            owns = tt;
            only_receiving = λ w. refl;
          }))
    ]

delete-Good :
    (off : ℕ → ℕ) (cfg : Config) (sys : ReqSys) (now t : ℕ) (base : TaskBase) (s : Server)
    → IsValid off s.up.tasks
    → Owned t s.up.tasks
    → s.up.peer.sock_stat ≡ prepare_recvfile
    → Good off (delete_for_task cfg sys now t base s).0.up
unfolding delete_for_task create_push_rsp send_rsp
delete-Good off cfg sys now t base s v o e = record {
  valid =
      set-IsValid off sys.other t task_q_fin _ (write-IsValid off s.up.tasks t _ refl v)
        (write-Owned t t _ s.up.tasks o);
  owns = tt;
  only_receiving = λ w. refl;
}

push_got-Good :
    (off : ℕ → ℕ) (cfg : Config) (sys : ReqSys) (h : SigHead) (base : TaskBase) (s : Server)
    → s.up.peer.recvtask ≡ none
    → IsValid off s.up.tasks
    → s.up.peer.sock_stat ≡ prepare_recvfile
    → (g : Got) → Answers off s.up.tasks g
    → Good off (push_got cfg sys h base s g).0.up
unfolding push_got start_task
push_got-Good off cfg sys h base s free v e g (nothing ret n) =
    rsp-Good off malloc_error _ (record {
      valid = v;
      owns = subst (λ o. Owns o s.up.tasks) (sym free) tt;
      only_receiving = λ w. free;
    })
push_got-Good off cfg sys h base s free v e g (gives t r w) =
    elim (Bool-cases (base.type == task_delfile)) [
      | inl y ↦ rw y (
          delete-Good off cfg sys sys.home.now t _ _ (write-IsValid off r t _ refl w.valid)
            (write-Owned t t _ r w.owned) e)
      | inr z ↦ rw z (
          open-Good off cfg sys t (create_push_rsp_err open_error) _ _ (rsp-Good off open_error)
            (write-IsValid off r t _ refl w.valid) (write-Owned t t _ r w.owned) refl)
    ]

query-Good :
    (off : ℕ → ℕ) (cfg : Config) (s : Server) → Good off s.up → Good off (do_query_other cfg s).up
unfolding do_query_other create_push_rsp send_rsp
query-Good off cfg s g = record {
  valid = g.valid;
  owns = g.owns;
  only_receiving = g.only_receiving;
}

push-Good :
    (off : ℕ → ℕ) (cfg : Config) (sys : ReqSys) (h : SigHead) (base : TaskBase) (s : Server)
    → Good off s.up
    → is_recvfileing s.up.peer.sock_stat ≡ false
    → Good off (do_push_task cfg sys h base s).0.up
unfolding do_push_task push_task
push-Good off cfg sys h base s g n =
    elim (Bool-cases ((base.type == task_delfile) && (h.status == add_query_dir))) [
      | inl y ↦ rw y (query-Good off cfg s g)
      | inr z ↦ rw z (
          push_got-Good off cfg sys h base (with_up s (set_stat prepare_recvfile s.up))
            (g.only_receiving n) g.valid refl (pfs_get_task sys.home task_q_home s.up.tasks)
            (get-Answers off sys.home task_q_home s.up.tasks g.valid))
    ]

-- What a request of a connection that receives no file comes to.
pub data Answered (off : ℕ → ℕ) (s : Server) (h : SigHead) : Option (Server × ℕ) → Type 0 where
  faults :
      h.cmdid ≡ cmd_get_file_rsp → is_prepare s.up.peer.sock_stat ≡ true → Answered off s h none
  ends : (r : Server) (ret : ℕ) → Good off r.up → Keeps s r → Answered off s h (some (r, ret))

-- A response finds no task to receive.
pub recv_task_null :
    (cfg : Config) (sys : ReqSys) (h : SigHead) (base : TaskBase) (s : Server)
    → is_prepare s.up.peer.sock_stat ≡ true
    → s.up.peer.recvtask ≡ none
    → do_recv_task cfg sys h base s ≡ none
unfolding do_recv_task
recv_task_null cfg sys h base s y e = ground arith

recv_task_closed :
    (cfg : Config) (sys : ReqSys) (h : SigHead) (base : TaskBase) (s : Server)
    → is_prepare s.up.peer.sock_stat ≡ false
    → do_recv_task cfg sys h base s ≡ some (s, recv_close)
unfolding do_recv_task
recv_task_closed cfg sys h base s z = ground arith

recv_task-Answered :
    (off : ℕ → ℕ) (cfg : Config) (sys : ReqSys) (h : SigHead) (base : TaskBase) (s : Server)
    → Good off s.up
    → is_recvfileing s.up.peer.sock_stat ≡ false
    → h.cmdid ≡ cmd_get_file_rsp
    → Answered off s h (do_recv_task cfg sys h base s)
recv_task-Answered off cfg sys h base s g n c = elim (Bool-cases (is_prepare s.up.peer.sock_stat)) [
  | inl y ↦ rw (recv_task_null cfg sys h base s y (g.only_receiving n)) (faults c y)
  | inr z ↦ rw (recv_task_closed cfg sys h base s z) (ends s recv_close g refl)
]

-- Every request of a connection that receives no file leaves its buffer and keeps the tasks in
-- order: the connection owns the task that it receives afterwards, and has one only when it
-- receives a file then. The only exception is a response to a request for a file that comes when an
-- upload has just been refused or a file deleted: it goes through NULL.
pub do_req-Answered :
    (off : ℕ → ℕ) (cfg : Config) (sys : ReqSys) (size : ℕ) (read_base : List ℕ → TaskBase)
    (h : SigHead) (body : List ℕ) (s : Server)
    → Good off s.up
    → is_recvfileing s.up.peer.sock_stat ≡ false
    → Answered off s h (do_req cfg sys size read_base h body s)
unfolding do_req
do_req-Answered off cfg sys size read_base h body s g n =
    elim (Bool-cases (h.cmdid == cmd_get_file_rsp)) [
      | inl y ↦ rw y (elim (Bool-cases (h.bodylen == size)) [
        | inl l ↦ rw l (
            recv_task-Answered off cfg sys h (read_base body) s g n
              ((==_iff h.cmdid cmd_get_file_rsp).0 y))
        | inr l ↦ rw l (ends s recv_close g refl)
      ])
      | inr z ↦ rw z (elim (Bool-cases (h.cmdid == cmd_put_file_req)) [
        | inl y ↦ rw y (elim (Bool-cases (h.bodylen == size)) [
          | inl l ↦ rw l (
              ends _ _ (push-Good off cfg sys h (read_base body) s g n)
                (push-Keeps cfg sys h (read_base body) s))
          | inr l ↦ rw l (ends s recv_close g refl)
        ])
        | inr y ↦ rw y (ends s recv_close g refl)
      ])
    ]
