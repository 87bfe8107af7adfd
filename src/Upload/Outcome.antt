-- ===== src/Upload/Outcome.antt =====
-- How a received file ends (network/U/pfs_up.c).
use pfs.Common.{
  ℕ, ◌≡◌, ◌≢◌, refl, ap, ◌∙◌, subst, none, some, List, [], ◌∷◌, ◌++◌, ◌==◌, inl, inr, ◌⊎◌,
  Bool-cases, ==_refl, negsuc,
}
use pfs.LocalFile.Store.{Published, close-Published}
use pfs.Task.{Tasks, Env, pfs_set_task, write}
use pfs.Task.Puts.{set_base}
use pfs.Upload.{Upload, Sys, idle, finish_file, send_rsp, create_push_rsp, create_push_rsp_err}
use pfs.Upload.Receive.{Receiving}
use pfs.Task.Types.{Tasklist, oper_up_req, over_ok, over_e_md5, task_q_fin}
use pfs.Session.{recv_send}

-- The file is in its place, and the connection is idle.
pub record Stored (md5 : List ℕ → List ℕ) (sys : Sys) (t : ℕ) (got : List ℕ) (u r : Upload)
    : Type 0 where
  pub published : Published (u.tasks.tasks t).base got u.disk r.disk
  pub checked :
      ((md5 u.peer.ctx ++ (sys.behind ∷ [])) ≡ (u.tasks.tasks t).base.filemd5)
      ⊎ ((md5 got ++ (0 ∷ [])) ≡ (u.tasks.tasks t).base.filemd5)
  pub over : (r.tasks.tasks t).base.overstatus ≡ over_ok
  pub closed : r.peer.local_in_fd ≡ negsuc 0
  pub stat : r.peer.sock_stat ≡ idle

-- No file has changed, and the task says why.
pub record Rejected (t : ℕ) (u r : Upload) : Type 0 where
  pub disk : r.disk ≡ u.disk
  pub over : (r.tasks.tasks t).base.overstatus ≡ over_e_md5

over_kept :
    (e : Env) (t q over : ℕ) (s : Tasks) (v : Tasklist)
    → ((pfs_set_task e t q
          (write t (record v { base = record (v.base) { overstatus = over } }) s)).0.tasks
        t).base.overstatus
      ≡ over
over_kept e t q over s v =
    ap (λ b. b.overstatus)
      (set_base e t q t (write t (record v { base = record (v.base) { overstatus = over } }) s))
    ∙ rw (==_refl t) refl

module _ (md5 : List ℕ → List ℕ) (domain : List ℕ) where
  -- A file of which all bytes are written ends in one of two ways, and the connection lets its task
  -- go in both. Either the file gets its name with exactly the bytes that were written, no other
  -- path but the temporary one changes, and one of the two digests that are compared is the
  -- announced one; or no path changes, and the task ends with a digest error.
  pub finish_file_lem :
      (sys : Sys) (t : ℕ) (got : List ℕ) (u : Upload)
      → Receiving t got u
      → u.disk.path u.peer.local_in_fd ≡ (u.tasks.tasks t).base.tmpfile
      → (u.tasks.tasks t).base.tmpfile ≢ (u.tasks.tasks t).base.filename
      → ((finish_file md5 domain sys t u).1 ≡ recv_send)
        × ((finish_file md5 domain sys t u).0.peer.recvtask ≡ none)
        × (Stored md5 sys t got u (finish_file md5 domain sys t u).0
            ⊎ Rejected t u (finish_file md5 domain sys t u).0)
  unfolding finish_file create_push_rsp create_push_rsp_err send_rsp
  finish_file_lem sys t got u r p n =
      let c : u.disk.content (u.tasks.tasks t).base.tmpfile ≡ some got =
        subst (λ q. u.disk.content q ≡ some got) p r.content in
      elim (close-Published md5 sys.rename_ok (u.tasks.tasks t).base u.peer.local_in_fd
        (md5 u.peer.ctx ++ (sys.behind ∷ [])) got u.disk c n) [
          | inl (ok, pub_, why) ↦
              rw ok (elim (Bool-cases ((u.tasks.tasks t).sub.oper_type == oper_up_req)) [
                | inl y ↦ rw y (
                  refl,
                  refl,
                  inl (record {
                    published = pub_;
                    checked = why;
                    over = over_kept sys.env t task_q_fin over_ok u.tasks (u.tasks.tasks t);
                    closed = refl;
                    stat = refl;
                  }),
                )
                | inr z ↦ rw z (
                  refl,
                  refl,
                  inl (record {
                    published = pub_;
                    checked = why;
                    over = over_kept sys.env t task_q_fin over_ok u.tasks (u.tasks.tasks t);
                    closed = refl;
                    stat = refl;
                  }),
                )
              ])
          | inr (bad, same) ↦
              rw bad (elim (Bool-cases ((u.tasks.tasks t).sub.oper_type == oper_up_req)) [
                | inl y ↦ rw y (
                  refl,
                  refl,
                  inr (record {
                    disk = same;
                    over = over_kept sys.env t task_q_fin over_e_md5 u.tasks (u.tasks.tasks t);
                  }),
                )
                | inr z ↦ rw z (
                  refl,
                  refl,
                  inr (record {
                    disk = same;
                    over = over_kept sys.env t task_q_fin over_e_md5 u.tasks (u.tasks.tasks t);
                  }),
                )
              ])
        ]
