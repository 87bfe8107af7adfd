-- ===== src/Upload/Request/Receive.antt =====
-- `svc_recv` of network/U/pfs_up.c as a whole.
use pfs.Common.{
  ℕ, zero, suc, ◌+◌, ◌<◌, ◌≡◌, refl, sym, ap, ◌∙◌, subst, false, ◌||◌, Option, none, some, List, [],
  ◌∷◌, ◌++◌, ◌==◌, leb, if◌then◌else◌, inl, inr, ◌⊎◌, Bool-cases, Option-cases, arith, length,
  length-drop, ltb, ltb→lt,
}
use pfs.Buffer.{mybuff_getdata, mybuff_skipdata}
use pfs.Buffer.Data
use pfs.Buffer.Data.{view, getdata-skipdata}
use pfs.LocalFile.{is_ok, close_tmp_check_mv}
use pfs.Protocol.{SigHead, Parsed, is_positive}
use pfs.Session.{is_close, recv_close, recv_add_epollin, recv_add_epollout, recv_send}
use pfs.Task.{write, pfs_set_task}
use pfs.Task.Types.{TaskBase, task_q_fin, oper_up_req}
use pfs.Task.Invariant.{IsValid, Owned}
use pfs.Upload.{
  Upload, Sys, set_task, set_over, send_rsp, create_push_rsp, create_push_rsp_err, take_bytes,
  finish_file, recv_bytes, recv_file, recvfileing, remain_limit,
}
use pfs.Upload.Receive.{recv_file_full, recv_file_empty}
use pfs.Upload.Ownership.{Owns, write-IsValid}
use pfs.Upload.Request
use pfs.Upload.Request.{
  Server, Config, ReqSys, Run, no_fuel, faulted, returns, is_recvfileing, is_prepare,
  is_sendfileing, with_up, do_req, answer_req, receive, after_req,
}
use pfs.Upload.Request.Bytes.{Keeps}
use pfs.Upload.Request.Lifecycle.{
  Good, Answered, faults, ends, do_req-Answered, set-IsValid, write-Owned, rsp-Good, write-Owns,
}

touch-Good :
    (off : ℕ → ℕ) (now : ℕ) (u : Upload)
    → Good off u
    → Good off (record u { peer = record (u.peer) { hbtime = now } })
touch-Good off now u g = record {
  valid = g.valid;
  owns = g.owns;
  only_receiving = g.only_receiving;
}

push_rsp-Good :
    (off : ℕ → ℕ) (domain : List ℕ) (b : TaskBase) (u : Upload)
    → Good off u
    → Good off (create_push_rsp domain b u)
unfolding create_push_rsp send_rsp
push_rsp-Good off domain b u g = record {
  valid = g.valid;
  owns = g.owns;
  only_receiving = g.only_receiving;
}

recv_file-none :
    (md5 : List ℕ → List ℕ) (domain : List ℕ) (sys : Sys) (u : Upload)
    → u.peer.recvtask ≡ none
    → recv_file md5 domain sys u
      ≡ (record u { peer = record (u.peer) { hbtime = sys.env.now } }, recv_close)
unfolding recv_file
recv_file-none md5 domain sys u e = ground arith

module _ (md5 : List ℕ → List ℕ) (domain : List ℕ) (off : ℕ → ℕ) where
  finish-Good :
      (sys : Sys) (t : ℕ) (u : Upload)
      → IsValid off u.tasks
      → Owned t u.tasks
      → Good off (finish_file md5 domain sys t u).0
  unfolding finish_file create_push_rsp create_push_rsp_err send_rsp
  finish-Good sys t u v o =
      elim (Bool-cases (
        is_ok
          (close_tmp_check_mv md5 sys.rename_ok (u.tasks.tasks t).base u.peer.local_in_fd
            (md5 u.peer.ctx ++ (sys.behind ∷ [])) u.disk).1)) [
              | inl ok ↦ rw ok (elim (Bool-cases ((u.tasks.tasks t).sub.oper_type == oper_up_req)) [
                | inl y ↦ rw y (record { valid = ended _; owns = tt; only_receiving = λ w. refl })
                | inr z ↦ rw z (record { valid = ended _; owns = tt; only_receiving = λ w. refl })
              ])
              | inr bad ↦
                  rw bad (elim (Bool-cases ((u.tasks.tasks t).sub.oper_type == oper_up_req)) [
                    | inl y ↦
                        rw y (record { valid = ended _; owns = tt; only_receiving = λ w. refl })
                    | inr z ↦
                        rw z (record { valid = ended _; owns = tt; only_receiving = λ w. refl })
                  ])
            ]
    where
      ended :
          (x : ℕ)
          → IsValid off
              (pfs_set_task sys.env t task_q_fin (
                write t
                  (record (u.tasks.tasks t) {
                    base = record ((u.tasks.tasks t).base) { overstatus = x };
                  })
                  u.tasks)).0
      ended x =
          set-IsValid off sys.env t task_q_fin _ (write-IsValid off u.tasks t _ refl v)
            (write-Owned t t _ u.tasks o)

  take-Good :
      (sys : Sys) (t n : ℕ) (bytes : List ℕ) (u : Upload)
      → Good off u
      → u.peer.recvtask ≡ some t
      → Owned t u.tasks
      → Good off (take_bytes sys t bytes n u) × Owned t (take_bytes sys t bytes n u).tasks
  unfolding take_bytes
  take-Good sys t n bytes u g e o = (
    record {
      valid = write-IsValid off u.tasks t _ refl g.valid;
      owns = write-Owns u.peer.recvtask t _ u.tasks e o;
      only_receiving = g.only_receiving;
    },
    write-Owned t t _ u.tasks o,
  )

  bytes-Good :
      (sys : Sys) (t : ℕ) (bytes : List ℕ) (u : Upload)
      → Good off u
      → u.peer.recvtask ≡ some t
      → Owned t u.tasks
      → Good off (recv_bytes md5 domain sys t bytes u).0
  unfolding recv_bytes
  bytes-Good sys t bytes u g e o =
      let v = u.tasks.tasks t in
      let limit = remain_limit v.sub.processlen v.sub.lastlen in
      elim (Option-cases (sys.written (if leb (length bytes) limit then length bytes else limit))) [
        | inl w ↦
            rw (w, recv_bytes)
              (elim (Bool-cases (v.sub.oper_type == oper_up_req)) [
                | inl y ↦ rw y (rsp-Good off _ u g)
                | inr z ↦ rw z g
              ])
        | inr (n, w) ↦
            let k = take-Good sys t n bytes u g e o in
            rw (w, recv_bytes)
              (elim (Bool-cases (leb v.sub.processlen (v.sub.lastlen + n))) [
                | inl y ↦ rw y (finish-Good sys t (take_bytes sys t bytes n u) k.0.valid k.1)
                | inr z ↦ rw z (k.0)
              ])
      ]

  file-Good : (sys : Sys) (u : Upload) → Good off u → Good off (recv_file md5 domain sys u).0
  file-Good sys u g = elim (Option-cases u.peer.recvtask) [
    | inl e ↦
        subst (λ r. Good off r.0) (sym (recv_file-none md5 domain sys u e))
          (touch-Good off sys.env.now u g)
    | inr (t, e) ↦ elim (Option-cases (mybuff_getdata u.recv_buff)) [
      | inl d ↦
          subst (λ r. Good off r.0) (sym (recv_file_empty md5 domain sys t u e d))
            (touch-Good off sys.env.now u g)
      | inr (bytes, d) ↦
          subst (λ r. Good off r.0) (sym (recv_file_full md5 domain sys t u bytes e d))
            (bytes-Good sys t bytes (record u { peer = record (u.peer) { hbtime = sys.env.now } })
              (touch-Good off sys.env.now u g) e (subst (λ o. Owns o u.tasks) e g.owns))
    ]
  ]

-- What `check_req` comes to: a fault, no whole request, or a request that was answered. Then the
-- buffer is shorter, or the connection is to be closed.
data Checked (off : ℕ → ℕ) (s : Server) : Option (Server × Option ℕ) → Type 0 where
  fault : Checked off s none
  waits : Checked off s (some (s, none))
  asks :
      (r : Server) (sub : ℕ)
      → Good off r.up
      → pfs.Buffer.Data.IsValid r.up.recv_buff
      → (length (view r.up.recv_buff) < length (view s.up.recv_buff)) ⊎ (sub ≡ recv_close)
      → Checked off s (some (r, some sub))

-- How a receive ends. It is no longer out of fuel.
pub data Finishes (off : ℕ → ℕ) : Run → Type 0 where
  faults_null : Finishes off faulted
  done : (r : Server) (ret : ℕ) → Good off r.up → Finishes off (returns r ret)

module _ (off : ℕ → ℕ) (cfg : Config) (size : ℕ) (read_base : List ℕ → TaskBase) (h0 : SigHead)
    (b0 : List ℕ) where
  consumed :
      (s r : Server) (n ret : ℕ)
      → Good off r.up
      → Keeps s r
      → pfs.Buffer.Data.IsValid s.up.recv_buff
      → 0 < length (view s.up.recv_buff)
      → Checked off s (
          some (
            with_up r (record (r.up) { recv_buff = mybuff_skipdata r.up.recv_buff (n + 4) }),
            some ret,
          ))
  consumed s r n ret g k v full =
      let v' : pfs.Buffer.Data.IsValid r.up.recv_buff = subst pfs.Buffer.Data.IsValid (sym k) v in
      let d = (getdata-skipdata r.up.recv_buff (n + 4) v').1 in
      let same : length (view r.up.recv_buff) ≡ length (view s.up.recv_buff) =
        ap (λ b. length (view b)) k in
      asks (with_up r (record (r.up) { recv_buff = mybuff_skipdata r.up.recv_buff (n + 4) })) ret
        (record { valid = g.valid; owns = g.owns; only_receiving = g.only_receiving }) d.valid
        (inl
          (omega (arith, ap length d.rest, length-drop (n + 4) (view r.up.recv_buff), same, full)))

  req-Checked :
      (s : Server) (h : SigHead) (o : Option (Server × ℕ))
      → Answered off s h o
      → pfs.Buffer.Data.IsValid s.up.recv_buff
      → 0 < length (view s.up.recv_buff)
      → Checked off s (elim o [
        | none ↦ none
        | some r ↦ some (
          with_up r.0
              (record (r.0.up) { recv_buff = mybuff_skipdata r.0.up.recv_buff (h.bodylen + 4) }),
          some r.1,
        )
      ])
  req-Checked s h o (faults a b) v full = fault
  req-Checked s h o (ends r ret g k) v full = consumed s r h.bodylen ret g k v full

  answer-Checked :
      (sys : ReqSys) (p : Parsed) (s : Server)
      → Good off s.up
      → is_recvfileing s.up.peer.sock_stat ≡ false
      → pfs.Buffer.Data.IsValid s.up.recv_buff
      → 0 < length (view s.up.recv_buff)
      → Checked off s (answer_req cfg size read_base h0 b0 sys p s)
  unfolding answer_req
  answer-Checked sys p s g n v full = elim (Bool-cases (is_positive p.ret)) [
    | inl y ↦ rw y waits
    | inr z ↦ elim (Bool-cases (is_close p.ret)) [
      | inl y ↦ rw (z, y) (asks s recv_close g v (inr refl))
      | inr y ↦
          rw (z, y)
            (req-Checked s p.head _ (do_req-Answered off cfg sys size read_base p.head p.body s g n)
              v full)
    ]
  ]

  check-Checked :
      (sys : ReqSys) (s : Server)
      → Good off s.up
      → is_recvfileing s.up.peer.sock_stat ≡ false
      → pfs.Buffer.Data.IsValid s.up.recv_buff
      → Checked off s (pfs.Upload.Request.check_req cfg size read_base h0 b0 sys s)
  unfolding pfs.Upload.Request.check_req
  check-Checked sys s g n v =
      let d = (getdata-skipdata s.up.recv_buff 0 v).0 in
      elim (Bool-cases (ltb 0 (length (view s.up.recv_buff)))) [
        | inl y ↦
            let e : mybuff_getdata s.up.recv_buff ≡ some (view s.up.recv_buff) = d ∙ rw y refl in
            rw (e, pfs.Upload.Request.check_req) (answer-Checked sys _ s g n v (ltb→lt 0 _ y))
        | inr z ↦
            let e : mybuff_getdata s.up.recv_buff ≡ none = d ∙ rw z refl in
            rw (e, pfs.Upload.Request.check_req) waits
      ]

  receive-Good :
      (sys : Sys) (s : Server)
      → Good off s.up
      → Good off (receive cfg size read_base h0 b0 sys s).0.up
  unfolding receive
  receive-Good sys s g = file-Good cfg.md5 cfg.domain off sys s.up g

  after-Finishes :
      (sys : Sys) (s : Server) (sub : ℕ) (rest : Run)
      → Good off s.up
      → ((sub ≡ recv_close → ⊥) → is_recvfileing s.up.peer.sock_stat ≡ false → Finishes off rest)
      → Finishes off (after_req cfg size read_base h0 b0 sys s sub rest)
  unfolding after_req
  after-Finishes sys s sub rest g k =
      elim (Bool-cases ((sub == recv_add_epollout) || (sub == recv_send) || (sub == recv_close))) [
        | inl y ↦ rw y (done s sub g)
        | inr z ↦ elim (Bool-cases (is_recvfileing s.up.peer.sock_stat)) [
          | inl y ↦ rw (z, y) (done _ _ (receive-Good sys s g))
          | inr n ↦ elim (Bool-cases (is_sendfileing s.up.peer.sock_stat)) [
            | inl y ↦ rw (z, n, y) (done s recv_add_epollout g)
            | inr y ↦ rw (z, n, y) (k (λ c. ground arith) n)
          ]
        ]
      ]

  -- One round, when the rounds on shorter buffers finish.
  round-Finishes :
      (sys : Sys) (s : Server) (again : Server → Run)
      → Good off s.up
      → ((r : Server)
          → Good off r.up
          → is_recvfileing r.up.peer.sock_stat ≡ false
          → pfs.Buffer.Data.IsValid r.up.recv_buff
          → length (view r.up.recv_buff) < length (view s.up.recv_buff)
          → Finishes off (again r))
      → (c : Option (Server × Option ℕ)) → Checked off s c
      → Finishes off (elim c [
        | none ↦ faulted
        | some r ↦ elim r.1 [
          | none ↦ returns r.0 recv_add_epollin
          | some sub ↦ after_req cfg size read_base h0 b0 sys r.0 sub (again r.0)
        ]
      ])
  round-Finishes sys s again g k c fault = faults_null
  round-Finishes sys s again g k c waits = done s recv_add_epollin g
  round-Finishes sys s again g k c (asks r sub g' v' less) =
      after-Finishes sys r sub (again r) g'
        (λ c' n'. elim less [ inl l ↦ k r g' n' v' l | inr x ↦ absurd (c' x) ])

  loop-Finishes :
      (sys : Sys) (reqs : ℕ → ReqSys) (fuel : ℕ) (s : Server)
      → Good off s.up
      → is_recvfileing s.up.peer.sock_stat ≡ false
      → pfs.Buffer.Data.IsValid s.up.recv_buff
      → length (view s.up.recv_buff) < fuel
      → Finishes off (pfs.Upload.Request.recv_loop cfg size read_base h0 b0 sys reqs fuel s)
  unfolding pfs.Upload.Request.recv_loop
  loop-Finishes sys reqs zero s g n v h = absurd (omega (arith, h))
  loop-Finishes sys reqs (suc fuel) s g n v h =
      round-Finishes sys s (pfs.Upload.Request.recv_loop cfg size read_base h0 b0 sys reqs fuel) g
        (λ r g' n' v' l. loop-Finishes sys reqs fuel r g' n' v' (omega (arith, l, h)))
        (pfs.Upload.Request.check_req cfg size read_base h0 b0 (reqs fuel) s)
        (check-Checked (reqs fuel) s g n v)

  -- A receive of the upload process always ends, with one unit of fuel more than there are bytes in
  -- a valid buffer: it follows a NULL, or it returns with the queues in order and with a task,
  -- which the connection then owns, only while it receives a file.
  pub svc_recv-Finishes :
      (sys : Sys) (reqs : ℕ → ReqSys) (s : Server)
      → Good off s.up
      → pfs.Buffer.Data.IsValid s.up.recv_buff
      → Finishes off (
          pfs.Upload.Request.svc_recv cfg size read_base h0 b0 sys reqs
            (length (view s.up.recv_buff) + 1)
            s)
  unfolding pfs.Upload.Request.svc_recv
  svc_recv-Finishes sys reqs s g v =
      let g' = touch-Good off sys.env.now s.up g in
      elim (Bool-cases (is_recvfileing s.up.peer.sock_stat)) [
        | inl y ↦ rw y (done _ _ (receive-Good sys _ g'))
        | inr n ↦
            rw n (loop-Finishes sys reqs (length (view s.up.recv_buff) + 1) _ g' n v (omega arith))
      ]
