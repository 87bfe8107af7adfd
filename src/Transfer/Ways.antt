-- ===== src/Transfer/Ways.antt =====
-- What `check_task` of network/D/pfs_data_base.c does with a task, up to `pfs_set_task`.
use pfs.Common.{
  ℕ, if◌then◌else◌, ◌≡◌, ◌≢◌, refl, sym, ap, ◌∙◌, subst, Bool, true, false, not, ◌&&◌, Option, none,
  some, List, [], ◌∷◌, ◌++◌, ltb, ◌==◌, arith, inl, inr, Bool-cases, Option-cases, ==_refl, ==_ne,
  ==_iff,
}
use pfs.Address.{str2ip}
use pfs.LocalFile.{storage_convert}
use pfs.Task.{Tasks, Env, pfs_set_task}
use pfs.Task.Types.{
  TaskBase, task_q_wait_tmp, task_q_sync_dir_tmp, task_q_fin, task_q_recv, over_ok, over_e_type,
  over_too_many_try, over_disk_err, oper_get_req, oper_from_poss, task_sync_isdir,
}
use pfs.Upload.{prepare_recvfile}
use pfs.Transfer.{
  Transfer, Config, Turn, Peer, get_file_req, file_sync_dst_2_src, is_active, is_idle, find_idle,
  find_ip_stat, get_ip_connect_count, svc_initconn, active_connect, active_send, over, put_back,
  fetch, connect, check_space, named, present, run_task, is_disk_ok, is_too_small, allmask,
}
use pfs.Transfer.Keeps.{Alike, Alike-refl, Alike-trans, set_content-Alike}

-- A connection that does nothing has no task.
abbrev pub IdleFree : Transfer → Type 0
IdleFree d = (fd : ℕ) → is_idle (d.peers fd).sock_stat ≡ true → (d.peers fd).recvtask ≡ none

-- The queues of tasks that no connection was asked for.
pub data Rest : ℕ → Type 0 where
  rest_fin : Rest task_q_fin
  rest_wait : Rest task_q_wait_tmp
  rest_sync : Rest task_q_sync_dir_tmp

-- What happens to the task `t` of server `ip`, as far as the call of `pfs_set_task`: `file` is the
-- task that a request is about.
pub data Way (e : Env) (file : TaskBase) (ip t : ℕ) (d r : Transfer) : Type 0 where
  asks :
      (fd : ℕ) (w : Tasks)
      → (d.peers fd).recvtask ≡ none
      → (r.peers fd).ip ≡ ip
      → (r.peers fd).recvtask ≡ some t
      → (r.peers fd).sock_stat ≡ prepare_recvfile
      → r.sent ≡ d.sent ++ (fd, get_file_req file_sync_dst_2_src file) ∷ []
      → ((x : ℕ) → x ≢ fd → (r.peers x).recvtask ≡ (d.peers x).recvtask)
      → Alike d.tasks w
      → r.tasks ≡ (pfs_set_task e t task_q_recv w).0
      → IdleFree r
      → Way e file ip t d r
  stops :
      (q : ℕ) (w : Tasks)
      → Rest q
      → r.sent ≡ d.sent
      → ((x : ℕ) → (r.peers x).recvtask ≡ (d.peers x).recvtask)
      → Alike d.tasks w
      → r.tasks ≡ (pfs_set_task e t q w).0
      → IdleFree r
      → Way e file ip t d r

-- What `d` and `c` have in common when `c` comes before anything is sent.
record Before (d c : Transfer) : Type 0 where
  tasks : Alike d.tasks c.tasks
  sent : c.sent ≡ d.sent
  recvtask : (x : ℕ) → (c.peers x).recvtask ≡ (d.peers x).recvtask

Way-Before :
    (e : Env) (file : TaskBase) (ip t : ℕ) {d c r : Transfer}
    → Before d c
    → Way e file ip t c r
    → Way e file ip t d r
Way-Before e file ip t b (asks fd w a i f g h k l m n) =
    asks fd w (sym (b.recvtask fd) ∙ a) i f g (rw b.sent at h) (λ x z. k x z ∙ b.recvtask x)
      (Alike-trans b.tasks l) m n
Way-Before e file ip t b (stops q w g h k l m n) =
    stops q w g (h ∙ b.sent) (λ x. k x ∙ b.recvtask x) (Alike-trans b.tasks l) m n

over-Way :
    (turn : Turn) (file : TaskBase) (ip t how : ℕ) (d : Transfer)
    → IdleFree d
    → Way turn.put file ip t d (over turn t how d)
over-Way turn file ip t how d f =
    stops task_q_fin _ rest_fin refl (λ x. refl) (set_content-Alike t _ _ d) refl f

put_back-Way :
    (turn : Turn) (file : TaskBase) (ip t : ℕ) (d : Transfer)
    → IdleFree d
    → Way turn.put file ip t d (put_back turn t d)
put_back-Way turn file ip t d f =
    elim (Bool-cases ((d.tasks.tasks t).sub.need_sync == task_sync_isdir)) [
      | inl y ↦
          rw y (stops task_q_sync_dir_tmp _ rest_sync refl (λ x. refl) (Alike-refl d.tasks) refl f)
      | inr n ↦
          rw n (stops task_q_wait_tmp _ rest_wait refl (λ x. refl) (Alike-refl d.tasks) refl f)
    ]

-- A connection that the search gives.
record Found (ip fd : ℕ) (peers : ℕ → Peer) : Type 0 where
  address : (peers fd).ip ≡ ip
  free : is_idle (peers fd).sock_stat ≡ true

some_fd : (a b : ℕ) → some a ≡ some b → a ≡ b
some_fd a b e = ap (λ o. elim o [ none ↦ a | some x ↦ x ]) e

and_parts : (a b c : Bool) → (a && (b && c)) ≡ true → (a ≡ true) × (c ≡ true)
and_parts true true c h = (refl, h)
and_parts true false c h = (refl, let z : false ≡ true = h in cc)
and_parts false b c h = (h, let z : false ≡ true = h in cc)

find_idle-Found :
    (ip fd : ℕ) (peers : ℕ → Peer) (l : List ℕ) → find_idle ip peers l ≡ some fd → Found ip fd peers
unfolding find_idle
find_idle-Found ip fd peers [] h = absurd (let z : none ≡ some fd = h in ground arith)
find_idle-Found ip fd peers (x ∷ l) h =
    elim (Bool-cases
      (((peers x).ip == ip) && (is_active (peers x).mode && is_idle (peers x).sock_stat))) [
        | inl y ↦
            let e = some_fd x fd (rw y at h) in
            let p =
              and_parts ((peers x).ip == ip) (is_active (peers x).mode)
                (is_idle (peers x).sock_stat) y in
            subst (λ z. Found ip z peers) e
              (record { address = (==_iff (peers x).ip ip).0 (p.0); free = p.1 })
        | inr n ↦ find_idle-Found ip fd peers l (rw n at h)
      ]

module _ (cfg : Config) (turn : Turn) where
  fetch-Way :
      (ip t fd : ℕ) (d : Transfer)
      → IdleFree d
      → Found ip fd d.peers
      → Way turn.put (d.tasks.tasks t).base ip t d (fetch cfg turn t fd d)
  unfolding fetch active_send
  fetch-Way ip t fd d f p = elim (Bool-cases cfg.pfs_test) [
    | inl y ↦ rw y (over-Way turn (d.tasks.tasks t).base ip t over_ok d f)
    | inr n ↦ rw n (
        let s = ==_refl fd in
        asks fd _ (f fd p.free) (rw s p.address) (rw s refl) (rw s refl) refl
          (λ x z. rw (==_ne x fd z) refl) (set_content-Alike t _ _ d) refl
          (λ x h. elim (Bool-cases (x == fd)) [
            | inl y ↦ absurd (let z : false ≡ true = rw (y, s) at h in cc)
            | inr z ↦ rw z (f x (rw z at h))
          ]))
  ]

  abbrev pub Unused : Transfer → Type 0
  Unused d = (fd ip : ℕ) → turn.connected ≡ some (fd, ip) → (d.peers fd).recvtask ≡ none

  connected-Before :
      (o : Option (ℕ × ℕ)) (d : Transfer)
      → IdleFree d
      → ((fd ip : ℕ) → o ≡ some (fd, ip) → (d.peers fd).recvtask ≡ none)
      → Before d (active_connect turn.now o d) × IdleFree (active_connect turn.now o d)
  unfolding active_connect svc_initconn
  connected-Before none d f u =
      (record { tasks = Alike-refl d.tasks; sent = refl; recvtask = λ x. refl }, f)
  connected-Before (some (fd, ip)) d f u = (
    record {
      tasks = Alike-refl d.tasks;
      sent = refl;
      recvtask = λ x. elim (Bool-cases (x == fd)) [
        | inl y ↦ let e = (==_iff x fd).0 y in rw (y, e, ==_refl fd) (sym (u fd ip refl))
        | inr n ↦ rw n refl
      ];
    },
    λ x h. elim (Bool-cases (x == fd)) [
      | inl y ↦ rw (y, ==_refl fd) refl
      | inr n ↦ rw n (f x (rw n at h))
    ],
  )

  active_connect_tasks :
      (o : Option (ℕ × ℕ)) (d : Transfer) → (active_connect turn.now o d).tasks ≡ d.tasks
  unfolding active_connect svc_initconn
  active_connect_tasks none d = refl
  active_connect_tasks (some (fd, ip)) d = refl

  connect-Way :
      (t : ℕ) (d : Transfer)
      → IdleFree d
      → Unused d
      → Way turn.put
          (d.tasks.tasks t).base
          (str2ip (d.tasks.tasks t).sub.peerip)
          t
          d
          (connect cfg turn t d)
  unfolding connect find_ip_stat
  connect-Way t d f u =
      let ip = str2ip (d.tasks.tasks t).sub.peerip in
      let c = active_connect turn.now turn.connected d in
      let b = connected-Before turn.connected d f u in
      elim (Bool-cases (ltb cfg.max_data_connects (get_ip_connect_count ip d))) [
        | inl y ↦ rw y (put_back-Way turn (d.tasks.tasks t).base ip t d f)
        | inr n ↦ rw n (elim (Option-cases (find_idle ip c.peers (c.online_list (allmask ip)))) [
          | inl z ↦ rw z (
              Way-Before turn.put (d.tasks.tasks t).base ip t b.0
                (put_back-Way turn (d.tasks.tasks t).base ip t c b.1))
          | inr (fd, z) ↦ rw z (
              Way-Before turn.put (d.tasks.tasks t).base ip t b.0 (
                subst (λ x. Way turn.put (x.tasks t).base ip t c (fetch cfg turn t fd c))
                  (active_connect_tasks turn.connected d)
                  (fetch-Way ip t fd c b.1 (find_idle-Found ip fd c.peers _ z))))
        ])
      ]

  check_space-Way :
      (t : ℕ) (d : Transfer)
      → IdleFree d
      → Unused d
      → Way turn.put
          (d.tasks.tasks t).base
          (str2ip (d.tasks.tasks t).sub.peerip)
          t
          d
          (check_space cfg turn t d)
  unfolding check_space find_ip_stat
  check_space-Way t d f u =
      let v = d.tasks.tasks t in
      let ip = str2ip v.sub.peerip in
      elim (Bool-cases
        (not (v.sub.oper_type == oper_get_req) && not (v.sub.oper_type == oper_from_poss))) [
          | inl y ↦ rw y (over-Way turn (d.tasks.tasks t).base ip t over_e_type d f)
          | inr n ↦ rw n (elim (Bool-cases (not (is_disk_ok turn.space))) [
            | inl y ↦ rw y (elim (Bool-cases (is_too_small turn.space_again)) [
              | inl z ↦ rw z (put_back-Way turn (d.tasks.tasks t).base ip t d f)
              | inr z ↦ rw z (over-Way turn (d.tasks.tasks t).base ip t over_disk_err d f)
            ])
            | inr m ↦
                rw m (elim (Option-cases (find_idle ip d.peers (d.online_list (allmask ip)))) [
                  | inl z ↦ rw z (connect-Way t d f u)
                  | inr (fd, z) ↦ rw z (fetch-Way ip t fd d f (find_idle-Found ip fd d.peers _ z))
                ])
          ])
        ]

  -- The task as it is sent: with the full name of the file, if the size is known.
  abbrev pub announced : TaskBase → TaskBase
  announced b = if ltb 0 b.fsize then (storage_convert cfg.datadir cfg.before b).0 else b

  named-Before :
      (t : ℕ) (d : Transfer)
      → Before d (named cfg t d)
        × ((named cfg t d).peers ≡ d.peers)
        × (((named cfg t d).tasks.tasks t).sub ≡ (d.tasks.tasks t).sub)
        × (((named cfg t d).tasks.tasks t).base ≡ announced (d.tasks.tasks t).base)
  unfolding named
  named-Before t d = elim (Bool-cases (ltb 0 (d.tasks.tasks t).base.fsize)) [
    | inl y ↦ rw y (
      record { tasks = set_content-Alike t _ _ d; sent = refl; recvtask = λ x. refl },
      refl,
      rw (==_refl t) refl,
      rw (==_refl t) refl,
    )
    | inr n ↦
        rw n (
          record { tasks = Alike-refl d.tasks; sent = refl; recvtask = λ x. refl },
          refl,
          refl,
          refl,
        )
  ]

  pub run_task-Way :
      (t : ℕ) (d : Transfer)
      → IdleFree d
      → Unused d
      → Way turn.put
          (announced (d.tasks.tasks t).base)
          (str2ip (d.tasks.tasks t).sub.peerip)
          t
          d
          (run_task cfg turn t d)
  unfolding run_task
  run_task-Way t d f u =
      let n = named cfg t d in
      let ip = str2ip (d.tasks.tasks t).sub.peerip in
      let file = announced (d.tasks.tasks t).base in
      let b = named-Before t d in
      let f' : IdleFree n =
        subst (λ p. (fd : ℕ) → is_idle (p fd).sock_stat ≡ true → (p fd).recvtask ≡ none) (sym b.1)
          f in
      let u' : Unused n = λ fd i e. b.0.recvtask fd ∙ u fd i e in
      elim (Bool-cases (ltb cfg.retry (d.tasks.tasks t).base.retry)) [
        | inl y ↦ rw y (over-Way turn file ip t over_too_many_try d f)
        | inr m ↦ rw m (elim (Bool-cases (present cfg turn (n.tasks.tasks t).base)) [
          | inl y ↦ rw y (Way-Before turn.put file ip t b.0 (over-Way turn file ip t over_ok n f'))
          | inr z ↦ rw z (
              Way-Before turn.put file ip t b.0 (
                subst (λ x. Way turn.put x ip t n (check_space cfg turn t n)) b.3
                  (subst
                    (λ s.
                      Way turn.put (n.tasks.tasks t).base (str2ip s.peerip) t n
                        (check_space cfg turn t n))
                    b.2 (check_space-Way t n f' u'))))
        ])
      ]
