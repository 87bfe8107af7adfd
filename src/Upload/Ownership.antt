-- ===== src/Upload/Ownership.antt =====
-- The tasks of a connection at `svc_finiconn` of network/U/pfs_up.c.
use pfs.Common.{
  ℕ, ◌≡◌, ◌≢◌, refl, sym, ap, ◌∙◌, subst, true, false, Option, none, some, [], ◌∷◌, ◌++◌, ◌==◌,
  arith, inl, inr, Bool-cases, ==_refl, ==_ne, ==_iff, append-nil, Bool, List,
}
use pfs.LocalFile.{Disk, eqb}
use pfs.LocalFile.Store.{eqb_refl, eqb_eq}
use pfs.Task.{Tasks, Env, write, pfs_set_task, lock_fails}
use pfs.Task.Types.{Tasklist, task_q_fin, over_send_len, over_up_err}
use pfs.Task.Invariant.{IsValid, Owned}
use pfs.Task.Ledger.{task_list}
use pfs.Task.Puts.{Puts, set-Puts, set_base}
use pfs.Upload.{Upload, set_over, abort_send, abort_recv, real_rm_file, svc_finiconn, is_positive}

pub write-IsValid :
    (off : ℕ → ℕ) (s : Tasks) (t : ℕ) (v : Tasklist)
    → v.status ≡ (s.tasks t).status
    → IsValid off s
    → IsValid off (write t v s)
write-IsValid off s t v e w = record {
  once = w.once;
  known = λ q u h. elim (Bool-cases (u == t)) [
    | inl y ↦
        rw y (let k = w.known q u h in let e' = (==_iff u t).0 y in (e ∙ rw (sym e') (k.0), k.1))
    | inr n ↦ rw n (w.known q u h)
  ];
  counted = w.counted;
}

fin-Puts :
    (off : ℕ → ℕ) (e : Env) (s : Tasks) (t : ℕ)
    → lock_fails e ≡ false
    → IsValid off s
    → Owned t s
    → Puts off s t task_q_fin (pfs_set_task e t task_q_fin s).0
fin-Puts off e s t free v o = elim (set-Puts off e s t task_q_fin v o) [
  | inl p ↦ p.2.1
  | inr (inl x, z) ↦ absurd (omega (arith, x))
  | inr (inr x, z) ↦ absurd (let w : false ≡ true = sym free ∙ x in cc)
]

-- Each of the tasks belongs to the connection, and they are two.
abbrev pub Owns : Option ℕ → Tasks → Type 0
Owns none s = Unit {0}
Owns (some t) s = Owned t s

abbrev pub Apart : Option ℕ → Option ℕ → Type 0
Apart (some t) (some t') = t ≢ t'
Apart none o = Unit {0}
Apart (some t) none = Unit {0}

-- How a task ended.
abbrev pub Over : ℕ → Option ℕ → Upload → Type 0
Over over none u = Unit {0}
Over over (some t) u = (u.tasks.tasks t).base.overstatus ≡ over

-- The temporary file is gone and no other file has changed, when `unlink` works; none has
-- otherwise.
abbrev pub Removed : Option ℕ → Bool → Tasks → Disk → Disk → Type 0
Removed none unlinked s d r = r ≡ d
Removed (some t) false s d r = r ≡ d
Removed (some t) true s d r =
    (r.content (s.tasks t).base.tmpfile ≡ none)
    × ((p : List ℕ) → p ≢ (s.tasks t).base.tmpfile → r.content p ≡ d.content p)

pub record Ended (off : ℕ → ℕ) (unlinked : Bool) (u r : Upload) : Type 0 where
  pub valid : IsValid off r.tasks
  pub given_back :
      r.tasks.queue task_q_fin
      ≡ u.tasks.queue task_q_fin ++ task_list u.peer.sendtask ++ task_list u.peer.recvtask
  pub over_send : Over over_send_len u.peer.sendtask r
  pub over_recv : Over over_up_err u.peer.recvtask r
  pub removed : Removed u.peer.recvtask unlinked u.tasks u.disk r.disk

rm-Removed :
    (unlinked : Bool) (t : ℕ) (s : Tasks) (d : Disk)
    → Removed (some t) unlinked s d (real_rm_file unlinked (s.tasks t).base.tmpfile d)
unfolding real_rm_file
rm-Removed false t s d = refl
rm-Removed true t s d = (
  rw (eqb_refl (s.tasks t).base.tmpfile) refl,
  λ p n. elim (Bool-cases (eqb p (s.tasks t).base.tmpfile)) [
    | inl y ↦ absurd (n (eqb_eq p (s.tasks t).base.tmpfile y))
    | inr z ↦ rw z refl
  ],
)

tmpfile_same :
    (unlinked : Bool) (s s' : Tasks) (d r : Disk) (x : ℕ)
    → (s.tasks x).base.tmpfile ≡ (s'.tasks x).base.tmpfile
    → Removed (some x) unlinked s d r
    → Removed (some x) unlinked s' d r
tmpfile_same false s s' d r x e h = h
tmpfile_same true s s' d r x e h =
    subst (λ p. (r.content p ≡ none) × ((q : List ℕ) → q ≢ p → r.content q ≡ d.content q)) e h

module _ (off : ℕ → ℕ) (unlinked : Bool) (e : Env) (free : lock_fails e ≡ false) where
  send_part :
      (o o' : Option ℕ) (u : Upload)
      → IsValid off u.tasks
      → Owns o u.tasks
      → Owns o' u.tasks
      → Apart o o'
      → IsValid off (abort_send e o u).tasks
        × ((abort_send e o u).tasks.queue task_q_fin ≡ u.tasks.queue task_q_fin ++ task_list o)
        × Owns o' (abort_send e o u).tasks
        × Over over_send_len o (abort_send e o u)
  unfolding abort_send
  send_part none o' u v a b n = (v, sym (append-nil (u.tasks.queue task_q_fin)), b, tt)
  send_part (some t) o' u v a b n =
      let s = (set_over t over_send_len u).tasks in
      let p =
        fin-Puts off e s t free (write-IsValid off u.tasks t _ refl v)
          (record { exists = a.exists; unqueued = a.unqueued }) in
      (
        p.valid,
        p.at_end,
        others o' b n p,
        ap (λ x. x.overstatus) (set_base e t task_q_fin t s) ∙ rw (==_refl t) refl,
      )
    where
      others :
          (x : Option ℕ)
          → Owns x u.tasks
          → Apart (some t) x
          → Puts off
              (set_over t over_send_len u).tasks
              t
              task_q_fin
              (pfs_set_task e t task_q_fin (set_over t over_send_len u).tasks).0
          → Owns x (pfs_set_task e t task_q_fin (set_over t over_send_len u).tasks).0
      others none w m q = tt
      others (some t') w m q =
          q.others t' (λ z. m (sym z)) (record { exists = w.exists; unqueued = w.unqueued })

  recv_part :
      (o : Option ℕ) (u : Upload)
      → IsValid off u.tasks
      → Owns o u.tasks
      → IsValid off (abort_recv unlinked e o u).tasks
        × ((abort_recv unlinked e o u).tasks.queue task_q_fin
            ≡ u.tasks.queue task_q_fin ++ task_list o)
        × Over over_up_err o (abort_recv unlinked e o u)
        × Removed o unlinked u.tasks u.disk (abort_recv unlinked e o u).disk
  unfolding abort_recv
  recv_part none u v a = (v, sym (append-nil (u.tasks.queue task_q_fin)), tt, refl)
  recv_part (some t) u v a =
      let s = (set_over t over_up_err u).tasks in
      let p =
        fin-Puts off e s t free (write-IsValid off u.tasks t _ refl v)
          (record { exists = a.exists; unqueued = a.unqueued }) in
      (
        p.valid,
        p.at_end,
        ap (λ x. x.overstatus) (set_base e t task_q_fin t s) ∙ rw (==_refl t) refl,
        rw (==_refl t) (rm-Removed unlinked t u.tasks u.disk),
      )

  send_tmpfile :
      (o : Option ℕ) (u : Upload) (x : ℕ)
      → ((abort_send e o u).tasks.tasks x).base.tmpfile ≡ (u.tasks.tasks x).base.tmpfile
  unfolding abort_send
  send_tmpfile none u x = refl
  send_tmpfile (some t) u x =
      ap (λ b. b.tmpfile) (set_base e t task_q_fin x (set_over t over_send_len u).tasks)
      ∙ elim (Bool-cases (x == t)) [ inl y ↦ rw (y, (==_iff x t).0 y) refl | inr z ↦ rw z refl ]

  recv_over :
      (o : Option ℕ) (u : Upload) (x : ℕ)
      → Apart (some x) o
      → ((abort_recv unlinked e o u).tasks.tasks x).base.overstatus
        ≡ (u.tasks.tasks x).base.overstatus
  unfolding abort_recv
  recv_over none u x n = refl
  recv_over (some t) u x n =
      ap (λ b. b.overstatus) (set_base e t task_q_fin x (set_over t over_up_err u).tasks)
      ∙ rw (==_ne x t n) refl

module _ (off : ℕ → ℕ) (unlinked : Bool) (e e' : Env) (free : lock_fails e ≡ false)
    (free' : lock_fails e' ≡ false) where
  both_parts :
      (o o' : Option ℕ) (u : Upload)
      → IsValid off u.tasks
      → Owns o u.tasks
      → Owns o' u.tasks
      → Apart o o'
      → IsValid off (abort_recv unlinked e' o' (abort_send e o u)).tasks
        × ((abort_recv unlinked e' o' (abort_send e o u)).tasks.queue task_q_fin
            ≡ u.tasks.queue task_q_fin ++ task_list o ++ task_list o')
        × Over over_send_len o (abort_recv unlinked e' o' (abort_send e o u))
        × Over over_up_err o' (abort_recv unlinked e' o' (abort_send e o u))
        × Removed o' unlinked u.tasks u.disk (abort_recv unlinked e' o' (abort_send e o u)).disk
  unfolding abort_send
  both_parts o o' u v a b n =
      let s = send_part off unlinked e free o o' u v a b n in
      let r = recv_part off unlinked e' free' o' (abort_send e o u) s.0 s.2 in
      (r.0, r.1 ∙ ap (λ q. q ++ task_list o') s.1, kept o n s.3, r.2, removed o' _ r.3)
    where
      kept :
          (x : Option ℕ)
          → Apart x o'
          → Over over_send_len x (abort_send e o u)
          → Over over_send_len x (abort_recv unlinked e' o' (abort_send e o u))
      kept none m h = tt
      kept (some x) m h = recv_over off unlinked e' free' o' (abort_send e o u) x m ∙ h

      send_disk : (x : Option ℕ) → (abort_send e x u).disk ≡ u.disk
      send_disk none = refl
      send_disk (some t) = refl

      removed :
          (x : Option ℕ) (r : Disk)
          → Removed x unlinked (abort_send e o u).tasks (abort_send e o u).disk r
          → Removed x unlinked u.tasks u.disk r
      removed none r h = h ∙ send_disk o
      removed (some x) r h =
          subst (λ d. Removed (some x) unlinked u.tasks d r) (send_disk o)
            (tmpfile_same unlinked (abort_send e o u).tasks u.tasks (abort_send e o u).disk r x
              (send_tmpfile off unlinked e free o u x) h)

  -- With the locks free, a connection that ends puts the task that it sends and the task that it
  -- receives, if it has them, at the end of the queue of finished tasks, marked with the error that
  -- broke them off; the queues stay in order, so neither task is lost nor in two places; and the
  -- temporary file of the receive is gone and no other file has changed, if `unlink` works; if it
  -- does not, the file system is as it was.
  pub svc_finiconn-Ended :
      (u : Upload)
      → IsValid off u.tasks
      → Owns u.peer.sendtask u.tasks
      → Owns u.peer.recvtask u.tasks
      → Apart u.peer.sendtask u.peer.recvtask
      → Ended off unlinked u (svc_finiconn unlinked e e' u)
  unfolding svc_finiconn
  svc_finiconn-Ended u v a b n = elim (Bool-cases (is_positive u.peer.local_in_fd)) [
    | inl y ↦ rw y (
        let p =
          both_parts u.peer.sendtask u.peer.recvtask
            (record u { closed = u.closed ++ (u.peer.local_in_fd ∷ []) }) v a b n in
        record { valid = p.0; given_back = p.1; over_send = p.2; over_recv = p.3; removed = p.4 })
    | inr z ↦ rw z (
        let p = both_parts u.peer.sendtask u.peer.recvtask u v a b n in
        record { valid = p.0; given_back = p.1; over_send = p.2; over_recv = p.3; removed = p.4 })
  ]
