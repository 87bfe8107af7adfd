-- ===== src/Storage/Spread.antt =====
-- `sync_task_2_domain` of network/S/pfs_sig_task.c over all servers of the domain.
use pfs.Common.{
  ℕ, ◌%◌, ◌≡◌, refl, sym, ◌∙◌, true, false, Option, none, some, List, [], ◌∷◌, ◌++◌, append-nil,
  ◌==◌, if◌then◌else◌, arith, inl, inr, Bool-cases, Option-cases, ==_refl,
}
use pfs.Task.{lock_fails}
use pfs.Task.Types.{task_q_wait_sync}
use pfs.Task.Moves.{occurs, occurs-append}
use pfs.Task.Invariant.{IsValid, Owned}
use pfs.Task.Free.{home_gives}
use pfs.Storage.{
  Peer, Member, Storage, Sys, find_ip_stat, do_dispatch_task, create_delay_task, send_or_delay,
  sync_one, sync_task_2_domain, task_sync,
}
use pfs.Storage.Copies.{delay-Delayed}
use pfs.Storage.Effects.{Spread, Spread-trans, untouched}

-- The servers that are asked, and those that are away.
abbrev pub if_other : ℕ → Member → List ℕ → List ℕ
if_other self_ip m l = if m.ip == self_ip then [] else if m.offline then [] else l

abbrev pub fd_list : Option ℕ → List ℕ
fd_list none = []
fd_list (some fd) = fd ∷ []

abbrev pub away_list : ℕ → Option ℕ → List ℕ
away_list ip none = ip ∷ []
away_list ip (some fd) = []

-- The connections of a chain that lead to the address, and the first of them.
abbrev pub fds_to : ℕ → List Peer → List ℕ
fds_to ip [] = []
fds_to ip (p ∷ ps) = if p.ip == ip then p.fd ∷ fds_to ip ps else fds_to ip ps

abbrev pub first : List ℕ → Option ℕ
first [] = none
first (fd ∷ fds) = some fd

find_ip_stat-first : (ip : ℕ) (ps : List Peer) → find_ip_stat ip ps ≡ first (fds_to ip ps)
unfolding find_ip_stat
find_ip_stat-first ip [] = refl
find_ip_stat-first ip (p ∷ ps) = elim (Bool-cases (p.ip == ip)) [
  | inl y ↦ rw y refl
  | inr z ↦ rw z (find_ip_stat-first ip ps)
]

module _ (online_list : ℕ → List Peer) (self_ip : ℕ) where
  abbrev pub connection : Member → Option ℕ
  connection m = first (fds_to m.ip (online_list (m.ip % 256)))

  abbrev pub asked : List (Member × Sys) → List ℕ
  asked [] = []
  asked ((m, sys) ∷ ms) = if_other self_ip m (fd_list (connection m)) ++ asked ms

  abbrev pub away : List (Member × Sys) → List ℕ
  away [] = []
  away ((m, sys) ∷ ms) = if_other self_ip m (away_list m.ip (connection m)) ++ away ms

-- The locks are free, and there is memory.
abbrev pub Ready : List (Member × Sys) → Type 0
Ready [] = Unit {0}
Ready ((m, sys) ∷ ms) =
    (lock_fails sys.home ≡ false)
    × (lock_fails sys.put ≡ false)
    × (sys.home.malloc_ok ≡ true)
    × Ready ms

module _ (off : ℕ → ℕ) (ip2str : ℕ → List ℕ) (t0 : ℕ) where
  dispatch-Spread :
      (fd : ℕ) (s : Storage)
      → IsValid off s.tasks
      → Owned t0 s.tasks
      → Spread off ip2str t0
          (fd ∷ [])
          []
          s
          (do_dispatch_task fd (s.tasks.tasks t0).base task_sync s)
  unfolding do_dispatch_task
  dispatch-Spread fd s v o = record {
    valid = v;
    owned = o;
    requests = record { fd = fd; status = task_sync; base = (s.tasks.tasks t0).base } ∷ [];
    sent = refl;
    about = (refl, refl, refl, tt);
    waiting = [];
    queue = sym (append-nil (s.tasks.queue task_q_wait_sync));
    copies = tt;
    origin = refl;
    stable = λ q u n h. record { base = refl; sub = refl };
    elsewhere = λ j m n. refl;
  }

  delay-Spread :
      (sys : Sys) (ip : ℕ) (s : Storage)
      → lock_fails sys.home ≡ false
      → lock_fails sys.put ≡ false
      → sys.home.malloc_ok ≡ true
      → IsValid off s.tasks
      → Owned t0 s.tasks
      → Spread off ip2str t0 [] (ip ∷ []) s (create_delay_task ip2str sys t0 ip s)
  unfolding create_delay_task
  delay-Spread sys ip s f f' m v o =
      let g = home_gives sys.home s.tasks f m in
      let d = delay-Delayed off ip2str sys.home sys.put f f' t0 ip s.tasks v o g.0 g.1 in
      let p = occurs-append g.0 (s.tasks.queue task_q_wait_sync) (g.0 ∷ []) in
      let w : occurs g.0 (g.0 ∷ []) ≡ 1 = rw (==_refl g.0) refl in
      rw (g.1, create_delay_task)
        (record {
          valid = d.valid;
          owned = d.owned;
          requests = [];
          sent = sym (append-nil s.sent);
          about = tt;
          waiting = g.0 ∷ [];
          queue = d.at_end;
          copies = (
            record {
              queued = rw (d.at_end) (omega (arith, p, w));
              peerip = d.peerip;
              oper_type = d.oper_type;
              filename = d.filename;
            },
            tt,
          );
          origin = d.origin;
          stable = d.stable;
          elsewhere = d.elsewhere;
        })

  module _ (online_list : ℕ → List Peer) (self_ip : ℕ) where
    one-Spread :
        (m : Member) (sys : Sys) (s : Storage)
        → lock_fails sys.home ≡ false
        → lock_fails sys.put ≡ false
        → sys.home.malloc_ok ≡ true
        → IsValid off s.tasks
        → Owned t0 s.tasks
        → Spread off ip2str t0
            (if_other self_ip m (fd_list (connection online_list self_ip m)))
            (if_other self_ip m (away_list m.ip (connection online_list self_ip m)))
            s
            (sync_one ip2str online_list self_ip sys t0 m s)
    unfolding sync_one send_or_delay
    one-Spread m sys s f f' k v o = elim (Bool-cases (m.ip == self_ip)) [
      | inl y ↦ rw y (untouched off ip2str t0 s v o)
      | inr n ↦ rw n (elim (Bool-cases m.offline) [
        | inl y ↦ rw y (untouched off ip2str t0 s v o)
        | inr z ↦ rw z (elim (Option-cases (connection online_list self_ip m)) [
          | inl c ↦
              rw (c, find_ip_stat-first m.ip (online_list (m.ip % 256)) ∙ c)
                (delay-Spread sys m.ip s f f' k v o)
          | inr (fd, c) ↦
              rw (c, find_ip_stat-first m.ip (online_list (m.ip % 256)) ∙ c)
                (dispatch-Spread fd s v o)
        ])
      ])
    ]

    -- A task that its thread owns, with the locks free and memory at hand: every other server of
    -- the domain that is not marked as offline gets its file exactly once and in order. One with a
    -- connection to its address is sent a request for the file, and for one without a connection a
    -- task is put at the end of the queue of tasks that wait for servers, with its address and the
    -- file's name. The own server and those that are offline get nothing; the tasks in any queue
    -- but that of free ones keep what they are about, and the queues stay in order.
    pub sync_task_2_domain-Spread :
        (ms : List (Member × Sys)) (s : Storage)
        → Ready ms
        → IsValid off s.tasks
        → Owned t0 s.tasks
        → Spread off ip2str t0
            (asked online_list self_ip ms)
            (away online_list self_ip ms)
            s
            (sync_task_2_domain ip2str online_list self_ip t0 ms s)
    unfolding sync_task_2_domain
    sync_task_2_domain-Spread [] s r v o = untouched off ip2str t0 s v o
    sync_task_2_domain-Spread ((m, sys) ∷ ms) s (f, f', k, r) v o =
        let a = one-Spread m sys s f f' k v o in
        let b =
          sync_task_2_domain-Spread ms (sync_one ip2str online_list self_ip sys t0 m s) r a.valid
            a.owned in
        Spread-trans off ip2str t0 _ _ _ _ s (sync_one ip2str online_list self_ip sys t0 m s) _ a b
