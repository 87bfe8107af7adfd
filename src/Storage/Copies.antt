-- ===== src/Storage/Copies.antt =====
-- `sync_task_2_domain` of network/S/pfs_sig_task.c: which servers get a task.
use pfs.Common.{
  ℕ, ◌≤◌, ◌≡◌, ◌≢◌, refl, sym, ap, ◌∙◌, true, false, some, List, [], ◌∷◌, ◌++◌, arith, inl, inr,
  ==_refl, ==_ne,
}
use pfs.Task.{Tasks, Env, write, pfs_get_task, lock_fails}
use pfs.Task.Types.{TaskBase, task_q_home, task_q_wait_sync, oper_sync_2_domain}
use pfs.Task.Moves.{occurs}
use pfs.Task.Invariant.{IsValid, Owned, get-Answers}
use pfs.Task.Ledger.{get_kept}
use pfs.Task.Puts.{set-Puts, set_base, set_sub}
use pfs.Task.Free.{Same, get-Same}
use pfs.Transfer.Turns.{given}
use pfs.Upload.Ownership.{write-IsValid}
use pfs.Storage.{delay_sub, delay_with}

-- The task is for the server, and about the file.
pub record Copy (ip2str : ℕ → List ℕ) (file : List ℕ) (ip t : ℕ) (s : Tasks) : Type 0 where
  pub queued : 1 ≤ occurs t (s.queue task_q_wait_sync)
  pub peerip : (s.tasks t).sub.peerip ≡ ip2str ip
  pub oper_type : (s.tasks t).sub.oper_type ≡ oper_sync_2_domain
  pub filename : (s.tasks t).base.filename ≡ file

-- The tasks in the queues, but for the free ones, keep what they are about.
abbrev pub Stable : Tasks → Tasks → Type 0
Stable s r = (q u : ℕ) → q ≢ task_q_home → 1 ≤ occurs u (s.queue q) → Same u s r

-- A task was made for a server that is away.
pub record Delayed (off : ℕ → ℕ) (ip2str : ℕ → List ℕ) (t0 ip t : ℕ) (s r : Tasks) : Type 0 where
  pub valid : IsValid off r
  pub owned : Owned t0 r
  pub at_end : r.queue task_q_wait_sync ≡ s.queue task_q_wait_sync ++ t ∷ []
  pub peerip : (r.tasks t).sub.peerip ≡ ip2str ip
  pub oper_type : (r.tasks t).sub.oper_type ≡ oper_sync_2_domain
  pub filename : (r.tasks t).base.filename ≡ (s.tasks t0).base.filename
  pub origin : (r.tasks t0).base.filename ≡ (s.tasks t0).base.filename
  pub stable : Stable s r
  pub elsewhere : (j : ℕ) → j ≢ task_q_home → j ≢ task_q_wait_sync → r.queue j ≡ s.queue j

module _ (off : ℕ → ℕ) (ip2str : ℕ → List ℕ) (e e' : Env) (free : lock_fails e ≡ false)
    (free' : lock_fails e' ≡ false) (t0 ip : ℕ) (s : Tasks) (v : IsValid off s) (o : Owned t0 s)
    (t : ℕ) (got : (pfs_get_task e task_q_home s).task ≡ some t) where
  abbrev mid : Tasks
  mid = (pfs_get_task e task_q_home s).state

  abbrev copied : TaskBase
  copied = record ((mid.tasks t0).base) { starttime = e'.now }

  abbrev timed : Tasks
  timed = write t0 (record (mid.tasks t0) { base = copied }) mid

  abbrev filled : Tasks
  filled = write t (record (timed.tasks t) { base = copied; sub = delay_sub ip2str ip }) timed

  queue_kept : mid.queue task_q_wait_sync ≡ s.queue task_q_wait_sync
  queue_kept = get_kept e s task_q_wait_sync task_q_home (λ w. omega (arith, w))

  other_kept : (j : ℕ) → j ≢ task_q_home → mid.queue j ≡ s.queue j
  other_kept j m =
      let k = get_kept e s j task_q_home m in let z = ==_ne j task_q_home m in rw z at k

  pub delay-Delayed : Delayed off ip2str t0 ip t s (delay_with ip2str e' t0 ip mid (some t))
  unfolding delay_with
  delay-Delayed =
      let g =
        given off s t (pfs_get_task e task_q_home s) (get-Answers off e task_q_home s v) got in
      let f = g.was_free t0 o in
      let v' = write-IsValid off timed t _ refl (write-IsValid off mid t0 _ refl g.valid) in
      let own : Owned t filled = record { exists = g.owned.exists; unqueued = g.owned.unqueued } in
      let own0 : Owned t0 filled = record { exists = f.1.exists; unqueued = f.1.unqueued } in
      let n0 = ==_ne t0 t f.0 in
      let base_t = set_base e' t task_q_wait_sync t filled in
      let sub_t = set_sub e' t task_q_wait_sync t filled in
      let base_0 = set_base e' t task_q_wait_sync t0 filled in
      let home = get-Same e task_q_home t0 s o.exists in
      let name = ap (λ b. b.filename) home.base in
      elim (set-Puts off e' filled t task_q_wait_sync v' own) [
        | inr (inl x, z) ↦ absurd (omega (arith, x))
        | inr (inr x, z) ↦ absurd (let w : false ≡ true = sym free' ∙ x in cc)
        | inl p ↦ record {
          valid = p.2.1.valid;
          owned = p.2.1.others t0 f.0 own0;
          at_end = p.2.1.at_end ∙ ap (λ q. q ++ t ∷ []) queue_kept;
          peerip = ap (λ x. x.peerip) sub_t ∙ rw (==_refl t) refl;
          oper_type = ap (λ x. x.oper_type) sub_t ∙ rw (==_refl t) refl;
          filename = ap (λ x. x.filename) base_t ∙ rw (==_refl t) name;
          elsewhere = λ j m n. p.2.1.elsewhere j n ∙ other_kept j m;
          origin = ap (λ x. x.filename) base_0 ∙ rw (n0, ==_refl t0) name;
          stable = λ q u n h.
              let un = g.owned.unqueued q in
              let ut = ==_ne u t (λ w. omega (arith, h, rw (other_kept q n, sym w) at un)) in
              let uo = o.unqueued q in
              let u0 = ==_ne u t0 (λ w. omega (arith, h, rw (sym w) at uo)) in
              let k = get-Same e task_q_home u s (v.known q u h).1 in
              record {
                base = set_base e' t task_q_wait_sync u filled ∙ rw (ut, u0) k.base;
                sub = set_sub e' t task_q_wait_sync u filled ∙ rw (ut, u0) k.sub;
              };
        }
      ]
