-- ===== src/Transfer/Send/Stops.antt =====
-- The tasks of a connection at `svc_finiconn` of network/D/pfs_data.c.
use pfs.Common.{
  ℕ, ◌+◌, ◌%◌, ◌^◌, ◌<◌, ◌≡◌, ◌≢◌, refl, sym, ap, ◌∙◌, false, Option, none, some, [], ◌∷◌, ==_refl,
  ==_ne, arith,
}
use pfs.Task.{Tasks, Env, remove, update, lock_fails}
use pfs.Task.Types.{TaskBase, TaskSub, task_q_fin, task_q_wait, task_q_unknown, over_send_len}
use pfs.Task.Moves.{occurs, occurs-append}
use pfs.Task.Requeue.{Ordered, set-Requeued}
use pfs.Task.Puts.{set_base}
use pfs.Transfer.{Transfer, allmask, set_task, set_content}
use pfs.Transfer.Keeps.{set_content-Alike}
use pfs.Transfer.Send.{stop_send, stop_recv, svc_finiconn}

-- The task is in this queue, and in no other one.
pub record Only (q t : ℕ) (s : Tasks) : Type 0 where
  pub here : occurs t (s.queue q) ≡ 1
  pub nowhere : (j : ℕ) → j ≢ q → occurs t (s.queue j) ≡ 0

abbrev pub Apart : Option ℕ → ℕ → Type 0
Apart none u = Unit {0}
Apart (some t) u = u ≢ t

-- A task that was changed and put away: the others are as they were.
record PutAway (q t : ℕ) (b : TaskBase) (s r : Tasks) : Type 0 where
  ordered : Ordered r
  only : Only q t r
  base : (r.tasks t).base ≡ b
  fresh : r.fresh ≡ s.fresh
  others : (u j : ℕ) → u ≢ t → occurs u (r.queue j) ≡ occurs u (s.queue j)
  bases : (u : ℕ) → u ≢ t → (r.tasks u).base ≡ (s.tasks u).base

content-Ordered :
    (t : ℕ) (b : TaskBase) (sub : TaskSub) (d : Transfer)
    → Ordered d.tasks
    → Ordered (set_content t b sub d).tasks
content-Ordered t b sub d o =
    let a = set_content-Alike t b sub d in
    record { once = o.once; known = λ q u h. let k = o.known q u h in (a.status u ∙ k.0, k.1) }

module _ (e : Env) (free : lock_fails e ≡ false) (q : ℕ) (h : q < task_q_unknown) where
  set-PutAway :
      (t : ℕ) (b : TaskBase) (sub : TaskSub) (d : Transfer)
      → Ordered d.tasks
      → t < d.tasks.fresh
      → PutAway q t b d.tasks (set_task e t q (set_content t b sub d)).tasks
  set-PutAway t b sub d o exists =
      let s = (set_content t b sub d).tasks in
      let r = set-Requeued e s t q (content-Ordered t b sub d o) exists h free in
      let once = r.ordered.once q t in
      let a = ap (occurs t) r.at_end in
      let p = occurs-append t (remove t (d.tasks.queue q)) (t ∷ []) in
      let one : occurs t (t ∷ []) ≡ 1 = ground arith in
      record {
        ordered = r.ordered;
        only = record { here = omega (arith, once, a, p, one); nowhere = r.gone };
        base = set_base e t q t s ∙ rw (==_refl t) refl;
        fresh = r.fresh;
        others = r.others;
        bases = λ u n. set_base e t q u s ∙ rw (==_ne u t n) refl;
      }

-- What became of the task that was sent, and of the one that was received.
abbrev pub SendOver : Option ℕ → Tasks → Type 0
SendOver none r = Unit {0}
SendOver (some t) r = Only task_q_fin t r × ((r.tasks t).base.overstatus ≡ over_send_len)

abbrev pub RecvAgain : Option ℕ → Tasks → Tasks → Type 0
RecvAgain none s r = Unit {0}
RecvAgain (some t) s r =
    Only task_q_wait t r × ((r.tasks t).base.retry ≡ ((s.tasks t).base.retry + 1) % 2 ^ 8)

abbrev pub Exists : Option ℕ → Tasks → Type 0
Exists none s = Unit {0}
Exists (some t) s = t < s.fresh

abbrev pub Two : Option ℕ → Option ℕ → Type 0
Two none o = Unit {0}
Two (some t) o = Apart o t

-- The connection ended.
pub record Stopped (o o' : Option ℕ) (s r : Tasks) : Type 0 where
  pub ordered : Ordered r
  pub send : SendOver o r
  pub recv : RecvAgain o' s r
  pub others : (u j : ℕ) → Apart o u → Apart o' u → occurs u (r.queue j) ≡ occurs u (s.queue j)

-- One of the two steps.
record Step (o : Option ℕ) (s r : Tasks) : Type 0 where
  ordered : Ordered r
  fresh : r.fresh ≡ s.fresh
  others : (u j : ℕ) → Apart o u → occurs u (r.queue j) ≡ occurs u (s.queue j)
  bases : (u : ℕ) → Apart o u → (r.tasks u).base ≡ (s.tasks u).base

nothing_done : (s : Tasks) → Ordered s → Step none s s
nothing_done s o = record { ordered = o; fresh = refl; others = λ u j n. refl; bases = λ u n. refl }

PutAway-Step : (q t : ℕ) (b : TaskBase) (s r : Tasks) → PutAway q t b s r → Step (some t) s r
PutAway-Step q t b s r p = record {
  ordered = p.ordered;
  fresh = p.fresh;
  others = p.others;
  bases = p.bases;
}

module _ (e : Env) (free : lock_fails e ≡ false) where
  stop_send-Step :
      (o : Option ℕ) (d : Transfer)
      → Ordered d.tasks
      → Exists o d.tasks
      → Step o d.tasks (stop_send e o d).tasks × SendOver o (stop_send e o d).tasks
  unfolding stop_send
  stop_send-Step none d w h = (nothing_done d.tasks w, tt)
  stop_send-Step (some t) d w h =
      let p = set-PutAway e free task_q_fin (omega arith) t _ _ d w h in
      (PutAway-Step task_q_fin t _ d.tasks _ p, (p.only, ap (λ b. b.overstatus) p.base))

  stop_recv-Step :
      (o : Option ℕ) (d : Transfer)
      → Ordered d.tasks
      → Exists o d.tasks
      → Step o d.tasks (stop_recv e o d).0.tasks × RecvAgain o d.tasks (stop_recv e o d).0.tasks
  unfolding stop_recv
  stop_recv-Step none d w h = (nothing_done d.tasks w, tt)
  stop_recv-Step (some t) d w h =
      let p = set-PutAway e free task_q_wait (omega arith) t _ _ d w h in
      (PutAway-Step task_q_wait t _ d.tasks _ p, (p.only, ap (λ b. b.retry) p.base))

Exists-still : (o o' : Option ℕ) (s r : Tasks) → Step o s r → Exists o' s → Exists o' r
Exists-still o none s r p h = tt
Exists-still o (some t) s r p h = rw p.fresh h

over_still : (o o' : Option ℕ) (s r : Tasks) → Step o' s r → Two o o' → SendOver o s → SendOver o r
over_still none o' s r p n h = tt
over_still (some t) o' s r p n (only, over) = (
  record {
    here = p.others t task_q_fin n ∙ only.here;
    nowhere = λ j m. p.others t j n ∙ only.nowhere j m;
  },
  ap (λ b. b.overstatus) (p.bases t n) ∙ over,
)

again_from :
    (o o' : Option ℕ) (s w r : Tasks) → Step o s w → Two o o' → RecvAgain o' w r → RecvAgain o' s r
again_from none none s w r p n h = tt
again_from (some t) none s w r p n h = tt
again_from none (some t') s w r p n (only, again) =
    (only, again ∙ ap (λ b. (b.retry + 1) % 2 ^ 8) (p.bases t' tt))
again_from (some t) (some t') s w r p n (only, again) =
    (only, again ∙ ap (λ b. (b.retry + 1) % 2 ^ 8) (p.bases t' (λ z. n (sym z))))

-- With the locks free, a connection that ends leaves each of its tasks in exactly one queue,
-- whichever queue it was in before: the task that it was sending among the finished ones, as an
-- error of the length that was sent, and the task that it was receiving among those that wait, with
-- one more in its 8-bit count of tries. All other tasks stay in their queues.
pub svc_finiconn-Stopped :
    (e e' : Env) (fd : ℕ) (d : Transfer)
    → lock_fails e ≡ false
    → lock_fails e' ≡ false
    → Ordered d.tasks
    → Exists (d.peers fd).sendtask d.tasks
    → Exists (d.peers fd).recvtask d.tasks
    → Two (d.peers fd).sendtask (d.peers fd).recvtask
    → Stopped
        (d.peers fd).sendtask
        (d.peers fd).recvtask
        d.tasks
        (svc_finiconn e e' fd d).transfer.tasks
unfolding svc_finiconn
svc_finiconn-Stopped e e' fd d free free' w h h' n =
    let o = (d.peers fd).sendtask in
    let o' = (d.peers fd).recvtask in
    let off : Transfer = record d {
      online_list =
          update d.online_list (allmask (d.peers fd).ip)
            (remove fd (d.online_list (allmask (d.peers fd).ip)));
    } in
    let s = stop_send-Step e free o off w h in
    let mid = stop_send e o off in
    let r =
      stop_recv-Step e' free' o' mid s.0.ordered (Exists-still o o' d.tasks mid.tasks s.0 h') in
    record {
      ordered = r.0.ordered;
      send = over_still o o' mid.tasks (stop_recv e' o' mid).0.tasks r.0 n s.1;
      recv = again_from o o' d.tasks mid.tasks (stop_recv e' o' mid).0.tasks s.0 n r.1;
      others = λ u j a b. r.0.others u j b ∙ s.0.others u j a;
    }
