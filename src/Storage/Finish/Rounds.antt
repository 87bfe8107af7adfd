-- ===== src/Storage/Finish/Rounds.antt =====
-- `do_fin_task` of network/S/pfs_sig_sub.c: one finished task.
use pfs.Common.{
  ℕ, ◌+◌, ◌<◌, ◌≡◌, ◌≢◌, refl, sym, ap, ◌∙◌, subst, true, false, ◌||◌, none, some, List, [], ◌∷◌,
  ◌++◌, ◌==◌, arith, inl, inr, Bool-cases, ==_ne, ==_refl, ==_iff, ltb, ◌&&◌, ◌%◌, ◌^◌, ◌≤◌, Bool,
  if◌then◌else◌, append-nil,
}
use pfs.Task.{Tasks, Env, pfs_get_task, pfs_set_task, lock_fails, take_first}
use pfs.Task.Types.{
  task_q_fin, task_q_wait, task_q_clean, task_q_home, task_q_wait_sync, task_q_unknown, over_ok,
  over_unlink, over_unknown, over_e_md5, task_source, task_sync_isdir, TaskBase, Tasklist,
}
use pfs.Task.Moves.{occurs}
use pfs.Task.Free.{get-Same}
use pfs.Storage.Copies.{Stable}
use pfs.Task.Invariant.{IsValid, Owned, Gives, get-Answers}
use pfs.Task.Ledger.{get_kept, task_list}
use pfs.Task.Puts.{Puts, set-Puts, set_base}
use pfs.Transfer.Turns.{given, none-some}
use pfs.Upload.Ownership.{write-IsValid}
use pfs.Storage.Spread.{Ready, sync_task_2_domain-Spread}
use pfs.Storage.Finish.{Server, Config, Round, again, count_synced, pass_on, finish_task}

-- Only an empty queue gives nothing.
first_none :
    (e : Env) (xs : List ℕ) (s : Tasks) → (take_first e task_q_fin xs s).task ≡ none → xs ≡ []
unfolding take_first
first_none e [] s h = refl
first_none e (t ∷ ts) s h = absurd (none-some t (sym h))

pub fin_empty :
    (e : Env) (s : Tasks)
    → lock_fails e ≡ false
    → (pfs_get_task e task_q_fin s).task ≡ none
    → s.queue task_q_fin ≡ []
unfolding pfs_get_task
fin_empty e s f h = first_none e (s.queue task_q_fin) s (rw f at h)

-- The queues after something that touches neither FIN, WAIT nor CLEAN, with a task in hand.
record Kept (off : ℕ → ℕ) (t : ℕ) (s r : Tasks) : Type 0 where
  valid : IsValid off r
  owned : Owned t r
  elsewhere : (j : ℕ) → j ≢ task_q_home → j ≢ task_q_wait_sync → r.queue j ≡ s.queue j
  stable : Stable s r

Kept-same : (off : ℕ → ℕ) (t : ℕ) (s : Tasks) → IsValid off s → Owned t s → Kept off t s s
Kept-same off t s v o = record {
  valid = v;
  owned = o;
  elsewhere = λ j m n. refl;
  stable = λ q u n h. record { base = refl; sub = refl };
}

-- A file whose digest was wrong is asked for again while there are tries left.
abbrev pub to_retry : ℕ → (ℕ → Tasklist) → ℕ → Bool
to_retry retry m u = ((m u).base.overstatus == over_e_md5) && ltb (m u).base.retry retry

-- The task as it is asked for again.
abbrev pub once_more : TaskBase → TaskBase
once_more b = record b { retry = (b.retry + 1) % 2 ^ 8; overstatus = over_unknown }

again-to_retry :
    (retry : ℕ) (b : TaskBase) → again retry b ≡ ((b.overstatus == over_e_md5) && ltb b.retry retry)
again-to_retry retry b = elim (Bool-cases (b.overstatus == over_e_md5)) [
  | inl y ↦ rw y (ground arith)
  | inr z ↦ rw z refl
]

pub occurs_behind : (t u : ℕ) (xs : List ℕ) → u ≢ t → 1 ≤ occurs u (t ∷ xs) → 1 ≤ occurs u xs
occurs_behind t u xs d h = let z = ==_ne u t d in ground arith

-- The first finished task left its queue, for the tasks that wait or for those to be cleaned.
pub record Ended (off : ℕ → ℕ) (t : ℕ) (again : Bool) (s r : Tasks) : Type 0 where
  pub valid : IsValid off r
  pub fin : s.queue task_q_fin ≡ t ∷ r.queue task_q_fin
  pub wait : r.queue task_q_wait ≡ s.queue task_q_wait ++ (if again then t ∷ [] else [])
  pub clean : r.queue task_q_clean ≡ s.queue task_q_clean ++ (if again then [] else t ∷ [])
  pub base : again ≡ true → (r.tasks t).base ≡ once_more (s.tasks t).base
  pub same :
      (q u : ℕ)
      → q ≢ task_q_home
      → u ≢ t
      → 1 ≤ occurs u (s.queue q)
      → (r.tasks u).base ≡ (s.tasks u).base

module _ (off : ℕ → ℕ) (e e' : Env) (free' : lock_fails e' ≡ false) (s : Tasks) (v : IsValid off s)
    (t : ℕ) (got : (pfs_get_task e task_q_fin s).task ≡ some t) where
  abbrev mid : Tasks
  mid = (pfs_get_task e task_q_fin s).state

  taken : Gives off s t mid
  taken = given off s t (pfs_get_task e task_q_fin s) (get-Answers off e task_q_fin s v) got

  mid_queue : (j : ℕ) → j ≢ task_q_home → j ≢ task_q_fin → mid.queue j ≡ s.queue j
  mid_queue j m n = let k = get_kept e s j task_q_fin m in let z = ==_ne j task_q_fin n in rw z at k

  mid_fin : s.queue task_q_fin ≡ t ∷ mid.queue task_q_fin
  mid_fin = sym (
      subst (λ o. task_list o ++ mid.queue task_q_fin ≡ s.queue task_q_fin) got
        (get_kept e s task_q_fin task_q_fin (λ w. omega (arith, w))))

  -- The other tasks are in their queues still, and about the same.
  mid_there :
      (q u : ℕ) → q ≢ task_q_home → u ≢ t → 1 ≤ occurs u (s.queue q) → 1 ≤ occurs u (mid.queue q)
  mid_there q u n d h = elim (Bool-cases (q == task_q_fin)) [
    | inl y ↦
        let f = (==_iff q task_q_fin).0 y in
        let k = subst (λ l. 1 ≤ occurs u l) mid_fin (subst (λ x. 1 ≤ occurs u (s.queue x)) f h) in
        subst (λ x. 1 ≤ occurs u (mid.queue x)) (sym f) (occurs_behind t u _ d k)
    | inr z ↦ subst (λ l. 1 ≤ occurs u l) (sym (mid_queue q n (λ x. ground arith))) h
  ]

  pub mid_base : (q u : ℕ) → 1 ≤ occurs u (s.queue q) → (mid.tasks u).base ≡ (s.tasks u).base
  mid_base q u h = (get-Same e task_q_fin u s (v.known q u h).1).base

  pub first_there : 1 ≤ occurs t (s.queue task_q_fin)
  first_there = let z = ==_refl t in rw (mid_fin, z) (omega arith)

  module _ (w : Tasks) (k : Kept off t mid w) where
    puts : (q : ℕ) → q < task_q_unknown → Puts off w t q (pfs_set_task e' t q w).0
    puts q h = elim (set-Puts off e' w t q k.valid k.owned) [
      | inl p ↦ p.2.1
      | inr (inl x, z) ↦ absurd (omega (arith, x, h))
      | inr (inr x, z) ↦ absurd (let c : false ≡ true = sym free' ∙ x in cc)
    ]

    put_base : (q u : ℕ) → ((pfs_set_task e' t q w).0.tasks u).base ≡ (w.tasks u).base
    put_base q u = set_base e' t q u w

    put_fin :
        (q : ℕ) (h : q < task_q_unknown)
        → task_q_fin ≢ q
        → s.queue task_q_fin ≡ t ∷ (pfs_set_task e' t q w).0.queue task_q_fin
    put_fin q h n =
        let a = (puts q h).elsewhere task_q_fin n in
        let b = k.elsewhere task_q_fin (λ x. omega (arith, x)) (λ x. omega (arith, x)) in
        mid_fin ∙ ap (λ l. t ∷ l) (sym (a ∙ b))

    put_same :
        (q j : ℕ) (h : q < task_q_unknown)
        → j ≢ q
        → j ≢ task_q_home
        → j ≢ task_q_wait_sync
        → j ≢ task_q_fin
        → (pfs_set_task e' t q w).0.queue j ≡ s.queue j
    put_same q j h n m o p = (puts q h).elsewhere j n ∙ k.elsewhere j m o ∙ mid_queue j m p

    put_last :
        (q : ℕ) (h : q < task_q_unknown)
        → q ≢ task_q_home
        → q ≢ task_q_wait_sync
        → q ≢ task_q_fin
        → (pfs_set_task e' t q w).0.queue q ≡ s.queue q ++ t ∷ []
    put_last q h m o p =
        (puts q h).at_end ∙ ap (λ l. l ++ t ∷ []) (k.elsewhere q m o ∙ mid_queue q m p)

    put_about :
        (p q u : ℕ)
        → q ≢ task_q_home
        → u ≢ t
        → 1 ≤ occurs u (s.queue q)
        → ((pfs_set_task e' t p w).0.tasks u).base ≡ (s.tasks u).base
    put_about p q u n d h =
        put_base p u ∙ (k.stable q u n (mid_there q u n d h)).base ∙ mid_base q u h

    wait-Ended :
        (w.tasks t).base ≡ once_more (s.tasks t).base
        → Ended off t true s (pfs_set_task e' t task_q_wait w).0
    wait-Ended about =
        let h : task_q_wait < task_q_unknown = omega arith in
        record {
          valid = (puts task_q_wait h).valid;
          fin = put_fin task_q_wait h (λ x. omega (arith, x));
          wait =
              put_last task_q_wait h (λ x. omega (arith, x)) (λ x. omega (arith, x))
                (λ x. omega (arith, x));
          clean =
              put_same task_q_wait task_q_clean h (λ x. omega (arith, x)) (λ x. omega (arith, x))
                (λ x. omega (arith, x)) (λ x. omega (arith, x))
              ∙ sym (append-nil (s.queue task_q_clean));
          base = λ y. put_base task_q_wait t ∙ about;
          same = put_about task_q_wait;
        }

    clean-Ended : Ended off t false s (pfs_set_task e' t task_q_clean w).0
    clean-Ended =
        let h : task_q_clean < task_q_unknown = omega arith in
        record {
          valid = (puts task_q_clean h).valid;
          fin = put_fin task_q_clean h (λ x. omega (arith, x));
          wait =
              put_same task_q_clean task_q_wait h (λ x. omega (arith, x)) (λ x. omega (arith, x))
                (λ x. omega (arith, x)) (λ x. omega (arith, x))
              ∙ sym (append-nil (s.queue task_q_wait));
          clean =
              put_last task_q_clean h (λ x. omega (arith, x)) (λ x. omega (arith, x))
                (λ x. omega (arith, x));
          base = λ y. cc;
          same = put_about task_q_clean;
        }

module _ (off : ℕ → ℕ) (cfg : Config) where
  pass_on-Kept :
      (r : Round) (t : ℕ) (d : Server)
      → Ready r.members
      → IsValid off d.storage.tasks
      → Owned t d.storage.tasks
      → Kept off t d.storage.tasks (pass_on cfg r t d).storage.tasks
  unfolding pass_on count_synced
  pass_on-Kept r t d m v o =
      let b = d.storage.tasks.tasks t in
      let same = Kept-same off t d.storage.tasks v o in
      elim (Bool-cases (b.sub.need_sync == task_source)) [
        | inl y ↦
            rw y
              (elim (Bool-cases
                ((b.base.overstatus == over_ok) || (b.base.overstatus == over_unlink))) [
                  | inl z ↦ rw z (
                      let p =
                        sync_task_2_domain-Spread off cfg.ip2str t cfg.online_list cfg.self_ip
                          r.members d.storage m v o in
                      record {
                        valid = p.valid;
                        owned = p.owned;
                        elsewhere = p.elsewhere;
                        stable = p.stable;
                      })
                  | inr z ↦ rw z same
                ])
        | inr n ↦ rw n (elim (Bool-cases (b.sub.need_sync == task_sync_isdir)) [
          | inl z ↦ rw z same
          | inr z ↦ rw z same
        ])
      ]

  pub finish_task-Ended :
      (r : Round) (t : ℕ) (d : Server)
      → lock_fails r.put ≡ false
      → Ready r.members
      → IsValid off d.storage.tasks
      → (pfs_get_task r.fin task_q_fin d.storage.tasks).task ≡ some t
      → Ended off t
          (to_retry cfg.retry d.storage.tasks.tasks t)
          d.storage.tasks
          (finish_task cfg r t (record d {
            storage = record (d.storage) {
              tasks = (pfs_get_task r.fin task_q_fin d.storage.tasks).state;
            };
          })).storage.tasks
  unfolding finish_task
  finish_task-Ended r t d free m v got =
      let s = d.storage.tasks in
      let g = (pfs_get_task r.fin task_q_fin s).state in
      let a =
        given off s t (pfs_get_task r.fin task_q_fin s) (get-Answers off r.fin task_q_fin s v)
          got in
      let d' : Server = record d { storage = record (d.storage) { tasks = g } } in
      let about =
        mid_base off r.fin r.put free s v t got task_q_fin t
          (first_there off r.fin r.put free s v t got) in
      let test : again cfg.retry (g.tasks t).base ≡ to_retry cfg.retry s.tasks t =
        ap (again cfg.retry) about ∙ again-to_retry cfg.retry (s.tasks t).base in
      elim (Bool-cases (to_retry cfg.retry s.tasks t)) [
        | inl y ↦
            rw (test, y)
              (wait-Ended off r.fin r.put free s v t got _
                (record {
                  valid = write-IsValid off g t _ refl a.valid;
                  owned = record { exists = a.owned.exists; unqueued = a.owned.unqueued };
                  elsewhere = λ j x z. refl;
                  stable = λ q u n h.
                      let un = a.owned.unqueued q in
                      let z = ==_ne u t (λ w. omega (arith, h, rw (sym w) at un)) in
                      record { base = rw z refl; sub = rw z refl };
                })
                (rw (==_refl t) (ap once_more about)))
        | inr n ↦
            rw (test, n)
              (clean-Ended off r.fin r.put free s v t got _ (pass_on-Kept r t d' m a.valid a.owned))
      ]
