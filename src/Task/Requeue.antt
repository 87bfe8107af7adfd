-- ===== src/Task/Requeue.antt =====
-- `pfs_set_task` of network/pfs_task.c on a task that may still be in a queue, as the processes of
-- network/D use it for tasks that connections send and receive.
use pfs.Common.{
  ℕ, ◌≤◌, ◌<◌, ◌≡◌, ◌≢◌, refl, ◌∙◌, false, [], ◌∷◌, ◌++◌, ◌==◌, inl, inr, Bool-cases, ==_iff,
  ==_refl, ==_ne, arith, lt→ltb, inc_ℤ,
}
use pfs.Task.{Tasks, Env, remove, append_task, pfs_set_task, lock_fails}
use pfs.Task.Types.{task_q_unknown}
use pfs.Task.Moves.{occurs, occurs-remove, occurs-remove_ne, occurs-append}
use pfs.Task.Invariant.{IsValid}

-- A task is in one queue at most, the one that its status names. Nothing is said of the counters.
pub record Ordered (s : Tasks) : Type 0 where
  pub once : (q t : ℕ) → occurs t (s.queue q) ≤ 1
  pub known : (q t : ℕ) → 1 ≤ occurs t (s.queue q) → ((s.tasks t).status ≡ q) × (t < s.fresh)

pub IsValid-Ordered : (off : ℕ → ℕ) (s : Tasks) → IsValid off s → Ordered s
IsValid-Ordered off s v = record { once = v.once; known = v.known }

-- `t` left the queue that it was in, and is at the end of queue `q`. Only the counter of `q` knows.
pub record Requeued (s : Tasks) (t q : ℕ) (r : Tasks) : Type 0 where
  pub ordered : Ordered r
  pub at_end : r.queue q ≡ remove t (s.queue q) ++ t ∷ []
  pub elsewhere : (j : ℕ) → j ≢ q → r.queue j ≡ remove t (s.queue j)
  pub gone : (j : ℕ) → j ≢ q → occurs t (r.queue j) ≡ 0
  pub others : (u j : ℕ) → u ≢ t → occurs u (r.queue j) ≡ occurs u (s.queue j)
  pub fresh : r.fresh ≡ s.fresh
  pub counted : r.taskcount q ≡ inc_ℤ (s.taskcount q)
  pub not_counted : (j : ℕ) → j ≢ q → r.taskcount j ≡ s.taskcount j

module _ (e : Env) (s : Tasks) (t q : ℕ) (o : Ordered s) (exists : t < s.fresh) where
  left : (j : ℕ) → occurs t (remove t (s.queue j)) ≡ 0
  left j = omega (arith, occurs-remove t (s.queue j), o.once j t)

  queue_at : (append_task e t q s).queue q ≡ remove t (s.queue q) ++ t ∷ []
  unfolding append_task
  queue_at = rw (==_refl q) refl

  queue_elsewhere : (j : ℕ) → j ≢ q → (append_task e t q s).queue j ≡ remove t (s.queue j)
  unfolding append_task
  queue_elsewhere j n = rw (==_ne j q n) refl

  occurs_other : (u j : ℕ) → u ≢ t → occurs u ((append_task e t q s).queue j) ≡ occurs u (s.queue j)
  occurs_other u j n =
      let r = occurs-remove_ne t u (s.queue j) n in
      elim (Bool-cases (j == q)) [
        | inl y ↦
            let w = (==_iff j q).0 y in
            let r' = occurs-remove_ne t u (s.queue q) n in
            let a = occurs-append u (remove t (s.queue q)) (t ∷ []) in
            rw (w, queue_at, a, r') (ground arith)
        | inr z ↦ rw (queue_elsewhere j (λ w. ground arith)) r
      ]

  occurs_at : occurs t ((append_task e t q s).queue q) ≡ 1
  occurs_at =
      let a = occurs-append t (remove t (s.queue q)) (t ∷ []) in
      let l = left q in rw (queue_at, a, l) (ground arith)

  occurs_gone : (j : ℕ) → j ≢ q → occurs t ((append_task e t q s).queue j) ≡ 0
  occurs_gone j n = rw (queue_elsewhere j n) (left j)

  status_at : ((append_task e t q s).tasks t).status ≡ q
  unfolding append_task
  status_at = rw (==_refl t) refl

  status_other : (u : ℕ) → u ≢ t → ((append_task e t q s).tasks u).status ≡ (s.tasks u).status
  unfolding append_task
  status_other u n = rw (==_ne u t n) refl

  fresh_same : (append_task e t q s).fresh ≡ s.fresh
  unfolding append_task
  fresh_same = refl

  count_at : (append_task e t q s).taskcount q ≡ inc_ℤ (s.taskcount q)
  unfolding append_task
  count_at = rw (==_refl q) refl

  count_elsewhere : (j : ℕ) → j ≢ q → (append_task e t q s).taskcount j ≡ s.taskcount j
  unfolding append_task
  count_elsewhere j n = rw (==_ne j q n) refl

  append_once : (j u : ℕ) → occurs u ((append_task e t q s).queue j) ≤ 1
  append_once j u = elim (Bool-cases (u == t)) [
    | inl y ↦ rw ((==_iff u t).0 y) (elim (Bool-cases (j == q)) [
      | inl z ↦ rw ((==_iff j q).0 z) (omega (arith, occurs_at))
      | inr z ↦ omega (arith, occurs_gone j (λ w. ground arith))
    ])
    | inr n ↦ omega (arith, occurs_other u j (λ w. ground arith), o.once j u)
  ]

  append_known :
      (j u : ℕ)
      → 1 ≤ occurs u ((append_task e t q s).queue j)
      → (((append_task e t q s).tasks u).status ≡ j) × (u < (append_task e t q s).fresh)
  append_known j u h = elim (Bool-cases (u == t)) [
    | inl y ↦
        let w = (==_iff u t).0 y in
        elim (Bool-cases (j == q)) [
          | inl z ↦ rw (w, (==_iff j q).0 z, fresh_same) (status_at, exists)
          | inr z ↦ absurd (
              let h' : 1 ≤ occurs t ((append_task e t q s).queue j) = rw w at h in
              omega (arith, h', occurs_gone j (λ x. ground arith)))
        ]
    | inr n ↦
        let m : u ≢ t = λ w. ground arith in
        let k = o.known j u (omega (arith, h, occurs_other u j m)) in
        (status_other u m ∙ k.0, rw fresh_same (k.1))
  ]

  append-Requeued : Requeued s t q (append_task e t q s)
  append-Requeued = record {
    ordered = record { once = append_once; known = append_known };
    at_end = queue_at;
    elsewhere = queue_elsewhere;
    gone = occurs_gone;
    others = occurs_other;
    fresh = fresh_same;
    counted = count_at;
    not_counted = count_elsewhere;
  }

  -- A task that exists, put into a queue whose lock is free, is at the end of that queue and in no
  -- other, wherever it was before; the other tasks stay where they are, and still each task is in
  -- one queue at most. The counter of the new queue goes up, and no counter goes down: the one of
  -- the queue that the task was in counts it from then on though it left.
  pub set-Requeued :
      q < task_q_unknown → lock_fails e ≡ false → Requeued s t q (pfs_set_task e t q s).0
  unfolding pfs_set_task
  set-Requeued h f = rw (lt→ltb q task_q_unknown h, f) append-Requeued
