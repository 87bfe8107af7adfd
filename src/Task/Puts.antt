-- ===== src/Task/Puts.antt =====
-- `pfs_set_task` of network/pfs_task.c.
use pfs.Common.{
  ℕ, ◌≤◌, ◌<◌, ◌≡◌, ◌≢◌, refl, ◌∙◌, true, false, [], ◌∷◌, ◌++◌, ◌==◌, length, ==_iff, ==_refl,
  ==_ne, arith, pos, sub_ℕ, inc_ℤ, inc_ℤ_sub, length-append, ltb, Bool-cases, ◌⊎◌, negsuc, ltb→le,
  ltb→lt, inl, inr,
}
use pfs.Task.{Tasks, Env, remove, append_task, pfs_set_task, lock_fails}
use pfs.Task.Types.{task_q_unknown}
use pfs.Task.Moves.{occurs, remove_absent, occurs-append}
use pfs.Task.Invariant.{IsValid, Owned}

-- `t` was put at the end of queue `q`.
pub record Puts (off : ℕ → ℕ) (s : Tasks) (t q : ℕ) (r : Tasks) : Type 0 where
  pub valid : IsValid off r
  pub at_end : r.queue q ≡ s.queue q ++ t ∷ []
  pub elsewhere : (j : ℕ) → j ≢ q → r.queue j ≡ s.queue j
  pub others : (u : ℕ) → u ≢ t → Owned u s → Owned u r

module _ (off : ℕ → ℕ) (e : Env) (s : Tasks) (t q : ℕ) (v : IsValid off s) (o : Owned t s) where
  unlinked : (j : ℕ) → remove t (s.queue j) ≡ s.queue j
  unlinked j = remove_absent t (s.queue j) (o.unqueued j)

  append_at : (append_task e t q s).queue q ≡ s.queue q ++ t ∷ []
  unfolding append_task
  append_at = rw (==_refl q, unlinked q) refl

  append_elsewhere : (j : ℕ) → j ≢ q → (append_task e t q s).queue j ≡ s.queue j
  unfolding append_task
  append_elsewhere j n = rw (==_ne j q n) (unlinked j)

  append_occurs :
      (j u : ℕ)
      → (j ≡ q → u ≡ t → ⊥)
      → occurs u ((append_task e t q s).queue j) ≡ occurs u (s.queue j)
  append_occurs j u n = elim (Bool-cases (j == q)) [
    | inl y ↦
        let w = (==_iff j q).0 y in
        rw (w, append_at, occurs-append u (s.queue q) (t ∷ [])) (ground arith)
    | inr z ↦ rw (append_elsewhere j (λ w. ground arith)) refl
  ]

  append_one : (j : ℕ) → occurs t ((append_task e t q s).queue j) ≤ 1
  append_one j = elim (Bool-cases (j == q)) [
    | inl y ↦
        let w = (==_iff j q).0 y in
        rw (w, append_at, occurs-append t (s.queue q) (t ∷ []), o.unqueued q) (ground arith)
    | inr z ↦ rw (append_elsewhere j (λ w. ground arith), o.unqueued j) (omega arith)
  ]

  append_absent : (j : ℕ) → j ≢ q → occurs t ((append_task e t q s).queue j) ≡ 0
  append_absent j n = rw (append_elsewhere j n) (o.unqueued j)

  append_known :
      (j u : ℕ)
      → 1 ≤ occurs u ((append_task e t q s).queue j)
      → (((append_task e t q s).tasks u).status ≡ j) × (u < (append_task e t q s).fresh)
  unfolding append_task
  append_known j u h = elim (Bool-cases (u == t)) [
    | inl y ↦ elim (Bool-cases (j == q)) [
      | inl z ↦ rw (y, (==_iff j q).0 z, (==_iff u t).0 y) (refl, o.exists)
      | inr z ↦ absurd (
          let a : 1 ≤ occurs t ((append_task e t q s).queue j) = rw ((==_iff u t).0 y) at h in
          omega (arith, a, append_absent j (λ w. ground arith)))
    ]
    | inr n ↦ rw n (v.known j u (omega (arith, h, append_occurs j u (λ a b. ground arith))))
  ]

  append_count : (append_task e t q s).taskcount q ≡ inc_ℤ (s.taskcount q)
  unfolding append_task
  append_count = rw (==_refl q) refl

  append_count_ne : (j : ℕ) → j ≢ q → (append_task e t q s).taskcount j ≡ s.taskcount j
  unfolding append_task
  append_count_ne j n = rw (==_ne j q n) refl

  append_fresh : (append_task e t q s).fresh ≡ s.fresh
  unfolding append_task
  append_fresh = refl

  append_counted :
      (j : ℕ)
      → (append_task e t q s).taskcount j ≡ sub_ℕ (length ((append_task e t q s).queue j)) (off j)
  append_counted j = elim (Bool-cases (j == q)) [
    | inl y ↦
        let w = (==_iff j q).0 y in
        rw (w, append_at)
          (append_count
            ∙ rw (v.counted q) (
                inc_ℤ_sub (length (s.queue q)) (off q) (length (s.queue q ++ t ∷ []))
                  (omega (arith, length-append (s.queue q) (t ∷ [])))))
    | inr z ↦
        rw (append_elsewhere j (λ w. ground arith))
          (append_count_ne j (λ w. ground arith) ∙ v.counted j)
  ]

  append-Puts : Puts off s t q (append_task e t q s)
  append-Puts = record {
    valid = record {
      once = λ j u. elim (Bool-cases (u == t)) [
        | inl y ↦ rw ((==_iff u t).0 y) (append_one j)
        | inr n ↦ rw (append_occurs j u (λ a b. ground arith)) (v.once j u)
      ];
      known = append_known;
      counted = append_counted;
    };
    at_end = append_at;
    elsewhere = append_elsewhere;
    others = λ u n w. record {
      exists = rw append_fresh w.exists;
      unqueued = λ j. rw (append_occurs j u (λ a b. n b)) (w.unqueued j);
    };
  }

-- A task that a thread owns, put into a queue that exists and whose lock is free, is at the end of
-- that queue afterwards; the other queues and the other owned tasks are as before, and the queues
-- stay in order. With no such queue or no lock the result is -1 and nothing changes.
pub set-Puts :
    (off : ℕ → ℕ) (e : Env) (s : Tasks) (t q : ℕ)
    → IsValid off s
    → Owned t s
    → ((q < task_q_unknown)
        × (lock_fails e ≡ false)
        × (((pfs_set_task e t q s).1 ≡ pos e.lock) × Puts off s t q (pfs_set_task e t q s).0))
      ⊎ (((task_q_unknown ≤ q) ⊎ (lock_fails e ≡ true)) × (pfs_set_task e t q s ≡ (s, negsuc 0)))
unfolding pfs_set_task
set-Puts off e s t q v o = elim (Bool-cases (ltb q task_q_unknown)) [
  | inr n ↦ inr (inl (ltb→le q task_q_unknown n), rw n refl)
  | inl y ↦ elim (Bool-cases (lock_fails e)) [
    | inl f ↦ inr (inr f, rw (y, f) refl)
    | inr g ↦ inl (ltb→lt q task_q_unknown y, g, rw (y, g) (refl, append-Puts off e s t q v o))
  ]
]

-- No call of `pfs_set_task` changes what a task is about.
pub set_base :
    (e : Env) (t q u : ℕ) (s : Tasks) → ((pfs_set_task e t q s).0.tasks u).base ≡ (s.tasks u).base
unfolding pfs_set_task append_task
set_base e t q u s = elim (Bool-cases (ltb q task_q_unknown)) [
  | inr n ↦ rw n refl
  | inl y ↦ elim (Bool-cases (lock_fails e)) [
    | inl f ↦ rw (y, f) refl
    | inr g ↦ elim (Bool-cases (u == t)) [
      | inl w ↦ rw (y, g, w, (==_iff u t).0 w) refl
      | inr w ↦ rw (y, g, w) refl
    ]
  ]
]

pub set_sub :
    (e : Env) (t q u : ℕ) (s : Tasks) → ((pfs_set_task e t q s).0.tasks u).sub ≡ (s.tasks u).sub
unfolding pfs_set_task append_task
set_sub e t q u s = elim (Bool-cases (ltb q task_q_unknown)) [
  | inr n ↦ rw n refl
  | inl y ↦ elim (Bool-cases (lock_fails e)) [
    | inl f ↦ rw (y, f) refl
    | inr g ↦ elim (Bool-cases (u == t)) [
      | inl w ↦ rw (y, g, w, (==_iff u t).0 w) refl
      | inr w ↦ rw (y, g, w) refl
    ]
  ]
]
