-- ===== src/Task/Free.antt =====
-- A new task from TASK_Q_HOME (`pfs_get_task` of network/pfs_task.c).
use pfs.Common.{
  ℕ, ◌<◌, ◌≡◌, refl, true, false, some, List, [], ◌∷◌, ◌==◌, inl, inr, Bool-cases, ==_iff, ==_ne,
  ltb, arith,
}
use pfs.Task.{Tasks, Env, allocate, take_first, pfs_get_task, lock_fails}
use pfs.Task.Types.{task_q_home, task_q_unknown}

-- What the two states say that the task is about.
pub record Same (u : ℕ) (s r : Tasks) : Type 0 where
  pub base : (r.tasks u).base ≡ (s.tasks u).base
  pub sub : (r.tasks u).sub ≡ (s.tasks u).sub

first_home :
    (e : Env) (xs : List ℕ) (s : Tasks)
    → e.malloc_ok ≡ true
    → (t : ℕ) × ((take_first e task_q_home xs s).task ≡ some t)
unfolding take_first allocate
first_home e [] s m = (s.fresh, rw m refl)
first_home e (t ∷ ts) s m = (t, refl)

-- With the lock and memory there is one.
pub home_gives :
    (e : Env) (s : Tasks)
    → lock_fails e ≡ false
    → e.malloc_ok ≡ true
    → (t : ℕ) × ((pfs_get_task e task_q_home s).task ≡ some t)
unfolding pfs_get_task
home_gives e s f m = let g = first_home e (s.queue task_q_home) s m in (g.0, rw f (g.1))

Same-refl : (u : ℕ) (s : Tasks) → Same u s s
Same-refl u s = record { base = refl; sub = refl }

first-Same :
    (e : Env) (q u : ℕ) (xs : List ℕ) (s : Tasks)
    → u < s.fresh
    → Same u s (take_first e q xs s).state
unfolding take_first allocate
first-Same e q u [] s h = elim (Bool-cases (q == task_q_home)) [
  | inl y ↦ rw y (elim (Bool-cases e.malloc_ok) [
    | inl m ↦
        let n = ==_ne u s.fresh (λ w. omega (arith, w, h)) in
        rw m (record { base = rw n refl; sub = rw n refl })
    | inr m ↦ rw m (Same-refl u s)
  ])
  | inr z ↦ rw z (Same-refl u s)
]
first-Same e q u (t ∷ ts) s h = elim (Bool-cases (u == t)) [
  | inl y ↦ record { base = rw (y, (==_iff u t).0 y) refl; sub = rw (y, (==_iff u t).0 y) refl }
  | inr n ↦ record { base = rw n refl; sub = rw n refl }
]

-- No task that exists changes what it is about.
pub get-Same : (e : Env) (q u : ℕ) (s : Tasks) → u < s.fresh → Same u s (pfs_get_task e q s).state
unfolding pfs_get_task
get-Same e q u s h = elim (Bool-cases (ltb q task_q_unknown)) [
  | inr n ↦ rw n (Same-refl u s)
  | inl y ↦ elim (Bool-cases (lock_fails e)) [
    | inl f ↦ rw (y, f) (Same-refl u s)
    | inr g ↦ rw (y, g) (first-Same e q u (s.queue q) s h)
  ]
]
