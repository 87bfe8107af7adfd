-- ===== src/Task/Init.antt =====
-- `init_task_info` of network/pfs_task.c sets the queues up.
use pfs.Common.{
  none, ℕ, zero, suc, ◌+◌, ◌≤◌, ◌<◌, ◌≡◌, ◌≢◌, refl, subst, true, [], ◌∷◌, ◌==◌, if◌then◌else◌,
  length, ==_iff, ==_ne, arith, pos, negsuc, Bool-cases, inl, inr,
}
use pfs.Task.{Tasks, update, fill, init_task_info}
use pfs.Task.Types.{task_q_home, zero_base, zero_sub}
use pfs.Task.Moves.{occurs}
use pfs.Task.Invariant.{IsValid}

-- The counter of `TASK_Q_HOME` does not count the first 2048 tasks.
abbrev pub home_off : ℕ → ℕ
home_off q = if q == task_q_home then 2048 else 0

-- The first `k` tasks are in `TASK_Q_HOME`, and no other task is anywhere.
record Filled (k : ℕ) (s : Tasks) : Type 0 where
  fresh : s.fresh ≡ k
  elsewhere : (q : ℕ) → q ≢ task_q_home → s.queue q ≡ []
  size : length (s.queue task_q_home) ≡ k
  once : (t : ℕ) → occurs t (s.queue task_q_home) ≤ 1
  known :
      (t : ℕ)
      → 1 ≤ occurs t (s.queue task_q_home)
      → ((s.tasks t).status ≡ task_q_home) × (t < s.fresh)

abbrev filled_one : Tasks → Tasks
filled_one s = record s {
  queue = update s.queue task_q_home (s.fresh ∷ s.queue task_q_home);
  tasks =
      update s.tasks s.fresh
        (record { base = zero_base; sub = zero_sub; last = negsuc 0; status = task_q_home });
  fresh = s.fresh + 1;
}

one-Filled : (k : ℕ) (s : Tasks) → Filled k s → Filled (k + 1) (filled_one s)
one-Filled k s f = record {
  fresh = omega (arith, f.fresh);
  elsewhere = λ q n. rw (==_ne q task_q_home n) (f.elsewhere q n);
  size = omega (arith, f.size);
  once = λ t. let a = f.once t in let b = f.known t in ground arith;
  known = λ t h.
      let b = f.known t in
      elim (Bool-cases (t == s.fresh)) [
        | inl y ↦ rw y (refl, let w = (==_iff t s.fresh).0 y in omega (arith, w))
        | inr n ↦ rw n (
            let c : 1 ≤ occurs t (s.queue task_q_home) = ground arith in
            ((b c).0, omega (arith, (b c).1)))
      ];
}

fill-Filled : (n k : ℕ) (s : Tasks) → Filled k s → Filled (k + n) (fill n s)
unfolding fill
fill-Filled zero k s f = subst (λ j. Filled j s) (omega arith) f
fill-Filled (suc n) k s f =
    subst (λ j. Filled j (fill n (filled_one s))) (omega arith)
      (fill-Filled n (k + 1) (filled_one s) (one-Filled k s f))

cleared-IsValid :
    (s : Tasks) → Filled 2048 s → IsValid home_off (record s { taskcount = λ q. pos 0 })
cleared-IsValid s f = record {
  once = λ q t. elim (Bool-cases (q == task_q_home)) [
    | inl y ↦ rw ((==_iff q task_q_home).0 y) (f.once t)
    | inr n ↦ rw (f.elsewhere q (λ w. ground arith)) (omega arith)
  ];
  known = λ q t h. elim (Bool-cases (q == task_q_home)) [
    | inl y ↦ let w = (==_iff q task_q_home).0 y in rw w (f.known t (rw w at h))
    | inr n ↦ absurd (let a = rw (f.elsewhere q (λ w. ground arith)) at h in omega (arith, a))
  ];
  counted = λ q. elim (Bool-cases (q == task_q_home)) [
    | inl y ↦ rw ((==_iff q task_q_home).0 y) (rw f.size refl)
    | inr n ↦ rw (f.elsewhere q (λ w. ground arith), n) refl
  ];
}

-- When the mutexes and the memory are there, the initial state has each of its tasks in one queue
-- and all counters right but that of `TASK_Q_HOME`, which is 2048 too small.
pub init-IsValid : (s : Tasks) → s.fresh ≡ 0 → IsValid home_off (init_task_info none true s).0
unfolding init_task_info
init-IsValid s z =
    let f =
      fill-Filled 2048 0 (record s { queue = λ q. [] })
        (record {
          fresh = z;
          elsewhere = λ q n. refl;
          size = refl;
          once = λ t. omega arith;
          known = λ t h. absurd (omega (arith, h));
        }) in
    cleared-IsValid _ (subst (λ k. Filled k (fill 2048 (record s { queue = λ q. [] }))) refl f)
