-- ===== src/Task/Timeout.antt =====
-- `do_timeout_task` of network/pfs_task.c sweeps the queues: one task, one queue.
use pfs.Common.{
  ℕ, ◌+◌, ltb, ◌||◌, ◌≤◌, ◌<◌, ◌≡◌, ◌≢◌, refl, sym, ap, ◌∙◌, subst, Bool, true, false, List, [],
  ◌∷◌, ◌++◌, ◌==◌, if◌then◌else◌, length, ==_iff, ==_refl, ==_ne, arith, sub_ℕ, dec_ℤ_sub,
  Bool-cases, inl, inr,
}
use pfs.Task.{
  Tasks, Env, remove, update, unlink, count_down, write, pfs_set_task, append_task, timed_out,
  check_task_timeout, lock_fails,
}
use pfs.Task.Types.{TaskBase, Tasklist, task_q_home, over_timeout, zero_base, zero_sub}
use pfs.Task.Moves.{
  occurs, occurs-remove, occurs-remove_ne, length-remove, occurs_le_length, remove_absent,
}
use pfs.Task.Invariant.{IsValid, Owned, one_queue}
use pfs.Task.Puts.{set-Puts, Puts}

-- Whether a task was started longer ago than the limit, or is marked as one that was too late.
abbrev pub too_old : ℕ → (ℕ → Env) → (ℕ → Tasklist) → ℕ → Bool
too_old timeout home m t =
    ltb ((m t).base.starttime + timeout) (home t).now || ((m t).base.overstatus == over_timeout)

timed_out-too_old :
    (timeout now : ℕ) (b : TaskBase)
    → (timed_out timeout now b == over_timeout)
      ≡ (ltb (b.starttime + timeout) now || (b.overstatus == over_timeout))
unfolding timed_out
timed_out-too_old timeout now b = elim (Bool-cases (ltb (b.starttime + timeout) now)) [
  | inl y ↦ rw y refl
  | inr z ↦ rw z refl
]

abbrev pub kept : (ℕ → Bool) → List ℕ → List ℕ
kept old [] = []
kept old (t ∷ ts) = if old t then kept old ts else t ∷ kept old ts

abbrev pub expired : (ℕ → Bool) → List ℕ → List ℕ
expired old [] = []
expired old (t ∷ ts) = if old t then t ∷ expired old ts else expired old ts

pub kept_cong :
    (f g : ℕ → Bool) (xs : List ℕ)
    → ((u : ℕ) → 1 ≤ occurs u xs → f u ≡ g u)
    → (kept f xs ≡ kept g xs) × (expired f xs ≡ expired g xs)
kept_cong f g [] h = (refl, refl)
kept_cong f g (x ∷ xs) h =
    let a = h x (rw (==_refl x) (omega arith)) in
    let ih = kept_cong f g xs (λ u k. h u (ground arith)) in rw (a, ih.0, ih.1) (refl, refl)

-- The task out of its queue, uncounted and cleared.
abbrev pub cleared : ℕ → Tasks → Tasks
cleared t s =
    let v = s.tasks t in
    write t (record v { base = zero_base; sub = zero_sub }) (count_down v.status (unlink t s))

module _ (off : ℕ → ℕ) (s : Tasks) (q t : ℕ) (v : IsValid off s)
    (there : 1 ≤ occurs t (s.queue q)) where
  status_q : (s.tasks t).status ≡ q
  status_q = (v.known q t there).0

  gone : (j : ℕ) → occurs t (remove t (s.queue j)) ≡ 0
  gone j = omega (arith, occurs-remove t (s.queue j), v.once j t)

  fewer : (j u : ℕ) → occurs u (remove t (s.queue j)) ≤ occurs u (s.queue j)
  fewer j u = elim (Bool-cases (u == t)) [
    | inl y ↦ rw ((==_iff u t).0 y) (omega (arith, gone j))
    | inr n ↦ rw (occurs-remove_ne t u (s.queue j) (λ w. ground arith)) (omega arith)
  ]

  cleared_known :
      (j u : ℕ)
      → 1 ≤ occurs u (remove t (s.queue j))
      → (((cleared t s).tasks u).status ≡ j) × (u < s.fresh)
  cleared_known j u h = elim (Bool-cases (u == t)) [
    | inl y ↦ absurd (let a = rw ((==_iff u t).0 y) at h in omega (arith, gone j, a))
    | inr n ↦ rw n (v.known j u (omega (arith, h, fewer j u)))
  ]

  cleared_counted :
      (j : ℕ) → (cleared t s).taskcount j ≡ sub_ℕ (length (remove t (s.queue j))) (off j)
  cleared_counted j = elim (Bool-cases (j == q)) [
    | inl y ↦
        rw (status_q, y, (==_iff j q).0 y, v.counted q)
          (dec_ℤ_sub (length (s.queue q)) (off q) (length (remove t (s.queue q)))
            (omega (arith, there, length-remove t (s.queue q), occurs_le_length t (s.queue q))))
    | inr n ↦
        rw
          (
            status_q,
            n,
            remove_absent t (s.queue j) (one_queue off s q j t v there (λ w. ground arith)),
          )
          (v.counted j)
  ]

  cleared-IsValid : IsValid off (cleared t s)
  cleared-IsValid = record {
    once = λ j u. omega (arith, fewer j u, v.once j u);
    known = cleared_known;
    counted = cleared_counted;
  }

  cleared-Owned : Owned t (cleared t s)
  cleared-Owned = record { exists = (v.known q t there).1; unqueued = gone }

-- The locks of the queues are free.
abbrev pub Free : (ℕ → Env) → Type 0
Free locks = (t : ℕ) → lock_fails (locks t) ≡ false

module _ (timeout : ℕ) (home : ℕ → Env) where
  timed_out_young :
      (now : ℕ) (b : TaskBase)
      → (timed_out timeout now b == over_timeout) ≡ false
      → timed_out timeout now b ≡ b.overstatus
  unfolding timed_out
  timed_out_young now b h = ground arith

  update_same : {A : Type 0} (f : ℕ → A) (t u : ℕ) → update f t (f t) u ≡ f u
  update_same f t u = elim (Bool-cases (u == t)) [
    | inl y ↦ rw ((==_iff u t).0 y, ==_refl t) refl
    | inr n ↦ rw n refl
  ]

  same_write : (s : Tasks) (t : ℕ) → write t (s.tasks t) s ≡ s
  same_write s t i = record s { tasks = λ u. update_same s.tasks t u i }

  pub check_young :
      (s : Tasks) (t : ℕ)
      → too_old timeout home s.tasks t ≡ false
      → check_task_timeout timeout (home t) t s ≡ s
  unfolding check_task_timeout timed_out
  check_young s t y' =
      let y = timed_out-too_old timeout (home t).now (s.tasks t).base ∙ y' in
      rw (y, timed_out_young (home t).now (s.tasks t).base y) (same_write s t)

  check_old :
      (s : Tasks) (t : ℕ)
      → too_old timeout home s.tasks t ≡ true
      → check_task_timeout timeout (home t) t s
        ≡ (pfs_set_task (home t) t task_q_home (cleared t s)).0
  unfolding check_task_timeout
  check_old s t y' =
      let y = timed_out-too_old timeout (home t).now (s.tasks t).base ∙ y' in rw y refl

  -- The old task `t` went from queue `q` to the end of `TASK_Q_HOME`.
  pub record Moved (off : ℕ → ℕ) (s : Tasks) (q t : ℕ) (r : Tasks) : Type 0 where
    pub valid : IsValid off r
    pub left : r.queue q ≡ remove t (s.queue q)
    pub homed : r.queue task_q_home ≡ s.queue task_q_home ++ t ∷ []
    pub elsewhere : (j : ℕ) → j ≢ q → j ≢ task_q_home → r.queue j ≡ s.queue j
    pub same : (u : ℕ) → u ≢ t → r.tasks u ≡ s.tasks u

  module _ (free : Free home) (off : ℕ → ℕ) where
    set_same :
        (e : Env) (s : Tasks) (t u : ℕ)
        → u ≢ t
        → (pfs_set_task e t task_q_home s).0.tasks u ≡ s.tasks u
    unfolding pfs_set_task append_task
    set_same e s t u n = elim (Bool-cases (lock_fails e)) [
      | inl f ↦ rw f refl
      | inr g ↦ rw (g, ==_ne u t n) refl
    ]

    set-home :
        (s : Tasks) (t : ℕ)
        → IsValid off s
        → Owned t s
        → Puts off s t task_q_home (pfs_set_task (home t) t task_q_home s).0
    set-home s t v o = elim (set-Puts off (home t) s t task_q_home v o) [
      | inl p ↦ p.2.1
      | inr (inl x, z) ↦ absurd (omega (arith, x))
      | inr (inr x, z) ↦ absurd (let w : false ≡ true = sym (free t) ∙ x in cc)
    ]

    pub check_old-Moved :
        (s : Tasks) (q t : ℕ)
        → IsValid off s
        → 1 ≤ occurs t (s.queue q)
        → q ≢ task_q_home
        → too_old timeout home s.tasks t ≡ true
        → Moved off s q t (check_task_timeout timeout (home t) t s)
    check_old-Moved s q t v there n old =
        let p =
          set-home (cleared t s) t (cleared-IsValid off s q t v there)
            (cleared-Owned off s q t v there) in
        let absent : (j : ℕ) → j ≢ q → remove t (s.queue j) ≡ s.queue j =
          λ j m. remove_absent t (s.queue j) (one_queue off s q j t v there m) in
        subst (Moved off s q t) (sym (check_old s t old)) (record {
          valid = p.valid;
          left = p.elsewhere q n;
          homed = p.at_end ∙ ap (λ xs. xs ++ t ∷ []) (absent task_q_home (λ w. n (sym w)));
          elsewhere = λ j m m'. p.elsewhere j m' ∙ absent j m;
          same = λ u m. set_same (home t) (cleared t s) t u m ∙ rw (==_ne u t m) refl;
        })
