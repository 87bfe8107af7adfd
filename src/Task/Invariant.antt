-- ===== src/Task/Invariant.antt =====
-- The discipline of the queues of network/pfs_task.c: a task is in one queue, the one that its
-- status names, or one thread owns it.
use pfs.Common.{
  ℕ, suc, ◌≤◌, ◌<◌, ◌≡◌, ◌≢◌, refl, sym, true, none, some, List, [], ◌∷◌, ◌==◌, length, ==_iff,
  ==_refl, ==_ne, arith, ℤ, pos, sub_ℕ, dec_ℤ, dec_ℤ_sub, ltb, Bool-cases, inl, inr,
}
use pfs.Task.{Tasks, Env, Got, update, allocate, take_first, pfs_get_task, lock_fails}
use pfs.Task.Types.{task_q_unknown, task_q_home}
use pfs.Task.Moves.{occurs}

-- `off` says by how much the counter of a queue is less than its length.
pub record IsValid (off : ℕ → ℕ) (s : Tasks) : Type 0 where
  pub once : (q t : ℕ) → occurs t (s.queue q) ≤ 1
  pub known : (q t : ℕ) → 1 ≤ occurs t (s.queue q) → ((s.tasks t).status ≡ q) × (t < s.fresh)
  pub counted : (q : ℕ) → s.taskcount q ≡ sub_ℕ (length (s.queue q)) (off q)

-- A task that exists and is in no queue: the thread that took it is the only one that has it.
pub record Owned (t : ℕ) (s : Tasks) : Type 0 where
  pub exists : t < s.fresh
  pub unqueued : (q : ℕ) → occurs t (s.queue q) ≡ 0

update_at : {A : Type 0} (f : ℕ → A) (i : ℕ) (a : A) → update f i a i ≡ a
update_at f i a = rw (==_refl i) refl

update_ne : {A : Type 0} (f : ℕ → A) (i j : ℕ) (a : A) → j ≢ i → update f i a j ≡ f j
update_ne f i j a n = rw (==_ne j i n) refl

-- What a call that gives a task does.
pub record Gives (off : ℕ → ℕ) (s : Tasks) (t : ℕ) (r : Tasks) : Type 0 where
  pub valid : IsValid off r
  pub owned : Owned t r
  pub was_free : (u : ℕ) → Owned u s → (u ≢ t) × Owned u r

-- In which queue a task can be.
pub one_queue :
    (off : ℕ → ℕ) (s : Tasks) (q j t : ℕ)
    → IsValid off s
    → 1 ≤ occurs t (s.queue q)
    → j ≢ q
    → occurs t (s.queue j) ≡ 0
one_queue off s q j t v h n = let a = (v.known q t h).0 in let b = v.known j t in ground arith

occurs_cons :
    (t u : ℕ) (ts : List ℕ)
    → (occurs t (t ∷ ts) ≡ suc (occurs t ts))
      × (u ≢ t → occurs u (t ∷ ts) ≡ occurs u ts)
      × (occurs u ts ≤ occurs u (t ∷ ts))
occurs_cons t u ts = ground arith

module _ (off : ℕ → ℕ) (s : Tasks) (q t : ℕ) (ts : List ℕ) (v : IsValid off s)
    (e : s.queue q ≡ t ∷ ts) where
  head_in : occurs t (s.queue q) ≡ suc (occurs t ts)
  head_in = rw e ((occurs_cons t t ts).0)

  rest_le : (j u : ℕ) → occurs u (update s.queue q ts j) ≤ occurs u (s.queue j)
  rest_le j u = elim (Bool-cases (j == q)) [
    | inl y ↦ rw (y, (==_iff j q).0 y, e) ((occurs_cons t u ts).2)
    | inr n ↦ rw n (omega arith)
  ]

  head_free : (j : ℕ) → occurs t (update s.queue q ts j) ≡ 0
  head_free j = elim (Bool-cases (j == q)) [
    | inl y ↦ rw y (omega (arith, head_in, v.once q t))
    | inr n ↦ rw n (one_queue off s q j t v (omega (arith, head_in)) (λ w. ground arith))
  ]

  abbrev taken : Tasks
  taken = record s {
    queue = update s.queue q ts;
    taskcount = update s.taskcount q (dec_ℤ (s.taskcount q));
    tasks = update s.tasks t (record (s.tasks t) { status = task_q_unknown });
  }

  taken_known :
      (j u : ℕ)
      → 1 ≤ occurs u (update s.queue q ts j)
      → ((update s.tasks t (record (s.tasks t) { status = task_q_unknown }) u).status ≡ j)
        × (u < s.fresh)
  taken_known j u h = elim (Bool-cases (u == t)) [
    | inl y ↦ absurd (let z = rw (sym ((==_iff u t).0 y)) at (head_free j) in omega (arith, h, z))
    | inr n ↦ rw n (v.known j u (omega (arith, h, rest_le j u)))
  ]

  taken_counted :
      (j : ℕ)
      → update s.taskcount q (dec_ℤ (s.taskcount q)) j
        ≡ sub_ℕ (length (update s.queue q ts j)) (off j)
  taken_counted j = elim (Bool-cases (j == q)) [
    | inl y ↦
        rw (y, (==_iff j q).0 y, v.counted q, e)
          (dec_ℤ_sub (suc (length ts)) (off q) (length ts) (omega arith))
    | inr n ↦ rw n (v.counted j)
  ]

  take-Gives : Gives off s t taken
  take-Gives = record {
    valid = record {
      once = λ j u. omega (arith, rest_le j u, v.once j u);
      known = taken_known;
      counted = taken_counted;
    };
    owned = record { exists = (v.known q t (omega (arith, head_in))).1; unqueued = head_free };
    was_free = λ u o. (
      λ w. let z = rw w at (o.unqueued q) in omega (arith, z, head_in),
      record { exists = o.exists; unqueued = λ j. omega (arith, rest_le j u, o.unqueued j) },
    );
  }

-- A new address is in no queue.
fresh_free :
    (off : ℕ → ℕ) (s : Tasks) (t : ℕ)
    → IsValid off s
    → s.fresh ≤ t
    → (j : ℕ) → occurs t (s.queue j) ≡ 0
fresh_free off s t v h j = let k = v.known j t in ground arith

-- What `pfs_get_task` answers: an error or nothing, and the state as it was, or a task that from
-- now on belongs to the caller alone.
pub data Answers (off : ℕ → ℕ) (s : Tasks) : Got → Type 0 where
  nothing : (ret : ℤ) → ret ≢ pos 0 → Answers off s (record { state = s; task = none; ret = ret })
  gives :
      (t : ℕ) (r : Tasks)
      → Gives off s t r
      → Answers off s (record { state = r; task = some t; ret = pos 0 })

pos_ne : (n : ℕ) → n ≢ 0 → pos n ≢ pos 0
pos_ne n h = ground arith

allocate-Answers :
    (off : ℕ → ℕ) (e : Env) (s : Tasks) → IsValid off s → Answers off s (allocate e s)
unfolding allocate
allocate-Answers off e s v = elim (Bool-cases e.malloc_ok) [
  | inl y ↦ rw y (
      gives s.fresh _ (record {
        valid = record {
          once = v.once;
          known = λ j u h.
              let k = v.known j u h in
              rw (==_ne u s.fresh (λ w. omega (arith, k.1, w))) (k.0, omega (arith, k.1));
          counted = v.counted;
        };
        owned = record {
          exists = omega arith;
          unqueued = fresh_free off s s.fresh v (omega arith);
        };
        was_free = λ u o. (
          λ w. omega (arith, o.exists, w),
          record { exists = omega (arith, o.exists); unqueued = o.unqueued },
        );
      }))
  | inr n ↦ rw n (nothing (pos 1) (pos_ne 1 (omega arith)))
]

take_first-Answers :
    (off : ℕ → ℕ) (e : Env) (q : ℕ) (xs : List ℕ) (s : Tasks)
    → s.queue q ≡ xs
    → IsValid off s
    → Answers off s (take_first e q xs s)
unfolding take_first
take_first-Answers off e q [] s w v = elim (Bool-cases (q == task_q_home)) [
  | inl y ↦ rw y (allocate-Answers off e s v)
  | inr n ↦ rw n (nothing (pos 1) (pos_ne 1 (omega arith)))
]
take_first-Answers off e q (t ∷ ts) s w v = gives t _ (take-Gives off s q t ts v w)

lock_fails_ne : (e : Env) → lock_fails e ≡ true → e.lock ≢ 0
lock_fails_ne e h = ground arith

-- A call of `pfs_get_task` with any queue, lock and allocator either changes nothing and returns
-- something else than 0, or returns 0 and a task that is in no queue afterwards and that no thread
-- owned before; every other owned task stays owned, and the queues stay in order.
pub get-Answers :
    (off : ℕ → ℕ) (e : Env) (q : ℕ) (s : Tasks) → IsValid off s → Answers off s (pfs_get_task e q s)
unfolding pfs_get_task
get-Answers off e q s v = elim (Bool-cases (ltb q task_q_unknown)) [
  | inr n ↦ rw n (nothing _ (ground arith))
  | inl y ↦ elim (Bool-cases (lock_fails e)) [
    | inl f ↦ rw (y, f) (nothing _ (pos_ne e.lock (lock_fails_ne e f)))
    | inr g ↦ rw (y, g) (take_first-Answers off e q (s.queue q) s refl v)
  ]
]
