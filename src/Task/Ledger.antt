-- ===== src/Task/Ledger.antt =====
-- The queues of network/pfs_task.c over a history of calls by all threads.
use pfs.Common.{
  ℕ, ◌≡◌, ◌≢◌, refl, sym, ap, ◌∙◌, Option, none, some, List, [], ◌∷◌, ◌++◌, ◌==◌, if◌then◌else◌,
  ==_iff, ==_ne, arith, Bool-cases, inl, inr, ltb, append_assoc, append-nil, pos, negsuc,
}
use pfs.Task.{Tasks, Env, Got, pfs_get_task, take_first, allocate, pfs_set_task, lock_fails}
use pfs.Task.Types.{task_q_unknown, task_q_home}
use pfs.Task.Invariant.{IsValid, Owned, Answers, get-Answers, nothing, gives}
use pfs.Task.Puts.{set-Puts}

pub data Op : Type 0 where
  get : Env → ℕ → Op
  put : Env → ℕ → ℕ → Op

abbrev pub step : Op → Tasks → Tasks
step (get e q) s = (pfs_get_task e q s).state
step (put e t q) s = (pfs_set_task e t q s).0

pub run : List Op → Tasks → Tasks
run [] s = s
run (op ∷ ops) s = run ops (step op s)

-- A thread puts only a task that it owns.
abbrev pub May : Op → Tasks → Type 0
May (get e q) s = Unit
May (put e t q) s = Owned t s

unfoldable pub Legal : List Op → Tasks → Type 0
Legal [] s = Unit
Legal (op ∷ ops) s = May op s × Legal ops (step op s)

abbrev pub task_list : Option ℕ → List ℕ
task_list none = []
task_list (some t) = t ∷ []

-- What a call takes from queue `j`, and what it adds there.
abbrev pub takes : ℕ → Op → Tasks → List ℕ
takes j (get e q) s = if j == q then task_list (pfs_get_task e q s).task else []
takes j (put e t q) s = []

abbrev pub adds : ℕ → Op → Tasks → List ℕ
adds j (get e q) s = []
adds j (put e t q) s =
    if j == q then (elim ((pfs_set_task e t q s).1) [ pos n ↦ t ∷ [] | negsuc n ↦ [] ]) else []

pub taken : ℕ → List Op → Tasks → List ℕ
taken j [] s = []
taken j (op ∷ ops) s = takes j op s ++ taken j ops (step op s)

pub added : ℕ → List Op → Tasks → List ℕ
added j [] s = []
added j (op ∷ ops) s = adds j op s ++ added j ops (step op s)

first_kept :
    (e : Env) (s : Tasks) (j q : ℕ) (xs : List ℕ)
    → s.queue q ≡ xs
    → j ≢ task_q_home
    → (if j == q then task_list (take_first e q xs s).task else [])
        ++ (take_first e q xs s).state.queue j
      ≡ s.queue j
unfolding take_first allocate
first_kept e s j q [] w n = elim (Bool-cases (j == q)) [
  | inl y ↦ rw (y, ==_ne q task_q_home (λ x. n ((==_iff j q).0 y ∙ x))) refl
  | inr z ↦ rw z (elim (Bool-cases (q == task_q_home)) [
    | inl h ↦ rw h (elim (Bool-cases e.malloc_ok) [ inl m ↦ rw m refl | inr m ↦ rw m refl ])
    | inr h ↦ rw h refl
  ])
]
first_kept e s j q (t ∷ ts) w n = elim (Bool-cases (j == q)) [
  | inl y ↦ rw y (rw ((==_iff j q).0 y) (sym w))
  | inr z ↦ rw z refl
]

pub get_kept :
    (e : Env) (s : Tasks) (j q : ℕ)
    → j ≢ task_q_home
    → takes j (get e q) s ++ (pfs_get_task e q s).state.queue j ≡ s.queue j
unfolding pfs_get_task
get_kept e s j q n = elim (Bool-cases (ltb q task_q_unknown)) [
  | inr z ↦ rw z (elim (Bool-cases (j == q)) [ inl y ↦ rw y refl | inr y ↦ rw y refl ])
  | inl z ↦ elim (Bool-cases (lock_fails e)) [
    | inl f ↦ rw (z, f) (elim (Bool-cases (j == q)) [ inl y ↦ rw y refl | inr y ↦ rw y refl ])
    | inr f ↦ rw (z, f) (first_kept e s j q (s.queue q) refl n)
  ]
]

pub set_kept :
    (off : ℕ → ℕ) (e : Env) (s : Tasks) (t j q : ℕ)
    → IsValid off s
    → Owned t s
    → (pfs_set_task e t q s).0.queue j ≡ s.queue j ++ adds j (put e t q) s
set_kept off e s t j q v o = elim (set-Puts off e s t q v o) [
  | inl (a, b, (c, p)) ↦ elim (Bool-cases (j == q)) [
    | inl y ↦ rw (c, y, (==_iff j q).0 y) p.at_end
    | inr z ↦ rw (c, z) (p.elsewhere j (λ x. ground arith) ∙ sym (append-nil (s.queue j)))
  ]
  | inr (a, e') ↦ elim (Bool-cases (j == q)) [
    | inl y ↦ rw (y, e') (sym (append-nil (s.queue j)))
    | inr z ↦ rw (z, e') (sym (append-nil (s.queue j)))
  ]
]

get-IsValid :
    (off : ℕ → ℕ) (s : Tasks) (g : Got) → IsValid off s → Answers off s g → IsValid off g.state
get-IsValid off s g v (nothing ret r) = v
get-IsValid off s g v (gives t r w) = w.valid

step-IsValid :
    (off : ℕ → ℕ) (op : Op) (s : Tasks) → IsValid off s → May op s → IsValid off (step op s)
step-IsValid off (get e q) s v m =
    get-IsValid off s (pfs_get_task e q s) v (get-Answers off e q s v)
step-IsValid off (put e t q) s v m = elim (set-Puts off e s t q v m) [
  | inl (a, b, (c, p)) ↦ p.valid
  | inr (a, e') ↦ rw (step, e') v
]

step_kept :
    (off : ℕ → ℕ) (op : Op) (s : Tasks) (j : ℕ)
    → IsValid off s
    → May op s
    → j ≢ task_q_home
    → takes j op s ++ (step op s).queue j ≡ s.queue j ++ adds j op s
step_kept off (get e q) s j v m n = get_kept e s j q n ∙ sym (append-nil (s.queue j))
step_kept off (put e t q) s j v m n = set_kept off e s t j q v m

-- Whatever the threads do, as long as each puts only tasks that it owns: the discipline holds at
-- the end, and what was taken from a queue other than `TASK_Q_HOME`, with what is left in it, is
-- what it held, with what was put into it, in the same order. Locks may fail at any call.
pub run-Ledger :
    (off : ℕ → ℕ) (ops : List Op) (s : Tasks) (j : ℕ)
    → IsValid off s
    → Legal ops s
    → j ≢ task_q_home
    → IsValid off (run ops s) × (taken j ops s ++ (run ops s).queue j ≡ s.queue j ++ added j ops s)
unfolding run Legal taken added
run-Ledger off [] s j v l n = (v, sym (append-nil (s.queue j)))
run-Ledger off (op ∷ ops) s j v l n =
    let r = run-Ledger off ops (step op s) j (step-IsValid off op s v l.0) l.1 n in
    (
      r.0,
      append_assoc (takes j op s) (taken j ops (step op s)) ((run ops (step op s)).queue j)
          ∙ ap (λ l'. takes j op s ++ l') r.1
          ∙ sym (append_assoc (takes j op s) ((step op s).queue j) (added j ops (step op s)))
          ∙ ap (λ l'. l' ++ added j ops (step op s)) (step_kept off op s j v l.0 n)
          ∙ append_assoc (s.queue j) (adds j op s) (added j ops (step op s)),
    )
