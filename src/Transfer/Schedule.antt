-- ===== src/Transfer/Schedule.antt =====
-- `check_task` of network/D/pfs_data_base.c as a whole.
use pfs.Common.{
  ℕ, zero, suc, ◌+◌, ◌%◌, ◌^◌, ◌<◌, ◌≡◌, ◌≢◌, refl, sym, ap, subst, false, Option, none, some, leb,
  length, arith, inl, inr, ◌⊎◌, Bool-cases, Option-cases, ==_ne,
}
use pfs.Task.{Tasks, Env, pfs_get_task, lock_fails}
use pfs.Task.Types.{
  task_q_wait, task_q_wait_tmp, task_q_sync_dir, task_q_sync_dir_tmp, task_q_home, task_q_unknown,
}
use pfs.Task.Invariant.{IsValid, get-Answers}
use pfs.Transfer.{Transfer, Config, Turn, Locks, next_task, run_task, run_all, move_all, check_task}
use pfs.Transfer.Keeps.{Target, to_fin, to_recv, to_wait, to_sync, Ends, ends, run_task-Ends}
use pfs.Transfer.Turns.{
  Queued, none-some, not_given, put-IsValid, round_size, round_kept, Moved, move_all-Moved,
  move_all-keeps,
}

-- Both queues gave nothing, or one gave a task.
data Next (d : Transfer) (r : Transfer × Option ℕ) : Type 0 where
  gives_none : r.1 ≡ none → r.0.tasks ≡ d.tasks → Next d r
  gives_some :
      (e : Env) (q t : ℕ)
      → (q ≡ task_q_wait) ⊎ (q ≡ task_q_sync_dir)
      → (pfs_get_task e q d.tasks).task ≡ some t
      → r.1 ≡ some t
      → r.0.tasks ≡ (pfs_get_task e q d.tasks).state
      → Next d r

next_task-Next :
    (off : ℕ → ℕ) (turn : Turn) (d : Transfer) → IsValid off d.tasks → Next d (next_task turn d)
unfolding next_task
next_task-Next off turn d v =
    let g = pfs_get_task turn.wait task_q_wait d.tasks in
    elim (Option-cases g.task) [
      | inr (t, z) ↦
          gives_some turn.wait task_q_wait t (inl refl) z (rw (z, next_task) refl)
            (rw (z, next_task) refl)
      | inl z ↦
          let same = not_given off d.tasks g (get-Answers off turn.wait task_q_wait d.tasks v) z in
          let h = pfs_get_task turn.sync_dir task_q_sync_dir d.tasks in
          elim (Option-cases h.task) [
            | inr (t, y) ↦
                gives_some turn.sync_dir task_q_sync_dir t (inr refl) y
                  (rw (z, next_task) (rw same y)) (rw (z, next_task) (rw same refl))
            | inl y ↦ gives_none (rw (z, next_task) (rw same y)) (
                rw (z, next_task)
                  (rw same (
                    not_given off d.tasks h
                      (get-Answers off turn.sync_dir task_q_sync_dir d.tasks v) y)))
          ]
    ]

Target-known : (q : ℕ) → Target q → q < task_q_unknown
Target-known q to_fin = omega arith
Target-known q to_recv = omega arith
Target-known q to_wait = omega arith
Target-known q to_sync = omega arith

Target-home : (q : ℕ) → Target q → q ≢ task_q_home
Target-home q to_fin = λ e. omega (arith, e)
Target-home q to_recv = λ e. omega (arith, e)
Target-home q to_wait = λ e. omega (arith, e)
Target-home q to_sync = λ e. omega (arith, e)

-- None of them is a queue that the loop takes from.
Target-other : (q : ℕ) → Target q → (task_q_wait ≢ q) × (task_q_sync_dir ≢ q)
Target-other q to_fin = (λ e. omega (arith, e), λ e. omega (arith, e))
Target-other q to_recv = (λ e. omega (arith, e), λ e. omega (arith, e))
Target-other q to_wait = (λ e. omega (arith, e), λ e. omega (arith, e))
Target-other q to_sync = (λ e. omega (arith, e), λ e. omega (arith, e))

-- How many tasks the last loop can take.
abbrev pub todo : Tasks → ℕ
todo s = length (s.queue task_q_wait) + length (s.queue task_q_sync_dir)

-- A round with a task: the queues stay in order, there is less to do, and nothing is lost.
record OneRound (off : ℕ → ℕ) (s r : Tasks) : Type 0 where
  valid : IsValid off r
  less : todo r < todo s

module _ (off : ℕ → ℕ) (e e' : Env) (s : Tasks) (t q : ℕ) (v : IsValid off s)
    (from : (q ≡ task_q_wait) ⊎ (q ≡ task_q_sync_dir)) (got : (pfs_get_task e q s).task ≡ some t)
    (r : Tasks) where
  round-OneRound : Ends e' t (pfs_get_task e q s).state r → OneRound off s r
  round-OneRound (ends q' w g a z) =
      let k = Target-known q' g in
      let h = Target-home q' g in
      let o = Target-other q' g in
      let size = round_size off e e' s t q q' v k h got w a in
      let x = size task_q_wait (λ c. omega (arith, c)) in
      let y = size task_q_sync_dir (λ c. omega (arith, c)) in
      let nx = ==_ne task_q_wait q' o.0 in
      let ny = ==_ne task_q_sync_dir q' o.1 in
      let x' = rw nx at x in
      let y' = rw ny at y in
      record {
        valid = rw z (put-IsValid off e e' s t q q' v k h got w a);
        less = rw z (elim from [
          | inl p ↦ let x'' = rw p at x' in let y'' = rw p at y' in omega (arith, x'', y'')
          | inr p ↦ let x'' = rw p at x' in let y'' = rw p at y' in omega (arith, x'', y'')
        ]);
      }

  round-keeps :
      (u : ℕ)
      → lock_fails e' ≡ false
      → Ends e' t (pfs_get_task e q s).state r
      → Queued u s
      → Queued u r
  round-keeps u free (ends q' w g a z) k =
      rw z (round_kept off e e' s t q q' v (Target-known q' g) (Target-home q' g) got w a free u k)

some_transfer : (a b : Transfer) → some a ≡ some b → a ≡ b
some_transfer a b e = ap (λ o. elim o [ none ↦ a | some x ↦ x ]) e

-- What `run_all` and `check_task` come to.
pub record Returns (off : ℕ → ℕ) (o : Option Transfer) : Type 0 where
  pub result : Transfer
  pub returns : o ≡ some result
  pub valid : IsValid off result.tasks

module _ (off : ℕ → ℕ) (cfg : Config) (turns : ℕ → Turn) where
  run_all-Returns :
      (fuel once_run : ℕ) (d : Transfer)
      → IsValid off d.tasks
      → todo d.tasks < fuel
      → Returns off (run_all cfg turns fuel once_run d)
  unfolding run_all
  run_all-Returns zero once_run d v l = absurd (omega (arith, l))
  run_all-Returns (suc fuel) once_run d v l =
      let n = (once_run + 1) % 2 ^ 16 in
      let r = next_task (turns fuel) d in
      elim (Bool-cases (leb cfg.max_task_run_once n)) [
        | inl y ↦ rw (y, run_all) (record { result = d; returns = refl; valid = v })
        | inr y ↦ elim (next_task-Next off (turns fuel) d v) [
          | gives_none a b ↦
              rw (y, a, run_all) (record { result = r.0; returns = refl; valid = rw b v })
          | gives_some e q t from got a b ↦
              let x = run_task cfg (turns fuel) t r.0 in
              let o = round-OneRound off e (turns fuel).put d.tasks t q v from got x.tasks (
                subst (λ w. Ends (turns fuel).put t w x.tasks) b
                  (run_task-Ends cfg (turns fuel) t r.0)) in
              rw (y, a, run_all) (run_all-Returns fuel n x o.valid (omega (arith, o.less, l)))
        ]
      ]

  run_all-keeps :
      (fuel once_run : ℕ) (d r : Transfer) (u : ℕ)
      → ((i : ℕ) → lock_fails (turns i).put ≡ false)
      → IsValid off d.tasks
      → run_all cfg turns fuel once_run d ≡ some r
      → Queued u d.tasks
      → Queued u r.tasks
  unfolding run_all
  run_all-keeps zero once_run d r u free v h k = absurd (none-some r h)
  run_all-keeps (suc fuel) once_run d r u free v h k =
      let n = (once_run + 1) % 2 ^ 16 in
      let s = next_task (turns fuel) d in
      elim (Bool-cases (leb cfg.max_task_run_once n)) [
        | inl y ↦ subst (λ x. Queued u x.tasks) (some_transfer d r (rw (y, run_all) at h)) k
        | inr y ↦ elim (next_task-Next off (turns fuel) d v) [
          | gives_none a b ↦
              subst (λ x. Queued u x.tasks) (some_transfer s.0 r (rw (y, a, run_all) at h))
                (subst (λ x. Queued u x) (sym b) k)
          | gives_some e q t from got a b ↦
              let x = run_task cfg (turns fuel) t s.0 in
              let ends' =
                subst (λ w. Ends (turns fuel).put t w x.tasks) b
                  (run_task-Ends cfg (turns fuel) t s.0) in
              let o = round-OneRound off e (turns fuel).put d.tasks t q v from got x.tasks ends' in
              run_all-keeps fuel n x r u free o.valid (rw (y, a, run_all) at h) (
                round-keeps off e (turns fuel).put d.tasks t q v from got x.tasks u (free fuel)
                  ends' k)
        ]
      ]

  abbrev waits : Locks → ℕ → Transfer → Option Tasks
  waits locks fuel d = move_all task_q_wait_tmp task_q_wait locks.wait_tmp locks.wait fuel d.tasks

  abbrev dirs : Locks → ℕ → Tasks → Option Tasks
  dirs locks fuel s =
      move_all task_q_sync_dir_tmp task_q_sync_dir locks.sync_dir_tmp locks.sync_dir fuel s

  waits-Moved :
      (locks : Locks) (fuel : ℕ) (d : Transfer)
      → IsValid off d.tasks
      → length (d.tasks.queue task_q_wait_tmp) < fuel
      → Moved off task_q_wait_tmp task_q_wait d.tasks (waits locks fuel d)
  waits-Moved locks fuel d v l =
      move_all-Moved off task_q_wait_tmp task_q_wait locks.wait_tmp locks.wait
        (λ e. omega (arith, e)) (λ e. omega (arith, e)) (λ e. omega (arith, e)) (omega arith) fuel
        d.tasks v l

  dirs-Moved :
      (locks : Locks) (fuel : ℕ) (s : Tasks)
      → IsValid off s
      → length (s.queue task_q_sync_dir_tmp) < fuel
      → Moved off task_q_sync_dir_tmp task_q_sync_dir s (dirs locks fuel s)
  dirs-Moved locks fuel s v l =
      move_all-Moved off task_q_sync_dir_tmp task_q_sync_dir locks.sync_dir_tmp locks.sync_dir
        (λ e. omega (arith, e)) (λ e. omega (arith, e)) (λ e. omega (arith, e)) (omega arith) fuel s
        v l

  -- On fuel for the tasks of the four queues that `check_task` takes from, all three of its loops
  -- end, whichever locks fail, whatever the connections and the files are like and however often a
  -- task was tried; and the queues are in order afterwards.
  pub check_task-Returns :
      (locks : Locks) (fuel : ℕ) (d : Transfer)
      → IsValid off d.tasks
      → todo d.tasks
          + length (d.tasks.queue task_q_wait_tmp)
          + length (d.tasks.queue task_q_sync_dir_tmp)
        < fuel
      → Returns off (check_task cfg locks turns fuel d)
  unfolding check_task
  check_task-Returns locks fuel d v l =
      let m = waits-Moved locks fuel d v (omega (arith, l)) in
      let a = m.size task_q_wait (λ e. omega (arith, e)) (λ e. omega (arith, e)) in
      let b = m.size task_q_sync_dir (λ e. omega (arith, e)) (λ e. omega (arith, e)) in
      let c = m.size task_q_sync_dir_tmp (λ e. omega (arith, e)) (λ e. omega (arith, e)) in
      let m' = dirs-Moved locks fuel m.result m.valid (omega (arith, l, c)) in
      let a' = m'.size task_q_wait (λ e. omega (arith, e)) (λ e. omega (arith, e)) in
      let b' = m'.size task_q_sync_dir (λ e. omega (arith, e)) (λ e. omega (arith, e)) in
      rw (m.returns, check_task)
        (rw (m'.returns) (
          run_all-Returns fuel 0 (record d { tasks = m'.result }) m'.valid
            (omega (arith, l, a, b, c, a', b'))))

  -- When the locks of the queues that tasks are put into are free, a task that is in any queue but
  -- that of the free tasks is in such a queue after `check_task` too: none is lost, also not one
  -- that fails, that finds no connection or no space, or that is too old to be tried again.
  pub check_task-keeps :
      (locks : Locks) (fuel : ℕ) (d r : Transfer) (u : ℕ)
      → ((i : ℕ) → lock_fails (locks.wait i) ≡ false)
      → ((i : ℕ) → lock_fails (locks.sync_dir i) ≡ false)
      → ((i : ℕ) → lock_fails (turns i).put ≡ false)
      → IsValid off d.tasks
      → todo d.tasks
          + length (d.tasks.queue task_q_wait_tmp)
          + length (d.tasks.queue task_q_sync_dir_tmp)
        < fuel
      → check_task cfg locks turns fuel d ≡ some r
      → Queued u d.tasks
      → Queued u r.tasks
  unfolding check_task
  check_task-keeps locks fuel d r u fw fs fp v l h k =
      let m = waits-Moved locks fuel d v (omega (arith, l)) in
      let c = m.size task_q_sync_dir_tmp (λ e. omega (arith, e)) (λ e. omega (arith, e)) in
      let m' = dirs-Moved locks fuel m.result m.valid (omega (arith, l, c)) in
      let k1 =
        move_all-keeps off task_q_wait_tmp task_q_wait locks.wait_tmp locks.wait
          (λ e. omega (arith, e)) (λ e. omega (arith, e)) (λ e. omega (arith, e)) (omega arith) fuel
          d.tasks m.result u fw v m.returns k in
      let k2 =
        move_all-keeps off task_q_sync_dir_tmp task_q_sync_dir locks.sync_dir_tmp locks.sync_dir
          (λ e. omega (arith, e)) (λ e. omega (arith, e)) (λ e. omega (arith, e)) (omega arith) fuel
          m.result m'.result u fs m.valid m'.returns k1 in
      let h1 = rw (m.returns, check_task) at h in
      let h2 = rw (m'.returns) at h1 in
      run_all-keeps fuel 0 (record d { tasks = m'.result }) r u fp m'.valid h2 k2
