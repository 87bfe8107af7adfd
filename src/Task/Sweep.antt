-- ===== src/Task/Sweep.antt =====
-- `do_timeout_task` of network/pfs_task.c as a whole.
use pfs.Common.{
  ℕ, zero, suc, ◌+◌, ◌≤◌, ◌<◌, ◌≡◌, ◌≢◌, refl, sym, ap, ap₂, ◌∙◌, subst, Bool, true, List, [], ◌∷◌,
  ◌++◌, ◌==◌, ==_iff, ==_refl, arith, Bool-cases, inl, inr, ◌⊎◌, append_assoc, append-nil, lt→ltb,
}
use pfs.Task.{
  Tasks, Env, remove, check_task_timeout, for_each, scan_some_status_task, scan_queues,
  do_timeout_task,
}
use pfs.Task.Types.{task_q_unknown, task_q_home, task_q_clean}
use pfs.Task.Moves.{occurs, occurs-append}
use pfs.Task.Invariant.{IsValid, one_queue}
use pfs.Task.Timeout.{too_old, kept, expired, kept_cong, Free, check_young, check_old-Moved}

remove_middle : (t : ℕ) (pre xs : List ℕ) → occurs t pre ≡ 0 → remove t (pre ++ t ∷ xs) ≡ pre ++ xs
unfolding remove
remove_middle t [] xs z = rw (==_refl t) refl
remove_middle t (x ∷ pre) xs z = let ih = remove_middle t pre xs in ground arith

occurs_middle :
    (t : ℕ) (pre xs : List ℕ) → occurs t (pre ++ t ∷ xs) ≡ suc (occurs t pre + occurs t xs)
occurs_middle t pre xs = let a = occurs-append t pre (t ∷ xs) in ground arith

module _ (timeout : ℕ) (home : ℕ → Env) (free : Free home) (off : ℕ → ℕ) where
  -- `xs` are the tasks of queue `q` still to look at, behind those of `pre`, which stay.
  record Swept (s : Tasks) (q : ℕ) (pre xs : List ℕ) (r : Tasks) : Type 0 where
    valid : IsValid off r
    left : r.queue q ≡ pre ++ kept (too_old timeout home s.tasks) xs
    homed : r.queue task_q_home ≡ s.queue task_q_home ++ expired (too_old timeout home s.tasks) xs
    elsewhere : (j : ℕ) → j ≢ q → j ≢ task_q_home → r.queue j ≡ s.queue j
    same : (u : ℕ) → occurs u xs ≡ 0 → r.tasks u ≡ s.tasks u

  for_each-Swept :
      (s : Tasks) (q : ℕ) (pre xs : List ℕ)
      → IsValid off s
      → q ≢ task_q_home
      → s.queue q ≡ pre ++ xs
      → Swept s q pre xs (for_each (λ t. check_task_timeout timeout (home t) t) xs s)
  unfolding for_each
  for_each-Swept s q pre [] v n e = record {
    valid = v;
    left = e;
    homed = sym (append-nil (s.queue task_q_home));
    elsewhere = λ j m m'. refl;
    same = λ u z. refl;
  }
  for_each-Swept s q pre (t ∷ xs) v n e = elim (Bool-cases (too_old timeout home s.tasks t)) [
    | inr young ↦
        let r =
          for_each-Swept s q (pre ++ t ∷ []) xs v n (e ∙ sym (append_assoc pre (t ∷ []) xs)) in
        rw (check_young timeout home s t young) (record {
          valid = r.valid;
          left =
              rw young
                (r.left ∙ append_assoc pre (t ∷ []) (kept (too_old timeout home s.tasks) xs));
          homed = rw young r.homed;
          elsewhere = r.elsewhere;
          same = λ u z. r.same u (ground arith);
        })
    | inl old ↦
        let o : occurs t (pre ++ t ∷ xs) ≤ 1 = rw e at (v.once q t) in
        let z = occurs_middle t pre xs in
        let there : 1 ≤ occurs t (s.queue q) = rw e (omega (arith, z)) in
        let s' = check_task_timeout timeout (home t) t s in
        let m = check_old-Moved timeout home free off s q t v there n old in
        let left : s'.queue q ≡ pre ++ xs =
          m.left ∙ rw e (remove_middle t pre xs (omega (arith, o, z))) in
        let r = for_each-Swept s' q pre xs m.valid n left in
        let agree =
          kept_cong (too_old timeout home s'.tasks) (too_old timeout home s.tasks) xs (λ u k.
            rw (m.same u (λ w. let k' : 1 ≤ occurs t xs = rw w at k in omega (arith, k', o, z)))
              refl) in
        record {
          valid = r.valid;
          left = rw old (r.left ∙ ap (λ l. pre ++ l) (agree.0));
          homed = rw old (
              r.homed
              ∙ (rw (m.homed, agree.1)
                  (append_assoc (s.queue task_q_home) (t ∷ [])
                    (expired (too_old timeout home s.tasks) xs))));
          elsewhere = λ j a b. r.elsewhere j a b ∙ m.elsewhere j a b;
          same = λ u k.
              r.same u (ground arith)
              ∙ m.same u (λ w.
                let k' : occurs t (t ∷ xs) ≡ 0 = subst (λ x. occurs x (t ∷ xs) ≡ 0) w k in
                ground arith);
        }
  ]

  module _ (locks : ℕ → Env) (free' : Free locks) where
    scan-Swept :
        (s : Tasks) (q : ℕ)
        → IsValid off s
        → q < task_q_home
        → Swept s q []
            (s.queue q)
            (scan_some_status_task (locks q) q (λ t. check_task_timeout timeout (home t) t) s).0
    unfolding scan_some_status_task
    scan-Swept s q v h =
        rw (lt→ltb q task_q_unknown (omega (arith, h)), free' q)
          (for_each-Swept s q [] (s.queue q) v (λ w. omega (arith, h, w)) refl)

    -- What leaves the queues `q`, `q + 1`, … , `n` of them, in this order.
    abbrev pub gathered : (ℕ → Bool) → (ℕ → List ℕ) → ℕ → ℕ → List ℕ
    gathered old queue zero q = []
    gathered old queue (suc n) q = expired old (queue q) ++ gathered old queue n (q + 1)

    gathered_cong :
        (f g : ℕ → Bool) (qs qs' : ℕ → List ℕ) (n p : ℕ)
        → ((j : ℕ) → p ≤ j → j < p + n → expired f (qs j) ≡ expired g (qs' j))
        → gathered f qs n p ≡ gathered g qs' n p
    gathered_cong f g qs qs' zero p h = refl
    gathered_cong f g qs qs' (suc n) p h =
        ap₂ (λ a b. a ++ b) (h p (omega arith) (omega arith))
          (gathered_cong f g qs qs' n (p + 1) (λ j a b. h j (omega (arith, a)) (omega (arith, b))))

    pub record SweptAll (s : Tasks) (n q : ℕ) (r : Tasks) : Type 0 where
      pub valid : IsValid off r
      pub left :
          (j : ℕ) → q ≤ j → j < q + n → r.queue j ≡ kept (too_old timeout home s.tasks) (s.queue j)
      pub homed :
          r.queue task_q_home
          ≡ s.queue task_q_home ++ gathered (too_old timeout home s.tasks) s.queue n q
      pub elsewhere : (j : ℕ) → j < q ⊎ q + n ≤ j → j ≢ task_q_home → r.queue j ≡ s.queue j

    scan_queues-SweptAll :
        (n q : ℕ) (s : Tasks)
        → IsValid off s
        → q + n ≤ task_q_home
        → SweptAll s n q (scan_queues timeout locks home n q s)
    unfolding scan_queues
    scan_queues-SweptAll zero q s v h = record {
      valid = v;
      left = λ j a b. absurd (omega (arith, a, b));
      homed = sym (append-nil (s.queue task_q_home));
      elsewhere = λ j a b. refl;
    }
    scan_queues-SweptAll (suc n) q s v h =
        let s' =
          (scan_some_status_task (locks q) q (λ t. check_task_timeout timeout (home t) t) s).0 in
        let w = scan-Swept s q v (omega (arith, h)) in
        let r = scan_queues-SweptAll n (q + 1) s' w.valid (omega (arith, h)) in
        let agree = λ (j : ℕ) (a : j ≢ q).
          kept_cong (too_old timeout home s'.tasks) (too_old timeout home s.tasks) (s.queue j)
            (λ u k. rw (w.same u (one_queue off s j q u v k (λ x. a (sym x)))) refl) in
        record {
          valid = r.valid;
          left = λ j a b. elim (Bool-cases (j == q)) [
            | inl y ↦
                rw ((==_iff j q).0 y)
                  (r.elsewhere q (inl (omega arith)) (λ x. omega (arith, x, h)) ∙ w.left)
            | inr z ↦
                let ne : j ≢ q = λ x. ground arith in
                let q' : s'.queue j ≡ s.queue j = w.elsewhere j ne (λ x. omega (arith, x, h, b)) in
                r.left j (ground arith) (omega (arith, b)) ∙ rw q' ((agree j ne).0)
          ];
          homed =
              r.homed
              ∙ ap (λ l. l ++ gathered (too_old timeout home s'.tasks) s'.queue n (q + 1)) w.homed
              ∙ append_assoc (s.queue task_q_home)
                  (expired (too_old timeout home s.tasks) (s.queue q))
                  (gathered (too_old timeout home s'.tasks) s'.queue n (q + 1))
              ∙ ap
                  (λ l.
                    s.queue task_q_home
                    ++ (expired (too_old timeout home s.tasks) (s.queue q) ++ l))
                  (gathered_cong (too_old timeout home s'.tasks) (too_old timeout home s.tasks)
                    s'.queue s.queue n (q + 1)
                    (λ j a b.
                      rw (w.elsewhere j (λ x. omega (arith, x, a)) (λ x. omega (arith, x, h, b)))
                        ((agree j (λ x. omega (arith, x, a))).1)));
          elsewhere = λ j a b. elim a [
            | inl c ↦
                r.elsewhere j (inl (omega (arith, c))) b
                ∙ w.elsewhere j (λ x. omega (arith, c, x)) b
            | inr d ↦
                r.elsewhere j (inr (omega (arith, d))) b
                ∙ w.elsewhere j (λ x. omega (arith, d, x)) b
          ];
        }

    -- With all locks free, the sweep leaves in each queue up to `TASK_Q_FIN` the tasks that are not
    -- too old, in their order, where a task is too old when it was started more than the limit ago
    -- or is marked with OVER_TIMEOUT already, appends those that are to `TASK_Q_HOME`, queue by
    -- queue, touches no other queue, and keeps the discipline of the queues.
    pub do_timeout_task-SweptAll :
        (s : Tasks)
        → IsValid off s
        → SweptAll s task_q_clean 0 (do_timeout_task true timeout locks home s)
    unfolding do_timeout_task
    do_timeout_task-SweptAll s v = scan_queues-SweptAll task_q_clean 0 s v (omega arith)
