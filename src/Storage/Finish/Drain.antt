-- ===== src/Storage/Finish/Drain.antt =====
-- `do_fin_task` of network/S/pfs_sig_sub.c: no finished task is left.
use pfs.Common.{
  ℕ, zero, suc, ◌≤◌, ◌<◌, ◌≡◌, ◌≢◌, refl, sym, ap, ◌∙◌, subst, Bool, true, false, Option, some,
  List, [], ◌∷◌, ◌++◌, append_assoc, append-nil, length, if◌then◌else◌, arith, inl, inr, Bool-cases,
  Option-cases, ◌==◌, ==_refl, ==_iff,
}
use pfs.Task.{Tasks, pfs_get_task, lock_fails}
use pfs.Task.Types.{task_q_fin, task_q_wait, task_q_clean}
use pfs.Task.Moves.{occurs, occurs-append}
use pfs.Task.Invariant.{IsValid, get-Answers, one_queue}
use pfs.Task.Timeout.{kept, expired, kept_cong}
use pfs.Transfer.Turns.{not_given}
use pfs.Storage.Spread.{Ready}
use pfs.Storage.Effects.{occurs_left}
use pfs.Storage.Finish.{Server, Config, Round, do_fin_task}
use pfs.Storage.Finish.Rounds.{
  Ended, to_retry, once_more, fin_empty, occurs_behind, finish_task-Ended,
}

module _ (off : ℕ → ℕ) (retry : ℕ) where
  -- What the loop comes to: `expired` gives the tasks of a list for which a test holds, and `kept`
  -- those for which it does not, both in order.
  pub record Emptied (s r : Tasks) : Type 0 where
    pub valid : IsValid off r
    pub drained : r.queue task_q_fin ≡ []
    pub wait :
        r.queue task_q_wait
        ≡ s.queue task_q_wait ++ expired (to_retry retry s.tasks) (s.queue task_q_fin)
    pub clean :
        r.queue task_q_clean
        ≡ s.queue task_q_clean ++ kept (to_retry retry s.tasks) (s.queue task_q_fin)
    pub once_more :
        (u : ℕ)
        → 1 ≤ occurs u (s.queue task_q_fin)
        → to_retry retry s.tasks u ≡ true
        → (r.tasks u).base ≡ once_more (s.tasks u).base
    pub waiting : (u : ℕ) → 1 ≤ occurs u (s.queue task_q_wait) → (r.tasks u).base ≡ (s.tasks u).base

  Emptied-nil : (s : Tasks) → IsValid off s → s.queue task_q_fin ≡ [] → Emptied s s
  Emptied-nil s v e = record {
    valid = v;
    drained = e;
    wait = rw e (sym (append-nil (s.queue task_q_wait)));
    clean = rw e (sym (append-nil (s.queue task_q_clean)));
    once_more = λ u h. let h' = subst (λ l. 1 ≤ occurs u l) e h in absurd (omega (arith, h'));
    waiting = λ u h. refl;
  }

  put_wait :
      (f : ℕ → Bool) (t : ℕ) (w xs : List ℕ)
      → (w ++ (if f t then t ∷ [] else [])) ++ expired f xs ≡ w ++ expired f (t ∷ xs)
  put_wait f t w xs = elim (Bool-cases (f t)) [
    | inl y ↦ rw y (append_assoc w (t ∷ []) (expired f xs))
    | inr z ↦ rw z (ap (λ l. l ++ expired f xs) (append-nil w))
  ]

  put_clean :
      (f : ℕ → Bool) (t : ℕ) (w xs : List ℕ)
      → (w ++ (if f t then [] else t ∷ [])) ++ kept f xs ≡ w ++ kept f (t ∷ xs)
  put_clean f t w xs = elim (Bool-cases (f t)) [
    | inl y ↦ rw y (ap (λ l. l ++ kept f xs) (append-nil w))
    | inr z ↦ rw z (append_assoc w (t ∷ []) (kept f xs))
  ]

  in_last : (t : ℕ) (w : List ℕ) → 1 ≤ occurs t (w ++ t ∷ [])
  in_last t w =
      let a = occurs-append t w (t ∷ []) in
      let b : occurs t (t ∷ []) ≡ 1 = rw (==_refl t) refl in omega (arith, a, b)

  module _ (s r x : Tasks) (v : IsValid off s) (t : ℕ)
      (e : Ended off t (to_retry retry s.tasks t) s r) (i : Emptied r x) where
    -- The tasks behind the first one are others.
    another : (u : ℕ) → 1 ≤ occurs u (r.queue task_q_fin) → u ≢ t
    another u h w =
        let o = subst (λ l. occurs t l ≤ 1) e.fin (v.once task_q_fin t) in
        let h' = subst (λ y. 1 ≤ occurs y (r.queue task_q_fin)) w h in
        let z : occurs t (t ∷ r.queue task_q_fin) ≡ suc (occurs t (r.queue task_q_fin)) =
          rw (==_refl t) refl in
        omega (arith, o, h', z)

    behind : (u : ℕ) → 1 ≤ occurs u (r.queue task_q_fin) → 1 ≤ occurs u (s.queue task_q_fin)
    behind u h = subst (λ l. 1 ≤ occurs u l) (sym e.fin) (occurs_left' t u (r.queue task_q_fin) h)
      where
        occurs_left' : (y u : ℕ) (l : List ℕ) → 1 ≤ occurs u l → 1 ≤ occurs u (y ∷ l)
        occurs_left' y u l h = ground arith

    same_base : (u : ℕ) → 1 ≤ occurs u (r.queue task_q_fin) → (r.tasks u).base ≡ (s.tasks u).base
    same_base u h = e.same task_q_fin u (λ w. omega (arith, w)) (another u h) (behind u h)

    agree :
        (kept (to_retry retry r.tasks) (r.queue task_q_fin)
          ≡ kept (to_retry retry s.tasks) (r.queue task_q_fin))
        × (expired (to_retry retry r.tasks) (r.queue task_q_fin)
            ≡ expired (to_retry retry s.tasks) (r.queue task_q_fin))
    agree =
        kept_cong (to_retry retry r.tasks) (to_retry retry s.tasks) (r.queue task_q_fin)
          (λ u h. rw (same_base u h) refl)

    asked_again :
        (u : ℕ)
        → 1 ≤ occurs u (s.queue task_q_fin)
        → to_retry retry s.tasks u ≡ true
        → (x.tasks u).base ≡ once_more (s.tasks u).base
    asked_again u h y = elim (Bool-cases (u == t)) [
      | inl w ↦
          let d = (==_iff u t).0 w in
          let y' = subst (λ k. to_retry retry s.tasks k ≡ true) d y in
          let q : r.queue task_q_wait ≡ s.queue task_q_wait ++ t ∷ [] = e.wait ∙ rw y' refl in
          let k = subst (λ l. 1 ≤ occurs t l) (sym q) (in_last t (s.queue task_q_wait)) in
          subst (λ k. (x.tasks k).base ≡ once_more (s.tasks k).base) (sym d)
            (i.waiting t k ∙ e.base y')
      | inr z ↦
          let d : u ≢ t = λ w. ground arith in
          let h' = occurs_behind t u _ d (subst (λ l. 1 ≤ occurs u l) e.fin h) in
          i.once_more u h' (rw (same_base u h') y) ∙ ap once_more (same_base u h')
    ]

    still_waits : (u : ℕ) → 1 ≤ occurs u (s.queue task_q_wait) → (x.tasks u).base ≡ (s.tasks u).base
    still_waits u h =
        let f : 1 ≤ occurs t (s.queue task_q_fin) = rw (e.fin, ==_refl t) (omega arith) in
        let d : u ≢ t = λ w.
          let g = one_queue off s task_q_fin task_q_wait t v f (λ k. omega (arith, k)) in
          let h' = subst (λ y. 1 ≤ occurs y (s.queue task_q_wait)) w h in omega (arith, g, h') in
        let k =
          subst (λ l. 1 ≤ occurs u l) (sym e.wait) (occurs_left u (s.queue task_q_wait) _ h) in
        i.waiting u k ∙ e.same task_q_wait u (λ w. omega (arith, w)) d h

    Emptied-step : Emptied s x
    Emptied-step =
        let f = to_retry retry s.tasks in
        let fin = r.queue task_q_fin in
        record {
          valid = i.valid;
          drained = i.drained;
          wait =
              i.wait
              ∙ ap (λ l. r.queue task_q_wait ++ l) agree.1
              ∙ ap (λ l. l ++ expired f fin) e.wait
              ∙ put_wait f t (s.queue task_q_wait) fin
              ∙ ap (λ l. s.queue task_q_wait ++ expired f l) (sym e.fin);
          clean =
              i.clean
              ∙ ap (λ l. r.queue task_q_clean ++ l) agree.0
              ∙ ap (λ l. l ++ kept f fin) e.clean
              ∙ put_clean f t (s.queue task_q_clean) fin
              ∙ ap (λ l. s.queue task_q_clean ++ kept f l) (sym e.fin);
          once_more = asked_again;
          waiting = still_waits;
        }

module _ (off : ℕ → ℕ) (cfg : Config) where
  -- The loop returns.
  pub record Drained (s : Tasks) (o : Option Server) : Type 0 where
    pub result : Server
    pub returns : o ≡ some result
    pub emptied : Emptied off cfg.retry s result.storage.tasks

  -- With the locks free, memory at hand, and fuel for the finished tasks, the loop ends and no
  -- finished task is left, whether the other servers of the domain have a connection or not. Those
  -- that ended with a wrong digest and have tries left are, in order, at the end of the tasks that
  -- wait, with one try more and no result yet; all the others are, in order, at the end of the
  -- tasks to be cleaned. The tasks that waited before keep what they are about, and the queues stay
  -- in order.
  pub do_fin_task-Drained :
      (rounds : ℕ → Round) (fuel : ℕ) (d : Server)
      → ((i : ℕ) → lock_fails (rounds i).fin ≡ false)
      → ((i : ℕ) → lock_fails (rounds i).put ≡ false)
      → ((i : ℕ) → Ready (rounds i).members)
      → IsValid off d.storage.tasks
      → length (d.storage.tasks.queue task_q_fin) < fuel
      → Drained d.storage.tasks (do_fin_task cfg rounds fuel d)
  unfolding do_fin_task
  do_fin_task-Drained rounds zero d ff fp m v h = absurd (omega (arith, h))
  do_fin_task-Drained rounds (suc fuel) d ff fp m v h =
      let s = d.storage.tasks in
      let r = rounds fuel in
      elim (Option-cases (pfs_get_task r.fin task_q_fin s).task) [
        | inl z ↦
            let same =
              not_given off s (pfs_get_task r.fin task_q_fin s)
                (get-Answers off r.fin task_q_fin s v) z in
            rw (z, do_fin_task)
              (record {
                result = record d {
                  storage = record (d.storage) { tasks = (pfs_get_task r.fin task_q_fin s).state };
                };
                returns = refl;
                emptied = rw same (Emptied-nil off cfg.retry s v (fin_empty r.fin s (ff fuel) z));
              })
        | inr (t, z) ↦
            let e = finish_task-Ended off cfg r t d (fp fuel) (m fuel) v z in
            let l = ap length e.fin in
            let ih = do_fin_task-Drained rounds fuel _ ff fp m e.valid (omega (arith, l, h)) in
            rw (z, do_fin_task)
              (record {
                result = ih.result;
                returns = ih.returns;
                emptied = Emptied-step off cfg.retry s _ _ v t e ih.emptied;
              })
      ]
