-- ===== src/Transfer/Turns.antt =====
-- The loops of `check_task` of network/D/pfs_data_base.c over the queues of network/pfs_task.c.
use pfs.Common.{
  ℕ, zero, suc, ◌+◌, ◌≤◌, ◌<◌, ◌≡◌, ◌≢◌, refl, sym, ap, ◌∙◌, subst, true, false, Option, none, some,
  [], ◌∷◌, ◌++◌, length, ◌==◌, if◌then◌else◌, arith, inl, inr, Bool-cases, Option-cases, ==_refl,
  ==_ne, ==_iff, length-append,
}
use pfs.Task.{Tasks, Env, Got, pfs_get_task, pfs_set_task, lock_fails}
use pfs.Task.Types.{task_q_home, task_q_unknown}
use pfs.Task.Moves.{occurs, occurs-append}
use pfs.Task.Invariant.{IsValid, Owned, Answers, Gives, get-Answers, nothing, gives}
use pfs.Task.Ledger.{get_kept, set_kept, put, adds, task_list}
use pfs.Task.Puts.{set-Puts}
use pfs.Transfer.Keeps.{Alike, Alike-refl, Alike-IsValid, Alike-Owned}
use pfs.Transfer.{move_all}

-- The task is in a queue, and not free for use.
pub data Queued (u : ℕ) (s : Tasks) : Type 0 where
  queued : (q : ℕ) → q ≢ task_q_home → 1 ≤ occurs u (s.queue q) → Queued u s

abbrev pub one : ℕ → ℕ → ℕ
one j q = if j == q then 1 else 0

some_inj : (a b : ℕ) → some a ≡ some b → a ≡ b
some_inj a b e = ap (λ o. elim o [ none ↦ a | some x ↦ x ]) e

some_tasks : (a b : Tasks) → some a ≡ some b → a ≡ b
some_tasks a b e = ap (λ o. elim o [ none ↦ a | some x ↦ x ]) e

pub none-some : {A : Type 0} (a : A) → none ≡ some a → ⊥
none-some a e = ground arith

pub given :
    (off : ℕ → ℕ) (s : Tasks) (t : ℕ) (g : Got)
    → Answers off s g
    → g.task ≡ some t
    → Gives off s t g.state
given off s t g (nothing ret n) e = absurd (none-some t e)
given off s t g (gives t' r w) e = subst (λ x. Gives off s x r) (some_inj t' t e) w

pub not_given : (off : ℕ → ℕ) (s : Tasks) (g : Got) → Answers off s g → g.task ≡ none → g.state ≡ s
not_given off s g (nothing ret n) e = refl
not_given off s g (gives t r w) e = absurd (none-some t (sym e))

module _ (off : ℕ → ℕ) (e e' : Env) (s : Tasks) (t q q' : ℕ) (v : IsValid off s)
    (h : q' < task_q_unknown) (home : q' ≢ task_q_home) (got : (pfs_get_task e q s).task ≡ some t)
    (w : Tasks) (a : Alike (pfs_get_task e q s).state w) where
  taken : Gives off s t (pfs_get_task e q s).state
  taken = given off s t (pfs_get_task e q s) (get-Answers off e q s v) got

  owned : Owned t w
  owned = Alike-Owned t a taken.owned

  w-IsValid : IsValid off w
  w-IsValid = Alike-IsValid off a taken.valid

  before : (j : ℕ) → j ≢ task_q_home → s.queue j ≡ (if j == q then t ∷ [] else []) ++ w.queue j
  before j n = rw a.queue (
      sym (
        subst
          (λ o.
            (if j == q then task_list o else []) ++ (pfs_get_task e q s).state.queue j ≡ s.queue j)
          got (get_kept e s j q n)))

  after : (j : ℕ) → (pfs_set_task e' t q' w).0.queue j ≡ w.queue j ++ adds j (put e' t q') w
  after j = set_kept off e' w t j q' w-IsValid owned

  pub put-IsValid : IsValid off (pfs_set_task e' t q' w).0
  put-IsValid = elim (set-Puts off e' w t q' w-IsValid owned) [
    | inl p ↦ p.2.1.valid
    | inr z ↦ rw z.1 w-IsValid
  ]

  adds_le : (j : ℕ) → length (adds j (put e' t q') w) ≤ one j q'
  adds_le j = elim (Bool-cases (j == q')) [
    | inl y ↦ rw y (elim (set-Puts off e' w t q' w-IsValid owned) [
      | inl p ↦ rw (p.2.0) (omega arith)
      | inr z ↦ rw z.1 (omega arith)
    ])
    | inr n ↦ rw n (omega arith)
  ]

  pub round_size :
      (j : ℕ)
      → j ≢ task_q_home
      → length ((pfs_set_task e' t q' w).0.queue j) + one j q ≤ length (s.queue j) + one j q'
  round_size j n =
      let l = adds_le j in
      let m = length-append (w.queue j) (adds j (put e' t q') w) in
      rw (after j, m, before j n)
        (elim (Bool-cases (j == q)) [
          | inl y ↦ rw y (omega (arith, l))
          | inr z ↦ rw z (omega (arith, l))
        ])

  puts_it : lock_fails e' ≡ false → (pfs_set_task e' t q' w).0.queue q' ≡ w.queue q' ++ t ∷ []
  puts_it free = elim (set-Puts off e' w t q' w-IsValid owned) [
    | inl p ↦ p.2.1.at_end
    | inr (inl x, z) ↦ absurd (omega (arith, x, h))
    | inr (inr x, z) ↦ absurd (let c : false ≡ true = sym free ∙ x in cc)
  ]

  other_kept :
      (u j : ℕ)
      → u ≢ t
      → j ≢ task_q_home
      → 1 ≤ occurs u (s.queue j)
      → 1 ≤ occurs u ((pfs_set_task e' t q' w).0.queue j)
  other_kept u j n m k =
      let b : 1 ≤ occurs u ((if j == q then t ∷ [] else []) ++ w.queue j) = rw (before j m) at k in
      let z : 1 ≤ occurs u (w.queue j) = elim (Bool-cases (j == q)) [
        | inl y ↦ let c = rw y at b in ground arith
        | inr y ↦ rw y at b
      ] in
      let p = occurs-append u (w.queue j) (adds j (put e' t q') w) in
      rw (after j) (omega (arith, p, z))

  pub round_kept :
      lock_fails e' ≡ false → (u : ℕ) → Queued u s → Queued u (pfs_set_task e' t q' w).0
  round_kept free u (queued j m k) = elim (Bool-cases (u == t)) [
    | inl y ↦
        queued q' home (
          rw ((==_iff u t).0 y, puts_it free, occurs-append t (w.queue q') (t ∷ [])) (ground arith))
    | inr z ↦ queued j m (other_kept u j (λ x. ground arith) m k)
  ]

-- What a loop comes to: it returns `r`, whatever the locks do.
pub record Moved (off : ℕ → ℕ) (from to : ℕ) (s : Tasks) (o : Option Tasks) : Type 0 where
  pub result : Tasks
  pub returns : o ≡ some result
  pub valid : IsValid off result
  pub size :
      (j : ℕ)
      → j ≢ task_q_home
      → j ≢ from
      → length (result.queue j)
        ≤ length (s.queue j) + (if j == to then length (s.queue from) else 0)

module _ (off : ℕ → ℕ) (from to : ℕ) (gets puts : ℕ → Env) (from_home : from ≢ task_q_home)
    (to_home : to ≢ task_q_home) (to_from : to ≢ from) (h : to < task_q_unknown) where
  pub move_all-Moved :
      (fuel : ℕ) (s : Tasks)
      → IsValid off s
      → length (s.queue from) < fuel
      → Moved off from to s (move_all from to gets puts fuel s)
  unfolding move_all
  move_all-Moved zero s v l = absurd (omega (arith, l))
  move_all-Moved (suc fuel) s v l = elim (Option-cases (pfs_get_task (gets fuel) from s).task) [
    | inl z ↦
        rw (z, move_all)
          (let g = pfs_get_task (gets fuel) from s in
            let same = not_given off s g (get-Answers off (gets fuel) from s v) z in
            record {
              result = g.state;
              returns = refl;
              valid = rw same v;
              size = λ j n m. rw same (omega arith);
            })
    | inr (t, z) ↦
        rw (z, move_all)
          (let g = (pfs_get_task (gets fuel) from s).state in
            let k =
              round_size off (gets fuel) (puts fuel) s t from to v h to_home z g (Alike-refl g) in
            let from_less = k from from_home in
            let e1 = ==_refl from in
            let e2 = ==_ne from to (λ x. to_from (sym x)) in
            let less = rw (e1, e2) at from_less in
            let ih =
              move_all-Moved fuel (pfs_set_task (puts fuel) t to g).0
                (put-IsValid off (gets fuel) (puts fuel) s t from to v h to_home z g (Alike-refl g))
                (omega (arith, less, l)) in
            record {
              result = ih.result;
              returns = ih.returns;
              valid = ih.valid;
              size = λ j n m.
                  let a = ih.size j n m in
                  let b = k j n in
                  let e3 = ==_ne j from m in
                  let b' = rw e3 at b in
                  elim (Bool-cases (j == to)) [
                    | inl y ↦
                        rw y (
                          let a' = rw y at a in
                          let b'' = rw y at b' in omega (arith, a', b'', less))
                    | inr y ↦
                        rw y (let a' = rw y at a in let b'' = rw y at b' in omega (arith, a', b''))
                  ];
            })
  ]

  pub move_all-keeps :
      (fuel : ℕ) (s r : Tasks) (u : ℕ)
      → ((i : ℕ) → lock_fails (puts i) ≡ false)
      → IsValid off s
      → move_all from to gets puts fuel s ≡ some r
      → Queued u s
      → Queued u r
  unfolding move_all
  move_all-keeps zero s r u free v e k = absurd (none-some r e)
  move_all-keeps (suc fuel) s r u free v e k =
      elim (Option-cases (pfs_get_task (gets fuel) from s).task) [
        | inl z ↦
            let g = pfs_get_task (gets fuel) from s in
            let same = not_given off s g (get-Answers off (gets fuel) from s v) z in
            let e' = rw (z, move_all) at e in
            subst (λ x. Queued u x) (sym same ∙ some_tasks g.state r e') k
        | inr (t, z) ↦
            let g = (pfs_get_task (gets fuel) from s).state in
            let e' = rw (z, move_all) at e in
            move_all-keeps fuel (pfs_set_task (puts fuel) t to g).0 r u free
              (put-IsValid off (gets fuel) (puts fuel) s t from to v h to_home z g (Alike-refl g))
              e'
              (round_kept off (gets fuel) (puts fuel) s t from to v h to_home z g (Alike-refl g)
                (free fuel) u k)
      ]
