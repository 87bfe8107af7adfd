-- ===== src/Storage/Effects.antt =====
-- What `sync_task_2_domain` of network/S/pfs_sig_task.c leaves: requests, and tasks that wait.
use pfs.Common.{
  ℕ, ◌≤◌, ◌≡◌, ◌≢◌, refl, sym, ap, ◌∙◌, subst, List, [], ◌∷◌, ◌++◌, append_assoc, append-nil, ◌==◌,
  arith, inl, inr, Bool-cases, ==_iff,
}
use pfs.Task.{Tasks}
use pfs.Task.Types.{task_q_home, task_q_wait_sync}
use pfs.Task.Moves.{occurs}
use pfs.Task.Invariant.{IsValid, Owned}
use pfs.Task.Free.{Same}
use pfs.Storage.{Request, Storage, task_sync}
use pfs.Storage.Copies.{Copy, Stable}

-- Requests about the file, in order, to these connections.
abbrev pub Requests : List ℕ → List Request → List ℕ → Type 0
Requests file [] [] = Unit {0}
Requests file [] (fd ∷ fds) = ⊥
Requests file (q ∷ qs) [] = ⊥
Requests file (q ∷ qs) (fd ∷ fds) =
    (q.fd ≡ fd) × (q.status ≡ task_sync) × (q.base.filename ≡ file) × Requests file qs fds

-- Tasks about the file, in order, for these servers.
abbrev pub Copies : (ℕ → List ℕ) → List ℕ → List ℕ → List ℕ → Tasks → Type 0
Copies ip2str file [] [] s = Unit {0}
Copies ip2str file [] (ip ∷ ips) s = ⊥
Copies ip2str file (t ∷ ts) [] s = ⊥
Copies ip2str file (t ∷ ts) (ip ∷ ips) s = Copy ip2str file ip t s × Copies ip2str file ts ips s

pub Requests-append :
    (file : List ℕ) (qs rs : List Request) (fds gds : List ℕ)
    → Requests file qs fds
    → Requests file rs gds
    → Requests file (qs ++ rs) (fds ++ gds)
Requests-append file [] rs [] gds a b = b
Requests-append file [] rs (fd ∷ fds) gds a b = absurd a
Requests-append file (q ∷ qs) rs [] gds a b = absurd a
Requests-append file (q ∷ qs) rs (fd ∷ fds) gds (x, y, z, a) b =
    (x, y, z, Requests-append file qs rs fds gds a b)

pub Copies-append :
    (ip2str : ℕ → List ℕ) (file : List ℕ) (ts us ips jps : List ℕ) (s : Tasks)
    → Copies ip2str file ts ips s
    → Copies ip2str file us jps s
    → Copies ip2str file (ts ++ us) (ips ++ jps) s
Copies-append ip2str file [] us [] jps s a b = b
Copies-append ip2str file [] us (ip ∷ ips) jps s a b = absurd a
Copies-append ip2str file (t ∷ ts) us [] jps s a b = absurd a
Copies-append ip2str file (t ∷ ts) us (ip ∷ ips) jps s (x, a) b =
    (x, Copies-append ip2str file ts us ips jps s a b)

-- What was done for some servers: requests went out, and tasks wait behind those that did before.
pub record Spread (off : ℕ → ℕ) (ip2str : ℕ → List ℕ) (t0 : ℕ) (asked away : List ℕ) (s r : Storage)
    : Type 0 where
  pub valid : IsValid off r.tasks
  pub owned : Owned t0 r.tasks
  pub requests : List Request
  pub sent : r.sent ≡ s.sent ++ requests
  pub about : Requests (s.tasks.tasks t0).base.filename requests asked
  pub waiting : List ℕ
  pub queue : r.tasks.queue task_q_wait_sync ≡ s.tasks.queue task_q_wait_sync ++ waiting
  pub copies : Copies ip2str (s.tasks.tasks t0).base.filename waiting away r.tasks
  pub origin : (r.tasks.tasks t0).base.filename ≡ (s.tasks.tasks t0).base.filename
  pub stable : Stable s.tasks r.tasks
  pub elsewhere :
      (j : ℕ) → j ≢ task_q_home → j ≢ task_q_wait_sync → r.tasks.queue j ≡ s.tasks.queue j

pub occurs_left : (u : ℕ) (xs ys : List ℕ) → 1 ≤ occurs u xs → 1 ≤ occurs u (xs ++ ys)
occurs_left u [] ys h = absurd (omega (arith, h))
occurs_left u (x ∷ xs) ys h = let ih = occurs_left u xs ys in ground arith

Copies-Stable :
    (ip2str : ℕ → List ℕ) (file ts ips : List ℕ) (s r : Tasks)
    → ((u : ℕ) → 1 ≤ occurs u (s.queue task_q_wait_sync) → 1 ≤ occurs u (r.queue task_q_wait_sync))
    → Stable s r
    → Copies ip2str file ts ips s
    → Copies ip2str file ts ips r
Copies-Stable ip2str file [] [] s r m k a = tt
Copies-Stable ip2str file [] (ip ∷ ips) s r m k a = absurd a
Copies-Stable ip2str file (t ∷ ts) [] s r m k a = absurd a
Copies-Stable ip2str file (t ∷ ts) (ip ∷ ips) s r m k (c, a) =
    let x = k task_q_wait_sync t (λ e. omega (arith, e)) c.queued in
    (
      record {
        queued = m t c.queued;
        peerip = ap (λ z. z.peerip) x.sub ∙ c.peerip;
        oper_type = ap (λ z. z.oper_type) x.sub ∙ c.oper_type;
        filename = ap (λ z. z.filename) x.base ∙ c.filename;
      },
      Copies-Stable ip2str file ts ips s r m k a,
    )

Same-trans : (u : ℕ) (s w r : Tasks) → Same u s w → Same u w r → Same u s r
Same-trans u s w r a b = record { base = b.base ∙ a.base; sub = b.sub ∙ a.sub }

pub Spread-trans :
    (off : ℕ → ℕ) (ip2str : ℕ → List ℕ) (t0 : ℕ) (fds ips gds jps : List ℕ) (s w r : Storage)
    → Spread off ip2str t0 fds ips s w
    → Spread off ip2str t0 gds jps w r
    → Spread off ip2str t0 (fds ++ gds) (ips ++ jps) s r
Spread-trans off ip2str t0 fds ips gds jps s w r a b =
    let stays : (u : ℕ)
        → 1 ≤ occurs u (w.tasks.queue task_q_wait_sync)
        → 1 ≤ occurs u (r.tasks.queue task_q_wait_sync) =
      λ u h.
        subst (λ l. 1 ≤ occurs u l) (sym b.queue)
          (occurs_left u (w.tasks.queue task_q_wait_sync) b.waiting h) in
    let into : (q u : ℕ)
        → q ≢ task_q_home
        → 1 ≤ occurs u (s.tasks.queue q)
        → 1 ≤ occurs u (w.tasks.queue q) =
      λ q u n h. elim (Bool-cases (q == task_q_wait_sync)) [
        | inl y ↦
            let e = (==_iff q task_q_wait_sync).0 y in
            let h' = subst (λ k. 1 ≤ occurs u (s.tasks.queue k)) e h in
            subst (λ k. 1 ≤ occurs u (w.tasks.queue k)) (sym e)
              (subst (λ l. 1 ≤ occurs u l) (sym a.queue)
                (occurs_left u (s.tasks.queue task_q_wait_sync) a.waiting h'))
        | inr z ↦ subst (λ l. 1 ≤ occurs u l) (sym (a.elsewhere q n (λ e. ground arith))) h
      ] in
    let file = (s.tasks.tasks t0).base.filename in
    record {
      valid = b.valid;
      owned = b.owned;
      requests = a.requests ++ b.requests;
      sent = b.sent ∙ ap (λ l. l ++ b.requests) a.sent ∙ append_assoc s.sent a.requests b.requests;
      about =
          Requests-append file a.requests b.requests fds gds a.about
            (subst (λ n. Requests n b.requests gds) a.origin b.about);
      waiting = a.waiting ++ b.waiting;
      queue =
          b.queue
          ∙ ap (λ l. l ++ b.waiting) a.queue
          ∙ append_assoc (s.tasks.queue task_q_wait_sync) a.waiting b.waiting;
      copies =
          Copies-append ip2str file a.waiting b.waiting ips jps r.tasks
            (Copies-Stable ip2str file a.waiting ips w.tasks r.tasks stays b.stable a.copies)
            (subst (λ n. Copies ip2str n b.waiting jps r.tasks) a.origin b.copies);
      origin = b.origin ∙ a.origin;
      stable = λ q u n h.
          Same-trans u s.tasks w.tasks r.tasks (a.stable q u n h) (b.stable q u n (into q u n h));
      elsewhere = λ j m n. b.elsewhere j m n ∙ a.elsewhere j m n;
    }

pub untouched :
    (off : ℕ → ℕ) (ip2str : ℕ → List ℕ) (t0 : ℕ) (s : Storage)
    → IsValid off s.tasks
    → Owned t0 s.tasks
    → Spread off ip2str t0 [] [] s s
untouched off ip2str t0 s v o = record {
  valid = v;
  owned = o;
  requests = [];
  sent = sym (append-nil s.sent);
  about = tt;
  waiting = [];
  queue = sym (append-nil (s.tasks.queue task_q_wait_sync));
  copies = tt;
  origin = refl;
  stable = λ q u n h. record { base = refl; sub = refl };
  elsewhere = λ j m n. refl;
}
