-- ===== src/Transfer/Send/Rounds.antt =====
-- The rounds of `do_send` (network/pfs_so.c) over a connection of network/D that sends a file.
use pfs.Common.{
  ℕ, ◌+◌, ◌%◌, ◌^◌, ◌≡◌, refl, sym, ◌∙◌, subst, Bool, some, List, length, ℤ, inl, inr, Bool-cases,
  ==_refl,
}
use pfs.Buffer.Data.{view, IsValid}
use pfs.EventLoop.{Answer, Conn, Mylib, Stage, is_positive, modify_fd_event, transmit, send_once}
use pfs.EventLoop.Transmit.{pending, file_rest, Honest, Moved}
use pfs.EventLoop.Sends.{transmit-Ends}
use pfs.Upload.{sendfileing}
use pfs.Transfer.{Transfer}
use pfs.Transfer.Send.{svc_send_once}

-- A connection that sends task `t`.
pub record Sends (fd t head fsize : ℕ) (d : Transfer) : Type 0 where
  pub stat : (d.peers fd).sock_stat ≡ sendfileing
  pub task : (d.peers fd).sendtask ≡ some t
  pub headlen : (d.peers fd).headlen ≡ head
  pub processlen : (d.tasks.tasks t).sub.processlen ≡ fsize

-- The rounds of `do_send` from `s` on, as far as `svc_send_once`: in each the system takes some
-- bytes of the buffer and of the file. `libs` are the functions of the process, by round.
pub data Rounds (libs : ℕ → Mylib Transfer) (files : ℕ → List ℕ) (s : Conn Transfer)
    : Conn Transfer → Type 0 where
  begin : (d : Conn Transfer) → d ≡ s → Rounds libs files s d
  round :
      (c d : Conn Transfer) (i : ℕ) (st : Stage Transfer) (ans fans : List (ℕ → Answer))
      (out : Bool)
      → Rounds libs files s c
      → Honest (length (view c.send_buff)) ans
      → Honest (length (file_rest files c.send_buff)) fans
      → transmit (libs i) files ans fans c ≡ some st
      → d ≡ send_once (libs i) st.n (modify_fd_event out st.conn)
      → Rounds libs files s d

-- What a connection keeps over the rounds.
pub record Carried (files : ℕ → List ℕ) (fd t head fsize : ℕ) (s d : Conn Transfer) : Type 0 where
  pub valid : IsValid d.send_buff
  pub counted :
      (d.send_len + length (pending files d)) % 2 ^ 32
      ≡ (s.send_len + length (pending files s)) % 2 ^ 32
  pub sends : Sends fd t head fsize d.user

module _ (files : ℕ → List ℕ) (fd t head fsize : ℕ) (s : Conn Transfer) where
  once-Carried :
      (now : ℕ) (d : Conn Transfer)
      → Carried files fd t head fsize s d
      → Carried files fd t head fsize s (svc_send_once now fd d)
  unfolding svc_send_once pending
  once-Carried now d c = record {
    valid = c.valid;
    counted = c.counted;
    sends = record {
      stat = rw (==_refl fd) c.sends.stat;
      task = rw (==_refl fd) c.sends.task;
      headlen = rw (==_refl fd) c.sends.headlen;
      processlen = c.sends.processlen;
    };
  }

  send_once-Carried :
      (lib : Mylib Transfer) (now : ℕ) (n : ℤ) (d : Conn Transfer)
      → lib.svc_send_once ≡ some (svc_send_once now fd)
      → Carried files fd t head fsize s d
      → Carried files fd t head fsize s (send_once lib n d)
  unfolding send_once
  send_once-Carried lib now n d e c = elim (Bool-cases (is_positive n)) [
    | inl y ↦ rw (e, y) (once-Carried now d c)
    | inr z ↦ rw (e, z) c
  ]

  Moved-Carried :
      (c d : Conn Transfer) (out : Bool)
      → Moved files c d
      → Carried files fd t head fsize s c
      → Carried files fd t head fsize s (modify_fd_event out d)
  unfolding modify_fd_event pending
  Moved-Carried c d out m k = record {
    valid = m.valid;
    counted = m.counted ∙ k.counted;
    sends = subst (λ u. Sends fd t head fsize u) (sym m.user) k.sends;
  }

  module _ (libs : ℕ → Mylib Transfer) (now : ℕ → ℕ)
      (once : (i : ℕ) → (libs i).svc_send_once ≡ some (svc_send_once (now i) fd)) where
    pub Rounds-Carried :
        (d : Conn Transfer)
        → IsValid s.send_buff
        → Sends fd t head fsize s.user
        → Rounds libs files s d
        → Carried files fd t head fsize s d
    Rounds-Carried d v g (begin _ e) =
        subst (λ x. Carried files fd t head fsize s x) (sym e)
          (record { valid = v; counted = refl; sends = g })
    Rounds-Carried d v g (round c _ i st ans fans out r h k e w) =
        let b = Rounds-Carried c v g r in
        let m = (transmit-Ends files (libs i) c ans fans b.valid h k st e).moved in
        subst (λ x. Carried files fd t head fsize s x) (sym w)
          (send_once-Carried (libs i) (now i) st.n (modify_fd_event out st.conn) (once i)
            (Moved-Carried c st.conn out m b))
