-- ===== src/EventLoop/Sends.antt =====
-- `do_send` of network/pfs_so.c as a whole.
use mathlib.Core.Option.{none-ne-some}
use pfs.Common.{
  ℕ, ◌<◌, ◌≡◌, refl, sym, ap, subst, ◌∙◌, ◌⊎◌, ◌==◌, true, false, Bool-cases, Option, none, some,
  Option-cases, List, [], length, ltb, ltb→lt, lt→ltb, ltb→le, ℤ, inl, inr, arith, List-cases,
  ==_iff,
}
use pfs.Buffer.{Mybuff, mybuff_getfile, mybuff_getdata}
use pfs.Buffer.Data.{view, IsValid, getdata-skipdata}
use pfs.EventLoop.{
  Answer, Conn, Mylib, Stage, send_add_epollin, send_close, data_stage, file_stage, transmit,
  send_file, do_send, do_close, send_once, modify_fd_event, drained, after_send,
}
use pfs.EventLoop.Transmit.{
  file_rest, pending, Honest, Moved, stays, Moved-trans, Done, Ends, ends_with, send_data-Ends,
  DataSent,
}
use pfs.EventLoop.FileStage.{Sending, send_file-Ends}

pub getdata-cases :
    (b : Mybuff)
    → IsValid b
    → ((mybuff_getdata b ≡ none) × (view b ≡ []))
      ⊎ ((mybuff_getdata b ≡ some (view b)) × (0 < length (view b)))
getdata-cases b v = elim (List-cases (view b)) [
  | inl e ↦ inl (let g = (getdata-skipdata b 0 v).0 in rw e at g, e)
  | inr (x, r, e) ↦
      let p : 0 < length (view b) = omega (arith, ap length e) in
      inr ((getdata-skipdata b 0 v).0 ∙ rw (lt→ltb 0 (length (view b)) p) refl, p)
]

pub getfile-cases :
    (files : ℕ → List ℕ) (b : Mybuff)
    → ((mybuff_getfile b ≡ none) × (file_rest files b ≡ []))
      ⊎ ((fd : ℕ) × (b.fd ≡ some fd)
          × (mybuff_getfile b ≡ some (fd, b.foffset, b.flen))
          × (0 < b.flen))
unfolding mybuff_getfile
getfile-cases files b = elim (Option-cases b.fd) [
  | inl e ↦ inl (rw e refl, rw e refl)
  | inr (fd, e) ↦ elim (Bool-cases (ltb 0 b.flen)) [
    | inl y ↦ inr (fd, e, rw (e, y) refl, ltb→lt 0 b.flen y)
    | inr z ↦
        inl
          (rw (e, z) refl, rw (e, let f : b.flen ≡ 0 = omega (arith, ltb→le 0 b.flen z) in f) refl)
  ]
]

pub pending_sent :
    {U : Type 0} (files : ℕ → List ℕ) (c : Conn U)
    → view c.send_buff ≡ []
    → pending files c ≡ file_rest files c.send_buff
unfolding pending
pending_sent files c e = rw e refl

module _ {U : Type 0} (files : ℕ → List ℕ) (lib : Mylib U) where
  abbrev pub AllSent : Conn U → Type 0
  AllSent d = pending files d ≡ []

  pub data_stage-Ends :
      (c : Conn U) (ans : List (ℕ → Answer))
      → IsValid c.send_buff
      → Honest (length (view c.send_buff)) ans
      → Ends files c (DataSent files c) (data_stage ans c)
  unfolding data_stage
  data_stage-Ends c ans v h = elim (getdata-cases c.send_buff v) [
    | inl (g, e) ↦
        rw (g, data_stage)
          (ends_with files c (DataSent files c) _ (record {
            moved = stays files c v;
            all_sent = λ w. (e, refl, refl);
            progress = λ p. omega (arith, p);
          }))
    | inr (g, p) ↦ rw (g, data_stage) (send_data-Ends files c ans (length (view c.send_buff)) v h)
  ]

  behind :
      (c : Conn U) (s : Stage U) (fd : ℕ) (fans : List (ℕ → Answer))
      → Done files c (DataSent files c) s
      → DataSent files c s.conn
      → s.conn.send_buff.fd ≡ some fd
      → Honest (length (file_rest files c.send_buff)) fans
      → Ends files c AllSent
          (send_file lib (files fd) s.conn.send_buff.foffset s.conn.send_buff.flen fans s.conn)
  behind c s fd fans d sent f h s' e =
      let g : Sending files s.conn fd = record {
        empty = sent.0;
        holds = f;
        valid = d.moved.valid;
      } in
      let len = ap length (pending_sent files s.conn (sent.0) ∙ sent.1) in
      let r =
        send_file-Ends files lib s.conn fd fans g (subst (λ k. Honest k fans) (sym len) h) s' e in
      record {
        moved = Moved-trans files c s.conn s'.conn d.moved r.moved;
        all_sent = r.all_sent;
        progress = λ p. omega (arith, r.progress p, d.moved.shorter);
      }

  -- The second stage behind a first one that ended with `s`.
  pub file_stage-Ends :
      (c : Conn U) (s : Stage U) (fans : List (ℕ → Answer))
      → Done files c (DataSent files c) s
      → Honest (length (file_rest files c.send_buff)) fans
      → Ends files c AllSent (file_stage lib files fans s)
  unfolding file_stage
  file_stage-Ends c s fans d h = elim (Bool-cases (s.ret == send_add_epollin)) [
    | inr z ↦ rw z (
        ends_with files c AllSent s (record {
          moved = d.moved;
          all_sent = λ e.
              absurd (let k : false ≡ true = sym z ∙ (==_iff s.ret send_add_epollin).1 e in cc);
          progress = d.progress;
        }))
    | inl y ↦
        let sent = d.all_sent ((==_iff s.ret send_add_epollin).0 y) in
        elim (getfile-cases files s.conn.send_buff) [
          | inl (g, e) ↦
              rw (y, g)
                (ends_with files c AllSent s (record {
                  moved = d.moved;
                  all_sent = λ w. pending_sent files s.conn (sent.0) ∙ e;
                  progress = d.progress;
                }))
          | inr (fd, f, g, p) ↦ rw (y, g) (behind c s fd fans d sent f h)
        ]
  ]

  -- Both stages.
  pub transmit-Ends :
      (c : Conn U) (ans fans : List (ℕ → Answer))
      → IsValid c.send_buff
      → Honest (length (view c.send_buff)) ans
      → Honest (length (file_rest files c.send_buff)) fans
      → Ends files c AllSent (transmit lib files ans fans c)
  unfolding transmit
  transmit-Ends c ans fans v h k = elim (Option-cases (data_stage ans c)) [
    | inl e ↦ rw (e, transmit) (λ s w. absurd (none-ne-some s w))
    | inr (s, e) ↦ rw (e, transmit) (file_stage-Ends c s fans (data_stage-Ends c ans v h s e) k)
  ]

  -- How a call of `do_send` on an open connection ends: the system has not answered yet, or some of
  -- the bytes went out, and the connection is closed, or waits to send more, or has sent all of
  -- them and the process is told.
  pub data Sent (c : Conn U) : Option (Conn U) → Type 0 where
    unanswered : Sent c none
    closes : (d : Conn U) → Moved files c d → Sent c (some (do_close lib d))
    continues :
        (d : Conn U) (n : ℤ)
        → Moved files c d
        → Sent c (some (send_once lib n (modify_fd_event true d)))
    finishes :
        (d : Conn U) (n : ℤ)
        → Moved files c d
        → pending files d ≡ []
        → Sent c (some (drained lib (send_once lib n (modify_fd_event false d))))

  after_send-Sent :
      (c : Conn U) (s : Stage U) → Done files c AllSent s → Sent c (some (after_send lib s))
  unfolding after_send
  after_send-Sent c s d = elim (Bool-cases (s.ret == send_close)) [
    | inl y ↦ rw y (closes s.conn d.moved)
    | inr z ↦ elim (Bool-cases (s.ret == send_add_epollin)) [
      | inl y ↦
          rw (z, y) (finishes s.conn s.n d.moved (d.all_sent ((==_iff s.ret send_add_epollin).0 y)))
      | inr w ↦ rw (z, w) (continues s.conn s.n d.moved)
    ]
  ]

  do_send_unanswered :
      (c : Conn U) (ans fans : List (ℕ → Answer))
      → c.is_open ≡ true
      → transmit lib files ans fans c ≡ none
      → do_send lib files ans fans c ≡ none
  unfolding do_send
  do_send_unanswered c ans fans o e = ground arith

  do_send_answered :
      (c : Conn U) (ans fans : List (ℕ → Answer)) (s : Stage U)
      → c.is_open ≡ true
      → transmit lib files ans fans c ≡ some s
      → do_send lib files ans fans c ≡ some (after_send lib s)
  unfolding do_send
  do_send_answered c ans fans s o e = ground arith

  -- A call of `do_send` on an open connection, when no system call sends more than it is asked for
  -- or than there is: what went out and what is still to be sent are together, in this order, what
  -- they were before, `send_len` counts the bytes that went out, modulo 2 ^ 32, and a descriptor of
  -- a file is closed exactly when it is given up; the process is told that all is sent only when
  -- nothing of the buffer and of the file is left.
  pub do_send-Sent :
      (c : Conn U) (ans fans : List (ℕ → Answer))
      → c.is_open ≡ true
      → IsValid c.send_buff
      → Honest (length (view c.send_buff)) ans
      → Honest (length (file_rest files c.send_buff)) fans
      → Sent c (do_send lib files ans fans c)
  do_send-Sent c ans fans o v h k = elim (Option-cases (transmit lib files ans fans c)) [
    | inl e ↦ subst (Sent c) (sym (do_send_unanswered c ans fans o e)) unanswered
    | inr (s, e) ↦
        subst (Sent c) (sym (do_send_answered c ans fans s o e))
          (after_send-Sent c s (transmit-Ends c ans fans v h k s e))
  ]
