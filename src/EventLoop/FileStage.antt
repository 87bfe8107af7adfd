-- ===== src/EventLoop/FileStage.antt =====
-- The stages of `do_send` in network/pfs_so.c that send a file, and both stages together.
use mathlib.Core.Option.{none-ne-some}
use pfs.Common.{
  ℕ, ◌-◌, ◌≤◌, ◌<◌, ◌≡◌, refl, sym, ap, subst, ◌∙◌, ◌==◌, false, Bool-cases, Option, none, some,
  List, [], ◌∷◌, ◌++◌, append_assoc, append-nil, length, take, drop, length-drop, length-take,
  take-append-drop, drop-take, drop-all, drop-drop, take-take, ltb, ltb→lt, ltb→le, if◌then◌else◌,
  Bool, ℤ, pos, negsuc, inl, inr, arith,
}
use pfs.Buffer.{held}
use pfs.Buffer.Data.{view, IsValid}
use pfs.Buffer.File.{skipfile_part, skipfile_last}
use pfs.EventLoop.{
  is_positive, Answer, Conn, Mylib, Stage, send_add_epollin, send_close, not_sent, sent_file,
  not_sent_file, send_file, gsize,
}
use pfs.EventLoop.Transmit.{
  pending, Honest, Moved, stays, Done, all_or_out, not_sent-Done, none_sent, by_errno, ℤ-cases,
  fails, Ends, ends_with, round-Ends,
}

split_back : (w p : List ℕ) (n : ℕ) → (w ++ take n p) ++ drop n p ≡ w ++ p
split_back w p n = append_assoc w (take n p) (drop n p) ∙ ap (λ x. w ++ x) (take-append-drop n p)

asked_le : (len : ℕ) → (if ltb gsize len then gsize else len) ≤ len
asked_le len = ground arith

module _ {U : Type 0} where
  -- A stage that leaves the connection alone, and does not say that all was sent.
  abbrev NotSent : Conn U → Answer → Stage U → Type 0
  NotSent c a s = (s.conn ≡ c) × (s.n ≡ a.ret) × (s.ret ≡ send_add_epollin → ⊥)

  by_result :
      (c : Conn U) (a : Answer) (r : ℤ) (x y : Stage U)
      → NotSent c a x
      → NotSent c a y
      → NotSent c a (elim r [ pos n ↦ if n == 0 then x else y | negsuc _ ↦ y ])
  by_result c a (pos n) x y h k = elim (Bool-cases (n == 0)) [ inl e ↦ rw e h | inr e ↦ rw e k ]
  by_result c a (negsuc n) x y h k = k

  by_check :
      (c : Conn U) (a : Answer) (check : Option (Conn U → Bool)) (s : Stage U)
      → NotSent c a s
      → NotSent c a (elim check [
        | none ↦ s
        | some negative ↦ if negative c then record s { ret = send_close } else s
      ])
  by_check c a none s h = h
  by_check c a (some f) s h = elim (Bool-cases (f c)) [
    | inl e ↦ rw e (h.0, h.1, λ w. absurd (omega (arith, w)))
    | inr e ↦ rw e h
  ]

  not_sent_file-NotSent :
      (lib : Mylib U) (c : Conn U) (a : Answer) → NotSent c a (not_sent_file lib c a)
  unfolding not_sent_file
  not_sent_file-NotSent lib c a =
      let s : NotSent c a (not_sent c a) = (refl, refl, by_errno a.errno) in
      by_result c a a.ret _ (not_sent c a) (by_check c a lib.svc_check_send (not_sent c a) s) s

module _ {U : Type 0} (files : ℕ → List ℕ) where
  -- The file: what the first stage Left is empty now.
  sent_file-pending :
      (c : Conn U) (fd n : ℕ)
      → view c.send_buff ≡ []
      → c.send_buff.fd ≡ some fd
      → n ≤ c.send_buff.flen
      → pending files (sent_file (files fd) c.send_buff.foffset c.send_buff.flen n c).conn
        ≡ drop n (pending files c)
  unfolding sent_file pending
  sent_file-pending c fd n e f h = elim (Bool-cases (ltb n c.send_buff.flen)) [
    | inl y ↦
        rw (skipfile_part c.send_buff fd n f (ltb→lt n c.send_buff.flen y), e, f)
          (ap (λ x. take (c.send_buff.flen - n) x)
              (sym (drop-drop n c.send_buff.foffset _ (files fd) (omega arith)))
            ∙ sym (
                drop-take n (c.send_buff.flen - n) c.send_buff.flen
                  (drop c.send_buff.foffset (files fd)) (omega arith)))
    | inr z ↦
        rw (skipfile_last c.send_buff fd n f (ltb→le n c.send_buff.flen z), e, f)
          (sym (
            drop-all n (take c.send_buff.flen (drop c.send_buff.foffset (files fd))) (
              omega (
                arith,
                length-take c.send_buff.flen (drop c.send_buff.foffset (files fd)),
                ltb→le n c.send_buff.flen z,
              ))))
  ]

  -- A file is being sent, and the buffer is empty.
  pub record Sending (c : Conn U) (fd : ℕ) : Type 0 where
    pub empty : view c.send_buff ≡ []
    pub holds : c.send_buff.fd ≡ some fd
    pub valid : IsValid c.send_buff

  pub pending_file :
      (c : Conn U) (fd : ℕ)
      → Sending c fd
      → pending files c ≡ take c.send_buff.flen (drop c.send_buff.foffset (files fd))
  unfolding pending
  pending_file c fd g = let e = g.empty in let f = g.holds in rw (e, f) refl

  sent_file-closed :
      (c : Conn U) (fd n : ℕ)
      → c.send_buff.fd ≡ some fd
      → (sent_file (files fd) c.send_buff.foffset c.send_buff.flen n c).conn.closed
          ++ held (sent_file (files fd) c.send_buff.foffset c.send_buff.flen n c).conn.send_buff.fd
        ≡ c.closed ++ held c.send_buff.fd
  unfolding sent_file
  sent_file-closed c fd n f = elim (Bool-cases (ltb n c.send_buff.flen)) [
    | inl y ↦
        rw (skipfile_part c.send_buff fd n f (ltb→lt n c.send_buff.flen y), f)
          (ap (λ x. x ++ fd ∷ []) (append-nil c.closed))
    | inr z ↦
        rw (skipfile_last c.send_buff fd n f (ltb→le n c.send_buff.flen z), f)
          (append-nil (c.closed ++ fd ∷ []))
  ]

  sent_file-block :
      (c : Conn U) (fd n : ℕ)
      → c.send_buff.fd ≡ some fd
      → IsValid c.send_buff
      → IsValid (sent_file (files fd) c.send_buff.foffset c.send_buff.flen n c).conn.send_buff
  unfolding sent_file
  sent_file-block c fd n f v = elim (Bool-cases (ltb n c.send_buff.flen)) [
    | inl y ↦ rw (skipfile_part c.send_buff fd n f (ltb→lt n c.send_buff.flen y)) v
    | inr z ↦ rw (skipfile_last c.send_buff fd n f (ltb→le n c.send_buff.flen z)) v
  ]

  sent_file-Moved :
      (c : Conn U) (fd n : ℕ)
      → Sending c fd
      → n ≤ c.send_buff.flen
      → n ≤ length (pending files c)
      → Moved files c (sent_file (files fd) c.send_buff.foffset c.send_buff.flen n c).conn
  unfolding sent_file
  sent_file-Moved c fd n g le most =
      let e = sent_file-pending c fd n g.empty g.holds le in
      let p = pending_file c fd g in
      record {
        valid = sent_file-block c fd n g.holds g.valid;
        in_order =
            ap (λ x. (c.wire ++ take n (drop c.send_buff.foffset (files fd))) ++ x) e
            ∙ ap (λ x. (c.wire ++ x) ++ drop n (pending files c))
                (sym (
                  ap (take n) p
                  ∙ take-take n c.send_buff.flen (drop c.send_buff.foffset (files fd)) le))
            ∙ split_back c.wire (pending files c) n;
        counted = omega (arith, ap length e, length-drop n (pending files c), most);
        shorter = omega (arith, ap length e, length-drop n (pending files c), most);
        descriptors = sent_file-closed c fd n g.holds;
        user = refl;
        is_open = refl;
        received = refl;
      }

  sent_file-Done :
      (c : Conn U) (fd n : ℕ)
      → Sending c fd
      → 0 < n
      → n ≤ c.send_buff.flen
      → n ≤ length (pending files c)
      → Done files c
          (λ d. pending files d ≡ [])
          (sent_file (files fd) c.send_buff.foffset c.send_buff.flen n c)
  unfolding sent_file
  sent_file-Done c fd n g more le most =
      let m = sent_file-Moved c fd n g le most in
      let e = sent_file-pending c fd n g.empty g.holds le in
      record {
        moved = m;
        all_sent = λ r.
            e
            ∙ drop-all n (pending files c) (
                omega (
                  arith,
                  ap length (pending_file c fd g),
                  length-take c.send_buff.flen (drop c.send_buff.foffset (files fd)),
                  all_or_out n c.send_buff.flen r,
                ));
        progress = λ p. omega (arith, ap length e, length-drop n (pending files c), more, most);
      }

  not_sent_file-Done :
      (lib : Mylib U) (c : Conn U) (Left : Conn U → Type 0) (a : Answer)
      → IsValid c.send_buff
      → is_positive a.ret ≡ false
      → Done files c Left (not_sent_file lib c a)
  not_sent_file-Done lib c Left a v z =
      let k = not_sent_file-NotSent lib c a in
      let d = not_sent-Done files c Left a v z in
      record {
        moved = subst (Moved files c) (sym (k.0)) (stays files c v);
        all_sent = λ e. absurd (k.2 e);
        progress = λ p. absurd (none_sent a.ret z (rw (k.1) at p));
      }

  pub send_file_sent :
      (lib : Mylib U) (file : List ℕ) (start len : ℕ) (answer : ℕ → Answer)
      (ans : List (ℕ → Answer)) (c : Conn U) (n : ℕ)
      → (answer (if ltb gsize len then gsize else len)).ret ≡ pos n
      → 0 < n
      → send_file lib file start len (answer ∷ ans) c ≡ some (sent_file file start len n c)
  unfolding send_file
  send_file_sent lib file start len answer ans c n e p = ground arith

  send_file_failed :
      (lib : Mylib U) (file : List ℕ) (start len : ℕ) (answer : ℕ → Answer)
      (ans : List (ℕ → Answer)) (c : Conn U)
      → is_positive (answer (if ltb gsize len then gsize else len)).ret ≡ false
      → send_file lib file start len (answer ∷ ans) c
        ≡ fails
            (answer (if ltb gsize len then gsize else len))
            (send_file lib file start len ans c)
            (not_sent_file lib c (answer (if ltb gsize len then gsize else len)))
  unfolding send_file fails
  send_file_failed lib file start len answer ans c z = ground arith

  pub send_file-Ends :
      (lib : Mylib U) (c : Conn U) (fd : ℕ) (ans : List (ℕ → Answer))
      → Sending c fd
      → Honest (length (pending files c)) ans
      → Ends files c
          (λ d. pending files d ≡ [])
          (send_file lib (files fd) c.send_buff.foffset c.send_buff.flen ans c)
  unfolding send_file
  send_file-Ends lib c fd [] g h = λ s e. absurd (none-ne-some s e)
  send_file-Ends lib c fd (answer ∷ ans) g h =
      let len = c.send_buff.flen in
      let k : ℕ = if ltb gsize len then gsize else len in
      elim (ℤ-cases (answer k).ret) [
        | inl (n, e, p) ↦
            let le = rw e at (h.0 k) in
            subst (Ends files c (λ d. pending files d ≡ []))
              (sym (send_file_sent lib (files fd) c.send_buff.foffset len answer ans c n e p))
              (ends_with files c (λ d. pending files d ≡ []) _
                (sent_file-Done c fd n g p (omega (arith, le.0, asked_le len)) le.1))
        | inr z ↦
            round-Ends files c (λ d. pending files d ≡ []) _
              (send_file lib (files fd) c.send_buff.foffset len ans c) (answer k) _
              (send_file_failed lib (files fd) c.send_buff.foffset len answer ans c z)
              (send_file-Ends lib c fd ans g (h.1))
              (not_sent_file-Done lib c (λ d. pending files d ≡ []) (answer k) g.valid z)
      ]
