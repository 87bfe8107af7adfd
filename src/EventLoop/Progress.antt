-- ===== src/EventLoop/Progress.antt =====
-- How `do_send` of network/pfs_so.c gets on, call after call, with a peer that takes bytes.
use mathlib.Core.Option.{none-ne-some}
use pfs.Common.{
  ℕ, suc, ◌≤◌, ◌<◌, ◌≡◌, refl, sym, ap, ◌∙◌, ◌⊎◌, ◌==◌, true, false, Bool-cases, Option, none, some,
  List, [], ◌∷◌, length, ltb, if◌then◌else◌, pos, pos_part, inl, inr, arith, ==_iff,
}
use pfs.Buffer.{mybuff_getfile}
use pfs.Buffer.Data.{view, IsValid}
use pfs.EventLoop.{
  Answer, Conn, Mylib, Stage, send_add_epollin, gsize, data_stage, file_stage, transmit, send_data,
  send_file, sent_data, sent_file,
}
use pfs.EventLoop.Transmit.{file_rest, pending, Honest, Done, DataSent, send_data_sent}
use pfs.EventLoop.FileStage.{send_file_sent}
use pfs.EventLoop.Sends.{
  AllSent, getdata-cases, getfile-cases, pending_sent, data_stage-Ends, transmit-Ends,
}

-- The first call takes something.
abbrev pub Willing : List (ℕ → Answer) → Type 0
Willing [] = ⊥
Willing (a ∷ ans) = (k : ℕ) → 0 < k → (n : ℕ) × ((a k).ret ≡ pos n) × (0 < n)

asked_pos : (len : ℕ) → 0 < len → 0 < (if ltb gsize len then gsize else len)
asked_pos len h = ground arith

empty : (xs : List ℕ) → length xs ≤ 0 → xs ≡ []
empty [] h = refl
empty (x ∷ xs) h = absurd (omega arith)

fewer : (xs : List ℕ) (m n : ℕ) → (xs ≡ []) ⊎ (length xs < m) → m ≤ suc n → length xs ≤ n
fewer xs m n (inl e) h = omega (arith, ap length e)
fewer xs m n (inr p) h = omega (arith, p, h)

module _ {U : Type 0} (files : ℕ → List ℕ) (lib : Mylib U) where
  -- What one call of `do_send` needs: each stage with something to send meets a willing peer.
  pub record Takes (c : Conn U) (ans fans : List (ℕ → Answer)) : Type 0 where
    pub honest : Honest (length (view c.send_buff)) ans
    pub honest_file : Honest (length (file_rest files c.send_buff)) fans
    pub willing : (view c.send_buff ≡ []) ⊎ Willing ans
    pub willing_file : (mybuff_getfile c.send_buff ≡ none) ⊎ Willing fans

  send_data-answers :
      (c : Conn U) (ans : List (ℕ → Answer))
      → 0 < length (view c.send_buff)
      → Willing ans
      → (s : Stage U) × (send_data (view c.send_buff) ans c ≡ some s) × (0 < pos_part s.n)
  unfolding sent_data
  send_data-answers c [] p w = absurd w
  send_data-answers c (a ∷ ans) p w =
      let r = w (length (view c.send_buff)) p in
      (sent_data (view c.send_buff) r.0 c, send_data_sent files _ a ans c r.0 r.1 r.2, r.2)

  send_file-answers :
      (c : Conn U) (fd : ℕ) (fans : List (ℕ → Answer))
      → 0 < c.send_buff.flen
      → Willing fans
      → (s : Stage U) × (send_file lib (files fd) c.send_buff.foffset c.send_buff.flen fans c
          ≡ some s)
        × (0 < pos_part s.n)
  unfolding sent_file
  send_file-answers c fd [] p w = absurd w
  send_file-answers c fd (a ∷ ans) p w =
      let r = w _ (asked_pos c.send_buff.flen p) in
      (
        sent_file (files fd) c.send_buff.foffset c.send_buff.flen r.0 c,
        send_file_sent files lib (files fd) c.send_buff.foffset c.send_buff.flen a ans c r.0 r.1
            r.2,
        r.2,
      )

  -- The second stage, behind a first one.
  file_stage-answers :
      (c : Conn U) (s : Stage U) (fans : List (ℕ → Answer))
      → Done files c (DataSent files c) s
      → (mybuff_getfile c.send_buff ≡ none) ⊎ Willing fans
      → (r : Stage U) × (file_stage lib files fans s ≡ some r)
        × (((r ≡ s) × (s.ret ≡ send_add_epollin → mybuff_getfile s.conn.send_buff ≡ none))
            ⊎ (0 < pos_part r.n))
  unfolding file_stage
  file_stage-answers c s fans d w = elim (Bool-cases (s.ret == send_add_epollin)) [
    | inr z ↦ (
      s,
      rw (z, file_stage) refl,
      inl (
        refl,
        λ e. absurd (let k : false ≡ true = sym z ∙ (==_iff s.ret send_add_epollin).1 e in cc),
      ),
    )
    | inl y ↦
        let sent = d.all_sent ((==_iff s.ret send_add_epollin).0 y) in
        elim (getfile-cases files s.conn.send_buff) [
          | inl (g, e) ↦ (s, rw (y, g, file_stage) refl, inl (refl, λ x. g))
          | inr (fd, f, g, p) ↦
              let r = send_file-answers s.conn fd fans p (takes _ _ _ (sent.2) g w) in
              (r.0, rw (y, g, file_stage) (r.1), inr r.2)
        ]
  ]
    where
      takes :
          (o o' : Option (ℕ × ℕ × ℕ)) (x : ℕ × ℕ × ℕ)
          → o' ≡ o
          → o' ≡ some x
          → (o ≡ none) ⊎ Willing fans
          → Willing fans
      takes o o' x e g (inl z) = absurd (none-ne-some _ (sym z ∙ sym e ∙ g))
      takes o o' x e g (inr w') = w'

  -- The first stage.
  data_stage-answers :
      (c : Conn U) (ans : List (ℕ → Answer))
      → IsValid c.send_buff
      → (view c.send_buff ≡ []) ⊎ Willing ans
      → (s : Stage U) × (data_stage ans c ≡ some s)
        × (((view c.send_buff ≡ []) × (s.conn ≡ c) × (s.ret ≡ send_add_epollin))
            ⊎ (0 < pos_part s.n))
  unfolding data_stage
  data_stage-answers c ans v w = elim (getdata-cases c.send_buff v) [
    | inl (g, e) ↦ (
      record { conn = c; ret = send_add_epollin; n = pos 0 },
      rw (g, data_stage) refl,
      inl (e, refl, refl),
    )
    | inr (g, p) ↦
        let r = send_data-answers c ans p (willing w p) in (r.0, rw (g, data_stage) (r.1), inr r.2)
  ]
    where
      willing : {xs : List ℕ} → (xs ≡ []) ⊎ Willing ans → 0 < length xs → Willing ans
      willing (inl e) p = absurd (omega (arith, p, ap length e))
      willing (inr w') p = w'

  nothing_left :
      (c : Conn U)
      → view c.send_buff ≡ []
      → mybuff_getfile c.send_buff ≡ none
      → pending files c ≡ []
  nothing_left c e g = pending_sent files c e ∙ elim (getfile-cases files c.send_buff) [
    | inl (h, f) ↦ f
    | inr (fd, f, h, p) ↦ absurd (none-ne-some _ (sym g ∙ h))
  ]

  -- A call gets on: it returns, and what is still to be sent has become less, or was nothing.
  transmit-Progress :
      (c : Conn U) (ans fans : List (ℕ → Answer))
      → IsValid c.send_buff
      → Takes c ans fans
      → (s : Stage U) × (transmit lib files ans fans c ≡ some s)
        × IsValid s.conn.send_buff
        × ((pending files s.conn ≡ []) ⊎ (length (pending files s.conn) < length (pending files c)))
  unfolding transmit
  transmit-Progress c ans fans v t =
      let a = data_stage-answers c ans v t.willing in
      let d = data_stage-Ends files lib c ans v t.honest a.0 a.1 in
      let b = file_stage-answers c a.0 fans d t.willing_file in
      let e : transmit lib files ans fans c ≡ some b.0 = rw (a.1, transmit) (b.1) in
      let m = transmit-Ends files lib c ans fans v t.honest t.honest_file b.0 e in
      (b.0, e, m.moved.valid, how a.0 b.0 a.2 b.2 m)
    where
      how :
          (s r : Stage U)
          → ((view c.send_buff ≡ []) × (s.conn ≡ c) × (s.ret ≡ send_add_epollin))
            ⊎ (0 < pos_part s.n)
          → ((r ≡ s) × (s.ret ≡ send_add_epollin → mybuff_getfile s.conn.send_buff ≡ none))
            ⊎ (0 < pos_part r.n)
          → Done files c (AllSent files lib) r
          → (pending files r.conn ≡ []) ⊎ (length (pending files r.conn) < length (pending files c))
      how s r x (inr p) m = inr (m.progress p)
      how s r (inr p) (inl (e, g)) m = inr (m.progress (rw e p))
      how s r (inl (e, f, i)) (inl (z, g)) m = inl (
          ap (λ y. pending files y.conn) z
          ∙ ap (λ y. pending files y) f
          ∙ nothing_left c e (rw (sym f) (g i)))

  -- The calls of `do_send` up to the process, one after the other.
  pub transmits : List (List (ℕ → Answer) × List (ℕ → Answer)) → Conn U → Option (Conn U)
  transmits [] c = some c
  transmits ((ans, fans) ∷ rs) c = elim (transmit lib files ans fans c) [
    | none ↦ none
    | some s ↦ transmits rs s.conn
  ]

  -- Each call meets a willing peer.
  abbrev pub AllTake : List (List (ℕ → Answer) × List (ℕ → Answer)) → Conn U → Type 0
  AllTake [] c = Unit {0}
  AllTake ((ans, fans) ∷ rs) c =
      Takes c ans fans
      × ((s : Stage U) → transmit lib files ans fans c ≡ some s → AllTake rs s.conn)

  -- With a peer that takes at least one byte of each call that offers some, every byte of the
  -- buffer and of the file is sent after as many calls as there are bytes, if not before.
  pub transmits-AllSent :
      (rs : List (List (ℕ → Answer) × List (ℕ → Answer))) (c : Conn U)
      → IsValid c.send_buff
      → AllTake rs c
      → length (pending files c) ≤ length rs
      → (d : Conn U) × (transmits rs c ≡ some d) × (pending files d ≡ [])
  unfolding transmits
  transmits-AllSent [] c v t h = (c, refl, empty (pending files c) h)
  transmits-AllSent ((ans, fans) ∷ rs) c v (t, ts) h =
      let p = transmit-Progress c ans fans v t in
      let rest = transmits-AllSent rs (p.0).conn p.2 (ts p.0 p.1) (fewer _ _ (length rs) p.3 h) in
      (rest.0, rw (p.1, transmits) (rest.1), rest.2)
