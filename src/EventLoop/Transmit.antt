-- ===== src/EventLoop/Transmit.antt =====
-- The bytes that a connection still has to send, over the two stages of `do_send` in
-- network/pfs_so.c.
use pfs.Common.{
  ℕ, ◌+◌, ◌%◌, ◌^◌, ◌≤◌, ◌<◌, ◌≡◌, refl, sym, ap, subst, ◌∙◌, ◌⊎◌, ◌==◌, false, Bool-cases, Option,
  none, some, List, [], ◌∷◌, ◌++◌, append_assoc, length, take, drop, length-append, length-drop,
  take-append-drop, drop-all, ltb, if◌then◌else◌, ℤ, pos, negsuc, pos_part, inl, inr, arith,
}
use mathlib.Core.Option.{some-injective, none-ne-some}
use pfs.Buffer.{Mybuff, held, mybuff_skipdata, mybuff_getfile}
use pfs.Buffer.Data.{view, IsValid, skipdata-Skips}
use pfs.EventLoop.{
  Errno, eintr, eagain, other, is_positive, Answer, Conn, Stage, send_add_epollin,
  send_add_epollout, send_close, sent_data, not_sent, send_data,
}

-- What is left of a file that is sent.
abbrev pub rest_of : (ℕ → List ℕ) → Option ℕ → ℕ → ℕ → List ℕ
rest_of files none start len = []
rest_of files (some fd) start len = take len (drop start (files fd))

abbrev pub file_rest : (ℕ → List ℕ) → Mybuff → List ℕ
file_rest files b = rest_of files b.fd b.foffset b.flen

unfoldable pub pending : {U : Type 0} → (ℕ → List ℕ) → Conn U → List ℕ
pending files c = view c.send_buff ++ file_rest files c.send_buff

-- A call never sends more than it is asked for, and not more than there is.
abbrev pub Honest : ℕ → List (ℕ → Answer) → Type 0
Honest most [] = Unit {0}
Honest most (a ∷ ans) =
    ((k : ℕ) → (pos_part (a k).ret ≤ k) × (pos_part (a k).ret ≤ most)) × Honest most ans

regroup : (w v f : List ℕ) (n : ℕ) → (w ++ take n v) ++ (drop n v ++ f) ≡ w ++ (v ++ f)
regroup w v f n =
    append_assoc w (take n v) (drop n v ++ f)
    ∙ ap (λ x. w ++ x)
        (sym (append_assoc (take n v) (drop n v) f) ∙ ap (λ x. x ++ f) (take-append-drop n v))

file_kept :
    (files : ℕ → List ℕ) (b b' : Mybuff)
    → (b'.fd ≡ b.fd) × (b'.foffset ≡ b.foffset) × (b'.flen ≡ b.flen)
    → file_rest files b' ≡ file_rest files b
file_kept files b b' (e, f, g) = rw (e, f, g) refl

getfile_kept :
    (b b' : Mybuff)
    → (b'.fd ≡ b.fd) × (b'.foffset ≡ b.foffset) × (b'.flen ≡ b.flen)
    → mybuff_getfile b' ≡ mybuff_getfile b
unfolding mybuff_getfile
getfile_kept b b' (e, f, g) = ground arith

-- `ret` says that all was sent only when it was.
pub all_or_out :
    (n len : ℕ)
    → (if ltb n len then send_add_epollout else send_add_epollin) ≡ send_add_epollin
    → len ≤ n
all_or_out n len h = ground arith

-- A call that failed is not taken for one that sent all.
pub by_errno :
    (e : Errno) → (elim e [ eagain ↦ send_add_epollout | _ ↦ send_close ]) ≡ send_add_epollin → ⊥
by_errno eintr h = omega (arith, h)
by_errno eagain h = omega (arith, h)
by_errno other h = omega (arith, h)

pub none_sent : (r : ℤ) → is_positive r ≡ false → 0 < pos_part r → ⊥
none_sent (pos n) z p = ground arith
none_sent (negsuc n) z p = omega arith

module _ {U : Type 0} (files : ℕ → List ℕ) where
  -- `d` is `c` after some of its bytes went out, and nothing else happened.
  pub record Moved (c d : Conn U) : Type 0 where
    pub valid : IsValid d.send_buff
    pub in_order : d.wire ++ pending files d ≡ c.wire ++ pending files c
    pub counted :
        (d.send_len + length (pending files d)) % 2 ^ 32
        ≡ (c.send_len + length (pending files c)) % 2 ^ 32
    pub shorter : length (pending files d) ≤ length (pending files c)
    pub descriptors : d.closed ++ held d.send_buff.fd ≡ c.closed ++ held c.send_buff.fd
    pub user : d.user ≡ c.user
    pub is_open : d.is_open ≡ c.is_open
    pub received : d.recv_buff ≡ c.recv_buff

  pub stays : (c : Conn U) → IsValid c.send_buff → Moved c c
  stays c v = record {
    valid = v;
    in_order = refl;
    counted = refl;
    shorter = omega arith;
    descriptors = refl;
    user = refl;
    is_open = refl;
    received = refl;
  }

  pub Moved-trans : (c d e : Conn U) → Moved c d → Moved d e → Moved c e
  Moved-trans c d e m k = record {
    valid = k.valid;
    in_order = k.in_order ∙ m.in_order;
    counted = k.counted ∙ m.counted;
    shorter = omega (arith, k.shorter, m.shorter);
    descriptors = k.descriptors ∙ m.descriptors;
    user = k.user ∙ m.user;
    is_open = k.is_open ∙ m.is_open;
    received = k.received ∙ m.received;
  }

  -- The bytes are sent, and the file is as it was.
  abbrev pub DataSent : Conn U → Conn U → Type 0
  DataSent c d =
      (view d.send_buff ≡ [])
      × (file_rest files d.send_buff ≡ file_rest files c.send_buff)
      × (mybuff_getfile d.send_buff ≡ mybuff_getfile c.send_buff)

  -- A stage that moved the connection, with what `ret` and `n` say of it.
  pub record Done (c : Conn U) (Left : Conn U → Type 0) (s : Stage U) : Type 0 where
    pub moved : Moved c s.conn
    pub all_sent : s.ret ≡ send_add_epollin → Left s.conn
    pub progress : 0 < pos_part s.n → length (pending files s.conn) < length (pending files c)

  sent_data-pending :
      (c : Conn U) (n : ℕ)
      → IsValid c.send_buff
      → pending files (sent_data (view c.send_buff) n c).conn
        ≡ drop n (view c.send_buff) ++ file_rest files c.send_buff
  unfolding sent_data pending
  sent_data-pending c n v =
      let s = skipdata-Skips c.send_buff n v in
      let r = s.rest in
      let f = file_kept files c.send_buff (mybuff_skipdata c.send_buff n) s.file in rw (r, f) refl

  sent_data-Moved :
      (c : Conn U) (n : ℕ)
      → IsValid c.send_buff
      → n ≤ length (view c.send_buff)
      → Moved c (sent_data (view c.send_buff) n c).conn
  unfolding sent_data pending
  sent_data-Moved c n v h =
      let s = skipdata-Skips c.send_buff n v in
      let e = sent_data-pending c n v in
      record {
        valid = s.valid;
        in_order =
            ap (λ x. (c.wire ++ take n (view c.send_buff)) ++ x) e
            ∙ regroup c.wire (view c.send_buff) (file_rest files c.send_buff) n;
        counted = omega (
          arith,
          ap length e,
          length-append (drop n (view c.send_buff)) (file_rest files c.send_buff),
          length-append (view c.send_buff) (file_rest files c.send_buff),
          length-drop n (view c.send_buff),
        );
        shorter = omega (
          arith,
          ap length e,
          length-append (drop n (view c.send_buff)) (file_rest files c.send_buff),
          length-append (view c.send_buff) (file_rest files c.send_buff),
          length-drop n (view c.send_buff),
        );
        descriptors = ap (λ x. c.closed ++ held x) (s.file.0);
        user = refl;
        is_open = refl;
        received = refl;
      }

  length-pending :
      (c : Conn U)
      → length (pending files c) ≡ length (view c.send_buff) + length (file_rest files c.send_buff)
  unfolding pending
  length-pending c = length-append (view c.send_buff) (file_rest files c.send_buff)

  pub sent_data-Done :
      (c : Conn U) (n : ℕ)
      → IsValid c.send_buff
      → n ≤ length (view c.send_buff)
      → Done c (DataSent c) (sent_data (view c.send_buff) n c)
  unfolding sent_data
  sent_data-Done c n v h =
      let m = sent_data-Moved c n v h in
      let r = (skipdata-Skips c.send_buff n v).rest in
      record {
        moved = m;
        all_sent = λ e. (
          r ∙ drop-all n (view c.send_buff) (all_or_out n (length (view c.send_buff)) e),
          file_kept files c.send_buff (mybuff_skipdata c.send_buff n)
              (skipdata-Skips c.send_buff n v).file,
          getfile_kept c.send_buff (mybuff_skipdata c.send_buff n)
              (skipdata-Skips c.send_buff n v).file,
        );
        progress = λ p. omega (
          arith,
          p,
          h,
          ap length (sent_data-pending c n v),
          length-append (drop n (view c.send_buff)) (file_rest files c.send_buff),
          length-pending c,
          length-drop n (view c.send_buff),
        );
      }

  pub not_sent-Done :
      (c : Conn U) (Left : Conn U → Type 0) (a : Answer)
      → IsValid c.send_buff
      → is_positive a.ret ≡ false
      → Done c Left (not_sent c a)
  not_sent-Done c Left a v z = record {
    moved = stays c v;
    all_sent = λ e. absurd (by_errno a.errno e);
    progress = λ p. absurd (none_sent a.ret z p);
  }

pub ℤ-cases : (r : ℤ) → ((n : ℕ) × (r ≡ pos n) × (0 < n)) ⊎ (is_positive r ≡ false)
ℤ-cases (pos n) = elim (Bool-cases (n == 0)) [
  | inl y ↦ inr (rw y refl)
  | inr z ↦ inl (n, refl, ground arith)
]
ℤ-cases (negsuc n) = inr refl

-- Whether a call that sent nothing is made again, and how a loop goes on with it.
unfoldable pub fails {ℓ} : {A : Type ℓ} → Answer → Option A → A → Option A
fails a again s = elim a.errno [ eintr ↦ again | _ ↦ some s ]

pub fails-cases {ℓ} :
    {A : Type ℓ} (a : Answer) (again : Option A) (s : A)
    → (fails a again s ≡ again) ⊎ (fails a again s ≡ some s)
unfolding fails
fails-cases a again s = by_errno a.errno
  where
    by_errno :
        (e : Errno)
        → ((elim e [ eintr ↦ again | _ ↦ some s ]) ≡ again)
          ⊎ ((elim e [ eintr ↦ again | _ ↦ some s ]) ≡ some s)
    by_errno eintr = inl refl
    by_errno eagain = inr refl
    by_errno other = inr refl

module _ {U : Type 0} (files : ℕ → List ℕ) where
  abbrev pub Ends : Conn U → (Conn U → Type 0) → Option (Stage U) → Type 0
  Ends c Left r = (s : Stage U) → r ≡ some s → Done files c Left s

  pub ends_with :
      (c : Conn U) (Left : Conn U → Type 0) (s : Stage U)
      → Done files c Left s
      → Ends c Left (some s)
  ends_with c Left s d x e = subst (Done files c Left) (some-injective s x e) d

  send_data_failed :
      (bytes : List ℕ) (answer : ℕ → Answer) (ans : List (ℕ → Answer)) (c : Conn U)
      → is_positive (answer (length bytes)).ret ≡ false
      → send_data bytes (answer ∷ ans) c
        ≡ fails (answer (length bytes)) (send_data bytes ans c) (not_sent c (answer (length bytes)))
  unfolding send_data fails
  send_data_failed bytes answer ans c z = ground arith

  pub send_data_sent :
      (bytes : List ℕ) (answer : ℕ → Answer) (ans : List (ℕ → Answer)) (c : Conn U) (n : ℕ)
      → (answer (length bytes)).ret ≡ pos n
      → 0 < n
      → send_data bytes (answer ∷ ans) c ≡ some (sent_data bytes n c)
  unfolding send_data
  send_data_sent bytes answer ans c n e p = ground arith

  -- How a loop ends from how its first round does.
  pub round-Ends :
      (c : Conn U) (Left : Conn U → Type 0) (r again : Option (Stage U)) (a : Answer) (s : Stage U)
      → r ≡ fails a again s
      → Ends c Left again
      → Done files c Left s
      → Ends c Left r
  round-Ends c Left r again a s e h d = elim (fails-cases a again s) [
    | inl f ↦ subst (Ends c Left) (sym (e ∙ f)) h
    | inr f ↦ subst (Ends c Left) (sym (e ∙ f)) (ends_with c Left s d)
  ]

  pub send_data-Ends :
      (c : Conn U) (ans : List (ℕ → Answer)) (most : ℕ)
      → IsValid c.send_buff
      → Honest most ans
      → Ends c (DataSent files c) (send_data (view c.send_buff) ans c)
  unfolding send_data
  send_data-Ends c [] most v h = λ s e. absurd (none-ne-some s e)
  send_data-Ends c (answer ∷ ans) most v h =
      let bytes = view c.send_buff in
      elim (ℤ-cases (answer (length bytes)).ret) [
        | inl (n, e, p) ↦
            subst (Ends c (DataSent files c)) (sym (send_data_sent bytes answer ans c n e p)) (
              ends_with c (DataSent files c) (sent_data bytes n c)
                (sent_data-Done files c n v (rw e at (h.0 (length bytes)).0)))
        | inr z ↦
            round-Ends c (DataSent files c) _ (send_data bytes ans c) (answer (length bytes)) _
              (send_data_failed bytes answer ans c z) (send_data-Ends c ans most v (h.1))
              (not_sent-Done files c (DataSent files c) (answer (length bytes)) v z)
      ]
