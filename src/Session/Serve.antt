-- ===== src/Session/Serve.antt =====
-- What one `svc_recv` of network/N/pfs_sig.c and network/S/pfs_sig.c does with the packets of its
-- buffer.
use Prim.Native.Nat.{bit_or}
use pfs.Common.{
  ℕ, zero, suc, ◌+◌, ◌^◌, ◌≤◌, ◌<◌, ◌≡◌, refl, ap, ◌∙◌, subst, true, Option, none, some, List, [],
  ◌∷◌, ◌++◌, append_assoc, arith, length, length-append, ltb, ◌==◌, if◌then◌else◌, inl, inr,
  Bool-cases, take-all, drop-append, lt→ltb,
}
use pfs.Buffer.{Mybuff, mybuff_getdata, mybuff_skipdata}
use pfs.Buffer.Data.{view, IsValid, getdata-skipdata}
use pfs.Protocol.{SigHead, is_positive, parse_sig_msg, create_sig_msg, copy_body}
use pfs.Protocol.RoundTrip.{head_of, parse-create, length-create}
use pfs.Session.{Conn, dispatch, check_req, recv_loop, svc_recv, recv_close, recv_add_epollin}

-- A packet, by what is in it.
pub record Msg : Type 0 where
  pub cmdid : ℕ
  pub status : ℕ
  pub body : List ℕ

-- Its body fits the `uint16_t` length.
abbrev pub Fits16 : Msg → Type 0
Fits16 m = length m.body < 2 ^ 16

abbrev pub AllFit16 : List Msg → Type 0
AllFit16 [] = Unit {0}
AllFit16 (m ∷ ms) = Fits16 m × AllFit16 ms

abbrev pub encode : Msg → List ℕ
encode m = create_sig_msg m.cmdid m.status m.body (length m.body)

abbrev pub encode_all : List Msg → List ℕ
encode_all [] = []
encode_all (m ∷ ms) = encode m ++ encode_all ms

-- What a run of the loop comes to: the state, the result, and the packets that are left.
pub record Served (S : Type 0) : Type 0 where
  pub state : S
  pub ret : ℕ
  pub left : List Msg

module _ {S : Type 0} (do_req : SigHead → List ℕ → S → S × ℕ) (h0 : SigHead) (b0 : List ℕ) where
  abbrev pub req : Msg → S → S × ℕ
  req m s = do_req (head_of m.cmdid m.status (length m.body)) (copy_body m.body b0) s

  -- The packets one after the other, up to the first that asks for the close.
  unfoldable pub serve : S → ℕ → List Msg → Served S
  serve s ret [] = record { state = s; ret = ret; left = [] }
  serve s ret (m ∷ ms) =
      let r = req m s in
      let rest = serve r.0 (bit_or ret r.1) ms in
      if r.1 == recv_close then record { state = r.0; ret = recv_close; left = ms } else rest

  -- No packet is complete at the start of these bytes.
  abbrev pub IsPartial : List ℕ → Type 0
  IsPartial t = is_positive (parse_sig_msg h0 b0 t).ret ≡ true

  -- `r` is the connection after `w` was served, with `tail` behind the packets that are left.
  pub record Ends (w : Served S) (tail : List ℕ) (r : Option (Conn S × ℕ)) : Type 0 where
    pub after : Conn S
    pub returns : r ≡ some (after, w.ret)
    pub state : after.peer ≡ w.state
    pub valid : IsValid after.recv_buff
    pub rest : view after.recv_buff ≡ encode_all w.left ++ tail

  check_req-partial :
      (c : Conn S)
      → IsValid c.recv_buff
      → IsPartial (view c.recv_buff)
      → check_req do_req h0 b0 c ≡ (c, none)
  unfolding check_req dispatch
  check_req-partial c valid partial =
      let g = (getdata-skipdata c.recv_buff 0 valid).0 in ground (arith, g, partial)

  check_req-packet :
      (c : Conn S) (m : Msg) (more : List ℕ)
      → IsValid c.recv_buff
      → Fits16 m
      → view c.recv_buff ≡ encode m ++ more
      → length (view c.recv_buff) < 2 ^ 31
      → check_req do_req h0 b0 c ≡ (
        record c {
          recv_buff = mybuff_skipdata c.recv_buff (length m.body + 4);
          peer = (req m c.peer).0;
        },
        some (req m c.peer).1,
      )
  unfolding check_req dispatch
  check_req-packet c m more valid small e short =
      let g = (getdata-skipdata c.recv_buff 0 valid).0 in
      let p =
        parse-create h0 b0 m.cmdid m.status m.body (length m.body) more (omega arith) small
          (omega (arith, ap length e, short)) in
      let whole = take-all (length m.body) m.body (omega arith) in
      let pos : ltb 0 (length (view c.recv_buff)) ≡ true = lt→ltb 0 _ (
        omega (
          arith,
          ap length e,
          length-append (encode m) more,
          length-create m.cmdid m.status m.body (length m.body) (omega arith),
        )) in
      let got : mybuff_getdata c.recv_buff ≡ some (encode m ++ more) = g ∙ rw (pos, e) in
      rw (got, check_req) (rw (p, whole))

  -- One round of the loop, by what `check_req` says.
  recv_loop-round :
      (fuel : ℕ) (c : Conn S) (ret : ℕ) (r : Conn S × Option ℕ)
      → check_req do_req h0 b0 c ≡ r
      → recv_loop do_req h0 b0 (suc fuel) c ret ≡ (elim r.1 [
        | none ↦ some (r.0, ret)
        | some sub ↦
            if sub == recv_close
            then some (r.0, recv_close)
            else recv_loop do_req h0 b0 fuel r.0 (bit_or ret sub)
      ])
  unfolding recv_loop
  recv_loop-round fuel c ret r q =
      subst
        (λ (t : Conn S × Option ℕ). recv_loop do_req h0 b0 (suc fuel) c ret ≡ (elim t.1 [
          | none ↦ some (t.0, ret)
          | some sub ↦
              if sub == recv_close
              then some (t.0, recv_close)
              else recv_loop do_req h0 b0 fuel t.0 (bit_or ret sub)
        ]))
        q refl

  -- What is left behind a packet, once its bytes are consumed.
  after_packet :
      (b : Mybuff) (m : Msg) (more : List ℕ)
      → IsValid b
      → view b ≡ encode m ++ more
      → IsValid (mybuff_skipdata b (length m.body + 4))
        × (view (mybuff_skipdata b (length m.body + 4)) ≡ more)
  after_packet b m more valid e =
      let s = (getdata-skipdata b (length m.body + 4) valid).1 in
      let size : length m.body + 4 ≡ length (encode m) =
        omega (arith, length-create m.cmdid m.status m.body (length m.body) (omega arith)) in
      (s.valid, s.rest ∙ rw (e, size) (drop-append (encode m) more))

  -- The loop serves exactly the complete packets at the front of the buffer, each once and in
  -- order, up to the first that closes.
  recv_loop-Ends :
      (fuel : ℕ) (c : Conn S) (ret : ℕ) (ms : List Msg) (tail : List ℕ)
      → IsValid c.recv_buff
      → AllFit16 ms
      → IsPartial tail
      → view c.recv_buff ≡ encode_all ms ++ tail
      → length ms < fuel
      → length (view c.recv_buff) < 2 ^ 31
      → Ends (serve c.peer ret ms) tail (recv_loop do_req h0 b0 fuel c ret)
  unfolding serve
  recv_loop-Ends zero c ret ms tail valid fits partial e more short = absurd (omega arith)
  recv_loop-Ends (suc fuel) c ret [] tail valid fits partial e more short =
      let q = check_req-partial c valid (rw e partial) in
      rw (recv_loop-round fuel c ret _ q)
        (record { after = c; returns = refl; state = refl; valid = valid; rest = e })
  recv_loop-Ends (suc fuel) c ret (m ∷ ms) tail valid fits partial e more short =
      let r = req m c.peer in
      let c' : Conn S = record c {
        recv_buff = mybuff_skipdata c.recv_buff (length m.body + 4);
        peer = r.0;
      } in
      let behind = encode_all ms ++ tail in
      let split : view c.recv_buff ≡ encode m ++ behind =
        e ∙ append_assoc (encode m) (encode_all ms) tail in
      let q : check_req do_req h0 b0 c ≡ (c', some r.1) =
        check_req-packet c m behind valid fits.0 split short in
      let left = after_packet c.recv_buff m behind valid split in
      rw (recv_loop-round fuel c ret _ q) (elim (Bool-cases (r.1 == recv_close)) [
        | inl closes ↦
            rw closes
              (record { after = c'; returns = refl; state = refl; valid = left.0; rest = left.1 })
        | inr goes_on ↦ rw goes_on (
            recv_loop-Ends fuel c' (bit_or ret r.1) ms tail left.0 fits.1 partial left.1
              (omega arith)
              (omega
                (arith, short, ap length split, ap length left.1, length-append (encode m) behind)))
      ])

  length-encode_all : (ms : List Msg) → length ms ≤ length (encode_all ms)
  length-encode_all [] = omega arith
  length-encode_all (m ∷ ms) = omega (
    arith,
    length-append (encode m) (encode_all ms),
    length-create m.cmdid m.status m.body (length m.body) (omega arith),
    length-encode_all ms,
  )

  -- A receive serves exactly the complete packets at the front of a valid buffer, each once and in
  -- order, up to the first whose request asks for the close. With one unit of fuel more than the
  -- buffer has bytes the loop ends; the state and the result are those of the served requests, and
  -- the buffer is valid and holds the packets after a close, and behind them the bytes of `tail`,
  -- at whose start no packet is complete. The buffer has less than 2 GiB, and each body fits the
  -- `uint16_t` length.
  pub svc_recv-Ends :
      (c : Conn S) (ms : List Msg) (tail : List ℕ)
      → IsValid c.recv_buff
      → AllFit16 ms
      → IsPartial tail
      → view c.recv_buff ≡ encode_all ms ++ tail
      → length (view c.recv_buff) < 2 ^ 31
      → Ends
          (serve c.peer recv_add_epollin ms)
          tail
          (svc_recv do_req h0 b0 (length (view c.recv_buff) + 1) c)
  unfolding svc_recv
  svc_recv-Ends c ms tail valid fits partial e short =
      recv_loop-Ends (length (view c.recv_buff) + 1) c recv_add_epollin ms tail valid fits partial e
        (omega (arith, ap length e, length-append (encode_all ms) tail, length-encode_all ms)) short
