-- ===== src/Session/Chunks.antt =====
-- A stream that arrives in pieces: `do_recv` of network/pfs_so.c appends what a read gives to the
-- buffer and calls `svc_recv`.
use Prim.Native.Nat.{bit_or}
use pfs.Common.{
  ℕ, ◌+◌, ◌^◌, ◌≤◌, ◌<◌, ◌≡◌, refl, sym, ap, ◌∙◌, subst, true, false, Option, none, some, List, [],
  ◌∷◌, ◌++◌, append_assoc, append-nil, arith, length, take, drop, length-append, leb, ◌==◌, inl,
  inr, Bool-cases, drop-append, take-append, take-append_le, drop-append_le, leb→le, leb→lt,
  take-append-drop,
}
use pfs.Buffer.{Heap, mybuff_setdata}
use pfs.Buffer.Data.{view, IsValid, setdata-Stores}
use pfs.Protocol.{SigHead, Parsed, is_positive}
use pfs.Buffer.Queue.{length-view}
use pfs.Protocol.RoundTrip.{parse-create, parse-take-create, parse-nil, length-create}
use pfs.Session.{Conn, svc_recv, recv_close, recv_add_epollin}
use pfs.Session.Serve.{
  Msg, Fits16, AllFit16, encode, encode_all, req, serve, IsPartial, svc_recv-Ends,
}

module _ {S : Type 0} (do_req : SigHead → List ℕ → S → S × ℕ) (h0 : SigHead) (b0 : List ℕ) where
  -- The requests one after the other, with no close.
  abbrev pub handle_all : S → List Msg → S
  handle_all s [] = s
  handle_all s (m ∷ ms) = handle_all (req do_req h0 b0 m s).0 ms

  -- No request on the way asks for the close.
  abbrev pub AllOpen : S → List Msg → Type 0
  AllOpen s [] = Unit {0}
  AllOpen s (m ∷ ms) =
      (((req do_req h0 b0 m s).1 == recv_close) ≡ false) × AllOpen (req do_req h0 b0 m s).0 ms

  AllOpen-append :
      (s : S) (ms ns : List Msg)
      → AllOpen s (ms ++ ns)
      → AllOpen s ms × AllOpen (handle_all s ms) ns
  AllOpen-append s [] ns o = (tt, o)
  AllOpen-append s (m ∷ ms) ns o =
      let r = AllOpen-append (req do_req h0 b0 m s).0 ms ns o.1 in ((o.0, r.0), r.1)

  handle_all-append :
      (s : S) (ms ns : List Msg) → handle_all s (ms ++ ns) ≡ handle_all (handle_all s ms) ns
  handle_all-append s [] ns = refl
  handle_all-append s (m ∷ ms) ns = handle_all-append (req do_req h0 b0 m s).0 ms ns

  serve_open :
      (s : S) (ret : ℕ) (ms : List Msg)
      → AllOpen s ms
      → ((serve do_req h0 b0 s ret ms).state ≡ handle_all s ms)
        × ((serve do_req h0 b0 s ret ms).left ≡ [])
  unfolding serve
  serve_open s ret [] o = (refl, refl)
  serve_open s ret (m ∷ ms) o =
      let r = req do_req h0 b0 m s in rw (o.0) (serve_open r.0 (bit_or ret r.1) ms o.1)

AllFit16-append : (ms ns : List Msg) → AllFit16 (ms ++ ns) → AllFit16 ms × AllFit16 ns
AllFit16-append [] ns f = (tt, f)
AllFit16-append (m ∷ ms) ns f = let r = AllFit16-append ms ns f.1 in ((f.0, r.0), r.1)

-- A list that starts two sums.
shorter-prefix :
    (s more e r : List ℕ) → s ++ more ≡ e ++ r → length s ≤ length e → s ≡ take (length s) e
shorter-prefix s more e r q h =
    sym (take-append s more) ∙ ap (λ t. take (length s) t) q ∙ take-append_le (length s) e r h

longer-prefix :
    (s more e r : List ℕ)
    → s ++ more ≡ e ++ r
    → length e ≤ length s
    → (s ≡ e ++ drop (length e) s) × (drop (length e) s ++ more ≡ r)
longer-prefix s more e r q h = (
  sym (take-append-drop (length e) s)
      ∙ ap (λ t. t ++ drop (length e) s)
          (sym (take-append_le (length e) s more h)
            ∙ ap (λ t. take (length e) t) q
            ∙ take-append e r),
  sym (drop-append_le (length e) s more h) ∙ ap (λ t. drop (length e) t) q ∙ drop-append e r,
)

module _ {S : Type 0} (do_req : SigHead → List ℕ → S → S × ℕ) (h0 : SigHead) (b0 : List ℕ) where
  -- A start of a stream of packets is some packets and a part of the next.
  record Cut (ms : List Msg) (s more : List ℕ) : Type 0 where
    pub done : List Msg
    pub todo : List Msg
    pub part : List ℕ
    pub split : ms ≡ done ++ todo
    pub front : s ≡ encode_all done ++ part
    pub back : part ++ more ≡ encode_all todo
    pub partial : IsPartial do_req h0 b0 part
    pub short : length part < 65540

  cut : (ms : List Msg) (s more : List ℕ) → AllFit16 ms → s ++ more ≡ encode_all ms → Cut ms s more
  cut [] [] more fits e = record {
    done = [];
    todo = [];
    part = [];
    split = refl;
    front = refl;
    back = e;
    partial = parse-nil h0 b0;
    short = omega arith;
  }
  cut [] (x ∷ s) more fits e = cc
  cut (m ∷ ms) s more fits e = elim (Bool-cases (leb (length (encode m)) (length s))) [
    | inl whole ↦
        let q = longer-prefix s more (encode m) (encode_all ms) e (leb→le _ _ whole) in
        let c = cut ms (drop (length (encode m)) s) more fits.1 q.1 in
        record {
          done = m ∷ c.done;
          todo = c.todo;
          part = c.part;
          split = ap (λ t. m ∷ t) c.split;
          front =
              q.0
              ∙ ap (λ t. encode m ++ t) c.front
              ∙ sym (append_assoc (encode m) (encode_all c.done) c.part);
          back = c.back;
          partial = c.partial;
          short = c.short;
        }
    | inr short ↦
        let lt : length s < length (encode m) = leb→lt _ _ short in
        record {
          done = [];
          todo = m ∷ ms;
          part = s;
          split = refl;
          front = refl;
          back = e;
          partial =
              subst (IsPartial do_req h0 b0)
                (sym (shorter-prefix s more (encode m) (encode_all ms) e (omega arith)))
                (parse-take-create h0 b0 m.cmdid m.status m.body (length m.body) (length s)
                  (omega arith) fits.0 lt);
          short = omega (
            arith,
            lt,
            fits.0,
            length-create m.cmdid m.status m.body (length m.body) (omega arith),
          );
        }
  ]

  -- The bytes that `do_recv` got before it calls `svc_recv`: they are stored, and the complete
  -- packets are served. The result `none` is a fault, or fuel that ran out.
  pub deliver : ℕ → Heap → Conn S → List ℕ → Option (Conn S)
  deliver init h c chunk = elim (mybuff_setdata init h c.recv_buff chunk) [
    | none ↦ none
    | some b ↦ elim (svc_recv do_req h0 b0 (length (view b) + 1) (record c { recv_buff = b })) [
      | none ↦ none
      | some (c', ret) ↦ some c'
    ]
  ]

  pub deliver_all : ℕ → Heap → Conn S → List (List ℕ) → Option (Conn S)
  deliver_all init h c [] = some c
  deliver_all init h c (x ∷ xs) = elim (deliver init h c x) [
    | none ↦ none
    | some c' ↦ deliver_all init h c' xs
  ]

-- Each piece is shorter than 2 GiB, by the room that a packet needs.
abbrev pub AllShort : List (List ℕ) → Type 0
AllShort [] = Unit {0}
AllShort (x ∷ xs) = (length x + 65540 < 2 ^ 31) × AllShort xs

abbrev pub concat : List (List ℕ) → List ℕ
concat [] = []
concat (x ∷ xs) = x ++ concat xs

module _ {S : Type 0} (do_req : SigHead → List ℕ → S → S × ℕ) (h0 : SigHead) (b0 : List ℕ) where
  -- `r` is a connection in state `s` with nothing in its buffer.
  pub record Quiet (s : S) (r : Option (Conn S)) : Type 0 where
    pub after : Conn S
    pub returns : r ≡ some after
    pub state : after.peer ≡ s
    pub valid : IsValid after.recv_buff
    pub empty : view after.recv_buff ≡ []

  whole-not-IsPartial :
      (m : Msg) (rest : List ℕ)
      → Fits16 m
      → length (encode m ++ rest) < 2 ^ 31
      → ¬ (IsPartial do_req h0 b0 (encode m ++ rest))
  whole-not-IsPartial m rest small short p =
      let read =
        parse-create h0 b0 m.cmdid m.status m.body (length m.body) rest (omega arith) small short in
      let not_positive : false ≡ true = sym (ap (λ (r : Parsed). is_positive r.ret) read) ∙ p in cc

  nothing_left :
      (ms : List Msg) (t : List ℕ)
      → AllFit16 ms
      → IsPartial do_req h0 b0 t
      → t ≡ encode_all ms
      → length t < 65540
      → ms ≡ []
  nothing_left [] t fits p e short = refl
  nothing_left (m ∷ ms) t fits p e short = absurd (
      whole-not-IsPartial m (encode_all ms) fits.0 (omega (arith, short, ap length e))
        (subst (IsPartial do_req h0 b0) e p))

  -- `r` is the connection after one read: state `s`, and `part` in the buffer.
  record Delivered (s : S) (part : List ℕ) (r : Option (Conn S)) : Type 0 where
    pub after : Conn S
    pub returns : r ≡ some after
    pub state : after.peer ≡ s
    pub valid : IsValid after.recv_buff
    pub rest : view after.recv_buff ≡ part

  module _ (init : ℕ) (h : Heap) (pos : 0 < init) (small : init < 2 ^ 64) (ok : h.malloc_ok ≡ true)
      (ok' : h.realloc_ok ≡ true) where
    deliver-Delivered :
        (c : Conn S) (x : List ℕ) (ms : List Msg) (part : List ℕ)
        → IsValid c.recv_buff
        → AllFit16 ms
        → AllOpen do_req h0 b0 c.peer ms
        → IsPartial do_req h0 b0 part
        → view c.recv_buff ++ x ≡ encode_all ms ++ part
        → length (view c.recv_buff ++ x) < 2 ^ 31
        → Delivered (handle_all do_req h0 b0 c.peer ms) part (deliver do_req h0 b0 init h c x)
    unfolding deliver
    deliver-Delivered c x ms part valid fits o partial e total =
        let st =
          setdata-Stores init h c.recv_buff x pos small ok ok' valid
            (omega (arith, length-append (view c.recv_buff) x, length-view c.recv_buff valid)) in
        let c1 : Conn S = record c { recv_buff = st.after } in
        let w =
          svc_recv-Ends do_req h0 b0 c1 ms part st.valid fits partial (st.appended ∙ e)
            (omega (arith, total, ap length st.appended)) in
        let open_end = serve_open do_req h0 b0 c.peer recv_add_epollin ms o in
        rw (st.returns, deliver)
          (rw (w.returns, deliver)
            (record {
              after = w.after;
              returns = refl;
              state = w.state ∙ open_end.0;
              valid = w.valid;
              rest = w.rest ∙ ap (λ t. encode_all t ++ part) open_end.1;
            }))

    deliver_all-Quiet_from :
        (c : Conn S) (chunks : List (List ℕ)) (ms : List Msg)
        → IsValid c.recv_buff
        → AllFit16 ms
        → AllOpen do_req h0 b0 c.peer ms
        → IsPartial do_req h0 b0 (view c.recv_buff)
        → view c.recv_buff ++ concat chunks ≡ encode_all ms
        → AllShort chunks
        → length (view c.recv_buff) < 65540
        → Quiet (handle_all do_req h0 b0 c.peer ms) (deliver_all do_req h0 b0 init h c chunks)
    unfolding deliver_all
    deliver_all-Quiet_from c [] ms valid fits o partial e total room =
        let all : view c.recv_buff ≡ encode_all ms = sym (append-nil (view c.recv_buff)) ∙ e in
        let none_left = nothing_left ms (view c.recv_buff) fits partial all room in
        record {
          after = c;
          returns = refl;
          state = sym (ap (handle_all do_req h0 b0 c.peer) none_left);
          valid = valid;
          empty = all ∙ ap encode_all none_left;
        }
    deliver_all-Quiet_from c (x ∷ xs) ms valid fits o partial e total room =
        let e' : (view c.recv_buff ++ x) ++ concat xs ≡ encode_all ms =
          append_assoc (view c.recv_buff) x (concat xs) ∙ e in
        let k = cut do_req h0 b0 ms (view c.recv_buff ++ x) (concat xs) fits e' in
        let fits' = AllFit16-append k.done k.todo (subst AllFit16 k.split fits) in
        let o' =
          AllOpen-append do_req h0 b0 c.peer k.done k.todo
            (subst (AllOpen do_req h0 b0 c.peer) k.split o) in
        let d =
          deliver-Delivered c x k.done k.part valid fits'.0 o'.0 k.partial k.front
            (omega (arith, total.0, room, length-append (view c.recv_buff) x)) in
        let rest =
          deliver_all-Quiet_from d.after xs k.todo d.valid fits'.1
            (subst (λ s. AllOpen do_req h0 b0 s k.todo) (sym d.state) o'.1)
            (subst (IsPartial do_req h0 b0) (sym d.rest) k.partial) (rw d.rest k.back) total.1
            (omega (arith, ap length d.rest, k.short)) in
        let same : handle_all do_req h0 b0 d.after.peer k.todo ≡ handle_all do_req h0 b0 c.peer ms =
          ap (λ s. handle_all do_req h0 b0 s k.todo) d.state
          ∙ sym (handle_all-append do_req h0 b0 c.peer k.done k.todo)
          ∙ sym (ap (handle_all do_req h0 b0 c.peer) k.split) in
        rw (d.returns, deliver_all)
          (subst (λ s. Quiet s (deliver_all do_req h0 b0 init h d.after xs)) same rest)

    -- A stream of packets of any length may arrive in pieces, cut anywhere, also inside of a head:
    -- if no request asks for the close, every packet is served exactly once and in order, and the
    -- buffer is empty and valid at the end. The buffer is empty at the start, memory is at hand,
    -- each body fits the `uint16_t` length, and each piece has less than 2 GiB minus 65540 bytes,
    -- the largest packet and one more.
    pub deliver_all-Quiet :
        (c : Conn S) (chunks : List (List ℕ)) (ms : List Msg)
        → IsValid c.recv_buff
        → view c.recv_buff ≡ []
        → AllFit16 ms
        → AllOpen do_req h0 b0 c.peer ms
        → concat chunks ≡ encode_all ms
        → AllShort chunks
        → Quiet (handle_all do_req h0 b0 c.peer ms) (deliver_all do_req h0 b0 init h c chunks)
    deliver_all-Quiet c chunks ms valid empty fits o e total =
        deliver_all-Quiet_from c chunks ms valid fits o (rw empty (parse-nil h0 b0)) (rw empty e)
          total (rw empty (omega arith))
