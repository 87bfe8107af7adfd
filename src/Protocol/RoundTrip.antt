-- ===== src/Protocol/RoundTrip.antt =====
-- Writing and reading the packets of lib/protocol.c.
use pfs.Common.{
  ℕ, zero, suc, ◌+◌, ◌/◌, ◌%◌, ◌^◌, ◌≤◌, ◌<◌, ◌≡◌, ◌≢◌, refl, sym, ap, ◌∙◌, true, List, [], ◌∷◌,
  ◌++◌, arith, length, take, drop, length-append, length-take, take-append_eq, Bool-cases, inl, inr,
  ltb_ℤ, pos, pos_part,
}
use pfs.Protocol.{
  packet_err_close, pro_ok, total_len, is_positive, SigHead, get_u16, parse_body, parse_head,
  parse_sig_msg, int_of, sig_headsize, create_sig_msg, copy_body, Parsed,
}

get_u16-put_u16 : (n : ℕ) → n < 2 ^ 16 → get_u16 (n / 256 % 256) (n % 256) ≡ n
unfolding get_u16
get_u16-put_u16 n h = omega arith

pub length-create :
    (cmdid status : ℕ) (body : List ℕ) (n : ℕ)
    → n ≤ length body
    → length (create_sig_msg cmdid status body n) ≡ 4 + n
unfolding create_sig_msg
length-create cmdid status body n h = ground (arith, length-take n body)

create_lem :
    (cmdid status : ℕ) (body : List ℕ) (n : ℕ)
    → create_sig_msg cmdid status body n ≡ n / 256 % 256 ∷ n % 256 ∷ cmdid ∷ status ∷ take n body
unfolding create_sig_msg
create_lem cmdid status body zero = refl
create_lem cmdid status body (suc n) = ground arith

-- The head that stands at the start of a packet.
abbrev pub head_of : ℕ → ℕ → ℕ → SigHead
head_of cmdid status n = record { bodylen = n; cmdid = cmdid; status = status }

parse_body-whole :
    (h : SigHead) (b s body rest : List ℕ)
    → h.bodylen ≡ length body
    → h.bodylen < 65536
    → drop 4 s ≡ body ++ rest
    → length s ≡ 4 + length (body ++ rest)
    → parse_body h b s (length s) ≡ record { ret = pro_ok; head = h; body = copy_body body b }
unfolding parse_body
parse_body-whole h b s [] rest e small tail long =
    ground (arith, ap (λ (n : ℕ). copy_body (take n (drop 4 s)) b) e)
parse_body-whole h b s (x ∷ body) rest e small tail long =
    let taken : take h.bodylen (drop 4 s) ≡ x ∷ body =
      rw tail (take-append_eq h.bodylen (x ∷ body) rest e) in
    ground (arith, length-append (x ∷ body) rest, ap (λ t. copy_body t b) taken)

-- A length below 2 GiB stays what it is as an `int`.
parse_long :
    (h0 h : SigHead) (b s : List ℕ) (n : ℕ)
    → 4 ≤ n
    → n < 2 ^ 31
    → parse_head h0 h b s (int_of n) ≡ parse_body h b s n
unfolding parse_head
parse_long h0 h b s n long small = let e : int_of n ≡ pos n = ground arith in rw e (ground arith)

-- A packet is read back as it was written, whatever follows it in the buffer: the result is
-- `pro_ok`, the head has the three fields, and the body starts with the bytes that were sent; the
-- rest of the body's array is as it was. The length fits the `uint16_t`, the body has it, and the
-- buffer has less than 2 GiB.
pub parse-create :
    (h : SigHead) (b : List ℕ) (cmdid status : ℕ) (body : List ℕ) (n : ℕ) (rest : List ℕ)
    → n ≤ length body
    → n < 2 ^ 16
    → length (create_sig_msg cmdid status body n ++ rest) < 2 ^ 31
    → parse_sig_msg h b (create_sig_msg cmdid status body n ++ rest)
      ≡ record { ret = pro_ok; head = head_of cmdid status n; body = copy_body (take n body) b }
unfolding parse_sig_msg
parse-create h b cmdid status body n rest fits small short =
    let size : length (take n body) ≡ n = omega (arith, length-take n body) in
    let c = create_lem cmdid status body n in
    let l = length-append (create_sig_msg cmdid status body n) rest in
    let l' = length-append (take n body) rest in
    let k = length-create cmdid status body n fits in
    let s = n / 256 % 256 ∷ n % 256 ∷ cmdid ∷ status ∷ (take n body ++ rest) in
    rw (c, get_u16-put_u16 n small)
      (parse_long h (head_of cmdid status n) b s (length s) (omega arith)
          (omega (arith, short, l, l', k, size))
        ∙ parse_body-whole (head_of cmdid status n) b s (take n body) rest (sym size) small refl
            (omega arith))

-- Three bytes or fewer are no head, and a head whose body is not there yet is no packet.
parse_body-short :
    (h : SigHead) (b s : List ℕ)
    → h.bodylen < 65536
    → length s < 4 + h.bodylen
    → (parse_body h b s (length s)).ret ≡ total_len
unfolding parse_body
parse_body-short h b s small short = ground arith

-- The first `k` bytes of a packet.
parse-take_packet :
    (h : SigHead) (b : List ℕ) (cmdid status : ℕ) (body : List ℕ) (n k : ℕ)
    → n ≡ length body
    → n < 2 ^ 16
    → k < 4 + n
    → is_positive (parse_sig_msg h b (take k (n / 256 % 256 ∷ n % 256 ∷ cmdid ∷ status ∷ body))).ret
      ≡ true
unfolding parse_sig_msg
parse-take_packet h b cmdid status body n zero e small short = refl
parse-take_packet h b cmdid status body n (suc zero) e small short = refl
parse-take_packet h b cmdid status body n (suc (suc zero)) e small short = refl
parse-take_packet h b cmdid status body n (suc (suc (suc zero))) e small short = refl
parse-take_packet h b cmdid status body n (suc (suc (suc (suc k)))) e small short =
    let s = n / 256 % 256 ∷ n % 256 ∷ cmdid ∷ status ∷ take k body in
    let l = length-take k body in
    rw (get_u16-put_u16 n small) (
      ap (λ (p : Parsed). is_positive p.ret)
        (parse_long h (head_of cmdid status n) b s (length s) (omega arith)
          (omega (arith, l, short, small)))
      ∙ ap is_positive (parse_body-short (head_of cmdid status n) b s small (omega (arith, l))))

-- A packet of which some bytes are still missing is never taken for a packet, nor for a reason to
-- close: the result is positive, "more data is needed", after any number of its first bytes.
pub parse-take-create :
    (h : SigHead) (b : List ℕ) (cmdid status : ℕ) (body : List ℕ) (n k : ℕ)
    → n ≤ length body
    → n < 2 ^ 16
    → k < length (create_sig_msg cmdid status body n)
    → is_positive (parse_sig_msg h b (take k (create_sig_msg cmdid status body n))).ret ≡ true
parse-take-create h b cmdid status body n k fits small short = rw (create_lem cmdid status body n) (
    parse-take_packet h b cmdid status (take n body) n k (omega (arith, length-take n body)) small
      (omega (arith, length-create cmdid status body n fits)))

-- Nothing is no packet.
pub parse-nil : (h : SigHead) (b : List ℕ) → is_positive (parse_sig_msg h b []).ret ≡ true
unfolding parse_sig_msg
parse-nil h b = refl

parse_body-never_closes :
    (h : SigHead) (b s : List ℕ) (n : ℕ)
    → h.bodylen < 65536
    → (parse_body h b s n).ret ≢ packet_err_close
unfolding parse_body
parse_body-never_closes h b s n small = ground arith

parse_head-never_closes :
    (h0 h : SigHead) (b s : List ℕ) (n : ℕ)
    → h.bodylen < 65536
    → (parse_head h0 h b s (int_of n)).ret ≢ packet_err_close
unfolding parse_head
parse_head-never_closes h0 h b s n small = elim (Bool-cases (ltb_ℤ (int_of n) (pos sig_headsize))) [
  | inl y ↦ rw y (λ e. cc)
  | inr z ↦ rw z (parse_body-never_closes h b s (pos_part (int_of n)) small)
]

-- Since the length of a body is a `uint16_t`, no input at all makes `parse_sig_msg` ask for the
-- connection to be closed.
pub parse-ne-packet_err_close :
    (h : SigHead) (b s : List ℕ) → (parse_sig_msg h b s).ret ≢ packet_err_close
unfolding parse_sig_msg get_u16
parse-ne-packet_err_close h b [] = λ e. cc
parse-ne-packet_err_close h b (b0 ∷ []) = λ e. cc
parse-ne-packet_err_close h b (b0 ∷ b1 ∷ []) = λ e. cc
parse-ne-packet_err_close h b (b0 ∷ b1 ∷ b2 ∷ []) = λ e. cc
parse-ne-packet_err_close h b (b0 ∷ b1 ∷ b2 ∷ b3 ∷ rest) =
    parse_head-never_closes h (record { bodylen = get_u16 b0 b1; cmdid = b2; status = b3 }) b
      (b0 ∷ b1 ∷ b2 ∷ b3 ∷ rest) _ (omega arith)
