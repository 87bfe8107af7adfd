-- ===== src/Protocol.antt =====
-- lib/protocol.c and lib/protocol.h: the signalling packets, a head of four bytes and a body.
pub mod RoundTrip
mod Examples
use pfs.Common.{
  ℕ, zero, suc, ◌+◌, ◌-◌, ◌*◌, ◌/◌, ◌%◌, ◌^◌, Bool, true, false, List, [], ◌∷◌, ◌++◌, length, take,
  drop, ltb, leb, ◌==◌, if◌then◌else◌, ℤ, pos, negsuc, pos_part, ltb_ℤ,
}

abbrev pub sig_headsize : ℕ
sig_headsize = 4

abbrev pub max_sig_body : ℕ
max_sig_body = 65536

-- The results of `parse_sig_msg`: only `head_len` and `total_len` are positive numbers.
pub data ProCode : Type 0 where
  packet_err_close pro_ok head_len total_len : ProCode

-- ret > 0
abbrev pub is_positive : ProCode → Bool
is_positive packet_err_close = false
is_positive pro_ok = false
is_positive head_len = true
is_positive total_len = true

pub record SigHead : Type 0 where
  pub bodylen : ℕ
  pub cmdid : ℕ
  pub status : ℕ

-- Two bytes in network order: `htons` and a copy, and a copy and `ntohs`.
unfoldable pub put_u16 : ℕ → List ℕ
put_u16 n = n / 256 % 256 ∷ n % 256 ∷ []

unfoldable pub get_u16 : ℕ → ℕ → ℕ
get_u16 hi lo = (hi * 256 + lo) % 2 ^ 16

-- What a call of `parse_sig_msg` leaves: its result, the head and the body.
pub record Parsed : Type 0 where
  pub ret : ProCode
  pub head : SigHead
  pub body : List ℕ

-- memcpy into the start of the body
abbrev pub copy_body : List ℕ → List ℕ → List ℕ
copy_body xs body = xs ++ drop (length xs) body

-- The checks behind the head, whose length is in host order already.
unfoldable pub parse_body : SigHead → List ℕ → List ℕ → ℕ → Parsed
parse_body h b s slen =
    if leb max_sig_body h.bodylen
    then record { ret = packet_err_close; head = h; body = b }
    else if ltb slen (sig_headsize + h.bodylen)
    then record { ret = total_len; head = h; body = b }
    else if slen == sig_headsize
    then record { ret = pro_ok; head = h; body = b }
    else record {
      ret = pro_ok;
      head = h;
      body = copy_body (take h.bodylen (drop sig_headsize s)) b;
    }

-- The `int` that a `size_t` becomes.
abbrev pub int_of : ℕ → ℤ
int_of n = let m = n % 2 ^ 32 in if ltb m (2 ^ 31) then pos m else negsuc (2 ^ 32 - m - 1)

-- The checks from the first one on: `h` is what the first four bytes are, and `h0` what the head
-- was.
unfoldable pub parse_head : SigHead → SigHead → List ℕ → List ℕ → ℤ → Parsed
unfolding parse_body
parse_head h0 h b s slen =
    if ltb_ℤ slen (pos sig_headsize)
    then record { ret = head_len; head = h0; body = b }
    else parse_body h b s (pos_part slen)

-- The message `s` is given with its length, which its callers have as `size_t` and which is an
-- `int` here. The first four bytes are the head.
unfoldable pub parse_sig_msg : SigHead → List ℕ → List ℕ → Parsed
parse_sig_msg h b (b0 ∷ b1 ∷ b2 ∷ b3 ∷ rest) =
    parse_head h (record { bodylen = get_u16 b0 b1; cmdid = b2; status = b3 }) b
      (b0 ∷ b1 ∷ b2 ∷ b3 ∷ rest) (int_of (length (b0 ∷ b1 ∷ b2 ∷ b3 ∷ rest)))
parse_sig_msg h b _ = record { ret = head_len; head = h; body = b }

-- The bytes that are written to the output; their number is the result.
unfoldable pub create_sig_msg : ℕ → ℕ → List ℕ → ℕ → List ℕ
unfolding put_u16
create_sig_msg cmdid status body bodylen =
    if bodylen == 0
    then put_u16 bodylen ++ cmdid ∷ status ∷ []
    else (put_u16 bodylen ++ cmdid ∷ status ∷ []) ++ take bodylen body
