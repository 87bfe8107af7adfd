-- ===== src/Session.antt =====
-- The receive side of a signalling connection: `check_req` and `svc_recv`, which
-- network/N/pfs_sig.c and network/S/pfs_sig.c share word for word. What a packet does is the
-- parameter `do_req`.
pub mod Serve
pub mod Chunks
mod Examples
use Prim.Native.Nat.{bit_or}
use pfs.Common.{
  ℕ, zero, suc, ◌+◌, Bool, true, false, Option, none, some, List, [], ◌∷◌, ◌==◌, if◌then◌else◌,
}
use pfs.Buffer.{Mybuff, mybuff_getdata, mybuff_skipdata}
use pfs.Protocol.{
  SigHead, ProCode, packet_err_close, pro_ok, head_len, total_len, is_positive, sig_headsize,
  Parsed, parse_sig_msg,
}

-- network/global.h: what a receive asks the event loop to do.
abbrev pub recv_close : ℕ
recv_close = 0x01

abbrev pub recv_add_epollin : ℕ
recv_add_epollin = 0x02

abbrev pub recv_add_epollout : ℕ
recv_add_epollout = 0x04

abbrev pub recv_send : ℕ
recv_send = 0x08

-- A connection: its receive buffer, and the state that requests change.
pub record Conn (S : Type 0) : Type 0 where
  pub recv_buff : Mybuff
  pub peer : S

-- ret == E_PACKET_ERR_CLOSE
abbrev pub is_close : ProCode → Bool
is_close packet_err_close = true
is_close pro_ok = false
is_close head_len = false
is_close total_len = false

-- `h0` and `b0` are what the head and the body hold before a packet is parsed.
module _ {S : Type 0} (do_req : SigHead → List ℕ → S → S × ℕ) (h0 : SigHead) (b0 : List ℕ) where
  -- A packet that is complete is served, and then its bytes are consumed.
  pub dispatch : Conn S → Parsed → Conn S × Option ℕ
  dispatch c p =
      if is_positive p.ret
      then (c, none)
      else if is_close p.ret
      then (c, some recv_close)
      else let r = do_req p.head p.body c.peer in
        (
          record c {
            recv_buff = mybuff_skipdata c.recv_buff (p.head.bodylen + sig_headsize);
            peer = r.0;
          },
          some r.1,
        )

  -- The result `none` is -1: more data is needed.
  pub check_req : Conn S → Conn S × Option ℕ
  check_req c = elim (mybuff_getdata c.recv_buff) [
    | none ↦ (c, none)
    | some s ↦ dispatch c (parse_sig_msg h0 b0 s)
  ]

  -- The loop of `svc_recv` with fuel, from the result so far; `none` means that the fuel ran out.
  pub recv_loop : ℕ → Conn S → ℕ → Option (Conn S × ℕ)
  recv_loop zero c ret = none
  recv_loop (suc fuel) c ret =
      let r = check_req c in
      elim r.1 [
        | none ↦ some (r.0, ret)
        | some sub ↦
            let rest = recv_loop fuel r.0 (bit_or ret sub) in
            if sub == recv_close then some (r.0, recv_close) else rest
      ]

  pub svc_recv : ℕ → Conn S → Option (Conn S × ℕ)
  svc_recv fuel c = recv_loop fuel c recv_add_epollin
