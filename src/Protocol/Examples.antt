-- ===== src/Protocol/Examples.antt =====
-- Packets of lib/protocol.c.
use pfs.Common.{◌≡◌, ◌≢◌, true, [], ◌∷◌, ◌++◌, take, arith}
use pfs.Protocol.{
  SigHead, parse_sig_msg, create_sig_msg, pro_ok, packet_err_close, is_positive, copy_body,
}
use pfs.Protocol.RoundTrip.{head_of, parse-create, parse-take-create, parse-ne-packet_err_close}

abbrev head : SigHead
head = head_of 0 0 0

-- Four bytes of a body of five are sent, and the start of another packet follows.
parse-create_example :
    parse_sig_msg head
      (8 ∷ 8 ∷ 8 ∷ 8 ∷ 8 ∷ 8 ∷ [])
      (create_sig_msg 17 1 (1 ∷ 2 ∷ 3 ∷ 4 ∷ 5 ∷ []) 4 ++ (0 ∷ 9 ∷ []))
    ≡ record {
      ret = pro_ok;
      head = head_of 17 1 4;
      body = copy_body (take 4 (1 ∷ 2 ∷ 3 ∷ 4 ∷ 5 ∷ [])) (8 ∷ 8 ∷ 8 ∷ 8 ∷ 8 ∷ 8 ∷ []);
    }
unfolding create_sig_msg
parse-create_example =
    parse-create head (8 ∷ 8 ∷ 8 ∷ 8 ∷ 8 ∷ 8 ∷ []) 17 1 (1 ∷ 2 ∷ 3 ∷ 4 ∷ 5 ∷ []) 4 (0 ∷ 9 ∷ [])
      (omega arith) (omega arith) (omega arith)

parse-take-create_example :
    is_positive (parse_sig_msg head [] (take 6 (create_sig_msg 17 1 (1 ∷ 2 ∷ 3 ∷ []) 3))).ret ≡ true
unfolding create_sig_msg
parse-take-create_example =
    parse-take-create head [] 17 1 (1 ∷ 2 ∷ 3 ∷ []) 3 6 (omega arith) (omega arith) (omega arith)

-- The largest length that a head can hold.
parse-ne-packet_err_close_example :
    (parse_sig_msg head [] (255 ∷ 255 ∷ 17 ∷ 0 ∷ 1 ∷ [])).ret ≢ packet_err_close
parse-ne-packet_err_close_example = parse-ne-packet_err_close head [] (255 ∷ 255 ∷ 17 ∷ 0 ∷ 1 ∷ [])
