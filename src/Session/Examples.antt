-- ===== src/Session/Examples.antt =====
-- A connection of network/N/pfs_sig.c that receives two packets.
use pfs.Common.{ℕ, ◌+◌, refl, none, some, List, [], ◌∷◌, length, true, arith}
use pfs.Buffer.{Mybuff, Heap}
use pfs.Buffer.Data.{view}
use pfs.Protocol.{SigHead, parse_sig_msg, create_sig_msg, put_u16}
use pfs.Session.{Conn, svc_recv, recv_add_epollin}
use pfs.Session.Serve.{Msg, serve, Ends, svc_recv-Ends}
use pfs.Session.Chunks.{handle_all, deliver_all, Quiet, deliver_all-Quiet}

-- A request adds its command to the log.
abbrev log_cmd : SigHead → List ℕ → List ℕ → List ℕ × ℕ
log_cmd h body seen = (h.cmdid ∷ seen, recv_add_epollin)

abbrev head : SigHead
head = record { bodylen = 0; cmdid = 0; status = 0 }

abbrev two_packets : List Msg
two_packets =
    record { cmdid = 1; status = 0; body = 7 ∷ 8 ∷ [] }
    ∷ record { cmdid = 2; status = 1; body = [] }
    ∷ []

-- The packets, and three bytes of a head.
abbrev buffer : Mybuff
buffer = record {
  block = some (0 ∷ 2 ∷ 1 ∷ 0 ∷ 7 ∷ 8 ∷ 0 ∷ 0 ∷ 2 ∷ 1 ∷ 0 ∷ 5 ∷ 3 ∷ 99 ∷ 99 ∷ []);
  size = 15;
  len = 13;
  fd = none;
  foffset = 0;
  flen = 0;
}

abbrev receiving : Conn (List ℕ)
receiving = record { recv_buff = buffer; peer = [] }

svc_recv-Ends_example :
    Ends log_cmd head []
      (serve log_cmd head [] [] recv_add_epollin two_packets)
      (0 ∷ 5 ∷ 3 ∷ [])
      (svc_recv log_cmd head [] (length (view buffer) + 1) receiving)
unfolding create_sig_msg put_u16 parse_sig_msg
svc_recv-Ends_example =
    svc_recv-Ends log_cmd head [] receiving two_packets (0 ∷ 5 ∷ 3 ∷ [])
      (refl, omega arith, omega arith) (omega arith, (omega arith, tt)) refl refl (omega arith)

abbrev heap : Heap
heap = record { malloc_ok = true; realloc_ok = true; junk = 0 }

abbrev quiet : Conn (List ℕ)
quiet = record {
  recv_buff = record { block = none; size = 0; len = 0; fd = none; foffset = 0; flen = 0 };
  peer = [];
}

-- The same packets, cut inside of the first body and of the second head.
abbrev pieces : List (List ℕ)
pieces = (0 ∷ 2 ∷ 1 ∷ 0 ∷ 7 ∷ []) ∷ (8 ∷ 0 ∷ []) ∷ (0 ∷ 2 ∷ 1 ∷ []) ∷ []

deliver_all-Quiet_example :
    Quiet log_cmd head []
      (handle_all log_cmd head [] [] two_packets)
      (deliver_all log_cmd head [] 1024 heap quiet pieces)
unfolding create_sig_msg put_u16
deliver_all-Quiet_example =
    deliver_all-Quiet log_cmd head [] 1024 heap (omega arith) (omega arith) refl refl quiet pieces
      two_packets refl refl (omega arith, (omega arith, tt)) (refl, (refl, tt)) refl
      (omega arith, (omega arith, (omega arith, tt)))
