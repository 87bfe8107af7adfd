-- ===== src/EventLoop/Examples.antt =====
-- A connection of network/pfs_so.c with two bytes to send, and then a file of three.
use pfs.Common.{
  ℕ, ◌≤◌, ◌≡◌, refl, true, false, none, some, List, [], ◌∷◌, ◌==◌, if◌then◌else◌, pos, pos_part,
  inl, inr, length, arith,
}
use pfs.Buffer.{Mybuff, mybuff_getfile}
use pfs.EventLoop.{Answer, eagain, Conn, Mylib, send_add_epollin, do_send}
use pfs.EventLoop.Transmit.{pending}
use pfs.EventLoop.Sends.{Sent, do_send-Sent}
use pfs.EventLoop.Progress.{transmits, AllTake, transmits-AllSent}

abbrev files : ℕ → List ℕ
files fd = 7 ∷ 8 ∷ 9 ∷ []

abbrev lib : Mylib (Unit {0})
lib = record {
  svc_recv = λ c. (c, 2);
  svc_send = λ c. (c, send_add_epollin);
  svc_finiconn = none;
  svc_send_once = none;
  svc_check_send = none;
}

abbrev buffer : ℕ → Mybuff
buffer n = record {
  block = some (1 ∷ 2 ∷ 0 ∷ 0 ∷ []);
  size = 4;
  len = n;
  fd = some 5;
  foffset = 0;
  flen = 3;
}

abbrev connection : Mybuff → Conn (Unit {0})
connection b = record {
  is_open = true;
  send_len = 0;
  send_buff = b;
  recv_buff = record { block = none; size = 0; len = 0; fd = none; foffset = 0; flen = 0 };
  epollout = false;
  wire = [];
  closed = [];
  user = tt;
}

-- One byte of each call.
abbrev one_byte : ℕ → Answer
one_byte k = record { ret = pos (if k == 0 then 0 else 1); errno = eagain }

one_byte-le : (k m : ℕ) → 1 ≤ m → (pos_part (one_byte k).ret ≤ k) × (pos_part (one_byte k).ret ≤ m)
one_byte-le k m h = (ground arith, ground arith)

one_byte_ret : (k : ℕ) → 1 ≤ k → (one_byte k).ret ≡ pos 1
one_byte_ret k h = ground arith

do_send-Sent_example :
    Sent files lib
      (connection (buffer 2))
      (do_send lib files (one_byte ∷ []) (one_byte ∷ []) (connection (buffer 2)))
do_send-Sent_example =
    do_send-Sent files lib (connection (buffer 2)) (one_byte ∷ []) (one_byte ∷ []) refl
      (refl, omega arith, omega arith) (λ k. one_byte-le k 2 (omega arith), tt)
      (λ k. one_byte-le k 3 (omega arith), tt)

abbrev one_left : Conn (Unit {0})
one_left = connection (record (buffer 1) { fd = none })

no_file : mybuff_getfile one_left.send_buff ≡ none
unfolding mybuff_getfile
no_file = refl

one_left-length : length (pending files one_left) ≤ 1
unfolding pending
one_left-length = omega arith

one_left-AllTake : AllTake files lib (((one_byte ∷ []), []) ∷ []) one_left
one_left-AllTake = (
  record {
    honest = (λ k. one_byte-le k 1 (omega arith), tt);
    honest_file = tt;
    willing = inr (λ k h. (1, one_byte_ret k h, omega arith));
    willing_file = inl no_file;
  },
  λ s e. tt,
)

transmits-AllSent_example :
    (d : Conn (Unit {0})) × (transmits files lib (((one_byte ∷ []), []) ∷ []) one_left ≡ some d)
    × (pending files d ≡ [])
transmits-AllSent_example =
    transmits-AllSent files lib (((one_byte ∷ []), []) ∷ []) one_left
      (refl, omega arith, omega arith) one_left-AllTake one_left-length
