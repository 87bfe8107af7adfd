-- ===== src/EventLoop.antt =====
-- network/pfs_so.c: what the event loop does with a connection when it can be read or written. The
-- process that is served (`struct mylib`) is a record of its functions. What the system answers is
-- a list, from which each call takes its answer.
pub mod Transmit
pub mod FileStage
pub mod Sends
pub mod Progress
mod Examples
use pfs.Common.{
  ℕ, suc, ◌+◌, ◌%◌, ◌^◌, Bool, true, false, not, ◌&&◌, ◌||◌, Option, none, some, List, [], ◌∷◌,
  ◌++◌, length, take, drop, ltb, leb, ◌==◌, if◌then◌else◌, ℤ, pos, negsuc, min,
}
use pfs.Buffer.{
  Mybuff, Heap, mybuff_setdata, mybuff_getdata, mybuff_skipdata, mybuff_getfile, mybuff_skipfile,
  mybuff_reinit,
}
use pfs.Session.{recv_close, recv_add_epollin, recv_add_epollout, recv_send}

abbrev pub send_close : ℕ
send_close = 0x10

abbrev pub send_add_epollin : ℕ
send_add_epollin = 0x20

abbrev pub send_add_epollout : ℕ
send_add_epollout = 0x40

abbrev pub recv_add_epollall : ℕ
recv_add_epollall = 0x06

abbrev pub gsize : ℕ
gsize = 1073741824

-- The values of `errno` that are told apart.
pub data Errno : Type 0 where
  eintr eagain other : Errno

-- What `send` or `sendfile64` returns, and `errno` then. A result of 0 leaves `errno` as it was. An
-- answer depends on how many bytes the call asks for.
pub record Answer : Type 0 where
  pub ret : ℤ
  pub errno : Errno

-- n > 0
abbrev pub is_positive : ℤ → Bool
is_positive (pos n) = not (n == 0)
is_positive (negsuc n) = false

-- `struct conn`. `send_len` is the bit pattern of an `int`, `is_open` says that `fd` is not
-- negative, `epollout` that the last request to epoll was to wait until the socket can be written,
-- `wire` is what was sent, and `closed` lists the descriptors of files that were closed.
pub record Conn (U : Type 0) : Type 0 where
  pub is_open : Bool
  pub send_len : ℕ
  pub send_buff : Mybuff
  pub recv_buff : Mybuff
  pub epollout : Bool
  pub wire : List ℕ
  pub closed : List ℕ
  pub user : U

-- The functions that `sub_init_signalling` looks up; all but the first two may be missing.
-- `svc_check_send` says whether the result is negative.
pub record Mylib (U : Type 0) : Type 0 where
  pub svc_recv : Conn U → Conn U × ℕ
  pub svc_send : Conn U → Conn U × ℕ
  pub svc_finiconn : Option (Conn U → Conn U)
  pub svc_send_once : Option (Conn U → Conn U)
  pub svc_check_send : Option (Conn U → Bool)

-- Where a stage of `do_send` leaves off: the connection, `ret` and `n`.
pub record Stage (U : Type 0) : Type 0 where
  pub conn : Conn U
  pub ret : ℕ
  pub n : ℤ

module _ {U : Type 0} where
  -- EPOLLIN is always asked for.
  unfoldable pub modify_fd_event : Bool → Conn U → Conn U
  modify_fd_event out c = record c { epollout = out }

  pub add_fd_2_efd : ℕ → Heap → Heap → Conn U → Conn U
  add_fd_2_efd init_buff_size h h' c =
      let s = mybuff_reinit init_buff_size h c.send_buff in
      let r = mybuff_reinit init_buff_size h' c.recv_buff in
      record c {
        is_open = true;
        send_len = 0;
        send_buff = s.0;
        recv_buff = r.0;
        epollout = false;
        wire = [];
        closed = c.closed ++ (s.1 ++ r.1);
      }

  pub do_close : Mylib U → Conn U → Conn U
  do_close lib c =
      if not c.is_open
      then c
      else (let d : Conn U = elim lib.svc_finiconn [ none ↦ c | some f ↦ f c ] in
          record d { is_open = false })

  -- `n` bytes of the buffer were sent.
  unfoldable pub sent_data : List ℕ → ℕ → Conn U → Stage U
  sent_data bytes n c = record {
    conn = record c {
      send_buff = mybuff_skipdata c.send_buff n;
      send_len = (c.send_len + n) % 2 ^ 32;
      wire = c.wire ++ take n bytes;
    };
    ret = if ltb n (length bytes) then send_add_epollout else send_add_epollin;
    n = pos n;
  }

  abbrev pub not_sent : Conn U → Answer → Stage U
  not_sent c a = record {
    conn = c;
    ret = elim a.errno [ eagain ↦ send_add_epollout | _ ↦ send_close ];
    n = a.ret;
  }

  -- The loop around `send`. Without an answer the call has not returned.
  unfoldable pub send_data : List ℕ → List (ℕ → Answer) → Conn U → Option (Stage U)
  send_data bytes [] c = none
  send_data bytes (answer ∷ ans) c =
      let a = answer (length bytes) in
      let again = send_data bytes ans c in
      let fails : Option (Stage U) = elim a.errno [ eintr ↦ again | _ ↦ some (not_sent c a) ] in
      elim a.ret [ pos n ↦ if n == 0 then fails else some (sent_data bytes n c) | negsuc _ ↦ fails ]

  -- `n` bytes of the file were sent, from `start` on; `len` are missing.
  unfoldable pub sent_file : List ℕ → ℕ → ℕ → ℕ → Conn U → Stage U
  sent_file file start len n c =
      let b = mybuff_skipfile c.send_buff n in
      record {
        conn = record c {
          send_buff = b.0;
          send_len = (c.send_len + n) % 2 ^ 32;
          wire = c.wire ++ take n (drop start file);
          closed = c.closed ++ b.1;
        };
        ret = if ltb n len then send_add_epollout else send_add_epollin;
        n = pos n;
      }

  -- Nothing was sent: at the end of the file the process is asked whether that is right.
  pub not_sent_file : Mylib U → Conn U → Answer → Stage U
  not_sent_file lib c a =
      let s = not_sent c a in
      let asked : Stage U = elim lib.svc_check_send [
        | none ↦ s
        | some negative ↦ if negative c then record s { ret = send_close } else s
      ] in
      elim a.ret [ pos n ↦ if n == 0 then asked else s | negsuc _ ↦ s ]

  -- The loop around `sendfile64`.
  unfoldable pub send_file :
      Mylib U → List ℕ → ℕ → ℕ → List (ℕ → Answer) → Conn U → Option (Stage U)
  send_file lib file start len [] c = none
  send_file lib file start len (answer ∷ ans) c =
      let a = answer (if ltb gsize len then gsize else len) in
      let again = send_file lib file start len ans c in
      let fails : Option (Stage U) = elim a.errno [
        | eintr ↦ again
        | _ ↦ some (not_sent_file lib c a)
      ] in
      elim a.ret [
        | pos n ↦ if n == 0 then fails else some (sent_file file start len n c)
        | negsuc _ ↦ fails
      ]

  -- The first stage: the bytes of the buffer.
  unfoldable pub data_stage : List (ℕ → Answer) → Conn U → Option (Stage U)
  data_stage ans c = elim (mybuff_getdata c.send_buff) [
    | none ↦ some (record { conn = c; ret = send_add_epollin; n = pos 0 })
    | some bytes ↦ send_data bytes ans c
  ]

  -- The second stage, when all of them were sent: the file. `files` says what a descriptor shows.
  unfoldable pub file_stage :
      Mylib U → (ℕ → List ℕ) → List (ℕ → Answer) → Stage U → Option (Stage U)
  file_stage lib files ans s =
      if s.ret == send_add_epollin
      then elim (mybuff_getfile s.conn.send_buff) [
        | none ↦ some s
        | some (fd, start, len) ↦ send_file lib (files fd) start len ans s.conn
      ]
      else some s

  unfoldable pub transmit :
      Mylib U → (ℕ → List ℕ) → List (ℕ → Answer) → List (ℕ → Answer) → Conn U → Option (Stage U)
  transmit lib files ans fans c = elim (data_stage ans c) [
    | none ↦ none
    | some s ↦ file_stage lib files fans s
  ]

  unfoldable pub send_once : Mylib U → ℤ → Conn U → Conn U
  send_once lib n c = elim lib.svc_send_once [
    | none ↦ c
    | some f ↦ if is_positive n then f c else c
  ]

  -- All is sent, and the process is told.
  pub drained : Mylib U → Conn U → Conn U
  drained lib c = let r = lib.svc_send c in if r.1 == send_close then do_close lib r.0 else r.0

  -- What follows the stages.
  pub after_send : Mylib U → Stage U → Conn U
  after_send lib s =
      if s.ret == send_close
      then do_close lib s.conn
      else if s.ret == send_add_epollin
      then drained lib (send_once lib s.n (modify_fd_event false s.conn))
      else send_once lib s.n (modify_fd_event true s.conn)

  pub do_send :
      Mylib U → (ℕ → List ℕ) → List (ℕ → Answer) → List (ℕ → Answer) → Conn U → Option (Conn U)
  do_send lib files ans fans c =
      if not c.is_open
      then some c
      else elim (transmit lib files ans fans c) [ none ↦ none | some s ↦ some (after_send lib s) ]

-- What `recv` gives: bytes, the end of the stream, or an error.
pub data Received : Type 0 where
  got : List ℕ → Received
  end_of_stream : Received
  failed : Errno → Received

-- How the loop around `recv` ends: the system has not answered, memory was missing, the connection
-- is to be closed, or its bytes are to be served.
pub data RecvEnd (U : Type 0) : Type 0 where
  unanswered : RecvEnd U
  faulted : RecvEnd U
  shut : Conn U → RecvEnd U
  serve : Conn U → RecvEnd U

module _ {U : Type 0} (init_buff_size : ℕ) (h : Heap) where
  -- A read that fills `iobuf` is followed by another one.
  pub recv_loop : List Received → Conn U → RecvEnd U
  recv_loop [] c = unanswered
  recv_loop (got xs ∷ rs) c = elim (mybuff_setdata init_buff_size h c.recv_buff xs) [
    | none ↦ faulted
    | some b ↦ elim (length xs == init_buff_size) [
      | true ↦ recv_loop rs (record c { recv_buff = b })
      | false ↦ serve (record c { recv_buff = b })
    ]
  ]
  recv_loop (end_of_stream ∷ rs) c = shut c
  recv_loop (failed eintr ∷ rs) c = recv_loop rs c
  recv_loop (failed eagain ∷ rs) c = serve (modify_fd_event false c)
  recv_loop (failed other ∷ rs) c = shut c

  -- What the process asks for is done.
  pub after_recv :
      Mylib U → (ℕ → List ℕ) → List (ℕ → Answer) → List (ℕ → Answer) → Conn U × ℕ → Option (Conn U)
  after_recv lib files ans fans (c, ret) =
      if ret == recv_send
      then do_send lib files ans fans c
      else if ret == recv_add_epollin
      then some (modify_fd_event false c)
      else if ret == recv_add_epollout || ret == recv_add_epollall
      then some (modify_fd_event true c)
      else if ret == recv_close
      then some (do_close lib c)
      else some c

  pub do_recv :
      Mylib U
      → (ℕ → List ℕ)
      → List Received
      → List (ℕ → Answer)
      → List (ℕ → Answer)
      → Conn U
      → Option (Conn U)
  do_recv lib files rs ans fans c = if not c.is_open then some c else elim (recv_loop rs c) [
    | unanswered ↦ none
    | faulted ↦ none
    | shut d ↦ some (do_close lib d)
    | serve d ↦ after_recv lib files ans fans (lib.svc_recv d)
  ]

  -- Neither EPOLLIN nor EPOLLOUT is an error of the connection.
  pub do_process :
      Mylib U
      → (ℕ → List ℕ)
      → Bool
      → Bool
      → List Received
      → List (ℕ → Answer)
      → List (ℕ → Answer)
      → List (ℕ → Answer)
      → List (ℕ → Answer)
      → Conn U
      → Option (Conn U)
  do_process lib files epollin epollout rs ans fans ans' fans' c =
      let read = if epollin then do_recv lib files rs ans fans c else some c in
      if not (epollin || epollout) then some (do_close lib c) else elim read [
        | none ↦ none
        | some d ↦ if epollout then do_send lib files ans' fans' d else some d
      ]
