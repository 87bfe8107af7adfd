-- ===== src/Upload/Digest.antt =====
-- Two limits of the receive of network/U/pfs_up.c: what the running digest is given, and files of
-- 4 GiB and more.
use pfs.Common.{
  ℕ, ◌+◌, ◌-◌, ◌*◌, ◌%◌, ◌^◌, ◌≤◌, ◌<◌, ◌≡◌, refl, ap, ◌∙◌, subst, some, List, ◌++◌, length, take,
  drop, arith, append-nil, lt→ltb, ==_refl,
}
use pfs.Buffer.{mybuff_getdata}
use pfs.Buffer.Data.{view, IsValid, getdata-skipdata}
use pfs.Buffer.Queue.{length-view}
use pfs.Buffer.Pointer.{pointer_all, pointer_part}
use pfs.Upload.{Upload, Sys, take_bytes, recv_bytes, recv_file, remain_limit}
use pfs.Upload.Receive.{Receiving, take_bytes-Receiving, recv_file_full}
use pfs.Session.{recv_add_epollin}

-- When a write takes all bytes of the buffer, the digest is given these bytes. When at least as
-- many bytes stay as were written, it is given the next ones in place of those written, since the
-- buffer has been moved.
pub take_bytes-ctx :
    (sys : Sys) (t : ℕ) (u : Upload)
    → IsValid u.recv_buff
    → ((take_bytes sys t (view u.recv_buff) (length (view u.recv_buff)) u).peer.ctx
        ≡ u.peer.ctx ++ view u.recv_buff)
      × ((n : ℕ)
          → 0 < n
          → n + n ≤ length (view u.recv_buff)
          → (take_bytes sys t (view u.recv_buff) n u).peer.ctx
            ≡ u.peer.ctx ++ take n (drop n (view u.recv_buff)))
unfolding take_bytes
take_bytes-ctx sys t u valid = (
  ap (λ xs. u.peer.ctx ++ xs) (rw (length-view u.recv_buff valid) (pointer_all u.recv_buff)),
  λ n pos h. ap (λ xs. u.peer.ctx ++ xs) (pointer_part u.recv_buff n valid pos h),
)

take_bytes_processlen :
    (sys : Sys) (t : ℕ) (u : Upload)
    → ((take_bytes sys t (view u.recv_buff) 0 u).tasks.tasks t).sub.processlen
      ≡ (u.tasks.tasks t).sub.processlen
unfolding take_bytes
take_bytes_processlen sys t u = rw (==_refl t) refl

limit_zero : (a b k : ℕ) → a ≡ b + 2 ^ 32 * k → remain_limit a b ≡ 0
unfolding remain_limit
limit_zero a b k e = let m : (a + 2 ^ 64 - b) % 2 ^ 32 ≡ 0 = omega arith in ground arith

module _ (md5 : List ℕ → List ℕ) (domain : List ℕ) where
  recv_bytes_zero :
      (sys : Sys) (t : ℕ) (u : Upload)
      → 0 < length (view u.recv_buff)
      → remain_limit (u.tasks.tasks t).sub.processlen (u.tasks.tasks t).sub.lastlen ≡ 0
      → sys.written 0 ≡ some 0
      → (u.tasks.tasks t).sub.lastlen < (u.tasks.tasks t).sub.processlen
      → recv_bytes md5 domain sys t (view u.recv_buff) u
        ≡ (take_bytes sys t (view u.recv_buff) 0 u, recv_add_epollin)
  unfolding recv_bytes
  recv_bytes_zero sys t u full z w more = ground arith

  -- A receive that is a multiple of 4 GiB, but not nothing, short of the announced length makes no
  -- progress although there are bytes to read: file and buffer stay as they are, and the
  -- connection waits for more to read. So does every later receive.
  pub recv_file_stalls :
      (sys : Sys) (t k : ℕ) (got : List ℕ) (u : Upload)
      → Receiving t got u
      → 0 < length (view u.recv_buff)
      → sys.written 0 ≡ some 0
      → (u.tasks.tasks t).sub.processlen ≡ length got + 2 ^ 32 * (k + 1)
      → ((recv_file md5 domain sys u).1 ≡ recv_add_epollin)
        × Receiving t got (recv_file md5 domain sys u).0
        × (view (recv_file md5 domain sys u).0.recv_buff ≡ view u.recv_buff)
        × (((recv_file md5 domain sys u).0.tasks.tasks t).sub.processlen
            ≡ (u.tasks.tasks t).sub.processlen)
  recv_file_stalls sys t k got u r full w e =
      let g = (getdata-skipdata u.recv_buff 0 r.valid).0 in
      let some_bytes : mybuff_getdata u.recv_buff ≡ some (view u.recv_buff) =
        g ∙ rw (lt→ltb 0 _ full) refl in
      let v : Upload = record u { peer = record (u.peer) { hbtime = sys.env.now } } in
      let r' : Receiving t got v = record {
        task = r.task;
        content = r.content;
        at_end = r.at_end;
        lastlen = r.lastlen;
        valid = r.valid;
      } in
      let s = take_bytes-Receiving sys t 0 got v r' (omega arith) in
      rw
        (
          recv_file_full md5 domain sys t u (view u.recv_buff) r.task some_bytes,
          recv_bytes_zero sys t v full (limit_zero _ _ (k + 1) (omega (arith, e, r.lastlen))) w
              (omega (arith, e, r.lastlen)),
        )
        (
          refl,
          subst (λ x. Receiving t x (take_bytes sys t (view u.recv_buff) 0 v)) (append-nil got)
              (s.0),
          s.1,
          take_bytes_processlen sys t v,
        )
