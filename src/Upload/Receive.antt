-- ===== src/Upload/Receive.antt =====
-- The bytes of a file on their way from the connection to the temporary file (network/U/pfs_up.c).
use pfs.Common.{
  ℕ, ◌+◌, ◌-◌, ◌%◌, ◌^◌, ◌≤◌, ◌<◌, ◌≡◌, refl, sym, ap, ◌∙◌, subst, none, some, List, ◌++◌, ltb, leb,
  ◌==◌, if◌then◌else◌, length, take, drop, arith, inl, inr, ◌⊎◌, Bool-cases, Option-cases, ==_refl,
  leb→le, leb→lt, length-append, length-take,
}
use pfs.Buffer.{mybuff_getdata}
use pfs.Buffer.Data.{view, IsValid, getdata-skipdata}
use pfs.LocalFile.Store.{write_file-append}
use pfs.LocalFile.{write_file}
use pfs.Upload.{
  Upload, Sys, take_bytes, recv_bytes, recv_file, send_rsp, create_push_rsp_err, finish_file,
  remain_limit,
}
use pfs.Task.Types.{oper_up_req}
use pfs.Session.{recv_add_epollin, recv_add_epollout}

-- The connection receives the file of task `t`, and has written `got` of it.
pub record Receiving (t : ℕ) (got : List ℕ) (u : Upload) : Type 0 where
  pub task : u.peer.recvtask ≡ some t
  pub content : u.disk.content (u.disk.path u.peer.local_in_fd) ≡ some got
  pub at_end : u.disk.offset u.peer.local_in_fd ≡ length got
  pub lastlen : (u.tasks.tasks t).sub.lastlen ≡ length got
  pub valid : IsValid u.recv_buff

pub take_bytes-Receiving :
    (sys : Sys) (t n : ℕ) (got : List ℕ) (u : Upload)
    → Receiving t got u
    → n ≤ length (view u.recv_buff)
    → Receiving t (got ++ take n (view u.recv_buff)) (take_bytes sys t (view u.recv_buff) n u)
      × (view (take_bytes sys t (view u.recv_buff) n u).recv_buff ≡ drop n (view u.recv_buff))
unfolding take_bytes
take_bytes-Receiving sys t n got u r h =
    let w =
      write_file-append u.peer.local_in_fd (take n (view u.recv_buff)) got u.disk r.content
        r.at_end in
    let s = (getdata-skipdata u.recv_buff n r.valid).1 in
    (
      record {
        task = r.task;
        content =
            subst
              (λ p.
                (write_file u.peer.local_in_fd (take n (view u.recv_buff)) u.disk).content p
                ≡ some (got ++ take n (view u.recv_buff)))
              (sym w.2) w.0;
        at_end = w.1;
        lastlen = rw (==_refl t) (
            omega (
              arith,
              r.lastlen,
              length-append got (take n (view u.recv_buff)),
              length-take n (view u.recv_buff),
            ));
        valid = s.valid;
      },
      s.rest,
    )

-- The system writes at most what it is asked to.
abbrev pub Writes : Sys → Type 0
Writes sys = (count n : ℕ) → sys.written count ≡ some n → n ≤ count

-- What one receive of a connection that receives a file comes to.
pub data Receives (md5 : List ℕ → List ℕ) (domain : List ℕ) (sys : Sys) (t processlen : ℕ)
    (got : List ℕ) (u : Upload) (r : Upload × ℕ) : Type 0 where
  -- There is nothing to read, or the write failed: nothing moves.
  waits :
      (r.1 ≡ recv_add_epollin) ⊎ (r.1 ≡ recv_add_epollout)
      → Receiving t got r.0
      → view r.0.recv_buff ≡ view u.recv_buff
      → Receives md5 domain sys t processlen got u r
  -- Some bytes went to the file, and more are to come.
  goes_on :
      (n : ℕ)
      → r.1 ≡ recv_add_epollin
      → Receiving t (got ++ take n (view u.recv_buff)) r.0
      → view r.0.recv_buff ≡ drop n (view u.recv_buff)
      → length (got ++ take n (view u.recv_buff)) < processlen
      → Receives md5 domain sys t processlen got u r
  -- The last bytes went to the file.
  completes :
      (n : ℕ) (u' : Upload)
      → Receiving t (got ++ take n (view u.recv_buff)) u'
      → view u'.recv_buff ≡ drop n (view u.recv_buff)
      → length (got ++ take n (view u.recv_buff)) ≡ processlen
      → r ≡ finish_file md5 domain sys t u'
      → Receives md5 domain sys t processlen got u r

at_peer :
    (md5 : List ℕ → List ℕ) (domain : List ℕ) (sys : Sys) (t processlen : ℕ) (got : List ℕ)
    (u v : Upload)
    → v.recv_buff ≡ u.recv_buff
    → (r : Upload × ℕ) → Receives md5 domain sys t processlen got v r
    → Receives md5 domain sys t processlen got u r
at_peer md5 domain sys t processlen got u v e r (waits a b c) = waits a b (c ∙ ap view e)
at_peer md5 domain sys t processlen got u v e r (goes_on n a b c d) =
    goes_on n a (rw e at b) (rw e at c) (rw e at d)
at_peer md5 domain sys t processlen got u v e r (completes n w a b c d) =
    completes n w (rw e at a) (rw e at b) (rw e at c) d

limit_mod : (a b : ℕ) → b < a → a < b + 2 ^ 32 → (a + 2 ^ 64 - b) % 2 ^ 32 ≡ a - b
limit_mod a b h k = omega arith

abbrev count : ℕ → ℕ → ℕ → ℕ
count len a b = if leb len (remain_limit a b) then len else remain_limit a b

-- No write is asked for more than what is missing.
count_le : (len a b : ℕ) → b < a → a < b + 2 ^ 32 → len < 2 ^ 31 → count len a b ≤ a - b
unfolding remain_limit
count_le len a b h k l = let m = limit_mod a b h k in ground arith

count_le_len : (len a b : ℕ) → count len a b ≤ len
count_le_len len a b = ground arith

module _ (md5 : List ℕ → List ℕ) (domain : List ℕ) where
  send_rsp-Receiving :
      (t : ℕ) (got body : List ℕ) (u : Upload)
      → Receiving t got u
      → Receiving t got (send_rsp body u)
  unfolding send_rsp
  send_rsp-Receiving t got body u r = record {
    task = r.task;
    content = r.content;
    at_end = r.at_end;
    lastlen = r.lastlen;
    valid = r.valid;
  }

  send_rsp-view : (body : List ℕ) (u : Upload) → view (send_rsp body u).recv_buff ≡ view u.recv_buff
  unfolding send_rsp
  send_rsp-view body u = refl

  recv_bytes-Receives :
      (sys : Sys) (t : ℕ) (got : List ℕ) (u : Upload)
      → Receiving t got u
      → Writes sys
      → length got < (u.tasks.tasks t).sub.processlen
      → (u.tasks.tasks t).sub.processlen < length got + 2 ^ 32
      → length (view u.recv_buff) < 2 ^ 31
      → Receives md5 domain sys t
          (u.tasks.tasks t).sub.processlen
          got
          u
          (recv_bytes md5 domain sys t (view u.recv_buff) u)
  unfolding recv_bytes create_push_rsp_err
  recv_bytes-Receives sys t got u r writes more near small =
      let c =
        count (length (view u.recv_buff)) (u.tasks.tasks t).sub.processlen
          (u.tasks.tasks t).sub.lastlen in
      let last = r.lastlen in
      let le : c ≤ (u.tasks.tasks t).sub.processlen - (u.tasks.tasks t).sub.lastlen =
        count_le (length (view u.recv_buff)) (u.tasks.tasks t).sub.processlen
          (u.tasks.tasks t).sub.lastlen (omega (arith, more, last)) (omega (arith, near, last))
          small in
      let le' : c ≤ length (view u.recv_buff) =
        count_le_len (length (view u.recv_buff)) (u.tasks.tasks t).sub.processlen
          (u.tasks.tasks t).sub.lastlen in
      elim (Option-cases (sys.written c)) [
        | inl none_written ↦
            rw (none_written, recv_bytes)
              (elim (Bool-cases ((u.tasks.tasks t).sub.oper_type == oper_up_req)) [
                | inl y ↦
                    rw y (waits (inr refl) (send_rsp-Receiving t got _ u r) (send_rsp-view _ u))
                | inr z ↦ rw z (waits (inr refl) r refl)
              ])
        | inr (n, some_written) ↦
            let w = writes c n some_written in
            let s = take_bytes-Receiving sys t n got u r (omega (arith, w, le')) in
            let long : length (got ++ take n (view u.recv_buff))
                ≡ (u.tasks.tasks t).sub.lastlen + n =
              omega (
                arith,
                last,
                w,
                le',
                length-append got (take n (view u.recv_buff)),
                length-take n (view u.recv_buff),
              ) in
            rw (some_written, recv_bytes)
              (elim (Bool-cases
                (leb (u.tasks.tasks t).sub.processlen ((u.tasks.tasks t).sub.lastlen + n))) [
                  | inl y ↦ rw y (
                      completes n (take_bytes sys t (view u.recv_buff) n u) s.0 s.1
                        (omega (
                          arith,
                          long,
                          leb→le (u.tasks.tasks t).sub.processlen
                              ((u.tasks.tasks t).sub.lastlen + n) y,
                          w,
                          le,
                          last,
                          more,
                        ))
                        refl)
                  | inr z ↦ rw z (
                      goes_on n refl s.0 s.1 (
                        omega (
                          arith,
                          long,
                          leb→lt (u.tasks.tasks t).sub.processlen
                              ((u.tasks.tasks t).sub.lastlen + n) z,
                        )))
                ])
      ]

  pub recv_file_full :
      (sys : Sys) (t : ℕ) (u : Upload) (bytes : List ℕ)
      → u.peer.recvtask ≡ some t
      → mybuff_getdata u.recv_buff ≡ some bytes
      → recv_file md5 domain sys u
        ≡ recv_bytes md5 domain sys t bytes
            (record u { peer = record (u.peer) { hbtime = sys.env.now } })
  unfolding recv_file
  recv_file_full sys t u bytes a b = ground arith

  pub recv_file_empty :
      (sys : Sys) (t : ℕ) (u : Upload)
      → u.peer.recvtask ≡ some t
      → mybuff_getdata u.recv_buff ≡ none
      → recv_file md5 domain sys u
        ≡ (record u { peer = record (u.peer) { hbtime = sys.env.now } }, recv_add_epollin)
  unfolding recv_file
  recv_file_empty sys t u a b = ground arith

  -- A connection that receives a file and has written `got` of it, with fewer bytes than it waits
  -- for, less than 4 GiB of them missing and less than 2 GiB in the buffer: a receive appends the
  -- first `n` bytes of the buffer to the temporary file and takes these bytes off the buffer, for
  -- some `n`, and never goes beyond the announced length; with exactly that many bytes the file is
  -- finished. When there is nothing to read or the write fails, file and buffer stay.
  pub recv_file-Receives :
      (sys : Sys) (t : ℕ) (got : List ℕ) (u : Upload)
      → Receiving t got u
      → Writes sys
      → length got < (u.tasks.tasks t).sub.processlen
      → (u.tasks.tasks t).sub.processlen < length got + 2 ^ 32
      → length (view u.recv_buff) < 2 ^ 31
      → Receives md5 domain sys t
          (u.tasks.tasks t).sub.processlen
          got
          u
          (recv_file md5 domain sys u)
  recv_file-Receives sys t got u r writes more near small =
      let g = (getdata-skipdata u.recv_buff 0 r.valid).0 in
      let v : Upload = record u { peer = record (u.peer) { hbtime = sys.env.now } } in
      let r' : Receiving t got v = record {
        task = r.task;
        content = r.content;
        at_end = r.at_end;
        lastlen = r.lastlen;
        valid = r.valid;
      } in
      elim (Bool-cases (ltb 0 (length (view u.recv_buff)))) [
        | inl y ↦
            let full : mybuff_getdata u.recv_buff ≡ some (view u.recv_buff) = g ∙ rw y refl in
            rw (recv_file_full sys t u (view u.recv_buff) r.task full) (
              at_peer md5 domain sys t (u.tasks.tasks t).sub.processlen got u v refl _
                (recv_bytes-Receives sys t got v r' writes more near small))
        | inr z ↦
            let empty : mybuff_getdata u.recv_buff ≡ none = g ∙ rw z refl in
            rw (recv_file_empty sys t u r.task empty) (waits (inl refl) r' refl)
      ]
