-- ===== src/Transfer/Send/Files.antt =====
-- A file from `do_send_task` to `svc_send`, through the event loop.
use pfs.Common.{
  ℕ, ◌+◌, ◌%◌, ◌^◌, ◌≤◌, ◌<◌, ◌≡◌, refl, sym, ap, ap₂, ◌∙◌, subst, Bool, true, false, none, some,
  List, [], ◌++◌, take, length, length-append, length-take, ltb, if◌then◌else◌, arith, inl, inr,
  Bool-cases, ==_refl,
}
use pfs.Buffer.{mybuff_setdata, mybuff_setfile}
use pfs.Buffer.Data.{view, IsValid, Stores, setdata-Stores}
use pfs.EventLoop.{Conn, Mylib, send_add_epollin, send_close}
use pfs.EventLoop.Transmit.{pending, file_rest}
use pfs.Protocol.RoundTrip.{length-create}
use pfs.LocalFile.{is_ok}
use pfs.Task.{Tasks, Env, pfs_get_task}
use pfs.Task.Types.{
  TaskBase, task_q_home, task_q_send, task_q_fin, over_unknown, over_ok, over_send_len,
}
use pfs.Task.Puts.{set_base, set_sub}
use pfs.Upload.Request.{cmd_get_file_rsp, is_sendfileing}
use pfs.Transfer.{Transfer, set_peer, set_content, file_sync_dst_2_src}
use pfs.Transfer.Send.{
  SendSys, known_file, send_sub, open_offer, task_offer, offer, answered, response, do_send_task,
  sent_enough, end_send, told, serve_send, svc_send, svc_send_once,
}
use pfs.Transfer.Send.Rounds.{Sends, Rounds, Rounds-Carried}

some_conn : (a b : Conn Transfer) → some a ≡ some b → a ≡ b
some_conn a b e = ap (λ o. elim o [ none ↦ a | some x ↦ x ]) e

-- A count that wrapped is taken for enough exactly below 2 GiB.
pub sent_enough_lem :
    (n total : ℕ) → n % 2 ^ 32 ≡ total % 2 ^ 32 → sent_enough n total ≡ ltb total (2 ^ 31)
unfolding sent_enough
sent_enough_lem n total e =
    rw e (elim (Bool-cases (ltb total (2 ^ 31))) [ inl y ↦ ground arith | inr z ↦ ground arith ])

-- What `svc_send` does with a task, when `send_len` counts all of its bytes.
pub record Judged (total t fd : ℕ) (r : Conn Transfer × ℕ) : Type 0 where
  pub over :
      (r.0.user.tasks.tasks t).base.overstatus
      ≡ (if ltb total (2 ^ 31) then over_ok else over_send_len)
  pub free : (r.0.user.peers fd).sendtask ≡ none
  pub closes : 2 ^ 31 ≤ total → r.1 ≡ send_close

end_send_over :
    (e : Env) (fd t how : ℕ) (d : Transfer)
    → (((end_send e fd t how d).tasks.tasks t).base.overstatus ≡ how)
      × (((end_send e fd t how d).peers fd).sendtask ≡ none)
end_send_over e fd t how d = (
  ap (λ b. b.overstatus) (set_base e t task_q_fin t _) ∙ rw (==_refl t) refl,
  rw (==_refl fd) refl,
)

told-Judged :
    (e : Env) (fd t code total : ℕ) (c : Conn Transfer) (d : Transfer) (b : Bool)
    → b ≡ ltb total (2 ^ 31)
    → Judged total t fd (told e fd t code c d b)
unfolding told
told-Judged e fd t code total c d true h = record {
  over = rw (sym h) ((end_send_over e fd t over_ok d).0);
  free = (end_send_over e fd t over_ok d).1;
  closes = λ z. absurd (ground arith);
}
told-Judged e fd t code total c d false h = record {
  over = rw (sym h) ((end_send_over e fd t over_send_len d).0);
  free = (end_send_over e fd t over_send_len d).1;
  closes = λ z. refl;
}

pub svc_send-Judged :
    (e : Env) (fd t head fsize : ℕ) (c : Conn Transfer)
    → Sends fd t head fsize c.user
    → c.send_len % 2 ^ 32 ≡ (head + fsize) % 2 ^ 32
    → (r : Conn Transfer × ℕ) × (svc_send e fd c ≡ some r) × Judged (head + fsize) t fd r
unfolding svc_send serve_send
svc_send-Judged e fd t head fsize c s h =
    let p = record (c.user.peers fd) { hbtime = e.now } in
    let d = set_peer fd p c.user in
    let code = if p.close then send_close else send_add_epollin in
    let b = sent_enough c.send_len (head + fsize) in
    (
      told e fd t code c d b,
      ap (λ x. serve_send e fd code c d x p.sendtask p.headlen) (ap is_sendfileing s.stat)
          ∙ ap (λ o. serve_send e fd code c d true o p.headlen) s.task
          ∙ ap (λ n. some (told e fd t code c d (sent_enough c.send_len n)))
              (ap₂ (λ x y. x + y) s.headlen s.processlen),
      told-Judged e fd t code (head + fsize) c d b (sent_enough_lem c.send_len (head + fsize) h),
    )

module _ (init_buff_size : ℕ) (ip2str : ℕ → List ℕ) (encode : TaskBase → List ℕ)
    (small : 0 < init_buff_size) (fits : init_buff_size < 2 ^ 64) (sys : SendSys)
    (malloc_ok : sys.heap.malloc_ok ≡ true) (realloc_ok : sys.heap.realloc_ok ≡ true) (fd : ℕ)
    (base : TaskBase) (c : Conn Transfer) (free : IsValid c.send_buff)
    (empty : view c.send_buff ≡ []) (t lfd : ℕ) (opened : sys.opened ≡ some lfd)
    (known : is_ok (known_file sys base).1 ≡ true)
    (got : (pfs_get_task sys.home task_q_home c.user.tasks).task ≡ some t)
    (fits_head : c.send_buff.len + (4 + length (encode (known_file sys base).0)) + 1 < 2 ^ 64) where
  abbrev file : TaskBase
  file = (known_file sys base).0

  abbrev packet : List ℕ
  packet = response init_buff_size ip2str encode file file_sync_dst_2_src

  abbrev head : ℕ
  head = 4 + length (encode file)

  packet-length : length packet ≡ head
  packet-length =
      length-create cmd_get_file_rsp file_sync_dst_2_src (encode file) (length (encode file))
        (omega arith)

  abbrev started : Conn Transfer
  started = record c {
    send_len = 0;
    user = set_peer fd (record (c.user.peers fd) { hbtime = sys.now }) c.user;
  }

  abbrev taken : Transfer
  taken = record (started.user) { tasks = (pfs_get_task sys.home task_q_home c.user.tasks).state }

  abbrev offered : Conn Transfer × ℕ
  offered = open_offer sys fd file (send_sub ip2str sys fd file taken) t started taken (some lfd)

  offer-offered : offer ip2str sys fd file started (is_ok (known_file sys base).1) ≡ offered
  unfolding offer task_offer
  offer-offered =
      ap (offer ip2str sys fd file started) known
      ∙ ap (task_offer ip2str sys fd file started taken) got
      ∙ ap (open_offer sys fd file (send_sub ip2str sys fd file taken) t started taken) opened

  buffer :
      Stores offered.0.send_buff packet
        (mybuff_setdata init_buff_size sys.heap offered.0.send_buff packet)
  unfolding open_offer mybuff_setfile
  buffer =
      setdata-Stores init_buff_size sys.heap offered.0.send_buff packet small fits malloc_ok
        realloc_ok free (omega (arith, packet-length, fits_head))

  -- The connection after the request.
  abbrev sending : Conn Transfer
  sending = record (offered.0) {
    send_buff = buffer.after;
    user =
        set_peer fd (record (offered.0.user.peers fd) { headlen = length packet }) offered.0.user;
  }

  do_send_task-sending : do_send_task init_buff_size ip2str encode sys fd base c ≡ some sending
  unfolding do_send_task open_offer answered
  do_send_task-sending =
      ap
        (λ o. answered fd (length (response init_buff_size ip2str encode file o.1)) o.0 (
          mybuff_setdata init_buff_size sys.heap o.0.send_buff
            (response init_buff_size ip2str encode file o.1)))
        offer-offered
      ∙ ap (answered fd (length packet) offered.0) buffer.returns

  -- The request is answered.
  pub do_send_task-returns :
      (s : Conn Transfer) × (do_send_task init_buff_size ip2str encode sys fd base c ≡ some s)
      × IsValid s.send_buff
  do_send_task-returns = (sending, do_send_task-sending, buffer.valid)

  abbrev stored : Tasks
  stored =
      (set_content t (record file { overstatus = over_unknown }) (send_sub ip2str sys fd file taken)
        taken).tasks

  sending-Sends : Sends fd t head file.fsize sending.user
  unfolding open_offer
  sending-Sends = record {
    stat = rw (==_refl fd) refl;
    task = rw (==_refl fd) refl;
    headlen = rw (==_refl fd) packet-length;
    processlen =
        ap (λ x. x.processlen) (set_sub sys.put t task_q_send t stored) ∙ rw (==_refl t) refl;
  }

  module _ (files : ℕ → List ℕ) (whole : file.fsize ≤ length (files lfd)) where
    sending-pending : length (pending files sending) ≡ head + file.fsize
    unfolding pending open_offer mybuff_setfile
    sending-pending =
        let a = buffer.appended ∙ ap (λ x. x ++ packet) empty in
        let f = buffer.file in
        let l = length-append (view buffer.after) (file_rest files buffer.after) in
        let r : file_rest files buffer.after ≡ take file.fsize (files lfd) =
          rw (f.0, f.1, f.2) refl in
        let n = length-take file.fsize (files lfd) in
        omega (arith, l, ap length a, ap length r, n, packet-length, whole)

    module _ (libs : ℕ → Mylib Transfer) (now : ℕ → ℕ)
        (once : (i : ℕ) → (libs i).svc_send_once ≡ some (svc_send_once (now i) fd)) where
      judged :
          (d : Conn Transfer) (e : Env)
          → Rounds libs files sending d
          → pending files d ≡ []
          → (r : Conn Transfer × ℕ) × (svc_send e fd d ≡ some r) × Judged (head + file.fsize) t fd r
      unfolding open_offer
      judged d e m z =
          let p = sending-pending in
          let k =
            Rounds-Carried files fd t head file.fsize sending libs now once d buffer.valid
              sending-Sends m in
          let q = k.counted in
          let z' : length (pending files d) ≡ 0 = ap length z in
          svc_send-Judged e fd t head file.fsize d k.sends (omega (arith, q, p, z'))

      -- A request for a file that can be opened and is as long as its size says, on a connection
      -- with nothing to send, with memory and a task for it: the answer and the file together have
      -- 4 bytes for the head of the packet, the bytes of a task, and the size of the file. When any
      -- number of rounds of the event loop, in which each call of `send` and `sendfile64` takes no
      -- more than it is asked for, have sent all that was pending after the request, `svc_send`
      -- ends the task with OVER_OK if these are less than 2 ^ 31 bytes; from there on it ends with
      -- OVER_SEND_LEN and the connection is to be closed, though all was sent. The connection then
      -- has no task to send.
      pub do_send_task-Judged :
          (s d : Conn Transfer) (e : Env)
          → do_send_task init_buff_size ip2str encode sys fd base c ≡ some s
          → Rounds libs files s d
          → pending files d ≡ []
          → (r : Conn Transfer × ℕ) × (svc_send e fd d ≡ some r)
            × Judged (4 + length (encode file) + file.fsize) t fd r
      do_send_task-Judged s d e h m z =
          let same = some_conn sending s (sym do_send_task-sending ∙ h) in
          judged d e (subst (λ x. Rounds libs files x d) (sym same) m) z
