-- ===== src/Buffer/File.antt =====
-- The file part of a buffer (lib/mybuff.c).
use pfs.Common.{
  ℕ, ◌+◌, ◌-◌, ◌≤◌, ◌<◌, ◌≡◌, refl, sym, ap, ◌∙◌, Option, none, some, List, [], ◌∷◌, ◌++◌, arith,
  append_assoc, append-nil,
}
use pfs.Buffer.{
  Mybuff, Heap, mybuff_setfile, mybuff_getfile, mybuff_skipfile, mybuff_reinit, shrink, held,
}

-- What a connection does with the file of its buffer.
pub data FileOp : Type 0 where
  set_file : Option ℕ → ℕ → ℕ → FileOp
  skip_file : ℕ → FileOp
  reinit : FileOp

pub step : ℕ → Heap → Mybuff → FileOp → Mybuff × List ℕ
step init h b (set_file fd offset len) = mybuff_setfile b fd offset len
step init h b (skip_file n) = mybuff_skipfile b n
step init h b reinit = mybuff_reinit init h b

-- The last buffer and all descriptors that were closed, in order.
pub run : ℕ → Heap → Mybuff → List FileOp → Mybuff × List ℕ
run init h b [] = (b, [])
run init h b (op ∷ ops) =
    let s = step init h b op in let r = run init h s.0 ops in (r.0, s.1 ++ r.1)

-- The descriptors that a step hands to the buffer.
pub opened : FileOp → List ℕ
opened (set_file fd offset len) = held fd
opened (skip_file n) = []
opened reinit = []

pub all_opened : List FileOp → List ℕ
all_opened [] = []
all_opened (op ∷ ops) = opened op ++ all_opened ops

skipfile_ledger :
    (b : Mybuff) (n : ℕ) → (mybuff_skipfile b n).1 ++ held (mybuff_skipfile b n).0.fd ≡ held b.fd
unfolding mybuff_skipfile
skipfile_ledger b n = ground arith

reinit_ledger :
    (init : ℕ) (h : Heap) (b : Mybuff)
    → (mybuff_reinit init h b).1 ++ held (mybuff_reinit init h b).0.fd ≡ held b.fd
unfolding mybuff_reinit shrink
reinit_ledger init h b = ground arith

step_ledger :
    (init : ℕ) (h : Heap) (b : Mybuff) (op : FileOp)
    → (step init h b op).1 ++ held (step init h b op).0.fd ≡ held b.fd ++ opened op
unfolding step opened mybuff_setfile
step_ledger init h b (set_file fd offset len) = refl
step_ledger init h b (skip_file n) = skipfile_ledger b n ∙ sym (append-nil (held b.fd))
step_ledger init h b reinit = reinit_ledger init h b ∙ sym (append-nil (held b.fd))

-- No descriptor leaks and none is closed twice: over any history the descriptors that the buffer
-- closed, followed by the one that it still holds, are those that it held at first, followed by
-- those that it was given, in order and as often.
pub run_ledger :
    (init : ℕ) (h : Heap) (b : Mybuff) (ops : List FileOp)
    → (run init h b ops).1 ++ held (run init h b ops).0.fd ≡ held b.fd ++ all_opened ops
unfolding run all_opened
run_ledger init h b [] = sym (append-nil (held b.fd))
run_ledger init h b (op ∷ ops) =
    let s = step init h b op in
    append_assoc s.1 (run init h s.0 ops).1 _
    ∙ ap (λ t. s.1 ++ t) (run_ledger init h s.0 ops)
    ∙ sym (append_assoc s.1 (held s.0.fd) (all_opened ops))
    ∙ ap (λ t. t ++ all_opened ops) (step_ledger init h b op)
    ∙ append_assoc (held b.fd) (opened op) (all_opened ops)

-- Sending a file in pieces: the sizes of the pieces that `sendfile` took.
pub send_pieces : Mybuff → List ℕ → Mybuff × List ℕ
send_pieces b [] = (b, [])
send_pieces b (n ∷ ns) =
    let s = mybuff_skipfile b n in let r = send_pieces s.0 ns in (r.0, s.1 ++ r.1)

unfoldable pub total : List ℕ → ℕ
total [] = 0
total (n ∷ ns) = n + total ns

pub skipfile_part :
    (b : Mybuff) (fd n : ℕ)
    → b.fd ≡ some fd
    → n < b.flen
    → mybuff_skipfile b n ≡ (record b { foffset = b.foffset + n; flen = b.flen - n }, [])
unfolding mybuff_skipfile
skipfile_part b fd n e h = ground arith

pub skipfile_last :
    (b : Mybuff) (fd n : ℕ)
    → b.fd ≡ some fd
    → b.flen ≤ n
    → mybuff_skipfile b n ≡ (record b { fd = none; foffset = 0; flen = 0 }, fd ∷ [])
unfolding mybuff_skipfile
skipfile_last b fd n e h = ground arith

send_pieces_part :
    (b : Mybuff) (fd : ℕ) (ns : List ℕ)
    → b.fd ≡ some fd
    → total ns < b.flen
    → send_pieces b ns ≡ (record b { foffset = b.foffset + total ns; flen = b.flen - total ns }, [])
unfolding send_pieces total
send_pieces_part b fd [] e h = ground arith
send_pieces_part b fd (n ∷ ns) e h = rw (skipfile_part b fd n e (omega arith)) (
    rw
      (send_pieces_part (record b { foffset = b.foffset + n; flen = b.flen - n }) fd ns e
        (omega arith))
      (ground arith))

send_pieces-append :
    (b : Mybuff) (ms ns : List ℕ)
    → send_pieces b (ms ++ ns) ≡ (
      (send_pieces (send_pieces b ms).0 ns).0,
      (send_pieces b ms).1 ++ (send_pieces (send_pieces b ms).0 ns).1,
    )
unfolding send_pieces
send_pieces-append b [] ns = refl
send_pieces-append b (m ∷ ms) ns =
    rw (send_pieces-append (mybuff_skipfile b m).0 ms ns) (rw append_assoc)

-- A file goes out piece by piece: while fewer bytes were sent than it has, the buffer offers the
-- same descriptor, at the offset where the last piece ended and with the length that is left, and
-- closes nothing; the piece that reaches the end closes that descriptor, once, and nothing is
-- offered any more.
pub send_pieces_lem :
    (b : Mybuff) (fd : ℕ) (ns : List ℕ) (n : ℕ)
    → b.fd ≡ some fd
    → total ns < b.flen
    → b.flen ≤ total ns + n
    → (mybuff_getfile (send_pieces b ns).0 ≡ some (fd, b.foffset + total ns, b.flen - total ns))
      × ((send_pieces b ns).1 ≡ [])
      × (mybuff_getfile (send_pieces b (ns ++ n ∷ [])).0 ≡ none)
      × ((send_pieces b (ns ++ n ∷ [])).1 ≡ fd ∷ [])
unfolding send_pieces mybuff_getfile
send_pieces_lem b fd ns n e h all =
    let c = record b { foffset = b.foffset + total ns; flen = b.flen - total ns } in
    rw (send_pieces-append b ns (n ∷ []), send_pieces_part b fd ns e h)
      (rw (skipfile_last c fd n e (omega arith)) (ground arith, refl, refl, refl))
