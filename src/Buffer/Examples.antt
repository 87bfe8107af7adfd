-- ===== src/Buffer/Examples.antt =====
-- Runs of lib/mybuff.c on small buffers.
use pfs.Common.{◌+◌, ◌^◌, ◌<◌, refl, true, none, some, List, [], ◌∷◌, length, arith}
use pfs.Buffer.{Mybuff, Heap, mybuff_setdata, mybuff_getdata, mybuff_skipdata, mybuff_getfile, held}
use pfs.Buffer.Data.{view}
use pfs.Buffer.File.{FileOp, set_file, skip_file}
use pfs.Buffer.Queue
use pfs.Buffer.Queue.{write, consume, queue, Holds, run-queue}

abbrev heap : Heap
heap = record { malloc_ok = true; realloc_ok = true; junk = 170 }

-- Two valid bytes in a block of four.
abbrev two_bytes : Mybuff
two_bytes = record {
  block = some (5 ∷ 6 ∷ 0 ∷ 0 ∷ []);
  size = 4;
  len = 2;
  fd = none;
  foffset = 0;
  flen = 0;
}

abbrev history : List pfs.Buffer.Queue.Op
history = write (1 ∷ 2 ∷ 3 ∷ []) ∷ consume 4 ∷ write (9 ∷ []) ∷ []

run-queue_example :
    Holds (queue (view two_bytes) history) (pfs.Buffer.Queue.run 1024 heap two_bytes history)
unfolding pfs.Buffer.Queue.written
run-queue_example =
    run-queue 1024 heap (omega arith) (omega arith) refl refl two_bytes history
      (refl, omega arith, omega arith) small
  where
    small : length (view two_bytes) + pfs.Buffer.Queue.written history + 1 < 2 ^ 64
    small = omega arith

abbrev file_history : List FileOp
file_history = set_file (some 7) 0 100 ∷ skip_file 40 ∷ set_file (some 8) 0 10 ∷ skip_file 10 ∷ []

abbrev with_file : Mybuff
with_file = record two_bytes { fd = some 7; foffset = 5; flen = 100 }
