-- ===== src/Buffer.antt =====
-- lib/mybuff.c: the byte buffer of a connection, and the file that is sent after its bytes.
-- `block` is what `data` points to (`none` is NULL), a memory block whose first `len` bytes are
-- valid. A copy outside of the block, or through NULL, is a fault: the result `none`. Descriptors
-- are `none` where the source has a negative number, and each function that closes descriptors
-- also returns the list of those that it closed.
pub mod Data
pub mod File
pub mod Queue
pub mod Pointer
mod Examples
use pfs.Common.{
  ℕ, zero, suc, ◌+◌, ◌-◌, ◌*◌, ◌%◌, ◌^◌, Bool, true, false, Option, none, some, List, [], ◌∷◌, ◌++◌,
  length, take, drop, replicate, ltb, leb, if◌then◌else◌,
}

pub record Mybuff : Type 0 where
  pub block : Option (List ℕ)
  pub size : ℕ
  pub len : ℕ
  pub fd : Option ℕ
  pub foffset : ℕ
  pub flen : ℕ

-- What the allocator answers during a call, and the byte that fresh memory happens to hold.
pub record Heap : Type 0 where
  pub malloc_ok : Bool
  pub realloc_ok : Bool
  pub junk : ℕ

pub mybuff_init : Mybuff
mybuff_init = record { block = none; size = 0; len = 0; fd = none; foffset = 0; flen = 0 }

-- malloc(n)
unfoldable pub malloc : Heap → ℕ → Option (List ℕ)
malloc h n = if h.malloc_ok then some (replicate n h.junk) else none

-- realloc(p, n): the old bytes are kept as far as they fit.
unfoldable pub realloc : Heap → Option (List ℕ) → ℕ → Option (List ℕ)
realloc h p n =
    if h.realloc_ok
    then elim p [
      | none ↦ some (replicate n h.junk)
      | some old ↦ some (take n old ++ replicate (n - length old) h.junk)
    ]
    else none

-- memcpy(data + len, xs, length xs), then `len += length xs`
unfoldable pub copy_in : Mybuff → List ℕ → Option Mybuff
copy_in b xs = elim b.block [
  | none ↦ none
  | some old ↦
      if leb (b.len + length xs) (length old)
      then some (record b {
        block = some (take b.len old ++ (xs ++ drop (b.len + length xs) old));
        len = b.len + length xs;
      })
      else none
]

-- The first allocation, on NULL.
unfoldable pub first_block : ℕ → Heap → Mybuff → Mybuff
unfolding malloc
first_block init_buff_size h b = elim b.block [
  | none ↦ record b { block = malloc h init_buff_size; size = init_buff_size }
  | some old ↦ b
]

-- size - len, in size_t
unfoldable pub room : Mybuff → ℕ
room b = (b.size + 2 ^ 64 - b.len) % 2 ^ 64

-- The block of `len + n + 1` bytes that takes over when `n` bytes do not fit.
unfoldable pub grow : Heap → Mybuff → ℕ → Mybuff
unfolding realloc
grow h b n =
    let size = (b.len + n + 1) % 2 ^ 64 in record b { block = realloc h b.block size; size = size }

-- Into the room that there is, or into a larger block.
unfoldable pub store : Heap → Mybuff → List ℕ → Option Mybuff
store h b xs = if ltb (length xs) (room b) then copy_in b xs else copy_in (grow h b (length xs)) xs

unfoldable pub mybuff_setdata : ℕ → Heap → Mybuff → List ℕ → Option Mybuff
mybuff_setdata init_buff_size h b xs = store h (first_block init_buff_size h b) xs

-- `none` is the result -1.
unfoldable pub mybuff_getdata : Mybuff → Option (List ℕ)
mybuff_getdata b = elim b.block [
  | none ↦ none
  | some old ↦ if ltb 0 b.len then some (take b.len old) else none
]

unfoldable pub mybuff_skipdata : Mybuff → ℕ → Mybuff
mybuff_skipdata b n = elim b.block [
  | none ↦ b
  | some old ↦ if leb b.len n then record b { len = 0 } else record b {
    block = some (take (b.len - n) (drop n old) ++ drop (b.len - n) old);
    len = b.len - n;
  }
]

-- The list of an open descriptor.
abbrev pub held : Option ℕ → List ℕ
held none = []
held (some fd) = fd ∷ []

unfoldable pub mybuff_setfile : Mybuff → Option ℕ → ℕ → ℕ → Mybuff × List ℕ
mybuff_setfile b fd offset len = (record b { fd = fd; foffset = offset; flen = len }, held b.fd)

unfoldable pub mybuff_getfile : Mybuff → Option (ℕ × ℕ × ℕ)
mybuff_getfile b = elim b.fd [
  | none ↦ none
  | some fd ↦ if ltb 0 b.flen then some (fd, b.foffset, b.flen) else none
]

unfoldable pub mybuff_skipfile : Mybuff → ℕ → Mybuff × List ℕ
mybuff_skipfile b n = elim b.fd [
  | none ↦ (b, [])
  | some fd ↦
      if leb b.flen n
      then (record b { fd = none; foffset = 0; flen = 0 }, fd ∷ [])
      else (record b { foffset = b.foffset + n; flen = b.flen - n }, [])
]

-- A block above twice the initial size is given back.
pub shrink : ℕ → Heap → Mybuff → Mybuff
unfolding malloc
shrink init_buff_size h b =
    if ltb (init_buff_size * 2) b.size
    then record b { block = malloc h init_buff_size; size = init_buff_size }
    else b

pub mybuff_reinit : ℕ → Heap → Mybuff → Mybuff × List ℕ
mybuff_reinit init_buff_size h b = elim b.fd [
  | none ↦ (record (shrink init_buff_size h b) { len = 0 }, [])
  | some fd ↦ (
    record (shrink init_buff_size h (record b { fd = none; foffset = 0; flen = 0 })) { len = 0 },
    fd ∷ [],
  )
]

-- The last field is the block that is freed; `data` still points to it afterwards.
pub mybuff_fini : ℕ → Heap → Mybuff → Mybuff × List ℕ × Option (List ℕ)
mybuff_fini init_buff_size h b =
    let (b', closed) = mybuff_reinit init_buff_size h b in (b', closed, b'.block)
