-- ===== src/Buffer/Queue.antt =====
-- The buffer of lib/mybuff.c over a whole history, beside a queue of bytes.
use pfs.Common.{
  ℕ, ◌+◌, ◌^◌, ◌<◌, ◌≡◌, refl, sym, ap, subst, true, Option, none, some, List, [], ◌∷◌, ◌++◌, arith,
  length, drop, length-append, length-drop, length-take, inl, inr, Option-cases,
}
use pfs.Buffer.{Mybuff, Heap, mybuff_setdata, mybuff_skipdata}
use pfs.Buffer.Data.{view, IsValid, Fits, setdata-Stores, skipdata-Skips}

pub data Op : Type 0 where
  write : List ℕ → Op
  consume : ℕ → Op

-- The calls of a connection, one after the other; `none` is a fault.
pub run : ℕ → Heap → Mybuff → List Op → Option Mybuff
run init h b [] = some b
run init h b (write xs ∷ ops) = elim (mybuff_setdata init h b xs) [
  | none ↦ none
  | some c ↦ run init h c ops
]
run init h b (consume n ∷ ops) = run init h (mybuff_skipdata b n) ops

-- The abstract view: a list of bytes.
pub queue : List ℕ → List Op → List ℕ
queue q [] = q
queue q (write xs ∷ ops) = queue (q ++ xs) ops
queue q (consume n ∷ ops) = queue (drop n q) ops

unfoldable pub written : List Op → ℕ
written [] = 0
written (write xs ∷ ops) = length xs + written ops
written (consume n ∷ ops) = written ops

pub length-view : (b : Mybuff) → IsValid b → length (view b) ≡ b.len
length-view b valid = elim (Option-cases b.block) [
  | inl e ↦ let z : b.len ≡ 0 = rw e at valid in rw e (sym z)
  | inr (old, e) ↦
      let f : Fits (some old) b.len b.size = rw e at valid in
      rw e (omega (arith, length-take b.len old, f.0, f.1))
]

-- `r` is a valid buffer whose bytes are `q`.
pub record Holds (q : List ℕ) (r : Option Mybuff) : Type 0 where
  pub after : Mybuff
  pub returns : r ≡ some after
  pub valid : IsValid after
  pub contents : view after ≡ q

module _ (init : ℕ) (h : Heap) (pos : 0 < init) (small : init < 2 ^ 64) (ok : h.malloc_ok ≡ true)
    (ok' : h.realloc_ok ≡ true) where
  -- With memory at hand, no history of writes and consumed bytes faults, as long as all bytes that
  -- it ever writes, with those at the start, fit `size_t`; what the buffer then holds is what a
  -- queue of bytes holds after the same history.
  pub run-queue :
      (b : Mybuff) (ops : List Op)
      → IsValid b
      → length (view b) + written ops + 1 < 2 ^ 64
      → Holds (queue (view b) ops) (run init h b ops)
  unfolding run queue written
  run-queue b [] valid total = record { after = b; returns = refl; valid = valid; contents = refl }
  run-queue b (write xs ∷ ops) valid total =
      let s =
        setdata-Stores init h b xs pos small ok ok' valid (omega (arith, length-view b valid)) in
      let rest =
        run-queue s.after ops s.valid
          (omega (arith, ap length s.appended, length-append (view b) xs)) in
      rw (s.returns, run)
        (subst (λ q. Holds (queue q ops) (run init h s.after ops)) s.appended rest)
  run-queue b (consume n ∷ ops) valid total =
      let s = skipdata-Skips b n valid in
      let rest =
        run-queue (mybuff_skipdata b n) ops s.valid
          (omega (arith, ap length s.rest, length-drop n (view b))) in
      subst (λ q. Holds (queue q ops) (run init h (mybuff_skipdata b n) ops)) s.rest rest
