-- ===== src/Buffer/Data.antt =====
-- The bytes of a buffer (lib/mybuff.c).
use pfs.Common.{
  Bool, ℕ, subst, ◌+◌, ◌-◌, ◌%◌, ◌^◌, ◌≤◌, ◌<◌, ◌≡◌, refl, sym, ap, ◌∙◌, true, false, Option, none,
  some, List, [], ◌++◌, length, take, drop, replicate, arith, length-append, length-take,
  length-drop, length-replicate, take-append_le, take-take, append_assoc, drop-take, take-append_eq,
  Option-cases, inl, inr, ltb, leb, if◌then◌else◌, leb→le, leb→lt, drop-all, drop-nil, Bool-cases,
}
use pfs.Buffer.{
  Mybuff, Heap, malloc, realloc, copy_in, first_block, mybuff_setdata, store, room, grow,
  mybuff_getdata, mybuff_skipdata,
}

-- The valid bytes.
abbrev pub bytes_of : Option (List ℕ) → ℕ → List ℕ
bytes_of none len = []
bytes_of (some old) len = take len old

abbrev pub view : Mybuff → List ℕ
view b = bytes_of b.block b.len

-- A block has `size` bytes and room behind the valid ones; NULL holds no bytes.
abbrev pub Fits : Option (List ℕ) → ℕ → ℕ → Type 0
Fits none len size = len ≡ 0
Fits (some old) len size = (length old ≡ size) × (len < size) × (size < 2 ^ 64)

abbrev pub IsValid : Mybuff → Type 0
IsValid b = Fits b.block b.len b.size

-- `r` is a buffer that holds the bytes of `b` and then `xs`, and still the same file.
pub record Stores (b : Mybuff) (xs : List ℕ) (r : Option Mybuff) : Type 0 where
  pub after : Mybuff
  pub returns : r ≡ some after
  pub valid : IsValid after
  pub appended : view after ≡ view b ++ xs
  pub file : (after.fd ≡ b.fd) × (after.foffset ≡ b.foffset) × (after.flen ≡ b.flen)

-- The valid bytes of the block after a copy behind the first `n`.
overwrite-view :
    (n : ℕ) (old xs rest : List ℕ)
    → n ≤ length old
    → take (n + length xs) (take n old ++ (xs ++ rest)) ≡ take n old ++ xs
overwrite-view n old xs rest h = rw (sym (append_assoc (take n old) xs rest)) (
    take-append_eq (n + length xs) (take n old ++ xs) rest
      (omega (arith, length-append (take n old) xs, length-take n old)))

overwrite-length :
    (n m : ℕ) (old xs : List ℕ)
    → m ≡ n + length xs
    → m ≤ length old
    → length (take n old ++ (xs ++ drop m old)) ≡ length old
overwrite-length n m old xs e h = omega (
  arith,
  length-append (take n old) (xs ++ drop m old),
  length-append xs (drop m old),
  length-take n old,
  length-drop m old,
)

copy_in-Stores :
    (b : Mybuff) (old xs : List ℕ)
    → b.block ≡ some old
    → length old ≡ b.size
    → b.len + length xs < b.size
    → b.size < 2 ^ 64
    → Stores b xs (copy_in b xs)
unfolding copy_in
copy_in-Stores b old xs e size room small = record {
  after = record b {
    block = some (take b.len old ++ (xs ++ drop (b.len + length xs) old));
    len = b.len + length xs;
  };
  returns = ground arith;
  valid =
      (overwrite-length b.len (b.len + length xs) old xs refl (omega arith) ∙ size, room, small);
  appended = rw e (overwrite-view b.len old xs (drop (b.len + length xs) old) (omega arith));
  file = (refl, refl, refl);
}

-- The buffer with another block of at least the old bytes holds the same bytes.
Stores-moved :
    (b c : Mybuff) (xs : List ℕ) (r : Option Mybuff)
    → view c ≡ view b
    → (c.fd ≡ b.fd) × (c.foffset ≡ b.foffset) × (c.flen ≡ b.flen)
    → Stores c xs r
    → Stores b xs r
Stores-moved b c xs r v f s = record {
  after = s.after;
  returns = s.returns;
  valid = s.valid;
  appended = s.appended ∙ ap (λ t. t ++ xs) v;
  file = (s.file.0 ∙ f.0, s.file.1 ∙ f.1, s.file.2 ∙ f.2);
}

-- What `realloc` gives keeps the first bytes and has the new size.
realloc-keeps :
    (h : Heap) (old : List ℕ) (n len : ℕ)
    → h.realloc_ok ≡ true
    → len ≤ length old
    → len ≤ n
    → (new : List ℕ) × (realloc h (some old) n ≡ some new)
      × (length new ≡ n)
      × (take len new ≡ take len old)
unfolding realloc
realloc-keeps h old n len ok fits fits' = (
  take n old ++ replicate (n - length old) h.junk,
  rw ok,
  omega (
    arith,
    length-append (take n old) (replicate (n - length old) h.junk),
    length-take n old,
    length-replicate (n - length old) h.junk,
  ),
  take-append_le len (take n old) (replicate (n - length old) h.junk)
        (omega (arith, length-take n old))
      ∙ take-take len n old fits',
)

grow-Stores :
    (h : Heap) (b : Mybuff) (old xs : List ℕ)
    → b.block ≡ some old
    → b.len ≤ length old
    → b.len + length xs + 1 < 2 ^ 64
    → h.realloc_ok ≡ true
    → Stores b xs (copy_in (grow h b (length xs)) xs)
unfolding grow
grow-Stores h b old xs e fits total ok =
    let (new, gives, long, kept) =
      realloc-keeps h old (b.len + length xs + 1) b.len ok fits (omega arith) in
    let size : (b.len + length xs + 1) % 2 ^ 64 ≡ b.len + length xs + 1 = omega arith in
    let block : (grow h b (length xs)).block ≡ some new = rw (e, size) gives in
    let size' : (grow h b (length xs)).size ≡ b.len + length xs + 1 = size in
    let len' : (grow h b (length xs)).len ≡ b.len = refl in
    Stores-moved b (grow h b (length xs)) xs _ (rw (block, e, len') kept) ((refl, refl, refl)) (
      copy_in-Stores (grow h b (length xs)) new xs block (long ∙ sym size')
        (rw (size', len') (omega arith)) (rw size' total))

-- With a block in place.
store-Stores :
    (h : Heap) (b : Mybuff) (old xs : List ℕ)
    → b.block ≡ some old
    → IsValid b
    → b.len + length xs + 1 < 2 ^ 64
    → h.realloc_ok ≡ true
    → Stores b xs (store h b xs)
store-Stores h b old xs e valid total ok = elim (Bool-cases (ltb (length xs) (room b))) [
  | inl fits ↦
      subst (Stores b xs) (sym (takes true fits))
        (copy_in-Stores b old xs e facts.0 (unfold room in ground arith) facts.2)
  | inr full ↦
      subst (Stores b xs) (sym (takes false full))
        (grow-Stores h b old xs e (omega (arith, facts.0, facts.1)) total ok)
]
  where
    facts : Fits (some old) b.len b.size
    facts = rw e at valid

    takes :
        (t : Bool)
        → ltb (length xs) (room b) ≡ t
        → store h b xs ≡ (if t then copy_in b xs else copy_in (grow h b (length xs)) xs)
    takes t p = unfold store in rw p

first_block_in_place :
    (init : ℕ) (h : Heap) (b : Mybuff) (old : List ℕ)
    → b.block ≡ some old
    → first_block init h b ≡ b
unfolding first_block
first_block_in_place init h b old e = ground arith

first_block_on_null :
    (init : ℕ) (h : Heap) (b : Mybuff)
    → b.block ≡ none
    → h.malloc_ok ≡ true
    → first_block init h b ≡ record b { block = some (replicate init h.junk); size = init }
unfolding first_block malloc
first_block_on_null init h b e ok = ground arith

-- Writing appends: with memory at hand, a valid buffer takes any bytes whose total length fits
-- `size_t`; its bytes are then the old ones and behind them the new ones, in a valid block, and
-- its file is untouched. No copy leaves the block.
pub setdata-Stores :
    (init : ℕ) (h : Heap) (b : Mybuff) (xs : List ℕ)
    → 0 < init
    → init < 2 ^ 64
    → h.malloc_ok ≡ true
    → h.realloc_ok ≡ true
    → IsValid b
    → b.len + length xs + 1 < 2 ^ 64
    → Stores b xs (mybuff_setdata init h b xs)
unfolding mybuff_setdata
setdata-Stores init h b xs pos small ok ok' valid total = elim (Option-cases b.block) [
  | inr (old, e) ↦
      rw (first_block_in_place init h b old e) (store-Stores h b old xs e valid total ok')
  | inl e ↦
      let empty : b.len ≡ 0 = rw e at valid in
      rw (first_block_on_null init h b e ok) (
        Stores-moved b (record b { block = some (replicate init h.junk); size = init }) xs _
          (rw (e, empty)) (refl, refl, refl)
          (store-Stores h _ (replicate init h.junk) xs refl
            (length-replicate init h.junk, omega arith, small) total ok'))
]

pub skipdata_null : (b : Mybuff) (n : ℕ) → b.block ≡ none → mybuff_skipdata b n ≡ b
unfolding mybuff_skipdata
skipdata_null b n e = ground arith

pub skipdata_all :
    (b : Mybuff) (n : ℕ) (old : List ℕ)
    → b.block ≡ some old
    → b.len ≤ n
    → mybuff_skipdata b n ≡ record b { len = 0 }
unfolding mybuff_skipdata
skipdata_all b n old e h = ground arith

pub skipdata_part :
    (b : Mybuff) (n : ℕ) (old : List ℕ)
    → b.block ≡ some old
    → n < b.len
    → mybuff_skipdata b n ≡ record b {
      block = some (take (b.len - n) (drop n old) ++ drop (b.len - n) old);
      len = b.len - n;
    }
unfolding mybuff_skipdata
skipdata_part b n old e h = ground arith

-- `c` is `b` with its first `n` bytes consumed.
pub record Skips (b : Mybuff) (n : ℕ) (c : Mybuff) : Type 0 where
  pub valid : IsValid c
  pub rest : view c ≡ drop n (view b)
  pub file : (c.fd ≡ b.fd) × (c.foffset ≡ b.foffset) × (c.flen ≡ b.flen)

pub skipdata-Skips : (b : Mybuff) (n : ℕ) → IsValid b → Skips b n (mybuff_skipdata b n)
skipdata-Skips b n valid = elim (Option-cases b.block) [
  | inl e ↦
      subst (Skips b n) (sym (skipdata_null b n e))
        (record { valid = valid; rest = rw e (sym (drop-nil n)); file = (refl, refl, refl) })
  | inr (old, e) ↦ by_block old e (rw e at valid)
]
  where
    by_block :
        (old : List ℕ)
        → b.block ≡ some old
        → Fits (some old) b.len b.size
        → Skips b n (mybuff_skipdata b n)
    by_block old e (long, room, small) = elim (Bool-cases (leb b.len n)) [
      | inl all ↦ subst (Skips b n) (sym (skipdata_all b n old e (leb→le b.len n all))) (record {
        valid = rw e (long, omega arith, small);
        rest = rw e (
            sym (
              drop-all n (take b.len old)
                (omega (arith, length-take b.len old, leb→le b.len n all))));
        file = (refl, refl, refl);
      })
      | inr part ↦
          let lt : n < b.len = leb→lt b.len n part in
          subst (Skips b n) (sym (skipdata_part b n old e lt)) (record {
            valid = (
              omega (
                arith,
                length-append (take (b.len - n) (drop n old)) (drop (b.len - n) old),
                length-take (b.len - n) (drop n old),
                length-drop n old,
                length-drop (b.len - n) old,
              ),
              omega arith,
              small,
            );
            rest = rw e (
                take-append_eq (b.len - n) (take (b.len - n) (drop n old)) (drop (b.len - n) old)
                  (omega (arith, length-take (b.len - n) (drop n old), length-drop n old))
                ∙ sym (drop-take n (b.len - n) b.len old (omega arith)));
            file = (refl, refl, refl);
          })
    ]

getdata_lem :
    (b : Mybuff)
    → IsValid b
    → mybuff_getdata b ≡ (if ltb 0 (length (view b)) then some (view b) else none)
unfolding mybuff_getdata
getdata_lem b valid = elim (Option-cases b.block) [
  | inl e ↦ ground arith
  | inr (old, e) ↦
      let facts : Fits (some old) b.len b.size = rw e at valid in
      ground (arith, length-take b.len old, facts.0, facts.1)
]

-- Reading and consuming: a valid buffer gives its bytes unless there are none, and after `n` bytes
-- are consumed exactly the bytes behind them are left, in a valid block, with the same file.
pub getdata-skipdata :
    (b : Mybuff) (n : ℕ)
    → IsValid b
    → (mybuff_getdata b ≡ (if ltb 0 (length (view b)) then some (view b) else none))
      × Skips b n (mybuff_skipdata b n)
getdata-skipdata b n valid = (getdata_lem b valid, skipdata-Skips b n valid)
