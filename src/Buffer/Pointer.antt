-- ===== src/Buffer/Pointer.antt =====
-- lib/mybuff.c: what a pointer that `mybuff_getdata` gave shows after `mybuff_skipdata`, which
-- moves the bytes.
use pfs.Common.{
  ℕ, ◌+◌, ◌-◌, ◌≤◌, ◌<◌, ◌≡◌, refl, sym, ap, ◌∙◌, Option, none, some, List, [], length, take, drop,
  arith, inl, inr, Option-cases, length-take, length-drop, take-append_le, drop-take, take-nil,
}
use pfs.Buffer.{Mybuff, mybuff_skipdata}
use pfs.Buffer.Data.{view, IsValid, skipdata_null, skipdata_all, skipdata_part}

-- The bytes at the start of the block.
abbrev pub block_of : Option (List ℕ) → List ℕ
block_of none = []
block_of (some old) = old

-- When all valid bytes are consumed, they are still there.
pub pointer_all : (b : Mybuff) → take b.len (block_of (mybuff_skipdata b b.len).block) ≡ view b
pointer_all b = elim (Option-cases b.block) [
  | inl e ↦ rw (skipdata_null b b.len e, e) (take-nil b.len)
  | inr (old, e) ↦ rw (skipdata_all b b.len old e (omega arith), e) refl
]

-- When more than as many bytes again are behind them, those are there.
pub pointer_part :
    (b : Mybuff) (n : ℕ)
    → IsValid b
    → 0 < n
    → n + n ≤ length (view b)
    → take n (block_of (mybuff_skipdata b n).block) ≡ take n (drop n (view b))
pointer_part b n valid pos h = elim (Option-cases b.block) [
  | inl e ↦ absurd (let z : n + n ≤ 0 = rw e at h in omega (arith, z))
  | inr (old, e) ↦
      let z : n + n ≤ length (take b.len old) = rw e at h in
      let le = length-take b.len old in
      rw (skipdata_part b n old e (omega (arith, z, le)), e)
        (take-append_le n (take (b.len - n) (drop n old)) (drop (b.len - n) old)
            (omega (arith, z, le, length-take (b.len - n) (drop n old), length-drop n old))
          ∙ ap (take n) (sym (drop-take n (b.len - n) b.len old (omega (arith, z, le)))))
]
