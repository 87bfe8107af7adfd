-- ===== src/DelFile/Times.antt =====
-- The times in the list of network/pfs_del_file.c, which have ten bytes for their digits and a NUL.
use pfs.Common.{
  ℕ, zero, suc, ◌+◌, ◌*◌, ◌≤◌, ◌≡◌, refl, ==_ne, Bool, true, false, Bool-cases, none, List, [], ◌∷◌,
  ◌++◌, length, length-take, ltb, ltb→lt, inl, inr, arith,
}
use pfs.LocalFile.{decimal}
use pfs.Address.{digits, digit_value}
use pfs.Task.Types.{TaskBase}
use pfs.DelFile.{DelRecord, atol, print_time, add_2_del_file, find_from}

-- The greatest number of `n` more digits.
abbrev top : ℕ → ℕ → ℕ
top zero acc = acc
top (suc n) acc = top n (acc * 10 + 9)

top_mono : (n a b : ℕ) → a ≤ b → top n a ≤ top n b
top_mono zero a b h = h
top_mono (suc n) a b h = top_mono n (a * 10 + 9) (b * 10 + 9) (omega (arith, h))

top_longer : (n m a : ℕ) → n ≤ m → top n a ≤ top m a
top_longer zero zero a h = omega arith
top_longer zero (suc m) a h =
    let r = top_longer zero m (a * 10 + 9) (omega arith) in omega (arith, r)
top_longer (suc n) zero a h = absurd (omega (arith, h))
top_longer (suc n) (suc m) a h = top_longer n m (a * 10 + 9) (omega (arith, h))

digits_le : (acc : ℕ) (s : List ℕ) → (digits 10 acc s).0 ≤ top (length s) acc
unfolding digits
digits_le acc [] = omega arith
digits_le acc (c ∷ cs) = elim (Bool-cases (ltb (digit_value c) 10)) [
  | inl y ↦
      let d = ltb→lt (digit_value c) 10 y in
      let r = digits_le (acc * 10 + digit_value c) cs in
      let m = top_mono (length cs) (acc * 10 + digit_value c) (acc * 10 + 9) (omega (arith, d)) in
      rw y (omega (arith, r, m))
  | inr z ↦ rw z (let r = top_longer 0 (suc (length cs)) acc (omega arith) in omega (arith, r))
]

-- A record whose time has the digits that fit.
abbrev pub Short : List DelRecord → Type 0
Short [] = Unit {0}
Short (d ∷ ds) = (length d.dtime ≤ 9) × Short ds

pub Short-append :
    (ds : List DelRecord) (d : DelRecord) → Short ds → length d.dtime ≤ 9 → Short (ds ++ d ∷ [])
Short-append [] d h l = (l, tt)
Short-append (e ∷ ds) d h l = (h.0, Short-append ds d h.1 l)

pub add-Short :
    (opened written : Bool) (base : TaskBase) (dels : List DelRecord)
    → Short dels
    → Short (add_2_del_file opened written base dels).0
unfolding add_2_del_file print_time
add-Short true true base dels h =
    Short-append dels _ h (omega (arith, length-take 9 (decimal 20 base.mtime)))
add-Short true false base dels h = h
add-Short false written base dels h = h

-- One entry for each file that was deleted, with the answers of `open` and `write`.
pub record_all : List (Bool × Bool × TaskBase) → List DelRecord → List DelRecord
record_all [] dels = dels
record_all ((opened, written, base) ∷ ops) dels =
    record_all ops (add_2_del_file opened written base dels).0

pub record_all-Short :
    (ops : List (Bool × Bool × TaskBase)) (dels : List DelRecord)
    → Short dels
    → Short (record_all ops dels)
unfolding record_all
record_all-Short [] dels h = h
record_all-Short ((opened, written, base) ∷ ops) dels h =
    record_all-Short ops _ (add-Short opened written base dels h)

pub find_from-Short :
    (last index : ℕ) (ds : List DelRecord)
    → Short ds
    → 1000000000 ≤ last
    → find_from last index ds ≡ none
unfolding find_from
find_from-Short last index [] h big = refl
find_from-Short last index (d ∷ ds) h big =
    let le = digits_le 0 d.dtime in
    let short = top_longer (length d.dtime) 9 0 h.0 in
    rw (==_ne (atol d.dtime) last (λ e. omega (arith, le, short, big, e)))
      (find_from-Short last (index + 1) ds h.1 big)
