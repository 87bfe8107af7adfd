-- ===== src/Filter.antt =====
-- network/pfs_file_filter.c: the suffixes of the files that are kept in step.
pub mod Suffix
mod Examples
use pfs.Common.{
  ℕ, zero, suc, ◌-◌, ◌%◌, ◌^◌, Bool, true, false, List, [], ◌∷◌, ltb, ◌==◌, if◌then◌else◌, length,
  drop, ℤ, pos, negsuc,
}
use pfs.LocalFile.{clip, eqb}

pub record Filter : Type 0 where
  pub strings : List ℕ
  pub s_len : ℕ
  pub type : ℕ

-- A new filter goes to the front.
pub add_filter : Bool → List ℕ → ℕ → List Filter → List Filter × ℤ
add_filter malloc_ok s type mlist =
    if malloc_ok
    then (record { strings = clip 63 s; s_len = length s % 2 ^ 8; type = type } ∷ mlist, pos 0)
    else (mlist, negsuc 0)

-- What stands between the bars, one after the other.
pub between_bars : List ℕ → List (List ℕ)
between_bars [] = [] ∷ []
between_bars (c ∷ cs) = elim (between_bars cs) [
  | [] ↦ []
  | p ∷ ps ↦ if c == 124 then [] ∷ p ∷ ps else (c ∷ p) ∷ ps
]

-- if (*s == '*') s++
pub skip_star : List ℕ → List ℕ
skip_star [] = []
skip_star (c ∷ cs) = if c == 42 then cs else c ∷ cs

-- The loop, and what is done with the last pattern. At an empty pattern `continue` keeps `s`, and
-- the next `strchr` finds nothing: the rest is never read.
pub add_patterns : Bool → ℕ → List (List ℕ) → List Filter → List Filter × ℤ
add_patterns malloc_ok type [] mlist = (mlist, pos 0)
add_patterns malloc_ok type (p ∷ ps) mlist = elim (skip_star p) [
  | [] ↦ (mlist, pos 0)
  | c ∷ cs ↦
      let r = add_filter malloc_ok (c ∷ cs) type mlist in
      let rest = add_patterns malloc_ok type ps r.0 in elim r.1 [ pos n ↦ rest | negsuc n ↦ r ]
]

pub sub_init_filter : Bool → List ℕ → ℕ → List Filter → List Filter × ℤ
sub_init_filter malloc_ok s type mlist = add_patterns malloc_ok type (between_bars s) mlist

-- 0 when a filter allows the file, 1 when none does.
pub check_file_allow : List Filter → List ℕ → ℕ
check_file_allow [] file = 1
check_file_allow (f ∷ fs) file =
    let rest = check_file_allow fs file in
    if ltb (length file) f.s_len
    then rest
    else if f.type == 0
    then (if eqb (drop (length file - f.s_len) file) f.strings then 0 else rest)
    else rest

pub check_file_filter : Bool → List Filter → List ℕ → ℕ
check_file_filter disable_filter allow_list file =
    if disable_filter then 0 else check_file_allow allow_list file
