-- ===== src/Filter/Suffix.antt =====
-- Which files network/pfs_file_filter.c lets through.
use pfs.Common.{
  ℕ, ◌-◌, ◌≤◌, ◌≡◌, ◌↔◌, ◌⊎◌, inl, inr, refl, sym, ap, ◌∙◌, subst, true, false, List, [], ◌∷◌, ◌++◌,
  ltb, length, drop, take, take-append-drop, drop-append, length-append, Bool-cases, arith, ltb→lt,
  ltb→le,
}
use pfs.LocalFile.{eqb}
use pfs.LocalFile.Store.{eqb_refl, eqb_eq}
use pfs.Filter.{Filter, check_file_allow, check_file_filter}

abbrev pub IsSuffix : List ℕ → List ℕ → Type 0
IsSuffix s file = (pre : List ℕ) × (file ≡ pre ++ s)

-- Some filter is the end of the file's name.
abbrev pub SomeSuffix : List Filter → List ℕ → Type 0
SomeSuffix [] file = ⊥
SomeSuffix (f ∷ fs) file = IsSuffix f.strings file ⊎ SomeSuffix fs file

-- Filters as `sub_init_filter` makes them of patterns of up to 63 bytes.
abbrev pub AllProper : List Filter → Type 0
AllProper [] = Unit {0}
AllProper (f ∷ fs) = (f.s_len ≡ length f.strings) × (f.type ≡ 0) × AllProper fs

end_suffix :
    (file s : List ℕ)
    → length s ≤ length file
    → eqb (drop (length file - length s) file) s ≡ true
    → IsSuffix s file
end_suffix file s h e = (
  take (length file - length s) file,
  sym (take-append-drop (length file - length s) file)
      ∙ ap (λ t. take (length file - length s) file ++ t) (eqb_eq _ s e),
)

suffix_end :
    (file s : List ℕ)
    → IsSuffix s file
    → (length s ≤ length file) × (eqb (drop (length file - length s) file) s ≡ true)
suffix_end file s (pre, e) =
    let long = length-append pre s in
    let n : length (pre ++ s) - length s ≡ length pre = omega (arith, long) in
    rw e (omega (arith, long), rw (n, drop-append pre s) (eqb_refl s))

-- One filter of the list.
check_cons :
    (f : Filter) (fs : List Filter) (file : List ℕ)
    → f.s_len ≡ length f.strings
    → f.type ≡ 0
    → (IsSuffix f.strings file × (check_file_allow (f ∷ fs) file ≡ 0))
      ⊎ ((IsSuffix f.strings file → ⊥)
          × (check_file_allow (f ∷ fs) file ≡ check_file_allow fs file))
unfolding check_file_allow
check_cons f fs file l t = elim (Bool-cases (ltb (length file) f.s_len)) [
  | inl y ↦ inr (
    λ s. omega (arith, (suffix_end file f.strings s).0, ltb→lt (length file) f.s_len y, l),
    rw y refl,
  )
  | inr z ↦ elim (Bool-cases (eqb (drop (length file - f.s_len) file) f.strings)) [
    | inl y ↦ inl (
      end_suffix file f.strings (omega (arith, l, ltb→le (length file) f.s_len z))
          (subst (λ n. eqb (drop (length file - n) file) f.strings ≡ true) l y),
      ground arith,
    )
    | inr w ↦ inr (
      λ s.
          (let x : true ≡ false =
              sym ((suffix_end file f.strings s).1)
              ∙ subst (λ n. eqb (drop (length file - n) file) f.strings ≡ false) l w in
            cc),
      ground arith,
    )
  ]
]

check_nil : (file : List ℕ) → check_file_allow [] file ≡ 1
unfolding check_file_allow
check_nil file = refl

allow_lem :
    (fs : List Filter) (file : List ℕ)
    → AllProper fs
    → (check_file_allow fs file ≡ 0 → SomeSuffix fs file)
      × (SomeSuffix fs file → check_file_allow fs file ≡ 0)
allow_lem [] file p = (λ e. absurd (let x = check_nil file in omega (arith, e, x)), λ b. absurd b)
allow_lem (f ∷ fs) file p =
    let ih = allow_lem fs file p.2 in
    elim (check_cons f fs file p.0 p.1) [
      | inl (s, e) ↦ (λ w. inl s, λ w. e)
      | inr (other, e) ↦ (
        λ w. inr (ih.0 (sym e ∙ w)),
        λ w. e ∙ ih.1 (elim w [ inl s ↦ absurd (other s) | inr t ↦ t ]),
      )
    ]

-- With the filter on, and filters of patterns of up to 63 bytes, a file is let through exactly when
-- its name ends in one of the patterns; with the filter off every file is.
pub check_file_filter_lem :
    (fs : List Filter) (file : List ℕ)
    → AllProper fs
    → ((check_file_filter false fs file ≡ 0) ↔ SomeSuffix fs file)
      × (check_file_filter true fs file ≡ 0)
unfolding check_file_filter
check_file_filter_lem fs file p = (allow_lem fs file p, refl)
