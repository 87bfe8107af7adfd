-- ===== src/LocalFile/Paths.antt =====
-- The paths that network/pfs_localfile.c makes.
use pfs.Common.{
  ℕ, ◌≤◌, ◌<◌, ◌≡◌, refl, ap, ◌∙◌, subst, Bool, true, false, none, some, List, [], ◌∷◌, ◌++◌, ◌&&◌,
  ◌||◌, ◌==◌, if◌then◌else◌, length, Bool-cases, inl, inr, arith, append_assoc, take-all,
  length-append,
}
use pfs.Task.Types.{TaskBase}
use pfs.LocalFile.{
  slash, is_digit, localfile_ok, trim_loop, trim_sep, split_last, rev_onto, walk, storage_convert,
}

-- No two separators stand side by side, and none at the start when `prev` says so.
abbrev pub Single : ℕ → Bool → List ℕ → Type 0
Single sep prev [] = Unit {0}
Single sep prev (c ∷ cs) = ((prev && (c == sep)) ≡ false) × Single sep (c == sep) cs

-- The bytes that are no separator.
abbrev pub without : ℕ → List ℕ → List ℕ
without sep [] = []
without sep (c ∷ cs) = if c == sep then without sep cs else c ∷ without sep cs

trim_loop-Single : (sep : ℕ) (prev : Bool) (s : List ℕ) → Single sep prev (trim_loop sep prev s)
unfolding trim_loop
trim_loop-Single sep prev [] = tt
trim_loop-Single sep prev (c ∷ cs) = elim (Bool-cases (prev && (c == sep))) [
  | inl y ↦ rw y (trim_loop-Single sep prev cs)
  | inr n ↦ rw n (n, trim_loop-Single sep (c == sep) cs)
]

trim_loop-without :
    (sep : ℕ) (prev : Bool) (s : List ℕ) → without sep (trim_loop sep prev s) ≡ without sep s
unfolding trim_loop
trim_loop-without sep prev [] = refl
trim_loop-without sep prev (c ∷ cs) =
    let a = trim_loop-without sep prev cs in
    let b = trim_loop-without sep (c == sep) cs in ground arith

trim_loop_unchanged :
    (sep : ℕ) (prev : Bool) (s : List ℕ) → Single sep prev s → trim_loop sep prev s ≡ s
unfolding trim_loop
trim_loop_unchanged sep prev [] h = refl
trim_loop_unchanged sep prev (c ∷ cs) h =
    rw (h.0) (ap (λ t. c ∷ t) (trim_loop_unchanged sep (c == sep) cs h.1))

length-trim_loop : (sep : ℕ) (prev : Bool) (s : List ℕ) → length (trim_loop sep prev s) ≤ length s
unfolding trim_loop
length-trim_loop sep prev [] = omega arith
length-trim_loop sep prev (c ∷ cs) =
    let a = length-trim_loop sep prev cs in
    let b = length-trim_loop sep (c == sep) cs in ground arith

trim_short : (sep : ℕ) (t : List ℕ) → length t < 1023 → trim_sep t sep ≡ trim_loop sep false t
unfolding trim_sep
trim_short sep t k = ground arith

-- A string of less than 1023 bytes has no two separators side by side afterwards and the same
-- other bytes in the same order, and a second call changes nothing.
pub trim_sep_lem :
    (s : List ℕ) (sep : ℕ)
    → length s < 1023
    → Single sep false (trim_sep s sep)
      × (without sep (trim_sep s sep) ≡ without sep s)
      × (trim_sep (trim_sep s sep) sep ≡ trim_sep s sep)
trim_sep_lem s sep h =
    let q = trim_short sep s h in
    let small = length-trim_loop sep false s in
    rw q (
      trim_loop-Single sep false s,
      trim_loop-without sep false s,
      trim_short sep (trim_loop sep false s) (omega (arith, h, small))
          ∙ trim_loop_unchanged sep false (trim_loop sep false s) (trim_loop-Single sep false s),
    )

-- Digits and slashes.
abbrev pub AllNumeric : List ℕ → Type 0
AllNumeric [] = Unit {0}
AllNumeric (c ∷ cs) = ((is_digit c || (c == slash)) ≡ true) × AllNumeric cs

-- The walk stops at once.
abbrev pub Stops : List ℕ → Type 0
Stops [] = Unit {0}
Stops (c ∷ cs) = (is_digit c || (c == slash)) ≡ false

abbrev pub NoSlash : List ℕ → Type 0
NoSlash [] = Unit {0}
NoSlash (c ∷ cs) = ((c == slash) ≡ false) × NoSlash cs

rev_onto-append : (xs ys zs : List ℕ) → rev_onto (xs ++ ys) zs ≡ rev_onto ys (rev_onto xs zs)
unfolding rev_onto
rev_onto-append [] ys zs = refl
rev_onto-append (x ∷ xs) ys zs = rev_onto-append xs ys (x ∷ zs)

walk_stop : (front seen last : List ℕ) → Stops front → walk front seen last ≡ last
unfolding walk
walk_stop [] seen last h = refl
walk_stop (c ∷ cs) seen last h = rw h refl

-- The walk takes the digits and slashes `r`, and the slash behind which it stops.
walk-numeric :
    (r front seen last : List ℕ)
    → AllNumeric r
    → Stops front
    → walk (r ++ slash ∷ front) seen last ≡ slash ∷ rev_onto r seen
unfolding walk rev_onto
walk-numeric [] front seen last a st = walk_stop front (slash ∷ seen) (slash ∷ seen) st
walk-numeric (c ∷ cs) front seen last a st =
    rw (a.0) (walk-numeric cs front (c ∷ seen) (if c == slash then c ∷ seen else last) a.1 st)

rev_onto_split : (xs ys zs : List ℕ) → rev_onto xs (ys ++ zs) ≡ rev_onto xs ys ++ zs
unfolding rev_onto
rev_onto_split [] ys zs = refl
rev_onto_split (x ∷ xs) ys zs = rev_onto_split xs (x ∷ ys) zs

rev_onto_twice : (xs ys zs : List ℕ) → rev_onto (rev_onto xs ys) zs ≡ rev_onto ys (xs ++ zs)
unfolding rev_onto
rev_onto_twice [] ys zs = refl
rev_onto_twice (x ∷ xs) ys zs = rev_onto_twice xs (x ∷ ys) zs

rev_onto-cons : (x : ℕ) (xs ys : List ℕ) → rev_onto (x ∷ xs) ys ≡ rev_onto xs [] ++ x ∷ ys
unfolding rev_onto
rev_onto-cons x xs ys = rev_onto_split xs [] (x ∷ ys)

rev_onto-nil : (ys : List ℕ) → rev_onto [] ys ≡ ys
unfolding rev_onto
rev_onto-nil ys = refl

rev_onto-AllNumeric : (xs ys : List ℕ) → AllNumeric xs → AllNumeric ys → AllNumeric (rev_onto xs ys)
unfolding rev_onto
rev_onto-AllNumeric [] ys a b = b
rev_onto-AllNumeric (x ∷ xs) ys a b = rev_onto-AllNumeric xs (x ∷ ys) a.1 (a.0, b)

split_last-none : (xs : List ℕ) → NoSlash xs → split_last slash xs ≡ none
unfolding split_last
split_last-none [] h = refl
split_last-none (x ∷ xs) h = rw (split_last-none xs h.1, h.0) refl

split_last-append :
    (xs ys : List ℕ) → NoSlash ys → split_last slash (xs ++ slash ∷ ys) ≡ some (xs, slash ∷ ys)
unfolding split_last
split_last-append [] ys h = rw (split_last-none ys h) refl
split_last-append (x ∷ xs) ys h = rw (split_last-append xs ys h) refl

-- `/`, the directories, `/` and the name.
abbrev pub located : List ℕ → List ℕ → List ℕ
located mid name = slash ∷ (mid ++ (slash ∷ name))

-- A name that ends in directories of digits, `mid` behind a slash, and then in a slash and `name`,
-- with something else than a digit or a slash in front (in the field, or in the memory before it):
-- the file is moved to these directories below `datadir`, and the client is told where. Nothing of
-- what stands in front survives. The new paths fit their fields.
pub storage_convert_lem :
    (datadir before pre mid name : List ℕ) (task : TaskBase)
    → task.filename ≡ pre ++ located mid name
    → AllNumeric mid
    → NoSlash name
    → Stops (rev_onto pre before)
    → length (datadir ++ located mid name) ≤ 255
    → storage_convert datadir before task ≡ (
      record task {
        retfile = located mid name;
        filename = trim_sep (datadir ++ located mid name) slash;
      },
      localfile_ok,
    )
unfolding storage_convert
storage_convert_lem datadir before pre mid name task e num ns st fits =
    let found : split_last slash task.filename ≡ some (pre ++ (slash ∷ mid), slash ∷ name) = rw e (
      subst (λ t. split_last slash t ≡ some (pre ++ (slash ∷ mid), slash ∷ name))
        (append_assoc pre (slash ∷ mid) (slash ∷ name))
        (split_last-append (pre ++ (slash ∷ mid)) name ns)) in
    let back : rev_onto (pre ++ (slash ∷ mid)) before
        ≡ rev_onto mid [] ++ (slash ∷ rev_onto pre before) =
      rev_onto-append pre (slash ∷ mid) before ∙ rev_onto-cons slash mid (rev_onto pre before) in
    let walked : walk (rev_onto (pre ++ (slash ∷ mid)) before) (slash ∷ name) (slash ∷ name)
        ≡ located mid name =
      rw back (
        walk-numeric (rev_onto mid []) (rev_onto pre before) (slash ∷ name) (slash ∷ name)
          (rev_onto-AllNumeric mid [] num tt) st
        ∙ ap (λ t. slash ∷ t)
            (rev_onto_twice mid [] (slash ∷ name) ∙ rev_onto-nil (mid ++ slash ∷ name))) in
    let ret : length (located mid name) ≤ 255 =
      omega (arith, fits, length-append datadir (located mid name)) in
    rw (found, storage_convert)
      (rw
        (
          walked,
          take-all 255 (located mid name) ret,
          take-all 255 (datadir ++ located mid name) fits,
        )
        refl)
