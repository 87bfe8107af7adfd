-- ===== src/LocalFile/Store.antt =====
-- The file system of network/pfs_localfile.c: writes, renames, and when a file gets its name.
use pfs.Common.{
  ℕ, ◌+◌, ◌≡◌, ◌≢◌, refl, sym, ap, Bool, true, false, none, some, List, [], ◌∷◌, ◌++◌, ◌==◌, length,
  arith, inl, inr, ◌⊎◌, Bool-cases, ==_refl, ==_iff, append-nil, take-all, drop-all, length-append,
  ℤ, pos, negsuc,
}
use pfs.LocalFile.{
  Disk, eqb, put_fd, write_file, rename_file, is_ok, is_negative, check_localfile_md5,
  close_tmp_check_mv,
}
use pfs.Task.Types.{TaskBase}

pub eqb_refl : (p : List ℕ) → eqb p p ≡ true
unfolding eqb
eqb_refl [] = refl
eqb_refl (x ∷ xs) = rw (==_refl x, eqb_refl xs) refl

put_fd_at : {A : Type 0} (fd : ℤ) (v : A) (f : ℤ → A) → put_fd fd v f fd ≡ v
put_fd_at (pos n) v f = rw (==_refl n) refl
put_fd_at (negsuc n) v f = rw (==_refl n) refl

-- A write at the end of a file appends.
pub write_file-append :
    (fd : ℤ) (xs got : List ℕ) (d : Disk)
    → d.content (d.path fd) ≡ some got
    → d.offset fd ≡ length got
    → ((write_file fd xs d).content (d.path fd) ≡ some (got ++ xs))
      × ((write_file fd xs d).offset fd ≡ length (got ++ xs))
      × ((write_file fd xs d).path fd ≡ d.path fd)
unfolding write_file
write_file-append fd xs got d c o =
    rw (eqb_refl (d.path fd), c, o, put_fd_at fd (length got + length xs) d.offset)
      (
        ap some (
            rw
              (
                take-all (length got) got (omega arith),
                drop-all (length got + length xs) got (omega arith),
              )
              (append-nil (got ++ xs))),
        sym (length-append got xs),
        refl,
      )

pub eqb_eq : (p q : List ℕ) → eqb p q ≡ true → p ≡ q
unfolding eqb
eqb_eq [] [] h = refl
eqb_eq [] (y ∷ q) h = absurd (let w : false ≡ true = h in cc)
eqb_eq (x ∷ p) [] h = absurd (let w : false ≡ true = h in cc)
eqb_eq (x ∷ p) (y ∷ q) h =
    let a : ((x == y) ≡ true) × (eqb p q ≡ true) = ground arith in
    let e = (==_iff x y).0 (a.0) in rw (e, eqb_eq p q (a.1)) refl

pub eqb_ne : (p q : List ℕ) → p ≢ q → eqb p q ≡ false
eqb_ne p q n = elim (Bool-cases (eqb p q)) [ inl y ↦ absurd (n (eqb_eq p q y)) | inr z ↦ z ]

-- `got` has the name of the task, the temporary name is gone, and no other path changed.
pub record Published (task : TaskBase) (got : List ℕ) (d d' : Disk) : Type 0 where
  pub named : d'.content task.filename ≡ some got
  pub gone : d'.content task.tmpfile ≡ none
  pub others : (p : List ℕ) → p ≢ task.filename → p ≢ task.tmpfile → d'.content p ≡ d.content p

rename-Published :
    (task : TaskBase) (got : List ℕ) (d : Disk)
    → d.content task.tmpfile ≡ some got
    → task.tmpfile ≢ task.filename
    → Published task got d (rename_file task.tmpfile task.filename d)
unfolding rename_file
rename-Published task got d c n = record {
  named = rw (eqb_refl task.filename) c;
  gone = rw (eqb_ne task.tmpfile task.filename n, eqb_refl task.tmpfile) refl;
  others = λ p a b. rw (eqb_ne p task.filename a, eqb_ne p task.tmpfile b) refl;
}

module _ (md5 : List ℕ → List ℕ) where
  check_ok :
      (d : Disk) (file filemd5 got : List ℕ)
      → d.content file ≡ some got
      → is_ok (check_localfile_md5 md5 d file filemd5) ≡ true
      → md5 got ++ (0 ∷ []) ≡ filemd5
  unfolding check_localfile_md5
  check_ok d file filemd5 got c h = elim (Bool-cases (eqb (md5 got ++ (0 ∷ [])) filemd5)) [
    | inl y ↦ eqb_eq (md5 got ++ (0 ∷ [])) filemd5 y
    | inr z ↦ absurd (let w : false ≡ true = rw (c, check_localfile_md5, z) at h in cc)
  ]

  -- What closing the temporary file comes to. The file gets its name only when one of the two
  -- digests is that of the task; otherwise no path changes.
  pub close-Published :
      (rename_ok : Bool) (task : TaskBase) (fd : ℤ) (digest got : List ℕ) (d : Disk)
      → d.content task.tmpfile ≡ some got
      → task.tmpfile ≢ task.filename
      → ((is_ok (close_tmp_check_mv md5 rename_ok task fd digest d).1 ≡ true)
          × Published task got d (close_tmp_check_mv md5 rename_ok task fd digest d).0
          × (digest ≡ task.filemd5 ⊎ (md5 got ++ (0 ∷ []) ≡ task.filemd5)))
        ⊎ ((is_ok (close_tmp_check_mv md5 rename_ok task fd digest d).1 ≡ false)
            × ((close_tmp_check_mv md5 rename_ok task fd digest d).0 ≡ d))
  unfolding close_tmp_check_mv
  close-Published rename_ok task fd digest got d c n = elim (Bool-cases (is_negative fd)) [
    | inl neg ↦ inr (rw neg (refl, refl))
    | inr ok ↦ elim (Bool-cases (eqb digest task.filemd5)) [
      | inl y ↦ elim (Bool-cases rename_ok) [
        | inl r ↦ inl (
            rw (ok, y, r)
              (refl, rename-Published task got d c n, inl (eqb_eq digest task.filemd5 y)))
        | inr r ↦ inr (rw (ok, y, r) (refl, refl))
      ]
      | inr z ↦ elim (Bool-cases (is_ok (check_localfile_md5 md5 d task.tmpfile task.filemd5))) [
        | inl y ↦ elim (Bool-cases rename_ok) [
          | inl r ↦ inl (
              rw (ok, z, y, r)
                (
                  refl,
                  rename-Published task got d c n,
                  inr (check_ok d task.tmpfile task.filemd5 got c y),
                ))
          | inr r ↦ inr (rw (ok, z, y, r) (refl, refl))
        ]
        | inr x ↦ inr (rw (ok, z, x) (x, refl))
      ]
    ]
  ]
