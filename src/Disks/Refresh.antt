-- ===== src/Disks/Refresh.antt =====
-- `refresh_disk_info` of network/pfs_init.c: all directories, in order.
use pfs.Common.{
  ℕ, zero, suc, ◌+◌, ◌*◌, ◌≤◌, ◌<◌, ◌≡◌, refl, ap, ◌∙◌, subst, false, Option, some, List, [], ◌∷◌,
  ◌++◌, length, length-append, ◌==◌, arith, inl, inr, Bool-cases,
}
use pfs.Disks.{
  Stat, Disks, set_end, set_info_disk, row, rows, visit_dirs, check_max, with_disk,
  refresh_disk_info, totaldirs,
}
use pfs.Disks.Table.{add, Shows, set_disk-Added}

mul_suc : (a b : ℕ) → (a + 1) * b ≡ a * b + b
mul_suc a b = omega arith

-- The tables of disks, and one of its places.
pub record Inside (d : Disks) : Type 0 where
  pub place : ℕ
  pub chosen : d.max_disk ≡ some place
  pub small : place < length d.diskinfo

module _ (dir1 : ℕ) (stat : ℕ → ℕ → Stat) where
  -- The directories of each disk, in order.
  abbrev pub listed : List (ℕ × ℕ) → List (ℕ × List ℕ) → List (ℕ × List ℕ)
  listed [] t = t
  listed ((d1, d2) ∷ l) t = listed l (add (stat d1 d2).fsid (d1 * dir1 + d2) t)

  -- The numbers of the directories go up, from `n` on.
  abbrev pub Ascends : ℕ → List (ℕ × ℕ) → Type 0
  Ascends n [] = Unit {0}
  Ascends n ((d1, d2) ∷ l) = (n ≤ d1 * dir1 + d2) × Ascends (d1 * dir1 + d2 + 1) l

  Ascends-mono : (m n : ℕ) (l : List (ℕ × ℕ)) → m ≤ n → Ascends n l → Ascends m l
  Ascends-mono m n [] h a = tt
  Ascends-mono m n ((d1, d2) ∷ l) h (b, a) = (omega (arith, b, h), a)

  row-Ascends :
      (d1 n d2 : ℕ) (l : List (ℕ × ℕ))
      → d2 + n ≤ dir1
      → Ascends ((d1 + 1) * dir1) l
      → Ascends (d1 * dir1 + d2) (row d1 n d2 ++ l)
  unfolding row
  row-Ascends d1 zero d2 l h a =
      let e = mul_suc d1 dir1 in Ascends-mono (d1 * dir1 + d2) _ l (omega (arith, e, h)) a
  row-Ascends d1 (suc n) d2 l h a = (
    omega arith,
    subst (λ k. Ascends k (row d1 n (d2 + 1) ++ l)) (omega arith)
        (row-Ascends d1 n (d2 + 1) l (omega (arith, h)) a),
  )

  rows-Ascends : (dir2 n d1 : ℕ) → dir2 ≤ dir1 → Ascends (d1 * dir1) (rows dir2 n d1)
  unfolding rows
  rows-Ascends dir2 zero d1 h = tt
  rows-Ascends dir2 (suc n) d1 h =
      subst (λ k. Ascends k (row d1 dir2 0 ++ rows dir2 n (d1 + 1))) (omega arith)
        (row-Ascends d1 dir2 0 (rows dir2 n (d1 + 1)) (omega (arith, h))
          (rows-Ascends dir2 n (d1 + 1) h))

  length-row : (d1 n d2 : ℕ) → length (row d1 n d2) ≡ n
  unfolding row
  length-row d1 zero d2 = refl
  length-row d1 (suc n) d2 = ap suc (length-row d1 n (d2 + 1))

  length-rows : (dir2 n d1 : ℕ) → length (rows dir2 n d1) ≡ n * dir2
  unfolding rows
  length-rows dir2 zero d1 = omega arith
  length-rows dir2 (suc n) d1 =
      let a = length-append (row d1 dir2 0) (rows dir2 n (d1 + 1)) in
      let b = length-row d1 dir2 0 in
      let c = length-rows dir2 n (d1 + 1) in let e = mul_suc n dir2 in omega (arith, a, b, c, e)

  add_longer : (f d : ℕ) (t : List (ℕ × List ℕ)) → length t ≤ length (add f d t)
  add_longer f d [] = omega arith
  add_longer f d ((g, ds) ∷ t) =
      let ih = add_longer f d t in
      elim (Bool-cases (g == f)) [ inl y ↦ rw y (omega arith) | inr z ↦ rw z (omega (arith, ih)) ]

  listed_longer : (l : List (ℕ × ℕ)) (t : List (ℕ × List ℕ)) → length t ≤ length (listed l t)
  listed_longer [] t = omega arith
  listed_longer ((d1, d2) ∷ l) t =
      let a = add_longer (stat d1 d2).fsid (d1 * dir1 + d2) t in
      let b = listed_longer l (add (stat d1 d2).fsid (d1 * dir1 + d2) t) in omega (arith, a, b)

  -- The loops end well, with a disk chosen.
  pub record Visited (l : List (ℕ × ℕ)) (m : ℕ) (d : Disks) (t : List (ℕ × List ℕ))
      (o : Option Disks) : Type 0 where
    pub result : Disks
    pub returns : o ≡ some result
    pub most : ℕ
    pub shows : Shows (m + length l) most result.diskinfo (listed l t)
    pub size : length result.diskinfo ≡ length d.diskinfo
    pub inside : Inside result

  module _ (works : (d1 d2 : ℕ) → (stat d1 d2).err ≡ false) where
    one_step :
        (d1 d2 m n : ℕ) (d : Disks) (t : List (ℕ × List ℕ))
        → Shows m n d.diskinfo t
        → n ≤ d1 * dir1 + d2
        → (d1 * dir1 + d2 ≡ 0 → t ≡ [])
        → m < totaldirs
        → length (add (stat d1 d2).fsid (d1 * dir1 + d2) t) ≤ length d.diskinfo
        → (r : Disks) × (set_info_disk dir1 (stat d1 d2) d1 d2 d ≡ some r)
          × Shows (m + 1) (d1 * dir1 + d2 + 1) r.diskinfo (add (stat d1 d2).fsid (d1 * dir1 + d2) t)
          × (length r.diskinfo ≡ length d.diskinfo)
          × Inside r
    unfolding set_info_disk set_end
    one_step d1 d2 m n d t s h z small room =
        let a =
          set_disk-Added m n (d1 * dir1 + d2) (stat d1 d2).fsid d.diskinfo t s h z small room in
        (
          record { diskinfo = a.disks; max_disk = some a.place },
          rw (a.returns, works d1 d2, set_info_disk) refl,
          a.shows,
          a.size,
          record { place = a.place; chosen = refl; small = omega (arith, a.inside, a.size) },
        )

    visit_dirs-Visited :
        (d1 d2 : ℕ) (l : List (ℕ × ℕ)) (m n : ℕ) (d : Disks) (t : List (ℕ × List ℕ))
        → Shows m n d.diskinfo t
        → Ascends n ((d1, d2) ∷ l)
        → (d1 * dir1 + d2 ≡ 0 → t ≡ [])
        → m + length ((d1, d2) ∷ l) ≤ totaldirs
        → length (listed ((d1, d2) ∷ l) t) ≤ length d.diskinfo
        → Visited ((d1, d2) ∷ l) m d t (visit_dirs dir1 stat ((d1, d2) ∷ l) d)
    unfolding visit_dirs
    visit_dirs-Visited d1 d2 [] m n d t s (h, a) z small room =
        let r = one_step d1 d2 m n d t s h z (omega (arith, small)) room in
        record {
          result = r.0;
          returns = rw (r.1, visit_dirs) refl;
          most = d1 * dir1 + d2 + 1;
          shows = r.2;
          size = r.3;
          inside = r.4;
        }
    visit_dirs-Visited d1 d2 ((e1, e2) ∷ l) m n d t s (h, a) z small room =
        let t' = add (stat d1 d2).fsid (d1 * dir1 + d2) t in
        let longer = listed_longer ((e1, e2) ∷ l) t' in
        let r = one_step d1 d2 m n d t s h z (omega (arith, small)) (omega (arith, longer, room)) in
        let v =
          visit_dirs-Visited e1 e2 l (m + 1) (d1 * dir1 + d2 + 1) r.0 t' r.2 a
            (λ e. absurd (omega (arith, a.0, e))) (omega (arith, small))
            (omega (arith, room, r.3)) in
        record {
          result = v.result;
          returns = rw (r.1, visit_dirs) v.returns;
          most = v.most;
          shows =
              subst (λ k. Shows k v.most v.result.diskinfo (listed ((e1, e2) ∷ l) t')) (omega arith)
                v.shows;
          size = v.size ∙ r.3;
          inside = v.inside;
        }

with_max :
    (dir1 : ℕ) (stat : ℕ → ℕ → Stat) (l : List (ℕ × ℕ)) (m : ℕ) (d : Disks) (t : List (ℕ × List ℕ))
    (o : Option Disks)
    → Visited dir1 stat l m d t o
    → Visited dir1 stat l m d t (with_disk o)
unfolding with_disk check_max
with_max dir1 stat l m d t o v = record {
  result = v.result;
  returns = ap with_disk v.returns ∙ ap (check_max v.result) v.inside.chosen;
  most = v.most;
  shows = v.shows;
  size = v.size;
  inside = v.inside;
}

-- With at least one directory of each kind, no more second directories than first ones, and no more
-- directories than a disk has entries for, when no call fails, the table of disks is free, and
-- there are places for all the disks that the directories are on: afterwards each of these disks
-- has its directories, each once and in order but for directory 0, which stands behind the others
-- as the zero that its count includes; all other places are free, and one of the disks is chosen.
-- No directory is on two disks or on none.
pub refresh_disk_info-Visited :
    (a b : ℕ) (stat : ℕ → ℕ → Stat) (d : Disks)
    → ((d1 d2 : ℕ) → (stat d1 d2).err ≡ false)
    → b ≤ a
    → (suc a) * (suc b) ≤ totaldirs
    → Shows 0 0 d.diskinfo []
    → length (listed (suc a) stat (rows (suc b) (suc a) 0) []) ≤ length d.diskinfo
    → Visited
        (suc a)
        stat
        (rows (suc b) (suc a) 0)
        0
        d
        []
        (refresh_disk_info (suc a) (suc b) stat d)
unfolding refresh_disk_info rows row
refresh_disk_info-Visited a b stat d works h small free room =
    let l = length-rows (suc a) stat (suc b) (suc a) 0 in
    let asc =
      Ascends-mono (suc a) stat 0 (0 * (suc a)) (rows (suc b) (suc a) 0) (omega arith)
        (rows-Ascends (suc a) stat (suc b) (suc a) 0 (omega (arith, h))) in
    with_max (suc a) stat (rows (suc b) (suc a) 0) 0 d [] _ (
      visit_dirs-Visited (suc a) stat works 0 0 (row 0 b 1 ++ rows (suc b) a 1) 0 0 d [] free asc
        (λ e. refl) (omega (arith, l, small)) room)
