-- ===== src/Disks/Table.antt =====
-- The table of disks of network/pfs_init.c and one directory more (`set_info_disk`). Directory 0 is
-- told from a free entry only by the count of the disk.
use pfs.Common.{
  ℕ, zero, suc, ◌+◌, ◌≤◌, ◌<◌, ◌≡◌, ◌≢◌, refl, sym, ap, ◌∙◌, subst, true, false, Option, some, List,
  [], ◌∷◌, ◌++◌, leb, length, length-append, ◌==◌, if◌then◌else◌, arith, inl, inr, Bool-cases,
  ==_ne, ==_iff,
}
use pfs.Task.{update}
use pfs.Disks.{
  DiskInfo, free, find_slot, put_dir, add_dir, with_known, with_rest, set_disk, totaldirs,
}

-- The directories of each disk, in the order in which they were found.
abbrev pub add : ℕ → ℕ → List (ℕ × List ℕ) → List (ℕ × List ℕ)
add fsid d [] = (fsid, d ∷ []) ∷ []
add fsid d ((f, ds) ∷ t) =
    let rest = add fsid d t in if f == fsid then (f, ds ++ d ∷ []) ∷ t else (f, ds) ∷ rest

abbrev pub nonzero : List ℕ → List ℕ
nonzero [] = []
nonzero (d ∷ ds) = if d == 0 then nonzero ds else d ∷ nonzero ds

-- From entry `j` on there are these directories, none of them 0, and then zeros only.
abbrev pub Laid : (ℕ → ℕ) → ℕ → List ℕ → Type 0
Laid p j [] = (k : ℕ) → j ≤ k → p k ≡ 0
Laid p j (d ∷ ds) = (p j ≡ d) × (d ≢ 0) × Laid p (j + 1) ds

abbrev pub Below : ℕ → List ℕ → Type 0
Below n [] = Unit {0}
Below n (d ∷ ds) = (d < n) × Below n ds

-- A disk has these directories, `m` at most, each below `n`: the other than 0 stand in order, and
-- the count says whether a zero behind them is directory 0.
pub record Match (m n : ℕ) (x : DiskInfo) (f : ℕ) (ds : List ℕ) : Type 0 where
  pub fsid : x.fsid ≡ f
  pub count : x.count ≡ length ds
  pub some_dir : 0 < length ds
  pub laid : Laid x.pathcluster 0 (nonzero ds)
  pub below : Below n ds
  pub few : length ds ≤ m

pub record Blank (x : DiskInfo) : Type 0 where
  pub count : x.count ≡ 0
  pub zeros : (k : ℕ) → x.pathcluster k ≡ 0

-- The table has these disks, and then free places.
abbrev pub Shows : ℕ → ℕ → List DiskInfo → List (ℕ × List ℕ) → Type 0
Shows m n [] [] = Unit {0}
Shows m n [] (e ∷ t) = ⊥
Shows m n (x ∷ xs) [] = Blank x × Shows m n xs []
Shows m n (x ∷ xs) ((f, ds) ∷ t) = Match m n x f ds × Shows m n xs t

nonzero_append : (ds : List ℕ) (d : ℕ) → d ≢ 0 → nonzero (ds ++ d ∷ []) ≡ nonzero ds ++ d ∷ []
nonzero_append [] d n = rw (==_ne d 0 n) refl
nonzero_append (x ∷ ds) d n = elim (Bool-cases (x == 0)) [
  | inl y ↦ rw y (nonzero_append ds d n)
  | inr z ↦ rw z (ap (λ l. x ∷ l) (nonzero_append ds d n))
]

Below-nonzero : (n : ℕ) (ds : List ℕ) → Below n ds → Below n (nonzero ds)
Below-nonzero n [] b = tt
Below-nonzero n (d ∷ ds) (h, b) = elim (Bool-cases (d == 0)) [
  | inl y ↦ rw y (Below-nonzero n ds b)
  | inr z ↦ rw z (h, Below-nonzero n ds b)
]

Below-append : (m n : ℕ) (ds : List ℕ) (d : ℕ) → Below m ds → m ≤ n → d < n → Below n (ds ++ d ∷ [])
Below-append m n [] d b h k = (k, tt)
Below-append m n (x ∷ ds) d (c, b) h k = (omega (arith, c, h), Below-append m n ds d b h k)

Below-mono : (m n : ℕ) (ds : List ℕ) → Below m ds → m ≤ n → Below n ds
Below-mono m n [] b h = tt
Below-mono m n (x ∷ ds) (c, b) h = (omega (arith, c, h), Below-mono m n ds b h)

length-nonzero : (ds : List ℕ) → length (nonzero ds) ≤ length ds
length-nonzero [] = omega arith
length-nonzero (d ∷ ds) = let ih = length-nonzero ds in ground arith

-- A directory that is not there is put at the first free entry.
find_slot-free :
    (p : ℕ → ℕ) (d n j : ℕ) (ds : List ℕ)
    → Laid p j ds
    → Below d ds
    → d ≢ 0
    → length ds < n
    → find_slot d p n j ≡ free (j + length ds)
unfolding find_slot
find_slot-free p d zero j ds l b z h = absurd (omega (arith, h))
find_slot-free p d (suc n) j [] l b z h =
    rw (l j (omega arith), ==_ne 0 d (λ e. z (sym e))) (ap free (omega arith))
find_slot-free p d (suc n) j (x ∷ ds) (e, nz, l) (lt, b) z h =
    rw (e, ==_ne x d (λ w. omega (arith, w, lt)), ==_ne x 0 nz)
      (find_slot-free p d n (j + 1) ds l b z (omega (arith, h)) ∙ ap free (omega arith))

Laid-before : (p : ℕ → ℕ) (d j k : ℕ) (ds : List ℕ) → k < j → Laid p j ds → Laid (update p k d) j ds
Laid-before p d j k [] h l = λ i g. rw (==_ne i k (λ w. omega (arith, w, g, h))) (l i g)
Laid-before p d j k (x ∷ ds) h (e, nz, l) = (
  rw (==_ne j k (λ w. omega (arith, w, h))) e,
  nz,
  Laid-before p d (j + 1) k ds (omega (arith, h)) l,
)

zero_at : (j : ℕ) → (j == j + 0) ≡ true
zero_at j = ground arith

Laid-next :
    (p : ℕ → ℕ) (d j : ℕ) (ds : List ℕ)
    → Laid p j ds
    → d ≢ 0
    → Laid (update p (j + length ds) d) j (ds ++ d ∷ [])
Laid-next p d j [] l z = (
  rw (zero_at j) refl,
  z,
  λ k g. rw (==_ne k (j + 0) (λ w. omega (arith, w, g))) (l k (omega (arith, g))),
)
Laid-next p d j (x ∷ ds) (e, nz, l) z = (
  rw (==_ne j (j + suc (length ds)) (λ w. omega (arith, w))) e,
  nz,
  subst (λ i. Laid (update p i d) (j + 1) (ds ++ d ∷ [])) (omega arith)
      (Laid-next p d (j + 1) ds l z),
)

-- One more directory for a disk that is known.
add_dir-Match :
    (m n d : ℕ) (x : DiskInfo) (f : ℕ) (ds : List ℕ)
    → Match m n x f ds
    → n ≤ d
    → d ≢ 0
    → m < totaldirs
    → (y : DiskInfo) × (add_dir d x ≡ some y) × Match (m + 1) (d + 1) y f (ds ++ d ∷ [])
unfolding add_dir put_dir
add_dir-Match m n d x f ds a h z small =
    let b = Below-mono n d ds a.below h in
    let l = length-nonzero ds in
    let s =
      find_slot-free x.pathcluster d totaldirs 0 (nonzero ds) a.laid (Below-nonzero d ds b) z
        (omega (arith, l, a.few, small)) in
    let c : leb totaldirs x.count ≡ false = room in
    let len = length-append ds (d ∷ []) in
    let laid = Laid-next x.pathcluster d 0 (nonzero ds) a.laid z in
    let y : DiskInfo = record x {
      pathcluster = update x.pathcluster (0 + length (nonzero ds)) d;
      count = x.count + 1;
    } in
    (
      y,
      rw (c, add_dir) (ap (put_dir d x) s),
      record {
        fsid = a.fsid;
        count = omega (arith, a.count, len);
        some_dir = omega (arith, len);
        laid = subst (λ e. Laid y.pathcluster 0 e) (sym (nonzero_append ds d z)) laid;
        below = Below-append d (d + 1) ds d b (omega arith) (omega arith);
        few = omega (arith, len, a.few);
      },
    )
  where
    room : leb totaldirs x.count ≡ false
    room = let c = a.count in let g = a.few in ground arith

Match-mono :
    (m n d : ℕ) (x : DiskInfo) (f : ℕ) (ds : List ℕ)
    → Match m n x f ds
    → n ≤ d
    → Match (m + 1) (d + 1) x f ds
Match-mono m n d x f ds a h = record {
  fsid = a.fsid;
  count = a.count;
  some_dir = a.some_dir;
  laid = a.laid;
  below = Below-mono n (d + 1) ds a.below (omega (arith, h));
  few = omega (arith, a.few);
}

Shows-mono :
    (m n d : ℕ) (xs : List DiskInfo) (t : List (ℕ × List ℕ))
    → Shows m n xs t
    → n ≤ d
    → Shows (m + 1) (d + 1) xs t
Shows-mono m n d [] [] s h = tt
Shows-mono m n d [] (e ∷ t) s h = s
Shows-mono m n d (x ∷ xs) [] (b, s) h = (b, Shows-mono m n d xs [] s h)
Shows-mono m n d (x ∷ xs) ((f, ds) ∷ t) (a, s) h =
    (Match-mono m n d x f ds a h, Shows-mono m n d xs t s h)

-- A free place is taken.
first_dir :
    (m d fsid : ℕ) (x : DiskInfo)
    → Blank x
    → Match
        (m + 1)
        (d + 1)
        (record { fsid = fsid; pathcluster = update x.pathcluster 0 d; count = 1; firstpath = d })
        fsid
        (d ∷ [])
first_dir m d fsid x b = record {
  fsid = refl;
  count = refl;
  some_dir = omega arith;
  laid = elim (Bool-cases (d == 0)) [
    | inl y ↦ rw y (λ k h. elim (Bool-cases (k == 0)) [
      | inl w ↦ rw w ((==_iff d 0).0 y)
      | inr w ↦ rw w (b.zeros k)
    ])
    | inr z ↦
        rw z (refl, λ e. ground arith, λ k h. rw (==_ne k 0 (λ e. omega (arith, e, h))) (b.zeros k))
  ];
  below = (omega arith, tt);
  few = omega arith;
}

-- What `set_disk` comes to: the table shows the directory too.
pub record Added (m d fsid : ℕ) (xs : List DiskInfo) (t : List (ℕ × List ℕ))
    (o : Option (List DiskInfo × ℕ)) : Type 0 where
  pub disks : List DiskInfo
  pub place : ℕ
  pub returns : o ≡ some (disks, place)
  pub shows : Shows (m + 1) (d + 1) disks (add fsid d t)
  pub size : length disks ≡ length xs
  pub inside : place < length xs

later-Added :
    (m d fsid f : ℕ) (x : DiskInfo) (ds : List ℕ) (xs : List DiskInfo) (t : List (ℕ × List ℕ))
    (o : Option (List DiskInfo × ℕ))
    → (f == fsid) ≡ false
    → Match (m + 1) (d + 1) x f ds
    → Added m d fsid xs t o
    → Added m d fsid (x ∷ xs) ((f, ds) ∷ t) (with_rest x o)
unfolding with_rest
later-Added m d fsid f x ds xs t o w a r = record {
  disks = x ∷ r.disks;
  place = r.place + 1;
  returns = rw r.returns refl;
  shows = rw w (a, r.shows);
  size = ap suc r.size;
  inside = omega (arith, r.inside);
}

pub set_disk-Added :
    (m n d fsid : ℕ) (xs : List DiskInfo) (t : List (ℕ × List ℕ))
    → Shows m n xs t
    → n ≤ d
    → (d ≡ 0 → t ≡ [])
    → m < totaldirs
    → length (add fsid d t) ≤ length xs
    → Added m d fsid xs t (set_disk fsid d xs)
unfolding set_disk with_known
set_disk-Added m n d fsid [] [] s h z small room = absurd (omega (arith, room))
set_disk-Added m n d fsid [] (e ∷ t) s h z small room = absurd s
set_disk-Added m n d fsid (x ∷ xs) [] (b, s) h z small room = rw (b.count) (record {
  disks = _;
  place = 0;
  returns = refl;
  shows = (first_dir m d fsid x b, Shows-mono m n d xs [] s h);
  size = refl;
  inside = omega arith;
})
set_disk-Added m n d fsid (x ∷ xs) ((f, ds) ∷ t) (a, s) h z small room =
    let c = a.count in
    let g = a.some_dir in
    let used : (x.count == 0) ≡ false = ground arith in
    let same : (x.fsid == fsid) ≡ (f == fsid) = ap (λ g. g == fsid) a.fsid in
    let dz : d ≢ 0 = λ e. cons_ne (f, ds) t (z e) in
    elim (Bool-cases (f == fsid)) [
      | inl y ↦
          let r = add_dir-Match m n d x f ds a h dz small in
          rw (used, same ∙ y, r.1)
            (record {
              disks = r.0 ∷ xs;
              place = 0;
              returns = refl;
              shows = rw y (r.2, Shows-mono m n d xs t s h);
              size = refl;
              inside = omega arith;
            })
      | inr w ↦
          let room' = rw w at room in
          let r =
            set_disk-Added m n d fsid xs t s h (λ e. absurd (dz e)) small (omega (arith, room')) in
          rw (used, same ∙ w) (later-Added m d fsid f x ds xs t _ w (Match-mono m n d x f ds a h) r)
    ]
  where
    cons_ne : (e : ℕ × List ℕ) (l : List (ℕ × List ℕ)) → e ∷ l ≡ [] → ⊥
    cons_ne e l q = ground arith
