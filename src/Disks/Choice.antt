-- ===== src/Disks/Choice.antt =====
-- The directory for an upload, `get_max_free_storage` of network/pfs_init.c, on a disk of the
-- table.
use pfs.Common.{
  ℕ, zero, suc, ◌+◌, ◌*◌, ◌/◌, ◌%◌, ◌≤◌, ◌<◌, ◌≡◌, refl, sym, ap, ◌∙◌, subst, none, some, List, [],
  ◌∷◌, length, leb, get_elem?, ◌==◌, if◌then◌else◌, arith, inl, inr, Bool-cases,
}
use native.Mathlib.Nat.{div-add-mod', mod-lt}
use pfs.Task.Moves.{occurs}
use pfs.Upload.Names.{MaxDisk, byte_at, get_max_free_storage}
use pfs.Disks.{DiskInfo}
use pfs.Disks.Table.{nonzero, Laid, Match}

-- The entries that the count includes, from `j` on.
abbrev pub entries : ℕ → (ℕ → ℕ) → ℕ → List ℕ
entries zero p j = []
entries (suc n) p j = p j ∷ entries n p (j + 1)

-- The disk that `max_disk` points to, with its turn.
abbrev pub max_disk : DiskInfo → ℕ → MaxDisk
max_disk x index = record { pathcluster = entries x.count x.pathcluster 0; index = index }

length-entries : (n j : ℕ) (p : ℕ → ℕ) → length (entries n p j) ≡ n
length-entries zero j p = refl
length-entries (suc n) j p = ap suc (length-entries n (j + 1) p)

get-entries : (n k j : ℕ) (p : ℕ → ℕ) → k < n → get_elem? (entries n p j) k ≡ some (p (j + k))
get-entries zero k j p h = absurd (omega (arith, h))
get-entries (suc n) zero j p h = ap (λ i. some (p i)) (omega arith)
get-entries (suc n) (suc k) j p h =
    get-entries n k (j + 1) p (omega (arith, h)) ∙ ap (λ i. some (p i)) (omega arith)

occurs-nonzero : (d : ℕ) (ds : List ℕ) → 1 ≤ occurs d (nonzero ds) → 1 ≤ occurs d ds
occurs-nonzero d [] h = h
occurs-nonzero d (x ∷ ds) h =
    let ih = occurs-nonzero d ds in
    elim (Bool-cases (x == 0)) [
      | inl y ↦ let h' = rw y at h in ground arith
      | inr z ↦ let h' = rw z at h in ground arith
    ]

-- A disk whose count is larger has directory 0.
zero_there : (ds : List ℕ) → length (nonzero ds) < length ds → 1 ≤ occurs 0 ds
zero_there [] h = absurd (omega (arith, h))
zero_there (x ∷ ds) h =
    let ih = zero_there ds in
    elim (Bool-cases (x == 0)) [
      | inl y ↦ rw y (omega arith)
      | inr z ↦ let h' = rw z at h in rw z (ih (omega (arith, h')))
    ]

-- An entry is a directory, or one of the zeros behind them.
Laid-entry :
    (p : ℕ → ℕ) (j k : ℕ) (ds : List ℕ)
    → Laid p j ds
    → ((k < length ds) → 1 ≤ occurs (p (j + k)) ds) × (length ds ≤ k → p (j + k) ≡ 0)
Laid-entry p j k [] l = (λ h. absurd (omega (arith, h)), λ h. l (j + k) (omega arith))
Laid-entry p j zero (d ∷ ds) (e, n, l) =
    let here : j ≡ j + 0 = omega arith in
    (
      λ h. subst (λ i. 1 ≤ occurs (p i) (d ∷ ds)) here (rw e (ground arith)),
      λ h. absurd (omega (arith, h)),
    )
Laid-entry p j (suc k) (d ∷ ds) (e, n, l) =
    let ih = Laid-entry p (j + 1) k ds l in
    let there : j + 1 + k ≡ j + suc k = omega arith in
    (
      λ h.
          subst (λ i. 1 ≤ occurs (p i) (d ∷ ds)) there
            (let a = ih.0 (omega (arith, h)) in ground arith),
      λ h. subst (λ i. p i ≡ 0) there (ih.1 (omega (arith, h))),
    )

-- Each entry that the count includes is a directory of the disk.
entry-there :
    (m n k : ℕ) (x : DiskInfo) (f : ℕ) (ds : List ℕ)
    → Match m n x f ds
    → k < x.count
    → 1 ≤ occurs (x.pathcluster k) ds
entry-there m n k x f ds a h =
    let e = Laid-entry x.pathcluster 0 k (nonzero ds) a.laid in
    let from_first : 0 + k ≡ k = omega arith in
    elim (Bool-cases (leb (length (nonzero ds)) k)) [
      | inl y ↦
          let z : x.pathcluster k ≡ 0 = sym (ap x.pathcluster from_first) ∙ e.1 (ground arith) in
          let c = a.count in rw z (zero_there ds (ground arith))
      | inr w ↦
          occurs-nonzero (x.pathcluster k) ds
            (subst (λ i. 1 ≤ occurs (x.pathcluster i) (nonzero ds)) from_first (e.0 (ground arith)))
    ]

-- The next entry, or the first one again.
abbrev next_turn : ℕ → ℕ → ℕ
next_turn count index = if leb count (index + 1) then 0 else index + 1

turn_small : (count index : ℕ) → 0 < count → next_turn count index < count
turn_small count index h = ground arith

-- A disk of the table that has the turn of one of its entries: the two directories for an upload
-- are those of a directory that is on the disk, the second one below DIR1, and the turn passes to
-- an entry of the disk again.
pub get_max_free_storage-Match :
    (m n dir1 index : ℕ) (x : DiskInfo) (f : ℕ) (ds : List ℕ)
    → Match m n x f ds
    → index < x.count
    → 0 < dir1
    → ((d1 d2 : ℕ) × ((get_max_free_storage dir1 (some (max_disk x index))).0 ≡ (d1, d2))
        × (1 ≤ occurs (d1 * dir1 + d2) ds)
        × (d2 < dir1))
      × ((next : ℕ) × ((get_max_free_storage dir1 (some (max_disk x index))).1
            ≡ some (max_disk x next))
          × (next < x.count))
unfolding get_max_free_storage
get_max_free_storage-Match m n dir1 index x f ds a h z =
    let first : 0 + index ≡ index = omega arith in
    let g = get-entries x.count index 0 x.pathcluster h ∙ ap (λ i. some (x.pathcluster i)) first in
    let b : byte_at (max_disk x index).pathcluster index ≡ x.pathcluster index =
      ap (λ o. elim o [ none ↦ 0 | some y ↦ y ]) g in
    let l = length-entries x.count 0 x.pathcluster in
    let p = x.pathcluster index in
    let there = entry-there m n index x f ds a h in
    let whole : p / dir1 * dir1 + p % dir1 ≡ p = div-add-mod' p dir1 in
    (
      (p / dir1, p % dir1, ap (λ y. (y / dir1, y % dir1)) b, rw whole there, mod-lt p z),
      (
        next_turn x.count index,
        ap (λ c. some (record (max_disk x index) { index = next_turn c index })) l,
        turn_small x.count index (omega (arith, h)),
      ),
    )
