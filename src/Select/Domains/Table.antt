-- ===== src/Select/Domains/Table.antt =====
-- network/N/pfs_sig_base.c: the table of the best domains, one entry for each group, that
-- `update_group_domain` writes and `get_domain_by_group` reads. A free entry has an empty name.
use pfs.Common.{
  ℕ, zero, suc, ◌+◌, ◌≤◌, ◌<◌, ◌≡◌, refl, sym, subst, inl, inr, true, false, Bool-cases, Option,
  none, some, List, [], map, length, take-all, ◌==◌, ==_refl, ==_iff, if◌then◌else◌, ℤ, pos, negsuc,
  arith,
}
use mathlib.Core.Option.{some-injective, none-ne-some}
use pfs.LocalFile.{clip, eqb}
use pfs.LocalFile.Store.{eqb_refl, eqb_eq}
use pfs.Select.{Domain}
use pfs.Select.Domains.{FcsPeer, check_more_half_online, best_domain}

pub record Groups : Type 0 where
  pub group_array : ℕ → List ℕ
  pub bestdomain : ℕ → Domain

abbrev pub max_group : ℕ
max_group = 64

pub put {ℓ} : {A : Type ℓ} → ℕ → A → (ℕ → A) → ℕ → A
put i x f k = if k == i then x else f k

-- The loop over the table, from `i` on, `n` entries: the entry of a group, or the first free one.
unfoldable pub slot : (ℕ → List ℕ) → List ℕ → ℕ → ℕ → Option ℕ
slot names group i zero = none
slot names group i (suc n) =
    let later = slot names group (i + 1) n in
    if eqb (names i) [] then some i else if eqb group (names i) then some i else later

-- Both ways to write an entry: the name is written to a free one only.
pub set_best : List ℕ → Domain → ℕ → Groups → Groups
set_best group d i g = record {
  group_array =
      if eqb (g.group_array i) [] then put i (clip 127 group) g.group_array else g.group_array;
  bestdomain = put i d g.bestdomain;
}

-- `domains` are the domains of the group, which the checks change.
pub record Updated : Type 0 where
  pub groups : Groups
  pub domains : List Domain
  pub ret : ℤ

pub update_group_domain : (ℕ → List FcsPeer) → ℕ → List ℕ → List Domain → Groups → Updated
update_group_domain online_list policy group ds g =
    let checked = map (λ d. (check_more_half_online online_list d).domain) ds in
    elim (best_domain online_list policy none ds) [
      | none ↦ record { groups = g; domains = checked; ret = negsuc 0 }
      | some d ↦ elim (slot g.group_array group 0 max_group) [
        | none ↦ record { groups = g; domains = checked; ret = pos 0 }
        | some i ↦ record { groups = set_best group d i g; domains = checked; ret = pos 0 }
      ]
    ]

pub find_domain : Groups → List ℕ → ℕ → ℕ → Option Domain
find_domain g group i zero = none
find_domain g group i (suc n) =
    let later = find_domain g group (i + 1) n in
    if eqb (g.group_array i) []
    then none
    else if eqb group (g.group_array i)
    then some (g.bestdomain i)
    else later

pub get_domain_by_group : Groups → List ℕ → Option Domain
get_domain_by_group g group = find_domain g group 0 max_group

put_here {ℓ} : {A : Type ℓ} (i : ℕ) (x : A) (f : ℕ → A) → put i x f i ≡ x
unfolding put
put_here i x f = rw (==_refl i) refl

put_elsewhere {ℓ} : {A : Type ℓ} (i k : ℕ) (x : A) (f : ℕ → A) → k < i → put i x f k ≡ f k
unfolding put
put_elsewhere i k x f h = elim (Bool-cases (k == i)) [
  | inl y ↦ absurd (let e = (==_iff k i).0 y in omega (arith, h, e))
  | inr z ↦ rw z refl
]

-- The entry that the loop finds is not before the place where it starts.
slot_le : (names : ℕ → List ℕ) (group : List ℕ) (i n k : ℕ) → slot names group i n ≡ some k → i ≤ k
unfolding slot
slot_le names group i zero k e = absurd (none-ne-some k e)
slot_le names group i (suc n) k e = elim (Bool-cases (eqb (names i) [])) [
  | inl y ↦ let f = some-injective i k (rw y at e) in omega (arith, f)
  | inr z ↦ elim (Bool-cases (eqb group (names i))) [
    | inl y ↦ let f = some-injective i k (rw (z, y) at e) in omega (arith, f)
    | inr w ↦ let h = slot_le names group (i + 1) n k (rw (z, w) at e) in omega (arith, h)
  ]
]

module _ (g : Groups) (group : List ℕ) (d : Domain) where
  -- The entry that was written, seen by the loop that reads.
  find-written :
      (k n : ℕ)
      → eqb group [] ≡ false
      → (set_best group d k g).group_array k ≡ group
      → find_domain (set_best group d k g) group k (suc n) ≡ some d
  unfolding find_domain set_best
  find-written k n full name = rw (name, full, eqb_refl group, put_here k d g.bestdomain) refl

  name-before : (k i : ℕ) → i < k → (set_best group d k g).group_array i ≡ g.group_array i
  unfolding set_best
  name-before k i h = elim (Bool-cases (eqb (g.group_array k) [])) [
    | inl y ↦ rw (y, put_elsewhere k i (clip 127 group) g.group_array h) refl
    | inr z ↦ rw z refl
  ]

  name-free :
      (k : ℕ)
      → length group ≤ 127
      → eqb (g.group_array k) [] ≡ true
      → (set_best group d k g).group_array k ≡ group
  unfolding set_best
  name-free k h e = rw (e, put_here k (clip 127 group) g.group_array) (take-all 127 group h)

  name-same :
      (k : ℕ)
      → eqb (g.group_array k) [] ≡ false
      → eqb group (g.group_array k) ≡ true
      → (set_best group d k g).group_array k ≡ group
  unfolding set_best
  name-same k e s = rw e (sym (eqb_eq group (g.group_array k) s))

  find-later :
      (i n k : ℕ)
      → eqb (g.group_array i) [] ≡ false
      → eqb group (g.group_array i) ≡ false
      → i < k
      → find_domain (set_best group d k g) group (i + 1) n ≡ some d
      → find_domain (set_best group d k g) group i (suc n) ≡ some d
  unfolding find_domain
  find-later i n k z w h e = rw (name-before k i h, z, w) e

  find-set :
      (i n k : ℕ)
      → eqb group [] ≡ false
      → length group ≤ 127
      → slot g.group_array group i n ≡ some k
      → find_domain (set_best group d k g) group i n ≡ some d
  unfolding slot
  find-set i zero k full short e = absurd (none-ne-some k e)
  find-set i (suc n) k full short e = elim (Bool-cases (eqb (g.group_array i) [])) [
    | inl y ↦
        let f = some-injective i k (rw y at e) in
        subst (λ j. find_domain (set_best group d j g) group i (suc n) ≡ some d) f
          (find-written i n full (name-free i short y))
    | inr z ↦ elim (Bool-cases (eqb group (g.group_array i))) [
      | inl y ↦
          let f = some-injective i k (rw (z, y) at e) in
          subst (λ j. find_domain (set_best group d j g) group i (suc n) ≡ some d) f
            (find-written i n full (name-same i z y))
      | inr w ↦
          let e' = rw (z, w) at e in
          let le = slot_le g.group_array group (i + 1) n k e' in
          find-later i n k z w (omega (arith, le)) (find-set (i + 1) n k full short e')
    ]
  ]

-- The domain that is chosen for a group is the one that is read for it afterwards, when the name of
-- the group is not empty and fits its field and the table has an entry for it or a free one; when
-- no domain has enough servers online the call fails and leaves the table as it was.
pub get_domain-update :
    (online_list : ℕ → List FcsPeer) (policy : ℕ) (group : List ℕ) (ds : List Domain) (g : Groups)
    (k : ℕ)
    → eqb group [] ≡ false
    → length group ≤ 127
    → slot g.group_array group 0 max_group ≡ some k
    → ((d : Domain)
        → best_domain online_list policy none ds ≡ some d
        → get_domain_by_group (update_group_domain online_list policy group ds g).groups group
          ≡ some d)
      × (best_domain online_list policy none ds ≡ none
          → ((update_group_domain online_list policy group ds g).groups ≡ g)
            × ((update_group_domain online_list policy group ds g).ret ≡ negsuc 0))
unfolding update_group_domain get_domain_by_group
get_domain-update online_list policy group ds g k full short e = (
  λ d c. rw (c, update_group_domain, e) (find-set g group d 0 max_group k full short e),
  λ c. rw (c, update_group_domain) (refl, refl),
)
