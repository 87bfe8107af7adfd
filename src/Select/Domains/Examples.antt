-- ===== src/Select/Domains/Examples.antt =====
-- Two domains of a group; the second one has more free space.
use pfs.Common.{
  false, ℕ, ◌+◌, ◌*◌, ◌≡◌, ◌≤◌, refl, length, some, negsuc, arith, inl, List, [], ◌∷◌, none, ◌==◌,
  if◌then◌else◌,
}
use pfs.Select.{Domain}
use pfs.Select.Domains.{FcsPeer, best_domain, policy_load}
use pfs.Select.Domains.Best.{Best, AsGood, Candidate, best_domain_lem}
use pfs.LocalFile.{eqb}
use pfs.Select.Domains.Table.{
  Groups, max_group, slot, update_group_domain, get_domain_by_group, get_domain-update,
}
use pfs.Select.Domains.Idle.{AllIdle, nobody, and, ByLoad, first_half_online, best_domain-first}

abbrev online_list : ℕ → List FcsPeer
online_list hash =
    if hash == 1
    then record { ip = 257; taskcount = 9; load = 8; diskfree = 50 } ∷ []
    else if hash == 2
    then record { ip = 258; taskcount = 1; load = 1; diskfree = 70 } ∷ []
    else []

abbrev domain_of : ℕ → Domain
domain_of ip = record {
  ips = λ k. ip + k * 100;
  diskfree = 0;
  taskcount = 0;
  load = 0;
  ipcount = 2;
  index = 0;
}

abbrev group : List Domain
group = domain_of 259 ∷ domain_of 257 ∷ domain_of 258 ∷ []

best_domain_lem_example :
    Best (AsGood 0) (Candidate online_list none group) (best_domain online_list 0 none group)
best_domain_lem_example = best_domain_lem online_list 0 none group

group-AllIdle : AllIdle group
group-AllIdle = and _ _ (refl, refl) (and _ _ (refl, refl) (and _ _ (refl, refl) nobody))

by_load : ByLoad policy_load
by_load = inl refl

best_domain-first_example :
    best_domain online_list policy_load none group ≡ first_half_online online_list group
best_domain-first_example = best_domain-first online_list policy_load group by_load group-AllIdle

abbrev no_groups : Groups
no_groups = record { group_array = λ i. []; bestdomain = λ i. domain_of 0 }

abbrev voss : List ℕ
voss = 118 ∷ 111 ∷ []

voss_named : eqb voss [] ≡ false
unfolding eqb
voss_named = refl

free_slot : slot (λ i. []) voss 0 max_group ≡ some 0
unfolding slot eqb
free_slot = refl

voss_fits : length voss ≤ 127
voss_fits = omega arith

get_domain-update_example :
    ((d : Domain)
      → best_domain online_list 0 none group ≡ some d
      → get_domain_by_group (update_group_domain online_list 0 voss group no_groups).groups voss
        ≡ some d)
    × (best_domain online_list 0 none group ≡ none
        → ((update_group_domain online_list 0 voss group no_groups).groups ≡ no_groups)
          × ((update_group_domain online_list 0 voss group no_groups).ret ≡ negsuc 0))
get_domain-update_example =
    get_domain-update online_list 0 voss group no_groups 0 voss_named voss_fits free_slot
