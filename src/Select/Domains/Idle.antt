-- ===== src/Select/Domains/Idle.antt =====
-- The policies by load and by task count of network/N/pfs_sig_base.c. A domain starts with a load
-- and a task count of 0, and nothing calls `update_domain_info`, which would add to them.
use pfs.Common.{
  ℕ, zero, suc, ◌+◌, ◌≡◌, refl, ap, ◌∙◌, ◌⊎◌, inl, inr, false, Option, none, some, Option-cases,
  List, [], ◌∷◌, if◌then◌else◌, arith,
}
use pfs.Select.{Domain}
use pfs.Select.Domains.{
  FcsPeer, pfs_min, add_peer, add_peers, find_ip_stat, check_more_half_online, sortdomain,
  best_domain, policy_load, policy_taskcount,
}
use pfs.Select.Domains.Reports.{half_online, refreshed, check-refreshed, half_of_ret, half_of_fail}
use pfs.Select.Domains.Best.{check-cases, better_offline, better_first, better_both}

-- Neither load nor tasks are counted.
abbrev pub Idle : Domain → Type 0
Idle d = (d.load ≡ 0) × (d.taskcount ≡ 0)

pub data AllIdle : List Domain → Type 0 where
  nobody : AllIdle []
  and : (d : Domain) (rest : List Domain) → Idle d → AllIdle rest → AllIdle (d ∷ rest)

-- The first domain with at least half of its servers online.
pub first_half_online : (ℕ → List FcsPeer) → List Domain → Option Domain
first_half_online online_list [] = none
first_half_online online_list (d ∷ rest) =
    let later = first_half_online online_list rest in
    if half_online online_list d then some (refreshed online_list d) else later

add_peer-Idle : (peer : FcsPeer) (d : Domain) → Idle d → Idle (add_peer peer d)
unfolding add_peer pfs_min
add_peer-Idle peer d h = let l = h.0 in let t = h.1 in (ground arith, ground arith)

add_peers-Idle :
    (online_list : ℕ → List FcsPeer) (j n online : ℕ) (d : Domain)
    → Idle d
    → Idle (add_peers online_list j n online d).0
unfolding add_peers
add_peers-Idle online_list j zero online d h = h
add_peers-Idle online_list j (suc n) online d h =
    elim (Option-cases (find_ip_stat online_list (d.ips j))) [
      | inl e ↦ rw (e, add_peers) (add_peers-Idle online_list (j + 1) n online d h)
      | inr (peer, e) ↦
          rw (e, add_peers)
            (add_peers-Idle online_list (j + 1) n (online + 1) (add_peer peer d)
              (add_peer-Idle peer d h))
    ]

check-Idle :
    (online_list : ℕ → List FcsPeer) (d : Domain)
    → Idle d
    → Idle (check_more_half_online online_list d).domain
unfolding check_more_half_online
check-Idle online_list d h = add_peers-Idle online_list 0 d.ipcount 0 d h

abbrev pub ByLoad : ℕ → Type 0
ByLoad policy = (policy ≡ policy_load) ⊎ (policy ≡ policy_taskcount)

sortdomain-Idle :
    (policy : ℕ) (a c : Domain) → ByLoad policy → Idle a → sortdomain policy a c ≡ false
unfolding sortdomain
sortdomain-Idle policy a c (inl e) h = let l = h.0 in rw e (ground arith)
sortdomain-Idle policy a c (inr e) h = let t = h.1 in rw e (ground arith)

best_domain_stays :
    (online_list : ℕ → List FcsPeer) (policy : ℕ) (a : Domain) (ds : List Domain)
    → ByLoad policy
    → Idle a
    → best_domain online_list policy (some a) ds ≡ some a
unfolding best_domain
best_domain_stays online_list policy a [] p h = refl
best_domain_stays online_list policy a (d ∷ rest) p h =
    let s = sortdomain-Idle policy a (check_more_half_online online_list d).domain p h in
    elim (check-cases online_list d) [
      | inl on ↦
          rw (better_both online_list policy a d on, s)
            (best_domain_stays online_list policy a rest p h)
      | inr off ↦
          rw (better_offline online_list policy (some a) d off)
            (best_domain_stays online_list policy a rest p h)
    ]

-- With the policy by load or by task count, the first domain of the group with at least half of its
-- servers online is chosen whatever the servers report, with the figures that they report, when the
-- domains start with both counts 0.
pub best_domain-first :
    (online_list : ℕ → List FcsPeer) (policy : ℕ) (ds : List Domain)
    → ByLoad policy
    → AllIdle ds
    → best_domain online_list policy none ds ≡ first_half_online online_list ds
unfolding best_domain first_half_online
best_domain-first online_list policy [] p h = refl
best_domain-first online_list policy (d ∷ rest) p (and _ _ i idle) =
    elim (check-cases online_list d) [
      | inl on ↦
          rw (better_first online_list policy d on, half_of_ret online_list d on, first_half_online)
            (best_domain_stays online_list policy (check_more_half_online online_list d).domain rest
                p (check-Idle online_list d i)
              ∙ ap some (check-refreshed online_list d))
      | inr off ↦
          rw
            (
              better_offline online_list policy none d off,
              half_of_fail online_list d off,
              first_half_online,
            )
            (best_domain-first online_list policy rest p idle)
    ]
