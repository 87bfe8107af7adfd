-- ===== src/Select/Domains.antt =====
-- network/N/pfs_sig_base.c: the domain that the next uploads of a group go to, chosen among the
-- domains of which enough servers are online. `online_list` is the hash table of the peers.
pub mod Reports
pub mod Best
pub mod Idle
pub mod Table
mod Examples
use pfs.Common.{
  ℕ, zero, suc, ◌+◌, ◌*◌, ◌%◌, Bool, true, false, Option, none, some, List, [], ◌∷◌, leb, ltb, ◌==◌,
  if◌then◌else◌, ℤ, pos, negsuc,
}
use pfs.Select.{Domain}

-- The fields of `pfs_fcs_peer` of N that are read here.
pub record FcsPeer : Type 0 where
  pub ip : ℕ
  pub taskcount : ℕ
  pub load : ℕ
  pub diskfree : ℕ

-- The peer of an address in a list.
pub find_peer : ℕ → List FcsPeer → Option FcsPeer
find_peer ip [] = none
find_peer ip (peer ∷ rest) =
    let later = find_peer ip rest in if peer.ip == ip then some peer else later

pub find_ip_stat : (ℕ → List FcsPeer) → ℕ → Option FcsPeer
find_ip_stat online_list ip = find_peer ip (online_list (ip % 256))

pub pfs_max : ℕ → ℕ → ℕ
pfs_max val1 val2 = if ltb val1 val2 then val2 else val1

pub pfs_min : ℕ → ℕ → ℕ
pfs_min val1 val2 = if ltb val2 val1 then val2 else val1

-- What an online server adds to its domain.
pub add_peer : FcsPeer → Domain → Domain
add_peer peer d = record d {
  diskfree = pfs_max d.diskfree peer.diskfree;
  load = pfs_min d.load peer.load;
  taskcount = pfs_min d.taskcount peer.taskcount;
}

-- The loop over the servers, from `j` on, `n` of them, with the count of those online.
pub add_peers : (ℕ → List FcsPeer) → ℕ → ℕ → ℕ → Domain → Domain × ℕ
add_peers online_list j zero online d = (d, online)
add_peers online_list j (suc n) online d = elim (find_ip_stat online_list (d.ips j)) [
  | none ↦ add_peers online_list (j + 1) n online d
  | some peer ↦ add_peers online_list (j + 1) n (online + 1) (add_peer peer d)
]

pub record Checked : Type 0 where
  pub domain : Domain
  pub ret : ℤ

pub check_more_half_online : (ℕ → List FcsPeer) → Domain → Checked
check_more_half_online online_list d =
    let r = add_peers online_list 0 d.ipcount 0 d in
    record { domain = r.0; ret = if leb d.ipcount (r.1 * 2) then pos 0 else negsuc 0 }

abbrev pub policy_load : ℕ
policy_load = 1

abbrev pub policy_taskcount : ℕ
policy_taskcount = 2

-- Whether the second domain is better than the first.
pub sortdomain : ℕ → Domain → Domain → Bool
sortdomain policy s1 s2 =
    if policy == policy_load
    then ltb s2.load s1.load
    else if policy == policy_taskcount
    then ltb s2.taskcount s1.taskcount
    else ltb s1.diskfree s2.diskfree

-- One turn of the loop over the domains of a group: `ddomain` is the best one so far.
pub better : (ℕ → List FcsPeer) → ℕ → Option Domain → Domain → Option Domain
better online_list policy ddomain domain =
    let checked = check_more_half_online online_list domain in
    elim checked.ret [
      | pos _ ↦ elim ddomain [
        | none ↦ some checked.domain
        | some d ↦ if sortdomain policy d checked.domain then some checked.domain else some d
      ]
      | negsuc _ ↦ ddomain
    ]

-- The loop of `update_group_domain`.
pub best_domain : (ℕ → List FcsPeer) → ℕ → Option Domain → List Domain → Option Domain
best_domain online_list policy ddomain [] = ddomain
best_domain online_list policy ddomain (domain ∷ rest) =
    best_domain online_list policy (better online_list policy ddomain domain) rest
