-- ===== src/Select/Domains/Reports.antt =====
-- What the servers of a domain report, and `check_more_half_online` of network/N/pfs_sig_base.c.
use pfs.Common.{
  ℕ, length, ltb, ◌++◌, zero, suc, ◌+◌, ◌*◌, ◌%◌, ◌==◌, leb, ap, Bool, ◌≡◌, refl, sym, ◌∙◌, ◌⊎◌,
  inl, inr, true, false, Bool-cases, none, some, List, [], ◌∷◌, pos, negsuc, if◌then◌else◌, arith,
}
use pfs.Select.{Domain}
use pfs.Select.Domains.{
  FcsPeer, pfs_max, pfs_min, find_peer, find_ip_stat, add_peer, add_peers, check_more_half_online,
}

-- The first report of a server with this address, if there is one.
abbrev pub report_of : ℕ → List FcsPeer → List FcsPeer
report_of ip [] = []
report_of ip (peer ∷ rest) = if peer.ip == ip then peer ∷ [] else report_of ip rest

-- The reports of the servers from `j` on, `n` of them: one for each that is online.
abbrev pub reports : (ℕ → List FcsPeer) → (ℕ → ℕ) → ℕ → ℕ → List FcsPeer
reports online_list ips j zero = []
reports online_list ips j (suc n) =
    report_of (ips j) (online_list (ips j % 256)) ++ reports online_list ips (j + 1) n

abbrev pub greatest : (FcsPeer → ℕ) → ℕ → List FcsPeer → ℕ
greatest f a [] = a
greatest f a (p ∷ ps) = greatest f (if ltb a (f p) then f p else a) ps

abbrev pub least : (FcsPeer → ℕ) → ℕ → List FcsPeer → ℕ
least f a [] = a
least f a (p ∷ ps) = least f (if ltb (f p) a then f p else a) ps

abbrev pub with_reports : List FcsPeer → Domain → Domain
with_reports ps d = record d {
  diskfree = greatest (λ p. p.diskfree) d.diskfree ps;
  taskcount = least (λ p. p.taskcount) d.taskcount ps;
  load = least (λ p. p.load) d.load ps;
}

-- A domain with what its servers report: the most free space, the least load, the fewest tasks.
abbrev pub refreshed : (ℕ → List FcsPeer) → Domain → Domain
refreshed online_list d = with_reports (reports online_list d.ips 0 d.ipcount) d

-- At least half of the servers of the domain are online.
abbrev pub half_online : (ℕ → List FcsPeer) → Domain → Bool
half_online online_list d = leb d.ipcount (2 * length (reports online_list d.ips 0 d.ipcount))

find_peer-report_of :
    (ip : ℕ) (l : List FcsPeer)
    → ((find_peer ip l ≡ none) × (report_of ip l ≡ []))
      ⊎ ((peer : FcsPeer) × (find_peer ip l ≡ some peer) × (report_of ip l ≡ peer ∷ []))
unfolding find_peer
find_peer-report_of ip [] = inl (refl, refl)
find_peer-report_of ip (peer ∷ rest) = elim (Bool-cases (peer.ip == ip)) [
  | inl y ↦ inr (peer, rw y refl, rw y refl)
  | inr z ↦ rw z (find_peer-report_of ip rest)
]

with_report :
    (peer : FcsPeer) (ps : List FcsPeer) (d : Domain)
    → with_reports ps (add_peer peer d) ≡ with_reports (peer ∷ ps) d
unfolding add_peer pfs_max pfs_min
with_report peer ps d = refl

add_peer_ips : (peer : FcsPeer) (d : Domain) → (add_peer peer d).ips ≡ d.ips
unfolding add_peer
add_peer_ips peer d = refl

add_peers-reports :
    (online_list : ℕ → List FcsPeer) (j n online : ℕ) (d : Domain)
    → ((add_peers online_list j n online d).0 ≡ with_reports (reports online_list d.ips j n) d)
      × ((add_peers online_list j n online d).1 ≡ online + length (reports online_list d.ips j n))
unfolding add_peers find_ip_stat
add_peers-reports online_list j zero online d = (refl, omega arith)
add_peers-reports online_list j (suc n) online d =
    elim (find_peer-report_of (d.ips j) (online_list (d.ips j % 256))) [
      | inl (e, f) ↦ rw (e, f, add_peers) (add_peers-reports online_list (j + 1) n online d)
      | inr (peer, e, f) ↦
          let ih = add_peers-reports online_list (j + 1) n (online + 1) (add_peer peer d) in
          let g = ap (λ ips. reports online_list ips (j + 1) n) (add_peer_ips peer d) in
          rw (e, f, add_peers)
            (
              ih.0
                  ∙ ap (λ l. with_reports l (add_peer peer d)) g
                  ∙ with_report peer (reports online_list d.ips (j + 1) n) d,
              (let k = ih.1 in let l = ap length g in omega (arith, k, l)),
            )
    ]

pub check-refreshed :
    (online_list : ℕ → List FcsPeer) (d : Domain)
    → (check_more_half_online online_list d).domain ≡ refreshed online_list d
unfolding check_more_half_online
check-refreshed online_list d = (add_peers-reports online_list 0 d.ipcount 0 d).0

-- The check succeeds exactly then.
pub check-half :
    (online_list : ℕ → List FcsPeer) (d : Domain)
    → (check_more_half_online online_list d).ret
      ≡ (if half_online online_list d then pos 0 else negsuc 0)
unfolding check_more_half_online
check-half online_list d =
    let c = (add_peers-reports online_list 0 d.ipcount 0 d).1 in
    ap (λ n. if leb d.ipcount n then pos 0 else negsuc 0) (omega (arith, c))

pub half_of_ret :
    (online_list : ℕ → List FcsPeer) (d : Domain)
    → (check_more_half_online online_list d).ret ≡ pos 0
    → half_online online_list d ≡ true
half_of_ret online_list d h =
    let e = sym (check-half online_list d) ∙ h in
    elim (Bool-cases (half_online online_list d)) [
      | inl y ↦ y
      | inr z ↦ let f : negsuc 0 ≡ pos 0 = rw z at e in cc
    ]

pub half_of_fail :
    (online_list : ℕ → List FcsPeer) (d : Domain)
    → (check_more_half_online online_list d).ret ≡ negsuc 0
    → half_online online_list d ≡ false
half_of_fail online_list d h =
    let e = sym (check-half online_list d) ∙ h in
    elim (Bool-cases (half_online online_list d)) [
      | inl y ↦ let f : pos 0 ≡ negsuc 0 = rw y at e in cc
      | inr z ↦ z
    ]

pub ret_of_half :
    (online_list : ℕ → List FcsPeer) (d : Domain)
    → half_online online_list d ≡ true
    → (check_more_half_online online_list d).ret ≡ pos 0
ret_of_half online_list d h = check-half online_list d ∙ rw h refl
