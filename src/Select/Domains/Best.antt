-- ===== src/Select/Domains/Best.antt =====
-- The choice of network/N/pfs_sig_base.c among the domains of a group.
use pfs.Common.{
  ℕ, ◌≤◌, ◌≡◌, ◌≢◌, refl, sym, ◌∙◌, ◌⊎◌, inl, inr, subst, true, false, Bool-cases, Option, none,
  some, List, [], ◌∷◌, pos, negsuc, if◌then◌else◌, arith,
}
use mathlib.Core.Option.{some-injective, none-ne-some}
use pfs.Select.{Domain}
use pfs.Select.Domains.{
  FcsPeer, check_more_half_online, sortdomain, better, best_domain, policy_load, policy_taskcount,
}
use pfs.Select.Domains.Reports.{half_online, refreshed, check-refreshed, half_of_ret, ret_of_half}

-- A domain of the list with at least half of its servers online, and with what these report.
pub data Online (online_list : ℕ → List FcsPeer) : List Domain → Domain → Type 0 where
  here :
      (d : Domain) (rest : List Domain)
      → half_online online_list d ≡ true
      → Online online_list (d ∷ rest) (refreshed online_list d)
  there :
      (d : Domain) (rest : List Domain) (c : Domain)
      → Online online_list rest c
      → Online online_list (d ∷ rest) c

-- A candidate: the best one so far, or one of the domains behind it.
abbrev pub Candidate : (ℕ → List FcsPeer) → Option Domain → List Domain → Domain → Type 0
Candidate online_list ddomain ds c = (ddomain ≡ some c) ⊎ Online online_list ds c

-- By the policy, `b` is as good as `c`.
abbrev pub AsGood : ℕ → Domain → Domain → Type 0
AsGood policy b c =
    (policy ≡ policy_load → b.load ≤ c.load)
    × (policy ≡ policy_taskcount → b.taskcount ≤ c.taskcount)
    × (policy ≢ policy_load → policy ≢ policy_taskcount → c.diskfree ≤ b.diskfree)

-- The choice among the domains that are `P`, by the order `R`.
pub data Best (R : Domain → Domain → Type 0) (P : Domain → Type 0) : Option Domain → Type 0 where
  no_candidate : ((c : Domain) → ¬ P c) → Best R P none
  chosen : (b : Domain) → P b → ((c : Domain) → P c → R b c) → Best R P (some b)

Best-weaker :
    (R S : Domain → Domain → Type 0) (P : Domain → Type 0) (r : Option Domain)
    → ((b c : Domain) → R b c → S b c)
    → Best R P r
    → Best S P r
Best-weaker R S P none w (no_candidate empty) = no_candidate empty
Best-weaker R S P (some _) w (chosen b p best) = chosen b p (λ c q. w b c (best c q))

-- `sortdomain` does not put `c` before `b`.
abbrev NotAfter : ℕ → Domain → Domain → Type 0
NotAfter policy b c = sortdomain policy b c ≡ false

NotAfter-AsGood : (policy : ℕ) (b c : Domain) → NotAfter policy b c → AsGood policy b c
unfolding sortdomain
NotAfter-AsGood policy b c h = (λ e. ground arith, λ e. ground arith, λ e f. ground arith)

-- Who is not worse than some domain that is `P` is not worse than `c`.
data Covers (policy : ℕ) (P : Domain → Type 0) (c : Domain) : Type 0 where
  covers :
      (a : Domain)
      → P a
      → ((b : Domain) → sortdomain policy b a ≡ false → sortdomain policy b c ≡ false)
      → Covers policy P c

same : (policy : ℕ) (P : Domain → Type 0) (c : Domain) → P c → Covers policy P c
same policy P c p = covers c p (λ b h. h)

Best-Covers :
    (policy : ℕ) (P Q : Domain → Type 0) (r : Option Domain)
    → ((c : Domain) → P c → Q c)
    → ((c : Domain) → Q c → Covers policy P c)
    → Best (NotAfter policy) P r
    → Best (NotAfter policy) Q r
Best-Covers policy P Q none to cover (no_candidate empty) =
    no_candidate (λ c q. elim (cover c q) [ covers a p _ ↦ empty a p ])
Best-Covers policy P Q (some _) to cover (chosen b p best) =
    chosen b (to b p) (λ c q. elim (cover c q) [ covers a pa h ↦ h b (best a pa) ])

sortdomain_keeps :
    (policy : ℕ) (a b c : Domain)
    → sortdomain policy a c ≡ false
    → sortdomain policy b a ≡ false
    → sortdomain policy b c ≡ false
unfolding sortdomain
sortdomain_keeps policy a b c h k = ground arith

sortdomain_replaces :
    (policy : ℕ) (a b c : Domain)
    → sortdomain policy a c ≡ true
    → sortdomain policy b c ≡ false
    → sortdomain policy b a ≡ false
unfolding sortdomain
sortdomain_replaces policy a b c h k = ground arith

sortdomain_self : (policy : ℕ) (a : Domain) → sortdomain policy a a ≡ false
unfolding sortdomain
sortdomain_self policy a = ground arith

pub check-cases :
    (online_list : ℕ → List FcsPeer) (d : Domain)
    → ((check_more_half_online online_list d).ret ≡ pos 0)
      ⊎ ((check_more_half_online online_list d).ret ≡ negsuc 0)
unfolding check_more_half_online
check-cases online_list d = ground arith

pub better_offline :
    (online_list : ℕ → List FcsPeer) (policy : ℕ) (acc : Option Domain) (d : Domain)
    → (check_more_half_online online_list d).ret ≡ negsuc 0
    → better online_list policy acc d ≡ acc
unfolding better
better_offline online_list policy acc d h = rw (h, better) refl

pub better_first :
    (online_list : ℕ → List FcsPeer) (policy : ℕ) (d : Domain)
    → (check_more_half_online online_list d).ret ≡ pos 0
    → better online_list policy none d ≡ some (check_more_half_online online_list d).domain
unfolding better
better_first online_list policy d h = rw (h, better) refl

pub better_both :
    (online_list : ℕ → List FcsPeer) (policy : ℕ) (a d : Domain)
    → (check_more_half_online online_list d).ret ≡ pos 0
    → better online_list policy (some a) d ≡ (
        if sortdomain policy a (check_more_half_online online_list d).domain
        then some (check_more_half_online online_list d).domain
        else some a)
unfolding better
better_both online_list policy a d h = rw (h, better) refl

module _ (online_list : ℕ → List FcsPeer) (policy : ℕ) where
  Online-chosen :
      (d : Domain) (rest : List Domain) (c : Domain)
      → (check_more_half_online online_list d).ret ≡ pos 0
      → some (check_more_half_online online_list d).domain ≡ some c
      → Online online_list (d ∷ rest) c
  Online-chosen d rest c on e =
      subst (Online online_list (d ∷ rest))
        (sym (check-refreshed online_list d) ∙ some-injective _ _ e)
        (here d rest (half_of_ret online_list d on))

  online-Covers :
      (acc : Option Domain) (d : Domain) (rest : List Domain)
      → (check_more_half_online online_list d).ret ≡ pos 0
      → Covers policy
          (Candidate online_list (better online_list policy acc d) rest)
          (check_more_half_online online_list d).domain
  online-Covers none d rest on =
      covers (check_more_half_online online_list d).domain
        (inl (better_first online_list policy d on)) (λ b h. h)
  online-Covers (some a) d rest on =
      let c = (check_more_half_online online_list d).domain in
      let e = better_both online_list policy a d on in
      elim (Bool-cases (sortdomain policy a c)) [
        | inl y ↦ covers c (inl (rw y at e)) (λ b h. h)
        | inr z ↦ covers a (inl (rw z at e)) (λ b h. sortdomain_keeps policy a b c z h)
      ]

  best_so_far-Covers :
      (a d : Domain) (rest : List Domain)
      → Covers policy (Candidate online_list (better online_list policy (some a) d) rest) a
  best_so_far-Covers a d rest = elim (check-cases online_list d) [
    | inl on ↦
        let c = (check_more_half_online online_list d).domain in
        let e = better_both online_list policy a d on in
        elim (Bool-cases (sortdomain policy a c)) [
          | inl y ↦ covers c (inl (rw y at e)) (λ b h. sortdomain_replaces policy a b c y h)
          | inr z ↦ covers a (inl (rw z at e)) (λ b h. h)
        ]
    | inr off ↦ covers a (inl (better_offline online_list policy (some a) d off)) (λ b h. h)
  ]

  turn-Covers :
      (acc : Option Domain) (d : Domain) (rest : List Domain) (c : Domain)
      → Candidate online_list acc (d ∷ rest) c
      → Covers policy (Candidate online_list (better online_list policy acc d) rest) c
  turn-Covers acc d rest c (inr (there _ _ _ o)) = covers c (inr o) (λ b h. h)
  turn-Covers acc d rest c (inr (here _ _ on)) =
      subst (Covers policy (Candidate online_list (better online_list policy acc d) rest))
        (check-refreshed online_list d) (online-Covers acc d rest (ret_of_half online_list d on))
  turn-Covers acc d rest c (inl e) =
      subst (λ x. Covers policy (Candidate online_list (better online_list policy x d) rest) c)
        (sym e) (best_so_far-Covers c d rest)

  better_comes :
      (acc : Option Domain) (d : Domain) (rest : List Domain) (c : Domain)
      → (check_more_half_online online_list d).ret ≡ pos 0
      → better online_list policy acc d ≡ some c
      → Candidate online_list acc (d ∷ rest) c
  better_comes none d rest c on e =
      inr (Online-chosen d rest c on (sym (better_first online_list policy d on) ∙ e))
  better_comes (some a) d rest c on e =
      let f = sym (better_both online_list policy a d on) ∙ e in
      elim (Bool-cases (sortdomain policy a (check_more_half_online online_list d).domain)) [
        | inl y ↦ inr (Online-chosen d rest c on (rw y at f))
        | inr z ↦ inl (rw z at f)
      ]

  turn_comes :
      (acc : Option Domain) (d : Domain) (rest : List Domain) (c : Domain)
      → Candidate online_list (better online_list policy acc d) rest c
      → Candidate online_list acc (d ∷ rest) c
  turn_comes acc d rest c (inr o) = inr (there d rest c o)
  turn_comes acc d rest c (inl e) = elim (check-cases online_list d) [
    | inl on ↦ better_comes acc d rest c on e
    | inr off ↦ inl (sym (better_offline online_list policy acc d off) ∙ e)
  ]

  nobody : (c : Domain) → ¬ Candidate online_list none [] c
  nobody c (inl e) = none-ne-some c e
  nobody c (inr o) = elim o [ ]

  not_worse : (a c : Domain) → Candidate online_list (some a) [] c → sortdomain policy a c ≡ false
  not_worse a c (inl e) =
      subst (λ x. sortdomain policy a x ≡ false) (some-injective a c e) (sortdomain_self policy a)
  not_worse a c (inr o) = elim o [ ]

  best_from :
      (acc : Option Domain) (ds : List Domain)
      → Best
          (NotAfter policy)
          (Candidate online_list acc ds)
          (best_domain online_list policy acc ds)
  unfolding best_domain
  best_from none [] = no_candidate nobody
  best_from (some a) [] = chosen a (inl refl) (not_worse a)
  best_from acc (d ∷ rest) =
      Best-Covers policy (Candidate online_list (better online_list policy acc d) rest)
        (Candidate online_list acc (d ∷ rest)) _ (turn_comes acc d rest) (turn-Covers acc d rest)
        (best_from (better online_list policy acc d) rest)

  -- The domain chosen among those of a group, the best one so far included, is one that has at
  -- least half of its servers online, and each such domain has no less load, no fewer tasks or no
  -- more free space, as the policy says, where a domain has the most free space, the least load and
  -- the fewest tasks that its online servers report, its own figures included; nothing is chosen
  -- only when there is none.
  pub best_domain_lem :
      (acc : Option Domain) (ds : List Domain)
      → Best (AsGood policy) (Candidate online_list acc ds) (best_domain online_list policy acc ds)
  best_domain_lem acc ds =
      Best-weaker (NotAfter policy) (AsGood policy) (Candidate online_list acc ds) _
        (NotAfter-AsGood policy) (best_from acc ds)
