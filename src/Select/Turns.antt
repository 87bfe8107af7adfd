-- ===== src/Select/Turns.antt =====
-- The choice of network/N/pfs_sig_sub.c among the servers of a domain.
use pfs.Common.{
  ℕ, zero, suc, ◌+◌, ◌≤◌, ◌<◌, ◌≡◌, refl, sym, ap, ◌∙◌, subst, Bool, true, false, not, ◌&&◌, Option,
  none, some, ◌==◌, if◌then◌else◌, pos, negsuc, inl, inr, Bool-cases, ==_iff, ◌↔◌, arith, leb,
  leb→le, leb→lt,
}
use pfs.Select.{Domain, first_online, turn, get_valid_ip_4_up}

-- Where the first loop stops.
data Found (online : ℕ → Bool) (ips : ℕ → ℕ) (j n : ℕ) : ℕ × Option ℕ → Type 0 where
  at_end :
      ((k : ℕ) → j ≤ k → k < j + n → online (ips k) ≡ false) → Found online ips j n (j + n, none)
  at : (k : ℕ) → j ≤ k → k < j + n → online (ips k) ≡ true → Found online ips j n (k, some (ips k))

later :
    (online : ℕ → Bool) (ips : ℕ → ℕ) (j n : ℕ) (f : ℕ × Option ℕ)
    → online (ips j) ≡ false
    → Found online ips (j + 1) n f
    → Found online ips j (suc n) f
later online ips j n f z (at_end h) =
    subst (λ x. Found online ips j (suc n) (x, none)) (omega arith)
      (at_end (λ k a b. elim (Bool-cases (k == j)) [
        | inl y ↦ ap (λ m. online (ips m)) ((==_iff k j).0 y) ∙ z
        | inr w ↦ h k (ground arith) (omega (arith, b))
      ]))
later online ips j n f z (at k a b o) = at k (omega (arith, a)) (omega (arith, b)) o

first_online-Found :
    (online : ℕ → Bool) (ips : ℕ → ℕ) (j n : ℕ) → Found online ips j n (first_online online ips j n)
unfolding first_online
first_online-Found online ips j zero =
    subst (λ x. Found online ips j 0 (x, none)) (omega arith)
      (at_end (λ k a b. absurd (omega (arith, a, b))))
first_online-Found online ips j (suc n) = elim (Bool-cases (online (ips j))) [
  | inl y ↦ rw y (at j (omega arith) (omega arith) y)
  | inr z ↦ rw z (
      later online ips j n (first_online online ips (j + 1) n) z
        (first_online-Found online ips (j + 1) n))
]

-- What is chosen: an online server of the domain, or nothing when there is none.
pub data Picks (online : ℕ → Bool) (d : Domain) : Option ℕ → Type 0 where
  nothing : ((k : ℕ) → k < d.ipcount → online (d.ips k) ≡ false) → Picks online d none
  picks : (k : ℕ) → k < d.ipcount → online (d.ips k) ≡ true → Picks online d (some (d.ips k))

-- The choice from what the first loop found.
abbrev chosen : (ℕ → Bool) → Bool → Domain → ℕ → ℕ × Option ℕ → Option ℕ
chosen online first_only d i f =
    if not first_only && not (f.0 == i)
    then (if online (d.ips i) then some (d.ips i) else f.1)
    else f.1

Found-Picks :
    (online : ℕ → Bool) (d : Domain) (f : ℕ × Option ℕ)
    → Found online d.ips 0 d.ipcount f
    → Picks online d f.1
Found-Picks online d f (at_end h) = nothing (λ k b. h k (omega arith) (omega (arith, b)))
Found-Picks online d f (at k a b o) = picks k (omega (arith, b)) o

-- Where the first loop stopped is not the turn only when there are servers.
Found-lt :
    (online : ℕ → Bool) (d : Domain) (i : ℕ) (f : ℕ × Option ℕ)
    → Found online d.ips 0 d.ipcount f
    → (0 < d.ipcount → i < d.ipcount)
    → (d.ipcount ≡ 0 → i ≡ 0)
    → (f.0 == i) ≡ false
    → i < d.ipcount
Found-lt online d i f (at_end h) a b n = ground arith
Found-lt online d i f (at k x y o) a b n = a (omega (arith, y))

chosen-Picks :
    (online : ℕ → Bool) (first_only : Bool) (d : Domain) (i : ℕ) (f : ℕ × Option ℕ)
    → Found online d.ips 0 d.ipcount f
    → (0 < d.ipcount → i < d.ipcount)
    → (d.ipcount ≡ 0 → i ≡ 0)
    → Picks online d (chosen online first_only d i f)
chosen-Picks online true d i f h a b = Found-Picks online d f h
chosen-Picks online false d i f h a b = elim (Bool-cases (f.0 == i)) [
  | inl y ↦ rw y (Found-Picks online d f h)
  | inr n ↦ rw n (elim (Bool-cases (online (d.ips i))) [
    | inl y ↦ rw y (picks i (Found-lt online d i f h a b n) y)
    | inr z ↦ rw z (Found-Picks online d f h)
  ])
]

chosen_turn :
    (online : ℕ → Bool) (d : Domain) (i : ℕ) (f : ℕ × Option ℕ)
    → Found online d.ips 0 d.ipcount f
    → i < d.ipcount
    → online (d.ips i) ≡ true
    → chosen online false d i f ≡ some (d.ips i)
chosen_turn online d i f (at_end h) l o =
    absurd (let w : true ≡ false = sym o ∙ h i (omega arith) (omega (arith, l)) in cc)
chosen_turn online d i f (at k a b o') l o = elim (Bool-cases (k == i)) [
  | inl y ↦ rw y (ap (λ m. some (d.ips m)) ((==_iff k i).0 y))
  | inr n ↦ rw (n, o) refl
]

turn_lt :
    (first_only : Bool) (d : Domain)
    → (0 < d.ipcount → turn first_only d < d.ipcount) × (d.ipcount ≡ 0 → turn first_only d ≡ 0)
unfolding turn
turn_lt first_only d = ground arith

ret_lem : (s : Option ℕ) → ((elim s [ none ↦ negsuc 0 | some ip ↦ pos 0 ]) ≡ negsuc 0) ↔ (s ≡ none)
ret_lem s = ground arith

-- Server `k` of the domain has its turn: the one that `index` counts, or the first when it is past
-- the last.
abbrev pub HasTurn : Domain → ℕ → Type 0
HasTurn d k = (d.index < d.ipcount → k ≡ d.index) × (d.ipcount ≤ d.index → k ≡ 0)

turn-HasTurn : (d : Domain) (k : ℕ) → HasTurn d k → k ≡ turn false d
unfolding turn
turn-HasTurn d k h = elim (Bool-cases (leb d.ipcount d.index)) [
  | inl y ↦ rw y (h.1 (leb→le d.ipcount d.index y))
  | inr z ↦ rw z (h.0 (leb→lt d.ipcount d.index z))
]

-- The domain after server `k` had its turn: the next server has it, and the first one after the
-- last.
pub record Rotated (d : Domain) (k : ℕ) (r : Domain) : Type 0 where
  pub ips : r.ips ≡ d.ips
  pub ipcount : r.ipcount ≡ d.ipcount
  pub next : k + 1 < d.ipcount → HasTurn r (k + 1)
  pub first : k + 1 ≡ d.ipcount → HasTurn r 0

index-Rotated : (d : Domain) (k : ℕ) → k < d.ipcount → Rotated d k (record d { index = k + 1 })
index-Rotated d k h = record {
  ips = refl;
  ipcount = refl;
  next = λ l. (λ a. refl, λ a. omega (arith, a, l));
  first = λ l. (λ a. omega (arith, a, l), λ a. refl);
}

-- A call chooses a server of the domain that is online, and fails, with -1, only when none is. In a
-- domain that takes turns and has servers, it is the server that has its turn whenever that one is
-- online, and whatever happens the next server, or the first one after the last, has the next turn.
pub get_valid_ip_4_up_lem :
    (online : ℕ → Bool) (first_only : Bool) (d : Domain)
    → Picks online d (get_valid_ip_4_up online first_only d).sip
      × (((get_valid_ip_4_up online first_only d).ret ≡ negsuc 0)
          ↔ ((get_valid_ip_4_up online first_only d).sip ≡ none))
      × (first_only ≡ false
          → 0 < d.ipcount
          → (k : ℕ) → HasTurn d k
          → Rotated d k (get_valid_ip_4_up online first_only d).domain
            × (online (d.ips k) ≡ true
                → (get_valid_ip_4_up online first_only d).sip ≡ some (d.ips k)))
unfolding get_valid_ip_4_up
get_valid_ip_4_up_lem online true d = (
  chosen-Picks online true d (turn true d) (first_online online d.ips 0 d.ipcount)
      (first_online-Found online d.ips 0 d.ipcount) ((turn_lt true d).0) ((turn_lt true d).1),
  ret_lem _,
  λ w l. absurd (let x : true ≡ false = w in cc),
)
get_valid_ip_4_up_lem online false d = (
  chosen-Picks online false d (turn false d) (first_online online d.ips 0 d.ipcount)
      (first_online-Found online d.ips 0 d.ipcount) ((turn_lt false d).0) ((turn_lt false d).1),
  ret_lem _,
  λ w l k t.
      let e = turn-HasTurn d k t in
      (
        subst (λ n. Rotated d k (record d { index = n + 1 })) e
            (index-Rotated d k (subst (λ n. n < d.ipcount) (sym e) ((turn_lt false d).0 l))),
        λ o.
            chosen_turn online d (turn false d) (first_online online d.ips 0 d.ipcount)
              (first_online-Found online d.ips 0 d.ipcount) ((turn_lt false d).0 l)
              (subst (λ n. online (d.ips n) ≡ true) e o)
            ∙ ap (λ n. some (d.ips n)) (sym e),
      ),
)
