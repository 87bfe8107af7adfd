-- ===== src/ActiveList/Order.antt =====
-- The order of `activelist` in a history of connections that are served.
use pfs.Common.{ℕ, ◌≤◌, Bool-cases, List, [], ◌∷◌, ◌++◌, ◌==◌, inl, inr, arith}
use pfs.ActiveList.{Active, del_active, touch, Event, touched, sent, ended, step, run}

-- No `hbtime` is above a bound, or below one.
abbrev pub AllBelow : ℕ → List Active → Type 0
AllBelow now [] = Unit {0}
AllBelow now (a ∷ l) = (a.hbtime ≤ now) × AllBelow now l

abbrev pub AllAbove : ℕ → List Active → Type 0
AllAbove t [] = Unit {0}
AllAbove t (a ∷ l) = (t ≤ a.hbtime) × AllAbove t l

-- The oldest first.
abbrev pub IsSorted : List Active → Type 0
IsSorted [] = Unit {0}
IsSorted (a ∷ l) = AllAbove a.hbtime l × IsSorted l

-- The clock does not go back, and nothing is sent in between.
abbrev pub Served : ℕ → List (ℕ × Event) → Type 0
Served now [] = Unit {0}
Served now ((t, touched fd) ∷ es) = (now ≤ t) × Served t es
Served now ((t, sent fd) ∷ es) = ⊥
Served now ((t, ended fd) ∷ es) = (now ≤ t) × Served t es

below_later : (now t : ℕ) (l : List Active) → now ≤ t → AllBelow now l → AllBelow t l
below_later now t [] h b = tt
below_later now t (a ∷ l) h b = (omega (arith, h, b.0), below_later now t l h b.1)

del_active-AllBelow :
    (now fd : ℕ) (l : List Active) → AllBelow now l → AllBelow now (del_active fd l)
unfolding del_active
del_active-AllBelow now fd [] b = tt
del_active-AllBelow now fd (a ∷ l) b = elim (Bool-cases (a.fd == fd)) [
  | inl y ↦ rw (y, del_active) b.1
  | inr z ↦ rw (z, del_active) (b.0, del_active-AllBelow now fd l b.1)
]

del_active-AllAbove : (t fd : ℕ) (l : List Active) → AllAbove t l → AllAbove t (del_active fd l)
unfolding del_active
del_active-AllAbove t fd [] b = tt
del_active-AllAbove t fd (a ∷ l) b = elim (Bool-cases (a.fd == fd)) [
  | inl y ↦ rw (y, del_active) b.1
  | inr z ↦ rw (z, del_active) (b.0, del_active-AllAbove t fd l b.1)
]

del_active-IsSorted : (fd : ℕ) (l : List Active) → IsSorted l → IsSorted (del_active fd l)
unfolding del_active
del_active-IsSorted fd [] s = tt
del_active-IsSorted fd (a ∷ l) s = elim (Bool-cases (a.fd == fd)) [
  | inl y ↦ rw (y, del_active) s.1
  | inr z ↦ rw (z, del_active) (del_active-AllAbove a.hbtime fd l s.0, del_active-IsSorted fd l s.1)
]

append-AllBelow :
    (now fd : ℕ) (l : List Active)
    → AllBelow now l
    → AllBelow now (l ++ record { fd = fd; hbtime = now } ∷ [])
append-AllBelow now fd [] b = (omega arith, tt)
append-AllBelow now fd (a ∷ l) b = (b.0, append-AllBelow now fd l b.1)

append-AllAbove :
    (t now fd : ℕ) (l : List Active)
    → t ≤ now
    → AllAbove t l
    → AllAbove t (l ++ record { fd = fd; hbtime = now } ∷ [])
append-AllAbove t now fd [] h b = (h, tt)
append-AllAbove t now fd (a ∷ l) h b = (b.0, append-AllAbove t now fd l h b.1)

append-IsSorted :
    (now fd : ℕ) (l : List Active)
    → AllBelow now l
    → IsSorted l
    → IsSorted (l ++ record { fd = fd; hbtime = now } ∷ [])
append-IsSorted now fd [] b s = (tt, tt)
append-IsSorted now fd (a ∷ l) b s =
    (append-AllAbove a.hbtime now fd l b.0 s.0, append-IsSorted now fd l b.1 s.1)

-- A history in which connections are only opened, served and closed keeps the list in order.
pub run-IsSorted :
    (now : ℕ) (es : List (ℕ × Event)) (l : List Active)
    → Served now es
    → AllBelow now l
    → IsSorted l
    → IsSorted (run es l)
unfolding run step touch
run-IsSorted now [] l v b s = s
run-IsSorted now ((t, touched fd) ∷ es) l v b s =
    let b' = del_active-AllBelow t fd l (below_later now t l v.0 b) in
    run-IsSorted t es _ v.1 (append-AllBelow t fd (del_active fd l) b')
      (append-IsSorted t fd (del_active fd l) b' (del_active-IsSorted fd l s))
run-IsSorted now ((t, sent fd) ∷ es) l v b s = absurd v
run-IsSorted now ((t, ended fd) ∷ es) l v b s =
    run-IsSorted t es _ v.1 (del_active-AllBelow t fd l (below_later now t l v.0 b))
      (del_active-IsSorted fd l s)
