-- ===== src/Task/Moves.antt =====
-- How the list operations of network/pfs_task.c change what a queue holds: occurrences and lengths.
use pfs.Common.{
  ℕ, suc, ◌+◌, ◌-◌, ◌≤◌, min, ◌≡◌, ◌≢◌, refl, List, [], ◌∷◌, ◌++◌, ◌==◌, if◌then◌else◌, length,
  arith,
}
use pfs.Task.{remove}

-- How often a task is in a queue.
abbrev pub occurs : ℕ → List ℕ → ℕ
occurs t [] = 0
occurs t (x ∷ xs) = if x == t then suc (occurs t xs) else occurs t xs

pub occurs-remove : (t : ℕ) (xs : List ℕ) → occurs t (remove t xs) ≡ occurs t xs - 1
unfolding remove
occurs-remove t [] = refl
occurs-remove t (x ∷ xs) = let ih = occurs-remove t xs in ground arith

pub occurs-remove_ne : (t u : ℕ) (xs : List ℕ) → u ≢ t → occurs u (remove t xs) ≡ occurs u xs
unfolding remove
occurs-remove_ne t u [] n = refl
occurs-remove_ne t u (x ∷ xs) n = let ih = occurs-remove_ne t u xs n in ground arith

pub occurs_le_length : (t : ℕ) (xs : List ℕ) → occurs t xs ≤ length xs
occurs_le_length t [] = omega arith
occurs_le_length t (x ∷ xs) = let ih = occurs_le_length t xs in ground arith

pub length-remove : (t : ℕ) (xs : List ℕ) → length (remove t xs) ≡ length xs - min 1 (occurs t xs)
unfolding remove
length-remove t [] = refl
length-remove t (x ∷ xs) =
    let ih = length-remove t xs in let le = occurs_le_length t xs in ground arith

pub remove_absent : (t : ℕ) (xs : List ℕ) → occurs t xs ≡ 0 → remove t xs ≡ xs
unfolding remove
remove_absent t [] z = refl
remove_absent t (x ∷ xs) z = let ih = remove_absent t xs in ground arith

pub occurs-append : (t : ℕ) (xs ys : List ℕ) → occurs t (xs ++ ys) ≡ occurs t xs + occurs t ys
occurs-append t [] ys = omega arith
occurs-append t (x ∷ xs) ys = let ih = occurs-append t xs ys in ground arith
